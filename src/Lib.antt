-- ===== src/Lib.antt =====
-- light-speed-io: reading byte ranges of many files through io_uring.
--
-- The program. A user asks for ranges of a file (crates/lsio_io/src/lib.rs). Each thread of a pool
-- (crates/lsio_threadpool) runs a `UringWorker` (crates/lsio_uring/src/worker.rs), which takes
-- operations from its queue, submits their first entries to its ring, and keeps them in a `Tracker`
-- (tracker.rs) under an index that goes to the kernel in the user data of each entry
-- (user_data.rs). A completion brings that index back; the operation's handler then says what comes
-- next (operation.rs). `GetRanges` (get_ranges.rs) opens and measures a file and queues one
-- `GetRange` for each range; `GetRange` (get_range.rs) reads into an aligned buffer (sqe.rs,
-- crates/lsio_aligned_bytes/src/lib.rs), sends it to the user, and, where it is the last owner of
-- the file, makes way for `Close` (close.rs).
--
-- The files.
-- - Prelude and its children: Booleans, lists and integers over the native ℕ, and `Exec`, the
--   result of code that may panic. An `unwrap`, `assert` or index of a modelled function is a step
--   in `Exec`, with the panic it raises, but for those where the ring is made or a thread is
--   spawned.
-- - Arc: `std::sync::Arc`. A handle is an index into a list of owner counts, which the code
--   threads: `Arc::new`, `clone`, the end of a handle's life and `strong_count` act on that list.
-- - Bytes: `InnerBuffer`; Bytes/Writable: `AlignedBytesMut`; Bytes/Frozen: `AlignedBytes`. A method
--   that changes `self` returns it anew. The allocator is a parameter. Bytes/Views: what a split
--   gives. Bytes/Store: the views that are alive, the owner counts and the buffers that were given
--   back, as a relation whose steps are the operations on views and the end of a view's life. Its
--   children: Apart, which views may live beside each other; Counted, the owner counts; Fresh,
--   Slots, Cut and Safe, that each step keeps both; Owners, what follows. Bytes/Memory: the bytes
--   behind the pointers, and the crate's unit test; its children hold theorems.
-- - UserData: opcode.rs and user_data.rs; its children hold theorems. OpenFile: open_file.rs.
-- - Sqe: sqe.rs. An entry is what the code hands to the io-uring crate. `build_read_range_sqe`
--   stands in parts, of which `skip_prefix`, `freeze_slice` and `build_read_sqe` are consecutive
--   sections of the function. Sqe/Reads, Sqe/Panics and Sqe/Delivery hold its theorems.
-- - Tracker: tracker.rs. Tracker/Slots and Tracker/Invariant: which indices are free.
--   Tracker/Refines: a tracker as a partial map from indices to operations, with the calls composed
--   as the worker does. Tracker/Runs: sequences of calls.
-- - Ops/State: the structs of the operations, and the world that a handler changes: the submission
--   queue, the channel to the user, the thread's own queue, and the counts of buffers and files.
--   Ops/Close, Ops/GetRange, Ops/GetRanges: the handlers. Ops/Dispatch: operation.rs. Ops/Observed:
--   what the queues promise. Ops/Expected, Ops/Finished, Ops/Handled, Ops/Submitted: which
--   completions an operation waits for. Ops/Accounts, Ops/Silent: which answers it owes.
--   Ops/Limits, Ops/Messages, Ops/Reading, Ops/Opening, Ops/Completions: theorems.
-- - Worker: worker.rs. A turn of the loop is `round`, which takes what the thread finds outside:
--   the lengths of the rings, the task, and the completions. Worker/Completions, Worker/Turns and
--   Worker/Lifetime: theorems. Worker/Protocol: the worker and the kernel as a step relation, whose
--   steps are a submission, the kernel taking entries, and `handle_cqe` on the completion of an
--   entry that was taken; in any order, each at most once. Its children hold the theorems;
--   Worker/Protocol/Room is about the room in the submission queue.
-- - Threadpool/State, Threadpool/ParkManager, Threadpool/Sharing: park_manager.rs, shared_state.rs,
--   and the methods of worker.rs and threadpool.rs that push, park and stop. Threadpool/Wakeups:
--   the pool as a step relation, whose steps are those methods, `thread::park` with its token or,
--   where the relation allows it, without one, and the receipt of a command by the manager, which
--   may panic. Threadpool/Order and the children of Threadpool/Wakeups: theorems, of which
--   Threadpool/Wakeups/Sound is about pools with early returns too. Threadpool/Stealing:
--   `find_task`, over the deques of crossbeam-deque as a record of calls;
--   Threadpool/Stealing/Documented: what their documentation says; Threadpool/Stealing/Found: the
--   theorem. Threadpool/Spawning: `ThreadPool::new`; Threadpool/Spawning/Shared: its theorem.
--   Threadpool/Stopping: the drop of a pool, as the steps of its loop and of the threads;
--   Threadpool/Stopping/Ending: its end.
-- - Io: crates/lsio_io/src/lib.rs, the traits of a backend, and what they promise; Io/Asked: a
--   backend that is asked many times. IoUring: io_uring.rs; IoUring/Requests: its theorem;
--   IoUring/Backend: that it is a backend. Bench: `read_files` of crates/lsio_bench/src/main.rs;
--   Bench/Chunks and Bench/Files: theorems. Bench/Setup: `create_files_if_necessary`,
--   `get_filesize` and `check_directory_or_use_temp_dir`, on a disk that gives each path the bytes
--   of a file or nothing, where the operating system may refuse to open, to create or to write. Its
--   children hold theorems. Bench/Program: `main`; Bench/Program/Complete: its theorem.
-- The files named Tests and Ops/Sample run the code on a host made of lists; Tracker/UnitTests,
-- UserData/UnitTests and Bytes/Memory hold the unit tests of the crates.
--
-- Parameters. The opcodes of the io-uring crate, the allocator, the push to the submission queue,
-- the send to the channel, the push to the thread's queue, and whether `Submitter::submit` succeeds
-- are fields of `Host`; where a theorem is about what goes through them, `Observed` states that
-- what each accepts goes to the end of what it holds. The push to the thread's queue is also
-- modelled, as `push_local` of Threadpool/Sharing; in `Host` it may panic. A completion comes with
-- what the `statx` field of its operation holds when it is handled; no theorem says what that is,
-- since the kernel writes through a pointer. That blocks of memory which were not given back do not
-- overlap is a hypothesis on the allocator where bytes are written. Which files the operating
-- system refuses to open, create or write is `Refusals`, and the messages that arrive in time and
-- whether `vmtouch` starts are arguments of the benchmark.
--
-- Numbers. File sizes, lengths and addresses are natural numbers with the checks of the source
-- written out (`try_into` at 2^63 and 2^32, `from_size_align`); a file descriptor is a natural
-- number, since only results that are not negative become one; the count of completions is a `u8`
-- and wraps. Offsets and results are integers. The loop of `find_task` runs on fuel, one for each
-- turn: where a turn that is not to be retried comes after n others, n + 1 are enough. The digits
-- of a file's number are made on fuel 10, which is enough for a `u32`. Every other loop is over a
-- list or a number. The bytes that the benchmark reports are rounded to a double.
--
-- Not modelled: making the ring, what the kernel does while a thread waits, the deques of crossbeam
-- that threads steal tasks from, the text of messages, the command line, and the output of the
-- benchmarks. The owner counts are a list that each handler reads and writes at once;
-- Worker/Lifetime also sets two threads beside each other.
pub mod Prelude
pub mod Io
pub mod Arc
pub mod Bytes
pub mod UserData
pub mod OpenFile
pub mod Sqe
pub mod Tracker
pub mod Ops
pub mod Worker
pub mod Threadpool
pub mod IoUring
pub mod Bench

-- ===== src/IoUring.antt =====
-- io_uring.rs: what the user calls.
pub mod Requests
pub mod Backend
mod Tests
use light_speed_io.Prelude.{
  ℕ, Bool, true, false, ◌||◌, ◌==◌, List, [], ◌∷◌, Option, none, some, if◌then◌else◌, Exec, Panic,
  ◌>>=◌, unwrap, returns,
}
use light_speed_io.OpenFile.{CString}
use light_speed_io.Sqe.{OffsetRange}
use light_speed_io.Ops.State.{Operation, Message}
use light_speed_io.Ops.GetRanges
use light_speed_io.Threadpool.Spawning
use light_speed_io.Threadpool.Spawning.{ThreadPool}
use light_speed_io.Threadpool.Sharing.{push_task}

-- The pool, and what has come through the channel from its workers.
pub record IoUring : Type 0 where
  pub threadpool : ThreadPool Operation
  pub output_rx : List Message

-- Each thread of the pool runs a `UringWorker`.
unfoldable pub new : ℕ → Exec IoUring
new n_worker_threads = do
  threadpool ← Spawning.new n_worker_threads
  returns (record { threadpool = threadpool; output_rx = [] })

abbrev pub completion : IoUring → List Message
completion self = self.output_rx

abbrev pub has_nul : List ℕ → Bool
has_nul [] = false
has_nul (b ∷ bytes) = (b == 0) || has_nul bytes

-- `CString::new`, on the bytes of a path.
abbrev pub to_c_string : List ℕ → Option CString
to_c_string bytes = if has_nul bytes then none else some bytes

unfoldable pub get_ranges : List ℕ → List OffsetRange → List ℕ → IoUring → Exec IoUring
get_ranges location ranges user_data self = do
  location ← unwrap (to_c_string location) Panic.nul_in_path
  task ← GetRanges.new location ranges user_data
  shared ← push_task (Operation.get_ranges task) self.threadpool.shared
  returns (record self { threadpool = record self.threadpool { shared = shared } })

-- ===== src/Ops/State.antt =====
-- The data of close.rs, get_range.rs, get_ranges.rs and operation.rs, of crates/lsio_io/src/lib.rs,
-- and the world that a handler changes.
use light_speed_io.Prelude.{
  ℕ, Bool, List, Option, some, none, Exec, Panic, Result, returns, unwrap, ◌>>=◌, ok, err,
}
use light_speed_io.Prelude.Int.{ℤ}
use light_speed_io.Arc
use light_speed_io.Arc.{Arc, Counts}
use light_speed_io.UserData.{OpCodes, UringUserData}
use light_speed_io.OpenFile.{OpenFile, OpenFileBuilder, Statx}
use light_speed_io.Bytes.{Alloc}
use light_speed_io.Bytes.Frozen
use light_speed_io.Bytes.Frozen.{AlignedBytes}
use light_speed_io.Sqe.{Entry, OffsetRange}

pub record Close : Type 0 where
  pub file : Arc OpenFile

pub record GetRange : Type 0 where
  pub file : Arc OpenFile
  pub range : OffsetRange
  pub user_data : ℕ  -- u64
  pub buffer : Option AlignedBytes

pub record GetRanges : Type 0 where
  pub open_file_builder : Option OpenFileBuilder
  pub ranges : List OffsetRange
  pub user_data : List ℕ
  pub n_cqes_received : ℕ  -- u8

pub data Operation : Type 0 where
  get_ranges : GetRanges → Operation
  get_range : GetRange → Operation
  close : Close → Operation

pub data NextStep : Type 0 where
  pending : NextStep
  done : NextStep
  replace_with : Operation → NextStep

pub record Chunk : Type 0 where
  pub buffer : AlignedBytes
  pub user_data : ℕ  -- u64

-- What `maybe_send_error` puts into the context of its error.
pub record Report : Type 0 where
  pub errno : ℕ
  pub idx_and_opcode : UringUserData
  pub cqe_result : ℤ
  pub operation : Operation

-- `anyhow::Result<Output>`: `Output` has the one constructor `Chunk`.
abbrev pub Message : Type 0
Message = Result Chunk Report

-- A completion queue entry, with what the `statx` field of its operation holds when it is handled.
pub record Completion : Type 0 where
  pub user_data : ℕ  -- u64
  pub result : ℤ  -- i32
  pub statx : Statx

-- What the crates call and do not implement: the submission queue of io-uring, the channel of
-- crossbeam, and the thread's own queue of tasks. `none` is a `PushError` or a
-- `SendError`; of `push_task` it is the panic of `WorkerThread::push` where the manager of the pool is gone.
pub record Host (Q X W : Type 0) : Type 0 where
  pub codes : OpCodes
  pub alloc : Alloc
  pub sq_push : Entry → Q → Option Q
  pub enters : Q → Bool  -- whether `Submitter::submit` succeeds
  pub send : Message → X → Option X
  pub push_task : Operation → W → Option W

-- The state that a handler may change: the queues, and the counts of owners of the buffers and of
-- the open files.
pub record World (Q X W : Type 0) : Type 0 where
  pub sq : Q
  pub tx : X
  pub thread : W
  pub buffers : Counts
  pub files : Counts

pub data PushError : Type 0 where
  push_error : PushError

module _ {Q X W : Type 0} (h : Host Q X W) where
  -- `SubmissionQueue::push`: a refused entry leaves the queue as it was.
  unfoldable pub push_entry : Entry → World Q X W → Result (Unit {0}) PushError × World Q X W
  push_entry entry w = elim (h.sq_push entry w.sq) [
    | none ↦ (err push_error, w)
    | some sq ↦ (ok tt, record w { sq = sq })
  ]

  -- `output_channel.send(m).unwrap()`
  unfoldable pub send_message : Message → World Q X W → Exec (World Q X W)
  send_message m w = do
    tx ← unwrap (h.send m w.tx) Panic.channel_disconnected
    returns (record w { tx = tx })

module _ {Q X W : Type 0} where
  abbrev pub drop_buffer : Option AlignedBytes → World Q X W → World Q X W
  drop_buffer none w = w
  drop_buffer (some b) w = record w { buffers = Frozen.drop b w.buffers }

  -- What the end of an operation's life releases.
  unfoldable pub drop_operation : Operation → World Q X W → World Q X W
  drop_operation (get_ranges _) w = w
  drop_operation (get_range op) w =
      drop_buffer op.buffer (record w { files = Arc.drop op.file w.files })
  drop_operation (close op) w = record w { files = Arc.drop op.file w.files }

-- What stands in a slot after a handler has said what comes next.
abbrev pub left : NextStep → Operation → Option Operation
left pending op = some op
left (replace_with op') op = some op'
left done op = none

-- An operation that is over, or whose place is taken, is dropped.
abbrev pub released : {Q X W : Type 0} → NextStep → Operation → World Q X W → World Q X W
released pending op w = w
released (replace_with op') op w = drop_operation op w
released done op w = drop_operation op w

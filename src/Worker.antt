-- ===== src/Worker.antt =====
-- crates/lsio_uring/src/worker.rs: the loop of one worker thread.
pub mod Completions
pub mod Lifetime
pub mod Protocol
pub mod Turns
mod Tests
use light_speed_io.Prelude.{
  ℕ, ◌+◌, ◌-◌, ◌/◌, Bool, true, false, ◌||◌, List, [], ◌∷◌, Option, some, none, Exec, Panic, ◌>>=◌,
  ◌>>◌, assert, unwrap, unwrap_ok, returns, ltb, leb, if◌then◌else◌,
}
use light_speed_io.UserData.{UringUserData, from_u64}
use light_speed_io.Tracker
use light_speed_io.Tracker.{
  Tracker, get_next_index, put, get, as_mut, remove, replace, is_full, is_empty,
}
use light_speed_io.Ops.State.{Operation, NextStep, Host, World, Completion, drop_operation}
use light_speed_io.Ops.Dispatch.{submit_first_step, process_opcode_and_submit_next_step}

abbrev pub max_sq_entries_per_iteration : ℕ
max_sq_entries_per_iteration = 2

abbrev pub sq_ring_size : ℕ
sq_ring_size = 64

abbrev pub high_water_line : ℕ
high_water_line = sq_ring_size / 2

pub record UringWorker (Q X W : Type 0) : Type 0 where
  pub ops_in_flight : Tracker Operation
  pub world : World Q X W

-- What one round of the loop finds outside the thread: the lengths of the two rings together, before
-- and after it submits, the task that it is given, and the completions that it drains. `kernel` is
-- what the kernel has taken from the submission queue meanwhile. `waits` says whether
-- `submit_and_wait` succeeds, where it is called, and `registers` whether the manager of the pool
-- takes the registration, where the thread parks.
pub record Round (Q : Type 0) : Type 0 where
  pub kernel : Q → Q
  pub len_before : ℕ
  pub cq_is_empty : Bool
  pub waits : Bool
  pub task : Option Operation
  pub len_after : ℕ
  pub registers : Bool
  pub completions : List Completion

-- How a round ends.
pub data Pace : Type 0 where
  topping_up : Pace
  parked : Pace
  drained : Pace

abbrev pub uring_is_full : ℕ → Bool
uring_is_full len = leb (sq_ring_size - max_sq_entries_per_iteration) len

module _ {Q X W : Type 0} where
  abbrev pub new : World Q X W → UringWorker Q X W
  new w = record { ops_in_flight = Tracker.new sq_ring_size; world = w }

  -- The `match` on the next step. The operation stands in its slot as the handler has left it.
  unfoldable pub settle : ℕ → NextStep → Operation → UringWorker Q X W → Exec (UringWorker Q X W)
  settle i NextStep.pending op s = returns s
  settle i (NextStep.replace_with op') op s = do
    tracker ← replace i op' s.ops_in_flight
    returns (record { ops_in_flight = tracker; world = drop_operation op s.world })
  settle i NextStep.done op s = do
    (_, tracker) ← remove i s.ops_in_flight
    returns (record { ops_in_flight = tracker; world = drop_operation op s.world })

-- Where the tracker or the ring is full and there is no completion, the thread waits for one.
wait_if_empty : {Q : Type 0} → Round Q → Exec (Unit {0})
wait_if_empty r = if r.cq_is_empty then assert r.waits Panic.submit_failed else returns tt

module _ {Q X W : Type 0} (h : Host Q X W) where
  -- The body of the loop over completions. The handler changes the operation in its slot.
  unfoldable pub handle_cqe : Completion → UringWorker Q X W → Exec (UringWorker Q X W)
  handle_cqe cqe s = do
    let u = from_u64 cqe.user_data
    guard ← get u.index_of_op s.ops_in_flight
    index ← unwrap guard Panic.slot_is_empty
    op ← as_mut index s.ops_in_flight
    (next_step, op, w) ← process_opcode_and_submit_next_step h u cqe.result cqe.statx op s.world
    tracker ← replace index op s.ops_in_flight
    settle index next_step op (record { ops_in_flight = tracker; world = w })

  unfoldable pub drain : List Completion → UringWorker Q X W → Exec (UringWorker Q X W)
  drain [] s = returns s
  drain (cqe ∷ cqes) s = handle_cqe cqe s >>= drain cqes

  -- Submit the first step of an operation, and track it.
  unfoldable pub submit : Operation → UringWorker Q X W → Exec (UringWorker Q X W)
  submit op s = do
    let (next, tracker) = get_next_index s.ops_in_flight
    index_of_op ← unwrap next Panic.no_free_index
    (r, op, w) ← submit_first_step h index_of_op op s.world
    unwrap_ok r Panic.submission_queue_full
    assert (h.enters w.sq) Panic.submit_failed
    tracker ← put index_of_op op tracker
    returns (record { ops_in_flight = tracker; world = w })

  drain_round : Round Q → UringWorker Q X W → Exec (Pace × UringWorker Q X W)
  drain_round r s = drain r.completions s >>= λ s. returns (drained, s)

  -- Where neither the tracker nor the ring is full.
  take_task : Round Q → Option Operation → UringWorker Q X W → Exec (Pace × UringWorker Q X W)
  take_task r (some op) s = do
    s ← submit op s
    if ltb r.len_after high_water_line then returns (topping_up, s) else drain_round r s
  take_task r none s =
      if is_empty s.ops_in_flight
      then (assert r.registers Panic.manager_is_gone >> returns (parked, s))
      else drain_round r s

  -- One round of `while keep_running()`.
  unfoldable pub round : Round Q → UringWorker Q X W → Exec (Pace × UringWorker Q X W)
  unfolding take_task drain_round wait_if_empty
  round r s =
      let s' : UringWorker Q X W = record s {
        world = record (s.world) { sq = r.kernel (s.world).sq };
      } in
      if is_full s'.ops_in_flight || uring_is_full r.len_before
      then (wait_if_empty r >> drain_round r s')
      else take_task r r.task s'

  -- The rounds until the thread is told to stop, and the assertion at the end.
  unfoldable pub run : List (Round Q) → UringWorker Q X W → Exec (UringWorker Q X W)
  run [] s = assert (is_empty s.ops_in_flight) Panic.operations_in_flight >> returns s
  run (r ∷ rs) s = round r s >>= λ (_, s). run rs s

-- ===== src/Threadpool/Spawning.antt =====
-- threadpool.rs and worker.rs: the making of a pool and of its worker threads.
pub mod Shared
mod Tests
use light_speed_io.Prelude.{
  ℕ, zero, suc, List, [], ◌∷◌, Option, none, some, Exec, Panic, ◌>>=◌, unwrap, returns,
}
use light_speed_io.Tracker.{range_from}
use light_speed_io.Threadpool.State.{SharedState}
use light_speed_io.Threadpool.Sharing

-- A queue, and the stealers that take from it, are named by a number. The state that all threads share
-- stands in the pool once.
pub record WorkerThread : Type 0 where
  pub local_queue : ℕ
  pub stealers : List ℕ

pub record ThreadPool (T : Type 0) : Type 0 where
  pub worker_threads : List WorkerThread
  pub shared : SharedState T

-- `Vec::pop`: the last element, and those before it.
abbrev pub pop_last : List ℕ → Option (ℕ × List ℕ)
pop_last [] = none
pop_last (x ∷ []) = some (x, [])
pop_last (x ∷ y ∷ xs) = elim (pop_last (y ∷ xs)) [
  | none ↦ none
  | some (last, front) ↦ some (last, x ∷ front)
]

-- The loop that starts `n` threads, each with a queue of its own.
unfoldable pub spawn : ℕ → List ℕ → List ℕ → Exec (List WorkerThread)
spawn zero local_queues stealers = returns []
spawn (suc n) local_queues stealers = do
  (local_queue, local_queues) ← unwrap (pop_last local_queues) Panic.nothing_to_pop
  others ← spawn n local_queues stealers
  returns (record { local_queue = local_queue; stealers = stealers } ∷ others)

module _ {T : Type 0} where
  unfoldable pub new : ℕ → Exec (ThreadPool T)
  new n_worker_threads = do
    let local_queues = range_from 0 n_worker_threads
    worker_threads ← spawn n_worker_threads local_queues local_queues
    returns (record { worker_threads = worker_threads; shared = Sharing.new })

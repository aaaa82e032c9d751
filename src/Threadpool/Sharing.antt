-- ===== src/Threadpool/Sharing.antt =====
-- shared_state.rs, and the methods of worker.rs and threadpool.rs that push tasks, park and stop.
use light_speed_io.Prelude.{
  ℕ, ◌%◌, ◌^◌, Bool, true, false, List, [], ◌∷◌, ◌++◌, length, ltb, if◌then◌else◌, Exec, Panic,
  returns, panics, ◌>>=◌,
}
use light_speed_io.Threadpool.State.{Command, ParkManager, SharedState}
use light_speed_io.Threadpool.ParkManager.{main_loop}

-- `join().unwrap()` on the thread of the manager, which handles what is in its channel.
abbrev pub join_manager : Exec (List ℕ × ParkManager) → Exec ParkManager
join_manager (returns (_, manager)) = returns manager
join_manager (panics _) = panics Panic.manager_panicked

module _ {T : Type 0} where
  -- The state that `ThreadPool::new` shares.
  abbrev pub new : SharedState T
  new = record {
    injector = [];
    keep_running = true;
    chan_to_park_manager = [];
    at_least_one_thread_is_parked = false;
    manager_is_listening = true;
  }

  -- Into the channel of the manager, with the `unwrap` of what `send` returns.
  abbrev pub send : Command → SharedState T → Exec (SharedState T)
  send c s =
      if s.manager_is_listening
      then returns (record s { chan_to_park_manager = s.chan_to_park_manager ++ (c ∷ []) })
      else panics Panic.manager_is_gone

  unfoldable pub unpark_at_most_n_threads : ℕ → SharedState T → Exec (SharedState T)
  unpark_at_most_n_threads n s =
      if s.at_least_one_thread_is_parked
      then send (Command.wake_at_most_n_threads n) s
      else returns s

  -- `ThreadPool::push`
  unfoldable pub push_task : T → SharedState T → Exec (SharedState T)
  push_task task s = unpark_at_most_n_threads 1 (record s { injector = s.injector ++ (task ∷ []) })

  -- `WorkerThread::push`, on a queue of the thread's own. The length is cast to a `u32`.
  unfoldable pub push_local : T → List T → SharedState T → Exec (List T × SharedState T)
  push_local task local_queue s =
      let local_queue' = local_queue ++ (task ∷ []) in
      let n = length local_queue' in
      (if ltb 1 n then unpark_at_most_n_threads (n % 2 ^ 32) s else returns s) >>= λ s.
      returns (local_queue', s)

  -- The part of `WorkerThread::park` before the thread sleeps.
  unfoldable pub register : ℕ → SharedState T → Exec (SharedState T)
  register t s = send (Command.thread_is_parked t) s

  abbrev pub keep_running : SharedState T → Bool
  keep_running s = s.keep_running

  -- What `Drop` of the pool does to the shared state, first and last.
  abbrev pub stop_workers : SharedState T → SharedState T
  stop_workers s = record s { keep_running = false }

  -- Beside the shared state, the manager as it is when the pool is dropped.
  unfoldable pub stop_park_manager : ParkManager → SharedState T → Exec (SharedState T)
  stop_park_manager manager s = do
    s ← send Command.stop s
    manager ← join_manager (main_loop s.chan_to_park_manager manager)
    returns (record s {
      chan_to_park_manager = [];
      at_least_one_thread_is_parked = manager.at_least_one_thread_is_parked;
      manager_is_listening = false;
    })

-- ===== src/Threadpool/State.antt =====
-- The data of park_manager.rs and shared_state.rs. A thread is a number.
use light_speed_io.Prelude.{ℕ, Bool, List}

-- `ParkManagerCommand`
pub data Command : Type 0 where
  wake_at_most_n_threads : ℕ → Command  -- u32
  thread_is_parked : ℕ → Command
  stop : Command

-- The flag is shared; only the manager writes it.
pub record ParkManager : Type 0 where
  pub at_least_one_thread_is_parked : Bool
  pub parked_threads : List ℕ

-- `SharedState`: the queue of tasks from outside, the flags, and the commands that were sent to the
-- manager and that it has not received. `manager_is_listening` says whether the other end of that channel
-- is still there: the manager drops it when it ends.
pub record SharedState (T : Type 0) : Type 0 where
  pub injector : List T
  pub keep_running : Bool
  pub chan_to_park_manager : List Command
  pub at_least_one_thread_is_parked : Bool
  pub manager_is_listening : Bool

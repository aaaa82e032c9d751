-- ===== src/Threadpool/ParkManager.antt =====
-- park_manager.rs: the loop of the manager's thread. Beside the manager it returns the threads that it
-- has called `unpark` on, in order.
use light_speed_io.Prelude.{
  ℕ, zero, suc, Bool, true, false, not, ◌||◌, List, [], ◌∷◌, ◌++◌, Exec, Panic, ◌>>=◌, ◌>>◌, assert,
  returns, ◌==◌, if◌then◌else◌,
}
use light_speed_io.Threadpool.State.{Command, ParkManager}

abbrev pub elem : ℕ → List ℕ → Bool
elem t [] = false
elem t (pt ∷ pts) = pt == t || elem t pts

abbrev pub is_empty : List ℕ → Bool
is_empty [] = true
is_empty (t ∷ ts) = false

-- The manager as `start` makes it.
abbrev pub new : ParkManager
new = record { at_least_one_thread_is_parked = false; parked_threads = [] }

-- In a build with debug assertions, as the tests are.
unfoldable pub thread_is_parked : ℕ → ParkManager → Exec ParkManager
thread_is_parked t self = do
  assert (not (elem t self.parked_threads)) Panic.already_parked
  returns (record {
    at_least_one_thread_is_parked = true;
    parked_threads = self.parked_threads ++ (t ∷ []);
  })

-- The loop of `wake_at_most_n_threads`: the threads that are unparked, then those that are left.
abbrev pub pop_threads : ℕ → List ℕ → List ℕ × List ℕ
pop_threads zero ts = ([], ts)
pop_threads (suc n) [] = ([], [])
pop_threads (suc n) (t ∷ ts) = let rest = pop_threads n ts in (t ∷ rest.0, rest.1)

unfoldable pub wake_at_most_n_threads : ℕ → ParkManager → List ℕ × ParkManager
wake_at_most_n_threads n self =
    let popped = pop_threads n self.parked_threads in
    (
      popped.0,
      record {
        at_least_one_thread_is_parked =
            if is_empty popped.1 then false else self.at_least_one_thread_is_parked;
        parked_threads = popped.1;
      },
    )

-- The commands in the order in which they arrive. Without a `stop` the loop ends when every sender is
-- gone.
unfoldable pub main_loop : List Command → ParkManager → Exec (List ℕ × ParkManager)
main_loop [] self = returns ([], self)
main_loop (Command.stop ∷ commands) self = returns ([], self)
main_loop (Command.thread_is_parked t ∷ commands) self =
    thread_is_parked t self >>= main_loop commands
main_loop (Command.wake_at_most_n_threads n ∷ commands) self =
    let woken = wake_at_most_n_threads n self in
    main_loop commands woken.1 >>= λ (later, self'). returns (woken.0 ++ later, self')

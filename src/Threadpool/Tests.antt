-- ===== src/Threadpool/Tests.antt =====
-- The theorems about the pool, at one thread that finds nothing and parks.
use light_speed_io.Prelude.{
  ℕ, ◌+◌, ◌≡◌, inl, refl, true, false, List, [], ◌∷◌, ◌++◌, some, returns, panics, Panic, get_elem?,
  length,
}
use light_speed_io.Threadpool.State.{Command, ParkManager, SharedState}
use light_speed_io.Threadpool.ParkManager.{thread_is_parked, wake_at_most_n_threads, main_loop}
use light_speed_io.Threadpool.Order.{IsCoherent, main_loop_lem}
use light_speed_io.Threadpool.Sharing.{
  push_local, register, stop_park_manager, unpark_at_most_n_threads,
}
use light_speed_io.Threadpool.Wakeups.{
  Pool, Phase, start, here, step, Reach, finds_nothing, registers, notes, sleeps, returns_early,
}
use light_speed_io.Threadpool.Wakeups.Lost.{lost_wakeup}
use light_speed_io.Threadpool.Wakeups.Asleep.{
  asleep-known, thread_is_parked-accepts, push_task-wakes,
}

-- Threads 4, 5 and 6 are parked.
abbrev three_parked : ParkManager
three_parked = record { at_least_one_thread_is_parked = true; parked_threads = 4 ∷ 5 ∷ 6 ∷ [] }

wake_two :
    wake_at_most_n_threads 2 three_parked
    ≡ (4 ∷ 5 ∷ [], record { at_least_one_thread_is_parked = true; parked_threads = 6 ∷ [] })
unfolding wake_at_most_n_threads
wake_two = refl

-- Thread 4 is woken and parks again.
abbrev sample_commands : List Command
sample_commands = Command.wake_at_most_n_threads 1 ∷ Command.thread_is_parked 4 ∷ Command.stop ∷ []

main_loop_lem_example :
    (woken : List ℕ) × (m' : ParkManager) × (main_loop sample_commands three_parked
      ≡ returns (woken, m'))
    × (woken ++ m'.parked_threads ≡ 4 ∷ 5 ∷ 6 ∷ 4 ∷ [])
    × (length woken ≡ 1)
    × IsCoherent m'
main_loop_lem_example = main_loop_lem sample_commands three_parked refl (refl, tt)

-- On a queue of one task nobody is woken.
abbrev some_parked : SharedState ℕ
some_parked = record {
  injector = [];
  keep_running = true;
  chan_to_park_manager = [];
  at_least_one_thread_is_parked = true;
  manager_is_listening = true;
}

push_local_alone : push_local 7 [] some_parked ≡ returns (7 ∷ [], some_parked)
unfolding push_local
push_local_alone = refl

push_local_second :
    push_local 8 (7 ∷ []) some_parked
    ≡ returns (
      7 ∷ 8 ∷ [],
      record some_parked { chan_to_park_manager = Command.wake_at_most_n_threads 2 ∷ [] },
    )
unfolding push_local unpark_at_most_n_threads
push_local_second = refl

-- Once the manager has gone, whoever would wake a thread panics.
push_local_gone :
    push_local 8 (7 ∷ []) (record some_parked { manager_is_listening = false })
    ≡ panics Panic.manager_is_gone
unfolding push_local unpark_at_most_n_threads
push_local_gone = refl

-- The pool is dropped: the manager handles what is in its channel, and ends.
stop_park_manager_stops :
    stop_park_manager three_parked some_parked
    ≡ returns (record some_parked { manager_is_listening = false })
unfolding stop_park_manager main_loop
stop_park_manager_stops = refl

abbrev one_idle : Pool ℕ
one_idle = record (start 1) { phases = Phase.idle ∷ [] }

abbrev registering : Pool ℕ
registering = record one_idle {
  shared = record (one_idle.shared) { chan_to_park_manager = Command.thread_is_parked 0 ∷ [] };
  phases = Phase.leaving ∷ [];
}

abbrev sleeping : Pool ℕ
sleeping = record {
  shared = record (one_idle.shared) { at_least_one_thread_is_parked = true };
  manager = record { at_least_one_thread_is_parked = true; parked_threads = 0 ∷ [] };
  phases = Phase.asleep ∷ [];
  tokens = false ∷ [];
}

registering_reached : Reach false (start 1) registering
unfolding register
registering_reached = step (finds_nothing 0 refl refl) (step (registers 0 _ refl refl) here)

sleeping_reached : Reach false (start 1) sleeping
unfolding register thread_is_parked
sleeping_reached = step (finds_nothing 0 refl refl) (
    step (registers 0 _ refl refl)
      (step (notes 0 [] sleeping.manager refl refl) (step (sleeps 0 refl refl) here)))

-- A thread that returns early from `thread::park` registers again while it is parked, and the manager
-- panics.
abbrev parked_again : Pool ℕ
parked_again = record sleeping {
  shared = record (sleeping.shared) { chan_to_park_manager = Command.thread_is_parked 0 ∷ [] };
  phases = Phase.leaving ∷ [];
}

parked_again_reached : Reach true sleeping parked_again
unfolding register
parked_again_reached =
    step (returns_early 0 refl refl)
      (step (finds_nothing 0 refl refl) (step (registers 0 _ refl refl) here))

parked_again_refused : thread_is_parked 0 sleeping.manager ≡ panics Panic.already_parked
unfolding thread_is_parked
parked_again_refused = refl

asleep-known_example : 1 + 0 ≡ 1
asleep-known_example = asleep-known 1 sleeping 0 sleeping_reached refl refl

thread_is_parked-accepts_example :
    thread_is_parked 0 registering.manager
    ≡ returns (record { at_least_one_thread_is_parked = true; parked_threads = 0 ∷ [] })
thread_is_parked-accepts_example =
    thread_is_parked-accepts 1 registering 0 [] registering_reached refl

push_task-wakes_example :
    (q : Pool ℕ) × Reach false sleeping q
    × ((q.shared).injector ≡ 9 ∷ [])
    × (get_elem? q.tokens 0 ≡ some true)
    × ((q.manager).parked_threads ≡ [])
push_task-wakes_example =
    push_task-wakes false 1 sleeping 0 [] 9 sleeping_reached refl refl (inl refl)

lost_wakeup_example :
    (q : Pool ℕ) × Reach false one_idle q
    × ((q.shared).injector ≡ 9 ∷ [])
    × ((q.shared).chan_to_park_manager ≡ [])
    × (get_elem? q.phases 0 ≡ some Phase.asleep)
    × (get_elem? q.tokens 0 ≡ some false)
lost_wakeup_example = lost_wakeup one_idle 0 9 (record {
  idle_thread = refl;
  no_token = refl;
  no_task = refl;
  no_command = refl;
  flag = refl;
  listens = refl;
  none_parked = refl;
})

-- ===== src/Threadpool/Wakeups.antt =====
-- crates/lsio_threadpool/src/worker.rs and threadpool.rs: the pool as a system of steps. Users push,
-- threads look for tasks, register and sleep, and the manager receives commands, in any order. A call
-- and the handling of a command are one step each; tasks come from the queue of the pool only.
pub mod Counting
pub mod Known
pub mod Lost
pub mod Sound
pub mod Asleep
use light_speed_io.Prelude.{
  ℕ, ◌+◌, ◌≡◌, Bool, true, false, List, [], ◌∷◌, ◌++◌, Option, none, some, Exec, Panic, returns,
  panics, get_elem?, set, replicate,
}
use light_speed_io.Threadpool.State.{Command, ParkManager, SharedState}
use light_speed_io.Threadpool.ParkManager.{thread_is_parked, wake_at_most_n_threads}
use light_speed_io.Threadpool.ParkManager
use light_speed_io.Threadpool.Sharing
use light_speed_io.Threadpool.Sharing.{push_task, register}

-- Where a worker thread stands in `match find_task() { ..., None => park() }`.
pub data Phase : Type 0 where
  searching : Phase
  idle : Phase  -- `find_task` has returned `None`
  leaving : Phase  -- the manager has been told, and `thread::park` is next
  asleep : Phase

-- A thread has a token after `unpark`, which lets it through `thread::park`.
pub record Pool (T : Type 0) : Type 0 where
  pub shared : SharedState T
  pub manager : ParkManager
  pub phases : List Phase
  pub tokens : List Bool

abbrev pub give : List ℕ → List Bool → List Bool
give [] tokens = tokens
give (t ∷ ts) tokens = give ts (set tokens t true)

module _ {T : Type 0} where
  -- The shared state once the first command is received and the manager is `m`.
  abbrev pub received : List Command → ParkManager → SharedState T → SharedState T
  received commands m s = record s {
    chan_to_park_manager = commands;
    at_least_one_thread_is_parked = m.at_least_one_thread_is_parked;
  }

  -- The manager panics while it registers a thread: its flag is set first, and its channel is dropped.
  abbrev pub abandoned : SharedState T → SharedState T
  abandoned s = record s {
    chan_to_park_manager = [];
    at_least_one_thread_is_parked = true;
    manager_is_listening = false;
  }

  -- `early` says whether `thread::park` may return without a token, as its documentation allows. A
  -- thread whose registration panics has ended: it stays `idle` for good.
  pub data Step (early : Bool) (p : Pool T) : Pool T → Type 0 where
    pushes :
        (task : T) (s : SharedState T)
        → push_task task p.shared ≡ returns s
        → Step early p (record p { shared = s })
    push_fails :
        (task : T) (panic : Panic)
        → push_task task p.shared ≡ panics panic
        → Step early p (record p {
          shared = record (p.shared) { injector = (p.shared).injector ++ (task ∷ []) };
        })
    takes :
        (i : ℕ) (task : T) (rest : List T)
        → get_elem? p.phases i ≡ some searching
        → (p.shared).injector ≡ task ∷ rest
        → Step early p (record p { shared = record (p.shared) { injector = rest } })
    finds_nothing :
        (i : ℕ)
        → get_elem? p.phases i ≡ some searching
        → (p.shared).injector ≡ []
        → Step early p (record p { phases = set p.phases i idle })
    registers :
        (i : ℕ) (s : SharedState T)
        → get_elem? p.phases i ≡ some idle
        → register i p.shared ≡ returns s
        → Step early p (record p { shared = s; phases = set p.phases i leaving })
    sleeps :
        (i : ℕ)
        → get_elem? p.phases i ≡ some leaving
        → get_elem? p.tokens i ≡ some false
        → Step early p (record p { phases = set p.phases i asleep })
    passes :
        (i : ℕ)
        → get_elem? p.phases i ≡ some leaving
        → get_elem? p.tokens i ≡ some true
        → Step early p
            (record p { phases = set p.phases i searching; tokens = set p.tokens i false })
    wakes :
        (i : ℕ)
        → get_elem? p.phases i ≡ some asleep
        → get_elem? p.tokens i ≡ some true
        → Step early p
            (record p { phases = set p.phases i searching; tokens = set p.tokens i false })
    returns_early :
        (i : ℕ)
        → early ≡ true
        → get_elem? p.phases i ≡ some asleep
        → Step early p (record p { phases = set p.phases i searching })
    notes :
        (t : ℕ) (commands : List Command) (m : ParkManager)
        → (p.shared).chan_to_park_manager ≡ Command.thread_is_parked t ∷ commands
        → thread_is_parked t p.manager ≡ returns m
        → Step early p (record p { shared = received commands m p.shared; manager = m })
    gives_up :
        (t : ℕ) (commands : List Command) (panic : Panic)
        → (p.shared).chan_to_park_manager ≡ Command.thread_is_parked t ∷ commands
        → thread_is_parked t p.manager ≡ panics panic
        → Step early p (record p { shared = abandoned p.shared })
    unparks :
        (n : ℕ) (commands : List Command) (woken : List ℕ) (m : ParkManager)
        → (p.shared).chan_to_park_manager ≡ Command.wake_at_most_n_threads n ∷ commands
        → wake_at_most_n_threads n p.manager ≡ (woken, m)
        → Step early p (record p {
          shared = received commands m p.shared;
          manager = m;
          tokens = give woken p.tokens;
        })

  pub data Reach (early : Bool) : Pool T → Pool T → Type 0 where
    here : {p : Pool T} → Reach early p p
    step : {p q r : Pool T} → Step early p q → Reach early q r → Reach early p r

  -- A pool of `n` threads, as it starts.
  abbrev pub start : ℕ → Pool T
  start n = record {
    shared = Sharing.new;
    manager = ParkManager.new;
    phases = replicate n searching;
    tokens = replicate n false;
  }

-- ===== src/Threadpool/Wakeups/Asleep.antt =====
-- The pool: theorems about every state that it comes to, most of them while no thread returns early from
-- `thread::park`.
use light_speed_io.Prelude.{
  ℕ, zero, suc, ◌+◌, ◌≡◌, ◌⊎◌, inl, inr, Bool, refl, sym, ◌∙◌, arith, true, false, List, [], ◌∷◌,
  ◌++◌, some, returns, get_elem?, times, set, replicate, subst, returns_or_panics,
}
use light_speed_io.Threadpool.State.{Command, ParkManager}
use light_speed_io.Threadpool.ParkManager.{thread_is_parked}
use light_speed_io.Threadpool.Wakeups.{
  Pool, Step, start, give, here, step, Reach, pushes, push_fails, takes, returns_early, gives_up,
  finds_nothing, registers, sleeps, passes, wakes, notes, unparks, idle, leaving, asleep, searching,
  received,
}
use light_speed_io.Threadpool.Wakeups.Known.{
  Inv, push_task-kept, register-registered, moves-Inv, returns-Inv, registers-Inv,
  next_registration, notes-Inv, unparks-Inv,
}
use light_speed_io.Threadpool.Wakeups.Sound.{length-replicate, push_task-gives}
use light_speed_io.Threadpool.Wakeups.Counting.{registrations, held, away}

start-known :
    (n i : ℕ) → held (get_elem? (replicate n false) i) ≡ away (get_elem? (replicate n searching) i)
start-known zero i = refl
start-known (suc n) zero = refl
start-known (suc n) (suc i) = start-known n i

module _ {T : Type 0} where
  Step-Inv : (p q : Pool T) → Inv p → Step false p q → Inv q
  Step-Inv p _ v (pushes task s e) =
      let (same, flag, stays) = push_task-kept task p.shared s e in
      record {
        size = v.size;
        known = λ i. simp same (v.known i);
        coherent = v.coherent;
        agrees = flag ∙ v.agrees;
        listens = stays ∙ v.listens;
      }
  Step-Inv p _ v (push_fails task panic e) = record {
    size = v.size;
    known = v.known;
    coherent = v.coherent;
    agrees = v.agrees;
    listens = v.listens;
  }
  Step-Inv p _ v (takes i task rest e f) = record {
    size = v.size;
    known = v.known;
    coherent = v.coherent;
    agrees = v.agrees;
    listens = v.listens;
  }
  Step-Inv p _ v (finds_nothing i e f) = moves-Inv p i searching idle v e refl
  Step-Inv p _ v (registers i s e f) =
      subst (λ s. Inv (record p { shared = s; phases = set p.phases i leaving }))
        (register-registered i p.shared s f) (registers-Inv p i v e)
  Step-Inv p _ v (sleeps i e f) = moves-Inv p i leaving asleep v e refl
  Step-Inv p _ v (passes i e f) = returns-Inv p i leaving v e refl f
  Step-Inv p _ v (wakes i e f) = returns-Inv p i asleep v e refl f
  Step-Inv p _ v (returns_early i never e) = absurd (cc never)
  Step-Inv p _ v (notes t commands m e f) = notes-Inv p t commands m v e f
  Step-Inv p _ v (gives_up t commands panic e f) =
      absurd (returns_or_panics panic (next_registration p t commands v e) f)
  Step-Inv p _ v (unparks n commands woken m e f) =
      subst
        (λ (x : List ℕ × ParkManager). Inv (record p {
          shared = received commands x.1 p.shared;
          manager = x.1;
          tokens = give x.0 p.tokens;
        }))
        f (unparks-Inv p n commands v e)

  steps-Inv : {p q : Pool T} → Inv p → Reach false p q → Inv q
  steps-Inv v here = v
  steps-Inv {p} v (step {q} s rest) = steps-Inv (Step-Inv p q v s) rest

  start-Inv : (n : ℕ) → Inv (start {T = T} n)
  start-Inv n = record {
    size = length-replicate n false ∙ sym (length-replicate n searching);
    known = λ i. omega (arith, start-known n i);
    coherent = refl;
    agrees = refl;
    listens = refl;
  }

  -- In every state that a pool comes to while no thread returns from `thread::park` without a token, a
  -- thread that sleeps without a token stands exactly once among the parked threads and the
  -- registrations on their way to the manager.
  pub asleep-known :
      (n : ℕ) (p : Pool T) (i : ℕ)
      → Reach false (start n) p
      → get_elem? p.phases i ≡ some asleep
      → get_elem? p.tokens i ≡ some false
      → times i (p.manager).parked_threads + times i (registrations (p.shared).chan_to_park_manager)
        ≡ 1
  asleep-known n p i reach e f = let v = steps-Inv (start-Inv n) reach in ground (arith, v.known i)

  -- In every state that a pool comes to while no thread returns from `thread::park` without a token, the
  -- manager accepts the registration that is next in its channel: its assertion that a thread does not
  -- park twice does not fail.
  pub thread_is_parked-accepts :
      (n : ℕ) (p : Pool T) (t : ℕ) (commands : List Command)
      → Reach false (start n) p
      → (p.shared).chan_to_park_manager ≡ Command.thread_is_parked t ∷ commands
      → thread_is_parked t p.manager
        ≡ returns (record {
          at_least_one_thread_is_parked = true;
          parked_threads = (p.manager).parked_threads ++ (t ∷ []);
        })
  thread_is_parked-accepts n p t commands reach e =
      next_registration p t commands (steps-Inv (start-Inv n) reach) e

  -- In every state that a pool comes to in which threads are parked and no command is on its way, and,
  -- where threads may have returned early from `thread::park`, the manager still listens, the next task
  -- that is pushed can reach a state, with no early return, where it waits in the queue and the thread
  -- that has parked longest has a token.
  pub push_task-wakes :
      (early : Bool) (n : ℕ) (p : Pool T) (t : ℕ) (ts : List ℕ) (task : T)
      → Reach early (start n) p
      → (p.manager).parked_threads ≡ t ∷ ts
      → (p.shared).chan_to_park_manager ≡ []
      → (early ≡ false) ⊎ ((p.shared).manager_is_listening ≡ true)
      → (q : Pool T) × Reach false p q
        × ((q.shared).injector ≡ (p.shared).injector ++ (task ∷ []))
        × (get_elem? q.tokens t ≡ some true)
        × ((q.manager).parked_threads ≡ ts)
  push_task-wakes true n p t ts task reach parked quiet (inl e) = absurd (cc e)
  push_task-wakes true n p t ts task reach parked quiet (inr listens) =
      push_task-gives true n p t ts task reach parked listens quiet
  push_task-wakes false n p t ts task reach parked quiet h =
      let listens : (p.shared).manager_is_listening ≡ true =
        (steps-Inv (start-Inv n) reach).listens in
      push_task-gives false n p t ts task reach parked listens quiet

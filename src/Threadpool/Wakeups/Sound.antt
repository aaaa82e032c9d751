-- ===== src/Threadpool/Wakeups/Sound.antt =====
-- The pool: theorems about every state that it comes to, also where threads return early from
-- `thread::park`.
use light_speed_io.Prelude.{
  ℕ, zero, suc, ◌+◌, ◌<◌, ◌≤◌, ◌≡◌, refl, sym, ◌∙◌, ap, arith, Bool, true, false, List, [], ◌∷◌,
  ◌++◌, some, returns, panics, Panic, get_elem?, get_elem?-set_self, lt_of_get_elem?, length,
  length-set, times, times-append, replicate, subst, set, dec_lt, if◌then◌else◌,
}
use light_speed_io.Threadpool.State.{Command, ParkManager, SharedState}
use light_speed_io.Threadpool.ParkManager.{elem, is_empty, thread_is_parked, wake_at_most_n_threads}
use light_speed_io.Threadpool.Order.{IsCoherent, wake_at_most_n_threads_lem, is_empty-append}
use light_speed_io.Threadpool.Sharing.{push_task, unpark_at_most_n_threads}
use light_speed_io.Threadpool.Wakeups.{
  Pool, Step, Reach, start, give, here, step, pushes, push_fails, takes, finds_nothing, registers,
  sleeps, passes, wakes, returns_early, notes, gives_up, unparks, received, leaving, searching,
}
use light_speed_io.Threadpool.Wakeups.Known.{push_task-kept, register-registered}
use light_speed_io.Threadpool.Wakeups.Counting.{registrations, registrations-append, length-give}

pub length-replicate : {A : Type 0} (n : ℕ) (x : A) → length (replicate n x) ≡ n
length-replicate zero x = refl
length-replicate (suc n) x = ap suc (length-replicate n x)

is_empty-elem : (t : ℕ) (ts : List ℕ) → elem t ts ≡ true → is_empty ts ≡ false
is_empty-elem t [] e = cc
is_empty-elem t (u ∷ ts) e = refl

thread_is_parked-returns :
    (t : ℕ) (m m' : ParkManager)
    → thread_is_parked t m ≡ returns m'
    → record { at_least_one_thread_is_parked = true; parked_threads = m.parked_threads ++ (t ∷ []) }
      ≡ m'
unfolding thread_is_parked
thread_is_parked-returns t m m' e = ground arith

thread_is_parked-panics :
    (t : ℕ) (m : ParkManager) (panic : Panic)
    → thread_is_parked t m ≡ panics panic
    → is_empty m.parked_threads ≡ false
unfolding thread_is_parked
thread_is_parked-panics t m panic e = ground (arith, is_empty-elem t m.parked_threads)

module _ {T : Type 0} where
  -- Only threads of the pool are parked or register, and both flags say whether one is parked.
  pub record Sound (p : Pool T) : Type 0 where
    pub size : length p.tokens ≡ length p.phases
    pub within :
        (i : ℕ)
        → length p.tokens ≤ i
        → times i (p.manager).parked_threads
            + times i (registrations (p.shared).chan_to_park_manager)
          ≡ 0
    pub coherent : IsCoherent p.manager
    pub agrees :
        (p.shared).at_least_one_thread_is_parked ≡ (p.manager).at_least_one_thread_is_parked

  Step-Sound : {early : Bool} (p q : Pool T) → Sound p → Step early p q → Sound q
  Step-Sound p _ v (pushes task s e) =
      let (same, flag, _) = push_task-kept task p.shared s e in
      record {
        size = v.size;
        within = λ i far. simp same (v.within i far);
        coherent = v.coherent;
        agrees = flag ∙ v.agrees;
      }
  Step-Sound p _ v (push_fails task panic e) = record {
    size = v.size;
    within = v.within;
    coherent = v.coherent;
    agrees = v.agrees;
  }
  Step-Sound p _ v (takes i task rest e f) = record {
    size = v.size;
    within = v.within;
    coherent = v.coherent;
    agrees = v.agrees;
  }
  Step-Sound p _ v (finds_nothing i e f) = record {
    size = v.size ∙ sym (length-set p.phases i _);
    within = v.within;
    coherent = v.coherent;
    agrees = v.agrees;
  }
  Step-Sound p _ v (registers i s e f) =
      let lt = lt_of_get_elem? p.phases i e in
      subst (λ s. Sound (record p { shared = s; phases = set p.phases i leaving }))
        (register-registered i p.shared s f)
        (record {
          size = v.size ∙ sym (length-set p.phases i _);
          within = λ j far. ground (
            arith,
            v.within j far,
            v.size,
            registrations-append (p.shared).chan_to_park_manager (Command.thread_is_parked i ∷ []),
            times-append j (registrations (p.shared).chan_to_park_manager) (i ∷ []),
          );
          coherent = v.coherent;
          agrees = v.agrees;
        })
  Step-Sound p _ v (sleeps i e f) = record {
    size = v.size ∙ sym (length-set p.phases i _);
    within = v.within;
    coherent = v.coherent;
    agrees = v.agrees;
  }
  Step-Sound p _ v (passes i e f) = record {
    size = length-set p.tokens i _ ∙ v.size ∙ sym (length-set p.phases i _);
    within = λ j far. v.within j (omega (arith, length-set p.tokens i false));
    coherent = v.coherent;
    agrees = v.agrees;
  }
  Step-Sound p _ v (wakes i e f) = record {
    size = length-set p.tokens i _ ∙ v.size ∙ sym (length-set p.phases i _);
    within = λ j far. v.within j (omega (arith, length-set p.tokens i false));
    coherent = v.coherent;
    agrees = v.agrees;
  }
  Step-Sound p _ v (returns_early i may e) = record {
    size = v.size ∙ sym (length-set p.phases i _);
    within = v.within;
    coherent = v.coherent;
    agrees = v.agrees;
  }
  Step-Sound p _ v (notes t commands m e f) =
      subst (λ m. Sound (record p { shared = received commands m p.shared; manager = m }))
        (thread_is_parked-returns t p.manager m f)
        (record {
          size = v.size;
          within = λ i far. ground (
            arith,
            v.within i far,
            ap registrations e,
            times-append i (p.manager).parked_threads (t ∷ []),
          );
          coherent = ground (arith, is_empty-append (p.manager).parked_threads t);
          agrees = refl;
        })
  Step-Sound p _ v (gives_up t commands panic e f) = record {
    size = v.size;
    within = λ i far. omega (arith, v.within i far);
    coherent = v.coherent;
    agrees = ground (arith, v.coherent, thread_is_parked-panics t p.manager panic f);
  }
  Step-Sound p _ v (unparks n commands woken m e f) =
      let (woken, m') = wake_at_most_n_threads n p.manager in
      let (all, _, coherent) = wake_at_most_n_threads_lem n p.manager v.coherent in
      subst
        (λ (x : List ℕ × ParkManager). Sound (record p {
          shared = received commands x.1 p.shared;
          manager = x.1;
          tokens = give x.0 p.tokens;
        }))
        f
        (record {
          size = length-give woken p.tokens ∙ v.size;
          within = λ i far.
              let split : times i (p.manager).parked_threads
                  ≡ times i woken + times i m'.parked_threads =
                ap (times i) (sym all) ∙ times-append i woken m'.parked_threads in
              let few = v.within i (omega (arith, length-give woken p.tokens)) in
              omega (arith, split, few, ap (λ c. times i (registrations c)) e);
          coherent = coherent;
          agrees = refl;
        })

  steps-Sound : {early : Bool} {p q : Pool T} → Sound p → Reach early p q → Sound q
  steps-Sound v here = v
  steps-Sound {p = p} v (step {q} s rest) = steps-Sound (Step-Sound p q v s) rest

  pub start-Sound : (n : ℕ) → Sound (start {T = T} n)
  start-Sound n = record {
    size = length-replicate n false ∙ sym (length-replicate n searching);
    within = λ i far. refl;
    coherent = refl;
    agrees = refl;
  }

  -- Where the manager listens, the next push wakes the thread that has parked longest.
  pub push_task-gives :
      (early : Bool) (n : ℕ) (p : Pool T) (t : ℕ) (ts : List ℕ) (task : T)
      → Reach early (start n) p
      → (p.manager).parked_threads ≡ t ∷ ts
      → (p.shared).manager_is_listening ≡ true
      → (p.shared).chan_to_park_manager ≡ []
      → (q : Pool T) × Reach false p q
        × ((q.shared).injector ≡ (p.shared).injector ++ (task ∷ []))
        × (get_elem? q.tokens t ≡ some true)
        × ((q.manager).parked_threads ≡ ts)
  unfolding push_task unpark_at_most_n_threads wake_at_most_n_threads
  push_task-gives early n p t ts task reach parked listens quiet =
      let v = steps-Sound (start-Sound n) reach in
      let shared : SharedState T = record (p.shared) {
        injector = (p.shared).injector ++ (task ∷ []);
        chan_to_park_manager = Command.wake_at_most_n_threads 1 ∷ [];
      } in
      let flag : (p.shared).at_least_one_thread_is_parked ≡ true =
        ground (arith, v.agrees, v.coherent) in
      let m : ParkManager = record {
        at_least_one_thread_is_parked = if is_empty ts then false else true;
        parked_threads = ts;
      } in
      let lt : t < length p.tokens = elim (dec_lt t (length p.tokens)) [
        | yes lt ↦ lt
        | no ge ↦ absurd (ground (arith, v.within t))
      ] in
      (
        record p { shared = received [] m shared; manager = m; tokens = give (t ∷ []) p.tokens },
        step (pushes task shared (simp (flag, listens, quiet)))
            (step (unparks 1 [] (t ∷ []) m refl (ground (arith, v.agrees))) here),
        refl,
        get_elem?-set_self p.tokens t true lt,
        refl,
      )

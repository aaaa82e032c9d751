-- ===== src/Threadpool/Wakeups/Known.antt =====
-- The pool: an invariant of its steps, on which threads the manager knows.
use light_speed_io.Prelude.{
  ℕ, ◌+◌, ◌<◌, ◌≡◌, ◌⊎◌, inl, inr, refl, sym, ◌∙◌, ap, arith, true, false, List, [], ◌∷◌, ◌++◌,
  some, returns, get_elem?, set, length, length-set, times, times-append, get_elem?-set_self,
  get_elem?-set_ne, lt_of_get_elem?, get_elem?_of_le, ℕ_discrete, dec_lt, subst, returns_unique,
  Bool-cases,
}
use mathlib.Core.List.{append-nil}
use light_speed_io.Threadpool.State.{Command, ParkManager, SharedState}
use light_speed_io.Threadpool.ParkManager.{thread_is_parked, wake_at_most_n_threads}
use light_speed_io.Threadpool.Sharing.{push_task, register, unpark_at_most_n_threads}
use light_speed_io.Threadpool.Order.{
  IsCoherent, wake_at_most_n_threads_lem, thread_is_parked_lem, is_empty-append,
}
use light_speed_io.Threadpool.Wakeups.{Pool, Phase, give, idle, leaving, searching, received}
use light_speed_io.Threadpool.Wakeups.Counting.{
  registrations, registrations-append, held, away, away-le, length-give, give-held, times-elem,
}

module _ {T : Type 0} where
  -- A thread that is away is parked, or its registration or its token is on its way: one of these.
  pub record Inv (p : Pool T) : Type 0 where
    pub size : length p.tokens ≡ length p.phases
    pub known :
        (i : ℕ)
        → times i (p.manager).parked_threads
            + times i (registrations (p.shared).chan_to_park_manager)
            + held (get_elem? p.tokens i)
          ≡ away (get_elem? p.phases i)
    pub coherent : IsCoherent p.manager
    pub agrees :
        (p.shared).at_least_one_thread_is_parked ≡ (p.manager).at_least_one_thread_is_parked
    pub listens : (p.shared).manager_is_listening ≡ true

module _ {T : Type 0} where
  -- A push leaves the registrations and both flags as they are.
  pub push_task-kept :
      (task : T) (s s' : SharedState T)
      → push_task task s ≡ returns s'
      → (registrations s'.chan_to_park_manager ≡ registrations s.chan_to_park_manager)
        × (s'.at_least_one_thread_is_parked ≡ s.at_least_one_thread_is_parked)
        × (s'.manager_is_listening ≡ s.manager_is_listening)
  unfolding push_task unpark_at_most_n_threads
  push_task-kept task s s' e =
      let same : registrations (s.chan_to_park_manager ++ (Command.wake_at_most_n_threads 1 ∷ []))
          ≡ registrations s.chan_to_park_manager =
        registrations-append s.chan_to_park_manager (Command.wake_at_most_n_threads 1 ∷ [])
        ∙ append-nil _ in
      ground (arith, same)

  -- A registration that reaches the manager's channel.
  abbrev pub registered : ℕ → SharedState T → SharedState T
  registered t s = record s {
    chan_to_park_manager = s.chan_to_park_manager ++ (Command.thread_is_parked t ∷ []);
  }

  pub register-registered :
      (t : ℕ) (s s' : SharedState T) → register t s ≡ returns s' → registered t s ≡ s'
  unfolding register
  register-registered t s s' e = elim (Bool-cases s.manager_is_listening) [
    | inl yes_ ↦ ground arith
    | inr no_ ↦ ground arith
  ]

  -- A thread that moves between phases in which it counts the same.
  pub moves-Inv :
      (p : Pool T) (i : ℕ) (from to : Phase)
      → Inv p
      → get_elem? p.phases i ≡ some from
      → away (some from) ≡ away (some to)
      → Inv (record p { phases = set p.phases i to })
  moves-Inv p i from to v e same = record {
    size = v.size ∙ sym (length-set p.phases i to);
    known = λ j. elim (ℕ_discrete i j) [
      | yes q ↦
          ground (arith, v.known j, get_elem?-set_self p.phases i to (lt_of_get_elem? p.phases i e))
      | no ne ↦ ground (arith, v.known j, get_elem?-set_ne p.phases i j to ne)
    ];
    coherent = v.coherent;
    agrees = v.agrees;
    listens = v.listens;
  }

  -- A thread that comes back with its token.
  pub returns-Inv :
      (p : Pool T) (i : ℕ) (from : Phase)
      → Inv p
      → get_elem? p.phases i ≡ some from
      → away (some from) ≡ 1
      → get_elem? p.tokens i ≡ some true
      → Inv (record p { phases = set p.phases i searching; tokens = set p.tokens i false })
  returns-Inv p i from v e one t = record {
    size = length-set p.tokens i false ∙ v.size ∙ sym (length-set p.phases i searching);
    known = λ j. elim (ℕ_discrete i j) [
      | yes q ↦ ground (
        arith,
        v.known j,
        get_elem?-set_self p.phases i searching (lt_of_get_elem? p.phases i e),
        get_elem?-set_self p.tokens i false (lt_of_get_elem? p.tokens i t),
      )
      | no ne ↦ ground (
        arith,
        v.known j,
        get_elem?-set_ne p.phases i j searching ne,
        get_elem?-set_ne p.tokens i j false ne,
      )
    ];
    coherent = v.coherent;
    agrees = v.agrees;
    listens = v.listens;
  }

  pub registers-Inv :
      (p : Pool T) (i : ℕ)
      → Inv p
      → get_elem? p.phases i ≡ some idle
      → Inv (record p { shared = registered i p.shared; phases = set p.phases i leaving })
  registers-Inv p i v e = record {
    size = v.size ∙ sym (length-set p.phases i leaving);
    known = λ j.
        let chan = (p.shared).chan_to_park_manager in
        let r = registrations-append chan (Command.thread_is_parked i ∷ []) in
        elim (ℕ_discrete i j) [
          | yes q ↦ ground (
            arith,
            v.known j,
            r,
            times-append j (registrations chan) (i ∷ []),
            get_elem?-set_self p.phases i leaving (lt_of_get_elem? p.phases i e),
          )
          | no ne ↦ ground (
            arith,
            v.known j,
            r,
            times-append j (registrations chan) (i ∷ []),
            get_elem?-set_ne p.phases i j leaving ne,
          )
        ];
    coherent = v.coherent;
    agrees = v.agrees;
    listens = v.listens;
  }

  -- Whoever registers next is not parked.
  pub next_registration :
      (p : Pool T) (t : ℕ) (commands : List Command)
      → Inv p
      → (p.shared).chan_to_park_manager ≡ Command.thread_is_parked t ∷ commands
      → thread_is_parked t p.manager
        ≡ returns (record {
          at_least_one_thread_is_parked = true;
          parked_threads = (p.manager).parked_threads ++ (t ∷ []);
        })
  next_registration p t commands v e = thread_is_parked_lem t p.manager (
      times-elem t (p.manager).parked_threads
        (ground (arith, v.known t, away-le (get_elem? p.phases t))))

  pub notes-Inv :
      (p : Pool T) (t : ℕ) (commands : List Command) (m : ParkManager)
      → Inv p
      → (p.shared).chan_to_park_manager ≡ Command.thread_is_parked t ∷ commands
      → thread_is_parked t p.manager ≡ returns m
      → Inv (record p { shared = received commands m p.shared; manager = m })
  notes-Inv p t commands m v e q =
      let m1 : ParkManager = record {
        at_least_one_thread_is_parked = true;
        parked_threads = (p.manager).parked_threads ++ (t ∷ []);
      } in
      let same : m1 ≡ m = returns_unique (next_registration p t commands v e) q in
      subst (λ m. Inv (record p { shared = received commands m p.shared; manager = m })) same
        (record {
          size = v.size;
          known =
              λ i. ground (arith, v.known i, times-append i (p.manager).parked_threads (t ∷ []));
          coherent = ground (arith, is_empty-append (p.manager).parked_threads t);
          agrees = refl;
          listens = v.listens;
        })

  -- What the manager takes out of its list becomes tokens.
  pub unparks-Inv :
      (p : Pool T) (n : ℕ) (commands : List Command)
      → Inv p
      → (p.shared).chan_to_park_manager ≡ Command.wake_at_most_n_threads n ∷ commands
      → let (woken, m) = wake_at_most_n_threads n p.manager in
        Inv (record p {
          shared = received commands m p.shared;
          manager = m;
          tokens = give woken p.tokens;
        })
  unparks-Inv p n commands v e =
      let (woken, m) = wake_at_most_n_threads n p.manager in
      let (all, _, coherent) = wake_at_most_n_threads_lem n p.manager v.coherent in
      record {
        size = length-give woken p.tokens ∙ v.size;
        known = λ i.
            let split : times i (p.manager).parked_threads
                ≡ times i woken + times i m.parked_threads =
              ap (times i) (sym all) ∙ times-append i woken m.parked_threads in
            let sum = v.known i in
            let same : registrations (p.shared).chan_to_park_manager ≡ registrations commands =
              ap registrations e in
            let few = away-le (get_elem? p.phases i) in
            let there : (i < length p.tokens) ⊎ (times i woken ≡ 0) =
              elim (dec_lt i (length p.tokens)) [
                | yes lt ↦ inl lt
                | no ge ↦ inr (ground (arith, split, sum, v.size, get_elem?_of_le p.phases i))
              ] in
            let g = give-held woken p.tokens i there (omega (arith, split, sum, few)) in
            omega (arith, split, sum, g, ap (times i) same);
        coherent = coherent;
        agrees = refl;
        listens = v.listens;
      }

-- ===== src/Worker/Turns.antt =====
-- worker.rs: theorems about the rounds of the loop, and the states they lead to.
use light_speed_io.Prelude.{
  ℕ, ◌+◌, ◌≡◌, refl, arith, List, [], ◌∷◌, true, false, ◌||◌, Option, some, none, returns, Panic,
  ok, err, get_elem?, length, length-set, lt_of_get_elem?, ◌∙◌, subst, returns_or_panics,
  returns_unique, Exec-cases, Option-cases, Bool-cases, inl, inr, ◌==◌, if◌then◌else◌, ltb,
}
use light_speed_io.UserData.{UringUserData, from_u64}
use light_speed_io.Tracker.{get, is_full, is_empty}
use light_speed_io.Tracker.Invariant.{
  Inv, filled, new-Inv, get_lem, as_mut_lem, get_next_index_cases, put-Inv, reserved_slot,
  length-new,
}
use light_speed_io.Tracker.Slots.{occupied}
use light_speed_io.Tracker.Refines.{lookup, capacity, lookup-set}
use light_speed_io.Ops.State.{Operation, Host, World, Completion}
use light_speed_io.Ops.Dispatch.{process_opcode_and_submit_next_step, submit_first_step}
use light_speed_io.Worker.{
  UringWorker, Round, Pace, sq_ring_size, handle_cqe, drain, submit, round, take_task, drain_round,
  wait_if_empty, new, uring_is_full, high_water_line,
}
use light_speed_io.Worker.Completions.{handle_cqe-Settled}

module _ {Q X W : Type 0} (h : Host Q X W) where
  -- No index is handed out and unused, and there are `n` slots.
  pub record IsSound (n : ℕ) (s : UringWorker Q X W) : Type 0 where
    pub inv : Inv [] s.ops_in_flight
    pub size : capacity s.ops_in_flight ≡ n

  handle_cqe-IsSound :
      (n : ℕ) (cqe : Completion) (s s' : UringWorker Q X W)
      → IsSound n s
      → handle_cqe h cqe s ≡ returns s'
      → IsSound n s'
  unfolding handle_cqe get
  handle_cqe-IsSound n cqe s s' v e =
      elim (Option-cases (get_elem? (s.ops_in_flight).ops_in_flight i)) [
        | inl outside ↦ absurd (returns_or_panics Panic.index_out_of_bounds e (simp outside))
        | inr (none, empty) ↦ absurd (returns_or_panics Panic.slot_is_empty e (simp empty))
        | inr (some op, slot) ↦
            elim (Exec-cases
              (process_opcode_and_submit_next_step h u cqe.result cqe.statx op s.world)) [
                | inl ((next, op', w'), p) ↦
                    let (t, q, k) =
                      handle_cqe-Settled h cqe s op next op' w' v.inv (ground arith) p in
                    subst (IsSound n) (returns_unique q e)
                      (record { inv = k.inv; size = k.size ∙ v.size })
                | inr (p, q) ↦ absurd (
                    returns_or_panics p e (
                      simp (
                        get_lem i op s.ops_in_flight slot,
                        as_mut_lem i op s.ops_in_flight slot,
                        q,
                      )))
              ]
      ]
    where
      u : UringUserData
      u = from_u64 cqe.user_data

      i : ℕ
      i = u.index_of_op

  drain-IsSound :
      (n : ℕ) (cqes : List Completion) (s s' : UringWorker Q X W)
      → IsSound n s
      → drain h cqes s ≡ returns s'
      → IsSound n s'
  unfolding drain
  drain-IsSound n [] s s' v e = subst (IsSound n) (returns_unique refl e) v
  drain-IsSound n (cqe ∷ cqes) s s' v e = elim (Exec-cases (handle_cqe h cqe s)) [
    | inl (t, q) ↦ drain-IsSound n cqes t s' (handle_cqe-IsSound n cqe s t v q) (simp q at e)
    | inr (p, q) ↦ absurd (returns_or_panics p e (simp q))
  ]

  -- Under the invariant and while the tracker is not full, there is an unused index such that an
  -- operation whose first step is accepted under it, where the call of `submit` succeeds, is tracked there; no other slot changes, and the
  -- indices stay consistent.
  pub submit_lem :
      (op : Operation) (s : UringWorker Q X W)
      → Inv [] s.ops_in_flight
      → is_full s.ops_in_flight ≡ false
      → (i : ℕ) × (lookup s.ops_in_flight i ≡ none)
        × ((op' : Operation) (w' : World Q X W)
            → submit_first_step h i op s.world ≡ returns (ok tt, op', w')
            → h.enters w'.sq ≡ true
            → (s' : UringWorker Q X W) × (submit h op s ≡ returns s')
              × IsSound (capacity s.ops_in_flight) s'
              × ((a : ℕ)
                  → lookup s'.ops_in_flight a
                    ≡ (if i == a then some op' else lookup s.ops_in_flight a)))
  unfolding submit
  submit_lem op s v free = elim (get_next_index_cases [] s.ops_in_flight v) [
    | inl (q, e) ↦ absurd (ground arith)
    | inr (i, rest, q, e, v') ↦
        let t = record (s.ops_in_flight) { next_index = rest } in
        let slot = reserved_slot [] i t v' in
        let lt = lt_of_get_elem? t.ops_in_flight i slot in
        (
          i,
          rw slot,
          λ op' w' p entered.
              let (q', k) = put-Inv [] i t v' op' in
              (
                record { ops_in_flight = filled i op' t; world = w' },
                simp (e, p, entered, q'),
                record { inv = k; size = length-set t.ops_in_flight i (some op') },
                λ a. lookup-set t.ops_in_flight i a (some op') lt,
              ),
        )
  ]

  submit-IsSound :
      (n : ℕ) (op : Operation) (s s' : UringWorker Q X W)
      → IsSound n s
      → submit h op s ≡ returns s'
      → IsSound n s'
  unfolding submit
  submit-IsSound n op s s' v e = elim (get_next_index_cases [] s.ops_in_flight v.inv) [
    | inl (q, none_left) ↦ absurd (returns_or_panics Panic.no_free_index e (simp none_left))
    | inr (i, rest, q, f, v') ↦ elim (Exec-cases (submit_first_step h i op s.world)) [
      | inl ((ok _, op', w'), p) ↦
          let t = record (s.ops_in_flight) { next_index = rest } in
          let (q', k) = put-Inv [] i t v' op' in
          elim (Bool-cases (h.enters w'.sq)) [
            | inl b ↦
                subst (IsSound n) {x = record { ops_in_flight = filled i op' t; world = w' }}
                  (returns_unique (simp (f, p, b, q')) e)
                  (record { inv = k; size = length-set t.ops_in_flight i (some op') ∙ v.size })
            | inr b ↦ absurd (returns_or_panics Panic.submit_failed e (simp (f, p, b)))
          ]
      | inl ((err _, op', w'), p) ↦
          absurd (returns_or_panics Panic.submission_queue_full e (simp (f, p)))
      | inr (x, p) ↦ absurd (returns_or_panics x e (simp (f, p)))
    ]
  ]

  drain_round-IsSound :
      (n : ℕ) (r : Round Q) (s : UringWorker Q X W) (p : Pace) (s' : UringWorker Q X W)
      → IsSound n s
      → drain_round h r s ≡ returns (p, s')
      → IsSound n s'
  unfolding drain_round
  drain_round-IsSound n r s p s' v e = elim (Exec-cases (drain h r.completions s)) [
    | inl (t, q) ↦ drain-IsSound n r.completions s s' v (ground arith)
    | inr (x, q) ↦ ground arith
  ]

  take_task-IsSound :
      (n : ℕ) (r : Round Q) (task : Option Operation) (s : UringWorker Q X W) (p : Pace)
      (s' : UringWorker Q X W)
      → IsSound n s
      → take_task h r task s ≡ returns (p, s')
      → IsSound n s'
  unfolding take_task
  take_task-IsSound n r none s p s' v e = elim (Bool-cases (is_empty s.ops_in_flight)) [
    | inl b ↦ elim (Bool-cases r.registers) [
      | inl c ↦
          subst (λ (x : Pace × UringWorker Q X W). IsSound n x.1)
            (returns_unique {a = (Pace.parked, s)} (simp (b, c)) e) v
      | inr c ↦ absurd (returns_or_panics Panic.manager_is_gone e (simp (b, c)))
    ]
    | inr b ↦ drain_round-IsSound n r s p s' v (simp b at e)
  ]
  take_task-IsSound n r (some op) s p s' v e = elim (Exec-cases (submit h op s)) [
    | inl (t, q) ↦
        let v' = submit-IsSound n op s t v q in
        elim (Bool-cases (ltb r.len_after high_water_line)) [
          | inl b ↦
              subst (λ (x : Pace × UringWorker Q X W). IsSound n x.1)
                (returns_unique {a = (Pace.topping_up, t)} (simp (q, b)) e) v'
          | inr b ↦ drain_round-IsSound n r t p s' v' (simp (q, b) at e)
        ]
    | inr (x, q) ↦ absurd (returns_or_panics x e (simp q))
  ]

  -- A round that does not panic, whatever it finds, keeps the indices of the tracker consistent and its
  -- size.
  pub round-IsSound :
      (n : ℕ) (r : Round Q) (s : UringWorker Q X W) (p : Pace) (s' : UringWorker Q X W)
      → IsSound n s
      → round h r s ≡ returns (p, s')
      → IsSound n s'
  unfolding round
  round-IsSound n r s p s' v e =
      let t : UringWorker Q X W = record s {
        world = record (s.world) { sq = r.kernel (s.world).sq };
      } in
      let v' : IsSound n t = record { inv = v.inv; size = v.size } in
      elim (Bool-cases (is_full s.ops_in_flight || uring_is_full r.len_before)) [
        | inl b ↦ elim (Exec-cases (wait_if_empty r)) [
          | inl (_, c) ↦ drain_round-IsSound n r t p s' v' (simp (b, c) at e)
          | inr (x, c) ↦ absurd (returns_or_panics x e (simp (b, c)))
        ]
        | inr b ↦ take_task-IsSound n r r.task t p s' v' (simp b at e)
      ]

  -- The states that a worker can come to.
  pub data Reach (w : World Q X W) : UringWorker Q X W → Type 0 where
    start : Reach w (new w)
    later :
        {s : UringWorker Q X W} (r : Round Q) (p : Pace) (s' : UringWorker Q X W)
        → Reach w s
        → round h r s ≡ returns (p, s')
        → Reach w s'

  Reach-IsSound : {w : World Q X W} {s : UringWorker Q X W} → Reach w s → IsSound sq_ring_size s
  Reach-IsSound start = record {
    inv = new-Inv Operation sq_ring_size;
    size = length-new Operation sq_ring_size;
  }
  Reach-IsSound (later {s} r p s' reach e) =
      round-IsSound sq_ring_size r s p s' (Reach-IsSound reach) e

  -- In every state that a worker comes to, at most 64 operations are in flight, the tracker counts
  -- them, and the queue of free indices makes up the rest.
  pub Reach-bounded :
      {w : World Q X W} {s : UringWorker Q X W}
      → Reach w s
      → ((s.ops_in_flight).len ≡ occupied (s.ops_in_flight).ops_in_flight)
        × (length (s.ops_in_flight).next_index + (s.ops_in_flight).len ≡ sq_ring_size)
  Reach-bounded {s} reach =
      let v = Reach-IsSound reach in
      let c = (v.inv).complete in ((v.inv).counted, omega (arith, c, v.size))

-- ===== src/Worker/Protocol/Kept.antt =====
-- worker.rs: what a submission and a completion leave of the slots, as far as the protocol needs it.
use light_speed_io.Prelude.{
  ℕ, ◌<◌, ◌≡◌, refl, subst, arith, [], none, some, returns, panics, Panic, ok, err, Exec-cases,
  Bool-cases, inl, inr, returns_or_panics, returns_unique, get_elem?, set, lt_of_get_elem?,
}
use light_speed_io.UserData.{UringUserData, from_u64}
use light_speed_io.Tracker.Invariant.{
  Inv, filled, get_lem, as_mut_lem, get_next_index_cases, put-Inv, reserved_slot,
}
use light_speed_io.Tracker.Refines.{lookup, capacity}
use light_speed_io.Ops.State.{
  Operation, NextStep, Host, World, Completion, drop_operation, released,
}
use light_speed_io.Ops.Dispatch.{submit_first_step, process_opcode_and_submit_next_step}
use light_speed_io.Worker.{UringWorker, handle_cqe, submit}

module _ {Q X W : Type 0} (h : Host Q X W) where
  -- A submission that returned: its index was not in use, and holds what the first step left.
  pub record Tracked (op : Operation) (s s' : UringWorker Q X W) : Type 0 where
    pub index : ℕ
    pub op' : Operation
    pub unused : lookup s.ops_in_flight index ≡ none
    pub within : index < capacity s.ops_in_flight
    pub accepted : submit_first_step h index op s.world ≡ returns (ok tt, op', s'.world)
    pub inv : Inv [] s'.ops_in_flight
    pub tracker :
        s'.ops_in_flight.ops_in_flight ≡ set s.ops_in_flight.ops_in_flight index (some op')

  pub submit-Tracked :
      (op : Operation) (s s' : UringWorker Q X W)
      → Inv [] s.ops_in_flight
      → submit h op s ≡ returns s'
      → Tracked op s s'
  unfolding submit
  submit-Tracked op s s' v e = elim (get_next_index_cases [] s.ops_in_flight v) [
    | inl (q, f) ↦ absurd (returns_or_panics Panic.no_free_index e (simp f))
    | inr (i, rest, q, f, v') ↦ elim (Exec-cases (submit_first_step h i op s.world)) [
      | inl ((ok _, op', w'), p) ↦
          let t = record (s.ops_in_flight) { next_index = rest } in
          let (q', k) = put-Inv [] i t v' op' in
          let slot = reserved_slot [] i t v' in
          elim (Bool-cases (h.enters w'.sq)) [
            | inl b ↦
                subst (Tracked op s) {x = record { ops_in_flight = filled i op' t; world = w' }}
                  (returns_unique (simp (f, p, b, q')) e)
                  (record {
                    index = i;
                    op' = op';
                    unused = rw slot;
                    within = lt_of_get_elem? t.ops_in_flight i slot;
                    accepted = p;
                    inv = k;
                    tracker = refl;
                  })
            | inr b ↦ absurd (returns_or_panics Panic.submit_failed e (simp (f, p, b)))
          ]
      | inl ((err _, op', w'), p) ↦
          absurd (returns_or_panics Panic.submission_queue_full e (simp (f, p)))
      | inr (x, p) ↦ absurd (returns_or_panics x e (simp (f, p)))
    ]
  ]

  pub handle_cqe-panics :
      (cqe : Completion) (s : UringWorker Q X W) (op : Operation) (p : Panic)
      → let u : UringUserData = from_u64 cqe.user_data in
        get_elem? s.ops_in_flight.ops_in_flight u.index_of_op ≡ some (some op)
        → process_opcode_and_submit_next_step h u cqe.result cqe.statx op s.world ≡ panics p
        → handle_cqe h cqe s ≡ panics p
  unfolding handle_cqe
  handle_cqe-panics cqe s op p slot e =
      let i = (from_u64 cqe.user_data).index_of_op in
      simp (get_lem i op s.ops_in_flight slot, as_mut_lem i op s.ops_in_flight slot, e)

module _ {Q X W : Type 0} where
  drop_operation-sq : (op : Operation) (w : World Q X W) → (drop_operation op w).sq ≡ w.sq
  unfolding drop_operation
  drop_operation-sq (Operation.get_ranges op) w = refl
  drop_operation-sq (Operation.close op) w = refl
  drop_operation-sq (Operation.get_range op) w = ground arith

  pub released-sq :
      (next : NextStep) (op : Operation) (w : World Q X W) → (released next op w).sq ≡ w.sq
  released-sq NextStep.pending op w = refl
  released-sq (NextStep.replace_with op') op w = drop_operation-sq op w
  released-sq NextStep.done op w = drop_operation-sq op w

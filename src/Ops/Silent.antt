-- ===== src/Ops/Silent.antt =====
-- close.rs, get_range.rs and get_ranges.rs: a first step, and the end of an operation, send nothing.
use light_speed_io.Prelude.{
  ℕ, ◌≡◌, refl, subst, arith, some, returns, Result, inl, inr, Option-cases, Exec-cases,
  returns_or_panics, returns_unique,
}
use light_speed_io.Sqe.{
  Entry, build_close_sqe, build_openat_sqe, build_statx_sqe, build_read_range_sqe,
}
use light_speed_io.Ops.State.{
  GetRange, GetRanges, Close, Operation, NextStep, Host, World, PushError, push_entry,
  drop_operation, released,
}
use light_speed_io.Ops.Close
use light_speed_io.Ops.GetRange
use light_speed_io.Ops.GetRanges
use light_speed_io.Ops.Dispatch.{submit_first_step}
use light_speed_io.Ops.Accounts.{reads_as}

module _ {Q X W : Type 0} (h : Host Q X W) where
  push_entry-tx : (e : Entry) (w : World Q X W) → (push_entry h e w).1.tx ≡ w.tx
  unfolding push_entry
  push_entry-tx e w = elim (Option-cases (h.sq_push e w.sq)) [
    | inl full ↦ ground arith
    | inr (sq, room) ↦ ground arith
  ]

  -- What a first step keeps, whether or not the queue has room.
  abbrev pub Silent :
      Operation → World Q X W → Result (Unit {0}) PushError × Operation × World Q X W → Type 0
  Silent op w (r, op', w') =
      (w'.tx ≡ w.tx) × ((k : ℕ) → reads_as k (some op') ≡ reads_as k (some op))

  close-Silent :
      (i : ℕ) (op : Close) (w : World Q X W)
      (r : Result (Unit {0}) PushError × Operation × World Q X W)
      → submit_first_step h i (Operation.close op) w ≡ returns r
      → Silent (Operation.close op) w r
  unfolding submit_first_step Close.submit_first_step
  close-Silent i op w r q =
      elim (Exec-cases (build_close_sqe h.codes i op.file.value.file_descriptor)) [
        | inr (p, e) ↦ absurd (returns_or_panics p q (simp e))
        | inl (e, made) ↦
            let known : submit_first_step h i (Operation.close op) w
                ≡ returns ((push_entry h e w).0, Operation.close op, (push_entry h e w).1) =
              simp made in
            subst (Silent (Operation.close op) w) (returns_unique known q)
              (push_entry-tx e w, λ k. refl)
      ]

  get_range-Silent :
      (i : ℕ) (op : GetRange) (w : World Q X W)
      (r : Result (Unit {0}) PushError × Operation × World Q X W)
      → submit_first_step h i (Operation.get_range op) w ≡ returns r
      → Silent (Operation.get_range op) w r
  unfolding submit_first_step GetRange.submit_first_step
  get_range-Silent i op w r q =
      elim (Exec-cases (build_read_range_sqe h.codes h.alloc i op.file.value op.range w.buffers)) [
        | inr (p, e) ↦ absurd (returns_or_panics p q (simp e))
        | inl ((e, b, c), made) ↦
            let w1 : World Q X W = record w { buffers = c } in
            let known : submit_first_step h i (Operation.get_range op) w
                ≡ returns (
                  (push_entry h e w1).0,
                  Operation.get_range (record op { buffer = some b }),
                  (push_entry h e w1).1,
                ) =
              simp made in
            subst (Silent (Operation.get_range op) w) (returns_unique known q)
              (push_entry-tx e w1, λ k. refl)
      ]

  get_ranges-Silent :
      (i : ℕ) (op : GetRanges) (w : World Q X W)
      (r : Result (Unit {0}) PushError × Operation × World Q X W)
      → submit_first_step h i (Operation.get_ranges op) w ≡ returns r
      → Silent (Operation.get_ranges op) w r
  unfolding submit_first_step GetRanges.submit_first_step push_entry
  get_ranges-Silent i op w r q = elim (Option-cases op.open_file_builder) [
    | inl taken ↦ absurd (ground arith)
    | inr (b, here) ↦ elim (Exec-cases (build_openat_sqe h.codes i b.location)) [
      | inr (p, e) ↦ absurd (returns_or_panics p q (simp (here, e)))
      | inl (e, made) ↦ elim (Exec-cases (build_statx_sqe h.codes i b)) [
        | inr (p, f) ↦ absurd (returns_or_panics p q (simp (here, made, f)))
        | inl (e', made') ↦ elim (Option-cases (h.sq_push e w.sq)) [
          | inl full ↦ ground arith
          | inr (sq, room) ↦ elim (Option-cases (h.sq_push e' sq)) [
            | inl full ↦ ground arith
            | inr (sq', room') ↦ ground arith
          ]
        ]
      ]
    ]
  ]

  pub submit_first_step-Silent :
      (i : ℕ) (op : Operation) (w : World Q X W)
      (r : Result (Unit {0}) PushError × Operation × World Q X W)
      → submit_first_step h i op w ≡ returns r
      → Silent op w r
  submit_first_step-Silent i (Operation.close op) w r q = close-Silent i op w r q
  submit_first_step-Silent i (Operation.get_range op) w r q = get_range-Silent i op w r q
  submit_first_step-Silent i (Operation.get_ranges op) w r q = get_ranges-Silent i op w r q

module _ {Q X W : Type 0} where
  drop_operation-tx : (op : Operation) (w : World Q X W) → (drop_operation op w).tx ≡ w.tx
  unfolding drop_operation
  drop_operation-tx (Operation.get_ranges op) w = refl
  drop_operation-tx (Operation.close op) w = refl
  drop_operation-tx (Operation.get_range op) w = ground arith

  pub released-tx :
      (next : NextStep) (op : Operation) (w : World Q X W) → (released next op w).tx ≡ w.tx
  released-tx NextStep.pending op w = refl
  released-tx (NextStep.replace_with op') op w = drop_operation-tx op w
  released-tx NextStep.done op w = drop_operation-tx op w

-- ===== src/Ops/Submitted.antt =====
-- The first step of an operation: the entries that it submits, and the completions that it waits for.
use light_speed_io.Prelude.{
  ℕ, ◌≡◌, ◌≢◌, refl, subst, ◌∙◌, ap, arith, List, [], ◌∷◌, ◌++◌, some, returns, Option-cases,
  Exec-cases, returns_or_panics, inl, inr, ◌==◌, if◌then◌else◌, ok,
}
use mathlib.Core.List.{append_assoc}
use light_speed_io.Arc.{Counts}
use light_speed_io.UserData.{OpCodes, from_u64, into_u64, new}
use light_speed_io.UserData.RoundTrip.{from_u64_of_new}
use light_speed_io.OpenFile.{OpenFile, OpenFileBuilder}
use light_speed_io.Bytes.{Alloc}
use light_speed_io.Bytes.Frozen.{AlignedBytes}
use light_speed_io.Sqe
use light_speed_io.Sqe.{
  Entry, OffsetRange, build_read_sqe, build_read_range_sqe, build_openat_sqe, build_statx_sqe,
  build_close_sqe, with_user_data,
}
use light_speed_io.Ops.State.{GetRange, GetRanges, Close, Operation, Host, World, push_entry}
use light_speed_io.Ops.Observed.{Observed}
use light_speed_io.Ops.Close
use light_speed_io.Ops.GetRange
use light_speed_io.Ops.GetRanges
use light_speed_io.Ops.Dispatch.{submit_first_step}
use light_speed_io.Ops.Expected.{AreOpCodes, Awaits}

-- The opcodes of the entries under one index, in order.
abbrev pub codes_at : ℕ → List Entry → List ℕ
codes_at i [] = []
codes_at i (e ∷ es) =
    let rest = codes_at i es in
    if (from_u64 e.user_data).index_of_op == i then (from_u64 e.user_data).op ∷ rest else rest

pub codes_at-append :
    (i : ℕ) (xs ys : List Entry) → codes_at i (xs ++ ys) ≡ codes_at i xs ++ codes_at i ys
codes_at-append i [] ys = refl
codes_at-append i (x ∷ xs) ys = ground (arith, codes_at-append i xs ys)

-- An operation as the user or another operation makes it.
abbrev pub IsFresh : Operation → Type 0
IsFresh (Operation.get_ranges op) =
    (b : OpenFileBuilder) × (op.open_file_builder ≡ some b) × (op.n_cqes_received ≡ 0)
IsFresh (Operation.get_range op) = Unit {0}
IsFresh (Operation.close op) = Unit {0}

with_user_data_lem :
    (i code : ℕ) (r : Sqe.Request) (e : Entry)
    → with_user_data i code r ≡ returns e
    → e.user_data ≡ into_u64 (record { index_of_op = i; op = code })
unfolding with_user_data new
with_user_data_lem i code r e q = ground arith

read_user_data :
    (codes : OpCodes) (alloc : Alloc) (i : ℕ) (file : OpenFile) (range : OffsetRange) (c : Counts)
    (e : Entry) (b : AlignedBytes) (c' : Counts)
    → build_read_range_sqe codes alloc i file range c ≡ returns (e, b, c')
    → e.user_data ≡ into_u64 (record { index_of_op = i; op = codes.read })
unfolding build_read_range_sqe build_read_sqe with_user_data new
read_user_data codes alloc i file range c e b c' q = ground arith

module _ {Q X W : Type 0} (h : Host Q X W) (obs : Observed h) (codes : AreOpCodes h.codes) where
  -- The entries that a first step has added, all under its own index, and the operation that waits for
  -- them.
  pub record Submitted (i : ℕ) (op' : Operation) (w w' : World Q X W) : Type 0 where
    pub more : List Entry
    pub queued : obs.queued w'.sq ≡ obs.queued w.sq ++ more
    pub waits : Awaits h.codes (some op') (codes_at i more)
    pub own : (j : ℕ) → j ≢ i → codes_at j more ≡ []

  push_entry-queued :
      (e : Entry) (w w' : World Q X W)
      → push_entry h e w ≡ (ok tt, w')
      → obs.queued w'.sq ≡ obs.queued w.sq ++ (e ∷ [])
  unfolding push_entry
  push_entry-queued e w w' q = elim (Option-cases (h.sq_push e w.sq)) [
    | inl full ↦ absurd (ground arith)
    | inr (sq, room) ↦ ground (arith, obs.queued-sq_push e w.sq sq room)
  ]

  close-Submitted :
      (i : ℕ) (op : Close) (op' : Operation) (w w' : World Q X W)
      → submit_first_step h i (Operation.close op) w ≡ returns (ok tt, op', w')
      → Submitted i op' w w'
  unfolding submit_first_step Close.submit_first_step build_close_sqe
  close-Submitted i op op' w w' q =
      elim (Exec-cases (build_close_sqe h.codes i op.file.value.file_descriptor)) [
        | inr (p, e) ↦ absurd (returns_or_panics p q (simp e))
        | inl (e, made) ↦
            let d : from_u64 e.user_data ≡ record { index_of_op = i; op = h.codes.close } =
              ap from_u64 (with_user_data_lem i h.codes.close _ e made)
              ∙ from_u64_of_new i h.codes.close codes.close_byte in
            record {
              more = e ∷ [];
              queued = push_entry-queued e w w' (ground arith);
              waits = ground arith;
              own = λ j ne. ground arith;
            }
      ]

  get_range-Submitted :
      (i : ℕ) (op : GetRange) (op' : Operation) (w w' : World Q X W)
      → submit_first_step h i (Operation.get_range op) w ≡ returns (ok tt, op', w')
      → Submitted i op' w w'
  unfolding submit_first_step GetRange.submit_first_step
  get_range-Submitted i op op' w w' q =
      elim (Exec-cases (build_read_range_sqe h.codes h.alloc i op.file.value op.range w.buffers)) [
        | inr (p, e) ↦ absurd (returns_or_panics p q (simp e))
        | inl ((e, b, c'), made) ↦
            let d : from_u64 e.user_data ≡ record { index_of_op = i; op = h.codes.read } =
              ap from_u64
                (read_user_data h.codes h.alloc i op.file.value op.range w.buffers e b c' made)
              ∙ from_u64_of_new i h.codes.read codes.read_byte in
            record {
              more = e ∷ [];
              queued = push_entry-queued e (record w { buffers = c' }) w' (ground arith);
              waits = ground arith;
              own = λ j ne. ground arith;
            }
      ]

  two_entries :
      (i : ℕ) (e e' : Entry)
      → from_u64 e.user_data ≡ record { index_of_op = i; op = h.codes.open_at }
      → from_u64 e'.user_data ≡ record { index_of_op = i; op = h.codes.statx }
      → (codes_at i (e ∷ e' ∷ []) ≡ h.codes.open_at ∷ h.codes.statx ∷ [])
        × ((j : ℕ) → j ≢ i → codes_at j (e ∷ e' ∷ []) ≡ [])
  two_entries i e e' d d' = (ground arith, λ j ne. ground arith)

  get_ranges-Submitted :
      (i : ℕ) (op : GetRanges) (op' : Operation) (w w' : World Q X W)
      → IsFresh (Operation.get_ranges op)
      → submit_first_step h i (Operation.get_ranges op) w ≡ returns (ok tt, op', w')
      → Submitted i op' w w'
  unfolding submit_first_step GetRanges.submit_first_step push_entry build_openat_sqe
      build_statx_sqe
  get_ranges-Submitted i op op' w w' (b, here, zeroth) q =
      elim (Exec-cases (build_openat_sqe h.codes i b.location)) [
        | inr (p, e) ↦ absurd (returns_or_panics p q (simp (here, e)))
        | inl (e, made) ↦ elim (Exec-cases (build_statx_sqe h.codes i b)) [
          | inr (p, f) ↦ absurd (returns_or_panics p q (simp (here, made, f)))
          | inl (e', made') ↦ elim (Option-cases (h.sq_push e w.sq)) [
            | inl full ↦ absurd (ground arith)
            | inr (sq, room) ↦ elim (Option-cases (h.sq_push e' sq)) [
              | inl full ↦ absurd (ground arith)
              | inr (sq', room') ↦
                  let d =
                    ap from_u64 (with_user_data_lem i h.codes.open_at _ e made)
                    ∙ from_u64_of_new i h.codes.open_at codes.open_at_byte in
                  let d' =
                    ap from_u64 (with_user_data_lem i h.codes.statx _ e' made')
                    ∙ from_u64_of_new i h.codes.statx codes.statx_byte in
                  let (own, others) = two_entries i e e' d d' in
                  record {
                    more = e ∷ e' ∷ [];
                    queued = ground (
                      arith,
                      obs.queued-sq_push e w.sq sq room,
                      obs.queued-sq_push e' sq sq' room',
                      append_assoc (obs.queued w.sq) (e ∷ []) (e' ∷ []),
                    );
                    waits =
                        subst (λ o. Awaits h.codes (some o) (codes_at i (e ∷ e' ∷ [])))
                          {x = Operation.get_ranges op} (ground arith) (b, here, inl (zeroth, own));
                    own = others;
                  }
            ]
          ]
        ]
      ]

  -- Where a first step is accepted, the operation waits for exactly the completions of the entries that
  -- were submitted, all under its own index.
  pub submit_first_step-Submitted :
      (i : ℕ) (op op' : Operation) (w w' : World Q X W)
      → IsFresh op
      → submit_first_step h i op w ≡ returns (ok tt, op', w')
      → Submitted i op' w w'
  submit_first_step-Submitted i (Operation.close op) op' w w' fresh q =
      close-Submitted i op op' w w' q
  submit_first_step-Submitted i (Operation.get_range op) op' w w' fresh q =
      get_range-Submitted i op op' w w' q
  submit_first_step-Submitted i (Operation.get_ranges op) op' w w' fresh q =
      get_ranges-Submitted i op op' w w' fresh q

-- ===== src/Ops/Expected.antt =====
-- close.rs, get_range.rs and get_ranges.rs: which completions each operation waits for, and theorems
-- about the handling of one of them.
use light_speed_io.Prelude.{
  ℕ, suc, ◌-◌, ◌<◌, ◌≡◌, ◌≢◌, ◌⊎◌, inl, inr, refl, arith, Bool, true, false, List, [], ◌∷◌, ◌++◌,
  Option, none, some, Exec, returns, panics, Panic, Bool-cases, Option-cases, leb, err,
}
use light_speed_io.Prelude.Int.{ℤ, pos, negsuc}
use light_speed_io.Arc
use light_speed_io.UserData.{UringUserData, OpCodes, from_u64}
use light_speed_io.OpenFile.{OpenFile, OpenFileBuilder}
use light_speed_io.Bytes.Frozen.{AlignedBytes}
use light_speed_io.Sqe.{Entry, OffsetRange}
use light_speed_io.Ops.State.{
  GetRange, GetRanges, Close, Operation, NextStep, Host, World, left, send_message,
}
use light_speed_io.Ops.Observed.{Observed}
use light_speed_io.Ops.GetRange
use light_speed_io.Ops.GetRange.{send_chunk, close_if_last}
use light_speed_io.Ops.GetRanges.{push_reads}
use light_speed_io.Ops.Dispatch.{maybe_send_error}

-- The opcodes are bytes, and differ.
pub record AreOpCodes (c : OpCodes) : Type 0 where
  pub open_at_byte : c.open_at < 256
  pub read_byte : c.read < 256
  pub close_byte : c.close < 256
  pub statx_byte : c.statx < 256
  pub differ : c.open_at ≢ c.statx

-- The opcodes of the completions that a slot waits for.
abbrev pub Awaits : OpCodes → Option Operation → List ℕ → Type 0
Awaits c none ks = ks ≡ []
Awaits c (some (Operation.close op)) ks = ks ≡ c.close ∷ []
Awaits c (some (Operation.get_range op)) ks =
    (ks ≡ c.read ∷ []) × (b : AlignedBytes) × (op.buffer ≡ some b)
Awaits c (some (Operation.get_ranges op)) ks =
    (b : OpenFileBuilder) × (op.open_file_builder ≡ some b)
    × (((op.n_cqes_received ≡ 0) × (ks ≡ c.open_at ∷ c.statx ∷ []))
        ⊎ ((op.n_cqes_received ≡ 1) × ((ks ≡ c.open_at ∷ []) ⊎ (ks ≡ c.statx ∷ []))))

pub Awaits-nothing : (c : OpCodes) (x : Option Operation) → Awaits c x [] → x ≡ none
Awaits-nothing c none e = refl
Awaits-nothing c (some (Operation.close op)) e = cc
Awaits-nothing c (some (Operation.get_range op)) (e, _, _) = absurd (cc)
Awaits-nothing c (some (Operation.get_ranges op)) (b, _, inl (_, e)) = absurd (cc)
Awaits-nothing c (some (Operation.get_ranges op)) (b, _, inr (_, inl e)) = absurd (cc)
Awaits-nothing c (some (Operation.get_ranges op)) (b, _, inr (_, inr e)) = absurd (cc)

-- The completion with opcode `k` is one of those, and `rest` are the others.
pub data Due (c : OpCodes) (k : ℕ) (rest : List ℕ) : Operation → Type 0 where
  closed : (op : Close) → k ≡ c.close → rest ≡ [] → Due c k rest (Operation.close op)
  read :
      (op : GetRange) (b : AlignedBytes)
      → op.buffer ≡ some b
      → k ≡ c.read
      → rest ≡ []
      → Due c k rest (Operation.get_range op)
  first :
      (op : GetRanges) (b : OpenFileBuilder)
      → op.open_file_builder ≡ some b
      → op.n_cqes_received ≡ 0
      → ((k ≡ c.open_at) × (rest ≡ c.statx ∷ [])) ⊎ ((k ≡ c.statx) × (rest ≡ c.open_at ∷ []))
      → Due c k rest (Operation.get_ranges op)
  second :
      (op : GetRanges) (b : OpenFileBuilder)
      → op.open_file_builder ≡ some b
      → op.n_cqes_received ≡ 1
      → (k ≡ c.open_at) ⊎ (k ≡ c.statx)
      → rest ≡ []
      → Due c k rest (Operation.get_ranges op)

one_of_one : (k a : ℕ) (xs ys : List ℕ) → xs ++ (k ∷ ys) ≡ a ∷ [] → (k ≡ a) × (xs ++ ys ≡ [])
one_of_one k a [] ys e = ground arith
one_of_one k a (x ∷ []) ys e = absurd (cc)
one_of_one k a (x ∷ y ∷ xs) ys e = absurd (cc)

one_of_two :
    (k a b : ℕ) (xs ys : List ℕ)
    → xs ++ (k ∷ ys) ≡ a ∷ b ∷ []
    → ((k ≡ a) × (xs ++ ys ≡ b ∷ [])) ⊎ ((k ≡ b) × (xs ++ ys ≡ a ∷ []))
one_of_two k a b [] ys e = inl (ground arith)
one_of_two k a b (x ∷ []) ys e = inr (ground arith)
one_of_two k a b (x ∷ y ∷ []) ys e = absurd (cc)
one_of_two k a b (x ∷ y ∷ z ∷ xs) ys e = absurd (cc)

pub Awaits-Due :
    (c : OpCodes) (op : Operation) (k : ℕ) (xs ys : List ℕ)
    → Awaits c (some op) (xs ++ (k ∷ ys))
    → Due c k (xs ++ ys) op
Awaits-Due c (Operation.close op) k xs ys e =
    let (p, q) = one_of_one k c.close xs ys e in closed op p q
Awaits-Due c (Operation.get_range op) k xs ys (e, b, held) =
    let (p, q) = one_of_one k c.read xs ys e in read op b held p q
Awaits-Due c (Operation.get_ranges op) k xs ys (b, here, inl (n, e)) =
    first op b here n (one_of_two k c.open_at c.statx xs ys e)
Awaits-Due c (Operation.get_ranges op) k xs ys (b, here, inr (n, inl e)) =
    let (p, q) = one_of_one k c.open_at xs ys e in second op b here n (inl p) q
Awaits-Due c (Operation.get_ranges op) k xs ys (b, here, inr (n, inr e)) =
    let (p, q) = one_of_one k c.statx xs ys e in second op b here n (inr p) q

-- The panics that no handler can rule out: what a user may ask for, and what the other ends may refuse.
abbrev pub is_external : Panic → Bool
is_external Panic.range_too_long = true
is_external Panic.channel_disconnected = true
is_external Panic.submission_queue_full = true
is_external Panic.manager_is_gone = true
is_external _ = false

-- It panics by one of these, and not because the submission queue is full.
abbrev pub Stops {ℓ} : {A : Type ℓ} → Exec A → Type ℓ
Stops r = (p : Panic) × (r ≡ panics p) × (is_external p ≡ true) × (p ≢ Panic.submission_queue_full)

-- At most this many completions are still to come for an operation.
abbrev pub to_come : Option Operation → ℕ
to_come none = 0
to_come (some (Operation.close op)) = 1
to_come (some (Operation.get_range op)) = 2
to_come (some (Operation.get_ranges op)) = 2 - op.n_cqes_received

new-cases :
    (file : Arc.Arc OpenFile) (range : OffsetRange) (user_data : ℕ)
    → (GetRange.new file range user_data ≡ panics Panic.range_too_long)
      ⊎ ((op : GetRange) × (GetRange.new file range user_data ≡ returns op))
unfolding GetRange.new
new-cases file range user_data =
    elim (Bool-cases (leb (GetRange.offset_range_len range) GetRange.max_read)) [
      | inl short ↦
          inr (
            record { file = file; range = range; user_data = user_data; buffer = none },
            simp short,
          )
      | inr long ↦ inl (simp long)
    ]

-- The submission queue does not accept some entry.
pub record HasRefused {Q X W : Type 0} (h : Host Q X W) (w : World Q X W) : Type 0 where
  pub entry : Entry
  pub refused : h.sq_push entry w.sq ≡ none

module _ {Q X W : Type 0} (h : Host Q X W) (obs : Observed h) where
  -- What the handling of one completion comes to. `rest` are the opcodes that the operation still waits
  -- for apart from this one.
  pub data Outcome (u : UringUserData) (rest : List ℕ) (op : Operation) (w : World Q X W)
      (r : Exec (NextStep × Operation × World Q X W)) : Type 0 where
    fails :
        (p : Panic)
        → r ≡ panics p
        → is_external p ≡ true
        → (p ≡ Panic.submission_queue_full → HasRefused h w)
        → Outcome u rest op w r
    goes_on :
        (next : NextStep) (op' : Operation) (w' : World Q X W)
        → r ≡ returns (next, op', w')
        → w'.sq ≡ w.sq
        → Awaits h.codes (left next op') rest
        → to_come (left next op') < to_come (some op)
        → Outcome u rest op w r
    closes :
        (close : Close) (op' : Operation) (w' : World Q X W) (entry : Entry)
        → r ≡ returns (NextStep.replace_with (Operation.close close), op', w')
        → obs.queued w'.sq ≡ obs.queued w.sq ++ (entry ∷ [])
        → from_u64 entry.user_data ≡ record { index_of_op = u.index_of_op; op = h.codes.close }
        → rest ≡ []
        → to_come (some op) ≡ 2
        → Outcome u rest op w r

  pub maybe_send_error-cases :
      (u : UringUserData) (result : ℤ) (op : Operation) (w : World Q X W)
      → (maybe_send_error h u result op w ≡ panics Panic.channel_disconnected)
        ⊎ ((w' : World Q X W) × (maybe_send_error h u result op w ≡ returns w') × (w'.sq ≡ w.sq))
  unfolding maybe_send_error send_message
  maybe_send_error-cases u (pos n) op w = inr (w, refl, refl)
  maybe_send_error-cases u (negsuc k) op w =
      elim (Option-cases (
        h.send
          (err
            (record { errno = suc k; idx_and_opcode = u; cqe_result = negsuc k; operation = op }))
          w.tx)) [
            | inl refused ↦ inl (simp refused)
            | inr (tx, sent) ↦ inr (record w { tx = tx }, simp sent, refl)
          ]

  pub push_reads-cases :
      (file : Arc.Arc OpenFile) (ranges : List OffsetRange) (user_data : List ℕ) (w : World Q X W)
      → Stops (push_reads h file ranges user_data w)
        ⊎ ((w' : World Q X W) × (push_reads h file ranges user_data w ≡ returns w')
            × (w'.sq ≡ w.sq)
            × (w'.tx ≡ w.tx))
  unfolding push_reads
  push_reads-cases file [] user_data w = inr (w, refl, refl, refl)
  push_reads-cases file (r ∷ rs) [] w = inr (w, refl, refl, refl)
  push_reads-cases file (r ∷ rs) (x ∷ xs) w = elim (new-cases file r x) [
    | inl refused ↦ inl (Panic.range_too_long, simp refused, refl, λ e. cc e)
    | inr (op, made) ↦ elim (Option-cases (h.push_task (Operation.get_range op) w.thread)) [
      | inl gone ↦ inl (Panic.manager_is_gone, simp (made, gone), refl, λ e. cc e)
      | inr (t, pushed) ↦
          elim (push_reads-cases file rs xs
            (record w { files = Arc.clone file w.files; thread = t })) [
              | inl (p, refused, out, other) ↦ inl (p, simp (made, pushed, refused), out, other)
              | inr (w', e, same, silent) ↦ inr (w', simp (made, pushed, e), same, silent)
            ]
    ]
  ]

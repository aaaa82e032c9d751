-- ===== src/Ops/Accounts.antt =====
-- What the handlers owe to the user: an answer for each read, under its own number.
use light_speed_io.Prelude.{
  ℕ, suc, ◌+◌, ◌^◌, ◌<◌, ◌≡◌, ◌⊎◌, inl, inr, refl, ap, subst, arith, List, [], ◌∷◌, ◌++◌, Option,
  none, some, Exec, returns, Option-cases, Exec-cases, ◌==◌, if◌then◌else◌, ok, err, returns_unique,
  returns_or_panics,
}
use light_speed_io.Prelude.Int.{ℤ, pos, negsuc}
use light_speed_io.UserData.{UringUserData}
use light_speed_io.OpenFile.{OpenFileBuilder, Statx}
use light_speed_io.Bytes.Frozen.{AlignedBytes}
use light_speed_io.Ops.State.{
  GetRange, GetRanges, Close, Operation, NextStep, Message, Host, World, left, send_message,
}
use light_speed_io.Ops.Observed.{Observed}
use light_speed_io.Ops.Close
use light_speed_io.Ops.GetRanges
use light_speed_io.Ops.Dispatch.{process_opcode_and_submit_next_step, maybe_send_error}
use light_speed_io.Ops.Messages.{answer, process-get_range-sent}
use light_speed_io.Ops.Expected.{
  Awaits-nothing, AreOpCodes, Due, closed, read, first, second, Outcome, fails, goes_on, closes,
}
use light_speed_io.Ops.Handled.{Due-Outcome}
use light_speed_io.Ops.Finished.{finish_opening-cases, noted}

-- Whether an operation is a read that the user knows as `k`.
abbrev pub reads_as : ℕ → Option Operation → ℕ
reads_as k none = 0
reads_as k (some (Operation.close op)) = 0
reads_as k (some (Operation.get_ranges op)) = 0
reads_as k (some (Operation.get_range op)) = if op.user_data == k then 1 else 0

-- Whether a message answers a read that the user knows as `k`: a buffer, or the error of that read.
abbrev pub answers_as : ℕ → Message → ℕ
answers_as k (ok chunk) = if chunk.user_data == k then 1 else 0
answers_as k (err report) = reads_as k (some report.operation)

-- How many of the messages do.
abbrev pub answers_to : ℕ → List Message → ℕ
answers_to k [] = 0
answers_to k (m ∷ ms) = answers_as k m + answers_to k ms

answers_to-append :
    (k : ℕ) (xs ys : List Message) → answers_to k (xs ++ ys) ≡ answers_to k xs + answers_to k ys
answers_to-append k [] ys = omega arith
answers_to-append k (x ∷ xs) ys = omega (arith, answers_to-append k xs ys)

-- An error is an answer only for a read.
abbrev owed : ℕ → ℤ → Operation → ℕ
owed k (pos n) op = 0
owed k (negsuc n) op = reads_as k (some op)

answer-answers_as :
    (k : ℕ) (u : UringUserData) (s : GetRange) (b : AlignedBytes) (result : ℤ)
    → answers_as k (answer u s b result) ≡ reads_as k (some (Operation.get_range s))
answer-answers_as k u s b (pos n) = refl
answer-answers_as k u s b (negsuc n) = refl

no_debt : (k : ℕ) (result : ℤ) (op : Operation) → reads_as k (some op) ≡ 0 → owed k result op ≡ 0
no_debt k (pos n) op e = refl
no_debt k (negsuc n) op e = e

module _ {Q X W : Type 0} (h : Host Q X W) (obs : Observed h) (k : ℕ) where
  -- The answers and the read that is still to be answered, before and after.
  abbrev pub Balanced : Operation → World Q X W → NextStep × Operation × World Q X W → Type 0
  Balanced op w (n, op', w') =
      answers_to k (obs.sent w'.tx) + reads_as k (left n op')
      ≡ answers_to k (obs.sent w.tx) + reads_as k (some op)

  paid :
      (u : UringUserData) (result : ℤ) (op : Operation) (w w1 : World Q X W)
      → maybe_send_error h u result op w ≡ returns w1
      → answers_to k (obs.sent w1.tx) ≡ answers_to k (obs.sent w.tx) + owed k result op
  unfolding maybe_send_error send_message
  paid u (pos n) op w w1 e =
      omega (arith, ap (λ (x : World Q X W). answers_to k (obs.sent x.tx)) (returns_unique e refl))
  paid u (negsuc j) op w w1 e =
      let m : Message =
        err (record { errno = suc j; idx_and_opcode = u; cqe_result = negsuc j; operation = op }) in
      elim (Option-cases (h.send m w.tx)) [
        | inl refused ↦ absurd (ground arith)
        | inr (tx, sent) ↦
            ground
              (arith, obs.sent-send m w.tx tx sent, answers_to-append k (obs.sent w.tx) (m ∷ []))
      ]

module _ {Q X W : Type 0} (h : Host Q X W) (obs : Observed h) (codes : AreOpCodes h.codes)
    (k : ℕ) where
  -- Without a read, nothing is owed.
  unpaid :
      (u : UringUserData) (result : ℤ) (op : Operation) (w w1 : World Q X W)
      → reads_as k (some op) ≡ 0
      → maybe_send_error h u result op w ≡ returns w1
      → answers_to k (obs.sent w1.tx) ≡ answers_to k (obs.sent w.tx)
  unpaid u result op w w1 free e =
      omega (arith, paid h obs k u result op w w1 e, no_debt k result op free)

  close-Balanced :
      (u : UringUserData) (result : ℤ) (statx : Statx) (s : Close) (w : World Q X W)
      (r : NextStep × Operation × World Q X W)
      → u.op ≡ h.codes.close
      → process_opcode_and_submit_next_step h u result statx (Operation.close s) w ≡ returns r
      → Balanced h obs k (Operation.close s) w r
  unfolding process_opcode_and_submit_next_step Close.process
  close-Balanced u result statx s w r code q =
      elim (Exec-cases (maybe_send_error h u result (Operation.close s) w)) [
        | inr (p, e) ↦ absurd (returns_or_panics p q (simp e))
        | inl (w1, e) ↦
            let known : process_opcode_and_submit_next_step h u result statx (Operation.close s) w
                ≡ returns (NextStep.done, Operation.close s, w1) =
              ground (arith, e, code) in
            subst (Balanced h obs k (Operation.close s) w) (returns_unique known q)
              (omega (arith, unpaid u result (Operation.close s) w w1 refl e))
      ]

  get_ranges-Balanced :
      (u : UringUserData) (result : ℤ) (statx : Statx) (s : GetRanges) (b : OpenFileBuilder)
      (w : World Q X W) (r : NextStep × Operation × World Q X W)
      → s.open_file_builder ≡ some b
      → (s.n_cqes_received ≡ 0) ⊎ (s.n_cqes_received ≡ 1)
      → (u.op ≡ h.codes.open_at) ⊎ (u.op ≡ h.codes.statx)
      → process_opcode_and_submit_next_step h u result statx (Operation.get_ranges s) w ≡ returns r
      → Balanced h obs k (Operation.get_ranges s) w r
  unfolding process_opcode_and_submit_next_step GetRanges.process
  get_ranges-Balanced u result statx s b w r here count code q =
      let op = Operation.get_ranges s in
      let (b', f) = noted h obs codes u result statx s b here code in
      elim (Exec-cases (maybe_send_error h u result op w)) [
        | inr (p, e) ↦ absurd (returns_or_panics p q (simp e))
        | inl (w1, e) ↦ elim count [
          | inl zeroth ↦
              let s' : GetRanges = record s { open_file_builder = some b'; n_cqes_received = 1 } in
              let known : process_opcode_and_submit_next_step h u result statx op w
                  ≡ returns (NextStep.pending, Operation.get_ranges s', w1) =
                simp (e, f, zeroth) in
              subst (Balanced h obs k op w) (returns_unique known q)
                (omega (arith, unpaid u result op w w1 refl e))
          | inr one ↦
              elim (finish_opening-cases h obs codes
                (record s { n_cqes_received = 2; open_file_builder = some b' }) b' w1 refl) [
                  | inl (p, refused, _, _) ↦
                      absurd (returns_or_panics p q (simp (e, f, one, refused)))
                  | inr (s', w', g, _, silent) ↦
                      let known : process_opcode_and_submit_next_step h u result statx op w
                          ≡ returns (NextStep.done, Operation.get_ranges s', w') =
                        simp (e, f, one, g) in
                      subst (Balanced h obs k op w) (returns_unique known q) (
                        omega (
                          arith,
                          ap (λ x. answers_to k (obs.sent x)) silent,
                          unpaid u result op w w1 refl e,
                        ))
                ]
        ]
      ]

  -- Once a read is answered, what stands in its place is no read.
  read-left :
      (u : UringUserData) (op op' : Operation) (n : NextStep) (w w' : World Q X W)
      (r : Exec (NextStep × Operation × World Q X W))
      → Outcome h obs u [] op w r
      → r ≡ returns (n, op', w')
      → reads_as k (left n op') ≡ 0
  read-left u op op' n w w' r (fails p e external _) q = absurd (returns_or_panics p q e)
  read-left u op op' n w w' r (goes_on next op2 w2 e same waits less) q =
      subst (λ x. reads_as k (left x.0 x.1) ≡ 0) (returns_unique e q)
        (ap (reads_as k) (Awaits-nothing h.codes (left next op2) waits))
  read-left u op op' n w w' r (closes close op2 w2 entry e pushed code none_left two) q =
      subst (λ x. reads_as k (left x.0 x.1) ≡ 0) (returns_unique e q) refl

  read-Balanced :
      (u : UringUserData) (result : ℤ) (statx : Statx) (s : GetRange) (b : AlignedBytes)
      (w : World Q X W) (r : NextStep × Operation × World Q X W)
      → u.index_of_op < 2 ^ 32
      → s.buffer ≡ some b
      → u.op ≡ h.codes.read
      → process_opcode_and_submit_next_step h u result statx (Operation.get_range s) w ≡ returns r
      → Balanced h obs k (Operation.get_range s) w r
  read-Balanced u result statx s b w (n, op', w') fits held code q =
      let sent = process-get_range-sent h obs u s b held result statx w n op' w' q in
      let over =
        read-left u (Operation.get_range s) op' n w w' _
          (Due-Outcome h obs codes u result statx (Operation.get_range s) [] w fits
            (read s b held code refl))
          q in
      omega (
        arith,
        over,
        ap (answers_to k) sent,
        answers_to-append k (obs.sent w.tx) (answer u s b result ∷ []),
        answer-answers_as k u s b result,
      )

  -- A completion that an operation waits for, if it is handled without a panic, sends an answer under a
  -- number exactly where it ends a read of that number.
  pub process-Balanced :
      (u : UringUserData) (result : ℤ) (statx : Statx) (op : Operation) (rest : List ℕ)
      (w : World Q X W) (r : NextStep × Operation × World Q X W)
      → u.index_of_op < 2 ^ 32
      → Due h.codes u.op rest op
      → process_opcode_and_submit_next_step h u result statx op w ≡ returns r
      → Balanced h obs k op w r
  process-Balanced u result statx _ rest w r fits (closed s code e) q =
      close-Balanced u result statx s w r code q
  process-Balanced u result statx _ rest w r fits (read s b held code e) q =
      read-Balanced u result statx s b w r fits held code q
  process-Balanced u result statx _ rest w r fits (first s b here n which) q =
      get_ranges-Balanced u result statx s b w r here (inl n)
        (elim which [ inl (c, _) ↦ inl c | inr (c, _) ↦ inr c ]) q
  process-Balanced u result statx _ rest w r fits (second s b here n which e) q =
      get_ranges-Balanced u result statx s b w r here (inr n) which q

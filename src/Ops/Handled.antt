-- ===== src/Ops/Handled.antt =====
-- The handlers, at a completion that the operation waits for.
use light_speed_io.Prelude.{
  ℕ, ◌^◌, ◌<◌, ◌≡◌, ◌⊎◌, inl, inr, refl, subst, ◌∙◌, arith, true, List, [], ◌∷◌, ◌++◌, none, some,
  returns, panics, Panic, ◌>>=◌, Bool-cases, Option-cases, ◌==◌, ok,
}
use light_speed_io.Prelude.Int.{ℤ, pos, negsuc}
use light_speed_io.Arc
use light_speed_io.UserData.{UringUserData, new}
use light_speed_io.UserData.RoundTrip.{from_u64_of_new}
use light_speed_io.OpenFile.{OpenFileBuilder, Statx}
use light_speed_io.Bytes.Frozen.{AlignedBytes}
use light_speed_io.Sqe.{build_close_sqe}
use light_speed_io.Ops.State.{
  GetRange, GetRanges, Close, Operation, NextStep, Host, World, send_message, push_entry,
}
use light_speed_io.Ops.Observed.{Observed}
use light_speed_io.Ops.Close
use light_speed_io.Ops.GetRange
use light_speed_io.Ops.GetRange.{send_chunk, close_if_last}
use light_speed_io.Ops.GetRanges
use light_speed_io.Ops.GetRanges.{finish_opening, submit_get_range_ops, push_reads, record_result}
use light_speed_io.Ops.Dispatch.{process_opcode_and_submit_next_step, maybe_send_error}
use light_speed_io.Ops.Reading.{close_entry}
use light_speed_io.Ops.Finished.{finish_opening-cases, noted}
use light_speed_io.Ops.Expected.{
  AreOpCodes, Awaits, Due, closed, read, first, second, Outcome, fails, goes_on, closes, Awaits-Due,
  maybe_send_error-cases,
}

module _ {Q X W : Type 0} (h : Host Q X W) (obs : Observed h) (codes : AreOpCodes h.codes) where
  send_chunk-cases :
      (result : ℤ) (s : GetRange) (b : AlignedBytes) (w : World Q X W)
      → s.buffer ≡ some b
      → (send_chunk h result s w ≡ panics Panic.channel_disconnected)
        ⊎ ((s' : GetRange) × (w' : World Q X W) × (send_chunk h result s w ≡ returns (s', w'))
            × (w'.sq ≡ w.sq))
  unfolding send_chunk send_message
  send_chunk-cases (negsuc k) s b w held = inr (s, w, ground arith, refl)
  send_chunk-cases (pos n) s b w held =
      elim (Option-cases (h.send (ok (record { buffer = b; user_data = s.user_data })) w.tx)) [
        | inl refused ↦ inl (ground arith)
        | inr (tx, sent) ↦
            inr (record s { buffer = none }, record w { tx = tx }, ground arith, refl)
      ]

  close_if_last-Outcome :
      (u : UringUserData) (op : GetRange) (s : GetRange) (w w1 : World Q X W)
      → u.index_of_op < 2 ^ 32
      → w1.sq ≡ w.sq
      → Outcome h obs u []
          (Operation.get_range op)
          w
          (close_if_last h u s w1 >>= λ (n, s', w'). returns (n, Operation.get_range s', w'))
  unfolding close_if_last Close.submit_first_step push_entry build_close_sqe new
  close_if_last-Outcome u op s w w1 fits same =
      elim (Bool-cases (Arc.strong_count s.file w1.files == 1)) [
        | inr shared ↦
            goes_on NextStep.done (Operation.get_range s) w1 (simp shared) same refl (omega arith)
        | inl last ↦ elim (Option-cases (h.sq_push (close_entry h u s) w1.sq)) [
          | inl full ↦ fails Panic.submission_queue_full (ground arith) refl (λ _. record {
            entry = close_entry h u s;
            refused = subst (λ q. h.sq_push (close_entry h u s) q ≡ none) same full;
          })
          | inr (sq, room) ↦
              closes (record { file = s.file }) (Operation.get_range s)
                (record w1 { sq = sq; files = Arc.clone s.file w1.files }) (close_entry h u s)
                (ground arith)
                (ground (arith, obs.queued-sq_push (close_entry h u s) w1.sq sq room))
                (from_u64_of_new u.index_of_op h.codes.close codes.close_byte) refl refl
        ]
      ]

  get_range-Outcome :
      (u : UringUserData) (result : ℤ) (s : GetRange) (b : AlignedBytes) (w w1 : World Q X W)
      → u.index_of_op < 2 ^ 32
      → u.op ≡ h.codes.read
      → s.buffer ≡ some b
      → w1.sq ≡ w.sq
      → Outcome h obs u [] (Operation.get_range s) w (
          GetRange.process h u result s w1 >>= λ (n, s', w').
          returns (n, Operation.get_range s', w'))
  unfolding GetRange.process
  get_range-Outcome u result s b w w1 fits code held same =
      let c : (u.op == h.codes.read) ≡ true = ground (arith, code) in
      elim (send_chunk-cases result s b w1 held) [
        | inl refused ↦
            fails Panic.channel_disconnected (simp (c, refused)) refl (λ e. absurd (cc e))
        | inr (s', w2, e, same') ↦
            simp (c, e) (close_if_last-Outcome u s s' w w2 fits (same' ∙ same))
      ]

  close-Outcome :
      (u : UringUserData) (result : ℤ) (s : Close) (w w1 : World Q X W)
      → u.op ≡ h.codes.close
      → w1.sq ≡ w.sq
      → Outcome h obs u []
          (Operation.close s)
          w
          (Close.process h u result s w1 >>= λ (n, s', w'). returns (n, Operation.close s', w'))
  unfolding Close.process
  close-Outcome u result s w w1 code same =
      goes_on NextStep.done (Operation.close s) w1 (ground arith) same refl (omega arith)

  first-Outcome :
      (u : UringUserData) (result : ℤ) (statx : Statx) (s : GetRanges) (b : OpenFileBuilder)
      (rest : List ℕ) (w w1 : World Q X W)
      → s.open_file_builder ≡ some b
      → s.n_cqes_received ≡ 0
      → ((u.op ≡ h.codes.open_at) × (rest ≡ h.codes.statx ∷ []))
        ⊎ ((u.op ≡ h.codes.statx) × (rest ≡ h.codes.open_at ∷ []))
      → w1.sq ≡ w.sq
      → Outcome h obs u rest (Operation.get_ranges s) w (
          GetRanges.process h u result statx s w1 >>= λ (n, s', w').
          returns (n, Operation.get_ranges s', w'))
  unfolding GetRanges.process
  first-Outcome u result statx s b rest w w1 here zeroth which same =
      let (b', e) =
        noted h obs codes u result statx s b here
          (elim which [ inl (k, _) ↦ inl k | inr (k, _) ↦ inr k ]) in
      goes_on NextStep.pending
        (Operation.get_ranges (record s { open_file_builder = some b'; n_cqes_received = 1 })) w1
        (simp (e, zeroth)) same
        (b', refl, inr (refl, elim which [ inl (_, r) ↦ inr r | inr (_, r) ↦ inl r ]))
        (omega (arith, zeroth))

  second-Outcome :
      (u : UringUserData) (result : ℤ) (statx : Statx) (s : GetRanges) (b : OpenFileBuilder)
      (w w1 : World Q X W)
      → s.open_file_builder ≡ some b
      → s.n_cqes_received ≡ 1
      → (u.op ≡ h.codes.open_at) ⊎ (u.op ≡ h.codes.statx)
      → w1.sq ≡ w.sq
      → Outcome h obs u [] (Operation.get_ranges s) w (
          GetRanges.process h u result statx s w1 >>= λ (n, s', w').
          returns (n, Operation.get_ranges s', w'))
  unfolding GetRanges.process
  second-Outcome u result statx s b w w1 here one code same =
      let (b', e) = noted h obs codes u result statx s b here code in
      elim (finish_opening-cases h obs codes
        (record s { n_cqes_received = 2; open_file_builder = some b' }) b' w1 refl) [
          | inl (p, refused, out, other) ↦
              fails p (simp (e, one, refused)) out (λ e. absurd (other e))
          | inr (s', w', q, same', _) ↦
              goes_on NextStep.done (Operation.get_ranges s') w' (simp (e, one, q)) (same' ∙ same)
                refl (omega (arith, one))
        ]

  -- A completion that the operation waits for, as the dispatch hands it on.
  pub Due-Outcome :
      (u : UringUserData) (result : ℤ) (statx : Statx) (op : Operation) (rest : List ℕ)
      (w : World Q X W)
      → u.index_of_op < 2 ^ 32
      → Due h.codes u.op rest op
      → Outcome h obs u rest op w (process_opcode_and_submit_next_step h u result statx op w)
  unfolding process_opcode_and_submit_next_step
  Due-Outcome u result statx op rest w fits due =
      elim (maybe_send_error-cases h obs u result op w) [
        | inl refused ↦ fails Panic.channel_disconnected (simp refused) refl (λ e. absurd (cc e))
        | inr (w1, e, same) ↦ handled op due w1 e same
      ]
    where
      handled :
          (op : Operation)
          → Due h.codes u.op rest op
          → (w1 : World Q X W) → maybe_send_error h u result op w ≡ returns w1
          → w1.sq ≡ w.sq
          → Outcome h obs u rest op w (process_opcode_and_submit_next_step h u result statx op w)
      handled _ (closed s k r) w1 e same = simp (e, r) (close-Outcome u result s w w1 k same)
      handled _ (read s b held k r) w1 e same =
          simp (e, r) (get_range-Outcome u result s b w w1 fits k held same)
      handled _ (first s b here n which) w1 e same =
          simp e (first-Outcome u result statx s b rest w w1 here n which same)
      handled _ (second s b here n k r) w1 e same =
          simp (e, r) (second-Outcome u result statx s b w w1 here n k same)

  -- A completion with one of the opcodes that an operation waits for is handled, unless the range is too
  -- long, the channel is closed, the queue is full or the manager of the pool is gone; the operation then
  -- waits for the others, and for a close that it has submitted.
  pub process-Outcome :
      (u : UringUserData) (result : ℤ) (statx : Statx) (op : Operation) (xs ys : List ℕ)
      (w : World Q X W)
      → u.index_of_op < 2 ^ 32
      → Awaits h.codes (some op) (xs ++ (u.op ∷ ys))
      → Outcome h obs u (xs ++ ys) op w (process_opcode_and_submit_next_step h u result statx op w)
  process-Outcome u result statx op xs ys w fits waits =
      Due-Outcome u result statx op (xs ++ ys) w fits (Awaits-Due h.codes op u.op xs ys waits)

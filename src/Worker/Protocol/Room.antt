-- ===== src/Worker/Protocol/Room.antt =====
-- worker.rs: how much room in the submission queue is enough for the completions of a round.
use light_speed_io.Prelude.{
  ℕ, ◌+◌, ◌≤◌, ◌≡◌, ◌≢◌, sym, ◌∙◌, ap, subst, arith, true, List, [], ◌∷◌, ◌++◌, none, returns,
  panics, Panic, Exec, ◌>>=◌, length, length-append,
}
use light_speed_io.Prelude.Int.{ℤ}
use light_speed_io.OpenFile.{Statx}
use light_speed_io.UserData.{from_u64}
use light_speed_io.Tracker.Refines.{flat}
use light_speed_io.Sqe.{Entry}
use light_speed_io.Ops.State.{Operation, NextStep, Host, World, Completion}
use light_speed_io.Ops.Observed.{Observed}
use light_speed_io.Ops.Expected.{
  AreOpCodes, Outcome, fails, goes_on, closes, is_external, HasRefused,
}
use light_speed_io.Ops.Dispatch.{process_opcode_and_submit_next_step}
use light_speed_io.Ops.Submitted.{codes_at}
use light_speed_io.Worker.{UringWorker, handle_cqe, drain}
use light_speed_io.Worker.Completions.{handle_cqe-Settled}
use light_speed_io.Worker.Protocol.{System, Reach, completes, then_, completion}
use light_speed_io.Worker.Protocol.Kept.{handle_cqe-panics, released-sq}
use light_speed_io.Worker.Protocol.Answered.{Answers, Met, meets}
use light_speed_io.Worker.Protocol.Steps.{Reach-Answers}

-- Completions of entries that the kernel has taken, at most one of each.
pub data AreTaken : List Entry → List Completion → Type 0 where
  no_more : (taken : List Entry) → AreTaken taken []
  one_of :
      (taken before : List Entry) (entry : Entry) (after : List Entry) (result : ℤ) (statx : Statx)
      (cqes : List Completion)
      → taken ≡ before ++ (entry ∷ after)
      → AreTaken (before ++ after) cqes
      → AreTaken taken (completion entry result statx ∷ cqes)

module _ {Q X W : Type 0} (h : Host Q X W) (obs : Observed h) (codes : AreOpCodes h.codes) where
  -- What `SubmissionQueue::push` documents: an entry is refused only if the queue is full.
  abbrev pub RefusesAt : ℕ → Type 0
  RefusesAt capacity = (e : Entry) (q : Q) → h.sq_push e q ≡ none → capacity ≤ length (obs.queued q)

  abbrev queue_length : UringWorker Q X W → ℕ
  queue_length s = length (obs.queued s.world.sq)

  -- A completion is handled and leaves at most one entry more, or its handling panics.
  data Handled (cqe : Completion) (s : UringWorker Q X W) : Type 0 where
    moves_on :
        (s' : UringWorker Q X W)
        → handle_cqe h cqe s ≡ returns s'
        → queue_length s' ≤ queue_length s + 1
        → Handled cqe s
    stops :
        (x : Panic)
        → handle_cqe h cqe s ≡ panics x
        → is_external x ≡ true
        → (x ≡ Panic.submission_queue_full → HasRefused h s.world)
        → Handled cqe s

  handle_cqe-Handled :
      (xs ys : List Entry) (e : Entry) (result : ℤ) (statx : Statx) (s : UringWorker Q X W)
      → Answers h obs codes (record { worker = s; taken = xs ++ (e ∷ ys) })
      → Handled (completion e result statx) s
  handle_cqe-Handled xs ys e result statx s v = cases met.outcome
    where
      met : Met h obs codes xs ys e result statx s
      met = meets h obs codes xs ys e result statx s v

      moved :
          (next : NextStep) (op' : Operation) (w' : World Q X W)
          → process_opcode_and_submit_next_step h (from_u64 e.user_data) result statx met.op s.world
            ≡ returns (next, op', w')
          → length (obs.queued w'.sq) ≤ queue_length s + 1
          → Handled (completion e result statx) s
      moved next op' w' q le =
          let (t, q', k) =
            handle_cqe-Settled h (completion e result statx) s met.op next op' w' v.inv
              (ap flat met.slot) q in
          let same : t.world.sq ≡ w'.sq =
            ap (λ (w : World Q X W). w.sq) k.world ∙ released-sq next op' w' in
          moves_on t q' (subst (λ x. length (obs.queued x) ≤ queue_length s + 1) (sym same) le)

      cases :
          Outcome h obs
            (from_u64 e.user_data)
            (codes_at (from_u64 e.user_data).index_of_op ((xs ++ ys) ++ obs.queued s.world.sq))
            met.op
            s.world
            (process_opcode_and_submit_next_step h
              (from_u64 e.user_data)
              result
              statx
              met.op
              s.world)
          → Handled (completion e result statx) s
      cases (fails x q external full) =
          stops x (handle_cqe-panics h (completion e result statx) s met.op x met.slot q) external
            full
      cases (goes_on next op' w' q same waits less) =
          moved next op' w' q (omega (arith, ap (λ x. length (obs.queued x)) same))
      cases (closes close op' w' entry q pushed code none_left two) =
          moved (NextStep.replace_with (Operation.close close)) op' w' q
            (omega (arith, ap length pushed, length-append (obs.queued s.world.sq) (entry ∷ [])))

  -- In every state that a worker comes to while each entry is completed at most once, and where the
  -- submission queue refuses an entry only if it is full: if it has room for as many entries as there are
  -- completions to drain, none of them finds the queue full. Draining them returns, or panics because a
  -- range is too long, the channel is closed or the manager of the pool is gone.
  pub drain-is_external :
      (w : World Q X W) (p : System Q X W) (cqes : List Completion) (capacity : ℕ) (x : Panic)
      → Reach h obs w p
      → AreTaken p.taken cqes
      → RefusesAt capacity
      → length (obs.queued p.worker.world.sq) + length cqes ≤ capacity
      → drain h cqes p.worker ≡ panics x
      → (is_external x ≡ true) × (x ≢ Panic.submission_queue_full)
  unfolding drain
  drain-is_external w p cqes capacity x r (no_more taken) full room e = absurd (cc e)
  drain-is_external w p cqes capacity x r (one_of taken xs entry ys result statx rest split others)
        full room e =
      let v =
        subst (λ z. Answers h obs codes (record { worker = p.worker; taken = z })) split
          (Reach-Answers h obs codes r) in
      elim (handle_cqe-Handled xs ys entry result statx p.worker v) [
        | moves_on s' q le ↦
            drain-is_external w (record { worker = s'; taken = xs ++ ys }) rest capacity x
              (then_ r (completes xs entry ys result statx s' split q)) others full
              (omega (arith, room, le))
              (sym (ap (λ (m : Exec (UringWorker Q X W)). m >>= drain h rest) q) ∙ e)
        | stops y q external refused ↦
            let same : y ≡ x = cc (q, e) in
            (
              subst (λ z. is_external z ≡ true) same external,
              (λ at_capacity.
                  let none_left = refused (same ∙ at_capacity) in
                  omega (arith, room, full none_left.entry p.worker.world.sq none_left.refused)),
            )
      ]

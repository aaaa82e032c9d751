-- ===== src/Worker/Protocol/Accounted.antt =====
-- worker.rs: the user is answered once for each read.
use light_speed_io.Prelude.{
  total, ℕ, ◌+◌, ◌≡◌, refl, ◌∙◌, ap, subst, arith, List, [], ◌∷◌, ◌++◌, some, returns,
  returns_or_panics, returns_unique,
}
use light_speed_io.Prelude.Int.{ℤ}
use light_speed_io.OpenFile.{Statx}
use light_speed_io.UserData.{from_u64}
use light_speed_io.Tracker.Refines.{flat}
use light_speed_io.Sqe.{Entry}
use light_speed_io.Ops.State.{Operation, NextStep, Host, World, left}
use light_speed_io.Ops.Observed.{Observed}
use light_speed_io.Ops.Expected.{AreOpCodes, Outcome, fails, goes_on, closes}
use light_speed_io.Ops.Dispatch.{process_opcode_and_submit_next_step}
use light_speed_io.Ops.Submitted.{codes_at}
use light_speed_io.Ops.Accounts.{reads_as, answers_to, process-Balanced}
use light_speed_io.Ops.Silent.{submit_first_step-Silent, released-tx}
use light_speed_io.Worker.{UringWorker, handle_cqe, submit}
use light_speed_io.Worker.Completions.{Settled, handle_cqe-Settled}
use light_speed_io.Worker.Protocol.{
  System, Reach, takes, completes, submits, start, then_, completion, outstanding, reads_submitted,
}
use light_speed_io.Worker.Protocol.Kept.{submit-Tracked, handle_cqe-panics}
use light_speed_io.Worker.Protocol.Sums.{total-change, total-put, total-new, total-free}
use light_speed_io.Worker.Protocol.Ended.{run-outstanding}
use light_speed_io.Worker.Protocol.Answered.{Answers, Met, meets}
use light_speed_io.Worker.Protocol.Steps.{Reach-Answers}

module _ {Q X W : Type 0} (h : Host Q X W) (obs : Observed h) (codes : AreOpCodes h.codes)
    (k : ℕ) where
  -- The reads known as `k` that are in flight, and the answers to `k` that the user was sent.
  abbrev pub in_flight : UringWorker Q X W → ℕ
  in_flight s = total (reads_as k) s.ops_in_flight.ops_in_flight

  abbrev pub answered : World Q X W → ℕ
  answered w = answers_to k (obs.sent w.tx)

  completes-even :
      (xs ys : List Entry) (e : Entry) (result : ℤ) (statx : Statx) (s s' : UringWorker Q X W)
      → Answers h obs codes (record { worker = s; taken = xs ++ (e ∷ ys) })
      → handle_cqe h (completion e result statx) s ≡ returns s'
      → answered s'.world + in_flight s' ≡ answered s.world + in_flight s
  completes-even xs ys e result statx s s' v r = cases met.outcome
    where
      met : Met h obs codes xs ys e result statx s
      met = meets h obs codes xs ys e result statx s v

      i : ℕ
      i = (from_u64 e.user_data).index_of_op

      even :
          (next : NextStep) (op' : Operation) (w' : World Q X W)
          → process_opcode_and_submit_next_step h (from_u64 e.user_data) result statx met.op s.world
            ≡ returns (next, op', w')
          → answered s'.world + in_flight s' ≡ answered s.world + in_flight s
      even next op' w' q =
          let (t, q', j) =
            handle_cqe-Settled h (completion e result statx) s met.op next op' w' v.inv
              (ap flat met.slot) q in
          let j' : Settled s.ops_in_flight i next op' w' s' =
            subst (Settled s.ops_in_flight i next op' w') (returns_unique q' r) j in
          let moved =
            total-change (reads_as k) s.ops_in_flight.ops_in_flight s'.ops_in_flight.ops_in_flight i
              met.op (left next op') met.slot j'.size j'.slots in
          let balanced =
            process-Balanced h obs codes k (from_u64 e.user_data) result statx met.op met.rest
              s.world (next, op', w') met.small met.due q in
          let sent : answered s'.world ≡ answered w' =
            ap answered j'.world ∙ ap (λ x. answers_to k (obs.sent x)) (released-tx next op' w') in
          omega (arith, moved, balanced, sent)

      cases :
          Outcome h obs
            (from_u64 e.user_data)
            (codes_at i ((xs ++ ys) ++ obs.queued s.world.sq))
            met.op
            s.world
            (process_opcode_and_submit_next_step h
              (from_u64 e.user_data)
              result
              statx
              met.op
              s.world)
          → answered s'.world + in_flight s' ≡ answered s.world + in_flight s
      cases (fails y q external _) = absurd (
          returns_or_panics y r
            (handle_cqe-panics h (completion e result statx) s met.op y met.slot q))
      cases (goes_on next op' w' q same waits less) = even next op' w' q
      cases (closes close op' w' entry q pushed code none_left two) =
          even (NextStep.replace_with (Operation.close close)) op' w' q

  submits-one :
      (p : System Q X W) (op : Operation) (s' : UringWorker Q X W)
      → Answers h obs codes p
      → submit h op p.worker ≡ returns s'
      → answered s'.world + in_flight s'
        ≡ answered p.worker.world + in_flight p.worker + reads_as k (some op)
  submits-one p op s' v r =
      let j = submit-Tracked h op p.worker s' v.inv r in
      let (quiet, same) = submit_first_step-Silent h j.index op p.worker.world _ j.accepted in
      let put =
        total-put (reads_as k) p.worker.ops_in_flight.ops_in_flight j.index j.op' j.within j.unused
          refl in
      let now : in_flight s' ≡ in_flight p.worker + reads_as k (some j.op') =
        ap (total (reads_as k)) j.tracker ∙ put in
      omega (arith, now, same k, ap (λ x. answers_to k (obs.sent x)) quiet)

  -- In every state that a worker comes to while each entry is completed at most once, and for every number
  -- of the user's: the reads under that number that were submitted are as many as those in flight and
  -- the answers under it, buffers and errors, that the user was sent since the start.
  pub reads-answered :
      {w : World Q X W} {p : System Q X W} (r : Reach h obs w p)
      → answered p.worker.world + in_flight p.worker ≡ answered w + reads_submitted h obs k r
  unfolding reads_submitted
  reads-answered (start e) = omega (arith, total-new (reads_as k) 64 refl)
  reads-answered (then_ r (takes es q e)) = reads-answered r
  reads-answered (then_ {p} r (completes xs e ys result statx s split q)) =
      let v =
        subst (λ z. Answers h obs codes (record { worker = p.worker; taken = z })) split
          (Reach-Answers h obs codes r) in
      completes-even xs ys e result statx p.worker s v q ∙ reads-answered r
  reads-answered (then_ {p} r (submits op s fresh q)) =
      omega (arith, reads-answered r, submits-one p op s (Reach-Answers h obs codes r) q)

  -- In every state that a worker comes to while each entry is completed at most once, and in which no
  -- entry is outstanding, each read that was submitted was answered: for
  -- every number of the user's, there are as many new answers under it as reads were submitted under it.
  pub reads-outstanding :
      {w : World Q X W} {p : System Q X W} (r : Reach h obs w p)
      → outstanding h obs p ≡ []
      → answered p.worker.world ≡ answered w + reads_submitted h obs k r
  reads-outstanding {w} {p} r quiet =
      let (empty, _) = run-outstanding h obs codes w p r quiet in
      omega (
        arith,
        reads-answered r,
        total-free (reads_as k) p.worker.ops_in_flight.ops_in_flight refl empty,
      )

-- ===== src/Worker/Protocol/Bounded.antt =====
-- worker.rs: how many completions the protocol can come to.
use light_speed_io.Prelude.{
  ℕ, ◌+◌, ◌*◌, ◌<◌, ◌≤◌, ◌≡◌, refl, sym, ap, subst, arith, List, ◌∷◌, ◌++◌, some, returns,
  returns_or_panics, returns_unique,
}
use light_speed_io.Prelude.Int.{ℤ}
use light_speed_io.OpenFile.{Statx}
use light_speed_io.UserData.{from_u64}
use light_speed_io.Tracker.Refines.{flat}
use light_speed_io.Sqe.{Entry}
use light_speed_io.Ops.State.{Operation, NextStep, Host, World, left}
use light_speed_io.Ops.Observed.{Observed}
use light_speed_io.Ops.Expected.{AreOpCodes, Outcome, fails, goes_on, closes, to_come}
use light_speed_io.Ops.Dispatch.{process_opcode_and_submit_next_step}
use light_speed_io.Ops.Submitted.{codes_at}
use light_speed_io.Worker.{UringWorker, handle_cqe, submit}
use light_speed_io.Worker.Completions.{Settled, handle_cqe-Settled}
use light_speed_io.Worker.Protocol.{
  System, Reach, takes, completes, submits, start, then_, completion, submissions, completions,
}
use light_speed_io.Worker.Protocol.Kept.{submit-Tracked, handle_cqe-panics}
use light_speed_io.Worker.Protocol.Sums.{
  all_to_come, total-change, total-put, total-new, to_come-le_two,
}
use light_speed_io.Worker.Protocol.Answered.{Answers, Met, meets}
use light_speed_io.Worker.Protocol.Steps.{Reach-Answers}

module _ {Q X W : Type 0} (h : Host Q X W) (obs : Observed h) (codes : AreOpCodes h.codes) where
  completes-fewer :
      (xs ys : List Entry) (e : Entry) (result : ℤ) (statx : Statx) (s s' : UringWorker Q X W)
      → Answers h obs codes (record { worker = s; taken = xs ++ (e ∷ ys) })
      → handle_cqe h (completion e result statx) s ≡ returns s'
      → all_to_come s'.ops_in_flight.ops_in_flight < all_to_come s.ops_in_flight.ops_in_flight
  completes-fewer xs ys e result statx s s' v r = cases met.outcome
    where
      met : Met h obs codes xs ys e result statx s
      met = meets h obs codes xs ys e result statx s v

      i : ℕ
      i = (from_u64 e.user_data).index_of_op

      fewer :
          (next : NextStep) (op' : Operation) (w' : World Q X W)
          → process_opcode_and_submit_next_step h (from_u64 e.user_data) result statx met.op s.world
            ≡ returns (next, op', w')
          → to_come (left next op') < to_come (some met.op)
          → all_to_come s'.ops_in_flight.ops_in_flight < all_to_come s.ops_in_flight.ops_in_flight
      fewer next op' w' q less =
          let (t, q', k) =
            handle_cqe-Settled h (completion e result statx) s met.op next op' w' v.inv
              (ap flat met.slot) q in
          let k' : Settled s.ops_in_flight i next op' w' s' =
            subst (Settled s.ops_in_flight i next op' w') (returns_unique q' r) k in
          let moved =
            total-change to_come s.ops_in_flight.ops_in_flight s'.ops_in_flight.ops_in_flight i
              met.op (left next op') met.slot k'.size k'.slots in
          omega (arith, moved, less)

      cases :
          Outcome h obs
            (from_u64 e.user_data)
            (codes_at i ((xs ++ ys) ++ obs.queued s.world.sq))
            met.op
            s.world
            (process_opcode_and_submit_next_step h
              (from_u64 e.user_data)
              result
              statx
              met.op
              s.world)
          → all_to_come s'.ops_in_flight.ops_in_flight < all_to_come s.ops_in_flight.ops_in_flight
      cases (fails y q external _) = absurd (
          returns_or_panics y r
            (handle_cqe-panics h (completion e result statx) s met.op y met.slot q))
      cases (goes_on next op' w' q same waits less) = fewer next op' w' q less
      cases (closes close op' w' entry q pushed code none_left two) =
          fewer (NextStep.replace_with (Operation.close close)) op' w' q (omega (arith, two))

  submits-two :
      (p : System Q X W) (op : Operation) (s' : UringWorker Q X W)
      → Answers h obs codes p
      → submit h op p.worker ≡ returns s'
      → all_to_come s'.ops_in_flight.ops_in_flight
        ≤ 2 + all_to_come p.worker.ops_in_flight.ops_in_flight
  submits-two p op s' v r =
      let k = submit-Tracked h op p.worker s' v.inv r in
      let slots = p.worker.ops_in_flight.ops_in_flight in
      let put = total-put to_come slots k.index k.op' k.within k.unused refl in
      subst (λ z. all_to_come z ≤ 2 + all_to_come slots) (sym k.tracker)
        (omega (arith, put, to_come-le_two (some k.op')))

  -- However the completions arrive, a worker handles at most two for each operation that was submitted
  -- to it, and those that its slots may still see are within that number: without new operations, the
  -- completions come to an end.
  pub completions-le :
      {w : World Q X W} {p : System Q X W} (r : Reach h obs w p)
      → completions h obs r + all_to_come p.worker.ops_in_flight.ops_in_flight
        ≤ 2 * submissions h obs r
  unfolding completions submissions
  completions-le (start e) = omega (arith, total-new to_come 64 refl)
  completions-le (then_ r (takes es q e)) = completions-le r
  completions-le (then_ {p} r (completes xs e ys result statx s split q)) =
      let v =
        subst (λ z. Answers h obs codes (record { worker = p.worker; taken = z })) split
          (Reach-Answers h obs codes r) in
      omega (arith, completions-le r, completes-fewer xs ys e result statx p.worker s v q)
  completions-le (then_ {p} r (submits op s fresh q)) =
      omega (arith, completions-le r, submits-two p op s (Reach-Answers h obs codes r) q)

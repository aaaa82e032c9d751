-- ===== src/Worker/Protocol/Ended.antt =====
-- worker.rs: theorems about every state that the protocol leads to.
use light_speed_io.Prelude.{
  ℕ, suc, ◌≡◌, refl, ◌∙◌, ap, subst, true, List, [], ◌∷◌, ◌++◌, Option, none, some, returns, panics,
  Panic, returns_or_panics, get_elem?,
}
use light_speed_io.Prelude.Int.{ℤ}
use light_speed_io.OpenFile.{Statx}
use light_speed_io.UserData.{from_u64}
use light_speed_io.Tracker.Slots.{occupied}
use light_speed_io.Tracker.Refines.{lookup, flat}
use light_speed_io.Sqe.{Entry}
use light_speed_io.Ops.State.{Operation, NextStep, Host, World}
use light_speed_io.Ops.Observed.{Observed}
use light_speed_io.Ops.Expected.{
  Awaits-nothing, AreOpCodes, Awaits, Outcome, fails, goes_on, closes, is_external,
}
use light_speed_io.Ops.Dispatch.{process_opcode_and_submit_next_step}
use light_speed_io.Ops.Submitted.{codes_at}
use light_speed_io.Worker.{handle_cqe, run}
use light_speed_io.Worker.Completions.{handle_cqe-Settled}
use light_speed_io.Worker.Protocol.{System, Reach, completion, outstanding}
use light_speed_io.Worker.Protocol.Kept.{handle_cqe-panics}
use light_speed_io.Worker.Protocol.Answered.{Answers, Met, meets}
use light_speed_io.Worker.Protocol.Steps.{Reach-Answers}

occupied-zero :
    {T : Type 0} (slots : List (Option T))
    → ((i : ℕ) → flat (get_elem? slots i) ≡ none)
    → occupied slots ≡ 0
occupied-zero [] empty = refl
occupied-zero (none ∷ slots) empty = occupied-zero slots (λ i. empty (suc i))
occupied-zero (some x ∷ slots) empty = absurd (cc (empty 0))

module _ {Q X W : Type 0} (h : Host Q X W) (obs : Observed h) (codes : AreOpCodes h.codes) where
  -- In every state that a worker comes to while each entry is completed at most once, the handling of a
  -- completion of any entry that the kernel has taken either returns, or panics because a range is too
  -- long, the channel is closed, the submission queue is full or the manager of the pool is gone: no
  -- assertion of the worker, the tracker or an operation fails.
  pub handle_cqe-is_external :
      (w : World Q X W) (p : System Q X W) (before : List Entry) (entry : Entry)
      (after : List Entry) (result : ℤ) (statx : Statx) (x : Panic)
      → Reach h obs w p
      → p.taken ≡ before ++ (entry ∷ after)
      → handle_cqe h (completion entry result statx) p.worker ≡ panics x
      → is_external x ≡ true
  handle_cqe-is_external w p before entry after result statx x reach split r = cases met.outcome
    where
      v : Answers h obs codes (record { worker = p.worker; taken = before ++ (entry ∷ after) })
      v =
          subst (λ z. Answers h obs codes (record { worker = p.worker; taken = z })) split
            (Reach-Answers h obs codes reach)

      met : Met h obs codes before after entry result statx p.worker
      met = meets h obs codes before after entry result statx p.worker v

      i : ℕ
      i = (from_u64 entry.user_data).index_of_op

      settled :
          (next : NextStep) (op' : Operation) (w' : World Q X W)
          → process_opcode_and_submit_next_step h
              (from_u64 entry.user_data)
              result
              statx
              met.op
              p.worker.world
            ≡ returns (next, op', w')
          → is_external x ≡ true
      settled next op' w' q =
          let (t, q', k) =
            handle_cqe-Settled h (completion entry result statx) p.worker met.op next op' w' v.inv
              (ap flat met.slot) q in
          absurd (returns_or_panics x q' r)

      cases :
          Outcome h obs
            (from_u64 entry.user_data)
            (codes_at i ((before ++ after) ++ obs.queued p.worker.world.sq))
            met.op
            p.worker.world
            (process_opcode_and_submit_next_step h
              (from_u64 entry.user_data)
              result
              statx
              met.op
              p.worker.world)
          → is_external x ≡ true
      cases (fails y q external _) =
          let e : y ≡ x =
            cc (
              handle_cqe-panics h (completion entry result statx) p.worker met.op y met.slot q,
              r,
            ) in
          subst (λ z. is_external z ≡ true) e external
      cases (goes_on next op' w' q same waits fewer) = settled next op' w' q
      cases (closes close op' w' e q pushed code none_left two) =
          settled (NextStep.replace_with (Operation.close close)) op' w' q

  -- In every state that a worker comes to while each entry is completed at most once, when no entry is
  -- outstanding no operation is in flight, so a worker that is told to stop returns: its last assertion
  -- holds.
  pub run-outstanding :
      (w : World Q X W) (p : System Q X W)
      → Reach h obs w p
      → outstanding h obs p ≡ []
      → ((i : ℕ) → lookup p.worker.ops_in_flight i ≡ none) × (run h [] p.worker ≡ returns p.worker)
  unfolding run
  run-outstanding w p reach quiet =
      let v = Reach-Answers h obs codes reach in
      let empty : (i : ℕ) → lookup p.worker.ops_in_flight i ≡ none = λ i.
        Awaits-nothing h.codes (lookup p.worker.ops_in_flight i) (
          subst (Awaits h.codes (lookup p.worker.ops_in_flight i)) (ap (codes_at i) quiet)
            (v.waits i)) in
      let zeroth : p.worker.ops_in_flight.len ≡ 0 =
        v.inv.counted ∙ occupied-zero p.worker.ops_in_flight.ops_in_flight empty in
      (empty, simp zeroth)

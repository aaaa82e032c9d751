-- ===== src/Worker/Protocol/Steps.antt =====
-- worker.rs: the steps of the protocol keep its invariant.
use light_speed_io.Prelude.{
  ℕ, ◌≡◌, ◌≢◌, sym, ◌∙◌, ap, subst, arith, List, [], ◌∷◌, ◌++◌, none, some, returns,
  returns_or_panics, returns_unique, get_elem?, length, length-set,
}
use mathlib.Core.List.{append-nil, append_assoc}
use light_speed_io.UserData.{from_u64}
use light_speed_io.Tracker.{Tracker}
use light_speed_io.Tracker
use light_speed_io.Tracker.Invariant.{new-Inv, length-new}
use light_speed_io.Tracker.Refines.{lookup, lookup-set, lookup-new, flat}
use light_speed_io.Prelude.Int.{ℤ}
use light_speed_io.OpenFile.{Statx}
use light_speed_io.Sqe.{Entry}
use light_speed_io.Ops.State.{Operation, NextStep, Close, Host, World, left}
use light_speed_io.Ops.Observed.{Observed}
use light_speed_io.Ops.Dispatch.{process_opcode_and_submit_next_step}
use light_speed_io.Ops.Expected.{AreOpCodes, Awaits, Outcome, fails, goes_on, closes}
use light_speed_io.Ops.Submitted.{IsFresh, codes_at, submit_first_step-Submitted}
use light_speed_io.Worker.{UringWorker, handle_cqe, submit, new}
use light_speed_io.Worker.Completions.{Settled, handle_cqe-Settled}
use light_speed_io.Worker.Protocol.{
  System, Step, Reach, takes, completes, submits, start, then_, completion, outstanding, with_queue,
}
use light_speed_io.Worker.Protocol.Kept.{submit-Tracked, handle_cqe-panics, released-sq}
use light_speed_io.Worker.Protocol.Answered.{
  Answers, Met, meets, other_code, slots-Answers, codes_at-split, codes_at-joined, codes_at-more,
  codes_at-later,
}

module _ {Q X W : Type 0} (h : Host Q X W) (obs : Observed h) (codes : AreOpCodes h.codes) where
  takes-Answers :
      (p : System Q X W) (es : List Entry) (q : Q)
      → Answers h obs codes p
      → obs.queued p.worker.world.sq ≡ es ++ obs.queued q
      → Answers h obs codes (record { worker = with_queue q p.worker; taken = p.taken ++ es })
  takes-Answers p es q v e =
      let same : (p.taken ++ es) ++ obs.queued q ≡ outstanding h obs p =
        append_assoc p.taken es (obs.queued q) ∙ ap (λ x. p.taken ++ x) (sym e) in
      record {
        inv = v.inv;
        size = v.size;
        waits = λ i.
            subst (λ x. Awaits h.codes (lookup p.worker.ops_in_flight i) (codes_at i x)) (sym same)
              (v.waits i);
      }

  -- For another index, nothing changes when an entry is completed.
  others_after :
      (xs ys : List Entry) (e : Entry) (q : List Entry) (j : ℕ)
      → (from_u64 e.user_data).index_of_op ≢ j
      → codes_at j ((xs ++ ys) ++ q) ≡ codes_at j ((xs ++ (e ∷ ys)) ++ q)
  others_after xs ys e q j ne =
      codes_at-joined j xs ys q
      ∙ ap (λ x. codes_at j xs ++ x) (sym (other_code h obs codes e (ys ++ q) j ne))
      ∙ sym (codes_at-split j xs ys q e)

  -- After a completion that submits nothing, and after one that submits a close.
  goes_on-Answers :
      (xs ys : List Entry) (e : Entry) (s s' : UringWorker Q X W) (next : NextStep)
      (op' : Operation) (w' : World Q X W)
      → Answers h obs codes (record { worker = s; taken = xs ++ (e ∷ ys) })
      → Settled s.ops_in_flight (from_u64 e.user_data).index_of_op next op' w' s'
      → w'.sq ≡ s.world.sq
      → Awaits h.codes
          (left next op')
          (codes_at (from_u64 e.user_data).index_of_op ((xs ++ ys) ++ obs.queued s.world.sq))
      → Answers h obs codes (record { worker = s'; taken = xs ++ ys })
  goes_on-Answers xs ys e s s' next op' w' v k same waits =
      let i = (from_u64 e.user_data).index_of_op in
      let sq : obs.queued s'.world.sq ≡ obs.queued s.world.sq =
        ap (λ (w : World Q X W). obs.queued w.sq) k.world
        ∙ ap obs.queued (released-sq next op' w' ∙ same) in
      slots-Answers h obs codes (record { worker = s; taken = xs ++ (e ∷ ys) })
        (record { worker = s'; taken = xs ++ ys }) i (left next op') v k.inv k.size k.slots
        (subst (λ z. Awaits h.codes (left next op') (codes_at i ((xs ++ ys) ++ z))) (sym sq) waits)
        (λ j ne.
          ap (λ z. codes_at j ((xs ++ ys) ++ z)) sq
          ∙ others_after xs ys e (obs.queued s.world.sq) j ne)

  closes-Answers :
      (xs ys : List Entry) (e : Entry) (s s' : UringWorker Q X W) (close : Close) (op' : Operation)
      (w' : World Q X W) (entry : Entry)
      → Answers h obs codes (record { worker = s; taken = xs ++ (e ∷ ys) })
      → Settled s.ops_in_flight
          (from_u64 e.user_data).index_of_op
          (NextStep.replace_with (Operation.close close))
          op'
          w'
          s'
      → obs.queued w'.sq ≡ obs.queued s.world.sq ++ (entry ∷ [])
      → from_u64 entry.user_data
        ≡ record { index_of_op = (from_u64 e.user_data).index_of_op; op = h.codes.close }
      → codes_at (from_u64 e.user_data).index_of_op ((xs ++ ys) ++ obs.queued s.world.sq) ≡ []
      → Answers h obs codes (record { worker = s'; taken = xs ++ ys })
  closes-Answers xs ys e s s' close op' w' entry v k pushed code none_left =
      let i = (from_u64 e.user_data).index_of_op in
      let next = NextStep.replace_with (Operation.close close) in
      let q = obs.queued s.world.sq in
      let sq : obs.queued s'.world.sq ≡ q ++ (entry ∷ []) =
        ap (λ (w : World Q X W). obs.queued w.sq) k.world
        ∙ ap obs.queued (released-sq next op' w')
        ∙ pushed in
      let own : codes_at i (entry ∷ []) ≡ h.codes.close ∷ [] = ground arith in
      slots-Answers h obs codes (record { worker = s; taken = xs ++ (e ∷ ys) })
        (record { worker = s'; taken = xs ++ ys }) i (some (Operation.close close)) v k.inv k.size
        k.slots
        (ap (λ z. codes_at i ((xs ++ ys) ++ z)) sq
          ∙ codes_at-more i xs ys q (entry ∷ [])
          ∙ ap (λ z. z ++ codes_at i (entry ∷ [])) none_left
          ∙ own)
        (λ j ne.
          let foreign : codes_at j (entry ∷ []) ≡ [] = ground arith in
          ap (λ z. codes_at j ((xs ++ ys) ++ z)) sq
          ∙ codes_at-more j xs ys q (entry ∷ [])
          ∙ ap (λ z. codes_at j ((xs ++ ys) ++ q) ++ z) foreign
          ∙ append-nil _
          ∙ others_after xs ys e q j ne)

  completes-Answers :
      (xs ys : List Entry) (e : Entry) (result : ℤ) (statx : Statx) (s s' : UringWorker Q X W)
      → Answers h obs codes (record { worker = s; taken = xs ++ (e ∷ ys) })
      → handle_cqe h (completion e result statx) s ≡ returns s'
      → Answers h obs codes (record { worker = s'; taken = xs ++ ys })
  completes-Answers xs ys e result statx s s' v r = cases met.outcome
    where
      met : Met h obs codes xs ys e result statx s
      met = meets h obs codes xs ys e result statx s v

      i : ℕ
      i = (from_u64 e.user_data).index_of_op

      used : lookup s.ops_in_flight i ≡ some met.op
      used = ap flat met.slot

      cases :
          Outcome h obs
            (from_u64 e.user_data)
            (codes_at i ((xs ++ ys) ++ obs.queued s.world.sq))
            met.op
            s.world
            (process_opcode_and_submit_next_step h
              (from_u64 e.user_data)
              result
              statx
              met.op
              s.world)
          → Answers h obs codes (record { worker = s'; taken = xs ++ ys })
      cases (fails p q external _) = absurd (
          returns_or_panics p r
            (handle_cqe-panics h (completion e result statx) s met.op p met.slot q))
      cases (goes_on next op' w' q same waits fewer) =
          let (t, q', k) =
            handle_cqe-Settled h (completion e result statx) s met.op next op' w' v.inv used q in
          subst (λ a. Answers h obs codes (record { worker = a; taken = xs ++ ys }))
            (returns_unique q' r) (goes_on-Answers xs ys e s t next op' w' v k same waits)
      cases (closes close op' w' entry q pushed code none_left two) =
          let (t, q', k) =
            handle_cqe-Settled h (completion e result statx) s met.op
              (NextStep.replace_with (Operation.close close)) op' w' v.inv used q in
          subst (λ a. Answers h obs codes (record { worker = a; taken = xs ++ ys }))
            (returns_unique q' r)
            (closes-Answers xs ys e s t close op' w' entry v k pushed code none_left)

  submits-Answers :
      (p : System Q X W) (op : Operation) (s' : UringWorker Q X W)
      → Answers h obs codes p
      → IsFresh op
      → submit h op p.worker ≡ returns s'
      → Answers h obs codes (record { worker = s'; taken = p.taken })
  submits-Answers p op s' v fresh r =
      let k = submit-Tracked h op p.worker s' v.inv r in
      let i = k.index in
      let slots = p.worker.ops_in_flight.ops_in_flight in
      let m =
        submit_first_step-Submitted h obs codes i op k.op' p.worker.world s'.world fresh
          k.accepted in
      let q = obs.queued p.worker.world.sq in
      let unseen : codes_at i (p.taken ++ q) ≡ [] =
        subst (λ x. Awaits h.codes x (codes_at i (p.taken ++ q))) k.unused (v.waits i) in
      let seen = λ (j : ℕ).
        ap (λ z. codes_at j (p.taken ++ z)) m.queued ∙ codes_at-later j p.taken q m.more in
      slots-Answers h obs codes p (record { worker = s'; taken = p.taken }) i (some k.op') v k.inv
        (ap length k.tracker ∙ length-set slots i (some k.op'))
        (λ a. ap (λ l. flat (get_elem? l a)) k.tracker ∙ lookup-set slots i a (some k.op') k.within)
        (subst (Awaits h.codes (some k.op'))
          (sym (seen i ∙ ap (λ z. z ++ codes_at i m.more) unseen)) m.waits)
        (λ j ne.
          seen j
          ∙ ap (λ z. codes_at j (p.taken ++ q) ++ z) (m.own j (λ b. ne (sym b)))
          ∙ append-nil _)

  Step-Answers :
      {p q : System Q X W} → Answers h obs codes p → Step h obs p q → Answers h obs codes q
  Step-Answers {p} v (takes es q e) = takes-Answers p es q v e
  Step-Answers {p} v (completes xs e ys result statx s split r) =
      completes-Answers xs ys e result statx p.worker s
        (subst (λ z. Answers h obs codes (record { worker = p.worker; taken = z })) split v) r
  Step-Answers {p} v (submits op s fresh r) = submits-Answers p op s v fresh r

  start-Answers :
      (w : World Q X W)
      → obs.queued w.sq ≡ []
      → Answers h obs codes (record { worker = new w; taken = [] })
  start-Answers w empty = record {
    inv = new-Inv Operation 64;
    size = length-new Operation 64;
    waits = λ i.
        let e : lookup (Tracker.new {T = Operation} 64) i ≡ none = lookup-new Operation 64 i in
        subst (λ o. Awaits h.codes o (codes_at i ([] ++ obs.queued w.sq))) (sym e)
          (ap (codes_at i) empty);
  }

  pub Reach-Answers : {w : World Q X W} {p : System Q X W} → Reach h obs w p → Answers h obs codes p
  Reach-Answers {w} (start empty) = start-Answers w empty
  Reach-Answers (then_ r s) = Step-Answers (Reach-Answers r) s

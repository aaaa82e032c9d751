-- ===== src/Worker/Completions.antt =====
-- worker.rs: theorems about the handling of one completion.
use light_speed_io.Prelude.{
  ℕ, ◌≡◌, refl, arith, [], some, none, returns, ◌==◌, if◌then◌else◌, get_elem?, length-set,
  lt_of_get_elem?, ◌∙◌, get_elem?-set_self,
}
use light_speed_io.UserData.{UringUserData, from_u64}
use light_speed_io.Tracker.{Tracker}
use light_speed_io.Tracker.Invariant.{
  get_lem, as_mut_lem, Inv, swapped, vacated, remove-Inv, replace-Inv,
}
use light_speed_io.Tracker.Refines.{lookup, capacity, lookup-set}
use light_speed_io.Ops.State.{
  Operation, NextStep, Host, World, Completion, left, released, drop_operation,
}
use light_speed_io.Ops.Dispatch.{process_opcode_and_submit_next_step}
use light_speed_io.Worker.{UringWorker, settle, handle_cqe}

module _ {Q X W : Type 0} where
  -- A worker in which slot `i` went from `t` to what `next` leaves of `op`, and nothing else changed.
  pub record Settled (t : Tracker Operation) (i : ℕ) (next : NextStep) (op : Operation)
      (w : World Q X W) (s : UringWorker Q X W) : Type 0 where
    pub inv : Inv [] s.ops_in_flight
    pub slots : (a : ℕ) → lookup s.ops_in_flight a ≡ (if i == a then left next op else lookup t a)
    pub size : capacity s.ops_in_flight ≡ capacity t
    pub world : s.world ≡ released next op w

  settle-Settled :
      (next : NextStep) (i : ℕ) (op : Operation) (t : Tracker Operation) (w : World Q X W)
      → Inv [] t
      → get_elem? t.ops_in_flight i ≡ some (some op)
      → (s : UringWorker Q X W) × (settle i next op (record { ops_in_flight = t; world = w })
          ≡ returns s)
        × Settled t i next op w s
  unfolding settle
  settle-Settled NextStep.pending i op t w v e = (
    record { ops_in_flight = t; world = w },
    refl,
    record { inv = v; slots = λ a. ground (arith, e); size = refl; world = refl },
  )
  settle-Settled (NextStep.replace_with op') i op t w v e =
      let (q, v') = replace-Inv [] t v i op op' e in
      (
        record { ops_in_flight = swapped i op' t; world = drop_operation op w },
        rw q,
        record {
          inv = v';
          slots =
              λ a. lookup-set t.ops_in_flight i a (some op') (lt_of_get_elem? t.ops_in_flight i e);
          size = length-set t.ops_in_flight i (some op');
          world = refl;
        },
      )
  settle-Settled NextStep.done i op t w v e =
      let (q, v') = remove-Inv [] t v i op e in
      (
        record { ops_in_flight = vacated i t; world = drop_operation op w },
        rw q,
        record {
          inv = v';
          slots = λ a. lookup-set t.ops_in_flight i a none (lt_of_get_elem? t.ops_in_flight i e);
          size = length-set t.ops_in_flight i none;
          world = refl;
        },
      )

module _ {Q X W : Type 0} (h : Host Q X W) where
  -- Under the invariant, a completion whose index names an operation in flight, and which the handler
  -- of that operation accepts, never panics: the slot then holds what the next step says, no other
  -- slot changes, the operation that is over is dropped, and the indices stay consistent.
  pub handle_cqe-Settled :
      (cqe : Completion) (s : UringWorker Q X W) (op : Operation) (next : NextStep)
      (op' : Operation) (w' : World Q X W)
      → let u : UringUserData = from_u64 cqe.user_data in
        Inv [] s.ops_in_flight
        → lookup s.ops_in_flight u.index_of_op ≡ some op
        → process_opcode_and_submit_next_step h u cqe.result cqe.statx op s.world
          ≡ returns (next, op', w')
        → (s' : UringWorker Q X W) × (handle_cqe h cqe s ≡ returns s')
          × Settled s.ops_in_flight u.index_of_op next op' w' s'
  unfolding handle_cqe
  handle_cqe-Settled cqe s op next op' w' v e p =
      let i : ℕ = (from_u64 cqe.user_data).index_of_op in
      let slot : get_elem? (s.ops_in_flight).ops_in_flight i ≡ some (some op) = ground arith in
      let (q, v1) = replace-Inv [] s.ops_in_flight v i op op' slot in
      let (s', q', k) = settle-Settled next i op' (swapped i op' s.ops_in_flight) w' v1 (
        get_elem?-set_self (s.ops_in_flight).ops_in_flight i (some op')
          (lt_of_get_elem? (s.ops_in_flight).ops_in_flight i slot)) in
      (
        s',
        simp (get_lem i op s.ops_in_flight slot, as_mut_lem i op s.ops_in_flight slot, p, q, q'),
        record {
          inv = k.inv;
          slots = λ a.
              k.slots a
              ∙ ground (
                arith,
                lookup-set (s.ops_in_flight).ops_in_flight i a (some op')
                    (lt_of_get_elem? (s.ops_in_flight).ops_in_flight i slot),
              );
          size = k.size ∙ length-set (s.ops_in_flight).ops_in_flight i (some op');
          world = k.world;
        },
      )

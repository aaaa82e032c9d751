-- ===== src/Worker/Protocol/Answered.antt =====
-- worker.rs: the invariant of the protocol, on which completions each slot waits for.
use light_speed_io.Prelude.{
  ℕ, ◌^◌, ◌<◌, ◌≡◌, ◌≢◌, sym, ◌∙◌, ap, subst, arith, List, [], ◌∷◌, ◌++◌, Option, some,
  Option-cases, inl, inr, get_elem?, lt_of_get_elem?, ◌==◌, if◌then◌else◌, ℕ_discrete,
}
use mathlib.Core.List.{append_assoc}
use light_speed_io.UserData.{from_u64}
use light_speed_io.Tracker.Invariant.{Inv}
use light_speed_io.Tracker.Refines.{lookup, capacity}
use light_speed_io.Prelude.Int.{ℤ}
use light_speed_io.OpenFile.{Statx}
use light_speed_io.Sqe.{Entry}
use light_speed_io.Ops.State.{Operation, Host}
use light_speed_io.Ops.Observed.{Observed}
use light_speed_io.Ops.Dispatch.{process_opcode_and_submit_next_step}
use light_speed_io.Ops.Expected.{Due, Awaits-Due, AreOpCodes, Awaits, Outcome}
use light_speed_io.Ops.Handled.{process-Outcome}
use light_speed_io.Ops.Submitted.{codes_at, codes_at-append}
use light_speed_io.Worker.{UringWorker}
use light_speed_io.Worker.Protocol.{System, outstanding}

-- The entries are those of `xs ++ (e ∷ ys)` and then `q`, seen from one index.
pub codes_at-split :
    (i : ℕ) (xs ys q : List Entry) (e : Entry)
    → codes_at i ((xs ++ (e ∷ ys)) ++ q) ≡ codes_at i xs ++ codes_at i (e ∷ (ys ++ q))
codes_at-split i xs ys q e =
    ap (codes_at i) (append_assoc xs (e ∷ ys) q) ∙ codes_at-append i xs (e ∷ (ys ++ q))

pub codes_at-joined :
    (i : ℕ) (xs ys q : List Entry)
    → codes_at i ((xs ++ ys) ++ q) ≡ codes_at i xs ++ codes_at i (ys ++ q)
codes_at-joined i xs ys q = ap (codes_at i) (append_assoc xs ys q) ∙ codes_at-append i xs (ys ++ q)

pub codes_at-more :
    (i : ℕ) (xs ys q more : List Entry)
    → codes_at i ((xs ++ ys) ++ (q ++ more)) ≡ codes_at i ((xs ++ ys) ++ q) ++ codes_at i more
codes_at-more i xs ys q more =
    ap (codes_at i) (sym (append_assoc (xs ++ ys) q more))
    ∙ codes_at-append i ((xs ++ ys) ++ q) more

pub codes_at-later :
    (i : ℕ) (xs q more : List Entry)
    → codes_at i (xs ++ (q ++ more)) ≡ codes_at i (xs ++ q) ++ codes_at i more
codes_at-later i xs q more =
    ap (codes_at i) (sym (append_assoc xs q more)) ∙ codes_at-append i (xs ++ q) more

not_empty : (xs ys : List ℕ) (k : ℕ) → xs ++ (k ∷ ys) ≡ [] → ⊥
not_empty [] ys k e = cc
not_empty (x ∷ xs) ys k e = cc

module _ {Q X W : Type 0} (h : Host Q X W) (obs : Observed h) (codes : AreOpCodes h.codes) where
  -- Each slot waits for exactly the completions that are outstanding under its index.
  pub record Answers (p : System Q X W) : Type 0 where
    pub inv : Inv [] p.worker.ops_in_flight
    pub size : capacity p.worker.ops_in_flight ≡ 64
    pub waits :
        (i : ℕ)
        → Awaits h.codes (lookup p.worker.ops_in_flight i) (codes_at i (outstanding h obs p))

  -- The slot that a completion names, and what its handler comes to.
  pub record Met (xs ys : List Entry) (e : Entry) (result : ℤ) (statx : Statx)
      (s : UringWorker Q X W) : Type 0 where
    pub op : Operation
    pub slot :
        get_elem? s.ops_in_flight.ops_in_flight (from_u64 e.user_data).index_of_op ≡ some (some op)
    pub small : (from_u64 e.user_data).index_of_op < 2 ^ 32
    pub rest : List ℕ
    pub due : Due h.codes (from_u64 e.user_data).op rest op
    pub outcome :
        Outcome h obs
          (from_u64 e.user_data)
          (codes_at (from_u64 e.user_data).index_of_op ((xs ++ ys) ++ obs.queued s.world.sq))
          op
          s.world
          (process_opcode_and_submit_next_step h (from_u64 e.user_data) result statx op s.world)

  pub own_code :
      (e : Entry) (es : List Entry)
      → codes_at (from_u64 e.user_data).index_of_op (e ∷ es)
        ≡ (from_u64 e.user_data).op ∷ codes_at (from_u64 e.user_data).index_of_op es
  own_code e es = ground arith

  pub other_code :
      (e : Entry) (es : List Entry) (j : ℕ)
      → (from_u64 e.user_data).index_of_op ≢ j
      → codes_at j (e ∷ es) ≡ codes_at j es
  other_code e es j ne = ground arith

  pub meets :
      (xs ys : List Entry) (e : Entry) (result : ℤ) (statx : Statx) (s : UringWorker Q X W)
      → Answers (record { worker = s; taken = xs ++ (e ∷ ys) })
      → Met xs ys e result statx s
  meets xs ys e result statx s v =
      let u = from_u64 e.user_data in
      let i = u.index_of_op in
      let q = obs.queued s.world.sq in
      let seen : codes_at i ((xs ++ (e ∷ ys)) ++ q)
          ≡ codes_at i xs ++ (u.op ∷ codes_at i (ys ++ q)) =
        codes_at-split i xs ys q e ∙ ap (λ x. codes_at i xs ++ x) (own_code e (ys ++ q)) in
      let left_over : codes_at i xs ++ codes_at i (ys ++ q) ≡ codes_at i ((xs ++ ys) ++ q) =
        sym (codes_at-joined i xs ys q) in
      elim (Option-cases (lookup s.ops_in_flight i)) [
        | inl empty ↦ absurd (
            not_empty (codes_at i xs) (codes_at i (ys ++ q)) u.op (
              sym seen
              ∙ subst (λ x. Awaits h.codes x (codes_at i ((xs ++ (e ∷ ys)) ++ q))) empty
                  (v.waits i)))
        | inr (op, used) ↦
            let slot : get_elem? s.ops_in_flight.ops_in_flight i ≡ some (some op) = ground arith in
            let waits : Awaits h.codes (some op) (codes_at i xs ++ (u.op ∷ codes_at i (ys ++ q))) =
              subst (Awaits h.codes (some op)) seen (
                subst (λ x. Awaits h.codes x (codes_at i ((xs ++ (e ∷ ys)) ++ q))) used
                  (v.waits i)) in
            let small : i < 2 ^ 32 =
              omega (arith, lt_of_get_elem? s.ops_in_flight.ops_in_flight i slot, v.size) in
            record {
              op = op;
              slot = slot;
              small = small;
              rest = codes_at i xs ++ codes_at i (ys ++ q);
              due = Awaits-Due h.codes op u.op (codes_at i xs) (codes_at i (ys ++ q)) waits;
              outcome =
                  subst
                    (λ rest.
                      Outcome h obs u rest op s.world
                        (process_opcode_and_submit_next_step h u result statx op s.world))
                    left_over
                    (process-Outcome h obs codes u result statx op (codes_at i xs)
                      (codes_at i (ys ++ q)) s.world small waits);
            }
      ]

  -- Where slot `i` changes and its opcodes with it, and the entries are as before for all others.
  pub slots-Answers :
      (p q : System Q X W) (i : ℕ) (x : Option Operation)
      → Answers p
      → Inv [] q.worker.ops_in_flight
      → capacity q.worker.ops_in_flight ≡ capacity p.worker.ops_in_flight
      → ((a : ℕ)
          → lookup q.worker.ops_in_flight a
            ≡ (if i == a then x else lookup p.worker.ops_in_flight a))
      → Awaits h.codes x (codes_at i (outstanding h obs q))
      → ((j : ℕ) → i ≢ j → codes_at j (outstanding h obs q) ≡ codes_at j (outstanding h obs p))
      → Answers q
  slots-Answers p q i x v inv same slots own others = record {
    inv = inv;
    size = same ∙ v.size;
    waits = λ j. elim (ℕ_discrete i j) [
      | yes e ↦
          let there : lookup q.worker.ops_in_flight j ≡ x = slots j ∙ ground (arith, e) in
          subst (λ o. Awaits h.codes o (codes_at j (outstanding h obs q))) (sym there)
            (subst (λ a. Awaits h.codes x (codes_at a (outstanding h obs q))) e own)
      | no ne ↦
          let there : lookup q.worker.ops_in_flight j ≡ lookup p.worker.ops_in_flight j =
            slots j ∙ ground (arith, ne) in
          subst (λ o. Awaits h.codes o (codes_at j (outstanding h obs q))) (sym there)
            (subst (Awaits h.codes (lookup p.worker.ops_in_flight j)) (sym (others j ne))
              (v.waits j))
    ];
  }

-- ===== src/Worker/Protocol/Sums.antt =====
-- worker.rs: sums over the slots of a tracker.
use light_speed_io.Prelude.{
  total, total-set, total-zero, ℕ, zero, suc, ◌+◌, ◌<◌, ◌≤◌, ◌≡◌, refl, sym, ◌∙◌, ap, subst, arith,
  List, [], ◌∷◌, Option, none, some, get_elem?, get_elem?_of_lt, replicate, set, length, length-set,
  lt_of_get_elem?, ◌==◌, if◌then◌else◌,
}
use light_speed_io.Tracker
use light_speed_io.Tracker.{Tracker}
use light_speed_io.Tracker.Refines.{flat, lookup-set}
use light_speed_io.Ops.State.{Operation}
use light_speed_io.Ops.Expected.{to_come}

-- Slots are determined by what they hold.
same_slots :
    {T : Type 0} (xs ys : List (Option T))
    → length xs ≡ length ys
    → ((a : ℕ) → flat (get_elem? xs a) ≡ flat (get_elem? ys a))
    → xs ≡ ys
same_slots [] [] e f = refl
same_slots [] (y ∷ ys) e f = absurd (omega (arith, e))
same_slots (x ∷ xs) [] e f = absurd (omega (arith, e))
same_slots (x ∷ xs) (y ∷ ys) e f =
    let tail : xs ≡ ys = same_slots xs ys (omega (arith, e)) (λ a. f (suc a)) in cc (f 0, tail)

-- The sum after a change of one slot.
pub total-change :
    (f : Option Operation → ℕ) (xs ys : List (Option Operation)) (i : ℕ) (op : Operation)
    (x : Option Operation)
    → get_elem? xs i ≡ some (some op)
    → length ys ≡ length xs
    → ((a : ℕ) → flat (get_elem? ys a) ≡ (if i == a then x else flat (get_elem? xs a)))
    → total f ys + f (some op) ≡ total f xs + f x
total-change f xs ys i op x slot size slots =
    let small = lt_of_get_elem? xs i slot in
    let same : ys ≡ set xs i x =
      same_slots ys (set xs i x) (size ∙ sym (length-set xs i x))
        (λ a. slots a ∙ sym (lookup-set xs i a x small)) in
    subst (λ z. total f z + f (some op) ≡ total f xs + f x) (sym same)
      (total-set f xs i (some op) x slot)

-- The sum after an operation has come into an empty slot.
pub total-put :
    (f : Option Operation → ℕ) (xs : List (Option Operation)) (i : ℕ) (op : Operation)
    → i < length xs
    → flat (get_elem? xs i) ≡ none
    → f none ≡ 0
    → total f (set xs i (some op)) ≡ total f xs + f (some op)
total-put f xs i op within unused nothing =
    let (x, there) = get_elem?_of_lt xs i within in
    let free : x ≡ none = ap flat (sym there) ∙ unused in
    omega (arith, total-set f xs i none (some op) (there ∙ ap some free), nothing)

total-replicate : (f : Option Operation → ℕ) (n : ℕ) → f none ≡ 0 → total f (replicate n none) ≡ 0
total-replicate f zero e = refl
total-replicate f (suc n) e = omega (arith, total-replicate f n e, e)

pub total-new :
    (f : Option Operation → ℕ) (n : ℕ)
    → f none ≡ 0
    → total f (Tracker.new {T = Operation} n).ops_in_flight ≡ 0
unfolding Tracker.new
total-new f n e = total-replicate f n e

-- The sum over slots that are all free.
pub total-free :
    (f : Option Operation → ℕ) (xs : List (Option Operation))
    → f none ≡ 0
    → ((i : ℕ) → flat (get_elem? xs i) ≡ none)
    → total f xs ≡ 0
total-free f xs e empty =
    total-zero f xs (λ i x q. subst (λ y. f y ≡ 0) (sym (ap flat (sym q) ∙ empty i)) e)

-- How many completions the slots may still see.
abbrev pub all_to_come : List (Option Operation) → ℕ
all_to_come = total to_come

pub to_come-le_two : (x : Option Operation) → to_come x ≤ 2
to_come-le_two none = omega arith
to_come-le_two (some (Operation.close op)) = omega arith
to_come-le_two (some (Operation.get_range op)) = omega arith
to_come-le_two (some (Operation.get_ranges op)) = omega arith

-- ===== src/Arc/Laws.antt =====
-- How many owners an allocation has after each operation, on it and on another.
use light_speed_io.Prelude.{
  ℕ, zero, suc, ◌+◌, ◌-◌, ◌<◌, ◌≤◌, ◌≡◌, ◌≢◌, refl, ap, List, [], ◌∷◌, ◌++◌, length, get_or, set,
  arith, length-set, ◌==◌, if◌then◌else◌, ℕ_discrete,
}
use light_speed_io.Arc.{Arc, Counts, strong_count, new, clone, drop}

get_or-append_length : (c : List ℕ) (v : ℕ) → get_or (c ++ (v ∷ [])) (length c) 0 ≡ v
get_or-append_length [] v = refl
get_or-append_length (x ∷ c) v = get_or-append_length c v

get_or-append_of_lt :
    (c : List ℕ) (v i : ℕ) → i < length c → get_or (c ++ (v ∷ [])) i 0 ≡ get_or c i 0
get_or-append_of_lt [] v i h = absurd (omega arith)
get_or-append_of_lt (x ∷ c) v zero h = refl
get_or-append_of_lt (x ∷ c) v (suc i) h = get_or-append_of_lt c v i (omega arith)

get_or-set_self : (c : List ℕ) (i v : ℕ) → i < length c → get_or (set c i v) i 0 ≡ v
get_or-set_self [] i v h = absurd (omega arith)
get_or-set_self (x ∷ c) zero v h = refl
get_or-set_self (x ∷ c) (suc i) v h = get_or-set_self c i v (omega arith)

get_or-set_ne : (c : List ℕ) (i j v : ℕ) → i ≢ j → get_or (set c i v) j 0 ≡ get_or c j 0
get_or-set_ne [] i j v h = refl
get_or-set_ne (x ∷ c) zero zero v h = absurd (h refl)
get_or-set_ne (x ∷ c) zero (suc j) v h = refl
get_or-set_ne (x ∷ c) (suc i) zero v h = refl
get_or-set_ne (x ∷ c) (suc i) (suc j) v h = get_or-set_ne c i j v (λ e. h (ap suc e))

get_or-set :
    (c : List ℕ) (i j v : ℕ)
    → i < length c
    → get_or (set c i v) j 0 ≡ (if i == j then v else get_or c j 0)
get_or-set c i j v h = elim (ℕ_discrete i j) [
  | yes e ↦ ground (arith, e, get_or-set_self c i v h)
  | no ne ↦ ground (arith, ne, get_or-set_ne c i j v ne)
]

pub get_or-append :
    (c : List ℕ) (v j : ℕ)
    → get_or (c ++ (v ∷ [])) j 0 ≡ (if j == length c then v else get_or c j 0)
get_or-append [] v zero = refl
get_or-append [] v (suc j) = ground arith
get_or-append (x ∷ c) v zero = ground arith
get_or-append (x ∷ c) v (suc j) = ground (arith, get_or-append c v j)

pub get_or_of_le : (c : List ℕ) (i : ℕ) → length c ≤ i → get_or c i 0 ≡ 0
get_or_of_le [] i h = refl
get_or_of_le (x ∷ c) zero h = absurd (omega arith)
get_or_of_le (x ∷ c) (suc i) h = get_or_of_le c i (omega arith)

-- The count of each allocation after a clone, and after the end of a handle's life.
module _ {ℓ} {A : Type ℓ} (a : Arc A) (c : Counts) (j : ℕ) where
  pub get_or-clone :
      a.id < length c
      → get_or (clone a c) j 0 ≡ (if a.id == j then get_or c j 0 + 1 else get_or c j 0)
  unfolding clone
  get_or-clone h = ground (arith, get_or-set c a.id j (get_or c a.id 0 + 1) h)

  pub get_or-drop :
      a.id < length c
      → get_or (drop a c) j 0 ≡ (if a.id == j then get_or c j 0 - 1 else get_or c j 0)
  unfolding drop
  get_or-drop h = ground (arith, get_or-set c a.id j (get_or c a.id 0 - 1) h)

module _ {ℓ κ} {A : Type ℓ} {B : Type κ} (a : Arc A) (b : Arc B) (c : Counts) where
  pub strong_count-clone_ne : a.id ≢ b.id → strong_count b (clone a c) ≡ strong_count b c
  unfolding strong_count clone
  strong_count-clone_ne h = get_or-set_ne c a.id b.id _ h

  pub strong_count-drop_ne : a.id ≢ b.id → strong_count b (drop a c) ≡ strong_count b c
  unfolding strong_count drop
  strong_count-drop_ne h = get_or-set_ne c a.id b.id _ h

module _ {ℓ} {A : Type ℓ} (v : A) (c : Counts) where
  pub strong_count-new : strong_count (new v c).0 (new v c).1 ≡ 1
  unfolding strong_count
  strong_count-new = get_or-append_length c 1

module _ {ℓ} {A : Type ℓ} (a : Arc A) (c : Counts) where
  pub strong_count-push : a.id < length c → strong_count a (c ++ (1 ∷ [])) ≡ strong_count a c
  unfolding strong_count
  strong_count-push h = get_or-append_of_lt c 1 a.id h

  pub strong_count-clone : a.id < length c → strong_count a (clone a c) ≡ strong_count a c + 1
  unfolding strong_count clone
  strong_count-clone h = get_or-set_self c a.id _ h

  pub strong_count-drop : a.id < length c → strong_count a (drop a c) ≡ strong_count a c - 1
  unfolding strong_count drop
  strong_count-drop h = get_or-set_self c a.id _ h

  pub length-clone : length (clone a c) ≡ length c
  unfolding clone
  length-clone = length-set c a.id _

  pub length-drop : length (drop a c) ≡ length c
  unfolding drop
  length-drop = length-set c a.id _

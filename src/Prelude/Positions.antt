-- ===== src/Prelude/Positions.antt =====
-- Lists by position: what stands where after a write or an append, and sums over the elements.
use Prim.Native.Nat.{ℕ, zero, suc, ◌+◌, ◌≤◌, ◌<◌}
use mathlib.Core.Path.{◌≡◌, refl, ap}
use mathlib.Core.Logic.{◌≢◌, ◌⊎◌, inl, inr}
use mathlib.Core.List.{List, [], ◌∷◌, ◌++◌}
use mathlib.Core.Option.{some}
use native.Mathlib.Omega.{arith}
use native.Mathlib.Decide.{ℕ_discrete}
use light_speed_io.Prelude.Lists.{length, get_elem?, set, get_elem?-set, lt_of_get_elem?}

module _ {ℓ} {A : Type ℓ} where
  -- An element after a write is the new one, or one that stood elsewhere.
  pub get_elem?-set_cases :
      (xs : List A) (i j : ℕ) (old new v : A)
      → get_elem? xs i ≡ some old
      → get_elem? (set xs i new) j ≡ some v
      → ((i ≡ j) × (new ≡ v)) ⊎ ((i ≢ j) × (get_elem? xs j ≡ some v))
  get_elem?-set_cases xs i j old new v e f =
      let g = get_elem?-set xs i j new (lt_of_get_elem? xs i e) in
      elim (ℕ_discrete i j) [
        | yes q ↦ inl (q, ground (arith, g, f, q))
        | no ne ↦ inr (ne, ground (arith, g, f, ne))
      ]

  -- An element after an append is the new one, or one that was there.
  pub get_elem?-append_cases :
      (xs : List A) (x : A) (j : ℕ) (v : A)
      → get_elem? (xs ++ (x ∷ [])) j ≡ some v
      → ((j ≡ length xs) × (x ≡ v)) ⊎ (get_elem? xs j ≡ some v)
  get_elem?-append_cases [] x zero v e = inl (refl, cc)
  get_elem?-append_cases [] x (suc j) v e = absurd (cc)
  get_elem?-append_cases (y ∷ xs) x zero v e = inr e
  get_elem?-append_cases (y ∷ xs) x (suc j) v e = elim (get_elem?-append_cases xs x j v e) [
    | inl (q, here) ↦ inl (ap suc q, here)
    | inr there ↦ inr there
  ]

  pub get_elem?-append_left :
      (xs : List A) (x : A) (j : ℕ) {v : A}
      → get_elem? xs j ≡ some v
      → get_elem? (xs ++ (x ∷ [])) j ≡ some v
  get_elem?-append_left [] x j e = absurd (cc)
  get_elem?-append_left (y ∷ xs) x zero e = e
  get_elem?-append_left (y ∷ xs) x (suc j) e = get_elem?-append_left xs x j e

  pub get_elem?-append_length :
      (xs : List A) (x : A) → get_elem? (xs ++ (x ∷ [])) (length xs) ≡ some x
  get_elem?-append_length [] x = refl
  get_elem?-append_length (y ∷ xs) x = get_elem?-append_length xs x

  -- The sum of a number over the elements.
  abbrev pub total : (A → ℕ) → List A → ℕ
  total f [] = 0
  total f (x ∷ xs) = f x + total f xs

  pub total-set :
      (f : A → ℕ) (xs : List A) (i : ℕ) (old new : A)
      → get_elem? xs i ≡ some old
      → total f (set xs i new) + f old ≡ total f xs + f new
  total-set f [] i old new e = absurd (cc)
  total-set f (x ∷ xs) zero old new e = ground arith
  total-set f (x ∷ xs) (suc i) old new e = omega (arith, total-set f xs i old new e)

  pub total-append : (f : A → ℕ) (xs ys : List A) → total f (xs ++ ys) ≡ total f xs + total f ys
  total-append f [] ys = omega arith
  total-append f (x ∷ xs) ys = omega (arith, total-append f xs ys)

  pub le-total :
      (f : A → ℕ) (xs : List A) (i : ℕ) (x : A) → get_elem? xs i ≡ some x → f x ≤ total f xs
  le-total f [] i x e = absurd (cc)
  le-total f (y ∷ xs) zero x e = ground arith
  le-total f (y ∷ xs) (suc i) x e = omega (arith, le-total f xs i x e)

  -- Two places count twice.
  pub add-le-total :
      (f : A → ℕ) (xs : List A) (i j : ℕ) (x y : A)
      → i ≢ j
      → get_elem? xs i ≡ some x
      → get_elem? xs j ≡ some y
      → f x + f y ≤ total f xs
  add-le-total f [] i j x y ne e d = absurd (cc)
  add-le-total f (z ∷ xs) zero zero x y ne e d = absurd (ne refl)
  add-le-total f (z ∷ xs) zero (suc j) x y ne e d = ground (arith, le-total f xs j y d)
  add-le-total f (z ∷ xs) (suc i) zero x y ne e d = ground (arith, le-total f xs i x e)
  add-le-total f (z ∷ xs) (suc i) (suc j) x y ne e d =
      omega (arith, add-le-total f xs i j x y (λ q. ne (ap suc q)) e d)

  -- A sum that is not 0 has a place that counts.
  pub total-zero :
      (f : A → ℕ) (xs : List A)
      → ((i : ℕ) (x : A) → get_elem? xs i ≡ some x → f x ≡ 0)
      → total f xs ≡ 0
  total-zero f [] h = refl
  total-zero f (x ∷ xs) h = omega (arith, h 0 x refl, total-zero f xs (λ i y e. h (suc i) y e))

  -- A sum is 0, or some place counts.
  pub total-cases :
      (f : A → ℕ) (xs : List A)
      → (total f xs ≡ 0) ⊎ ((i : ℕ) × ((x : A) × ((get_elem? xs i ≡ some x) × (0 < f x))))
  total-cases f [] = inl refl
  total-cases f (x ∷ xs) = elim (ℕ_discrete (f x) 0) [
    | no pos ↦ inr (0, (x, (refl, omega arith)))
    | yes z ↦ elim (total-cases f xs) [
      | inl rest ↦ inl (omega arith)
      | inr (i, (y, (there, pos))) ↦ inr (suc i, (y, (there, pos)))
    ]
  ]

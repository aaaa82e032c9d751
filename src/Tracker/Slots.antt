-- ===== src/Tracker/Slots.antt =====
-- Which slots of a tracker are vacant, and how many are occupied.
use light_speed_io.Prelude.{
  replicate, ℕ, zero, suc, ◌+◌, ◌<◌, ◌≡◌, refl, ap, arith, List, [], ◌∷◌, Option, none, some,
  length, get_elem?, set, times,
}
use light_speed_io.Tracker.{range_from}

pub times-range_from : (a i n : ℕ) → a < i → times a (range_from i n) ≡ 0
times-range_from a i zero h = refl
times-range_from a i (suc n) h = ground (arith, times-range_from a (suc i) n)

pub length-range_from : (i n : ℕ) → length (range_from i n) ≡ n
length-range_from i zero = refl
length-range_from i (suc n) = ap suc (length-range_from (suc i) n)

module _ {ℓ} {T : Type ℓ} where
  -- 1 where the slot exists and is empty.
  abbrev pub vacancy : Option (Option T) → ℕ
  vacancy none = 0
  vacancy (some none) = 1
  vacancy (some (some _)) = 0

  abbrev pub vacant : List (Option T) → ℕ → ℕ
  vacant slots i = vacancy (get_elem? slots i)

  abbrev pub occupied : List (Option T) → ℕ
  occupied [] = 0
  occupied (none ∷ slots) = occupied slots
  occupied (some _ ∷ slots) = suc (occupied slots)

  pub occupied-set-some :
      (slots : List (Option T)) (i : ℕ) (op : T)
      → get_elem? slots i ≡ some none
      → occupied (set slots i (some op)) ≡ occupied slots + 1
  occupied-set-some [] i op e = cc
  occupied-set-some (none ∷ slots) zero op e = omega arith
  occupied-set-some (some x ∷ slots) zero op e = cc
  occupied-set-some (none ∷ slots) (suc i) op e = occupied-set-some slots i op e
  occupied-set-some (some x ∷ slots) (suc i) op e = omega (arith, occupied-set-some slots i op e)

  pub occupied-set_same :
      (slots : List (Option T)) (i : ℕ) (op op' : T)
      → get_elem? slots i ≡ some (some op)
      → occupied (set slots i (some op')) ≡ occupied slots
  occupied-set_same [] i op op' e = cc
  occupied-set_same (none ∷ slots) zero op op' e = cc
  occupied-set_same (some x ∷ slots) zero op op' e = refl
  occupied-set_same (none ∷ slots) (suc i) op op' e = occupied-set_same slots i op op' e
  occupied-set_same (some x ∷ slots) (suc i) op op' e = ap suc (occupied-set_same slots i op op' e)

  pub occupied-set-none :
      (slots : List (Option T)) (i : ℕ) (op : T)
      → get_elem? slots i ≡ some (some op)
      → occupied (set slots i none) + 1 ≡ occupied slots
  occupied-set-none [] i op e = cc
  occupied-set-none (none ∷ slots) zero op e = cc
  occupied-set-none (some x ∷ slots) zero op e = omega arith
  occupied-set-none (none ∷ slots) (suc i) op e = occupied-set-none slots i op e
  occupied-set-none (some x ∷ slots) (suc i) op e = omega (arith, occupied-set-none slots i op e)

module _ {ℓ} (T : Type ℓ) where
  pub vacant-replicate :
      (a i n k : ℕ)
      → a ≡ k + i
      → times a (range_from k n) ≡ vacant (replicate {A = Option T} n none) i
  vacant-replicate a i zero k e = refl
  vacant-replicate a zero (suc n) k e = ground (arith, times-range_from a (suc k) n)
  vacant-replicate a (suc i) (suc n) k e = ground (arith, vacant-replicate a i n (suc k))

  pub occupied-replicate : (n : ℕ) → occupied (replicate {A = Option T} n none) ≡ 0
  occupied-replicate zero = refl
  occupied-replicate (suc n) = occupied-replicate n

  pub length-replicate : (n : ℕ) → length (replicate {A = Option T} n none) ≡ n
  length-replicate zero = refl
  length-replicate (suc n) = ap suc (length-replicate n)

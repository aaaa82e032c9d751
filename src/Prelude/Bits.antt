-- ===== src/Prelude/Bits.antt =====
-- `&` with a mask of ones and `|` under a shift, the bit operations of crates/lsio_uring/src/user_data.rs.
use Prim.Native.Nat.{
  ℕ, zero, suc, ◌+◌, ◌*◌, ◌/◌, ◌%◌, ◌^◌, ◌≤◌, ◌<◌, min, max, bit_and, bit_or, digits,
  bit_and-bitwise, bit_or-bitwise,
}
use mathlib.Core.Path.{◌≡◌, refl}
use native.Mathlib.Nat.{pow-suc}
use native.Mathlib.Omega.{arith}

-- `k` ones.
abbrev ones : ℕ → ℕ
ones zero = 0
ones (suc k) = ones k * 2 + 1

-- The last `k` digits of a number.
abbrev last_digits : ℕ → ℕ → ℕ
last_digits zero a = 0
last_digits (suc k) a = last_digits k (a / 2) * 2 + a % 2

last_digits-zero : (k : ℕ) → last_digits k 0 ≡ 0
last_digits-zero zero = refl
last_digits-zero (suc k) = omega (arith, last_digits-zero k)

digits-ones : (n k a : ℕ) → a ≤ n → digits (λ b. zero) min n a (ones k) ≡ last_digits k a
digits-ones zero k zero h = omega (arith, last_digits-zero k)
digits-ones zero k (suc a) h = absurd (omega arith)
digits-ones (suc n) k zero h = omega (arith, last_digits-zero k)
digits-ones (suc n) zero (suc a) h = omega (arith, digits-ones n zero (suc a / 2) (omega arith))
digits-ones (suc n) (suc k) (suc a) h =
    let half : (ones k * 2 + 1) / 2 ≡ ones k = omega arith in
    let odd : (ones k * 2 + 1) % 2 ≡ 1 = omega arith in
    rw (half, odd) (omega (arith, digits-ones n k (suc a / 2) (omega arith)))

-- `& 0xff`
pub bit_and-byte : (a : ℕ) → bit_and a 0xff ≡ a % 256
bit_and-byte a = omega (arith, bit_and-bitwise a 255, digits-ones a 8 a (omega arith))

-- `a << k`
abbrev doubled : ℕ → ℕ → ℕ
doubled zero a = a
doubled (suc k) a = doubled k a * 2

doubled_lem : (k a : ℕ) → doubled k a ≡ a * 2 ^ k
doubled_lem zero a = omega arith
doubled_lem (suc k) a = rw (pow-suc, doubled_lem k a) (omega arith)

digits-doubled :
    (n k a b x : ℕ) → x ≡ doubled k a → x ≤ n → b < 2 ^ k → digits (λ b. b) max n x b ≡ x + b
digits-doubled zero k a b zero e h lt = omega arith
digits-doubled zero k a b (suc x) e h lt = absurd (omega arith)
digits-doubled (suc n) k a b zero e h lt = omega arith
digits-doubled (suc n) zero a b (suc x) e h lt =
    omega (
      arith,
      digits-doubled n zero (suc x / 2) (b / 2) (suc x / 2) refl (omega arith) (omega arith),
    )
digits-doubled (suc n) (suc k) a b (suc x) e h lt = omega (
  arith,
  digits-doubled n k a (b / 2) (suc x / 2) (omega arith) (omega arith) (omega (arith, pow-suc 2 k)),
)

-- A number below 2 ^ k fits under one that is shifted by k.
pub bit_or_shifted : (k a b : ℕ) → b < 2 ^ k → bit_or (a * 2 ^ k) b ≡ a * 2 ^ k + b
bit_or_shifted k a b h = omega (
  arith,
  bit_or-bitwise (a * 2 ^ k) b,
  digits-doubled (a * 2 ^ k) k a b (a * 2 ^ k) (omega (arith, doubled_lem k a)) (omega arith) h,
)

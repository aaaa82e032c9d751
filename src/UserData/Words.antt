-- ===== src/UserData/Words.antt =====
-- user_data.rs: which 64-bit words are user data, and no two of them the same.
use mathlib.Core.Equiv.{IsEquiv, iso_to_equiv}
use mathlib.Core.HLevel.{Σ_prop_path}
use native.Mathlib.Bridge.{le_prop}
use light_speed_io.Prelude.{ℕ, ◌/◌, ◌%◌, ◌^◌, ◌<◌, ◌≡◌, arith, ℕ_discrete}
use light_speed_io.Prelude.Bits.{bit_and-byte}
use light_speed_io.UserData.{UringUserData, from_u64, into_u64}
use light_speed_io.UserData.RoundTrip.{into_u64_lem, from_u64_of_new}

-- What a `UringUserData` can hold: an index of 32 bits and an opcode of 8.
abbrev pub HoldsUserData : UringUserData → Type 0
HoldsUserData u = (u.index_of_op < 2 ^ 32) × (u.op < 256)

-- A word of 64 bits, of which the 24 bits between the opcode and the index are 0.
abbrev pub IsWord : ℕ → Type 0
IsWord n = (n < 2 ^ 64) × (n / 256 % 2 ^ 24 ≡ 0)

HoldsUserData-IsProp : (u : UringUserData) → IsProp (HoldsUserData u)
HoldsUserData-IsProp u = hlevel le_prop

IsWord-IsProp : (n : ℕ) → IsProp (IsWord n)
IsWord-IsProp n = hlevel (le_prop, ℕ_discrete)

into_u64-IsWord : (u : UringUserData) → HoldsUserData u → IsWord (into_u64 u)
into_u64-IsWord u h = ground (arith, into_u64_lem u)

from_u64-HoldsUserData : (n : ℕ) → IsWord n → HoldsUserData (from_u64 n)
unfolding from_u64
from_u64-HoldsUserData n h = ground (arith, bit_and-byte n)

into_u64-from_u64 : (n : ℕ) → IsWord n → into_u64 (from_u64 n) ≡ n
unfolding from_u64
into_u64-from_u64 n h = ground (arith, into_u64_lem (from_u64 n), bit_and-byte n)

-- The two conversions, between what they are made for.
abbrev to_word : (u : UringUserData) × HoldsUserData u → (n : ℕ) × IsWord n
to_word (u, h) = (into_u64 u, into_u64-IsWord u h)

abbrev of_word : (n : ℕ) × IsWord n → (u : UringUserData) × HoldsUserData u
of_word (n, h) = (from_u64 n, from_u64-HoldsUserData n h)

-- `Into<u64>` is an equivalence from the user data with an index of 32 bits and an opcode of 8 bits to
-- the 64-bit words whose bits 8 to 31 are 0, and `From<u64>` is its inverse.
to_word-IsEquiv : IsEquiv to_word × ((n : (n : ℕ) × IsWord n) → to_word (of_word n) ≡ n)
to_word-IsEquiv =
    let there : (n : (n : ℕ) × IsWord n) → to_word (of_word n) ≡ n =
      λ n. Σ_prop_path IsWord-IsProp (into_u64-from_u64 n.0 n.1) in
    let back : (u : (u : UringUserData) × HoldsUserData u) → of_word (to_word u) ≡ u =
      λ u. Σ_prop_path HoldsUserData-IsProp (from_u64_of_new u.0.index_of_op u.0.op u.1.1) in
    ((iso_to_equiv (record { fun = to_word; inv = of_word; rinv = there; linv = back })).1, there)

-- ===== src/Bytes/Store/Fresh.antt =====
-- `AlignedBytesMut::new`: a view within a buffer that no other view sees.
use light_speed_io.Prelude.{
  ℕ, ◌+◌, ◌-◌, ◌*◌, ◌/◌, ◌<◌, ◌≤◌, ◌≡◌, false, arith, [], ◌∷◌, ◌++◌, length, returns, inl, inr,
  Exec-cases,
}
use native.Mathlib.Nat.{div-add-mod', mod-lt}
use light_speed_io.Arc.{Counts}
use light_speed_io.Bytes.{
  Alloc, InnerBuffer, inner_len, new_inner, from_size_align, is_power_of_two,
}
use light_speed_io.Bytes.Writable.{AlignedBytesMut, split_to, freeze}
use light_speed_io.Bytes.Writable

le-pad : (n a : ℕ) → 0 < a → n ≤ (n + a - 1) / a * a
le-pad n a h = omega (arith, div-add-mod' (n + a - 1) a, mod-lt (n + a - 1) h)

zero_not_power : is_power_of_two 0 ≡ false
unfolding is_power_of_two
zero_not_power = λ i. false

inner_len-new_inner :
    (alloc : Alloc) (len align : ℕ) {b : InnerBuffer}
    → new_inner alloc len align ≡ returns b
    → len ≤ inner_len b
unfolding new_inner from_size_align
inner_len-new_inner alloc len align e = ground (arith, zero_not_power, le-pad len align)

-- A new view is the only one of a buffer that no count stands for yet.
pub record IsFresh (c : Counts) (b : AlignedBytesMut) (c' : Counts) : Type 0 where
  pub number : b.buf.id ≡ length c
  pub sole : c' ≡ c ++ (1 ∷ [])
  pub from_zero : b.range.start ≡ 0
  pub within : b.range.end ≤ inner_len b.buf.value

pub new-IsFresh :
    (alloc : Alloc) (len align : ℕ) (c : Counts) (b : AlignedBytesMut) (c' : Counts)
    → Writable.new alloc len align c ≡ returns (b, c')
    → IsFresh c b c'
unfolding Writable.new
new-IsFresh alloc len align c b c' e = elim (Exec-cases (new_inner alloc len align)) [
  | inl (inner, made) ↦
      let fits = inner_len-new_inner alloc len align made in
      record {
        number = ground arith;
        sole = ground arith;
        from_zero = ground arith;
        within = ground arith;
      }
  | inr (p, failed) ↦ absurd (ground arith)
]

-- ===== src/Ops/Limits.antt =====
-- The limit that `GetRange::new` puts on the length of a read, and the lengths that it does not see.
use light_speed_io.Prelude.{
  ℕ, ◌≡◌, arith, ◌+◌, ◌⊎◌, inl, inr, dec_lt, Bool, true, false, none, returns, panics, Panic, leb,
}
use light_speed_io.Prelude.Int.{ℤ, pos, negsuc, ◌+ℤ◌, ◌≤ℤ◌, pos_part, neg_part}
use light_speed_io.Arc.{Arc}
use light_speed_io.OpenFile.{OpenFile}
use light_speed_io.Sqe.{OffsetRange}
use light_speed_io.Ops.GetRange.{new, offset_range_len, max_read}

-- The end, as a number with its sign, is beyond the start by more than 2147479552.
abbrev pub IsTooLong : OffsetRange → Type 0
IsTooLong range = ¬ (range.end ≤ℤ range.start +ℤ pos 2147479552)

range_len_lem :
    (start end : ℤ)
    → let long : Type 0 = ¬ (end ≤ℤ start +ℤ pos 2147479552) in
      let accepted : Bool = leb (offset_range_len (record { start = start; end = end })) max_read in
      (long → accepted ≡ false) × (¬ long → accepted ≡ true)
range_len_lem (pos a) (pos b) = (λ h. ground arith, λ h. ground arith)
range_len_lem (pos a) (negsuc b) = (λ h. ground arith, λ h. ground arith)
range_len_lem (negsuc a) (pos b) = (λ h. ground arith, λ h. ground arith)
range_len_lem (negsuc a) (negsuc b) = (λ h. ground arith, λ h. ground arith)

-- `GetRange::new` panics where the end of the range, as a signed number, is beyond its start by more
-- than 2147479552. Every other range it accepts, with no buffer yet.
pub new_lem :
    (file : Arc OpenFile) (range : OffsetRange) (user_data : ℕ)
    → (IsTooLong range × (new file range user_data ≡ panics Panic.range_too_long))
      ⊎ ((¬ IsTooLong range)
          × (new file range user_data
              ≡ returns
                  (record { file = file; range = range; user_data = user_data; buffer = none })))
unfolding new
new_lem file range user_data =
    let (refused, accepted) = range_len_lem range.start range.end in
    elim (dec_lt (pos_part (range.start +ℤ pos 2147479552) + neg_part range.end)
      (pos_part range.end + neg_part (range.start +ℤ pos 2147479552))) [
        | yes long ↦ inl (λ h. omega (arith, long, h), simp (refused (λ h. omega (arith, long, h))))
        | no short ↦
            inr (λ h. h (omega (arith, short)), simp (accepted (λ h. h (omega (arith, short)))))
      ]

-- ===== src/Bytes/Views.antt =====
-- Splitting a buffer into two views, and freezing one of them.
use light_speed_io.Prelude.{ℕ, ◌+◌, ◌%◌, ◌<◌, ◌≤◌, ◌≡◌, arith, ok}
use light_speed_io.Arc
use light_speed_io.Arc.{Counts}
use light_speed_io.Bytes.{alignment}
use light_speed_io.Bytes.Writable.{AlignedBytesMut, split_to, freeze, drop}
use light_speed_io.Bytes.Writable

-- A split that is accepted cuts the view at an index that the alignment divides: the two parts lie
-- beside each other and make up the view.
pub record IsSplit (idx : ℕ) (self front back : AlignedBytesMut) : Type 0 where
  pub front_buf : front.buf ≡ self.buf
  pub back_buf : back.buf ≡ self.buf
  pub from_start : front.range.start ≡ self.range.start
  pub front_end : front.range.end ≡ idx
  pub back_start : back.range.start ≡ idx
  pub to_end : back.range.end ≡ self.range.end
  pub after_start : self.range.start ≤ idx
  pub aligned : idx % alignment self.buf.value ≡ 0
  pub lengths : Writable.len front + Writable.len back ≡ Writable.len self
  pub back_nonempty : 0 < Writable.len back

pub split_to-IsSplit :
    (idx : ℕ) (self : AlignedBytesMut) (counts : Counts) (front back : AlignedBytesMut)
    (counts' : Counts)
    → split_to idx self counts ≡ ok (front, back, counts')
    → IsSplit idx self front back × (counts' ≡ Arc.clone self.buf counts)
unfolding split_to
split_to-IsSplit idx self counts front back counts' e = (
  record {
    front_buf = ground arith;
    back_buf = ground arith;
    from_start = ground arith;
    front_end = ground arith;
    back_start = ground arith;
    to_end = ground arith;
    after_start = ground arith;
    aligned = ground arith;
    lengths = ground arith;
    back_nonempty = ground arith;
  },
  ground arith,
)

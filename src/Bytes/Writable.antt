-- ===== src/Bytes/Writable.antt =====
-- `AlignedBytesMut`. A method that changes `self` or a count of owners returns them anew.
use light_speed_io.Prelude.{
  ℕ, ◌+◌, ◌%◌, not, Exec, ◌>>=◌, returns, Result, ok, err, ◌==◌, if◌then◌else◌,
}
use light_speed_io.Arc
use light_speed_io.Arc.{Arc, Counts}
use light_speed_io.Bytes.{Range, range_len, contains, InnerBuffer, new_inner, alignment, Alloc}
use light_speed_io.Bytes.Frozen.{AlignedBytes}

pub record AlignedBytesMut : Type 0 where
  pub buf : Arc InnerBuffer
  pub range : Range

pub data SplitError : Type 0 where
  not_contained : SplitError
  zero_index : SplitError
  unaligned : SplitError

-- The view has the length that was asked for, not the one that was allocated.
unfoldable pub new : Alloc → ℕ → ℕ → Counts → Exec (AlignedBytesMut × Counts)
new alloc len align counts = do
  inner_buf ← new_inner alloc len align
  let (buf, counts') = Arc.new inner_buf counts
  returns (record { buf = buf; range = record { start = 0; end = len } }, counts')

abbrev pub len : AlignedBytesMut → ℕ
len b = range_len b.range

abbrev pub as_mut_ptr : AlignedBytesMut → ℕ
as_mut_ptr b = b.buf.value.buf + b.range.start

-- The returned view, then `self` as it is left.
unfoldable pub split_to :
    ℕ → AlignedBytesMut → Counts → Result (AlignedBytesMut × AlignedBytesMut × Counts) SplitError
split_to idx self counts =
    if not (contains self.range idx)
    then err not_contained
    else if idx == 0
    then err zero_index
    else if not (idx % alignment self.buf.value == 0)
    then err unaligned
    else ok (
      record { buf = self.buf; range = record { start = self.range.start; end = idx } },
      record { buf = self.buf; range = record { start = idx; end = self.range.end } },
      Arc.clone self.buf counts,
    )

-- Consumes `self`: the handle passes to the result, so no count changes.
unfoldable pub freeze : AlignedBytesMut → Counts → Result AlignedBytes AlignedBytesMut
freeze self counts =
    if Arc.strong_count self.buf counts == 1
    then ok (record { buf = self.buf; range = self.range })
    else err self

abbrev pub drop : AlignedBytesMut → Counts → Counts
drop b counts = Arc.drop b.buf counts

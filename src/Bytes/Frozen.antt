-- ===== src/Bytes/Frozen.antt =====
-- `AlignedBytes`: an immutable view.
use light_speed_io.Prelude.{
  ℕ, zero, suc, ◌+◌, not, List, [], ◌∷◌, Exec, Panic, ◌>>◌, assert, returns, leb,
}
use light_speed_io.Arc
use light_speed_io.Arc.{Arc, Counts}
use light_speed_io.Bytes.{Range, range_len, is_empty, InnerBuffer, inner_len}

pub record AlignedBytes : Type 0 where
  pub buf : Arc InnerBuffer
  pub range : Range

-- `#[derive(Clone)]`
abbrev pub clone : AlignedBytes → Counts → AlignedBytes × Counts
clone b counts = (b, Arc.clone b.buf counts)

unfoldable pub set_slice : Range → AlignedBytes → Exec AlignedBytes
set_slice range self = do
  assert (not (is_empty range)) Panic.empty_slice
  assert (leb range.end (inner_len self.buf.value)) Panic.slice_out_of_bounds
  returns (record self { range = range })

abbrev pub reset_slice : AlignedBytes → AlignedBytes
reset_slice self = record self { range = record { start = 0; end = inner_len self.buf.value } }

abbrev pub len : AlignedBytes → ℕ
len b = range_len b.range

abbrev pub as_ptr : AlignedBytes → ℕ
as_ptr b = b.buf.value.buf + b.range.start

-- What `slice::from_raw_parts` sees in a memory: `n` bytes from an address on.
abbrev pub bytes_at : (ℕ → ℕ) → ℕ → ℕ → List ℕ
bytes_at memory ptr zero = []
bytes_at memory ptr (suc n) = memory ptr ∷ bytes_at memory (ptr + 1) n

unfoldable pub as_slice : (ℕ → ℕ) → AlignedBytes → List ℕ
as_slice memory b = bytes_at memory (as_ptr b) (len b)

abbrev pub drop : AlignedBytes → Counts → Counts
drop b counts = Arc.drop b.buf counts

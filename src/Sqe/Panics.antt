-- ===== src/Sqe/Panics.antt =====
-- Which ranges are read, and which make `build_read_range_sqe` panic.
use light_speed_io.Prelude.{
  ℕ, ◌+◌, ◌-◌, ◌%◌, ◌/◌, ◌*◌, ◌^◌, ◌<◌, ◌≤◌, ◌≡◌, ◌≢◌, arith, [], ◌∷◌, ◌++◌, length, some, returns,
  panics, Panic,
}
use light_speed_io.Prelude.Int.{ℤ, pos, negsuc}
use light_speed_io.Arc.{Counts}
use light_speed_io.Arc.Laws.{strong_count-new}
use light_speed_io.UserData.{OpCodes, into_u64}
use light_speed_io.UserData.{new}
use light_speed_io.OpenFile.{OpenFile}
use light_speed_io.Bytes.{Alloc, InnerBuffer, new_inner, from_size_align, is_power_of_two}
use light_speed_io.Bytes.Frozen.{AlignedBytes, len}
use light_speed_io.Sqe.{
  Entry, Request, OffsetRange, align, align_down, start_offset, end_offset, freeze_slice,
  with_user_data, build_read_sqe, build_read_range_sqe,
}
use light_speed_io.Sqe.Reads.{StartsAt, EndsAt, skip_prefix-cases, whole}

StartsAt-start_offset :
    (size : ℕ) (a : ℤ) (start : ℕ) → StartsAt size a start → start_offset size a ≡ pos start
StartsAt-start_offset size (pos a) start h = ground arith
StartsAt-start_offset size (negsuc k) start h = ground arith

EndsAt-end_offset : (size : ℕ) (a : ℤ) (end : ℕ) → EndsAt size a end → end_offset size a ≡ pos end
EndsAt-end_offset size (pos a) end h = ground arith
EndsAt-end_offset size (negsuc k) end h = ground arith

-- The buffer that `InnerBuffer::new` makes for `len` bytes at `addr`.
abbrev pub padded : ℕ → ℕ → InnerBuffer
padded addr len = record {
  buf = addr;
  layout = record { size = (len + 512 - 1) / 512 * 512; align = 512 };
}

new_inner-returns :
    (alloc : Alloc) (len addr : ℕ)
    → 0 < len
    → len < 2 ^ 62
    → alloc (record { size = (len + 512 - 1) / 512 * 512; align = 512 }) ≡ some addr
    → new_inner alloc len align ≡ returns (padded addr len)
unfolding new_inner from_size_align is_power_of_two
new_inner-returns alloc len addr p q e = ground arith

freeze_slice-aligned :
    (start end : ℕ) (inner : InnerBuffer) (c : Counts)
    → inner.layout.align ≡ 512
    → start % 512 ≡ 0
    → start < end
    → end - start ≤ inner.layout.size
    → freeze_slice
        (align_down start)
        start
        end
        (whole inner (end - align_down start) c)
        (c ++ (1 ∷ []))
      ≡ returns (
        record {
          buf = record { id = length c; value = inner };
          range = record { start = 0; end = end - start };
        },
        c ++ (1 ∷ []),
      )
unfolding freeze_slice
freeze_slice-aligned start end inner c h p q r = ground (
  arith,
  skip_prefix-cases start (whole inner (end - align_down start) c) (c ++ (1 ∷ [])) h,
  strong_count-new inner c,
)

freeze_slice-unaligned :
    (start end : ℕ) (inner : InnerBuffer) (c : Counts)
    → inner.layout.align ≡ 512
    → start % 512 ≢ 0
    → freeze_slice
        (align_down start)
        start
        end
        (whole inner (end - align_down start) c)
        (c ++ (1 ∷ []))
      ≡ panics Panic.split_failed
unfolding freeze_slice
freeze_slice-unaligned start end inner c h p =
    ground
      (arith, skip_prefix-cases start (whole inner (end - align_down start) c) (c ++ (1 ∷ [])) h)

-- The circumstances that have nothing to do with the range: a size that an `isize` holds, an index
-- that a `u32` holds, and memory for the padded buffer.
pub record IsServed (alloc : Alloc) (index : ℕ) (file : OpenFile) (len addr : ℕ) : Type 0 where
  pub size_fits : file.size < 2 ^ 63
  pub index_fits : index < 2 ^ 32
  pub len_fits : len < 2 ^ 32
  pub allocated : alloc (record { size = (len + 512 - 1) / 512 * 512; align = 512 }) ≡ some addr

-- The entry and the view for `[start, end)` in a buffer at `addr`.
abbrev pub read_entry : OpCodes → (index fd addr start end : ℕ) → Entry
read_entry codes index fd addr start end = record {
  request = Request.read fd addr (end - start) start;
  user_data = into_u64 (record { index_of_op = index; op = codes.read });
}

abbrev pub view_at : (addr start end : ℕ) → Counts → AlignedBytes
view_at addr start end c = record {
  buf = record { id = length c; value = padded addr (end - align_down start) };
  range = record { start = 0; end = end - start };
}

-- Where memory is served and the sizes fit, a range that stands for `[start, end)`, not empty and
-- with a start that is a multiple of 512, gives the entry that reads those bytes and the view of them.
pub build_read_range_sqe_aligned :
    (codes : OpCodes) (alloc : Alloc) (index : ℕ) (file : OpenFile) (range : OffsetRange)
    (c : Counts) (start end addr : ℕ)
    → StartsAt file.size range.start start
    → EndsAt file.size range.end end
    → IsServed alloc index file (end - align_down start) addr
    → start < end
    → start % 512 ≡ 0
    → build_read_range_sqe codes alloc index file range c
      ≡ returns (
        read_entry codes index file.file_descriptor addr start end,
        view_at addr start end c,
        c ++ (1 ∷ []),
      )
unfolding build_read_range_sqe build_read_sqe with_user_data new
build_read_range_sqe_aligned codes alloc index file range c start end addr s e v lt al = ground (
  arith,
  StartsAt-start_offset file.size range.start start s,
  EndsAt-end_offset file.size range.end end e,
  new_inner-returns alloc (end - align_down start) addr (omega arith) (omega arith) v.allocated,
  freeze_slice-aligned start end (padded addr (end - align_down start)) c,
)

-- Where memory is served and the sizes fit, a range that stands for `[start, end)`, not empty but
-- with a start that is not a multiple of 512, makes the code panic: the split that should skip the
-- bytes in front of it wants an index that is such a multiple.
pub build_read_range_sqe_unaligned :
    (codes : OpCodes) (alloc : Alloc) (index : ℕ) (file : OpenFile) (range : OffsetRange)
    (c : Counts) (start end addr : ℕ)
    → StartsAt file.size range.start start
    → EndsAt file.size range.end end
    → IsServed alloc index file (end - align_down start) addr
    → start < end
    → start % 512 ≢ 0
    → build_read_range_sqe codes alloc index file range c ≡ panics Panic.split_failed
unfolding build_read_range_sqe build_read_sqe with_user_data new
build_read_range_sqe_unaligned codes alloc index file range c start end addr s e v lt al = ground (
  arith,
  StartsAt-start_offset file.size range.start start s,
  EndsAt-end_offset file.size range.end end e,
  new_inner-returns alloc (end - align_down start) addr (omega arith) (omega arith) v.allocated,
  freeze_slice-unaligned start end (padded addr (end - align_down start)) c,
)

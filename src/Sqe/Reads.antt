-- ===== src/Sqe/Reads.antt =====
-- When `build_read_range_sqe` returns, and what it asks the kernel to read into which buffer.
use light_speed_io.Prelude.{
  ℕ, suc, ◌+◌, ◌-◌, ◌%◌, ◌^◌, ◌<◌, ◌≤◌, ◌≡◌, ◌≢◌, sym, ◌∙◌, arith, Exec, returns, panics, Panic,
  length, [], ◌∷◌, ◌++◌, ◌⊎◌, inl, inr, Exec-cases, ℕ_discrete,
}
use light_speed_io.Prelude.Int.{ℤ, pos, negsuc, pos_part}
use light_speed_io.Arc.{Counts, strong_count}
use light_speed_io.Arc.Laws.{strong_count-new}
use light_speed_io.UserData.{OpCodes}
use light_speed_io.OpenFile.{OpenFile}
use light_speed_io.Bytes.{Alloc, InnerBuffer, new_inner, from_size_align}
use light_speed_io.Bytes.Writable.{AlignedBytesMut, split_to}
use light_speed_io.Bytes.Frozen
use light_speed_io.Bytes.Frozen.{AlignedBytes, set_slice}
use light_speed_io.Sqe.{
  start_offset, end_offset, Entry, Request, align, align_down, skip_prefix, freeze_slice,
  with_user_data, build_read_sqe, build_read_range_sqe, OffsetRange,
}

pub new_inner-layout :
    (alloc : Alloc) (len : ℕ) {b : InnerBuffer}
    → new_inner alloc len align ≡ returns b
    → (b.layout.align ≡ 512) × (len ≤ b.layout.size) × (b.layout.size % 512 ≡ 0) × (0 < len)
unfolding new_inner from_size_align
new_inner-layout alloc len e = ground arith

-- A prefix that is not empty is shorter than the alignment, so the split refuses it.
pub skip_prefix-cases :
    (start : ℕ) (b : AlignedBytesMut) (c : Counts)
    → b.buf.value.layout.align ≡ 512
    → ((start % 512 ≡ 0)
        × (align_down start ≡ start)
        × (skip_prefix (align_down start) start b c ≡ returns (b, c)))
      ⊎ ((start % 512 ≢ 0) × (skip_prefix (align_down start) start b c ≡ panics Panic.split_failed))
unfolding skip_prefix split_to
skip_prefix-cases start b c h = elim (ℕ_discrete (start % 512) 0) [
  | yes p ↦ inl (ground arith)
  | no p ↦ inr (ground arith)
]

-- What the two offsets of a range stand for: the specification of `Reader::get_ranges`.
abbrev pub StartsAt : ℕ → ℤ → ℕ → Type 0
StartsAt size (pos a) start = start ≡ a
StartsAt size (negsuc k) start = start + suc k ≡ size

-- An end of -1 is the end of the file.
abbrev pub EndsAt : ℕ → ℤ → ℕ → Type 0
EndsAt size (pos a) end = end ≡ a
EndsAt size (negsuc k) end = end + k ≡ size

-- The view that `AlignedBytesMut::new` makes.
abbrev pub whole : InnerBuffer → ℕ → Counts → AlignedBytesMut
whole inner len c = record {
  buf = record { id = length c; value = inner };
  range = record { start = 0; end = len };
}

-- A read of `[start, end)` into a buffer whose view is those bytes, with one owner.
pub record ReadsInto (fd start end : ℕ) (entry : Entry) (b : AlignedBytes) (c : Counts)
    : Type 0 where
  pub aligned : start % 512 ≡ 0
  pub nonempty : start < end
  pub short : end - start < 2 ^ 32
  pub request : entry.request ≡ Request.read fd (Frozen.as_ptr b) (end - start) start
  pub view : b.range.start ≡ 0
  pub length : Frozen.len b ≡ end - start
  pub fits : end - start ≤ b.buf.value.layout.size
  pub owner : strong_count b.buf c ≡ 1

freeze_slice-returns :
    (start end : ℕ) (inner : InnerBuffer) (c : Counts) (b : AlignedBytes) (c' : Counts)
    → inner.layout.align ≡ 512
    → freeze_slice
        (align_down start)
        start
        end
        (whole inner (end - align_down start) c)
        (c ++ (1 ∷ []))
      ≡ returns (b, c')
    → (start % 512 ≡ 0)
      × (start < end)
      × (b.range.start ≡ 0)
      × (b.range.end ≡ end - start)
      × (b.buf.value ≡ inner)
      × (strong_count b.buf c' ≡ 1)
unfolding freeze_slice
freeze_slice-returns start end inner c b c' h e = ground (
  arith,
  skip_prefix-cases start (whole inner (end - align_down start) c) (c ++ (1 ∷ [])) h,
  strong_count-new inner c,
)

read_made-ReadsInto :
    (codes : OpCodes) (alloc : Alloc) (index fd start end : ℕ) (c : Counts) (entry : Entry)
    (b : AlignedBytes) (c' : Counts) (inner : InnerBuffer)
    → new_inner alloc (end - align_down start) align ≡ returns inner
    → build_read_sqe codes alloc index fd start end c ≡ returns (entry, b, c')
    → ReadsInto fd start end entry b c'
unfolding build_read_sqe with_user_data
read_made-ReadsInto codes alloc index fd start end c entry b c' inner made e = ground (
  arith,
  new_inner-layout alloc (end - align_down start) made,
  freeze_slice-returns start end inner c b c'
      (new_inner-layout alloc (end - align_down start) made).0,
)

build_read_sqe-ReadsInto :
    (codes : OpCodes) (alloc : Alloc) (index fd start end : ℕ) (c : Counts) (entry : Entry)
    (b : AlignedBytes) (c' : Counts)
    → build_read_sqe codes alloc index fd start end c ≡ returns (entry, b, c')
    → ReadsInto fd start end entry b c'
unfolding build_read_sqe
build_read_sqe-ReadsInto codes alloc index fd start end c entry b c' e =
    elim (Exec-cases (new_inner alloc (end - align_down start) align)) [
      | inl (inner, made) ↦
          read_made-ReadsInto codes alloc index fd start end c entry b c' inner made e
      | inr (p, failed) ↦ ground arith
    ]

start_offset-StartsAt :
    (size : ℕ) (a : ℤ) (start : ℕ) → start_offset size a ≡ pos start → StartsAt size a start
start_offset-StartsAt size (pos a) start e = ground arith
start_offset-StartsAt size (negsuc k) start e = ground arith

end_offset-EndsAt : (size : ℕ) (a : ℤ) (end : ℕ) → end_offset size a ≡ pos end → EndsAt size a end
end_offset-EndsAt size (pos a) end e = ground arith
end_offset-EndsAt size (negsuc k) end e = ground arith

-- What the three conversions say when the code gets past them.
record Resolved (codes : OpCodes) (alloc : Alloc) (index : ℕ) (file : OpenFile)
    (range : OffsetRange) (c : Counts) (r : Exec (Entry × AlignedBytes × Counts)) : Type 0 where
  start : ℕ
  end : ℕ
  starts : start_offset file.size range.start ≡ pos start
  ends : end_offset file.size range.end ≡ pos end
  rest : r ≡ build_read_sqe codes alloc index file.file_descriptor start end c

build_read_range_sqe-Resolved :
    (codes : OpCodes) (alloc : Alloc) (index : ℕ) (file : OpenFile) (range : OffsetRange)
    (c : Counts) (x : Entry × AlignedBytes × Counts)
    → build_read_range_sqe codes alloc index file range c ≡ returns x
    → Resolved codes alloc index file range c (build_read_range_sqe codes alloc index file range c)
unfolding build_read_range_sqe
build_read_range_sqe-Resolved codes alloc index file range c x e = record {
  start = pos_part (start_offset file.size range.start);
  end = pos_part (end_offset file.size range.end);
  starts = ground arith;
  ends = ground arith;
  rest = ground arith;
}

-- Whatever range is asked for, if an entry is built then the range stands for bytes `[start, end)`, not
-- empty and with an aligned start, the entry reads exactly `end - start` bytes at `start` into the
-- buffer, the view has that length and fits in what is allocated, and it is the only view.
pub build_read_range_sqe-ReadsInto :
    (codes : OpCodes) (alloc : Alloc) (index : ℕ) (file : OpenFile) (range : OffsetRange)
    (c : Counts) {entry : Entry} {b : AlignedBytes} {c' : Counts}
    → build_read_range_sqe codes alloc index file range c ≡ returns (entry, b, c')
    → (start : ℕ) × (end : ℕ) × StartsAt file.size range.start start
      × EndsAt file.size range.end end
      × ReadsInto file.file_descriptor start end entry b c'
unfolding build_read_range_sqe
build_read_range_sqe-ReadsInto codes alloc index file range c {entry} {b} {c'} e = (
  start,
  end,
  start_offset-StartsAt file.size range.start start starts,
  end_offset-EndsAt file.size range.end end ends,
  build_read_sqe-ReadsInto codes alloc index file.file_descriptor start end c entry b c'
      (sym rest ∙ e),
)
  where
    open (build_read_range_sqe-Resolved codes alloc index file range c (entry, b, c') e) use {
      start, end, starts, ends, rest,
    }

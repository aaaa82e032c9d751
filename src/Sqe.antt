-- ===== src/Sqe.antt =====
-- crates/lsio_uring/src/sqe.rs: the submission queue entries, and the byte range of a read.
pub mod Delivery
pub mod Panics
pub mod Reads
mod Tests
use light_speed_io.Prelude.{
  ℕ, ◌+◌, ◌-◌, ◌*◌, ◌/◌, ◌^◌, List, [], ◌∷◌, Exec, Panic, ◌>>=◌, ◌>>◌, assert, unwrap_ok, returns,
  panics, ltb, ◌==◌, if◌then◌else◌,
}
use light_speed_io.Prelude.Int.{ℤ, pos, negsuc, ◌+ℤ◌, leb_ℤ}
use light_speed_io.Arc.{Counts}
use light_speed_io.UserData
use light_speed_io.UserData.{OpCodes, into_u64}
use light_speed_io.OpenFile.{CString, OpenFile, OpenFileBuilder}
use light_speed_io.Bytes.{Alloc}
use light_speed_io.Bytes.Writable
use light_speed_io.Bytes.Writable.{AlignedBytesMut, as_mut_ptr, split_to, freeze}
use light_speed_io.Bytes.Frozen.{AlignedBytes, set_slice}

-- `Range<isize>`
pub record OffsetRange : Type 0 where
  pub start : ℤ
  pub end : ℤ

pub data OpenFlag : Type 0 where
  o_rdonly : OpenFlag
  o_direct : OpenFlag

pub data StatxMask : Type 0 where
  statx_size : StatxMask
  statx_dioalign : StatxMask

-- What the code hands to the builders of the io-uring crate. A directory descriptor may be -1.
pub data Request : Type 0 where
  open_at : (dirfd : ℤ) (path : CString) (flags : List OpenFlag) → Request
  statx : (dirfd : ℤ) (path : CString) (mask : List StatxMask) → Request
  read : (fd ptr len offset : ℕ) → Request
  close : (fd : ℕ) → Request

-- `squeue::Entry`
pub record Entry : Type 0 where
  pub request : Request
  pub user_data : ℕ

-- `ALIGN`
abbrev pub align : ℕ
align = 512

-- `.build().user_data(UringUserData::new(index_of_op, CODE).into())`
unfoldable pub with_user_data : ℕ → ℕ → Request → Exec Entry
unfolding UserData.new
with_user_data index_of_op code request = do
  u ← UserData.new index_of_op code
  returns (record { request = request; user_data = into_u64 u })

unfoldable pub build_openat_sqe : OpCodes → ℕ → CString → Exec Entry
unfolding with_user_data
build_openat_sqe codes index_of_op location =
    with_user_data index_of_op codes.open_at
      (open_at (negsuc 0) location (o_rdonly ∷ o_direct ∷ []))

unfoldable pub build_statx_sqe : OpCodes → ℕ → OpenFileBuilder → Exec Entry
unfolding with_user_data
build_statx_sqe codes index_of_op builder =
    with_user_data index_of_op codes.statx
      (statx (negsuc 0) builder.location (statx_size ∷ statx_dioalign ∷ []))

unfoldable pub build_close_sqe : OpCodes → ℕ → ℕ → Exec Entry
unfolding with_user_data
build_close_sqe codes index_of_op fd = with_user_data index_of_op codes.close (close fd)

-- A negative start counts from the end of the file.
abbrev pub start_offset : ℕ → ℤ → ℤ
start_offset filesize start = if leb_ℤ (pos 0) start then start else pos filesize +ℤ start

-- A negative end too, where -1 is the end of the file itself.
abbrev pub end_offset : ℕ → ℤ → ℤ
end_offset filesize end = if leb_ℤ (pos 0) end then end else pos filesize +ℤ end +ℤ pos 1

-- `assert!(offset >= 0)`, with the offset as a number from there on.
abbrev pub nonnegative : ℤ → Panic → Exec ℕ
nonnegative (pos n) p = returns n
nonnegative (negsuc n) p = panics p

abbrev pub align_down : ℕ → ℕ
align_down offset = offset / align * align

-- `try_into` from a `u64` to an `isize`.
abbrev pub to_isize : ℕ → Exec ℕ
to_isize n = if ltb n (2 ^ 63) then returns n else panics Panic.size_too_big

-- `try_into` from a `usize` to a `u32`.
abbrev pub to_u32 : ℕ → Exec ℕ
to_u32 n = if ltb n (2 ^ 32) then returns n else panics Panic.read_too_long

-- The split that drops the bytes before the start, where the start is not aligned.
unfoldable pub skip_prefix :
    (aligned start : ℕ) → AlignedBytesMut → Counts → Exec (AlignedBytesMut × Counts)
unfolding split_to
skip_prefix aligned start buffer counts =
    if aligned == start
    then returns (buffer, counts)
    else unwrap_ok (split_to (start - aligned) buffer counts) Panic.split_failed
      >>= λ (other, rest, counts'). returns (rest, Writable.drop other counts')

-- From the split on: the view that the user asked for, frozen.
unfoldable pub freeze_slice :
    (aligned start end : ℕ) → AlignedBytesMut → Counts → Exec (AlignedBytes × Counts)
unfolding freeze set_slice
freeze_slice aligned start end buffer counts = do
  (buffer, counts) ← skip_prefix aligned start buffer counts
  buffer ← unwrap_ok (freeze buffer counts) Panic.freeze_failed
  buffer ← set_slice (record { start = start - aligned; end = end - aligned }) buffer
  returns (buffer, counts)

-- The part of `build_read_range_sqe` from the two offsets on.
unfoldable pub build_read_sqe :
    OpCodes → Alloc → ℕ → ℕ → (start end : ℕ) → Counts → Exec (Entry × AlignedBytes × Counts)
unfolding Writable.new
build_read_sqe codes alloc index_of_op fd start end counts = do
  let aligned = align_down start
  assert (ltb aligned end) Panic.nothing_to_read
  (buffer, counts) ← Writable.new alloc (end - aligned) align counts
  len ← to_u32 (Writable.len buffer)
  entry ← with_user_data index_of_op codes.read (read fd (as_mut_ptr buffer) len aligned)
  (buffer, counts) ← freeze_slice aligned start end buffer counts
  returns (entry, buffer, counts)

unfoldable pub build_read_range_sqe :
    OpCodes → Alloc → ℕ → OpenFile → OffsetRange → Counts → Exec (Entry × AlignedBytes × Counts)
build_read_range_sqe codes alloc index_of_op file range counts = do
  filesize ← to_isize file.size
  start ← nonnegative (start_offset filesize range.start) Panic.negative_start
  end ← nonnegative (end_offset filesize range.end) Panic.negative_end
  build_read_sqe codes alloc index_of_op file.file_descriptor start end counts

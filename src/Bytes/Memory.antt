-- ===== src/Bytes/Memory.antt =====
-- The memory that the pointers of the views point into, written as the unit test of the crate does.
pub mod Writes
pub mod Beside
pub mod RoundTrip
use light_speed_io.Prelude.{
  ℕ, suc, ◌+◌, List, [], ◌∷◌, Exec, Panic, ◌>>=◌, returns, unwrap_ok, Result, ok, err, ◌==◌,
  if◌then◌else◌,
}
use light_speed_io.Arc.{Counts}
use light_speed_io.Bytes.{Alloc}
use light_speed_io.Bytes.Writable.{AlignedBytesMut, freeze, as_mut_ptr}
use light_speed_io.Bytes.Writable
use light_speed_io.Bytes.Frozen.{AlignedBytes, as_slice}

-- The byte at each address.
abbrev pub Memory : Type 0
Memory = ℕ → ℕ

-- `*ptr = x`
unfoldable pub store : ℕ → ℕ → Memory → Memory
store ptr x memory a = if a == ptr then x else memory a

-- One byte after another, from a pointer on.
abbrev pub write_bytes : ℕ → List ℕ → Memory → Memory
write_bytes ptr [] memory = memory
write_bytes ptr (x ∷ xs) memory = write_bytes (ptr + 1) xs (store ptr x memory)

-- The loop of the unit test: the same bytes through two pointers, in turns.
unfoldable pub fill : ℕ → ℕ → List ℕ → Memory → Memory
fill ptr1 ptr2 [] memory = memory
fill ptr1 ptr2 (x ∷ xs) memory = fill (ptr1 + 1) (ptr2 + 1) xs (store ptr2 x (store ptr1 x memory))

abbrev pub bytes : List ℕ
bytes = 0 ∷ 1 ∷ 2 ∷ 3 ∷ 4 ∷ 5 ∷ 6 ∷ 7 ∷ 8 ∷ 9 ∷ 10 ∷ 11 ∷ 12 ∷ 13 ∷ 14 ∷ 15 ∷ []

freeze_unwrap : AlignedBytesMut → Counts → Exec AlignedBytes
freeze_unwrap b counts = unwrap_ok (freeze b counts) Panic.freeze_failed

-- `test_write_and_read`, with an allocator for each of the two calls, up to what it compares.
unfoldable pub test_write_and_read : Alloc → Alloc → Memory → Exec (List ℕ × List ℕ)
unfolding freeze_unwrap
test_write_and_read alloc1 alloc2 memory = do
  (aligned_buf1, counts) ← Writable.new alloc1 16 8 []
  (aligned_buf2, counts') ← Writable.new alloc2 16 8 counts
  let memory' = fill (as_mut_ptr aligned_buf1) (as_mut_ptr aligned_buf2) bytes memory
  slice1 ← freeze_unwrap aligned_buf1 counts'
  slice2 ← freeze_unwrap aligned_buf2 counts'
  returns (as_slice memory' slice1, as_slice memory' slice2)

-- ===== src/Bytes/Memory/RoundTrip.antt =====
-- The unit test of the crate, for any two blocks.
use light_speed_io.Prelude.{ℕ, ◌+◌, ◌≤◌, ◌≡◌, ◌⊎◌, arith, some, refl, sym, subst, returns}
use light_speed_io.Arc
use light_speed_io.Bytes.{Alloc, new_inner, from_size_align, is_power_of_two}
use light_speed_io.Bytes.Writable.{AlignedBytesMut, freeze, as_mut_ptr}
use light_speed_io.Bytes.Writable
use light_speed_io.Bytes.Frozen.{as_slice, bytes_at}
use light_speed_io.Bytes.Memory.{Memory, fill, bytes, test_write_and_read, freeze_unwrap}
use light_speed_io.Bytes.Memory.Writes.{bytes_at-fill}

module _ (memory : Memory) (b1 b2 : AlignedBytesMut) where
  after_fill : Memory
  after_fill = fill (as_mut_ptr b1) (as_mut_ptr b2) bytes memory

  -- What `freeze` leaves of the two views shows what was written.
  read_back :
      Writable.len b1 ≡ 16
      → Writable.len b2 ≡ 16
      → (as_mut_ptr b1 + 16 ≤ as_mut_ptr b2) ⊎ (as_mut_ptr b2 + 16 ≤ as_mut_ptr b1)
      → (as_slice after_fill (record { buf = b1.buf; range = b1.range }) ≡ bytes)
        × (as_slice after_fill (record { buf = b2.buf; range = b2.range }) ≡ bytes)
  unfolding as_slice after_fill
  read_back n1 n2 apart =
      let (r1, r2) = bytes_at-fill (as_mut_ptr b1) (as_mut_ptr b2) bytes memory apart in
      (
        subst (λ k. bytes_at after_fill (as_mut_ptr b1) k ≡ bytes) (sym n1) r1,
        subst (λ k. bytes_at after_fill (as_mut_ptr b2) k ≡ bytes) (sym n2) r2,
      )

abbrev block : ℕ → ℕ → AlignedBytesMut
block id ptr = record {
  buf = record { id = id; value = record { buf = ptr; layout = record { size = 16; align = 8 } } };
  range = record { start = 0; end = 16 };
}

-- If the allocator gives two blocks of 16 bytes that do not overlap, the unit test gets through, and
-- both slices are the bytes that it wrote.
pub test_write_and_read_lem :
    (alloc1 alloc2 : Alloc) (memory : Memory) (ptr1 ptr2 : ℕ)
    → alloc1 (record { size = 16; align = 8 }) ≡ some ptr1
    → alloc2 (record { size = 16; align = 8 }) ≡ some ptr2
    → (ptr1 + 16 ≤ ptr2) ⊎ (ptr2 + 16 ≤ ptr1)
    → test_write_and_read alloc1 alloc2 memory ≡ returns (bytes, bytes)
unfolding test_write_and_read Writable.new new_inner from_size_align is_power_of_two freeze
    Arc.strong_count freeze_unwrap after_fill
test_write_and_read_lem alloc1 alloc2 memory ptr1 ptr2 e1 e2 apart =
    let (r1, r2) =
      read_back memory (block 0 ptr1) (block 1 ptr2) refl refl (ground (arith, apart)) in
    rw (e1, e2) (cc (r1, r2))

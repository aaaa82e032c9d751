-- ===== src/Sqe/Tests.antt =====
-- The theorems about reads at a file of 2000 bytes, and runs that show what the code does.
use light_speed_io.Prelude.{◌+◌, ◌-◌, ◌≡◌, refl, arith, [], ◌∷◌, some, returns, panics, Panic}
use light_speed_io.Prelude.Int.{pos, negsuc}
use light_speed_io.UserData.{OpCodes}
use light_speed_io.Bytes.{Alloc, is_power_of_two, new_inner, from_size_align}
use light_speed_io.Bytes.Frozen.{bytes_at, as_slice}
use light_speed_io.Arc
use light_speed_io.OpenFile.{OpenFile}
use light_speed_io.Sqe.{
  build_read_range_sqe, build_read_sqe, freeze_slice, skip_prefix, with_user_data, OffsetRange,
}
use light_speed_io.Sqe.Delivery.{as_slice-build_read_range_sqe}
use light_speed_io.Sqe.Panics.{
  read_entry, view_at, build_read_range_sqe_aligned, build_read_range_sqe_unaligned,
}

abbrev kernel_codes : OpCodes
kernel_codes = record { open_at = 18; read = 22; close = 19; statx = 21 }

abbrev heap : Alloc
heap = λ _. some 4096

abbrev file : OpenFile
file = record { location = []; file_descriptor = 7; size = 2000; alignment = 512 }

-- From byte 512 to the end.
abbrev tail_range : OffsetRange
tail_range = record { start = pos 512; end = negsuc 0 }

-- The last 100 bytes.
abbrev last_hundred : OffsetRange
last_hundred = record { start = negsuc 99; end = negsuc 0 }

tail_range_built :
    build_read_range_sqe kernel_codes heap 3 file tail_range []
    ≡ returns (read_entry kernel_codes 3 7 4096 512 2000, view_at 4096 512 2000 [], 1 ∷ [])
unfolding build_read_range_sqe build_read_sqe freeze_slice skip_prefix new_inner from_size_align
    is_power_of_two with_user_data Arc.strong_count
tail_range_built = refl

build_read_range_sqe_aligned_example :
    build_read_range_sqe kernel_codes heap 3 file tail_range []
    ≡ returns (read_entry kernel_codes 3 7 4096 512 2000, view_at 4096 512 2000 [], 1 ∷ [])
build_read_range_sqe_aligned_example =
    build_read_range_sqe_aligned kernel_codes heap 3 file tail_range [] 512 2000 4096 refl
      (omega arith)
      (record {
        size_fits = omega arith;
        index_fits = omega arith;
        len_fits = omega arith;
        allocated = refl;
      })
      (omega arith) (omega arith)

build_read_range_sqe_unaligned_example :
    build_read_range_sqe kernel_codes heap 3 file last_hundred [] ≡ panics Panic.split_failed
build_read_range_sqe_unaligned_example =
    build_read_range_sqe_unaligned kernel_codes heap 3 file last_hundred [] 1900 2000 4096
      (omega arith) (omega arith)
      (record {
        size_fits = omega arith;
        index_fits = omega arith;
        len_fits = omega arith;
        allocated = refl;
      })
      (omega arith) (omega arith)

-- Byte `i` of the file is `i`, and the kernel has put the bytes from 512 on at address 4096.
as_slice-build_read_range_sqe_example :
    as_slice (λ a. a - 4096 + 512) (view_at 4096 512 2000 []) ≡ bytes_at (λ i. i) 512 1488
as_slice-build_read_range_sqe_example =
    as_slice-build_read_range_sqe kernel_codes heap 3 file tail_range [] (λ i. i)
      (λ a. a - 4096 + 512) 512 2000 refl (omega arith) tail_range_built (λ k p. omega arith)

-- ===== src/Bytes.antt =====
-- crates/lsio_aligned_bytes/src/lib.rs: an aligned buffer, its mutable views and its frozen views.
pub mod Writable
pub mod Frozen
pub mod Views
pub mod Store
pub mod Memory
mod Tests
use light_speed_io.Prelude.{
  ℕ, zero, suc, ◌+◌, ◌-◌, ◌*◌, ◌/◌, ◌^◌, Bool, true, false, not, ◌&&◌, ◌||◌, Option, none, some,
  Exec, Panic, ◌>>=◌, ◌>>◌, assert, unwrap, returns, panics, ltb, leb, ◌==◌, if◌then◌else◌,
}

-- `std::ops::Range<usize>`
pub record Range : Type 0 where
  pub start : ℕ
  pub end : ℕ

-- An inverted range is empty.
abbrev pub range_len : Range → ℕ
range_len r = r.end - r.start

abbrev pub contains : Range → ℕ → Bool
contains r i = leb r.start i && ltb i r.end

abbrev pub is_empty : Range → Bool
is_empty r = not (ltb r.start r.end)

-- `std::alloc::Layout`
pub record Layout : Type 0 where
  pub size : ℕ
  pub align : ℕ

is_power_below : ℕ → ℕ → Bool
is_power_below zero n = false
is_power_below (suc k) n = n == 2 ^ k || is_power_below k n

-- Of a `usize`.
unfoldable pub is_power_of_two : ℕ → Bool
unfolding is_power_below
is_power_of_two = is_power_below 64

-- `Layout::from_size_align`: the size, rounded up to the alignment, has to fit in an `isize`.
unfoldable pub from_size_align : ℕ → ℕ → Option Layout
from_size_align size align =
    if is_power_of_two align && leb (size + align) (2 ^ 63)
    then some (record { size = size; align = align })
    else none

abbrev pub pad_to_align : Layout → Layout
pad_to_align l = record l { size = (l.size + l.align - 1) / l.align * l.align }

-- `std::alloc::alloc`: an address, or `none` for a null pointer.
abbrev pub Alloc : Type 0
Alloc = Layout → Option ℕ

pub record InnerBuffer : Type 0 where
  pub buf : ℕ
  pub layout : Layout

unfoldable pub new_inner : Alloc → ℕ → ℕ → Exec InnerBuffer
new_inner alloc len align = do
  assert (not (len == 0)) Panic.zero_length
  layout ← unwrap (from_size_align len align) Panic.bad_layout
  let layout = pad_to_align layout
  buf ← unwrap (alloc layout) Panic.alloc_failed
  returns (record { buf = buf; layout = layout })

-- The size that is allocated, which may exceed the length that was asked for.
abbrev pub inner_len : InnerBuffer → ℕ
inner_len b = b.layout.size

abbrev pub alignment : InnerBuffer → ℕ
alignment b = b.layout.align

-- ===== src/UserData.antt =====
-- crates/lsio_uring/src/opcode.rs and user_data.rs: the 64 bits that tie a completion to the
-- operation that caused it.
pub mod RoundTrip
pub mod Words
mod UnitTests
mod Tests
use Prim.Native.Nat.{bit_or, bit_and}
use light_speed_io.Prelude.{
  ℕ, ◌*◌, ◌/◌, ◌^◌, Exec, Panic, ◌>>=◌, returns, panics, ltb, if◌then◌else◌, ◌==◌,
}

-- The `CODE` constants (`u8`) of the io-uring crate.
pub record OpCodes : Type 0 where
  pub open_at : ℕ
  pub read : ℕ
  pub close : ℕ
  pub statx : ℕ

-- The strings of `OpCode::name`.
pub data OpName : Type 0 where
  openat : OpName
  read : OpName
  close : OpName
  unrecognised : OpName

-- `OpCode` wraps a `u8`: the number itself.
abbrev pub OpCode : Type 0
OpCode = ℕ

unfoldable pub name : OpCodes → OpCode → OpName
name codes op =
    if op == codes.open_at
    then openat
    else if op == codes.read
    then OpName.read
    else if op == codes.close
    then OpName.close
    else unrecognised

pub record UringUserData : Type 0 where
  pub index_of_op : ℕ  -- u32
  pub op : OpCode

-- `try_into` refuses an index that a `u32` cannot hold.
unfoldable pub new : ℕ → ℕ → Exec UringUserData
new index_of_op op =
    if ltb index_of_op (2 ^ 32)
    then returns (record { index_of_op = index_of_op; op = op })
    else panics Panic.index_too_big

-- `From<u64>`: the shift by 32 is a division, and the mask is on the lowest byte.
unfoldable pub from_u64 : ℕ → UringUserData
from_u64 value = record { index_of_op = value / 2 ^ 32; op = bit_and value 0xff }

-- `Into<u64>`: the shift to the left of a `u32` in a `u64` loses no bit.
unfoldable pub into_u64 : UringUserData → ℕ
into_u64 u = bit_or (u.index_of_op * 2 ^ 32) u.op

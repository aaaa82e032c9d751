-- ===== src/UserData/RoundTrip.antt =====
-- user_data.rs and opcode.rs: theorems about the conversions and the names.
use light_speed_io.Prelude.{ℕ, ◌+◌, ◌*◌, ◌^◌, ◌<◌, ◌≤◌, ◌≡◌, ◌↔◌, arith, panics, Panic}
use light_speed_io.Prelude.Bits.{bit_and-byte, bit_or_shifted}
use light_speed_io.UserData.{UringUserData, new, from_u64, into_u64}

-- Where the opcode is a byte, the 64 bits are the index above 32 bits and the opcode below.
pub into_u64_lem : (u : UringUserData) → u.op < 256 → into_u64 u ≡ u.index_of_op * 2 ^ 32 + u.op
unfolding into_u64
into_u64_lem u h = bit_or_shifted 32 u.index_of_op u.op (omega arith)

-- An index that a `u32` cannot hold is refused, and no other is.
pub new-panics :
    (index_of_op op : ℕ)
    → (new index_of_op op ≡ panics Panic.index_too_big) ↔ (2 ^ 32 ≤ index_of_op)
unfolding new
new-panics index_of_op op = ground arith

-- The same for the two numbers themselves.
pub from_u64_of_new :
    (index_of_op op : ℕ)
    → op < 256
    → from_u64 (into_u64 (record { index_of_op = index_of_op; op = op }))
      ≡ record { index_of_op = index_of_op; op = op }
unfolding from_u64
from_u64_of_new index_of_op op h =
    let u : UringUserData = record { index_of_op = index_of_op; op = op } in
    ground (arith, into_u64_lem u, bit_and-byte (into_u64 u))

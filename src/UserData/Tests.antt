-- ===== src/UserData/Tests.antt =====
-- The conversions and `OpCode::name` at concrete numbers.
use light_speed_io.Prelude.{◌≤◌, ◌^◌, ◌≡◌, ◌↔◌, refl, returns, panics, Panic}
use light_speed_io.UserData.{UringUserData, name, unrecognised, new, from_u64, into_u64}
use light_speed_io.UserData.RoundTrip.{new-panics}

abbrev sample : UringUserData
sample = record { index_of_op = 100; op = 22 }

new-sample : new 100 22 ≡ returns sample
unfolding new
new-sample = refl

-- 100 << 32 | 22, there and back.
there_and_back : into_u64 (from_u64 429496729622) ≡ 429496729622
unfolding from_u64 into_u64
there_and_back = refl

-- An opcode that `OpCode::name` leaves out.
name_of_statx : name (record { open_at = 18; read = 22; close = 19; statx = 21 }) 21 ≡ unrecognised
unfolding name
name_of_statx = refl

new-panics_example : (new 4294967296 22 ≡ panics Panic.index_too_big) ↔ (2 ^ 32 ≤ 4294967296)
new-panics_example = new-panics 4294967296 22

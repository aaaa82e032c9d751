-- ===== src/UserData/UnitTests.antt =====
-- user_data.rs: the unit test, for any code of a read.
use light_speed_io.Prelude.{◌<◌, ◌≡◌, arith, Bool, true, ◌&&◌, ◌==◌, Exec, ◌>>=◌, returns}
use light_speed_io.UserData.{OpCodes, new, from_u64, into_u64}
use light_speed_io.UserData.RoundTrip.{from_u64_of_new}

-- Whether both assertions hold.
unfoldable test_uring_user_data_round_trip : OpCodes → Exec Bool
test_uring_user_data_round_trip codes = do
  uring_user_data ← new 100 codes.read
  let uring_user_data = from_u64 (into_u64 uring_user_data)
  returns ((uring_user_data.index_of_op == 100) && (uring_user_data.op == codes.read))

-- The test passes if the code is a byte.
test_uring_user_data_round_trip_lem :
    (codes : OpCodes) → codes.read < 256 → test_uring_user_data_round_trip codes ≡ returns true
unfolding test_uring_user_data_round_trip new
test_uring_user_data_round_trip_lem codes h = ground (arith, from_u64_of_new 100 codes.read h)

-- ===== src/Tracker/UnitTests.antt =====
-- tracker.rs: the unit tests, on any three values.
use light_speed_io.Prelude.{
  ℕ, ◌≡◌, refl, arith, Bool, true, false, ◌&&◌, ◌==◌, Option, none, some, Exec, Panic, ◌>>=◌,
  unwrap, returns, panics,
}
use light_speed_io.Tracker.{Tracker, new, get_next_index, put, get, remove}

abbrev is_none {ℓ} : {A : Type ℓ} → Option A → Bool
is_none none = true
is_none (some a) = false

-- `get(i).unwrap().remove()`
unfoldable get_and_remove : ℕ → Tracker ℕ → Exec (ℕ × Tracker ℕ)
get_and_remove i t = do guard ← get i t; index ← unwrap guard Panic.slot_is_empty; remove index t

-- `get_next_index().unwrap()`, and then `put`.
unfoldable put_next : ℕ → Tracker ℕ → Exec (ℕ × Tracker ℕ)
put_next value t = do
  let (next, t) = get_next_index t
  i ← unwrap next Panic.no_free_index
  t ← put i value t
  returns (i, t)

-- Whether all assertions hold.
unfoldable test_op_tracker : ℕ → ℕ → ℕ → Exec Bool
unfolding get_and_remove put_next
test_op_tracker s0 s1 s2 = do
  let tracker = new {T = ℕ} 2
  guard ← get 0 tracker
  (i0, tracker) ← put_next s0 tracker
  (r0, tracker) ← get_and_remove i0 tracker
  (i1, tracker) ← put_next s1 tracker
  (i2, tracker) ← put_next s2 tracker
  let full = get_next_index tracker
  (r1, tracker) ← get_and_remove i1 tracker
  (r2, tracker) ← get_and_remove i2 tracker
  returns (
      is_none guard
      && (i0 == 0)
      && (r0 == s0)
      && (i1 == 1)
      && (i2 == 0)
      && is_none full.0
      && (r1 == s1)
      && (r2 == s2))

test_panic_if_wrong_index : Exec (Option ℕ)
test_panic_if_wrong_index = get 100 (new {T = ℕ} 2)

-- The first test passes, whatever the values are.
test_op_tracker_lem : (s0 s1 s2 : ℕ) → test_op_tracker s0 s1 s2 ≡ returns true
unfolding test_op_tracker new get_next_index put get remove
test_op_tracker_lem s0 s1 s2 = ground arith

-- The second panics as it should.
test_panic_if_wrong_index_lem : test_panic_if_wrong_index ≡ panics Panic.index_out_of_bounds
unfolding test_panic_if_wrong_index new get
test_panic_if_wrong_index_lem = refl

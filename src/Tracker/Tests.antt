-- ===== src/Tracker/Tests.antt =====
-- The theorems about a tracker of two slots, after the unit test of tracker.rs.
use light_speed_io.Prelude.{
  times, ℕ, zero, suc, ◌+◌, ◌≡◌, refl, arith, List, [], ◌∷◌, none, some, returns, panics, Panic,
  ◌==◌, if◌then◌else◌,
}
use light_speed_io.Tracker.{Tracker, new, get_next_index, put, get, remove}
use light_speed_io.Tracker.Invariant.{Inv}
use light_speed_io.Tracker.Slots.{vacant}
use light_speed_io.Tracker.Refines.{Begun, begin, begin-Begun, finish, finish_lem, lookup, capacity}
use light_speed_io.Tracker.Runs.{Call, begins, finishes, run, run-new-Inv, step}

-- The number 7 under index 0.
abbrev holding : Tracker ℕ
holding = record { ops_in_flight = some 7 ∷ none ∷ []; next_index = 1 ∷ []; len = 1 }

abbrev holding_two : Tracker ℕ
holding_two = record { ops_in_flight = some 7 ∷ some 8 ∷ []; next_index = []; len = 2 }

holding_free : (i : ℕ) → times i (1 ∷ []) + 0 ≡ vacant holding.ops_in_flight i
holding_free zero = refl
holding_free (suc zero) = refl
holding_free (suc (suc i)) = ground arith

holding-Inv : Inv [] holding
holding-Inv = record { free = holding_free; counted = refl; complete = refl }

holding_two_free : (i : ℕ) → times i [] + 0 ≡ vacant holding_two.ops_in_flight i
holding_two_free zero = refl
holding_two_free (suc zero) = refl
holding_two_free (suc (suc i)) = refl

holding_two-Inv : Inv [] holding_two
holding_two-Inv = record { free = holding_two_free; counted = refl; complete = refl }

holding_reached : begin 7 (new {T = ℕ} 2) ≡ returns (some 0, holding)
unfolding begin new get_next_index put
holding_reached = refl

begin-Begun_example : Begun 8 holding (begin 8 holding)
begin-Begun_example = begin-Begun 8 holding holding-Inv

finish_lem_example :
    (t' : Tracker ℕ) × (finish 0 holding ≡ returns (some 7, t'))
    × Inv [] t'
    × ((a : ℕ) → lookup t' a ≡ (if 0 == a then none else lookup holding a))
    × (t'.len + 1 ≡ 1)
    × (capacity t' ≡ 2)
finish_lem_example = finish_lem 0 7 holding holding-Inv refl

-- The calls of the unit test: 7 in and out, then 8 and 9, which fill the tracker, then both out.
abbrev unit_test : List (Call ℕ)
unit_test = begins 7 ∷ finishes 0 ∷ begins 8 ∷ begins 9 ∷ begins 10 ∷ finishes 1 ∷ finishes 0 ∷ []

run-new-Inv_example :
    (t : Tracker ℕ) × (run unit_test (new 2) ≡ returns t) × Inv [] t × (capacity t ≡ 2)
run-new-Inv_example = run-new-Inv 2 unit_test (omega arith)

unit_test_result :
    run unit_test (new 2)
    ≡ returns (record { ops_in_flight = none ∷ none ∷ []; next_index = 1 ∷ 0 ∷ []; len = 0 })
unfolding run step begin finish new get_next_index put get remove
unit_test_result = refl

wrong_index : get 100 (new {T = ℕ} 2) ≡ panics Panic.index_out_of_bounds
unfolding get new
wrong_index = refl

-- ===== src/Bytes/Tests.antt =====
-- The picture in the documentation of `split_to`.
use light_speed_io.Prelude.{ℕ, ◌≡◌, refl, [], ◌∷◌, ok}
use light_speed_io.Arc
use light_speed_io.Bytes.Writable.{AlignedBytesMut, split_to}

-- Ten bytes with alignment 2, of which bytes 2 to 7 are in view.
abbrev view : ℕ → ℕ → AlignedBytesMut
view start end = record {
  buf = record { id = 0; value = record { buf = 64; layout = record { size = 10; align = 2 } } };
  range = record { start = start; end = end };
}

split_six : split_to 6 (view 2 8) (1 ∷ []) ≡ ok (view 2 6, view 6 8, 2 ∷ [])
unfolding split_to Arc.clone
split_six = refl

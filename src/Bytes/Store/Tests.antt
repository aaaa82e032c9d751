-- ===== src/Bytes/Store/Tests.antt =====
-- A buffer of two blocks: split, the front dropped, the back frozen and copied.
use light_speed_io.Prelude.{
  ℕ, zero, suc, inl, inr, ◌≡◌, ◌≢◌, ◌⊎◌, refl, arith, [], ◌∷◌, none, some, get_elem?, set, ok, err,
  times,
}
use light_speed_io.Arc
use light_speed_io.Bytes.{Alloc, new_inner, from_size_align, is_power_of_two}
use light_speed_io.Bytes.Writable.{AlignedBytesMut, split_to, freeze}
use light_speed_io.Bytes.Writable
use light_speed_io.Bytes.Frozen.{AlignedBytes}
use light_speed_io.Bytes.Store.{
  View, writable, frozen, buf, Store, Reach, start, then_, creates, splits, drops, freezes, clones,
  drop_view,
}
use light_speed_io.Bytes.Store.Apart.{FitsBeside}
use light_speed_io.Bytes.Store.Counted.{IsPlaced}
use light_speed_io.Bytes.Store.Owners.{IsSeen, Reach-IsPlaced, Reach-freed, Reach-freeze}
use light_speed_io.Bytes.Memory.{write_bytes}
use light_speed_io.Bytes.Memory.Beside.{visible, HasBlocksApart, Reach-write_bytes}

abbrev at_64 : Alloc
at_64 layout = some 64

abbrev part : ℕ → ℕ → AlignedBytesMut
part first past = record {
  buf = record {
    id = 0;
    value = record { buf = 64; layout = record { size = 1024; align = 512 } };
  };
  range = record { start = first; end = past };
}

abbrev back : AlignedBytes
back = record { buf = (part 512 1000).buf; range = (part 512 1000).range }

abbrev parted : Store
parted = record {
  views = some (writable (part 512 1000)) ∷ some (writable (part 0 512)) ∷ [];
  counts = 2 ∷ [];
  inners = (part 0 0).buf.value ∷ [];
  freed = [];
}

abbrev copied : Store
copied = record {
  views = some (frozen back) ∷ none ∷ some (frozen back) ∷ [];
  counts = 2 ∷ [];
  inners = (part 0 0).buf.value ∷ [];
  freed = [];
}

parted-Reach : Reach parted
unfolding Writable.new new_inner from_size_align is_power_of_two split_to Arc.clone
parted-Reach =
    then_ (then_ start (creates at_64 1000 512 (part 0 1000) (1 ∷ []) refl))
      (splits 0 512 (part 0 1000) (part 0 512) (part 512 1000) (2 ∷ []) refl refl)

copied-Reach : Reach copied
unfolding drop_view freeze Arc.strong_count Arc.clone Arc.drop
copied-Reach =
    then_
      (then_ (then_ parted-Reach (drops 1 (writable (part 0 512)) refl))
        (freezes 0 (part 512 1000) back refl refl))
      (clones 0 back refl)

Reach-IsPlaced_example :
    IsPlaced copied.inners (frozen back)
    × (times 0 copied.freed ≡ 0)
    × FitsBeside copied.views 2 (frozen back)
Reach-IsPlaced_example = Reach-IsPlaced copied copied-Reach 2 (frozen back) refl

Reach-freed_example :
    (IsSeen copied.views 0 × (times 0 copied.freed ≡ 0))
    ⊎ (((i : ℕ) (v : View) → get_elem? copied.views i ≡ some (some v) → (buf v).id ≢ 0)
        × (times 0 copied.freed ≡ 1))
Reach-freed_example = Reach-freed copied 0 copied-Reach (omega arith)

Reach-freeze_example :
    (((j : ℕ) (w : View) → 0 ≢ j → get_elem? parted.views j ≡ some (some w) → (buf w).id ≢ 0)
      × (freeze (part 512 1000) parted.counts ≡ ok back))
    ⊎ (IsSeen (set parted.views 0 none) 0
        × (freeze (part 512 1000) parted.counts ≡ err (part 512 1000)))
Reach-freeze_example = Reach-freeze parted 0 (part 512 1000) parted-Reach refl

-- A second buffer, at another address.
abbrev beside : AlignedBytesMut
beside = record {
  buf = record {
    id = 1;
    value = record { buf = 4096; layout = record { size = 1024; align = 512 } };
  };
  range = record { start = 0; end = 516 };
}

-- Four bytes of the back of the first, which is written while its front and the second are alive.
abbrev narrow : Store
narrow = record {
  views =
      some (writable (part 512 516)) ∷ some (writable (part 0 512)) ∷ some (writable beside) ∷ [];
  counts = 2 ∷ 1 ∷ [];
  inners = (part 0 0).buf.value ∷ beside.buf.value ∷ [];
  freed = [];
}

narrow-Reach : Reach narrow
unfolding Writable.new new_inner from_size_align is_power_of_two split_to Arc.clone
narrow-Reach =
    then_
      (then_ (then_ start (creates at_64 516 512 (part 0 516) (1 ∷ []) refl))
        (splits 0 512 (part 0 516) (part 0 512) (part 512 516) (2 ∷ []) refl refl))
      (creates (λ layout. some 4096) 516 512 beside (2 ∷ 1 ∷ []) refl)

-- The blocks stand at 64 and at 4096, and each has 1024 bytes.
narrow-HasBlocksApart : HasBlocksApart narrow
narrow-HasBlocksApart zero zero x y ne e f _ _ = absurd (ne refl)
narrow-HasBlocksApart zero (suc zero) x y ne e f _ _ = inl (ground (arith, e, f))
narrow-HasBlocksApart (suc zero) zero x y ne e f _ _ = inr (ground (arith, e, f))
narrow-HasBlocksApart (suc zero) (suc zero) x y ne e f _ _ = absurd (ne refl)
narrow-HasBlocksApart zero (suc (suc b)) x y ne e f _ _ = absurd (cc f)
narrow-HasBlocksApart (suc zero) (suc (suc b)) x y ne e f _ _ = absurd (cc f)
narrow-HasBlocksApart (suc (suc a)) b x y ne e f _ _ = absurd (cc e)

Reach-write_bytes_example :
    (visible (write_bytes 576 (1 ∷ 2 ∷ 3 ∷ 4 ∷ []) (λ a. 9)) (writable (part 512 516))
      ≡ 1 ∷ 2 ∷ 3 ∷ 4 ∷ [])
    × ((j : ℕ) (w : View)
        → 0 ≢ j
        → get_elem? narrow.views j ≡ some (some w)
        → visible (write_bytes 576 (1 ∷ 2 ∷ 3 ∷ 4 ∷ []) (λ a. 9)) w ≡ visible (λ a. 9) w)
Reach-write_bytes_example =
    Reach-write_bytes narrow (λ a. 9) 0 (part 512 516) (1 ∷ 2 ∷ 3 ∷ 4 ∷ []) narrow-Reach
      narrow-HasBlocksApart refl refl

-- ===== src/Threadpool/Stopping/Tests.antt =====
-- The drop of a pool of two threads, one asleep and one that is about to find nothing.
use light_speed_io.Prelude.{◌≤◌, ◌⊎◌, refl, true, false, List, [], ◌∷◌, arith}
use light_speed_io.Threadpool.Stopping.{
  Member, Closing, Turn, Reach, testing, finding, registering, asleep, finds_nothing, wakes, moves,
  unparks, start, then_,
}
use light_speed_io.Threadpool.Stopping.Ending.{AllEnded, drop_ends}

abbrev two : List Member
two = record { stage = asleep; token = false } ∷ record { stage = finding; token = false } ∷ []

-- The first is unparked and wakes, and the second finds nothing meanwhile.
abbrev later : Closing
later = record {
  members =
      record { stage = testing; token = false }
      ∷ record { stage = registering; token = false }
      ∷ [];
  unparked = 1;
}

three_steps : Reach two 3 later
three_steps =
    then_
      (then_
        (then_ start (
          unparks (record { stage = asleep; token = false }) refl
            (λ i e. absurd (omega (arith, e)))))
        (moves 1 (record { stage = finding; token = false })
          (record { stage = registering; token = false }) refl (finds_nothing false)))
      (moves 0 (record { stage = asleep; token = true }) (record { stage = testing; token = false })
        refl wakes)

drop_ends_example : (3 ≤ 12) × (AllEnded 2 later ⊎ ((d : Closing) × Turn later d))
drop_ends_example = drop_ends two three_steps

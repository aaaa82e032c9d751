-- ===== src/Bench/Setup/Tests.antt =====
-- Three files of 2 bytes: one that is there, one that is too long, and one that is missing.
use light_speed_io.Prelude.{ℕ, ℕ_discrete, ◌≡◌, refl, [], ◌∷◌, none, some, ok, List, if◌then◌else◌}
use light_speed_io.Bench.Setup.{
  FileName, filename_discrete, Disk, with_file, Refusals, has_filesize, get_filesize, create_file,
  create_if_necessary, create_files, create_files_if_necessary, new_contents,
}
use light_speed_io.Bench.Setup.Created.{wanted, is_named, create_files_if_necessary_lem}
use light_speed_io.Bench.Setup.Repeated.{create_files_if_necessary_twice}
use light_speed_io.Bench.Setup.Failed.{IsLeft, create_files_if_necessary-IsLeft}

abbrev file : ℕ → FileName
file n = n ∷ []

abbrev names : List FileName
names = file 0 ∷ file 1 ∷ file 2 ∷ []

abbrev before : Disk
before = with_file (file 0) (7 ∷ 8 ∷ []) (with_file (file 1) (7 ∷ 8 ∷ 9 ∷ []) (λ p. none))

abbrev willing : Refusals
willing = record { opening = λ p disk. none; creating = λ p disk. none; writing = λ p disk. none }

-- One byte of room is left on the device.
abbrev full : Refusals
full = record willing { writing = λ p disk. some (1, 28) }

abbrev after : Disk
after = (create_files_if_necessary willing names 2 before).0

after_file :
    (after (file 0) ≡ some (7 ∷ 8 ∷ []))
    × (after (file 1) ≡ some (0 ∷ 1 ∷ []))
    × (after (file 2) ≡ some (0 ∷ 1 ∷ []))
unfolding create_files create_if_necessary has_filesize get_filesize create_file new_contents
    filename_discrete ℕ_discrete
after_file = (refl, refl, refl)

succeeds : create_files_if_necessary willing names 2 before ≡ (after, ok tt)
unfolding create_files create_if_necessary has_filesize get_filesize create_file filename_discrete
    ℕ_discrete
succeeds = refl

create_files_if_necessary_lem_example :
    after (file 1)
    ≡ (if is_named (file 1) names then wanted 2 (before (file 1)) else before (file 1))
create_files_if_necessary_lem_example =
    create_files_if_necessary_lem willing names 2 before after succeeds (file 1)

create_files_if_necessary_twice_example :
    ((create_files_if_necessary willing names 2 before).1 ≡ ok tt)
    × (create_files_if_necessary full names 2 after ≡ (after, ok tt))
create_files_if_necessary_twice_example =
    create_files_if_necessary_twice willing full names 2 before (λ p disk. refl)
      (λ p disk. (refl, refl)) (λ p disk. refl)

left_file : (create_files_if_necessary full names 2 before).0 (file 1) ≡ some (0 ∷ [])
unfolding create_files create_if_necessary has_filesize get_filesize create_file new_contents
    filename_discrete ℕ_discrete
left_file = refl

create_files_if_necessary-IsLeft_example :
    IsLeft 2 (before (file 1)) ((create_files_if_necessary full names 2 before).0 (file 1))
create_files_if_necessary-IsLeft_example =
    create_files_if_necessary-IsLeft full names 2 before (file 1)

-- ===== src/Bench/Setup/Repeated.antt =====
-- When the loop succeeds, and what it does the second time.
use light_speed_io.Prelude.{
  ℕ, ◌≡◌, inl, inr, refl, arith, true, ite, List, [], ◌∷◌, Option, none, some, ok, Option-cases,
  Bool-cases,
}
use light_speed_io.Bench.Setup.{
  FileName, filename_discrete, Disk, with_file, Refusals, has_filesize, get_filesize, create_file,
  create_if_necessary, create_files, create_files_if_necessary, contents_or_new,
}
use light_speed_io.Bench.Setup.Created.{
  is_settled, is_named, is_settled-wanted, create_files_if_necessary_lem,
}

-- The operating system lets every file be opened.
abbrev pub IsReadable : Refusals → Type 0
IsReadable os = (p : FileName) (disk : Disk) → os.opening p disk ≡ none

-- It lets every file be created and written.
abbrev pub IsWritable : Refusals → Type 0
IsWritable os =
    (p : FileName) (disk : Disk) → (os.creating p disk ≡ none) × (os.writing p disk ≡ none)

has_filesize-ok :
    (os : Refusals) (filesize : ℕ) (filename : FileName) (disk : Disk)
    → IsReadable os
    → has_filesize os filesize filename disk ≡ ok (is_settled filesize (disk filename))
unfolding has_filesize get_filesize
has_filesize-ok os filesize filename disk opens = elim (Option-cases (disk filename)) [
  | inl gone ↦ ground (arith, gone)
  | inr (contents, there) ↦ ground (arith, there, opens filename disk)
]

create_file-ok :
    (os : Refusals) (filename : FileName) (contents : List ℕ) (disk : Disk)
    → IsWritable os
    → (create_file os filename contents disk).1 ≡ ok (some contents)
unfolding create_file
create_file-ok os filename contents disk writes =
    ground (arith, writes filename disk, writes filename (with_file filename [] disk))

turn-ok :
    (os : Refusals) (filesize : ℕ) (filename : FileName) (file_contents : Option (List ℕ))
    (disk : Disk)
    → IsReadable os
    → IsWritable os
    → (file_contents' : Option (List ℕ)) × ((create_if_necessary os filesize filename file_contents
          disk).1
        ≡ ok file_contents')
unfolding create_if_necessary
turn-ok os filesize filename file_contents disk opens writes =
    let size = has_filesize-ok os filesize filename disk opens in
    elim (Bool-cases (is_settled filesize (disk filename))) [
      | inl settled ↦ (file_contents, ground (arith, size, settled))
      | inr unsettled ↦
          let contents = contents_or_new filesize file_contents in
          (
            some contents,
            ground (arith, size, unsettled, create_file-ok os filename contents disk writes),
          )
    ]

pub loop-ok :
    (os : Refusals) (filesize : ℕ) (filenames : List FileName) (file_contents : Option (List ℕ))
    (disk : Disk)
    → IsReadable os
    → IsWritable os
    → (create_files os filesize filenames file_contents disk).1 ≡ ok tt
unfolding create_files
loop-ok os filesize [] file_contents disk opens writes = refl
loop-ok os filesize (filename ∷ filenames) file_contents disk opens writes =
    let turn = create_if_necessary os filesize filename file_contents disk in
    let (file_contents', went) = turn-ok os filesize filename file_contents disk opens writes in
    cc (went, loop-ok os filesize filenames file_contents' turn.0 opens writes)

-- Where all files have the right size, the loop changes nothing.
settled_turn :
    (os : Refusals) (filesize : ℕ) (filename : FileName) (file_contents : Option (List ℕ))
    (disk : Disk)
    → IsReadable os
    → is_settled filesize (disk filename) ≡ true
    → create_if_necessary os filesize filename file_contents disk ≡ (disk, ok file_contents)
unfolding create_if_necessary
settled_turn os filesize filename file_contents disk opens settled =
    ground (arith, has_filesize-ok os filesize filename disk opens, settled)

pub named_head :
    (filename : FileName) (filenames : List FileName)
    → is_named filename (filename ∷ filenames) ≡ true
named_head filename filenames =
    elim (filename_discrete filename filename)
      as (λ d. ite d true (is_named filename filenames) ≡ true) [
        | yes e ↦ refl
        | no ne ↦ absurd (ne refl)
      ]

pub named_tail :
    (p filename : FileName) (filenames : List FileName)
    → is_named p filenames ≡ true
    → is_named p (filename ∷ filenames) ≡ true
named_tail p filename filenames h =
    elim (filename_discrete filename p) as (λ d. ite d true (is_named p filenames) ≡ true) [
      | yes e ↦ refl
      | no ne ↦ h
    ]

settled_loop :
    (os : Refusals) (filesize : ℕ) (filenames : List FileName) (file_contents : Option (List ℕ))
    (disk : Disk)
    → IsReadable os
    → ((p : FileName) → is_named p filenames ≡ true → is_settled filesize (disk p) ≡ true)
    → create_files os filesize filenames file_contents disk ≡ (disk, ok tt)
unfolding create_files
settled_loop os filesize [] file_contents disk opens settled = refl
settled_loop os filesize (filename ∷ filenames) file_contents disk opens settled = cc (
  settled_turn os filesize filename file_contents disk opens
      (settled filename (named_head filename filenames)),
  settled_loop os filesize filenames file_contents disk opens
      (λ p h. settled p (named_tail p filename filenames h)),
)

-- If the operating system refuses nothing, `create_files_if_necessary` returns without an error; and
-- a second call, for which files need to be opened only, returns without an error and changes nothing.
pub create_files_if_necessary_twice :
    (os os' : Refusals) (filenames : List FileName) (filesize : ℕ) (disk : Disk)
    → IsReadable os
    → IsWritable os
    → IsReadable os'
    → ((create_files_if_necessary os filenames filesize disk).1 ≡ ok tt)
      × (create_files_if_necessary os' filenames filesize
            (create_files_if_necessary os filenames filesize disk).0
          ≡ ((create_files_if_necessary os filenames filesize disk).0, ok tt))
create_files_if_necessary_twice os os' filenames filesize disk opens writes opens' =
    let first = create_files_if_necessary os filenames filesize disk in
    let done = loop-ok os filesize filenames none disk opens writes in
    let left = create_files_if_necessary_lem os filenames filesize disk first.0 (cc done) in
    (
      done,
      settled_loop os' filesize filenames none first.0 opens'
          (λ p named. ground (arith, left p, named, is_settled-wanted filesize (disk p))),
    )

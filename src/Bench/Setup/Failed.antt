-- ===== src/Bench/Setup/Failed.antt =====
-- What is left on the disk when the operating system refuses something.
use light_speed_io.Prelude.{
  ℕ, ◌≡◌, inl, inr, refl, sym, subst, ap, ◌∙◌, arith, true, false, ite, List, [], ◌∷◌, Option, none,
  some, Option-cases, length,
}
use light_speed_io.Bench.Setup.{
  FileName, filename_discrete, Disk, with_file, take, Refusals, has_filesize, create_file,
  create_if_necessary, create_files, create_files_if_necessary, new_contents, contents_or_new,
}
use light_speed_io.Bench.Setup.Created.{is_settled, Result-cases, has_filesize-settled, turn_lem}

-- A file before and after: unchanged, or of another size than is needed, and now the beginning of the
-- new contents.
pub data IsLeft (filesize : ℕ) (before after : Option (List ℕ)) : Type 0 where
  unchanged : after ≡ before → IsLeft filesize before after
  rewritten :
      (n : ℕ)
      → is_settled filesize before ≡ false
      → after ≡ some (take n (new_contents filesize))
      → IsLeft filesize before after

IsLeft-trans :
    (filesize : ℕ) (a b c : Option (List ℕ))
    → IsLeft filesize a b
    → IsLeft filesize b c
    → IsLeft filesize a c
IsLeft-trans filesize a b c (unchanged e) h = subst (λ x. IsLeft filesize x c) e h
IsLeft-trans filesize a b c (rewritten n u e) (unchanged f) = rewritten n u (f ∙ e)
IsLeft-trans filesize a b c (rewritten n u e) (rewritten m v f) = rewritten m u f

take-length : (xs : List ℕ) → take (length xs) xs ≡ xs
take-length [] = refl
take-length (x ∷ xs) = ap (λ (ys : List ℕ). x ∷ ys) (take-length xs)

IsLeft-with_file :
    (filesize n : ℕ) (filename p : FileName) (contents : List ℕ) (disk disk' : Disk)
    → is_settled filesize (disk filename) ≡ false
    → contents ≡ take n (new_contents filesize)
    → IsLeft filesize (disk p) (disk' p)
    → IsLeft filesize (disk p) (with_file filename contents disk' p)
IsLeft-with_file filesize n filename p contents disk disk' u c h =
    elim (filename_discrete filename p)
      as (λ d. IsLeft filesize (disk p) (ite d (some contents) (disk' p))) [
        | yes e ↦ rewritten n (subst (λ x. is_settled filesize (disk x) ≡ false) e u) (ap some c)
        | no ne ↦ h
      ]

-- Each of the three ways in which `create_file` ends.
IsLeft-create_file :
    (os : Refusals) (filesize : ℕ) (filename p : FileName) (disk : Disk)
    → is_settled filesize (disk filename) ≡ false
    → IsLeft filesize (disk p) ((create_file os filename (new_contents filesize) disk).0 p)
unfolding create_file
IsLeft-create_file os filesize filename p disk u =
    let emptied = IsLeft-with_file filesize 0 filename p [] disk disk u refl (unchanged refl) in
    elim (Option-cases (os.creating filename disk)) [
      | inr (e, refused) ↦ unchanged (ground (arith, refused))
      | inl creates ↦ elim (Option-cases (os.writing filename (with_file filename [] disk))) [
        | inr ((n, e), refused) ↦
            let there : (create_file os filename (new_contents filesize) disk).0
                ≡ with_file filename (take n (new_contents filesize)) (with_file filename [] disk) =
              cc (creates, refused) in
            subst (λ (x : Disk). IsLeft filesize (disk p) (x p)) (sym there)
              (IsLeft-with_file filesize n filename p (take n (new_contents filesize)) disk
                (with_file filename [] disk) u refl emptied)
        | inl writes ↦
            let there : (create_file os filename (new_contents filesize) disk).0
                ≡ with_file filename (new_contents filesize) (with_file filename [] disk) =
              cc (creates, writes) in
            subst (λ (x : Disk). IsLeft filesize (disk p) (x p)) (sym there)
              (IsLeft-with_file filesize (length (new_contents filesize)) filename p
                (new_contents filesize) disk (with_file filename [] disk) u
                (sym (take-length (new_contents filesize))) emptied)
      ]
    ]

IsLeft-turn :
    (os : Refusals) (filesize : ℕ) (filename p : FileName) (file_contents : Option (List ℕ))
    (disk : Disk)
    → contents_or_new filesize file_contents ≡ new_contents filesize
    → IsLeft filesize (disk p) ((create_if_necessary os filesize filename file_contents disk).0 p)
unfolding create_if_necessary
IsLeft-turn os filesize filename p file_contents disk c =
    elim (Result-cases (has_filesize os filesize filename disk)) [
      | inr (e, refused) ↦ unchanged (ground (arith, refused))
      | inl (true, settled) ↦ unchanged (ground (arith, settled))
      | inl (false, unsettled) ↦
          let there : (create_if_necessary os filesize filename file_contents disk).0
              ≡ (create_file os filename (new_contents filesize) disk).0 =
            cc (unsettled, c) in
          subst (λ (x : Disk). IsLeft filesize (disk p) (x p)) (sym there)
            (IsLeft-create_file os filesize filename p disk
              (sym (has_filesize-settled os filesize filename disk false unsettled)))
    ]

IsLeft-loop :
    (os : Refusals) (filesize : ℕ) (filenames : List FileName) (p : FileName)
    (file_contents : Option (List ℕ)) (disk : Disk)
    → contents_or_new filesize file_contents ≡ new_contents filesize
    → IsLeft filesize (disk p) ((create_files os filesize filenames file_contents disk).0 p)
unfolding create_files
IsLeft-loop os filesize [] p file_contents disk c = unchanged refl
IsLeft-loop os filesize (filename ∷ filenames) p file_contents disk c =
    let turn = create_if_necessary os filesize filename file_contents disk in
    let here = IsLeft-turn os filesize filename p file_contents disk c in
    elim (Result-cases turn.1) [
      | inr (e, refused) ↦
          let there : (create_files os filesize (filename ∷ filenames) file_contents disk).0
              ≡ turn.0 =
            cc refused in
          subst (λ (x : Disk). IsLeft filesize (disk p) (x p)) (sym there) here
      | inl (file_contents', went) ↦
          let (c', _) =
            turn_lem os filesize filename file_contents file_contents' disk turn.0 (cc went) c in
          let there : (create_files os filesize (filename ∷ filenames) file_contents disk).0
              ≡ (create_files os filesize filenames file_contents' turn.0).0 =
            cc went in
          subst (λ (x : Disk). IsLeft filesize (disk p) (x p)) (sym there)
            (IsLeft-trans filesize (disk p) (turn.0 p) _ here
              (IsLeft-loop os filesize filenames p file_contents' turn.0 c'))
    ]

-- Whatever the operating system refuses, `create_files_if_necessary` leaves each file as it was, or
-- the file did not have the size that is needed and now holds the first bytes of the new contents.
pub create_files_if_necessary-IsLeft :
    (os : Refusals) (filenames : List FileName) (filesize : ℕ) (disk : Disk) (p : FileName)
    → IsLeft filesize (disk p) ((create_files_if_necessary os filenames filesize disk).0 p)
create_files_if_necessary-IsLeft os filenames filesize disk p =
    IsLeft-loop os filesize filenames p none disk refl

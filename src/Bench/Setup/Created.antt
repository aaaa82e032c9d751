-- ===== src/Bench/Setup/Created.antt =====
-- What the loop leaves on the disk.
use light_speed_io.Prelude.{
  ℕ, ◌≡◌, ◌⊎◌, inl, inr, refl, sym, subst, ap, ◌∙◌, arith, Bool, true, false, ite, ◌==◌,
  if◌then◌else◌, List, [], ◌∷◌, length, Option, none, some, Result, ok, err, Option-cases, map,
  zero, suc, ◌%◌,
}
use light_speed_io.Tracker.{range_from}
use light_speed_io.Bench.Setup.{
  FileName, filename_discrete, Disk, with_file, Refusals, has_filesize, get_filesize, create_file,
  create_if_necessary, create_files, create_files_if_necessary, new_contents, contents_or_new,
}

-- The file has the size that is asked for.
abbrev pub is_settled : ℕ → Option (List ℕ) → Bool
is_settled filesize none = false
is_settled filesize (some contents) = length contents == filesize

-- The file that the benchmark needs in place of one: that file, if it has the right size.
abbrev pub wanted : ℕ → Option (List ℕ) → Option (List ℕ)
wanted filesize file = if is_settled filesize file then file else some (new_contents filesize)

abbrev pub is_named : FileName → List FileName → Bool
is_named p [] = false
is_named p (filename ∷ filenames) = ite (filename_discrete filename p) true (is_named p filenames)

-- A file that was measured is settled, or not.
pub has_filesize-settled :
    (os : Refusals) (filesize : ℕ) (filename : FileName) (disk : Disk) (done : Bool)
    → has_filesize os filesize filename disk ≡ ok done
    → done ≡ is_settled filesize (disk filename)
unfolding has_filesize get_filesize
has_filesize-settled os filesize filename disk done e = elim (Option-cases (disk filename)) [
  | inl gone ↦ ground (arith, gone)
  | inr (contents, there) ↦ elim (Option-cases (os.opening filename disk)) [
    | inl opens ↦ ground (arith, there, opens)
    | inr (n, refused) ↦ absurd (ground (arith, there, refused))
  ]
]

module _ {ℓ κ} {P : Type ℓ} {C : Type κ} where
  ite_twice : (d : Dec P) (a b c : C) → ite d a (ite d b c) ≡ ite d a c
  ite_twice (yes e) a b c = refl
  ite_twice (no ne) a b c = refl

  ite_cong : (d : Dec P) (a b c : C) → (P → a ≡ b) → ite d a c ≡ ite d b c
  ite_cong (yes e) a b c h = h e
  ite_cong (no ne) a b c h = refl

  ite_same : (d : Dec P) (c : C) → c ≡ ite d c c
  ite_same (yes e) c = refl
  ite_same (no ne) c = refl

-- A file that was created holds the contents, and no other has changed.
create_file-with_file :
    (os : Refusals) (filename : FileName) (contents : List ℕ) (disk disk' : Disk)
    (file_contents : Option (List ℕ))
    → create_file os filename contents disk ≡ (disk', ok file_contents)
    → (disk' ≡ with_file filename contents (with_file filename [] disk))
      × (file_contents ≡ some contents)
unfolding create_file
create_file-with_file os filename contents disk disk' file_contents e =
    elim (Option-cases (os.creating filename disk)) [
      | inr (n, refused) ↦ absurd (ground (arith, refused))
      | inl creates ↦ elim (Option-cases (os.writing filename (with_file filename [] disk))) [
        | inr (n, refused) ↦ absurd (ground (arith, creates, refused))
        | inl writes ↦ (cc (e, creates, writes), cc (e, creates, writes))
      ]
    ]

pub Result-cases {ℓ κ} :
    {A : Type ℓ} {E : Type κ} (r : Result A E) → ((a : A) × (r ≡ ok a)) ⊎ ((e : E) × (r ≡ err e))
Result-cases (ok a) = inl (a, refl)
Result-cases (err e) = inr (e, refl)

module _ (os : Refusals) (filesize : ℕ) (filename : FileName) where
  turn_of_settled :
      (disk : Disk) (p : FileName)
      → true ≡ is_settled filesize (disk filename)
      → disk p ≡ ite (filename_discrete filename p) (wanted filesize (disk p)) (disk p)
  turn_of_settled disk p e =
      let d = filename_discrete filename p in
      ite_same d (disk p)
      ∙ ite_cong d (disk p) (wanted filesize (disk p)) (disk p)
          (λ q. subst (λ x. disk x ≡ wanted filesize (disk x)) q (ground (arith, e)))

  turn_of_with_file :
      (disk : Disk) (p : FileName)
      → false ≡ is_settled filesize (disk filename)
      → with_file filename (new_contents filesize) (with_file filename [] disk) p
        ≡ ite (filename_discrete filename p) (wanted filesize (disk p)) (disk p)
  turn_of_with_file disk p e =
      let d = filename_discrete filename p in
      ite_twice d (some (new_contents filesize)) (some []) (disk p)
      ∙ ite_cong d (some (new_contents filesize)) (wanted filesize (disk p)) (disk p) (λ q.
        subst (λ x. some (new_contents filesize) ≡ wanted filesize (disk x)) q (ground (arith, e)))

  -- One turn of the loop puts the file that is needed in place, and leaves all others as they are.
  pub turn_lem :
      (file_contents file_contents' : Option (List ℕ)) (disk disk' : Disk)
      → create_if_necessary os filesize filename file_contents disk ≡ (disk', ok file_contents')
      → contents_or_new filesize file_contents ≡ new_contents filesize
      → (contents_or_new filesize file_contents' ≡ new_contents filesize)
        × ((p : FileName)
            → disk' p ≡ ite (filename_discrete filename p) (wanted filesize (disk p)) (disk p))
  unfolding create_if_necessary
  turn_lem file_contents file_contents' disk disk' e c =
      elim (Result-cases (has_filesize os filesize filename disk)) [
        | inr (n, refused) ↦ absurd (ground (arith, refused))
        | inl (true, settled) ↦
            let same : disk ≡ disk' = cc (e, settled) in
            let kept : file_contents ≡ file_contents' = cc (e, settled) in
            (
              subst (λ x. contents_or_new filesize x ≡ new_contents filesize) kept c,
              (λ p.
                  ap (λ (x : Disk). x p) (sym same)
                  ∙ turn_of_settled disk p
                      (has_filesize-settled os filesize filename disk true settled)),
            )
        | inl (false, unsettled) ↦
            let made : create_file os filename (contents_or_new filesize file_contents) disk
                ≡ (disk', ok file_contents') =
              cc (e, unsettled) in
            let (placed, kept) =
              create_file-with_file os filename (contents_or_new filesize file_contents) disk disk'
                file_contents' made in
            (
              subst (λ x. contents_or_new filesize x ≡ new_contents filesize) (sym kept) c,
              (λ p.
                  ap (λ (x : Disk). x p)
                    (placed
                      ∙ ap (λ (x : List ℕ). with_file filename x (with_file filename [] disk)) c)
                  ∙ turn_of_with_file disk p
                      (has_filesize-settled os filesize filename disk false unsettled)),
            )
      ]

length-contents : (i n : ℕ) → length (map (λ j. j % 256) (range_from i n)) ≡ n
length-contents i zero = refl
length-contents i (suc n) = ap suc (length-contents (suc i) n)

-- A file that the benchmark made is one that it needs.
pub is_settled-wanted :
    (filesize : ℕ) (file : Option (List ℕ)) → is_settled filesize (wanted filesize file) ≡ true
unfolding new_contents
is_settled-wanted filesize none = ground (arith, length-contents 0 filesize)
is_settled-wanted filesize (some contents) = ground (arith, length-contents 0 filesize)

wanted-wanted :
    (filesize : ℕ) (file : Option (List ℕ))
    → wanted filesize (wanted filesize file) ≡ wanted filesize file
wanted-wanted filesize file = ground (arith, is_settled-wanted filesize file)

-- One turn, and those after it.
join_turns {ℓ} :
    {P : Type ℓ} (filesize : ℕ) (d : Dec P) (b : Bool) (x y z : Option (List ℕ))
    → y ≡ ite d (wanted filesize x) x
    → z ≡ (if b then wanted filesize y else y)
    → z ≡ (if ite d true b then wanted filesize x else x)
join_turns filesize (yes e) true x y z h k = k ∙ (ap (wanted filesize) h ∙ wanted-wanted filesize x)
join_turns filesize (yes e) false x y z h k = k ∙ h
join_turns filesize (no ne) true x y z h k = k ∙ ap (wanted filesize) h
join_turns filesize (no ne) false x y z h k = k ∙ h

loop_lem :
    (os : Refusals) (filesize : ℕ) (filenames : List FileName) (file_contents : Option (List ℕ))
    (disk disk' : Disk)
    → create_files os filesize filenames file_contents disk ≡ (disk', ok tt)
    → contents_or_new filesize file_contents ≡ new_contents filesize
    → (p : FileName) → disk' p ≡ (if is_named p filenames then wanted filesize (disk p) else disk p)
unfolding create_files
loop_lem os filesize [] file_contents disk disk' e c p =
    ap (λ (x : Disk × Result (Unit {0}) ℕ). x.0 p) (sym e)
loop_lem os filesize (filename ∷ filenames) file_contents disk disk' e c p =
    let turn = create_if_necessary os filesize filename file_contents disk in
    elim (Result-cases turn.1) [
      | inr (n, refused) ↦ absurd (cc (e, refused))
      | inl (file_contents', went) ↦
          let (c', placed) =
            turn_lem os filesize filename file_contents file_contents' disk turn.0 (cc went) c in
          let rest : create_files os filesize filenames file_contents' turn.0 ≡ (disk', ok tt) =
            cc (e, went) in
          join_turns filesize (filename_discrete filename p) (is_named p filenames) (disk p)
            (turn.0 p) (disk' p) (placed p)
            (loop_lem os filesize filenames file_contents' turn.0 disk' rest c' p)
    ]

pub create_files_if_necessary_lem :
    (os : Refusals) (filenames : List FileName) (filesize : ℕ) (disk disk' : Disk)
    → create_files_if_necessary os filenames filesize disk ≡ (disk', ok tt)
    → (p : FileName) → disk' p ≡ (if is_named p filenames then wanted filesize (disk p) else disk p)
create_files_if_necessary_lem os filenames filesize disk disk' e =
    loop_lem os filesize filenames none disk disk' e refl

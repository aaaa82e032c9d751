-- ===== src/Bench/Setup.antt =====
-- main.rs: the directory and the files that the benchmark reads, on a disk of regular files.
pub mod Created
pub mod Repeated
pub mod Failed
mod Tests
use light_speed_io.Prelude.{
  ℕ, zero, suc, refl, ◌+◌, ◌%◌, ◌≡◌, Bool, true, false, ite, ◌==◌, if◌then◌else◌, List, [], ◌∷◌,
  map, length, Option, none, some, Result, ok, err, ℕ_discrete,
}
use light_speed_io.Tracker.{range_from}

-- A file name, by its bytes.
abbrev pub FileName : Type 0
FileName = List ℕ

same_heads :
    (x y : ℕ) (xs ys : FileName)
    → Dec (x ≡ y)
    → Dec (xs ≡ ys)
    → Dec (◌≡◌ {A = FileName} (x ∷ xs) (y ∷ ys))
same_heads x y xs ys (yes p) (yes q) = yes (cc (p, q))
same_heads x y xs ys (yes p) (no n) = no (λ e. n (cc e))
same_heads x y xs ys (no n) d = no (λ e. n (cc e))

unfoldable pub filename_discrete : (p q : FileName) → Dec (p ≡ q)
unfolding same_heads
filename_discrete [] [] = yes refl
filename_discrete [] (y ∷ ys) = no (λ e. cc e)
filename_discrete (x ∷ xs) [] = no (λ e. cc e)
filename_discrete (x ∷ xs) (y ∷ ys) =
    same_heads x y xs ys (ℕ_discrete x y) (filename_discrete xs ys)

-- The contents of each file that exists.
abbrev pub Disk : Type 0
Disk = FileName → Option (List ℕ)

abbrev pub with_file : FileName → List ℕ → Disk → Disk
with_file filename contents disk p = ite (filename_discrete filename p) (some contents) (disk p)

-- What the operating system refuses, with the error number: to open or to create a file, and a write,
-- of which a part may have been done.
pub record Refusals : Type 0 where
  pub opening : FileName → Disk → Option ℕ
  pub creating : FileName → Disk → Option ℕ
  pub writing : FileName → Disk → Option (ℕ × ℕ)

abbrev pub unless {ℓ} : {A : Type ℓ} → Option ℕ → Result A ℕ → Result A ℕ
unless none r = r
unless (some e) r = err e

abbrev pub exists_ : Option (List ℕ) → Bool
exists_ none = false
exists_ (some contents) = true

-- ENOENT, for a file that is not there.
abbrev pub file_len : Option (List ℕ) → Result ℕ ℕ
file_len none = err 2
file_len (some contents) = ok (length contents)

unfoldable pub get_filesize : Refusals → FileName → Disk → Result ℕ ℕ
get_filesize os filename disk = unless (os.opening filename disk) (file_len (disk filename))

abbrev pub is_size : ℕ → Result ℕ ℕ → Result Bool ℕ
is_size filesize (ok size) = ok (size == filesize)
is_size filesize (err e) = err e

-- `filename.exists() && get_filesize(&filename)? == filesize`
unfoldable pub has_filesize : Refusals → ℕ → FileName → Disk → Result Bool ℕ
has_filesize os filesize filename disk =
    if exists_ (disk filename) then is_size filesize (get_filesize os filename disk) else ok false

abbrev pub take {ℓ} : {A : Type ℓ} → ℕ → List A → List A
take zero xs = []
take (suc n) [] = []
take (suc n) (x ∷ xs) = x ∷ take n xs

-- `?`, in code that changes the disk.
infixl 5 ◌>>=◌
abbrev pub ◌>>=◌ {ℓ κ} :
    {A : Type ℓ} {B : Type κ}
    → Disk × Result A ℕ
    → (Disk × A → Disk × Result B ℕ)
    → Disk × Result B ℕ
(disk, ok a) >>= k = k (disk, a)
(disk, err e) >>= k = (disk, err e)

abbrev pub created : Option ℕ → FileName → Disk → Disk × Result (Unit {0}) ℕ
created none filename disk = (with_file filename [] disk, ok tt)
created (some e) filename disk = (disk, err e)

-- `File::create`: an empty file, in place of one that is there.
abbrev pub create : Refusals → FileName → Disk → Disk × Result (Unit {0}) ℕ
create os filename disk = created (os.creating filename disk) filename disk

abbrev pub written : Option (ℕ × ℕ) → FileName → List ℕ → Disk → Disk × Result (Unit {0}) ℕ
written none filename contents disk = (with_file filename contents disk, ok tt)
written (some (n, e)) filename contents disk = (with_file filename (take n contents) disk, err e)

-- `write_all` to the empty file; `flush` does nothing to a `File`.
abbrev pub write_all : Refusals → FileName → List ℕ → Disk → Disk × Result (Unit {0}) ℕ
write_all os filename contents disk = written (os.writing filename disk) filename contents disk

-- `(0..filesize).map(|i| i as u8)`
unfoldable pub new_contents : ℕ → List ℕ
new_contents filesize = map (λ i. i % 256) (range_from 0 filesize)

-- `file_contents` is made when the first file needs it.
abbrev pub contents_or_new : ℕ → Option (List ℕ) → List ℕ
contents_or_new filesize none = new_contents filesize
contents_or_new filesize (some contents) = contents

unfoldable pub create_file : Refusals → FileName → List ℕ → Disk → Disk × Result (Option (List ℕ)) ℕ
create_file os filename contents disk = do
  (disk, _) ← create os filename disk
  (disk, _) ← write_all os filename contents disk
  (disk, ok (some contents))

-- One turn of the loop, with `file_contents` before and after it.
unfoldable pub create_if_necessary :
    Refusals → ℕ → FileName → Option (List ℕ) → Disk → Disk × Result (Option (List ℕ)) ℕ
create_if_necessary os filesize filename file_contents disk = do
  (disk, done) ← (disk, has_filesize os filesize filename disk)
  if done
      then (disk, ok file_contents)
      else create_file os filename (contents_or_new filesize file_contents) disk

unfoldable pub create_files :
    Refusals → ℕ → List FileName → Option (List ℕ) → Disk → Disk × Result (Unit {0}) ℕ
create_files os filesize [] file_contents disk = (disk, ok tt)
create_files os filesize (filename ∷ filenames) file_contents disk = do
  (disk, file_contents) ← create_if_necessary os filesize filename file_contents disk
  create_files os filesize filenames file_contents disk

abbrev pub create_files_if_necessary :
    Refusals → List FileName → ℕ → Disk → Disk × Result (Unit {0}) ℕ
create_files_if_necessary os filenames filesize disk = create_files os filesize filenames none disk

-- The error of the command line, which ends the program.
pub data Exit : Type 0 where
  not_a_directory : FileName → Exit

unfoldable pub check_directory_or_use_temp_dir :
    (FileName → Bool) → FileName → Option FileName → Result FileName Exit
check_directory_or_use_temp_dir is_dir temp_dir none = ok temp_dir
check_directory_or_use_temp_dir is_dir temp_dir (some directory) =
    if is_dir directory then ok directory else err (not_a_directory directory)

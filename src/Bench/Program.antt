-- ===== src/Bench/Program.antt =====
-- main.rs: `main`, from the arguments that the parser of the command line accepts.
pub mod Complete
mod Tests
use light_speed_io.Prelude.{
  ℕ, zero, suc, ◌+◌, ◌/◌, ◌%◌, Bool, ◌==◌, if◌then◌else◌, List, [], ◌∷◌, ◌++◌, map, Option, Exec,
  Panic, ◌>>=◌, ◌>>◌, assert, Result, ok, err,
}
use light_speed_io.Tracker.{range_from}
use light_speed_io.Ops.State.{Message}
use light_speed_io.IoUring.{IoUring}
use light_speed_io.Bench.{read_files}
use light_speed_io.Bench.Setup.{
  FileName, Disk, Refusals, Exit, check_directory_or_use_temp_dir, create_files_if_necessary,
}

pub record Args : Type 0 where
  pub directory : Option FileName
  pub nrfiles : ℕ
  pub filesize : ℕ
  pub blocksize : Option ℕ
  pub nr_worker_threads : ℕ

-- "lsio_bench_"
abbrev pub filename_prefix : List ℕ
filename_prefix = 108 ∷ 115 ∷ 105 ∷ 111 ∷ 95 ∷ 98 ∷ 101 ∷ 110 ∷ 99 ∷ 104 ∷ 95 ∷ []

-- The decimal digits of a number below 10 ^ fuel, in front of `rest`.
unfoldable pub decimal : ℕ → ℕ → List ℕ → List ℕ
decimal zero n rest = rest
decimal (suc fuel) n rest =
    let digits = (48 + n % 10) ∷ rest in
    let more = decimal fuel (n / 10) digits in if n / 10 == 0 then digits else more

-- `join` puts a slash between the two, unless the directory ends with one or is empty.
abbrev pub join : FileName → FileName → FileName
join [] name = name
join (x ∷ []) name = if x == 47 then x ∷ name else x ∷ 47 ∷ name
join (x ∷ y ∷ directory) name = x ∷ join (y ∷ directory) name

-- `directory.join(format!("{FILENAME_PREFIX}{i}"))`, of a `u32`, which has ten digits at most.
unfoldable pub numbered : FileName → ℕ → FileName
numbered directory i = join directory (filename_prefix ++ decimal 10 i [])

abbrev pub filenames : FileName → ℕ → List FileName
filenames directory nrfiles = map (numbered directory) (range_from 0 nrfiles)

-- How the program ends: by the error of the command line, by an error of `main`, or as the clearing of
-- the page cache and `read_files` do.
pub data Ending : Type 0 where
  exits : Exit → Ending
  fails : Disk → ℕ → Ending
  reads : Disk → Exec (IoUring × List Message × ℕ) → Ending

-- What `main` is given: the directories that there are, the temporary one, what the operating system
-- refuses, the directories on which the program `vmtouch` starts, and what the workers make of the
-- requests.
pub record Machine : Type 0 where
  pub is_dir : FileName → Bool
  pub temp_dir : FileName
  pub os : Refusals
  pub vmtouch_starts : FileName → Bool
  pub arriving : IoUring → List Message

-- It keeps the files as they are. How the other program ends does not matter.
unfoldable pub clear_page_cache : Machine → FileName → Exec (Unit {0})
clear_page_cache machine directory = assert (machine.vmtouch_starts directory) Panic.command_failed

abbrev pub then_read :
    Machine → Args → FileName → List FileName → Disk × Result (Unit {0}) ℕ → Ending
then_read machine args directory names (disk, err e) = fails disk e
then_read machine args directory names (disk, ok _) = reads disk (
    clear_page_cache machine directory
    >> read_files machine.arriving names args.filesize args.blocksize args.nr_worker_threads)

abbrev pub then_create : Machine → Args → Disk → Result FileName Exit → Ending
then_create machine args disk (err exit) = exits exit
then_create machine args disk (ok directory) =
    let names = filenames directory args.nrfiles in
    then_read machine args directory names
      (create_files_if_necessary machine.os names args.filesize disk)

unfoldable pub main : Machine → Args → Disk → Ending
main machine args disk =
    then_create machine args disk
      (check_directory_or_use_temp_dir machine.is_dir machine.temp_dir args.directory)

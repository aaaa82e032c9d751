-- ===== src/Bench/Program/Complete.antt =====
-- A benchmark from its arguments to its results.
use light_speed_io.Prelude.{
  ℕ, zero, suc, ◌+◌, ◌-◌, ◌*◌, ◌/◌, ◌%◌, ◌^◌, ◌<◌, ◌≤◌, ◌≡◌, ◌⊎◌, inl, inr, refl, sym, ap, ◌∙◌,
  subst, arith, Bool, true, false, List, [], ◌∷◌, ◌++◌, map, length, Option, none, some, returns,
  ◌>>◌, ok, ℕ_discrete,
}
use light_speed_io.Tracker.{range_from}
use light_speed_io.Sqe.{OffsetRange}
use light_speed_io.Ops.State.{Message}
use light_speed_io.IoUring.{IoUring, has_nul}
use light_speed_io.Bench.{blocksize_or_filesize, read_files}
use light_speed_io.Bench.Chunks.{Tiles}
use light_speed_io.Bench.Files.{AllClean, requests, read_files_lem}
use light_speed_io.Bench.Setup.{
  FileName, Disk, create_files_if_necessary, check_directory_or_use_temp_dir,
}
use light_speed_io.Bench.Setup.Created.{
  is_settled, is_settled-wanted, is_named, create_files_if_necessary_lem,
}
use light_speed_io.Bench.Setup.Repeated.{IsReadable, IsWritable, named_head, named_tail, loop-ok}
use light_speed_io.Bench.Program.{
  Args, Machine, clear_page_cache, filename_prefix, decimal, join, numbered, filenames, reads,
  then_create, then_read, main,
}

has_nul-append :
    (xs ys : List ℕ) → has_nul xs ≡ false → has_nul ys ≡ false → has_nul (xs ++ ys) ≡ false
has_nul-append [] ys h k = k
has_nul-append (x ∷ xs) ys h k = ground (arith, has_nul-append xs ys)

has_nul-decimal :
    (fuel n : ℕ) (rest : List ℕ) → has_nul rest ≡ false → has_nul (decimal fuel n rest) ≡ false
unfolding decimal
has_nul-decimal zero n rest h = h
has_nul-decimal (suc fuel) n rest h =
    let digits : has_nul ((48 + n % 10) ∷ rest) ≡ false = ground arith in
    ground (arith, digits, has_nul-decimal fuel (n / 10) ((48 + n % 10) ∷ rest) digits)

has_nul-join :
    (directory name : FileName)
    → has_nul directory ≡ false
    → has_nul name ≡ false
    → has_nul (join directory name) ≡ false
has_nul-join [] name h k = k
has_nul-join (x ∷ []) name h k = ground arith
has_nul-join (x ∷ y ∷ directory) name h k = ground (arith, has_nul-join (y ∷ directory) name)

has_nul-numbered :
    (directory : FileName) (i : ℕ)
    → has_nul directory ≡ false
    → has_nul (numbered directory i) ≡ false
unfolding numbered
has_nul-numbered directory i h =
    has_nul-join directory (filename_prefix ++ decimal 10 i []) h
      (has_nul-append filename_prefix (decimal 10 i []) refl (has_nul-decimal 10 i [] refl))

module _ (f : ℕ → FileName) where
  map-AllClean :
      ((i : ℕ) → has_nul (f i) ≡ false) → (first n : ℕ) → AllClean (map f (range_from first n))
  map-AllClean h first zero = tt
  map-AllClean h first (suc n) = (h first, map-AllClean h (suc first) n)

  length-names : (first n : ℕ) → length (map f (range_from first n)) ≡ n
  length-names first zero = refl
  length-names first (suc n) = ap suc (length-names (suc first) n)

  named :
      (first n i : ℕ)
      → first ≤ i
      → i < first + n
      → is_named (f i) (map f (range_from first n)) ≡ true
  named first zero i h k = absurd (omega arith)
  named first (suc n) i h k =
      let names = map f (range_from (suc first) n) in
      elim (ℕ_discrete first i) [
        | yes e ↦
            subst (λ j. is_named (f j) (f first ∷ names) ≡ true) e (named_head (f first) names)
        | no ne ↦
            named_tail (f i) (f first) names
              (named (suc first) n i (omega (arith, ne)) (omega arith))
      ]

directory_found :
    (is_dir : FileName → Bool) (temp_dir : FileName) (given : Option FileName)
    (directory : FileName)
    → ((given ≡ none) × (directory ≡ temp_dir))
      ⊎ ((given ≡ some directory) × (is_dir directory ≡ true))
    → check_directory_or_use_temp_dir is_dir temp_dir given ≡ ok directory
unfolding check_directory_or_use_temp_dir
directory_found is_dir temp_dir given directory (inl (e, same)) = ground (arith, e, same)
directory_found is_dir temp_dir given directory (inr (e, there)) = ground (arith, e, there)

-- If the directory is there, or none is given and the temporary one is taken, if the operating system
-- refuses nothing and `vmtouch` starts, the name of the directory has no zero byte, the file size is below
-- 2^63 and that of all files below 2^64, the block size is not 0, and once there is one request for each
-- file in the global queue, with ranges end to end from 0 to the last whole block, a message arrives in
-- time for each range, then `main` ends with the results: every file that it reads is on the disk and has the size that was asked
-- for, it has put one request for each of them into the global queue, whose ranges lie end to end from 0
-- to the last whole block, and it counts a result for each range of each request.
pub main_lem :
    (machine : Machine) (args : Args) (disk : Disk) (directory : FileName)
    → ((args.directory ≡ none) × (directory ≡ machine.temp_dir))
      ⊎ ((args.directory ≡ some directory) × (machine.is_dir directory ≡ true))
    → has_nul directory ≡ false
    → IsReadable machine.os
    → IsWritable machine.os
    → machine.vmtouch_starts directory ≡ true
    → args.filesize < 2 ^ 63
    → args.filesize * args.nrfiles < 2 ^ 64
    → 0 < blocksize_or_filesize args.blocksize args.filesize
    → ((uring : IoUring) (chunks : List OffsetRange)
        → uring.threadpool.shared.injector
          ≡ requests (filenames directory args.nrfiles) chunks (range_from 0 (length chunks))
        → Tiles
            (blocksize_or_filesize args.blocksize args.filesize)
            0
            chunks
            (args.filesize - args.filesize % blocksize_or_filesize args.blocksize args.filesize)
        → args.nrfiles * length chunks ≤ length (machine.arriving uring))
    → (disk' : Disk) × (uring : IoUring) × (results : List Message) × (reported : ℕ)
      × (chunks : List OffsetRange) × (main machine args disk
          ≡ reads disk' (returns (uring, results, reported)))
      × ((i : ℕ)
          → i < args.nrfiles
          → is_settled args.filesize (disk' (numbered directory i)) ≡ true)
      × (uring.threadpool.shared.injector
          ≡ requests (filenames directory args.nrfiles) chunks (range_from 0 (length chunks)))
      × Tiles
          (blocksize_or_filesize args.blocksize args.filesize)
          0
          chunks
          (args.filesize - args.filesize % blocksize_or_filesize args.blocksize args.filesize)
      × (length results ≡ args.nrfiles * length chunks)
unfolding main clear_page_cache
main_lem machine args disk directory found clean opens writes starts small sum pos enough =
    let names = filenames directory args.nrfiles in
    let count = length-names (numbered directory) 0 args.nrfiles in
    let first = create_files_if_necessary machine.os names args.filesize disk in
    let done : first.1 ≡ ok tt = loop-ok machine.os args.filesize names none disk opens writes in
    let left =
      create_files_if_necessary_lem machine.os names args.filesize disk first.0 (cc done) in
    let (uring, results, reported, chunks, read, queued, tiles, all, _) =
      read_files_lem machine.arriving names args.filesize args.blocksize args.nr_worker_threads
        (map-AllClean (numbered directory) (λ i. has_nul-numbered directory i clean) 0 args.nrfiles)
        small (subst (λ n. args.filesize * n < 2 ^ 64) (sym count) sum) pos
        (λ uring chunks waiting tiles.
          subst (λ n. n * length chunks ≤ length (machine.arriving uring)) (sym count)
            (enough uring chunks waiting tiles)) in
    let there : check_directory_or_use_temp_dir machine.is_dir machine.temp_dir args.directory
        ≡ ok directory =
      directory_found machine.is_dir machine.temp_dir args.directory directory found in
    let cleared : (clear_page_cache machine directory
          >> read_files machine.arriving names args.filesize args.blocksize args.nr_worker_threads)
        ≡ returns (uring, results, reported) =
      simp (starts, read) in
    (
      first.0,
      uring,
      results,
      reported,
      chunks,
      ap (then_create machine args disk) there
          ∙ (ap (λ r. then_read machine args directory names (first.0, r)) done
              ∙ ap (reads first.0) cleared),
      (λ i h. ground (
        arith,
        left (numbered directory i),
        named (numbered directory) 0 args.nrfiles i (omega arith) (omega arith),
        is_settled-wanted args.filesize (disk (numbered directory i)),
      )),
      queued,
      tiles,
      all ∙ ap (λ n. n * length chunks) count,
    )

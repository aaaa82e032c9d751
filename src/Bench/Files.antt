-- ===== src/Bench/Files.antt =====
-- main.rs: what `read_files` asks for, and what it reports.
use light_speed_io.Prelude.{
  ℕ, zero, suc, ◌+◌, ◌-◌, ◌*◌, ◌/◌, ◌%◌, ◌^◌, ◌<◌, ◌≤◌, ◌≡◌, refl, sym, ◌∙◌, ap, subst, arith,
  false, true, ◌⊎◌, dec_lt, List, [], ◌∷◌, ◌++◌, map, length, Option, returns, inl, inr,
}
use mathlib.Core.List.{append-nil, append_assoc}
use native.Mathlib.Nat.{div-le_self, mul-le-mul_left, div-mul-le_self, mod-eq-sub-div-mul}
use light_speed_io.Tracker.{range_from}
use light_speed_io.Tracker.Slots.{length-range_from}
use light_speed_io.Sqe.{OffsetRange}
use light_speed_io.Ops.State.{Operation, Message}
use light_speed_io.Threadpool.Sharing
use light_speed_io.Threadpool.Spawning.{ThreadPool, new}
use light_speed_io.Threadpool.Spawning.Shared.{spawn_lem}
use light_speed_io.IoUring
use light_speed_io.IoUring.{IoUring, get_ranges, has_nul}
use light_speed_io.IoUring.Requests.{request, get_ranges_lem}
use light_speed_io.Bench.{
  submit_all, collect_results, blocksize_or_filesize, spacing, as_f64, read_files,
}
use light_speed_io.Bench.Chunks.{Tiles, calculate_chunks_lem}

abbrev pub AllClean : List (List ℕ) → Type 0
AllClean [] = Unit {0}
AllClean (name ∷ names) = (has_nul name ≡ false) × AllClean names

-- One request for each file, each with the same ranges and numbers.
abbrev pub requests : List (List ℕ) → List OffsetRange → List ℕ → List Operation
requests names ranges user_data =
    map (λ name. Operation.get_ranges (request name ranges user_data)) names

submit_all_lem :
    (names : List (List ℕ)) (ranges : List OffsetRange) (user_data : List ℕ) (uring : IoUring)
    → AllClean names
    → length ranges ≡ length user_data
    → uring.threadpool.shared.manager_is_listening ≡ true
    → (uring' : IoUring) × (submit_all names ranges user_data uring ≡ returns uring')
      × (uring'.threadpool.shared.injector
          ≡ uring.threadpool.shared.injector ++ requests names ranges user_data)
unfolding submit_all
submit_all_lem [] ranges user_data uring clean same listens =
    (uring, refl, sym (append-nil uring.threadpool.shared.injector))
submit_all_lem (name ∷ names) ranges user_data uring (here, clean) same listens =
    elim (get_ranges_lem name ranges user_data uring) [
      | inl (nul, _) ↦ absurd (cc (nul, here))
      | inr (inl (_, differ, _)) ↦ absurd (differ same)
      | inr (inr (inl (_, _, stranded, _))) ↦ absurd (cc (stranded.1, listens))
      | inr (inr (inr (_, _, _, s, made, pushed, _))) ↦
          let (uring', rest, all) =
            submit_all_lem names ranges user_data
              (record uring { threadpool = record (uring.threadpool) { shared = s } }) clean same
              (pushed.listens ∙ listens) in
          (
            uring',
            simp (made, rest),
            all
                ∙ ap (λ l. l ++ requests names ranges user_data) pushed.injector
                ∙ append_assoc uring.threadpool.shared.injector
                    (Operation.get_ranges (request name ranges user_data) ∷ [])
                    (requests names ranges user_data),
          )
    ]

collect_results_lem :
    (n : ℕ) (arriving : List Message)
    → n ≤ length arriving
    → (results : List Message) × (collect_results n arriving ≡ returns results)
      × (length results ≡ n)
unfolding collect_results
collect_results_lem zero arriving h = ([], refl, refl)
collect_results_lem (suc n) [] h = absurd (omega arith)
collect_results_lem (suc n) (m ∷ arriving) h =
    let (results, found, all) = collect_results_lem n arriving (omega arith) in
    (m ∷ results, simp found, ap suc all)

started_lem :
    (n : ℕ)
    → (pool : ThreadPool Operation) × (IoUring.new n
        ≡ returns (record { threadpool = pool; output_rx = [] }))
      × (pool.shared.injector ≡ [])
      × (pool.shared.manager_is_listening ≡ true)
unfolding IoUring.new new
started_lem n =
    let (ws, made, _, _, _) =
      spawn_lem n (range_from 0 n) (range_from 0 n) (length-range_from 0 n) in
    (record { worker_threads = ws; shared = Sharing.new }, simp made, refl, refl)

scaled : (m a b : ℕ) → (a + b) * m ≡ m * a + m * b
scaled m a b = omega arith

-- Doubles hold every whole number below 2^53.
as_f64-small : (n : ℕ) → n < 2 ^ 53 → as_f64 n ≡ n
unfolding as_f64
as_f64-small n h = let e : spacing 11 n ≡ 1 = ground arith in ground (arith, e)

-- Where no path has a zero byte, the file size is below 2^63 and that of all files below 2^64, the block
-- size is not 0, and once there is one request for each file in the global queue, with ranges end to end
-- from 0 to the last whole block, a message arrives in time for each range, `read_files` returns: it has
-- put these requests there, each range with its own number; it counts as many results as there are
-- ranges in all requests; and it reports, rounded to a double, the bytes that it has asked for and the
-- rest of each file after its last whole block, and exactly these below 2^53.
pub read_files_lem :
    (arriving : IoUring → List Message) (names : List (List ℕ)) (filesize : ℕ)
    (blocksize : Option ℕ) (n_worker_threads : ℕ)
    → AllClean names
    → filesize < 2 ^ 63
    → filesize * length names < 2 ^ 64
    → 0 < blocksize_or_filesize blocksize filesize
    → ((uring : IoUring) (chunks : List OffsetRange)
        → uring.threadpool.shared.injector ≡ requests names chunks (range_from 0 (length chunks))
        → Tiles
            (blocksize_or_filesize blocksize filesize)
            0
            chunks
            (filesize - filesize % blocksize_or_filesize blocksize filesize)
        → length names * length chunks ≤ length (arriving uring))
    → (uring : IoUring) × (results : List Message) × (reported : ℕ) × (chunks : List OffsetRange)
      × (read_files arriving names filesize blocksize n_worker_threads
          ≡ returns (uring, results, reported))
      × (uring.threadpool.shared.injector ≡ requests names chunks (range_from 0 (length chunks)))
      × Tiles
          (blocksize_or_filesize blocksize filesize)
          0
          chunks
          (filesize - filesize % blocksize_or_filesize blocksize filesize)
      × (length results ≡ length names * length chunks)
      × let total : ℕ =
          length names * (length chunks * blocksize_or_filesize blocksize filesize)
          + length names * (filesize % blocksize_or_filesize blocksize filesize) in
        (reported ≡ as_f64 total) × ((reported ≡ total) ⊎ (2 ^ 53 ≤ total))
unfolding read_files
read_files_lem arriving names filesize blocksize n_worker_threads clean small sum h enough =
    let b = blocksize_or_filesize blocksize filesize in
    let (chunks, made, tiles, all) = calculate_chunks_lem filesize b h small in
    let (pool, started, fresh, listens) = started_lem n_worker_threads in
    let (uring, submitted, queued) =
      submit_all_lem names chunks (range_from 0 (filesize / b))
        (record { threadpool = pool; output_rx = [] }) clean
        (all ∙ sym (length-range_from 0 (filesize / b))) listens in
    let waiting : uring.threadpool.shared.injector
        ≡ requests names chunks (range_from 0 (length chunks)) =
      queued
      ∙ ap (λ l. l ++ requests names chunks (range_from 0 (filesize / b))) fresh
      ∙ ap (λ n. requests names chunks (range_from 0 n)) (sym all) in
    let (results, collected, count) =
      collect_results_lem (length names * length chunks) (arriving uring)
        (enough uring chunks waiting tiles) in
    let whole : filesize ≡ length chunks * b + filesize % b =
      omega
        (arith, div-mul-le_self filesize b, mod-eq-sub-div-mul filesize b, ap (λ n. n * b) all) in
    let exact : filesize * length names
        ≡ length names * (length chunks * b) + length names * (filesize % b) =
      ap (λ x. x * length names) whole ∙ scaled (length names) (length chunks * b) (filesize % b) in
    let fewer : length names * length chunks < 2 ^ 64 = omega (
      arith,
      mul-le-mul_left (length names) (subst (λ n. n ≤ filesize) (sym all) (div-le_self filesize b)),
    ) in
    (
      uring,
      results,
      as_f64 (filesize * length names),
      chunks,
      ground (arith, made, started, fewer, submitted, collected, sum),
      waiting,
      tiles,
      count,
      (
        ap as_f64 exact,
        elim (dec_lt (filesize * length names) (2 ^ 53)) [
          | yes lt ↦ inl (as_f64-small (filesize * length names) lt ∙ exact)
          | no ge ↦ inr (omega (arith, ge, exact))
        ],
      ),
    )

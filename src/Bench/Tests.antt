-- ===== src/Bench/Tests.antt =====
-- The benchmark on two files of 5000 bytes in blocks of 2048, where every read is answered.
use light_speed_io.Prelude.{
  ℕ, ◌+◌, ◌-◌, ◌*◌, ◌^◌, ◌≤◌, ◌≡◌, ◌⊎◌, ap, refl, arith, List, [], ◌∷◌, length, some, ok, returns,
}
use light_speed_io.Tracker.{range_from}
use light_speed_io.Tracker.Slots.{length-range_from}
use light_speed_io.Sqe.{OffsetRange}
use light_speed_io.Ops.State.{Operation, Message}
use light_speed_io.Ops.Sample.{sample_buffer}
use light_speed_io.IoUring.{IoUring}
use light_speed_io.Bench.{as_f64, read_files}
use light_speed_io.Bench.Chunks.{Tiles}
use light_speed_io.Bench.Files.{requests, read_files_lem}

abbrev names : List (List ℕ)
names = (97 ∷ []) ∷ (98 ∷ []) ∷ []

-- Every read is answered: one message for each number that is asked for.
abbrev answers : List ℕ → List Message → List Message
answers [] rest = rest
answers (u ∷ us) rest = ok (record { buffer = sample_buffer; user_data = u }) ∷ answers us rest

abbrev all_answers : List Operation → List Message
all_answers [] = []
all_answers (Operation.get_ranges s ∷ ops) = answers s.user_data (all_answers ops)
all_answers (Operation.get_range s ∷ ops) = all_answers ops
all_answers (Operation.close s ∷ ops) = all_answers ops

abbrev pub arriving : IoUring → List Message
arriving uring = all_answers uring.threadpool.shared.injector

length-answers :
    (us : List ℕ) (rest : List Message) → length (answers us rest) ≡ length us + length rest
length-answers [] rest = omega arith
length-answers (u ∷ us) rest = omega (arith, length-answers us rest)

length-all_answers :
    (files : List (List ℕ)) (ranges : List OffsetRange) (user_data : List ℕ)
    → length (all_answers (requests files ranges user_data)) ≡ length files * length user_data
length-all_answers [] ranges user_data = omega arith
length-all_answers (file ∷ files) ranges user_data = omega (
  arith,
  length-answers user_data (all_answers (requests files ranges user_data)),
  length-all_answers files ranges user_data,
)

pub answered :
    (files : List (List ℕ)) (uring : IoUring) (chunks : List OffsetRange)
    → uring.threadpool.shared.injector ≡ requests files chunks (range_from 0 (length chunks))
    → length files * length chunks ≤ length (arriving uring)
answered files uring chunks e = omega (
  arith,
  ap (λ ops. length (all_answers ops)) e,
  length-all_answers files chunks (range_from 0 (length chunks)),
  ap (λ n. length files * n) (length-range_from 0 (length chunks)),
)

-- Where two doubles are as near, the even one is taken.
rounded : (as_f64 (2 ^ 53 + 1) ≡ 2 ^ 53) × (as_f64 (2 ^ 53 + 3) ≡ 2 ^ 53 + 4)
unfolding as_f64
rounded = (refl, refl)

largest : as_f64 (2 ^ 64 - 1) ≡ 2 ^ 64
unfolding as_f64
largest = refl

read_files_lem_example :
    (uring : IoUring) × (results : List Message) × (reported : ℕ) × (chunks : List OffsetRange)
    × (read_files arriving names 5000 (some 2048) 4 ≡ returns (uring, results, reported))
    × (uring.threadpool.shared.injector ≡ requests names chunks (range_from 0 (length chunks)))
    × Tiles 2048 0 chunks 4096
    × (length results ≡ 2 * length chunks)
    × let total : ℕ = 2 * (length chunks * 2048) + 2 * 904 in
      (reported ≡ as_f64 total) × ((reported ≡ total) ⊎ (2 ^ 53 ≤ total))
read_files_lem_example =
    read_files_lem arriving names 5000 (some 2048) 4 (refl, (refl, tt)) (omega arith) (omega arith)
      (omega arith) (λ uring chunks waiting tiles. answered names uring chunks waiting)

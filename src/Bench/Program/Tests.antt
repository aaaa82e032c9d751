-- ===== src/Bench/Program/Tests.antt =====
-- Two files of 5000 bytes in blocks of 2048, in the temporary directory.
use light_speed_io.Prelude.{
  ℕ, ◌*◌, ◌<◌, ◌≡◌, true, false, inl, refl, arith, List, [], ◌∷◌, length, none, some, returns,
}
use light_speed_io.Tracker.{range_from}
use light_speed_io.Sqe.{OffsetRange}
use light_speed_io.Ops.State.{Message}
use light_speed_io.IoUring.{IoUring}
use light_speed_io.Bench.Chunks.{Tiles}
use light_speed_io.Bench.Files.{requests}
use light_speed_io.Bench.Tests.{arriving, answered}
use light_speed_io.Bench.Setup.{FileName, Disk, Refusals}
use light_speed_io.Bench.Setup.Created.{is_settled}
use light_speed_io.Bench.Program.{Args, Machine, decimal, numbered, filenames, reads, main}
use light_speed_io.Bench.Program.Complete.{main_lem}

-- "/tmp/lsio_bench_12"
twelfth :
    numbered (47 ∷ 116 ∷ 109 ∷ 112 ∷ []) 12
    ≡ 47 ∷ 116 ∷ 109 ∷ 112 ∷ 47 ∷ 108 ∷ 115 ∷ 105 ∷ 111 ∷ 95 ∷ 98 ∷ 101 ∷ 110 ∷ 99 ∷ 104 ∷ 95 ∷ 49
      ∷ 50 ∷ []
unfolding numbered decimal
twelfth = refl

abbrev tmp : FileName
tmp = 47 ∷ 116 ∷ 109 ∷ 112 ∷ []

abbrev args : Args
args = record {
  directory = none;
  nrfiles = 2;
  filesize = 5000;
  blocksize = some 2048;
  nr_worker_threads = 4;
}

abbrev willing : Refusals
willing = record { opening = λ p disk. none; creating = λ p disk. none; writing = λ p disk. none }

abbrev nothing_there : Disk
nothing_there p = none

abbrev machine : Machine
machine = record {
  is_dir = λ p. false;
  temp_dir = tmp;
  os = willing;
  vmtouch_starts = λ p. true;
  arriving = arriving;
}

main_lem_example :
    (disk' : Disk) × (uring : IoUring) × (results : List Message) × (reported : ℕ) × (chunks : List
      OffsetRange)
    × (main machine args nothing_there ≡ reads disk' (returns (uring, results, reported)))
    × ((i : ℕ) → i < 2 → is_settled 5000 (disk' (numbered tmp i)) ≡ true)
    × (uring.threadpool.shared.injector
        ≡ requests (filenames tmp 2) chunks (range_from 0 (length chunks)))
    × Tiles 2048 0 chunks 4096
    × (length results ≡ 2 * length chunks)
main_lem_example =
    main_lem machine args nothing_there tmp (inl (refl, refl)) refl (λ p disk. refl)
      (λ p disk. (refl, refl)) refl (omega arith) (omega arith) (omega arith)
      (λ uring chunks waiting tiles. answered (filenames tmp 2) uring chunks waiting)

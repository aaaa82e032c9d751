-- ===== src/IoUring/Tests.antt =====
-- Requests to a pool in which a thread is parked.
use light_speed_io.Prelude.{
  ℕ, ◌≡◌, ◌≢◌, ◌⊎◌, true, false, List, [], ◌∷◌, length, returns, panics, Panic,
}
use light_speed_io.Ops.State.{Operation, GetRanges}
use light_speed_io.Ops.Submitted.{IsFresh}
use light_speed_io.Ops.Sample.{whole_file}
use light_speed_io.Threadpool.State.{SharedState}
use light_speed_io.Threadpool.Sharing
use light_speed_io.IoUring.{IoUring, get_ranges, has_nul}
use light_speed_io.IoUring.Requests.{IsStranded, IsPushed, request, get_ranges_lem}

abbrev parked : IoUring
parked = record {
  threadpool = record {
    worker_threads = [];
    shared = record (Sharing.new) { at_least_one_thread_is_parked = true };
  };
  output_rx = [];
}

-- `/f`, and one number for its one range.
abbrev path : List ℕ
path = 47 ∷ 102 ∷ []

abbrev numbers : List ℕ
numbers = 9 ∷ []

abbrev asked : GetRanges
asked = request path (whole_file ∷ []) numbers

get_ranges_lem_example :
    ((has_nul path ≡ true)
      × (get_ranges path (whole_file ∷ []) numbers parked ≡ panics Panic.nul_in_path))
    ⊎ (((has_nul path ≡ false)
          × (length (whole_file ∷ []) ≢ length numbers)
          × (get_ranges path (whole_file ∷ []) numbers parked ≡ panics Panic.length_mismatch))
        ⊎ (((has_nul path ≡ false)
              × (length (whole_file ∷ []) ≡ length numbers)
              × IsStranded parked.threadpool.shared
              × (get_ranges path (whole_file ∷ []) numbers parked ≡ panics Panic.manager_is_gone))
            ⊎ ((has_nul path ≡ false)
                × (length (whole_file ∷ []) ≡ length numbers)
                × (¬ IsStranded parked.threadpool.shared)
                × (s : SharedState Operation) × (get_ranges path (whole_file ∷ []) numbers parked
                    ≡ returns
                        (record parked { threadpool = record (parked.threadpool) { shared = s } }))
                × IsPushed (Operation.get_ranges asked) parked.threadpool.shared s
                × IsFresh (Operation.get_ranges asked))))
get_ranges_lem_example = get_ranges_lem path (whole_file ∷ []) numbers parked

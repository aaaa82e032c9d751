-- ===== src/Threadpool/Spawning/Tests.antt =====
-- A pool of three threads.
use light_speed_io.Prelude.{ℕ, ◌≡◌, refl, returns, [], ◌∷◌}
use light_speed_io.Tracker.{range_from}
use light_speed_io.Threadpool.Sharing
use light_speed_io.Threadpool.Spawning.{new, spawn}

-- The last queue goes to the first thread.
three_threads :
    new {T = ℕ} 3
    ≡ returns (record {
      worker_threads =
          record { local_queue = 2; stealers = range_from 0 3 }
          ∷ record { local_queue = 1; stealers = range_from 0 3 }
          ∷ record { local_queue = 0; stealers = range_from 0 3 }
          ∷ [];
      shared = Sharing.new;
    })
unfolding new spawn
three_threads = refl

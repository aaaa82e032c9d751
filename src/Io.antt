-- ===== src/Io.antt =====
-- crates/lsio_io/src/lib.rs: the traits that a backend implements, and what they promise.
pub mod Asked
use light_speed_io.Prelude.{ℕ, ◌≡◌, List, [], ◌∷◌, ◌++◌, length, Exec, returns}
use light_speed_io.Sqe.{OffsetRange}
use light_speed_io.Ops.State.{Message}

-- `trait Completion`: the channel, as what has come through it.
pub record Completion (B : Type 0) : Type 0 where
  pub completion : B → List Message

-- `trait Reader`. A path is its bytes.
pub record Reader (B : Type 0) : Type 0 where
  pub get_ranges : List ℕ → List OffsetRange → List ℕ → B → Exec B

-- One request of the user.
pub record Request : Type 0 where
  pub location : List ℕ
  pub ranges : List OffsetRange
  pub user_data : List ℕ

-- What a backend promises while it works, of the paths that it accepts: a request with one number for
-- each range is taken in, behind those before it, it goes on working, and nothing comes through the
-- channel at once.
pub record IsBackend {B : Type 0} (c : Completion B) (r : Reader B) : Type 1 where
  pub Accepts : List ℕ → Type 0
  pub IsWorking : B → Type 0
  pub asked : B → List Request
  pub asked-get_ranges :
      (location : List ℕ) (ranges : List OffsetRange) (user_data : List ℕ) (b : B)
      → IsWorking b
      → Accepts location
      → length ranges ≡ length user_data
      → (b' : B) × (r.get_ranges location ranges user_data b ≡ returns b')
        × (asked b'
            ≡ asked b
              ++ (record { location = location; ranges = ranges; user_data = user_data } ∷ []))
        × (c.completion b' ≡ c.completion b)
        × IsWorking b'

-- ===== src/Tracker.antt =====
-- crates/lsio_uring/src/tracker.rs: the operations in flight of one thread, under reusable indices.
pub mod Slots
pub mod Invariant
pub mod Refines
pub mod Runs
mod UnitTests
mod Tests
use light_speed_io.Prelude.{
  ℕ, zero, suc, ◌+◌, ◌-◌, Bool, true, false, not, List, [], ◌∷◌, ◌++◌, Option, none, some, Exec,
  Panic, ◌>>=◌, ◌>>◌, assert, unwrap, returns, panics, ltb, ◌==◌, if◌then◌else◌, length, get_elem?,
  set, replicate,
}

-- The deque stands with its front first.
pub record Tracker {ℓ} (T : Type ℓ) : Type ℓ where
  pub ops_in_flight : List (Option T)
  pub next_index : List ℕ
  pub len : ℕ

-- `n` numbers from `i` on.
abbrev pub range_from : ℕ → ℕ → List ℕ
range_from i zero = []
range_from i (suc n) = i ∷ range_from (suc i) n

-- `Vec` indexing: a slot, or a panic beyond the end.
abbrev pub slot_at {ℓ} : {T : Type ℓ} → List (Option T) → ℕ → Exec (Option T)
slot_at slots i = unwrap (get_elem? slots i) Panic.index_out_of_bounds

-- Over the parameters of one tracker.
module _ {ℓ} {T : Type ℓ} where
  unfoldable pub new : ℕ → Tracker T
  new n = record { ops_in_flight = replicate n none; next_index = range_from 0 n; len = 0 }

  pop_front : List ℕ → Tracker T → Option ℕ × Tracker T
  pop_front [] t = (none, t)
  pop_front (i ∷ rest) t = (some i, record t { next_index = rest })

  unfoldable pub get_next_index : Tracker T → Option ℕ × Tracker T
  unfolding pop_front
  get_next_index t = pop_front t.next_index t

  -- The value that stood in the slot, if any, is dropped.
  unfoldable pub put : ℕ → T → Tracker T → Exec (Tracker T)
  put index op t = do
    _ ← slot_at t.ops_in_flight index
    returns (record t { ops_in_flight = set t.ops_in_flight index (some op); len = t.len + 1 })

  -- A guard is the index of an occupied slot; the tracker is borrowed with it.
  unfoldable pub get : ℕ → Tracker T → Exec (Option ℕ)
  get index t = do
    slot ← slot_at t.ops_in_flight index
    returns (elim slot [ none ↦ none | some _ ↦ some index ])

  abbrev pub is_empty : Tracker T → Bool
  is_empty t = t.len == 0

  abbrev pub is_full : Tracker T → Bool
  is_full t = elim t.next_index [ [] ↦ true | _ ∷ _ ↦ false ]

  -- The methods of `TrackerGuard`. `as_mut` reads the slot; `replace` and `store` write it.
  unfoldable pub as_mut : ℕ → Tracker T → Exec T
  as_mut index t = do slot ← slot_at t.ops_in_flight index; unwrap slot Panic.slot_is_empty

  unfoldable pub remove : ℕ → Tracker T → Exec (T × Tracker T)
  remove index t = do
    let queued = t.next_index ++ (index ∷ [])
    assert (not (t.len == 0)) Panic.subtract_overflow
    slot ← slot_at t.ops_in_flight index
    op ← unwrap slot Panic.slot_is_empty
    returns (
      op,
      record {
        ops_in_flight = set t.ops_in_flight index none;
        next_index = queued;
        len = t.len - 1;
      },
    )

  unfoldable pub replace : ℕ → T → Tracker T → Exec (Tracker T)
  replace index op t = do
    _ ← slot_at t.ops_in_flight index
    returns (record t { ops_in_flight = set t.ops_in_flight index (some op) })

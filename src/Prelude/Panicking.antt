-- ===== src/Prelude/Panicking.antt =====
-- Code that may panic, and Rust's `Result`.
use mathlib.Core.Path.{◌≡◌, refl}
use mathlib.Core.Logic.{◌⊎◌, inl, inr}
use mathlib.Core.Bool.{Bool, true, false}
use mathlib.Core.Option.{Option, none, some}

-- One name for each `panic!`, `assert!`, `unwrap` and `expect` that the modelled code reaches.
pub data Panic : Type 0 where
  index_too_big : Panic
  zero_length : Panic
  bad_layout : Panic
  alloc_failed : Panic
  empty_slice : Panic
  slice_out_of_bounds : Panic
  index_out_of_bounds : Panic
  slot_is_empty : Panic
  subtract_overflow : Panic
  no_free_index : Panic
  size_too_big : Panic
  negative_start : Panic
  negative_end : Panic
  nothing_to_read : Panic
  read_too_long : Panic
  split_failed : Panic
  freeze_failed : Panic
  range_too_long : Panic
  unrecognised_opcode : Panic
  buffer_is_taken : Panic
  builder_is_taken : Panic
  builder_not_ready : Panic
  length_mismatch : Panic
  too_many_cqes : Panic
  channel_disconnected : Panic
  submission_queue_full : Panic
  operations_in_flight : Panic
  already_parked : Panic
  nul_in_path : Panic
  nothing_received : Panic
  add_overflow : Panic
  nothing_to_pop : Panic
  divide_by_zero : Panic
  manager_is_gone : Panic
  manager_panicked : Panic
  command_failed : Panic
  submit_failed : Panic

pub data Exec {ℓ} (A : Type ℓ) : Type ℓ where
  returns : A → Exec A
  panics : Panic → Exec A

-- `abbrev`, so that `returns a >>= f` computes wherever it stands.
infixl 5 ◌>>=◌ ◌>>◌
abbrev pub ◌>>=◌ {ℓ κ} : {A : Type ℓ} {B : Type κ} → Exec A → (A → Exec B) → Exec B
returns a >>= f = f a
panics p >>= f = panics p

abbrev pub ◌>>◌ {ℓ} : {B : Type ℓ} → Exec (Unit {0}) → Exec B → Exec B
m >> k = m >>= λ _. k

-- `assert!(b)`
abbrev pub assert : Bool → Panic → Exec (Unit {0})
assert true p = returns tt
assert false p = panics p

-- `Option::unwrap` and `Option::expect`
abbrev pub unwrap {ℓ} : {A : Type ℓ} → Option A → Panic → Exec A
unwrap none p = panics p
unwrap (some a) p = returns a

pub Exec-cases {ℓ} :
    {A : Type ℓ} (m : Exec A) → ((a : A) × (m ≡ returns a)) ⊎ ((p : Panic) × (m ≡ panics p))
Exec-cases (returns a) = inl (a, refl)
Exec-cases (panics p) = inr (p, refl)

-- One call has one outcome.
pub returns_unique {ℓ} : {A : Type ℓ} {m : Exec A} {a b : A} → m ≡ returns a → m ≡ returns b → a ≡ b
returns_unique p q = cc

pub returns_or_panics {ℓ} :
    {A : Type ℓ} {m : Exec A} {a : A} (p : Panic) → m ≡ returns a → m ≡ panics p → ⊥
returns_or_panics p e f = cc

pub data Result {ℓ κ} (A : Type ℓ) (E : Type κ) : Type (ℓ ⊔ κ) where
  ok : A → Result A E
  err : E → Result A E

-- `Result::unwrap`
abbrev pub unwrap_ok {ℓ κ} : {A : Type ℓ} {E : Type κ} → Result A E → Panic → Exec A
unwrap_ok (ok a) p = returns a
unwrap_ok (err e) p = panics p

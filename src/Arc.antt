-- ===== src/Arc.antt =====
-- `std::sync::Arc`, as the crates use it: a shared immutable value with a count of its owners.
-- A handle names its allocation by an index into a list of counts, which the code threads.
pub mod Laws
use light_speed_io.Prelude.{ℕ, suc, ◌+◌, ◌-◌, List, [], ◌∷◌, ◌++◌, length, get_or, set}

pub record Arc {ℓ} (A : Type ℓ) : Type ℓ where
  pub id : ℕ
  pub value : A

abbrev pub Counts : Type 0
Counts = List ℕ

unfoldable pub strong_count {ℓ} : {A : Type ℓ} → Arc A → Counts → ℕ
strong_count a c = get_or c a.id 0

-- `Arc::new`: the one owner of a new allocation.
abbrev pub new {ℓ} : {A : Type ℓ} → A → Counts → Arc A × Counts
new v c = (record { id = length c; value = v }, c ++ (1 ∷ []))

-- `Arc::clone`: the handle is copied, and its allocation has one owner more.
unfoldable pub clone {ℓ} : {A : Type ℓ} → Arc A → Counts → Counts
clone a c = set c a.id (get_or c a.id 0 + 1)

-- The end of a handle's life.
unfoldable pub drop {ℓ} : {A : Type ℓ} → Arc A → Counts → Counts
drop a c = set c a.id (get_or c a.id 0 - 1)

-- ===== src/Tracker/Refines.antt =====
-- A tracker is a partial map from indices to operations, of bounded size. The calls are composed as
-- `UringWorker::run` composes them.
use light_speed_io.Prelude.{
  ℕ, zero, suc, ◌+◌, ◌≤◌, ◌<◌, ◌≡◌, inl, inr, refl, arith, List, [], ◌∷◌, Option, none, some, Exec,
  ◌>>=◌, returns, panics, Panic, get_elem?_of_le, ◌==◌, if◌then◌else◌, length, get_elem?, set,
  length-set, get_elem?-set_self, get_elem?-set_ne, lt_of_get_elem?, get_elem?_of_lt, ℕ_discrete,
  replicate,
}
use light_speed_io.Tracker.{Tracker, new, get_next_index, put, get, remove, replace}
use light_speed_io.Tracker.Invariant.{
  Inv, filled, vacated, swapped, get_next_index_cases, put-Inv, remove-Inv, replace-Inv,
  reserved_slot,
}
use light_speed_io.Tracker.Slots.{occupied, occupied-set-none}

module _ {ℓ} {T : Type ℓ} where
  abbrev pub flat : Option (Option T) → Option T
  flat none = none
  flat (some x) = x

  -- The abstract view: which operation is in flight under an index.
  abbrev pub lookup : Tracker T → ℕ → Option T
  lookup t i = flat (get_elem? t.ops_in_flight i)

  abbrev pub capacity : Tracker T → ℕ
  capacity t = length t.ops_in_flight

  -- Take an index and `put` an operation there, or leave all as it is where no index is free.
  unfoldable pub begin : T → Tracker T → Exec (Option ℕ × Tracker T)
  begin op t =
      let (next, t') = get_next_index t in
      elim next [
        | none ↦ returns (none, t')
        | some i ↦ put i op t' >>= λ t''. returns (some i, t'')
      ]

  -- `get` an operation and `remove` it.
  unfoldable pub finish : ℕ → Tracker T → Exec (Option T × Tracker T)
  finish i t = do
    guard ← get i t
    elim guard [
      | none ↦ returns (none, t)
      | some g ↦ remove g t >>= λ (op, t'). returns (some op, t')
    ]

  -- `get` an operation and `replace` it.
  unfoldable pub change : ℕ → T → Tracker T → Exec (Tracker T)
  change i op t = do guard ← get i t; elim guard [ none ↦ returns t | some g ↦ replace g op t ]

  pub lookup-set :
      (slots : List (Option T)) (i a : ℕ) (x : Option T)
      → i < length slots
      → flat (get_elem? (set slots i x) a) ≡ (if i == a then x else flat (get_elem? slots a))
  lookup-set slots i a x h = elim (ℕ_discrete i a) [
    | yes e ↦ ground (arith, get_elem?-set_self slots i x h)
    | no ne ↦ ground (arith, get_elem?-set_ne slots i a x ne)
  ]

  -- The outcome of `begin`: refused where every slot is in use, or a new entry under an index that
  -- was not in use.
  pub data Begun (op : T) (t : Tracker T) (r : Exec (Option ℕ × Tracker T)) : Type ℓ where
    refused : r ≡ returns (none, t) → t.len ≡ capacity t → Begun op t r
    entered :
        (i : ℕ) (t' : Tracker T)
        → r ≡ returns (some i, t')
        → Inv [] t'
        → i < capacity t
        → lookup t i ≡ none
        → ((a : ℕ) → lookup t' a ≡ (if i == a then some op else lookup t a))
        → t'.len ≡ t.len + 1
        → capacity t' ≡ capacity t
        → Begun op t r

  -- Under the invariant `begin` never panics: it enters the operation under an unused index, changes no
  -- other and keeps the invariant, or refuses where every index is in use and changes nothing.
  pub begin-Begun : (op : T) (t : Tracker T) → Inv [] t → Begun op t (begin op t)
  unfolding begin
  begin-Begun op t v = elim (get_next_index_cases [] t v) [
    | inl (q, e) ↦ refused (rw (e, begin, e)) (ground (arith, v.complete))
    | inr (i, rest, q, e, v') ↦
        let u = record t { next_index = rest } in
        entered i (filled i op u) (rw (e, begin, e, (put-Inv [] i u v' op).0))
          (put-Inv [] i u v' op).1 (lt_of_get_elem? t.ops_in_flight i (reserved_slot [] i u v'))
          (rw (reserved_slot [] i u v'))
          (λ a.
            lookup-set t.ops_in_flight i a (some op)
              (lt_of_get_elem? t.ops_in_flight i (reserved_slot [] i u v')))
          refl (length-set t.ops_in_flight i (some op))
  ]

  -- Under the invariant `finish` at an index in use returns its operation and frees the index, changes
  -- no other and keeps the invariant.
  pub finish_lem :
      (i : ℕ) (op : T) (t : Tracker T)
      → Inv [] t
      → lookup t i ≡ some op
      → (t' : Tracker T) × (finish i t ≡ returns (some op, t'))
        × Inv [] t'
        × ((a : ℕ) → lookup t' a ≡ (if i == a then none else lookup t a))
        × (t'.len + 1 ≡ t.len)
        × (capacity t' ≡ capacity t)
  unfolding finish get
  finish_lem i op t v e =
      let slot : get_elem? t.ops_in_flight i ≡ some (some op) = ground arith in
      let h = remove-Inv [] t v i op slot in
      (
        vacated i t,
        rw (slot, finish, get, h.0),
        h.1,
        λ a. lookup-set t.ops_in_flight i a none (lt_of_get_elem? t.ops_in_flight i slot),
        omega (arith, v.counted, occupied-set-none t.ops_in_flight i op slot),
        length-set t.ops_in_flight i none,
      )

  -- Under the invariant `change` at an index in use replaces its operation, changes no other and keeps
  -- the invariant.
  pub change_lem :
      (i : ℕ) (op op' : T) (t : Tracker T)
      → Inv [] t
      → lookup t i ≡ some op
      → (t' : Tracker T) × (change i op' t ≡ returns t')
        × Inv [] t'
        × ((a : ℕ) → lookup t' a ≡ (if i == a then some op' else lookup t a))
        × (t'.len ≡ t.len)
        × (capacity t' ≡ capacity t)
  unfolding change get
  change_lem i op op' t v e =
      let slot : get_elem? t.ops_in_flight i ≡ some (some op) = ground arith in
      let h = replace-Inv [] t v i op op' slot in
      (
        swapped i op' t,
        rw (slot, change, get, h.0),
        h.1,
        λ a. lookup-set t.ops_in_flight i a (some op') (lt_of_get_elem? t.ops_in_flight i slot),
        refl,
        length-set t.ops_in_flight i (some op'),
      )

  -- At an index that is not in use, neither does anything.
  pub not_in_use :
      (i : ℕ) (t : Tracker T)
      → i < capacity t
      → lookup t i ≡ none
      → (finish i t ≡ returns (none, t)) × ((op : T) → change i op t ≡ returns t)
  unfolding finish change get
  not_in_use i t h e =
      let (x, s) = get_elem?_of_lt t.ops_in_flight i h in
      let slot : get_elem? t.ops_in_flight i ≡ some none = ground arith in
      (rw (slot, finish, get), λ op. rw (slot, change, get))

  -- `get` beyond the last slot panics.
  pub get-panics :
      (i : ℕ) (t : Tracker T) → capacity t ≤ i → get i t ≡ panics Panic.index_out_of_bounds
  unfolding get
  get-panics i t h = rw (get_elem?_of_le t.ops_in_flight i h)

  occupied-le : (slots : List (Option T)) → occupied slots ≤ length slots
  occupied-le [] = omega arith
  occupied-le (none ∷ slots) = omega (arith, occupied-le slots)
  occupied-le (some _ ∷ slots) = omega (arith, occupied-le slots)

module _ {ℓ} (T : Type ℓ) where
  lookup-replicate : (n i : ℕ) → flat (get_elem? (replicate {A = Option T} n none) i) ≡ none
  lookup-replicate zero i = refl
  lookup-replicate (suc n) zero = refl
  lookup-replicate (suc n) (suc i) = lookup-replicate n i

  pub lookup-new : (n i : ℕ) → lookup (new {T = T} n) i ≡ none
  unfolding new
  lookup-new n i = lookup-replicate n i

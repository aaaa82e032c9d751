-- ===== src/Tracker/Invariant.antt =====
-- tracker.rs: the invariant of a tracker, and each method under it.
use light_speed_io.Prelude.{
  replicate, ℕ, ◌+◌, ◌-◌, ◌≤◌, ◌<◌, ◌≡◌, ◌⊎◌, inl, inr, refl, sym, subst, arith, List, [], ◌∷◌,
  ◌++◌, Option, none, some, returns, ◌==◌, if◌then◌else◌, length, get_elem?, set, times,
  times-append, length-set, length-append, get_elem?-set_self, get_elem?-set_ne, lt_of_get_elem?,
  ℕ_discrete,
}
use light_speed_io.Tracker.{
  Tracker, new, get_next_index, put, get, as_mut, remove, replace, range_from, pop_front,
}
use light_speed_io.Tracker.Slots.{
  length-range_from, vacancy, vacant, occupied, occupied-set-some, occupied-set_same,
  occupied-set-none, vacant-replicate, occupied-replicate, length-replicate,
}

module _ {ℓ} {T : Type ℓ} where
  -- `reserved` holds the indices that were handed out and are not yet `put`.
  pub record Inv (reserved : List ℕ) (t : Tracker T) : Type 0 where
    pub free : (i : ℕ) → times i t.next_index + times i reserved ≡ vacant t.ops_in_flight i
    pub counted : t.len ≡ occupied t.ops_in_flight
    pub complete : length t.next_index + length reserved + t.len ≡ length t.ops_in_flight

module _ {ℓ} (T : Type ℓ) where
  pub length-new : (n : ℕ) → length (new {T = T} n).ops_in_flight ≡ n
  unfolding new
  length-new n = length-replicate T n

  -- A tracker of `n` slots starts with all of them free.
  pub new-Inv : (n : ℕ) → Inv [] (new {T = T} n)
  unfolding new
  new-Inv n = record {
    free = λ i.
        let e : times i (range_from 0 n) ≡ vacant (replicate {A = Option T} n none) i =
          vacant-replicate T i i n 0 (omega arith) in
        omega (arith, e);
    counted = omega (arith, occupied-replicate T n);
    complete = omega (arith, length-range_from 0 n, length-replicate T n);
  }

module _ {ℓ} {T : Type ℓ} where
  -- The vacancy of a slot after a write, and before it.
  vacant-set :
      (slots : List (Option T)) (i a : ℕ) (x : Option T)
      → i < length slots
      → vacant (set slots i x) a ≡ (if i == a then vacancy (some x) else vacant slots a)
  vacant-set slots i a x h = elim (ℕ_discrete i a) [
    | yes e ↦ ground (arith, get_elem?-set_self slots i x h)
    | no ne ↦ ground (arith, get_elem?-set_ne slots i a x ne)
  ]

  slot_of_vacant :
      (slots : List (Option T)) (i : ℕ) → 1 ≤ vacant slots i → get_elem? slots i ≡ some none
  slot_of_vacant slots i h = ground arith

  -- The tracker after each write.
  abbrev pub filled : ℕ → T → Tracker T → Tracker T
  filled i op t = record t { ops_in_flight = set t.ops_in_flight i (some op); len = t.len + 1 }

  abbrev pub vacated : ℕ → Tracker T → Tracker T
  vacated i t = record {
    ops_in_flight = set t.ops_in_flight i none;
    next_index = t.next_index ++ (i ∷ []);
    len = t.len - 1;
  }

  abbrev pub swapped : ℕ → T → Tracker T → Tracker T
  swapped i op t = record t { ops_in_flight = set t.ops_in_flight i (some op) }

  pub get_lem :
      (i : ℕ) (op : T) (t : Tracker T)
      → get_elem? t.ops_in_flight i ≡ some (some op)
      → get i t ≡ returns (some i)
  unfolding get
  get_lem i op t e = rw e

  pub as_mut_lem :
      (i : ℕ) (op : T) (t : Tracker T)
      → get_elem? t.ops_in_flight i ≡ some (some op)
      → as_mut i t ≡ returns op
  unfolding as_mut
  as_mut_lem i op t e = rw e

  put_lem :
      (i : ℕ) (op : T) (t : Tracker T) (x : Option T)
      → get_elem? t.ops_in_flight i ≡ some x
      → put i op t ≡ returns (filled i op t)
  unfolding put
  put_lem i op t x e = rw e

  remove_lem :
      (i : ℕ) (op : T) (t : Tracker T)
      → get_elem? t.ops_in_flight i ≡ some (some op)
      → 0 < t.len
      → remove i t ≡ returns (op, vacated i t)
  unfolding remove
  remove_lem i op t e h = ground arith

  replace_lem :
      (i : ℕ) (op : T) (t : Tracker T) (x : Option T)
      → get_elem? t.ops_in_flight i ≡ some x
      → replace i op t ≡ returns (swapped i op t)
  unfolding replace
  replace_lem i op t x e = rw e

module _ {ℓ} {T : Type ℓ} (reserved : List ℕ) (t : Tracker T) (v : Inv reserved t) where
  -- Either no index is queued, or the front one is handed out.
  pub get_next_index_cases :
      ((t.next_index ≡ []) × (get_next_index t ≡ (none, t)))
      ⊎ ((i : ℕ) × (rest : List ℕ) × (t.next_index ≡ i ∷ rest)
          × (get_next_index t ≡ (some i, record t { next_index = rest }))
          × Inv (i ∷ reserved) (record t { next_index = rest }))
  unfolding get_next_index
  get_next_index_cases = go t.next_index refl
    where
      go :
          (q : List ℕ)
          → t.next_index ≡ q
          → ((t.next_index ≡ []) × (pop_front t.next_index t ≡ (none, t)))
            ⊎ ((i : ℕ) × (rest : List ℕ) × (t.next_index ≡ i ∷ rest)
                × (pop_front t.next_index t ≡ (some i, record t { next_index = rest }))
                × Inv (i ∷ reserved) (record t { next_index = rest }))
      go [] e = inl (e, rw (e, pop_front))
      go (i ∷ rest) e = inr (
        i,
        rest,
        e,
        subst (λ q. pop_front q t ≡ (some i, record t { next_index = rest })) (sym e) refl,
        record {
          free = λ a. ground (arith, v.free a);
          counted = v.counted;
          complete = ground (arith, v.complete);
        },
      )

  -- Taking an operation out of its slot returns it and queues its index.
  pub remove-Inv :
      (i : ℕ) (op : T)
      → get_elem? t.ops_in_flight i ≡ some (some op)
      → (remove i t ≡ returns (op, vacated i t)) × Inv reserved (vacated i t)
  remove-Inv i op e = (
    remove_lem i op t e (omega (arith, v.counted, occupied-set-none t.ops_in_flight i op e)),
    record {
      free = λ a. ground (
        arith,
        v.free a,
        times-append a t.next_index (i ∷ []),
        vacant-set t.ops_in_flight i a none (lt_of_get_elem? t.ops_in_flight i e),
      );
      counted = omega (arith, v.counted, occupied-set-none t.ops_in_flight i op e);
      complete = omega (
        arith,
        v.complete,
        v.counted,
        occupied-set-none t.ops_in_flight i op e,
        length-append t.next_index (i ∷ []),
        length-set t.ops_in_flight i none,
      );
    },
  )

  -- A new operation in an occupied slot changes nothing else.
  pub replace-Inv :
      (i : ℕ) (op op' : T)
      → get_elem? t.ops_in_flight i ≡ some (some op)
      → (replace i op' t ≡ returns (swapped i op' t)) × Inv reserved (swapped i op' t)
  replace-Inv i op op' e = (
    replace_lem i op' t (some op) e,
    record {
      free = λ a. ground (
        arith,
        v.free a,
        vacant-set t.ops_in_flight i a (some op') (lt_of_get_elem? t.ops_in_flight i e),
      );
      counted = omega (arith, v.counted, occupied-set_same t.ops_in_flight i op op' e);
      complete = omega (arith, v.complete, length-set t.ops_in_flight i (some op'));
    },
  )

module _ {ℓ} {T : Type ℓ} (reserved : List ℕ) (i : ℕ) (t : Tracker T)
    (v : Inv (i ∷ reserved) t) where
  pub reserved_slot : get_elem? t.ops_in_flight i ≡ some none
  reserved_slot = slot_of_vacant t.ops_in_flight i (ground (arith, v.free i))

  -- `put` at an index that was handed out finds the slot empty, and uses the index up.
  pub put-Inv : (op : T) → (put i op t ≡ returns (filled i op t)) × Inv reserved (filled i op t)
  put-Inv op = (
    put_lem i op t none reserved_slot,
    record {
      free = λ a. ground (
        arith,
        v.free a,
        vacant-set t.ops_in_flight i a (some op) (lt_of_get_elem? t.ops_in_flight i reserved_slot),
      );
      counted = omega (arith, v.counted, occupied-set-some t.ops_in_flight i op reserved_slot);
      complete = omega (arith, v.complete, length-set t.ops_in_flight i (some op));
    },
  )

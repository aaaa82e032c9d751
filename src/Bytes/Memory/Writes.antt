-- ===== src/Bytes/Memory/Writes.antt =====
-- What is read after a write, there and elsewhere.
use light_speed_io.Prelude.{
  ℕ, zero, suc, ◌+◌, ◌<◌, ◌≤◌, ◌≡◌, ◌⊎◌, inl, inr, refl, arith, List, [], ◌∷◌, length, ◌∙◌,
}
use light_speed_io.Bytes.Memory.{Memory, store, write_bytes, fill}
use light_speed_io.Bytes.Frozen.{bytes_at}

-- `a` is not one of the `n` addresses from `ptr` on.
abbrev pub Outside : ℕ → ℕ → ℕ → Type 0
Outside a ptr n = (a < ptr) ⊎ (ptr + n ≤ a)

store_self : (ptr x : ℕ) (m : Memory) → store ptr x m ptr ≡ x
unfolding store
store_self ptr x m = ground arith

store-Outside : (ptr x n : ℕ) (m : Memory) (a : ℕ) → Outside a ptr (suc n) → store ptr x m a ≡ m a
unfolding store
store-Outside ptr x n m a (inl h) = ground arith
store-Outside ptr x n m a (inr h) = ground arith

Outside-next : (a ptr n : ℕ) → Outside a ptr (suc n) → Outside a (ptr + 1) n
Outside-next a ptr n (inl h) = inl (omega arith)
Outside-next a ptr n (inr h) = inr (omega arith)

pub write_bytes-Outside :
    (ptr : ℕ) (xs : List ℕ) (m : Memory) (a : ℕ)
    → Outside a ptr (length xs)
    → write_bytes ptr xs m a ≡ m a
write_bytes-Outside ptr [] m a h = refl
write_bytes-Outside ptr (x ∷ xs) m a h =
    write_bytes-Outside (ptr + 1) xs (store ptr x m) a (Outside-next a ptr (length xs) h)
    ∙ store-Outside ptr x (length xs) m a h

pub fill-Outside :
    (p q : ℕ) (xs : List ℕ) (m : Memory) (a : ℕ)
    → Outside a p (length xs)
    → Outside a q (length xs)
    → fill p q xs m a ≡ m a
unfolding fill
fill-Outside p q [] m a h k = refl
fill-Outside p q (x ∷ xs) m a h k =
    fill-Outside (p + 1) (q + 1) xs (store q x (store p x m)) a (Outside-next a p (length xs) h)
      (Outside-next a q (length xs) k)
    ∙ (store-Outside q x (length xs) (store p x m) a k ∙ store-Outside p x (length xs) m a h)

-- What stands in a block depends on that block only.
pub bytes_at_cong :
    (m m' : Memory) (ptr n : ℕ)
    → ((a : ℕ) → ptr ≤ a → a < ptr + n → m a ≡ m' a)
    → bytes_at m ptr n ≡ bytes_at m' ptr n
bytes_at_cong m m' ptr zero h = refl
bytes_at_cong m m' ptr (suc n) h = cc (
  h ptr (omega arith) (omega arith),
  bytes_at_cong m m' (ptr + 1) n (λ a l u. h a (omega arith) (omega arith)),
)

-- A write is read back, and leaves the blocks beside it as they are.
pub bytes_at-write_bytes :
    (ptr : ℕ) (xs : List ℕ) (m : Memory) → bytes_at (write_bytes ptr xs m) ptr (length xs) ≡ xs
bytes_at-write_bytes ptr [] m = refl
bytes_at-write_bytes ptr (x ∷ xs) m = cc (
  write_bytes-Outside (ptr + 1) xs (store ptr x m) ptr (inl (omega arith)),
  store_self ptr x m,
  bytes_at-write_bytes (ptr + 1) xs (store ptr x m),
)

pub bytes_at-write_bytes_beside :
    (ptr : ℕ) (xs : List ℕ) (m : Memory) (q n : ℕ)
    → (q + n ≤ ptr) ⊎ (ptr + length xs ≤ q)
    → bytes_at (write_bytes ptr xs m) q n ≡ bytes_at m q n
bytes_at-write_bytes_beside ptr xs m q n (inl h) =
    bytes_at_cong (write_bytes ptr xs m) m q n
      (λ a l u. write_bytes-Outside ptr xs m a (inl (omega arith)))
bytes_at-write_bytes_beside ptr xs m q n (inr h) =
    bytes_at_cong (write_bytes ptr xs m) m q n
      (λ a l u. write_bytes-Outside ptr xs m a (inr (omega arith)))

-- The first round of the loop writes `x` through both pointers, and no later round writes there.
fill_first :
    (p q x : ℕ) (xs : List ℕ) (m : Memory) (a : ℕ)
    → (a ≡ p) ⊎ (a ≡ q)
    → Outside a (p + 1) (length xs)
    → Outside a (q + 1) (length xs)
    → fill p q (x ∷ xs) m a ≡ x
unfolding store fill
fill_first p q x xs m a one h k =
    fill-Outside (p + 1) (q + 1) xs (store q x (store p x m)) a h k ∙ ground (arith, one)

pub bytes_at-fill :
    (p q : ℕ) (xs : List ℕ) (m : Memory)
    → (p + length xs ≤ q) ⊎ (q + length xs ≤ p)
    → (bytes_at (fill p q xs m) p (length xs) ≡ xs) × (bytes_at (fill p q xs m) q (length xs) ≡ xs)
unfolding fill
bytes_at-fill p q [] m h = (refl, refl)
bytes_at-fill p q (x ∷ xs) m (inl h) =
    let (front, back) =
      bytes_at-fill (p + 1) (q + 1) xs (store q x (store p x m)) (inl (omega arith)) in
    (
      cc (fill_first p q x xs m p (inl refl) (inl (omega arith)) (inl (omega arith)), front),
      cc (fill_first p q x xs m q (inr refl) (inr (omega arith)) (inl (omega arith)), back),
    )
bytes_at-fill p q (x ∷ xs) m (inr h) =
    let (front, back) =
      bytes_at-fill (p + 1) (q + 1) xs (store q x (store p x m)) (inr (omega arith)) in
    (
      cc (fill_first p q x xs m p (inl refl) (inl (omega arith)) (inr (omega arith)), front),
      cc (fill_first p q x xs m q (inr refl) (inl (omega arith)) (inl (omega arith)), back),
    )

-- ===== src/Threadpool/Spawning/Shared.antt =====
-- threadpool.rs: which queues the threads of a new pool have.
use light_speed_io.Prelude.{
  ℕ, zero, suc, ◌+◌, ◌<◌, ◌≤◌, ℕ_discrete, ◌≡◌, refl, ◌∙◌, ap, arith, List, [], ◌∷◌, ◌++◌, map,
  length, length-append, times, times-append, some, returns,
}
use light_speed_io.Tracker.{range_from}
use light_speed_io.Tracker.Slots.{length-range_from, times-range_from}
use light_speed_io.Threadpool.Sharing
use light_speed_io.Threadpool.Spawning.{WorkerThread, ThreadPool, pop_last, spawn, new}

-- A list that is not empty is what stands before its last element, and that.
pop_last_lem :
    (x : ℕ) (xs : List ℕ)
    → (last : ℕ) × (front : List ℕ) × (pop_last (x ∷ xs) ≡ some (last, front))
      × (x ∷ xs ≡ front ++ (last ∷ []))
pop_last_lem x [] = (x, [], refl, refl)
pop_last_lem x (y ∷ ys) =
    let (last, front, e, split) = pop_last_lem y ys in
    (last, x ∷ front, simp e, ap (λ l. x ∷ l) split)

-- Every thread can steal from every queue.
abbrev pub AllSteal : List ℕ → List WorkerThread → Type 0
AllSteal stealers [] = Unit {0}
AllSteal stealers (w ∷ ws) = (w.stealers ≡ stealers) × AllSteal stealers ws

abbrev pub own_queues : List WorkerThread → List ℕ
own_queues = map (λ (w : WorkerThread). w.local_queue)

pub spawn_lem :
    (n : ℕ) (queues stealers : List ℕ)
    → length queues ≡ n
    → (ws : List WorkerThread) × (spawn n queues stealers ≡ returns ws)
      × AllSteal stealers ws
      × ((i : ℕ) → times i (own_queues ws) ≡ times i queues)
      × (length ws ≡ n)
unfolding spawn
spawn_lem zero [] stealers e = ([], refl, tt, λ i. refl, refl)
spawn_lem zero (x ∷ queues) stealers e = absurd (omega (arith, e))
spawn_lem (suc n) [] stealers e = absurd (omega (arith, e))
spawn_lem (suc n) (x ∷ xs) stealers e =
    let (last, front, popped, split) = pop_last_lem x xs in
    let size : length front ≡ n =
      omega (arith, e, ap length split, length-append front (last ∷ [])) in
    let (ws, made, all, own, count) = spawn_lem n front stealers size in
    (
      record { local_queue = last; stealers = stealers } ∷ ws,
      simp (popped, made),
      (refl, all),
      λ i. ground (arith, own i, ap (times i) split, times-append i front (last ∷ [])),
      ap suc count,
    )

times-range_in : (i a n : ℕ) → a ≤ i → i < a + n → times i (range_from a n) ≡ 1
times-range_in i a zero h k = absurd (omega arith)
times-range_in i a (suc n) h k = elim (ℕ_discrete a i) [
  | yes e ↦ ground (arith, e, times-range_from i (suc a) n (omega (arith, e)))
  | no ne ↦ ground (arith, ne, times-range_in i (suc a) n (omega (arith, ne)) (omega arith))
]

-- A pool of n threads is made without a panic: it has n threads, each of the n queues is the own queue
-- of exactly one of them, and every thread can steal from all n queues.
pub new_lem :
    {T : Type 0} (n : ℕ)
    → (pool : ThreadPool T) × (new {T = T} n ≡ returns pool)
      × (length pool.worker_threads ≡ n)
      × ((i : ℕ) → i < n → times i (own_queues pool.worker_threads) ≡ 1)
      × AllSteal (range_from 0 n) pool.worker_threads
unfolding new
new_lem n =
    let (ws, made, all, own, count) =
      spawn_lem n (range_from 0 n) (range_from 0 n) (length-range_from 0 n) in
    (
      record { worker_threads = ws; shared = Sharing.new },
      simp made,
      count,
      λ i h. own i ∙ times-range_in i 0 n (omega arith) (omega arith),
      all,
    )

-- ===== src/Tracker/Runs.antt =====
-- tracker.rs: theorems about sequences of calls.
use light_speed_io.Prelude.{
  ℕ, ◌<◌, ◌≡◌, inl, inr, refl, ◌∙◌, arith, List, [], ◌∷◌, Exec, ◌>>=◌, returns, Option-cases,
}
use light_speed_io.Tracker.{Tracker, new}
use light_speed_io.Tracker.Invariant.{Inv, new-Inv}
use light_speed_io.Tracker.Slots.{length-replicate}
use light_speed_io.Tracker.Refines.{
  lookup, capacity, begin, finish, change, Begun, refused, entered, begin-Begun, finish_lem,
  change_lem, not_in_use,
}

-- The calls of the tracker, as the worker composes them: an index with `put` at it, `get` with
-- `remove`, and `get` with `replace`.
pub data Call {ℓ} (T : Type ℓ) : Type ℓ where
  begins : T → Call T
  finishes : ℕ → Call T
  changes : ℕ → T → Call T

abbrev pub InRange {ℓ} : {T : Type ℓ} → ℕ → List (Call T) → Type 0
InRange n [] = Unit {0}
InRange n (begins _ ∷ calls) = InRange n calls
InRange n (finishes i ∷ calls) = (i < n) × InRange n calls
InRange n (changes i _ ∷ calls) = (i < n) × InRange n calls

module _ {ℓ} {T : Type ℓ} where
  unfoldable pub step : Call T → Tracker T → Exec (Tracker T)
  step (begins op) t = begin op t >>= λ (_, t'). returns t'
  step (finishes i) t = finish i t >>= λ (_, t'). returns t'
  step (changes i op) t = change i op t

  unfoldable pub run : List (Call T) → Tracker T → Exec (Tracker T)
  unfolding step
  run [] t = returns t
  run (c ∷ calls) t = step c t >>= run calls

  abbrev Kept : ℕ → Exec (Tracker T) → Type ℓ
  Kept n r = (t : Tracker T) × (r ≡ returns t) × Inv [] t × (capacity t ≡ n)

  step-Kept :
      (n : ℕ) (c : Call T) (t : Tracker T)
      → Inv [] t
      → capacity t ≡ n
      → InRange n (c ∷ [])
      → Kept n (step c t)
  unfolding step
  step-Kept n (begins op) t v e r = go (begin-Begun op t v)
    where
      go : Begun op t (begin op t) → Kept n (step (begins op) t)
      go (refused q full) = (t, rw q, v, e)
      go (entered i t' q v' lt new others more same) = (t', rw q, v', same ∙ e)
  step-Kept n (finishes i) t v e r = elim (Option-cases (lookup t i)) [
    | inl free ↦ (t, rw (not_in_use i t (omega arith) free).0, v, e)
    | inr (op, used) ↦
        let (t', q, v', others, fewer, same) = finish_lem i op t v used in (t', rw q, v', same ∙ e)
  ]
  step-Kept n (changes i op) t v e r = elim (Option-cases (lookup t i)) [
    | inl free ↦ (t, (not_in_use i t (omega arith) free).1 op, v, e)
    | inr (old, used) ↦
        let (t', q, v', others, fewer, same) = change_lem i old op t v used in (t', q, v', same ∙ e)
  ]

  run-Kept :
      (n : ℕ) (calls : List (Call T)) (t : Tracker T)
      → Inv [] t
      → capacity t ≡ n
      → InRange n calls
      → Kept n (run calls t)
  unfolding run
  run-Kept n [] t v e r = (t, refl, v, e)
  run-Kept n (begins op ∷ calls) t v e r =
      let (t', q, v', e') = step-Kept n (begins op) t v e tt in rw q (run-Kept n calls t' v' e' r)
  run-Kept n (finishes i ∷ calls) t v e r =
      let (t', q, v', e') = step-Kept n (finishes i) t v e (r.0, tt) in
      rw q (run-Kept n calls t' v' e' r.1)
  run-Kept n (changes i op ∷ calls) t v e r =
      let (t', q, v', e') = step-Kept n (changes i op) t v e (r.0, tt) in
      rw q (run-Kept n calls t' v' e' r.1)

  -- From a new tracker no sequence of the composed calls, an index with `put` at it, `get` with
  -- `remove`, `get` with `replace`, at indices below its size, panics, and the invariant
  -- holds after it.
  pub run-new-Inv :
      (n : ℕ) (calls : List (Call T))
      → InRange n calls
      → (t : Tracker T) × (run calls (new n) ≡ returns t) × Inv [] t × (capacity t ≡ n)
  unfolding new
  run-new-Inv n calls r = run-Kept n calls (new n) (new-Inv T n) (length-replicate T n) r

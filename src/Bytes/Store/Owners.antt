-- ===== src/Bytes/Store/Owners.antt =====
-- When a buffer is given back, and when its view can be frozen.
use light_speed_io.Prelude.{
  ℕ, ◌<◌, ◌≡◌, ◌≢◌, ◌⊎◌, inl, inr, refl, arith, List, Option, none, some, get_elem?, set, length,
  times, ap, ◌∙◌, le-total, add-le-total, total, total-set, total-cases, ok, err,
}
use light_speed_io.Arc
use light_speed_io.Bytes.Writable.{AlignedBytesMut, freeze}
use light_speed_io.Bytes.Store.{View, writable, buf, Store, Reach}
use light_speed_io.Bytes.Store.Apart.{FitsBeside}
use light_speed_io.Bytes.Store.Counted.{owns, IsPlaced, counts-pos}
use light_speed_io.Bytes.Store.Safe.{Reach-IsSafe}

-- A slot holds a view of buffer `id`.
pub record IsSeen (views : List (Option View)) (id : ℕ) : Type 0 where
  pub slot : ℕ
  pub view : View
  pub there : get_elem? views slot ≡ some (some view)
  pub same : (buf view).id ≡ id

owns-pos :
    (id : ℕ) (v : Option View) → 0 < owns id v → (w : View) × ((v ≡ some w) × ((buf w).id ≡ id))
owns-pos id none h = absurd (omega arith)
owns-pos id (some w) h = (w, (refl, ground arith))

owned-cases : (views : List (Option View)) (id : ℕ) → (total (owns id) views ≡ 0) ⊎ IsSeen views id
owned-cases views id = elim (total-cases (owns id) views) [
  | inl none_there ↦ inl none_there
  | inr (i, (x, (there, pos))) ↦
      let (w, (here, same)) = owns-pos id x pos in
      inr (record { slot = i; view = w; there = there ∙ ap some here; same = same })
]

-- No view sees a buffer that has no count.
unseen :
    (views : List (Option View)) (id : ℕ)
    → total (owns id) views ≡ 0
    → (i : ℕ) (v : View) → get_elem? views i ≡ some (some v)
    → (buf v).id ≢ id
unseen views id e i v there same =
    absurd (ground (arith, e, same, le-total (owns id) views i (some v) there))

-- In every store that a program can reach, each view stands in a buffer that was allocated under its
-- number and was not given back, its range lies within that buffer, and every other view of the same
-- buffer may live beside it: either both are frozen, or both are writable and their bytes differ.
pub Reach-IsPlaced :
    (s : Store)
    → Reach s
    → (i : ℕ) (v : View) → get_elem? s.views i ≡ some (some v)
    → IsPlaced s.inners v × (times (buf v).id s.freed ≡ 0) × FitsBeside s.views i v
Reach-IsPlaced s r i v here =
    let k = Reach-IsSafe r in
    (
      k.counted.placed i v here,
      ground (arith, k.counted.gone (buf v).id, counts-pos s k.counted i v here),
      k.apart i v here,
    )

-- In every store that a program can reach, each buffer that was allocated is either still seen by a
-- view and was never given back, or no view sees it and it was given back exactly once.
pub Reach-freed :
    (s : Store) (id : ℕ)
    → Reach s
    → id < length s.inners
    → (IsSeen s.views id × (times id s.freed ≡ 0))
      ⊎ (((i : ℕ) (v : View) → get_elem? s.views i ≡ some (some v) → (buf v).id ≢ id)
          × (times id s.freed ≡ 1))
Reach-freed s id r h =
    let k = (Reach-IsSafe r).counted in
    elim (owned-cases s.views id) [
      | inl e ↦ inr (unseen s.views id e, ground (arith, k.gone id, k.owned id, k.sized))
      | inr seen ↦ inl (
        seen,
        ground (
          arith,
          k.gone id,
          k.sized,
          k.owned id,
          seen.same,
          counts-pos s k seen.slot seen.view seen.there,
        ),
      )
    ]

-- In every store that a program can reach, `freeze` of a writable view gives a frozen view of the same
-- bytes if no other view sees its buffer, and gives the view back if another does.
pub Reach-freeze :
    (s : Store) (i : ℕ) (self : AlignedBytesMut)
    → Reach s
    → get_elem? s.views i ≡ some (some (writable self))
    → (((j : ℕ) (w : View) → i ≢ j → get_elem? s.views j ≡ some (some w) → (buf w).id ≢ self.buf.id)
        × (freeze self s.counts ≡ ok (record { buf = self.buf; range = self.range })))
      ⊎ (IsSeen (set s.views i none) self.buf.id × (freeze self s.counts ≡ err self))
unfolding freeze Arc.strong_count
Reach-freeze s i self r here =
    let k = (Reach-IsSafe r).counted in
    let id = self.buf.id in
    let rest = total-set (owns id) s.views i (some (writable self)) none here in
    elim (owned-cases (set s.views i none) id) [
      | inl e ↦ inl (
        (λ j w ne there same. absurd (
            ground (
              arith,
              e,
              rest,
              same,
              add-le-total (owns id) s.views i j (some (writable self)) (some w) ne here there,
            ))),
        ground (arith, e, rest, k.owned id),
      )
      | inr seen ↦ inr (
        seen,
        ground (
          arith,
          rest,
          k.owned id,
          seen.same,
          le-total (owns id) (set s.views i none) seen.slot (some seen.view) seen.there,
        ),
      )
    ]

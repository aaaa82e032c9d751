-- ===== src/Bytes/Store/Slots.antt =====
-- What the views of a store rely on, kept by each operation on one of them.
use light_speed_io.Prelude.{
  ℕ, ◌≤◌, ◌≡◌, refl, sym, subst, ap, ◌∙◌, arith, List, [], ◌∷◌, ◌++◌, none, some, length, get_elem?,
  set, returns, ok, add-le-total, get_or, ℕ_discrete,
}
use light_speed_io.Arc
use light_speed_io.Arc.{Counts}
use light_speed_io.Bytes.{Range, InnerBuffer, inner_len}
use light_speed_io.Bytes.Writable.{AlignedBytesMut, freeze}
use light_speed_io.Bytes.Frozen.{AlignedBytes, set_slice, reset_slice}
use light_speed_io.Bytes.Frozen
use light_speed_io.Bytes.Store.{View, writable, frozen, buf, range, Store, drop_view}
use light_speed_io.Bytes.Store.Apart.{
  Compatible, Compatible-frozen, FitsBeside, Apart, Apart-set, Apart-empty, Apart-append,
}
use light_speed_io.Bytes.Store.Counted.{
  owns, IsPlaced, IsCounted, known, IsCounted-set, IsCounted-append, IsCounted-drop_view,
  IsCounted-new,
}
use light_speed_io.Bytes.Store.Fresh.{IsFresh}

-- All that the views of a program rely on.
pub record IsSafe (s : Store) : Type 0 where
  pub counted : IsCounted s
  pub apart : Apart s.views

module _ (s : Store) (k : IsSafe s) where
  pub creates-IsSafe :
      (b : AlignedBytesMut) (counts : Counts)
      → IsFresh s.counts b counts
      → IsSafe (record s {
        views = s.views ++ (some (writable b) ∷ []);
        counts = counts;
        inners = s.inners ++ (b.buf.value ∷ []);
      })
  creates-IsSafe b counts fresh = record {
    counted =
        subst
          (λ (c : Counts). IsCounted (record s {
            views = s.views ++ (some (writable b) ∷ []);
            counts = c;
            inners = s.inners ++ (b.buf.value ∷ []);
          }))
          (sym fresh.sole)
          (IsCounted-new s (writable b) k.counted fresh.number (omega (arith, fresh.from_zero))
            fresh.within);
    apart =
        Apart-append s.views (writable b) k.apart
          (λ j w ne e same. absurd (omega (arith, same, fresh.number, known s k.counted j w e)));
  }

-- Another part of the same buffer.
pub IsPlaced-same :
    (inners : List InnerBuffer) (v w : View)
    → IsPlaced inners v
    → buf w ≡ buf v
    → (range w).start ≤ (range w).end
    → (range w).end ≤ inner_len (buf w).value
    → IsPlaced inners w
IsPlaced-same inners v w p same ordered within = record {
  allocated =
      subst (λ (a : Arc.Arc InnerBuffer). get_elem? inners a.id ≡ some a.value) (sym same)
        p.allocated;
  ordered = ordered;
  within = within;
}

-- One slot of a store, and the view in it.
module _ (s : Store) (k : IsSafe s) (i : ℕ) where
  -- A view of the same buffer that may stand in for the one in the slot.
  pub set-IsSafe :
      (v w : View)
      → get_elem? s.views i ≡ some (some v)
      → buf w ≡ buf v
      → IsPlaced s.inners w
      → FitsBeside s.views i w
      → IsSafe (record s { views = set s.views i (some w) })
  set-IsSafe v w here same there fits = record {
    counted = IsCounted-set s k.counted i v here w same there;
    apart = Apart-set s.views i (some v) w k.apart here fits;
  }

  -- A further view of the buffer of the one in the slot.
  pub append-IsSafe :
      (v w : View)
      → get_elem? s.views i ≡ some (some v)
      → buf w ≡ buf v
      → IsPlaced s.inners w
      → FitsBeside s.views (length s.views) w
      → IsSafe (record s { views = s.views ++ (some w ∷ []); counts = Arc.clone (buf v) s.counts })
  append-IsSafe v w here same there fits = record {
    counted = IsCounted-append s k.counted i v here w same there;
    apart = Apart-append s.views w k.apart fits;
  }

  pub drops-IsSafe :
      (v : View)
      → get_elem? s.views i ≡ some (some v)
      → IsSafe (drop_view v (record s { views = set s.views i none }))
  unfolding drop_view
  drops-IsSafe v here = record {
    counted = IsCounted-drop_view s k.counted i v here;
    apart = Apart-empty s.views i (some v) k.apart here;
  }

  -- The only owner has no other view beside it.
  pub freezes-IsSafe :
      (self : AlignedBytesMut) (b : AlignedBytes)
      → get_elem? s.views i ≡ some (some (writable self))
      → freeze self s.counts ≡ ok b
      → IsSafe (record s { views = set s.views i (some (frozen b)) })
  unfolding freeze Arc.strong_count
  freezes-IsSafe self b here e =
      let sole : get_or s.counts self.buf.id 0 ≡ 1 = ground arith in
      let same : b.buf ≡ self.buf = ground arith in
      let whole : b.range ≡ self.range = ground arith in
      let p = k.counted.placed i (writable self) here in
      set-IsSafe (writable self) (frozen b) here same
        (IsPlaced-same s.inners (writable self) (frozen b) p same (ground (arith, p.ordered))
          (ground (arith, p.within)))
        (λ j w ne f q. absurd (
          ground (
            arith,
            sole,
            same,
            q,
            k.counted.owned self.buf.id,
            add-le-total (owns self.buf.id) s.views i j (some (writable self)) (some w) ne here f,
          )))

module _ (s : Store) (k : IsSafe s) (i : ℕ) (b : AlignedBytes)
    (here : get_elem? s.views i ≡ some (some (frozen b))) where
  -- A frozen view of the same buffer fits where `b` does.
  frozen_beside : (b' : AlignedBytes) → b'.buf ≡ b.buf → FitsBeside s.views i (frozen b')
  frozen_beside b' same j w ne e q =
      Compatible-frozen b b' w
        (k.apart i (frozen b) here j w ne e (ap (λ (a : Arc.Arc InnerBuffer). a.id) (sym same) ∙ q))

  -- It may also stand in a slot of its own.
  beside_itself :
      (j : ℕ) (w : View)
      → get_elem? s.views j ≡ some (some w)
      → b.buf.id ≡ (buf w).id
      → Compatible (frozen b) w
  beside_itself j w e q = elim (ℕ_discrete i j) [
    | yes p ↦ let same : frozen b ≡ w = cc (here, e, p) in subst (Compatible (frozen b)) same tt
    | no ne ↦ k.apart i (frozen b) here j w ne e q
  ]

  pub clones-IsSafe : IsSafe (record s {
    views = s.views ++ (some (frozen (Frozen.clone b s.counts).0) ∷ []);
    counts = (Frozen.clone b s.counts).1;
  })
  clones-IsSafe =
      append-IsSafe s k i (frozen b) (frozen b) here refl (k.counted.placed i (frozen b) here)
        (λ j w _. beside_itself j w)

  pub slices-IsSafe :
      (r : Range) (b' : AlignedBytes)
      → set_slice r b ≡ returns b'
      → IsSafe (record s { views = set s.views i (some (frozen b')) })
  unfolding set_slice
  slices-IsSafe r b' e =
      let same : b'.buf ≡ b.buf = ground arith in
      let p = k.counted.placed i (frozen b) here in
      set-IsSafe s k i (frozen b) (frozen b') here same
        (IsPlaced-same s.inners (frozen b) (frozen b') p same (ground arith) (ground arith))
        (frozen_beside b' same)

  pub resets-IsSafe : IsSafe (record s { views = set s.views i (some (frozen (reset_slice b))) })
  resets-IsSafe =
      let p = k.counted.placed i (frozen b) here in
      set-IsSafe s k i (frozen b) (frozen (reset_slice b)) here refl
        (record { allocated = p.allocated; ordered = ground arith; within = ground arith })
        (frozen_beside (reset_slice b) refl)

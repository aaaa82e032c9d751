-- ===== src/Bytes/Store/Cut.antt =====
-- `AlignedBytesMut::split_to` in a store: both parts fit beside all other views, and beside each other.
use light_speed_io.Prelude.{
  ℕ, ◌≤◌, ◌≡◌, sym, subst, ap, ◌∙◌, arith, [], ◌∷◌, ◌++◌, some, length, get_elem?, set, inl, inr,
  get_elem?-set, get_elem?-set_cases, lt_of_get_elem?,
}
use light_speed_io.Arc
use light_speed_io.Arc.{Counts}
use light_speed_io.Bytes.{InnerBuffer}
use light_speed_io.Bytes.Writable.{AlignedBytesMut}
use light_speed_io.Bytes.Views.{IsSplit}
use light_speed_io.Bytes.Store.{writable, Store}
use light_speed_io.Bytes.Store.Apart.{Compatible, Compatible-part, FitsBeside}
use light_speed_io.Bytes.Store.Slots.{IsSafe, IsPlaced-same, set-IsSafe, append-IsSafe}

-- The back stays in the slot, and the front has a new one.
module _ (s : Store) (k : IsSafe s) (i idx : ℕ) (self front back : AlignedBytesMut)
    (cut : IsSplit idx self front back)
    (here : get_elem? s.views i ≡ some (some (writable self))) where
  -- What could live beside the view can live beside its parts.
  part_beside :
      (part : AlignedBytesMut)
      → part.buf ≡ self.buf
      → self.range.start ≤ part.range.start
      → part.range.end ≤ self.range.end
      → FitsBeside s.views i (writable part)
  part_beside part same h t j w ne e q = Compatible-part self part w h t (
      k.apart i (writable self) here j w ne e
        (ap (λ (a : Arc.Arc InnerBuffer). a.id) (sym same) ∙ q))

  front_beside :
      FitsBeside
        (set s.views i (some (writable back)))
        (length (set s.views i (some (writable back))))
        (writable front)
  front_beside j w _ e q =
      elim (get_elem?-set_cases s.views i j (some (writable self)) (some (writable back)) (some w)
        here e) [
          | inl (_, p) ↦
              let same : writable back ≡ w = cc p in
              subst (Compatible (writable front)) same
                (inl (omega (arith, cut.front_end, cut.back_start)))
          | inr (ne, f) ↦
              part_beside front cut.front_buf (omega (arith, cut.from_start))
                (ground (
                  arith, cut.front_end, cut.lengths, cut.back_nonempty, cut.to_end, cut.back_start,
                ))
                j w ne f q
        ]

  pub parts-IsSafe : IsSafe (record s {
    views = set s.views i (some (writable back)) ++ (some (writable front) ∷ []);
    counts = Arc.clone self.buf s.counts;
  })
  parts-IsSafe =
      let p = k.counted.placed i (writable self) here in
      let q =
        IsPlaced-same s.inners (writable self) (writable back) p cut.back_buf
          (ground (arith, cut.back_nonempty))
          (ground (arith, cut.to_end, cut.back_buf, p.within)) in
      let stays = set-IsSafe s k i (writable self) (writable back) here cut.back_buf q (
        part_beside back cut.back_buf (omega (arith, cut.after_start, cut.back_start))
          (omega (arith, cut.to_end))) in
      subst
        (λ (a : Arc.Arc InnerBuffer). IsSafe (record s {
          views = set s.views i (some (writable back)) ++ (some (writable front) ∷ []);
          counts = Arc.clone a s.counts;
        }))
        cut.back_buf
        (append-IsSafe (record s { views = set s.views i (some (writable back)) }) stays i
          (writable back) (writable front)
          (ground (
            arith,
            here,
            get_elem?-set s.views i i (some (writable back)) (lt_of_get_elem? s.views i here),
          ))
          (cut.front_buf ∙ sym cut.back_buf)
          (IsPlaced-same s.inners (writable self) (writable front) p cut.front_buf
            (omega (arith, cut.from_start, cut.front_end, cut.after_start))
            (ground (
              arith, cut.front_end, cut.back_start, cut.to_end, cut.lengths, cut.back_nonempty,
              cut.front_buf, p.within,
            )))
          front_beside)

-- ===== src/Bytes/Store/Counted.antt =====
-- The counts of the views, and what was given back.
use light_speed_io.Prelude.{
  ℕ, ◌<◌, ◌≤◌, ◌≡◌, inl, inr, sym, subst, ap, ◌∙◌, arith, List, [], ◌∷◌, ◌++◌, Option, none, some,
  get_elem?, set, length, length-append, get_or, times, total, total-set, total-append, le-total,
  lt_of_get_elem?, ltb, ◌==◌, if◌then◌else◌, get_elem?-set_cases, get_elem?-append_cases,
  get_elem?-append_left, get_elem?-append_length,
}
use light_speed_io.Arc
use light_speed_io.Arc.{Arc, Counts}
use light_speed_io.Arc.Laws.{
  get_or_of_le, get_or-clone, get_or-drop, get_or-append, length-clone, length-drop,
}
use light_speed_io.Bytes.{InnerBuffer, inner_len}
use light_speed_io.Bytes.Store.{View, Store, buf, range, drop_view}

abbrev pub owns : ℕ → Option View → ℕ
owns id none = 0
owns id (some v) = if (buf v).id == id then 1 else 0

-- The buffer of a view was allocated under its number, and its bytes lie in it.
pub record IsPlaced (inners : List InnerBuffer) (v : View) : Type 0 where
  pub allocated : get_elem? inners (buf v).id ≡ some (buf v).value
  pub ordered : (range v).start ≤ (range v).end
  pub within : (range v).end ≤ inner_len (buf v).value

-- The count of each buffer is the number of its views, and those without are given back once.
pub record IsCounted (s : Store) : Type 0 where
  pub sized : length s.inners ≡ length s.counts
  pub owned : (id : ℕ) → get_or s.counts id 0 ≡ total (owns id) s.views
  pub gone :
      (id : ℕ)
      → times id s.freed
        ≡ (if ltb id (length s.counts) then (if get_or s.counts id 0 == 0 then 1 else 0) else 0)
  pub placed : (i : ℕ) (v : View) → get_elem? s.views i ≡ some (some v) → IsPlaced s.inners v

module _ (s : Store) (k : IsCounted s) (i : ℕ) (v : View)
    (here : get_elem? s.views i ≡ some (some v)) where
  pub known : (buf v).id < length s.counts
  known = omega (arith, lt_of_get_elem? s.inners (buf v).id (k.placed i v here).allocated, k.sized)

  pub counts-pos : 0 < get_or s.counts (buf v).id 0
  counts-pos =
      ground (arith, k.owned (buf v).id, le-total (owns (buf v).id) s.views i (some v) here)

  -- Another view of the same buffer in its place.
  pub IsCounted-set :
      (w : View)
      → buf w ≡ buf v
      → IsPlaced s.inners w
      → IsCounted (record s { views = set s.views i (some w) })
  IsCounted-set w same there = record {
    sized = k.sized;
    owned = λ id. ground (
      arith,
      k.owned id,
      total-set (owns id) s.views i (some v) (some w) here,
      ap (λ (a : Arc InnerBuffer). a.id) same,
    );
    gone = k.gone;
    placed = λ j x e. elim (get_elem?-set_cases s.views i j (some v) (some w) (some x) here e) [
      | inl (_, q) ↦ let p : w ≡ x = cc q in subst (IsPlaced s.inners) p there
      | inr (_, f) ↦ k.placed j x f
    ];
  }

  -- A further view of the same buffer.
  pub IsCounted-append :
      (w : View)
      → buf w ≡ buf v
      → IsPlaced s.inners w
      → IsCounted
          (record s { views = s.views ++ (some w ∷ []); counts = Arc.clone (buf v) s.counts })
  IsCounted-append w same there =
      let size = length-clone (buf v) s.counts in
      record {
        sized = k.sized ∙ sym size;
        owned = λ id. ground (
          arith,
          k.owned id,
          get_or-clone (buf v) s.counts id known,
          total-append (owns id) s.views (some w ∷ []),
          ap (λ (a : Arc InnerBuffer). a.id) same,
        );
        gone = λ id.
            ground (arith, k.gone id, size, counts-pos, get_or-clone (buf v) s.counts id known);
        placed = λ j x e. elim (get_elem?-append_cases s.views (some w) j (some x) e) [
          | inl (_, q) ↦ let p : w ≡ x = cc q in subst (IsPlaced s.inners) p there
          | inr f ↦ k.placed j x f
        ];
      }

  pub IsCounted-drop_view : IsCounted (drop_view v (record s { views = set s.views i none }))
  unfolding drop_view Arc.strong_count
  IsCounted-drop_view =
      let size = length-drop (buf v) s.counts in
      record {
        sized = k.sized ∙ sym size;
        owned = λ id. ground (
          arith,
          k.owned id,
          get_or-drop (buf v) s.counts id known,
          total-set (owns id) s.views i (some v) none here,
        );
        gone = λ id. ground (
          arith,
          k.gone id,
          size,
          counts-pos,
          known,
          get_or-drop (buf v) s.counts id known,
          get_or-drop (buf v) s.counts (buf v).id known,
        );
        placed = λ j x e. elim (get_elem?-set_cases s.views i j (some v) none (some x) here e) [
          | inl (_, q) ↦ absurd (cc q)
          | inr (_, f) ↦ k.placed j x f
        ];
      }

-- A new buffer with its first view.
pub IsCounted-new :
    (s : Store) (v : View)
    → IsCounted s
    → (buf v).id ≡ length s.counts
    → (range v).start ≤ (range v).end
    → (range v).end ≤ inner_len (buf v).value
    → IsCounted (record s {
      views = s.views ++ (some v ∷ []);
      counts = s.counts ++ (1 ∷ []);
      inners = s.inners ++ ((buf v).value ∷ []);
    })
IsCounted-new s v k fresh ordered within = record {
  sized = omega (
    arith,
    k.sized,
    length-append s.inners ((buf v).value ∷ []),
    length-append s.counts (1 ∷ []),
  );
  owned = λ id. ground (
    arith,
    k.owned id,
    fresh,
    get_or-append s.counts 1 id,
    get_or_of_le s.counts id,
    total-append (owns id) s.views (some v ∷ []),
  );
  gone =
      λ id. ground (arith, k.gone id, length-append s.counts (1 ∷ []), get_or-append s.counts 1 id);
  placed = λ j x e. elim (get_elem?-append_cases s.views (some v) j (some x) e) [
    | inl (_, q) ↦
        let p : v ≡ x = cc q in
        let there = get_elem?-append_length s.inners (buf v).value in
        subst (IsPlaced (s.inners ++ ((buf v).value ∷ []))) p (record {
          allocated =
              subst (λ a. get_elem? (s.inners ++ ((buf v).value ∷ [])) a ≡ some (buf v).value)
                (k.sized ∙ sym fresh) there;
          ordered = ordered;
          within = within;
        })
    | inr f ↦
        let p = k.placed j x f in
        record {
          allocated = get_elem?-append_left s.inners (buf v).value (buf x).id p.allocated;
          ordered = p.ordered;
          within = p.within;
        }
  ];
}

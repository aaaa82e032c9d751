-- ===== src/Bytes/Store/Apart.antt =====
-- Views of one buffer that may live beside each other: frozen ones, or writable ones of different bytes.
use light_speed_io.Prelude.{
  ℕ, ◌≤◌, ◌≡◌, ◌≢◌, ◌⊎◌, inl, inr, sym, subst, ◌∙◌, arith, List, [], ◌∷◌, ◌++◌, Option, none, some,
  get_elem?, set, length, get_elem?-set_cases, get_elem?-append_cases,
}
use light_speed_io.Bytes.Writable.{AlignedBytesMut}
use light_speed_io.Bytes.Frozen.{AlignedBytes}
use light_speed_io.Bytes.Store.{View, writable, frozen, buf}

abbrev pub Compatible : View → View → Type 0
Compatible (frozen a) (frozen b) = Unit {0}
Compatible (writable a) (writable b) = (a.range.end ≤ b.range.start) ⊎ (b.range.end ≤ a.range.start)
Compatible (frozen a) (writable b) = ⊥
Compatible (writable a) (frozen b) = ⊥

Compatible-sym : (v w : View) → Compatible v w → Compatible w v
Compatible-sym (frozen a) (frozen b) h = tt
Compatible-sym (frozen a) (writable b) h = elim h [ ]
Compatible-sym (writable a) (frozen b) h = elim h [ ]
Compatible-sym (writable a) (writable b) (inl h) = inr h
Compatible-sym (writable a) (writable b) (inr h) = inl h

-- A part of a writable view, beside what the view could live beside.
pub Compatible-part :
    (self part : AlignedBytesMut) (w : View)
    → self.range.start ≤ part.range.start
    → part.range.end ≤ self.range.end
    → Compatible (writable self) w
    → Compatible (writable part) w
Compatible-part self part (frozen b) h k c = elim c [ ]
Compatible-part self part (writable b) h k (inl c) = inl (omega arith)
Compatible-part self part (writable b) h k (inr c) = inr (omega arith)

pub Compatible-frozen :
    (a b : AlignedBytes) (w : View) → Compatible (frozen a) w → Compatible (frozen b) w
Compatible-frozen a b (frozen c) h = tt
Compatible-frozen a b (writable c) h = elim h [ ]

-- A view that may live beside all that stand in other slots than `i`.
abbrev pub FitsBeside : List (Option View) → ℕ → View → Type 0
FitsBeside views i v =
    (j : ℕ) (w : View)
    → i ≢ j
    → get_elem? views j ≡ some (some w)
    → (buf v).id ≡ (buf w).id
    → Compatible v w

abbrev pub Apart : List (Option View) → Type 0
Apart views = (i : ℕ) (v : View) → get_elem? views i ≡ some (some v) → FitsBeside views i v

-- The same for a view that was found to be `v`.
found_beside :
    (views : List (Option View)) (i : ℕ) (v x : View)
    → FitsBeside views i v
    → some v ≡ some x
    → FitsBeside views i x
found_beside views i v x fits same = let e : v ≡ x = cc same in subst (FitsBeside views i) e fits

pub Apart-set :
    (views : List (Option View)) (i : ℕ) (old : Option View) (v : View)
    → Apart views
    → get_elem? views i ≡ some old
    → FitsBeside views i v
    → Apart (set views i (some v))
Apart-set views i old v apart e fits a x ea b y ne eb same =
    elim (get_elem?-set_cases views i a old (some v) (some x) e ea) [
      | inl (p, here) ↦ elim (get_elem?-set_cases views i b old (some v) (some y) e eb) [
        | inl (q, _) ↦ absurd (ne (sym p ∙ q))
        | inr (nb, there) ↦ found_beside views i v x fits here b y nb there same
      ]
      | inr (na, fa) ↦ elim (get_elem?-set_cases views i b old (some v) (some y) e eb) [
        | inl (q, here) ↦
            Compatible-sym y x (found_beside views i v y fits here a x na fa (sym same))
        | inr (nb, fb) ↦ apart a x fa b y ne fb same
      ]
    ]

pub Apart-empty :
    (views : List (Option View)) (i : ℕ) (old : Option View)
    → Apart views
    → get_elem? views i ≡ some old
    → Apart (set views i none)
Apart-empty views i old apart e a x ea b y ne eb same =
    elim (get_elem?-set_cases views i a old none (some x) e ea) [
      | inl (_, here) ↦ absurd (cc here)
      | inr (_, fa) ↦ elim (get_elem?-set_cases views i b old none (some y) e eb) [
        | inl (_, here) ↦ absurd (cc here)
        | inr (_, fb) ↦ apart a x fa b y ne fb same
      ]
    ]

pub Apart-append :
    (views : List (Option View)) (v : View)
    → Apart views
    → FitsBeside views (length views) v
    → Apart (views ++ (some v ∷ []))
Apart-append views v apart fits a x ea b y ne eb same =
    elim (get_elem?-append_cases views (some v) a (some x) ea) [
      | inl (p, here) ↦ elim (get_elem?-append_cases views (some v) b (some y) eb) [
        | inl (q, _) ↦ absurd (ne (p ∙ sym q))
        | inr there ↦
            found_beside views (length views) v x fits here b y (λ r. ne (p ∙ r)) there same
      ]
      | inr fa ↦ elim (get_elem?-append_cases views (some v) b (some y) eb) [
        | inl (q, here) ↦ Compatible-sym y x (
            found_beside views (length views) v y fits here a x (λ r. ne (sym (q ∙ r))) fa
              (sym same))
        | inr fb ↦ apart a x fa b y ne fb same
      ]
    ]

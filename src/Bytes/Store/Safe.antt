-- ===== src/Bytes/Store/Safe.antt =====
-- No step frees a buffer that a view still sees, and no view's bytes change under another.
use light_speed_io.Prelude.{refl, sym, subst, arith, [], ◌∷◌, ◌++◌, some, set}
use light_speed_io.Arc.{Counts}
use light_speed_io.Bytes.Views.{split_to-IsSplit}
use light_speed_io.Bytes.Store.{
  writable, Store, Change, creates, splits, freezes, clones, slices, resets, drops, empty, Reach,
  start, then_,
}
use light_speed_io.Bytes.Store.Slots.{
  IsSafe, creates-IsSafe, drops-IsSafe, freezes-IsSafe, clones-IsSafe, slices-IsSafe, resets-IsSafe,
}
use light_speed_io.Bytes.Store.Fresh.{new-IsFresh}
use light_speed_io.Bytes.Store.Cut.{parts-IsSafe}

-- Every step keeps what the views rely on.
pub Change-IsSafe : {s t : Store} → Change s t → IsSafe s → IsSafe t
Change-IsSafe {s} (creates alloc len align b counts e) k =
    creates-IsSafe s k b counts (new-IsFresh alloc len align s.counts b counts e)
Change-IsSafe {s} (splits i idx self front back counts here e) k =
    let (cut, owners) = split_to-IsSplit idx self s.counts front back counts e in
    subst
      (λ (c : Counts). IsSafe (record s {
        views = set s.views i (some (writable back)) ++ (some (writable front) ∷ []);
        counts = c;
      }))
      (sym owners) (parts-IsSafe s k i idx self front back cut here)
Change-IsSafe {s} (freezes i self b here e) k = freezes-IsSafe s k i self b here e
Change-IsSafe {s} (clones i b here) k = clones-IsSafe s k i b here
Change-IsSafe {s} (slices i r b b' here e) k = slices-IsSafe s k i b here r b' e
Change-IsSafe {s} (resets i b here) k = resets-IsSafe s k i b here
Change-IsSafe {s} (drops i v here) k = drops-IsSafe s k i v here

empty-IsSafe : IsSafe empty
empty-IsSafe = record {
  counted = record {
    sized = refl;
    owned = λ id. refl;
    gone = λ id. ground arith;
    placed = λ i v e. absurd (cc e);
  };
  apart = λ i v e. absurd (cc e);
}

pub Reach-IsSafe : {s : Store} → Reach s → IsSafe s
Reach-IsSafe start = empty-IsSafe
Reach-IsSafe (then_ r st) = Change-IsSafe st (Reach-IsSafe r)

-- ===== src/Bytes/Store.antt =====
-- crates/lsio_aligned_bytes/src/lib.rs: all the views that are alive, as a program creates, splits,
-- freezes, copies and drops them.
pub mod Apart
pub mod Counted
pub mod Fresh
pub mod Slots
pub mod Cut
pub mod Safe
pub mod Owners
mod Tests
use light_speed_io.Prelude.{
  ℕ, ◌==◌, if◌then◌else◌, ◌≡◌, List, [], ◌∷◌, ◌++◌, Option, none, some, get_elem?, set, returns, ok,
}
use light_speed_io.Arc
use light_speed_io.Arc.{Arc, Counts}
use light_speed_io.Bytes.{Range, InnerBuffer, Alloc}
use light_speed_io.Bytes.Writable.{AlignedBytesMut, split_to, freeze}
use light_speed_io.Bytes.Writable
use light_speed_io.Bytes.Frozen.{AlignedBytes, set_slice, reset_slice}
use light_speed_io.Bytes.Frozen

pub data View : Type 0 where
  writable : AlignedBytesMut → View
  frozen : AlignedBytes → View

abbrev pub buf : View → Arc InnerBuffer
buf (writable b) = b.buf
buf (frozen b) = b.buf

abbrev pub range : View → Range
range (writable b) = b.range
range (frozen b) = b.range

-- A variable that holds a view is a slot, empty once the view is moved or dropped. `inners` are the
-- buffers that were allocated, and `freed` those that were given back, by their number.
pub record Store : Type 0 where
  pub views : List (Option View)
  pub counts : Counts
  pub inners : List InnerBuffer
  pub freed : List ℕ

-- The end of a view's life: `Drop for InnerBuffer` runs when its last owner is gone.
unfoldable pub drop_view : View → Store → Store
drop_view v s =
    let counts = Arc.drop (buf v) s.counts in
    record s {
      counts = counts;
      freed = if Arc.strong_count (buf v) counts == 0 then (buf v).id ∷ s.freed else s.freed;
    }

-- What a program may do with its views. `alloc` is what the allocator answers at the time. An error of `split_to` or `freeze` leaves all as it is.
pub data Change (s : Store) : Store → Type 0 where
  creates :
      (alloc : Alloc) (len align : ℕ) (b : AlignedBytesMut) (counts : Counts)
      → Writable.new alloc len align s.counts ≡ returns (b, counts)
      → Change s (record s {
        views = s.views ++ (some (writable b) ∷ []);
        counts = counts;
        inners = s.inners ++ (b.buf.value ∷ []);
      })
  splits :
      (i idx : ℕ) (self front back : AlignedBytesMut) (counts : Counts)
      → get_elem? s.views i ≡ some (some (writable self))
      → split_to idx self s.counts ≡ ok (front, back, counts)
      → Change s (record s {
        views = set s.views i (some (writable back)) ++ (some (writable front) ∷ []);
        counts = counts;
      })
  freezes :
      (i : ℕ) (self : AlignedBytesMut) (b : AlignedBytes)
      → get_elem? s.views i ≡ some (some (writable self))
      → freeze self s.counts ≡ ok b
      → Change s (record s { views = set s.views i (some (frozen b)) })
  clones :
      (i : ℕ) (b : AlignedBytes)
      → get_elem? s.views i ≡ some (some (frozen b))
      → Change s (record s {
        views = s.views ++ (some (frozen (Frozen.clone b s.counts).0) ∷ []);
        counts = (Frozen.clone b s.counts).1;
      })
  slices :
      (i : ℕ) (r : Range) (b b' : AlignedBytes)
      → get_elem? s.views i ≡ some (some (frozen b))
      → set_slice r b ≡ returns b'
      → Change s (record s { views = set s.views i (some (frozen b')) })
  resets :
      (i : ℕ) (b : AlignedBytes)
      → get_elem? s.views i ≡ some (some (frozen b))
      → Change s (record s { views = set s.views i (some (frozen (reset_slice b))) })
  drops :
      (i : ℕ) (v : View)
      → get_elem? s.views i ≡ some (some v)
      → Change s (drop_view v (record s { views = set s.views i none }))

abbrev pub empty : Store
empty = record { views = []; counts = []; inners = []; freed = [] }

pub data Reach : Store → Type 0 where
  start : Reach empty
  then_ : {s t : Store} → Reach s → Change s t → Reach t

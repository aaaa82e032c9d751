-- ===== src/Bytes/Memory/Beside.antt =====
-- The bytes of a view change only by writes through that view, and what is written is read back.
use light_speed_io.Prelude.{
  ℕ, ◌+◌, ◌≤◌, ◌≡◌, ◌≢◌, ◌⊎◌, inl, inr, subst, arith, List, some, get_elem?, length, times,
  ℕ_discrete,
}
use light_speed_io.Bytes.{InnerBuffer, inner_len}
use light_speed_io.Bytes.Writable.{AlignedBytesMut, freeze, as_mut_ptr}
use light_speed_io.Bytes.Writable
use light_speed_io.Bytes.Frozen.{AlignedBytes, bytes_at, as_slice, as_ptr}
use light_speed_io.Bytes.Frozen
use light_speed_io.Bytes.Store.{View, writable, frozen, buf, range, Store, Reach}
use light_speed_io.Bytes.Store.Apart.{Compatible}
use light_speed_io.Bytes.Store.Counted.{IsPlaced}
use light_speed_io.Bytes.Store.Owners.{Reach-IsPlaced}
use light_speed_io.Bytes.Memory.{Memory, write_bytes}
use light_speed_io.Bytes.Memory.Writes.{bytes_at-write_bytes, bytes_at-write_bytes_beside}

-- The bytes that a view shows.
abbrev pub visible : Memory → View → List ℕ
visible memory (writable b) = bytes_at memory (as_mut_ptr b) (Writable.len b)
visible memory (frozen b) = as_slice memory b

-- What `std::alloc` documents: blocks that were not given back do not overlap.
abbrev pub HasBlocksApart : Store → Type 0
HasBlocksApart s =
    (a b : ℕ) (x y : InnerBuffer)
    → a ≢ b
    → get_elem? s.inners a ≡ some x
    → get_elem? s.inners b ≡ some y
    → times a s.freed ≡ 0
    → times b s.freed ≡ 0
    → (x.buf + inner_len x ≤ y.buf) ⊎ (y.buf + inner_len y ≤ x.buf)

-- The bytes of `v` lie before those of `w`, or after them.
abbrev AreApart : View → View → Type 0
AreApart v w =
    ((buf v).value.buf + (range v).end ≤ (buf w).value.buf + (range w).start)
    ⊎ ((buf w).value.buf + (range w).end ≤ (buf v).value.buf + (range v).start)

-- Views of one buffer, one of which is writable.
one_buffer :
    (b : AlignedBytesMut) (w : View)
    → b.buf.value.buf ≡ (buf w).value.buf
    → Compatible (writable b) w
    → AreApart (writable b) w
one_buffer b (frozen c) e h = elim h [ ]
one_buffer b (writable c) e (inl h) = inl (omega arith)
one_buffer b (writable c) e (inr h) = inr (omega arith)

two_buffers :
    (inners : List InnerBuffer) (v w : View)
    → IsPlaced inners v
    → IsPlaced inners w
    → ((buf v).value.buf + inner_len (buf v).value ≤ (buf w).value.buf)
      ⊎ ((buf w).value.buf + inner_len (buf w).value ≤ (buf v).value.buf)
    → AreApart v w
two_buffers inners v w p q (inl h) = inl (omega (arith, p.within, q.within))
two_buffers inners v w p q (inr h) = inr (omega (arith, p.within, q.within))

visible-write_bytes :
    (b : AlignedBytesMut) (w : View) (xs : List ℕ) (memory : Memory)
    → length xs ≡ Writable.len b
    → b.range.start ≤ b.range.end
    → (range w).start ≤ (range w).end
    → AreApart (writable b) w
    → visible (write_bytes (as_mut_ptr b) xs memory) w ≡ visible memory w
unfolding as_slice
visible-write_bytes b (writable c) xs memory n h k apart =
    bytes_at-write_bytes_beside (as_mut_ptr b) xs memory (as_mut_ptr c) (Writable.len c)
      (ground (arith, apart))
visible-write_bytes b (frozen c) xs memory n h k apart =
    bytes_at-write_bytes_beside (as_mut_ptr b) xs memory (as_ptr c) (Frozen.len c)
      (ground (arith, apart))

-- The views of two slots, one of which is writable, show different addresses.
Reach-AreApart :
    (s : Store) (i j : ℕ) (self : AlignedBytesMut) (w : View)
    → Reach s
    → HasBlocksApart s
    → get_elem? s.views i ≡ some (some (writable self))
    → i ≢ j
    → get_elem? s.views j ≡ some (some w)
    → AreApart (writable self) w
Reach-AreApart s i j self w r blocks here ne there =
    let (p, live, fits) = Reach-IsPlaced s r i (writable self) here in
    let (q, live', _) = Reach-IsPlaced s r j w there in
    elim (ℕ_discrete self.buf.id (buf w).id) [
      | yes same ↦
          let one : some self.buf.value ≡ some (buf w).value =
            cc (p.allocated, q.allocated, same) in
          one_buffer self w (cc one) (fits j w ne there same)
      | no differ ↦ two_buffers s.inners (writable self) w p q (
          blocks self.buf.id (buf w).id self.buf.value (buf w).value differ p.allocated q.allocated
            live live')
    ]

-- In every store that a program can reach, and if blocks that were not given back do not overlap, the
-- bytes that are written through a writable view, as many as it is long, are the ones it shows
-- afterwards, and every other view shows what it showed before.
pub Reach-write_bytes :
    (s : Store) (memory : Memory) (i : ℕ) (self : AlignedBytesMut) (xs : List ℕ)
    → Reach s
    → HasBlocksApart s
    → get_elem? s.views i ≡ some (some (writable self))
    → length xs ≡ Writable.len self
    → (visible (write_bytes (as_mut_ptr self) xs memory) (writable self) ≡ xs)
      × ((j : ℕ) (w : View)
          → i ≢ j
          → get_elem? s.views j ≡ some (some w)
          → visible (write_bytes (as_mut_ptr self) xs memory) w ≡ visible memory w)
Reach-write_bytes s memory i self xs r blocks here n = (
  subst (λ k. bytes_at (write_bytes (as_mut_ptr self) xs memory) (as_mut_ptr self) k ≡ xs) n
      (bytes_at-write_bytes (as_mut_ptr self) xs memory),
  (λ j w ne there.
      visible-write_bytes self w xs memory n (Reach-IsPlaced s r i (writable self) here).0.ordered
        (Reach-IsPlaced s r j w there).0.ordered
        (Reach-AreApart s i j self w r blocks here ne there)),
)

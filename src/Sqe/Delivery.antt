-- ===== src/Sqe/Delivery.antt =====
-- From the range that a user asks for to the bytes in the buffer that comes back.
use light_speed_io.Prelude.{ℕ, zero, suc, ◌+◌, ◌-◌, ◌<◌, ◌≡◌, arith, ◌∷◌, returns, ◌∙◌, subst, refl}
use mathlib.Core.Path.{ap₂}
use native.Mathlib.Nat.{add-zero}
use light_speed_io.Prelude.Int.{ℤ, pos, negsuc}
use light_speed_io.Arc.{Counts}
use light_speed_io.UserData.{OpCodes}
use light_speed_io.OpenFile.{OpenFile}
use light_speed_io.Bytes.{Alloc}
use light_speed_io.Bytes.Frozen.{AlignedBytes, bytes_at, as_slice, as_ptr, len}
use light_speed_io.Sqe.{Entry, Request, OffsetRange, build_read_range_sqe}
use light_speed_io.Sqe.Reads.{StartsAt, EndsAt, ReadsInto, build_read_range_sqe-ReadsInto}

-- What the kernel does for a read that is not cut short: the bytes of the file from the offset on
-- stand in memory from the pointer on. Other requests move no bytes.
abbrev pub Transferred : (content memory : ℕ → ℕ) → Request → Type 0
Transferred content memory (Request.read fd ptr len offset) =
    (k : ℕ) → k < len → memory (ptr + k) ≡ content (offset + k)
Transferred content memory _ = Unit

StartsAt-unique : (size : ℕ) (a : ℤ) {s t : ℕ} → StartsAt size a s → StartsAt size a t → s ≡ t
StartsAt-unique size (pos a) h k = omega arith
StartsAt-unique size (negsuc a) h k = omega arith

EndsAt-unique : (size : ℕ) (a : ℤ) {s t : ℕ} → EndsAt size a s → EndsAt size a t → s ≡ t
EndsAt-unique size (pos a) h k = omega arith
EndsAt-unique size (negsuc a) h k = omega arith

bytes_at-copy :
    (content memory : ℕ → ℕ) (n ptr offset : ℕ)
    → ((k : ℕ) → k < n → memory (ptr + k) ≡ content (offset + k))
    → bytes_at memory ptr n ≡ bytes_at content offset n
bytes_at-copy content memory zero ptr offset h = refl
bytes_at-copy content memory (suc n) ptr offset h = ap₂ ◌∷◌ (simp add-zero at (h 0 (omega arith))) (
    bytes_at-copy content memory n (ptr + 1) (offset + 1) λ k p.
      let e : ptr + 1 + k ≡ ptr + suc k = omega arith in
      let e' : offset + 1 + k ≡ offset + suc k = omega arith in
      rw (e, e') (h (suc k) (omega arith)))

delivered :
    (content memory : ℕ → ℕ) {fd start end : ℕ} {entry : Entry} {b : AlignedBytes} {c : Counts}
    → ReadsInto fd start end entry b c
    → Transferred content memory entry.request
    → as_slice memory b ≡ bytes_at content start (end - start)
unfolding as_slice
delivered content memory {fd} {start} {end} {entry} {b} r t = rw r.length (
    bytes_at-copy content memory (end - start) (as_ptr b) start
      (subst (Transferred content memory) r.request t))

-- If an entry is built for a range that stands for the bytes `[start, end)` of the file, negative
-- offsets read as documented, and the kernel transfers all that the entry asks for, then the frozen
-- view holds exactly those bytes.
pub as_slice-build_read_range_sqe :
    (codes : OpCodes) (alloc : Alloc) (index : ℕ) (file : OpenFile) (range : OffsetRange)
    (c : Counts) (content memory : ℕ → ℕ) (start end : ℕ) {entry : Entry} {b : AlignedBytes}
    {c' : Counts}
    → StartsAt file.size range.start start
    → EndsAt file.size range.end end
    → build_read_range_sqe codes alloc index file range c ≡ returns (entry, b, c')
    → Transferred content memory entry.request
    → as_slice memory b ≡ bytes_at content start (end - start)
as_slice-build_read_range_sqe codes alloc index file range c content memory start end s e built t =
    let (start', end', s', e', reads) =
      build_read_range_sqe-ReadsInto codes alloc index file range c built in
    delivered content memory reads t
    ∙ ap₂ (λ a z. bytes_at content a (z - a)) (StartsAt-unique file.size range.start s' s)
        (EndsAt-unique file.size range.end e' e)

-- ===== src/Bench/Chunks.antt =====
-- main.rs: the chunks of a file.
use light_speed_io.Prelude.{
  ℕ, zero, suc, ◌+◌, ◌-◌, ◌*◌, ◌/◌, ◌%◌, ◌^◌, ◌<◌, ◌≡◌, refl, ap, arith, List, [], ◌∷◌, length,
  returns,
}
use native.Mathlib.Nat.{div-mul-le_self, mod-eq-sub-div-mul}
use light_speed_io.Prelude.Int.{pos}
use light_speed_io.Tracker.{range_from}
use light_speed_io.Sqe.{OffsetRange}
use light_speed_io.Bench.{chunk, chunks_from, calculate_chunks}

-- Ranges of `blocksize` bytes that lie end to end, from `start` to `end`.
abbrev pub Tiles : ℕ → ℕ → List OffsetRange → ℕ → Type 0
Tiles blocksize start [] end = start ≡ end
Tiles blocksize start (r ∷ rs) end =
    (r ≡ record { start = pos start; end = pos (start + blocksize) })
    × Tiles blocksize (start + blocksize) rs end

chunk_lem :
    (b i start : ℕ)
    → i * b ≡ start
    → start + b < 2 ^ 63
    → chunk b i ≡ returns (record { start = pos start; end = pos (start + b) })
unfolding chunk
chunk_lem b i start e h = ground (arith, e)

chunks_from-Tiles :
    (b n i start end : ℕ)
    → i * b ≡ start
    → start + n * b ≡ end
    → end < 2 ^ 63
    → (rs : List OffsetRange) × (chunks_from b n i ≡ returns rs)
      × Tiles b start rs end
      × (length rs ≡ n)
unfolding chunks_from
chunks_from-Tiles b zero i start end e f h = ([], refl, omega arith, refl)
chunks_from-Tiles b (suc n) i start end e f h =
    let (rs, made, tiles, all) =
      chunks_from-Tiles b n (suc i) (start + b) end (omega (arith, e)) (omega (arith, f)) h in
    (_ ∷ rs, simp (chunk_lem b i start e (omega (arith, f, h)), made), (refl, tiles), ap suc all)

-- The whole blocks of a file.
pub calculate_chunks_lem :
    (filesize b : ℕ)
    → 0 < b
    → filesize < 2 ^ 63
    → (chunks : List OffsetRange) × (calculate_chunks filesize b
        ≡ returns (chunks, range_from 0 (filesize / b)))
      × Tiles b 0 chunks (filesize - filesize % b)
      × (length chunks ≡ filesize / b)
unfolding calculate_chunks
calculate_chunks_lem filesize b h small =
    let (rs, made, tiles, all) =
      chunks_from-Tiles b (filesize / b) 0 0 (filesize - filesize % b) (omega arith)
        (omega (arith, div-mul-le_self filesize b, mod-eq-sub-div-mul filesize b)) (omega arith) in
    (rs, ground (arith, made, all), tiles, all)

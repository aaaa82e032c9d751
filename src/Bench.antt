-- ===== src/Bench.antt =====
-- crates/lsio_bench/src/main.rs: the benchmark, from the chunks of a file to the count of results.
pub mod Chunks
pub mod Files
pub mod Setup
pub mod Program
mod Tests
use light_speed_io.Prelude.{
  ℕ, zero, suc, ◌+◌, ◌-◌, ◌*◌, ◌/◌, ◌%◌, ◌^◌, Bool, ltb, leb, ◌==◌, not, if◌then◌else◌, List, [],
  ◌∷◌, length, Option, none, some, Exec, Panic, ◌>>=◌, ◌>>◌, assert, returns, panics,
}
use light_speed_io.Prelude.Int.{ℤ, pos, negsuc, ◌+ℤ◌, leb_ℤ}
use light_speed_io.Tracker.{range_from}
use light_speed_io.Sqe.{OffsetRange}
use light_speed_io.Ops.State.{Message}
use light_speed_io.IoUring
use light_speed_io.IoUring.{IoUring, get_ranges}

-- `as isize`, from a `u64`.
abbrev pub as_isize : ℕ → ℤ
as_isize n = if ltb n (2 ^ 63) then pos n else negsuc (2 ^ 64 - n - 1)

-- The sum of two values of type `isize`.
abbrev pub add_isize : ℤ → ℤ → Exec ℤ
add_isize a b =
    if leb_ℤ (negsuc (2 ^ 63 - 1)) (a +ℤ b)
    then (if leb_ℤ (a +ℤ b) (pos (2 ^ 63 - 1)) then returns (a +ℤ b) else panics Panic.add_overflow)
    else panics Panic.add_overflow

unfoldable pub chunk : ℕ → ℕ → Exec OffsetRange
chunk blocksize chunk_i = do
  assert (ltb (chunk_i * blocksize) (2 ^ 64)) Panic.add_overflow
  let chunk_start = as_isize (chunk_i * blocksize)
  chunk_end ← add_isize chunk_start (as_isize blocksize)
  returns (record { start = chunk_start; end = chunk_end })

-- The chunks of `n` numbers from `chunk_i` on.
unfoldable pub chunks_from : ℕ → ℕ → ℕ → Exec (List OffsetRange)
chunks_from blocksize zero chunk_i = returns []
chunks_from blocksize (suc n) chunk_i = do
  first ← chunk blocksize chunk_i
  rest ← chunks_from blocksize n (suc chunk_i)
  returns (first ∷ rest)

-- The chunks of a file, and a number for each.
unfoldable pub calculate_chunks : ℕ → ℕ → Exec (List OffsetRange × List ℕ)
calculate_chunks filesize blocksize = do
  assert (not (blocksize == 0)) Panic.divide_by_zero
  let n_chunks = filesize / blocksize
  chunks ← chunks_from blocksize n_chunks 0
  assert (length chunks == n_chunks) Panic.length_mismatch
  returns (chunks, range_from 0 n_chunks)

-- The loop that submits the requests.
unfoldable pub submit_all : List (List ℕ) → List OffsetRange → List ℕ → IoUring → Exec IoUring
submit_all [] chunks user_data uring = returns uring
submit_all (filename ∷ filenames) chunks user_data uring = do
  uring ← get_ranges filename chunks user_data uring
  submit_all filenames chunks user_data uring

-- The loop that collects the results, of those that arrive in time.
unfoldable pub collect_results : ℕ → List Message → Exec (List Message)
collect_results zero arriving = returns []
collect_results (suc n) [] = panics Panic.nothing_received
collect_results (suc n) (m ∷ arriving) = do rest ← collect_results n arriving; returns (m ∷ rest)

abbrev pub blocksize_or_filesize : Option ℕ → ℕ → ℕ
blocksize_or_filesize none filesize = filesize
blocksize_or_filesize (some blocksize) filesize = blocksize

-- How far apart the doubles are at a number below 2^64.
abbrev pub spacing : ℕ → ℕ → ℕ
spacing zero n = 1
spacing (suc fuel) n = let half = spacing fuel (n / 2) in if ltb n (2 ^ 53) then 1 else 2 * half

-- `as f64`, from a `u64`: the nearest double, and of two that are as near the one whose last bit is 0.
unfoldable pub as_f64 : ℕ → ℕ
as_f64 n =
    let unit = spacing 11 n in
    let q = n / unit in
    let r = n % unit in
    if ltb (2 * r) unit
    then q * unit
    else (if ltb unit (2 * r) then (q + 1) * unit else (q + q % 2) * unit)

-- What `read_files` asks for, the results that it counts, and the bytes that it reports. `arriving` is
-- what the workers make of the requests.
unfoldable pub read_files :
    (IoUring → List Message) → List (List ℕ) → ℕ → Option ℕ → ℕ → Exec (IoUring × List Message × ℕ)
read_files arriving filenames filesize blocksize n_worker_threads = do
  (chunks, user_data) ← calculate_chunks filesize (blocksize_or_filesize blocksize filesize)
  uring ← IoUring.new n_worker_threads
  assert (ltb (length filenames * length chunks) (2 ^ 64)) Panic.add_overflow
  uring ← submit_all filenames chunks user_data uring
  results ← collect_results (length filenames * length chunks) (arriving uring)
  assert (ltb (filesize * length filenames) (2 ^ 64)) Panic.add_overflow
  returns (uring, results, as_f64 (filesize * length filenames))

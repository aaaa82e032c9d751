-- ===== src/Ops/GetRanges.antt =====
-- get_ranges.rs: open and measure a file, then read each range of it.
use light_speed_io.Prelude.{
  ℕ, ◌+◌, ◌%◌, ◌^◌, List, [], ◌∷◌, Option, some, none, Exec, Panic, ◌>>=◌, ◌>>◌, assert, unwrap,
  returns, panics, Result, ok, err, leb, ◌==◌, if◌then◌else◌, length,
}
use light_speed_io.Prelude.Int.{ℤ, pos, leb_ℤ}
use light_speed_io.Arc
use light_speed_io.Arc.{Arc}
use light_speed_io.UserData.{OpCodes, UringUserData}
use light_speed_io.OpenFile
use light_speed_io.OpenFile.{
  CString, OpenFile, OpenFileBuilder, Statx, set_file_descriptor, assume_statx_is_initialised,
  with_statx, is_ready, build,
}
use light_speed_io.Prelude.Int.{pos_part}
use light_speed_io.Sqe.{OffsetRange, build_openat_sqe, build_statx_sqe}
use light_speed_io.Ops.State.{GetRanges, Operation, NextStep, Host, World, PushError, push_entry}
use light_speed_io.Ops.GetRange

abbrev pub n_cqes_expected : ℕ
n_cqes_expected = 2

unfoldable pub new : CString → List OffsetRange → List ℕ → Exec GetRanges
new location ranges user_data = do
  assert (length ranges == length user_data) Panic.length_mismatch
  returns (record {
    open_file_builder = some (OpenFile.new location);
    ranges = ranges;
    user_data = user_data;
    n_cqes_received = 0;
  })

-- What a completion that succeeded says of the file. `statx` is what the field of that name holds by
-- then, whatever that is.
unfoldable pub record_result :
    OpCodes → UringUserData → ℤ → Statx → Option OpenFileBuilder → Exec (Option OpenFileBuilder)
record_result codes idx_and_opcode cqe_result statx builder =
    if idx_and_opcode.op == codes.open_at
    then (unwrap builder Panic.builder_is_taken >>= λ b.
        returns (some (set_file_descriptor (pos_part cqe_result) b)))
    else if idx_and_opcode.op == codes.statx
    then (unwrap builder Panic.builder_is_taken >>= λ b.
        returns (some (assume_statx_is_initialised (with_statx statx b))))
    else panics Panic.unrecognised_opcode

module _ {Q X W : Type 0} (h : Host Q X W) where
  -- The loop over `zip(ranges, user_data)`.
  unfoldable pub push_reads :
      Arc OpenFile → List OffsetRange → List ℕ → World Q X W → Exec (World Q X W)
  push_reads file [] user_data w = returns w
  push_reads file (range ∷ ranges) [] w = returns w
  push_reads file (range ∷ ranges) (u ∷ user_data) w = do
    op ← GetRange.new file range u
    thread ← unwrap (h.push_task (Operation.get_range op) w.thread) Panic.manager_is_gone
    push_reads file ranges user_data (record w { files = Arc.clone file w.files; thread = thread })

  unfoldable pub submit_get_range_ops : GetRanges → World Q X W → Exec (GetRanges × World Q X W)
  submit_get_range_ops self w = do
    builder ← unwrap self.open_file_builder Panic.builder_is_taken
    opened ← build builder
    let (file, files) = Arc.new opened w.files
    w ← push_reads file self.ranges self.user_data (record w { files = files })
    returns (record self { open_file_builder = none }, record w { files = Arc.drop file w.files })

  unfoldable pub submit_first_step :
      ℕ → GetRanges → World Q X W → Exec (Result (Unit {0}) PushError × World Q X W)
  submit_first_step index_of_op self w = do
    builder ← unwrap self.open_file_builder Panic.builder_is_taken
    open_entry ← build_openat_sqe h.codes index_of_op builder.location
    statx_entry ← build_statx_sqe h.codes index_of_op builder
    let (r, w) = push_entry h open_entry w
    returns (elim r [ ok _ ↦ push_entry h statx_entry w | err e ↦ (err e, w) ])

  -- Once both completions are in: read the ranges, unless one of the two has failed.
  unfoldable pub finish_opening :
      GetRanges → World Q X W → Exec (NextStep × GetRanges × World Q X W)
  finish_opening self w = do
    builder ← unwrap self.open_file_builder Panic.builder_is_taken
    if is_ready builder
        then (submit_get_range_ops self w >>= λ (self, w). returns (NextStep.done, self, w))
        else returns (NextStep.done, self, w)

  unfoldable pub process :
      UringUserData
      → ℤ
      → Statx
      → GetRanges
      → World Q X W
      → Exec (NextStep × GetRanges × World Q X W)
  process idx_and_opcode cqe_result statx self w = do
    let n = (self.n_cqes_received + 1) % 2 ^ 8
    builder ←
        (if leb_ℤ (pos 0) cqe_result
          then record_result h.codes idx_and_opcode cqe_result statx self.open_file_builder
          else returns self.open_file_builder)
    let self = record self { n_cqes_received = n; open_file_builder = builder }
    assert (leb n n_cqes_expected) Panic.too_many_cqes
    if n == n_cqes_expected then finish_opening self w else returns (NextStep.pending, self, w)

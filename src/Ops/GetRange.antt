-- ===== src/Ops/GetRange.antt =====
-- get_range.rs: one read of an open file.
use light_speed_io.Prelude.{
  ℕ, ◌+◌, ◌-◌, some, none, Exec, Panic, ◌>>=◌, ◌>>◌, assert, unwrap, unwrap_ok, returns, Result, ok,
  leb, ◌==◌, if◌then◌else◌,
}
use light_speed_io.Prelude.Int.{ℤ, pos, pos_part, neg_part, leb_ℤ}
use light_speed_io.Arc
use light_speed_io.Arc.{Arc}
use light_speed_io.UserData.{UringUserData}
use light_speed_io.OpenFile.{OpenFile}
use light_speed_io.Sqe.{OffsetRange, build_read_range_sqe}
use light_speed_io.Ops.State.{
  GetRange, Close, Operation, NextStep, Host, World, PushError, push_entry, send_message,
}
use light_speed_io.Ops.Close

-- The limit of one `read`, in bytes.
abbrev pub max_read : ℕ
max_read = 2147479552

-- `Range<isize>::len`: the numbers are compared as they stand, signs included.
abbrev pub offset_range_len : OffsetRange → ℕ
offset_range_len r = pos_part r.end + neg_part r.start - (pos_part r.start + neg_part r.end)

unfoldable pub new : Arc OpenFile → OffsetRange → ℕ → Exec GetRange
new file range user_data = do
  assert (leb (offset_range_len range) max_read) Panic.range_too_long
  returns (record { file = file; range = range; user_data = user_data; buffer = none })

module _ {Q X W : Type 0} (h : Host Q X W) where
  unfoldable pub submit_first_step :
      ℕ → GetRange → World Q X W → Exec (Result (Unit {0}) PushError × GetRange × World Q X W)
  submit_first_step index_of_op self w = do
    (entry, buffer, buffers) ←
        build_read_range_sqe h.codes h.alloc index_of_op self.file.value self.range w.buffers
    let (r, w) = push_entry h entry (record w { buffers = buffers })
    returns (r, record self { buffer = some buffer }, w)

  -- A result that is not negative is taken for a whole read.
  unfoldable pub send_chunk : ℤ → GetRange → World Q X W → Exec (GetRange × World Q X W)
  send_chunk cqe_result self w =
      if leb_ℤ (pos 0) cqe_result
      then (unwrap self.buffer Panic.buffer_is_taken >>= λ buffer.
          send_message h (ok (record { buffer = buffer; user_data = self.user_data })) w >>= λ w.
          returns (record self { buffer = none }, w))
      else returns (self, w)

  -- The sole owner of the file submits the close that takes its own place.
  unfoldable pub close_if_last :
      UringUserData → GetRange → World Q X W → Exec (NextStep × GetRange × World Q X W)
  close_if_last idx_and_opcode self w =
      if Arc.strong_count self.file w.files == 1
      then (let op : Close = Close.new self.file in
          let w' : World Q X W = record w { files = Arc.clone self.file w.files } in
          Close.submit_first_step h idx_and_opcode.index_of_op op w' >>= λ (r, w'').
          unwrap_ok r Panic.submission_queue_full
          >> returns (NextStep.replace_with (Operation.close op), self, w''))
      else returns (NextStep.done, self, w)

  unfoldable pub process :
      UringUserData → ℤ → GetRange → World Q X W → Exec (NextStep × GetRange × World Q X W)
  process idx_and_opcode cqe_result self w = do
    assert (idx_and_opcode.op == h.codes.read) Panic.unrecognised_opcode
    (self, w) ← send_chunk cqe_result self w
    close_if_last idx_and_opcode self w

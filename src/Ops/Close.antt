-- ===== src/Ops/Close.antt =====
-- close.rs: the last step of the life of a file.
use light_speed_io.Prelude.{ℕ, Exec, Panic, ◌>>=◌, ◌>>◌, assert, returns, Result, ◌==◌}
use light_speed_io.Prelude.Int.{ℤ}
use light_speed_io.Arc.{Arc}
use light_speed_io.UserData.{UringUserData}
use light_speed_io.OpenFile.{OpenFile}
use light_speed_io.Sqe.{build_close_sqe}
use light_speed_io.Ops.State.{Close, NextStep, Host, World, PushError, push_entry}

abbrev pub new : Arc OpenFile → Close
new file = record { file = file }

module _ {Q X W : Type 0} (h : Host Q X W) where
  unfoldable pub submit_first_step :
      ℕ → Close → World Q X W → Exec (Result (Unit {0}) PushError × World Q X W)
  submit_first_step index_of_op self w = do
    entry ← build_close_sqe h.codes index_of_op self.file.value.file_descriptor
    returns (push_entry h entry w)

  -- The result of the completion is not looked at.
  unfoldable pub process :
      UringUserData → ℤ → Close → World Q X W → Exec (NextStep × Close × World Q X W)
  process idx_and_opcode cqe_result self w = do
    assert (idx_and_opcode.op == h.codes.close) Panic.unrecognised_opcode
    returns (NextStep.done, self, w)

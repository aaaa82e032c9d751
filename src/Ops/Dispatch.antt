-- ===== src/Ops/Dispatch.antt =====
-- operation.rs: an operation of any kind, and the error that each may report.
use light_speed_io.Prelude.{ℕ, suc, Exec, ◌>>=◌, returns, Result, err}
use light_speed_io.Prelude.Int.{ℤ, pos, negsuc}
use light_speed_io.UserData.{UringUserData}
use light_speed_io.OpenFile.{Statx}
use light_speed_io.Ops.State.{Operation, NextStep, Host, World, PushError, send_message}
use light_speed_io.Ops.Close
use light_speed_io.Ops.GetRange
use light_speed_io.Ops.GetRanges

module _ {Q X W : Type 0} (h : Host Q X W) where
  unfoldable pub submit_first_step :
      ℕ → Operation → World Q X W → Exec (Result (Unit {0}) PushError × Operation × World Q X W)
  submit_first_step i (Operation.get_ranges s) w =
      GetRanges.submit_first_step h i s w >>= λ (r, w). returns (r, Operation.get_ranges s, w)
  submit_first_step i (Operation.get_range s) w =
      GetRange.submit_first_step h i s w >>= λ (r, s, w). returns (r, Operation.get_range s, w)
  submit_first_step i (Operation.close s) w =
      Close.submit_first_step h i s w >>= λ (r, w). returns (r, Operation.close s, w)

  unfoldable pub maybe_send_error : UringUserData → ℤ → Operation → World Q X W → Exec (World Q X W)
  maybe_send_error idx_and_opcode (pos n) op w = returns w
  maybe_send_error idx_and_opcode (negsuc k) op w =
      send_message h
        (err (record {
          errno = suc k;
          idx_and_opcode = idx_and_opcode;
          cqe_result = negsuc k;
          operation = op;
        }))
        w

  process_inner :
      UringUserData
      → ℤ
      → Statx
      → Operation
      → World Q X W
      → Exec (NextStep × Operation × World Q X W)
  process_inner u result statx (Operation.get_ranges s) w =
      GetRanges.process h u result statx s w >>= λ (n, s, w). returns (n, Operation.get_ranges s, w)
  process_inner u result statx (Operation.get_range s) w =
      GetRange.process h u result s w >>= λ (n, s, w). returns (n, Operation.get_range s, w)
  process_inner u result statx (Operation.close s) w =
      Close.process h u result s w >>= λ (n, s, w). returns (n, Operation.close s, w)

  unfoldable pub process_opcode_and_submit_next_step :
      UringUserData
      → ℤ
      → Statx
      → Operation
      → World Q X W
      → Exec (NextStep × Operation × World Q X W)
  unfolding process_inner
  process_opcode_and_submit_next_step u result statx op w =
      maybe_send_error u result op w >>= λ w. process_inner u result statx op w

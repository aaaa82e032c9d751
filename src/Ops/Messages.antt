-- ===== src/Ops/Messages.antt =====
-- What reaches the user: one message for each read that completes.
use light_speed_io.Prelude.{
  ℕ, suc, ◌≡◌, arith, [], ◌∷◌, ◌++◌, some, returns, ok, err, Exec-cases, inl, inr,
}
use light_speed_io.Prelude.Int.{ℤ, pos, negsuc}
use light_speed_io.UserData.{UringUserData}
use light_speed_io.OpenFile.{Statx}
use light_speed_io.Bytes.Frozen.{AlignedBytes}
use light_speed_io.Ops.State.{
  GetRange, Operation, NextStep, Message, Host, World, send_message, push_entry,
}
use light_speed_io.Ops.Observed.{Observed}
use light_speed_io.Ops.GetRange
use light_speed_io.Ops.GetRange.{send_chunk, close_if_last}
use light_speed_io.Ops.Close
use light_speed_io.Ops.Dispatch.{process_opcode_and_submit_next_step, maybe_send_error}

-- The answer to a read: its buffer with the user's own number, or the kernel's error.
abbrev pub answer : UringUserData → GetRange → AlignedBytes → ℤ → Message
answer u s b (pos n) = ok (record { buffer = b; user_data = s.user_data })
answer u s b (negsuc k) = err (record {
  errno = suc k;
  idx_and_opcode = u;
  cqe_result = negsuc k;
  operation = Operation.get_range s;
})

module _ {Q X W : Type 0} (h : Host Q X W) where
  close_if_last-tx :
      (u : UringUserData) (s : GetRange) (w : World Q X W) (n : NextStep) (s' : GetRange)
      (w' : World Q X W)
      → close_if_last h u s w ≡ returns (n, s', w')
      → w'.tx ≡ w.tx
  unfolding close_if_last Close.submit_first_step push_entry
  close_if_last-tx u s w n s' w' e = ground arith

  send_message-sent :
      (obs : Observed h) (m : Message) (w w' : World Q X W)
      → send_message h m w ≡ returns w'
      → obs.sent w'.tx ≡ obs.sent w.tx ++ (m ∷ [])
  unfolding send_message
  send_message-sent obs m w w' e = ground (arith, obs.sent-send m w.tx w'.tx)

  pub send_chunk_error :
      (k : ℕ) (s : GetRange) (w : World Q X W) → send_chunk h (negsuc k) s w ≡ returns (s, w)
  unfolding send_chunk
  send_chunk_error k s w = ground arith

  module _ (obs : Observed h) (u : UringUserData) (s : GetRange) (b : AlignedBytes)
      (held : s.buffer ≡ some b) where
    send_chunk-sent :
        (n : ℕ) (w : World Q X W) (s' : GetRange) (w' : World Q X W)
        → send_chunk h (pos n) s w ≡ returns (s', w')
        → obs.sent w'.tx ≡ obs.sent w.tx ++ (answer u s b (pos n) ∷ [])
    unfolding send_chunk
    send_chunk-sent n w s' w' e = elim (Exec-cases (send_message h (answer u s b (pos n)) w)) [
      | inl (w1, e1) ↦ ground (arith, send_message-sent obs (answer u s b (pos n)) w w1 e1)
      | inr (p, e1) ↦ ground arith
    ]

    -- For a read that holds its buffer, if its completion is processed without a panic then exactly one
    -- message is sent: the buffer with the user's own number where the result is not negative, else
    -- the kernel's error.
    pub process-get_range-sent :
        (result : ℤ) (statx : Statx) (w : World Q X W) (n : NextStep) (op' : Operation)
        (w' : World Q X W)
        → process_opcode_and_submit_next_step h u result statx (Operation.get_range s) w
          ≡ returns (n, op', w')
        → obs.sent w'.tx ≡ obs.sent w.tx ++ (answer u s b result ∷ [])
    unfolding process_opcode_and_submit_next_step maybe_send_error GetRange.process
    process-get_range-sent (pos k) statx w n op' w' e =
        elim (Exec-cases (send_chunk h (pos k) s w)) [
          | inl ((s1, w1), e1) ↦ elim (Exec-cases (close_if_last h u s1 w1)) [
            | inl ((n2, s2, w2), e2) ↦
                ground (arith, send_chunk-sent k w s1 w1 e1, close_if_last-tx u s1 w1 n2 s2 w2 e2)
            | inr (p, e2) ↦ ground arith
          ]
          | inr (p, e1) ↦ ground arith
        ]
    process-get_range-sent (negsuc k) statx w n op' w' e =
        elim (Exec-cases (send_message h (answer u s b (negsuc k)) w)) [
          | inl (w1, e1) ↦ elim (Exec-cases (close_if_last h u s w1)) [
            | inl ((n2, s2, w2), e2) ↦ ground (
              arith,
              send_chunk_error k s w1,
              send_message-sent obs (answer u s b (negsuc k)) w w1 e1,
              close_if_last-tx u s w1 n2 s2 w2 e2,
            )
            | inr (p, e2) ↦ ground (arith, send_chunk_error k s w1)
          ]
          | inr (p, e1) ↦ ground arith
        ]

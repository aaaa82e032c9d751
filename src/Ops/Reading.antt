-- ===== src/Ops/Reading.antt =====
-- The ends of a read, in full: as one of several owners of its file, and as the last.
use light_speed_io.Prelude.{
  ℕ, ◌^◌, ◌<◌, ◌≡◌, ◌≢◌, ◌⊎◌, inl, inr, arith, Option, some, none, returns, panics, Panic, true,
  ◌==◌, ◌>>=◌, ok, ℕ_discrete, Option-cases,
}
use light_speed_io.Prelude.Int.{ℤ, pos, negsuc}
use light_speed_io.Arc
use light_speed_io.UserData.{UringUserData, into_u64, new}
use light_speed_io.OpenFile.{Statx}
use light_speed_io.Bytes.Frozen.{AlignedBytes}
use light_speed_io.Sqe.{Entry, Request, build_close_sqe}
use light_speed_io.Ops.State.{GetRange, Operation, NextStep, Host, World, send_message, push_entry}
use light_speed_io.Ops.GetRange
use light_speed_io.Ops.GetRange.{send_chunk, close_if_last}
use light_speed_io.Ops.Close
use light_speed_io.Ops.Dispatch.{process_opcode_and_submit_next_step, maybe_send_error}
use light_speed_io.Ops.Messages.{answer, send_chunk_error}

-- The operation after its answer: a buffer that was sent is gone.
abbrev pub emptied : ℤ → Option AlignedBytes → Option AlignedBytes
emptied (pos n) buffer = none
emptied (negsuc k) buffer = buffer

abbrev pub answered : ℤ → GetRange → GetRange
answered result s = record s { buffer = emptied result s.buffer }

-- The entry that closes the file of a read, under the read's own index.
abbrev pub close_entry : {Q X W : Type 0} → Host Q X W → UringUserData → GetRange → Entry
close_entry h u s = record {
  request = Request.close s.file.value.file_descriptor;
  user_data = into_u64 (record { index_of_op = u.index_of_op; op = h.codes.close });
}

-- A completion that a read is waiting for, and a channel that takes the answer.
pub record IsAnswered {Q X W : Type 0} (h : Host Q X W) (u : UringUserData) (result : ℤ)
    (s : GetRange) (b : AlignedBytes) (w : World Q X W) (tx : X) : Type 0 where
  pub held : s.buffer ≡ some b
  pub code : u.op ≡ h.codes.read
  pub accepted : h.send (answer u s b result) w.tx ≡ some tx

module _ {Q X W : Type 0} (h : Host Q X W) where
  send_chunk_ok :
      (n : ℕ) (s : GetRange) (b : AlignedBytes) (w : World Q X W) (tx : X)
      → s.buffer ≡ some b
      → h.send (ok (record { buffer = b; user_data = s.user_data })) w.tx ≡ some tx
      → send_chunk h (pos n) s w ≡ returns (answered (pos n) s, record w { tx = tx })
  unfolding send_chunk send_message
  send_chunk_ok n s b w tx held e = ground arith

  process_lem :
      (u : UringUserData) (result : ℤ) (statx : Statx) (s : GetRange) (b : AlignedBytes)
      (w : World Q X W) (tx : X)
      → IsAnswered h u result s b w tx
      → process_opcode_and_submit_next_step h u result statx (Operation.get_range s) w ≡ (
          close_if_last h u (answered result s) (record w { tx = tx }) >>= λ (n, s', w').
          returns (n, Operation.get_range s', w'))
  unfolding process_opcode_and_submit_next_step maybe_send_error GetRange.process send_message
  process_lem u (pos n) statx s b w tx v =
      let c : (u.op == h.codes.read) ≡ true = ground (arith, v.code) in
      simp (c, send_chunk_ok n s b w tx v.held v.accepted)
  process_lem u (negsuc k) statx s b w tx v =
      let c : (u.op == h.codes.read) ≡ true = ground (arith, v.code) in
      simp (v.accepted, c, send_chunk_error)

  -- For a completion that a read waits for, while other operations own the file, the answer is sent and
  -- the read is done: no entry is submitted.
  pub process-get_range_shared :
      (u : UringUserData) (result : ℤ) (statx : Statx) (s : GetRange) (b : AlignedBytes)
      (w : World Q X W) (tx : X)
      → IsAnswered h u result s b w tx
      → Arc.strong_count s.file w.files ≢ 1
      → process_opcode_and_submit_next_step h u result statx (Operation.get_range s) w
        ≡ returns (NextStep.done, Operation.get_range (answered result s), record w { tx = tx })
  unfolding close_if_last
  process-get_range_shared u result statx s b w tx v ne =
      rw (process_lem u result statx s b w tx v) (ground arith)

  -- For a completion that a read waits for, where the read is the only owner of its file and the queue
  -- has room, it sends the answer, submits the close of the file under its own index, and hands its
  -- place over to that.
  pub process-get_range_last :
      (u : UringUserData) (result : ℤ) (statx : Statx) (s : GetRange) (b : AlignedBytes)
      (w : World Q X W) (tx : X) (sq : Q)
      → IsAnswered h u result s b w tx
      → Arc.strong_count s.file w.files ≡ 1
      → u.index_of_op < 2 ^ 32
      → h.sq_push (close_entry h u s) w.sq ≡ some sq
      → process_opcode_and_submit_next_step h u result statx (Operation.get_range s) w
        ≡ returns (
          NextStep.replace_with (Operation.close (record { file = s.file })),
          Operation.get_range (answered result s),
          record w { tx = tx; sq = sq; files = Arc.clone s.file w.files },
        )
  unfolding close_if_last Close.submit_first_step push_entry build_close_sqe new
  process-get_range_last u result statx s b w tx sq v one fits room =
      rw (process_lem u result statx s b w tx v) (ground arith)

  process-get_range_full :
      (u : UringUserData) (result : ℤ) (statx : Statx) (s : GetRange) (b : AlignedBytes)
      (w : World Q X W) (tx : X)
      → IsAnswered h u result s b w tx
      → Arc.strong_count s.file w.files ≡ 1
      → u.index_of_op < 2 ^ 32
      → h.sq_push (close_entry h u s) w.sq ≡ none
      → process_opcode_and_submit_next_step h u result statx (Operation.get_range s) w
        ≡ panics Panic.submission_queue_full
  unfolding close_if_last Close.submit_first_step push_entry build_close_sqe new
  process-get_range_full u result statx s b w tx v one fits full =
      rw (process_lem u result statx s b w tx v) (ground arith)

  -- For a completion that a read waits for, where the channel takes the answer: while other operations
  -- own the file, the answer is sent and the read is done, with no entry submitted; the last owner sends
  -- the answer, submits the close of the file under its own index, and hands its place over to that, or
  -- panics where the submission queue refuses the close.
  pub process-get_range_ends :
      (u : UringUserData) (result : ℤ) (statx : Statx) (s : GetRange) (b : AlignedBytes)
      (w : World Q X W) (tx : X)
      → IsAnswered h u result s b w tx
      → u.index_of_op < 2 ^ 32
      → ((Arc.strong_count s.file w.files ≢ 1)
          × (process_opcode_and_submit_next_step h u result statx (Operation.get_range s) w
              ≡ returns
                  (NextStep.done, Operation.get_range (answered result s), record w { tx = tx })))
        ⊎ ((Arc.strong_count s.file w.files ≡ 1)
            × (((sq : Q) × (h.sq_push (close_entry h u s) w.sq ≡ some sq)
                  × (process_opcode_and_submit_next_step h u result statx (Operation.get_range s) w
                      ≡ returns (
                        NextStep.replace_with (Operation.close (record { file = s.file })),
                        Operation.get_range (answered result s),
                        record w { tx = tx; sq = sq; files = Arc.clone s.file w.files },
                      )))
                ⊎ ((h.sq_push (close_entry h u s) w.sq ≡ none)
                    × (process_opcode_and_submit_next_step h u result statx
                          (Operation.get_range s)
                          w
                        ≡ panics Panic.submission_queue_full))))
  process-get_range_ends u result statx s b w tx v fits =
      elim (ℕ_discrete (Arc.strong_count s.file w.files) 1) [
        | no shared ↦ inl (shared, process-get_range_shared u result statx s b w tx v shared)
        | yes last ↦ elim (Option-cases (h.sq_push (close_entry h u s) w.sq)) [
          | inl full ↦
              inr
                (last, inr (full, process-get_range_full u result statx s b w tx v last fits full))
          | inr (sq, room) ↦ inr (
            last,
            inl (sq, room, process-get_range_last u result statx s b w tx sq v last fits room),
          )
        ]
      ]

-- ===== src/Ops/Tests.antt =====
-- The theorems about the handlers, at the sample host.
use light_speed_io.Prelude.{
  ℕ, ◌≡◌, ◌≢◌, ◌⊎◌, refl, arith, List, [], ◌∷◌, ◌++◌, none, some, inr, true, returns, panics, Panic,
  Exec, ◌>>=◌, err,
}
use light_speed_io.Sqe.{Entry, OffsetRange}
use light_speed_io.Prelude.Int.{pos, negsuc}
use light_speed_io.Arc
use light_speed_io.Arc.{Arc}
use light_speed_io.UserData.{UringUserData}
use light_speed_io.OpenFile.{OpenFile}
use light_speed_io.OpenFile
use light_speed_io.Ops.State.{GetRanges, Operation, NextStep, Message}
use light_speed_io.Ops.Dispatch.{process_opcode_and_submit_next_step}
use light_speed_io.Ops.GetRanges.{finish_opening}
use light_speed_io.Ops.GetRange
use light_speed_io.Ops.Limits.{IsTooLong, new_lem}
use light_speed_io.Ops.Messages.{answer, process-get_range-sent}
use light_speed_io.Ops.Reading.{close_entry, process-get_range_last, process-get_range_ends}
use light_speed_io.Ops.Opening.{reads_of, finish_opening-queues}
use light_speed_io.Ops.Completions.{
  process_pair, IsOpening, both_in, given_up, after, noted_open, failure, process_pair_order,
  process_pair_failed,
}
use light_speed_io.Ops.Sample.{
  host, host-Observed, SampleWorld, empty_world, shared_file, sample_buffer, reading, opening,
  sample_statx,
}

-- The file of `reading` with `n` owners, and the buffer with one.
abbrev owned_by : ℕ → SampleWorld
owned_by n = record empty_world { buffers = 1 ∷ []; files = n ∷ [] }

abbrev of_read : UringUserData
of_read = record { index_of_op = 3; op = 22 }

abbrev of_open : UringUserData
of_open = record { index_of_op = 3; op = 18 }

abbrev of_statx : UringUserData
of_statx = record { index_of_op = 3; op = 21 }

last_read_closes :
    process_opcode_and_submit_next_step host of_read
      (negsuc 4)
      sample_statx
      (Operation.get_range reading)
      (owned_by 1)
    ≡ returns (
      NextStep.replace_with (Operation.close (record { file = shared_file })),
      Operation.get_range reading,
      record (owned_by 1) {
        tx = answer of_read reading sample_buffer (negsuc 4) ∷ [];
        sq = close_entry host of_read reading ∷ [];
        files = Arc.clone shared_file (1 ∷ []);
      },
    )
unfolding Arc.strong_count
last_read_closes =
    process-get_range_last host of_read (negsuc 4) sample_statx reading sample_buffer (owned_by 1)
      (answer of_read reading sample_buffer (negsuc 4) ∷ []) (close_entry host of_read reading ∷ [])
      (record { held = refl; code = refl; accepted = refl }) refl (omega arith) refl

process-get_range_ends_example :
    ((Arc.strong_count shared_file (1 ∷ []) ≢ 1)
      × (process_opcode_and_submit_next_step host of_read
            (negsuc 4)
            sample_statx
            (Operation.get_range reading)
            (owned_by 1)
          ≡ returns (
            NextStep.done,
            Operation.get_range reading,
            record (owned_by 1) { tx = answer of_read reading sample_buffer (negsuc 4) ∷ [] },
          )))
    ⊎ ((Arc.strong_count shared_file (1 ∷ []) ≡ 1)
        × (((sq : List Entry) × (host.sq_push (close_entry host of_read reading) [] ≡ some sq)
              × (process_opcode_and_submit_next_step host of_read
                    (negsuc 4)
                    sample_statx
                    (Operation.get_range reading)
                    (owned_by 1)
                  ≡ returns (
                    NextStep.replace_with (Operation.close (record { file = shared_file })),
                    Operation.get_range reading,
                    record (owned_by 1) {
                      tx = answer of_read reading sample_buffer (negsuc 4) ∷ [];
                      sq = sq;
                      files = Arc.clone shared_file (1 ∷ []);
                    },
                  )))
            ⊎ ((host.sq_push (close_entry host of_read reading) [] ≡ none)
                × (process_opcode_and_submit_next_step host of_read
                      (negsuc 4)
                      sample_statx
                      (Operation.get_range reading)
                      (owned_by 1)
                    ≡ panics Panic.submission_queue_full))))
process-get_range_ends_example =
    process-get_range_ends host of_read (negsuc 4) sample_statx reading sample_buffer (owned_by 1)
      (answer of_read reading sample_buffer (negsuc 4) ∷ [])
      (record { held = refl; code = refl; accepted = refl }) (omega arith)

process-get_range-sent_example :
    answer of_read reading sample_buffer (negsuc 4) ∷ []
    ≡ [] ++ (answer of_read reading sample_buffer (negsuc 4) ∷ [])
process-get_range-sent_example =
    process-get_range-sent host host-Observed of_read reading sample_buffer refl (negsuc 4)
      sample_statx (owned_by 1) _ _ _ last_read_closes

opening-IsOpening : IsOpening host of_open of_statx opening (OpenFile.new [])
opening-IsOpening = record {
  open_code = refl;
  statx_code = refl;
  codes_differ = omega arith;
  none_received = refl;
  here = refl;
  not_open = refl;
  not_measured = refl;
}

process_pair_order_example :
    let goes_on : Exec (NextStep × NextStep × Operation × SampleWorld) =
      finish_opening host (both_in host opening (OpenFile.new []) 7 sample_statx) empty_world
      >>= λ (n, s, w). returns (NextStep.pending, n, Operation.get_ranges s, w) in
    (process_pair host of_open
        (pos 7)
        of_statx
        (pos 0)
        sample_statx
        (Operation.get_ranges opening)
        empty_world
      ≡ goes_on)
    × (process_pair host of_statx
          (pos 0)
          of_open
          (pos 7)
          sample_statx
          (Operation.get_ranges opening)
          empty_world
        ≡ goes_on)
process_pair_order_example =
    process_pair_order host of_open of_statx 7 0 sample_statx opening (OpenFile.new []) empty_world
      opening-IsOpening

-- The file opens, and cannot be measured.
abbrev not_measured : Operation
not_measured =
    Operation.get_ranges (given_up host opening (OpenFile.new []) (pos 7) (negsuc 1) sample_statx)

abbrev told_after_open : List Message
told_after_open =
    err (
      failure host of_statx 1
        (Operation.get_ranges (after host 1 (noted_open host (pos 7) (OpenFile.new [])) opening)))
    ∷ []

abbrev told_first : List Message
told_first = err (failure host of_statx 1 (Operation.get_ranges opening)) ∷ []

process_pair_failed_example :
    (process_pair host of_open
        (pos 7)
        of_statx
        (negsuc 1)
        sample_statx
        (Operation.get_ranges opening)
        empty_world
      ≡ returns (
        NextStep.pending,
        NextStep.done,
        not_measured,
        record empty_world { tx = told_after_open },
      ))
    × (process_pair host of_statx
          (negsuc 1)
          of_open
          (pos 7)
          sample_statx
          (Operation.get_ranges opening)
          empty_world
        ≡ returns
            (NextStep.pending, NextStep.done, not_measured, record empty_world { tx = told_first }))
process_pair_failed_example =
    process_pair_failed host of_open of_statx (pos 7) (negsuc 1) sample_statx opening
      (OpenFile.new []) empty_world [] told_after_open told_first told_first opening-IsOpening
      (inr refl) refl refl refl refl

abbrev opened : GetRanges
opened = both_in host opening (OpenFile.new []) 7 sample_statx

finish_opening-queues_example :
    (w' : SampleWorld) × (finish_opening host opened empty_world
      ≡ returns (NextStep.done, record opened { open_file_builder = none }, w'))
    × (w'.thread ≡ reads_of shared_file opening.ranges (5 ∷ 6 ∷ []))
    × (Arc.strong_count shared_file w'.files ≡ 2)
    × (w'.sq ≡ [])
    × (w'.tx ≡ [])
finish_opening-queues_example =
    finish_opening-queues host host-Observed opened
      (record {
        location = [];
        file_descriptor = some 7;
        statx = sample_statx;
        statx_is_initialised = true;
      })
      7 empty_world (record { here = refl; opened = refl; measured = refl }) (omega arith)
      (λ op t. (t ++ (op ∷ []), refl))

-- Both ranges may stand for more bytes than the limit; only the second is refused.
abbrev to_last_byte : OffsetRange
to_last_byte = record { start = pos 0; end = negsuc 0 }

abbrev three_gigabytes : OffsetRange
three_gigabytes = record { start = pos 0; end = pos 3000000000 }

to_last_byte_accepted :
    GetRange.new shared_file to_last_byte 5
    ≡ returns (record { file = shared_file; range = to_last_byte; user_data = 5; buffer = none })
unfolding GetRange.new
to_last_byte_accepted = refl

new_lem_example :
    (IsTooLong three_gigabytes
      × (GetRange.new shared_file three_gigabytes 5 ≡ panics Panic.range_too_long))
    ⊎ ((¬ IsTooLong three_gigabytes)
        × (GetRange.new shared_file three_gigabytes 5
            ≡ returns (record {
              file = shared_file;
              range = three_gigabytes;
              user_data = 5;
              buffer = none;
            })))
new_lem_example = new_lem shared_file three_gigabytes 5

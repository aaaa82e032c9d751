-- ===== src/Worker/Tests.antt =====
-- The theorems about the loop, at the sample host.
use light_speed_io.Prelude.{
  true, replicate, times, ℕ, zero, suc, ◌+◌, ◌≡◌, refl, arith, List, [], ◌∷◌, none, some, ok,
  returns,
}
use light_speed_io.Prelude.Int.{pos, negsuc}
use light_speed_io.Arc
use light_speed_io.UserData.{UringUserData, from_u64, into_u64, new}
use light_speed_io.Tracker
use light_speed_io.Tracker.{Tracker, range_from}
use light_speed_io.Tracker.Invariant.{Inv, filled}
use light_speed_io.Tracker.Slots.{vacant}
use light_speed_io.Sqe
use light_speed_io.UserData
use light_speed_io.Sqe.{Entry, Request, OpenFlag, StatxMask}
use light_speed_io.Ops.State.{Operation, NextStep, Completion, push_entry, Message}
use light_speed_io.Ops.GetRanges
use light_speed_io.Ops.Dispatch.{submit_first_step}
use light_speed_io.Ops.Reading.{process-get_range_shared}
use light_speed_io.Ops.Sample.{
  host, SampleWorld, empty_world, sample_buffer, reading, opening, sample_statx,
}
use light_speed_io.Worker.{UringWorker, Round, Pace, handle_cqe, submit, round, run}
use light_speed_io.Worker
use light_speed_io.Worker.Completions.{Settled, handle_cqe-Settled}
use light_speed_io.Worker.Lifetime.{
  Answered, read_in_flight, answers, process_reads, Accepts, process_reads_lem, process_two_threads,
}
use light_speed_io.Ops.Reading.{answered}
use light_speed_io.Ops.Sample.{host-Observed, shared_file}
use light_speed_io.Ops.Dispatch.{process_opcode_and_submit_next_step}
use light_speed_io.Prelude.{◌++◌}
use light_speed_io.Prelude.Int.{pos, negsuc}
use light_speed_io.UserData.{into_u64}
use light_speed_io.Ops.State.{NextStep}
use light_speed_io.Worker.Turns.{start, later, Reach-bounded}

-- One read in flight, in a tracker of one slot.
abbrev one_slot : Tracker Operation
one_slot = record {
  ops_in_flight = some (Operation.get_range reading) ∷ [];
  next_index = [];
  len = 1;
}

one_slot_free : (i : ℕ) → times i [] + 0 ≡ vacant one_slot.ops_in_flight i
one_slot_free zero = refl
one_slot_free (suc i) = refl

one_slot-Inv : Inv [] one_slot
one_slot-Inv = record { free = one_slot_free; counted = refl; complete = refl }

abbrev busy_world : SampleWorld
busy_world = record empty_world { buffers = 1 ∷ []; files = 2 ∷ [] }

abbrev SampleWorker : Type 0
SampleWorker = UringWorker (List Entry) (List Message) (List Operation)

abbrev busy : SampleWorker
busy = record { ops_in_flight = one_slot; world = busy_world }

-- A whole read, under index 0.
abbrev read_done : Completion
read_done = record { user_data = 22; result = pos 2000; statx = sample_statx }

abbrev answer_sent : List Message
answer_sent = ok (record { buffer = sample_buffer; user_data = 5 }) ∷ []

handle_cqe-Settled_example :
    (s' : SampleWorker) × (handle_cqe host read_done busy ≡ returns s')
    × Settled one_slot 0 NextStep.done
        (Operation.get_range (record reading { buffer = none }))
        (record busy_world { tx = answer_sent })
        s'
unfolding from_u64 Arc.strong_count
handle_cqe-Settled_example =
    handle_cqe-Settled host read_done busy (Operation.get_range reading) NextStep.done
      (Operation.get_range (record reading { buffer = none }))
      (record busy_world { tx = answer_sent }) one_slot-Inv refl
      (process-get_range_shared host (from_u64 22) (pos 2000) sample_statx reading sample_buffer
        busy_world answer_sent (record { held = refl; code = refl; accepted = refl }) (omega arith))

abbrev idle : SampleWorker
idle = Worker.new empty_world

-- A round that finds a task and submits it.
abbrev first_round : Round (List Entry)
first_round = record {
  kernel = λ q. q;
  len_before = 0;
  cq_is_empty = true;
  waits = true;
  registers = true;
  task = some (Operation.get_ranges opening);
  len_after = 2;
  completions = [];
}

-- The operation in slot 0, and its two entries in the queue.
abbrev two_entries : List Entry
two_entries =
    record {
      request = Request.open_at (negsuc 0) [] (OpenFlag.o_rdonly ∷ OpenFlag.o_direct ∷ []);
      user_data = 18;
    }
    ∷ record {
      request = Request.statx (negsuc 0) [] (StatxMask.statx_size ∷ StatxMask.statx_dioalign ∷ []);
      user_data = 21;
    }
    ∷ []

abbrev after_first : SampleWorker
after_first = record {
  ops_in_flight =
      filled 0 (Operation.get_ranges opening)
        (record { ops_in_flight = replicate 64 none; next_index = range_from 1 63; len = 0 });
  world = record empty_world { sq = two_entries };
}

first_round_lem : round host first_round idle ≡ returns (Pace.topping_up, after_first)
unfolding round submit Worker.take_task Tracker.new Tracker.get_next_index Tracker.put
    submit_first_step GetRanges.submit_first_step Sqe.build_openat_sqe Sqe.build_statx_sqe
    Sqe.with_user_data UserData.new into_u64 push_entry
first_round_lem = refl

Reach-bounded_example : ((after_first.ops_in_flight).len ≡ 1) × (63 + 1 ≡ 64)
Reach-bounded_example =
    Reach-bounded host (later first_round Pace.topping_up after_first start first_round_lem)

-- Two reads of the file of `reading`; the first fails.
abbrev first_read : Answered
first_read = record {
  range = record { start = pos 0; end = pos 2000 };
  user_data = 5;
  buffer = sample_buffer;
  idx_and_opcode = record { index_of_op = 0; op = 22 };
  result = negsuc 4;
  statx = sample_statx;
}

abbrev second_read : Answered
second_read = record first_read {
  user_data = 6;
  idx_and_opcode = record { index_of_op = 1; op = 22 };
  result = pos 2000;
}

host-Accepts : Accepts host
host-Accepts = λ m x. (x ++ (m ∷ []), refl)

process_reads_lem_example :
    (w' : SampleWorld) × (process_reads host shared_file (first_read ∷ second_read ∷ []) busy_world
      ≡ returns w')
    × (w'.tx ≡ answers shared_file (first_read ∷ second_read ∷ []))
    × (w'.sq
        ≡ record {
          request = Request.close 7;
          user_data = into_u64 (record { index_of_op = 1; op = 19 });
        }
          ∷ [])
    × (Arc.strong_count shared_file w'.files ≡ 1)
unfolding Arc.strong_count
process_reads_lem_example =
    process_reads_lem host host-Observed shared_file (first_read ∷ []) second_read busy_world _
      host-Accepts (refl, (refl, tt)) (omega arith) (omega arith) refl refl

process_two_threads_example :
    (w' : SampleWorld) × (v' : SampleWorld) × (process_opcode_and_submit_next_step host
        (first_read.idx_and_opcode)
        (negsuc 4)
        sample_statx
        (Operation.get_range (read_in_flight shared_file first_read))
        busy_world
      ≡ returns (
        NextStep.done,
        Operation.get_range (answered (negsuc 4) (read_in_flight shared_file first_read)),
        w',
      ))
    × (process_opcode_and_submit_next_step host
          (second_read.idx_and_opcode)
          (pos 2000)
          sample_statx
          (Operation.get_range (read_in_flight shared_file second_read))
          busy_world
        ≡ returns (
          NextStep.done,
          Operation.get_range (answered (pos 2000) (read_in_flight shared_file second_read)),
          v',
        ))
    × (w'.sq ≡ [])
    × (v'.sq ≡ [])
    × (Arc.strong_count shared_file (Arc.drop shared_file (Arc.drop shared_file (2 ∷ []))) ≡ 0)
unfolding Arc.strong_count
process_two_threads_example =
    process_two_threads host shared_file first_read second_read busy_world busy_world host-Accepts
      (refl, (refl, tt)) (omega arith) refl refl

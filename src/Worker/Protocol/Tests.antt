-- ===== src/Worker/Protocol/Tests.antt =====
-- The theorems about the protocol, on one operation from its submission to its end.
pub mod Reads
use light_speed_io.Prelude.{
  ℕ, ◌+◌, ◌*◌, ◌≤◌, ◌≡◌, refl, arith, replicate, true, List, [], ◌∷◌, ◌++◌, none, some, err,
  returns, panics, Panic, ◌≢◌,
}
use light_speed_io.Prelude.Int.{negsuc}
use light_speed_io.OpenFile
use light_speed_io.UserData
use light_speed_io.UserData.{from_u64, into_u64}
use light_speed_io.Sqe
use light_speed_io.Sqe.{Entry, Request, OpenFlag, StatxMask}
use light_speed_io.Tracker
use light_speed_io.Tracker.{Tracker, range_from}
use light_speed_io.Tracker.Invariant.{filled, vacated}
use light_speed_io.Tracker.Refines.{lookup}
use light_speed_io.Ops.State.{
  Operation, Completion, Message, Host, push_entry, send_message, drop_operation,
}
use light_speed_io.Ops.Observed.{Observed}
use light_speed_io.Ops.GetRanges
use light_speed_io.Ops.Dispatch.{
  submit_first_step, process_opcode_and_submit_next_step, maybe_send_error,
}
use light_speed_io.Ops.Expected.{AreOpCodes, is_external}
use light_speed_io.Worker.Protocol.Sums.{all_to_come}
use light_speed_io.Ops.Sample.{
  host, host-Observed, kernel_codes, empty_world, opening, sample_statx, queued-push_up_to,
  taken-host,
}
use light_speed_io.Worker
use light_speed_io.Worker.{UringWorker, handle_cqe, drain, submit, run}
use light_speed_io.Worker.Protocol.{
  System, Reach, takes, completes, submits, start, then_, completion, submissions, completions,
}
use light_speed_io.Worker.Protocol.Ended.{handle_cqe-is_external, run-outstanding}
use light_speed_io.Worker.Protocol.Bounded.{completions-le}
use light_speed_io.Worker.Protocol.Room.{AreTaken, no_more, one_of, RefusesAt, drain-is_external}

abbrev pub SampleWorker : Type 0
SampleWorker = UringWorker (List Entry) (List Message) (List Operation)

abbrev SampleSystem : Type 0
SampleSystem = System (List Entry) (List Message) (List Operation)

pub kernel_codes-AreOpCodes : AreOpCodes kernel_codes
kernel_codes-AreOpCodes = record {
  open_at_byte = omega arith;
  read_byte = omega arith;
  close_byte = omega arith;
  statx_byte = omega arith;
  differ = λ e. omega (arith, e);
}

abbrev open_entry : Entry
open_entry = record {
  request = Request.open_at (negsuc 0) [] (OpenFlag.o_rdonly ∷ OpenFlag.o_direct ∷ []);
  user_data = 18;
}

abbrev statx_entry : Entry
statx_entry = record {
  request = Request.statx (negsuc 0) [] (StatxMask.statx_size ∷ StatxMask.statx_dioalign ∷ []);
  user_data = 21;
}

abbrev idle : SampleWorker
idle = Worker.new empty_world

-- A slot that holds `opening` after `n` completions.
abbrev waiting : ℕ → Tracker Operation
waiting n =
    filled 0 (Operation.get_ranges (record opening { n_cqes_received = n }))
      (record { ops_in_flight = replicate 64 none; next_index = range_from 1 63; len = 0 })

abbrev submitted : SampleWorker
submitted = record {
  ops_in_flight = waiting 0;
  world = record empty_world { sq = open_entry ∷ statx_entry ∷ [] };
}

abbrev taken : SampleWorker
taken = record { ops_in_flight = waiting 0; world = empty_world }

submitted_lem : submit host (Operation.get_ranges opening) idle ≡ returns submitted
unfolding submit Tracker.new Tracker.get_next_index Tracker.put submit_first_step
    GetRanges.submit_first_step Sqe.build_openat_sqe Sqe.build_statx_sqe Sqe.with_user_data
    UserData.new into_u64 push_entry
submitted_lem = refl

-- Both entries are with the kernel.
both_taken :
    Reach host host-Observed empty_world
      (record { worker = taken; taken = open_entry ∷ statx_entry ∷ [] })
both_taken =
    then_
      (then_ (start refl) (
        submits (Operation.get_ranges opening) submitted (OpenFile.new [], refl, refl)
          submitted_lem))
      (takes (open_entry ∷ statx_entry ∷ []) [] refl)

-- The kernel finds no such file: each of the two completions fails, and says so.
abbrev not_found : ℕ → ℕ → Message
not_found n code = err (record {
  errno = 2;
  idx_and_opcode = record { index_of_op = 0; op = code };
  cqe_result = negsuc 1;
  operation = Operation.get_ranges (record opening { n_cqes_received = n });
})

abbrev half_done : SampleWorker
half_done = record {
  ops_in_flight = waiting 1;
  world = record empty_world { tx = not_found 0 21 ∷ [] };
}

abbrev all_done : SampleWorker
all_done = record {
  ops_in_flight = vacated 0 (waiting 1);
  world = record empty_world { tx = not_found 0 21 ∷ not_found 1 18 ∷ [] };
}

half_done_lem :
    handle_cqe host (completion statx_entry (negsuc 1) sample_statx) taken ≡ returns half_done
unfolding handle_cqe Worker.settle Tracker.get Tracker.as_mut Tracker.remove from_u64
    process_opcode_and_submit_next_step maybe_send_error send_message UserData.name
    GetRanges.process GetRanges.record_result GetRanges.finish_opening
    GetRanges.submit_get_range_ops Tracker.replace drop_operation
half_done_lem = refl

all_done_lem :
    handle_cqe host (completion open_entry (negsuc 1) sample_statx) half_done ≡ returns all_done
unfolding handle_cqe Worker.settle Tracker.get Tracker.as_mut Tracker.remove from_u64
    process_opcode_and_submit_next_step maybe_send_error send_message UserData.name
    GetRanges.process GetRanges.record_result GetRanges.finish_opening
    GetRanges.submit_get_range_ops Tracker.replace drop_operation
all_done_lem = refl

to_the_end : Reach host host-Observed empty_world (record { worker = all_done; taken = [] })
to_the_end =
    then_
      (then_ both_taken (
        completes (open_entry ∷ []) statx_entry [] (negsuc 1) sample_statx half_done refl
          half_done_lem))
      (completes [] open_entry [] (negsuc 1) sample_statx all_done refl all_done_lem)

run-outstanding_example :
    ((i : ℕ) → lookup all_done.ops_in_flight i ≡ none) × (run host [] all_done ≡ returns all_done)
run-outstanding_example =
    run-outstanding host host-Observed kernel_codes-AreOpCodes empty_world
      (record { worker = all_done; taken = [] }) to_the_end refl

completions-le_example :
    completions host host-Observed to_the_end + all_to_come all_done.ops_in_flight.ops_in_flight
    ≤ 2 * submissions host host-Observed to_the_end
completions-le_example = completions-le host host-Observed kernel_codes-AreOpCodes to_the_end

-- A channel that has no receiver left.
abbrev deaf : Host (List Entry) (List Message) (List Operation)
deaf = record host { send = λ m x. none }

never_sent : (m : Message) (x x' : List Message) → deaf.send m x ≡ some x' → x' ≡ x ++ (m ∷ [])
never_sent m x x' e = absurd (cc)

abbrev deaf-Observed : Observed deaf
deaf-Observed = record {
  queued = λ q. q;
  sent = λ x. x;
  tasks = λ t. t;
  queued-sq_push = queued-push_up_to 64;
  sent-send = never_sent;
  tasks-push_task = taken-host;
}

heard_by_none : submit deaf (Operation.get_ranges opening) idle ≡ returns submitted
unfolding submit Tracker.new Tracker.get_next_index Tracker.put submit_first_step
    GetRanges.submit_first_step Sqe.build_openat_sqe Sqe.build_statx_sqe Sqe.with_user_data
    UserData.new into_u64 push_entry
heard_by_none = refl

deaf_reach :
    Reach deaf deaf-Observed empty_world
      (record { worker = taken; taken = open_entry ∷ statx_entry ∷ [] })
deaf_reach =
    then_
      (then_ (start refl) (
        submits (Operation.get_ranges opening) submitted (OpenFile.new [], refl, refl)
          heard_by_none))
      (takes (open_entry ∷ statx_entry ∷ []) [] refl)

unheard :
    handle_cqe deaf (completion statx_entry (negsuc 1) sample_statx) taken
    ≡ panics Panic.channel_disconnected
unfolding handle_cqe Tracker.get Tracker.as_mut from_u64 process_opcode_and_submit_next_step
    maybe_send_error send_message
unheard = refl

handle_cqe-is_external_example : is_external Panic.channel_disconnected ≡ true
handle_cqe-is_external_example =
    handle_cqe-is_external deaf deaf-Observed kernel_codes-AreOpCodes empty_world
      (record { worker = taken; taken = open_entry ∷ statx_entry ∷ [] }) (open_entry ∷ [])
      statx_entry [] (negsuc 1) sample_statx Panic.channel_disconnected deaf_reach refl unheard

deaf-RefusesAt : RefusesAt deaf deaf-Observed kernel_codes-AreOpCodes 64
deaf-RefusesAt e q refused = ground arith

-- The completions of both entries, of which the first is not handled to its end.
abbrev arrived : List Completion
arrived =
    completion statx_entry (negsuc 1) sample_statx
    ∷ completion open_entry (negsuc 1) sample_statx
    ∷ []

arrived-AreTaken : AreTaken (open_entry ∷ statx_entry ∷ []) arrived
arrived-AreTaken =
    one_of (open_entry ∷ statx_entry ∷ []) (open_entry ∷ []) statx_entry [] (negsuc 1) sample_statx
      _ refl
      (one_of (open_entry ∷ []) [] open_entry [] (negsuc 1) sample_statx [] refl (no_more []))

drain_unheard : drain deaf arrived taken ≡ panics Panic.channel_disconnected
unfolding drain handle_cqe Tracker.get Tracker.as_mut from_u64 process_opcode_and_submit_next_step
    maybe_send_error send_message
drain_unheard = refl

drain-is_external_example :
    (is_external Panic.channel_disconnected ≡ true)
    × (Panic.channel_disconnected ≢ Panic.submission_queue_full)
drain-is_external_example =
    drain-is_external deaf deaf-Observed kernel_codes-AreOpCodes empty_world
      (record { worker = taken; taken = open_entry ∷ statx_entry ∷ [] }) arrived 64
      Panic.channel_disconnected deaf_reach arrived-AreTaken deaf-RefusesAt (omega arith)
      drain_unheard

-- ===== src/Worker/Protocol/Tests/Reads.antt =====
-- The theorems about answers, on one read and the close of its file.
use light_speed_io.Prelude.{◌+◌, ◌≡◌, refl, replicate, [], ◌∷◌, none, ok, returns}
use light_speed_io.Prelude.Int.{pos}
use light_speed_io.Sqe.{
  Entry, Request, build_read_range_sqe, build_read_sqe, skip_prefix, freeze_slice, with_user_data,
  build_close_sqe,
}
use light_speed_io.Arc
use light_speed_io.Bytes.{new_inner, from_size_align, is_power_of_two}
use light_speed_io.Bytes.Writable
use light_speed_io.Bytes.Writable.{freeze, split_to}
use light_speed_io.Bytes.Frozen.{set_slice}
use light_speed_io.UserData
use light_speed_io.UserData.{from_u64, into_u64}
use light_speed_io.Ops.GetRange
use light_speed_io.Ops.Close
use light_speed_io.Ops.Dispatch.{
  submit_first_step, process_opcode_and_submit_next_step, maybe_send_error,
}
use light_speed_io.Ops.State.{push_entry, send_message, drop_operation}
use light_speed_io.Tracker
use light_speed_io.Tracker.{Tracker, range_from}
use light_speed_io.Tracker.Invariant.{filled, vacated}
use light_speed_io.Ops.State.{Operation}
use light_speed_io.Ops.Sample.{
  host, host-Observed, SampleWorld, empty_world, reading, sample_statx, sample_buffer, shared_file,
}
use light_speed_io.Worker
use light_speed_io.Worker.{UringWorker, handle_cqe, submit}
use light_speed_io.Worker.Protocol.{
  Reach, takes, completes, submits, start, then_, completion, with_queue, reads_submitted,
}
use light_speed_io.Worker.Protocol.Tests.{SampleWorker, kernel_codes-AreOpCodes}
use light_speed_io.Worker.Protocol.Accounted.{
  answered, in_flight, reads-answered, reads-outstanding,
}

abbrev one_owner : SampleWorld
one_owner = record empty_world { files = 1 ∷ [] }

abbrev fresh_read : Operation
fresh_read = Operation.get_range (record reading { buffer = none })

abbrev read_entry : Entry
read_entry = record { request = Request.read 7 4096 2000 0; user_data = 22 }

abbrev close_entry : Entry
close_entry = record { request = Request.close 7; user_data = 19 }

abbrev slots_with : Operation → Tracker Operation
slots_with op =
    filled 0 op
      (record { ops_in_flight = replicate 64 none; next_index = range_from 1 63; len = 0 })

abbrev submitted : SampleWorker
submitted = record {
  ops_in_flight = slots_with (Operation.get_range reading);
  world = record one_owner { sq = read_entry ∷ []; buffers = 1 ∷ [] };
}

abbrev sent : SampleWorld
sent = record one_owner {
  tx = ok (record { buffer = sample_buffer; user_data = 5 }) ∷ [];
  buffers = 1 ∷ [];
}

abbrev closing : SampleWorker
closing = record {
  ops_in_flight = slots_with (Operation.close (record { file = shared_file }));
  world = record sent { sq = close_entry ∷ [] };
}

abbrev over : SampleWorker
over = record {
  ops_in_flight = vacated 0 (slots_with (Operation.close (record { file = shared_file })));
  world = record sent { files = 0 ∷ [] };
}

read_submitted : submit host fresh_read (Worker.new one_owner) ≡ returns submitted
unfolding submit submit_first_step GetRange.submit_first_step build_read_range_sqe build_read_sqe
    skip_prefix freeze_slice with_user_data Writable.new freeze split_to set_slice new_inner
    from_size_align is_power_of_two UserData.new into_u64 push_entry Tracker.new
    Tracker.get_next_index Tracker.put Arc.strong_count
read_submitted = refl

read_completed :
    handle_cqe host (completion read_entry (pos 2000) sample_statx) (with_queue [] submitted)
    ≡ returns closing
unfolding handle_cqe Worker.settle Tracker.get Tracker.as_mut Tracker.replace from_u64
    process_opcode_and_submit_next_step maybe_send_error send_message GetRange.process
    GetRange.send_chunk GetRange.close_if_last Close.submit_first_step build_close_sqe
    with_user_data UserData.new into_u64 push_entry Arc.strong_count Arc.clone Arc.drop
    drop_operation
read_completed = refl

close_completed :
    handle_cqe host (completion close_entry (pos 0) sample_statx) (with_queue [] closing)
    ≡ returns over
unfolding handle_cqe Worker.settle Tracker.get Tracker.as_mut Tracker.remove from_u64
    process_opcode_and_submit_next_step maybe_send_error Close.process Arc.drop drop_operation
    Tracker.replace
close_completed = refl

answered_and_closed : Reach host host-Observed one_owner (record { worker = over; taken = [] })
answered_and_closed =
    then_
      (then_
        (then_
          (then_ (then_ (start refl) (submits fresh_read submitted tt read_submitted))
            (takes (read_entry ∷ []) [] refl))
          (completes [] read_entry [] (pos 2000) sample_statx closing refl read_completed))
        (takes (close_entry ∷ []) [] refl))
      (completes [] close_entry [] (pos 0) sample_statx over refl close_completed)

reads-answered_example :
    answered host host-Observed kernel_codes-AreOpCodes 5 over.world
      + in_flight host host-Observed kernel_codes-AreOpCodes 5 over
    ≡ answered host host-Observed kernel_codes-AreOpCodes 5 one_owner
      + reads_submitted host host-Observed 5 answered_and_closed
reads-answered_example =
    reads-answered host host-Observed kernel_codes-AreOpCodes 5 answered_and_closed

reads-outstanding_example :
    answered host host-Observed kernel_codes-AreOpCodes 5 over.world
    ≡ answered host host-Observed kernel_codes-AreOpCodes 5 one_owner
      + reads_submitted host host-Observed 5 answered_and_closed
reads-outstanding_example =
    reads-outstanding host host-Observed kernel_codes-AreOpCodes 5 answered_and_closed refl

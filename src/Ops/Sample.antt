-- ===== src/Ops/Sample.antt =====
-- A host to run the handlers on: lists for the queues, with room for 64 entries.
use light_speed_io.Prelude.{
  ℕ, List, [], ◌∷◌, ◌++◌, Option, none, some, length, ltb, if◌then◌else◌, ◌≡◌, arith, true,
}
use light_speed_io.Arc.{Arc}
use light_speed_io.OpenFile.{OpenFile, OpenFileBuilder, Statx}
use light_speed_io.OpenFile
use light_speed_io.UserData.{OpCodes}
use light_speed_io.Bytes.Frozen.{AlignedBytes}
use light_speed_io.Sqe.{Entry, OffsetRange}
use light_speed_io.Prelude.Int.{pos}
use light_speed_io.Ops.State.{Host, World, Message, Operation, GetRange, GetRanges}
use light_speed_io.Ops.Observed.{Observed}

abbrev pub kernel_codes : OpCodes
kernel_codes = record { open_at = 18; read = 22; close = 19; statx = 21 }

abbrev pub SampleWorld : Type 0
SampleWorld = World (List Entry) (List Message) (List Operation)

abbrev pub push_up_to : ℕ → Entry → List Entry → Option (List Entry)
push_up_to n e q = if ltb (length q) n then some (q ++ (e ∷ [])) else none

abbrev pub host : Host (List Entry) (List Message) (List Operation)
host = record {
  codes = kernel_codes;
  alloc = λ _. some 4096;
  sq_push = push_up_to 64;
  enters = λ q. true;
  send = λ m x. some (x ++ (m ∷ []));
  push_task = λ op t. some (t ++ (op ∷ []));
}

pub queued-push_up_to :
    (n : ℕ) (e : Entry) (q q' : List Entry) → push_up_to n e q ≡ some q' → q' ≡ q ++ (e ∷ [])
queued-push_up_to n e q q' h = ground arith

pub sent-host : (m : Message) (x x' : List Message) → host.send m x ≡ some x' → x' ≡ x ++ (m ∷ [])
sent-host m x x' h = cc

pub taken-host :
    (op : Operation) (t t' : List Operation) → host.push_task op t ≡ some t' → t' ≡ t ++ (op ∷ [])
taken-host op t t' h = cc

-- Each queue shows its own contents.
abbrev pub host-Observed : Observed host
host-Observed = record {
  queued = λ q. q;
  sent = λ x. x;
  tasks = λ t. t;
  queued-sq_push = queued-push_up_to 64;
  sent-send = sent-host;
  tasks-push_task = taken-host;
}

abbrev pub empty_world : SampleWorld
empty_world = record { sq = []; tx = []; thread = []; buffers = []; files = [] }

abbrev pub data_file : OpenFile
data_file = record { location = []; file_descriptor = 7; size = 2000; alignment = 512 }

abbrev pub shared_file : Arc OpenFile
shared_file = record { id = 0; value = data_file }

abbrev pub whole_file : OffsetRange
whole_file = record { start = pos 0; end = pos 2000 }

abbrev pub sample_buffer : AlignedBytes
sample_buffer = record {
  buf = record {
    id = 0;
    value = record { buf = 4096; layout = record { size = 2048; align = 512 } };
  };
  range = record { start = 0; end = 2000 };
}

-- A read under way.
abbrev pub reading : GetRange
reading = record {
  file = shared_file;
  range = whole_file;
  user_data = 5;
  buffer = some sample_buffer;
}

-- An operation that waits for both of its completions.
abbrev pub opening : GetRanges
opening = record {
  open_file_builder = some (OpenFile.new []);
  ranges = whole_file ∷ whole_file ∷ [];
  user_data = 5 ∷ 6 ∷ [];
  n_cqes_received = 0;
}

abbrev pub sample_statx : Statx
sample_statx = record { stx_size = 2000; stx_dio_mem_align = 512 }

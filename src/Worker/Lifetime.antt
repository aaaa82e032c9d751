-- ===== src/Worker/Lifetime.antt =====
-- get_range.rs as worker.rs runs it: theorems about all the reads of one file.
use light_speed_io.Prelude.{
  ℕ, ◌+◌, ◌^◌, ◌<◌, ◌≡◌, refl, ◌∙◌, ap, arith, List, [], ◌∷◌, ◌++◌, some, Exec, returns, ◌>>=◌,
  length,
}
use mathlib.Core.List.{append_assoc}
use light_speed_io.Prelude.Int.{ℤ, pos, negsuc}
use light_speed_io.Arc
use light_speed_io.Arc.{Arc}
use light_speed_io.Arc.Laws.{strong_count-clone, strong_count-drop, length-clone, length-drop}
use light_speed_io.UserData.{UringUserData}
use light_speed_io.OpenFile.{OpenFile, Statx}
use light_speed_io.Bytes.Frozen.{AlignedBytes}
use light_speed_io.Sqe.{OffsetRange}
use light_speed_io.Ops.State.{GetRange, Operation, NextStep, Host, World, Message, drop_operation}
use light_speed_io.Ops.Dispatch.{process_opcode_and_submit_next_step}
use light_speed_io.Ops.Observed.{Observed}
use light_speed_io.Ops.Messages.{answer}
use light_speed_io.Ops.Reading.{
  answered, close_entry, process-get_range_shared, process-get_range_last,
}
use light_speed_io.Ops.State.{released}

-- A read of one file, submitted, and the completion that it gets.
pub record Answered : Type 0 where
  pub range : OffsetRange
  pub user_data : ℕ
  pub buffer : AlignedBytes
  pub idx_and_opcode : UringUserData
  pub result : ℤ
  pub statx : Statx

abbrev pub read_in_flight : Arc OpenFile → Answered → GetRange
read_in_flight file a = record {
  file = file;
  range = a.range;
  user_data = a.user_data;
  buffer = some a.buffer;
}

-- What each is answered with.
abbrev pub answer_to : Arc OpenFile → Answered → Message
answer_to file a = answer a.idx_and_opcode (read_in_flight file a) a.buffer a.result

abbrev pub answers : Arc OpenFile → List Answered → List Message
answers file [] = []
answers file (a ∷ reads) = answer_to file a ∷ answers file reads

module _ {Q X W : Type 0} (h : Host Q X W) where
  -- Each completion is handled and the operation settled, as in `UringWorker::run`.
  unfoldable pub process_reads : Arc OpenFile → List Answered → World Q X W → Exec (World Q X W)
  process_reads file [] w = returns w
  process_reads file (a ∷ reads) w =
      process_opcode_and_submit_next_step h a.idx_and_opcode a.result a.statx
        (Operation.get_range (read_in_flight file a)) w
      >>= λ (next, op, w'). process_reads file reads (released next op w')

  -- The completions carry the opcode of a read.
  abbrev pub AllReads : List Answered → Type 0
  AllReads [] = Unit {0}
  AllReads (a ∷ reads) = ((a.idx_and_opcode).op ≡ h.codes.read) × AllReads reads

  -- The user's end of the channel is open.
  abbrev pub Accepts : Type 0
  Accepts = (m : Message) (x : X) → (x' : X) × (h.send m x ≡ some x')

  -- What the end of a read that was answered leaves alone, and what it releases.
  dropped :
      (file : Arc OpenFile) (a : Answered) (r : ℤ) (w : World Q X W)
      → let w' = drop_operation (Operation.get_range (answered r (read_in_flight file a))) w in
        (w'.files ≡ Arc.drop file w.files) × (w'.sq ≡ w.sq) × (w'.tx ≡ w.tx)
  unfolding drop_operation
  dropped file a (pos n) w = (refl, refl, refl)
  dropped file a (negsuc n) w = (refl, refl, refl)

  -- For the reads that share a file, where nothing else owns it, the channel accepts every message and
  -- the queue has room for one entry: however each read ends, every one is answered, in order, and the
  -- last alone submits a close, which is then the only owner of the file.
  pub process_reads_lem :
      (obs : Observed h) (file : Arc OpenFile) (reads : List Answered) (last : Answered)
      (w : World Q X W) (sq : Q)
      → Accepts
      → AllReads (reads ++ (last ∷ []))
      → (last.idx_and_opcode).index_of_op < 2 ^ 32
      → file.id < length w.files
      → Arc.strong_count file w.files ≡ length reads + 1
      → h.sq_push (close_entry h last.idx_and_opcode (read_in_flight file last)) w.sq ≡ some sq
      → (w' : World Q X W) × (process_reads file (reads ++ (last ∷ [])) w ≡ returns w')
        × (obs.sent w'.tx ≡ obs.sent w.tx ++ answers file (reads ++ (last ∷ [])))
        × (w'.sq ≡ sq)
        × (Arc.strong_count file w'.files ≡ 1)
  unfolding process_reads
  process_reads_lem obs file [] last w sq accepts codes fits known one room =
      let s = read_in_flight file last in
      let (tx, sent) = accepts (answer_to file last) w.tx in
      let w1 : World Q X W = record w { tx = tx; sq = sq; files = Arc.clone file w.files } in
      let e =
        process-get_range_last h last.idx_and_opcode last.result last.statx s last.buffer w tx sq
          (record { held = refl; code = codes.0; accepted = sent }) (omega (arith, one)) fits
          room in
      let (files, same_sq, same_tx) = dropped file last last.result w1 in
      (
        drop_operation (Operation.get_range (answered last.result s)) w1,
        simp e,
        ap obs.sent same_tx ∙ obs.sent-send (answer_to file last) w.tx tx sent,
        same_sq,
        ap (Arc.strong_count file) files
            ∙ omega (
              arith,
              one,
              strong_count-clone file w.files known,
              strong_count-drop file (Arc.clone file w.files)
                  (omega (arith, known, length-clone file w.files)),
            ),
      )
  process_reads_lem obs file (a ∷ reads) last w sq accepts codes fits known many room =
      let s = read_in_flight file a in
      let (tx, sent) = accepts (answer_to file a) w.tx in
      let w1 : World Q X W = record w { tx = tx } in
      let e =
        process-get_range_shared h a.idx_and_opcode a.result a.statx s a.buffer w tx
          (record { held = refl; code = codes.0; accepted = sent })
          (λ one. omega (arith, one, many)) in
      let (files, same_sq, same_tx) = dropped file a a.result w1 in
      let w2 : World Q X W = drop_operation (Operation.get_range (answered a.result s)) w1 in
      let (w', done, answered_all, closed, alone) =
        process_reads_lem obs file reads last w2 sq accepts codes.1 fits
          (omega (arith, known, ap length files, length-drop file w.files))
          (omega
            (arith, many, ap (Arc.strong_count file) files, strong_count-drop file w.files known))
          (ap (h.sq_push (close_entry h last.idx_and_opcode (read_in_flight file last))) same_sq
            ∙ room) in
      (
        w',
        simp (e, done),
        answered_all
            ∙ ap (λ x. x ++ answers file (reads ++ (last ∷ [])))
                (ap obs.sent same_tx ∙ obs.sent-send (answer_to file a) w.tx tx sent)
            ∙ append_assoc (obs.sent w.tx) (answer_to file a ∷ [])
                (answers file (reads ++ (last ∷ []))),
        closed,
        alone,
      )

module _ {Q X W : Type 0} (h : Host Q X W) where
  pub process_two_threads :
      (file : Arc OpenFile) (a b : Answered) (w v : World Q X W)
      → Accepts h
      → AllReads h (a ∷ b ∷ [])
      → file.id < length w.files
      → Arc.strong_count file w.files ≡ 2
      → v.files ≡ w.files
      → (w' : World Q X W) × (v' : World Q X W) × (process_opcode_and_submit_next_step h
            a.idx_and_opcode a.result a.statx
            (Operation.get_range (read_in_flight file a))
            w
          ≡ returns
              (NextStep.done, Operation.get_range (answered a.result (read_in_flight file a)), w'))
        × (process_opcode_and_submit_next_step h b.idx_and_opcode b.result b.statx
              (Operation.get_range (read_in_flight file b))
              v
            ≡ returns (
              NextStep.done,
              Operation.get_range (answered b.result (read_in_flight file b)),
              v',
            ))
        × (w'.sq ≡ w.sq)
        × (v'.sq ≡ v.sq)
        × (Arc.strong_count file (Arc.drop file (Arc.drop file w.files)) ≡ 0)
  process_two_threads file a b w v accepts codes known two shared =
      let (tx, sent) = accepts (answer_to file a) w.tx in
      let (tx', sent') = accepts (answer_to file b) v.tx in
      (
        record w { tx = tx },
        record v { tx = tx' },
        process-get_range_shared h a.idx_and_opcode a.result a.statx (read_in_flight file a)
            a.buffer w tx (record { held = refl; code = codes.0; accepted = sent })
            (λ one. omega (arith, one, two)),
        process-get_range_shared h b.idx_and_opcode b.result b.statx (read_in_flight file b)
            b.buffer v tx' (record { held = refl; code = codes.1.0; accepted = sent' })
            (λ one. omega (arith, one, two, ap (Arc.strong_count file) shared)),
        refl,
        refl,
        omega (
          arith,
          two,
          strong_count-drop file w.files known,
          strong_count-drop file (Arc.drop file w.files)
              (omega (arith, known, length-drop file w.files)),
        ),
      )

-- ===== src/Ops/Opening.antt =====
-- Opening a file takes two completions, in either order; then the reads of its ranges are queued.
use light_speed_io.Prelude.{
  ℕ, ◌+◌, ◌<◌, ◌≤◌, ◌≡◌, refl, sym, arith, List, [], ◌∷◌, ◌++◌, some, none, returns, length,
  length-append, true, ◌∙◌, leb,
}
use mathlib.Core.List.{append-nil, append_assoc}
use light_speed_io.Arc
use light_speed_io.Arc.{Arc, Counts}
use light_speed_io.Arc.Laws.{strong_count-new, strong_count-clone, strong_count-drop, length-clone}
use light_speed_io.OpenFile.{OpenFile, OpenFileBuilder, build}
use light_speed_io.Sqe.{OffsetRange}
use light_speed_io.Ops.State.{GetRanges, Operation, NextStep, Host, World}
use light_speed_io.Ops.GetRange
use light_speed_io.Ops.GetRange.{offset_range_len, max_read}
use light_speed_io.Ops.GetRanges.{push_reads, submit_get_range_ops, finish_opening}
use light_speed_io.Ops.Observed.{Observed}

-- The operation that `GetRange::new` makes.
abbrev pub read_of : Arc OpenFile → OffsetRange → ℕ → Operation
read_of file range u =
    Operation.get_range (record { file = file; range = range; user_data = u; buffer = none })

-- One read for each range, with the number that stands beside it.
abbrev pub reads_of : Arc OpenFile → List OffsetRange → List ℕ → List Operation
reads_of file [] us = []
reads_of file (r ∷ rs) [] = []
reads_of file (r ∷ rs) (u ∷ us) = read_of file r u ∷ reads_of file rs us

-- Ranges that `GetRange::new` accepts.
abbrev pub AllShort : List OffsetRange → Type 0
AllShort [] = Unit {0}
AllShort (r ∷ rs) = (offset_range_len r ≤ max_read) × AllShort rs

module _ {Q X W : Type 0} (h : Host Q X W) (obs : Observed h) where
  -- What queueing the reads of a file does to the world.
  pub record Queued (file : Arc OpenFile) (ops : List Operation) (w w' : World Q X W) : Type 0 where
    pub tasks : obs.tasks w'.thread ≡ obs.tasks w.thread ++ ops
    pub owners : Arc.strong_count file w'.files ≡ Arc.strong_count file w.files + length ops
    pub sq : w'.sq ≡ w.sq
    pub tx : w'.tx ≡ w.tx
    pub size : length w'.files ≡ length w.files

  -- No push to the thread's own queue panics.
  abbrev pub AllTaken : Type 0
  AllTaken = (op : Operation) (t : W) → (t' : W) × (h.push_task op t ≡ some t')

  push_reads-Queued :
      (file : Arc OpenFile) (rs : List OffsetRange) (us : List ℕ) (w : World Q X W)
      → file.id < length w.files
      → AllShort rs
      → AllTaken
      → (w' : World Q X W) × (push_reads h file rs us w ≡ returns w')
        × Queued file (reads_of file rs us) w w'
  unfolding push_reads GetRange.new
  push_reads-Queued file [] us w lt short taken = (
    w,
    refl,
    record { tasks = sym (append-nil _); owners = omega arith; sq = refl; tx = refl; size = refl },
  )
  push_reads-Queued file (r ∷ rs) [] w lt short taken = (
    w,
    refl,
    record { tasks = sym (append-nil _); owners = omega arith; sq = refl; tx = refl; size = refl },
  )
  push_reads-Queued file (r ∷ rs) (u ∷ us) w lt short taken =
      let (t, pushed) = taken (read_of file r u) w.thread in
      let w1 : World Q X W = record w { files = Arc.clone file w.files; thread = t } in
      let (w', e, q) =
        push_reads-Queued file rs us w1 (omega (arith, length-clone file w.files)) short.1 taken in
      let test : leb (offset_range_len r) max_read ≡ true = ground (arith, short.0) in
      (
        w',
        simp (test, pushed, e),
        record {
          tasks =
              simp
                (q.tasks, obs.tasks-push_task (read_of file r u) w.thread t pushed, append_assoc);
          owners = omega (arith, q.owners, strong_count-clone file w.files lt);
          sq = q.sq;
          tx = q.tx;
          size = q.size ∙ length-clone file w.files;
        },
      )

  -- What a file is built from: both results are in.
  pub record IsReady (self : GetRanges) (b : OpenFileBuilder) (fd : ℕ) : Type 0 where
    pub here : self.open_file_builder ≡ some b
    pub opened : b.file_descriptor ≡ some fd
    pub measured : b.statx_is_initialised ≡ true

  abbrev pub built : OpenFileBuilder → ℕ → OpenFile
  built b fd = record {
    location = b.location;
    file_descriptor = fd;
    size = b.statx.stx_size;
    alignment = b.statx.stx_dio_mem_align;
  }

  -- Once a file is open and measured, and where `GetRange::new` accepts every range and no push to the
  -- thread's own queue panics, one read is queued for each range, in order, each with its own number; the reads are then the only owners of the
  -- file, and nothing is submitted or sent.
  pub finish_opening-queues :
      (self : GetRanges) (b : OpenFileBuilder) (fd : ℕ) (w : World Q X W)
      → IsReady self b fd
      → AllShort self.ranges
      → AllTaken
      → let file : Arc OpenFile = record { id = length w.files; value = built b fd } in
        (w' : World Q X W) × (finish_opening h self w
          ≡ returns (NextStep.done, record self { open_file_builder = none }, w'))
        × (obs.tasks w'.thread ≡ obs.tasks w.thread ++ reads_of file self.ranges self.user_data)
        × (Arc.strong_count file w'.files ≡ length (reads_of file self.ranges self.user_data))
        × (w'.sq ≡ w.sq)
        × (w'.tx ≡ w.tx)
  unfolding finish_opening submit_get_range_ops build
  finish_opening-queues self b fd w v short taken =
      let file : Arc OpenFile = record { id = length w.files; value = built b fd } in
      let w1 : World Q X W = record w { files = w.files ++ (1 ∷ []) } in
      let size : length w1.files ≡ length w.files + 1 = length-append w.files (1 ∷ []) in
      let (w2, e, q) =
        push_reads-Queued file self.ranges self.user_data w1 (omega (arith, size)) short taken in
      (
        record w2 { files = Arc.drop file w2.files },
        simp (v.here, v.opened, v.measured, e),
        q.tasks,
        omega (
          arith,
          q.owners,
          q.size,
          size,
          strong_count-new (built b fd) w.files,
          strong_count-drop file w2.files,
        ),
        q.sq,
        q.tx,
      )

-- ===== src/Ops/Completions.antt =====
-- The two completions that `GetRanges` waits for, in either order, and how each may fail.
use light_speed_io.Prelude.{
  ℕ, suc, ◌≡◌, ◌≢◌, ◌⊎◌, inl, inr, arith, Option, some, none, true, false, Exec, Exec-cases,
  returns, ◌>>=◌, err,
}
use light_speed_io.Prelude.Int.{ℤ, pos, negsuc, ltb_ℤ}
use light_speed_io.UserData.{UringUserData}
use light_speed_io.OpenFile.{
  OpenFileBuilder, Statx, set_file_descriptor, assume_statx_is_initialised, with_statx,
}
use light_speed_io.Ops.State.{GetRanges, Operation, NextStep, Host, World, Report, send_message}
use light_speed_io.Ops.GetRanges.{process, record_result, finish_opening}
use light_speed_io.Ops.Dispatch.{process_opcode_and_submit_next_step, maybe_send_error}

module _ {Q X W : Type 0} (h : Host Q X W) where
  -- One completion after another, with what each says comes next.
  unfoldable pub process_pair :
      (u : UringUserData) (r : ℤ) (u' : UringUserData) (r' : ℤ) (statx : Statx)
      → Operation
      → World Q X W
      → Exec (NextStep × NextStep × Operation × World Q X W)
  process_pair u r u' r' statx op w = do
    (first, op, w) ← process_opcode_and_submit_next_step h u r statx op w
    (second, op, w) ← process_opcode_and_submit_next_step h u' r' statx op w
    returns (first, second, op, w)

  -- The completions of an `openat` and of a `statx` for an operation that has had none.
  pub record IsOpening (opens stats : UringUserData) (self : GetRanges) (b : OpenFileBuilder)
      : Type 0 where
    pub open_code : opens.op ≡ h.codes.open_at
    pub statx_code : stats.op ≡ h.codes.statx
    pub codes_differ : h.codes.open_at ≢ h.codes.statx
    pub none_received : self.n_cqes_received ≡ 0
    pub here : self.open_file_builder ≡ some b
    pub not_open : b.file_descriptor ≡ none
    pub not_measured : b.statx_is_initialised ≡ false

  -- What each completion leaves in the builder.
  abbrev pub noted_open : ℤ → OpenFileBuilder → OpenFileBuilder
  noted_open (pos fd) b = set_file_descriptor fd b
  noted_open (negsuc k) b = b

  abbrev pub noted_statx : ℤ → Statx → OpenFileBuilder → OpenFileBuilder
  noted_statx (pos k) statx b = assume_statx_is_initialised (with_statx statx b)
  noted_statx (negsuc k) statx b = b

  -- The operation after `n` completions that left `b`.
  abbrev pub after : ℕ → OpenFileBuilder → GetRanges → GetRanges
  after n b self = record self { open_file_builder = some b; n_cqes_received = n }

  -- The operation with both results in.
  abbrev pub both_in : GetRanges → OpenFileBuilder → ℕ → Statx → GetRanges
  both_in self b fd statx = after 2 (noted_open (pos fd) (noted_statx (pos 0) statx b)) self

  first_noted :
      (opens stats : UringUserData) (fd k : ℕ) (statx : Statx) (self : GetRanges)
      (b : OpenFileBuilder) (w : World Q X W)
      → IsOpening opens stats self b
      → (process h opens (pos fd) statx self w
          ≡ returns (NextStep.pending, after 1 (noted_open (pos fd) b) self, w))
        × (process h stats (pos k) statx self w
            ≡ returns (NextStep.pending, after 1 (noted_statx (pos k) statx b) self, w))
  unfolding process record_result
  first_noted opens stats fd k statx self b w v = ground arith

  second_noted :
      (opens stats : UringUserData) (fd k : ℕ) (statx : Statx) (self : GetRanges)
      (b : OpenFileBuilder) (w : World Q X W)
      → IsOpening opens stats self b
      → (process h opens (pos fd) statx (after 1 (noted_statx (pos k) statx b) self) w
          ≡ finish_opening h (both_in self b fd statx) w)
        × (process h stats (pos k) statx (after 1 (noted_open (pos fd) b) self) w
            ≡ finish_opening h (both_in self b fd statx) w)
  unfolding process record_result
  second_noted opens stats fd k statx self b w v = ground arith

  pub process_pair_order :
      (opens stats : UringUserData) (fd k : ℕ) (statx : Statx) (self : GetRanges)
      (b : OpenFileBuilder) (w : World Q X W)
      → IsOpening opens stats self b
      → let goes_on : Exec (NextStep × NextStep × Operation × World Q X W) =
          finish_opening h (both_in self b fd statx) w >>= λ (n, s, w).
          returns (NextStep.pending, n, Operation.get_ranges s, w) in
        (process_pair opens (pos fd) stats (pos k) statx (Operation.get_ranges self) w ≡ goes_on)
        × (process_pair stats (pos k) opens (pos fd) statx (Operation.get_ranges self) w ≡ goes_on)
  unfolding process_pair process_opcode_and_submit_next_step maybe_send_error
  process_pair_order opens stats fd k statx self b w v =
      let (o, s) = first_noted opens stats fd k statx self b w v in
      let (o', s') = second_noted opens stats fd k statx self b w v in
      elim (Exec-cases (finish_opening h (both_in self b fd statx) w)) [
        | inl (r, e) ↦ (simp (o, s', e), simp (s, o', e))
        | inr (p, e) ↦ (simp (o, s', e), simp (s, o', e))
      ]

  -- The error that `maybe_send_error` sends for the result -(k + 1).
  abbrev pub failure : UringUserData → ℕ → Operation → Report
  failure u k op = record {
    errno = suc k;
    idx_and_opcode = u;
    cqe_result = negsuc k;
    operation = op;
  }

  -- The channel once the user has been told of a failed completion.
  abbrev pub reported : UringUserData → ℤ → GetRanges → X → Option X
  reported u (pos n) self tx = some tx
  reported u (negsuc k) self tx = h.send (err (failure u k (Operation.get_ranges self))) tx

  abbrev pub given_up : GetRanges → OpenFileBuilder → ℤ → ℤ → Statx → GetRanges
  given_up self b r r' statx = after 2 (noted_open r (noted_statx r' statx b)) self

  -- For an operation that has had no completion, if one of its two fails or both do, then in either
  -- order, where the channel takes what is sent: it is pending after the first and done after the
  -- second, and the world is as it was but for one error sent to the user for each that failed. So no
  -- read is queued, and there is no close for a file that was opened.
  pub process_pair_failed :
      (opens stats : UringUserData) (r r' : ℤ) (statx : Statx) (self : GetRanges)
      (b : OpenFileBuilder) (w : World Q X W) (x x' y y' : X)
      → IsOpening opens stats self b
      → (ltb_ℤ r (pos 0) ≡ true) ⊎ (ltb_ℤ r' (pos 0) ≡ true)
      → reported opens r self w.tx ≡ some x
      → reported stats r' (after 1 (noted_open r b) self) x ≡ some x'
      → reported stats r' self w.tx ≡ some y
      → reported opens r (after 1 (noted_statx r' statx b) self) y ≡ some y'
      → (process_pair opens r stats r' statx (Operation.get_ranges self) w
          ≡ returns (
            NextStep.pending,
            NextStep.done,
            Operation.get_ranges (given_up self b r r' statx),
            record w { tx = x' },
          ))
        × (process_pair stats r' opens r statx (Operation.get_ranges self) w
            ≡ returns (
              NextStep.pending,
              NextStep.done,
              Operation.get_ranges (given_up self b r r' statx),
              record w { tx = y' },
            ))
  unfolding process_pair process_opcode_and_submit_next_step maybe_send_error send_message process
      record_result finish_opening
  process_pair_failed opens stats (pos fd) (pos k) statx self b w x x' y y' v f a a' c c' =
      absurd (ground arith)
  process_pair_failed opens stats (pos fd) (negsuc k) statx self b w x x' y y' v f a a' c c' =
      ground arith
  process_pair_failed opens stats (negsuc j) (pos k) statx self b w x x' y y' v f a a' c c' =
      ground arith
  process_pair_failed opens stats (negsuc j) (negsuc k) statx self b w x x' y y' v f a a' c c' =
      ground arith

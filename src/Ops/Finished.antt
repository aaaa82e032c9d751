-- ===== src/Ops/Finished.antt =====
-- get_ranges.rs: what the last completion of an opening comes to.
use light_speed_io.Prelude.{
  ◌≡◌, ◌⊎◌, inl, inr, refl, arith, true, [], ◌∷◌, ◌++◌, none, some, returns, Bool-cases,
  Option-cases, if◌then◌else◌, length,
}
use light_speed_io.Prelude.Int.{ℤ, pos, negsuc, leb_ℤ}
use light_speed_io.Arc
use light_speed_io.UserData.{UringUserData}
use light_speed_io.OpenFile.{
  OpenFile, OpenFileBuilder, Statx, is_ready, build, set_file_descriptor,
  assume_statx_is_initialised, with_statx,
}
use light_speed_io.Ops.State.{GetRanges, NextStep, Host, World}
use light_speed_io.Ops.Observed.{Observed}
use light_speed_io.Ops.GetRanges.{finish_opening, submit_get_range_ops, record_result}
use light_speed_io.Ops.Expected.{AreOpCodes, Stops, push_reads-cases}

build-returns : (b : OpenFileBuilder) → is_ready b ≡ true → (f : OpenFile) × (build b ≡ returns f)
unfolding build
build-returns b ready = elim (Option-cases b.file_descriptor) [
  | inl missing ↦ absurd (ground arith)
  | inr (fd, here) ↦ (
    record {
      location = b.location;
      file_descriptor = fd;
      size = b.statx.stx_size;
      alignment = b.statx.stx_dio_mem_align;
    },
    ground arith,
  )
]

module _ {Q X W : Type 0} (h : Host Q X W) (obs : Observed h) (codes : AreOpCodes h.codes) where
  -- A result for one of the two opcodes never finds an opcode that it does not know.
  pub noted :
      (u : UringUserData) (result : ℤ) (statx : Statx) (s : GetRanges) (b : OpenFileBuilder)
      → s.open_file_builder ≡ some b
      → (u.op ≡ h.codes.open_at) ⊎ (u.op ≡ h.codes.statx)
      → (b' : OpenFileBuilder) × ((if leb_ℤ (pos 0) result
            then record_result h.codes u result statx s.open_file_builder
            else returns s.open_file_builder)
          ≡ returns (some b'))
  unfolding record_result
  noted u (negsuc k) statx s b here code = (b, ground arith)
  noted u (pos n) statx s b here (inl code) = (set_file_descriptor n b, ground arith)
  noted u (pos n) statx s b here (inr code) =
      (assume_statx_is_initialised (with_statx statx b), ground (arith, codes.differ))

  submit_get_range_ops-cases :
      (s : GetRanges) (b : OpenFileBuilder) (w : World Q X W)
      → s.open_file_builder ≡ some b
      → is_ready b ≡ true
      → Stops (submit_get_range_ops h s w)
        ⊎ ((s' : GetRanges) × (w' : World Q X W) × (submit_get_range_ops h s w ≡ returns (s', w'))
            × (w'.sq ≡ w.sq)
            × (w'.tx ≡ w.tx))
  unfolding submit_get_range_ops
  submit_get_range_ops-cases s b w here ready =
      let (opened, e) = build-returns b ready in
      let file : Arc.Arc OpenFile = record { id = length w.files; value = opened } in
      elim (push_reads-cases h obs file s.ranges s.user_data
        (record w { files = w.files ++ (1 ∷ []) })) [
          | inl (p, refused, out, other) ↦ inl (p, simp (here, e, refused), out, other)
          | inr (w', q, same, silent) ↦ inr (
            record s { open_file_builder = none },
            record w' { files = Arc.drop file w'.files },
            simp (here, e, q),
            same,
            silent,
          )
        ]

  pub finish_opening-cases :
      (s : GetRanges) (b : OpenFileBuilder) (w : World Q X W)
      → s.open_file_builder ≡ some b
      → Stops (finish_opening h s w)
        ⊎ ((s' : GetRanges) × (w' : World Q X W) × (finish_opening h s w
              ≡ returns (NextStep.done, s', w'))
            × (w'.sq ≡ w.sq)
            × (w'.tx ≡ w.tx))
  unfolding finish_opening
  finish_opening-cases s b w here = elim (Bool-cases (is_ready b)) [
    | inr waiting ↦ inr (s, w, simp (here, waiting), refl, refl)
    | inl ready ↦ elim (submit_get_range_ops-cases s b w here ready) [
      | inl (p, refused, out, other) ↦ inl (p, simp (here, ready, refused), out, other)
      | inr (s', w', e, same, silent) ↦ inr (s', w', simp (here, ready, e), same, silent)
    ]
  ]

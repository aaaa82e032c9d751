-- ===== src/OpenFile.antt =====
-- crates/lsio_uring/src/open_file.rs: a file that has been opened and measured, and its builder.
use light_speed_io.Prelude.{
  ℕ, Bool, true, false, ◌&&◌, List, Option, none, some, Exec, Panic, ◌>>=◌, ◌>>◌, assert, unwrap,
  returns,
}

-- A `CString`: the bytes before its terminator.
abbrev pub CString : Type 0
CString = List ℕ

-- The fields of `libc::statx` that the code reads.
pub record Statx : Type 0 where
  pub stx_size : ℕ  -- u64
  pub stx_dio_mem_align : ℕ  -- u32

pub record OpenFile : Type 0 where
  pub location : CString
  pub file_descriptor : ℕ
  pub size : ℕ  -- u64
  pub alignment : ℕ  -- u32

pub record OpenFileBuilder : Type 0 where
  pub location : CString
  pub file_descriptor : Option ℕ
  pub statx : Statx
  pub statx_is_initialised : Bool

abbrev pub new : CString → OpenFileBuilder
new location = record {
  location = location;
  file_descriptor = none;
  statx = record { stx_size = 0; stx_dio_mem_align = 0 };
  statx_is_initialised = false;
}

abbrev pub set_file_descriptor : ℕ → OpenFileBuilder → OpenFileBuilder
set_file_descriptor fd b = record b { file_descriptor = some fd }

abbrev pub assume_statx_is_initialised : OpenFileBuilder → OpenFileBuilder
assume_statx_is_initialised b = record b { statx_is_initialised = true }

-- The builder where its field holds `statx`: no code of the crate writes the field, only the kernel
-- may, through the pointer of `get_statx_ptr`.
abbrev pub with_statx : Statx → OpenFileBuilder → OpenFileBuilder
with_statx statx b = record b { statx = statx }

abbrev pub is_some {ℓ} : {A : Type ℓ} → Option A → Bool
is_some none = false
is_some (some _) = true

abbrev pub is_ready : OpenFileBuilder → Bool
is_ready b = is_some b.file_descriptor && b.statx_is_initialised

unfoldable pub build : OpenFileBuilder → Exec OpenFile
build b = do
  assert (is_ready b) Panic.builder_not_ready
  fd ← unwrap b.file_descriptor Panic.builder_not_ready
  returns (record {
    location = b.location;
    file_descriptor = fd;
    size = b.statx.stx_size;
    alignment = b.statx.stx_dio_mem_align;
  })

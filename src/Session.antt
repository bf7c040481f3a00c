-- ===== src/Session.antt =====
-- src/task/VolumeProtectTaskContext.cpp, VolumeTaskSession, with the configuration that its
-- components share (include/task/VolumeProtectTaskContext.h).
pub mod Blocks
pub mod Outcome
mod Tests
use volume_backup.Prelude.{
  ℕ, ◌+◌, ◌-◌, ◌/◌, ◌%◌, ◌^◌, Bool, true, false, not, ◌&&◌, ◌||◌, Option, none, some, List, ◌==◌,
  if◌then◌else◌,
}
use volume_backup.Task.{StatefulTask, is_failed, is_terminated, abort}
use mathlib.Core.Option

-- CopyFormat on a POSIX build; a number read from a copy's meta file may be neither.
pub data CopyFormat : Type 0 where
  bin image : CopyFormat
  other : ℕ → CopyFormat

-- VolumeTaskSharedConfig. A path is a list of character codes.
pub record SharedConfig : Type 0 where
  pub session_offset : ℕ
  pub session_size : ℕ
  pub block_size : ℕ  -- uint32_t
  pub hasher_enabled : Bool
  pub checkpoint_enabled : Bool
  pub hasher_worker_num : ℕ
  pub volume_path : List ℕ
  pub copy_file_path : List ℕ
  pub copy_format : CopyFormat
  pub lastest_checksum_bin_path : List ℕ
  pub prev_checksum_bin_path : List ℕ
  pub checkpoint_file_path : List ℕ
  pub skip_empty_block : Bool

-- `TotalBlocks`, of the session size and the block size (a block size of 0 traps in C++).
unfoldable pub total_blocks : ℕ → ℕ → ℕ
total_blocks session_size block_size =
    if session_size % block_size == 0
    then session_size / block_size
    else session_size / block_size + 1

-- `MaxIndex`, an unsigned difference.
pub max_index : ℕ → ℕ → ℕ
max_index session_size block_size = (total_blocks session_size block_size + 2 ^ 64 - 1) % 2 ^ 64

-- The three components; a null pointer is `none`.
pub record Session : Type 0 where
  pub reader : Option StatefulTask
  pub hasher : Option StatefulTask
  pub writer : Option StatefulTask

-- `p == nullptr || test(p)`, and `p != nullptr && test(p)`.
abbrev null_or : Option StatefulTask → (StatefulTask → Bool) → Bool
null_or none test = true
null_or (some t) test = test t

abbrev present_and : Option StatefulTask → (StatefulTask → Bool) → Bool
present_and none test = false
present_and (some t) test = test t

unfoldable pub is_session_terminated : Session → Bool
is_session_terminated s =
    null_or s.reader is_terminated
    && null_or s.hasher is_terminated
    && null_or s.writer is_terminated

unfoldable pub is_session_failed : Session → Bool
is_session_failed s =
    present_and s.reader is_failed
    || present_and s.hasher is_failed
    || present_and s.writer is_failed

pub abort_session : Session → Session
abort_session s = record {
  reader = Option.map abort s.reader;
  hasher = Option.map abort s.hasher;
  writer = Option.map abort s.writer;
}

abbrev code_of : Option StatefulTask → ℕ
code_of none = 0
code_of (some t) = t.error_code

-- `GetErrorCode`: the reader's error, or else the writer's, or else success (0).
pub session_error_code : Session → ℕ
session_error_code s =
    if not (code_of s.reader == 0)
    then code_of s.reader
    else if not (code_of s.writer == 0)
    then code_of s.writer
    else 0

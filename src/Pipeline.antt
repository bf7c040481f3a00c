-- ===== src/Pipeline.antt =====
-- What the reader, hasher and writer threads of a session share: VolumeTaskSharedContext and
-- VolumeConsumeBlock (include/task/VolumeProtectTaskContext.h), with the memory behind the pointers.
pub mod Reader
pub mod Hasher
pub mod Writer
pub mod Together
pub mod Tests
use volume_backup.Prelude.{ℕ, ◌+◌, ◌%◌, ◌^◌, Bool, Option, none, some, List, ◌==◌, if◌then◌else◌}
use volume_backup.Queue.{BlockingQueue}
use volume_backup.Allocator.{Allocator, Freed, freed, bad_address, undefined, block_free}
use volume_backup.Bitmap.{Bitmap}
use volume_backup.Task.{add64}
use volume_backup.Task.Statistics.{SessionCounter}

pub record ConsumeBlock : Type 0 where
  pub ptr : ℕ
  pub index : ℕ
  pub volume_offset : ℕ
  pub length : ℕ

pub record Context : Type 0 where
  pub processed : Bitmap
  pub written : Bitmap
  pub counter : SessionCounter
  pub allocator : Allocator
  pub hashing_queue : BlockingQueue ConsumeBlock
  pub write_queue : BlockingQueue ConsumeBlock
  -- the bytes of the block buffer at an address
  pub memory : ℕ → List ℕ
  -- the checksums of BlockHashingContext, one to a block index
  pub lastest_table : ℕ → List ℕ
  pub previous_table : ℕ → List ℕ

-- A table with a new entry at one place.
abbrev pub stored {ℓ} : {V : Type ℓ} → ℕ → V → (ℕ → V) → ℕ → V
stored place entry table x = if x == place then entry else table x

-- `allocator->BlockFree(ptr)`: `none` where it throws or writes out of bounds, so that the process
-- ends or has no defined state.
abbrev pub freed_context : Context → Freed → Option Context
freed_context c (freed a) = some (record c { allocator = a })
freed_context c bad_address = none
freed_context c undefined = none

unfoldable pub free_block : Context → ℕ → Option Context
free_block c ptr = freed_context c (block_free c.allocator ptr)

-- errno values on Linux, and the error codes of include/VolumeProtector.h.
abbrev pub eperm : ℕ
eperm = 1

abbrev pub eacces : ℕ
eacces = 13

abbrev pub enospc : ℕ
enospc = 28

abbrev pub err_volume_access_denied : ℕ
err_volume_access_denied = 0x00114514

abbrev pub err_copy_access_denied : ℕ
err_copy_access_denied = 0x00114515

abbrev pub err_no_space : ℕ
err_no_space = 0x00114516

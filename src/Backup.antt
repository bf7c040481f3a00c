-- ===== src/Backup.antt =====
-- src/task/VolumeBackupTask.cpp: how a backup is split into sessions, and the checks before it.
pub mod Split
pub mod Increment
pub mod Thread
pub mod Hashing
mod Tests
use mathlib.Core.Option
use volume_backup.Prelude.{
  ℕ, zero, suc, ◌+◌, ◌-◌, Bool, true, false, ◌&&◌, not, ◌||◌, Option, none, some, List, [], ◌∷◌,
  ltb, leb, ◌==◌, if◌then◌else◌,
}
use volume_backup.Text.{Text}
use volume_backup.Text.Path.{
  checksum_bin_path, copy_data_file_path, writer_bitmap_file_path, file_name,
}
use volume_backup.Session.{SharedConfig}
use volume_backup.Task.{add64}
use volume_backup.Copy.{
  CopySegment, BackupType, full, forever_inc, VolumeCopyMeta, VolumeBackupConfig,
  default_block_size,
}

pub is_increment_backup : VolumeBackupConfig → Bool
is_increment_backup c = elim c.backup_type [ full ↦ false | forever_inc ↦ true ]

-- `NewVolumeTaskSession`.
unfoldable pub new_volume_task_session : VolumeBackupConfig → ℕ → ℕ → ℕ → SharedConfig
unfolding is_increment_backup
new_volume_task_session c session_offset session_size session_index = record {
  session_offset = session_offset;
  session_size = session_size;
  block_size = c.block_size;
  hasher_enabled = c.hasher_enabled;
  checkpoint_enabled = c.enable_checkpoint;
  hasher_worker_num = c.hasher_num;
  volume_path = c.volume_path;
  copy_file_path =
      copy_data_file_path c.output_copy_data_dir c.copy_name c.copy_format session_index;
  copy_format = c.copy_format;
  lastest_checksum_bin_path = checksum_bin_path c.output_copy_meta_dir c.copy_name session_index;
  prev_checksum_bin_path =
      if is_increment_backup c
      then checksum_bin_path c.prev_copy_meta_dir c.copy_name session_index
      else [];
  checkpoint_file_path = writer_bitmap_file_path c.checkpoint_dir c.copy_name session_index;
  skip_empty_block = c.skip_empty_block;
}

-- The segment that the meta file records for a session: file names without their directories.
unfoldable pub copy_segment : VolumeBackupConfig → ℕ → ℕ → ℕ → CopySegment
copy_segment c session_offset session_size session_index = record {
  copy_data_file =
      file_name
        (copy_data_file_path c.output_copy_data_dir c.copy_name c.copy_format session_index);
  checksum_bin_file =
      file_name (checksum_bin_path c.output_copy_meta_dir c.copy_name session_index);
  index = session_index;
  offset = session_offset;
  length = session_size;
}

-- What the loop of `Prepare` fills: the segments, `m_sessionQueue` and `m_checkpointFiles`.
pub record Prepared : Type 0 where
  pub segments : List CopySegment
  pub sessions : List SharedConfig
  pub checkpoint_files : List Text

unfoldable pub add_session : VolumeBackupConfig → ℕ → ℕ → ℕ → Prepared → Prepared
add_session c session_offset session_size session_index p = record {
  segments = copy_segment c session_offset session_size session_index ∷ p.segments;
  sessions = new_volume_task_session c session_offset session_size session_index ∷ p.sessions;
  checkpoint_files =
      writer_bitmap_file_path c.checkpoint_dir c.copy_name session_index ∷ p.checkpoint_files;
}

-- The session size of one round: the configured size, or what is left of the volume.
unfoldable pub session_size_at : ℕ → ℕ → ℕ → ℕ
session_size_at session_size volume_size session_offset =
    if leb volume_size (add64 session_offset session_size)
    then volume_size - session_offset
    else session_size

-- The loop of `Prepare` from an offset and index on. `sessionIndex` is an `int`, here a number: the
-- two agree up to 2^31 - 1 sessions. `none`: the fuel ran out.
unfoldable pub split_from : VolumeBackupConfig → ℕ → ℕ → ℕ → ℕ → Option Prepared
split_from c volume_size zero session_offset session_index = none
split_from c volume_size (suc fuel) session_offset session_index =
    let size = session_size_at c.session_size volume_size session_offset in
    let rest =
      Option.map (add_session c session_offset size session_index)
        (split_from c volume_size fuel (add64 session_offset size) (session_index + 1)) in
    if ltb session_offset volume_size
    then rest
    else some (record { segments = []; sessions = []; checkpoint_files = [] })

-- Each round moves on by one byte at least.
unfoldable pub split_sessions : VolumeBackupConfig → ℕ → Option Prepared
unfolding split_from session_size_at add_session new_volume_task_session copy_segment
split_sessions c volume_size = split_from c volume_size (suc volume_size) 0 0

unfoldable pub copy_meta : VolumeBackupConfig → ℕ → List CopySegment → VolumeCopyMeta
copy_meta c volume_size segments = record {
  copy_name = c.copy_name;
  backup_type = c.backup_type;
  copy_format = c.copy_format;
  volume_size = volume_size;
  block_size = default_block_size;
  segments = segments;
  volume_path = c.volume_path;
}

-- `ValidateIncrementBackup`, with the existence of the data and the previous meta directory and
-- with what `ReadVolumeCopyMeta` finds there.
pub validate_increment_backup : VolumeBackupConfig → Bool → Bool → Option VolumeCopyMeta → Bool
validate_increment_backup c data_dir_exists prev_meta_dir_exists previous =
    if not data_dir_exists || not prev_meta_dir_exists
    then false
    else elim previous [ none ↦ false | some meta ↦ c.block_size == meta.block_size ]

-- `Prepare`, with the answers of `PrepareCopyResource`, of `ValidateIncrementBackup` and of
-- `SaveVolumeCopyMeta`. `some none` is the return value false; `none` is out of fuel.
unfoldable pub prepare :
    VolumeBackupConfig → ℕ → Bool → Bool → (VolumeCopyMeta → Bool) → Option (Option Prepared)
unfolding copy_meta is_increment_backup
prepare c volume_size resource_ready increment_valid save_meta =
    if not resource_ready
    then some none
    else if is_increment_backup c && not increment_valid
    then some none
    else elim (split_sessions c volume_size) [
      | none ↦ none
      | some p ↦ some (if save_meta (copy_meta c volume_size p.segments) then some p else none)
    ]

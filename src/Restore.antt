-- ===== src/Restore.antt =====
-- src/task/VolumeRestoreTask.cpp and src/VolumeProtector.cpp: the sessions of a restore, and the
-- checks before it.
pub mod Sessions
pub mod Thread
mod Tests
use volume_backup.Prelude.{
  ℕ, Bool, true, false, not, ◌||◌, ◌&&◌, Option, none, some, List, [], ◌∷◌, map, ◌==◌,
  if◌then◌else◌,
}
use volume_backup.Text.{Text}
use volume_backup.Text.Path.{copy_data_file_path, writer_bitmap_file_path}
use volume_backup.Session.{SharedConfig, CopyFormat, image}
use volume_backup.Copy.{CopySegment, VolumeCopyMeta, VolumeRestoreConfig}

-- One round of the loop of `VolumeRestoreTask::Prepare`. The members that the code leaves alone are
-- empty, as `VolumeTaskSharedConfig` constructs them, and the number of hashers is not read.
pub restore_session : VolumeRestoreConfig → VolumeCopyMeta → CopySegment → SharedConfig
restore_session c meta segment = record {
  session_offset = segment.offset;
  session_size = segment.length;
  block_size = meta.block_size;
  hasher_enabled = false;
  checkpoint_enabled = c.enable_checkpoint;
  hasher_worker_num = 0;
  volume_path = c.volume_path;
  copy_file_path =
      copy_data_file_path c.copy_data_dir meta.copy_name meta.copy_format segment.index;
  copy_format = meta.copy_format;
  lastest_checksum_bin_path = [];
  prev_checksum_bin_path = [];
  checkpoint_file_path = writer_bitmap_file_path c.checkpoint_dir meta.copy_name segment.index;
  skip_empty_block = false;
}

-- `m_sessionQueue` after `Prepare`; `none` where `PrepareCopyResource` fails.
pub prepare : VolumeRestoreConfig → VolumeCopyMeta → Bool → Option (List SharedConfig)
unfolding restore_session
prepare c meta resource_ready =
    if not resource_ready then none else some (map (restore_session c meta) meta.segments)

-- What `BuildRestoreTask` returns.
pub data RestoreTask : Type 0 where
  refused : RestoreTask
  zero_copy_task restore_task : VolumeRestoreConfig → VolumeCopyMeta → RestoreTask

is_image : CopyFormat → Bool
is_image image = true
is_image _ = false

-- `VolumeProtectTask::BuildRestoreTask`, with the size of the target volume (`none` is the exception
-- of `ReadVolumeSize`), the existence of the two directories, and what `ReadVolumeCopyMeta` finds.
pub build_restore_task :
    VolumeRestoreConfig → Option ℕ → Bool → Bool → Option VolumeCopyMeta → RestoreTask
unfolding is_image
build_restore_task c none data_dir_exists meta_dir_exists found = refused
build_restore_task c (some volume_size) data_dir_exists meta_dir_exists found =
    if volume_size == 0
    then refused
    else if not data_dir_exists || not meta_dir_exists
    then refused
    else elim found [
      | none ↦ refused
      | some meta ↦
          if not (volume_size == meta.volume_size)
          then refused
          else if c.enable_zero_copy
          then (if not (is_image meta.copy_format) then refused else zero_copy_task c meta)
          else restore_task c meta
    ]

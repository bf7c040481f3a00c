-- ===== src/Backup/Increment.antt =====
-- src/task/VolumeBackupTask.cpp, `ValidateIncrementBackup` against the meta data that `Prepare` saves.
use volume_backup.Prelude.{ℕ, ◌≡◌, ◌↔◌, Bool, true, some, List, arith}
use volume_backup.Copy.{CopySegment, VolumeBackupConfig, default_block_size}
use volume_backup.Backup.{copy_meta, validate_increment_backup}

-- The block size that a backup saves in its meta file is not the one that it used, so the check of an
-- incremental backup on it does not compare the two: whatever block size the previous backup was
-- made with, the check passes exactly when both directories exist and the new backup's block size
-- is the default one.
pub increment_check :
    (previous next : VolumeBackupConfig) (volume_size : ℕ) (segments : List CopySegment)
    (data_dir_exists meta_dir_exists : Bool)
    → (validate_increment_backup next data_dir_exists meta_dir_exists
          (some (copy_meta previous volume_size segments))
        ≡ true)
      ↔ ((data_dir_exists ≡ true)
          × (meta_dir_exists ≡ true)
          × (next.block_size ≡ default_block_size))
unfolding validate_increment_backup copy_meta
increment_check previous next volume_size segments data_dir_exists meta_dir_exists = ground arith

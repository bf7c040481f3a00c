-- ===== src/Copy.antt =====
-- The meta data of a volume copy (include/common/VolumeUtils.h) and the configurations of backup and
-- restore (include/VolumeProtector.h).
use volume_backup.Prelude.{ℕ, ◌*◌, Bool, List}
use volume_backup.Text.{Text}
use volume_backup.Session.{CopyFormat}

-- CopySegment: volume data in [offset, offset + length) stands in the file.
pub record CopySegment : Type 0 where
  pub copy_data_file : Text
  pub checksum_bin_file : Text
  pub index : ℕ
  pub offset : ℕ
  pub length : ℕ

pub data BackupType : Type 0 where
  full forever_inc : BackupType

-- The fields of VolumeCopyMeta that are written to its file. The two enumerations stand for the
-- integers that they are cast to.
pub record VolumeCopyMeta : Type 0 where
  pub copy_name : Text
  pub backup_type : BackupType
  pub copy_format : CopyFormat
  pub volume_size : ℕ
  pub block_size : ℕ
  pub segments : List CopySegment
  pub volume_path : Text

pub record VolumeBackupConfig : Type 0 where
  pub backup_type : BackupType
  pub copy_format : CopyFormat
  pub copy_name : Text
  pub volume_path : Text
  pub prev_copy_meta_dir : Text
  pub output_copy_data_dir : Text
  pub output_copy_meta_dir : Text
  pub block_size : ℕ
  pub session_size : ℕ
  pub hasher_num : ℕ
  pub hasher_enabled : Bool
  pub enable_checkpoint : Bool
  pub checkpoint_dir : Text
  pub clear_checkpoints_on_succeed : Bool
  pub skip_empty_block : Bool

pub record VolumeRestoreConfig : Type 0 where
  pub volume_path : Text
  pub copy_name : Text
  pub copy_data_dir : Text
  pub copy_meta_dir : Text
  pub enable_checkpoint : Bool
  pub checkpoint_dir : Text
  pub clear_checkpoints_on_succeed : Bool
  pub enable_zero_copy : Bool

abbrev pub default_block_size : ℕ
default_block_size = 4 * 1024 * 1024

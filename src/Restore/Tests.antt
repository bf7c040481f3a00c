-- ===== src/Restore/Tests.antt =====
-- The sessions of a restore of a small copy.
use volume_backup.Prelude.{◌≡◌, refl, true, false, some, List, arith}
use volume_backup.Text.{codes}
use volume_backup.Session.{SharedConfig, bin}
use volume_backup.Copy.{full, VolumeBackupConfig, VolumeRestoreConfig}
use volume_backup.Backup.{Prepared, copy_meta}
use volume_backup.Backup as Backup
use volume_backup.Backup.Split.{Covers}
use volume_backup.Restore.{prepare}
use volume_backup.Restore.Sessions.{SameRanges, restore_sessions}

abbrev backed_up : VolumeBackupConfig
backed_up = record {
  backup_type = full;
  copy_format = bin;
  copy_name = codes "c1";
  volume_path = codes "/dev/sdb";
  prev_copy_meta_dir = codes "";
  output_copy_data_dir = codes "/data";
  output_copy_meta_dir = codes "/meta";
  block_size = 4096;
  session_size = 8192;
  hasher_num = 4;
  hasher_enabled = true;
  enable_checkpoint = true;
  checkpoint_dir = codes "/checkpoint";
  clear_checkpoints_on_succeed = true;
  skip_empty_block = false;
}

abbrev restored : VolumeRestoreConfig
restored = record {
  volume_path = codes "/dev/sdc";
  copy_name = codes "c1";
  copy_data_dir = codes "/data";
  copy_meta_dir = codes "/meta";
  enable_checkpoint = false;
  checkpoint_dir = codes "/checkpoint";
  clear_checkpoints_on_succeed = false;
  enable_zero_copy = false;
}

restore_sessions_example :
    (p : Prepared) × (rs : List SharedConfig) × (Backup.prepare backed_up 20000 true true
        (λ _. true)
      ≡ some (some p))
    × (prepare restored (copy_meta backed_up 20000 p.segments) true ≡ some rs)
    × SameRanges rs p.sessions
    × Covers 8192 20000 0 p.sessions
restore_sessions_example =
    restore_sessions backed_up restored 20000 (omega arith) (omega arith) refl

-- ===== src/Backup/Tests.antt =====
-- The sessions of a small backup.
use volume_backup.Prelude.{length, ◌<◌, ◌≤◌, ◌*◌, ◌^◌, ◌-◌, ◌≡◌, ◌↔◌, true, false, some, [], arith}
use volume_backup.Text.{codes}
use volume_backup.Session.{image}
use volume_backup.Copy.{full, forever_inc, VolumeBackupConfig, default_block_size}
use volume_backup.Backup.{Prepared, split_sessions, copy_meta, validate_increment_backup}
use volume_backup.Backup.Split.{Covers, Agree, split_sessions_lem}
use volume_backup.Backup.Increment.{increment_check}

abbrev small_backup : VolumeBackupConfig
small_backup = record {
  backup_type = full;
  copy_format = image;
  copy_name = codes "c1";
  volume_path = codes "/dev/sdb";
  prev_copy_meta_dir = [];
  output_copy_data_dir = codes "/data";
  output_copy_meta_dir = codes "/meta";
  block_size = 4096;
  session_size = 8192;
  hasher_num = 4;
  hasher_enabled = true;
  enable_checkpoint = true;
  checkpoint_dir = codes "/checkpoint";
  clear_checkpoints_on_succeed = true;
  skip_empty_block = false;
}

split_sessions_lem_example :
    (p : Prepared) × (split_sessions small_backup 20000 ≡ some p)
    × Covers 8192 20000 0 p.sessions
    × Agree small_backup 0 p.segments p.sessions p.checkpoint_files
    × (20000 ≤ 8192 * (2 ^ 31 - 1) → length p.sessions < 2 ^ 31)
split_sessions_lem_example = split_sessions_lem small_backup 20000 (omega arith) (omega arith)

abbrev next_backup : VolumeBackupConfig
next_backup = record small_backup { backup_type = forever_inc; prev_copy_meta_dir = codes "/meta" }

increment_check_example :
    (validate_increment_backup next_backup true true (some (copy_meta small_backup 20000 []))
      ≡ true)
    ↔ ((true ≡ true) × (true ≡ true) × (next_backup.block_size ≡ default_block_size))
increment_check_example = increment_check small_backup next_backup 20000 [] true true

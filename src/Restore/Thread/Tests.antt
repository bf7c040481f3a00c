-- ===== src/Restore/Thread/Tests.antt =====
-- The main thread of a restore of two sessions.
use volume_backup.Prelude.{◌≡◌, ◌≢◌, refl, ◌↔◌, true, false, none, List, [], ◌∷◌}
use volume_backup.Text.{codes}
use volume_backup.Task.{running, succeed, zero_statistics}
use volume_backup.Session.{SharedConfig}
use volume_backup.Pipeline.Tests.{config}
use volume_backup.Copy.{VolumeRestoreConfig}
use volume_backup.Backup.Thread.Sessions.{AllEnd}
use volume_backup.Backup.Thread.Tests.{task_with, two_courses, both_end}
use volume_backup.Restore.Thread.{VolumeRestoreTask, thread_func}
use volume_backup.Restore.Thread.Success.{restore_thread_iff}
use volume_backup.Restore.Thread.Checkpoints.{to_remove, restore_removes}

abbrev restore_config : VolumeRestoreConfig
restore_config = record {
  volume_path = codes "/dev/sdc";
  copy_name = codes "c1";
  copy_data_dir = codes "/data";
  copy_meta_dir = codes "/meta";
  enable_checkpoint = true;
  checkpoint_dir = codes "/checkpoint";
  clear_checkpoints_on_succeed = true;
  enable_zero_copy = false;
}

abbrev restore_of : List SharedConfig → VolumeRestoreTask
restore_of queue = record {
  config = restore_config;
  task = task_with running;
  statistics = record { current = zero_statistics; completed = zero_statistics };
  session_queue = queue;
  checkpoint_files = codes "/checkpoint/c1.0.checkpoint.bin" ∷ [];
  disk = record { checkpoint = none; checksums = none; durable = λ _. 0 };
  removed_files = [];
}

restore_thread_iff_example :
    ((thread_func two_courses (restore_of (config ∷ config ∷ []))).0 ≡ true)
      × ((thread_func two_courses (restore_of (config ∷ config ∷ []))).1.task.status ≡ succeed)
    ↔ AllEnd (config ∷ config ∷ []) two_courses
restore_thread_iff_example = restore_thread_iff two_courses (restore_of (config ∷ config ∷ []))

restore_removes_example :
    let after = (thread_func two_courses (restore_of (config ∷ config ∷ []))).1 in
    (after.task.status ≡ succeed
      → after.removed_files
        ≡ to_remove restore_config (codes "/checkpoint/c1.0.checkpoint.bin" ∷ []))
    × (after.task.status ≢ succeed → after.removed_files ≡ [])
restore_removes_example =
    restore_removes two_courses (restore_of (config ∷ config ∷ [])) refl (λ e. cc)

-- This run succeeds, and so its checkpoint file is removed.
two_sessions_removed :
    (thread_func two_courses (restore_of (config ∷ config ∷ []))).1.removed_files
    ≡ codes "/checkpoint/c1.0.checkpoint.bin" ∷ []
two_sessions_removed = restore_removes_example.0 (restore_thread_iff_example.1 both_end).1

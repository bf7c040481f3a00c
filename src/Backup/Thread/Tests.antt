-- ===== src/Backup/Thread/Tests.antt =====
-- The main thread of a backup of two sessions.
use volume_backup.Prelude.{◌≡◌, refl, ◌↔◌, inl, inr, true, false, none, some, List, [], ◌∷◌}
use volume_backup.Text.{codes}
use volume_backup.Files.{complete}
use volume_backup.Task.{
  StatefulTask, TaskStatus, running, succeed, zero_statistics, is_failed, is_terminated,
}
use volume_backup.Task.Statistics.{zero_counter}
use volume_backup.Session.{Session, SharedConfig, is_session_failed, is_session_terminated}
use volume_backup.Pipeline.Tests.{config, context}
use volume_backup.Checkpoint.{Refresh, synced}
use volume_backup.Copy.{full, VolumeBackupConfig}
use volume_backup.Session.{image}
use volume_backup.Backup.Thread.{BackupTask, Look, Course, thread_func}
use volume_backup.Backup.Thread.Sessions.{AllEnd}
use volume_backup.Backup.Thread.Success.{thread_func_iff, success_done, AllDone}

abbrev pub task_with : TaskStatus → StatefulTask
task_with s = record { status = s; abort_flag = false; failed_flag = false; error_code = 0 }

-- The reader has ended, and the writer has the given status.
abbrev session : TaskStatus → Session
session s = record {
  reader = some (task_with succeed);
  hasher = some (task_with succeed);
  writer = some (task_with s);
}

abbrev quiet : Refresh
quiet = record {
  due = false;
  first = context;
  hashed = context;
  hash_saved = true;
  target = λ _. 0;
  flushed = synced;
  second = context;
  bitmap_answer = complete;
  snapshot_answer = complete;
}

abbrev pub sees : TaskStatus → TaskStatus → Look
sees first last = record {
  abort_flag = false;
  at_failed = session first;
  at_code = session first;
  at_terminated = session last;
  counter = zero_counter;
  refresh = quiet;
}

abbrev pub course : List Look → Course
course looks = record {
  abort_flag = false;
  context_ready = true;
  started = true;
  looks = looks;
  finish = record {
    context = context;
    target = λ _. 0;
    hash_saved = true;
    flushed = synced;
    bitmap_answer = complete;
  };
}

abbrev backup_config : VolumeBackupConfig
backup_config = record {
  backup_type = full;
  copy_format = image;
  copy_name = codes "c1";
  volume_path = codes "/dev/sdb";
  prev_copy_meta_dir = [];
  output_copy_data_dir = codes "/data";
  output_copy_meta_dir = codes "/meta";
  block_size = 4;
  session_size = 10;
  hasher_num = 1;
  hasher_enabled = true;
  enable_checkpoint = true;
  checkpoint_dir = codes "/checkpoint";
  clear_checkpoints_on_succeed = true;
  skip_empty_block = false;
}

abbrev task_of : List SharedConfig → BackupTask
task_of queue = record {
  config = backup_config;
  task = task_with running;
  statistics = record { current = zero_statistics; completed = zero_statistics };
  session_queue = queue;
  checkpoint_files = codes "/checkpoint/c1.0.checkpoint.bin" ∷ [];
  disk = record { checkpoint = none; checksums = none; durable = λ _. 0 };
  removed_files = [];
}

abbrev pub two_courses : List Course
two_courses =
    course (sees running running ∷ sees succeed succeed ∷ [])
    ∷ course (sees succeed succeed ∷ [])
    ∷ []

pub both_end : AllEnd (config ∷ config ∷ []) two_courses
unfolding is_session_failed is_session_terminated is_failed is_terminated
both_end = (
  refl,
  refl,
  refl,
  (refl, refl, inr (refl, (refl, refl, inl refl))),
  (refl, refl, refl, (refl, refl, inl refl), tt),
)

thread_func_iff_example :
    ((thread_func two_courses (task_of (config ∷ config ∷ []))).0 ≡ true)
      × ((thread_func two_courses (task_of (config ∷ config ∷ []))).1.task.status ≡ succeed)
    ↔ AllEnd (config ∷ config ∷ []) two_courses
thread_func_iff_example = thread_func_iff two_courses (task_of (config ∷ config ∷ []))

success_done_example : AllDone (config ∷ config ∷ []) two_courses
success_done_example =
    success_done two_courses (task_of (config ∷ config ∷ [])) ((refl, (refl, tt)), ((refl, tt), tt))
      (thread_func_iff_example.1 both_end).0 (thread_func_iff_example.1 both_end).1

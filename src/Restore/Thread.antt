-- ===== src/Restore/Thread.antt =====
-- src/task/VolumeRestoreTask.cpp: the main thread of a restore task. What it sees of its sessions is
-- an input, as it is for a backup.
pub mod Success
pub mod Checkpoints
mod Tests
use volume_backup.Prelude.{
  ℕ, Bool, true, false, not, ◌||◌, Option, none, some, List, [], ◌∷◌, map, if◌then◌else◌,
}
use volume_backup.Text.{Text}
use volume_backup.Task.{StatefulTask, TaskStatus, running, succeed, aborted, failed}
use volume_backup.Task.Rounds.{Waited, waiting, stopped, completed, go_on}
use volume_backup.Task.Statistics.{Statistics, update_running, update_completed}
use volume_backup.Session.{
  SharedConfig, is_session_terminated, is_session_failed, session_error_code,
}
use volume_backup.Checkpoint.{Disk, refresh, flush_writer, flush_bitmap}
use volume_backup.Copy.{VolumeRestoreConfig}
use volume_backup.Backup.Thread.{Look, Finish, Course}

pub record VolumeRestoreTask : Type 0 where
  pub config : VolumeRestoreConfig
  pub task : StatefulTask
  pub statistics : Statistics
  pub session_queue : List SharedConfig
  pub checkpoint_files : List Text
  pub disk : Disk
  pub removed_files : List Text

pub set_status : TaskStatus → VolumeRestoreTask → VolumeRestoreTask
set_status s t = record t { task = record (t.task) { status = s } }

-- The flushes at the end; what they return is not looked at.
pub complete_session : SharedConfig → Finish → VolumeRestoreTask → VolumeRestoreTask
complete_session s f t =
    let written = (flush_writer f.flushed f.target t.disk).1 in
    record t {
      disk = (flush_bitmap s f.bitmap_answer f.context written).1;
      statistics = update_completed t.statistics f.context.counter;
    }

-- A round in which the session goes on.
pub wait_round : SharedConfig → Look → VolumeRestoreTask → VolumeRestoreTask
wait_round s l t = record t {
  statistics = update_running t.statistics l.counter;
  disk = refresh s l.refresh t.disk;
}

-- `WaitSessionTerminate`, over the rounds that it makes.
pub wait_session_terminate :
    SharedConfig → Finish → List Look → VolumeRestoreTask → Waited × VolumeRestoreTask
unfolding complete_session wait_round set_status
wait_session_terminate s f [] t = (waiting, t)
wait_session_terminate s f (l ∷ ls) t =
    let rest = wait_session_terminate s f ls (wait_round s l t) in
    if l.abort_flag
    then (stopped, set_status aborted t)
    else if is_session_failed l.at_failed
    then (
      stopped,
      set_status failed
          (record t { task = record (t.task) { error_code = session_error_code l.at_code } }),
    )
    else if is_session_terminated l.at_terminated
    then (completed, complete_session s f t)
    else rest

-- `ClearAllCheckpoints`.
pub clear_all_checkpoints : VolumeRestoreTask → VolumeRestoreTask
clear_all_checkpoints t =
    if not t.config.enable_checkpoint || not t.config.clear_checkpoints_on_succeed
    then t
    else record t { removed_files = t.checkpoint_files }

abbrev pop_session : List SharedConfig → VolumeRestoreTask → VolumeRestoreTask
pop_session rest t = record t { session_queue = rest }

-- `ThreadFunc` over the sessions that stand in the queue: has it returned, and the task then. It has
-- not where there is no more course to follow.
pub run_sessions : List SharedConfig → List Course → VolumeRestoreTask → Bool × VolumeRestoreTask
unfolding clear_all_checkpoints set_status
run_sessions [] cs t = (true, set_status succeed (clear_all_checkpoints t))
run_sessions (s ∷ queue) [] t = (false, t)
run_sessions (s ∷ queue) (c ∷ cs) t =
    let popped = pop_session queue t in
    let waited = wait_session_terminate s c.finish c.looks popped in
    let after = run_sessions queue cs waited.1 in
    if c.abort_flag
    then (true, set_status aborted t)
    else if not c.context_ready
    then (true, set_status failed popped)
    else if not c.started
    then (true, set_status failed popped)
    else go_on waited (λ t'. after)

pub thread_func : List Course → VolumeRestoreTask → Bool × VolumeRestoreTask
unfolding run_sessions
thread_func cs t = run_sessions t.session_queue cs t

-- `Start`, on a task that has not started, with what `Prepare` has put into the queue.
pub start : Option (List SharedConfig) → VolumeRestoreTask → Bool × VolumeRestoreTask
unfolding set_status
start none t = (false, set_status failed t)
start (some sessions) t = (
  true,
  set_status running (record t {
    session_queue = sessions;
    checkpoint_files = map (λ s. s.checkpoint_file_path) sessions;
  }),
)

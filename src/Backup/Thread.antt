-- ===== src/Backup/Thread.antt =====
-- src/task/VolumeBackupTask.cpp: the main thread of a backup task, which runs its sessions one by one.
pub mod Sessions
pub mod Success
pub mod Tests
use volume_backup.Prelude.{
  ℕ, Bool, true, false, not, ◌||◌, Option, none, some, List, [], ◌∷◌, if◌then◌else◌,
}
use volume_backup.Text.{Text}
use volume_backup.Task.{StatefulTask, TaskStatus, initial, running, succeed, aborted, failed}
use volume_backup.Task.Rounds.{Waited, waiting, stopped, completed, go_on}
use volume_backup.Task.Statistics.{SessionCounter, Statistics, update_running, update_completed}
use volume_backup.Session.{
  SharedConfig, Session, is_session_terminated, is_session_failed, session_error_code,
}
use volume_backup.Files.{WriteAnswer}
use volume_backup.Pipeline.{Context}
use volume_backup.Pipeline.Writer.{Target}
use volume_backup.Checkpoint.{
  Disk, FlushAnswer, Refresh, refresh, flush_hashing_table, flush_writer, flush_bitmap,
}
use volume_backup.Copy.{VolumeBackupConfig}

pub record BackupTask : Type 0 where
  pub config : VolumeBackupConfig
  pub task : StatefulTask
  pub statistics : Statistics
  pub session_queue : List SharedConfig
  pub checkpoint_files : List Text
  pub disk : Disk
  pub removed_files : List Text

-- What one round of `WaitSessionTerminate` sees. The threads of the session go on meanwhile, so that
-- the session may differ between the calls of `IsFailed`, `GetErrorCode` and `IsTerminated`.
pub record Look : Type 0 where
  pub abort_flag : Bool
  pub at_failed : Session
  pub at_code : Session
  pub at_terminated : Session
  pub counter : SessionCounter
  pub refresh : Refresh

-- What the end of `WaitSessionTerminate` meets: the context and the answers of its flushes.
pub record Finish : Type 0 where
  pub context : Context
  pub target : Target
  pub hash_saved : Bool
  pub flushed : FlushAnswer
  pub bitmap_answer : WriteAnswer

pub set_status : TaskStatus → BackupTask → BackupTask
set_status s t = record t { task = record (t.task) { status = s } }

-- The flushes at the end; what they return is not looked at. Without a hasher the table is not saved.
pub complete_session : SharedConfig → Finish → BackupTask → BackupTask
complete_session s f t =
    let hashed =
      if s.hasher_enabled then (flush_hashing_table f.hash_saved f.context t.disk).1 else t.disk in
    let written = (flush_writer f.flushed f.target hashed).1 in
    record t {
      disk = (flush_bitmap s f.bitmap_answer f.context written).1;
      statistics = update_completed t.statistics f.context.counter;
    }

-- A round in which the session goes on.
wait_round : SharedConfig → Look → BackupTask → BackupTask
wait_round s l t = record t {
  statistics = update_running t.statistics l.counter;
  disk = refresh s l.refresh t.disk;
}

-- `WaitSessionTerminate`, over the rounds that it makes.
pub wait_session_terminate : SharedConfig → Finish → List Look → BackupTask → Waited × BackupTask
unfolding complete_session wait_round set_status
wait_session_terminate s f [] t = (waiting, t)
wait_session_terminate s f (l ∷ ls) t =
    let rest = wait_session_terminate s f ls (wait_round s l t) in
    if l.abort_flag
    then (stopped, set_status aborted t)
    else if is_session_failed l.at_failed
    then (
      stopped,
      set_status failed
          (record t { task = record (t.task) { error_code = session_error_code l.at_code } }),
    )
    else if is_session_terminated l.at_terminated
    then (completed, complete_session s f t)
    else rest

-- What the thread meets while it runs one session.
pub record Course : Type 0 where
  pub abort_flag : Bool  -- at the head of the loop
  pub context_ready : Bool  -- `InitBackupSessionContext`
  pub started : Bool  -- `StartBackupSession`
  pub looks : List Look
  pub finish : Finish

-- `ClearAllCheckpoints`.
clear_all_checkpoints : BackupTask → BackupTask
clear_all_checkpoints t =
    if not t.config.enable_checkpoint || not t.config.clear_checkpoints_on_succeed
    then t
    else record t { removed_files = t.checkpoint_files }

abbrev pop_session : List SharedConfig → BackupTask → BackupTask
pop_session rest t = record t { session_queue = rest }

-- `ThreadFunc` over the sessions that stand in the queue: has it returned, and the task then. It has
-- not where there is no more course to follow.
pub run_sessions : List SharedConfig → List Course → BackupTask → Bool × BackupTask
unfolding clear_all_checkpoints set_status
run_sessions [] cs t = (true, set_status succeed (clear_all_checkpoints t))
run_sessions (s ∷ queue) [] t = (false, t)
run_sessions (s ∷ queue) (c ∷ cs) t =
    let popped = pop_session queue t in
    let waited = wait_session_terminate s c.finish c.looks popped in
    let after = run_sessions queue cs waited.1 in
    if c.abort_flag
    then (true, set_status aborted t)
    else if not c.context_ready
    then (true, set_status failed popped)
    else if not c.started
    then (true, set_status failed popped)
    else go_on waited (λ t'. after)

pub thread_func : List Course → BackupTask → Bool × BackupTask
unfolding run_sessions
thread_func cs t = run_sessions t.session_queue cs t

-- `Start`, on a task that has not started; what `Prepare` makes of the task is an input.
pub start : Option BackupTask → BackupTask → Bool × BackupTask
unfolding set_status
start none t = (false, set_status failed t)
start (some prepared) t = (true, set_status running prepared)

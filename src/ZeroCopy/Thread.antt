-- ===== src/ZeroCopy/Thread.antt =====
-- src/task/VolumeZeroCopyRestoreTask.cpp: the sessions of a zero copy restore and its main thread.
pub mod Overlay
mod Tests
use volume_backup.Prelude.{
  ℕ, Bool, true, false, not, ◌||◌, ◌&&◌, Option, none, some, List, [], ◌∷◌, map, if◌then◌else◌,
}
use volume_backup.Text.{Text}
use volume_backup.Text.Path.{copy_data_file_path}
use volume_backup.Task.{StatefulTask, TaskStatus, running, succeed, aborted, failed}
use volume_backup.Task.Rounds.{Waited, waiting, stopped, completed, go_on}
use volume_backup.Task.Statistics.{Statistics}
use volume_backup.Session.{SharedConfig, CopyFormat}
use volume_backup.Copy.{CopySegment, VolumeCopyMeta, VolumeRestoreConfig}
use volume_backup.Pipeline.Writer.{Target}
use volume_backup.Raw.{RawHandle, Transfer, open_copy}
use volume_backup.ZeroCopy.{Sending, perform_zero_copy_restore}

-- One round of the loop of `Prepare`. The members that the code leaves alone are empty.
pub zero_copy_session : VolumeRestoreConfig → VolumeCopyMeta → CopySegment → SharedConfig
zero_copy_session c meta segment = record {
  session_offset = segment.offset;
  session_size = segment.length;
  block_size = meta.block_size;
  hasher_enabled = false;
  checkpoint_enabled = false;
  hasher_worker_num = 0;
  volume_path = c.volume_path;
  copy_file_path =
      copy_data_file_path c.copy_data_dir meta.copy_name meta.copy_format segment.index;
  copy_format = meta.copy_format;
  lastest_checksum_bin_path = [];
  prev_checksum_bin_path = [];
  checkpoint_file_path = [];
  skip_empty_block = false;
}

-- `Prepare`; `none` where `PrepareCopyResource` fails.
pub prepare_zero_copy : VolumeRestoreConfig → VolumeCopyMeta → Bool → Option (List SharedConfig)
unfolding zero_copy_session
prepare_zero_copy c meta resource_ready =
    if not resource_ready then none else some (map (zero_copy_session c meta) meta.segments)

pub record ZeroCopyTask : Type 0 where
  pub task : StatefulTask
  pub statistics : Statistics
  pub session_queue : List SharedConfig
  pub volume : Target

-- What the thread meets while it runs one session.
pub record SendCourse : Type 0 where
  pub abort_flag : Bool  -- at the head of the loop
  pub reader_ok : Bool
  pub writer_ok : Bool
  pub calls : List Transfer  -- what the calls of `sendfile` return

pub set_status : TaskStatus → ZeroCopyTask → ZeroCopyTask
set_status s t = record t { task = record (t.task) { status = s } }

-- What `PerformZeroCopyRestore` leaves; where it returns false the task has failed.
pub after_send : ZeroCopyTask → Option (Bool × Sending × Statistics) → Waited × ZeroCopyTask
unfolding set_status
after_send t none = (waiting, t)
after_send t (some (false, s, statistics)) =
    (stopped, set_status failed (record t { statistics = statistics; volume = s.volume }))
after_send t (some (true, s, statistics)) =
    (completed, record t { statistics = statistics; volume = s.volume })

-- `OpenRawDataCopyReader` returns no null pointer.
abbrev pub can_open : SharedConfig → Bool
can_open s = elim (open_copy s.copy_format s.session_offset) [ none ↦ false | some h ↦ true ]

abbrev pop_session : List SharedConfig → ZeroCopyTask → ZeroCopyTask
pop_session rest t = record t { session_queue = rest }

-- `ThreadFunc` over the sessions that stand in the queue and the files of the copy, by their paths:
-- has it returned, and the task then.
pub run_zero_copy :
    (Text → Target) → List SharedConfig → List SendCourse → ZeroCopyTask → Bool × ZeroCopyTask
unfolding set_status after_send
run_zero_copy files [] cs t = (true, set_status succeed t)
run_zero_copy files (s ∷ queue) [] t = (false, t)
run_zero_copy files (s ∷ queue) (c ∷ cs) t =
    let popped = pop_session queue t in
    let sent =
      after_send popped
        (perform_zero_copy_restore (files s.copy_file_path) s c.calls t.statistics t.volume) in
    let after = run_zero_copy files queue cs sent.1 in
    if c.abort_flag
    then (true, set_status aborted t)
    else if not (can_open s)
    then (true, set_status failed popped)
    else if not c.reader_ok || not c.writer_ok
    then (true, set_status failed popped)
    else go_on sent (λ t'. after)

pub zero_copy_thread_func : (Text → Target) → List SendCourse → ZeroCopyTask → Bool × ZeroCopyTask
unfolding run_zero_copy
zero_copy_thread_func files cs t = run_zero_copy files t.session_queue cs t

-- `Start`, on a task that has not started, with what `Prepare` has put into the queue.
pub start : Option (List SharedConfig) → ZeroCopyTask → Bool × ZeroCopyTask
unfolding set_status
start none t = (false, set_status failed t)
start (some sessions) t = (true, set_status running (record t { session_queue = sessions }))

-- ===== src/ZeroCopy.antt =====
-- src/task/VolumeZeroCopyRestoreTask.cpp: a session of an image copy is sent to the volume by the
-- kernel.
pub mod Placement
pub mod Thread
pub mod Tests
use volume_backup.Prelude.{
  ℕ, ◌+◌, ◌-◌, Bool, true, false, ◌&&◌, Option, none, some, List, [], ◌∷◌, ltb, leb, if◌then◌else◌,
}
use volume_backup.Task.{TaskStatistics, zero_statistics, add64, add_statistics}
use volume_backup.Task.Statistics.{Statistics}
use volume_backup.Session.{SharedConfig}
use volume_backup.Pipeline.Writer.{Target}
use volume_backup.Raw.{Transfer, errno, moved}

-- The variables of the loop, with the volume and the position of its file descriptor, which is what
-- `sendfile` writes at.
pub record Sending : Type 0 where
  pub offset : ℕ
  pub len : ℕ
  pub position : ℕ
  pub volume : Target
  pub current : TaskStatistics

-- `sendfile` of so many bytes: it reads the copy at `offset`, writes the volume at its position, and
-- moves both on.
pub send : Target → ℕ → Sending → Sending
send copy n s = record s {
  offset = add64 s.offset n;
  position = s.position + n;
  volume = λ x.
      if leb s.position x && ltb x (s.position + n)
      then copy (s.offset + (x - s.position))
      else s.volume x;
  current = record (s.current) {
    bytes_read = add64 s.current.bytes_read n;
    bytes_written = add64 s.current.bytes_written n;
  };
}

-- The length of the next call.
abbrev pub next_len : ℕ → Sending → ℕ
next_len session_max s =
    if ltb session_max (add64 s.offset s.len) then session_max - s.offset else s.len

-- A call moves no more than it is asked for.
abbrev pub at_most : ℕ → ℕ → ℕ
at_most len n = if ltb len n then len else n

-- The loop of `PerformZeroCopyRestore`, over what the calls return. `none`: it is still running.
pub send_session : Target → ℕ → List Transfer → Sending → Option (Bool × Sending)
unfolding send
send_session copy session_max [] s = if ltb s.offset session_max then none else some (true, s)
send_session copy session_max (errno _ ∷ ts) s =
    if ltb s.offset session_max
    then some (false, record s { len = next_len session_max s })
    else some (true, s)
send_session copy session_max (moved n ∷ ts) s =
    let len = next_len session_max s in
    let rest =
      send_session copy session_max ts (send copy (at_most len n) (record s { len = len })) in
    if ltb s.offset session_max then rest else some (true, s)

-- The state before the first call, with a volume that has just been opened.
abbrev pub first_call : SharedConfig → Target → Sending
first_call config volume = record {
  offset = config.session_offset;
  len = config.block_size;
  position = 0;
  volume = volume;
  current = record zero_statistics {
    bytes_to_read = config.session_size;
    bytes_to_write = config.session_size;
  };
}

-- The statistics of the last session go to the total first.
abbrev pub with_statistics :
    Statistics → Option (Bool × Sending) → Option (Bool × Sending × Statistics)
with_statistics statistics none = none
with_statistics statistics (some (ok, s)) = some (
  ok,
  s,
  record {
    completed = add_statistics statistics.completed statistics.current;
    current = s.current;
  },
)

-- `PerformZeroCopyRestore`. The result false is that of a failed call.
pub perform_zero_copy_restore :
    Target
    → SharedConfig
    → List Transfer
    → Statistics
    → Target
    → Option (Bool × Sending × Statistics)
perform_zero_copy_restore copy config ts statistics volume = with_statistics statistics (
    send_session copy (add64 config.session_offset config.session_size) ts
      (first_call config volume))

-- ===== src/Task.antt =====
-- include/VolumeProtector.h and src/VolumeProtector.cpp: TaskStatus, StatefulTask (the base class of
-- tasks, readers, hashers and writers) and TaskStatistics.
pub mod Lifecycle
pub mod Statistics
pub mod Rounds
mod Tests
use volume_backup.Prelude.{
  ℕ, ◌+◌, ◌%◌, ◌^◌, ◌≡◌, Bool, true, false, ◌||◌, Option, none, some, if◌then◌else◌,
}

pub data TaskStatus : Type 0 where
  initial running succeed aborting aborted failed : TaskStatus

pub record StatefulTask : Type 0 where
  pub status : TaskStatus
  pub abort_flag : Bool  -- m_abort
  pub failed_flag : Bool  -- m_failed
  pub error_code : ℕ

abbrev pub fresh : StatefulTask
fresh = record { status = initial; abort_flag = false; failed_flag = false; error_code = 0 }

abbrev pub is_status_terminated : TaskStatus → Bool
is_status_terminated succeed = true
is_status_terminated aborted = true
is_status_terminated failed = true
is_status_terminated _ = false

unfoldable pub is_failed : StatefulTask → Bool
is_failed t = elim t.status [ failed ↦ true | _ ↦ false ]

unfoldable pub is_terminated : StatefulTask → Bool
is_terminated t = is_status_terminated t.status

-- What `Abort` makes of the status: a task that has not started is aborted at once, one that has
-- ended keeps its status, any other is asked to stop.
abort_status : TaskStatus → TaskStatus
abort_status initial = aborted
abort_status s = if is_status_terminated s then s else aborting

unfoldable pub abort : StatefulTask → StatefulTask
unfolding abort_status
abort t = record t { abort_flag = true; status = abort_status t.status }

-- `AssertTaskNotStarted`: `none` is the exception.
pub assert_not_started : StatefulTask → Option (Unit {0})
assert_not_started t = elim t.status [ initial ↦ some tt | _ ↦ none ]

pub record TaskStatistics : Type 0 where
  pub bytes_to_read : ℕ
  pub bytes_read : ℕ
  pub blocks_to_hash : ℕ
  pub blocks_hashed : ℕ
  pub bytes_to_write : ℕ
  pub bytes_written : ℕ

abbrev pub zero_statistics : TaskStatistics
zero_statistics = record {
  bytes_to_read = 0;
  bytes_read = 0;
  blocks_to_hash = 0;
  blocks_hashed = 0;
  bytes_to_write = 0;
  bytes_written = 0;
}

-- uint64_t addition.
abbrev pub add64 : ℕ → ℕ → ℕ
add64 a b = (a + b) % 2 ^ 64

-- `TaskStatistics::operator +`.
pub add_statistics : TaskStatistics → TaskStatistics → TaskStatistics
add_statistics this statistic = record {
  bytes_to_read = add64 statistic.bytes_to_read this.bytes_to_read;
  bytes_read = add64 statistic.bytes_read this.bytes_read;
  blocks_to_hash = add64 statistic.blocks_to_hash this.blocks_to_hash;
  blocks_hashed = add64 statistic.blocks_hashed this.blocks_hashed;
  bytes_to_write = add64 statistic.bytes_to_write this.bytes_to_write;
  bytes_written = add64 statistic.bytes_written this.bytes_written;
}

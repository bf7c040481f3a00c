-- ===== src/Task/Statistics.antt =====
-- src/task/VolumeProtectTaskContext.cpp, TaskStatisticTrait, and GetStatistics of the tasks.
use volume_backup.Prelude.{ℕ, ◌≡◌, arith}
use volume_backup.Task.{TaskStatistics, zero_statistics, add64, add_statistics}

-- SessionCounter: the atomic counters that the threads of a session share.
pub record SessionCounter : Type 0 where
  pub bytes_to_read : ℕ
  pub bytes_read : ℕ
  pub blocks_to_hash : ℕ
  pub blocks_hashed : ℕ
  pub bytes_to_write : ℕ
  pub bytes_written : ℕ
  pub blockes_write_failed : ℕ

abbrev pub zero_counter : SessionCounter
zero_counter = record {
  bytes_to_read = 0;
  bytes_read = 0;
  blocks_to_hash = 0;
  blocks_hashed = 0;
  bytes_to_write = 0;
  bytes_written = 0;
  blockes_write_failed = 0;
}

pub record Statistics : Type 0 where
  pub current : TaskStatistics  -- m_currentSessionStatistics
  pub completed : TaskStatistics  -- m_completedSessionStatistics

-- `UpdateRunningSessionStatistics`.
pub update_running : Statistics → SessionCounter → Statistics
update_running s c = record s {
  current = record {
    bytes_to_read = c.bytes_to_read;
    bytes_read = c.bytes_read;
    blocks_to_hash = c.blocks_to_hash;
    blocks_hashed = c.blocks_hashed;
    bytes_to_write = c.bytes_to_write;
    bytes_written = c.bytes_written;
  };
}

-- `UpdateCompletedSessionStatistics`: the counters are added to the total of completed sessions, and
-- the current session is set to zero.
pub update_completed : Statistics → SessionCounter → Statistics
update_completed s c = record {
  current = zero_statistics;
  completed = record {
    bytes_to_read = add64 s.completed.bytes_to_read c.bytes_to_read;
    bytes_read = add64 s.completed.bytes_read c.bytes_read;
    blocks_to_hash = add64 s.completed.blocks_to_hash c.blocks_to_hash;
    blocks_hashed = add64 s.completed.blocks_hashed c.blocks_hashed;
    bytes_to_write = add64 s.completed.bytes_to_write c.bytes_to_write;
    bytes_written = add64 s.completed.bytes_written c.bytes_written;
  };
}

-- `GetStatistics` of the backup and restore tasks.
pub get_statistics : Statistics → TaskStatistics
get_statistics s = add_statistics s.completed s.current

-- Completing a session does not change what `GetStatistics` reports: with the counters at their
-- last values, the sum before and after is the same, and the current session restarts from zero.
pub get_statistics-update_completed :
    (s : Statistics) (c : SessionCounter)
    → (get_statistics (update_completed s c) ≡ get_statistics (update_running s c))
      × ((update_completed s c).current ≡ zero_statistics)
unfolding get_statistics update_completed update_running add_statistics
get_statistics-update_completed s c = ground arith

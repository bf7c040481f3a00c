-- ===== src/Task/Tests.antt =====
-- StatefulTask and the statistics at concrete values.
use volume_backup.Prelude.{true, false}
use volume_backup.Task.{StatefulTask, running, zero_statistics}
use volume_backup.Task.Statistics.{SessionCounter, Statistics}

abbrev running_task : StatefulTask
running_task = record { status = running; abort_flag = false; failed_flag = true; error_code = 5 }

abbrev some_done : Statistics
some_done = record {
  current = zero_statistics;
  completed = record {
    bytes_to_read = 10;
    bytes_read = 10;
    blocks_to_hash = 2;
    blocks_hashed = 2;
    bytes_to_write = 10;
    bytes_written = 9;
  };
}

abbrev counter : SessionCounter
counter = record {
  bytes_to_read = 3;
  bytes_read = 3;
  blocks_to_hash = 1;
  blocks_hashed = 1;
  bytes_to_write = 3;
  bytes_written = 3;
  blockes_write_failed = 0;
}

-- ===== src/Pipeline/Tests.antt =====
-- Test data: the pipeline of a session of ten bytes in blocks of four.
use volume_backup.Prelude.{true, false, [], ◌∷◌, arith}
use volume_backup.Queue.{BlockingQueue}
use volume_backup.Queue as Queue
use volume_backup.Allocator.{Allocator}
use volume_backup.Allocator as Allocator
use volume_backup.Bitmap as Bitmap
use volume_backup.Task.{StatefulTask, running}
use volume_backup.Task.Statistics.{zero_counter}
use volume_backup.Session.{SharedConfig, image}
use volume_backup.Pipeline.{Context}
use volume_backup.Pipeline.Reader.{Reader, volume, looping, max_block_index}
use volume_backup.Pipeline.Reader.Blocks.{IsSession}

abbrev pub config : SharedConfig
config = record {
  session_offset = 100;
  session_size = 10;
  block_size = 4;
  hasher_enabled = false;
  checkpoint_enabled = true;
  hasher_worker_num = 0;
  volume_path = [];
  copy_file_path = [];
  copy_format = image;
  lastest_checksum_bin_path = [];
  prev_checksum_bin_path = [];
  checkpoint_file_path = [];
  skip_empty_block = true;
}

pub config-IsSession : IsSession config
config-IsSession = record {
  some_bytes = omega arith;
  some_block = omega arith;
  small_block = omega arith;
  room = omega arith;
}

abbrev pub context : Context
context = record {
  processed = Bitmap.make 9;
  written = Bitmap.make 9;
  counter = zero_counter;
  allocator = Allocator.make 1000 4 2;
  hashing_queue = Queue.make 2;
  write_queue = Queue.make 2;
  memory = λ _. 5 ∷ 6 ∷ 7 ∷ 8 ∷ [];
  lastest_table = λ _. [];
  previous_table = λ _. [];
}

abbrev pub running_task : StatefulTask
running_task = record { status = running; abort_flag = false; failed_flag = false; error_code = 0 }

abbrev pub reader : Reader
reader = record {
  task = running_task;
  source_type = volume;
  base_offset = 100;
  current_index = 1;
  max_index = max_block_index 10 4;
  pause_flag = false;
  pc = looping;
}

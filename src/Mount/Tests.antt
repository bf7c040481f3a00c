-- ===== src/Mount/Tests.antt =====
-- A small system and copies that are mounted in it.
use volume_backup.Prelude.{
  ℕ, ◌≡◌, refl, true, false, none, some, List, [], ◌∷◌, map, arith, ltb, if◌then◌else◌,
}
use volume_backup.Text.{Text, codes}
use volume_backup.Copy.{full, VolumeBackupConfig, CopySegment}
use volume_backup.Session.{bin}
use volume_backup.Text.Path.{writer_bitmap_file_path, copy_data_file_path}
use volume_backup.Text.Decimal.{to_string}
use volume_backup.Text.Search.{same, starts_with}
use volume_backup.Backup.{Prepared, split_sessions, copy_segment, new_volume_task_session}
use volume_backup.Mount.Table.{padded, get_parameter_string, DmTable, serialize, target_count}
use volume_backup.Mount.Table.Layout.{read_targets, spec_of, read_targets-serialize, AllFit}
use volume_backup.Mount.Kernel.{System, MountEntry, CopySliceTarget, ◌>>=◌, if_some, if_done}
use volume_backup.Mount.Loop.{attach, bound}
use volume_backup.Mount.Device.{create_device}
use volume_backup.Mount.Points.{umount_all}
use volume_backup.Mount.Points.Everything.{umount_all_everything}
use volume_backup.Mount.Binary.{
  DmMountProvider, attach_segments, device_of_slices, prepare_device, mount_copy, entry_of,
}
use volume_backup.Mount.Binary.Record.{mount_needs_record, failed_mount_stays}
use volume_backup.Mount.Binary.Mapped.{Sectors}
use volume_backup.Mount.Binary.Reads.{device_byte, next_call, mounted_reads_copy}

abbrev pub small_backup : VolumeBackupConfig
small_backup = record {
  backup_type = full;
  copy_format = bin;
  copy_name = codes "c";
  volume_path = codes "/v";
  prev_copy_meta_dir = [];
  output_copy_data_dir = codes "/d";
  output_copy_meta_dir = codes "/m";
  block_size = 512;
  session_size = 1024;
  hasher_num = 1;
  hasher_enabled = true;
  enable_checkpoint = false;
  checkpoint_dir = [];
  clear_checkpoints_on_succeed = true;
  skip_empty_block = false;
}

abbrev segment_at : ℕ → ℕ → ℕ → CopySegment
segment_at i offset size = record {
  copy_data_file = [];
  checksum_bin_file = [];
  index = i;
  offset = offset;
  length = size;
}

abbrev pub provider : DmMountProvider
provider = record {
  output_dir_path = codes "/o";
  copy_data_dir_path = codes "/d";
  copy_name = codes "c";
  mount_target_path = codes "/t";
  read_only = true;
  mount_fs_type = codes "ext4";
  mount_options = [];
  segments = segment_at 0 0 1024 ∷ segment_at 1 1024 512 ∷ [];
}

abbrev root_entry : MountEntry
root_entry = record {
  device_path = codes "/dev/sda";
  mount_target_path = codes "/";
  fs_type = codes "ext4";
  flags = 32768;
  options = [];
}

-- Every call succeeds. The numbers are those of the calls while the files are attached, and then
-- the sector size.
abbrev pub system : System
system = record {
  replies = λ n. record { done = true; number = if ltb n 13 then n else 512 };
  mounts = root_entry ∷ [];
  loops = [];
  block_names = [];
  devices = [];
  files = [];
  saved = λ path. none;
}

mount_needs_record_example :
    ((mount_copy provider system).0 ≡ false) × ((mount_copy provider system).1.saved ≡ system.saved)
mount_needs_record_example = mount_needs_record provider system refl

umount_all_everything_example :
    ((umount_all (codes "/dev/loop1") system).0 ≡ true)
    × ((umount_all (codes "/dev/loop1") system).1.mounts ≡ [])
umount_all_everything_example = umount_all_everything (codes "/dev/loop1") system (λ n. refl)

abbrev two_targets : DmTable
two_targets = record {
  targets =
      record {
        start_sector = 0;
        sectors_count = 2;
        block_device_path = codes "/dev/loop1";
        physical_sector = 0;
      }
      ∷ record {
        start_sector = 2;
        sectors_count = 1;
        block_device_path = codes "/dev/loop2";
        physical_sector = 0;
      }
      ∷ [];
  read_only = true;
}

two_targets-AllFit : AllFit two_targets.targets
unfolding padded get_parameter_string to_string
two_targets-AllFit = (
  record { start = omega arith; count = omega arith; path = omega arith; short = omega arith },
  (
    record { start = omega arith; count = omega arith; path = omega arith; short = omega arith },
    tt,
  ),
)

read_targets-serialize_example :
    read_targets (target_count two_targets) (serialize two_targets)
    ≡ some (map spec_of two_targets.targets)
read_targets-serialize_example = read_targets-serialize two_targets two_targets-AllFit

-- The second slice is read through the eighth loop device.
abbrev slices : List CopySliceTarget
slices =
    record {
      copy_file_path = codes "/d/c.copydata.bin";
      volume_offset = 0;
      size = 1024;
      loop_device_path = codes "/dev/loop2";
    }
    ∷ record {
      copy_file_path = codes "/d/c.copydata.bin.part1";
      volume_offset = 1024;
      size = 512;
      loop_device_path = codes "/dev/loop8";
    }
    ∷ []

abbrev prepared : Prepared
prepared = record {
  segments = copy_segment small_backup 0 1024 0 ∷ copy_segment small_backup 1024 512 1 ∷ [];
  sessions =
      new_volume_task_session small_backup 0 1024 0
      ∷ new_volume_task_session small_backup 1024 512 1
      ∷ [];
  checkpoint_files =
      writer_bitmap_file_path [] (codes "c") 0 ∷ writer_bitmap_file_path [] (codes "c") 1 ∷ [];
}

split_test : split_sessions small_backup 1536 ≡ some prepared
unfolding split_sessions
split_test = refl

attached_test : (attach_segments provider prepared.segments system).0 ≡ some slices
unfolding attach_segments attach ◌>>=◌ if_some if_done bound starts_with same to_string
    copy_data_file_path copy_segment
attached_test = refl

Sectors-test : Sectors 512 slices (next_call (attach_segments provider prepared.segments system).1)
unfolding attach_segments attach ◌>>=◌ if_some if_done bound starts_with same to_string
    copy_data_file_path copy_segment
Sectors-test = (refl, refl, refl, (refl, refl, refl, tt))

abbrev dm_name : Text
dm_name = codes "volumeprotect_dm_copy_12"

made_test :
    (device_of_slices true slices (attach_segments provider prepared.segments system).1).0
    ≡ some (dm_name, codes "/dev/dm-512")
unfolding attach_segments device_of_slices attach create_device ◌>>=◌ if_some if_done bound
    starts_with same to_string copy_data_file_path copy_segment
made_test = refl

-- Byte 1100 of the volume is byte 76 of the second file.
mounted_reads_copy_example :
    device_byte
      (device_of_slices true slices (attach_segments provider prepared.segments system).1).1
      dm_name
      (codes "/dev/dm-512")
      1100
    ≡ some ((new_volume_task_session small_backup 1024 512 1).copy_file_path, 76)
unfolding new_volume_task_session
mounted_reads_copy_example =
    mounted_reads_copy small_backup provider system 2 3 prepared slices dm_name
      (codes "/dev/dm-512") 1 1100 (new_volume_task_session small_backup 1024 512 1) refl
      (omega arith) refl (omega arith) refl refl split_test attached_test (λ _. Sectors-test)
      made_test refl (omega arith) (omega arith)

device_test : (prepare_device provider system).0 ≡ some (codes "/dev/dm-512")
unfolding prepare_device attach create_device ◌>>=◌ if_some if_done bound starts_with same to_string
    copy_data_file_path
device_test = refl

call_test : ((prepare_device provider system).1.replies 0).done ≡ true
unfolding prepare_device attach create_device ◌>>=◌ if_some if_done bound starts_with same to_string
    copy_data_file_path
call_test = refl

failed_mount_stays_example :
    ((mount_copy provider system).0 ≡ false)
    × ((mount_copy provider system).1.mounts
        ≡ root_entry ∷ entry_of provider (codes "/dev/dm-512") ∷ [])
failed_mount_stays_example =
    failed_mount_stays provider system (codes "/dev/dm-512") refl device_test call_test

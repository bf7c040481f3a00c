-- ===== src/Mount/Binary/Tests.antt =====
-- LinuxDeviceMapperMountProvider on loop devices with sectors of 4096 bytes.
use volume_backup.Prelude.{◌≡◌, refl, true, none, some, List, [], ◌∷◌, arith, ltb, if◌then◌else◌}
use volume_backup.Text.{Text, codes}
use volume_backup.Copy.{VolumeBackupConfig}
use volume_backup.Text.Path.{writer_bitmap_file_path, copy_data_file_path}
use volume_backup.Text.Decimal.{to_string}
use volume_backup.Text.Search.{same, starts_with}
use volume_backup.Backup.{Prepared, split_sessions, copy_segment, new_volume_task_session}
use volume_backup.Mount.Kernel.{System, CopySliceTarget, ◌>>=◌, if_some, if_done}
use volume_backup.Mount.Loop.{attach, bound}
use volume_backup.Mount.Device.{create_device}
use volume_backup.Mount.Binary.{attach_segments, device_of_slices}
use volume_backup.Mount.Binary.Mapped.{Sectors}
use volume_backup.Mount.Binary.Reads.{device_byte, next_call}
use volume_backup.Mount.Binary.Sectors.{short_device}
use volume_backup.Mount.Tests.{small_backup, provider, system}

-- A volume of 12288 bytes in sessions of 8192.
abbrev wide_backup : VolumeBackupConfig
wide_backup = record small_backup { session_size = 8192 }

abbrev wide_system : System
wide_system = record system {
  replies = λ n. record { done = true; number = if ltb n 13 then n else 4096 };
}

abbrev wide_slices : List CopySliceTarget
wide_slices =
    record {
      copy_file_path = codes "/d/c.copydata.bin";
      volume_offset = 0;
      size = 8192;
      loop_device_path = codes "/dev/loop2";
    }
    ∷ record {
      copy_file_path = codes "/d/c.copydata.bin.part1";
      volume_offset = 8192;
      size = 4096;
      loop_device_path = codes "/dev/loop8";
    }
    ∷ []

abbrev wide_prepared : Prepared
wide_prepared = record {
  segments = copy_segment wide_backup 0 8192 0 ∷ copy_segment wide_backup 8192 4096 1 ∷ [];
  sessions =
      new_volume_task_session wide_backup 0 8192 0
      ∷ new_volume_task_session wide_backup 8192 4096 1
      ∷ [];
  checkpoint_files =
      writer_bitmap_file_path [] (codes "c") 0 ∷ writer_bitmap_file_path [] (codes "c") 1 ∷ [];
}

wide_split_test : split_sessions wide_backup 12288 ≡ some wide_prepared
unfolding split_sessions
wide_split_test = refl

wide_attached_test :
    (attach_segments provider wide_prepared.segments wide_system).0 ≡ some wide_slices
unfolding attach_segments attach ◌>>=◌ if_some if_done bound starts_with same to_string
    copy_data_file_path copy_segment
wide_attached_test = refl

wide_Sectors-test :
    Sectors 4096 wide_slices
      (next_call (attach_segments provider wide_prepared.segments wide_system).1)
unfolding attach_segments attach ◌>>=◌ if_some if_done bound starts_with same to_string
    copy_data_file_path copy_segment
wide_Sectors-test = (refl, refl, refl, (refl, refl, refl, tt))

abbrev wide_name : Text
wide_name = codes "volumeprotect_dm_copy_12"

wide_made_test :
    (device_of_slices true wide_slices
      (attach_segments provider wide_prepared.segments wide_system).1).0
    ≡ some (wide_name, codes "/dev/dm-4096")
unfolding attach_segments device_of_slices attach create_device ◌>>=◌ if_some if_done bound
    starts_with same to_string copy_data_file_path copy_segment
wide_made_test = refl

-- Byte 2000 of 12288 is past the end of the device.
short_device_example :
    device_byte
      (device_of_slices true wide_slices
        (attach_segments provider wide_prepared.segments wide_system).1).1
      wide_name
      (codes "/dev/dm-4096")
      2000
    ≡ none
short_device_example =
    short_device wide_backup provider wide_system 4096 2 3 wide_prepared wide_slices wide_name
      (codes "/dev/dm-4096") 2000 (omega arith) (omega arith) refl (omega arith) wide_split_test
      wide_attached_test (omega arith) wide_Sectors-test wide_made_test (omega arith)

-- ===== src/Text/Tests.antt =====
-- Numerals and paths at concrete values.
use volume_backup.Prelude.{◌≡◌, ◌≢◌, arith}
use volume_backup.Text.{Text, codes}
use volume_backup.Text.Path.{checksum_bin_path, copy_data_file_path, writer_bitmap_file_path}
use volume_backup.Text.Path.Names.{session_files_distinct}
use volume_backup.Session.{bin, image}

abbrev dir : Text
dir = codes "/copies/c1"

abbrev name : Text
name = codes "c1"

session_files_distinct_example :
    (checksum_bin_path dir name 0 ≢ checksum_bin_path dir name 12)
    × (writer_bitmap_file_path dir name 0 ≢ writer_bitmap_file_path dir name 12)
    × (copy_data_file_path dir name bin 0 ≢ copy_data_file_path dir name bin 12)
    × (copy_data_file_path dir name image 0 ≡ copy_data_file_path dir name image 12)
session_files_distinct_example = session_files_distinct dir name 0 12 (omega arith)

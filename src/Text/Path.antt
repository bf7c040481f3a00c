-- ===== src/Text/Path.antt =====
-- src/common/VolumeUtils.cpp and `PathJoin` of include/common/VolumeUtils.h, with `/` as separator.
use volume_backup.Prelude.{
  ℕ, zero, suc, ◌+◌, ◌≡◌, Bool, true, false, ◌||◌, Option, none, some, List, [], ◌∷◌, ◌++◌, ◌==◌,
  if◌then◌else◌, drop, take,
}
use volume_backup.Text.{Text, codes}
use volume_backup.Text.Decimal.{to_string}
use volume_backup.Session.{CopyFormat, bin, image, other}
pub mod Names

-- `PathJoin` of two parts.
unfoldable pub path_join : Text → Text → Text
path_join first last = first ++ (b'/' ∷ last)

unfoldable pub checksum_bin_path : Text → Text → ℕ → Text
unfolding path_join
checksum_bin_path copy_meta_dir copy_name session_index =
    path_join copy_meta_dir
      (copy_name ++ (codes "." ++ (to_string session_index ++ codes ".sha256.meta.bin")))

-- An unknown format leaves the file name empty.
unfoldable pub copy_data_file_path : Text → Text → CopyFormat → ℕ → Text
unfolding path_join
copy_data_file_path copy_data_dir copy_name bin session_index = path_join copy_data_dir (
    if session_index == 0
    then copy_name ++ codes ".copydata.bin"
    else copy_name ++ (codes ".copydata.bin.part" ++ to_string session_index))
copy_data_file_path copy_data_dir copy_name image session_index =
    path_join copy_data_dir (copy_name ++ codes ".copydata.img")
copy_data_file_path copy_data_dir copy_name (other n) session_index = path_join copy_data_dir []

unfoldable pub writer_bitmap_file_path : Text → Text → ℕ → Text
unfolding path_join
writer_bitmap_file_path checkpoint_dir copy_name session_index =
    path_join checkpoint_dir
      (copy_name ++ (codes "." ++ (to_string session_index ++ codes ".checkpoint.bin")))

-- The path of `WriteVolumeCopyMeta` and `ReadVolumeCopyMeta`.
unfoldable pub volume_copy_meta_path : Text → Text → Text
unfolding path_join
volume_copy_meta_path copy_meta_dir copy_name =
    path_join copy_meta_dir (copy_name ++ codes ".volumecopy.meta.json")

abbrev is_separator : ℕ → Bool
is_separator c = c == b'/' || c == 92

-- `find_last_of("/\\")`.
find_last_separator : Text → Option ℕ
find_last_separator [] = none
find_last_separator (c ∷ s) = elim (find_last_separator s) [
  | some i ↦ some (suc i)
  | none ↦ if is_separator c then some 0 else none
]

unfoldable pub file_name : Text → Text
unfolding find_last_separator
file_name fullpath = elim (find_last_separator fullpath) [
  | none ↦ fullpath
  | some pos ↦ drop (suc pos) fullpath
]

-- ===== src/Mount/Binary.antt =====
-- src/native/linux/LinuxDeviceMapperMountProvider.cpp: a copy in the binary format is mounted from
-- one loop device for each of its files.
pub mod Record
pub mod Mapped
pub mod Reads
pub mod Sectors
pub mod Attach
mod Tests
use volume_backup.Prelude.{
  ℕ, ◌-◌, ◌/◌, Bool, true, false, not, ◌&&◌, ◌||◌, Option, none, some, List, [], ◌∷◌, ◌++◌, ◌==◌,
  if◌then◌else◌, length, take, drop,
}
use volume_backup.Text.{Text, codes}
use volume_backup.Text.Decimal.{to_string}
use volume_backup.Text.Path.{path_join, copy_data_file_path}
use volume_backup.Text.Search.{same, starts_with, find, mem}
use volume_backup.Session.{bin}
use volume_backup.Copy.{CopySegment}
use volume_backup.Mount.Table.{DmTable, DmTarget, add_target, set_read_only}
use volume_backup.Mount.Kernel.{
  MountEntry, CopySliceTarget, SavedRecord, M, if_done, if_some, pure, ◌>>=◌, ◌>>◌, ask, call, get,
  modify,
}
use volume_backup.Mount.Loop.{loop_device_prefix, attach, detach, is_attached}
use volume_backup.Mount.Points.{mount_flags, mount}
use volume_backup.Mount.Device.{create_device, remove_device_if_exists}

-- The fields of the provider. The output directory is the one of the model's files.
pub record DmMountProvider : Type 0 where
  pub output_dir_path : Text
  pub copy_data_dir_path : Text
  pub copy_name : Text
  pub mount_target_path : Text
  pub read_only : Bool
  pub mount_fs_type : Text
  pub mount_options : Text
  pub segments : List CopySegment

abbrev pub loop_record_suffix : Text
loop_record_suffix = codes ".loop.record"

abbrev pub dm_record_suffix : Text
dm_record_suffix = codes ".dm.record"

-- `CreateEmptyFile` and `RemoveFile` in the output directory.
unfoldable pub create_empty_file : Text → M Bool
create_empty_file name = do
  answer ← ask
  if_done (answer.done) (pure false) do
    modify (λ s. record s { files = if mem name s.files then s.files else name ∷ s.files })
    pure true

unfoldable pub without : Text → List Text → List Text
without name [] = []
without name (f ∷ fs) = if same name f then without name fs else f ∷ without name fs

unfoldable pub remove_file : Text → M Bool
unfolding without
remove_file name = do
  there ← get (λ s. mem name s.files)
  unlinked ← call
  if_done (there && unlinked) (pure (not there))
      do modify (λ s. record s { files = without name s.files }); pure true

unfoldable pub loop_record_name : Text → Text
loop_record_name path = drop (length loop_device_prefix) path ++ loop_record_suffix

unfoldable pub dm_record_name : Text → Text
dm_record_name name = name ++ dm_record_suffix

-- A failure to keep or to remove a record is only logged.
unfoldable pub save_loop_record : Text → M (Unit {0})
unfolding create_empty_file loop_record_name
save_loop_record path =
    if_done (starts_with loop_device_prefix path) (pure tt)
      do create_empty_file (loop_record_name path); pure tt

unfoldable pub remove_loop_record : Text → M (Unit {0})
unfolding remove_file loop_record_name
remove_loop_record path =
    if_done (starts_with loop_device_prefix path) (pure tt)
      do remove_file (loop_record_name path); pure tt

-- `find_first_of("/\\")`.
unfoldable pub has_separator : Text → Bool
has_separator [] = false
has_separator (c ∷ s) = if c == b'/' || c == 92 then true else has_separator s

unfoldable pub save_dm_record : Text → M (Unit {0})
unfolding create_empty_file dm_record_name has_separator
save_dm_record name =
    if_done (not (has_separator name)) (pure tt) do create_empty_file (dm_record_name name); pure tt

unfoldable pub remove_dm_record : Text → M (Unit {0})
unfolding remove_file dm_record_name has_separator
remove_dm_record name =
    if_done (not (has_separator name)) (pure tt) do remove_file (dm_record_name name); pure tt

unfoldable pub attach_dm_loop_device : Text → M (Option Text)
unfolding save_loop_record
attach_dm_loop_device file = do
  attached ← attach file
  if_some attached (pure none) λ path. do save_loop_record path; pure (some path)

unfoldable pub detach_loop_device_if_attached : Text → M Bool
unfolding remove_loop_record
detach_loop_device_if_attached path = do
  attached ← is_attached path
  if_done attached ((do remove_loop_record path; pure true))
      do detached ← detach path; if_done detached (pure false) do remove_loop_record path; pure true

unfoldable pub remove_dm_device_if_exists : Text → M Bool
unfolding remove_dm_record
remove_dm_device_if_exists name = do
  removed ← remove_device_if_exists name
  if_done removed (pure false) do remove_dm_record name; pure true

-- The target of a slice, for a sector size.
unfoldable pub linear_target : CopySliceTarget → ℕ → DmTarget
linear_target slice sector_size = record {
  start_sector = slice.volume_offset / sector_size;
  sectors_count = slice.size / sector_size;
  block_device_path = slice.loop_device_path;
  physical_sector = 0;
}

-- `ReadSectorSizeLinux`, which throws where it cannot open or ask the device.
abbrev pub read_sector_size : M (Option ℕ)
read_sector_size = do
  opened ← call
  if_done opened (pure none)
      do answer ← ask; pure (if answer.done then some answer.number else none)

-- The loop of `CreateDmDevice` that fills the table.
unfoldable pub add_targets : List CopySliceTarget → DmTable → M (Option DmTable)
unfolding linear_target
add_targets [] table = pure (some table)
add_targets (slice ∷ slices) table = do
  sector_size ← read_sector_size
  if_some sector_size (pure none)
      λ size. add_targets slices (add_target (linear_target slice size) table)

-- `GenerateNewDmDeviceName`, from the time.
unfoldable pub dm_name_of : ℕ → Text
dm_name_of timestamp = codes "volumeprotect_dm_copy_" ++ to_string timestamp

abbrev pub new_table : Bool → DmTable
new_table read_only =
    let table : DmTable = record { targets = []; read_only = false } in
    if read_only then set_read_only table else table

-- The name and the path of the device, if it is created.
unfoldable pub create_dm_device : List CopySliceTarget → Bool → M (Option (Text × Text))
unfolding add_targets save_dm_record dm_name_of
create_dm_device slices read_only = do
  now ← ask
  let name = dm_name_of now.number
  filled ← add_targets slices (new_table read_only)
  if_some filled (pure none) λ table. do
    created ← create_device name table
    if_some created (pure none) λ path. do save_dm_record name; pure (some (name, path))

-- The files with a suffix in their names, each changed to the device that it tells of.
unfoldable pub loop_devices_of : List Text → List Text
loop_devices_of [] = []
loop_devices_of (f ∷ fs) =
    let rest = loop_devices_of fs in
    elim (find f loop_record_suffix) [
      | none ↦ rest
      | some pos ↦ (loop_device_prefix ++ take pos f) ∷ rest
    ]

unfoldable pub dm_devices_of : List Text → List Text
dm_devices_of [] = []
dm_devices_of (f ∷ fs) =
    let rest = dm_devices_of fs in
    elim (find f dm_record_suffix) [
      | none ↦ rest
      | some _ ↦ take (length f - length dm_record_suffix) f ∷ rest
    ]

-- `ListRecordFiles`: without the directory the list stays empty.
abbrev list_record_files : M (List Text)
list_record_files = do opened ← call; if opened then get (λ s. s.files) else pure []

unfoldable pub load_residual_loop_device_list : M (List Text)
unfolding loop_devices_of
load_residual_loop_device_list = do files ← list_record_files; pure (loop_devices_of files)

unfoldable pub load_residual_dm_device_list : M (List Text)
unfolding dm_devices_of
load_residual_dm_device_list = do files ← list_record_files; pure (dm_devices_of files)

-- A loop over all, whatever fails.
unfoldable pub for_all : (Text → M Bool) → List Text → M Bool
for_all f [] = pure true
for_all f (t ∷ ts) = do done ← f t; rest ← for_all f ts; pure (done && rest)

unfoldable pub rollback_clear_residue : M Bool
unfolding for_all
rollback_clear_residue = do
  dm_devices ← load_residual_dm_device_list
  removed ← for_all remove_dm_device_if_exists dm_devices
  loop_devices ← load_residual_loop_device_list
  detached ← for_all detach_loop_device_if_attached loop_devices
  pure (removed && detached)

abbrev pub mount_record_path : DmMountProvider → Text
mount_record_path p = path_join p.output_dir_path (p.copy_name ++ codes ".bin.mount.record.json")

abbrev pub slice_of : Text → CopySegment → Text → CopySliceTarget
slice_of file segment path = record {
  copy_file_path = file;
  volume_offset = segment.offset;
  size = segment.length;
  loop_device_path = path;
}

abbrev pub with_slice :
    CopySliceTarget → Option (List CopySliceTarget) → Option (List CopySliceTarget)
with_slice slice none = none
with_slice slice (some slices) = some (slice ∷ slices)

-- The first loop of `Mount`: a slice for each segment.
unfoldable pub attach_segments :
    DmMountProvider → List CopySegment → M (Option (List CopySliceTarget))
unfolding attach_dm_loop_device
attach_segments p [] = pure (some [])
attach_segments p (segment ∷ segments) = do
  let file = copy_data_file_path p.copy_data_dir_path p.copy_name bin segment.index
  attached ← attach_dm_loop_device file
  if_some attached (pure none) λ path. do
    rest ← attach_segments p segments
    pure (with_slice (slice_of file segment path) rest)

-- The name, if the device mapper is used, and the path of the device to be mounted.
unfoldable pub device_of_slices : Bool → List CopySliceTarget → M (Option (Text × Text))
unfolding create_dm_device
device_of_slices read_only (slice ∷ []) = pure (some ([], slice.loop_device_path))
device_of_slices read_only slices = create_dm_device slices read_only

-- `Mount` up to the call that mounts the device.
unfoldable pub prepare_device : DmMountProvider → M (Option Text)
unfolding attach_segments device_of_slices
prepare_device p = do
  slices ← attach_segments p p.segments
  if_some slices (pure none) λ slices. do
    device ← device_of_slices p.read_only slices
    pure (elim device [ none ↦ none | some (name, path) ↦ some path ])

-- `JsonDeserialize` of a mount record, where one can be read.
unfoldable pub load_record : Text → M (Option SavedRecord)
load_record path = do opened ← call; if opened then get (λ s. s.saved path) else pure none

unfoldable pub roll_back : M Bool
unfolding rollback_clear_residue
roll_back = do rollback_clear_residue; pure false

abbrev pub entry_of : DmMountProvider → Text → MountEntry
entry_of p device_path = record {
  device_path = device_path;
  mount_target_path = p.mount_target_path;
  fs_type = p.mount_fs_type;
  flags = mount_flags p.read_only;
  options = p.mount_options;
}

-- `Mount`. What is to save the mount record reads it: `JsonDeserialize` stands for `JsonSerialize`.
unfoldable pub mount_copy : DmMountProvider → M Bool
unfolding roll_back load_record prepare_device
mount_copy p = do
  device ← prepare_device p
  if_some device roll_back λ device_path. do
    mounted ← mount (entry_of p device_path)
    if_done mounted roll_back
        do loaded ← load_record (mount_record_path p); if_some loaded roll_back λ _. pure true

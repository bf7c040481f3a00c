-- ===== src/Mount/Kernel.antt =====
-- The system as the mount code sees it through its calls: the mount table, loop devices, device
-- mapper devices, the files of the output directory, and the answers that calls still to come get.
use volume_backup.Prelude.{ℕ, suc, Bool, true, false, Option, none, some, List}
use volume_backup.Text.{Text}
use volume_backup.Mount.Table.{DmTable}

-- What the next call gets: whether it succeeds, and a number for its result or its `errno`.
pub record Reply : Type 0 where
  pub done : Bool
  pub number : ℕ

-- A line of /proc/mounts, with the flags that `mount` was called with.
pub record MountEntry : Type 0 where
  pub device_path : Text
  pub mount_target_path : Text
  pub fs_type : Text
  pub flags : ℕ
  pub options : Text

-- A loop device and the file that it stands for.
pub record LoopDevice : Type 0 where
  pub path : Text
  pub file : Text

-- A device of the device mapper: its table once one is loaded, and whether that is active.
pub record DmDevice : Type 0 where
  pub name : Text
  pub minor : ℕ
  pub table : Option DmTable
  pub active : Bool

pub record CopySliceTarget : Type 0 where
  pub copy_file_path : Text
  pub volume_offset : ℕ
  pub size : ℕ
  pub loop_device_path : Text

-- LinuxDeviceMapperCopyMountRecord, with the fields that the code fills in.
pub record DmMountRecord : Type 0 where
  pub dm_device_name : Text
  pub loop_devices : List Text
  pub device_path : Text
  pub mount_target_path : Text
  pub copy_slices : List CopySliceTarget

-- LinuxImageCopyMountRecord.
pub record ImageMountRecord : Type 0 where
  pub loopback_device_path : Text
  pub mount_target_path : Text
  pub mount_fs_type : Text
  pub mount_options : Text

-- A file with a mount record, whose copy format tells which.
pub data SavedRecord : Type 0 where
  dm_record : DmMountRecord → SavedRecord
  image_record : ImageMountRecord → SavedRecord

-- `block_names` are the names in /sys/block, `files` those of the regular files in the output
-- directory, and `saved` the mount records that can be read, by path.
pub record System : Type 0 where
  pub replies : ℕ → Reply
  pub mounts : List MountEntry
  pub loops : List LoopDevice
  pub block_names : List Text
  pub devices : List DmDevice
  pub files : List Text
  pub saved : Text → Option SavedRecord

abbrev pub M : Type 0 → Type 0
M A = System → A × System

unfoldable pub pure : {A : Type 0} → A → M A
pure a s = (a, s)

-- The answer to the next call.
unfoldable pub ask : M Reply
ask s = (s.replies 0, record s { replies = λ n. s.replies (suc n) })

-- A call that changes nothing in the model.
unfoldable pub call : M Bool
call s = ((s.replies 0).done, record s { replies = λ n. s.replies (suc n) })

unfoldable pub get : {A : Type 0} → (System → A) → M A
get f s = (f s, s)

unfoldable pub modify : (System → System) → M (Unit {0})
modify f s = (tt, f s)

infixl 5 ◌>>=◌ ◌>>◌
-- Opening this opens the actions above too.
unfoldable pub ◌>>=◌ : {A B : Type 0} → M A → (A → M B) → M B
unfolding pure ask call get modify
◌>>=◌ m f s = let (a, s') = m s in f a s'

abbrev pub ◌>>◌ : {A B : Type 0} → M A → M B → M B
m >> k = m >>= λ _. k

-- What follows a call, after what is done where it fails.
unfoldable pub if_done : {B : Type 0} → Bool → M B → M B → M B
if_done false m n = m
if_done true m n = n

unfoldable pub if_some : {A B : Type 0} → Option A → M B → (A → M B) → M B
if_some none m f = m
if_some (some a) m f = f a

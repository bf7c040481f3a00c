-- ===== src/Mount/Points.antt =====
-- src/native/linux/LinuxMountUtils.cpp: mounting, unmounting and reading /proc/mounts.
pub mod Everything
use volume_backup.Prelude.{
  ℕ, zero, suc, Bool, true, false, ◌&&◌, Option, none, some, List, [], ◌∷◌, ◌++◌, if◌then◌else◌,
}
use volume_backup.Text.{Text}
use volume_backup.Text.Search.{same}
use volume_backup.Mount.Kernel.{MountEntry, M, if_done, pure, ◌>>=◌, ◌>>◌, ask, call, get, modify}

-- The table of /proc/mounts, if the file can be opened.
abbrev pub read_mounts : M (Option (List MountEntry))
read_mounts = do opened ← call; if opened then get (λ s. some s.mounts) else pure none

unfoldable pub mounted_at : Text → List MountEntry → Bool
mounted_at dir [] = false
mounted_at dir (e ∷ es) = if same e.mount_target_path dir then true else mounted_at dir es

-- `umount2` takes off what was mounted last.
unfoldable pub remove_last : Text → List MountEntry → List MountEntry
unfolding mounted_at
remove_last dir [] = []
remove_last dir (e ∷ es) =
    if mounted_at dir es
    then e ∷ remove_last dir es
    else if same e.mount_target_path dir
    then es
    else e ∷ es

abbrev pub umount2 : Text → M Bool
umount2 dir = do
  answer ← ask
  there ← get (λ s. mounted_at dir s.mounts)
  if_done (answer.done && there) (pure false)
      do modify (λ s. record s { mounts = remove_last dir s.mounts }); pure true

-- MS_VERBOSE, and MS_RDONLY for a mount that is read only.
abbrev pub mount_flags : Bool → ℕ
mount_flags read_only = if read_only then 32769 else 32768

unfoldable pub mount : MountEntry → M Bool
mount entry = do
  answer ← ask
  if_done (answer.done) (pure false)
      do modify (λ s. record s { mounts = s.mounts ++ (entry ∷ []) }); pure true

unfoldable pub is_mount_point : Text → M Bool
is_mount_point dir = do
  table ← read_mounts
  pure (elim table [ none ↦ false | some es ↦ mounted_at dir es ])

first_device : Text → List MountEntry → Text
first_device dir [] = []
first_device dir (e ∷ es) =
    if same e.mount_target_path dir then e.device_path else first_device dir es

unfoldable pub get_mount_device_path : Text → M Text
unfolding first_device
get_mount_device_path dir = do
  table ← read_mounts
  pure (elim table [ none ↦ [] | some es ↦ first_device dir es ])

-- Every entry of the table is taken; the device is not looked at.
unfoldable pub get_all_mounts : Text → M (List MountEntry)
get_all_mounts device_path = do table ← read_mounts; pure (elim table [ none ↦ [] | some es ↦ es ])

unfoldable pub umount : Text → M Bool
unfolding is_mount_point
umount dir = do there ← is_mount_point dir; if there then umount2 dir else pure true

unfoldable pub umount_each : List MountEntry → M (Unit {0})
umount_each [] = pure tt
umount_each (e ∷ es) = do umount2 (e.mount_target_path); umount_each es

-- The loop of `UmountAll`, with the tries that are left.
unfoldable pub umount_tries : ℕ → Text → List MountEntry → M Bool
unfolding umount_each get_all_mounts
umount_tries tries device_path [] = pure true
umount_tries zero device_path (e ∷ es) = pure false
umount_tries (suc tries) device_path (e ∷ es) = do
  umount_each (e ∷ es)
  entries ← get_all_mounts device_path
  umount_tries tries device_path entries

abbrev pub max_umount_retry : ℕ
max_umount_retry = 3

unfoldable pub umount_all : Text → M Bool
unfolding umount_tries
umount_all device_path = do
  entries ← get_all_mounts device_path
  umount_tries max_umount_retry device_path entries

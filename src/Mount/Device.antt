-- ===== src/Mount/Device.antt =====
-- src/native/linux/DeviceMapperControl.cpp: creating and removing devices of the device mapper.
pub mod Created
use volume_backup.Prelude.{
  ℕ, zero, suc, Bool, true, false, not, ◌&&◌, Option, none, some, List, [], ◌∷◌, ◌++◌, ◌==◌,
  if◌then◌else◌, ltb, length,
}
use volume_backup.Text.{Text, codes}
use volume_backup.Text.Decimal.{to_string}
use volume_backup.Text.Search.{same}
use volume_backup.Mount.Table.{DmTable}
use volume_backup.Mount.Kernel.{
  DmDevice, M, if_done, if_some, pure, ◌>>=◌, ◌>>◌, ask, call, get, modify,
}

pub data DmDeviceStatus : Type 0 where
  invalid suspended active : DmDeviceStatus

abbrev is_invalid : DmDeviceStatus → Bool
is_invalid invalid = true
is_invalid _ = false

unfoldable pub find_device : Text → List DmDevice → Option DmDevice
find_device name [] = none
find_device name (d ∷ ds) = if same name d.name then some d else find_device name ds

unfoldable pub has_minor : ℕ → List DmDevice → Bool
has_minor n [] = false
has_minor n (d ∷ ds) = if n == d.minor then true else has_minor n ds

-- A change to the devices of a name.
unfoldable pub update : Text → (DmDevice → DmDevice) → List DmDevice → List DmDevice
update name f [] = []
update name f (d ∷ ds) = (if same name d.name then f d else d) ∷ update name f ds

unfoldable pub remove : Text → List DmDevice → List DmDevice
remove name [] = []
remove name (d ∷ ds) = if same name d.name then remove name ds else d ∷ remove name ds

abbrev pub look_up : Text → M (Option DmDevice)
look_up name = get (λ s. find_device name s.devices)

-- The control device is opened and `DM_DEV_STATUS` is asked of a device.
unfoldable pub dev_status : Text → M (Option DmDevice)
unfolding find_device
dev_status name = do
  opened ← call
  if_done opened (pure none) do answered ← call; if answered then look_up name else pure none

unfoldable pub get_device_status : Text → M DmDeviceStatus
unfolding dev_status
get_device_status name = do
  device ← dev_status name
  pure (elim device [ none ↦ invalid | some d ↦ if d.active then active else suspended ])

-- Whether the device has a unique path; the path itself is not used.
unfoldable pub get_device_status_unique_path : Text → M Bool
unfolding dev_status
get_device_status_unique_path name = do
  device ← dev_status name
  has_uuid ← call
  pure (elim device [ none ↦ false | some d ↦ has_uuid ])

-- `/dev/dm-` with the minor number, kept beside the number.
unfoldable pub get_device_path_by_name : Text → M (Option (ℕ × Text))
unfolding dev_status
get_device_path_by_name name = do
  device ← dev_status name
  pure
      (elim device [ none ↦ none | some d ↦ some (d.minor, codes "/dev/dm-" ++ to_string d.minor) ])

abbrev pub enoent : ℕ
enoent = 2

-- `access` of the device node: nothing if it is there, else the `errno`. An answer that is not done
-- tells of a node that is not made yet or not yet taken away, or of another error.
unfoldable pub access : ℕ → M (Option ℕ)
unfolding has_minor
access minor = do
  answer ← ask
  there ← get (λ s. has_minor minor s.devices)
  pure (
      if answer.done
      then if there then none else some enoent
      else if there
      then some answer.number
      else none)

abbrev is_some : {A : Type 0} → Option A → Bool
is_some none = false
is_some (some _) = true

-- Whether the call of `access` succeeded.
abbrev is_zero : Option ℕ → Bool
is_zero none = true
is_zero (some e) = false

abbrev is_enoent : Option ℕ → Bool
is_enoent none = false
is_enoent (some e) = e == enoent

-- The loop of `WaitForDeviceCreated`, with the rounds that the pauses of 10 ms leave until the
-- timeout. The clock may end it earlier.
unfoldable pub wait_created : ℕ → ℕ → M Bool
unfolding access
wait_created zero minor = pure false
wait_created (suc rounds) minor = do
  error ← access minor
  if_some error (pure true) λ e.
      if_done (e == enoent) (pure false)
        do in_time ← call; if_done in_time (pure false) (wait_created rounds minor)

unfoldable pub wait_removed : ℕ → ℕ → M Bool
unfolding access
wait_removed zero minor = pure false
wait_removed (suc rounds) minor = do
  error ← access minor
  if_done (not (is_enoent error)) (pure true)
      do in_time ← call; if_done in_time (pure false) (wait_removed rounds minor)

-- `ioctl(DM_DEV_REMOVE)` and whether it made an event.
abbrev pub dev_remove : Text → M Bool
dev_remove name = do
  answered ← call
  device ← look_up name
  if_done answered (pure false) do
    if_some device (pure false)
        λ _. do modify (λ s. record s { devices = remove name s.devices }); pure true

-- `RemoveDevice` once the device has a path.
abbrev remove_at : Text → ℕ → M Bool
remove_at name minor = do
  error ← access minor
  let need_uevent = is_zero error
  opened ← call
  if_done opened (pure false) do
    removed ← dev_remove name
    uevent ← call
    if removed && (if need_uevent then uevent else true) then wait_removed 100 minor else pure false

unfoldable pub remove_device : Text → M Bool
unfolding get_device_status get_device_path_by_name wait_removed remove
remove_device name = do
  status ← get_device_status name
  if_done (not (is_invalid status)) (pure true)
      do path ← get_device_path_by_name name; if_some path (pure false) λ p. remove_at name p.0

unfoldable pub remove_device_if_exists : Text → M Bool
unfolding remove_device
remove_device_if_exists name = do
  status ← get_device_status name
  if is_invalid status then pure true else remove_device name

abbrev pub dm_name_len : ℕ
dm_name_len = 128

abbrev pub new_device : Text → ℕ → DmDevice
new_device name minor = record { name = name; minor = minor; table = none; active = false }

-- `ioctl(DM_DEV_CREATE)`, and the look at the new device's tables and users.
abbrev dev_create : Text → M Bool
dev_create name = do
  answer ← ask
  old ← look_up name
  if_done (answer.done && not (is_some old)) (pure false)
      do modify (λ s. record s { devices = new_device name answer.number ∷ s.devices }); call

-- The name is never empty; the identifier is generated.
unfoldable pub create_empty_device : Text → M Bool
create_empty_device name =
    if_done (not (length name == 0) && ltb (length name) dm_name_len) (pure false)
      do opened ← call; if_done opened (pure false) (dev_create name)

-- `DM_TABLE_LOAD`, and `DM_DEV_SUSPEND` to activate the table.
unfoldable pub change : Text → (DmDevice → DmDevice) → M Bool
unfolding update
change name f = do
  answered ← call
  device ← look_up name
  if_done answered (pure false) do
    if_some device (pure false)
        λ _. do modify (λ s. record s { devices = update name f s.devices }); pure true

abbrev pub set_table : DmTable → DmDevice → DmDevice
set_table table d = record d { table = some table }

abbrev pub activate : DmDevice → DmDevice
activate d = record d { active = true }

unfoldable pub load_table : Text → DmTable → M Bool
load_table name table = do
  opened ← call
  if_done opened (pure false) (do
    loaded ← change name (set_table table)
    if loaded then change name activate else pure false)

unfoldable pub wait_for_device_created : Text → M (Option Text)
unfolding wait_created get_device_status_unique_path get_device_path_by_name
wait_for_device_created name = do
  unique ← get_device_status_unique_path name
  path ← (if unique then get_device_path_by_name name else pure none)
  if_some path (do remove_device name; pure none)
      λ p. do created ← wait_created 1000 p.0; pure (if created then some p.1 else none)

-- The path of the device, if it is created.
unfoldable pub create_device : Text → DmTable → M (Option Text)
unfolding create_empty_device load_table change wait_for_device_created
create_device name table = do
  empty ← create_empty_device name
  if_done empty (pure none) do
    loaded ← load_table name table
    if_done loaded (do remove_device name; pure none)
        do
          path ← wait_for_device_created name
          if_some path (do remove_device name; pure none) λ p. pure (some p)

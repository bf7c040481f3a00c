-- ===== src/Mount/Device/Created.antt =====
-- src/native/linux/DeviceMapperControl.cpp, `CreateDevice`: what stands when it succeeds.
use volume_backup.Prelude.{
  ℕ, zero, suc, ◌≡◌, refl, ◌∙◌, sym, ap, Bool, true, false, Option, none, some, List, [], ◌∷◌,
  arith, if◌then◌else◌, Bool-cases, inl, inr,
}
use volume_backup.Text.{Text}
use volume_backup.Text.Search.{same_refl}
use volume_backup.Mount.Table.{DmTable}
use volume_backup.Mount.Kernel.{System, DmDevice, M, ◌>>=◌, ◌>>◌, if_done, if_some, pure}
use volume_backup.Mount.Keeps.{Keeps, keeps_rules}
use volume_backup.Mount.Device.{
  dev_status, find_device, update, access, wait_created, create_empty_device, load_table,
  wait_for_device_created, create_device, get_device_status_unique_path, get_device_path_by_name,
  remove_device, new_device, change, set_table, activate,
}

abbrev devices : System → List DmDevice
devices s = s.devices

dev_status-Keeps : (name : Text) → Keeps devices (dev_status name)
unfolding dev_status
dev_status-Keeps name = search keeps_rules depth 30

access-Keeps : (minor : ℕ) → Keeps devices (access minor)
unfolding access
access-Keeps minor = search keeps_rules depth 30

wait_created-Keeps : (rounds minor : ℕ) → Keeps devices (wait_created rounds minor)
unfolding wait_created
wait_created-Keeps zero minor = search keeps_rules depth 30
wait_created-Keeps (suc rounds) minor =
    search (keeps_rules, access-Keeps, wait_created-Keeps rounds) depth 30

unique_path-Keeps : (name : Text) → Keeps devices (get_device_status_unique_path name)
unfolding get_device_status_unique_path
unique_path-Keeps name = search (keeps_rules, dev_status-Keeps) depth 30

path_by_name-Keeps : (name : Text) → Keeps devices (get_device_path_by_name name)
unfolding get_device_path_by_name
path_by_name-Keeps name = search (keeps_rules, dev_status-Keeps) depth 30

-- The end of `WaitForDeviceCreated`, with the path that it found.
after_path : Text → Option (ℕ × Text) → M (Option Text)
after_path name path =
    if_some path (do remove_device name; pure none)
      λ p. do created ← wait_created 1000 p.0; pure (if created then some p.1 else none)

after_path-some :
    (name : Text) (found : Option (ℕ × Text)) (s : System) {path : Text}
    → (after_path name found s).0 ≡ some path
    → (after_path name found s).1.devices ≡ s.devices
unfolding after_path if_some ◌>>=◌
after_path-some name none s e = cc
after_path-some name (some p) s e = (wait_created-Keeps 1000 p.0).at s

look_for_path : Text → M (Option (ℕ × Text))
look_for_path name = do
  unique ← get_device_status_unique_path name
  if unique then get_device_path_by_name name else pure none

look_for_path-Keeps : (name : Text) → Keeps devices (look_for_path name)
unfolding look_for_path
look_for_path-Keeps name = search (keeps_rules, unique_path-Keeps, path_by_name-Keeps) depth 30

wait_for_device-step :
    (name : Text) (s : System)
    → wait_for_device_created name s
      ≡ after_path name (look_for_path name s).0 (look_for_path name s).1
unfolding wait_for_device_created ◌>>=◌ look_for_path after_path
wait_for_device-step name s = refl

wait_for_device-some :
    (name : Text) (s : System) {path : Text}
    → (wait_for_device_created name s).0 ≡ some path
    → (wait_for_device_created name s).1.devices ≡ s.devices
wait_for_device-some name s {path} e =
    let step = wait_for_device-step name s in
    let got : (after_path name (look_for_path name s).0 (look_for_path name s).1).0 ≡ some path =
      ap (λ r. r.0) (sym step) ∙ e in
    ap (λ r. r.1.devices) step
    ∙ after_path-some name (look_for_path name s).0 (look_for_path name s).1 got
    ∙ (look_for_path-Keeps name).at s

-- The device under a name after it has been changed.
find-update :
    (name : Text) (f : DmDevice → DmDevice) (ds : List DmDevice) (d : DmDevice)
    → ((e : DmDevice) → (f e).name ≡ e.name)
    → find_device name ds ≡ some d
    → find_device name (update name f ds) ≡ some (f d)
unfolding find_device update
find-update name f [] d keeps e = cc
find-update name f (c ∷ ds) d keeps e = ground (arith, keeps c, find-update name f ds d keeps)

change-true :
    (name : Text) (f : DmDevice → DmDevice) (s : System) {d : DmDevice}
    → ((e : DmDevice) → (f e).name ≡ e.name)
    → (change name f s).0 ≡ true
    → find_device name s.devices ≡ some d
    → find_device name (change name f s).1.devices ≡ some (f d)
unfolding change ◌>>=◌ if_done if_some
change-true name f s {d} keeps e at =
    let changed = find-update name f s.devices d keeps at in
    elim (Bool-cases ((s.replies 0).done)) [
      | inl answered ↦ rw (answered, at) changed
      | inr refused ↦ absurd (ground arith)
    ]

-- A new device stands under its name, without a table.
create_empty-true :
    (name : Text) (s : System)
    → (create_empty_device name s).0 ≡ true
    → find_device name (create_empty_device name s).1.devices
      ≡ some (new_device name ((s.replies 1).number))
unfolding create_empty_device ◌>>=◌ if_done find_device
create_empty-true name s e = ground (arith, same_refl name)

-- `LoadTable` once the control device is open.
load_open : Text → DmTable → M Bool
load_open name table = do
  loaded ← change name (set_table table)
  if loaded then change name activate else pure false

load_open-true :
    (name : Text) (table : DmTable) (s : System) {d : DmDevice}
    → (load_open name table s).0 ≡ true
    → find_device name s.devices ≡ some d
    → find_device name (load_open name table s).1.devices ≡ some (activate (set_table table d))
unfolding load_open ◌>>=◌
load_open-true name table s e at =
    let first = change name (set_table table) s in
    elim (Bool-cases first.0) [
      | inl loaded ↦
          let here = change-true name (set_table table) s (λ _. refl) loaded at in
          rw loaded (change-true name activate first.1 (λ _. refl) (ground arith) here)
      | inr refused ↦ absurd (ground arith)
    ]

load_table-true :
    (name : Text) (table : DmTable) (s : System) {d : DmDevice}
    → (load_table name table s).0 ≡ true
    → find_device name s.devices ≡ some d
    → find_device name (load_table name table s).1.devices ≡ some (activate (set_table table d))
unfolding load_table load_open ◌>>=◌ if_done
load_table-true name table s e at =
    let t = record s { replies = λ n. s.replies (suc n) } in
    elim (Bool-cases ((s.replies 0).done)) [
      | inl opened ↦ rw opened (load_open-true name table t (ground arith) at)
      | inr refused ↦ absurd (ground arith)
    ]

-- `CreateDevice` after the empty device, and after its table.
after_load : Text → Bool → M (Option Text)
after_load name loaded =
    if_done loaded (do remove_device name; pure none)
      do
        path ← wait_for_device_created name
        if_some path (do remove_device name; pure none) λ p. pure (some p)

after_wait-some :
    (name : Text) (found : Option Text) (s : System) {path : Text}
    → (if_some found (do remove_device name; pure none) (λ p. pure (some p)) s).0 ≡ some path
    → (found ≡ some path)
      × ((if_some found (do remove_device name; pure none) (λ p. pure (some p)) s).1.devices
          ≡ s.devices)
unfolding if_some ◌>>=◌
after_wait-some name none s e = (cc, cc)
after_wait-some name (some p) s e = (e, refl)

after_load-some :
    (name : Text) (loaded : Bool) (s : System) {path : Text}
    → (after_load name loaded s).0 ≡ some path
    → (loaded ≡ true) × ((after_load name loaded s).1.devices ≡ s.devices)
unfolding after_load if_done ◌>>=◌
after_load-some name false s e = (cc, cc)
after_load-some name true s e =
    let w = wait_for_device_created name s in
    let (got, same_devices) = after_wait-some name w.0 w.1 e in
    (refl, same_devices ∙ wait_for_device-some name s got)

after_empty : Text → DmTable → Bool → M (Option Text)
after_empty name table empty =
    if_done empty (pure none) do loaded ← load_table name table; after_load name loaded

create_device-step :
    (name : Text) (table : DmTable) (s : System)
    → create_device name table s
      ≡ after_empty name table (create_empty_device name s).0 (create_empty_device name s).1
unfolding create_device ◌>>=◌ after_empty after_load
create_device-step name table s = refl

after_empty-some :
    (name : Text) (table : DmTable) (empty : Bool) (s : System) {d : DmDevice} {path : Text}
    → (after_empty name table empty s).0 ≡ some path
    → (empty ≡ true → find_device name s.devices ≡ some d)
    → find_device name (after_empty name table empty s).1.devices
      ≡ some (activate (set_table table d))
unfolding after_empty if_done ◌>>=◌
after_empty-some name table false s e at = cc
after_empty-some name table true s e at =
    let l = load_table name table s in
    let (loaded, same_devices) = after_load-some name l.0 l.1 e in
    ap (find_device name) same_devices ∙ load_table-true name table s loaded (at refl)

-- When `CreateDevice` succeeds, the device stands under its name, active and with the table.
pub create_device_lem :
    (name : Text) (table : DmTable) (s : System) {path : Text}
    → (create_device name table s).0 ≡ some path
    → find_device name (create_device name table s).1.devices
      ≡ some (activate (set_table table (new_device name ((s.replies 1).number))))
create_device_lem name table s e =
    let step = create_device-step name table s in
    let c = create_empty_device name s in
    ap (λ r. find_device name r.1.devices) step
    ∙ after_empty-some name table c.0 c.1 (ap (λ r. r.0) (sym step) ∙ e) (create_empty-true name s)

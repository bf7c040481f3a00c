-- ===== src/Mount/Steady.antt =====
-- src/native/linux: what the calls on loop devices, devices of the device mapper and record files
-- leave alone, the mounts and the mount records.
use volume_backup.Prelude.{ap, ℕ, zero, suc, List, [], ◌∷◌, Bool, Option}
use volume_backup.Text.{Text}
use volume_backup.Mount.Table.{DmTable}
use volume_backup.Mount.Kernel.{System, LoopDevice, MountEntry, SavedRecord, M, CopySliceTarget}
use volume_backup.Copy.{CopySegment}
use volume_backup.Mount.Keeps.{Keeps, keeps_rules, Keeps-bind, Keeps-pure, Keeps-if_some}
use volume_backup.Mount.Loop.{attach, detach, is_attached}
use volume_backup.Mount.Device.{
  change, dev_status, get_device_status, access, wait_created, wait_removed, remove_device,
  remove_device_if_exists, create_empty_device, load_table, wait_for_device_created, create_device,
  get_device_status_unique_path, get_device_path_by_name,
}
use volume_backup.Mount.Binary.{
  DmMountProvider, save_loop_record, remove_loop_record, save_dm_record, remove_dm_record,
  attach_dm_loop_device, detach_loop_device_if_attached, remove_dm_device_if_exists, add_targets,
  create_dm_device, load_residual_loop_device_list, load_residual_dm_device_list, for_all,
  rollback_clear_residue, attach_segments, device_of_slices, prepare_device,
}

-- The mounts and the mount records.
abbrev pub mounts_and_records : System → List MountEntry × (Text → Option SavedRecord)
mounts_and_records s = (s.mounts, s.saved)

abbrev pub Steady : {A : Type 0} → M A → Type 0
Steady m = Keeps mounts_and_records m

attach-Steady : (file : Text) → Steady (attach file)
unfolding attach
attach-Steady file = search keeps_rules depth 30

detach-Steady : (path : Text) → Steady (detach path)
unfolding detach
detach-Steady path = search keeps_rules depth 30

is_attached-Steady : (path : Text) → Steady (is_attached path)
unfolding is_attached
is_attached-Steady path = search keeps_rules depth 30

-- These, and the loop devices.
abbrev pub beside_devices : System → List MountEntry × (Text → Option SavedRecord) × List LoopDevice
beside_devices s = (s.mounts, s.saved, s.loops)

abbrev pub Aside : {A : Type 0} → M A → Type 0
Aside m = Keeps beside_devices m

dev_status-Aside : (name : Text) → Aside (dev_status name)
unfolding dev_status
dev_status-Aside name = search keeps_rules depth 30

access-Aside : (minor : ℕ) → Aside (access minor)
unfolding access
access-Aside minor = search keeps_rules depth 30

wait_removed-Aside : (rounds minor : ℕ) → Aside (wait_removed rounds minor)
unfolding wait_removed
wait_removed-Aside zero minor = search keeps_rules depth 30
wait_removed-Aside (suc rounds) minor =
    search (keeps_rules, access-Aside, wait_removed-Aside rounds) depth 30

wait_created-Aside : (rounds minor : ℕ) → Aside (wait_created rounds minor)
unfolding wait_created
wait_created-Aside zero minor = search keeps_rules depth 30
wait_created-Aside (suc rounds) minor =
    search (keeps_rules, access-Aside, wait_created-Aside rounds) depth 30

ruleset device_rules =
    (keeps_rules, dev_status-Aside, access-Aside, wait_removed-Aside, wait_created-Aside)

get_device_status-Aside : (name : Text) → Aside (get_device_status name)
unfolding get_device_status
get_device_status-Aside name = search device_rules depth 30

unique_path-Aside : (name : Text) → Aside (get_device_status_unique_path name)
unfolding get_device_status_unique_path
unique_path-Aside name = search device_rules depth 30

path_by_name-Aside : (name : Text) → Aside (get_device_path_by_name name)
unfolding get_device_path_by_name
path_by_name-Aside name = search device_rules depth 30

remove_device-Aside : (name : Text) → Aside (remove_device name)
unfolding remove_device
remove_device-Aside name =
    search (device_rules, get_device_status-Aside, path_by_name-Aside) depth 30

remove_device_if_exists-Aside : (name : Text) → Aside (remove_device_if_exists name)
unfolding remove_device_if_exists
remove_device_if_exists-Aside name =
    search (keeps_rules, get_device_status-Aside, remove_device-Aside) depth 30

create_empty_device-Aside : (name : Text) → Aside (create_empty_device name)
unfolding create_empty_device
create_empty_device-Aside name = search keeps_rules depth 30

load_table-Aside : (name : Text) (table : DmTable) → Aside (load_table name table)
unfolding load_table change
load_table-Aside name table = search keeps_rules depth 30

wait_for_device-Aside : (name : Text) → Aside (wait_for_device_created name)
unfolding wait_for_device_created
wait_for_device-Aside name =
    search (device_rules, unique_path-Aside, path_by_name-Aside, remove_device-Aside) depth 30

create_device-Aside : (name : Text) (table : DmTable) → Aside (create_device name table)
unfolding create_device
create_device-Aside name table =
    search
      (
        keeps_rules, create_empty_device-Aside, load_table-Aside, wait_for_device-Aside,
        remove_device-Aside,
      )
      depth 30

save_dm-Aside : (name : Text) → Aside (save_dm_record name)
unfolding save_dm_record
save_dm-Aside name = search keeps_rules depth 30

add_targets-Aside :
    (slices : List CopySliceTarget) (table : DmTable) → Aside (add_targets slices table)
unfolding add_targets
add_targets-Aside [] table = search keeps_rules depth 30
add_targets-Aside (slice ∷ slices) table = search (keeps_rules, add_targets-Aside slices) depth 30

pub create_dm_device-Aside :
    (slices : List CopySliceTarget) (read_only : Bool) → Aside (create_dm_device slices read_only)
unfolding create_dm_device
create_dm_device-Aside slices read_only =
    search (keeps_rules, add_targets-Aside, create_device-Aside, save_dm-Aside) depth 30

Steady-of-Aside : {A : Type 0} (m : M A) → Aside m → Steady m
Steady-of-Aside m k = record { at = λ s. ap (λ x. (x.0, x.1)) (k.at s) }

pub remove_device_if_exists-Steady : (name : Text) → Steady (remove_device_if_exists name)
remove_device_if_exists-Steady name = Steady-of-Aside _ (remove_device_if_exists-Aside name)

create_dm_device-Steady :
    (slices : List CopySliceTarget) (read_only : Bool) → Steady (create_dm_device slices read_only)
create_dm_device-Steady slices read_only =
    Steady-of-Aside _ (create_dm_device-Aside slices read_only)

save_loop-Steady : (path : Text) → Steady (save_loop_record path)
unfolding save_loop_record
save_loop-Steady path = search keeps_rules depth 30

pub remove_loop-Steady : (path : Text) → Steady (remove_loop_record path)
unfolding remove_loop_record
remove_loop-Steady path = search keeps_rules depth 30

remove_dm-Steady : (name : Text) → Steady (remove_dm_record name)
unfolding remove_dm_record
remove_dm-Steady name = search keeps_rules depth 30

attach_dm-Steady : (file : Text) → Steady (attach_dm_loop_device file)
unfolding attach_dm_loop_device
attach_dm-Steady file = search (keeps_rules, attach-Steady, save_loop-Steady) depth 30

detach_dm-Steady : (path : Text) → Steady (detach_loop_device_if_attached path)
unfolding detach_loop_device_if_attached
detach_dm-Steady path =
    search (keeps_rules, is_attached-Steady, detach-Steady, remove_loop-Steady) depth 30

remove_dm_device-Steady : (name : Text) → Steady (remove_dm_device_if_exists name)
unfolding remove_dm_device_if_exists
remove_dm_device-Steady name =
    search (keeps_rules, remove_device_if_exists-Steady, remove_dm-Steady) depth 30

loop_list-Steady : Steady load_residual_loop_device_list
unfolding load_residual_loop_device_list
loop_list-Steady = search keeps_rules depth 30

dm_list-Steady : Steady load_residual_dm_device_list
unfolding load_residual_dm_device_list
dm_list-Steady = search keeps_rules depth 30

for_all-Steady :
    (f : Text → M Bool) → ((t : Text) → Steady (f t)) → (ts : List Text) → Steady (for_all f ts)
unfolding for_all
for_all-Steady f kf [] = search keeps_rules depth 30
for_all-Steady f kf (t ∷ ts) =
    Keeps-bind _ _ (kf t) (λ _. Keeps-bind _ _ (for_all-Steady f kf ts) (λ _. Keeps-pure _))

-- The roll back of a mount unmounts nothing.
pub rollback-Steady : Steady rollback_clear_residue
unfolding rollback_clear_residue
rollback-Steady =
    search
      (
        keeps_rules, loop_list-Steady, dm_list-Steady, for_all-Steady, remove_dm_device-Steady,
        detach_dm-Steady,
      )
      depth 30

attach_segments-Steady :
    (p : DmMountProvider) (segments : List CopySegment) → Steady (attach_segments p segments)
unfolding attach_segments
attach_segments-Steady p [] = search keeps_rules depth 30
attach_segments-Steady p (segment ∷ segments) = Keeps-bind _ _ (attach_dm-Steady _) (λ _.
    Keeps-if_some _ _ _ (Keeps-pure _)
      (λ _. Keeps-bind _ _ (attach_segments-Steady p segments) (λ _. Keeps-pure _)))

device_of_slices-Steady :
    (read_only : Bool) (slices : List CopySliceTarget) → Steady (device_of_slices read_only slices)
unfolding device_of_slices
device_of_slices-Steady read_only [] = create_dm_device-Steady [] read_only
device_of_slices-Steady read_only (slice ∷ []) = search keeps_rules depth 30
device_of_slices-Steady read_only (slice ∷ other ∷ slices) =
    create_dm_device-Steady (slice ∷ other ∷ slices) read_only

pub prepare_device-Steady : (p : DmMountProvider) → Steady (prepare_device p)
unfolding prepare_device
prepare_device-Steady p =
    search (keeps_rules, attach_segments-Steady, device_of_slices-Steady) depth 30

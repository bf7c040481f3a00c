-- ===== src/Mount/Binary/Mapped.antt =====
-- src/native/linux/LinuxDeviceMapperMountProvider.cpp, `CreateDmDevice`: the table of the device.
use volume_backup.Prelude.{
  ℕ, suc, ◌≡◌, refl, ◌∙◌, sym, ap, ap₂, Bool, true, false, Option, none, some, List, [], ◌∷◌, ◌++◌,
  append_assoc, append-nil,
}
use volume_backup.Text.{Text}
use volume_backup.Mount.Table.{DmTable, add_target, set_read_only}
use volume_backup.Mount.Table.Linear.{linear_targets}
use volume_backup.Mount.Kernel.{
  System, DmDevice, CopySliceTarget, M, ◌>>=◌, ◌>>◌, if_done, if_some, pure,
}
use volume_backup.Mount.Keeps.{Keeps, keeps_rules}
use volume_backup.Mount.Device.{create_device, find_device, set_table, activate, new_device}
use volume_backup.Mount.Device.Created.{create_device_lem}
use volume_backup.Mount.Binary.{
  linear_target, add_targets, new_table, save_dm_record, create_dm_device, dm_name_of,
}

abbrev skip : System → System
skip s = record s { replies = λ n. s.replies (suc (suc n)) }

-- The loop devices of the slices can be opened and tell this sector size.
abbrev pub Sectors : ℕ → List CopySliceTarget → System → Type 0
Sectors sector_size [] s = Unit {0}
Sectors sector_size (c ∷ cs) s =
    ((s.replies 0).done ≡ true)
    × ((s.replies 1).done ≡ true)
    × ((s.replies 1).number ≡ sector_size)
    × Sectors sector_size cs (skip s)

add_targets-step :
    (sector_size : ℕ) (c : CopySliceTarget) (cs : List CopySliceTarget) (table : DmTable)
    (s : System)
    → (s.replies 0).done ≡ true
    → (s.replies 1).done ≡ true
    → (s.replies 1).number ≡ sector_size
    → add_targets (c ∷ cs) table s
      ≡ add_targets cs (add_target (linear_target c sector_size) table) (skip s)
unfolding add_targets ◌>>=◌ if_done if_some
add_targets-step sector_size c cs table s opened answered number =
    rw opened (rw answered (rw number refl))

abbrev with_targets : ℕ → List CopySliceTarget → DmTable → DmTable
with_targets sector_size slices table = record table {
  targets = table.targets ++ linear_targets sector_size slices;
}

add_targets-nil : (table : DmTable) (s : System) → add_targets [] table s ≡ (some table, s)
unfolding add_targets pure
add_targets-nil table s = refl

with_targets-cons :
    (sector_size : ℕ) (c : CopySliceTarget) (cs : List CopySliceTarget) (table : DmTable)
    → with_targets sector_size cs (add_target (linear_target c sector_size) table)
      ≡ with_targets sector_size (c ∷ cs) table
unfolding add_target
with_targets-cons sector_size c cs table =
    ap (λ ts. record table { targets = ts })
      (append_assoc table.targets (linear_target c sector_size ∷ [])
        (linear_targets sector_size cs))

add_targets_lem :
    (sector_size : ℕ) (slices : List CopySliceTarget) (table : DmTable) (s : System)
    → Sectors sector_size slices s
    → (add_targets slices table s).0 ≡ some (with_targets sector_size slices table)
add_targets_lem sector_size [] table s sectors =
    ap (λ r. r.0) (add_targets-nil table s)
    ∙ ap (λ ts. some (record table { targets = ts })) (sym (append-nil table.targets))
add_targets_lem sector_size (c ∷ cs) table s (opened, answered, number, rest) =
    ap (λ r. r.0) (add_targets-step sector_size c cs table s opened answered number)
    ∙ add_targets_lem sector_size cs (add_target (linear_target c sector_size) table) (skip s) rest
    ∙ ap some (with_targets-cons sector_size c cs table)

abbrev devices : System → List DmDevice
devices s = s.devices

save_dm-devices : (name : Text) → Keeps devices (save_dm_record name)
unfolding save_dm_record
save_dm-devices name = search keeps_rules depth 30

-- `CreateDmDevice` after the table is filled.
after_fill : Text → Option DmTable → M (Option (Text × Text))
after_fill name filled = if_some filled (pure none) λ table. do
  created ← create_device name table
  if_some created (pure none) λ path. do save_dm_record name; pure (some (name, path))

after_create : Text → Option Text → M (Option (Text × Text))
after_create name created =
    if_some created (pure none) λ path. do save_dm_record name; pure (some (name, path))

after_create-some :
    (name : Text) (created : Option Text) (s : System) {n path : Text}
    → (after_create name created s).0 ≡ some (n, path)
    → (created ≡ some path) × (n ≡ name) × ((after_create name created s).1.devices ≡ s.devices)
unfolding after_create if_some ◌>>=◌
after_create-some name none s e = (cc, cc, cc)
after_create-some name (some p) s e = (cc, cc, (save_dm-devices name).at s)

after_fill-some :
    (name : Text) (filled : Option DmTable) (table : DmTable) (s : System) {n path : Text}
    → filled ≡ some table
    → (after_fill name filled s).0 ≡ some (n, path)
    → (minor : ℕ) × (n ≡ name)
      × (find_device n (after_fill name filled s).1.devices
          ≡ some (activate (set_table table (new_device name minor))))
unfolding after_fill after_create if_some ◌>>=◌
after_fill-some name none table s filled e = absurd (cc)
after_fill-some name (some t) table s filled e =
    let c = create_device name t s in
    let (created, same_name, same_devices) = after_create-some name c.0 c.1 e in
    let same_table : t ≡ table = cc in
    (
      (s.replies 1).number,
      same_name,
      ap₂ find_device same_name same_devices
          ∙ create_device_lem name t s created
          ∙ ap (λ u. some (activate (set_table u (new_device name ((s.replies 1).number)))))
              same_table,
    )

create_dm_device-step :
    (slices : List CopySliceTarget) (read_only : Bool) (s : System)
    → create_dm_device slices read_only s ≡ (
        let r =
          add_targets slices
            (new_table read_only)
            (record s { replies = λ n. s.replies (suc n) }) in
        after_fill (dm_name_of ((s.replies 0).number)) r.0 r.1)
unfolding create_dm_device ◌>>=◌ after_fill
create_dm_device-step slices read_only s = refl

new_table-targets :
    (sector_size : ℕ) (slices : List CopySliceTarget) (read_only : Bool)
    → with_targets sector_size slices (new_table read_only)
      ≡ record { targets = linear_targets sector_size slices; read_only = read_only }
unfolding set_read_only
new_table-targets sector_size slices true = refl
new_table-targets sector_size slices false = refl

-- When the device is created from slices whose loop devices have a sector size, it stands under the
-- name that is returned, active, with a linear target for each slice.
pub create_dm_device_lem :
    (sector_size : ℕ) (slices : List CopySliceTarget) (read_only : Bool) (s : System)
    (name path : Text)
    → Sectors sector_size slices (record s { replies = λ n. s.replies (suc n) })
    → (create_dm_device slices read_only s).0 ≡ some (name, path)
    → (d : DmDevice) × (find_device name (create_dm_device slices read_only s).1.devices ≡ some d)
      × (d.table
          ≡ some (record { targets = linear_targets sector_size slices; read_only = read_only }))
      × (d.active ≡ true)
      × (name ≡ dm_name_of ((s.replies 0).number))
create_dm_device_lem sector_size slices read_only s name path sectors e =
    let t = record s { replies = λ n. s.replies (suc n) } in
    let step = create_dm_device-step slices read_only s in
    let filled = add_targets slices (new_table read_only) t in
    let table = with_targets sector_size slices (new_table read_only) in
    let (minor, same_name, here) =
      after_fill-some (dm_name_of ((s.replies 0).number)) filled.0 table filled.1
        (add_targets_lem sector_size slices (new_table read_only) t sectors)
        (ap (λ r. r.0) (sym step) ∙ e) in
    (
      activate (set_table table (new_device (dm_name_of ((s.replies 0).number)) minor)),
      ap (λ r. find_device name r.1.devices) step ∙ here,
      ap some (new_table-targets sector_size slices read_only),
      refl,
      same_name,
    )

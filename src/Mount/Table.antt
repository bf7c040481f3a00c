-- ===== src/Mount/Table.antt =====
-- src/native/linux/DeviceMapperControl.cpp, DmTarget and DmTable: the table of linear targets and
-- the bytes that are handed to the kernel.
pub mod Linear
pub mod Layout
use volume_backup.Prelude.{
  ℕ, zero, suc, ◌+◌, ◌-◌, ◌/◌, ◌%◌, Bool, true, false, List, [], ◌∷◌, ◌++◌, length, replicate,
}
use volume_backup.Text.{Text, codes}
use volume_backup.Text.Decimal.{to_string}

-- DmTargetLinear, the only kind of target.
pub record DmTarget : Type 0 where
  pub start_sector : ℕ
  pub sectors_count : ℕ
  pub block_device_path : Text
  pub physical_sector : ℕ

pub record DmTable : Type 0 where
  pub targets : List DmTarget
  pub read_only : Bool

-- A number in so many bytes, the lowest first.
unfoldable pub little_endian : ℕ → ℕ → List ℕ
little_endian zero n = []
little_endian (suc k) n = (n % 256) ∷ little_endian k (n / 256)

-- Bytes written over the first ones of a buffer.
unfoldable pub overwrite : List ℕ → List ℕ → List ℕ
overwrite [] buffer = buffer
overwrite (b ∷ bs) [] = []
overwrite (b ∷ bs) (c ∷ cs) = b ∷ overwrite bs cs

-- `(x + 7) & ~7`.
abbrev pub dm_align : ℕ → ℕ
dm_align x = x + 7 - (x + 7) % 8

abbrev pub linear : Text
linear = codes "linear"

unfoldable pub get_parameter_string : DmTarget → Text
get_parameter_string t = t.block_device_path ++ (codes " " ++ to_string t.physical_sector)

-- `struct dm_target_spec`: the first sector, the number of sectors, the status, the offset of the
-- next target, and the name of the type in 16 bytes.
abbrev pub dm_target_spec : DmTarget → ℕ → List ℕ
dm_target_spec t next =
    little_endian 8 t.start_sector
    ++ (little_endian 8 t.sectors_count
        ++ (little_endian 4 0 ++ (little_endian 4 next ++ (linear ++ replicate 10 0))))

-- The target as a buffer of zeros with the parameters and padding, before the header is filled in.
unfoldable pub padded : DmTarget → List ℕ
padded t =
    let bytes = replicate 40 0 ++ (get_parameter_string t ++ (0 ∷ [])) in
    bytes ++ replicate (dm_align (length bytes) - length bytes) 0

unfoldable pub serialize_target : DmTarget → List ℕ
unfolding overwrite little_endian
serialize_target t = overwrite (dm_target_spec t (length (padded t))) (padded t)

unfoldable pub serialize_targets : List DmTarget → List ℕ
serialize_targets [] = []
serialize_targets (t ∷ ts) = serialize_target t ++ serialize_targets ts

unfoldable pub serialize : DmTable → List ℕ
unfolding serialize_targets
serialize table = serialize_targets table.targets

unfoldable pub add_target : DmTarget → DmTable → DmTable
add_target t table = record table { targets = table.targets ++ (t ∷ []) }

unfoldable pub set_read_only : DmTable → DmTable
set_read_only table = record table { read_only = true }

unfoldable pub target_count : DmTable → ℕ
target_count table = length table.targets

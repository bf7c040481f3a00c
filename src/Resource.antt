-- ===== src/Resource.antt =====
-- src/native/TaskResourceManager.cpp: the files of a copy are created before a full backup, and must
-- be there before a restore.
pub mod Fragments
mod Tests
use mathlib.Core.Option
use volume_backup.Prelude.{
  ℕ, zero, suc, ◌+◌, ◌-◌, Bool, true, false, ◌&&◌, ◌||◌, not, Option, none, some, List, [], ◌∷◌,
  ltb, leb, if◌then◌else◌,
}
use volume_backup.Text.{Text}
use volume_backup.Text.Path.{copy_data_file_path, path_join}
use volume_backup.Task.{add64}
use volume_backup.Session.{CopyFormat, bin, image, other}
use volume_backup.Copy.{BackupType, full, forever_inc}
use volume_backup.Pipeline.Hasher.{same_bytes}

-- The paths at which there is a file.
abbrev pub Paths : Type 0
Paths = List Text

pub exists : Paths → Text → Bool
exists [] path = false
exists (p ∷ ps) path = same_bytes p path || exists ps path

-- Whether the system can create the file, and give it its size.
pub record CreateAnswer : Type 0 where
  pub opened : Bool
  pub truncated : Bool

-- `rawio::TruncateCreateFile` on POSIX: an existing file is an error (`O_EXCL`).
pub truncate_create_file : CreateAnswer → Text → Paths → Bool × Paths
unfolding exists
truncate_create_file a path fs =
    if exists fs path || not a.opened then (false, fs) else (a.truncated, path ∷ fs)

pub record Fragment : Type 0 where
  pub path : Text
  pub size : ℕ

-- The loop of `SplitFragmentBinaryBackupCopy`, with its session index. `none`: out of fuel.
pub split_from : Text → Text → ℕ → ℕ → ℕ → ℕ → ℕ → Option (List Fragment)
split_from name dir volume_size session_size session_index zero offset = none
split_from name dir volume_size session_size session_index (suc fuel) offset =
    let size =
      if leb volume_size (add64 offset session_size) then volume_size - offset else session_size in
    let fragment : Fragment = record {
      path = copy_data_file_path dir name bin session_index;
      size = size;
    } in
    let rest =
      split_from name dir volume_size session_size session_index fuel (add64 offset size) in
    if ltb offset volume_size then Option.map (λ fs. fragment ∷ fs) rest else some []

-- `SplitFragmentBinaryBackupCopy`: each round moves on by one byte at least.
pub split_fragments : Text → Text → ℕ → ℕ → Option (List Fragment)
split_fragments name dir volume_size session_size =
    split_from name dir volume_size session_size 0 (suc volume_size) 0

-- The loop of `CreateFragmentBinaryBackupCopy`; the answers are numbered by the rounds.
pub create_files : (ℕ → CreateAnswer) → List Fragment → ℕ → Paths → Bool × Paths
unfolding truncate_create_file
create_files a [] k fs = (true, fs)
create_files a (f ∷ rest) k fs =
    let made = truncate_create_file (a k) f.path fs in
    let after = create_files a rest (k + 1) made.1 in if made.0 then after else (false, made.1)

-- `CreateFragmentBinaryBackupCopy`; `none` is out of fuel.
pub create_fragments : (ℕ → CreateAnswer) → Text → Text → ℕ → ℕ → Paths → Option (Bool × Paths)
create_fragments a name dir volume_size session_size fs =
    Option.map (λ fragments. create_files a fragments 0 fs)
      (split_fragments name dir volume_size session_size)

-- `FragmentBinaryBackupCopyExists`.
pub fragments_exist : Paths → List Fragment → Bool
fragments_exist fs [] = true
fragments_exist fs (f ∷ rest) = exists fs f.path && fragments_exist fs rest

-- BackupTaskResourceManager.
pub record BackupResource : Type 0 where
  pub copy_format : CopyFormat
  pub copy_data_dir : Text
  pub copy_name : Text
  pub backup_type : BackupType
  pub volume_size : ℕ
  pub max_session_size : ℕ

-- `ResourceExists`.
pub resource_exists : BackupResource → Paths → Option Bool
resource_exists r fs = elim r.copy_format [
  | bin ↦
      Option.map (fragments_exist fs)
        (split_fragments r.copy_name r.copy_data_dir r.volume_size r.max_session_size)
  | image ↦ some (exists fs (copy_data_file_path r.copy_data_dir r.copy_name image 0))
  | other _ ↦ some false
]

-- `CreateBackupCopyResource`.
pub create_resource : (ℕ → CreateAnswer) → BackupResource → Paths → Option (Bool × Paths)
create_resource a r fs = elim r.copy_format [
  | bin ↦ create_fragments a r.copy_name r.copy_data_dir r.volume_size r.max_session_size fs
  | image ↦
      some (truncate_create_file (a 0) (copy_data_file_path r.copy_data_dir r.copy_name image 0) fs)
  | other _ ↦ some (false, fs)
]

-- `AttachCopyResource` and `InitBackupCopyResource`: on POSIX only the format is looked at.
abbrev is_attachable : CopyFormat → Bool
is_attachable bin = true
is_attachable image = true
is_attachable (other _) = false

is_full : BackupType → Bool
is_full full = true
is_full forever_inc = false

abbrev attached : BackupResource → Bool × Paths → Bool × Paths
attached r (made, fs) = (made && is_attachable r.copy_format, fs)

-- `BackupTaskResourceManager::PrepareCopyResource`.
pub prepare_backup_resource : (ℕ → CreateAnswer) → BackupResource → Paths → Option (Bool × Paths)
unfolding resource_exists create_resource is_full
prepare_backup_resource a r fs = elim (resource_exists r fs) [
  | none ↦ none
  | some there ↦
      if is_full r.backup_type && not there
      then Option.map (attached r) (create_resource a r fs)
      else some (is_attachable r.copy_format, fs)
]

-- `RestoreTaskResourceManager::PrepareCopyResource`: every file that the meta data names must exist.
pub prepare_restore_resource : CopyFormat → Text → List Text → Paths → Bool
prepare_restore_resource format dir [] fs = is_attachable format
prepare_restore_resource format dir (file ∷ files) fs =
    exists fs (path_join dir file) && prepare_restore_resource format dir files fs

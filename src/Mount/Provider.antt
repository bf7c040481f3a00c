-- ===== src/Mount/Provider.antt =====
-- src/VolumeCopyMountProvider.cpp, `Build`, and those of LinuxDeviceMapperMountProvider.cpp and
-- LinuxLoopbackMountProvider.cpp: the provider for a copy.
use volume_backup.Prelude.{Bool, Option, none, some, List, [], ◌∷◌, if◌then◌else◌}
use volume_backup.Text.{Text}
use volume_backup.Text.Path.{path_join}
use volume_backup.Session.{bin, image, other}
use volume_backup.Copy.{VolumeCopyMeta, CopySegment}
use volume_backup.Mount.Kernel.{M}
use volume_backup.Mount.Binary.{DmMountProvider, mount_copy}
use volume_backup.Mount.Release.{ImageMountProvider, mount_image}

pub record VolumeCopyMountConfig : Type 0 where
  pub output_dir_path : Text
  pub copy_name : Text
  pub copy_meta_dir_path : Text
  pub copy_data_dir_path : Text
  pub mount_target_path : Text
  pub read_only : Bool
  pub mount_fs_type : Text
  pub mount_options : Text

pub data MountProvider : Type 0 where
  dm_provider : DmMountProvider → MountProvider
  image_provider : ImageMountProvider → MountProvider

-- `LinuxDeviceMapperMountProvider::Build`, for a copy in the binary format.
unfoldable pub build_dm : VolumeCopyMountConfig → Bool → VolumeCopyMeta → Option DmMountProvider
build_dm config data_dir_exists meta =
    if data_dir_exists
    then elim meta.segments [
      | [] ↦ none
      | _ ∷ _ ↦ some (record {
        output_dir_path = config.output_dir_path;
        copy_data_dir_path = config.copy_data_dir_path;
        copy_name = meta.copy_name;
        mount_target_path = config.mount_target_path;
        read_only = config.read_only;
        mount_fs_type = config.mount_fs_type;
        mount_options = config.mount_options;
        segments = meta.segments;
      })
    ]
    else none

unfoldable pub build_image :
    VolumeCopyMountConfig → List CopySegment → VolumeCopyMeta → Option ImageMountProvider
build_image config [] meta = none
build_image config (front ∷ segments) meta = some (record {
  output_dir_path = config.output_dir_path;
  copy_name = meta.copy_name;
  image_file_path = path_join config.copy_data_dir_path front.copy_data_file;
  mount_target_path = config.mount_target_path;
  read_only = config.read_only;
  mount_fs_type = config.mount_fs_type;
  mount_options = config.mount_options;
})

abbrev wrap : {A : Type 0} → (A → MountProvider) → Option A → Option MountProvider
wrap f none = none
wrap f (some p) = some (f p)

abbrev build_for : VolumeCopyMountConfig → Bool → VolumeCopyMeta → Option MountProvider
build_for config data_dir_exists meta = elim meta.copy_format [
  | bin ↦ wrap dm_provider (build_dm config data_dir_exists meta)
  | image ↦ wrap image_provider (build_image config meta.segments meta)
  | other _ ↦ none
]

-- `VolumeCopyMountProvider::Build`, with what reading the meta data finds and whether the output
-- and the data directories exist.
unfoldable pub build_mount_provider :
    VolumeCopyMountConfig → Option VolumeCopyMeta → Bool → Bool → Option MountProvider
unfolding build_dm build_image
build_mount_provider config none output_dir_exists data_dir_exists = none
build_mount_provider config (some meta) output_dir_exists data_dir_exists =
    if output_dir_exists then build_for config data_dir_exists meta else none

unfoldable pub mount_with : MountProvider → M Bool
mount_with (dm_provider p) = mount_copy p
mount_with (image_provider p) = mount_image p

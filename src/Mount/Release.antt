-- ===== src/Mount/Release.antt =====
-- src/native/linux/LinuxDeviceMapperMountProvider.cpp and LinuxLoopbackMountProvider.cpp, the umount
-- providers, and the mount of an image; src/VolumeCopyMountProvider.cpp, which chooses the provider.
use volume_backup.Prelude.{
  Bool, true, false, not, ◌&&◌, Option, none, some, List, [], ◌∷◌, ◌++◌, if◌then◌else◌,
}
use volume_backup.Text.{Text, codes}
use volume_backup.Text.Path.{path_join}
use volume_backup.Text.Search.{same}
use volume_backup.Mount.Kernel.{
  MountEntry, ImageMountRecord, SavedRecord, dm_record, image_record, M, if_done, if_some, pure,
  ◌>>=◌, ◌>>◌, call, modify,
}
use volume_backup.Mount.Loop.{attach, detach, is_attached}
use volume_backup.Mount.Points.{
  mount_flags, mount, umount, umount_all, is_mount_point, get_mount_device_path,
}
use volume_backup.Mount.Device.{remove_device_if_exists}
use volume_backup.Mount.Binary.{
  create_empty_file, loop_record_name, remove_loop_record, load_record,
}

-- The fields of LinuxDeviceMapperUmountProvider that are used.
pub record DmUmountProvider : Type 0 where
  pub mount_target_path : Text
  pub dm_device_name : Text
  pub loop_devices : List Text

pub record ImageUmountProvider : Type 0 where
  pub mount_target_path : Text
  pub loopback_device_path : Text

abbrev pub no_text : Text → Bool
no_text [] = true
no_text (c ∷ s) = false

-- The last loop of `Umount`. The record of a device is removed where the device is not detached.
unfoldable pub detach_loops : List Text → M Bool
detach_loops [] = pure true
detach_loops (path ∷ paths) = do
  attached ← is_attached path
  detached ← (if attached then detach path else pure true)
  (if detached then pure tt else remove_loop_record path)
  rest ← detach_loops paths
  pure (detached && rest)

-- `LinuxDeviceMapperUmountProvider::Umount`.
unfoldable pub umount_copy : DmUmountProvider → M Bool
unfolding detach_loops
umount_copy p = do
  unmounted ← umount p.mount_target_path
  cleared ← umount_all p.dm_device_name
  removed ←
      (if no_text p.dm_device_name then pure true else remove_device_if_exists p.dm_device_name)
  detached ← detach_loops p.loop_devices
  pure (unmounted && (cleared && (removed && detached)))

-- `LinuxLoopbackUmountProvider::Umount`.
unfoldable pub umount_image : ImageUmountProvider → M Bool
umount_image p = do
  unmounted ← (if no_text p.mount_target_path then pure true else umount p.mount_target_path)
  if_done unmounted (pure false) do
    cleared ← umount_all p.loopback_device_path
    if_done cleared (pure false) do
      detached ←
          (if_done (not (no_text p.loopback_device_path)) (pure true) (do
            attached ← is_attached p.loopback_device_path
            if attached then detach p.loopback_device_path else pure true))
      if_done detached (pure false) do remove_loop_record p.loopback_device_path; pure true

-- `PosixLoopbackMountRollback`.
unfoldable pub image_rollback : Text → Text → M Bool
unfolding umount_image
image_rollback mount_target_path loopback_device_path =
    let release : M Bool = umount_image (record {
      mount_target_path = mount_target_path;
      loopback_device_path = loopback_device_path;
    }) in
    if_done (not (no_text loopback_device_path)) (pure true) (do
      there ← is_mount_point mount_target_path
      if_done there release do
        device ← get_mount_device_path mount_target_path
        if same device loopback_device_path then release else pure true)

-- The fields of LinuxLoopbackMountProvider.
pub record ImageMountProvider : Type 0 where
  pub output_dir_path : Text
  pub copy_name : Text
  pub image_file_path : Text
  pub mount_target_path : Text
  pub read_only : Bool
  pub mount_fs_type : Text
  pub mount_options : Text

abbrev pub image_record_path : ImageMountProvider → Text
image_record_path p = path_join p.output_dir_path (p.copy_name ++ codes ".image.mount.record.json")

-- `JsonSerialize` of a mount record: a write that breaks leaves a record that cannot be read.
abbrev save_record : Text → SavedRecord → M Bool
save_record path r = do
  opened ← call
  if_done opened (pure false) do
    written ← call
    modify (λ s. record s {
      saved = λ q. if same q path then (if written then some r else none) else s.saved q;
    })
    pure written

abbrev image_record_of : ImageMountProvider → Text → ImageMountRecord
image_record_of p path = record {
  loopback_device_path = path;
  mount_target_path = p.mount_target_path;
  mount_fs_type = p.mount_fs_type;
  mount_options = p.mount_options;
}

abbrev pub image_entry : ImageMountProvider → Text → MountEntry
image_entry p path = record {
  device_path = path;
  mount_target_path = p.mount_target_path;
  fs_type = p.mount_fs_type;
  flags = mount_flags p.read_only;
  options = p.mount_options;
}

abbrev fail_after : M Bool → M Bool
fail_after m = do m; pure false

-- `LinuxLoopbackMountProvider::Mount`.
unfoldable pub mount_image : ImageMountProvider → M Bool
unfolding image_rollback
mount_image p = do
  attached ← attach p.image_file_path
  if_some attached (pure false) λ path. do
    create_empty_file (loop_record_name path)
    mounted ← mount (image_entry p path)
    if_done mounted (fail_after (image_rollback p.mount_target_path path)) do
      saved ← save_record (image_record_path p) (image_record (image_record_of p path))
      if saved then pure true else fail_after (image_rollback p.mount_target_path path)

-- The umount of a record that has been read.
abbrev umount_record : SavedRecord → M Bool
umount_record (dm_record r) = umount_copy (record {
  mount_target_path = r.mount_target_path;
  dm_device_name = r.dm_device_name;
  loop_devices = r.loop_devices;
})
umount_record (image_record r) = umount_image (record {
  mount_target_path = r.mount_target_path;
  loopback_device_path = r.loopback_device_path;
})

abbrev found : {A B : Type 0} → Option A → (A → M (Option B)) → M (Option B)
found none f = pure none
found (some a) f = f a

-- `VolumeCopyUmountProvider::Build`, which reads the record for its format, the provider's `Build`,
-- which reads it again, and its `Umount`. Nothing: there is no provider.
unfoldable pub umount_saved : Text → M (Option Bool)
unfolding load_record umount_copy umount_image
umount_saved path = do
  exists ← call
  if_done exists (pure none) do
    common ← load_record path
    found common λ _. do
      again ← load_record path
      found again λ r. do done ← umount_record r; pure (some done)

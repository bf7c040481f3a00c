-- ===== src/Mount/Loop.antt =====
-- src/native/linux/LoopDeviceControl.cpp: attaching files to loop devices.
use volume_backup.Prelude.{
  Bool, true, false, not, ◌&&◌, Option, none, some, List, [], ◌∷◌, ◌++◌, if◌then◌else◌, length,
  drop,
}
use volume_backup.Text.{Text, codes}
use volume_backup.Text.Decimal.{to_string}
use volume_backup.Text.Search.{same, starts_with, mem}
use volume_backup.Mount.Kernel.{
  LoopDevice, M, if_done, if_some, pure, ◌>>=◌, ◌>>◌, ask, call, get, modify,
}

abbrev pub loop_device_prefix : Text
loop_device_prefix = codes "/dev/loop"

abbrev pub dev_prefix : Text
dev_prefix = codes "/dev/"

-- Whether a file stands behind the device.
unfoldable pub bound : Text → List LoopDevice → Bool
bound path [] = false
bound path (d ∷ ds) = if same path d.path then true else bound path ds

unfoldable pub unbind : Text → List LoopDevice → List LoopDevice
unbind path [] = []
unbind path (d ∷ ds) = if same path d.path then unbind path ds else d ∷ unbind path ds

-- `ioctl(LOOP_CTL_GET_FREE)`: the kernel makes the device, which then stands in /sys/block.
abbrev get_free_loop_device : M (Option Text)
get_free_loop_device = do
  opened ← call
  if_done opened (pure none) do
    free ← ask
    if_done (free.done) (pure none) do
      let name = codes "loop" ++ to_string free.number
      modify (λ s. record s { block_names = name ∷ s.block_names })
      pure (some (loop_device_prefix ++ to_string free.number))

-- `ioctl(LOOP_SET_FD)`: it fails on a device that has a file already.
abbrev set_fd : Text → Text → M Bool
set_fd path file = do
  answer ← ask
  taken ← get (λ s. bound path s.loops)
  if_done (answer.done && not taken) (pure false)
      do modify (λ s. record s { loops = record { path = path; file = file } ∷ s.loops }); pure true

-- `ioctl(LOOP_CLR_FD)`: it fails on a device that has none.
abbrev clear_fd : Text → M Bool
clear_fd path = do
  answer ← ask
  taken ← get (λ s. bound path s.loops)
  if_done (answer.done && taken) (pure false)
      do modify (λ s. record s { loops = unbind path s.loops }); pure true

-- The path of the loop device, if the file is attached.
unfoldable pub attach : Text → M (Option Text)
attach file = do
  file_opened ← call
  if_done file_opened (pure none) do
    free ← get_free_loop_device
    if_some free (pure none) λ path. do
      loop_opened ← call
      if_done loop_opened (pure none)
          do attached ← set_fd path file; pure (if attached then some path else none)

unfoldable pub detach : Text → M Bool
detach path = do opened ← call; if opened then clear_fd path else pure false

abbrev pub loop_device_name : Text → Text
loop_device_name path = if starts_with dev_prefix path then drop (length dev_prefix) path else path

-- A device counts as attached if it stands in /sys/block.
unfoldable pub is_attached : Text → M Bool
is_attached path = do
  opened ← call
  if opened then get (λ s. mem (loop_device_name path) s.block_names) else pure false

-- ===== src/Mount/Binary/Reads.antt =====
-- src/native/linux/LinuxDeviceMapperMountProvider.cpp on a copy of src/task/VolumeBackupTask.cpp:
-- what is read from the device that `Mount` makes of the files of a backup.
use native.Mathlib.Nat.{add-mul, le_of_mul-le-mul_right, zero-mul}
use volume_backup.Prelude.{
  ℕ, zero, suc, ◌+◌, ◌-◌, ◌*◌, ◌^◌, ◌≤◌, ◌<◌, ◌≡◌, refl, ◌∙◌, sym, ap, subst, ◌⊎◌, inl, inr, Option,
  none, some, List, [], ◌∷◌, arith, length, if◌then◌else◌, get_elem?, Bool, true,
}
use volume_backup.Text.{Text}
use volume_backup.Session.{SharedConfig, bin}
use volume_backup.Copy.{CopySegment, VolumeBackupConfig}
use volume_backup.Backup.{Prepared, split_sessions}
use volume_backup.Backup.Split.{Covers, Agree, split_sessions_lem}
use volume_backup.Mount.Table.{DmTarget, DmTable}
use volume_backup.Mount.Table.Linear.{Tiled, byte_at, byte_at-slice}
use volume_backup.Mount.Kernel.{System, LoopDevice, DmDevice, CopySliceTarget, pure}
use volume_backup.Mount.Device.{find_device}
use volume_backup.Mount.Steady.{create_dm_device-Aside}
use volume_backup.Mount.Binary.Mapped.{Sectors, create_dm_device_lem}
use volume_backup.Mount.Binary.{
  DmMountProvider, attach_segments, device_of_slices, create_dm_device, dm_name_of,
}
use volume_backup.Mount.Binary.Attach.{file_behind, Slices, attach_segments-Result}

-- The file, and the place in it, that a byte of a device with a table of linear targets is read
-- from, through the loop devices.
abbrev pub mounted_byte : ℕ → List DmTarget → List LoopDevice → ℕ → Option (Text × ℕ)
mounted_byte sector_size targets loops x = elim (byte_at sector_size targets x) [
  | none ↦ none
  | some (path, n) ↦ elim (file_behind path loops) [ none ↦ none | some f ↦ some (f, n) ]
]

-- A session that begins at a sector has whole sectors.
session_sectors :
    (sector_size k v o session_size volume_size size : ℕ)
    → 0 < sector_size
    → session_size ≡ k * sector_size
    → volume_size ≡ v * sector_size
    → 0 < size
    → (size ≡ session_size) ⊎ (o * sector_size + size ≡ volume_size)
    → (m : ℕ) × (size ≡ m * sector_size)
session_sectors sector_size k v o session_size volume_size size pos per whole some_bytes (inl e) =
    (k, e ∙ per)
session_sectors sector_size k v o session_size volume_size size pos per whole some_bytes (inr e) =
    let within : o ≤ v = le_of_mul-le-mul_right {k = sector_size} (omega arith) pos in
    let shares : (v - o) * sector_size + o * sector_size ≡ v * sector_size =
      sym (add-mul (v - o) o sector_size) ∙ ap (λ y. y * sector_size) (omega arith) in
    (v - o, omega arith)

-- The slice of a session.
record SliceOf (p : DmMountProvider) (ds : List LoopDevice) (slices : List CopySliceTarget) (i : ℕ)
    (c : SharedConfig) : Type 0 where
  slice : CopySliceTarget
  at : get_elem? slices i ≡ some slice
  offset : slice.volume_offset ≡ c.session_offset
  size : slice.size ≡ c.session_size
  file : file_behind slice.loop_device_path ds ≡ some c.copy_file_path

module _ (b : VolumeBackupConfig) (p : DmMountProvider) (ds : List LoopDevice) where
  SliceOf-session :
      (n : ℕ) (gs : List CopySegment) (cs : List SharedConfig) (fs : List Text)
      (slices : List CopySliceTarget) (i : ℕ) {c : SharedConfig}
      → b.copy_format ≡ bin
      → p.copy_data_dir_path ≡ b.output_copy_data_dir
      → p.copy_name ≡ b.copy_name
      → Agree b n gs cs fs
      → Slices p ds gs slices
      → get_elem? cs i ≡ some c
      → SliceOf p ds slices i c
  SliceOf-session n [] [] fs slices i binary dir name agree s at = cc
  SliceOf-session n [] (c0 ∷ cs) fs slices i binary dir name agree s at = absurd agree
  SliceOf-session n (g ∷ gs) [] fs slices i binary dir name agree s at = absurd agree
  SliceOf-session n (g ∷ gs) (c0 ∷ cs) [] slices i binary dir name agree s at = absurd agree
  SliceOf-session n (g ∷ gs) (c0 ∷ cs) (f ∷ fs) [] i binary dir name agree s at = absurd s
  SliceOf-session n (g ∷ gs) (c0 ∷ cs) (f ∷ fs) (d ∷ ds') zero {c} binary dir name agree s at =
      let e : c0 ≡ c = cc in
      subst (SliceOf p ds (d ∷ ds') zero) e (record {
        slice = d;
        at = refl;
        offset = s.0 ∙ agree.1;
        size = s.1 ∙ agree.2;
        file = s.2 ∙ ap some (cc (agree.6, agree.0, dir, name, binary));
      })
  SliceOf-session n (g ∷ gs) (c0 ∷ cs) (f ∷ fs) (d ∷ ds') (suc i) binary dir name agree s at =
      let r = SliceOf-session (n + 1) gs cs fs ds' i binary dir name agree.8 s.3 at in
      record { slice = r.slice; at = r.at; offset = r.offset; size = r.size; file = r.file }

  pub sessions-Tiled :
      (sector_size k v o n : ℕ) (gs : List CopySegment) (cs : List SharedConfig) (fs : List Text)
      (slices : List CopySliceTarget) (volume_size : ℕ)
      → 0 < sector_size
      → b.session_size ≡ k * sector_size
      → volume_size ≡ v * sector_size
      → Covers b.session_size volume_size (o * sector_size) cs
      → Agree b n gs cs fs
      → Slices p ds gs slices
      → Tiled sector_size o slices
  sessions-Tiled sector_size k v o n [] cs fs [] volume_size pos per whole covers agree s = tt
  sessions-Tiled sector_size k v o n [] cs fs (d ∷ ds') volume_size pos per whole covers agree s =
      absurd s
  sessions-Tiled sector_size k v o n (g ∷ gs) cs fs [] volume_size pos per whole covers agree s =
      absurd s
  sessions-Tiled sector_size k v o n (g ∷ gs) [] fs (d ∷ ds') volume_size pos per whole covers agree
        s =
      absurd agree
  sessions-Tiled sector_size k v o n (g ∷ gs) (c ∷ cs) [] (d ∷ ds') volume_size pos per whole covers
        agree s =
      absurd agree
  sessions-Tiled sector_size k v o n (g ∷ gs) (c ∷ cs) (f ∷ fs) (d ∷ ds') volume_size pos per whole
        covers agree s =
      let (at, some_bytes, small, full, rest) = covers in
      let (m, e) =
        session_sectors sector_size k v o b.session_size volume_size c.session_size pos per whole
          some_bytes full in
      (
        m,
        s.0 ∙ agree.1 ∙ at,
        s.1 ∙ agree.2 ∙ e,
        sessions-Tiled sector_size k v (o + m) (n + 1) gs cs fs ds' volume_size pos per whole
            (subst (λ y. Covers b.session_size volume_size y cs)
              (ap (λ y. o * sector_size + y) e ∙ sym (add-mul o m sector_size)) rest)
            agree.8 s.3,
      )

-- The sectors in which device mapper counts, whatever those of the devices below.
abbrev pub dm_sector_size : ℕ
dm_sector_size = 512

-- Where a byte of the device of `Mount` is read from: the device is a loop device, or, under a name,
-- one of the device mapper that is active.
device_of_table : System → Option DmTable → ℕ → Option (Text × ℕ)
device_of_table s none x = none
device_of_table s (some table) x = mounted_byte dm_sector_size table.targets s.loops x

device_named : System → Option DmDevice → ℕ → Option (Text × ℕ)
device_named s none x = none
device_named s (some d) x = if d.active then device_of_table s d.table x else none

unfoldable pub device_byte : System → Text → Text → ℕ → Option (Text × ℕ)
unfolding device_named device_of_table
device_byte s [] path x = elim (file_behind path s.loops) [ none ↦ none | some f ↦ some (f, x) ]
device_byte s (c ∷ name) path x = device_named s (find_device (c ∷ name) s.devices) x

pub mapped_byte :
    (s : System) (name path : Text) (n x : ℕ) (d : DmDevice) (table : DmTable)
    → name ≡ dm_name_of n
    → find_device name s.devices ≡ some d
    → d.table ≡ some table
    → d.active ≡ true
    → device_byte s name path x ≡ mounted_byte dm_sector_size table.targets s.loops x
unfolding device_byte dm_name_of
mapped_byte s [] path n x d table e here loaded active = absurd (cc)
mapped_byte s (c ∷ name) path n x d table e here loaded active =
    rw here (rw active (rw loaded refl))

loop_byte :
    (s : System) (path : Text) (x : ℕ) (f : Text)
    → file_behind path s.loops ≡ some f
    → device_byte s [] path x ≡ some (f, x)
unfolding device_byte
loop_byte s path x f file = rw (file, device_byte) refl

abbrev pub next_call : System → System
next_call s = record s { replies = λ n. s.replies (suc n) }

module _ (read_only : Bool) where
  one_slice :
      (d : CopySliceTarget) (s : System)
      → device_of_slices read_only (d ∷ []) s ≡ (some ([], d.loop_device_path), s)
  unfolding device_of_slices pure
  one_slice d s = refl

  pub two_slices :
      (d e : CopySliceTarget) (ds : List CopySliceTarget) (s : System)
      → device_of_slices read_only (d ∷ e ∷ ds) s ≡ create_dm_device (d ∷ e ∷ ds) read_only s
  unfolding device_of_slices
  two_slices d e ds s = refl

  -- A byte of a slice is read through the loop device of the slice.
  device_of_slices-byte :
      (slices : List CopySliceTarget) (s : System) (name path : Text) (i x : ℕ)
      {c : CopySliceTarget} {f : Text}
      → Tiled dm_sector_size 0 slices
      → (2 ≤ length slices → Sectors dm_sector_size slices (next_call s))
      → (device_of_slices read_only slices s).0 ≡ some (name, path)
      → get_elem? slices i ≡ some c
      → c.volume_offset ≤ x
      → x < c.volume_offset + c.size
      → file_behind c.loop_device_path s.loops ≡ some f
      → device_byte (device_of_slices read_only slices s).1 name path x
        ≡ some (f, x - c.volume_offset)
  device_of_slices-byte [] s name path i x tiled sectors made at low high file = cc
  device_of_slices-byte (d ∷ []) s name path (suc i) x tiled sectors made at low high file = cc
  device_of_slices-byte (d ∷ []) s name path zero x {c} {f} tiled sectors made at low high file =
      let step = one_slice d s in
      let same_slice : d ≡ c = cc in
      let no_name : name ≡ [] = cc (step, made) in
      let same_path : path ≡ c.loop_device_path = cc (step, made, same_slice) in
      let start : c.volume_offset ≡ 0 =
        ap CopySliceTarget.volume_offset (sym same_slice) ∙ tiled.1 ∙ zero-mul dm_sector_size in
      rw (step, no_name, same_path)
        (loop_byte s c.loop_device_path x f file ∙ ap (λ y. some (f, y)) (omega (arith, start)))
  device_of_slices-byte (d ∷ e ∷ ds) s name path i x {c} {f} tiled sectors made at low high file =
      let slices = d ∷ e ∷ ds in
      let step = two_slices d e ds s in
      let t = (create_dm_device slices read_only s).1 in
      let (dev, here, loaded, active, named) =
        create_dm_device_lem dm_sector_size slices read_only s name path (sectors (omega arith))
          (ap (λ r. r.0) (sym step) ∙ made) in
      let same_loops : t.loops ≡ s.loops =
        ap (λ b. b.2) ((create_dm_device-Aside slices read_only).at s) in
      rw step (
        mapped_byte t name path ((s.replies 0).number) x dev _ named here loaded active
        ∙ rw (byte_at-slice dm_sector_size slices i x (omega arith) tiled at low high, mounted_byte)
            (rw (same_loops, file) refl))

-- Let a backup in the binary format, whose session size and volume size are whole sectors of 512
-- bytes and whose sums do not wrap, be split into sessions, let `Mount` have attached the files of
-- the segments that it has saved, and let it have made its device of them: the loop device of a
-- single segment, or else one of the device mapper, where the loop devices tell sectors of 512 bytes,
-- those that device mapper counts in. Then every byte of the
-- volume is read from that device out of the copy file of the session that the byte belongs to, at
-- its place in the session.
pub mounted_reads_copy :
    (b : VolumeBackupConfig) (p : DmMountProvider) (s : System) (k v : ℕ) (prepared : Prepared)
    (slices : List CopySliceTarget) (name path : Text) (i x : ℕ) (c : SharedConfig)
    → b.copy_format ≡ bin
    → 0 < k
    → b.session_size ≡ k * dm_sector_size
    → v * dm_sector_size + b.session_size < 2 ^ 64
    → p.copy_data_dir_path ≡ b.output_copy_data_dir
    → p.copy_name ≡ b.copy_name
    → split_sessions b (v * dm_sector_size) ≡ some prepared
    → (attach_segments p prepared.segments s).0 ≡ some slices
    → (2 ≤ length slices
        → Sectors dm_sector_size slices (next_call (attach_segments p prepared.segments s).1))
    → (device_of_slices p.read_only slices (attach_segments p prepared.segments s).1).0
      ≡ some (name, path)
    → get_elem? prepared.sessions i ≡ some c
    → c.session_offset ≤ x
    → x < c.session_offset + c.session_size
    → device_byte
        (device_of_slices p.read_only slices (attach_segments p prepared.segments s).1).1
        name
        path
        x
      ≡ some (c.copy_file_path, x - c.session_offset)
mounted_reads_copy b p s k v prepared slices name path i x c binary some_sectors per room dir
      name_eq split attached sectors made at low high =
    let (planned, e, covers', agree', _) =
      split_sessions_lem b (v * dm_sector_size) (grind (arith, per)) room in
    let same : planned ≡ prepared = cc in
    let covers =
      subst (λ q. Covers b.session_size (v * dm_sector_size) 0 q.sessions) same covers' in
    let agree = subst (λ q. Agree b 0 q.segments q.sessions q.checkpoint_files) same agree' in
    let t = (attach_segments p prepared.segments s).1 in
    let r = attach_segments-Result p prepared.segments s attached in
    let from_zero =
      subst (λ y. Covers b.session_size (v * dm_sector_size) y prepared.sessions)
        (sym (zero-mul dm_sector_size)) covers in
    let tiled =
      sessions-Tiled b p t.loops dm_sector_size k v 0 0 prepared.segments prepared.sessions
        prepared.checkpoint_files slices (v * dm_sector_size) (omega arith) per refl from_zero agree
        r.slices_lem in
    let sl =
      SliceOf-session b p t.loops 0 prepared.segments prepared.sessions prepared.checkpoint_files
        slices i binary dir name_eq agree r.slices_lem at in
    device_of_slices-byte p.read_only slices t name path i x tiled sectors made sl.at
      (omega (arith, sl.offset)) (omega (arith, sl.offset, sl.size)) sl.file
    ∙ ap (λ y. some (c.copy_file_path, x - y)) sl.offset

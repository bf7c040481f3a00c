-- ===== src/Mount/Binary/Sectors.antt =====
-- src/native/linux/LinuxDeviceMapperMountProvider.cpp, `CreateDmDevice`: what becomes of the device
-- where the loop devices do not tell the sectors that device mapper counts in.
use native.Mathlib.Nat.{add-mul, le_of_mul-le-mul_right, mul-div_left, zero-mul}
use volume_backup.Prelude.{
  ℕ, ◌+◌, ◌*◌, ◌/◌, ◌^◌, ◌≤◌, ◌<◌, ◌≡◌, refl, ◌∙◌, sym, ap, subst, none, some, List, [], ◌∷◌, arith,
  length,
}
use volume_backup.Text.{Text}
use volume_backup.Session.{SharedConfig}
use volume_backup.Copy.{CopySegment, VolumeBackupConfig}
use volume_backup.Backup.{Prepared, split_sessions}
use volume_backup.Backup.Split.{Covers, Covers-le, Agree, split_sessions_lem}
use volume_backup.Mount.Table.Linear.{Tiled, sector_at, byte_at, linear_targets}
use volume_backup.Mount.Kernel.{System, LoopDevice, CopySliceTarget}
use volume_backup.Mount.Binary.Mapped.{Sectors, create_dm_device_lem}
use volume_backup.Mount.Binary.{
  DmMountProvider, attach_segments, device_of_slices, create_dm_device, linear_target,
}
use volume_backup.Mount.Binary.Attach.{Slices, attach_segments-Result}
use volume_backup.Mount.Binary.Reads.{
  dm_sector_size, mounted_byte, device_byte, next_call, mapped_byte, two_slices, sessions-Tiled,
}

-- No slice goes past a place of the volume.
abbrev Within : ℕ → List CopySliceTarget → Type 0
Within end [] = Unit {0}
Within end (c ∷ cs) = (c.volume_offset + c.size ≤ end) × Within end cs

sessions-Within :
    (b : VolumeBackupConfig) (p : DmMountProvider) (ds : List LoopDevice) (n offset volume_size : ℕ)
    (gs : List CopySegment) (cs : List SharedConfig) (fs : List Text)
    (slices : List CopySliceTarget)
    → Covers b.session_size volume_size offset cs
    → Agree b n gs cs fs
    → Slices p ds gs slices
    → Within volume_size slices
sessions-Within b p ds n offset volume_size [] cs fs [] covers agree s = tt
sessions-Within b p ds n offset volume_size [] cs fs (d ∷ slices) covers agree s = absurd s
sessions-Within b p ds n offset volume_size (g ∷ gs) cs fs [] covers agree s = absurd s
sessions-Within b p ds n offset volume_size (g ∷ gs) [] fs (d ∷ slices) covers agree s =
    absurd agree
sessions-Within b p ds n offset volume_size (g ∷ gs) (c ∷ cs) [] (d ∷ slices) covers agree s =
    absurd agree
sessions-Within b p ds n offset volume_size (g ∷ gs) (c ∷ cs) (f ∷ fs) (d ∷ slices) covers agree s =
    (
      omega (
        arith,
        s.0,
        s.1,
        agree.1,
        agree.2,
        covers.0,
        Covers-le b.session_size volume_size (offset + c.session_size) cs covers.4,
      ),
      sessions-Within b p ds (n + 1) (offset + c.session_size) volume_size gs cs fs slices covers.4
          agree.8 s.3,
    )

-- The targets end where the volume does, counted in the sectors of the loop devices.
sector_at-past :
    (sector_size v n q : ℕ) (slices : List CopySliceTarget)
    → 0 < sector_size
    → Tiled sector_size n slices
    → Within (v * sector_size) slices
    → v ≤ q
    → sector_at (linear_targets sector_size slices) q ≡ none
unfolding linear_target
sector_at-past sector_size v n q [] pos tiled within past = refl
sector_at-past sector_size v n q (d ∷ ds) pos (m, o, z, tiled) (inside, within) past =
    let ends : n + m ≤ v =
      le_of_mul-le-mul_right {k = sector_size} (omega (arith, add-mul n m sector_size, o, z)) pos in
    let rest = sector_at-past sector_size v (n + m) q ds pos tiled within past in
    rw (o, z, mul-div_left n pos, mul-div_left m pos) (ground (arith, rest))

past_end :
    (sector_size v x : ℕ) (slices : List CopySliceTarget) (ds : List LoopDevice)
    → 0 < sector_size
    → Tiled sector_size 0 slices
    → Within (v * sector_size) slices
    → v * dm_sector_size ≤ x
    → mounted_byte dm_sector_size (linear_targets sector_size slices) ds x ≡ none
past_end sector_size v x slices ds pos tiled within past =
    rw
      (
        sector_at-past sector_size v 0 (x / dm_sector_size) slices pos tiled within
            (omega (arith, past)),
        mounted_byte,
        byte_at,
      )
      refl

-- Let a backup whose session size and volume size are whole sectors of some size, and whose sums do
-- not wrap, be split into sessions, let `Mount` have attached the files of its segments, two or more,
-- and have made a device of the device mapper of them, where the loop devices tell sectors of that
-- size. Then nothing can be read from the device from as many sectors of 512 bytes on as the volume
-- has sectors of that size; for sectors of 4096 bytes, from an eighth of the volume on.
pub short_device :
    (b : VolumeBackupConfig) (p : DmMountProvider) (s : System) (sector_size k v : ℕ)
    (prepared : Prepared) (slices : List CopySliceTarget) (name path : Text) (x : ℕ)
    → 0 < sector_size
    → 0 < b.session_size
    → b.session_size ≡ k * sector_size
    → v * sector_size + b.session_size < 2 ^ 64
    → split_sessions b (v * sector_size) ≡ some prepared
    → (attach_segments p prepared.segments s).0 ≡ some slices
    → 2 ≤ length slices
    → Sectors sector_size slices (next_call (attach_segments p prepared.segments s).1)
    → (device_of_slices p.read_only slices (attach_segments p prepared.segments s).1).0
      ≡ some (name, path)
    → v * dm_sector_size ≤ x
    → device_byte
        (device_of_slices p.read_only slices (attach_segments p prepared.segments s).1).1
        name
        path
        x
      ≡ none
short_device b p s sector_size k v prepared [] name path x pos some_bytes per room split attached
      two sectors made past =
    absurd (omega arith)
short_device b p s sector_size k v prepared (d ∷ []) name path x pos some_bytes per room split
      attached two sectors made past =
    absurd (omega arith)
short_device b p s sector_size k v prepared (d ∷ e ∷ ds) name path x pos some_bytes per room split
      attached two sectors made past =
    let slices = d ∷ e ∷ ds in
    let (planned, found, covers', agree', _) =
      split_sessions_lem b (v * sector_size) some_bytes room in
    let same : planned ≡ prepared = cc in
    let covers = subst (λ q. Covers b.session_size (v * sector_size) 0 q.sessions) same covers' in
    let agree = subst (λ q. Agree b 0 q.segments q.sessions q.checkpoint_files) same agree' in
    let t = (attach_segments p prepared.segments s).1 in
    let r = attach_segments-Result p prepared.segments s attached in
    let tiled =
      sessions-Tiled b p t.loops sector_size k v 0 0 prepared.segments prepared.sessions
        prepared.checkpoint_files slices (v * sector_size) pos per refl
        (subst (λ y. Covers b.session_size (v * sector_size) y prepared.sessions)
          (sym (zero-mul sector_size)) covers)
        agree r.slices_lem in
    let within =
      sessions-Within b p t.loops 0 0 (v * sector_size) prepared.segments prepared.sessions
        prepared.checkpoint_files slices covers agree r.slices_lem in
    let step = two_slices p.read_only d e ds t in
    let after = (create_dm_device slices p.read_only t).1 in
    let (dev, here, loaded, active, named) =
      create_dm_device_lem sector_size slices p.read_only t name path sectors
        (ap (λ r. r.0) (sym step) ∙ made) in
    rw step (
      mapped_byte after name path ((t.replies 0).number) x dev _ named here loaded active
      ∙ past_end sector_size v x slices after.loops pos tiled within past)

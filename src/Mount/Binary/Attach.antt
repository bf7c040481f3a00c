-- ===== src/Mount/Binary/Attach.antt =====
-- src/native/linux/LinuxDeviceMapperMountProvider.cpp, the first loop of `Mount`: each segment has
-- a loop device with its file behind it.
use volume_backup.Prelude.{
  ◌≡◌, refl, ◌∙◌, sym, ap, true, false, Option, none, some, List, [], ◌∷◌, arith, if◌then◌else◌,
  Option-cases, inl, inr,
}
use volume_backup.Text.{Text}
use volume_backup.Text.Path.{copy_data_file_path}
use volume_backup.Text.Search.{same, same_refl, same→eq}
use volume_backup.Session.{bin}
use volume_backup.Copy.{CopySegment}
use volume_backup.Mount.Kernel.{
  System, LoopDevice, CopySliceTarget, M, ◌>>=◌, ◌>>◌, if_done, if_some, pure,
}
use volume_backup.Mount.Keeps.{Keeps, keeps_rules}
use volume_backup.Mount.Loop.{bound, attach}
use volume_backup.Mount.Binary.{
  DmMountProvider, attach_dm_loop_device, save_loop_record, attach_segments, slice_of, with_slice,
}

-- The file that is read through a loop device.
unfoldable pub file_behind : Text → List LoopDevice → Option Text
file_behind path [] = none
file_behind path (d ∷ ds) = if same path d.path then some d.file else file_behind path ds

bound_of_behind :
    (path : Text) (ds : List LoopDevice) (f : Text)
    → file_behind path ds ≡ some f
    → bound path ds ≡ true
unfolding file_behind bound
bound_of_behind path [] f e = cc
bound_of_behind path (d ∷ ds) f e = ground (arith, bound_of_behind path ds f)

abbrev new_loop : Text → Text → LoopDevice
new_loop path file = record { path = path; file = file }

-- What a successful attachment does to the loop devices.
attach-some :
    (file : Text) (s : System) {path : Text}
    → (attach file s).0 ≡ some path
    → ((attach file s).1.loops ≡ new_loop path file ∷ s.loops) × (bound path s.loops ≡ false)
unfolding attach ◌>>=◌ if_done if_some
attach-some file s e = ground arith

-- What is read through the loop devices of `s` is read through those of `t`.
abbrev pub Extends : List LoopDevice → List LoopDevice → Type 0
Extends ds es =
    (path file : Text) → file_behind path ds ≡ some file → file_behind path es ≡ some file

-- A device that a file is attached to had none, so that it hides no other.
new_loop-Extends :
    (path file : Text) (ds : List LoopDevice)
    → bound path ds ≡ false
    → Extends ds (new_loop path file ∷ ds)
unfolding file_behind
new_loop-Extends path file ds free other f e =
    ground (arith, bound_of_behind other ds f, same→eq other path)

new_loop-behind :
    (path file : Text) (ds : List LoopDevice)
    → file_behind path (new_loop path file ∷ ds) ≡ some file
unfolding file_behind
new_loop-behind path file ds = rw (same_refl path) refl

abbrev loops : System → List LoopDevice
loops s = s.loops

save_loop-loops : (path : Text) → Keeps loops (save_loop_record path)
unfolding save_loop_record
save_loop-loops path = search keeps_rules depth 30

-- The same with the record of the device kept.
record Attached (file path : Text) (s t : System) : Type 0 where
  behind : file_behind path t.loops ≡ some file
  extends : Extends s.loops t.loops

after_attach : Option Text → M (Option Text)
after_attach attached =
    if_some attached (pure none) λ path. do save_loop_record path; pure (some path)

attach_dm-step :
    (file : Text) (s : System)
    → attach_dm_loop_device file s ≡ after_attach (attach file s).0 (attach file s).1
unfolding attach_dm_loop_device ◌>>=◌ after_attach
attach_dm-step file s = refl

after_attach-some :
    (attached : Option Text) (s : System) {path : Text}
    → (after_attach attached s).0 ≡ some path
    → (attached ≡ some path) × ((after_attach attached s).1.loops ≡ s.loops)
unfolding after_attach if_some ◌>>=◌
after_attach-some none s e = (cc, cc)
after_attach-some (some p) s e = (e, (save_loop-loops p).at s)

attach_dm-Attached :
    (file : Text) (s : System) {path : Text}
    → (attach_dm_loop_device file s).0 ≡ some path
    → Attached file path s (attach_dm_loop_device file s).1
attach_dm-Attached file s {path} e =
    let step = attach_dm-step file s in
    let (got, same_loops) =
      after_attach-some (attach file s).0 (attach file s).1 (ap (λ r. r.0) (sym step) ∙ e) in
    let (grown, free) = attach-some file s got in
    let all : (attach_dm_loop_device file s).1.loops ≡ new_loop path file ∷ s.loops =
      ap (λ r. r.1.loops) step ∙ same_loops ∙ grown in
    record {
      behind = rw all (new_loop-behind path file s.loops);
      extends = rw all (new_loop-Extends path file s.loops free);
    }

-- The slices are those of the segments, in order, and each is read through its loop device.
abbrev pub Slices :
    DmMountProvider → List LoopDevice → List CopySegment → List CopySliceTarget → Type 0
Slices p ds [] [] = Unit {0}
Slices p ds (g ∷ gs) (c ∷ cs) =
    (c.volume_offset ≡ g.offset)
    × (c.size ≡ g.length)
    × (file_behind c.loop_device_path ds
        ≡ some (copy_data_file_path p.copy_data_dir_path p.copy_name bin g.index))
    × Slices p ds gs cs
Slices p ds _ _ = ⊥

-- The rest of the loop once a device is attached.
after_segment :
    DmMountProvider
    → CopySegment
    → List CopySegment
    → Option Text
    → M (Option (List CopySliceTarget))
after_segment p g gs attached = if_some attached (pure none) λ path. do
  rest ← attach_segments p gs
  pure (
      with_slice
        (slice_of (copy_data_file_path p.copy_data_dir_path p.copy_name bin g.index) g path) rest)

attach_segments-step :
    (p : DmMountProvider) (g : CopySegment) (gs : List CopySegment) (s : System)
    → attach_segments p (g ∷ gs) s ≡ (
        let r =
          attach_dm_loop_device
            (copy_data_file_path p.copy_data_dir_path p.copy_name bin g.index)
            s in
        after_segment p g gs r.0 r.1)
unfolding attach_segments ◌>>=◌ after_segment
attach_segments-step p g gs s = refl

with_slice-some :
    (c : CopySliceTarget) (rest : Option (List CopySliceTarget)) {slices : List CopySliceTarget}
    → with_slice c rest ≡ some slices
    → (cs : List CopySliceTarget) × (rest ≡ some cs) × (slices ≡ c ∷ cs)
with_slice-some c none e = absurd (cc)
with_slice-some c (some cs) e = (cs, refl, cc)

-- The slices of an attachment that succeeds, with the loop devices afterwards.
pub record Result (p : DmMountProvider) (gs : List CopySegment) (s t : System)
    (slices : List CopySliceTarget) : Type 0 where
  pub slices_lem : Slices p t.loops gs slices
  pub extends : Extends s.loops t.loops

module _ (p : DmMountProvider) where
  abbrev file_of : CopySegment → Text
  file_of g = copy_data_file_path p.copy_data_dir_path p.copy_name bin g.index

  after_segment-some :
      (g : CopySegment) (gs : List CopySegment) (path : Text) (s : System)
      → after_segment p g gs (some path) s ≡ (
        with_slice (slice_of (file_of g) g path) (attach_segments p gs s).0,
        (attach_segments p gs s).1,
      )
  unfolding after_segment if_some ◌>>=◌
  after_segment-some g gs path s = refl

  after_segment-none :
      (g : CopySegment) (gs : List CopySegment) (s : System)
      → after_segment p g gs none s ≡ (none, s)
  unfolding after_segment if_some pure
  after_segment-none g gs s = refl

  attach_segments-nil : (s : System) → attach_segments p [] s ≡ (some [], s)
  unfolding attach_segments pure
  attach_segments-nil s = refl

  cons-Result :
      (g : CopySegment) (gs : List CopySegment) (path : Text) (s s1 t : System)
      (slices cs : List CopySliceTarget)
      → Attached (file_of g) path s s1
      → Result p gs s1 t cs
      → slices ≡ slice_of (file_of g) g path ∷ cs
      → Result p (g ∷ gs) s t slices
  cons-Result g gs path s s1 t slices cs a r e = record {
    slices_lem = rw e (refl, refl, r.extends path (file_of g) a.behind, r.slices_lem);
    extends = λ other f b. r.extends other f (a.extends other f b);
  }

  pub attach_segments-Result :
      (gs : List CopySegment) (s : System) {slices : List CopySliceTarget}
      → (attach_segments p gs s).0 ≡ some slices
      → Result p gs s (attach_segments p gs s).1 slices
  attach_segments-Result [] s {slices} e =
      let nil = attach_segments-nil s in
      let same_slices : slices ≡ [] = cc (nil, e) in
      rw nil (record { slices_lem = rw same_slices tt; extends = λ other f b. b })
  attach_segments-Result (g ∷ gs) s {slices} e =
      let r = attach_dm_loop_device (file_of g) s in
      let step = attach_segments-step p g gs s in
      elim (Option-cases r.0) [
        | inl missing ↦
            let all =
              step ∙ ap (λ o. after_segment p g gs o r.1) missing ∙ after_segment-none g gs r.1 in
            absurd (cc (all, e))
        | inr (path, got) ↦
            let all =
              step ∙ ap (λ o. after_segment p g gs o r.1) got ∙ after_segment-some g gs path r.1 in
            let rest = attach_segments p gs r.1 in
            let (cs, made, same_slices) =
              with_slice-some (slice_of (file_of g) g path) rest.0 (ap (λ x. x.0) (sym all) ∙ e) in
            rw all (
              cons-Result g gs path s r.1 rest.1 slices cs (attach_dm-Attached (file_of g) s got)
                (attach_segments-Result gs r.1 made) same_slices)
      ]

-- ===== src/Restore/Sessions.antt =====
-- A restore works on the sessions of the backup.
use volume_backup.Prelude.{
  ℕ, ◌+◌, ◌^◌, ◌<◌, ◌≡◌, refl, true, some, List, [], ◌∷◌, map, Bool-cases, inl, inr,
}
use volume_backup.Text.{Text}
use volume_backup.Session.{SharedConfig}
use volume_backup.Copy.{CopySegment, VolumeCopyMeta, VolumeBackupConfig, VolumeRestoreConfig}
use volume_backup.Backup
use volume_backup.Backup.{Prepared, copy_meta, split_sessions, is_increment_backup}
use volume_backup.Backup.Split.{Agree, Covers, split_sessions_lem}
use volume_backup.Restore.{restore_session, prepare}

-- The sessions of a restore and of a backup read and write the same ranges of the same files.
abbrev pub SameRanges : List SharedConfig → List SharedConfig → Type 0
SameRanges [] [] = Unit {0}
SameRanges (r ∷ rs) (b ∷ bs) =
    (r.session_offset ≡ b.session_offset)
    × (r.session_size ≡ b.session_size)
    × (r.copy_file_path ≡ b.copy_file_path)
    × (r.copy_format ≡ b.copy_format)
    × SameRanges rs bs
SameRanges _ _ = ⊥

Agree-SameRanges :
    (b : VolumeBackupConfig) (r : VolumeRestoreConfig) (meta : VolumeCopyMeta) (n : ℕ)
    (gs : List CopySegment) (cs : List SharedConfig) (fs : List Text)
    → r.copy_data_dir ≡ b.output_copy_data_dir
    → meta.copy_name ≡ b.copy_name
    → meta.copy_format ≡ b.copy_format
    → Agree b n gs cs fs
    → SameRanges (map (restore_session r meta) gs) cs
unfolding restore_session
Agree-SameRanges b r meta n [] [] [] d name format h = tt
Agree-SameRanges b r meta n (g ∷ gs) (c ∷ cs) (f ∷ fs) d name format h = (
  h.1,
  h.2,
  cc (h.0, h.6, d, name, format),
  cc (h.7, format),
  Agree-SameRanges b r meta (n + 1) gs cs fs d name format h.8,
)
Agree-SameRanges b r meta n _ _ _ d name format h = absurd h

ready :
    (b : VolumeBackupConfig) (volume_size : ℕ) (p : Prepared)
    → split_sessions b volume_size ≡ some p
    → Backup.prepare b volume_size true true (λ _. true) ≡ some (some p)
unfolding Backup.prepare
ready b volume_size p e = elim (Bool-cases (is_increment_backup b)) [
  | inl inc ↦ rw (inc, e) refl
  | inr full ↦ rw (full, e) refl
]

-- A restore from the meta data that a backup has saved, with the backup's data directory, works on
-- exactly the ranges and files of the backup's sessions, in the same order, and these cover the
-- volume; for a positive session size and sums that stay below 2^64.
pub restore_sessions :
    (b : VolumeBackupConfig) (r : VolumeRestoreConfig) (volume_size : ℕ)
    → 0 < b.session_size
    → volume_size + b.session_size < 2 ^ 64
    → r.copy_data_dir ≡ b.output_copy_data_dir
    → (p : Prepared) × (rs : List SharedConfig) × (Backup.prepare b volume_size true true
          (λ _. true)
        ≡ some (some p))
      × (prepare r (copy_meta b volume_size p.segments) true ≡ some rs)
      × SameRanges rs p.sessions
      × Covers b.session_size volume_size 0 p.sessions
unfolding prepare copy_meta restore_session
restore_sessions b r volume_size pos room d =
    let (p, e, covers, agree, _) = split_sessions_lem b volume_size pos room in
    (
      p,
      map (restore_session r (copy_meta b volume_size p.segments)) p.segments,
      ready b volume_size p e,
      refl,
      Agree-SameRanges b r (copy_meta b volume_size p.segments) 0 p.segments p.sessions
          p.checkpoint_files d refl refl agree,
      covers,
    )

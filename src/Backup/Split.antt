-- ===== src/Backup/Split.antt =====
-- src/task/VolumeBackupTask.cpp, `Prepare`: the sessions cover the volume.
use volume_backup.Prelude.{
  ℕ, zero, suc, ◌+◌, ◌-◌, ◌*◌, ◌^◌, ◌≤◌, ◌<◌, ◌≡◌, refl, ◌⊎◌, inl, inr, true, some, List, [], ◌∷◌,
  arith, length, ltb, leb, Bool-cases, ltb→lt, ltb→le,
}
use volume_backup.Text.{Text}
use volume_backup.Text.Path.{file_name, copy_data_file_path}
use volume_backup.Session.{SharedConfig}
use volume_backup.Task.{add64}
use volume_backup.Copy.{CopySegment, VolumeBackupConfig}
use volume_backup.Backup.{
  Prepared, new_volume_task_session, copy_segment, add_session, session_size_at, split_from,
  split_sessions,
}

-- Sessions that follow each other without a gap from an offset to the end of the volume: none is
-- empty or longer than the session size, and only the one that ends the volume may be shorter.
abbrev pub Covers : ℕ → ℕ → ℕ → List SharedConfig → Type 0
Covers session_size volume_size offset [] = offset ≡ volume_size
Covers session_size volume_size offset (c ∷ cs) =
    (c.session_offset ≡ offset)
    × (0 < c.session_size)
    × (c.session_size ≤ session_size)
    × ((c.session_size ≡ session_size) ⊎ (offset + c.session_size ≡ volume_size))
    × Covers session_size volume_size (offset + c.session_size) cs

-- The three lists tell of the same sessions of a backup, numbered from `n` on.
abbrev pub Agree :
    VolumeBackupConfig → ℕ → List CopySegment → List SharedConfig → List Text → Type 0
Agree b n [] [] [] = Unit {0}
Agree b n (g ∷ gs) (c ∷ cs) (f ∷ fs) =
    (g.index ≡ n)
    × (g.offset ≡ c.session_offset)
    × (g.length ≡ c.session_size)
    × (g.copy_data_file ≡ file_name c.copy_file_path)
    × (g.checksum_bin_file ≡ file_name c.lastest_checksum_bin_path)
    × (f ≡ c.checkpoint_file_path)
    × (c.copy_file_path ≡ copy_data_file_path b.output_copy_data_dir b.copy_name b.copy_format n)
    × (c.copy_format ≡ b.copy_format)
    × Agree b (n + 1) gs cs fs
Agree b n _ _ _ = ⊥

record Plan (b : VolumeBackupConfig) (volume_size offset index : ℕ) (p : Prepared) : Type 0 where
  covers : Covers b.session_size volume_size offset p.sessions
  agree : Agree b index p.segments p.sessions p.checkpoint_files

add_session-Plan :
    (c : VolumeBackupConfig) (volume_size offset size index : ℕ) (p : Prepared)
    → 0 < size
    → size ≤ c.session_size
    → (size ≡ c.session_size) ⊎ (offset + size ≡ volume_size)
    → Plan c volume_size (offset + size) (index + 1) p
    → Plan c volume_size offset index (add_session c offset size index p)
unfolding add_session new_volume_task_session copy_segment
add_session-Plan c volume_size offset size index p pos small full v = record {
  covers = (refl, pos, small, full, v.covers);
  agree = (refl, refl, refl, refl, refl, refl, refl, refl, v.agree);
}

-- The size of a session inside the volume, where no sum wraps.
record Size (session_size volume_size offset size : ℕ) : Type 0 where
  pos : 0 < size
  small : size ≤ session_size
  full : (size ≡ session_size) ⊎ (offset + size ≡ volume_size)
  within : offset + size ≤ volume_size
  exact : add64 offset size ≡ offset + size

session_size_at-Size :
    (session_size volume_size offset : ℕ)
    → 0 < session_size
    → volume_size + session_size < 2 ^ 64
    → offset < volume_size
    → Size session_size volume_size offset (session_size_at session_size volume_size offset)
unfolding session_size_at
session_size_at-Size session_size volume_size offset pos room h =
    elim (Bool-cases (leb volume_size (add64 offset session_size))) [
      | inl last ↦
          let end : volume_size ≤ offset + session_size = ground arith in
          rw (last, session_size_at)
            (record {
              pos = omega arith;
              small = omega arith;
              full = inr (omega arith);
              within = omega arith;
              exact = omega arith;
            })
      | inr more ↦
          let end : offset + session_size < volume_size = ground arith in
          rw (more, session_size_at)
            (record {
              pos = pos;
              small = omega arith;
              full = inl refl;
              within = omega arith;
              exact = omega arith;
            })
    ]

split_round :
    (c : VolumeBackupConfig) (volume_size fuel offset index : ℕ) (p : Prepared)
    → ltb offset volume_size ≡ true
    → add64 offset (session_size_at c.session_size volume_size offset)
      ≡ offset + session_size_at c.session_size volume_size offset
    → split_from c volume_size fuel
        (offset + session_size_at c.session_size volume_size offset)
        (index + 1)
      ≡ some p
    → split_from c volume_size (suc fuel) offset index
      ≡ some (add_session c offset (session_size_at c.session_size volume_size offset) index p)
unfolding split_from
split_round c volume_size fuel offset index p more exact e = rw (more, exact) (rw e)

split_from-Plan :
    (c : VolumeBackupConfig) (volume_size fuel offset index : ℕ)
    → 0 < c.session_size
    → volume_size + c.session_size < 2 ^ 64
    → offset ≤ volume_size
    → volume_size - offset < fuel
    → (p : Prepared) × (split_from c volume_size fuel offset index ≡ some p)
      × Plan c volume_size offset index p
unfolding split_from
split_from-Plan c volume_size zero offset index pos room at enough = absurd (omega arith)
split_from-Plan c volume_size (suc fuel) offset index pos room at enough =
    elim (Bool-cases (ltb offset volume_size)) [
      | inl more ↦
          let size = session_size_at c.session_size volume_size offset in
          let s =
            session_size_at-Size c.session_size volume_size offset pos room (ltb→lt _ _ more) in
          let (p, e, v) =
            split_from-Plan c volume_size fuel (offset + size) (index + 1) pos room s.within
              (omega (arith, s.pos)) in
          (
            add_session c offset size index p,
            split_round c volume_size fuel offset index p more s.exact e,
            add_session-Plan c volume_size offset size index p s.pos s.small s.full v,
          )
      | inr done ↦ (
        record { segments = []; sessions = []; checkpoint_files = [] },
        rw done refl,
        record { covers = omega (arith, ltb→le _ _ done); agree = tt },
      )
    ]

pub Covers-le :
    (session_size volume_size offset : ℕ) (cs : List SharedConfig)
    → Covers session_size volume_size offset cs
    → offset ≤ volume_size
Covers-le session_size volume_size offset [] v = omega (arith, v)
Covers-le session_size volume_size offset (c ∷ cs) v =
    omega (arith, Covers-le session_size volume_size (offset + c.session_size) cs v.4)

-- There are no more such sessions than it takes sessions of the full size to reach the end.
Covers-length :
    (session_size volume_size n offset : ℕ) (cs : List SharedConfig)
    → Covers session_size volume_size offset cs
    → volume_size ≤ offset + session_size * n
    → length cs ≤ n
Covers-length session_size volume_size n offset [] v h = omega arith
Covers-length session_size volume_size zero offset (c ∷ cs) v h =
    let end = Covers-le session_size volume_size (offset + c.session_size) cs v.4 in
    absurd (omega (arith, v.1))
Covers-length session_size volume_size (suc n) offset (c ∷ cs) v h =
    let rest =
      Covers-length session_size volume_size n (offset + c.session_size) cs v.4
        (elim v.3 [ inl e ↦ grind (arith, e, h) | inr e ↦ omega (arith, e) ]) in
    omega (arith, rest)

-- For a positive session size, and a volume so far below 2^64 that the sums do not wrap, the loop
-- of `Prepare` ends; its sessions cover the volume from 0 to its end without gap or overlap, all of
-- the session size but for the last; the segments written to the meta file and the list of
-- checkpoint files tell of these very sessions, numbered from 0; and where the volume has at most
-- 2^31 - 1 times the session size, the number of sessions, up to which `sessionIndex` counts, is one
-- that an `int` holds.
pub split_sessions_lem :
    (c : VolumeBackupConfig) (volume_size : ℕ)
    → 0 < c.session_size
    → volume_size + c.session_size < 2 ^ 64
    → (p : Prepared) × (split_sessions c volume_size ≡ some p)
      × Covers c.session_size volume_size 0 p.sessions
      × Agree c 0 p.segments p.sessions p.checkpoint_files
      × (volume_size ≤ c.session_size * (2 ^ 31 - 1) → length p.sessions < 2 ^ 31)
unfolding split_sessions
split_sessions_lem c volume_size pos room =
    let (p, e, v) =
      split_from-Plan c volume_size (suc volume_size) 0 0 pos room (omega arith) (omega arith) in
    (
      p,
      e,
      v.covers,
      v.agree,
      λ h. omega (
        arith,
        Covers-length c.session_size volume_size (2 ^ 31 - 1) 0 p.sessions v.covers
            (omega (arith, h)),
      ),
    )

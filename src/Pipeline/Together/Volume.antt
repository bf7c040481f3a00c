-- ===== src/Pipeline/Together/Volume.antt =====
-- All sessions of a task, one after the other, and a restore after a backup.
use volume_backup.Prelude.{
  ℕ, ◌+◌, ◌≤◌, ◌<◌, ◌≡◌, ◌∙◌, subst, ◌⊎◌, inl, inr, List, [], ◌∷◌, arith, dec_lt,
}
use volume_backup.Session.{SharedConfig}
use volume_backup.Task.{succeed}
use volume_backup.Backup.Split.{Covers}
use volume_backup.Restore.Sessions.{SameRanges}
use volume_backup.Pipeline.Reader.Blocks.{IsSession}
use volume_backup.Pipeline.Writer.{Target}
use volume_backup.Pipeline.Together.{Threads, Reach}
use volume_backup.Pipeline.Together.Copied.{IsPlain, IsFresh, session_copied}

-- The sessions run one after the other from a source to a target, each with fresh threads that both
-- end with success.
pub data Sessions (source : Target) : List SharedConfig → Target → Target → Type 0 where
  nothing_left : {v : Target} → Sessions source [] v v
  session :
      {s : SharedConfig} {ss : List SharedConfig} {v v' : Target} (pool block_size block_num : ℕ)
      (t0 t : Threads)
      → IsSession s
      → IsPlain s
      → IsFresh s pool block_size block_num t0
      → t0.state.target ≡ v
      → Reach s source t0 t
      → t.reader.task.status ≡ succeed
      → t.state.writer.task.status ≡ succeed
      → Sessions source ss t.state.target v'
      → Sessions source (s ∷ ss) v v'

abbrev InSome : ℕ → List SharedConfig → Type 0
InSome x [] = ⊥
InSome x (s ∷ ss) = ((s.session_offset ≤ x) × (x < s.session_offset + s.session_size)) ⊎ InSome x ss

abbrev Copied : SharedConfig → Target → Target → Target → Type 0
Copied s source v target =
    ((x : ℕ) → s.session_offset ≤ x → x < s.session_offset + s.session_size → target x ≡ source x)
    × ((x : ℕ) → (x < s.session_offset) ⊎ (s.session_offset + s.session_size ≤ x) → target x ≡ v x)

-- A byte that is outside of the session is as before.
passed_by :
    {source v target : Target} (s : SharedConfig) (ss : List SharedConfig) (x : ℕ)
    → Copied s source v target
    → (x < s.session_offset) ⊎ (s.session_offset + s.session_size ≤ x)
    → (v x ≡ source x) ⊎ InSome x (s ∷ ss)
    → (target x ≡ source x) ⊎ InSome x ss
passed_by s ss x c out (inl e) = inl (c.1 x out ∙ e)
passed_by s ss x c out (inr (inl (lo, hi))) = inl (c.0 x lo hi)
passed_by s ss x c out (inr (inr more)) = inr more

after_session :
    {source v target : Target} (s : SharedConfig) (ss : List SharedConfig) (x : ℕ)
    → Copied s source v target
    → (v x ≡ source x) ⊎ InSome x (s ∷ ss)
    → (target x ≡ source x) ⊎ InSome x ss
after_session s ss x c h = elim (dec_lt x s.session_offset) [
  | yes l ↦ passed_by s ss x c (inl l) h
  | no l ↦ elim (dec_lt x (s.session_offset + s.session_size)) [
    | yes k ↦ inl (c.0 x (omega arith) k)
    | no k ↦ passed_by s ss x c (inr (omega arith)) h
  ]
]

all_copied :
    {source v v' : Target} {ss : List SharedConfig} (x : ℕ)
    → Sessions source ss v v'
    → (v x ≡ source x) ⊎ InSome x ss
    → v' x ≡ source x
all_copied x nothing_left (inl e) = e
all_copied x nothing_left (inr k) = absurd k
all_copied {source} {v} x (session {s} {ss} pool size num t0 t w p f e run r d more) h =
    all_copied x more (
      after_session s ss x
        (subst (λ z. Copied s source z t.state.target) e
          (session_copied s source pool size num t0 t w p f run r d))
        h)

Covers-InSome :
    (size volume_size offset x : ℕ) (ss : List SharedConfig)
    → Covers size volume_size offset ss
    → offset ≤ x
    → x < volume_size
    → InSome x ss
Covers-InSome size volume_size offset x [] c lo hi = omega (arith, c)
Covers-InSome size volume_size offset x (s ∷ ss) c lo hi =
    elim (dec_lt x (offset + s.session_size)) [
      | yes l ↦ inl (omega (arith, c.0), omega (arith, c.0))
      | no l ↦
          inr (Covers-InSome size volume_size (offset + s.session_size) x ss c.4 (omega arith) hi)
    ]

SameRanges-InSome :
    (rs ss : List SharedConfig) (x : ℕ) → SameRanges rs ss → InSome x ss → InSome x rs
SameRanges-InSome (r ∷ rs) (s ∷ ss) x h (inl k) =
    inl (omega (arith, h.0, k), omega (arith, h.0, h.1, k))
SameRanges-InSome (r ∷ rs) (s ∷ ss) x h (inr k) = inr (SameRanges-InSome rs ss x h.4 k)
SameRanges-InSome [] [] x h k = k
SameRanges-InSome [] (s ∷ ss) x h k = absurd h
SameRanges-InSome (r ∷ rs) [] x h k = absurd k

-- A restore after a backup gives back the volume. The sessions of the backup cover the volume without
-- a gap, and those of the restore have the same ranges. They run one after the other, in each of
-- them the reader and the writer take their steps in any order, and both end with success; none has
-- a hasher or a checkpoint, and empty blocks are written too. The backup reads the volume and writes
-- a copy, the restore reads that copy and writes another volume, both through the offsets of the
-- volume. Then every byte of the volume stands in the other one.
pub backup_restored :
    (session_size volume_size : ℕ) (backup restore : List SharedConfig)
    (volume copy0 copy other restored : Target)
    → Covers session_size volume_size 0 backup
    → SameRanges restore backup
    → Sessions volume backup copy0 copy
    → Sessions copy restore other restored
    → (x : ℕ) → x < volume_size
    → restored x ≡ volume x
backup_restored size volume_size backup restore volume copy0 copy other restored c same b r x h =
    let there = Covers-InSome size volume_size 0 x backup c (omega arith) h in
    all_copied x r (inr (SameRanges-InSome restore backup x same there))
    ∙ all_copied x b (inr there)

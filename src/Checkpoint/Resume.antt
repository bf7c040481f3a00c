-- ===== src/Checkpoint/Resume.antt =====
-- VolumeTaskCheckpointTrait: what a task that is started again finds, and what stands behind it.
use volume_backup.Prelude.{
  ℕ, ◌≤◌, ◌≡◌, refl, sym, ap, subst, ◌∙◌, arith, true, false, some, ◌==◌, if◌then◌else◌, Bool-cases,
  inl, inr,
}
use volume_backup.Files.{File, complete, broken, write_binary_buffer}
use volume_backup.Bitmap
use volume_backup.Bitmap.{Bitmap, total_set_count}
use volume_backup.Bitmap.Scan.{total_set_count-le}
use volume_backup.Session.{SharedConfig, total_blocks}
use volume_backup.Pipeline.{Context}
use volume_backup.Pipeline.Reader.Blocks.{IsSession, starts_inside}
use volume_backup.Pipeline.Writer.{Target}
use volume_backup.Checkpoint.{
  CheckpointSnapshot, synced, sync_failed, save_to, take_snapshot, Disk, Refresh, refresh,
  restore_bitmap, restore_counter, counted_bytes,
}
use volume_backup.Checkpoint.Snapshot.{HasBitmaps, with_bitmaps, restore_bitmap-saved}

-- A refresh that is due and in which nothing fails before the last write; the flush of the writer
-- reaches the disk.
pub record Proceeds (s : SharedConfig) (r : Refresh) : Type 0 where
  pub enabled : s.checkpoint_enabled ≡ true
  pub due : r.due ≡ true
  pub hash_saved : r.hash_saved ≡ true
  pub flushed : r.flushed ≡ synced
  pub bitmap_saved : r.bitmap_answer ≡ complete

-- The disk before the last write.
abbrev before_last : SharedConfig → Refresh → Disk → Disk
before_last s r d = record {
  checkpoint = (save_to complete (take_snapshot r.second)).1;
  checksums = if s.hasher_enabled then some r.hashed.lastest_table else d.checksums;
  durable = r.target;
}

saves : (x : CheckpointSnapshot) → (save_to complete x).0 ≡ true
unfolding save_to write_binary_buffer
saves x = refl

leaves : (left : File) (x : CheckpointSnapshot) → (save_to (broken left) x).1 ≡ left
unfolding save_to write_binary_buffer
leaves left x = refl

counted-le :
    (s : SharedConfig) (n : ℕ)
    → IsSession s
    → n ≤ total_blocks s.session_size s.block_size
    → counted_bytes s n ≤ s.session_size
counted-le s n v h = elim (Bool-cases (n == total_blocks s.session_size s.block_size)) [
  | inl e ↦ rw e (omega arith)
  | inr e ↦ rw e (omega (arith, starts_inside s n v (ground arith), v.room))
]

refresh-eq :
    (s : SharedConfig) (r : Refresh) (d : Disk)
    → Proceeds s r
    → refresh s r d ≡ record (before_last s r d) {
      checkpoint = (save_to r.snapshot_answer (take_snapshot r.first)).1;
    }
unfolding refresh
refresh-eq s r d p = ground (
  arith,
  saves (take_snapshot r.second),
  p.enabled,
  p.due,
  p.hash_saved,
  p.flushed,
  p.bitmap_saved,
)

-- After a refresh in which nothing fails, fsync included, a task that is started again on a session
-- of the same size goes on with the bitmaps as they were when the refresh began. Whatever is true of the target for
-- each block that was marked as written then, is true of the flushed target for each block that the
-- new task takes for written; and with a hasher the checksum file is the table as it was saved
-- after those bitmaps were taken.
pub refresh_resumed :
    (s : SharedConfig) (r : Refresh) (d : Disk) (c : Context) (holds : ℕ → Target → Type 0)
    → Proceeds s r
    → r.snapshot_answer ≡ complete
    → HasBitmaps r.first
    → c.written.capacity ≡ r.first.written.capacity
    → ((i : ℕ) → Bitmap.test r.first.written i ≡ true → holds i r.target)
    → let after = refresh s r d in
      (c' : Context) × (restore_bitmap true after c ≡ some c')
      × (c'.processed ≡ r.first.processed)
      × ((i : ℕ) → Bitmap.test c'.written i ≡ true → holds i after.durable)
      × (s.hasher_enabled ≡ true → after.checksums ≡ some r.hashed.lastest_table)
refresh_resumed s r d c holds p saved v same h =
    let e = refresh-eq s r d p in
    let file : (refresh s r d).checkpoint ≡ (save_to complete (take_snapshot r.first)).1 =
      ap (λ x. x.checkpoint) e ∙ ap (λ a. (save_to a (take_snapshot r.first)).1) saved in
    (
      with_bitmaps r.first.processed r.first.written c,
      restore_bitmap-saved r.first c (refresh s r d) v same file,
      refl,
      λ i t. subst (holds i) (sym (ap (λ x. x.durable) e)) (h i t),
      λ enabled. ap (λ x. x.checksums) e ∙ hashed enabled,
    )
  where
    hashed : s.hasher_enabled ≡ true → (before_last s r d).checksums ≡ some r.hashed.lastest_table
    hashed enabled = ground arith

-- The refresh, but for an fsync that fails.
abbrev pub without_sync : Refresh → Refresh
without_sync r = record r { flushed = sync_failed }

-- A refresh saves the bitmaps twice, and if the second write does not touch the file, or the process
-- ends before it, the file keeps those of the first, which were taken after the writer was flushed,
-- here to the disk:
-- a task that is started again goes on with these, whatever has reached the disk since the flush.
pub interrupted_refresh :
    (s : SharedConfig) (r : Refresh) (d : Disk) (c : Context)
    → Proceeds s r
    → r.snapshot_answer ≡ broken (save_to complete (take_snapshot r.second)).1
    → HasBitmaps r.second
    → c.written.capacity ≡ r.second.written.capacity
    → let after = refresh s r d in
      (restore_bitmap true after c ≡ some (with_bitmaps r.second.processed r.second.written c))
      × (after.durable ≡ r.target)
interrupted_refresh s r d c p left v same =
    let e = refresh-eq s r d p in
    let file : (refresh s r d).checkpoint ≡ (save_to complete (take_snapshot r.second)).1 =
      ap (λ x. x.checkpoint) e
      ∙ ap (λ a. (save_to a (take_snapshot r.first)).1) left
      ∙ leaves _ _ in
    (restore_bitmap-saved r.second c (refresh s r d) v same file, ap (λ x. x.durable) e)

-- The bits past the number of blocks are clear.
abbrev InRange : SharedConfig → Bitmap → Type 0
InRange s b = (j : ℕ) → total_blocks s.session_size s.block_size ≤ j → Bitmap.test b j ≡ false

-- The counters that a resumed session starts with tell at most the size of the session as read or as
-- written, and all of it if all blocks are processed, for bitmaps with no bit past the last block.
pub restore_counter_bounds :
    (s : SharedConfig) (c : Context)
    → IsSession s
    → InRange s c.processed
    → InRange s c.written
    → let n = (restore_counter s c).counter in
      (n.bytes_to_read ≡ s.session_size)
      × (n.bytes_read ≤ s.session_size)
      × (n.bytes_written ≤ s.session_size)
      × (n.bytes_to_write ≡ n.bytes_written)
      × (n.blocks_hashed ≤ total_blocks s.session_size s.block_size)
      × (total_set_count c.processed ≡ total_blocks s.session_size s.block_size
          → n.bytes_read ≡ s.session_size)
unfolding restore_counter
restore_counter_bounds s c v p w = (
  refl,
  counted-le s (total_set_count c.processed) v (total_set_count-le c.processed _ p),
  counted-le s (total_set_count c.written) v (total_set_count-le c.written _ w),
  refl,
  ground (arith, total_set_count-le c.processed _ p),
  λ e. ground arith,
)

-- ===== src/Checkpoint/Tests.antt =====
-- Checkpoints of a session of three blocks.
use volume_backup.Prelude.{ℕ, ◌≤◌, ◌<◌, ◌≡◌, refl, true, false, ◌*◌, some, [], ◌∷◌, arith}
use volume_backup.Files.{File, complete, broken}
use volume_backup.Bitmap
use volume_backup.Bitmap.{make, set_bit, total_set_count}
use volume_backup.Bitmap.Laws.{make-IsValid, set_bit-IsValid, test-make, test-set_bit}
use volume_backup.Session.{total_blocks}
use volume_backup.Pipeline.{Context}
use volume_backup.Pipeline.Tests.{config, config-IsSession, context}
use volume_backup.Checkpoint.{
  CheckpointSnapshot, synced, save_to, load_from, take_snapshot, Disk, Refresh, refresh,
  restore_bitmap, restore_counter,
}
use volume_backup.Checkpoint.Snapshot.{HasBitmaps, with_bitmaps, load_from-save_to}
use volume_backup.Checkpoint.Resume.{refresh_resumed, interrupted_refresh, restore_counter_bounds}

abbrev snapshot : CheckpointSnapshot
snapshot = record { bitmap_bytes = 2; processed_bitmap = 7 ∷ 0 ∷ []; written_bitmap = 3 ∷ 0 ∷ [] }

load_from-save_to_example :
    (file : File) × (save_to complete snapshot ≡ (true, file))
    × (load_from true file ≡ some snapshot)
load_from-save_to_example =
    load_from-save_to snapshot
      (record { some_bytes = omega arith; processed = omega arith; written = omega arith })

-- One block is written.
abbrev first : Context
first = record context { processed = set_bit (make 9) 0; written = set_bit (make 9) 0 }

-- And another.
abbrev second : Context
second = record context { processed = set_bit (make 9) 1; written = set_bit (make 9) 1 }

bitmaps :
    (i : ℕ)
    → HasBitmaps (record context { processed = set_bit (make 9) i; written = set_bit (make 9) i })
bitmaps i = record {
  processed = set_bit-IsValid (make 9) i (make-IsValid 9 (omega arith));
  written = set_bit-IsValid (make 9) i (make-IsValid 9 (omega arith));
  same_capacity = refl;
}

abbrev disk : Disk
disk = record { checkpoint = some []; checksums = some (λ _. []); durable = λ _. 0 }

abbrev saving : Refresh
saving = record {
  due = true;
  first = first;
  hashed = second;
  hash_saved = true;
  target = λ x. x;
  flushed = synced;
  second = second;
  bitmap_answer = complete;
  snapshot_answer = complete;
}

refresh_resumed_example :
    let after = refresh config saving disk in
    (c' : Context) × (restore_bitmap true after first ≡ some c')
    × (c'.processed ≡ first.processed)
    × ((i : ℕ) → Bitmap.test c'.written i ≡ true → after.durable 100 ≡ 100)
    × (config.hasher_enabled ≡ true → after.checksums ≡ some second.lastest_table)
refresh_resumed_example =
    refresh_resumed config saving disk first (λ _ t. t 100 ≡ 100)
      (record {
        enabled = refl;
        due = refl;
        hash_saved = refl;
        flushed = refl;
        bitmap_saved = refl;
      })
      refl (bitmaps 0) refl (λ i e. refl)

abbrev cut_short : Refresh
cut_short = record saving { snapshot_answer = broken (save_to complete (take_snapshot second)).1 }

interrupted_refresh_example :
    let after = refresh config cut_short disk in
    (restore_bitmap true after second ≡ some (with_bitmaps second.processed second.written second))
    × (after.durable ≡ (λ x. x))
interrupted_refresh_example =
    interrupted_refresh config cut_short disk second
      (record {
        enabled = refl;
        due = refl;
        hash_saved = refl;
        flushed = refl;
        bitmap_saved = refl;
      })
      refl (bitmaps 1) refl

ten_by_four : total_blocks 10 4 ≡ 3
unfolding total_blocks
ten_by_four = refl

make_capacity : (make 9).capacity ≡ 2
unfolding make
make_capacity = refl

first_bits : (j : ℕ) → total_blocks 10 4 ≤ j → Bitmap.test first.processed j ≡ false
first_bits j h = ground (
  arith,
  ten_by_four,
  test-set_bit (make 9) 0 j (make-IsValid 9 (omega arith)) room,
  test-make 9 j,
)
  where
    room : 0 < (make 9).capacity * 8
    room = omega (arith, make_capacity)

restore_counter_bounds_example :
    let n = (restore_counter config first).counter in
    (n.bytes_to_read ≡ 10)
    × (n.bytes_read ≤ 10)
    × (n.bytes_written ≤ 10)
    × (n.bytes_to_write ≡ n.bytes_written)
    × (n.blocks_hashed ≤ total_blocks 10 4)
    × (total_set_count first.processed ≡ total_blocks 10 4 → n.bytes_read ≡ 10)
restore_counter_bounds_example =
    restore_counter_bounds config first config-IsSession first_bits first_bits

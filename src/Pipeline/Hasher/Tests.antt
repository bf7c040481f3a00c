-- ===== src/Pipeline/Hasher/Tests.antt =====
-- VolumeBlockHasher at a small session.
use volume_backup.Prelude.{ℕ, refl, ◌⊎◌, List, arith, take}
use volume_backup.Allocator as Allocator
use volume_backup.Bitmap as Bitmap
use volume_backup.Bitmap.Laws.{make-IsValid}
use volume_backup.Pipeline.{ConsumeBlock, Context}
use volume_backup.Pipeline.Tests.{context, running_task}
use volume_backup.Pipeline.Hasher.{Hasher, diff}
use volume_backup.Pipeline.Hasher.Round.{Ready, Dropped, Kept, hash_block_lem}

abbrev hasher : Hasher
hasher = record { task = running_task; mode = diff; workers_running = 2 }

abbrev block : ConsumeBlock
block = record { ptr = 1004; index = 1; volume_offset = 104; length = 4 }

-- A stand-in for the digest.
abbrev first_byte : List ℕ → List ℕ
first_byte = take 1

block-Ready : Ready block 1 context
unfolding Allocator.make Bitmap.make
block-Ready = record {
  pool = record {
    positive = omega arith;
    few = omega arith;
    sized = refl;
    small = omega arith;
    placed = omega arith;
    tabled = omega arith;
  };
  slot = omega arith;
  at = omega arith;
  processed = make-IsValid 9 (omega arith);
  has_processed = omega arith;
  small = omega arith;
}

hash_block_lem_example :
    ((c' : Context) × Dropped first_byte hasher block 1 context c')
    ⊎ ((c' : Context) × Kept first_byte hasher block context c')
hash_block_lem_example = hash_block_lem first_byte hasher block 1 context block-Ready

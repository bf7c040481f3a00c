-- ===== src/Pipeline/Writer/Tests.antt =====
-- VolumeBlockWriter at a small session.
use volume_backup.Prelude.{
  ℕ, ◌+◌, ◌-◌, ◌≡◌, refl, ◌&&◌, [], ◌∷◌, some, arith, length, get_or, ltb, leb, if◌then◌else◌,
}
use volume_backup.Allocator.{Allocator}
use volume_backup.Allocator as Allocator
use volume_backup.Bitmap as Bitmap
use volume_backup.Bitmap.Laws.{make-IsValid}
use volume_backup.Pipeline.{ConsumeBlock}
use volume_backup.Pipeline.Writer.{
  WriterState, done, error, write_bytes, write_block, need_to_write,
}
use volume_backup.Pipeline.Writer as Writer
use volume_backup.Pipeline.Writer.Blocks.{write_bytes_lem}
use volume_backup.Pipeline.Writer.Branches.{Ready}
use volume_backup.Pipeline.Writer.Round.{Round, write_block_lem}
use volume_backup.Pipeline.Tests.{config, context, running_task}

-- The second block.
abbrev block : ConsumeBlock
block = record { ptr = 1004; index = 1; volume_offset = 104; length = 4 }

abbrev writer_state : WriterState
writer_state = record {
  writer = record { task = running_task; target_type = Writer.volume; pc = Writer.looping };
  context = context;
  target = λ _. 0;
}

block-Ready : Ready block 1 writer_state
unfolding Allocator.make Bitmap.make
block-Ready = record {
  pool = record {
    positive = omega arith;
    few = omega arith;
    sized = refl;
    small = omega arith;
    placed = omega arith;
    tabled = omega arith;
  };
  slot = omega arith;
  at = omega arith;
  filled = omega arith;
  written = make-IsValid 9 (omega arith);
  processed = make-IsValid 9 (omega arith);
  has_written = omega arith;
  has_processed = omega arith;
}

-- The disk is full after two of the bytes.
write_block_lem_example :
    (s' : WriterState) × (write_block config (error 2 28) block writer_state ≡ some s')
    × Round config (error 2 28) block 1 writer_state s'
write_block_lem_example = write_block_lem config (error 2 28) block 1 writer_state block-Ready

write_bytes_lem_example : write_bytes (λ _. 0) 104 (5 ∷ 6 ∷ []) 105 ≡ (
    if leb 104 105 && ltb 105 (104 + length {A = ℕ} (5 ∷ 6 ∷ []))
    then get_or (5 ∷ 6 ∷ []) (105 - 104) 0
    else 0)
write_bytes_lem_example = write_bytes_lem (λ _. 0) 104 (5 ∷ 6 ∷ []) 105

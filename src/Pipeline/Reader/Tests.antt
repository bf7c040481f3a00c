-- ===== src/Pipeline/Reader/Tests.antt =====
-- VolumeBlockReader at a small session.
use volume_backup.Prelude.{◌+◌, ◌-◌, ◌/◌, ◌≤◌, ◌<◌, ◌≡◌, refl, false, List, [], ◌∷◌, arith, length}
use volume_backup.Bitmap as Bitmap
use volume_backup.Task.{succeed}
use volume_backup.Session.{total_blocks}
use volume_backup.Queue.{BlockingQueue, blocking_push, resume_push}
use volume_backup.Queue as Queue
use volume_backup.Allocator as Allocator
use volume_backup.Allocator.{block_alloc, rounds, address}
use volume_backup.Allocator.Table.{first_free}
use volume_backup.Pipeline.{ConsumeBlock, Context}
use volume_backup.Pipeline.Reader.{
  pushing, fetch_and_read, read_block, read_length, push_forward, Reader, stopped, bytes,
  consume_block, max_block_index, read_offset, step, round, stop,
}
use volume_backup.Pipeline.Reader.Blocks.{blocks_cover}
use volume_backup.Pipeline.Reader.Log.{
  Run, Event, passed, starts, steps, skipped, Consecutive, reader_complete,
}
use volume_backup.Pipeline.Reader.{skip_reading_block}
use volume_backup.Pipeline.Tests.{config, config-IsSession, context, reader, running_task}

blocks_cover_example :
    let i = (109 - 100) / 4 in
    (i < total_blocks 10 4)
    × ((consume_block config 1000 i).volume_offset ≤ 109)
    × (109 < (consume_block config 1000 i).volume_offset + (consume_block config 1000 i).length)
    × (read_offset config 100 i ≡ (consume_block config 1000 i).volume_offset)
blocks_cover_example = blocks_cover config 1000 109 config-IsSession (omega arith) (omega arith)

-- The last block but one stands in the processed bitmap.
abbrev resumed : Context
resumed = record context { processed = record { capacity = 2; table = 2 ∷ 0 ∷ [] } }

abbrev at_last : Reader
at_last = record reader { current_index = 2 }

-- The last block has two bytes.
abbrev last_block : ConsumeBlock
last_block = record { ptr = 1000; index = 2; volume_offset = 108; length = 2 }

abbrev with_block : Reader
with_block = record at_last { pc = pushing last_block }

abbrev past_last : Reader
past_last = record reader { current_index = 3 }

abbrev ended : Reader
ended = record past_last { task = record running_task { status = succeed }; pc = stopped }

abbrev queue : BlockingQueue ConsumeBlock
queue = record { queue = []; finished = false; max_size = 2 }

-- Block 1 is skipped, block 2 is pushed.
abbrev events : List Event
events = passed last_block queue (record queue { queue = last_block ∷ [] }) ∷ skipped 1 ∷ []

skips_first : Run config reader at_last (skipped 1 ∷ [])
unfolding step round skip_reading_block max_block_index total_blocks Bitmap.test
skips_first = steps false (bytes []) resumed starts refl

takes_last : Run config reader with_block (skipped 1 ∷ [])
unfolding step round skip_reading_block fetch_and_read read_block consume_block read_length
    max_block_index total_blocks Bitmap.test Bitmap.make block_alloc first_free rounds address
    Allocator.make
takes_last = steps false (bytes (9 ∷ 8 ∷ [])) context skips_first refl

pushes_last : Run config reader past_last events
unfolding step push_forward blocking_push resume_push Queue.make
pushes_last = steps false (bytes []) context takes_last refl

ends : Run config reader ended events
unfolding step round max_block_index total_blocks stop
ends = steps false (bytes []) resumed pushes_last refl

reader_complete_example :
    Consecutive config 1 events
    × (3 ≡ 1 + length events)
    × (succeed ≡ succeed → total_blocks 10 4 ≤ 1 + length events)
reader_complete_example =
    reader_complete config reader ended events config-IsSession refl refl refl ends

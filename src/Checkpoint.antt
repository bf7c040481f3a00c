-- ===== src/Checkpoint.antt =====
-- src/task/VolumeProtectTaskContext.cpp, CheckpointSnapshot and VolumeTaskCheckpointTrait: what a task
-- saves of a running session, and what a task that is started again makes of it.
pub mod Snapshot
pub mod Resume
mod Tests
use volume_backup.Prelude.{
  ℕ, ◌+◌, ◌*◌, ◌/◌, ◌%◌, ◌^◌, Bool, true, false, not, ◌&&◌, ◌||◌, Option, none, some, List, ◌++◌,
  length, take, drop, replicate, ◌==◌, if◌then◌else◌,
}
use volume_backup.Files.{
  File, WriteAnswer, is_file_exists, get_file_size, read_binary_buffer, write_binary_buffer,
}
use volume_backup.Bitmap.{Bitmap, make, from_buffer, total_set_count}
use volume_backup.Session.{SharedConfig, total_blocks}
use volume_backup.Pipeline.{Context}
use volume_backup.Pipeline.Writer.{Target}

-- CheckpointSnapshot.
pub record CheckpointSnapshot : Type 0 where
  pub bitmap_bytes : ℕ
  pub processed_bitmap : List ℕ
  pub written_bitmap : List ℕ

-- `SaveTo`: both buffers, one after the other.
pub save_to : WriteAnswer → CheckpointSnapshot → Bool × File
save_to answer s =
    write_binary_buffer answer
      (take s.bitmap_bytes s.processed_bitmap ++ take s.bitmap_bytes s.written_bitmap)

split_buffer : ℕ → List ℕ → CheckpointSnapshot
split_buffer bitmap_bytes buffer = record {
  bitmap_bytes = bitmap_bytes;
  processed_bitmap = take bitmap_bytes buffer;
  written_bitmap = take bitmap_bytes (drop bitmap_bytes buffer);
}

-- `LoadFrom`.
pub load_from : Bool → File → Option CheckpointSnapshot
unfolding split_buffer
load_from readable file =
    let total = get_file_size file in
    if total == 0 || not (total % 2 == 0)
    then none
    else elim (read_binary_buffer readable file total) [
      | none ↦ none
      | some buffer ↦ some (split_buffer (total / 2) buffer)
    ]

-- `InitSessionBitmap`.
pub init_session_bitmap : SharedConfig → Context → Context
init_session_bitmap s c = record c {
  processed = make (total_blocks s.session_size s.block_size);
  written = make (total_blocks s.session_size s.block_size);
}

-- `TakeSessionCheckpointSnapshot`. (The two bitmaps of a session have one capacity.)
pub take_snapshot : Context → CheckpointSnapshot
take_snapshot c = record {
  bitmap_bytes = c.written.capacity;
  processed_bitmap = take c.written.capacity c.processed.table;
  written_bitmap = take c.written.capacity c.written.table;
}

-- What outlives the process: the checkpoint file, the file of checksums by block, and the bytes of the
-- target as of its last flush.
pub record Disk : Type 0 where
  pub checkpoint : File
  pub checksums : Option (ℕ → List ℕ)
  pub durable : Target

-- `FlushSessionLatestHashingTable`; the flag says whether the file system takes the file.
pub flush_hashing_table : Bool → Context → Disk → Bool × Disk
flush_hashing_table ok c d =
    if ok then (true, record d { checksums = some c.lastest_table }) else (false, d)

-- What meets `Flush` of the writer: a file that is not open, or an fsync that takes the bytes of the
-- target to the disk, or one that fails and takes none.
pub data FlushAnswer : Type 0 where
  not_open synced sync_failed : FlushAnswer

-- `FlushSessionWriter`. The result of fsync is not looked at.
pub flush_writer : FlushAnswer → Target → Disk → Bool × Disk
flush_writer not_open t d = (false, d)
flush_writer synced t d = (true, record d { durable = t })
flush_writer sync_failed t d = (true, d)

save_snapshot : WriteAnswer → CheckpointSnapshot → Disk → Bool × Disk
save_snapshot answer s d = let (ok, file) = save_to answer s in (ok, record d { checkpoint = file })

-- `FlushSessionBitmap`.
pub flush_bitmap : SharedConfig → WriteAnswer → Context → Disk → Bool × Disk
unfolding save_snapshot
flush_bitmap s answer c d =
    if not s.checkpoint_enabled then (true, d) else save_snapshot answer (take_snapshot c) d

-- What the other threads have made of the context and the target when `RefreshSessionCheckpoint`
-- comes to each of its actions, and what the system answers to it.
pub record Refresh : Type 0 where
  pub due : Bool  -- a minute has passed
  pub first : Context  -- at the snapshot
  pub hashed : Context  -- when the hashing table is saved
  pub hash_saved : Bool
  pub target : Target  -- when the writer is flushed
  pub flushed : FlushAnswer
  pub second : Context  -- in `FlushSessionBitmap`
  pub bitmap_answer : WriteAnswer
  pub snapshot_answer : WriteAnswer

abbrev and_then : Bool × Disk → (Disk → Disk) → Disk
and_then (ok, d) f = if ok then f d else d

-- `RefreshSessionCheckpoint`.
pub refresh : SharedConfig → Refresh → Disk → Disk
unfolding flush_hashing_table flush_writer flush_bitmap save_snapshot
refresh s r d =
    if not s.checkpoint_enabled || not r.due
    then d
    else and_then
        (if s.hasher_enabled then flush_hashing_table r.hash_saved r.hashed d else (true, d))
        (λ d. and_then (flush_writer r.flushed r.target d) (λ d.
          and_then (flush_bitmap s r.bitmap_answer r.second d)
            (λ d. (save_snapshot r.snapshot_answer (take_snapshot r.first) d).1)))

-- The bitmaps of a snapshot in place of those of the context, if they have the required size.
abbrev pub adopted : Context → Option CheckpointSnapshot → Option Context
adopted c none = none
adopted c (some s) =
    if s.bitmap_bytes == c.written.capacity
    then some (record c {
      processed = from_buffer s.processed_bitmap s.bitmap_bytes;
      written = from_buffer s.written_bitmap s.bitmap_bytes;
    })
    else none

-- `RestoreSessionBitmap`: `none` is the return value false.
pub restore_bitmap : Bool → Disk → Context → Option Context
restore_bitmap readable d c = adopted c (load_from readable d.checkpoint)

-- The bytes that so many blocks count for.
abbrev pub counted_bytes : SharedConfig → ℕ → ℕ
counted_bytes s count =
    if count == total_blocks s.session_size s.block_size
    then s.session_size
    else count * s.block_size % 2 ^ 64

-- `RestoreSessionCounter`.
pub restore_counter : SharedConfig → Context → Context
restore_counter s c =
    let processed = total_set_count c.processed in
    let written = total_set_count c.written in
    record c {
      counter = record (c.counter) {
        bytes_to_read = s.session_size;
        bytes_read = counted_bytes s processed;
        bytes_to_write = counted_bytes s written;
        bytes_written = counted_bytes s written;
        blocks_to_hash = if s.hasher_enabled then processed else 0;
        blocks_hashed = if s.hasher_enabled then processed else 0;
      };
    }

-- `RestoreSessionLatestHashingTable`, within `RestoreSessionCheckpoint`.
restore_hashing_table : Bool → Disk → Context → Option Context
restore_hashing_table readable d c = elim d.checksums [
  | none ↦ none
  | some table ↦ if readable then some (record c { lastest_table = table }) else none
]

abbrev after_table : SharedConfig → Bool → Disk → Context → Context
after_table s bitmap_readable d c = elim (restore_bitmap bitmap_readable d c) [
  | none ↦ c
  | some c' ↦ restore_counter s c'
]

-- `RestoreSessionCheckpoint`, with whether the two files can be read.
pub restore_checkpoint : SharedConfig → Bool → Bool → Disk → Context → Context
unfolding restore_hashing_table
restore_checkpoint s table_readable bitmap_readable d c =
    if not (is_file_exists d.checkpoint) || not s.checkpoint_enabled
    then c
    else if s.hasher_enabled
    then elim (restore_hashing_table table_readable d c) [
      | none ↦ c
      | some c' ↦ after_table s bitmap_readable d c'
    ]
    else after_table s bitmap_readable d c

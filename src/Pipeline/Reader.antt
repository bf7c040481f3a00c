-- ===== src/Pipeline/Reader.antt =====
-- src/task/VolumeBlockReader.cpp.
pub mod Blocks
pub mod Loop
pub mod Log
mod Tests
use volume_backup.Prelude.{
  ℕ, zero, suc, ◌+◌, ◌-◌, ◌*◌, ◌/◌, ◌%◌, ◌^◌, Bool, true, false, ◌&&◌, ◌||◌, Option, none, some,
  List, ltb, leb, ◌==◌, if◌then◌else◌,
}
use volume_backup.Queue.{BlockingQueue, Outcome, blocks, returns, blocking_push, finish}
use volume_backup.Allocator.{block_alloc}
use volume_backup.Bitmap
use volume_backup.Task.{StatefulTask, TaskStatus, running, succeed, failed, aborted, add64}
use volume_backup.Session.{SharedConfig, total_blocks}
use volume_backup.Pipeline.{
  ConsumeBlock, Context, stored, eperm, eacces, err_volume_access_denied, err_copy_access_denied,
}

pub data SourceType : Type 0 where
  volume copyfile : SourceType

-- Where the reader thread stands: at the head of its loop, in a wait for a buffer, before a push that
-- may wait, or ended.
pub data ReaderPc : Type 0 where
  looping fetching stopped : ReaderPc
  pushing : ConsumeBlock → ReaderPc

pub record Reader : Type 0 where
  pub task : StatefulTask
  pub source_type : SourceType
  pub base_offset : ℕ
  pub current_index : ℕ
  pub max_index : ℕ
  pub pause_flag : Bool
  pub pc : ReaderPc

-- What the source answers to `m_dataReader->Read`: the bytes, or an errno.
pub data ReadAnswer : Type 0 where
  bytes : List ℕ → ReadAnswer
  error : ℕ → ReadAnswer

-- `m_maxIndex` of the constructor.
unfoldable pub max_block_index : ℕ → ℕ → ℕ
max_block_index session_size block_size =
    if total_blocks session_size block_size == 0
    then 0
    else total_blocks session_size block_size - 1

-- `InitCurrentIndex`: where the thread starts.
pub init_current_index : SharedConfig → Context → ℕ
init_current_index s c = if s.checkpoint_enabled then Bitmap.first_index_unset c.processed else 0

-- `nBytesToRead` of `ReadBlock`: a whole block, or what is left of the session. The products and
-- differences are in 64 bits.
unfoldable pub read_length : SharedConfig → ℕ → ℕ
read_length s index =
    let remain = (s.session_size + 2 ^ 64 - index * s.block_size % 2 ^ 64) % 2 ^ 64 in
    if ltb remain s.block_size then remain else s.block_size

-- `currentOffset` of `ReadBlock`.
unfoldable pub read_offset : SharedConfig → ℕ → ℕ → ℕ
read_offset s base_offset index = (base_offset + index * s.block_size) % 2 ^ 64

-- The block that is pushed: its offset is reckoned from the session.
unfoldable pub consume_block : SharedConfig → ℕ → ℕ → ConsumeBlock
unfolding read_length
consume_block s buffer index = record {
  ptr = buffer;
  index = index;
  volume_offset = (index * s.block_size + s.session_offset) % 2 ^ 64;
  length = read_length s index;
}

-- `HandleReadError`.
pub handle_read_error : SourceType → ℕ → StatefulTask → StatefulTask
handle_read_error source errno t = record t {
  failed_flag = true;
  error_code =
      if errno == eacces || errno == eperm
      then elim source [ copyfile ↦ err_copy_access_denied | volume ↦ err_volume_access_denied ]
      else errno;
}

-- The end of the thread: the status is set and the queue behind the reader is finished.
unfoldable pub stop : SharedConfig → TaskStatus → Reader → Context → Reader × Context
stop s status r c = (
  record r { task = record (r.task) { status = status }; pc = stopped },
  if s.hasher_enabled
      then record c { hashing_queue = finish c.hashing_queue }
      else record c { write_queue = finish c.write_queue },
)

-- After `Read` has answered.
unfoldable pub read_block : SharedConfig → ℕ → ReadAnswer → Reader → Context → Reader × Context
unfolding consume_block handle_read_error stop
read_block s buffer (error errno) r c =
    stop s failed (record r { task = handle_read_error r.source_type errno r.task }) c
read_block s buffer (bytes data_read) r c = (
  record r { pc = pushing (consume_block s buffer r.current_index) },
  record c {
    counter = record (c.counter) {
      bytes_read = add64 c.counter.bytes_read (read_length s r.current_index);
    };
    memory = stored buffer data_read c.memory;
  },
)

-- `FetchBlockBuffer` and what follows: without a free buffer the thread sleeps and asks again, and looks
-- at nothing else meanwhile, or, when the time is up, fails.
unfoldable pub fetch_and_read :
    SharedConfig → Bool → ReadAnswer → Reader → Context → Reader × Context
unfolding read_block stop
fetch_and_read s timeout answer r c =
    let (buffer, allocator) = block_alloc c.allocator in
    elim buffer [
      | none ↦ if timeout then stop s failed r c else (record r { pc = fetching }, c)
      | some ptr ↦ read_block s ptr answer r (record c { allocator = allocator })
    ]

-- `SkipReadingBlock`.
unfoldable pub skip_reading_block : SharedConfig → Reader → Context → Bool
skip_reading_block s r c = s.checkpoint_enabled && Bitmap.test c.processed r.current_index

-- One round of `MainThread` up to the push.
unfoldable pub round : SharedConfig → Bool → ReadAnswer → Reader → Context → Reader × Context
unfolding fetch_and_read skip_reading_block stop
round s timeout answer r c =
    if ltb r.max_index r.current_index
    then stop s succeed r c
    else if r.task.failed_flag
    then stop s failed r c
    else if r.task.abort_flag
    then stop s aborted r c
    else if r.pause_flag
    then (r, c)
    else if skip_reading_block s r c
    then (record r { current_index = add64 r.current_index 1 }, c)
    else fetch_and_read s timeout answer r c

abbrev pub pushed :
    Reader
    → Context
    → Outcome (Bool × BlockingQueue ConsumeBlock)
    → (BlockingQueue ConsumeBlock → Context)
    → Reader × Context
pushed r c blocks f = (r, c)
pushed r c (returns (_, q)) f =
    (record r { current_index = add64 r.current_index 1; pc = looping }, f q)

-- `BlockingPushForward` and `RevertNextBlock`. What the push returns is not looked at.
unfoldable pub push_forward : SharedConfig → ConsumeBlock → Reader → Context → Reader × Context
push_forward s b r c =
    if s.hasher_enabled
    then pushed r c (blocking_push c.hashing_queue b) (λ q. record c {
      hashing_queue = q;
      counter = record (c.counter) { blocks_to_hash = add64 c.counter.blocks_to_hash 1 };
    })
    else pushed r c (blocking_push c.write_queue b) (λ q. record c {
      write_queue = q;
      counter = record (c.counter) { bytes_to_write = add64 c.counter.bytes_to_write b.length };
    })

-- One step of the reader thread.
unfoldable pub step : SharedConfig → Bool → ReadAnswer → Reader → Context → Reader × Context
unfolding round push_forward
step s timeout answer r c = elim r.pc [
  | looping ↦ round s timeout answer r c
  | fetching ↦ fetch_and_read s timeout answer r c
  | pushing b ↦ push_forward s b r c
  | stopped ↦ (r, c)
]

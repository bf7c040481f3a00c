-- ===== src/Pipeline/Writer.antt =====
-- src/task/VolumeBlockWriter.cpp.
pub mod Blocks
pub mod Branches
pub mod Round
mod Tests
use volume_backup.Prelude.{
  ℕ, zero, suc, ◌+◌, ◌-◌, ◌<◌, Bool, true, false, not, ◌&&◌, ◌||◌, Option, none, some, List, [],
  ◌∷◌, ltb, leb, take, drop, get_or, ◌==◌, if◌then◌else◌,
}
use volume_backup.Queue.{BlockingQueue, Outcome, blocks, returns, blocking_pop}
use volume_backup.Bitmap
use volume_backup.Task.{StatefulTask, TaskStatus, running, succeed, failed, aborted, add64}
use volume_backup.Session.{SharedConfig}
use volume_backup.Pipeline.{
  ConsumeBlock, Context, free_block, eperm, eacces, enospc, err_volume_access_denied,
  err_copy_access_denied, err_no_space,
}

pub data TargetType : Type 0 where
  volume copyfile : TargetType

-- Where the writer thread stands: at the head of its loop, in a pop that waits, or ended.
pub data WriterPc : Type 0 where
  looping popping stopped : WriterPc

pub record Writer : Type 0 where
  pub task : StatefulTask
  pub target_type : TargetType
  pub pc : WriterPc

-- The bytes of the target, by volume offset, as `m_dataWriter` reaches them.
abbrev pub Target : Type 0
Target = ℕ → ℕ

-- What the target answers to `m_dataWriter->Write`: done, or an errno, after so many of the bytes have
-- been written, as a short write is an error too.
pub data WriteAnswer : Type 0 where
  done : WriteAnswer
  error : ℕ → ℕ → WriteAnswer

-- The target after the bytes are written at an offset.
unfoldable pub write_bytes : Target → ℕ → List ℕ → Target
write_bytes t offset [] = t
write_bytes t offset (b ∷ bs) = λ x. if x == offset then b else write_bytes t (offset + 1) bs x

-- `memcmp(xs, ys, n) == 0` over the shorter of the two.
same_prefix : List ℕ → List ℕ → Bool
same_prefix [] ys = true
same_prefix (x ∷ xs) [] = true
same_prefix (x ∷ xs) (y ∷ ys) = x == y && same_prefix xs ys

-- `NeedToWrite`, of the bytes of the block: `buffer[0] == 0`, and the buffer equals itself one byte on.
unfoldable pub need_to_write : SharedConfig → List ℕ → Bool
unfolding same_prefix
need_to_write s buffer =
    if not s.skip_empty_block
    then true
    else if get_or buffer 0 0 == 0 && same_prefix (drop 1 buffer) buffer
    then false
    else true

-- `HandleWriteError`.
unfoldable pub handle_write_error : TargetType → ℕ → StatefulTask → StatefulTask
handle_write_error target errno t = record t {
  failed_flag = true;
  error_code =
      if errno == eacces || errno == eperm
      then elim target [ copyfile ↦ err_copy_access_denied | volume ↦ err_volume_access_denied ]
      else elim target [
        | copyfile ↦ if errno == enospc then err_no_space else errno
        | volume ↦ errno
      ];
}

pub record WriterState : Type 0 where
  pub writer : Writer
  pub context : Context
  pub target : Target

-- `++blockesWriteFailed`.
unfoldable pub count_failure : Context → Context
count_failure c = record c {
  counter = record (c.counter) { blockes_write_failed = add64 c.counter.blockes_write_failed 1 };
}

-- The end of a round: both bits are set, the buffer is given back, the bytes are counted. A block
-- whose write has failed comes here too.
unfoldable pub complete_block : ConsumeBlock → WriterState → Option WriterState
complete_block b s =
    let marked = record (s.context) {
      written = Bitmap.set_bit s.context.written b.index;
      processed = Bitmap.set_bit s.context.processed b.index;
    } in
    elim (free_block marked b.ptr) [
      | none ↦ none
      | some c ↦ some (record s {
        context = record c {
          counter = record (c.counter) { bytes_written = add64 c.counter.bytes_written b.length };
        };
      })
    ]

-- What is done on a failed write before the round goes on.
unfoldable pub fail_block : ConsumeBlock → ℕ → WriterState → Option WriterState
unfolding count_failure handle_write_error
fail_block b errno s = elim (free_block s.context b.ptr) [
  | none ↦ none
  | some c ↦ some (record s {
    writer = record (s.writer) {
      task = handle_write_error s.writer.target_type errno s.writer.task;
    };
    context = count_failure c;
  })
]

-- A writer that has failed gives back the buffers that still come, and writes nothing.
unfoldable pub discard_block : ConsumeBlock → WriterState → Option WriterState
unfolding count_failure
discard_block b s = elim (free_block s.context b.ptr) [
  | none ↦ none
  | some c ↦ some (record s { context = count_failure c })
]

-- The bytes of the block in its buffer.
abbrev pub block_bytes : ConsumeBlock → Context → List ℕ
block_bytes b c = take b.length (c.memory b.ptr)

-- The first bytes of the block are written.
abbrev pub with_part : ℕ → ConsumeBlock → WriterState → WriterState
with_part n b s = record s {
  target = write_bytes s.target b.volume_offset (take n (block_bytes b s.context));
}

-- A popped block.
unfoldable pub write_block :
    SharedConfig → WriteAnswer → ConsumeBlock → WriterState → Option WriterState
unfolding complete_block fail_block discard_block need_to_write
write_block config answer b s =
    if s.writer.task.failed_flag
    then discard_block b s
    else if need_to_write config (block_bytes b s.context)
    then elim answer [
      | done ↦
          complete_block b
            (record s { target = write_bytes s.target b.volume_offset (block_bytes b s.context) })
      | error n errno ↦ elim (fail_block b errno (with_part n b s)) [
        | none ↦ none
        | some s' ↦ complete_block b s'
      ]
    ]
    else complete_block b s

-- The status at the end of the thread: success turns into failure if a block was not written.
abbrev pub final_status : TaskStatus → Context → TaskStatus
final_status succeed c = if c.counter.blockes_write_failed == 0 then succeed else failed
final_status status c = status

unfoldable pub stop : TaskStatus → WriterState → WriterState
stop status s = record s {
  writer = record (s.writer) {
    task = record (s.writer.task) { status = final_status status s.context };
    pc = stopped;
  };
}

abbrev pub at : WriterPc → WriterState → WriterState
at pc s = record s { writer = record (s.writer) { pc = pc } }

-- What comes of the pop, of which the thread may have to wait.
unfoldable pub popped :
    SharedConfig
    → WriteAnswer
    → WriterState
    → Outcome (Option ConsumeBlock × BlockingQueue ConsumeBlock)
    → Option WriterState
unfolding write_block stop
popped config answer s blocks = some (at popping s)
popped config answer s (returns (none, q)) =
    some (stop succeed (record s { context = record (s.context) { write_queue = q } }))
popped config answer s (returns (some b, q)) =
    write_block config answer b
      (at looping (record s { context = record (s.context) { write_queue = q } }))

-- One step of the writer thread; `none` is a crash in `BlockFree`. A pop that waits does not look at
-- the abort flag again.
unfoldable pub step : SharedConfig → WriteAnswer → WriterState → Option WriterState
unfolding popped stop
step config answer s = elim s.writer.pc [
  | stopped ↦ some s
  | popping ↦ popped config answer s (blocking_pop s.context.write_queue)
  | looping ↦
      if s.writer.task.abort_flag
      then some (stop aborted s)
      else popped config answer s (blocking_pop s.context.write_queue)
]

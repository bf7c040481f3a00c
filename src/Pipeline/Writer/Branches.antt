-- ===== src/Pipeline/Writer/Branches.antt =====
-- VolumeBlockWriter: the state after each branch of a round of the writer thread.
use volume_backup.Prelude.{ℕ, ◌+◌, ◌*◌, ◌≤◌, ◌<◌, ◌≡◌, refl, arith, true, false, some, length, set}
use volume_backup.Allocator.Ownership.{block_free_at, set-IsValid}
use volume_backup.Allocator.Ownership as Ownership
use volume_backup.Bitmap
use volume_backup.Bitmap.Laws as Laws
use volume_backup.Session.{SharedConfig}
use volume_backup.Task.{add64}
use volume_backup.Pipeline.{ConsumeBlock, Context, free_block}
use volume_backup.Pipeline.Writer.{
  WriteAnswer, done, error, WriterState, block_bytes, write_bytes, need_to_write, with_part,
  complete_block, fail_block, write_block, handle_write_error, count_failure, discard_block,
}

-- The block stands in buffer `i` of the pool, which holds all its bytes, and has its bits.
pub record Ready (b : ConsumeBlock) (i : ℕ) (s : WriterState) : Type 0 where
  pub pool : Ownership.IsValid s.context.allocator
  pub slot : i < s.context.allocator.block_num
  pub at : b.ptr ≡ s.context.allocator.pool + s.context.allocator.block_size * i
  pub filled : b.length ≤ length (s.context.memory b.ptr)
  pub written : Laws.IsValid s.context.written
  pub processed : Laws.IsValid s.context.processed
  pub has_written : b.index < s.context.written.capacity * 8
  pub has_processed : b.index < s.context.processed.capacity * 8

abbrev pub released : ℕ → Context → Context
released i c = record c {
  allocator = record (c.allocator) { alloc_table = set c.allocator.alloc_table i false };
}

pub free_block-eq :
    (c : Context) (i ptr : ℕ)
    → Ownership.IsValid c.allocator
    → i < c.allocator.block_num
    → ptr ≡ c.allocator.pool + c.allocator.block_size * i
    → free_block c ptr ≡ some (released i c)
unfolding free_block
free_block-eq c i ptr v h e = rw (e, block_free_at i v h) refl

abbrev pub completed : ConsumeBlock → ℕ → WriterState → WriterState
completed b i s = record s {
  context = record (released i s.context) {
    written = Bitmap.set_bit s.context.written b.index;
    processed = Bitmap.set_bit s.context.processed b.index;
    counter = record (s.context.counter) {
      bytes_written = add64 s.context.counter.bytes_written b.length;
    };
  };
}

complete_block-eq :
    (b : ConsumeBlock) (i : ℕ) (s : WriterState)
    → Ready b i s
    → complete_block b s ≡ some (completed b i s)
unfolding complete_block
complete_block-eq b i s r =
    let marked : Context = record (s.context) {
      written = Bitmap.set_bit s.context.written b.index;
      processed = Bitmap.set_bit s.context.processed b.index;
    } in
    rw (complete_block, free_block-eq marked i b.ptr r.pool r.slot r.at) refl

-- After a failed write.
abbrev pub failing : SharedConfig → ConsumeBlock → ℕ → ℕ → WriterState → WriterState
failing config b i errno s = record s {
  writer = record (s.writer) { task = handle_write_error s.writer.target_type errno s.writer.task };
  context = count_failure (released i s.context);
}

fail_block-eq :
    (config : SharedConfig) (b : ConsumeBlock) (i errno : ℕ) (s : WriterState)
    → Ready b i s
    → fail_block b errno s ≡ some (failing config b i errno s)
unfolding fail_block
fail_block-eq config b i errno s r =
    rw (fail_block, free_block-eq s.context i b.ptr r.pool r.slot r.at) refl

pub failing-Ready :
    (config : SharedConfig) (b : ConsumeBlock) (i errno : ℕ) (s : WriterState)
    → Ready b i s
    → Ready b i (failing config b i errno s)
unfolding count_failure
failing-Ready config b i errno s r = record {
  pool = set-IsValid i false r.pool;
  slot = r.slot;
  at = r.at;
  filled = r.filled;
  written = r.written;
  processed = r.processed;
  has_written = r.has_written;
  has_processed = r.has_processed;
}

discard_block-eq :
    (b : ConsumeBlock) (i : ℕ) (s : WriterState)
    → Ready b i s
    → discard_block b s ≡ some (record s { context = count_failure (released i s.context) })
unfolding discard_block
discard_block-eq b i s r =
    rw (discard_block, free_block-eq s.context i b.ptr r.pool r.slot r.at) refl

pub write_block-failed :
    (config : SharedConfig) (answer : WriteAnswer) (b : ConsumeBlock) (i : ℕ) (s : WriterState)
    → Ready b i s
    → s.writer.task.failed_flag ≡ true
    → write_block config answer b s
      ≡ some (record s { context = count_failure (released i s.context) })
unfolding write_block
write_block-failed config answer b i s r f = ground (arith, discard_block-eq b i s r)

pub write_block-skipped :
    (config : SharedConfig) (answer : WriteAnswer) (b : ConsumeBlock) (i : ℕ) (s : WriterState)
    → Ready b i s
    → s.writer.task.failed_flag ≡ false
    → need_to_write config (block_bytes b s.context) ≡ false
    → write_block config answer b s ≡ some (completed b i s)
unfolding write_block
write_block-skipped config answer b i s r f n = ground (arith, complete_block-eq b i s r)

abbrev pub with_data : ConsumeBlock → WriterState → WriterState
with_data b s = record s { target = write_bytes s.target b.volume_offset (block_bytes b s.context) }

pub write_block-done :
    (config : SharedConfig) (b : ConsumeBlock) (i : ℕ) (s : WriterState)
    → Ready b i s
    → s.writer.task.failed_flag ≡ false
    → need_to_write config (block_bytes b s.context) ≡ true
    → write_block config done b s ≡ some (completed b i (with_data b s))
unfolding write_block
write_block-done config b i s r f n = ground (
  arith,
  complete_block-eq b i (with_data b s) (record {
    pool = r.pool;
    slot = r.slot;
    at = r.at;
    filled = r.filled;
    written = r.written;
    processed = r.processed;
    has_written = r.has_written;
    has_processed = r.has_processed;
  }),
)

pub with_part-Ready :
    (n : ℕ) (b : ConsumeBlock) (i : ℕ) (s : WriterState) → Ready b i s → Ready b i (with_part n b s)
with_part-Ready n b i s r = record {
  pool = r.pool;
  slot = r.slot;
  at = r.at;
  filled = r.filled;
  written = r.written;
  processed = r.processed;
  has_written = r.has_written;
  has_processed = r.has_processed;
}

pub write_block-error :
    (config : SharedConfig) (n errno : ℕ) (b : ConsumeBlock) (i : ℕ) (s : WriterState)
    → Ready b i s
    → s.writer.task.failed_flag ≡ false
    → need_to_write config (block_bytes b s.context) ≡ true
    → write_block config (error n errno) b s
      ≡ some (completed b i (failing config b i errno (with_part n b s)))
unfolding write_block
write_block-error config n errno b i s r f needed =
    let part = with_part n b s in
    let ready = with_part-Ready n b i s r in
    ground (
      arith,
      fail_block-eq config b i errno part ready,
      complete_block-eq b i (failing config b i errno part)
          (failing-Ready config b i errno part ready),
    )

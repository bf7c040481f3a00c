-- ===== src/Pipeline/Hasher.antt =====
-- src/task/VolumeBlockHasher.cpp. SHA-256 is OpenSSL's: a parameter.
pub mod Round
mod Tests
use mathlib.Core.List.{List-discrete}
use mathlib.Core.Option
use native.Mathlib.Decide.{ℕ_discrete}
use volume_backup.Prelude.{
  ℕ, ◌+◌, ◌-◌, ◌*◌, ◌/◌, ◌%◌, ◌^◌, Bool, true, false, ◌||◌, Option, none, some, List, ltb, take,
  ◌==◌, if◌then◌else◌,
}
use volume_backup.Queue.{
  BlockingQueue, Outcome, blocks, returns, blocking_push, blocking_pop, finish,
}
use volume_backup.Bitmap
use volume_backup.Task.{StatefulTask, TaskStatus, running, succeed, failed, aborted, add64}
use volume_backup.Session.{SharedConfig}
use volume_backup.Pipeline.{ConsumeBlock, Context, stored, free_block}

pub data ForwardMode : Type 0 where
  direct diff : ForwardMode

-- Where a worker thread stands: `popping` is the wait in `BlockingPop`, `pushing` that in
-- `BlockingPush`; neither looks at m_abort.
pub data WorkerPc : Type 0 where
  starting looping popping stopped : WorkerPc
  pushing : ConsumeBlock → WorkerPc

pub record Hasher : Type 0 where
  pub task : StatefulTask
  pub mode : ForwardMode
  pub workers_running : ℕ

abbrev max_hasher_worker_num : ℕ
max_hasher_worker_num = 32

-- `Start`, on a hasher that has not been started: its status, what is returned, and the number of
-- worker threads that are made.
pub start : SharedConfig → Hasher → Bool × ℕ × Hasher
start s h =
    if not_enabled
    then (true, 0, record h { task = record (h.task) { status = succeed } })
    else if s.hasher_worker_num == 0 || ltb max_hasher_worker_num s.hasher_worker_num
    then (false, 0, record h { task = record (h.task) { status = failed } })
    else (true, s.hasher_worker_num, record h { task = record (h.task) { status = running } })
  where
    not_enabled : Bool
    not_enabled = if s.hasher_enabled then false else true

-- Byte-wise equality: `memcmp(...) == 0`.
pub same_bytes : List ℕ → List ℕ → Bool
unfolding ℕ_discrete
same_bytes xs ys = elim (List-discrete ℕ_discrete xs ys) [ yes _ ↦ true | no _ ↦ false ]

-- `HandleWorkerTerminate`, with the status that the worker has set: the worker that finds no other
-- one running finishes the write queue. The count is a uint32_t.
pub terminate : TaskStatus → Hasher → Context → WorkerPc × Hasher × Context
terminate status h c =
    let left = (h.workers_running + 2 ^ 32 - 1) % 2 ^ 32 in
    (
      stopped,
      record h { task = record (h.task) { status = status }; workers_running = left },
      if left == 0 then record c { write_queue = finish c.write_queue } else c,
    )

-- The place of a block's checksum that the comparison looks at: `m_singleChecksumSize * (uint32_t)index`
-- is a product in 32 bits. From block number 2^27 on, it is the place of another block.
pub compared_slot : ℕ → ℕ
compared_slot index = 32 * (index % 2 ^ 32) % 2 ^ 32 / 32

module _ (sha256 : List ℕ → List ℕ) where
  -- `ComputeSHA256` into the lastest table.
  pub compute_hash : ConsumeBlock → Context → Context
  compute_hash b c = record c {
    lastest_table = stored b.index (sha256 (take b.length (c.memory b.ptr))) c.lastest_table;
    counter = record (c.counter) { blocks_hashed = add64 c.counter.blocks_hashed 1 };
  }

  -- Is the block dropped, since its checksum is that of the previous copy?
  pub is_unchanged : ForwardMode → ConsumeBlock → Context → Bool
  is_unchanged direct b c = false
  is_unchanged diff b c =
      same_bytes (c.previous_table (compared_slot b.index))
        (c.lastest_table (compared_slot b.index))

  pub drop_block : Hasher → ConsumeBlock → Context → Option (WorkerPc × Hasher × Context)
  drop_block h b c =
      Option.map (λ c'. (looping, h, record c' { processed = Bitmap.set_bit c'.processed b.index }))
        (free_block c b.ptr)

  -- A popped block up to the push.
  pub hash_block : Hasher → ConsumeBlock → Context → Option (WorkerPc × Hasher × Context)
  unfolding compute_hash is_unchanged drop_block
  hash_block h b c =
      let c' = compute_hash b c in
      if is_unchanged h.mode b c'
      then drop_block h b c'
      else some (
        pushing b,
        h,
        record c' {
          counter = record (c'.counter) {
            bytes_to_write = add64 c'.counter.bytes_to_write b.length;
          };
        },
      )

  popped :
      Hasher
      → Context
      → Outcome (Option ConsumeBlock × BlockingQueue ConsumeBlock)
      → Option (WorkerPc × Hasher × Context)
  unfolding hash_block terminate
  popped h c blocks = some (popping, h, c)
  popped h c (returns (none, q)) = some (terminate succeed h (record c { hashing_queue = q }))
  popped h c (returns (some b, q)) = hash_block h b (record c { hashing_queue = q })

  forwarded :
      Hasher
      → ConsumeBlock
      → Context
      → Outcome (Bool × BlockingQueue ConsumeBlock)
      → Option (WorkerPc × Hasher × Context)
  forwarded h b c blocks = some (pushing b, h, c)
  forwarded h b c (returns (_, q)) = some (looping, h, record c { write_queue = q })

  -- One step of a worker thread; `none` is a crash in `BlockFree`.
  pub step : WorkerPc → Hasher → Context → Option (WorkerPc × Hasher × Context)
  unfolding popped forwarded terminate
  step starting h c =
      some (looping, record h { workers_running = (h.workers_running + 1) % 2 ^ 32 }, c)
  step looping h c =
      if h.task.abort_flag
      then some (terminate aborted h c)
      else popped h c (blocking_pop c.hashing_queue)
  step popping h c = popped h c (blocking_pop c.hashing_queue)
  step (pushing b) h c = forwarded h b c (blocking_push c.write_queue b)
  step stopped h c = some (stopped, h, c)

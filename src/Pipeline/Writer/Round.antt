-- ===== src/Pipeline/Writer/Round.antt =====
-- VolumeBlockWriter: what a round of the writer thread does with a block, whatever its target answers.
use volume_backup.Prelude.{
  ℕ, zero, suc, ◌+◌, ◌-◌, ◌<◌, ◌≡◌, refl, arith, Bool, true, false, not, ◌&&◌, ◌||◌, some, List, [],
  ◌∷◌, length, take, get_or, ltb, leb, ◌==◌, if◌then◌else◌, Bool-cases, inl, inr, length-take,
}
use volume_backup.Allocator.Table.{get_or-set_self}
use volume_backup.Bitmap
use volume_backup.Bitmap.Laws as Laws
use volume_backup.Session.{SharedConfig}
use volume_backup.Pipeline.{ConsumeBlock}
use volume_backup.Pipeline.Writer.{
  WriteAnswer, done, error, WriterState, block_bytes, write_bytes, need_to_write, with_part,
  write_block, handle_write_error, count_failure,
}
use volume_backup.Pipeline.Writer.Blocks.{write_bytes_lem}
use volume_backup.Pipeline.Writer.Branches.{
  Ready, released, completed, failing, failing-Ready, write_block-failed, write_block-skipped,
  with_data, with_part-Ready, write_block-done, write_block-error,
}

get_or-take : (n : ℕ) (xs : List ℕ) (k : ℕ) → k < n → get_or (take n xs) k 0 ≡ get_or xs k 0
get_or-take zero xs k h = absurd (omega arith)
get_or-take (suc n) [] k h = refl
get_or-take (suc n) (x ∷ xs) zero h = refl
get_or-take (suc n) (x ∷ xs) (suc k) h = get_or-take n xs k (omega arith)

abbrev is_done : WriteAnswer → Bool
is_done done = true
is_done (error _ _) = false

-- How many bytes of a block of a length the target takes.
abbrev pub taken : WriteAnswer → ℕ → ℕ
taken done len = len
taken (error n _) len = if ltb n len then n else len

-- How many bytes of the block are written in this round.
abbrev pub written_count : SharedConfig → WriteAnswer → ConsumeBlock → WriterState → ℕ
written_count config answer b s =
    if not s.writer.task.failed_flag && need_to_write config (block_bytes b s.context)
    then taken answer b.length
    else 0

-- What a round has done.
pub record Round (config : SharedConfig) (answer : WriteAnswer) (b : ConsumeBlock) (i : ℕ)
    (s s' : WriterState) : Type 0 where
  pub data_written :
      (x : ℕ)
      → s'.target x ≡ (
          if leb b.volume_offset x && ltb x (b.volume_offset + written_count config answer b s)
          then get_or (s.context.memory b.ptr) (x - b.volume_offset) 0
          else s.target x)
  pub written_bit :
      (j : ℕ)
      → Bitmap.test s'.context.written j ≡ (
          if not s.writer.task.failed_flag && b.index == j
          then true
          else Bitmap.test s.context.written j)
  pub processed_bit :
      (j : ℕ)
      → Bitmap.test s'.context.processed j ≡ (
          if not s.writer.task.failed_flag && b.index == j
          then true
          else Bitmap.test s.context.processed j)
  pub buffer_free : get_or s'.context.allocator.alloc_table i true ≡ false
  pub failed_now : s'.writer.task.failed_flag ≡ (
      s.writer.task.failed_flag
      || (need_to_write config (block_bytes b s.context) && not (is_done answer)))

block_bytes-length :
    {b : ConsumeBlock} {i : ℕ} {s : WriterState}
    → Ready b i s
    → length (block_bytes b s.context) ≡ b.length
block_bytes-length {b} {i} {s} r =
    omega (arith, length-take b.length (s.context.memory b.ptr), r.filled)

write_bytes-block :
    {b : ConsumeBlock} {i : ℕ} {s : WriterState} (x : ℕ)
    → Ready b i s
    → write_bytes s.target b.volume_offset (block_bytes b s.context) x ≡ (
        if leb b.volume_offset x && ltb x (b.volume_offset + b.length)
        then get_or (s.context.memory b.ptr) (x - b.volume_offset) 0
        else s.target x)
write_bytes-block {b} {i} {s} x r = ground (
  arith,
  write_bytes_lem s.target b.volume_offset (block_bytes b s.context) x,
  block_bytes-length r,
  get_or-take b.length (s.context.memory b.ptr) (x - b.volume_offset),
)

write_bytes-part :
    {b : ConsumeBlock} {i : ℕ} {s : WriterState} (n x : ℕ)
    → Ready b i s
    → write_bytes s.target b.volume_offset (take n (block_bytes b s.context)) x ≡ (
        if leb b.volume_offset x
          && ltb x (b.volume_offset + (if ltb n b.length then n else b.length))
        then get_or (s.context.memory b.ptr) (x - b.volume_offset) 0
        else s.target x)
write_bytes-part {b} {i} {s} n x r =
    let part = take n (block_bytes b s.context) in
    let size : length part ≡ (if ltb n b.length then n else b.length) =
      ground (arith, length-take n (block_bytes b s.context), block_bytes-length r) in
    ground (
      arith,
      size,
      write_bytes_lem s.target b.volume_offset part x,
      get_or-take n (block_bytes b s.context) (x - b.volume_offset),
      get_or-take b.length (s.context.memory b.ptr) (x - b.volume_offset),
    )

-- The bits and the buffer after a completed round.
completed_bits :
    (b : ConsumeBlock) (i j : ℕ) (s : WriterState)
    → Ready b i s
    → let c = (completed b i s).context in
      (Bitmap.test c.written j ≡ (if b.index == j then true else Bitmap.test s.context.written j))
      × (Bitmap.test c.processed j
          ≡ (if b.index == j then true else Bitmap.test s.context.processed j))
      × (get_or c.allocator.alloc_table i true ≡ false)
completed_bits b i j s r = (
  Laws.test-set_bit s.context.written b.index j r.written r.has_written,
  Laws.test-set_bit s.context.processed b.index j r.processed r.has_processed,
  get_or-set_self s.context.allocator.alloc_table i false true
      (omega (arith, r.pool.tabled, r.slot)),
)

Round-failed :
    (config : SharedConfig) (answer : WriteAnswer) (b : ConsumeBlock) (i : ℕ) (s : WriterState)
    → Ready b i s
    → s.writer.task.failed_flag ≡ true
    → Round config answer b i s (record s { context = count_failure (released i s.context) })
unfolding count_failure
Round-failed config answer b i s r f = record {
  data_written = λ x. ground arith;
  written_bit = λ j. ground arith;
  processed_bit = λ j. ground arith;
  buffer_free = (completed_bits b i 0 s r).2;
  failed_now = ground arith;
}

Round-skipped :
    (config : SharedConfig) (answer : WriteAnswer) (b : ConsumeBlock) (i : ℕ) (s : WriterState)
    → Ready b i s
    → s.writer.task.failed_flag ≡ false
    → need_to_write config (block_bytes b s.context) ≡ false
    → Round config answer b i s (completed b i s)
Round-skipped config answer b i s r f n = record {
  data_written = λ x. ground arith;
  written_bit = λ j. ground (arith, (completed_bits b i j s r).0);
  processed_bit = λ j. ground (arith, (completed_bits b i j s r).1);
  buffer_free = (completed_bits b i 0 s r).2;
  failed_now = ground arith;
}

Round-done :
    (config : SharedConfig) (b : ConsumeBlock) (i : ℕ) (s : WriterState)
    → Ready b i s
    → s.writer.task.failed_flag ≡ false
    → need_to_write config (block_bytes b s.context) ≡ true
    → Round config done b i s (completed b i (with_data b s))
Round-done config b i s r f n = record {
  data_written = λ x. ground (arith, write_bytes-block x r);
  written_bit = λ j. ground (arith, (completed_bits b i j s r).0);
  processed_bit = λ j. ground (arith, (completed_bits b i j s r).1);
  buffer_free = (completed_bits b i 0 s r).2;
  failed_now = ground arith;
}

Round-error :
    (config : SharedConfig) (n errno : ℕ) (b : ConsumeBlock) (i : ℕ) (s : WriterState)
    → Ready b i s
    → s.writer.task.failed_flag ≡ false
    → need_to_write config (block_bytes b s.context) ≡ true
    → Round config
        (error n errno)
        b
        i
        s
        (completed b i (failing config b i errno (with_part n b s)))
unfolding count_failure handle_write_error
Round-error config n errno b i s r f needed =
    let part = with_part n b s in
    let ready = with_part-Ready n b i s r in
    let bits =
      completed_bits b i 0 (failing config b i errno part)
        (failing-Ready config b i errno part ready) in
    record {
      data_written = λ x. ground (arith, write_bytes-part n x r);
      written_bit = λ j. ground (arith, (completed_bits b i j s r).0);
      processed_bit = λ j. ground (arith, (completed_bits b i j s r).1);
      buffer_free = bits.2;
      failed_now = ground arith;
    }

-- The round ends, and in such a state.
abbrev Rounds : SharedConfig → WriteAnswer → ConsumeBlock → ℕ → WriterState → Type 0
Rounds config answer b i s =
    (s' : WriterState) × (write_block config answer b s ≡ some s') × Round config answer b i s s'

write_block-needed :
    (config : SharedConfig) (answer : WriteAnswer) (b : ConsumeBlock) (i : ℕ) (s : WriterState)
    → Ready b i s
    → s.writer.task.failed_flag ≡ false
    → need_to_write config (block_bytes b s.context) ≡ true
    → Rounds config answer b i s
write_block-needed config done b i s r f n = (
  completed b i (with_data b s),
  write_block-done config b i s r f n,
  Round-done config b i s r f n,
)
write_block-needed config (error n errno) b i s r f needed = (
  completed b i (failing config b i errno (with_part n b s)),
  write_block-error config n errno b i s r f needed,
  Round-error config n errno b i s r f needed,
)

-- A round of the writer on a block that stands in its buffer never crashes, and on each of its
-- branches does the following. If the writer had failed, or the block is skipped as empty, no byte of
-- the target changes; else the bytes that the target takes, all of the block or, with an error, a
-- first part of it, become those of the buffer, and no other byte changes. The buffer is given back,
-- and an error makes the writer a failed one. The written and processed bits of the block are set
-- unless the writer had failed BEFORE this round, so also if the write of this block ends with an
-- error; no other bit changes.
pub write_block_lem :
    (config : SharedConfig) (answer : WriteAnswer) (b : ConsumeBlock) (i : ℕ) (s : WriterState)
    → Ready b i s
    → (s' : WriterState) × (write_block config answer b s ≡ some s') × Round config answer b i s s'
write_block_lem config answer b i s r = elim (Bool-cases s.writer.task.failed_flag) [
  | inl f ↦ (
    record s { context = count_failure (released i s.context) },
    write_block-failed config answer b i s r f,
    Round-failed config answer b i s r f,
  )
  | inr f ↦ elim (Bool-cases (need_to_write config (block_bytes b s.context))) [
    | inl n ↦ write_block-needed config answer b i s r f n
    | inr n ↦ (
      completed b i s,
      write_block-skipped config answer b i s r f n,
      Round-skipped config answer b i s r f n,
    )
  ]
]

-- ===== src/Pipeline/Together/Writing.antt =====
-- A session without hashers: what a step of the writer thread does.
use volume_backup.Prelude.{
  ℕ, ◌≡◌, refl, true, false, Option, none, some, List, [], ◌∷◌, if◌then◌else◌, arith, ◌⊎◌, inl, inr,
  Bool-cases, ◌∙◌, subst,
}
use volume_backup.Queue.{blocking_pop, pop_from}
use volume_backup.Allocator.{Allocator, Freed, freed, bad_address, undefined, block_free}
use volume_backup.Session.{SharedConfig}
use volume_backup.Task.{TaskStatus, initial, running, succeed, aborting, failed, aborted, add64}
use volume_backup.Pipeline.{ConsumeBlock, Context, free_block, freed_context}
use volume_backup.Pipeline.Writer.{
  WriterPc, looping, popping, stopped, at, with_part, WriterState, WriteAnswer, done, error,
  write_bytes, block_bytes, complete_block, fail_block, discard_block, write_block, count_failure,
  handle_write_error, need_to_write, final_status, stop, popped, step,
}

-- The writer's step, where empty blocks are written too.
pub data Moves (st st' : WriterState) : Type 0 where
  rests :
      st'.context ≡ st.context
      → st'.target ≡ st.target
      → st'.writer.task ≡ st.writer.task
      → Moves st st'
  ends :
      st'.context ≡ st.context
      → st'.target ≡ st.target
      → st'.writer.task.failed_flag ≡ st.writer.task.failed_flag
      → (st'.writer.task.status ≡ succeed
          → (st.context.write_queue.queue ≡ [])
            × (st.context.write_queue.finished ≡ true)
            × (st.context.counter.blockes_write_failed ≡ 0))
      → Moves st st'
  writes :
      {a : Allocator} (b : ConsumeBlock) (rest : List ConsumeBlock)
      → st.context.write_queue.queue ≡ b ∷ rest
      → block_free st.context.allocator b.ptr ≡ freed a
      → st'.context.allocator ≡ a
      → st'.context.write_queue.queue ≡ rest
      → st'.context.write_queue.finished ≡ st.context.write_queue.finished
      → st'.context.memory ≡ st.context.memory
      → st'.context.counter.blockes_write_failed ≡ st.context.counter.blockes_write_failed
      → st'.writer.task ≡ st.writer.task
      → st'.target ≡ write_bytes st.target b.volume_offset (block_bytes b st.context)
      → Moves st st'
  loses :
      (b : ConsumeBlock) (rest : List ConsumeBlock)
      → st.context.write_queue.queue ≡ b ∷ rest
      → st'.context.write_queue.queue ≡ rest
      → st'.context.counter.blockes_write_failed ≡ add64 st.context.counter.blockes_write_failed 1
      → st'.writer.task.status ≡ st.writer.task.status
      → Moves st st'

-- A call of `BlockFree` that has come back.
freed_some :
    (c c' : Context) (o : Freed)
    → freed_context c o ≡ some c'
    → (a : Allocator) × (o ≡ freed a) × (c' ≡ record c { allocator = a })
freed_some c c' (freed a) e = (a, refl, cc e)
freed_some c c' bad_address e = cc
freed_some c c' undefined e = cc

free-some :
    (c c' : Context) (ptr : ℕ)
    → free_block c ptr ≡ some c'
    → (a : Allocator) × (block_free c.allocator ptr ≡ freed a) × (c' ≡ record c { allocator = a })
unfolding free_block
free-some c c' ptr e = freed_some c c' (block_free c.allocator ptr) e

-- The value under a test of what `BlockFree` returned.
bound :
    {A : Type 0} (o : Option Context) (f : Context → A) (x : A)
    → (elim o [ none ↦ none | some c ↦ some (f c) ]) ≡ some x
    → (c : Context) × (o ≡ some c) × (f c ≡ x)
bound none f x e = cc
bound (some c) f x e = (c, refl, cc e)

complete-some :
    (b : ConsumeBlock) (st st' : WriterState)
    → complete_block b st ≡ some st'
    → (a : Allocator) × (block_free st.context.allocator b.ptr ≡ freed a)
      × (st'.context.allocator ≡ a)
      × (st'.context.write_queue ≡ st.context.write_queue)
      × (st'.context.memory ≡ st.context.memory)
      × (st'.context.counter.blockes_write_failed ≡ st.context.counter.blockes_write_failed)
      × (st'.writer.task ≡ st.writer.task)
      × (st'.target ≡ st.target)
unfolding complete_block
complete-some b st st' e =
    let (c, o, k) = bound _ _ st' e in
    let (a, f, g) = free-some _ c b.ptr o in
    (a, f, cc (k, g), cc (k, g), cc (k, g), cc (k, g), cc k, cc k)

-- A block that is lost: the count goes up, and the queue and the status stay.
abbrev Lost : WriterState → WriterState → Type 0
Lost st st' =
    (st'.context.write_queue ≡ st.context.write_queue)
    × (st'.context.counter.blockes_write_failed ≡ add64 st.context.counter.blockes_write_failed 1)
    × (st'.writer.task.status ≡ st.writer.task.status)

fail-Lost :
    (b : ConsumeBlock) (errno : ℕ) (st st' : WriterState)
    → fail_block b errno st ≡ some st'
    → Lost st st'
unfolding fail_block count_failure handle_write_error
fail-Lost b errno st st' e =
    let (c, o, k) = bound _ _ st' e in
    let (a, f, g) = free-some _ c b.ptr o in (cc (k, g), cc (k, g), cc k)

discard-Lost :
    (b : ConsumeBlock) (st st' : WriterState) → discard_block b st ≡ some st' → Lost st st'
unfolding discard_block count_failure
discard-Lost b st st' e =
    let (c, o, k) = bound _ _ st' e in
    let (a, f, g) = free-some _ c b.ptr o in (cc (k, g), cc (k, g), cc k)

-- A failed write, and the rest of the round.
failed-Lost :
    (b : ConsumeBlock) (st st' : WriterState) (o : Option WriterState)
    → ((st1 : WriterState) → o ≡ some st1 → Lost st st1)
    → (elim o [ none ↦ none | some st1 ↦ complete_block b st1 ]) ≡ some st'
    → Lost st st'
failed-Lost b st st' none h e = cc
failed-Lost b st st' (some st1) h e =
    let (q, n, k) = h st1 refl in
    let (a, f, al, q', m, n', w, t) = complete-some b st1 st' e in
    (cc (q, q'), cc (n, n'), cc (k, w))

-- A popped block: it is written, or lost.
abbrev Written : ConsumeBlock → WriterState → WriterState → Type 0
Written b st st' =
    (a : Allocator) × (block_free st.context.allocator b.ptr ≡ freed a)
    × (st'.context.allocator ≡ a)
    × (st'.context.write_queue ≡ st.context.write_queue)
    × (st'.context.memory ≡ st.context.memory)
    × (st'.context.counter.blockes_write_failed ≡ st.context.counter.blockes_write_failed)
    × (st'.writer.task ≡ st.writer.task)
    × (st'.target ≡ write_bytes st.target b.volume_offset (block_bytes b st.context))

always : (s : SharedConfig) (xs : List ℕ) → s.skip_empty_block ≡ false → need_to_write s xs ≡ true
unfolding need_to_write
always s xs plain = rw plain refl

write_cases :
    (s : SharedConfig) (answer : WriteAnswer) (b : ConsumeBlock) (st st' : WriterState)
    → s.skip_empty_block ≡ false
    → write_block s answer b st ≡ some st'
    → Written b st st' ⊎ Lost st st'
unfolding write_block
write_cases s answer b st st' plain e = elim (Bool-cases st.writer.task.failed_flag) [
  | inl f ↦ inr (discard-Lost b st st' ((rw f refl) ∙ e))
  | inr f ↦ answered answer (rw (f, always s (block_bytes b st.context) plain) refl ∙ e)
]
  where
    answered :
        (answer : WriteAnswer)
        → (elim answer [
          | done ↦ complete_block b (record st {
            target = write_bytes st.target b.volume_offset (block_bytes b st.context);
          })
          | error n errno ↦ elim (fail_block b errno (with_part n b st)) [
            | none ↦ none
            | some s' ↦ complete_block b s'
          ]
        ])
          ≡ some st'
        → Written b st st' ⊎ Lost st st'
    answered done e = inl (complete-some b _ st' e)
    answered (error n errno) e = inr (
        failed-Lost b (with_part n b st) st' (fail_block b errno (with_part n b st))
          (λ st1. fail-Lost b errno (with_part n b st) st1) e)

some_inj : {A : Type 0} {x y : A} → Option.some x ≡ some y → x ≡ y
some_inj e = cc

-- The status after the last round is a success only if no block was lost.
final-succeed :
    (status : TaskStatus) (c : Context)
    → final_status status c ≡ succeed
    → (status ≡ succeed) × (c.counter.blockes_write_failed ≡ 0)
final-succeed succeed c e = (refl, ground arith)
final-succeed initial c e = cc
final-succeed running c e = cc
final-succeed aborting c e = cc
final-succeed aborted c e = cc
final-succeed failed c e = cc

-- The end of the thread, after a pop that found the queue drained, or on an abort.
stop-Moves :
    (status : TaskStatus) (st st' : WriterState)
    → (status ≡ succeed
        → (st.context.write_queue.queue ≡ []) × (st.context.write_queue.finished ≡ true))
    → stop status st ≡ st'
    → Moves st st'
unfolding stop
stop-Moves status st st' h e = subst (Moves st) e (
    ends refl refl refl
      (λ k. let (p, n) = final-succeed status st.context k in ((h p).0, (h p).1, n)))

-- A wait for a block.
waits-Moves : (st st' : WriterState) → at popping st ≡ st' → Moves st st'
waits-Moves st st' e = subst (Moves st) e (rests refl refl refl)

popped-Moves :
    (s : SharedConfig) (answer : WriteAnswer) (st st' : WriterState) (bs : List ConsumeBlock)
    → s.skip_empty_block ≡ false
    → st.context.write_queue.queue ≡ bs
    → popped s answer st (pop_from st.context.write_queue bs) ≡ some st'
    → Moves st st'
unfolding popped pop_from
popped-Moves s answer st st' [] plain q e = elim (Bool-cases st.context.write_queue.finished) [
  | inl f ↦ stop-Moves succeed st st' (λ _. (q, f)) (some_inj (rw f refl ∙ e))
  | inr f ↦ waits-Moves st st' (some_inj (rw f refl ∙ e))
]
popped-Moves s answer st st' (b ∷ rest) plain q e = elim (write_cases s answer b _ st' plain e) [
  | inl (a, f, al, q', m, n, w, t) ↦ writes b rest q f al (cc q') (cc q') m n w t
  | inr (q', n, k) ↦ loses b rest q (cc q') n k
]

from_pc :
    (s : SharedConfig) (answer : WriteAnswer) (st st' : WriterState) (pc : WriterPc)
    → s.skip_empty_block ≡ false
    → (elim pc [
      | stopped ↦ some st
      | popping ↦ popped s answer st (blocking_pop st.context.write_queue)
      | looping ↦
          if st.writer.task.abort_flag
          then some (stop aborted st)
          else popped s answer st (blocking_pop st.context.write_queue)
    ])
      ≡ some st'
    → Moves st st'
unfolding blocking_pop
from_pc s answer st st' stopped plain e =
    let same = some_inj e in rests (cc same) (cc same) (cc same)
from_pc s answer st st' popping plain e = popped-Moves s answer st st' _ plain refl e
from_pc s answer st st' looping plain e = elim (Bool-cases st.writer.task.abort_flag) [
  | inl f ↦ stop-Moves aborted st st' (λ k. cc) (some_inj (rw f refl ∙ e))
  | inr f ↦ popped-Moves s answer st st' _ plain refl (rw f refl ∙ e)
]

-- Every step of the writer thread leaves it as it is, ends it, writes the oldest block and gives back
-- its buffer, or loses that block; the end is a success only if the queue is drained and finished,
-- and no block was lost.
pub step-Moves :
    (s : SharedConfig) (answer : WriteAnswer) (st st' : WriterState)
    → s.skip_empty_block ≡ false
    → step s answer st ≡ some st'
    → Moves st st'
unfolding step
step-Moves s answer st st' plain e = from_pc s answer st st' st.writer.pc plain e

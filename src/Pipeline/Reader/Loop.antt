-- ===== src/Pipeline/Reader/Loop.antt =====
-- VolumeBlockReader: one step of the reader thread, on all its branches.
use volume_backup.Prelude.{
  ℕ, ◌≤◌, ◌<◌, ◌≡◌, refl, sym, ap, ◌∙◌, inl, inr, ◌⊎◌, arith, Bool, true, false, Option, none, some,
  ltb, if◌then◌else◌, Bool-cases,
}
use volume_backup.Queue.{BlockingQueue, Outcome, blocks, returns, blocking_push, finish}
use volume_backup.Bitmap
use volume_backup.Allocator.{block_alloc}
use volume_backup.Session.{SharedConfig}
use volume_backup.Task.{StatefulTask, TaskStatus, succeed, failed, aborted, add64}
use volume_backup.Pipeline.{ConsumeBlock, Context}
use volume_backup.Pipeline.Reader.{
  ReaderPc, looping, fetching, pushing, stopped, Reader, ReadAnswer, bytes, error, read_block,
  fetch_and_read, round, push_forward, skip_reading_block, stop, step, consume_block,
  handle_read_error, pushed,
}

-- The queue behind the reader.
abbrev pub next_queue : SharedConfig → Context → BlockingQueue ConsumeBlock
next_queue s c = if s.hasher_enabled then c.hashing_queue else c.write_queue

-- The reader is about to fetch a buffer for a block: it has just found that there is one, or waits.
abbrev pub Fetches : Reader → Type 0
Fetches r = (r.pc ≡ fetching) ⊎ ((r.pc ≡ looping) × (r.current_index ≤ r.max_index))

-- What one step may do: leave the reader as it is, wait for a buffer, pass over a block whose bit is set, read a block
-- into a buffer, pass that block on, or end, where the queue behind the reader is finished, and the
-- end is a success only past the last block.
pub data Moves (s : SharedConfig) (r : Reader) (c : Context) : Reader × Context → Type 0 where
  waits : Moves s r c (r, c)
  fetches : Fetches r → Moves s r c (record r { pc = fetching }, c)
  skips :
      r.pc ≡ looping
      → r.current_index ≤ r.max_index
      → s.checkpoint_enabled ≡ true
      → Bitmap.test c.processed r.current_index ≡ true
      → Moves s r c (record r { current_index = add64 r.current_index 1 }, c)
  reads :
      {c' : Context} (p : ℕ)
      → Fetches r
      → next_queue s c' ≡ next_queue s c
      → Moves s r c (record r { pc = pushing (consume_block s p r.current_index) }, c')
  passes :
      {c' : Context} (b : ConsumeBlock) (accepted : Bool)
      → r.pc ≡ pushing b
      → blocking_push (next_queue s c) b ≡ returns (accepted, next_queue s c')
      → Moves s r c (record r { current_index = add64 r.current_index 1; pc = looping }, c')
  ends :
      {c' : Context} (t : StatefulTask) (status : TaskStatus)
      → (status ≡ succeed → r.max_index < r.current_index)
      → next_queue s c' ≡ finish (next_queue s c)
      → Moves s r c (record r { task = record t { status = status }; pc = stopped }, c')

stop-Moves :
    (s : SharedConfig) (status : TaskStatus) (t : StatefulTask) (r : Reader) (c d : Context)
    → (status ≡ succeed → r.max_index < r.current_index)
    → next_queue s d ≡ next_queue s c
    → Moves s r c (stop s status (record r { task = t }) d)
unfolding stop
stop-Moves s status t r c d h q =
    ends t status h
      (elim (Bool-cases s.hasher_enabled) [ inl e ↦ ground arith | inr e ↦ ground arith ])

read_block-Moves :
    (s : SharedConfig) (p : ℕ) (answer : ReadAnswer) (r : Reader) (c d : Context)
    → Fetches r
    → next_queue s d ≡ next_queue s c
    → Moves s r c (read_block s p answer r d)
unfolding read_block
read_block-Moves s p (error errno) r c d l q =
    stop-Moves s failed (handle_read_error r.source_type errno r.task) r c d (λ e. cc) q
read_block-Moves s p (bytes xs) r c d l q = reads p l (ground arith)

-- A test, and a buffer that may be missing.
if-Moves :
    {s : SharedConfig} {r : Reader} {c : Context} {x y : Reader × Context} (b : Bool)
    → (b ≡ true → Moves s r c x)
    → (b ≡ false → Moves s r c y)
    → Moves s r c (if b then x else y)
if-Moves true f g = f refl
if-Moves false f g = g refl

option-Moves :
    {s : SharedConfig} {r : Reader} {c : Context} {x : Reader × Context} {y : ℕ → Reader × Context}
    (o : Option ℕ)
    → Moves s r c x
    → ((p : ℕ) → Moves s r c (y p))
    → Moves s r c (elim o [ none ↦ x | some p ↦ y p ])
option-Moves none f g = f
option-Moves (some p) f g = g p

fetch-Moves :
    (s : SharedConfig) (timeout : Bool) (answer : ReadAnswer) (r : Reader) (c : Context)
    → Fetches r
    → Moves s r c (fetch_and_read s timeout answer r c)
unfolding fetch_and_read read_block stop
fetch-Moves s timeout answer r c l =
    let (buffer, allocator) = block_alloc c.allocator in
    option-Moves buffer
      (if-Moves timeout (λ _. stop-Moves s failed r.task r c c (λ e. cc) refl) (λ _. fetches l))
      (λ p. read_block-Moves s p answer r c (record c { allocator = allocator }) l refl)

round-Moves :
    (s : SharedConfig) (timeout : Bool) (answer : ReadAnswer) (r : Reader) (c : Context)
    → r.pc ≡ looping
    → Moves s r c (round s timeout answer r c)
unfolding round fetch_and_read read_block skip_reading_block stop
round-Moves s timeout answer r c l =
    if-Moves (ltb r.max_index r.current_index)
      (λ e. stop-Moves s succeed r.task r c c (λ _. ground arith) refl)
      (λ e.
        if-Moves r.task.failed_flag (λ _. stop-Moves s failed r.task r c c (λ e. cc) refl)
          (λ _.
            if-Moves r.task.abort_flag (λ _. stop-Moves s aborted r.task r c c (λ e. cc) refl)
              (λ _.
                if-Moves r.pause_flag (λ _. waits)
                  (λ _.
                    if-Moves (skip_reading_block s r c)
                      (λ k. skips l (ground arith) (ground arith) (ground arith))
                      (λ _. fetch-Moves s timeout answer r c (inr (l, ground arith)))))))

pushed-Moves :
    {s : SharedConfig} {b : ConsumeBlock} {r : Reader} {c : Context}
    (o : Outcome (Bool × BlockingQueue ConsumeBlock)) (f : BlockingQueue ConsumeBlock → Context)
    → r.pc ≡ pushing b
    → blocking_push (next_queue s c) b ≡ o
    → ((q : BlockingQueue ConsumeBlock) → next_queue s (f q) ≡ q)
    → Moves s r c (pushed r c o f)
pushed-Moves blocks f e h k = waits
pushed-Moves {b} (returns (accepted, q)) f e h k =
    passes b accepted e (h ∙ ap (λ z. returns (accepted, z)) (sym (k q)))

push-Moves :
    (s : SharedConfig) (b : ConsumeBlock) (r : Reader) (c : Context)
    → r.pc ≡ pushing b
    → Moves s r c (push_forward s b r c)
unfolding push_forward
push-Moves s b r c e =
    if-Moves s.hasher_enabled
      (λ h. pushed-Moves (blocking_push c.hashing_queue b) _ e (rw h refl) (λ q. rw h refl))
      (λ h. pushed-Moves (blocking_push c.write_queue b) _ e (rw h refl) (λ q. rw h refl))

step_from :
    (s : SharedConfig) (timeout : Bool) (answer : ReadAnswer) (r : Reader) (c : Context)
    (pc : ReaderPc)
    → r.pc ≡ pc
    → Moves s r c (elim pc [
      | looping ↦ round s timeout answer r c
      | fetching ↦ fetch_and_read s timeout answer r c
      | pushing b ↦ push_forward s b r c
      | stopped ↦ (r, c)
    ])
step_from s timeout answer r c looping e = round-Moves s timeout answer r c e
step_from s timeout answer r c fetching e = fetch-Moves s timeout answer r c (inl e)
step_from s timeout answer r c (pushing b) e = push-Moves s b r c e
step_from s timeout answer r c stopped e = waits

-- Every step of the reader thread is one of these: it leaves the reader as it is, waits for a buffer,
-- passes over a block
-- whose processed bit is set under a checkpoint, reads the block of its index into a buffer, puts
-- the block that it holds into the queue behind it, or ends; then that queue is finished, and the
-- end is a success only when the index is past the last block.
pub step-Moves :
    (s : SharedConfig) (timeout : Bool) (answer : ReadAnswer) (r : Reader) (c : Context)
    → Moves s r c (step s timeout answer r c)
unfolding step round push_forward fetch_and_read read_block stop
step-Moves s timeout answer r c = step_from s timeout answer r c r.pc refl

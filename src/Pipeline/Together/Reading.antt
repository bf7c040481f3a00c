-- ===== src/Pipeline/Together/Reading.antt =====
-- A session without hashers: what a step of the reader thread does to the threads' invariant.
use volume_backup.Prelude.{
  ℕ, ◌<◌, ◌≡◌, ◌≢◌, refl, ap, ◌⊎◌, inl, inr, Bool, true, false, Option, none, some, List, [], ◌∷◌,
  ◌++◌, length, ltb, if◌then◌else◌, arith,
}
use volume_backup.Queue.{
  BlockingQueue, Outcome, blocks, returns, blocking_push, resume_push, finish,
}
use volume_backup.Allocator.{Allocator, block_alloc}
use volume_backup.Session.{SharedConfig}
use volume_backup.Task.{StatefulTask, succeed, add64}
use volume_backup.Task.Statistics.{SessionCounter}
use volume_backup.Pipeline.{ConsumeBlock, Context, stored}
use volume_backup.Pipeline.Writer.{Target}
use volume_backup.Pipeline.Reader.{
  ReaderPc, looping, fetching, pushing, stopped, Reader, ReadAnswer, bytes, error, read_block,
  fetch_and_read, round, push_forward, skip_reading_block, stop, step, consume_block, pushed,
}
use volume_backup.Pipeline.Reader.Loop.{Fetches}
use volume_backup.Pipeline.Together.{Honest}

-- The reader's step, where there are no hashers and no checkpoint. Only the count of the blocks that
-- were not written matters of the counter.
pub data Moves (s : SharedConfig) (source : Target) (r : Reader) (c : Context)
    : Reader × Context → Type 0 where
  waits : Moves s source r c (r, c)
  fetches : Fetches r → Moves s source r c (record r { pc = fetching }, c)
  takes :
      {counter : SessionCounter} {a : Allocator} (p : ℕ) (xs : List ℕ)
      → Fetches r
      → block_alloc c.allocator ≡ (some p, a)
      → Honest s source r (bytes xs)
      → counter.blockes_write_failed ≡ c.counter.blockes_write_failed
      → Moves s source r c (
        record r { pc = pushing (consume_block s p r.current_index) },
        record c { allocator = a; counter = counter; memory = stored p xs c.memory },
      )
  passes :
      {counter : SessionCounter} {q : BlockingQueue ConsumeBlock} (b : ConsumeBlock)
      → r.pc ≡ pushing b
      → (q.queue ≡ c.write_queue.queue ++ (b ∷ []))
        ⊎ ((c.write_queue.finished ≡ true) × (q ≡ c.write_queue))
      → q.finished ≡ c.write_queue.finished
      → counter.blockes_write_failed ≡ c.counter.blockes_write_failed
      → Moves s source r c (
        record r { current_index = add64 r.current_index 1; pc = looping },
        record c { write_queue = q; counter = counter },
      )
  succeeds :
      r.pc ≡ looping
      → r.max_index < r.current_index
      → Moves s source r c (
        record r { task = record (r.task) { status = succeed }; pc = stopped },
        record c { write_queue = finish c.write_queue },
      )
  fails :
      {c' : Context} (t : StatefulTask)
      → t.status ≢ succeed
      → Moves s source r c (record r { task = t; pc = stopped }, c')

if-Moves :
    {s : SharedConfig} {source : Target} {r : Reader} {c : Context} {x y : Reader × Context}
    (b : Bool)
    → (b ≡ true → Moves s source r c x)
    → (b ≡ false → Moves s source r c y)
    → Moves s source r c (if b then x else y)
if-Moves true f g = f refl
if-Moves false f g = g refl

buffer-Moves :
    {s : SharedConfig} {source : Target} {r : Reader} {c : Context} {x : Reader × Context}
    {y : ℕ → Reader × Context} (o : Option ℕ)
    → Moves s source r c x
    → ((p : ℕ) → o ≡ some p → Moves s source r c (y p))
    → Moves s source r c (elim o [ none ↦ x | some p ↦ y p ])
buffer-Moves none f g = f
buffer-Moves (some p) f g = g p refl

read-Moves :
    (s : SharedConfig) (source : Target) (p : ℕ) (a : Allocator) (answer : ReadAnswer) (r : Reader)
    (c : Context)
    → Fetches r
    → block_alloc c.allocator ≡ (some p, a)
    → Honest s source r answer
    → Moves s source r c (read_block s p answer r (record c { allocator = a }))
unfolding read_block stop
read-Moves s source p a (error errno) r c l e k = fails _ (λ d. cc)
read-Moves s source p a (bytes xs) r c l e k = takes p xs l e k refl

fetch-Moves :
    (s : SharedConfig) (source : Target) (timeout : Bool) (answer : ReadAnswer) (r : Reader)
    (c : Context)
    → Fetches r
    → Honest s source r answer
    → Moves s source r c (fetch_and_read s timeout answer r c)
unfolding fetch_and_read stop
fetch-Moves s source timeout answer r c l k =
    buffer-Moves (block_alloc c.allocator).0
      (if-Moves timeout (λ _. fails _ (λ d. cc)) (λ _. fetches l))
      (λ p e.
        read-Moves s source p (block_alloc c.allocator).1 answer r c l
          (ap (λ o. (o, (block_alloc c.allocator).1)) e) k)

round-Moves :
    (s : SharedConfig) (source : Target) (timeout : Bool) (answer : ReadAnswer) (r : Reader)
    (c : Context)
    → s.hasher_enabled ≡ false
    → s.checkpoint_enabled ≡ false
    → r.pc ≡ looping
    → Honest s source r answer
    → Moves s source r c (round s timeout answer r c)
unfolding round stop
round-Moves s source timeout answer r c plain free l k =
    if-Moves (ltb r.max_index r.current_index) (λ e. rw plain (succeeds l (ground arith)))
      (λ e.
        if-Moves r.task.failed_flag (λ _. fails _ (λ d. cc))
          (λ _.
            if-Moves r.task.abort_flag (λ _. fails _ (λ d. cc))
              (λ _.
                if-Moves r.pause_flag (λ _. waits)
                  (λ _.
                    if-Moves (skip_reading_block s r c)
                      (λ d. absurd (unfold skip_reading_block in ground arith))
                      (λ _. fetch-Moves s source timeout answer r c (inr (l, ground arith)) k)))))

-- What a push returns.
abbrev Pushed :
    ConsumeBlock → BlockingQueue ConsumeBlock → Outcome (Bool × BlockingQueue ConsumeBlock) → Type 0
Pushed b q blocks = Unit {0}
Pushed b q (returns (_, q')) =
    ((q'.queue ≡ q.queue ++ (b ∷ [])) ⊎ ((q.finished ≡ true) × (q' ≡ q)))
    × (q'.finished ≡ q.finished)

if-Pushed :
    (b : ConsumeBlock) (q : BlockingQueue ConsumeBlock)
    (x y : Outcome (Bool × BlockingQueue ConsumeBlock)) (t : Bool)
    → (t ≡ true → Pushed b q x)
    → (t ≡ false → Pushed b q y)
    → Pushed b q (if t then x else y)
if-Pushed b q x y true f g = f refl
if-Pushed b q x y false f g = g refl

push-queue : (q : BlockingQueue ConsumeBlock) (b : ConsumeBlock) → Pushed b q (blocking_push q b)
unfolding blocking_push resume_push
push-queue q b =
    if-Pushed b q _ _ q.finished (λ e. (inr (e, refl), refl))
      (λ _. if-Pushed b q _ _ (ltb (length q.queue) q.max_size) (λ _. (inl refl, refl)) (λ _. tt))

pushed-Moves :
    {s : SharedConfig} {source : Target} {r : Reader} {c : Context} (counter : SessionCounter)
    (b : ConsumeBlock) (o : Outcome (Bool × BlockingQueue ConsumeBlock))
    → r.pc ≡ pushing b
    → Pushed b c.write_queue o
    → counter.blockes_write_failed ≡ c.counter.blockes_write_failed
    → Moves s source r c (pushed r c o (λ q. record c { write_queue = q; counter = counter }))
pushed-Moves counter b blocks e h k = waits
pushed-Moves counter b (returns (_, q)) e h k = passes b e h.0 h.1 k

push-Moves :
    (s : SharedConfig) (source : Target) (b : ConsumeBlock) (r : Reader) (c : Context)
    → s.hasher_enabled ≡ false
    → r.pc ≡ pushing b
    → Moves s source r c (push_forward s b r c)
unfolding push_forward
push-Moves s source b r c plain e =
    rw plain (pushed-Moves _ b (blocking_push c.write_queue b) e (push-queue c.write_queue b) refl)

step_from :
    (s : SharedConfig) (source : Target) (timeout : Bool) (answer : ReadAnswer) (r : Reader)
    (c : Context) (pc : ReaderPc)
    → s.hasher_enabled ≡ false
    → s.checkpoint_enabled ≡ false
    → Honest s source r answer
    → r.pc ≡ pc
    → Moves s source r c (elim pc [
      | looping ↦ round s timeout answer r c
      | fetching ↦ fetch_and_read s timeout answer r c
      | pushing b ↦ push_forward s b r c
      | stopped ↦ (r, c)
    ])
step_from s source timeout answer r c looping plain free k e =
    round-Moves s source timeout answer r c plain free e k
step_from s source timeout answer r c fetching plain free k e =
    fetch-Moves s source timeout answer r c (inl e) k
step_from s source timeout answer r c (pushing b) plain free k e = push-Moves s source b r c plain e
step_from s source timeout answer r c stopped plain free k e = waits

pub step-Moves :
    (s : SharedConfig) (source : Target) (timeout : Bool) (answer : ReadAnswer) (r : Reader)
    (c : Context)
    → s.hasher_enabled ≡ false
    → s.checkpoint_enabled ≡ false
    → Honest s source r answer
    → Moves s source r c (step s timeout answer r c)
unfolding step
step-Moves s source timeout answer r c plain free k =
    step_from s source timeout answer r c r.pc plain free k refl

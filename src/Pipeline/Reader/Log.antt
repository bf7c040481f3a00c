-- ===== src/Pipeline/Reader/Log.antt =====
-- VolumeBlockReader: which blocks the reader thread has passed on or skipped, whatever the other
-- threads do to the shared context between its steps.
use volume_backup.Prelude.{
  ℕ, zero, suc, ◌+◌, ◌*◌, ◌^◌, ◌≤◌, ◌<◌, ◌≡◌, refl, sym, ap, ◌∙◌, subst, arith, Bool, true, false,
  List, [], ◌∷◌, length, ◌==◌, ◌++◌, ltb, Bool-cases, inl, inr, if◌then◌else◌,
}
use volume_backup.Queue.{BlockingQueue, returns, blocking_push, resume_push}
use volume_backup.Session.{SharedConfig, total_blocks}
use volume_backup.Session.Blocks.{total_blocks_bounds, total_blocks-le}
use volume_backup.Task.{succeed, running, add64}
use volume_backup.Pipeline.{ConsumeBlock, Context}
use volume_backup.Pipeline.Reader.{
  ReaderPc, looping, fetching, pushing, stopped, Reader, ReadAnswer, consume_block, max_block_index,
  step,
}
use volume_backup.Pipeline.Reader.Blocks.{IsSession, Range, consume_block-Range}
use volume_backup.Pipeline.Reader.Loop.{
  Moves, Fetches, next_queue, waits, fetches, skips, reads, passes, ends, step-Moves,
}

-- A block that was pushed, with the queue behind the reader before and after it, or the index of one
-- that was passed over.
pub data Event : Type 0 where
  passed : ConsumeBlock → BlockingQueue ConsumeBlock → BlockingQueue ConsumeBlock → Event
  skipped : ℕ → Event

abbrev pub entry :
    BlockingQueue ConsumeBlock → BlockingQueue ConsumeBlock → ℕ → List Event → ReaderPc → List Event
entry q q' i log (pushing b) = passed b q q' ∷ log
entry q q' i log _ = skipped i ∷ log

-- What a step adds to the log, which holds the newest event first, when the index has moved on: a push
-- that did not wait, or a skip.
abbrev pub logged : SharedConfig → Reader → Context → Reader × Context → List Event → List Event
logged s r c x log =
    if x.0.current_index == r.current_index
    then log
    else entry (next_queue s c) (next_queue s (x.1)) r.current_index log r.pc

-- The states of a reader thread: the context is any that the other threads may leave.
pub data Run (s : SharedConfig) (r0 : Reader) : Reader → List Event → Type 0 where
  starts : Run s r0 r0 []
  steps :
      {r : Reader} {x : Reader × Context} {log : List Event} (timeout : Bool) (answer : ReadAnswer)
      (c : Context)
      → Run s r0 r log
      → step s timeout answer r c ≡ x
      → Run s r0 (x.0) (logged s r c x log)

abbrev pub event_index : Event → ℕ
event_index (passed b q q') = b.index
event_index (skipped i) = i

-- A passed block has the range of its index, and stands at the end of the queue after the push, if the
-- queue was not finished; nothing else of the queue has changed. Skips need a checkpoint.
abbrev pub IsSound : SharedConfig → Event → Type 0
IsSound s (passed b q q') =
    Range s b.index b.volume_offset b.length
    × (q.finished ≡ false → q' ≡ record q { queue = q.queue ++ (b ∷ []) })
IsSound s (skipped i) = s.checkpoint_enabled ≡ true

-- The events carry the indices `start`, `start + 1`, ..., the newest last, and are sound.
abbrev pub Consecutive : SharedConfig → ℕ → List Event → Type 0
Consecutive s start [] = Unit {0}
Consecutive s start (e ∷ log) =
    (event_index e ≡ start + length log) × IsSound s e × Consecutive s start log

-- The block that the reader is about to push.
abbrev Holds : SharedConfig → Reader → ReaderPc → Type 0
Holds s r looping = Unit {0}
Holds s r fetching = r.current_index ≤ r.max_index
Holds s r stopped = Unit {0}
Holds s r (pushing b) =
    (b.index ≡ r.current_index)
    × (r.current_index ≤ r.max_index)
    × Range s b.index b.volume_offset b.length

record Inv (s : SharedConfig) (start : ℕ) (r : Reader) (log : List Event) : Type 0 where
  here : r.current_index ≡ start + length log
  last : r.max_index ≡ max_block_index s.session_size s.block_size
  consecutive : Consecutive s start log
  holds : Holds s r r.pc
  ended : r.task.status ≡ succeed → r.max_index < r.current_index

pub max_block_index-lt :
    (s : SharedConfig) (i : ℕ)
    → IsSession s
    → i ≤ max_block_index s.session_size s.block_size
    → (i < total_blocks s.session_size s.block_size) × (i + 1 < 2 ^ 64)
unfolding max_block_index
max_block_index-lt s i v h =
    let b = total_blocks_bounds s.session_size s.block_size v.some_block in
    let l = total_blocks-le s.session_size s.block_size v.some_block in
    let p = v.some_bytes in
    let positive : 0 < total_blocks s.session_size s.block_size =
      at_least (total_blocks s.session_size s.block_size) s.block_size (omega (arith, b.0, p)) in
    ground (arith, l, v.room)
  where
    at_least : (n b : ℕ) → 0 < n * b → 0 < n
    at_least zero b h = absurd (omega arith)
    at_least (suc n) b h = omega arith

logged-same :
    (s : SharedConfig) (r : Reader) (c : Context) (x : Reader × Context) (log : List Event)
    → x.0.current_index ≡ r.current_index
    → logged s r c x log ≡ log
logged-same s r c x log e = ground arith

logged-next :
    (s : SharedConfig) (r : Reader) (c : Context) (x : Reader × Context) (log : List Event)
    → x.0.current_index ≡ r.current_index + 1
    → logged s r c x log ≡ entry (next_queue s c) (next_queue s (x.1)) r.current_index log r.pc
logged-next s r c x log e =
    let differ : (x.0.current_index == r.current_index) ≡ false = ground arith in rw differ refl

-- A push that returns has put the block at the end, or the queue was finished.
push-queue :
    (q q' : BlockingQueue ConsumeBlock) (b : ConsumeBlock) (accepted : Bool)
    → blocking_push q b ≡ returns (accepted, q')
    → q.finished ≡ false
    → q' ≡ record q { queue = q.queue ++ (b ∷ []) }
unfolding blocking_push resume_push
push-queue q q' b accepted e f = elim (Bool-cases (ltb (length q.queue) q.max_size)) [
  | inl room ↦ cc (e, f, room)
  | inr full ↦ cc (e, f, full)
]

bump :
    {s : SharedConfig} {start : ℕ} {r : Reader} {log : List Event}
    → IsSession s
    → Inv s start r log
    → r.current_index ≤ r.max_index
    → add64 r.current_index 1 ≡ r.current_index + 1
bump {s} {r} v w h =
    omega (arith, (max_block_index-lt s r.current_index v (omega (arith, w.last))).1)

skips-Inv :
    {s : SharedConfig} {start : ℕ} {r : Reader} {log : List Event}
    → IsSession s
    → r.pc ≡ looping
    → r.current_index ≤ r.max_index
    → s.checkpoint_enabled ≡ true
    → Inv s start r log
    → Inv s start
        (record r { current_index = add64 r.current_index 1 })
        (skipped r.current_index ∷ log)
skips-Inv {s} {start} {r} {log} v l h e w = record {
  here = omega (arith, bump v w h, w.here);
  last = w.last;
  consecutive = (w.here, e, w.consecutive);
  holds = rw l tt;
  ended = λ d. absurd (omega (arith, w.ended d));
}

passes-Inv :
    {s : SharedConfig} {start : ℕ} {r : Reader} {log : List Event} (b : ConsumeBlock)
    (q q' : BlockingQueue ConsumeBlock)
    → (q.finished ≡ false → q' ≡ record q { queue = q.queue ++ (b ∷ []) })
    → IsSession s
    → Holds s r (pushing b)
    → Inv s start r log
    → Inv s start
        (record r { current_index = add64 r.current_index 1; pc = looping })
        (passed b q q' ∷ log)
passes-Inv b q q' pushed v (i, h, range) w = record {
  here = omega (arith, bump v w h, w.here);
  last = w.last;
  consecutive = (i ∙ w.here, (range, pushed), w.consecutive);
  holds = tt;
  ended = λ d. absurd (omega (arith, w.ended d));
}

-- A reader that fetches has a block left.
Fetches-le :
    {s : SharedConfig} {start : ℕ} {r : Reader} {log : List Event}
    → Fetches r
    → Inv s start r log
    → r.current_index ≤ r.max_index
Fetches-le {s} {start} {r} (inl e) w = subst (Holds s r) e w.holds
Fetches-le (inr (l, h)) w = h

Moves-Inv :
    {s : SharedConfig} {start : ℕ} {r : Reader} {log : List Event} {c : Context}
    {x : Reader × Context}
    → IsSession s
    → Moves s r c x
    → Inv s start r log
    → Inv s start (x.0) (logged s r c x log)
unfolding consume_block
Moves-Inv {s} {start} {r} {log} {c} {x} v waits w =
    subst (Inv s start r) (sym (logged-same s r c x log refl)) w
Moves-Inv {s} {start} {r} {log} {c} {x} v (fetches f) w =
    subst (Inv s start (x.0)) (sym (logged-same s r c x log refl)) (record {
      here = w.here;
      last = w.last;
      consecutive = w.consecutive;
      holds = Fetches-le f w;
      ended = w.ended;
    })
Moves-Inv {s} {start} {r} {log} {c} {x} v (skips l h e t) w =
    subst (Inv s start (x.0))
      (sym (logged-next s r c x log (bump v w h) ∙ ap (entry _ _ r.current_index log) l))
      (skips-Inv v l h e w)
Moves-Inv {s} {start} {r} {log} {c} {x} v (reads p f q) w =
    let h = Fetches-le f w in
    let lt = (max_block_index-lt s r.current_index v (omega (arith, w.last, h))).0 in
    subst (Inv s start (x.0)) (sym (logged-same s r c x log refl)) (record {
      here = w.here;
      last = w.last;
      consecutive = w.consecutive;
      holds = (refl, h, consume_block-Range s p r.current_index v lt);
      ended = w.ended;
    })
Moves-Inv {s} {start} {r} {log} {c} {x} v (passes b ok e q) w =
    let held : Holds s r (pushing b) = subst (Holds s r) e w.holds in
    subst (Inv s start (x.0))
      (sym (logged-next s r c x log (bump v w held.1) ∙ ap (entry _ _ r.current_index log) e))
      (passes-Inv b _ _ (push-queue (next_queue s c) (next_queue s (x.1)) b ok q) v held w)
Moves-Inv {s} {start} {r} {log} {c} {x} v (ends t st h q) w =
    subst (Inv s start (x.0)) (sym (logged-same s r c x log refl))
      (record { here = w.here; last = w.last; consecutive = w.consecutive; holds = tt; ended = h })

Run-Inv :
    {s : SharedConfig} {r0 r : Reader} {log : List Event}
    → IsSession s
    → Inv s r0.current_index r0 []
    → Run s r0 r log
    → Inv s r0.current_index r log
Run-Inv v w starts = w
Run-Inv {s} {r0} v w (steps {r} {x} {log} timeout answer c run e) =
    subst (λ k. Inv s r0.current_index (k.0) (logged s r c k log)) e
      (Moves-Inv v (step-Moves s timeout answer r c) (Run-Inv v w run))

-- Whatever the other threads do to the shared context, a reader thread of a session that starts at
-- some index handles the blocks from there on one by one, in order and each of them once: it skips
-- them, which needs a checkpoint, or pushes them with the range of their index, and then the queue
-- behind the reader has the block at its end and is otherwise as before the push, unless the queue
-- was finished. If the thread ends with success, it has come past the last block, so that none is
-- left out.
pub reader_complete :
    (s : SharedConfig) (r0 r : Reader) (log : List Event)
    → IsSession s
    → r0.pc ≡ looping
    → r0.task.status ≡ running
    → r0.max_index ≡ max_block_index s.session_size s.block_size
    → Run s r0 r log
    → Consecutive s r0.current_index log
      × (r.current_index ≡ r0.current_index + length log)
      × (r.task.status ≡ succeed
          → total_blocks s.session_size s.block_size ≤ r0.current_index + length log)
unfolding max_block_index
reader_complete s r0 r log v l t m run =
    let w = Run-Inv v start run in (w.consecutive, w.here, λ e. past (w.ended e) (w.last) w.here)
  where
    start : Inv s r0.current_index r0 []
    start = record {
      here = omega arith;
      last = m;
      consecutive = tt;
      holds = rw l tt;
      ended = λ e. cc;
    }

    past :
        r.max_index < r.current_index
        → r.max_index ≡ max_block_index s.session_size s.block_size
        → r.current_index ≡ r0.current_index + length log
        → total_blocks s.session_size s.block_size ≤ r0.current_index + length log
    past a b c = ground arith

-- ===== src/Pipeline/Together/Copied.antt =====
-- A session without hashers: what the success of both threads means, in any order of their steps.
use volume_backup.Prelude.{
  ℕ, ◌⊎◌, ◌+◌, ◌-◌, ◌*◌, ◌/◌, ◌≤◌, ◌<◌, ◌^◌, ◌≡◌, inl, inr, Bool, true, false, List, [], ◌∷◌, arith,
}
use volume_backup.Allocator.{Allocator, make}
use volume_backup.Allocator.Pool as Pool
use volume_backup.Session.{SharedConfig}
use volume_backup.Task.{StatefulTask, succeed, running, abort}
use volume_backup.Pipeline.{ConsumeBlock}
use volume_backup.Pipeline.Reader.{looping, max_block_index}
use volume_backup.Pipeline.Reader.Blocks.{IsSession, blocks_cover}
use volume_backup.Pipeline.Writer.{Target}
use volume_backup.Pipeline.Together.{
  Threads, aborted_threads, Step, reads, writes, aborts, pauses, Reach, here, next,
}
use volume_backup.Pipeline.Together.Held.{
  IsQueued, Good, OfSession, Mode, good, write_failed, read_failed,
}
use volume_backup.Pipeline.Together.Reads.{reader-OfSession, reader-Mode}
use volume_backup.Pipeline.Together.Writes.{writer-Mode}
use volume_backup.Pipeline.Together.Reading as Reading
use volume_backup.Pipeline.Together.Writing as Writing

-- There is no hasher and no checkpoint, and empty blocks are written too.
pub record IsPlain (s : SharedConfig) : Type 0 where
  pub no_hasher : s.hasher_enabled ≡ false
  pub no_checkpoint : s.checkpoint_enabled ≡ false
  pub no_skip : s.skip_empty_block ≡ false

-- The threads have just been started, with a pool of buffers that fits 32 bits and the address space.
pub record IsFresh (s : SharedConfig) (pool block_size block_num : ℕ) (t : Threads) : Type 0 where
  pub some_bytes : 0 < block_size
  pub few : block_num < 2 ^ 31
  pub small : block_size * block_num < 2 ^ 32
  pub addressed : pool + block_size * block_num ≤ 2 ^ 64
  pub allocator : t.state.context.allocator ≡ make pool block_size block_num
  pub empty : t.state.context.write_queue.queue ≡ []
  pub open_queue : t.state.context.write_queue.finished ≡ false
  pub no_failure : t.state.context.counter.blockes_write_failed ≡ 0
  pub reader_loops : t.reader.pc ≡ looping
  pub reader_runs : t.reader.task.status ≡ running
  pub first_block : t.reader.current_index ≡ 0
  pub last_block : t.reader.max_index ≡ max_block_index s.session_size s.block_size
  pub base : t.reader.base_offset ≡ s.session_offset
  pub writer_runs : t.state.writer.task.status ≡ running
  pub writer_unfailed : t.state.writer.task.failed_flag ≡ false

-- The invariant of the two threads.
record Inv (s : SharedConfig) (source original : Target) (base : Allocator) (t : Threads)
    : Type 0 where
  of_session : OfSession s t.reader
  mode : Mode s source original base t

fresh-Inv :
    {s : SharedConfig} {pool block_size block_num : ℕ} {t : Threads} (source : Target)
    → IsFresh s pool block_size block_num t
    → Inv s source t.state.target (make pool block_size block_num) t
fresh-Inv {s} {pool} {block_size} {block_num} {t} source f = record {
  of_session = record {
    last = f.last_block;
    based = f.base;
    near = omega (arith, f.first_block);
    room = rw f.reader_loops tt;
    ended = λ e. absurd (cc (e, f.reader_runs));
  };
  mode = good (record {
    pool =
        rw (f.allocator, f.empty, f.reader_loops)
          (Pool.fresh-Inv pool block_size block_num f.some_bytes f.few f.small f.addressed);
    sound = rw (f.empty, f.reader_loops) tt;
    covered = λ i h. absurd (omega (arith, h, f.first_block));
    pushing_next = rw f.reader_loops tt;
    finished = λ e. absurd (cc (e, f.open_queue));
    drained = λ e. absurd (cc (e, f.writer_runs));
    none_failed = f.no_failure;
    few = rw f.empty (omega arith);
    untouched = λ x out i. t.state.target x;
    unfailed = f.writer_unfailed;
  });
}

-- An abort makes no task succeed, and no task fail.
abort-succeed : (t : StatefulTask) → (abort t).status ≡ succeed → t.status ≡ succeed
unfolding abort
abort-succeed t e = ground arith

-- An abort and a pause change nothing that the invariant speaks of but the status.
flag-Mode :
    {s : SharedConfig} {source original : Target} {base : Allocator} {t : Threads} (b : Bool)
    → Mode s source original base t
    → Mode s source original base (aborted_threads t)
      × Mode s source original base (record t { reader = record (t.reader) { pause_flag = b } })
unfolding abort
flag-Mode {t} b (write_failed n w k) =
    (write_failed n (λ e. w (abort-succeed t.state.writer.task e)) k, write_failed n w k)
flag-Mode {t} b (read_failed p w) =
    (read_failed p (λ e. w (abort-succeed t.reader.task e)), read_failed p w)
flag-Mode {s} {source} {base} {t} b (good g) = (
  good (record {
    pool = g.pool;
    sound = g.sound;
    covered = g.covered;
    pushing_next = g.pushing_next;
    finished = g.finished;
    drained = λ e. g.drained (abort-succeed t.state.writer.task e);
    none_failed = g.none_failed;
    few = g.few;
    untouched = g.untouched;
    unfailed = g.unfailed;
  }),
  good (record {
    pool = g.pool;
    sound = g.sound;
    covered = g.covered;
    pushing_next = g.pushing_next;
    finished = g.finished;
    drained = g.drained;
    none_failed = g.none_failed;
    few = g.few;
    untouched = g.untouched;
    unfailed = g.unfailed;
  }),
)

Step-Inv :
    {s : SharedConfig} {source original : Target} {base : Allocator} {t t' : Threads}
    → IsSession s
    → IsPlain s
    → Step s source t t'
    → Inv s source original base t
    → Inv s source original base t'
Step-Inv {s} {source} {base} {t} v p (reads timeout answer honest) w =
    let move =
      Reading.step-Moves s source timeout answer t.reader t.state.context p.no_hasher
        p.no_checkpoint honest in
    record {
      of_session = reader-OfSession v move w.of_session;
      mode = reader-Mode v w.of_session move w.mode;
    }
Step-Inv {s} {source} {base} {t} v p (writes {state} answer e) w = record {
  of_session = w.of_session;
  mode = writer-Mode v w.of_session (Writing.step-Moves s answer t.state state p.no_skip e) w.mode;
}
Step-Inv {t} v p aborts w = record {
  of_session = record {
    last = w.of_session.last;
    based = w.of_session.based;
    near = w.of_session.near;
    room = w.of_session.room;
    ended = λ e. w.of_session.ended (abort-succeed t.reader.task e);
  };
  mode = (flag-Mode true w.mode).0;
}
Step-Inv v p (pauses b) w = record {
  of_session = record {
    last = w.of_session.last;
    based = w.of_session.based;
    near = w.of_session.near;
    room = w.of_session.room;
    ended = w.of_session.ended;
  };
  mode = (flag-Mode b w.mode).1;
}

Reach-Inv :
    {s : SharedConfig} {source original : Target} {base : Allocator} {t0 t : Threads}
    → IsSession s
    → IsPlain s
    → Inv s source original base t0
    → Reach s source t0 t
    → Inv s source original base t
Reach-Inv v p w here = w
Reach-Inv v p w (next run st) = Step-Inv v p st (Reach-Inv v p w run)

queued_none : (i : ℕ) (bs : List ConsumeBlock) → bs ≡ [] → IsQueued i bs → ⊥
queued_none i [] e h = h
queued_none i (b ∷ bs) e h = cc

-- Where both threads have succeeded, no write has failed.
success-Good :
    {s : SharedConfig} {source original : Target} {base : Allocator} {t : Threads}
    → t.reader.task.status ≡ succeed
    → t.state.writer.task.status ≡ succeed
    → Mode s source original base t
    → Good s source original base t
success-Good r w (good g) = g
success-Good r w (write_failed n d c) = absurd (d w)
success-Good r w (read_failed stop d) = absurd (d r)

Good-copied :
    {s : SharedConfig} {source original : Target} {base : Allocator} {t : Threads}
    → IsSession s
    → OfSession s t.reader
    → Good s source original base t
    → t.reader.task.status ≡ succeed
    → t.state.writer.task.status ≡ succeed
    → (x : ℕ) → s.session_offset ≤ x
    → x < s.session_offset + s.session_size
    → t.state.target x ≡ source x
unfolding max_block_index
Good-copied {s} {source} {base} {t} v o g r w x lo hi =
    let (exists, low, high, _) = blocks_cover s 0 x v lo hi in
    let i = (x - s.session_offset) / s.block_size in
    let past : i < t.reader.current_index = ground (arith, o.ended r, o.last, exists) in
    elim (g.covered i past) [
      | inl d ↦ d x low high
      | inr k ↦ absurd (queued_none i t.state.context.write_queue.queue (g.drained w).1 k)
    ]

-- In whatever order the reader and the writer of a session take their steps, with pauses and aborts
-- at any time, and whatever the source and the target answer: if both threads end with success, each
-- byte of the session in the target is that of the source, and all other bytes of the target are as
-- they were. Reads that succeed return the bytes of the source. The session has no hasher and no
-- checkpoint, empty blocks are written too, its sums fit 64 bits, and the threads start fresh with a
-- pool of buffers that fits 32 bits and the address space.
pub session_copied :
    (s : SharedConfig) (source : Target) (pool block_size block_num : ℕ) (t0 t : Threads)
    → IsSession s
    → IsPlain s
    → IsFresh s pool block_size block_num t0
    → Reach s source t0 t
    → t.reader.task.status ≡ succeed
    → t.state.writer.task.status ≡ succeed
    → ((x : ℕ)
        → s.session_offset ≤ x
        → x < s.session_offset + s.session_size
        → t.state.target x ≡ source x)
      × ((x : ℕ)
          → (x < s.session_offset) ⊎ (s.session_offset + s.session_size ≤ x)
          → t.state.target x ≡ t0.state.target x)
session_copied s source pool block_size block_num t0 t v p f run r w =
    let k = Reach-Inv v p (fresh-Inv source f) run in
    let g = success-Good r w k.mode in (Good-copied v k.of_session g r w, g.untouched)

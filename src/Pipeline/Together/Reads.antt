-- ===== src/Pipeline/Together/Reads.antt =====
-- A session without hashers: a step of the reader thread keeps the invariant of the two threads.
use volume_backup.Prelude.{
  ℕ, ◌+◌, ◌≤◌, ◌<◌, ◌≡◌, ◌≢◌, refl, sym, ap, ◌∙◌, subst, ◌⊎◌, inl, inr, some, List, [], ◌∷◌, ◌++◌,
  length, length-append, map, get_or, arith, dec_lt,
}
use volume_backup.Queue.{BlockingQueue, finish}
use volume_backup.Allocator.{Allocator, block_alloc}
use volume_backup.Task.Statistics.{SessionCounter}
use volume_backup.Allocator.Pool as Pool
use volume_backup.Session.{SharedConfig, total_blocks}
use volume_backup.Task.{add64}
use volume_backup.Pipeline.{ConsumeBlock, Context, stored}
use volume_backup.Pipeline.Reader.{
  Reader, looping, pushing, stopped, bytes, consume_block, read_offset,
}
use volume_backup.Pipeline.Reader.Blocks.{IsSession}
use volume_backup.Pipeline.Reader.Loop.{Fetches}
use volume_backup.Pipeline.Reader.Log.{max_block_index-lt}
use volume_backup.Pipeline.Writer.{WriterState, Target}
use volume_backup.Pipeline.Together.{Honest, after_read}
use volume_backup.Pipeline.Together.Held.{
  newest_first, held, address, Sound, AllSound, Done, IsQueued, Pushing, Good, Room, OfSession,
  Mode, good, write_failed, read_failed,
}
use volume_backup.Pipeline.Together.Blocks.{newest-append, stored-AllSound, IsQueued-append}
use volume_backup.Pipeline.Together.Reading as Reading

-- The index stays below 2^64.
bump :
    {s : SharedConfig} {r : Reader}
    → IsSession s
    → OfSession s r
    → r.current_index ≤ r.max_index
    → add64 r.current_index 1 ≡ r.current_index + 1
bump {s} {r} v o h =
    omega (arith, (max_block_index-lt s r.current_index v (omega (arith, o.last, h))).1)

-- A reader that fetches has a block left, and holds none yet.
Fetches-le :
    {s : SharedConfig} (r : Reader) → Fetches r → OfSession s r → r.current_index ≤ r.max_index
Fetches-le {s} r (inl e) o = subst (Room r.current_index r.max_index) e o.room
Fetches-le r (inr (l, h)) o = h

Fetches-held : (r : Reader) (bs : List ConsumeBlock) → Fetches r → held r.pc bs ≡ newest_first bs
Fetches-held r bs (inl e) = ap (λ pc. held pc bs) e
Fetches-held r bs (inr (l, h)) = ap (λ pc. held pc bs) l

Fetches-runs : (r : Reader) → Fetches r → r.pc ≢ stopped
Fetches-runs r (inl e) = λ k. cc
Fetches-runs r (inr (l, h)) = λ k. cc

pub reader-OfSession :
    {s : SharedConfig} {source : Target} {r : Reader} {c : Context} {x : Reader × Context}
    → IsSession s
    → Reading.Moves s source r c x
    → OfSession s r
    → OfSession s (x.0)
reader-OfSession v Reading.waits o = o
reader-OfSession {s} {source} {r} v (Reading.fetches l) o = record {
  last = o.last;
  based = o.based;
  near = o.near;
  room = Fetches-le r l o;
  ended = o.ended;
}
reader-OfSession {s} {source} {r} v (Reading.takes p xs l e k n) o = record {
  last = o.last;
  based = o.based;
  near = o.near;
  room = Fetches-le r l o;
  ended = o.ended;
}
reader-OfSession {s} {source} {r} v (Reading.passes b e q f n) o =
    let h : r.current_index ≤ r.max_index = subst (Room r.current_index r.max_index) e o.room in
    record {
      last = o.last;
      based = o.based;
      near = omega (arith, bump v o h);
      room = tt;
      ended = λ k. absurd (omega (arith, o.ended k));
    }
reader-OfSession v (Reading.succeeds l h) o = record {
  last = o.last;
  based = o.based;
  near = o.near;
  room = tt;
  ended = λ k. h;
}
reader-OfSession v (Reading.fails t h) o = record {
  last = o.last;
  based = o.based;
  near = o.near;
  room = tt;
  ended = λ k. absurd (h k);
}

-- The block that was read stands in its buffer.
fresh-Sound :
    (s : SharedConfig) (source : Target) (memory : ℕ → List ℕ) (r : Reader) (p : ℕ) (xs : List ℕ)
    → r.base_offset ≡ s.session_offset
    → Honest s source r (bytes xs)
    → r.current_index < total_blocks s.session_size s.block_size
    → Sound s source (stored p xs memory) (consume_block s p r.current_index)
unfolding consume_block read_offset
fresh-Sound s source memory r p xs based (size, content) exists =
    let own : stored p xs memory p ≡ xs = ground arith in
    record {
      block = refl;
      exists = exists;
      filled = ap length own ∙ size;
      content = λ k h.
          ap (λ ys. get_or ys k 0) own
          ∙ content k (omega (arith, size, h))
          ∙ ap (λ j. source (j + k)) (omega (arith, based));
    }

module _ {s : SharedConfig} {source original : Target} {base : Allocator} where
  takes-Good :
      {r : Reader} {st : WriterState} {counter : SessionCounter} {a : Allocator} (p : ℕ)
      (xs : List ℕ)
      → OfSession s r
      → r.current_index < total_blocks s.session_size s.block_size
      → Fetches r
      → block_alloc st.context.allocator ≡ (some p, a)
      → Honest s source r (bytes xs)
      → counter.blockes_write_failed ≡ st.context.counter.blockes_write_failed
      → Good s source original base (record { reader = r; state = st })
      → Good s source original base (record {
        reader = record r { pc = pushing (consume_block s p r.current_index) };
        state = record st {
          context = record (st.context) {
            allocator = a;
            counter = counter;
            memory = stored p xs st.context.memory;
          };
        };
      })
  unfolding consume_block
  takes-Good {r} {st} {counter} {a} p xs o exists l e k n g =
      let queue = st.context.write_queue.queue in
      let before : Pool.Inv base
          (record { allocator = st.context.allocator; live = map address (newest_first queue) }) =
        subst
          (λ bs. Pool.Inv base (record { allocator = st.context.allocator; live = map address bs }))
          (Fetches-held r queue l) g.pool in
      let pool = Pool.Step-Inv (Pool.takes p e) before in
      record {
        pool = pool;
        sound = (
          fresh-Sound s source st.context.memory r p xs o.based k exists,
          stored-AllSound s source st.context.memory p xs (newest_first queue) pool.distinct.0
              (subst (AllSound s source st.context.memory) (Fetches-held r queue l) g.sound),
        );
        covered = g.covered;
        pushing_next = refl;
        finished = λ f. absurd (Fetches-runs r l (g.finished f));
        drained = λ d. absurd (Fetches-runs r l (g.drained d).0);
        none_failed = n ∙ g.none_failed;
        few = g.few;
        untouched = g.untouched;
        unfailed = g.unfailed;
      }

  passes-Good :
      {r : Reader} {st : WriterState} {counter : SessionCounter} {q : BlockingQueue ConsumeBlock}
      (b : ConsumeBlock)
      → add64 r.current_index 1 ≡ r.current_index + 1
      → r.pc ≡ pushing b
      → q.queue ≡ st.context.write_queue.queue ++ (b ∷ [])
      → q.finished ≡ st.context.write_queue.finished
      → counter.blockes_write_failed ≡ st.context.counter.blockes_write_failed
      → Good s source original base (record { reader = r; state = st })
      → Good s source original base (record {
        reader = record r { current_index = add64 r.current_index 1; pc = looping };
        state = record st { context = record (st.context) { write_queue = q; counter = counter } };
      })
  passes-Good {r} {st} {counter} {q} b step e more f n g =
      let queue = st.context.write_queue.queue in
      let same : held r.pc queue ≡ newest_first q.queue =
        ap (λ pc. held pc queue) e ∙ sym (newest-append queue b) ∙ ap newest_first (sym more) in
      record {
        pool =
            subst
              (λ l.
                Pool.Inv base (record { allocator = st.context.allocator; live = map address l }))
              same g.pool;
        sound = subst (AllSound s source st.context.memory) same g.sound;
        covered = λ i h. covered i (omega (arith, step, h));
        pushing_next = tt;
        finished = λ d. absurd (cc (e, g.finished (sym f ∙ d)));
        drained = λ d. absurd (cc (e, (g.drained d).0));
        none_failed = n ∙ g.none_failed;
        few = omega (arith, step, g.few, ap length more, length-append queue (b ∷ []));
        untouched = g.untouched;
        unfailed = g.unfailed;
      }
    where
      own : b.index ≡ r.current_index
      own = subst (Pushing r.current_index) e g.pushing_next

      covered : (i : ℕ) → i < r.current_index + 1 → Done s source st.target i ⊎ IsQueued i q.queue
      covered i h = elim (dec_lt i r.current_index) [
        | yes l ↦ elim (g.covered i l) [
          | inl d ↦ inl d
          | inr k ↦ inr (
              subst (IsQueued i) (sym more)
                (IsQueued-append i st.context.write_queue.queue b (inl k)))
        ]
        | no l ↦ inr (
            subst (IsQueued i) (sym more)
              (IsQueued-append i st.context.write_queue.queue b (inr (omega (arith, own)))))
      ]

  pub reader-Mode :
      {r : Reader} {st : WriterState} {x : Reader × Context}
      → IsSession s
      → OfSession s r
      → Reading.Moves s source r st.context x
      → Mode s source original base (record { reader = r; state = st })
      → Mode s source original base (after_read (record { reader = r; state = st }) x)
  unfolding finish
  reader-Mode v o Reading.waits m = m
  reader-Mode v o (Reading.fails t h) m = read_failed refl h
  reader-Mode {r} v o (Reading.takes p xs l e k n) (good g) = good (
      takes-Good p xs o (max_block_index-lt s _ v (omega (arith, Fetches-le r l o, o.last))).0 l e k
        n g)
  reader-Mode v o (Reading.takes p xs l e k n) (write_failed c w f) =
      write_failed (λ z. c (sym n ∙ z)) w (omega (arith, n, f))
  reader-Mode {r} v o (Reading.takes p xs l e k n) (read_failed stop w) =
      absurd (Fetches-runs r l stop)
  reader-Mode {r} {st} v o (Reading.fetches l) (good g) = good (record {
    pool =
        subst
          (λ bs. Pool.Inv base (record { allocator = st.context.allocator; live = map address bs }))
          (Fetches-held r st.context.write_queue.queue l) g.pool;
    sound =
        subst (AllSound s source st.context.memory) (Fetches-held r st.context.write_queue.queue l)
          g.sound;
    covered = g.covered;
    pushing_next = tt;
    finished = λ d. absurd (Fetches-runs r l (g.finished d));
    drained = λ d. absurd (Fetches-runs r l (g.drained d).0);
    none_failed = g.none_failed;
    few = g.few;
    untouched = g.untouched;
    unfailed = g.unfailed;
  })
  reader-Mode v o (Reading.fetches l) (write_failed c w k) = write_failed c w k
  reader-Mode {r} v o (Reading.fetches l) (read_failed stop w) = absurd (Fetches-runs r l stop)
  reader-Mode {r} v o (Reading.passes b e (inl more) f n) (good g) =
      good
        (passes-Good b (bump v o (subst (Room r.current_index r.max_index) e o.room)) e more f n g)
  reader-Mode v o (Reading.passes b e (inr (fin, same)) f n) (good g) =
      absurd (cc (e, g.finished fin))
  reader-Mode v o (Reading.passes b e q f n) (read_failed stop w) = absurd (cc (e, stop))
  reader-Mode {r} {st} v o (Reading.passes b e (inl more) f n) (write_failed c w k) =
      write_failed (λ z. c (sym n ∙ z)) w
        (omega (
          arith,
          n,
          k,
          bump v o (subst (Room r.current_index r.max_index) e o.room),
          ap length more,
          length-append st.context.write_queue.queue (b ∷ []),
        ))
  reader-Mode {r} {st} v o (Reading.passes b e (inr (fin, same)) f n) (write_failed c w k) =
      write_failed (λ z. c (sym n ∙ z)) w
        (omega (
          arith,
          n,
          k,
          bump v o (subst (Room r.current_index r.max_index) e o.room),
          ap (λ z. length z.queue) same,
        ))
  reader-Mode {r} {st} v o (Reading.succeeds l h) (good g) = good (record {
    pool =
        subst
          (λ pc. Pool.Inv base (record {
            allocator = st.context.allocator;
            live = map address (held pc st.context.write_queue.queue);
          }))
          l g.pool;
    sound =
        subst (λ pc. AllSound s source st.context.memory (held pc st.context.write_queue.queue)) l
          g.sound;
    covered = g.covered;
    pushing_next = tt;
    finished = λ d. refl;
    drained = λ d. absurd (cc (l, (g.drained d).0));
    none_failed = g.none_failed;
    few = g.few;
    untouched = g.untouched;
    unfailed = g.unfailed;
  })
  reader-Mode v o (Reading.succeeds l h) (write_failed c w k) = write_failed c w k
  reader-Mode v o (Reading.succeeds l h) (read_failed stop w) = absurd (cc (l, stop))

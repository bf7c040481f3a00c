-- ===== src/Pipeline/Together/Writes.antt =====
-- A session without hashers: a step of the writer thread keeps the invariant of the two threads.
use volume_backup.Prelude.{
  ℕ, ◌+◌, ◌≤◌, ◌<◌, ◌≡◌, sym, ap, ◌∙◌, subst, ◌⊎◌, inl, inr, true, List, [], ◌∷◌, ◌++◌, length, map,
  append-nil, arith,
}
use volume_backup.Allocator.{Allocator, block_free, freed}
use volume_backup.Allocator.Pool as Pool
use volume_backup.Session.{SharedConfig}
use volume_backup.Task.{succeed}
use volume_backup.Pipeline.{ConsumeBlock, Context}
use volume_backup.Pipeline.Reader.{Reader}
use volume_backup.Pipeline.Reader.Blocks.{IsSession}
use volume_backup.Pipeline.Reader.Log.{max_block_index-lt}
use volume_backup.Pipeline.Writer.{WriterState, Target, write_bytes, block_bytes}
use volume_backup.Pipeline.Together.Held.{
  held, address, Sound, AllSound, Done, IsQueued, Good, OfSession, Mode, good, write_failed,
  read_failed,
}
use volume_backup.Pipeline.Together.Blocks.{
  held-oldest, addresses-oldest, Sound-oldest, Done-written, Outside-written,
}
use volume_backup.Pipeline.Together.Writing as Writing

module _ {s : SharedConfig} {source original : Target} {base : Allocator} where
  writes-Good :
      {r : Reader} {st st' : WriterState} {a : Allocator} (b : ConsumeBlock)
      (rest : List ConsumeBlock)
      → IsSession s
      → st.context.write_queue.queue ≡ b ∷ rest
      → block_free st.context.allocator b.ptr ≡ freed a
      → st'.context.allocator ≡ a
      → st'.context.write_queue.queue ≡ rest
      → st'.context.write_queue.finished ≡ st.context.write_queue.finished
      → st'.context.memory ≡ st.context.memory
      → st'.context.counter.blockes_write_failed ≡ st.context.counter.blockes_write_failed
      → st'.writer.task ≡ st.writer.task
      → st'.target ≡ write_bytes st.target b.volume_offset (block_bytes b st.context)
      → Good s source original base (record { reader = r; state = st })
      → Good s source original base (record { reader = r; state = st' })
  writes-Good {r} {st} {st'} {a} b rest v q free al q' f m n w t g = record {
    pool =
        subst
          (λ x. Pool.Inv base (record {
            allocator = x;
            live = map address (held r.pc st'.context.write_queue.queue);
          }))
          (sym al)
          (subst (λ l. Pool.Inv base (record { allocator = a; live = l })) left
            (Pool.Step-Inv (Pool.gives b.ptr (map address (held r.pc rest)) [] split free) g.pool));
    sound =
        subst (λ x. AllSound s source x (held r.pc st'.context.write_queue.queue)) (sym m)
          (subst (λ l. AllSound s source st.context.memory (held r.pc l)) (sym q') parts.0);
    covered = covered;
    pushing_next = g.pushing_next;
    finished = λ d. g.finished (sym f ∙ d);
    drained = λ d. absurd (clash ((g.drained (ap (λ k. k.status) (sym w) ∙ d)).1));
    none_failed = n ∙ g.none_failed;
    few = omega (arith, g.few, ap length q, ap length q');
    untouched = λ x out.
        ap (λ z. z x) t
        ∙ Outside-written s source st.target st.context.memory b x v parts.1 out
        ∙ g.untouched x out;
    unfailed = ap (λ k. k.failed_flag) w ∙ g.unfailed;
  }
    where
      oldest : held r.pc st.context.write_queue.queue ≡ held r.pc rest ++ (b ∷ [])
      oldest = ap (held r.pc) q ∙ held-oldest r.pc b rest

      split :
          map address (held r.pc st.context.write_queue.queue)
          ≡ map address (held r.pc rest) ++ (b.ptr ∷ [])
      split = ap (map address) oldest ∙ addresses-oldest (held r.pc rest) b

      left :
          map address (held r.pc rest) ++ [] ≡ map address (held r.pc st'.context.write_queue.queue)
      left =
          append-nil (map address (held r.pc rest)) ∙ ap (λ l. map address (held r.pc l)) (sym q')

      parts :
          AllSound s source st.context.memory (held r.pc rest) × Sound s source st.context.memory b
      parts =
          Sound-oldest s source st.context.memory (held r.pc rest) b
            (subst (AllSound s source st.context.memory) oldest g.sound)

      clash : st.context.write_queue.queue ≡ [] → ⊥
      clash e = cc (e, q)

      written : (i : ℕ) → Done s source st.target i ⊎ (b.index ≡ i) → Done s source st'.target i
      written i h =
          subst (λ z. Done s source z i) (sym t)
            (Done-written s source st.target st.context.memory b i parts.1 h)

      oldest_or_rest :
          (i : ℕ)
          → IsQueued i (b ∷ rest)
          → Done s source st'.target i ⊎ IsQueued i st'.context.write_queue.queue
      oldest_or_rest i (inl e) = inl (written i (inr e))
      oldest_or_rest i (inr k) = inr (subst (IsQueued i) (sym q') k)

      covered :
          (i : ℕ)
          → i < r.current_index
          → Done s source st'.target i ⊎ IsQueued i st'.context.write_queue.queue
      covered i h = elim (g.covered i h) [
        | inl d ↦ inl (written i (inl d))
        | inr k ↦ oldest_or_rest i (subst (IsQueued i) q k)
      ]

  ends-Good :
      {r : Reader} {st st' : WriterState}
      → st'.context ≡ st.context
      → st'.target ≡ st.target
      → st'.writer.task.failed_flag ≡ st.writer.task.failed_flag
      → (st'.writer.task.status ≡ succeed
          → (st.context.write_queue.queue ≡ []) × (st.context.write_queue.finished ≡ true))
      → Good s source original base (record { reader = r; state = st })
      → Good s source original base (record { reader = r; state = st' })
  ends-Good {r} {st} {st'} c t u h g =
      subst
        (λ (k : Context × Target). Good s source original base (record {
          reader = r;
          state = record { writer = st'.writer; context = k.0; target = k.1 };
        }))
        (λ i. (sym c i, sym t i))
        (record {
          pool = g.pool;
          sound = g.sound;
          covered = g.covered;
          pushing_next = g.pushing_next;
          finished = g.finished;
          drained = λ d. (g.finished (h d).1, (h d).0);
          none_failed = g.none_failed;
          few = g.few;
          untouched = g.untouched;
          unfailed = u ∙ g.unfailed;
        })

  rests-Good :
      {r : Reader} {st st' : WriterState}
      → st'.context ≡ st.context
      → st'.target ≡ st.target
      → st'.writer.task ≡ st.writer.task
      → Good s source original base (record { reader = r; state = st })
      → Good s source original base (record { reader = r; state = st' })
  rests-Good {r} {st} {st'} c t u g =
      subst
        (λ (k : Context × Target). Good s source original base (record {
          reader = r;
          state = record { writer = st'.writer; context = k.0; target = k.1 };
        }))
        (λ i. (sym c i, sym t i))
        (record {
          pool = g.pool;
          sound = g.sound;
          covered = g.covered;
          pushing_next = g.pushing_next;
          finished = g.finished;
          drained = λ d. g.drained (ap (λ k. k.status) (sym u) ∙ d);
          none_failed = g.none_failed;
          few = g.few;
          untouched = g.untouched;
          unfailed = ap (λ k. k.failed_flag) u ∙ g.unfailed;
        })

  pub writer-Mode :
      {r : Reader} {st st' : WriterState}
      → IsSession s
      → OfSession s r
      → Writing.Moves st st'
      → Mode s source original base (record { reader = r; state = st })
      → Mode s source original base (record { reader = r; state = st' })
  writer-Mode v o (Writing.rests c t u) (good g) = good (rests-Good c t u g)
  writer-Mode {r} v o (Writing.rests c t u) (write_failed n w k) =
      write_failed (λ z. n (ap (λ x. x.counter.blockes_write_failed) (sym c) ∙ z))
        (λ d. w (ap (λ x. x.status) (sym u) ∙ d))
        (subst (λ x. x.counter.blockes_write_failed + length x.write_queue.queue ≤ r.current_index)
          (sym c) k)
  writer-Mode v o move (read_failed stop w) = read_failed stop w
  writer-Mode v o (Writing.ends c t u h) (good g) =
      good (ends-Good c t u (λ d. ((h d).0, (h d).1)) g)
  writer-Mode {r} v o (Writing.ends c t u h) (write_failed n w k) =
      write_failed (λ z. n (ap (λ x. x.counter.blockes_write_failed) (sym c) ∙ z)) (λ d. n (h d).2)
        (subst (λ x. x.counter.blockes_write_failed + length x.write_queue.queue ≤ r.current_index)
          (sym c) k)
  writer-Mode v o (Writing.writes b rest q free al q' f m n w t) (good g) =
      good (writes-Good b rest v q free al q' f m n w t g)
  writer-Mode v o (Writing.writes b rest q free al q' f m n w t) (write_failed c d k) =
      write_failed (λ z. c (sym n ∙ z)) (λ z. d (ap (λ x. x.status) (sym w) ∙ z))
        (omega (arith, n, k, ap length q, ap length q'))
  writer-Mode v o (Writing.loses b rest q q' n w) (good g) =
      write_failed (omega (arith, n, g.none_failed))
        (λ d. absurd (cc ((g.drained (sym w ∙ d)).1, q)))
        (omega (arith, n, g.none_failed, g.few, ap length q, ap length q'))
  writer-Mode {r} v o (Writing.loses b rest q q' n w) (write_failed c d k) =
      let below = (max_block_index-lt s r.max_index v (omega (arith, o.last))).1 in
      write_failed (omega (arith, n, k, ap length q, o.near, below)) (λ z. d (sym w ∙ z))
        (omega (arith, n, k, ap length q, ap length q', o.near, below))

-- ===== src/Pipeline/Together/Held.antt =====
-- A session without hashers: the blocks that are under way, and the invariant of the two threads.
use volume_backup.Prelude.{
  ℕ, ◌+◌, ◌≤◌, ◌<◌, ◌≡◌, ◌≢◌, ◌⊎◌, true, false, List, [], ◌∷◌, ◌++◌, length, map, get_or,
}
use volume_backup.Allocator.{Allocator}
use volume_backup.Allocator.Pool as Pool
use volume_backup.Session.{SharedConfig, total_blocks}
use volume_backup.Task.{succeed}
use volume_backup.Pipeline.{ConsumeBlock}
use volume_backup.Pipeline.Reader.{
  ReaderPc, Reader, looping, fetching, pushing, stopped, consume_block, max_block_index,
}
use volume_backup.Pipeline.Writer.{Target}
use volume_backup.Pipeline.Together.{Threads}

-- The blocks in the queue, the newest first.
abbrev pub newest_first : List ConsumeBlock → List ConsumeBlock
newest_first [] = []
newest_first (b ∷ bs) = newest_first bs ++ (b ∷ [])

-- With the one that the reader is about to push.
abbrev pub held : ReaderPc → List ConsumeBlock → List ConsumeBlock
held looping bs = newest_first bs
held fetching bs = newest_first bs
held stopped bs = newest_first bs
held (pushing b) bs = b ∷ newest_first bs

abbrev pub address : ConsumeBlock → ℕ
address b = b.ptr

-- A block's buffer has the bytes of the source, at the place where the block goes.
pub record Sound (s : SharedConfig) (source : Target) (memory : ℕ → List ℕ) (b : ConsumeBlock)
    : Type 0 where
  pub block : b ≡ consume_block s b.ptr b.index
  pub exists : b.index < total_blocks s.session_size s.block_size
  pub filled : length (memory b.ptr) ≡ b.length
  pub content : (k : ℕ) → k < b.length → get_or (memory b.ptr) k 0 ≡ source (b.volume_offset + k)

abbrev pub AllSound : SharedConfig → Target → (ℕ → List ℕ) → List ConsumeBlock → Type 0
AllSound s source memory [] = Unit {0}
AllSound s source memory (b ∷ bs) = Sound s source memory b × AllSound s source memory bs

-- The target has the bytes of block `i`.
abbrev pub Done : SharedConfig → Target → Target → ℕ → Type 0
Done s source target i =
    (x : ℕ)
    → (consume_block s 0 i).volume_offset ≤ x
    → x < (consume_block s 0 i).volume_offset + (consume_block s 0 i).length
    → target x ≡ source x

abbrev pub IsQueued : ℕ → List ConsumeBlock → Type 0
IsQueued i [] = ⊥
IsQueued i (b ∷ bs) = (b.index ≡ i) ⊎ IsQueued i bs

abbrev pub Pushing : ℕ → ReaderPc → Type 0
Pushing i (pushing b) = b.index ≡ i
Pushing i _ = Unit {0}

-- A place that is not of the session.
abbrev pub Outside : SharedConfig → ℕ → Type 0
Outside s x = (x < s.session_offset) ⊎ (s.session_offset + s.session_size ≤ x)

-- No write has failed so far.
pub record Good (s : SharedConfig) (source original : Target) (base : Allocator) (t : Threads)
    : Type 0 where
  pub pool : Pool.Inv base (record {
    allocator = t.state.context.allocator;
    live = map address (held t.reader.pc t.state.context.write_queue.queue);
  })
  pub sound :
      AllSound s source t.state.context.memory (held t.reader.pc t.state.context.write_queue.queue)
  pub covered :
      (i : ℕ)
      → i < t.reader.current_index
      → Done s source t.state.target i ⊎ IsQueued i t.state.context.write_queue.queue
  pub pushing_next : Pushing t.reader.current_index t.reader.pc
  pub finished : t.state.context.write_queue.finished ≡ true → t.reader.pc ≡ stopped
  pub drained :
      t.state.writer.task.status ≡ succeed
      → (t.reader.pc ≡ stopped) × (t.state.context.write_queue.queue ≡ [])
  pub none_failed : t.state.context.counter.blockes_write_failed ≡ 0
  pub few : length t.state.context.write_queue.queue ≤ t.reader.current_index
  pub untouched : (x : ℕ) → Outside s x → t.state.target x ≡ original x
  pub unfailed : t.state.writer.task.failed_flag ≡ false

-- A reader that holds a block, or fetches a buffer for one, has not come past the last one.
abbrev pub Room : ℕ → ℕ → ReaderPc → Type 0
Room i last (pushing b) = i ≤ last
Room i last fetching = i ≤ last
Room i last _ = Unit {0}

pub record OfSession (s : SharedConfig) (r : Reader) : Type 0 where
  pub last : r.max_index ≡ max_block_index s.session_size s.block_size
  pub based : r.base_offset ≡ s.session_offset
  pub near : r.current_index ≤ r.max_index + 1
  pub room : Room r.current_index r.max_index r.pc
  pub ended : r.task.status ≡ succeed → r.max_index < r.current_index

-- The threads are well so far, or a write has failed, or the reader has ended without success.
pub data Mode (s : SharedConfig) (source original : Target) (base : Allocator) (t : Threads)
    : Type 0 where
  good : Good s source original base t → Mode s source original base t
  write_failed :
      t.state.context.counter.blockes_write_failed ≢ 0
      → t.state.writer.task.status ≢ succeed
      → t.state.context.counter.blockes_write_failed + length t.state.context.write_queue.queue
        ≤ t.reader.current_index
      → Mode s source original base t
  read_failed :
      t.reader.pc ≡ stopped → t.reader.task.status ≢ succeed → Mode s source original base t

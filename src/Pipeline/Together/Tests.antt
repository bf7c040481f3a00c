-- ===== src/Pipeline/Together/Tests.antt =====
-- A session of one block of four bytes: a run of both threads to their success.
use volume_backup.Prelude.{
  ℕ, ◌≤◌, zero, suc, ◌+◌, ◌<◌, ◌≡◌, ◌⊎◌, refl, false, Option, none, some, [], ◌∷◌, get_or, arith,
  sym, ◌∙◌, inl,
}
use volume_backup.Allocator.{make, block_alloc, block_free, rounds, address, index_of, is_aligned}
use volume_backup.Allocator.Table.{first_free}
use volume_backup.Queue.{blocking_push, resume_push, blocking_pop, pop_from, finish}
use volume_backup.Queue as Queue
use volume_backup.Task.{succeed}
use volume_backup.Session.{SharedConfig, total_blocks}
use volume_backup.Pipeline.{free_block}
use volume_backup.Pipeline.Tests.{config, context, running_task}
use volume_backup.Pipeline.Reader as Reader
use volume_backup.Pipeline.Reader.{
  ReadAnswer, bytes, error, read_length, read_offset, consume_block, max_block_index, read_block,
  fetch_and_read, round, push_forward, skip_reading_block, looping,
}
use volume_backup.Pipeline.Reader.Blocks.{IsSession}
use volume_backup.Pipeline.Writer as Writer
use volume_backup.Pipeline.Writer.{
  Target, WriterState, WriteAnswer, done, complete_block, write_block, need_to_write, popped,
}
use volume_backup.Pipeline.Together.{Threads, Honest, after_read, reads, writes, Reach, here, next}
use volume_backup.Pipeline.Together.Copied.{IsPlain, IsFresh, session_copied}
use volume_backup.Pipeline.Together.Volume.{Sessions, nothing_left, session, backup_restored}

abbrev plain : SharedConfig
plain = record config {
  session_offset = 0;
  session_size = 4;
  checkpoint_enabled = false;
  skip_empty_block = false;
}

abbrev first : Threads
first = record {
  reader = record {
    task = running_task;
    source_type = Reader.copyfile;
    base_offset = 0;
    current_index = 0;
    max_index = max_block_index 4 4;
    pause_flag = false;
    pc = looping;
  };
  state = record {
    writer = record { task = running_task; target_type = Writer.volume; pc = Writer.looping };
    context = context;
    target = λ _. 0;
  };
}

-- The source has at each place the number of the place.
abbrev answer : ReadAnswer
answer = bytes (0 ∷ 1 ∷ 2 ∷ 3 ∷ [])

abbrev reader_moves : ReadAnswer → Threads → Threads
reader_moves a t = after_read t (Reader.step plain false a t.reader t.state.context)

abbrev some_or : WriterState → Option WriterState → WriterState
some_or st none = st
some_or st (some st') = st'

abbrev writer_moves : Threads → Threads
writer_moves t = record t { state = some_or t.state (Writer.step plain done t.state) }

-- The block is read, pushed and written; then both threads come to their end.
abbrev block_pushed : Threads
block_pushed = reader_moves (error 0) (reader_moves answer first)

abbrev reader_ended : Threads
reader_ended = reader_moves (error 0) (writer_moves block_pushed)

abbrev last : Threads
last = writer_moves reader_ended

plain-IsSession : IsSession plain
plain-IsSession = record {
  some_bytes = omega arith;
  some_block = omega arith;
  small_block = omega arith;
  room = omega arith;
}

answer_bytes : (k : ℕ) → k < 4 → get_or (0 ∷ 1 ∷ 2 ∷ 3 ∷ []) k 0 ≡ 0 + k
answer_bytes zero h = refl
answer_bytes (suc zero) h = refl
answer_bytes (suc (suc zero)) h = refl
answer_bytes (suc (suc (suc zero))) h = refl
answer_bytes (suc (suc (suc (suc k)))) h = absurd (omega arith)

answer-Honest : Honest plain (λ x. x) first.reader answer
unfolding read_length read_offset
answer-Honest = (refl, answer_bytes)

both_succeed :
    (last.reader.task.status ≡ succeed)
    × (last.state.writer.task.status ≡ succeed)
    × (Writer.step plain done block_pushed.state ≡ some (writer_moves block_pushed).state)
    × (Writer.step plain done reader_ended.state ≡ some last.state)
unfolding Reader.step round fetch_and_read read_block push_forward skip_reading_block consume_block
    read_length read_offset max_block_index total_blocks block_alloc block_free make rounds address
    index_of is_aligned first_free blocking_push resume_push blocking_pop pop_from finish free_block
    complete_block write_block need_to_write popped Reader.stop Writer.step Writer.stop Queue.make
both_succeed = (refl, refl, refl, refl)

run_from :
    (source : Target) → Honest plain source first.reader answer → Reach plain source first last
run_from source honest =
    next
      (next
        (next (next (next here (reads false answer honest)) (reads false (error 0) tt))
          (writes done both_succeed.2))
        (reads false (error 0) tt))
      (writes done both_succeed.3)

first-IsFresh : IsFresh plain 1000 4 2 first
unfolding Queue.make
first-IsFresh = record {
  some_bytes = omega arith;
  few = omega arith;
  small = omega arith;
  addressed = omega arith;
  allocator = refl;
  empty = refl;
  open_queue = refl;
  no_failure = refl;
  reader_loops = refl;
  reader_runs = refl;
  first_block = refl;
  last_block = refl;
  base = refl;
  writer_runs = refl;
  writer_unfailed = refl;
}

plain-IsPlain : IsPlain plain
plain-IsPlain = record { no_hasher = refl; no_checkpoint = refl; no_skip = refl }

session_copied_example :
    ((x : ℕ) → 0 ≤ x → x < 4 → last.state.target x ≡ x)
    × ((x : ℕ) → (x < 0) ⊎ (4 ≤ x) → last.state.target x ≡ 0)
session_copied_example =
    session_copied plain (λ x. x) 1000 4 2 first last plain-IsSession plain-IsPlain first-IsFresh
      (run_from (λ x. x) answer-Honest) both_succeed.0 both_succeed.1

-- The same run copies the copy.
copy-Honest : Honest plain last.state.target first.reader answer
unfolding read_length read_offset
copy-Honest = (
  refl,
  λ k h. answer_bytes k h ∙ sym (session_copied_example.0 (0 + k) (omega arith) (omega arith)),
)

plain_session :
    (source : Target)
    → Honest plain source first.reader answer
    → Sessions source (plain ∷ []) (λ _. 0) last.state.target
plain_session source honest =
    session 1000 4 2 first last plain-IsSession plain-IsPlain first-IsFresh refl
      (run_from source honest) both_succeed.0 both_succeed.1 nothing_left

backup_restored_example : last.state.target 2 ≡ 2
backup_restored_example =
    backup_restored 4 4 (plain ∷ []) (plain ∷ []) (λ x. x) (λ _. 0) last.state.target (λ _. 0)
      last.state.target (refl, omega arith, omega arith, inl refl, refl)
      (refl, refl, refl, refl, tt) (plain_session (λ x. x) answer-Honest)
      (plain_session last.state.target copy-Honest) 2 (omega arith)

-- ===== src/Pipeline/Together.antt =====
-- A session without hashers: its reader and its writer thread together, over the context that they
-- share (src/task/VolumeBlockReader.cpp, src/task/VolumeBlockWriter.cpp).
pub mod Held
pub mod Blocks
pub mod Reading
pub mod Writing
pub mod Reads
pub mod Writes
pub mod Copied
pub mod Volume
mod Tests
use volume_backup.Prelude.{ℕ, ◌+◌, ◌<◌, ◌≡◌, Bool, true, some, List, length, get_or}
use volume_backup.Task.{abort}
use volume_backup.Session.{SharedConfig}
use volume_backup.Pipeline.{Context}
use volume_backup.Pipeline.Reader as Reader
use volume_backup.Pipeline.Reader.{ReadAnswer, bytes, error, read_length, read_offset}
use volume_backup.Pipeline.Writer as Writer
use volume_backup.Pipeline.Writer.{WriterState, WriteAnswer, Target}

pub record Threads : Type 0 where
  pub reader : Reader.Reader
  pub state : WriterState  -- the writer, the context of both threads, and the target

-- A read that succeeds returns the bytes of the source.
abbrev pub Honest : SharedConfig → Target → Reader.Reader → ReadAnswer → Type 0
Honest s source r (error errno) = Unit {0}
Honest s source r (bytes xs) =
    (length xs ≡ read_length s r.current_index)
    × ((k : ℕ)
        → k < length xs
        → get_or xs k 0 ≡ source (read_offset s r.base_offset r.current_index + k))

abbrev pub after_read : Threads → Reader.Reader × Context → Threads
after_read t (r, c) = record { reader = r; state = record (t.state) { context = c } }

abbrev pub aborted_threads : Threads → Threads
aborted_threads t = record {
  reader = record (t.reader) { task = abort t.reader.task };
  state = record (t.state) {
    writer = record (t.state.writer) { task = abort t.state.writer.task };
  };
}

-- A step of one of the threads, or of the main thread, which aborts them, or pauses and resumes the
-- reader.
pub data Step (s : SharedConfig) (source : Target) (t : Threads) : Threads → Type 0 where
  reads :
      (timeout : Bool) (answer : ReadAnswer)
      → Honest s source t.reader answer
      → Step s source t (after_read t (Reader.step s timeout answer t.reader t.state.context))
  writes :
      {state : WriterState} (answer : WriteAnswer)
      → Writer.step s answer t.state ≡ some state
      → Step s source t (record t { state = state })
  aborts : Step s source t (aborted_threads t)
  pauses : (b : Bool) → Step s source t (record t { reader = record (t.reader) { pause_flag = b } })

pub data Reach (s : SharedConfig) (source : Target) (t0 : Threads) : Threads → Type 0 where
  here : Reach s source t0 t0
  next : {t t' : Threads} → Reach s source t0 t → Step s source t t' → Reach s source t0 t'

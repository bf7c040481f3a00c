-- ===== src/Queue.antt =====
-- include/common/BlockingQueue.h: the bounded queue between the reader, hasher and writer threads.
-- Each member function holds `m_mutex` from its first line to its last, but for the two waits; so a
-- call is one step of a sequential object, or two where it waits: the entry, and the wake-up.
pub mod Fifo
pub mod Shutdown
mod Tests
use volume_backup.Prelude.{
  ℕ, suc, ◌≡◌, Bool, true, false, ◌||◌, List, [], ◌∷◌, ◌++◌, Option, none, some, length, ltb, leb,
  if◌then◌else◌,
}

-- `m_queue` front first, `m_finished`, `m_maxSize`.
pub record BlockingQueue {ℓ} (A : Type ℓ) : Type ℓ where
  pub queue : List A
  pub finished : Bool
  pub max_size : ℕ

-- What a call does at the moment: it waits on its condition variable, or returns.
pub data Outcome {ℓ} (R : Type ℓ) : Type ℓ where
  blocks : Outcome R
  returns : R → Outcome R

module _ {ℓ} {A : Type ℓ} where
  -- The constructor.
  unfoldable pub make : ℕ → BlockingQueue A
  make n = record { queue = []; finished = false; max_size = n }

  -- `BlockingPush` from its wait on: the predicate is tested, and `m_finished` is not read again.
  unfoldable pub resume_push : BlockingQueue A → A → Outcome (Bool × BlockingQueue A)
  resume_push q v =
      if ltb (length q.queue) q.max_size
      then returns (true, record q { queue = q.queue ++ (v ∷ []) })
      else blocks

  unfoldable pub blocking_push : BlockingQueue A → A → Outcome (Bool × BlockingQueue A)
  unfolding resume_push
  blocking_push q v = if q.finished then returns (false, q) else resume_push q v

  -- `BlockingPop` by what `m_queue` holds. The item goes out through the reference.
  unfoldable pub pop_from : BlockingQueue A → List A → Outcome (Option A × BlockingQueue A)
  pop_from q [] = if q.finished then returns (none, q) else blocks
  pop_from q (v ∷ rest) = returns (some v, record q { queue = rest })

  unfoldable pub blocking_pop : BlockingQueue A → Outcome (Option A × BlockingQueue A)
  unfolding pop_from
  blocking_pop q = pop_from q q.queue

  -- `notify_all`, which wakes the calls that wait, is not modelled, as no notification is: a waiting
  -- call may take its next step at any time.
  unfoldable pub finish : BlockingQueue A → BlockingQueue A
  finish q = record q { finished = true }

  pub try_push : BlockingQueue A → A → Bool × BlockingQueue A
  try_push q v =
      if q.finished || leb q.max_size (length q.queue)
      then (false, q)
      else (true, record q { queue = q.queue ++ (v ∷ []) })

  try_pop_from : BlockingQueue A → List A → Option A × BlockingQueue A
  try_pop_from q [] = (none, q)
  try_pop_from q (v ∷ rest) = (some v, record q { queue = rest })

  pub try_pop : BlockingQueue A → Option A × BlockingQueue A
  unfolding try_pop_from
  try_pop q = try_pop_from q q.queue

  pub is_empty : BlockingQueue A → Bool
  is_empty q = elim q.queue [ [] ↦ true | _ ↦ false ]

  pub size : BlockingQueue A → ℕ
  size q = length q.queue

-- What threads may ask of one queue, in the order in which they take the lock. `wakes` is the
-- second half of a push that waited.
pub data Op {ℓ} (A : Type ℓ) : Type ℓ where
  pushes wakes tries : A → Op A
  pops try_pops finishes : Op A

-- The items taken in and given out so far, oldest first, and the queue.
pub record Trace {ℓ} (A : Type ℓ) : Type ℓ where
  pub accepted : List A
  pub delivered : List A
  pub last : BlockingQueue A

module _ {ℓ} {A : Type ℓ} where
  abbrev taken : Trace A → A → Outcome (Bool × BlockingQueue A) → Trace A
  taken t v blocks = t
  taken t v (returns (false, q)) = record t { last = q }
  taken t v (returns (true, q)) = record {
    accepted = t.accepted ++ (v ∷ []);
    delivered = t.delivered;
    last = q;
  }

  abbrev given : Trace A → Outcome (Option A × BlockingQueue A) → Trace A
  given t blocks = t
  given t (returns (none, q)) = record t { last = q }
  given t (returns (some v, q)) = record {
    accepted = t.accepted;
    delivered = t.delivered ++ (v ∷ []);
    last = q;
  }

  pub step : Trace A → Op A → Trace A
  step t (pushes v) = taken t v (blocking_push t.last v)
  step t (wakes v) = taken t v (resume_push t.last v)
  step t (tries v) = taken t v (returns (try_push t.last v))
  step t pops = given t (blocking_pop t.last)
  step t try_pops = given t (returns (try_pop t.last))
  step t finishes = record t { last = finish t.last }

  pub run : Trace A → List (Op A) → Trace A
  run t [] = t
  run t (op ∷ ops) = run (step t op) ops

  pub start : BlockingQueue A → Trace A
  start q = record { accepted = []; delivered = []; last = q }

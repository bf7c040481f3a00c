-- ===== src/Queue/Fifo.antt =====
-- First in, first out, within the bound: BlockingQueue.h under any order of calls.
use volume_backup.Prelude.{
  ℕ, ◌≤◌, ◌≡◌, refl, sym, ap, List, [], ◌∷◌, ◌++◌, arith, length, length-append, append_assoc,
  append-nil,
}
use volume_backup.Queue.{
  BlockingQueue, Op, pushes, wakes, tries, pops, try_pops, finishes, Trace, make, resume_push,
  blocking_push, blocking_pop, finish, try_push, try_pop, step, run, start,
}

module _ {ℓ} {A : Type ℓ} where
  -- What went in is what came out, in that order, and then what is still there.
  abbrev pub IsFifo : List A → Trace A → Type ℓ
  IsFifo before t = t.delivered ++ t.last.queue ≡ before ++ t.accepted

  append_snoc : (xs ys : List A) (v : A) → xs ++ (ys ++ (v ∷ [])) ≡ (xs ++ ys) ++ (v ∷ [])
  append_snoc xs ys v = sym (append_assoc xs ys (v ∷ []))

  pop_moves :
      (b : List A) (t : Trace A) (xs : List A)
      → t.last.queue ≡ xs
      → IsFifo b t
      → IsFifo b (step t pops) × IsFifo b (step t try_pops)
  unfolding step blocking_pop try_pop
  pop_moves b t [] e h = ground arith
  pop_moves b t (v ∷ rest) e h = ground (arith, append_assoc t.delivered (v ∷ []) rest)

  step-IsFifo : (b : List A) (t : Trace A) (op : Op A) → IsFifo b t → IsFifo b (step t op)
  unfolding step blocking_push resume_push try_push finish
  step-IsFifo b t (pushes v) h =
      ground (arith, append_snoc t.delivered t.last.queue v, append_snoc b t.accepted v)
  step-IsFifo b t (wakes v) h =
      ground (arith, append_snoc t.delivered t.last.queue v, append_snoc b t.accepted v)
  step-IsFifo b t (tries v) h =
      ground (arith, append_snoc t.delivered t.last.queue v, append_snoc b t.accepted v)
  step-IsFifo b t pops h = (pop_moves b t t.last.queue refl h).0
  step-IsFifo b t try_pops h = (pop_moves b t t.last.queue refl h).1
  step-IsFifo b t finishes h = h

  run-IsFifo : (b : List A) (t : Trace A) (ops : List (Op A)) → IsFifo b t → IsFifo b (run t ops)
  unfolding run
  run-IsFifo b t [] h = h
  run-IsFifo b t (op ∷ ops) h = run-IsFifo b (step t op) ops (step-IsFifo b t op h)

  -- Whatever calls the threads make, in whatever order, the items delivered are, in order, a first
  -- part of the items held at the start and then accepted, and the queue holds exactly the rest.
  pub run_fifo :
      (q : BlockingQueue A) (ops : List (Op A))
      → let t = run (start q) ops in t.delivered ++ t.last.queue ≡ q.queue ++ t.accepted
  unfolding start
  run_fifo q ops = run-IsFifo q.queue (start q) ops (sym (append-nil q.queue))

  abbrev pub Fits : BlockingQueue A → Type 0
  Fits q = length q.queue ≤ q.max_size

  pop-Fits :
      (n : ℕ) (t : Trace A) (xs : List A)
      → t.last.queue ≡ xs
      → Fits t.last × (t.last.max_size ≡ n)
      → (Fits (step t pops).last × ((step t pops).last.max_size ≡ n))
        × (Fits (step t try_pops).last × ((step t try_pops).last.max_size ≡ n))
  unfolding step blocking_pop try_pop
  pop-Fits n t [] e h = ground arith
  pop-Fits n t (v ∷ rest) e h = ground (arith, ap length e)

  step-Fits :
      (n : ℕ) (t : Trace A) (op : Op A)
      → Fits t.last × (t.last.max_size ≡ n)
      → Fits (step t op).last × ((step t op).last.max_size ≡ n)
  unfolding step blocking_push resume_push try_push finish
  step-Fits n t (pushes v) h = ground (arith, length-append t.last.queue (v ∷ []))
  step-Fits n t (wakes v) h = ground (arith, length-append t.last.queue (v ∷ []))
  step-Fits n t (tries v) h = ground (arith, length-append t.last.queue (v ∷ []))
  step-Fits n t pops h = (pop-Fits n t t.last.queue refl h).0
  step-Fits n t try_pops h = (pop-Fits n t t.last.queue refl h).1
  step-Fits n t finishes h = h

  run-Fits :
      (n : ℕ) (t : Trace A) (ops : List (Op A))
      → Fits t.last × (t.last.max_size ≡ n)
      → Fits (run t ops).last × ((run t ops).last.max_size ≡ n)
  unfolding run
  run-Fits n t [] h = h
  run-Fits n t (op ∷ ops) h = run-Fits n (step t op) ops (step-Fits n t op h)

  -- A queue made with `maxSize` never holds more items than that, after any calls in any order.
  pub run_bounded : (n : ℕ) (ops : List (Op A)) → length (run (start (make n)) ops).last.queue ≤ n
  unfolding start make
  run_bounded n ops = omega (arith, run-Fits n (start (make n)) ops (omega arith))

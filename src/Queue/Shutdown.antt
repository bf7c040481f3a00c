-- ===== src/Queue/Shutdown.antt =====
-- BlockingQueue.h after `Finish`: how its users see the end of the stream.
use volume_backup.Prelude.{
  ◌≡◌, refl, Bool, true, false, List, [], ◌∷◌, ◌++◌, none, arith, length, append_assoc, append-nil,
  replicate,
}
use volume_backup.Queue.{
  BlockingQueue, returns, Op, pushes, wakes, tries, pops, try_pops, finishes, Trace, blocking_push,
  blocking_pop, finish, try_push, try_pop, step, run, start,
}

module _ {ℓ} {A : Type ℓ} where
  -- Every call but the second half of a push that was waiting when the queue was finished.
  abbrev pub is_fresh : Op A → Bool
  is_fresh (wakes v) = false
  is_fresh _ = true

  abbrev pub AllFresh : List (Op A) → Type 0
  AllFresh [] = Unit {0}
  AllFresh (op ∷ ops) = (is_fresh op ≡ true) × AllFresh ops

  abbrev IsShut : Trace A → List A → Type ℓ
  IsShut t xs = (t.last.finished ≡ true) × (t.accepted ≡ xs)

  pop-IsShut :
      (t : Trace A) (ys xs : List A)
      → t.last.queue ≡ ys
      → IsShut t xs
      → IsShut (step t pops) xs × IsShut (step t try_pops) xs
  unfolding step blocking_pop try_pop
  pop-IsShut t [] xs e h = ground arith
  pop-IsShut t (v ∷ rest) xs e h = ground arith

  step-IsShut :
      (t : Trace A) (op : Op A) (xs : List A)
      → is_fresh op ≡ true
      → IsShut t xs
      → IsShut (step t op) xs
  unfolding step blocking_push try_push finish
  step-IsShut t (pushes v) xs f h = ground arith
  step-IsShut t (wakes v) xs f h = cc
  step-IsShut t (tries v) xs f h = ground arith
  step-IsShut t pops xs f h = (pop-IsShut t t.last.queue xs refl h).0
  step-IsShut t try_pops xs f h = (pop-IsShut t t.last.queue xs refl h).1
  step-IsShut t finishes xs f h = (refl, h.1)

  run-IsShut :
      (t : Trace A) (ops : List (Op A)) (xs : List A)
      → AllFresh ops
      → IsShut t xs
      → IsShut (run t ops) xs
  unfolding run
  run-IsShut t [] xs f h = h
  run-IsShut t (op ∷ ops) xs f h = run-IsShut (step t op) ops xs f.1 (step-IsShut t op xs f.0 h)

  -- A finished queue takes nothing in any more, whatever calls follow, provided that none of them
  -- is the rest of a push that was already waiting.
  pub finish_closes :
      (q : BlockingQueue A) (ops : List (Op A))
      → AllFresh ops
      → (run (start (finish q)) ops).accepted ≡ []
  unfolding start finish
  finish_closes q ops f = (run-IsShut (start (finish q)) ops [] f (refl, refl)).1

  abbrev Drained : Trace A → List A → Type ℓ
  Drained t xs =
      (t.delivered ≡ xs) × (t.last.queue ≡ []) × (blocking_pop t.last ≡ returns (none, t.last))

  drain_from :
      (t : Trace A) (xs : List A)
      → t.last.queue ≡ xs
      → t.last.finished ≡ true
      → Drained (run t (replicate (length xs) pops)) (t.delivered ++ xs)
  unfolding run step blocking_pop
  drain_from t [] e f = ground (arith, append-nil t.delivered)
  drain_from t (v ∷ rest) e f =
      let popped : Trace A = record {
        accepted = t.accepted;
        delivered = t.delivered ++ (v ∷ []);
        last = record (t.last) { queue = rest };
      } in
      ground (arith, drain_from popped rest refl f, append_assoc t.delivered (v ∷ []) rest)

  -- Calls of `BlockingPop` that begin after `Finish`, with no other call between them: as many as
  -- there are items deliver exactly those items in order and leave the queue empty, and the next one
  -- returns false without waiting.
  pub finish_drains :
      (q : BlockingQueue A)
      → let t = run (start (finish q)) (replicate (length q.queue) pops) in
        (t.delivered ≡ q.queue)
        × (t.last.queue ≡ [])
        × (blocking_pop t.last ≡ returns (none, t.last))
  unfolding start finish
  finish_drains q = drain_from (start (finish q)) q.queue refl refl

  abbrev EndsWith : Trace A → List A → List A → Type ℓ
  EndsWith t xs ys = (t.accepted ≡ xs) × (t.delivered ≡ ys) × (t.last.finished ≡ true)

  -- `late` is a push that waits at a full queue while the queue is finished; `early` one that begins
  -- only then.
  abbrev pub late_push : A → A → List (Op A)
  late_push late early = pushes late ∷ finishes ∷ pops ∷ wakes late ∷ pushes early ∷ []

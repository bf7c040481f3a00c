-- ===== src/Queue/Tests.antt =====
-- BlockingQueue.h at concrete queues.
use volume_backup.Prelude.{ℕ, ◌≡◌, refl, false, List, [], ◌∷◌, ◌++◌, none, length, replicate}
use volume_backup.Queue.{
  BlockingQueue, returns, Op, pushes, wakes, tries, pops, try_pops, finishes, resume_push,
  blocking_push, blocking_pop, finish, run, start, try_push, try_pop, step,
}
use volume_backup.Queue.Fifo.{run_fifo}
use volume_backup.Queue.Shutdown.{finish_closes, finish_drains}

-- A queue of two places with one item in it.
abbrev half_full : BlockingQueue ℕ
half_full = record { queue = 7 ∷ []; finished = false; max_size = 2 }

abbrev full_queue : BlockingQueue ℕ
full_queue = record { queue = 7 ∷ 8 ∷ []; finished = false; max_size = 2 }

-- Two pushes, of which the second waits, a pop, the rest of the push, and the end.
abbrev calls : List (Op ℕ)
calls = pushes 8 ∷ pushes 9 ∷ pops ∷ wakes 9 ∷ finishes ∷ tries 10 ∷ try_pops ∷ []

run_fifo_example :
    let t = run (start half_full) calls in
    t.delivered ++ t.last.queue ≡ half_full.queue ++ t.accepted
run_fifo_example = run_fifo half_full calls

calls_delivered : (run (start half_full) calls).delivered ≡ 7 ∷ 8 ∷ []
unfolding run start step blocking_push resume_push blocking_pop finish try_push try_pop
calls_delivered = refl

finish_closes_example :
    (run (start (finish half_full)) (pushes 8 ∷ tries 9 ∷ pops ∷ [])).accepted ≡ []
finish_closes_example =
    finish_closes half_full (pushes 8 ∷ tries 9 ∷ pops ∷ []) (refl, (refl, (refl, tt)))

finish_drains_example :
    let t = run (start (finish half_full)) (replicate (length half_full.queue) pops) in
    (t.delivered ≡ half_full.queue)
    × (t.last.queue ≡ [])
    × (blocking_pop t.last ≡ returns (none, t.last))
finish_drains_example = finish_drains half_full

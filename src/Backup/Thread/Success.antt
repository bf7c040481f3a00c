-- ===== src/Backup/Thread/Success.antt =====
-- VolumeBackupTask: what the success of the main thread means.
use volume_backup.Prelude.{◌≡◌, sym, ap, ◌∙◌, ◌↔◌, ◌⊎◌, inl, inr, true, List, [], ◌∷◌}
use volume_backup.Task.{succeed}
use volume_backup.Session.Outcome.{IsDone, terminated_unless_failed}
use volume_backup.Session.{SharedConfig, is_session_failed}
use volume_backup.Backup.Thread.{BackupTask, Look, Course, thread_func}
use volume_backup.Backup.Thread.Sessions.{SeesEnd, AllEnd, run-AllEnd}

-- The main thread returns with the task succeeded exactly if every session in the queue is started
-- without an abort before it, and in the loop that waits for it some round finds all its components
-- terminated, while up to then no round has seen an abort or a failed component.
pub thread_func_iff :
    (cs : List Course) (t : BackupTask)
    → ((thread_func cs t).0 ≡ true) × ((thread_func cs t).1.task.status ≡ succeed)
      ↔ AllEnd t.session_queue cs
unfolding thread_func
thread_func_iff cs t = run-AllEnd t.session_queue cs t

-- Nothing changes between the calls of one round.
abbrev pub Still : List Look → Type 0
Still [] = Unit {0}
Still (l ∷ ls) = (l.at_failed ≡ l.at_terminated) × Still ls

abbrev pub AllStill : List Course → Type 0
AllStill [] = Unit {0}
AllStill (c ∷ cs) = Still c.looks × AllStill cs

-- Some round finds each component of the session absent, succeeded or aborted.
abbrev pub SeesDone : List Look → Type 0
SeesDone [] = ⊥
SeesDone (l ∷ ls) =
    (IsDone l.at_terminated.reader × IsDone l.at_terminated.hasher × IsDone l.at_terminated.writer)
    ⊎ SeesDone ls

abbrev pub AllDone : List SharedConfig → List Course → Type 0
AllDone [] cs = Unit {0}
AllDone (s ∷ queue) [] = ⊥
AllDone (s ∷ queue) (c ∷ cs) = SeesDone c.looks × AllDone queue cs

SeesEnd-SeesDone : (ls : List Look) → Still ls → SeesEnd ls → SeesDone ls
SeesEnd-SeesDone [] q e = e
SeesEnd-SeesDone (l ∷ ls) q (a, f, r) = elim r [
  | inl e ↦ inl (terminated_unless_failed l.at_terminated e (ap is_session_failed (sym q.0) ∙ f))
  | inr (_, more) ↦ inr (SeesEnd-SeesDone ls q.1 more)
]

AllEnd-AllDone :
    (queue : List SharedConfig) (cs : List Course)
    → AllStill cs
    → AllEnd queue cs
    → AllDone queue cs
AllEnd-AllDone [] cs q e = tt
AllEnd-AllDone (s ∷ queue) [] q e = e
AllEnd-AllDone (s ∷ queue) (c ∷ cs) q (_, _, _, seen, more) =
    (SeesEnd-SeesDone c.looks q.0 seen, AllEnd-AllDone queue cs q.1 more)

-- If no session changes between the calls that one round of the waiting loop makes, a task that has
-- succeeded has seen each of its sessions with every component absent, succeeded or aborted.
pub success_done :
    (cs : List Course) (t : BackupTask)
    → AllStill cs
    → (thread_func cs t).0 ≡ true
    → (thread_func cs t).1.task.status ≡ succeed
    → AllDone t.session_queue cs
success_done cs t q r e = AllEnd-AllDone t.session_queue cs q ((thread_func_iff cs t).0 (r, e))

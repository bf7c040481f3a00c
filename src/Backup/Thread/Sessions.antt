-- ===== src/Backup/Thread/Sessions.antt =====
-- VolumeBackupTask: what the final status of the main thread says of the sessions.
use volume_backup.Prelude.{◌≡◌, ◌≢◌, refl, ◌↔◌, ◌⊎◌, Bool, true, false, List, [], ◌∷◌}
use volume_backup.Task.{succeed}
use volume_backup.Task.Rounds.{stopped, completed, round_iff, round_stopped, session_iff}
use volume_backup.Session.{SharedConfig, is_session_terminated, is_session_failed}
use volume_backup.Backup.Thread.{
  BackupTask, Look, Finish, Course, wait_round, set_status, wait_session_terminate, run_sessions,
  pop_session,
}

-- Some round finds the session terminated, and up to then no round sees an abort or a failure.
abbrev pub SeesEnd : List Look → Type 0
SeesEnd [] = ⊥
SeesEnd (l ∷ ls) =
    (l.abort_flag ≡ false)
    × (is_session_failed l.at_failed ≡ false)
    × ((is_session_terminated l.at_terminated ≡ true)
        ⊎ ((is_session_terminated l.at_terminated ≡ false) × SeesEnd ls))

-- Every session in the queue is started and seen to end.
abbrev pub AllEnd : List SharedConfig → List Course → Type 0
AllEnd [] cs = Unit {0}
AllEnd (s ∷ queue) [] = ⊥
AllEnd (s ∷ queue) (c ∷ cs) =
    (c.abort_flag ≡ false)
    × (c.context_ready ≡ true)
    × (c.started ≡ true)
    × SeesEnd c.looks
    × AllEnd queue cs

wait-SeesEnd :
    (s : SharedConfig) (f : Finish) (ls : List Look) (t : BackupTask)
    → ((wait_session_terminate s f ls t).0 ≡ completed) ↔ SeesEnd ls
unfolding wait_session_terminate
wait-SeesEnd s f [] t = (λ e. cc, λ e. absurd e)
wait-SeesEnd s f (l ∷ ls) t =
    round_iff _ _ _ _ l.abort_flag (is_session_failed l.at_failed)
      (is_session_terminated l.at_terminated) (wait-SeesEnd s f ls (wait_round s l t))

-- A wait that returns false leaves an aborted or a failed task.
wait_stopped :
    (s : SharedConfig) (f : Finish) (ls : List Look) (t : BackupTask)
    → (wait_session_terminate s f ls t).0 ≡ stopped
    → (wait_session_terminate s f ls t).1.task.status ≢ succeed
unfolding wait_session_terminate set_status
wait_stopped s f [] t = λ e. cc
wait_stopped s f (l ∷ ls) t =
    round_stopped (λ t. t.task.status ≢ succeed) _ _ _ _ l.abort_flag
      (is_session_failed l.at_failed) (is_session_terminated l.at_terminated) (λ e. cc) (λ e. cc)
      (wait_stopped s f ls (wait_round s l t))

-- The thread has returned, and the task has succeeded.
abbrev pub Succeeds : Bool × BackupTask → Type 0
Succeeds r = (r.0 ≡ true) × (r.1.task.status ≡ succeed)

pub run-AllEnd :
    (queue : List SharedConfig) (cs : List Course) (t : BackupTask)
    → Succeeds (run_sessions queue cs t) ↔ AllEnd queue cs
unfolding run_sessions set_status
run-AllEnd [] cs t = (λ _. tt, λ _. (refl, refl))
run-AllEnd (s ∷ queue) [] t = (λ e. cc, λ e. absurd e)
run-AllEnd (s ∷ queue) (c ∷ cs) t =
    let popped = pop_session queue t in
    let waited = wait_session_terminate s c.finish c.looks popped in
    session_iff (λ t. t.task.status ≡ succeed) _ _ waited (run_sessions queue cs waited.1)
      c.abort_flag c.context_ready c.started (λ e. cc) (λ e. cc)
      (wait-SeesEnd s c.finish c.looks popped) (wait_stopped s c.finish c.looks popped)
      (run-AllEnd queue cs waited.1)

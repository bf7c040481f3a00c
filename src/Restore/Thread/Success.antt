-- ===== src/Restore/Thread/Success.antt =====
-- VolumeRestoreTask: what the success of the main thread means, and what it leaves behind.
use volume_backup.Prelude.{◌≡◌, ◌≢◌, refl, ◌↔◌, true, List, [], ◌∷◌}
use volume_backup.Task.{succeed}
use volume_backup.Task.Rounds.{stopped, completed, round_iff, round_stopped, session_iff}
use volume_backup.Session.{SharedConfig, is_session_terminated, is_session_failed}
use volume_backup.Backup.Thread.{Look, Finish, Course}
use volume_backup.Backup.Thread.Sessions.{SeesEnd, AllEnd}
use volume_backup.Restore.Thread.{
  VolumeRestoreTask, wait_round, set_status, wait_session_terminate, run_sessions, pop_session,
  thread_func,
}

wait-SeesEnd :
    (s : SharedConfig) (f : Finish) (ls : List Look) (t : VolumeRestoreTask)
    → ((wait_session_terminate s f ls t).0 ≡ completed) ↔ SeesEnd ls
unfolding wait_session_terminate
wait-SeesEnd s f [] t = (λ e. cc, λ e. absurd e)
wait-SeesEnd s f (l ∷ ls) t =
    round_iff _ _ _ _ l.abort_flag (is_session_failed l.at_failed)
      (is_session_terminated l.at_terminated) (wait-SeesEnd s f ls (wait_round s l t))

wait_stopped :
    (s : SharedConfig) (f : Finish) (ls : List Look) (t : VolumeRestoreTask)
    → (wait_session_terminate s f ls t).0 ≡ stopped
    → (wait_session_terminate s f ls t).1.task.status ≢ succeed
unfolding wait_session_terminate set_status
wait_stopped s f [] t = λ e. cc
wait_stopped s f (l ∷ ls) t =
    round_stopped (λ t. t.task.status ≢ succeed) _ _ _ _ l.abort_flag
      (is_session_failed l.at_failed) (is_session_terminated l.at_terminated) (λ e. cc) (λ e. cc)
      (wait_stopped s f ls (wait_round s l t))

run-AllEnd :
    (queue : List SharedConfig) (cs : List Course) (t : VolumeRestoreTask)
    → ((run_sessions queue cs t).0 ≡ true) × ((run_sessions queue cs t).1.task.status ≡ succeed)
      ↔ AllEnd queue cs
unfolding run_sessions set_status
run-AllEnd [] cs t = (λ _. tt, λ _. (refl, refl))
run-AllEnd (s ∷ queue) [] t = (λ e. cc, λ e. absurd e)
run-AllEnd (s ∷ queue) (c ∷ cs) t =
    let popped = pop_session queue t in
    let waited = wait_session_terminate s c.finish c.looks popped in
    session_iff (λ t. t.task.status ≡ succeed) _ _ waited (run_sessions queue cs waited.1)
      c.abort_flag c.context_ready c.started (λ e. cc) (λ e. cc)
      (wait-SeesEnd s c.finish c.looks popped) (wait_stopped s c.finish c.looks popped)
      (run-AllEnd queue cs waited.1)

-- The main thread of a restore returns with the task succeeded exactly if every session in the queue
-- is started without an abort before it, and in the loop that waits for it some round finds all its
-- components terminated, while up to then no round has seen an abort or a failed component.
pub restore_thread_iff :
    (cs : List Course) (t : VolumeRestoreTask)
    → ((thread_func cs t).0 ≡ true) × ((thread_func cs t).1.task.status ≡ succeed)
      ↔ AllEnd t.session_queue cs
unfolding thread_func
restore_thread_iff cs t = run-AllEnd t.session_queue cs t

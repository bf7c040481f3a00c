-- ===== src/Restore/Thread/Checkpoints.antt =====
-- VolumeRestoreTask: which checkpoint files a restore removes.
use volume_backup.Prelude.{
  ◌≡◌, ◌≢◌, refl, ◌∙◌, Bool, true, false, not, ◌&&◌, List, [], ◌∷◌, if◌then◌else◌, arith,
}
use volume_backup.Text.{Text}
use volume_backup.Task.{succeed}
use volume_backup.Task.Rounds.{Waited, waiting, stopped, completed, go_on}
use volume_backup.Session.{SharedConfig, is_session_terminated, is_session_failed}
use volume_backup.Copy.{VolumeRestoreConfig}
use volume_backup.Backup.Thread.{Look, Finish, Course}
use volume_backup.Restore.Thread.{
  VolumeRestoreTask, complete_session, wait_round, set_status, wait_session_terminate,
  clear_all_checkpoints, run_sessions, pop_session, thread_func,
}

-- The files that a task which succeeds removes.
abbrev pub to_remove : VolumeRestoreConfig → List Text → List Text
to_remove c files = if c.enable_checkpoint && c.clear_checkpoints_on_succeed then files else []

abbrev Kept : VolumeRestoreTask → VolumeRestoreTask → Type 0
Kept t t' =
    (t'.config ≡ t.config)
    × (t'.checkpoint_files ≡ t.checkpoint_files)
    × (t'.removed_files ≡ t.removed_files)
    × (t.task.status ≢ succeed → t'.task.status ≢ succeed)

round-Kept :
    (t x y z : VolumeRestoreTask) (w : Waited × VolumeRestoreTask) (a f e : Bool)
    → Kept t x
    → Kept t y
    → Kept t z
    → Kept t w.1
    → Kept t
        (if a then (stopped, x) else if f then (stopped, y) else if e then (completed, z) else w).1
round-Kept t x y z w true f e i j k l = i
round-Kept t x y z w false true e i j k l = j
round-Kept t x y z w false false true i j k l = k
round-Kept t x y z w false false false i j k l = l

wait-Kept :
    (s : SharedConfig) (f : Finish) (ls : List Look) (t : VolumeRestoreTask)
    → Kept t (wait_session_terminate s f ls t).1
unfolding wait_session_terminate set_status complete_session wait_round
wait-Kept s f [] t = (refl, refl, refl, λ h. h)
wait-Kept s f (l ∷ ls) t =
    round-Kept t _ _ _ _ l.abort_flag (is_session_failed l.at_failed)
      (is_session_terminated l.at_terminated) (refl, refl, refl, λ _ e. cc)
      (refl, refl, refl, λ _ e. cc) (refl, refl, refl, λ h. h) (wait-Kept s f ls (wait_round s l t))

-- What a task that began with `t` has removed.
abbrev Removes : VolumeRestoreTask → VolumeRestoreTask → Type 0
Removes t t' =
    (t'.task.status ≡ succeed → t'.removed_files ≡ to_remove t.config t.checkpoint_files)
    × (t'.task.status ≢ succeed → t'.removed_files ≡ [])

session-Removes :
    (t x y : VolumeRestoreTask) (w : Waited × VolumeRestoreTask) (after : Bool × VolumeRestoreTask)
    (a c b : Bool)
    → Removes t x
    → Removes t y
    → (w.0 ≢ completed → Removes t w.1)
    → (w.0 ≡ completed → Removes t after.1)
    → Removes t
        (if a
          then (true, x)
          else if not c
          then (true, y)
          else if not b
          then (true, y)
          else go_on w (λ _. after)).1
session-Removes t x y w after true c b h k p q = h
session-Removes t x y w after false false b h k p q = k
session-Removes t x y w after false true false h k p q = k
session-Removes t x y (waiting, t') after false true true h k p q = p (λ e. cc)
session-Removes t x y (stopped, t') after false true true h k p q = p (λ e. cc)
session-Removes t x y (completed, t') after false true true h k p q = q refl

run-Removes :
    (queue : List SharedConfig) (cs : List Course) (t : VolumeRestoreTask)
    → t.removed_files ≡ []
    → t.task.status ≢ succeed
    → Removes t (run_sessions queue cs t).1
unfolding run_sessions set_status clear_all_checkpoints
run-Removes [] cs t none_yet h = (λ _. ground (arith), λ e. absurd (e (ground arith)))
run-Removes (s ∷ queue) [] t none_yet h = (λ e. absurd (h e), λ _. none_yet)
run-Removes (s ∷ queue) (c ∷ cs) t none_yet h =
    let popped = pop_session queue t in
    let waited = wait_session_terminate s c.finish c.looks popped in
    let (config, files, removed, unchanged) = wait-Kept s c.finish c.looks popped in
    let (kept, dropped) = run-Removes queue cs waited.1 (removed ∙ none_yet) (unchanged h) in
    session-Removes t _ _ waited (run_sessions queue cs waited.1) c.abort_flag c.context_ready
      c.started (λ e. cc, λ _. none_yet) (λ e. cc, λ _. none_yet)
      (λ _. (λ e. absurd (unchanged h e), λ _. removed ∙ none_yet))
      (λ _. (λ e. cc (kept e, config, files), dropped))

pub restore_removes :
    (cs : List Course) (t : VolumeRestoreTask)
    → t.removed_files ≡ []
    → t.task.status ≢ succeed
    → let after = (thread_func cs t).1 in
      (after.task.status ≡ succeed → after.removed_files ≡ to_remove t.config t.checkpoint_files)
      × (after.task.status ≢ succeed → after.removed_files ≡ [])
unfolding thread_func
restore_removes cs t none_yet h = run-Removes t.session_queue cs t none_yet h

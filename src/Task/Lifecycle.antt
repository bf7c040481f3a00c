-- ===== src/Task/Lifecycle.antt =====
-- The life of a StatefulTask under `Abort` and the updates that its own thread makes.
use volume_backup.Prelude.{◌≡◌, true, arith, ◌≢◌, none}
use volume_backup.Task.{initial, StatefulTask, is_failed, is_terminated, abort, assert_not_started}

-- `Abort` may be called again without effect. It sets the flag that the task's loop reads; it makes a
-- task that has not started terminated and never to be started; it leaves the status of a
-- terminated task; and it does not make a started task look terminated, or failed.
pub abort_lem :
    (t : StatefulTask)
    → (abort (abort t) ≡ abort t)
      × ((abort t).abort_flag ≡ true)
      × (t.status ≡ initial → is_terminated (abort t) ≡ true)
      × (is_terminated t ≡ true → (abort t).status ≡ t.status)
      × (t.status ≢ initial → is_terminated (abort t) ≡ is_terminated t)
      × (is_failed (abort t) ≡ is_failed t)
      × (assert_not_started (abort t) ≡ none)
unfolding abort is_terminated is_failed assert_not_started
abort_lem t = ground arith

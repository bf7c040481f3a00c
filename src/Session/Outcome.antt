-- ===== src/Session/Outcome.antt =====
-- What a session's status says of its components.
use volume_backup.Prelude.{◌≡◌, refl, ◌⊎◌, inl, inr, true, false, Option, none, some, arith}
use volume_backup.Task.{StatefulTask, TaskStatus, succeed, aborted, is_failed, is_terminated}
use volume_backup.Session.{Session, is_session_terminated, is_session_failed}

-- A component that is absent, or ended by success or by an abort.
abbrev pub IsDone : Option StatefulTask → Type 0
IsDone none = Unit {0}
IsDone (some t) = (t.status ≡ succeed) ⊎ (t.status ≡ aborted)

ended :
    (s : TaskStatus) (t : StatefulTask)
    → t.status ≡ s
    → is_terminated t ≡ true
    → is_failed t ≡ false
    → IsDone (some t)
unfolding is_terminated is_failed
ended succeed t e h k = inl e
ended aborted t e h k = inr e
ended _ t e h k = ground arith

done :
    (o : Option StatefulTask)
    → ((t : StatefulTask) → o ≡ some t → (is_terminated t ≡ true) × (is_failed t ≡ false))
    → IsDone o
done none h = tt
done (some t) h = let r = h t refl in ended t.status t refl r.0 r.1

-- A session that has terminated and not failed has only components that succeeded or were aborted.
pub terminated_unless_failed :
    (s : Session)
    → is_session_terminated s ≡ true
    → is_session_failed s ≡ false
    → IsDone s.reader × IsDone s.hasher × IsDone s.writer
unfolding is_session_terminated is_session_failed
terminated_unless_failed s h k = (
  done s.reader (λ t e. ground arith),
  done s.hasher (λ t e. ground arith),
  done s.writer (λ t e. ground arith),
)

-- ===== src/Task/Rounds.antt =====
-- The main threads of the tasks (src/task): what a wait for a session returns, and what a chain of
-- tests in a round of such a thread comes to.
use volume_backup.Prelude.{◌≡◌, refl, ◌↔◌, ◌⊎◌, inl, inr, Bool, true, false, not, if◌then◌else◌}

-- `WaitSessionTerminate` is still in its loop, or has returned false or true.
pub data Waited : Type 0 where
  waiting stopped completed : Waited

abbrev pub go_on : {T : Type 0} → Waited × T → (T → Bool × T) → Bool × T
go_on (waiting, t) f = (false, t)
go_on (stopped, t) f = (true, t)
go_on (completed, t) f = f t

-- A round of the loop that waits, by what it sees.
pub round_iff :
    {T P : Type 0} (x y z : T) (w : Waited × T) (a f e : Bool)
    → ((w.0 ≡ completed) ↔ P)
    → ((if a then (stopped, x) else if f then (stopped, y) else if e then (completed, z) else w).0
        ≡ completed)
      ↔ ((a ≡ false) × (f ≡ false) × ((e ≡ true) ⊎ ((e ≡ false) × P)))
round_iff x y z w true f e h = (λ k. cc, λ k. cc)
round_iff x y z w false true e h = (λ k. cc, λ k. cc)
round_iff x y z w false false true h = (λ k. (refl, refl, inl refl), λ k. refl)
round_iff x y z w false false false h =
    (λ k. (refl, refl, inr (refl, h.0 k)), λ k. elim k.2 [ inl e ↦ cc | inr q ↦ h.1 q.1 ])

-- What is so of a task that has stopped, after a round.
pub round_stopped :
    {T : Type 0} (P : T → Type 0) (x y z : T) (w : Waited × T) (a f e : Bool)
    → P x
    → P y
    → (w.0 ≡ stopped → P w.1)
    → let r =
        if a then (stopped, x) else if f then (stopped, y) else if e then (completed, z) else w in
      r.0 ≡ stopped → P r.1
round_stopped P x y z w true f e h k l = λ _. h
round_stopped P x y z w false true e h k l = λ _. k
round_stopped P x y z w false false true h k l = λ e. cc
round_stopped P x y z w false false false h k l = l

-- A round of the loop over the sessions, where `Good` tasks are those that have succeeded.
pub session_iff :
    {T P Q : Type 0} (Good : T → Type 0) (x y : T) (w : Waited × T) (after : Bool × T)
    (a c b : Bool)
    → ¬ Good x
    → ¬ Good y
    → ((w.0 ≡ completed) ↔ P)
    → (w.0 ≡ stopped → ¬ Good w.1)
    → (((after.0 ≡ true) × Good after.1) ↔ Q)
    → let r =
        if a
        then (true, x)
        else if not c
        then (true, y)
        else if not b
        then (true, y)
        else go_on w (λ _. after) in
      ((r.0 ≡ true) × Good r.1) ↔ ((a ≡ false) × (c ≡ true) × (b ≡ true) × P × Q)
session_iff G x y w after true c b h k p s q = (λ e. absurd (h e.1), λ e. cc)
session_iff G x y w after false false b h k p s q = (λ e. absurd (k e.1), λ e. cc)
session_iff G x y w after false true false h k p s q = (λ e. absurd (k e.1), λ e. cc)
session_iff G x y (waiting, t) after false true true h k p s q =
    (λ e. cc, λ e. absurd (cc (p.1 e.3)))
session_iff G x y (stopped, t) after false true true h k p s q =
    (λ e. absurd (s refl e.1), λ e. absurd (cc (p.1 e.3)))
session_iff G x y (completed, t) after false true true h k p s q =
    (λ e. (refl, refl, refl, p.0 refl, q.0 e), λ e. q.1 e.4)

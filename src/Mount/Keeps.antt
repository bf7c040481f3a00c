-- ===== src/Mount/Keeps.antt =====
-- src/native/linux: rules for what an action of the mount code leaves alone.
use volume_backup.Prelude.{ℕ, ◌≡◌, refl, ◌∙◌, Bool, true, false, Option, none, some, if◌then◌else◌}
use volume_backup.Mount.Kernel.{
  System, Reply, M, if_done, if_some, pure, ask, call, get, modify, ◌>>=◌,
}

-- The part `f` of the system is as before.
pub record Keeps {A B : Type 0} (f : System → B) (m : M A) : Type 0 where
  pub at : (s : System) → f (m s).1 ≡ f s

module _ {A B : Type 0} {f : System → B} where
  pub Keeps-pure : (a : A) → Keeps f (pure a)
  unfolding pure
  Keeps-pure a = record { at = λ s. refl }

  pub Keeps-get : (g : System → A) → Keeps f (get g)
  unfolding get
  Keeps-get g = record { at = λ s. refl }

  pub Keeps-if : (b : Bool) (m n : M A) → Keeps f m → Keeps f n → Keeps f (if b then m else n)
  Keeps-if true m n km kn = km
  Keeps-if false m n km kn = kn

  pub Keeps-if_done : (b : Bool) (m n : M A) → Keeps f m → Keeps f n → Keeps f (if_done b m n)
  unfolding if_done
  Keeps-if_done true m n km kn = kn
  Keeps-if_done false m n km kn = km

module _ {A B C : Type 0} {f : System → C} where
  pub Keeps-if_some :
      (o : Option A) (m : M B) (k : A → M B)
      → Keeps f m
      → ((a : A) → Keeps f (k a))
      → Keeps f (if_some o m k)
  unfolding if_some
  Keeps-if_some none m k km kk = km
  Keeps-if_some (some a) m k km kk = kk a

  pub Keeps-bind :
      (m : M A) (k : A → M B) → Keeps f m → ((a : A) → Keeps f (k a)) → Keeps f (m >>= k)
  unfolding ◌>>=◌
  Keeps-bind m k km kk = record { at = λ s. let (a, s') = m s in (kk a).at s' ∙ km.at s }

module _ {B : Type 0} {f : System → B} where
  pub Keeps-ask : ((s : System) (r : ℕ → Reply) → f (record s { replies = r }) ≡ f s) → Keeps f ask
  unfolding ask
  Keeps-ask same = record { at = λ s. same s _ }

  pub Keeps-call :
      ((s : System) (r : ℕ → Reply) → f (record s { replies = r }) ≡ f s) → Keeps f call
  unfolding call
  Keeps-call same = record { at = λ s. same s _ }

  pub Keeps-modify : (g : System → System) → ((s : System) → f (g s) ≡ f s) → Keeps f (modify g)
  unfolding modify
  Keeps-modify g same = record { at = same }

pub ruleset keeps_rules = (
  Keeps-pure, Keeps-get, Keeps-if, Keeps-if_done, Keeps-if_some, Keeps-bind, Keeps-ask, Keeps-call,
  Keeps-modify, refl,
)

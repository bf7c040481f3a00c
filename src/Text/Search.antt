-- ===== src/Text/Search.antt =====
-- Comparing and searching text as `std::string` does.
use volume_backup.Prelude.{
  ℕ, suc, ◌≡◌, refl, Bool, true, false, Option, none, some, List, [], ◌∷◌, arith, ◌==◌,
  if◌then◌else◌,
}
use volume_backup.Text.{Text}

-- `==` of two strings.
unfoldable pub same : Text → Text → Bool
same [] [] = true
same [] (d ∷ t) = false
same (c ∷ s) [] = false
same (c ∷ s) (d ∷ t) = if c == d then same s t else false

-- Whether a string begins with another, `find(prefix) == 0`.
unfoldable pub starts_with : Text → Text → Bool
starts_with [] s = true
starts_with (p ∷ ps) [] = false
starts_with (p ∷ ps) (c ∷ s) = if p == c then starts_with ps s else false

-- `find`: the first position where a string occurs, or nothing for `npos`.
unfoldable pub find : Text → Text → Option ℕ
unfolding starts_with
find [] pattern = if starts_with pattern [] then some 0 else none
find (c ∷ s) pattern =
    if starts_with pattern (c ∷ s)
    then some 0
    else elim (find s pattern) [ none ↦ none | some i ↦ some (suc i) ]

unfoldable pub mem : Text → List Text → Bool
unfolding same
mem t [] = false
mem t (s ∷ ss) = if same t s then true else mem t ss

pub same_refl : (s : Text) → same s s ≡ true
unfolding same
same_refl [] = refl
same_refl (c ∷ s) = ground (arith, same_refl s)

pub same→eq : (s t : Text) → same s t ≡ true → s ≡ t
unfolding same
same→eq [] [] e = refl
same→eq [] (d ∷ t) e = cc
same→eq (c ∷ s) [] e = cc
same→eq (c ∷ s) (d ∷ t) e = ground (arith, same→eq s t)

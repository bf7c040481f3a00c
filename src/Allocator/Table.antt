-- ===== src/Allocator/Table.antt =====
-- The table of used blocks: the search of `BlockAlloc`, and how many blocks are in use.
use volume_backup.Prelude.{
  ◌≢◌, ◌≤◌, ap, ℕ, zero, suc, ◌+◌, ◌<◌, ◌≡◌, refl, Bool, true, false, List, [], ◌∷◌, Option, none,
  some, arith, length, set, get_or, replicate,
}

-- The loop of `BlockAlloc`: the first of so many entries that is not set.
unfoldable pub first_free : ℕ → List Bool → Option ℕ
first_free zero t = none
first_free (suc n) [] = none
first_free (suc n) (b ∷ t) = elim b [
  | true ↦ elim (first_free n t) [ none ↦ none | some i ↦ some (suc i) ]
  | false ↦ some 0
]

pub used : List Bool → ℕ
used [] = 0
used (true ∷ t) = suc (used t)
used (false ∷ t) = used t

-- What the search found is free, in range, and nothing before it is free; or all are in use.
pub data Search (n : ℕ) (t : List Bool) : Option ℕ → Type 0 where
  found :
      {i : ℕ}
      → i < n
      → i < length t
      → get_or t i true ≡ false
      → ((j : ℕ) → j < i → get_or t j false ≡ true)
      → Search n t (some i)
  full : ((j : ℕ) → j < n → j < length t → get_or t j false ≡ true) → Search n t none

Search-suc :
    (n : ℕ) (t : List Bool) {o : Option ℕ}
    → Search n t o
    → Search (suc n) (true ∷ t) (elim o [ none ↦ none | some i ↦ some (suc i) ])
Search-suc n t (found {i} a b c d) = found (omega arith) (omega arith) c before
  where
    before : (j : ℕ) → j < suc i → get_or (true ∷ t) j false ≡ true
    before zero h = refl
    before (suc j) h = d j (omega arith)
Search-suc n t (full d) = full all
  where
    all : (j : ℕ) → j < suc n → j < suc (length t) → get_or (true ∷ t) j false ≡ true
    all zero h k = refl
    all (suc j) h k = d j (omega arith) (omega arith)

pub first_free_lem : (n : ℕ) (t : List Bool) → Search n t (first_free n t)
unfolding first_free
first_free_lem zero t = full (λ j h k. absurd (omega arith))
first_free_lem (suc n) [] = full (λ j h k. absurd (omega arith))
first_free_lem (suc n) (true ∷ t) = Search-suc n t (first_free_lem n t)
first_free_lem (suc n) (false ∷ t) =
    found (omega arith) (omega arith) refl (λ j h. absurd (omega arith))

-- Setting a free entry uses one more block, and clearing it undoes that.
pub used-set :
    (t : List Bool) (i : ℕ)
    → i < length t
    → get_or t i true ≡ false
    → used (set t i true) ≡ used t + 1
unfolding used
used-set [] i h e = absurd (omega arith)
used-set (b ∷ t) zero h e = ground arith
used-set (true ∷ t) (suc i) h e = omega (arith, used-set t i (omega arith) e)
used-set (false ∷ t) (suc i) h e = used-set t i (omega arith) e

pub used-clear :
    (t : List Bool) (i : ℕ)
    → i < length t
    → get_or t i false ≡ true
    → used (set t i false) + 1 ≡ used t
unfolding used
used-clear [] i h e = absurd (omega arith)
used-clear (b ∷ t) zero h e = ground arith
used-clear (true ∷ t) (suc i) h e = omega (arith, used-clear t i (omega arith) e)
used-clear (false ∷ t) (suc i) h e = used-clear t i (omega arith) e

pub set-set-false :
    (t : List Bool) (i : ℕ) → get_or t i true ≡ false → set (set t i true) i false ≡ t
set-set-false [] i e = refl
set-set-false (b ∷ t) zero e = ground arith
set-set-false (b ∷ t) (suc i) e = ground (arith, set-set-false t i e)

pub used-replicate : (n : ℕ) → used (replicate n false) ≡ 0
unfolding used
used-replicate zero = refl
used-replicate (suc n) = used-replicate n

pub all_used :
    (t : List Bool) → ((j : ℕ) → j < length t → get_or t j false ≡ true) → used t ≡ length t
unfolding used
all_used [] h = refl
all_used (true ∷ t) h = ap suc (all_used t (λ j k. h (suc j) (omega arith)))
all_used (false ∷ t) h = cc (h 0 (omega arith))

pub used-le-length : (t : List Bool) → used t ≤ length t
unfolding used
used-le-length [] = omega arith
used-le-length (true ∷ t) = omega (arith, used-le-length t)
used-le-length (false ∷ t) = omega (arith, used-le-length t)

pub get_or_default :
    (t : List Bool) (i : ℕ) (b c : Bool) → i < length t → get_or t i b ≡ get_or t i c
get_or_default [] i b c h = absurd (omega arith)
get_or_default (x ∷ t) zero b c h = refl
get_or_default (x ∷ t) (suc i) b c h = get_or_default t i b c (omega arith)

pub get_or-set_self :
    (t : List Bool) (i : ℕ) (v b : Bool) → i < length t → get_or (set t i v) i b ≡ v
get_or-set_self [] i v b h = absurd (omega arith)
get_or-set_self (x ∷ t) zero v b h = refl
get_or-set_self (x ∷ t) (suc i) v b h = get_or-set_self t i v b (omega arith)

pub get_or-set_ne :
    (t : List Bool) (i j : ℕ) (v b : Bool) → i ≢ j → get_or (set t i v) j b ≡ get_or t j b
get_or-set_ne [] i j v b h = refl
get_or-set_ne (x ∷ t) zero zero v b h = absurd (h refl)
get_or-set_ne (x ∷ t) zero (suc j) v b h = refl
get_or-set_ne (x ∷ t) (suc i) zero v b h = refl
get_or-set_ne (x ∷ t) (suc i) (suc j) v b h = get_or-set_ne t i j v b (λ e. h (ap suc e))

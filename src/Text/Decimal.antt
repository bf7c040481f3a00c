-- ===== src/Text/Decimal.antt =====
-- `std::to_string` of a non-negative integer, and that different numbers have different numerals.
use mathlib.Core.WellFounded.{Acc}
use mathlib.Core.Logic.{dite}
use volume_backup.Prelude.{
  ℕ, zero, suc, ◌+◌, ◌*◌, ◌/◌, ◌%◌, ◌<◌, ◌≡◌, refl, ◌∙◌, sym, ap, List, [], ◌∷◌, ◌++◌, arith,
  dec_lt,
}

acc_below : (k n : ℕ) → n < k → Acc ◌<◌ n
acc_below zero n h = elim h [ ]
acc_below (suc k) n h = Acc.intro n (λ m hm. acc_below k m (omega arith))

tenth-lt : (n : ℕ) → ¬ (n < 10) → n / 10 < n
tenth-lt n h = omega arith

-- The digits from the highest to the lowest.
digits_acc : (n : ℕ) → Acc ◌<◌ n → List ℕ
digits_acc n (Acc.intro _ smaller) =
    dite (dec_lt n 10) (λ _. (n + 48) ∷ [])
      (λ h. digits_acc (n / 10) (smaller (n / 10) (tenth-lt n h)) ++ ((n % 10 + 48) ∷ []))

all_acc : (n : ℕ) → Acc ◌<◌ n
unfolding acc_below
all_acc n = acc_below (suc n) n (omega arith)

unfoldable pub to_string : ℕ → List ℕ
unfolding digits_acc all_acc dec_lt tenth-lt
to_string n = digits_acc n (all_acc n)

-- Reading a numeral: `acc` is what the digits so far stand for.
value : ℕ → List ℕ → ℕ
value acc [] = acc
value acc (c ∷ s) = value (acc * 10 + c % 48) s

value-append : (acc : ℕ) (s t : List ℕ) → value acc (s ++ t) ≡ value (value acc s) t
unfolding value
value-append acc [] t = refl
value-append acc (c ∷ s) t = value-append (acc * 10 + c % 48) s t

value-digits : (n : ℕ) (w : Acc ◌<◌ n) → value 0 (digits_acc n w) ≡ n
unfolding value digits_acc
value-digits n (Acc.intro _ smaller) = grind (
  arith,
  λ (h : ¬ (n < 10)).
      value-append 0 (digits_acc (n / 10) (smaller (n / 10) (tenth-lt n h))) ((n % 10 + 48) ∷ []),
  λ (h : ¬ (n < 10)). value-digits (n / 10) (smaller (n / 10) (tenth-lt n h)),
)

-- Different numbers have different numerals.
pub to_string-injective : (m n : ℕ) → to_string m ≡ to_string n → m ≡ n
unfolding to_string
to_string-injective m n e =
    sym (value-digits m (all_acc m)) ∙ ap (value 0) e ∙ value-digits n (all_acc n)

-- No character of a text is a terminator.
abbrev pub NoNul : List ℕ → Type 0
NoNul [] = Unit {0}
NoNul (c ∷ s) = (0 < c) × NoNul s

pub NoNul-append : (s t : List ℕ) → NoNul s → NoNul t → NoNul (s ++ t)
NoNul-append [] t p q = q
NoNul-append (c ∷ s) t (pos, p) q = (pos, NoNul-append s t p q)

NoNul-dite :
    {P : Type 0} (d : Dec P) (f : P → List ℕ) (g : ¬ P → List ℕ)
    → ((h : P) → NoNul (f h))
    → ((h : ¬ P) → NoNul (g h))
    → NoNul (dite d f g)
NoNul-dite (yes h) f g p q = p h
NoNul-dite (no h) f g p q = q h

NoNul-digits : (n : ℕ) (w : Acc ◌<◌ n) → NoNul (digits_acc n w)
unfolding digits_acc
NoNul-digits n (Acc.intro _ smaller) =
    NoNul-dite (dec_lt n 10) _ _ (λ _. (omega arith, tt))
      (λ h.
        NoNul-append (digits_acc (n / 10) (smaller (n / 10) (tenth-lt n h))) ((n % 10 + 48) ∷ [])
          (NoNul-digits (n / 10) (smaller (n / 10) (tenth-lt n h))) (omega arith, tt))

pub to_string-NoNul : (n : ℕ) → NoNul (to_string n)
unfolding to_string
to_string-NoNul n = NoNul-digits n (all_acc n)

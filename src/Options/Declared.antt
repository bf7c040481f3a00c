-- ===== src/Options/Declared.antt =====
-- cli/GetOption.cpp: the options that a program declares, and its command line.
use volume_backup.Prelude.{
  ℕ, ◌≡◌, ◌≢◌, refl, ◌∙◌, ap, Bool, true, false, List, [], ◌∷◌, ◌++◌, arith,
}
use volume_backup.Text.{Text}
use volume_backup.Options.{
  is_alphabet, parse_short_option, strip_dashes, split_equals, parse_long_option, get_option,
}
use volume_backup.Options.RoundTrip.{
  NoEquals, IsName, Item, AllFit, write_all, read_all, parse_args-write_all,
}

abbrev pub Letters : List (ℕ × Bool) → Type 0
Letters [] = Unit {0}
Letters ((c, has_arg) ∷ shorts) = (is_alphabet c ≡ true) × Letters shorts

abbrev pub Names : List (Text × Bool) → Type 0
Names [] = Unit {0}
Names ((name, has_arg) ∷ longs) = IsName name × Names longs

-- The string of the short options: a colon stands behind a letter with an argument.
abbrev pub short_text : List (ℕ × Bool) → Text
short_text [] = []
short_text ((c, false) ∷ shorts) = c ∷ short_text shorts
short_text ((c, true) ∷ shorts) = c ∷ b':' ∷ short_text shorts

-- The set of the long options: a `=` ends the name of one with an argument.
abbrev pub long_texts : List (Text × Bool) → List Text
long_texts [] = []
long_texts ((name, false) ∷ longs) = (b'-' ∷ b'-' ∷ name) ∷ long_texts longs
long_texts ((name, true) ∷ longs) = (b'-' ∷ b'-' ∷ (name ++ (b'=' ∷ []))) ∷ long_texts longs

-- A letter, whatever follows but a colon.
parse_short-flag :
    (c d : ℕ) (s : Text)
    → is_alphabet c ≡ true
    → d ≢ b':'
    → parse_short_option (c ∷ d ∷ s) ≡ (c, false) ∷ parse_short_option (d ∷ s)
unfolding parse_short_option
parse_short-flag c d s letter ne = ground arith

parse_short-with :
    (c : ℕ) (s : Text)
    → is_alphabet c ≡ true
    → parse_short_option (c ∷ b':' ∷ s) ≡ (c, true) ∷ parse_short_option s
unfolding parse_short_option
parse_short-with c s letter = ground arith

letter-colon : (c : ℕ) → is_alphabet c ≡ true → c ≢ b':'
letter-colon c letter = ground arith

parse_short-text :
    (shorts : List (ℕ × Bool)) → Letters shorts → parse_short_option (short_text shorts) ≡ shorts
unfolding parse_short_option
parse_short-text [] letters = refl
parse_short-text ((c, true) ∷ shorts) (letter, letters) =
    parse_short-with c (short_text shorts) letter
    ∙ ap (λ (l : List (ℕ × Bool)). (c, true) ∷ l) (parse_short-text shorts letters)
parse_short-text ((c, false) ∷ []) (letter, letters) = rw letter refl
parse_short-text ((c, false) ∷ (d, false) ∷ shorts) (letter, (other, letters)) =
    parse_short-flag c d (short_text shorts) letter (letter-colon d other)
    ∙ ap (λ (l : List (ℕ × Bool)). (c, false) ∷ l)
        (parse_short-text ((d, false) ∷ shorts) (other, letters))
parse_short-text ((c, false) ∷ (d, true) ∷ shorts) (letter, (other, letters)) =
    parse_short-flag c d (b':' ∷ short_text shorts) letter (letter-colon d other)
    ∙ ap (λ (l : List (ℕ × Bool)). (c, false) ∷ l)
        (parse_short-text ((d, true) ∷ shorts) (other, letters))

split_equals-flag : (s : Text) → NoEquals s → split_equals s ≡ (s, false)
unfolding split_equals
split_equals-flag [] free = refl
split_equals-flag (c ∷ []) (ne, free) = ground arith
split_equals-flag (c ∷ d ∷ s) (ne, free) = rw (split_equals-flag (d ∷ s) free) refl

split_equals-with : (s : Text) → split_equals (s ++ (b'=' ∷ [])) ≡ (s, true)
unfolding split_equals
split_equals-with [] = refl
split_equals-with (c ∷ []) = refl
split_equals-with (c ∷ d ∷ s) = rw (split_equals-with (d ∷ s)) refl

strip_dashes-name :
    (name rest : Text) → IsName name → strip_dashes (b'-' ∷ b'-' ∷ (name ++ rest)) ≡ name ++ rest
unfolding strip_dashes
strip_dashes-name [] rest is = elim is [ ]
strip_dashes-name (c ∷ name) rest (dash, free) = ground arith

strip_name : (name : Text) → IsName name → strip_dashes (b'-' ∷ b'-' ∷ name) ≡ name
unfolding strip_dashes
strip_name [] is = elim is [ ]
strip_name (c ∷ name) (dash, free) = ground arith

IsName-NoEquals : (name : Text) → IsName name → NoEquals name
IsName-NoEquals [] is = elim is [ ]
IsName-NoEquals (c ∷ name) (dash, free) = free

parse_long-texts :
    (longs : List (Text × Bool)) → Names longs → parse_long_option (long_texts longs) ≡ longs
unfolding parse_long_option
parse_long-texts [] names = refl
parse_long-texts ((name, true) ∷ longs) (is, names) =
    rw (strip_dashes-name name (b'=' ∷ []) is, split_equals-with name)
      (ap (λ (l : List (Text × Bool)). (name, true) ∷ l) (parse_long-texts longs names))
parse_long-texts ((name, false) ∷ longs) (is, names) =
    rw (strip_name name is, split_equals-flag name (IsName-NoEquals name is))
      (ap (λ (l : List (Text × Bool)). (name, false) ∷ l) (parse_long-texts longs names))

-- A command line that is written from items that fit the declared options is read back by
-- `GetOption` as those items, in their order, each option with the value that was written, joined
-- or separate. The short options are letters, and a long option's name is not empty, begins with
-- no dash and has no `=`; nor has a long option's value.
pub get_option-write_all :
    (shorts : List (ℕ × Bool)) (longs : List (Text × Bool)) (items : List Item)
    → Letters shorts
    → Names longs
    → AllFit shorts longs items
    → get_option (write_all items) (short_text shorts) (long_texts longs) ≡ read_all items
unfolding get_option
get_option-write_all shorts longs items letters names fit =
    rw (parse_short-text shorts letters, parse_long-texts longs names)
      (parse_args-write_all shorts longs items fit)

-- ===== src/Options/RoundTrip.antt =====
-- cli/GetOption.cpp: options that are written out are read back, but for the values with a `=`.
use volume_backup.Prelude.{
  ℕ, ◌≡◌, ◌≢◌, refl, ◌∙◌, ap, subst, append_assoc, Bool, true, false, Option, none, some, List, [],
  ◌∷◌, ◌++◌, arith, if◌then◌else◌,
}
use volume_backup.Text.{Text}
use volume_backup.Text.Search.{starts_with}
use volume_backup.Options.{
  GetOptionResult, find_char, find_name, before_equals, after_last_equals, long_name, long_value,
  or_empty, add_opt, add_arg, no_name, long_option, is_long, short_option, parse_arg, nothing,
  parse_args,
}

-- There is no `=` in a text.
abbrev pub NoEquals : Text → Type 0
NoEquals [] = Unit {0}
NoEquals (c ∷ s) = (c ≢ b'=') × NoEquals s

-- The name of a long option: it does not begin with a dash, and has no `=`.
abbrev pub IsName : Text → Type 0
IsName [] = ⊥
IsName (c ∷ s) = (c ≢ b'-') × NoEquals (c ∷ s)

-- What may stand on a command line.
pub data Item : Type 0 where
  long_flag : Text → Item
  long_with : Text → Text → Item
  short_flag : ℕ → Item
  short_joined : ℕ → ℕ → Text → Item
  short_separate : ℕ → Text → Item
  positional : Text → Item

abbrev pub written : Item → List Text → List Text
written (long_flag name) args = (b'-' ∷ b'-' ∷ name) ∷ args
written (long_with name value) args = (b'-' ∷ b'-' ∷ (name ++ (b'=' ∷ value))) ∷ args
written (short_flag c) args = (b'-' ∷ c ∷ []) ∷ args
written (short_joined c d value) args = (b'-' ∷ c ∷ d ∷ value) ∷ args
written (short_separate c value) args = (b'-' ∷ c ∷ []) ∷ value ∷ args
written (positional arg) args = arg ∷ args

abbrev pub read : Item → GetOptionResult → GetOptionResult
read (long_flag name) r = add_opt name [] r
read (long_with name value) r = add_opt name value r
read (short_flag c) r = add_opt (c ∷ []) [] r
read (short_joined c d value) r = add_opt (c ∷ []) (d ∷ value) r
read (short_separate c value) r = add_opt (c ∷ []) value r
read (positional arg) r = add_arg arg r

abbrev pub NoOption : Text → Type 0
NoOption [] = Unit {0}
NoOption (c ∷ []) = Unit {0}
NoOption (c ∷ d ∷ s) = c ≢ b'-'

-- The item fits the options that the program has.
abbrev pub Fits : List (ℕ × Bool) → List (Text × Bool) → Item → Type 0
Fits shorts longs (long_flag name) = IsName name × (find_name name longs ≡ some false)
Fits shorts longs (long_with name value) =
    IsName name × (find_name name longs ≡ some true) × NoEquals value
Fits shorts longs (short_flag c) = (c ≢ b'-') × (find_char c shorts ≡ some false)
Fits shorts longs (short_joined c d value) = (c ≢ b'-') × (find_char c shorts ≡ some true)
Fits shorts longs (short_separate c value) = (c ≢ b'-') × (find_char c shorts ≡ some true)
Fits shorts longs (positional arg) = NoOption arg

abbrev pub AllFit : List (ℕ × Bool) → List (Text × Bool) → List Item → Type 0
AllFit shorts longs [] = Unit {0}
AllFit shorts longs (i ∷ is) = Fits shorts longs i × AllFit shorts longs is

abbrev pub write_all : List Item → List Text
write_all [] = []
write_all (i ∷ is) = written i (write_all is)

abbrev pub read_all : List Item → GetOptionResult
read_all [] = nothing
read_all (i ∷ is) = read i (read_all is)

-- One round, whatever follows.
parse_args-step :
    (shorts : List (ℕ × Bool)) (longs : List (Text × Bool)) (arg : Text) (args : List Text)
    → (next : Option Text) × (after : GetOptionResult) × (parse_args shorts longs (arg ∷ args)
        ≡ parse_arg shorts longs arg next (parse_args shorts longs args) after)
unfolding parse_args
parse_args-step shorts longs arg [] = (none, nothing, refl)
parse_args-step shorts longs arg (next ∷ more) = (some next, parse_args shorts longs more, refl)

before_equals-none : (s : Text) → NoEquals s → before_equals s ≡ s
unfolding before_equals
before_equals-none [] free = refl
before_equals-none (c ∷ s) (ne, rest) = ground (arith, before_equals-none s rest)

before_equals-append : (s t : Text) → NoEquals s → before_equals (s ++ (b'=' ∷ t)) ≡ s
unfolding before_equals
before_equals-append [] t free = refl
before_equals-append (c ∷ s) t (ne, rest) = ground (arith, before_equals-append s t rest)

after_last-none : (s : Text) → NoEquals s → after_last_equals s ≡ none
unfolding after_last_equals
after_last-none [] free = refl
after_last-none (c ∷ s) (ne, rest) = ground (arith, after_last-none s rest)

-- Only what stands after the last `=` counts.
after_last-append : (s t : Text) → NoEquals t → after_last_equals (s ++ (b'=' ∷ t)) ≡ some t
unfolding after_last_equals
after_last-append [] t free = ground (arith, after_last-none t free)
after_last-append (c ∷ s) t free = ground (arith, after_last-append s t free)

name-starts : (name : Text) → IsName name → no_name name ≡ false
name-starts [] is = elim is [ ]
name-starts (c ∷ name) is = refl

long_name-flag : (name : Text) → IsName name → long_name (b'-' ∷ b'-' ∷ name) ≡ name
unfolding long_name
long_name-flag [] is = elim is [ ]
long_name-flag (c ∷ name) (dash, eqs) = ground (arith, before_equals-none (c ∷ name) eqs)

long_name-with :
    (name value : Text) → IsName name → long_name (b'-' ∷ b'-' ∷ (name ++ (b'=' ∷ value))) ≡ name
unfolding long_name
long_name-with [] value is = elim is [ ]
long_name-with (c ∷ name) value (dash, eqs) =
    ground (arith, before_equals-append (c ∷ name) value eqs)

long_value-with : (s t : Text) → NoEquals t → long_value (b'-' ∷ b'-' ∷ (s ++ (b'=' ∷ t))) ≡ t
unfolding long_value
long_value-with s t free = ap or_empty (after_last-append (b'-' ∷ b'-' ∷ s) t free)

long_value-cut :
    (s before kept : Text)
    → NoEquals kept
    → long_value (b'-' ∷ b'-' ∷ (s ++ (b'=' ∷ (before ++ (b'=' ∷ kept))))) ≡ kept
long_value-cut s before kept free =
    subst (λ (t : Text). long_value (b'-' ∷ b'-' ∷ t) ≡ kept)
      (append_assoc s (b'=' ∷ before) (b'=' ∷ kept))
      (long_value-with (s ++ (b'=' ∷ before)) kept free)

long_option-of_name :
    (longs : List (Text × Bool)) (arg : Text) (has_arg : Bool) (rest : GetOptionResult)
    → no_name (long_name arg) ≡ false
    → find_name (long_name arg) longs ≡ some has_arg
    → long_option longs arg rest
      ≡ add_opt (long_name arg) (if has_arg then long_value arg else []) rest
unfolding long_option
long_option-of_name longs arg has_arg rest p q = rw (p, q) refl

-- A long option that the program has, with what is read of it.
long_option-known :
    (longs : List (Text × Bool)) (arg name : Text) (has_arg : Bool) (rest : GetOptionResult)
    → IsName name
    → long_name arg ≡ name
    → find_name name longs ≡ some has_arg
    → long_option longs arg rest ≡ add_opt name (if has_arg then long_value arg else []) rest
long_option-known longs arg name has_arg rest is p known =
    long_option-of_name longs arg has_arg rest (ap no_name p ∙ name-starts name is)
      (ap (λ (n : Text). find_name n longs) p ∙ known)
    ∙ ap (λ (n : Text). add_opt n (if has_arg then long_value arg else []) rest) p

is_long-dashes : (s : Text) → is_long (b'-' ∷ b'-' ∷ s) ≡ true
unfolding starts_with
is_long-dashes s = refl

parse_arg-long :
    (shorts : List (ℕ × Bool)) (longs : List (Text × Bool)) (s : Text) (next : Option Text)
    → (rest after : GetOptionResult)
    → parse_arg shorts longs (b'-' ∷ b'-' ∷ s) next rest after
      ≡ long_option longs (b'-' ∷ b'-' ∷ s) rest
unfolding parse_arg starts_with
parse_arg-long shorts longs s next rest after = refl

parse_arg-short :
    (shorts : List (ℕ × Bool)) (longs : List (Text × Bool)) (c : ℕ) (s : Text)
    → (next : Option Text) (rest after : GetOptionResult) → c ≢ b'-'
    → parse_arg shorts longs (b'-' ∷ c ∷ s) next rest after
      ≡ short_option (find_char c shorts) (b'-' ∷ c ∷ s) c s next rest after
unfolding parse_arg starts_with
parse_arg-short shorts longs c s next rest after ne = ground (arith)

parse_arg-positional :
    (shorts : List (ℕ × Bool)) (longs : List (Text × Bool)) (arg : Text) (next : Option Text)
    → (rest after : GetOptionResult) → NoOption arg
    → parse_arg shorts longs arg next rest after ≡ add_arg arg rest
unfolding parse_arg starts_with
parse_arg-positional shorts longs [] next rest after h = refl
parse_arg-positional shorts longs (c ∷ []) next rest after h = ground arith
parse_arg-positional shorts longs (c ∷ d ∷ s) next rest after h = ground arith

-- An item that fits is read, and the arguments behind it are read as they would be without it.
parse_args-written :
    (shorts : List (ℕ × Bool)) (longs : List (Text × Bool)) (item : Item) (args : List Text)
    → Fits shorts longs item
    → parse_args shorts longs (written item args) ≡ read item (parse_args shorts longs args)
unfolding short_option
parse_args-written shorts longs (long_flag name) args (is, known) =
    let (next, after, e) = parse_args-step shorts longs (b'-' ∷ b'-' ∷ name) args in
    e
    ∙ parse_arg-long shorts longs name next _ after
    ∙ long_option-known longs _ name false _ is (long_name-flag name is) known
parse_args-written shorts longs (long_with name value) args (is, known, free) =
    let s : Text = name ++ (b'=' ∷ value) in
    let (next, after, e) = parse_args-step shorts longs (b'-' ∷ b'-' ∷ s) args in
    e
    ∙ parse_arg-long shorts longs s next _ after
    ∙ long_option-known longs _ name true _ is (long_name-with name value is) known
    ∙ ap (λ (t : Text). add_opt name t (parse_args shorts longs args))
        (long_value-with name value free)
parse_args-written shorts longs (short_flag c) args (ne, known) =
    let (next, after, e) = parse_args-step shorts longs (b'-' ∷ c ∷ []) args in
    e ∙ parse_arg-short shorts longs c [] next _ after ne ∙ rw known refl
parse_args-written shorts longs (short_joined c d value) args (ne, known) =
    let (next, after, e) = parse_args-step shorts longs (b'-' ∷ c ∷ d ∷ value) args in
    e ∙ parse_arg-short shorts longs c (d ∷ value) next _ after ne ∙ rw known refl
parse_args-written shorts longs (short_separate c value) args (ne, known) =
    unfold parse_args in (parse_arg-short shorts longs c [] (some value) _ _ ne ∙ rw known refl)
parse_args-written shorts longs (positional arg) args free =
    let (next, after, e) = parse_args-step shorts longs arg args in
    e ∙ parse_arg-positional shorts longs arg next _ after free

-- A command line that is written from items that fit the options is read back as those items, in
-- their order, each option with the value that was written, joined or separate.
pub parse_args-write_all :
    (shorts : List (ℕ × Bool)) (longs : List (Text × Bool)) (items : List Item)
    → AllFit shorts longs items
    → parse_args shorts longs (write_all items) ≡ read_all items
unfolding parse_args
parse_args-write_all shorts longs [] fit = refl
parse_args-write_all shorts longs (item ∷ items) (fits, fit) =
    parse_args-written shorts longs item (write_all items) fits
    ∙ ap (read item) (parse_args-write_all shorts longs items fit)

-- The value of a long option with an argument that holds a `=` loses all up to its last `=`,
-- whatever stands on the command line behind it.
pub long_option-cut :
    (shorts : List (ℕ × Bool)) (longs : List (Text × Bool)) (name before kept : Text)
    → (args : List Text) → IsName name
    → find_name name longs ≡ some true
    → NoEquals kept
    → parse_args shorts longs ((b'-' ∷ b'-' ∷ (name ++ (b'=' ∷ (before ++ (b'=' ∷ kept))))) ∷ args)
      ≡ add_opt name kept (parse_args shorts longs args)
long_option-cut shorts longs name before kept args is known free =
    let value : Text = before ++ (b'=' ∷ kept) in
    let s : Text = name ++ (b'=' ∷ value) in
    let (next, after, e) = parse_args-step shorts longs (b'-' ∷ b'-' ∷ s) args in
    e
    ∙ parse_arg-long shorts longs s next _ after
    ∙ long_option-known longs _ name true _ is (long_name-with name value is) known
    ∙ ap (λ (t : Text). add_opt name t (parse_args shorts longs args))
        (long_value-cut name before kept free)

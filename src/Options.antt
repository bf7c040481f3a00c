-- ===== src/Options.antt =====
-- cli/GetOption.cpp: the options of a command line. A `std::map` is a list of pairs in which the
-- first entry of a key counts, as `emplace` keeps an entry that is there.
mod Tests
pub mod RoundTrip
pub mod Declared
use volume_backup.Prelude.{
  ℕ, zero, suc, ◌+◌, ◌-◌, Bool, true, false, not, ◌&&◌, ◌||◌, Option, none, some, List, [], ◌∷◌,
  ◌++◌, length, take, drop, ltb, leb, ◌==◌, if◌then◌else◌,
}
use volume_backup.Text.{Text, codes}
use volume_backup.Text.Search.{same, starts_with}

pub record OptionResult : Type 0 where
  pub option : Text
  pub value : Text

pub record GetOptionResult : Type 0 where
  pub opts : List OptionResult
  pub args : List Text

-- `IsAlphabet`.
abbrev pub is_alphabet : ℕ → Bool
is_alphabet ch = (leb b'A' ch && leb ch b'Z') || (leb b'a' ch && leb ch b'z')

-- `ParseShortOption`: a colon after a letter tells that the option has an argument.
unfoldable pub parse_short_option : Text → List (ℕ × Bool)
parse_short_option [] = []
parse_short_option (c ∷ []) = if is_alphabet c then (c, false) ∷ [] else []
parse_short_option (c ∷ d ∷ s) =
    let after = (c, true) ∷ parse_short_option s in
    let rest = parse_short_option (d ∷ s) in
    if is_alphabet c then if d == b':' then after else (c, false) ∷ rest else rest

-- The leading dashes are taken off.
unfoldable pub strip_dashes : Text → Text
strip_dashes [] = []
strip_dashes (c ∷ s) = if c == b'-' then strip_dashes s else c ∷ s

-- A name without a last `=`, and whether it has one.
unfoldable pub split_equals : Text → Text × Bool
split_equals [] = ([], false)
split_equals (c ∷ []) = if c == b'=' then ([], true) else (c ∷ [], false)
split_equals (c ∷ d ∷ s) = let (name, has_arg) = split_equals (d ∷ s) in (c ∷ name, has_arg)

-- `ParseLongOption`. The list stands for a std::set, which is visited in its order: it has the
-- options sorted as strings, none twice.
unfoldable pub parse_long_option : List Text → List (Text × Bool)
unfolding strip_dashes split_equals
parse_long_option [] = []
parse_long_option (option ∷ options) =
    split_equals (strip_dashes option) ∷ parse_long_option options

unfoldable pub find_char : ℕ → List (ℕ × Bool) → Option Bool
find_char c [] = none
find_char c ((d, has_arg) ∷ entries) = if d == c then some has_arg else find_char c entries

unfoldable pub find_name : Text → List (Text × Bool) → Option Bool
unfolding same
find_name name [] = none
find_name name ((other, has_arg) ∷ entries) =
    if same other name then some has_arg else find_name name entries

-- The part before the first `=`, or all of it.
unfoldable pub before_equals : Text → Text
before_equals [] = []
before_equals (c ∷ s) = if c == b'=' then [] else c ∷ before_equals s

-- The part after the last `=`, if there is one.
unfoldable pub after_last_equals : Text → Option Text
after_last_equals [] = none
after_last_equals (c ∷ s) =
    let rest = after_last_equals s in
    elim rest [ some t ↦ some t | none ↦ if c == b'=' then some s else none ]

-- `ParseLongOptionNameFromArg`: empty unless two dashes and no third one begin the argument.
unfoldable pub long_name : Text → Text
unfolding before_equals
long_name [] = []
long_name (a ∷ []) = []
long_name (a ∷ b ∷ []) = []
long_name (a ∷ b ∷ c ∷ s) =
    if a == b'-' && (b == b'-' && not (c == b'-')) then before_equals (c ∷ s) else []

abbrev pub or_empty : Option Text → Text
or_empty none = []
or_empty (some t) = t

-- `ParseLongOptionValueFromArg`.
unfoldable pub long_value : Text → Text
unfolding after_last_equals
long_value arg = or_empty (after_last_equals arg)

abbrev pub add_opt : Text → Text → GetOptionResult → GetOptionResult
add_opt name value r = record r { opts = record { option = name; value = value } ∷ r.opts }

abbrev pub add_arg : Text → GetOptionResult → GetOptionResult
add_arg arg r = record r { args = arg ∷ r.args }

abbrev pub no_name : Text → Bool
no_name [] = true
no_name (c ∷ s) = false

-- An argument that begins with two dashes, with the result of those after it.
unfoldable pub long_option : List (Text × Bool) → Text → GetOptionResult → GetOptionResult
unfolding find_name long_name long_value
long_option longs arg rest =
    if no_name (long_name arg) then add_arg arg rest else elim (find_name (long_name arg) longs) [
      | none ↦ add_arg arg rest
      | some has_arg ↦ add_opt (long_name arg) (if has_arg then long_value arg else []) rest
    ]

abbrev pub is_long : Text → Bool
is_long arg = starts_with (codes "--") arg

-- The character and the rest of an argument that begins with a dash and is longer.
abbrev pub short_parts : Text → Option (ℕ × Text)
short_parts [] = none
short_parts (a ∷ []) = none
short_parts (a ∷ c ∷ value) = if a == b'-' then some (c, value) else none

-- The value of an option with an argument: what stands behind it, or else the next argument, which
-- is passed over. `rest` and `after` are the results of the arguments after it and after the next.
abbrev pub with_value :
    Text → Text → Option Text → GetOptionResult → GetOptionResult → GetOptionResult
with_value name [] none rest after = add_opt name [] rest
with_value name [] (some next) rest after = add_opt name next after
with_value name (c ∷ value) next rest after = add_opt name (c ∷ value) rest

unfoldable pub short_option :
    Option Bool
    → Text
    → ℕ
    → Text
    → Option Text
    → GetOptionResult
    → GetOptionResult
    → GetOptionResult
short_option none arg c value next rest after = add_arg arg rest
short_option (some false) arg c value next rest after = add_opt (c ∷ []) [] rest
short_option (some true) arg c value next rest after = with_value (c ∷ []) value next rest after

-- A round of the loop of `GetOption`.
unfoldable pub parse_arg :
    List (ℕ × Bool)
    → List (Text × Bool)
    → Text
    → Option Text
    → GetOptionResult
    → GetOptionResult
    → GetOptionResult
unfolding long_option short_option find_char
parse_arg shorts longs arg next rest after =
    if is_long arg then long_option longs arg rest else elim (short_parts arg) [
      | none ↦ add_arg arg rest
      | some (c, value) ↦ short_option (find_char c shorts) arg c value next rest after
    ]

abbrev pub nothing : GetOptionResult
nothing = record { opts = []; args = [] }

-- The loop of `GetOption` over the arguments.
unfoldable pub parse_args : List (ℕ × Bool) → List (Text × Bool) → List Text → GetOptionResult
unfolding parse_arg
parse_args shorts longs [] = nothing
parse_args shorts longs (arg ∷ []) = parse_arg shorts longs arg none nothing nothing
parse_args shorts longs (arg ∷ next ∷ more) =
    let rest = parse_args shorts longs (next ∷ more) in
    let after = parse_args shorts longs more in parse_arg shorts longs arg (some next) rest after

-- `GetOption`.
unfoldable pub get_option : List Text → Text → List Text → GetOptionResult
unfolding parse_args parse_short_option parse_long_option
get_option args short_option_str long_option_set =
    parse_args (parse_short_option short_option_str) (parse_long_option long_option_set) args

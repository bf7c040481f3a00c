-- ===== src/Options/Tests.antt =====
-- cli/GetOption.cpp: command lines of the tools.
use volume_backup.Prelude.{ℕ, ◌≡◌, refl, Bool, true, false, some, List, [], ◌∷◌, arith}
use volume_backup.Text.{Text, codes}
use volume_backup.Text.Search.{same}
use volume_backup.Options.{
  find_char, find_name, parse_short_option, strip_dashes, split_equals, parse_long_option, add_opt,
  parse_args, get_option,
}
use volume_backup.Options.RoundTrip.{
  Item, long_flag, long_with, short_flag, short_joined, short_separate, positional, AllFit,
  write_all, read_all, long_option-cut,
}
use volume_backup.Options.Declared.{Letters, short_text, get_option-write_all}

abbrev example_shorts : List (ℕ × Bool)
example_shorts = (b'v', true) ∷ (b'h', false) ∷ []

abbrev example_longs : List (Text × Bool)
example_longs = (codes "name", true) ∷ (codes "mount", false) ∷ []

abbrev example_items : List Item
example_items =
    long_with (codes "name") (codes "a")
    ∷ short_separate b'v' (codes "-h")
    ∷ short_joined b'v' b'h' []
    ∷ positional (codes "x=1")
    ∷ long_flag (codes "mount")
    ∷ short_flag b'h'
    ∷ []

short_text_lem : short_text example_shorts ≡ codes "v:h"
short_text_lem = refl

-- `ParseShortOption` passes over what is no letter.
parse_short_option_test :
    parse_short_option (codes "v:-ha:") ≡ (b'v', true) ∷ (b'h', false) ∷ (b'a', true) ∷ []
unfolding parse_short_option
parse_short_option_test = refl

parse_long_option_test :
    parse_long_option (codes "--prev=" ∷ codes "--verbose" ∷ [])
    ≡ (codes "prev", true) ∷ (codes "verbose", false) ∷ []
unfolding parse_long_option strip_dashes split_equals
parse_long_option_test = refl

example-AllFit : AllFit example_shorts example_longs example_items
unfolding find_char find_name same
example-AllFit = (
  (omega arith, refl, omega arith),
  (
    (omega arith, refl),
    ((omega arith, refl), (omega arith, ((omega arith, refl), ((omega arith, refl), tt)))),
  ),
)

example-Letters : Letters example_shorts
example-Letters = (refl, (refl, tt))

get_option-write_all_example :
    get_option (write_all example_items) (codes "v:h") (codes "--name=" ∷ codes "--mount" ∷ [])
    ≡ read_all example_items
get_option-write_all_example =
    get_option-write_all example_shorts example_longs example_items example-Letters (omega arith)
      example-AllFit

example_known : find_name (codes "option") ((codes "option", true) ∷ []) ≡ some true
unfolding find_name same
example_known = refl

long_option-cut_example :
    parse_args [] ((codes "option", true) ∷ []) (codes "--option=loop=/dev/loop0" ∷ codes "x" ∷ [])
    ≡ add_opt
        (codes "option")
        (codes "/dev/loop0")
        (parse_args [] ((codes "option", true) ∷ []) (codes "x" ∷ []))
long_option-cut_example =
    long_option-cut [] ((codes "option", true) ∷ []) (codes "option") (codes "loop")
      (codes "/dev/loop0") (codes "x" ∷ []) (omega arith) example_known (omega arith)

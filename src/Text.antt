-- ===== src/Text.antt =====
-- Text as lists of character codes, decimal numerals, and the path functions of
-- include/common/VolumeUtils.h and src/common/VolumeUtils.cpp (POSIX separator).
pub mod Decimal
pub mod Path
pub mod Search
mod Tests
use Prim.Native.Char.{code}
use Prim.Native.String.{String}
use volume_backup.Prelude.{ℕ, List, [], ◌∷◌}

abbrev pub Text : Type 0
Text = List ℕ

abbrev pub codes : String → Text
codes String.[] = []
codes (String.◌∷◌ c s) = code c ∷ codes s

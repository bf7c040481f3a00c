-- ===== src/Text/Path/Names.antt =====
-- The file names of a copy: a file of its own for each session, and a file name that is found again
-- in the path that is made of it.
use mathlib.Core.List.{append_cancel_left, append_cancel_right}
use volume_backup.Prelude.{
  ℕ, zero, suc, ◌≡◌, refl, ◌≢◌, sym, false, none, some, [], ◌∷◌, ◌++◌, arith, ◌==◌, if◌then◌else◌,
  drop, length,
}
use volume_backup.Text.{Text, codes}
use volume_backup.Text.Decimal.{to_string, to_string-injective}
use volume_backup.Session.{bin, image}
use volume_backup.Text.Path.{
  path_join, checksum_bin_path, copy_data_file_path, writer_bitmap_file_path, find_last_separator,
  file_name, is_separator,
}

-- A path ends in its own file name.
join-cancel : (dir s t : Text) → path_join dir s ≡ path_join dir t → s ≡ t
unfolding path_join
join-cancel dir s t e = cc (append_cancel_left dir (b'/' ∷ s) (b'/' ∷ t) e)

numbered :
    (name dot tail : Text) (m n : ℕ)
    → name ++ (dot ++ (to_string m ++ tail)) ≡ name ++ (dot ++ (to_string n ++ tail))
    → m ≡ n
numbered name dot tail m n e = to_string-injective m n (
    append_cancel_right (to_string m) (to_string n) tail
      (append_cancel_left dot _ _ (append_cancel_left name _ _ e)))

suc_eq_zero : (n : ℕ) → (suc n == 0) ≡ false
suc_eq_zero n = ground arith

-- The name of the first data file ends where that of a part goes on.
first_ne_part :
    (name tail : Text)
    → name ++ codes ".copydata.bin" ≢ name ++ (codes ".copydata.bin.part" ++ tail)
first_ne_part name tail e = cc (
    append_cancel_left (codes ".copydata.bin") [] (codes ".part" ++ tail)
      (append_cancel_left name _ _ e))

data_index :
    (name : Text) (m n : ℕ)
    → (if m == 0
        then name ++ codes ".copydata.bin"
        else name ++ (codes ".copydata.bin.part" ++ to_string m))
      ≡ (if n == 0
          then name ++ codes ".copydata.bin"
          else name ++ (codes ".copydata.bin.part" ++ to_string n))
    → m ≡ n
data_index name zero zero e = refl
data_index name zero (suc n) e =
    absurd (first_ne_part name (to_string (suc n)) (rw (suc_eq_zero n) at e))
data_index name (suc m) zero e =
    absurd (first_ne_part name (to_string (suc m)) (sym (rw (suc_eq_zero m) at e)))
data_index name (suc m) (suc n) e = to_string-injective (suc m) (suc n) (
    append_cancel_left (codes ".copydata.bin.part") _ _
      (append_cancel_left name _ _ (rw (suc_eq_zero m, suc_eq_zero n) at e)))

-- Sessions of one copy with different indices have different checksum files, different checkpoint
-- files, and in the binary format different data files; in the image format they share one file.
pub session_files_distinct :
    (dir name : Text) (m n : ℕ)
    → m ≢ n
    → (checksum_bin_path dir name m ≢ checksum_bin_path dir name n)
      × (writer_bitmap_file_path dir name m ≢ writer_bitmap_file_path dir name n)
      × (copy_data_file_path dir name bin m ≢ copy_data_file_path dir name bin n)
      × (copy_data_file_path dir name image m ≡ copy_data_file_path dir name image n)
unfolding checksum_bin_path writer_bitmap_file_path copy_data_file_path
session_files_distinct dir name m n h = (
  λ e. h (numbered name (codes ".") (codes ".sha256.meta.bin") m n (join-cancel dir _ _ e)),
  λ e. h (numbered name (codes ".") (codes ".checkpoint.bin") m n (join-cancel dir _ _ e)),
  λ e. h (data_index name m n (join-cancel dir _ _ e)),
  refl,
)

abbrev pub IsPlain : Text → Type 0
IsPlain [] = Unit {0}
IsPlain (c ∷ s) = (is_separator c ≡ false) × IsPlain s

find-plain : (s : Text) → IsPlain s → find_last_separator s ≡ none
unfolding find_last_separator
find-plain [] h = refl
find-plain (c ∷ s) h = ground (arith, find-plain s h.1)

find-join : (dir s : Text) → IsPlain s → find_last_separator (dir ++ (b'/' ∷ s)) ≡ some (length dir)
unfolding find_last_separator
find-join [] s h = ground (arith, find-plain s h)
find-join (c ∷ dir) s h = ground (arith, find-join dir s h)

drop-append : (xs ys : Text) (y : ℕ) → drop (suc (length xs)) (xs ++ (y ∷ ys)) ≡ ys
drop-append [] ys y = refl
drop-append (x ∷ xs) ys y = drop-append xs ys y

-- `GetFileName` of a joined path is the last part, if that has neither kind of slash in it.
pub file_name-path_join : (dir s : Text) → IsPlain s → file_name (path_join dir s) ≡ s
unfolding file_name path_join
file_name-path_join dir s h = rw (find-join dir s h, file_name) (drop-append dir s b'/')

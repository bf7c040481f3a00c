-- ===== src/Mount/Table/Layout.antt =====
-- src/native/linux/DeviceMapperControl.cpp, `Serialize`: the kernel finds the targets in the bytes.
use volume_backup.Prelude.{
  ℕ, zero, suc, ◌+◌, ◌-◌, ◌*◌, ◌/◌, ◌^◌, ◌<◌, ◌≡◌, refl, ◌∙◌, sym, ap, false, Option, none, some,
  List, [], ◌∷◌, ◌++◌, map, append_assoc, arith, ◌==◌, ltb, if◌then◌else◌, length, take, drop,
  replicate, length-append, le→ltb,
}
use mathlib.Core.Option
use native.Mathlib.Nat.{div-lt_iff_lt-mul, pow-suc}
use volume_backup.Text.{Text, codes}
use volume_backup.Text.Decimal.{to_string, NoNul, NoNul-append, to_string-NoNul}
use volume_backup.Mount.Table.{
  DmTarget, DmTable, little_endian, overwrite, dm_align, linear, get_parameter_string,
  dm_target_spec, padded, serialize_target, serialize_targets, serialize, target_count,
}

-- What the kernel reads of a target: its sectors, its type and its parameters.
pub record Spec : Type 0 where
  pub sector_start : ℕ
  pub sectors : ℕ
  pub target_type : Text
  pub params : Text

read_number : List ℕ → ℕ
read_number [] = 0
read_number (b ∷ bs) = b + 256 * read_number bs

-- A string up to its terminator.
c_string : List ℕ → Text
c_string [] = []
c_string (c ∷ s) = if c == 0 then [] else c ∷ c_string s

read_spec : List ℕ → Spec
unfolding read_number c_string
read_spec bytes = record {
  sector_start = read_number (take 8 bytes);
  sectors = read_number (take 8 (drop 8 bytes));
  target_type = c_string (take 16 (drop 24 bytes));
  params = c_string (drop 40 bytes);
}

-- The kernel reads so many targets, each at the offset that the last one tells.
unfoldable pub read_targets : ℕ → List ℕ → Option (List Spec)
unfolding read_spec
read_targets zero bytes = some []
read_targets (suc n) bytes =
    let rest = read_targets n (drop (read_number (take 4 (drop 20 bytes))) bytes) in
    if ltb (length bytes) 40 then none else Option.map (λ specs. read_spec bytes ∷ specs) rest

read_number-little_endian : (k n : ℕ) → n < 256 ^ k → read_number (little_endian k n) ≡ n
unfolding read_number little_endian
read_number-little_endian zero n h = omega arith
read_number-little_endian (suc k) n h =
    let below : n / 256 < 256 ^ k =
      (div-lt_iff_lt-mul {k = 256} (omega arith)).1 (omega (arith, pow-suc 256 k)) in
    omega (arith, read_number-little_endian k (n / 256) below)

overwrite-append : (xs zs ys : List ℕ) → length xs ≡ length zs → overwrite xs (zs ++ ys) ≡ xs ++ ys
unfolding overwrite
overwrite-append [] [] ys e = refl
overwrite-append [] (z ∷ zs) ys e = absurd (omega arith)
overwrite-append (x ∷ xs) [] ys e = absurd (omega arith)
overwrite-append (x ∷ xs) (z ∷ zs) ys e = ap (λ s. x ∷ s) (overwrite-append xs zs ys (omega arith))

drop-append : (xs ys : List ℕ) → drop (length xs) (xs ++ ys) ≡ ys
drop-append [] ys = refl
drop-append (x ∷ xs) ys = drop-append xs ys

c_string-append : (s rest : Text) → NoNul s → c_string (s ++ (0 ∷ rest)) ≡ s
unfolding c_string
c_string-append [] rest nul = refl
c_string-append (c ∷ s) rest (pos, nul) = ground (arith, c_string-append s rest nul)

-- A target as its header and the rest.
abbrev tail_of : DmTarget → List ℕ
tail_of t =
    (get_parameter_string t ++ (0 ∷ []))
    ++ replicate
        (dm_align (length (replicate 40 0 ++ (get_parameter_string t ++ (0 ∷ []))))
          - length (replicate 40 0 ++ (get_parameter_string t ++ (0 ∷ []))))
        0

padded_lem : (t : DmTarget) → padded t ≡ replicate 40 0 ++ tail_of t
unfolding padded
padded_lem t = refl

length-spec : (t : DmTarget) (next : ℕ) → length (dm_target_spec t next) ≡ 40
unfolding little_endian
length-spec t next = refl

serialize_target_lem :
    (t : DmTarget) → serialize_target t ≡ dm_target_spec t (length (padded t)) ++ tail_of t
unfolding serialize_target
serialize_target_lem t =
    ap (overwrite (dm_target_spec t (length (padded t)))) (padded_lem t)
    ∙ overwrite-append (dm_target_spec t (length (padded t))) (replicate 40 0) (tail_of t)
        (length-spec t (length (padded t)))

length-serialize : (t : DmTarget) → length (serialize_target t) ≡ length (padded t)
length-serialize t =
    ap length (serialize_target_lem t)
    ∙ length-append (dm_target_spec t (length (padded t))) (tail_of t)
    ∙ ap (λ n. n + length (tail_of t)) (length-spec t (length (padded t)))
    ∙ sym (ap length (padded_lem t) ∙ length-append (replicate 40 0) (tail_of t))

abbrev pub spec_of : DmTarget → Spec
spec_of t = record {
  sector_start = t.start_sector;
  sectors = t.sectors_count;
  target_type = linear;
  params = get_parameter_string t;
}

-- A target whose numbers fit their fields.
pub record Fits (t : DmTarget) : Type 0 where
  pub start : t.start_sector < 2 ^ 64
  pub count : t.sectors_count < 2 ^ 64
  pub path : NoNul t.block_device_path
  pub short : length (padded t) < 2 ^ 32

parameters-NoNul : (t : DmTarget) → NoNul t.block_device_path → NoNul (get_parameter_string t)
unfolding get_parameter_string
parameters-NoNul t path = NoNul-append t.block_device_path _ path (
    NoNul-append (codes " ") (to_string t.physical_sector) (omega arith, tt)
      (to_string-NoNul t.physical_sector))

read_header :
    (t : DmTarget) (next : ℕ) (rest : List ℕ)
    → read_spec (dm_target_spec t next ++ rest) ≡ record {
      sector_start = read_number (little_endian 8 t.start_sector);
      sectors = read_number (little_endian 8 t.sectors_count);
      target_type = linear;
      params = c_string rest;
    }
unfolding read_spec little_endian
read_header t next rest = refl

read_next :
    (t : DmTarget) (next : ℕ) (rest : List ℕ)
    → take 4 (drop 20 (dm_target_spec t next ++ rest)) ≡ little_endian 4 next
unfolding little_endian
read_next t next rest = refl

-- The parameters stand before their terminator, whatever follows the target.
tail-params :
    (t : DmTarget) (rest : List ℕ)
    → NoNul t.block_device_path
    → c_string (tail_of t ++ rest) ≡ get_parameter_string t
tail-params t rest path =
    let padding =
      replicate
        (dm_align (length (replicate 40 0 ++ (get_parameter_string t ++ (0 ∷ []))))
          - length (replicate 40 0 ++ (get_parameter_string t ++ (0 ∷ []))))
        0 in
    ap c_string (
      append_assoc (get_parameter_string t ++ (0 ∷ [])) padding rest
      ∙ append_assoc (get_parameter_string t) (0 ∷ []) (padding ++ rest))
    ∙ c_string-append (get_parameter_string t) (padding ++ rest) (parameters-NoNul t path)

read_spec-serialize :
    (t : DmTarget) (rest : List ℕ) → Fits t → read_spec (serialize_target t ++ rest) ≡ spec_of t
read_spec-serialize t rest fits =
    let next = length (padded t) in
    rw
      (
        serialize_target_lem t,
        append_assoc (dm_target_spec t next) (tail_of t) rest,
        read_header t next (tail_of t ++ rest),
        read_number-little_endian 8 t.start_sector fits.start,
        read_number-little_endian 8 t.sectors_count fits.count,
        tail-params t rest fits.path,
      )
      refl

next-serialize :
    (t : DmTarget) (rest : List ℕ)
    → Fits t
    → read_number (take 4 (drop 20 (serialize_target t ++ rest))) ≡ length (serialize_target t)
next-serialize t rest fits =
    let next = length (padded t) in
    ap (λ s. read_number (take 4 (drop 20 s)))
      (ap (λ s. s ++ rest) (serialize_target_lem t)
        ∙ append_assoc (dm_target_spec t next) (tail_of t) rest)
    ∙ ap read_number (read_next t next (tail_of t ++ rest))
    ∙ read_number-little_endian 4 next fits.short
    ∙ sym (length-serialize t)

long_enough : (t : DmTarget) (rest : List ℕ) → ltb (length (serialize_target t ++ rest)) 40 ≡ false
long_enough t rest = le→ltb _ _ (
    omega (
      arith,
      length-append (serialize_target t) rest,
      length-serialize t,
      ap length (padded_lem t),
      length-append (replicate 40 0) (tail_of t),
    ))

read_targets-step :
    (n : ℕ) (t : DmTarget) (rest : List ℕ)
    → Fits t
    → read_targets (suc n) (serialize_target t ++ rest)
      ≡ Option.map (λ specs. spec_of t ∷ specs) (read_targets n rest)
unfolding read_targets
read_targets-step n t rest fits =
    rw
      (
        long_enough t rest,
        next-serialize t rest fits,
        drop-append (serialize_target t) rest,
        read_spec-serialize t rest fits,
      )
      refl

read_targets-nil : (bytes : List ℕ) → read_targets 0 bytes ≡ some []
unfolding read_targets
read_targets-nil bytes = refl

abbrev pub AllFit : List DmTarget → Type 0
AllFit [] = Unit {0}
AllFit (t ∷ ts) = Fits t × AllFit ts

read_all :
    (ts : List DmTarget)
    → AllFit ts
    → read_targets (length ts) (serialize_targets ts) ≡ some (map spec_of ts)
unfolding serialize_targets
read_all [] fits = read_targets-nil []
read_all (t ∷ ts) (fits, rest) =
    read_targets-step (length ts) t (serialize_targets ts) fits
    ∙ ap (Option.map (λ specs. spec_of t ∷ specs)) (read_all ts rest)

-- The kernel reads from the bytes of a table, with the number of its targets, exactly these targets
-- in their order, each with its sectors and its parameters, if their numbers fit the fields and no
-- path has a terminator in it.
pub read_targets-serialize :
    (table : DmTable)
    → AllFit table.targets
    → read_targets (target_count table) (serialize table) ≡ some (map spec_of table.targets)
unfolding target_count serialize
read_targets-serialize table fits = read_all table.targets fits

-- ===== src/Resource/Fragments.antt =====
-- TaskResourceManager: the fragments of a binary copy.
use mathlib.Core.Option
use volume_backup.Prelude.{
  ℕ, zero, suc, ◌+◌, ◌-◌, ◌^◌, ◌≤◌, ◌<◌, ◌≡◌, refl, sym, ap, dec_lt, ◌∙◌, arith, true, false, some,
  List, [], ◌∷◌, ltb, leb, if◌then◌else◌, Bool-cases, inl, inr,
}
use volume_backup.Text.{Text}
use volume_backup.Task.{add64}
use volume_backup.Text.Path.{copy_data_file_path}
use volume_backup.Session.{bin}
use volume_backup.Pipeline.Hasher.Round.{same_bytes_refl}
use volume_backup.Resource.{
  Paths, exists, CreateAnswer, truncate_create_file, Fragment, split_from, split_fragments,
  create_files, create_fragments,
}

-- A file that has been created, or was there, is there.
made_exists :
    (a : CreateAnswer) (path : Text) (fs : Paths)
    → (truncate_create_file a path fs).0 ≡ true
    → exists (truncate_create_file a path fs).1 path ≡ true
unfolding truncate_create_file exists
made_exists a path fs e = ground (arith, same_bytes_refl path)

exists_fails :
    (a : CreateAnswer) (path : Text) (fs : Paths)
    → exists fs path ≡ true
    → (truncate_create_file a path fs).0 ≡ false
unfolding truncate_create_file
exists_fails a path fs e = ground arith

-- The same file cannot be created twice.
twice_fails :
    (a : ℕ → CreateAnswer) (f g : Fragment) (rest : List Fragment) (k : ℕ) (fs : Paths)
    → f.path ≡ g.path
    → (create_files a (f ∷ g ∷ rest) k fs).0 ≡ false
unfolding create_files
twice_fails a f g rest k fs e = elim (Bool-cases (truncate_create_file (a k) f.path fs).0) [
  | inl made ↦
      let after = (truncate_create_file (a k) f.path fs).1 in
      let there : exists after g.path ≡ true =
        ap (exists after) (sym e) ∙ made_exists (a k) f.path fs made in
      ground (arith, exists_fails (a (k + 1)) g.path after there)
  | inr not_made ↦ ground arith
]

-- The size of a fragment.
abbrev fragment_size : ℕ → ℕ → ℕ → ℕ
fragment_size v s offset = if leb v (add64 offset s) then v - offset else s

abbrev fragment_at : Text → Text → ℕ → ℕ → ℕ → ℕ → Fragment
fragment_at name dir v s i offset = record {
  path = copy_data_file_path dir name bin i;
  size = fragment_size v s offset;
}

split_step :
    (name dir : Text) (v s i fuel offset : ℕ) (l : List Fragment)
    → offset < v
    → split_from name dir v s i fuel (add64 offset (fragment_size v s offset)) ≡ some l
    → split_from name dir v s i (suc fuel) offset ≡ some (fragment_at name dir v s i offset ∷ l)
unfolding split_from
split_step name dir v s i fuel offset l h e =
    let more : ltb offset v ≡ true = ground arith in
    rw more (ap (Option.map (λ fs. fragment_at name dir v s i offset ∷ fs)) e)

at_end :
    (name dir : Text) (v s i fuel offset : ℕ)
    → ¬ (offset < v)
    → split_from name dir v s i (suc fuel) offset ≡ some []
unfolding split_from
at_end name dir v s i fuel offset h = let done : ltb offset v ≡ false = ground arith in rw done refl

split_ends :
    (name dir : Text) (v s i fuel offset : ℕ)
    → 0 < s
    → v + s < 2 ^ 64
    → offset ≤ v
    → v < offset + fuel
    → (l : List Fragment) × (split_from name dir v s i fuel offset ≡ some l)
split_ends name dir v s i zero offset h r o e = absurd (omega arith)
split_ends name dir v s i (suc fuel) offset h r o e = elim (dec_lt offset v) [
  | yes more ↦
      let next : (offset < add64 offset (fragment_size v s offset))
          × (add64 offset (fragment_size v s offset) ≤ v) =
        ground arith in
      let (l, done) =
        split_ends name dir v s i fuel (add64 offset (fragment_size v s offset)) h r next.1
          (omega (arith, next.0)) in
      (fragment_at name dir v s i offset ∷ l, split_step name dir v s i fuel offset l more done)
  | no done ↦ ([], at_end name dir v s i fuel offset done)
]

-- A copy of more than one session has two fragments at least.
two_fragments :
    (name dir : Text) (v s n : ℕ)
    → 0 < s
    → s < v
    → v + s < 2 ^ 64
    → v ≤ suc n
    → (l : List Fragment) × (split_from name dir v s 0 (suc (suc n)) 0
        ≡ some (fragment_at name dir v s 0 0 ∷ fragment_at name dir v s 0 s ∷ l))
two_fragments name dir v s n h more r enough =
    let first : add64 0 (fragment_size v s 0) ≡ s = ground arith in
    let next : (s < add64 s (fragment_size v s s)) × (add64 s (fragment_size v s s) ≤ v) =
      ground arith in
    let (l, done) =
      split_ends name dir v s 0 n (add64 s (fragment_size v s s)) h r next.1
        (omega (arith, next.0)) in
    let second = split_step name dir v s 0 n s l more done in
    (
      l,
      split_step name dir v s 0 (suc n) 0 _ (omega arith)
          (ap (split_from name dir v s 0 (suc n)) first ∙ second),
    )

-- The fragments of a copy of more than one session are created under one path, so the creation
-- fails, whatever files there are and whatever the system answers, for a positive session size
-- and sums that stay below 2^64.
pub create_fragments_fails :
    (a : ℕ → CreateAnswer) (name dir : Text) (volume_size session_size : ℕ) (fs : Paths)
    → 0 < session_size
    → session_size < volume_size
    → volume_size + session_size < 2 ^ 64
    → (after : Paths) × (create_fragments a name dir volume_size session_size fs
        ≡ some (false, after))
unfolding create_fragments split_fragments
create_fragments_fails a name dir zero s fs h more r = absurd (omega arith)
create_fragments_fails a name dir (suc n) s fs h more r =
    let (l, split) = two_fragments name dir (suc n) s n h more r (omega arith) in
    let f = fragment_at name dir (suc n) s 0 0 in
    let g = fragment_at name dir (suc n) s 0 s in
    let result = create_files a (f ∷ g ∷ l) 0 fs in
    (
      result.1,
      ap (Option.map (λ fragments. create_files a fragments 0 fs)) split
          ∙ ap (λ b. some (b, result.1)) (twice_fails a f g l 0 fs refl),
    )

-- ===== src/Pipeline/Writer/Blocks.antt =====
-- VolumeBlockWriter: what a write changes, and which blocks are skipped as empty.
use volume_backup.Prelude.{
  ℕ, zero, suc, ◌+◌, ◌-◌, ◌≤◌, ◌<◌, ◌≡◌, ◌≢◌, refl, ap, arith, true, false, ◌&&◌, List, [], ◌∷◌,
  length, get_or, ltb, leb, if◌then◌else◌, dec_lt,
}
use volume_backup.Session.{SharedConfig}
use volume_backup.Pipeline.Writer.{Target, write_bytes, same_prefix, need_to_write}

-- A write of some bytes at an offset replaces the bytes of that range, and leaves all others.
pub write_bytes_lem :
    (t : Target) (offset : ℕ) (bs : List ℕ) (x : ℕ)
    → write_bytes t offset bs x
      ≡ (if leb offset x && ltb x (offset + length bs) then get_or bs (x - offset) 0 else t x)
unfolding write_bytes
write_bytes_lem t offset [] x = ground arith
write_bytes_lem t offset (b ∷ bs) x =
    ground (arith, write_bytes_lem t (offset + 1) bs x, shifted b bs (x - offset))
  where
    shifted : (b : ℕ) (bs : List ℕ) (k : ℕ) → k ≢ 0 → get_or (b ∷ bs) k 0 ≡ get_or bs (k - 1) 0
    shifted b bs zero h = absurd (h refl)
    shifted b bs (suc k) h = ap (λ j. get_or bs j 0) (omega arith)

-- A list that equals itself one place on has one value only.
constant :
    (b : ℕ) (bs : List ℕ) (k : ℕ)
    → same_prefix bs (b ∷ bs) ≡ true
    → k < suc (length bs)
    → get_or (b ∷ bs) k 0 ≡ b
unfolding same_prefix
constant b bs zero e h = refl
constant b [] (suc k) e h = absurd (omega arith)
constant b (c ∷ bs) (suc k) e h = ground (arith, constant c bs k)

-- Only blocks of zeros are skipped, and only where the configuration asks for it.
pub need_to_write-false :
    (s : SharedConfig) (buffer : List ℕ)
    → need_to_write s buffer ≡ false
    → (s.skip_empty_block ≡ true) × ((k : ℕ) → get_or buffer k 0 ≡ 0)
unfolding need_to_write
need_to_write-false s [] e = (ground arith, λ k. refl)
need_to_write-false s (b ∷ bs) e = (ground arith, λ k. zero_at k)
  where
    is_constant : (b ≡ 0) × (same_prefix bs (b ∷ bs) ≡ true)
    is_constant = ground arith

    beyond : (xs : List ℕ) (k : ℕ) → length xs ≤ k → get_or xs k 0 ≡ 0
    beyond [] k h = refl
    beyond (x ∷ xs) zero h = absurd (omega arith)
    beyond (x ∷ xs) (suc k) h = beyond xs k (omega arith)

    zero_at : (k : ℕ) → get_or (b ∷ bs) k 0 ≡ 0
    zero_at k = elim (dec_lt k (suc (length bs))) [
      | yes h ↦ omega (arith, constant b bs k is_constant.1 h, is_constant.0)
      | no h ↦ beyond (b ∷ bs) k (omega arith)
    ]

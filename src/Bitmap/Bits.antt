-- ===== src/Bitmap/Bits.antt =====
-- Single bits of a byte, checked over all bytes and positions.
use volume_backup.Prelude.{
  ℕ, ◌%◌, ◌^◌, ◌<◌, ◌≡◌, refl, bit_and, bit_or, Bool, true, false, not, arith, ◌==◌, if◌then◌else◌,
}
use volume_backup.Prelude.Tables.{every, every-at}

abbrev pub bit : ℕ → ℕ → Bool
bit byte k = not (bit_and byte (2 ^ k) == 0)

abbrev same : Bool → Bool → Bool
same true b = b
same false b = not b

same_sound : (a b : Bool) → same a b ≡ true → a ≡ b
same_sound true true h = refl
same_sound true false h = cc
same_sound false true h = cc
same_sound false false h = refl

abbrev or_entry : ℕ → ℕ → ℕ → Bool
or_entry k m byte = same (bit (bit_or byte (2 ^ k) % 256) m) (if k == m then true else bit byte m)

abbrev or_row : ℕ → ℕ → Bool
or_row k m = every (or_entry k m) 256

or_table : every (λ k. every (or_row k) 8) 8 ≡ true
unfolding every
or_table = refl

-- Setting bit `k` of a byte sets that bit and no other.
pub bit-bit_or :
    (k m byte : ℕ)
    → k < 8
    → m < 8
    → byte < 256
    → bit (bit_or byte (2 ^ k) % 256) m ≡ (if k == m then true else bit byte m)
bit-bit_or k m byte hk hm hb =
    let row = every-at (λ k. every (or_row k) 8) k 8 hk or_table in
    let entry = every-at (or_row k) m 8 hm row in
    same_sound _ _ (every-at (or_entry k m) byte 256 hb entry)

zero_entry : ℕ → Bool
zero_entry m = not (bit 0 m)

zero_table : every zero_entry 8 ≡ true
unfolding every zero_entry
zero_table = refl

pub bit-zero : (m : ℕ) → m < 8 → bit 0 m ≡ false
unfolding zero_entry
bit-zero m h = ground (arith, every-at zero_entry m 8 h zero_table)

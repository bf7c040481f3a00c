-- ===== src/Bitmap/Laws.antt =====
-- Class Bitmap as a set of indices.
use volume_backup.Prelude.{
  ℕ, zero, suc, ◌+◌, ◌*◌, ◌/◌, ◌%◌, ◌^◌, ◌<◌, ◌≡◌, refl, ◌∙◌, bit_or, true, false, List, [], ◌∷◌,
  arith, ◌==◌, if◌then◌else◌, length, set, get_or, replicate, length-set, length-replicate, leb,
  Bool-cases, inl, inr,
}
use volume_backup.Bitmap.Bits.{bit-bit_or, bit-zero}
use volume_backup.Bitmap.{Bitmap, make, bits, set_bit, test}

-- The table has its length and holds bytes, and its number of bits fits 64 bits.
pub record IsValid (b : Bitmap) : Type 0 where
  pub tabled : length b.table ≡ b.capacity
  pub bytes : (k : ℕ) → get_or b.table k 0 < 256
  pub room : 0 < b.capacity
  pub small : b.capacity * 8 < 2 ^ 64

pub bits-eq : {b : Bitmap} → IsValid b → bits b ≡ b.capacity * 8
bits-eq v = omega (arith, v.small)

pub get_or-set :
    (xs : List ℕ) (i j v : ℕ)
    → i < length xs
    → get_or (set xs i v) j 0 ≡ (if i == j then v else get_or xs j 0)
get_or-set [] i j v h = absurd (omega arith)
get_or-set (x ∷ xs) zero zero v h = refl
get_or-set (x ∷ xs) zero (suc j) v h = ground arith
get_or-set (x ∷ xs) (suc i) zero v h = ground arith
get_or-set (x ∷ xs) (suc i) (suc j) v h = ground (arith, get_or-set xs i j v (omega arith))

set-bytes :
    (xs : List ℕ) (i v : ℕ)
    → i < length xs
    → v < 256
    → ((k : ℕ) → get_or xs k 0 < 256)
    → (k : ℕ) → get_or (set xs i v) k 0 < 256
set-bytes xs i v h small all k = ground (arith, get_or-set xs i k v h, all k)

pub set_bit-IsValid : (b : Bitmap) (i : ℕ) → IsValid b → IsValid (set_bit b i)
unfolding set_bit
set_bit-IsValid b i v = elim (Bool-cases (leb (bits b) i)) [
  | inl out ↦ rw out v
  | inr in_range ↦ rw in_range (record {
    tabled = length-set b.table (i / 8) _ ∙ v.tabled;
    bytes = set-bytes b.table (i / 8) _ (ground (arith, v.tabled, v.small)) (omega arith) v.bytes;
    room = v.room;
    small = v.small;
  })
]

-- After `Set(i)` on a valid bitmap, at an index within it, `Test` answers true at `i`, and as before
-- everywhere else.
pub test-set_bit :
    (b : Bitmap) (i j : ℕ)
    → IsValid b
    → i < b.capacity * 8
    → test (set_bit b i) j ≡ (if i == j then true else test b j)
unfolding test set_bit
test-set_bit b i j v h = ground (
  arith,
  v.small,
  get_or-set b.table (i / 8) (j / 8) (bit_or (get_or b.table (i / 8) 0) (2 ^ (i % 8)) % 256)
      (omega (arith, v.tabled)),
  bit-bit_or (i % 8) (j % 8) (get_or b.table (i / 8) 0) (omega arith) (omega arith)
      (v.bytes (i / 8)),
)

get_or-replicate : (n k : ℕ) → get_or {A = ℕ} (replicate n 0) k 0 ≡ 0
get_or-replicate zero k = refl
get_or-replicate (suc n) zero = refl
get_or-replicate (suc n) (suc k) = get_or-replicate n k

pub make-IsValid : (n : ℕ) → n < 2 ^ 60 → IsValid (make n)
unfolding make
make-IsValid n h = record {
  tabled = length-replicate (n / 8 + 1) 0;
  bytes = λ k. omega (arith, get_or-replicate (n / 8 + 1) k);
  room = omega arith;
  small = omega arith;
}

pub test-make : (n i : ℕ) → test (make n) i ≡ false
unfolding test make
test-make n i = ground (arith, get_or-replicate (n / 8 + 1) (i / 8), bit-zero (i % 8) (omega arith))

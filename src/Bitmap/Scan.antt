-- ===== src/Bitmap/Scan.antt =====
-- Class Bitmap: the two loops over all its bits.
use volume_backup.Prelude.{
  ℕ, zero, suc, ◌+◌, ◌-◌, ◌*◌, ◌%◌, ◌^◌, ◌≤◌, ◌<◌, ◌≡◌, refl, inl, inr, true, false, arith,
  if◌then◌else◌, Bool-cases, dec_lt,
}
use volume_backup.Bitmap.{
  Bitmap, bits, set_bit, test, max_index, first_unset_from, first_index_unset, count_from,
  total_set_count,
}
use volume_backup.Bitmap.Laws.{IsValid, test-set_bit}

test_past : (b : Bitmap) (i : ℕ) → bits b ≤ i → test b i ≡ false
unfolding test
test_past b i h = ground arith

-- Where a search that starts at `lo` may stop.
record FirstUnset (b : Bitmap) (lo r : ℕ) : Type 0 where
  from : lo ≤ r
  upto : r ≤ bits b
  before : (j : ℕ) → lo ≤ j → j < r → test b j ≡ true
  at : test b r ≡ false

FirstUnset-step :
    (b : Bitmap) (lo r : ℕ) → test b lo ≡ true → FirstUnset b (lo + 1) r → FirstUnset b lo r
FirstUnset-step b lo r e f = record {
  from = omega (arith, f.from);
  upto = f.upto;
  before = λ j h k. elim (dec_lt lo j) [
    | yes later ↦ f.before j (omega arith) k
    | no first ↦ let s : lo ≡ j = omega arith in rw (← s) e
  ];
  at = f.at;
}

first_unset_from_lem :
    (b : Bitmap) (left index : ℕ)
    → 0 < bits b
    → index + left ≡ bits b
    → FirstUnset b index (first_unset_from b left index)
unfolding first_unset_from max_index
first_unset_from_lem b zero index pos e =
    let stop : (max_index b + 1) % 2 ^ 64 ≡ index = omega arith in
    rw stop (record {
      from = omega arith;
      upto = omega arith;
      before = λ j h k. absurd (omega arith);
      at = test_past b index (omega arith);
    })
first_unset_from_lem b (suc left) index pos e = elim (Bool-cases (test b index)) [
  | inl set ↦
      rw (set, first_unset_from)
        (FirstUnset-step b index _ set (first_unset_from_lem b left (index + 1) pos (omega arith)))
  | inr clear ↦
      rw (clear, first_unset_from)
        (record {
          from = omega arith;
          upto = omega arith;
          before = λ j h k. absurd (omega arith);
          at = clear;
        })
]

-- On a valid bitmap `FirstIndexUnset` returns the least index whose bit is not set; where all bits
-- are set, the first index past the end.
pub first_index_unset_lem :
    (b : Bitmap)
    → IsValid b
    → let i = first_index_unset b in
      (i ≤ b.capacity * 8) × ((j : ℕ) → j < i → test b j ≡ true) × (test b i ≡ false)
unfolding first_index_unset
first_index_unset_lem b v =
    let f = first_unset_from_lem b (bits b) 0 (omega (arith, v.room, v.small)) (omega arith) in
    (omega (arith, f.upto, v.small), (λ j h. f.before j (omega arith) h), f.at)

-- Bitmaps that agree on a stretch of bits have as many set there.
count-eq :
    (b c : Bitmap) (left index : ℕ)
    → ((j : ℕ) → index ≤ j → test b j ≡ test c j)
    → count_from b left index ≡ count_from c left index
unfolding count_from
count-eq b c zero index h = refl
count-eq b c (suc left) index h =
    ground (arith, h index (omega arith), count-eq b c left (index + 1) (λ j k. h j (omega arith)))

abbrev new_bit : Bitmap → ℕ → ℕ
new_bit b i = if test b i then 0 else 1

count-set_bit :
    (b : Bitmap) (i left index : ℕ)
    → IsValid b
    → i < b.capacity * 8
    → index ≤ i
    → i < index + left
    → count_from (set_bit b i) left index ≡ count_from b left index + new_bit b i
unfolding count_from
count-set_bit b i zero index v h lo hi = absurd (omega arith)
count-set_bit b i (suc left) index v h lo hi = elim (dec_lt index i) [
  | yes before ↦ ground (
    arith,
    test-set_bit b i index v h,
    count-set_bit b i left (index + 1) v h (omega arith) (omega arith),
  )
  | no here ↦ ground (
    arith,
    test-set_bit b i index v h,
    count-eq (set_bit b i) b left (index + 1) (λ j k. ground (arith, test-set_bit b i j v h)),
  )
]

bits-set_bit : (b : Bitmap) (i : ℕ) → bits (set_bit b i) ≡ bits b
unfolding set_bit
bits-set_bit b i = ground arith

-- Setting a bit within a valid bitmap adds one to `TotalSetCount` if the bit was clear, and nothing
-- if it was set already.
pub total_set_count-set_bit :
    (b : Bitmap) (i : ℕ)
    → IsValid b
    → i < b.capacity * 8
    → total_set_count (set_bit b i) ≡ total_set_count b + (if test b i then 0 else 1)
unfolding total_set_count
total_set_count-set_bit b i v h =
    let same : bits (set_bit b i) ≡ bits b = bits-set_bit b i in
    rw same (count-set_bit b i (bits b) 0 v h (omega arith) (omega (arith, v.small)))

count-clear :
    (b : Bitmap) (left index : ℕ)
    → ((j : ℕ) → index ≤ j → test b j ≡ false)
    → count_from b left index ≡ 0
unfolding count_from
count-clear b zero index h = refl
count-clear b (suc left) index h =
    ground (arith, h index (omega arith), count-clear b left (index + 1) (λ j k. h j (omega arith)))

count-prefix :
    (b : Bitmap) (n left index : ℕ)
    → index ≤ n
    → n ≤ index + left
    → ((j : ℕ) → j < n → test b j ≡ true)
    → ((j : ℕ) → n ≤ j → test b j ≡ false)
    → index + count_from b left index ≡ n
unfolding count_from
count-prefix b n zero index lo hi set clear = omega arith
count-prefix b n (suc left) index lo hi set clear = elim (dec_lt index n) [
  | yes in_prefix ↦ ground (
    arith,
    set index in_prefix,
    count-prefix b n left (index + 1) (omega arith) (omega arith) set clear,
  )
  | no past ↦ ground (
    arith,
    clear index (omega arith),
    count-clear b left (index + 1) (λ j k. clear j (omega arith)),
  )
]

-- If exactly the first `n` bits of a valid bitmap are set, `TotalSetCount` is `n`.
pub total_set_count_prefix :
    (b : Bitmap) (n : ℕ)
    → IsValid b
    → n ≤ b.capacity * 8
    → ((j : ℕ) → j < n → test b j ≡ true)
    → ((j : ℕ) → n ≤ j → test b j ≡ false)
    → total_set_count b ≡ n
unfolding total_set_count
total_set_count_prefix b n v h set clear =
    omega (arith, count-prefix b n (bits b) 0 (omega arith) (omega (arith, v.small)) set clear)

count-le :
    (b : Bitmap) (n left index : ℕ)
    → ((j : ℕ) → n ≤ j → test b j ≡ false)
    → count_from b left index ≤ n - index
unfolding count_from
count-le b n zero index clear = omega arith
count-le b n (suc left) index clear =
    ground (arith, clear index, count-le b n left (index + 1) clear)

-- At most as many bits are set as the indices that may be.
pub total_set_count-le :
    (b : Bitmap) (n : ℕ) → ((j : ℕ) → n ≤ j → test b j ≡ false) → total_set_count b ≤ n
unfolding total_set_count
total_set_count-le b n clear = omega (arith, count-le b n (bits b) 0 clear)

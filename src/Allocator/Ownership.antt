-- ===== src/Allocator/Ownership.antt =====
-- What an owner of blocks may rely on: VolumeBlockAllocator against the list of live blocks.
use volume_backup.Prelude.{
  ℕ, ◌+◌, ◌-◌, ◌*◌, ◌/◌, ◌%◌, ◌^◌, ◌≤◌, ◌<◌, ◌≡◌, refl, ◌↔◌, Bool, true, false, Option, none, some,
  arith, length, set, get_or, length-set, ◌∙◌,
}
use volume_backup.Allocator.Table.{
  first_free, used, all_used, used-le-length, Search, found, full, first_free_lem, used-set,
  set-set-false,
}
use volume_backup.Allocator.{
  Allocator, rounds, address, block_alloc, freed, index_of, is_aligned, block_free,
}

-- The pool fits 32 bits of offset and lies inside the address space; every block has its entry.
pub record IsValid (a : Allocator) : Type 0 where
  pub positive : 0 < a.block_size
  pub few : a.block_num < 2 ^ 31
  pub sized : a.pool_size ≡ a.block_size * a.block_num
  pub small : a.block_size * a.block_num < 2 ^ 32
  pub placed : a.pool + a.block_size * a.block_num ≤ 2 ^ 64
  pub tabled : length a.alloc_table ≡ a.block_num

pub mul_room : (b i n : ℕ) → i < n → b * i + b ≤ b * n
mul_room b i n h = grind arith

mul-div : (b i : ℕ) → 0 < b → b * i / b ≡ i
mul-div b i h = grind arith

mul-mod : (b i : ℕ) → 0 < b → b * i % b ≡ 0
mul-mod b i h = grind arith

address-eq :
    {a : Allocator} (i : ℕ) → IsValid a → i < a.block_num → address a i ≡ a.pool + a.block_size * i
unfolding address
address-eq {a} i v h = omega (arith, mul_room a.block_size i a.block_num h)

-- The outcome of `BlockAlloc` by cases.
pub data Gives (a : Allocator) : Option ℕ × Allocator → Type 0 where
  block :
      {i : ℕ}
      → i < a.block_num
      → get_or a.alloc_table i true ≡ false
      → Gives a
          (some (a.pool + a.block_size * i), record a { alloc_table = set a.alloc_table i true })
  exhausted : ((j : ℕ) → j < a.block_num → get_or a.alloc_table j false ≡ true) → Gives a (none, a)

Search-Gives :
    {a : Allocator}
    → IsValid a
    → {o : Option ℕ} → o ≡ first_free (rounds a) a.alloc_table
    → Search (rounds a) a.alloc_table o
    → Gives a (block_alloc a)
unfolding rounds block_alloc
Search-Gives {a} v e (found {i} h k free before) =
    rw (← e, block_alloc, address-eq {a = a} i v (omega (arith, v.tabled)))
      (block (omega (arith, v.tabled)) free)
Search-Gives {a} v e (full all) =
    rw (← e, block_alloc) (exhausted (λ j h. all j (ground arith) (omega arith)))

pub block_alloc-Gives : {a : Allocator} → IsValid a → Gives a (block_alloc a)
block_alloc-Gives {a} v = Search-Gives v refl (first_free_lem (rounds a) a.alloc_table)

-- `BlockFree` at the address of block `i` clears its entry.
pub block_free_at :
    {a : Allocator} (i : ℕ)
    → IsValid a
    → i < a.block_num
    → block_free a (a.pool + a.block_size * i)
      ≡ freed (record a { alloc_table = set a.alloc_table i false })
unfolding block_free
block_free_at {a} i v h = rw (index, aligned, block_free) (ground (arith, v.tabled, v.positive))
  where
    room : a.block_size * i + a.block_size ≤ a.block_size * a.block_num
    room = mul_room a.block_size i a.block_num h

    offset : (a.pool + a.block_size * i + 2 ^ 64 - a.pool) % 2 ^ 64 ≡ a.block_size * i
    offset = omega (arith, room)

    index : index_of a (a.pool + a.block_size * i) ≡ i
    index = rw offset (mul-div a.block_size i v.positive)

    aligned : is_aligned a (a.pool + a.block_size * i) ≡ true
    aligned = ground (arith, mul-mod a.block_size i v.positive)

pub set-IsValid :
    {a : Allocator} (i : ℕ) (b : Bool)
    → IsValid a
    → IsValid (record a { alloc_table = set a.alloc_table i b })
set-IsValid {a} i b v = record {
  positive = v.positive;
  few = v.few;
  sized = v.sized;
  small = v.small;
  placed = v.placed;
  tabled = length-set a.alloc_table i b ∙ v.tabled;
}

record Alloc (a : Allocator) (p : ℕ) (a' : Allocator) : Type 0 where
  valid : IsValid a'
  from : a.pool ≤ p
  within : p + a.block_size ≤ a.pool + a.pool_size
  counted : used a'.alloc_table ≡ used a.alloc_table + 1
  undone : block_free a' p ≡ freed a

Gives-Alloc :
    {a : Allocator} {p : ℕ} {r : Option ℕ × Allocator}
    → IsValid a
    → Gives a r
    → r.0 ≡ some p
    → Alloc a p r.1
Gives-Alloc {a} {p} v (block {i} h free) e = record {
  valid = set-IsValid i true v;
  from = ground arith;
  within = ground (arith, mul_room a.block_size i a.block_num h, v.sized);
  counted = used-set a.alloc_table i (omega (arith, v.tabled)) free;
  undone =
      let q : a.pool + a.block_size * i ≡ p = ground arith in
      rw (← q, block_free_at i (set-IsValid i true v) h, set-set-false a.alloc_table i free);
}
Gives-Alloc v (exhausted all) e = cc

-- A block that a valid pool of buffers hands out lies inside the pool, counts as one more in use,
-- keeps the pool valid, and giving it back at once restores the pool exactly.
pub block_alloc-block_free :
    (a : Allocator) (p : ℕ)
    → IsValid a
    → (block_alloc a).0 ≡ some p
    → let a' = (block_alloc a).1 in
      IsValid a'
      × (a.pool ≤ p)
      × (p + a.block_size ≤ a.pool + a.pool_size)
      × (used a'.alloc_table ≡ used a.alloc_table + 1)
      × (block_free a' p ≡ freed a)
block_alloc-block_free a p v e =
    let r = Gives-Alloc v (block_alloc-Gives v) e in
    (r.valid, r.from, r.within, r.counted, r.undone)

Gives-null :
    {a : Allocator} {r : Option ℕ × Allocator}
    → IsValid a
    → Gives a r
    → (r.0 ≡ none) ↔ (used a.alloc_table ≡ a.block_num)
Gives-null {a} v (block {i} h free) = (
  λ e. cc,
  λ e. absurd (
      omega (
        arith,
        used-set a.alloc_table i (omega (arith, v.tabled)) free,
        used-le-length (set a.alloc_table i true),
        length-set a.alloc_table i true,
        v.tabled,
      )),
)
Gives-null {a} v (exhausted all) =
    (λ _. all_used a.alloc_table (λ j h. all j (omega (arith, v.tabled))) ∙ v.tabled, λ _. refl)

-- A valid pool of buffers returns the null pointer exactly when all its blocks are in use.
pub block_alloc_null :
    (a : Allocator) → IsValid a → ((block_alloc a).0 ≡ none) ↔ (used a.alloc_table ≡ a.block_num)
block_alloc_null a v = Gives-null v (block_alloc-Gives v)

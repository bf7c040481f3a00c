-- ===== src/Allocator/Tests.antt =====
-- VolumeBlockAllocator at a small pool.
use volume_backup.Prelude.{
  ◌+◌, ◌*◌, ◌≤◌, ◌≡◌, refl, ◌⊎◌, Bool, true, false, List, [], ◌∷◌, some, arith, length,
}
use volume_backup.Allocator.Table.{used, first_free}
use volume_backup.Allocator.{Allocator, make, block_alloc, freed, block_free}
use volume_backup.Allocator.Ownership.{IsValid, block_alloc-block_free}
use volume_backup.Allocator.Pool.{
  Pool, takes, gives, Reach, here, next, All, Pairwise, fresh, live_blocks,
}

-- Two blocks of four bytes at address 100.
abbrev two_blocks : Allocator
two_blocks = make 100 4 2

two_blocks-IsValid : IsValid two_blocks
unfolding make
two_blocks-IsValid = record {
  positive = omega arith;
  few = omega arith;
  sized = refl;
  small = omega arith;
  placed = omega arith;
  tabled = omega arith;
}

first_address : (block_alloc two_blocks).0 ≡ some 100
unfolding make block_alloc first_free
first_address = refl

block_alloc-block_free_example :
    let a' = (block_alloc two_blocks).1 in
    IsValid a'
    × (two_blocks.pool ≤ 100)
    × (100 + two_blocks.block_size ≤ two_blocks.pool + two_blocks.pool_size)
    × (used a'.alloc_table ≡ used two_blocks.alloc_table + 1)
    × (block_free a' 100 ≡ freed two_blocks)
block_alloc-block_free_example =
    block_alloc-block_free two_blocks 100 two_blocks-IsValid first_address

abbrev with_table : List Bool → Allocator
with_table t = record two_blocks { alloc_table = t }

-- Both blocks are taken and the first is given back.
abbrev one_out : Pool
one_out = record { allocator = with_table (false ∷ true ∷ []); live = 104 ∷ [] }

one_out-Reach : Reach (fresh 100 4 2) one_out
unfolding make block_alloc block_free first_free
one_out-Reach =
    next
      (next
        (next here (takes {a = two_blocks} {b = with_table (true ∷ false ∷ [])} {l = []} 100 refl))
        (takes {a = with_table (true ∷ false ∷ [])} {b = with_table (true ∷ true ∷ [])}
          {l = 100 ∷ []} 104 refl))
      (gives {a = with_table (true ∷ true ∷ [])} {b = with_table (false ∷ true ∷ [])}
        {l = 104 ∷ 100 ∷ []} 100 (104 ∷ []) [] refl refl)

live_blocks_example :
    All (λ p. (100 ≤ p) × (p + 4 ≤ 100 + 4 * 2)) one_out.live
    × Pairwise (λ p q. (p + 4 ≤ q) ⊎ (q + 4 ≤ p)) one_out.live
    × (length one_out.live ≤ 2)
    × All (λ p. (a : Allocator) × (block_free one_out.allocator p ≡ freed a)) one_out.live
live_blocks_example =
    live_blocks 100 4 2 one_out (omega arith) (omega arith) (omega arith) (omega arith)
      one_out-Reach

-- ===== src/Session/Blocks.antt =====
-- How the blocks of a session cover it.
use native.Mathlib.Nat.{div-add-mod, mod-lt}
use volume_backup.Prelude.{
  ℕ, zero, suc, ◌+◌, ◌*◌, ◌%◌, ◌≤◌, ◌<◌, ◌≡◌, inl, inr, arith, ◌==◌, Bool-cases, ◌≢◌,
}
use volume_backup.Session.{total_blocks}

record Ceiling (size block_size n : ℕ) : Type 0 where
  enough : size ≤ n * block_size
  tight : n * block_size < size + block_size

total_blocks-Ceiling :
    (size block_size : ℕ) → 0 < block_size → Ceiling size block_size (total_blocks size block_size)
unfolding total_blocks
total_blocks-Ceiling size block_size h = elim (Bool-cases (size % block_size == 0)) [
  | inl e ↦
      let none_left : size % block_size ≡ 0 = ground arith in
      rw (e, total_blocks)
        (record {
          enough = omega (arith, div-add-mod size block_size);
          tight = omega (arith, div-add-mod size block_size);
        })
  | inr e ↦
      let some_left : size % block_size ≢ 0 = ground arith in
      rw (e, total_blocks)
        (record {
          enough = omega (arith, div-add-mod size block_size, mod-lt size h);
          tight = omega (arith, div-add-mod size block_size);
        })
]

-- The number of blocks is the size divided by the block size, rounded up: the last block begins
-- inside the session, and the session ends within it.
pub total_blocks_bounds :
    (size block_size : ℕ)
    → 0 < block_size
    → (size ≤ total_blocks size block_size * block_size)
      × (total_blocks size block_size * block_size < size + block_size)
total_blocks_bounds size block_size h =
    let c = total_blocks-Ceiling size block_size h in (c.enough, c.tight)

pub total_blocks-le : (size block_size : ℕ) → 0 < block_size → total_blocks size block_size ≤ size
total_blocks-le size block_size h =
    at_most (total_blocks size block_size) (total_blocks-Ceiling size block_size h)
  where
    at_most : (n : ℕ) → Ceiling size block_size n → n ≤ size
    at_most zero c = omega arith
    at_most (suc n) c = grind (arith, c.tight)

-- ===== src/Allocator.antt =====
-- src/task/VolumeProtectTaskContext.cpp, class VolumeBlockAllocator: the fixed pool of block
-- buffers that the reader takes from and the hasher and writer give back to.
pub mod Table
pub mod Ownership
pub mod Pool
mod Tests
use volume_backup.Prelude.{
  ℕ, zero, suc, ◌+◌, ◌-◌, ◌*◌, ◌/◌, ◌%◌, ◌^◌, ◌<◌, ◌≡◌, Bool, true, false, ◌||◌, List, [], ◌∷◌,
  Option, none, some, length, set, replicate, ltb, leb, ◌==◌, if◌then◌else◌,
}
use volume_backup.Allocator.Table.{first_free}

-- `m_pool` as an address; the buffer that it points to has `pool_size` bytes.
pub record Allocator : Type 0 where
  pub pool : ℕ
  pub pool_size : ℕ
  pub alloc_table : List Bool
  pub block_size : ℕ  -- uint32_t
  pub block_num : ℕ  -- uint32_t

-- The constructor, with the address that `new` returns. The size of the pool is a product of two
-- uint32_t.
unfoldable pub make : ℕ → ℕ → ℕ → Allocator
make pool block_size block_num = record {
  pool = pool;
  pool_size = block_size * block_num % 2 ^ 32;
  alloc_table = replicate block_num false;
  block_size = block_size;
  block_num = block_num;
}

-- `static_cast<int>(m_blockNum)`: a negative bound makes no round.
unfoldable pub rounds : Allocator → ℕ
rounds a = if ltb a.block_num (2 ^ 31) then a.block_num else 0

-- `m_pool + (m_blockSize * i)`, the product in 32 bits.
unfoldable pub address : Allocator → ℕ → ℕ
address a i = a.pool + a.block_size * i % 2 ^ 32

-- `BlockAlloc`. `none` is the null pointer.
unfoldable pub block_alloc : Allocator → Option ℕ × Allocator
unfolding rounds address
block_alloc a = elim (first_free (rounds a) a.alloc_table) [
  | none ↦ (none, a)
  | some i ↦ (some (address a i), record a { alloc_table = set a.alloc_table i true })
]

-- `undefined` is a write past the table, or a division by zero.
pub data Freed : Type 0 where
  freed : Allocator → Freed
  bad_address undefined : Freed

-- `(ptr - m_pool) / (uint64_t)m_blockSize`: the difference is taken as an unsigned number.
unfoldable pub index_of : Allocator → ℕ → ℕ
index_of a ptr = (ptr + 2 ^ 64 - a.pool) % 2 ^ 64 / a.block_size

-- `(ptr - m_pool) % m_blockSize == 0`: here the difference is signed.
unfoldable pub is_aligned : Allocator → ℕ → Bool
is_aligned a ptr =
    if leb a.pool ptr
    then (ptr - a.pool) % a.block_size == 0
    else (a.pool - ptr) % a.block_size == 0

unfoldable pub block_free : Allocator → ℕ → Freed
unfolding index_of is_aligned
block_free a ptr =
    if a.block_size == 0
    then undefined
    else if is_aligned a ptr
    then if ltb (index_of a ptr) (length a.alloc_table)
      then freed (record a { alloc_table = set a.alloc_table (index_of a ptr) false })
      else undefined
    else bad_address

-- ===== src/Bitmap.antt =====
-- src/task/VolumeProtectTaskContext.cpp, class Bitmap: one bit for each block of a session.
pub mod Bits
pub mod Laws
pub mod Scan
mod Tests
use volume_backup.Prelude.{
  ℕ, zero, suc, ◌+◌, ◌-◌, ◌*◌, ◌/◌, ◌%◌, ◌^◌, bit_and, bit_or, Bool, true, false, not, List, set,
  get_or, replicate, leb, ◌==◌, if◌then◌else◌,
}

-- `m_capacity` in bytes, and the bytes of `m_table`.
pub record Bitmap : Type 0 where
  pub capacity : ℕ
  pub table : List ℕ

-- `Bitmap(uint64_t size)`, for so many bits.
unfoldable pub make : ℕ → Bitmap
make size = record { capacity = size / 8 + 1; table = replicate (size / 8 + 1) 0 }

-- `Bitmap(uint8_t* ptr, uint64_t capacity)`.
unfoldable pub from_buffer : List ℕ → ℕ → Bitmap
from_buffer ptr capacity = record { capacity = capacity; table = ptr }

-- `m_capacity * BITS_PER_UINT8`, in 64 bits.
abbrev pub bits : Bitmap → ℕ
bits b = b.capacity * 8 % 2 ^ 64

-- `Set`: an index past the end changes nothing. `index >> 3` is `index / 8`.
pub set_bit : Bitmap → ℕ → Bitmap
set_bit b index = if leb (bits b) index then b else record b {
  table = set b.table (index / 8) (bit_or (get_or b.table (index / 8) 0) (2 ^ (index % 8)) % 256);
}

-- `Test`.
unfoldable pub test : Bitmap → ℕ → Bool
test b index =
    if leb (bits b) index
    then false
    else not (bit_and (get_or b.table (index / 8) 0) (2 ^ (index % 8)) == 0)

-- `MaxIndex`: an unsigned difference.
pub max_index : Bitmap → ℕ
max_index b = (bits b + 2 ^ 64 - 1) % 2 ^ 64

-- The loop of `FirstIndexUnset` at `index`, with so many rounds left.
first_unset_from : Bitmap → ℕ → ℕ → ℕ
first_unset_from b zero index = (max_index b + 1) % 2 ^ 64
first_unset_from b (suc left) index = elim (test b index) [
  | true ↦ first_unset_from b left (index + 1)
  | false ↦ index
]

pub first_index_unset : Bitmap → ℕ
first_index_unset b = first_unset_from b (bits b) 0

-- The loop of `TotalSetCount`. The sum cannot wrap: it stays at most the number of rounds.
count_from : Bitmap → ℕ → ℕ → ℕ
count_from b zero index = 0
count_from b (suc left) index = (if test b index then 1 else 0) + count_from b left (index + 1)

pub total_set_count : Bitmap → ℕ
total_set_count b = count_from b (bits b) 0

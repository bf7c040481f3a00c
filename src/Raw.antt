-- ===== src/Raw.antt =====
-- src/native/RawIO.cpp and src/native/linux/PosixRawIO.cpp: reading and writing at volume offsets.
pub mod Offsets
mod Tests
use volume_backup.Prelude.{
  ℕ, zero, suc, ◌+◌, ◌-◌, ◌%◌, ◌^◌, Bool, true, false, not, ◌||◌, Option, none, some, List, [], ◌∷◌,
  length, take, ltb, ◌==◌, if◌then◌else◌,
}
use volume_backup.Session.{CopyFormat, bin, image, other}
use volume_backup.Pipeline.Writer.{Target, write_bytes}

-- `m_flag` by its sign.
pub data ShiftFlag : Type 0 where
  negative zero_flag positive : ShiftFlag

-- PosixRawDataReader and PosixRawDataWriter: how they translate an offset.
pub record RawHandle : Type 0 where
  pub flag : ShiftFlag
  pub shift_offset : ℕ

-- `OpenRawDataCopyReader` and `OpenRawDataCopyWriter`; `none` is the null pointer.
unfoldable pub open_copy : CopyFormat → ℕ → Option RawHandle
open_copy bin volume_offset = some (record { flag = negative; shift_offset = volume_offset })
open_copy image volume_offset = some (record { flag = zero_flag; shift_offset = 0 })
open_copy (other n) volume_offset = none

-- `OpenRawDataVolumeReader` and `OpenRawDataVolumeWriter`.
pub open_volume : RawHandle
open_volume = record { flag = zero_flag; shift_offset = 0 }

-- The place in the file that `lseek` is given.
pub file_offset : RawHandle → ℕ → ℕ
file_offset h offset = elim h.flag [
  | positive ↦ (offset + h.shift_offset) % 2 ^ 64
  | negative ↦ (offset + 2 ^ 64 - h.shift_offset) % 2 ^ 64
  | zero_flag ↦ offset
]

pub read_bytes : Target → ℕ → ℕ → List ℕ
read_bytes file offset zero = []
read_bytes file offset (suc n) = file offset ∷ read_bytes file (offset + 1) n

-- What the system call returns: an error, or the number of bytes.
pub data Transfer : Type 0 where
  errno : ℕ → Transfer
  moved : ℕ → Transfer

-- `ret <= 0 || ret != length`.
abbrev is_short : ℕ → ℕ → Bool
is_short n size = n == 0 || not (n == size)

-- `PosixRawDataReader::Read`: the bytes, or nothing for the return value false.
pub read : RawHandle → Transfer → Target → ℕ → ℕ → Option (List ℕ)
unfolding file_offset
read h (errno _) file offset size = none
read h (moved n) file offset size =
    if is_short n size then none else some (read_bytes file (file_offset h offset) size)

-- `PosixRawDataWriter::Write`: what is returned, and the file, which keeps the bytes of a short write.
pub write : RawHandle → Transfer → Target → ℕ → List ℕ → Bool × Target
unfolding file_offset
write h (errno _) file offset buffer = (false, file)
write h (moved n) file offset buffer =
    (not (is_short n (length buffer)), write_bytes file (file_offset h offset) (take n buffer))

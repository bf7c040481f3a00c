-- ===== src/Backup/Hashing.antt =====
-- src/task/VolumeBackupTask.cpp: the checksum tables of a session, and what an incremental backup
-- loads of the previous copy's.
pub mod Previous
mod Tests
use volume_backup.Prelude.{
  ℕ, ◌+◌, ◌-◌, ◌*◌, ◌/◌, ◌%◌, ◌^◌, Bool, true, false, Option, none, some, List, ◌++◌, take, drop,
  replicate, if◌then◌else◌,
}
use volume_backup.Files.{File, read_binary_buffer}
use volume_backup.Session.{SharedConfig, total_blocks}
use volume_backup.Pipeline.{Context}

abbrev pub sha256_checksum_size : ℕ
sha256_checksum_size = 32

-- `lastestChecksumTableSize` of `InitHashingContext`.
pub table_size : SharedConfig → ℕ
table_size s = total_blocks s.session_size s.block_size * sha256_checksum_size % 2 ^ 64

-- `prevChecksumTableSize` of `LoadSessionPreviousCopyChecksum`: a product of two uint32_t, and the
-- division is not rounded up.
pub loaded_size : SharedConfig → ℕ
loaded_size s = s.session_size / s.block_size % 2 ^ 32 * sha256_checksum_size % 2 ^ 32

-- The checksum of a block in the bytes of a table.
pub checksum_at : List ℕ → ℕ → List ℕ
checksum_at table index = take sha256_checksum_size (drop (index * sha256_checksum_size) table)

-- The buffer copied into a table of zeros.
abbrev pub with_previous : SharedConfig → Context → Option (List ℕ) → Option Context
with_previous s c none = none
with_previous s c (some buffer) = some (record c {
  previous_table = checksum_at (buffer ++ replicate (table_size s - loaded_size s) 0);
})

-- `LoadSessionPreviousCopyChecksum`; `none` is the return value false. The flag says whether the file
-- can be read.
pub load_previous_checksum : SharedConfig → Bool → File → Context → Option Context
load_previous_checksum s readable file c =
    with_previous s c (read_binary_buffer readable file (loaded_size s))

-- `InitHashingContext`, whose memory is always had. A full backup has no previous table.
pub init_hashing_context : Bool → SharedConfig → Bool → File → Context → Option Context
unfolding load_previous_checksum
init_hashing_context is_increment s readable file c =
    let fresh = record c { lastest_table = checksum_at (replicate (table_size s) 0) } in
    if is_increment then load_previous_checksum s readable file fresh else some fresh

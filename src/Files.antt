-- ===== src/Files.antt =====
-- src/native/FileSystemAPI.cpp: files as the tasks read and write them.
use volume_backup.Prelude.{
  ℕ, ◌-◌, Bool, true, false, Option, none, some, List, ◌++◌, length, take, replicate, ◌==◌,
  if◌then◌else◌,
}

-- The bytes under a path, or nothing.
abbrev pub File : Type 0
File = Option (List ℕ)

-- What the file system does with a write: all of it, or an error that leaves some file behind.
pub data WriteAnswer : Type 0 where
  complete : WriteAnswer
  broken : File → WriteAnswer

-- `IsFileExists`.
pub is_file_exists : File → Bool
is_file_exists none = false
is_file_exists (some _) = true

-- `GetFileSize`: 0 where there is no file.
unfoldable pub get_file_size : File → ℕ
get_file_size none = 0
get_file_size (some bytes) = length bytes

-- `ReadBinaryBuffer`: a file that is too short leaves zeros at the end of the buffer. The flag says
-- whether the file can be opened and read.
unfoldable pub read_binary_buffer : Bool → File → ℕ → Option (List ℕ)
read_binary_buffer readable none size = none
read_binary_buffer readable (some bytes) size =
    if size == 0
    then none
    else if readable
    then some (take size bytes ++ replicate (size - length bytes) 0)
    else none

-- `WriteBinaryBuffer`: what it returns, and the file afterwards.
unfoldable pub write_binary_buffer : WriteAnswer → List ℕ → Bool × File
write_binary_buffer complete bytes = (true, some bytes)
write_binary_buffer (broken left) bytes = (false, left)

-- ===== src/Lib.antt =====
-- VolumeBackup: block-level backup and restore of volumes, modelled for a POSIX build.
--
-- A backup task splits a volume into sessions. For each session a reader thread reads the blocks
-- of the session into buffers of a fixed pool, hasher threads compute their checksums and drop
-- the blocks that have not changed since the previous copy, and a writer thread writes the others
-- to the copy; the threads are connected by two bounded queues, and bitmaps record which blocks
-- are done. A restore runs the same reader and writer in the other direction, over the sessions
-- that the meta data of the copy lists.
--
-- The files, by the part of the program that they model:
-- - Prelude: numbers, lists and tests that the other files share; Prelude/Tables checks a
--   property of all small numbers by computing.
-- - Queue (include/common/BlockingQueue.h): `blocking_push`, `blocking_pop`, `try_push`,
--   `try_pop` and `finish` on a queue as a record. A call is atomic, since it holds the mutex,
--   but for the wait, which a call leaves as `blocks`; `resume_push` is what a push does once it
--   is woken. The notifications are not modelled: a call that waits may take its next step at any
--   time, so nothing is stated of which calls are woken. `run` executes the calls of any number
--   of threads in the order in which they take the lock. Queue/Fifo and Queue/Shutdown hold the
--   proofs.
-- - Allocator (VolumeBlockAllocator in src/task/VolumeProtectTaskContext.cpp): `block_alloc` and
--   `block_free` on the allocation table, with addresses as numbers. Allocator/Ownership and
--   Allocator/Pool hold the proofs.
-- - Bitmap (class Bitmap in the same file): `set_bit`, `test`, `first_index_unset`,
--   `total_set_count` on a list of bytes.
-- - Task (StatefulTask and TaskStatistics in include/VolumeProtector.h and
--   src/VolumeProtector.cpp; TaskStatisticTrait).
-- - Session (VolumeTaskSession and VolumeTaskSharedConfig in
--   include/task/VolumeProtectTaskContext.h).
-- - Text (src/common/VolumeUtils.cpp): file names of a copy, as lists of character codes.
-- - Copy (the configurations in include/VolumeProtector.h, and the meta data in
--   include/common/VolumeUtils.h).
-- - Backup (src/task/VolumeBackupTask.cpp): `Prepare` and what it calls. Its loop is recursion on
--   fuel, the size of the volume plus one, which is enough since each round moves on by a byte at
--   least.
-- - Backup/Thread: the main thread, ThreadFunc and WaitSessionTerminate. The session that it
--   watches is changed by other threads, so each call's view of it is an input, and the list of
--   these rounds is what the loop runs over.
-- - Backup/Hashing: InitHashingContext and LoadSessionPreviousCopyChecksum, over the bytes of the
--   checksum file.
-- - Files (src/native/FileSystemAPI.cpp): a file is its bytes, or nothing; what the system
--   answers to a write is an input.
-- - Checkpoint (CheckpointSnapshot and VolumeTaskCheckpointTrait in
--   src/task/VolumeProtectTaskContext.cpp): `refresh` saves a checkpoint to a `Disk`, which is
--   what outlives the process, and `restore_checkpoint` is what a task that is started again
--   makes of it. What meets the flush of the writer, the end of fsync among it, is an input. The
--   contexts that `refresh` meets at each of its actions are inputs, since the other threads go
--   on.
-- - Raw (src/native/RawIO.cpp and src/native/linux/PosixRawIO.cpp): where reads and writes go in
--   a file.
-- - ZeroCopy (src/task/VolumeZeroCopyRestoreTask.cpp): the loop of sendfile calls, over the list
--   of what they return; ZeroCopy/Thread is the main thread, over the files of the copy by their
--   paths.
-- - Resource (src/native/TaskResourceManager.cpp): the creation of copy files in a set of paths.
--   Its loop has the fuel of the loop of a backup.
-- - Mount (src/native/linux and src/VolumeCopyMountProvider.cpp): mounting a copy. The code is a
--   chain of system calls, so an action is a function on a `System` in a `do` block: the mounts,
--   loop devices, device mapper devices and files that the calls change, and the answers that
--   they get. `ask` takes the next answer, and the theorems are about all answers; a call whose
--   object does not exist fails whatever its answer. Mount/Loop, Mount/Points, Mount/Device and
--   Mount/Table are LoopDeviceControl, LinuxMountUtils and DeviceMapperControl; Mount/Binary and
--   Mount/Release are the mount and the umount providers, Mount/Provider chooses them. The waits
--   for a device have as many rounds as pauses of 10 ms fit their timeout, which is enough as a
--   pause is no shorter; the clock may end them earlier. Mount/Keeps has the rules for what an
--   action leaves alone.
-- - Options (cli/GetOption.cpp): the parser of command lines, over the list of arguments; a
--   `std::map` is a list of pairs. Options/RoundTrip and Options/Declared have the proofs.
-- - Restore (src/task/VolumeRestoreTask.cpp, and BuildRestoreTask in src/VolumeProtector.cpp);
--   Restore/Thread is its main thread, in the way of Backup/Thread. Task/Rounds has what the main
--   threads share.
-- - Pipeline: `Context` is VolumeTaskSharedContext. Pipeline/Reader, Pipeline/Hasher and
--   Pipeline/Writer (src/task/VolumeBlockReader.cpp, VolumeBlockHasher.cpp,
--   VolumeBlockWriter.cpp) give each thread as a function `step` on its own state and the
--   context; what the source or the target answers is an input, so that every answer is covered.
--   A step that waits changes nothing but where the thread stands, and is tried again; a thread
--   that waits, for a buffer or at a queue, does not look at its flags meanwhile. The writer's
--   round on one block is one step, and so is a hasher's. Pipeline/Together lets the reader and
--   the writer of a session without hashers take their steps in any order;
--   Pipeline/Together/Volume runs all sessions of a backup and then those of a restore.
--
-- Numbers are natural numbers; where the program computes in 32 or 64 bits, the remainder is
-- written out. Memory is a function from the address of a buffer to its bytes. SHA-256, which
-- OpenSSL computes, is a parameter.
--
-- Not modelled: the notifications of the queues, the construction of readers, hashers and
-- writers, the parsing of mount options that nothing calls, JSON, of which a mount record is what
-- can be read back, the command line tools but for their options, the Windows backend and the
-- language bindings.
pub mod Prelude
pub mod Queue
pub mod Allocator
pub mod Bitmap
pub mod Task
pub mod Session
pub mod Text
pub mod Copy
pub mod Backup
pub mod Restore
pub mod Pipeline
pub mod Files
pub mod Raw
pub mod ZeroCopy
pub mod Resource
pub mod Checkpoint
pub mod Mount
pub mod Options

-- ===== src/ZeroCopy/Tests.antt =====
-- A session of ten bytes at offset 100.
use volume_backup.Prelude.{List, replicate}
use volume_backup.Task.{zero_statistics}
use volume_backup.Task.Statistics.{Statistics}
use volume_backup.Raw.{Transfer, moved}

abbrev calls : List Transfer
calls = replicate 10 (moved 1)

abbrev pub none_yet : Statistics
none_yet = record { current = zero_statistics; completed = zero_statistics }

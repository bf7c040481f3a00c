-- ===== src/Backup/Hashing/Tests.antt =====
-- The previous checksums of a session of three blocks, of which the last is short.
use volume_backup.Prelude.{ℕ, ◌/◌, ◌≤◌, ◌<◌, ◌≡◌, true, none, some, List, replicate, arith}
use volume_backup.Session.{SharedConfig, total_blocks}
use volume_backup.Pipeline.{Context}
use volume_backup.Pipeline.Tests.{config, config-IsSession, context}
use volume_backup.Backup.Hashing.{checksum_at, load_previous_checksum, init_hashing_context}
use volume_backup.Backup.Hashing.Previous.{short_session_fails, load_previous_checksum_lem}

abbrev three_checksums : List ℕ
three_checksums = replicate 96 1

load_previous_checksum_lem_example :
    (c' : Context) × (load_previous_checksum config true (some three_checksums) context ≡ some c')
    × ((i : ℕ) → i < 10 / 4 → c'.previous_table i ≡ checksum_at three_checksums i)
    × ((i : ℕ) → 10 / 4 ≤ i → i < total_blocks 10 4 → c'.previous_table i ≡ replicate 32 0)
load_previous_checksum_lem_example =
    load_previous_checksum_lem config three_checksums context config-IsSession (omega arith)
      (omega arith) (omega arith)

abbrev short_config : SharedConfig
short_config = record config { session_size = 3 }

short_session_fails_example :
    init_hashing_context true short_config true (some three_checksums) context ≡ none
short_session_fails_example =
    short_session_fails short_config true (some three_checksums) context (omega arith)

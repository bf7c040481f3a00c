-- ===== src/Session/Tests.antt =====
-- A session at concrete values.
use volume_backup.Prelude.{◌≡◌, refl}
use volume_backup.Session.{total_blocks}

ten_by_four : total_blocks 10 4 ≡ 3
unfolding total_blocks
ten_by_four = refl

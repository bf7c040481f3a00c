-- ===== src/Resource/Tests.antt =====
-- The fragments of a copy of three sessions.
use volume_backup.Prelude.{ℕ, ◌≡◌, true, false, some, [], arith}
use volume_backup.Text.{Text, codes}
use volume_backup.Resource.{Paths, CreateAnswer, create_fragments}
use volume_backup.Resource.Fragments.{create_fragments_fails}

abbrev name : Text
name = codes "c1"

abbrev dir : Text
dir = codes "/data"

-- The system refuses nothing.
abbrev willing : ℕ → CreateAnswer
willing k = record { opened = true; truncated = true }

create_fragments_fails_example :
    (after : Paths) × (create_fragments willing name dir 20000 8192 [] ≡ some (false, after))
create_fragments_fails_example =
    create_fragments_fails willing name dir 20000 8192 [] (omega arith) (omega arith) (omega arith)

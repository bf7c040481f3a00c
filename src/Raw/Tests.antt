-- ===== src/Raw/Tests.antt =====
-- A binary copy of a session at offset 100.
use volume_backup.Prelude.{ℕ, ◌-◌, ◌≡◌, refl, true, some, List, [], ◌∷◌, arith}
use volume_backup.Session.{bin, image}
use volume_backup.Raw.{RawHandle, negative, moved, read, write, file_offset, open_copy}
use volume_backup.Raw.Offsets.{copy_read-write}

abbrev handle : RawHandle
handle = record { flag = negative; shift_offset = 100 }

abbrev three_bytes : List ℕ
three_bytes = 5 ∷ 6 ∷ 7 ∷ []

copy_read-write_example :
    let written = write handle (moved 3) (λ _. 0) 104 three_bytes in
    (written.0 ≡ true)
    × (read handle (moved 3) written.1 104 3 ≡ some three_bytes)
    × (bin ≡ bin → file_offset handle 104 ≡ 104 - 100)
    × (bin ≡ image → file_offset handle 104 ≡ 104)
unfolding open_copy
copy_read-write_example =
    copy_read-write bin 100 handle (λ _. 0) 104 three_bytes refl (omega arith) (omega arith)
      (omega arith)

-- ===== src/Bitmap/Tests.antt =====
-- Class Bitmap at concrete sizes.
use volume_backup.Prelude.{ℕ, ◌*◌, ◌≤◌, ◌<◌, ◌≡◌, refl, true, false, arith, ◌==◌, if◌then◌else◌}
use volume_backup.Bitmap.{Bitmap, make, set_bit, test, first_index_unset, first_unset_from}
use volume_backup.Bitmap.Laws.{IsValid, make-IsValid, set_bit-IsValid, test-set_bit}
use volume_backup.Bitmap.Scan.{first_index_unset_lem}

-- Nine bits and more, with the bits 0 and 9 set.
abbrev sparse : Bitmap
sparse = set_bit (set_bit (make 9) 0) 9

sparse-IsValid : IsValid sparse
sparse-IsValid =
    set_bit-IsValid (set_bit (make 9) 0) 9
      (set_bit-IsValid (make 9) 0 (make-IsValid 9 (omega arith)))

sparse_capacity : sparse.capacity ≡ 2
unfolding make set_bit
sparse_capacity = refl

first_index_unset_lem_example :
    let i = first_index_unset sparse in
    (i ≤ sparse.capacity * 8) × ((j : ℕ) → j < i → test sparse j ≡ true) × (test sparse i ≡ false)
first_index_unset_lem_example = first_index_unset_lem sparse sparse-IsValid

first_of_sparse : first_index_unset sparse ≡ 1
unfolding make set_bit test first_index_unset first_unset_from
first_of_sparse = refl

abbrev one : Bitmap
one = set_bit (make 9) 0

one_bits : (j : ℕ) → test one j ≡ (if 0 == j then true else test (make 9) j)
unfolding make
one_bits j = test-set_bit (make 9) 0 j (make-IsValid 9 (omega arith)) (omega arith)

one_capacity : one.capacity ≡ 2
unfolding make set_bit
one_capacity = refl

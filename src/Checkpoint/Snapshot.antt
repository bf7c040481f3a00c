-- ===== src/Checkpoint/Snapshot.antt =====
-- CheckpointSnapshot: a saved snapshot is read back as it was.
use volume_backup.Prelude.{
  ℕ, zero, suc, ◌+◌, ◌-◌, ◌/◌, ◌%◌, ◌<◌, ◌≡◌, refl, sym, ap, ◌∙◌, arith, true, false, not, ◌||◌,
  some, List, [], ◌∷◌, ◌++◌, length, take, drop, ◌==◌, length-append, append-nil,
}
use volume_backup.Files.{File, complete, get_file_size, read_binary_buffer, write_binary_buffer}
use volume_backup.Bitmap.{Bitmap, from_buffer}
use volume_backup.Bitmap.Laws.{IsValid}
use volume_backup.Pipeline.{Context}
use volume_backup.Checkpoint.{
  CheckpointSnapshot, save_to, load_from, take_snapshot, Disk, restore_bitmap,
}

take_all : (n : ℕ) (xs : List ℕ) → length xs ≡ n → take n xs ≡ xs
take_all zero [] h = refl
take_all zero (x ∷ xs) h = absurd (omega arith)
take_all (suc n) [] h = refl
take_all (suc n) (x ∷ xs) h = ap (λ ys. x ∷ ys) (take_all n xs (omega arith))

take-append : (n : ℕ) (xs ys : List ℕ) → length xs ≡ n → take n (xs ++ ys) ≡ xs
take-append zero [] ys h = refl
take-append zero (x ∷ xs) ys h = absurd (omega arith)
take-append (suc n) [] ys h = absurd (omega arith)
take-append (suc n) (x ∷ xs) ys h = ap (λ zs. x ∷ zs) (take-append n xs ys (omega arith))

drop-append : (n : ℕ) (xs ys : List ℕ) → length xs ≡ n → drop n (xs ++ ys) ≡ ys
drop-append zero [] ys h = refl
drop-append zero (x ∷ xs) ys h = absurd (omega arith)
drop-append (suc n) [] ys h = absurd (omega arith)
drop-append (suc n) (x ∷ xs) ys h = drop-append n xs ys (omega arith)

-- A snapshot of two buffers of its length, which is not 0.
pub record IsWhole (s : CheckpointSnapshot) : Type 0 where
  pub some_bytes : 0 < s.bitmap_bytes
  pub processed : length s.processed_bitmap ≡ s.bitmap_bytes
  pub written : length s.written_bitmap ≡ s.bitmap_bytes

read_whole :
    (bytes : List ℕ)
    → 0 < length bytes
    → read_binary_buffer true (some bytes) (length bytes) ≡ some bytes
unfolding read_binary_buffer
read_whole bytes h =
    let none_left : length bytes - length bytes ≡ 0 = omega arith in
    let some_bytes : (length bytes == 0) ≡ false = ground arith in
    rw (some_bytes, none_left, take_all (length bytes) bytes refl, append-nil bytes) refl

load_two :
    (n : ℕ) (xs ys : List ℕ)
    → 0 < n
    → length xs ≡ n
    → length ys ≡ n
    → load_from true (some (xs ++ ys))
      ≡ some (record { bitmap_bytes = n; processed_bitmap = xs; written_bitmap = ys })
unfolding load_from get_file_size
load_two n xs ys h e f =
    let size : length (xs ++ ys) ≡ n + n = omega (arith, length-append xs ys) in
    let sane : (length (xs ++ ys) == 0 || not (length (xs ++ ys) % 2 == 0)) ≡ false =
      ground (arith, size) in
    let half : length (xs ++ ys) / 2 ≡ n = omega (arith, size) in
    rw
      (
        sane,
        read_whole (xs ++ ys) (omega (arith, size)),
        half,
        take-append n xs ys e,
        drop-append n xs ys e,
        take_all n ys f,
      )
      refl

-- A snapshot that is saved without an error is read back as it was.
pub load_from-save_to :
    (s : CheckpointSnapshot)
    → IsWhole s
    → (file : File) × (save_to complete s ≡ (true, file)) × (load_from true file ≡ some s)
unfolding save_to write_binary_buffer
load_from-save_to s w = (
  some (take s.bitmap_bytes s.processed_bitmap ++ take s.bitmap_bytes s.written_bitmap),
  refl,
  rw
      (
        take_all s.bitmap_bytes s.processed_bitmap w.processed,
        take_all s.bitmap_bytes s.written_bitmap w.written,
      )
      (load_two s.bitmap_bytes s.processed_bitmap s.written_bitmap w.some_bytes w.processed
        w.written),
)

-- The two bitmaps of a session: valid and of one capacity.
pub record HasBitmaps (c : Context) : Type 0 where
  pub processed : IsValid c.processed
  pub written : IsValid c.written
  pub same_capacity : c.processed.capacity ≡ c.written.capacity

take_snapshot-IsWhole : (c : Context) → HasBitmaps c → IsWhole (take_snapshot c)
unfolding take_snapshot
take_snapshot-IsWhole c v =
    let p : length c.processed.table ≡ c.written.capacity = v.processed.tabled ∙ v.same_capacity in
    let w : length c.written.table ≡ c.written.capacity = v.written.tabled in
    record {
      some_bytes = v.written.room;
      processed = ap length (take_all c.written.capacity c.processed.table p) ∙ p;
      written = ap length (take_all c.written.capacity c.written.table w) ∙ w;
    }

abbrev pub with_bitmaps : Bitmap → Bitmap → Context → Context
with_bitmaps processed written c = record c { processed = processed; written = written }

from_snapshot :
    (c : Context)
    → HasBitmaps c
    → let s = take_snapshot c in
      (from_buffer s.processed_bitmap s.bitmap_bytes ≡ c.processed)
      × (from_buffer s.written_bitmap s.bitmap_bytes ≡ c.written)
unfolding take_snapshot from_buffer
from_snapshot c v = (
  rw (take_all c.written.capacity c.processed.table (v.processed.tabled ∙ v.same_capacity))
      (ap (λ n. record { capacity = n; table = c.processed.table }) (sym v.same_capacity)),
  rw (take_all c.written.capacity c.written.table v.written.tabled) refl,
)

snapshot_bytes : (c : Context) → (take_snapshot c).bitmap_bytes ≡ c.written.capacity
unfolding take_snapshot
snapshot_bytes c = refl

-- Bitmaps that stand in the checkpoint file are those that a session of the same size goes on with.
pub restore_bitmap-saved :
    (c c' : Context) (d : Disk)
    → HasBitmaps c
    → c'.written.capacity ≡ c.written.capacity
    → d.checkpoint ≡ (save_to complete (take_snapshot c)).1
    → restore_bitmap true d c' ≡ some (with_bitmaps c.processed c.written c')
unfolding restore_bitmap
restore_bitmap-saved c c' d v same e =
    let s = take_snapshot c in
    let (file, saved, loaded) = load_from-save_to s (take_snapshot-IsWhole c v) in
    let there : load_from true d.checkpoint ≡ some s = cc (e, saved, loaded) in
    let fits : (s.bitmap_bytes == c'.written.capacity) ≡ true = ground (arith, snapshot_bytes c) in
    let back = from_snapshot c v in rw (there, fits, back.0, back.1) refl

-- ===== src/Backup/Hashing/Previous.antt =====
-- VolumeBackupTask: which checksums of the previous copy an incremental backup has.
use native.Mathlib.Nat.{div-add-mod, mod-lt}
use volume_backup.Prelude.{
  ℕ, zero, suc, ◌+◌, ◌-◌, ◌*◌, ◌/◌, ◌^◌, ◌≤◌, ◌<◌, ◌≡◌, refl, ap, arith, Bool, true, false, none,
  some, List, [], ◌∷◌, ◌++◌, length, take, drop, replicate, ◌==◌, append-nil, length-take,
}
use volume_backup.Files.{File, read_binary_buffer}
use volume_backup.Session.{SharedConfig, total_blocks}
use volume_backup.Pipeline.{Context}
use volume_backup.Pipeline.Reader.Blocks.{IsSession}
use volume_backup.Backup.Hashing.{
  table_size, loaded_size, checksum_at, load_previous_checksum, init_hashing_context, with_previous,
}

div-small : (n d : ℕ) → n < d → n / d ≡ 0
div-small n d h = grind (arith, div-add-mod n d)

-- A session that is shorter than a block cannot be backed up incrementally: its checksum tables
-- cannot be set up, whatever the file of the previous checksums holds.
pub short_session_fails :
    (s : SharedConfig) (readable : Bool) (file : File) (c : Context)
    → s.session_size < s.block_size
    → init_hashing_context true s readable file c ≡ none
unfolding init_hashing_context load_previous_checksum read_binary_buffer loaded_size
short_session_fails s readable none c h = refl
short_session_fails s readable (some bytes) c h =
    let nothing : s.session_size / s.block_size ≡ 0 = div-small s.session_size s.block_size h in
    ground (arith, nothing)

take_within :
    (m k n : ℕ) (xs zs : List ℕ)
    → k + m ≤ n
    → n ≤ length xs
    → take m (drop k (take n xs ++ zs)) ≡ take m (drop k xs)
take_within zero k n xs zs h l = refl
take_within (suc m) k zero xs zs h l = absurd (omega arith)
take_within (suc m) k (suc n) [] zs h l = absurd (omega arith)
take_within (suc m) zero (suc n) (x ∷ xs) zs h l =
    ap (λ ys. x ∷ ys) (take_within m zero n xs zs (omega arith) (omega arith))
take_within (suc m) (suc k) (suc n) (x ∷ xs) zs h l =
    take_within (suc m) k n xs zs (omega arith) (omega arith)

take-replicate : (m n : ℕ) → m ≤ n → take m (replicate n 0) ≡ replicate {A = ℕ} m 0
take-replicate zero n h = refl
take-replicate (suc m) zero h = absurd (omega arith)
take-replicate (suc m) (suc n) h = ap (λ ys. 0 ∷ ys) (take-replicate m n (omega arith))

take_past :
    (m k z : ℕ) (xs : List ℕ)
    → length xs ≤ k
    → k + m ≤ length xs + z
    → take m (drop k (xs ++ replicate z 0)) ≡ replicate m 0
take_past m zero z [] h e = take-replicate m z (omega arith)
take_past m (suc k) zero [] h e = absurd (omega arith)
take_past m (suc k) (suc z) [] h e = take_past m k z [] (omega arith) (omega arith)
take_past m zero z (x ∷ xs) h e = absurd (omega arith)
take_past m (suc k) z (x ∷ xs) h e = take_past m k z xs (omega arith) (omega arith)

quotient-pos : (n d : ℕ) → 0 < d → d ≤ n → 0 < n / d
quotient-pos n d h l = grind (arith, div-add-mod n d, mod-lt n h)

-- The blocks of a session, and those that are a whole block long.
record Counts (s : SharedConfig) : Type 0 where
  whole : s.session_size / s.block_size ≤ total_blocks s.session_size s.block_size
  loaded : loaded_size s ≡ s.session_size / s.block_size * 32
  tabled : table_size s ≡ total_blocks s.session_size s.block_size * 32

counts : (s : SharedConfig) → IsSession s → s.session_size / s.block_size * 32 < 2 ^ 32 → Counts s
unfolding loaded_size table_size total_blocks
counts s v small = record {
  whole = ground arith;
  loaded = omega (arith, small);
  tabled = ground (arith, small);
}

read_part :
    (n : ℕ) (bytes : List ℕ)
    → 0 < n
    → n ≤ length bytes
    → read_binary_buffer true (some bytes) n ≡ some (take n bytes)
unfolding read_binary_buffer
read_part n bytes h l =
    let some_bytes : (n == 0) ≡ false = ground arith in
    let full : n - length bytes ≡ 0 = omega arith in
    rw (some_bytes, full) (ap some (append-nil (take n bytes)))

-- An incremental backup whose session is a block long at least, and has so few whole blocks, fewer
-- than 2^27, that their checksums take less than 2^32 bytes, and whose previous checksum file has a
-- checksum for every whole block, loads exactly these; in the place of a last block that is shorter
-- it has zeros, whatever the file holds there.
pub load_previous_checksum_lem :
    (s : SharedConfig) (bytes : List ℕ) (c : Context)
    → IsSession s
    → s.block_size ≤ s.session_size
    → s.session_size / s.block_size * 32 < 2 ^ 32
    → s.session_size / s.block_size * 32 ≤ length bytes
    → (c' : Context) × (load_previous_checksum s true (some bytes) c ≡ some c')
      × ((i : ℕ) → i < s.session_size / s.block_size → c'.previous_table i ≡ checksum_at bytes i)
      × ((i : ℕ)
          → s.session_size / s.block_size ≤ i
          → i < total_blocks s.session_size s.block_size
          → c'.previous_table i ≡ replicate 32 0)
unfolding load_previous_checksum checksum_at
load_previous_checksum_lem s bytes c v long small there =
    let n = counts s v small in
    let some_block = quotient-pos s.session_size s.block_size v.some_block long in
    let size = loaded_size s in
    let rest = replicate {A = ℕ} (table_size s - size) 0 in
    let read = read_part size bytes (omega (arith, n.loaded)) (omega (arith, n.loaded)) in
    (
      record c { previous_table = checksum_at (take size bytes ++ rest) },
      ap (with_previous s c) read,
      λ i h.
          take_within 32 (i * 32) size bytes rest (omega (arith, n.loaded))
            (omega (arith, n.loaded)),
      λ i h l.
          take_past 32 (i * 32) (table_size s - size) (take size bytes)
            (omega (arith, n.loaded, length-take size bytes))
            (omega (arith, n.loaded, n.tabled, length-take size bytes)),
    )

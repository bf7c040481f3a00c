-- ===== src/Pipeline/Reader/Blocks.antt =====
-- VolumeBlockReader: the ranges that the blocks of a session have.
use native.Mathlib.Nat.{div-add-mod, mod-lt}
use volume_backup.Prelude.{
  ℕ, ◌+◌, ◌-◌, ◌*◌, ◌/◌, ◌%◌, ◌^◌, ◌≤◌, ◌<◌, ◌≡◌, refl, ◌⊎◌, inl, inr, arith, ltb, if◌then◌else◌,
  dec_lt, Bool-cases,
}
use volume_backup.Session.{SharedConfig, total_blocks}
use volume_backup.Session.Blocks.{total_blocks_bounds}
use volume_backup.Pipeline.Reader.{read_length, read_offset, consume_block}

-- A session of at least one byte whose sums and products stay below 2^64.
pub record IsSession (s : SharedConfig) : Type 0 where
  pub some_bytes : 0 < s.session_size
  pub some_block : 0 < s.block_size
  pub small_block : s.block_size < 2 ^ 32
  pub room : s.session_offset + s.session_size + s.block_size < 2 ^ 64

pub starts_inside :
    (s : SharedConfig) (i : ℕ)
    → IsSession s
    → i < total_blocks s.session_size s.block_size
    → i * s.block_size < s.session_size
starts_inside s i v h =
    let b = total_blocks_bounds s.session_size s.block_size v.some_block in
    omega (arith, b.1, step i (total_blocks s.session_size s.block_size) s.block_size h)
  where
    step : (i n b : ℕ) → i < n → i * b + b ≤ n * b
    step i n b h = grind arith

pub read_length-eq :
    (s : SharedConfig) (i : ℕ)
    → IsSession s
    → i < total_blocks s.session_size s.block_size
    → read_length s i ≡ (
        if ltb (s.session_size - i * s.block_size) s.block_size
        then s.session_size - i * s.block_size
        else s.block_size)
unfolding read_length
read_length-eq s i v h =
    let inside = starts_inside s i v h in
    let exact : (s.session_size + 2 ^ 64 - i * s.block_size % 2 ^ 64) % 2 ^ 64
        ≡ s.session_size - i * s.block_size =
      omega (arith, inside, v.room) in
    rw exact refl

-- Where block `i` stands and how long it is.
pub record Range (s : SharedConfig) (i start length : ℕ) : Type 0 where
  pub at : start ≡ s.session_offset + i * s.block_size
  pub nonempty : 0 < length
  pub short : length ≤ s.block_size
  pub inside : i * s.block_size + length ≤ s.session_size
  pub whole : (length ≡ s.block_size) ⊎ (i * s.block_size + length ≡ s.session_size)

pub consume_block-Range :
    (s : SharedConfig) (p i : ℕ)
    → IsSession s
    → i < total_blocks s.session_size s.block_size
    → Range s i (consume_block s p i).volume_offset (consume_block s p i).length
unfolding consume_block
consume_block-Range s p i v h =
    let inside = starts_inside s i v h in
    elim (Bool-cases (ltb (s.session_size - i * s.block_size) s.block_size)) [
      | inl last ↦
          rw (read_length-eq s i v h, last)
            (record {
              at = omega (arith, inside, v.room);
              nonempty = omega (arith, inside);
              short = ground arith;
              inside = omega (arith, inside);
              whole = inr (omega (arith, inside));
            })
      | inr more ↦
          rw (read_length-eq s i v h, more)
            (record {
              at = omega (arith, inside, v.room);
              nonempty = v.some_block;
              short = omega arith;
              inside = ground (arith, inside);
              whole = inl refl;
            })
    ]

-- The blocks of a session, from 0 to the last index, cover it: each byte of the session stands in
-- the block with the number (x - offset) / blockSize, which exists; and what is read from the source
-- at the session's own offset is what is written at the block's offset in the volume.
pub blocks_cover :
    (s : SharedConfig) (p x : ℕ)
    → IsSession s
    → s.session_offset ≤ x
    → x < s.session_offset + s.session_size
    → let i = (x - s.session_offset) / s.block_size in
      (i < total_blocks s.session_size s.block_size)
      × ((consume_block s p i).volume_offset ≤ x)
      × (x < (consume_block s p i).volume_offset + (consume_block s p i).length)
      × (read_offset s s.session_offset i ≡ (consume_block s p i).volume_offset)
unfolding read_offset consume_block
blocks_cover s p x v lo hi =
    let d = x - s.session_offset in
    let i = d / s.block_size in
    let split = div-add-mod d s.block_size in
    let small = mod-lt d v.some_block in
    let bounds = total_blocks_bounds s.session_size s.block_size v.some_block in
    let low : i * s.block_size ≤ d = omega (arith, split) in
    let high : d < i * s.block_size + s.block_size = omega (arith, split, small) in
    let exists : i < total_blocks s.session_size s.block_size =
      quotient_lt i (total_blocks s.session_size s.block_size) s.block_size
        (omega (arith, low, bounds.0)) in
    let r = consume_block-Range s p i v exists in
    (
      exists,
      omega (arith, r.at, low),
      elim r.whole [ inl e ↦ omega (arith, r.at, high, e) | inr e ↦ omega (arith, r.at, e) ],
      omega arith,
    )
  where
    quotient_lt : (i n b : ℕ) → i * b < n * b → i < n
    quotient_lt i n b h = elim (dec_lt i n) [ yes l ↦ l | no l ↦ grind arith ]

-- ===== src/Pipeline/Hasher/Round.antt =====
-- VolumeBlockHasher: what a worker does with a block that it has popped.
use mathlib.Core.List.{List-discrete}
use native.Mathlib.Decide.{ℕ_discrete}
use volume_backup.Prelude.{
  ℕ, ◌+◌, ◌*◌, ◌^◌, ◌<◌, ◌≡◌, ◌≢◌, refl, sym, ◌∙◌, ◌⊎◌, inl, inr, arith, true, false, some, List,
  take, get_or, ◌==◌, if◌then◌else◌, Bool-cases,
}
use volume_backup.Allocator.Table.{get_or-set_self}
use volume_backup.Allocator.Ownership as Ownership
use volume_backup.Bitmap
use volume_backup.Bitmap.Laws as Laws
use volume_backup.Task.{add64}
use volume_backup.Pipeline.{ConsumeBlock, Context}
use volume_backup.Pipeline.Hasher.{
  ForwardMode, direct, diff, looping, pushing, Hasher, same_bytes, compared_slot, compute_hash,
  is_unchanged, drop_block, hash_block,
}
use volume_backup.Pipeline.Writer.Branches.{released, free_block-eq}

same_bytes-true : (xs ys : List ℕ) → same_bytes xs ys ≡ true → xs ≡ ys
unfolding same_bytes
same_bytes-true xs ys e = go (List-discrete ℕ_discrete xs ys) e
  where
    go : (d : Dec (xs ≡ ys)) → (elim d [ yes _ ↦ true | no _ ↦ false ]) ≡ true → xs ≡ ys
    go (yes p) e = p
    go (no p) e = cc

same_bytes-false : (xs ys : List ℕ) → same_bytes xs ys ≡ false → xs ≢ ys
unfolding same_bytes
same_bytes-false xs ys e = go (List-discrete ℕ_discrete xs ys) e
  where
    go : (d : Dec (xs ≡ ys)) → (elim d [ yes _ ↦ true | no _ ↦ false ]) ≡ false → xs ≢ ys
    go (yes p) e = cc
    go (no p) e = p

pub same_bytes_refl : (xs : List ℕ) → same_bytes xs xs ≡ true
same_bytes_refl xs = elim (Bool-cases (same_bytes xs xs)) [
  | inl e ↦ e
  | inr e ↦ absurd (same_bytes-false xs xs e refl)
]

compared_slot-eq : (index : ℕ) → index < 2 ^ 27 → compared_slot index ≡ index
unfolding compared_slot
compared_slot-eq index h = omega arith

-- The block stands in buffer `i` of the pool, has its bit, and its number is one whose place in the
-- checksum tables is reckoned without overflow.
pub record Ready (b : ConsumeBlock) (i : ℕ) (c : Context) : Type 0 where
  pub pool : Ownership.IsValid c.allocator
  pub slot : i < c.allocator.block_num
  pub at : b.ptr ≡ c.allocator.pool + c.allocator.block_size * i
  pub processed : Laws.IsValid c.processed
  pub has_processed : b.index < c.processed.capacity * 8
  pub small : b.index < 2 ^ 27

module _ (sha256 : List ℕ → List ℕ) where
  abbrev pub digest : ConsumeBlock → Context → List ℕ
  digest b c = sha256 (take b.length (c.memory b.ptr))

  -- The block is as in the previous copy, and dropped.
  pub record Dropped (h : Hasher) (b : ConsumeBlock) (i : ℕ) (c c' : Context) : Type 0 where
    pub ends : hash_block sha256 h b c ≡ some (looping, h, c')
    pub unchanged : (h.mode ≡ diff) × (c.previous_table b.index ≡ digest b c)
    pub bit :
        (j : ℕ)
        → Bitmap.test c'.processed j ≡ (if b.index == j then true else Bitmap.test c.processed j)
    pub buffer_free : get_or c'.allocator.alloc_table i true ≡ false
    pub no_write : c'.write_queue ≡ c.write_queue

  -- The block goes on to the writer.
  pub record Kept (h : Hasher) (b : ConsumeBlock) (c c' : Context) : Type 0 where
    pub ends : hash_block sha256 h b c ≡ some (pushing b, h, c')
    pub changed : h.mode ≡ diff → c.previous_table b.index ≢ digest b c
    pub digested : c'.lastest_table b.index ≡ digest b c
    pub bits : c'.processed ≡ c.processed
    pub buffer_held : c'.allocator ≡ c.allocator

  is_unchanged-diff :
      (b : ConsumeBlock) (i : ℕ) (c : Context)
      → Ready b i c
      → is_unchanged sha256 diff b (compute_hash sha256 b c)
        ≡ same_bytes (c.previous_table b.index) (digest b c)
  unfolding is_unchanged compute_hash
  is_unchanged-diff b i c r = rw (compared_slot-eq b.index r.small) (ground arith)

  drop-Dropped :
      (h : Hasher) (b : ConsumeBlock) (i : ℕ) (c : Context)
      → Ready b i c
      → h.mode ≡ diff
      → is_unchanged sha256 h.mode b (compute_hash sha256 b c) ≡ true
      → (c' : Context) × Dropped h b i c c'
  unfolding hash_block drop_block compute_hash
  drop-Dropped h b i c r m e =
      let d = compute_hash sha256 b c in
      let f = free_block-eq d i b.ptr r.pool r.slot r.at in
      let same : is_unchanged sha256 diff b d ≡ true = cc (e, m) in
      (
        record (released i d) { processed = Bitmap.set_bit c.processed b.index },
        record {
          ends = ground (arith, f);
          unchanged = (
            m,
            same_bytes-true (c.previous_table b.index) (digest b c)
                (sym (is_unchanged-diff b i c r) ∙ same),
          );
          bit = λ j. Laws.test-set_bit c.processed b.index j r.processed r.has_processed;
          buffer_free =
              get_or-set_self c.allocator.alloc_table i false true
                (omega (arith, r.pool.tabled, r.slot));
          no_write = refl;
        },
      )

  keep-Kept :
      (h : Hasher) (b : ConsumeBlock) (i : ℕ) (c : Context)
      → Ready b i c
      → is_unchanged sha256 h.mode b (compute_hash sha256 b c) ≡ false
      → (c' : Context) × Kept h b c c'
  unfolding hash_block compute_hash
  keep-Kept h b i c r e =
      let d = compute_hash sha256 b c in
      (
        record d {
          counter = record (d.counter) { bytes_to_write = add64 d.counter.bytes_to_write b.length };
        },
        record {
          ends = ground arith;
          changed = λ m.
              same_bytes-false (c.previous_table b.index) (digest b c)
                (sym (is_unchanged-diff b i c r) ∙ cc (e, m));
          digested = ground arith;
          bits = refl;
          buffer_held = refl;
        },
      )

  mode-diff :
      (m : ForwardMode) (b : ConsumeBlock) (c : Context)
      → is_unchanged sha256 m b c ≡ true
      → m ≡ diff
  unfolding is_unchanged
  mode-diff direct b c e = cc
  mode-diff diff b c e = refl

  -- Where the allocator and the processed bitmap are well formed, a round of a hasher worker on a
  -- block that stands in a buffer of the pool, has a bit of the bitmap, and has a number below 2^27,
  -- never crashes. It drops the block, giving back its buffer and setting its processed bit and no
  -- other, exactly if the worker compares and the block's digest is the one in the previous copy's
  -- table; else it enters the digest in the latest table and holds the block for the writer.
  pub hash_block_lem :
      (h : Hasher) (b : ConsumeBlock) (i : ℕ) (c : Context)
      → Ready b i c
      → ((c' : Context) × Dropped h b i c c') ⊎ ((c' : Context) × Kept h b c c')
  hash_block_lem h b i c r =
      elim (Bool-cases (is_unchanged sha256 h.mode b (compute_hash sha256 b c))) [
        | inl e ↦ inl (drop-Dropped h b i c r (mode-diff h.mode b (compute_hash sha256 b c) e) e)
        | inr e ↦ inr (keep-Kept h b i c r e)
      ]

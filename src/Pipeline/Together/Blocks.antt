-- ===== src/Pipeline/Together/Blocks.antt =====
-- A session without hashers: the lists of the blocks that are under way.
use volume_backup.Prelude.{
  ℕ, zero, suc, ◌+◌, ◌-◌, ◌≤◌, ◌<◌, ◌≡◌, ◌≢◌, refl, sym, ap, ◌∙◌, ◌⊎◌, inl, inr, ◌&&◌, List, [],
  ◌∷◌, ◌++◌, length, map, take, get_or, ltb, leb, if◌then◌else◌, arith,
}
use volume_backup.Allocator.Pool.{All}
use volume_backup.Session.{SharedConfig}
use volume_backup.Pipeline.{ConsumeBlock, stored}
use volume_backup.Pipeline.Reader.{ReaderPc, looping, fetching, pushing, stopped, consume_block}
use volume_backup.Pipeline.Reader.Blocks.{IsSession, consume_block-Range}
use volume_backup.Pipeline.Writer.{Target, write_bytes}
use volume_backup.Pipeline.Writer.Blocks.{write_bytes_lem}
use volume_backup.Pipeline.Together.Held.{
  newest_first, held, address, Sound, AllSound, Done, IsQueued, Outside,
}

pub newest-append :
    (bs : List ConsumeBlock) (b : ConsumeBlock)
    → newest_first (bs ++ (b ∷ [])) ≡ b ∷ newest_first bs
newest-append [] b = refl
newest-append (a ∷ bs) b = ap (λ l. l ++ (a ∷ [])) (newest-append bs b)

-- The oldest block stands last.
pub held-oldest :
    (pc : ReaderPc) (b : ConsumeBlock) (rest : List ConsumeBlock)
    → held pc (b ∷ rest) ≡ held pc rest ++ (b ∷ [])
held-oldest looping b rest = refl
held-oldest fetching b rest = refl
held-oldest stopped b rest = refl
held-oldest (pushing a) b rest = refl

pub addresses-oldest :
    (bs : List ConsumeBlock) (b : ConsumeBlock)
    → map address (bs ++ (b ∷ [])) ≡ map address bs ++ (b.ptr ∷ [])
addresses-oldest [] b = refl
addresses-oldest (a ∷ bs) b = ap (λ l. a.ptr ∷ l) (addresses-oldest bs b)

module _ (s : SharedConfig) (source : Target) where
  pub Sound-oldest :
      (memory : ℕ → List ℕ) (bs : List ConsumeBlock) (b : ConsumeBlock)
      → AllSound s source memory (bs ++ (b ∷ []))
      → AllSound s source memory bs × Sound s source memory b
  Sound-oldest memory [] b h = (tt, h.0)
  Sound-oldest memory (a ∷ bs) b h = let r = Sound-oldest memory bs b h.1 in ((h.0, r.0), r.1)

  stored-Sound :
      (memory : ℕ → List ℕ) (p : ℕ) (xs : List ℕ) (b : ConsumeBlock)
      → p ≢ b.ptr
      → Sound s source memory b
      → Sound s source (stored p xs memory) b
  stored-Sound memory p xs b ne h =
      let same : stored p xs memory b.ptr ≡ memory b.ptr = ground arith in
      record {
        block = h.block;
        exists = h.exists;
        filled = ap length same ∙ h.filled;
        content = λ k l. ap (λ ys. get_or ys k 0) same ∙ h.content k l;
      }

  -- A read into a buffer that holds no block.
  pub stored-AllSound :
      (memory : ℕ → List ℕ) (p : ℕ) (xs : List ℕ) (bs : List ConsumeBlock)
      → All (λ q. p ≢ q) (map address bs)
      → AllSound s source memory bs
      → AllSound s source (stored p xs memory) bs
  stored-AllSound memory p xs [] ne h = tt
  stored-AllSound memory p xs (b ∷ bs) ne h =
      (stored-Sound memory p xs b ne.0 h.0, stored-AllSound memory p xs bs ne.1 h.1)

pub IsQueued-append :
    (i : ℕ) (bs : List ConsumeBlock) (b : ConsumeBlock)
    → IsQueued i bs ⊎ (b.index ≡ i)
    → IsQueued i (bs ++ (b ∷ []))
IsQueued-append i [] b (inl h) = absurd h
IsQueued-append i [] b (inr e) = inl e
IsQueued-append i (a ∷ bs) b (inl (inl e)) = inl e
IsQueued-append i (a ∷ bs) b (inl (inr h)) = inr (IsQueued-append i bs b (inl h))
IsQueued-append i (a ∷ bs) b (inr e) = inr (IsQueued-append i bs b (inr e))

take_all : (xs : List ℕ) (n : ℕ) → length xs ≡ n → take n xs ≡ xs
take_all [] zero e = refl
take_all [] (suc n) e = absurd (omega (arith, e))
take_all (x ∷ xs) zero e = absurd (omega (arith, e))
take_all (x ∷ xs) (suc n) e = ap (λ l. x ∷ l) (take_all xs n (omega (arith, e)))

-- After a sound block is written, a byte is that of the source, or as it was; in the block's range it
-- is that of the source.
pub written-source :
    (s : SharedConfig) (source target : Target) (memory : ℕ → List ℕ) (b : ConsumeBlock)
    → Sound s source memory b
    → (x : ℕ)
    → write_bytes target b.volume_offset (take b.length (memory b.ptr)) x
      ≡ (if leb b.volume_offset x && ltb x (b.volume_offset + b.length) then source x else target x)
written-source s source target memory b h x =
    ap (λ l. write_bytes target b.volume_offset l x) (take_all (memory b.ptr) b.length h.filled)
    ∙ write_bytes_lem target b.volume_offset (memory b.ptr) x
    ∙ ground (arith, h.filled, inside)
  where
    inside :
        b.volume_offset ≤ x
        → x < b.volume_offset + b.length
        → get_or (memory b.ptr) (x - b.volume_offset) 0 ≡ source x
    inside lo hi = h.content (x - b.volume_offset) (omega arith) ∙ ap source (omega arith)

-- A block's place does not depend on its buffer.
placed :
    (s : SharedConfig) (b : ConsumeBlock) (i : ℕ)
    → b ≡ consume_block s b.ptr b.index
    → b.index ≡ i
    → ((consume_block s 0 i).volume_offset ≡ b.volume_offset)
      × ((consume_block s 0 i).length ≡ b.length)
unfolding consume_block
placed s b i h e = (
  sym (ap (λ c. c.volume_offset) h ∙ ap (λ j. (consume_block s b.ptr j).volume_offset) e),
  sym (ap (λ c. c.length) h ∙ ap (λ j. (consume_block s b.ptr j).length) e),
)

pub Done-written :
    (s : SharedConfig) (source target : Target) (memory : ℕ → List ℕ) (b : ConsumeBlock) (i : ℕ)
    → Sound s source memory b
    → Done s source target i ⊎ (b.index ≡ i)
    → Done s source (write_bytes target b.volume_offset (take b.length (memory b.ptr))) i
Done-written s source target memory b i h (inl d) x lo hi =
    ground (arith, written-source s source target memory b h x, d x lo hi)
Done-written s source target memory b i h (inr e) x lo hi =
    let (place, size) = placed s b i h.block e in
    ground (arith, written-source s source target memory b h x, lo, hi)

-- A sound block stands inside the session, so that its write changes nothing outside.
pub Outside-written :
    (s : SharedConfig) (source target : Target) (memory : ℕ → List ℕ) (b : ConsumeBlock) (x : ℕ)
    → IsSession s
    → Sound s source memory b
    → Outside s x
    → write_bytes target b.volume_offset (take b.length (memory b.ptr)) x ≡ target x
Outside-written s source target memory b x v h out =
    let (place, size) = placed s b b.index h.block refl in
    let range = consume_block-Range s 0 b.index v h.exists in
    ground (arith, written-source s source target memory b h x, place, size, range.at, range.inside)

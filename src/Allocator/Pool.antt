-- ===== src/Allocator/Pool.antt =====
-- The blocks that are out at any time: VolumeBlockAllocator under any use by clients that give back
-- only what they hold.
use volume_backup.Prelude.{
  ℕ, ◌+◌, ◌*◌, ◌≤◌, ◌<◌, ◌^◌, ◌≡◌, refl, ◌⊎◌, inl, inr, Bool, true, false, List, [], ◌∷◌, ◌++◌,
  Option, some, arith, length, set, get_or, ◌≢◌, sym, ap, ap₂, ◌∙◌, subst, dec_lt, length-replicate,
}
use volume_backup.Allocator.Table.{
  used, used-le-length, used-set, used-clear, used-replicate, get_or_default, get_or-set_self,
  get_or-set_ne,
}
use volume_backup.Allocator.{Allocator, make, block_alloc, freed, block_free}
use volume_backup.Allocator.Ownership.{
  IsValid, Gives, block, exhausted, block_alloc-Gives, block_free_at, set-IsValid, mul_room,
}

-- `live` holds the addresses that were handed out and not given back.
pub record Pool : Type 0 where
  pub allocator : Allocator
  pub live : List ℕ

pub data Step : Pool → Pool → Type 0 where
  takes :
      {a b : Allocator} {l : List ℕ} (p : ℕ)
      → block_alloc a ≡ (some p, b)
      → Step (record { allocator = a; live = l }) (record { allocator = b; live = p ∷ l })
  gives :
      {a b : Allocator} {l : List ℕ} (p : ℕ) (xs ys : List ℕ)
      → l ≡ xs ++ (p ∷ ys)
      → block_free a p ≡ freed b
      → Step (record { allocator = a; live = l }) (record { allocator = b; live = xs ++ ys })

pub data Reach (s : Pool) : Pool → Type 0 where
  here : Reach s s
  next : {t u : Pool} → Reach s t → Step t u → Reach s u

abbrev pub All {ℓ} : (ℕ → Type ℓ) → List ℕ → Type ℓ
All P [] = Unit
All P (x ∷ xs) = P x × All P xs

abbrev pub Pairwise {ℓ} : (ℕ → ℕ → Type ℓ) → List ℕ → Type ℓ
Pairwise R [] = Unit
Pairwise R (x ∷ xs) = All (R x) xs × Pairwise R xs

pub mul_left_cancel : (b i j : ℕ) → 0 < b → b * i ≡ b * j → i ≡ j
mul_left_cancel b i j h e = grind arith

All-map {ℓ} : {P Q : ℕ → Type ℓ} (f : (x : ℕ) → P x → Q x) (xs : List ℕ) → All P xs → All Q xs
All-map f [] h = tt
All-map f (x ∷ xs) h = (f x h.0, All-map f xs h.1)

All-both {ℓ} :
    {P Q R : ℕ → Type ℓ} (f : (x : ℕ) → P x → Q x → R x) (xs : List ℕ)
    → All P xs
    → All Q xs
    → All R xs
All-both f [] h k = tt
All-both f (x ∷ xs) h k = (f x h.0 k.0, All-both f xs h.1 k.1)

All-remove {ℓ} :
    (P : ℕ → Type ℓ) (xs : List ℕ) (p : ℕ) (ys : List ℕ)
    → All P (xs ++ (p ∷ ys))
    → P p × All P (xs ++ ys)
All-remove P [] p ys h = h
All-remove P (x ∷ xs) p ys h = let r = All-remove P xs p ys h.1 in (r.0, (h.0, r.1))

abbrev pub Distinct : List ℕ → Type 0
Distinct = Pairwise (λ p q. p ≢ q)

-- The block taken out differs from every other, and those stay distinct.
Distinct-remove :
    (xs : List ℕ) (p : ℕ) (ys : List ℕ)
    → Distinct (xs ++ (p ∷ ys))
    → All (λ q. p ≢ q) (xs ++ ys) × Distinct (xs ++ ys)
Distinct-remove [] p ys h = h
Distinct-remove (x ∷ xs) p ys h =
    let r = Distinct-remove xs p ys h.1 in
    let s = All-remove (λ q. x ≢ q) xs p ys h.0 in (((λ e. s.0 (sym e)), r.0), (s.1, r.1))

length-remove :
    (xs : List ℕ) (p : ℕ) (ys : List ℕ) → length (xs ++ (p ∷ ys)) ≡ length (xs ++ ys) + 1
length-remove [] p ys = omega arith
length-remove (x ∷ xs) p ys = omega (arith, length-remove xs p ys)

-- `p` is the address of a block that is marked as used.
abbrev pub IsBlock : Allocator → ℕ → Type 0
IsBlock a p =
    (i : ℕ) × (i < a.block_num)
    × (p ≡ a.pool + a.block_size * i)
    × (get_or a.alloc_table i false ≡ true)

pub record Inv (base : Allocator) (s : Pool) : Type 0 where
  pub start : s.allocator.pool ≡ base.pool
  pub size : s.allocator.block_size ≡ base.block_size
  pub num : s.allocator.block_num ≡ base.block_num
  pub valid : IsValid s.allocator
  pub marked : All (IsBlock s.allocator) s.live
  pub distinct : Distinct s.live
  pub counted : used s.allocator.alloc_table ≡ length s.live

-- A block keeps its mark when another entry is written.
keep_mark :
    (a : Allocator) (i : ℕ) (v : Bool) (q : ℕ)
    → (a.pool + a.block_size * i) ≢ q
    → IsBlock a q
    → IsBlock (record a { alloc_table = set a.alloc_table i v }) q
keep_mark a i v q ne (j, h, e, m) = (
  j,
  h,
  e,
  get_or-set_ne a.alloc_table i j v false (λ s. ne (ap (λ k. a.pool + a.block_size * k) s ∙ sym e))
      ∙ m,
)

-- A free block is none of those that are marked.
free_ne_marked :
    (a : Allocator) (i q : ℕ)
    → IsValid a
    → i < a.block_num
    → get_or a.alloc_table i true ≡ false
    → IsBlock a q
    → (a.pool + a.block_size * i) ≢ q
free_ne_marked a i q v h free (j, k, e, m) same = clash same_index
  where
    same_index : i ≡ j
    same_index = mul_left_cancel a.block_size i j v.positive (omega (arith, same, e))

    clash : i ≡ j → ⊥
    clash s = cc (free, m, s, get_or_default a.alloc_table i true false (omega (arith, v.tabled)))

takes-Inv :
    {base a : Allocator} {p : ℕ} {l : List ℕ} {r : Option ℕ × Allocator}
    → Inv base (record { allocator = a; live = l })
    → Gives a r
    → r.0 ≡ some p
    → Inv base (record { allocator = r.1; live = p ∷ l })
takes-Inv v (exhausted all) e = cc
takes-Inv {base} {a} {p} {l} v (block {i} h free) e =
    let q : a.pool + a.block_size * i ≡ p = ground arith in
    let in_table : i < length a.alloc_table = omega (arith, v.valid.tabled) in
    let others : All (λ x. (a.pool + a.block_size * i) ≢ x) l =
      All-map (λ x m. free_ne_marked a i x v.valid h free m) l v.marked in
    rw (← q) (record {
      start = v.start;
      size = v.size;
      num = v.num;
      valid = set-IsValid i true v.valid;
      marked = (
        (i, h, refl, get_or-set_self a.alloc_table i true false in_table),
        All-both (λ x ne m. keep_mark a i true x ne m) l others v.marked,
      );
      distinct = (others, v.distinct);
      counted = omega (arith, used-set a.alloc_table i in_table free, v.counted);
    })

-- Giving back block `i` of the pool.
clear-Inv :
    {base a : Allocator} (i : ℕ) (p : ℕ) (xs ys : List ℕ)
    → i < a.block_num
    → p ≡ a.pool + a.block_size * i
    → get_or a.alloc_table i false ≡ true
    → Inv base (record { allocator = a; live = xs ++ (p ∷ ys) })
    → Inv base (record {
      allocator = record a { alloc_table = set a.alloc_table i false };
      live = xs ++ ys;
    })
clear-Inv {a} i p xs ys h e m v =
    let held = All-remove (IsBlock a) xs p ys v.marked in
    let apart = Distinct-remove xs p ys v.distinct in
    let in_table : i < length a.alloc_table = omega (arith, v.valid.tabled) in
    record {
      start = v.start;
      size = v.size;
      num = v.num;
      valid = set-IsValid i false v.valid;
      marked = All-both (λ x ne k. keep_mark a i false x (rw (← e) ne) k) (xs ++ ys) apart.0 held.1;
      distinct = apart.1;
      counted =
          omega (arith, used-clear a.alloc_table i in_table m, length-remove xs p ys, v.counted);
    }

gives-Inv :
    {base a b : Allocator} {l : List ℕ} (p : ℕ) (xs ys : List ℕ)
    → l ≡ xs ++ (p ∷ ys)
    → block_free a p ≡ freed b
    → Inv base (record { allocator = a; live = l })
    → Inv base (record { allocator = b; live = xs ++ ys })
gives-Inv {base} {a} {b} {l} p xs ys e f v =
    let w : Inv base (record { allocator = a; live = xs ++ (p ∷ ys) }) =
      subst (λ k. Inv base (record { allocator = a; live = k })) e v in
    let (i, h, at, m) = (All-remove (IsBlock a) xs p ys w.marked).0 in
    let cleared : record a { alloc_table = set a.alloc_table i false } ≡ b =
      cc (f, at, block_free_at i w.valid h) in
    subst (λ c. Inv base (record { allocator = c; live = xs ++ ys })) cleared
      (clear-Inv i p xs ys h at m w)

pub Step-Inv : {base : Allocator} {s t : Pool} → Step s t → Inv base s → Inv base t
Step-Inv {base} (takes {a} {b} {l} p e) v =
    subst (λ r. Inv base (record { allocator = r.1; live = p ∷ l })) e
      (takes-Inv v (block_alloc-Gives v.valid) (ap (λ r. r.0) e))
Step-Inv (gives p xs ys e f) v = gives-Inv p xs ys e f v

Reach-Inv : {base : Allocator} {s t : Pool} → Inv base s → Reach s t → Inv base t
Reach-Inv v here = v
Reach-Inv v (next r st) = Step-Inv st (Reach-Inv v r)

abbrev pub fresh : ℕ → ℕ → ℕ → Pool
fresh pool block_size block_num = record { allocator = make pool block_size block_num; live = [] }

pub fresh-Inv :
    (pool block_size block_num : ℕ)
    → 0 < block_size
    → block_num < 2 ^ 31
    → block_size * block_num < 2 ^ 32
    → pool + block_size * block_num ≤ 2 ^ 64
    → Inv (make pool block_size block_num) (fresh pool block_size block_num)
unfolding make
fresh-Inv pool block_size block_num h k m n = record {
  start = refl;
  size = refl;
  num = refl;
  valid = record {
    positive = h;
    few = k;
    sized = omega arith;
    small = m;
    placed = n;
    tabled = length-replicate block_num false;
  };
  marked = tt;
  distinct = tt;
  counted = used-replicate block_num;
}

-- Two blocks of the pool at different addresses do not overlap.
block_apart :
    (a : Allocator) (p q : ℕ)
    → p ≢ q
    → IsBlock a p
    → IsBlock a q
    → (p + a.block_size ≤ q) ⊎ (q + a.block_size ≤ p)
block_apart a p q ne (i, hi, ei, mi) (j, hj, ej, mj) = elim (dec_lt i j) [
  | yes lt ↦ inl (omega (arith, mul_room a.block_size i j lt))
  | no ge ↦ elim (dec_lt j i) [
    | yes gt ↦ inr (omega (arith, mul_room a.block_size j i gt))
    | no le ↦ absurd (ne (ei ∙ ap (λ k. a.pool + a.block_size * k) (omega arith) ∙ sym ej))
  ]
]

blocks_apart :
    (a : Allocator) (l : List ℕ)
    → Distinct l
    → All (IsBlock a) l
    → Pairwise (λ p q. (p + a.block_size ≤ q) ⊎ (q + a.block_size ≤ p)) l
blocks_apart a [] d m = tt
blocks_apart a (p ∷ l) d m =
    (All-both (λ q ne k. block_apart a p q ne m.0 k) l d.0 m.1, blocks_apart a l d.1 m.1)

-- However clients take blocks from a fresh pool and give back blocks that they hold, and in whatever
-- order, as long as the pool fits 32 bits and the address space, and has fewer than 2^31 blocks:
-- the blocks that are out lie inside the pool, no two of them overlap, there are at most `blockNum`
-- of them, and each of them can be given back without an error.
pub live_blocks :
    (pool block_size block_num : ℕ) (s : Pool)
    → 0 < block_size
    → block_num < 2 ^ 31
    → block_size * block_num < 2 ^ 32
    → pool + block_size * block_num ≤ 2 ^ 64
    → Reach (fresh pool block_size block_num) s
    → All (λ p. (pool ≤ p) × (p + block_size ≤ pool + block_size * block_num)) s.live
      × Pairwise (λ p q. (p + block_size ≤ q) ⊎ (q + block_size ≤ p)) s.live
      × (length s.live ≤ block_num)
      × All (λ p. (a : Allocator) × (block_free s.allocator p ≡ freed a)) s.live
unfolding make
live_blocks pool block_size block_num s h k m n r = (
  All-map inside s.live v.marked,
  subst (λ b. Pairwise (λ p q. (p + b ≤ q) ⊎ (q + b ≤ p)) s.live) same_size
      (blocks_apart s.allocator s.live v.distinct v.marked),
  omega (arith, v.counted, same_num, used-le-length s.allocator.alloc_table, v.valid.tabled),
  All-map returnable s.live v.marked,
)
  where
    v : Inv (make pool block_size block_num) s
    v = Reach-Inv (fresh-Inv pool block_size block_num h k m n) r

    same_start : s.allocator.pool ≡ pool
    same_start = v.start

    same_size : s.allocator.block_size ≡ block_size
    same_size = v.size

    same_num : s.allocator.block_num ≡ block_num
    same_num = v.num

    inside :
        (p : ℕ)
        → IsBlock s.allocator p
        → (pool ≤ p) × (p + block_size ≤ pool + block_size * block_num)
    inside p (i, lt, e, _) =
        let e' : p ≡ pool + block_size * i = e ∙ ap₂ (λ x y. x + y * i) same_start same_size in
        (omega arith, omega (arith, mul_room block_size i block_num (rw (← same_num) lt)))

    returnable :
        (p : ℕ) → IsBlock s.allocator p → (a : Allocator) × (block_free s.allocator p ≡ freed a)
    returnable p (i, lt, e, _) = (
      record (s.allocator) { alloc_table = set s.allocator.alloc_table i false },
      rw e (block_free_at i v.valid lt),
    )

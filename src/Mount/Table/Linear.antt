-- ===== src/Mount/Table/Linear.antt =====
-- src/native/linux: how the kernel reads a device with a table of linear targets, and that the
-- targets made of the slices of a copy put each slice at its place in the volume.
use native.Mathlib.Nat.{add-mul, le-div_iff_mul-le, div-lt_iff_lt-mul, div-add-mod', mul-div_left}
use volume_backup.Prelude.{
  ℕ, zero, suc, ◌+◌, ◌-◌, ◌*◌, ◌/◌, ◌%◌, ◌≤◌, ◌<◌, ◌≡◌, ◌∙◌, sym, ap, ◌&&◌, Option, none, some,
  List, [], ◌∷◌, map, arith, ltb, leb, if◌then◌else◌, get_elem?,
}
use volume_backup.Text.{Text}
use volume_backup.Mount.Table.{DmTarget}
use volume_backup.Mount.Kernel.{CopySliceTarget}
use volume_backup.Mount.Binary.{linear_target}

-- The device and the sector there that a sector is read from.
abbrev pub sector_at : List DmTarget → ℕ → Option (Text × ℕ)
sector_at [] n = none
sector_at (t ∷ ts) n =
    if leb t.start_sector n && ltb n (t.start_sector + t.sectors_count)
    then some (t.block_device_path, t.physical_sector + (n - t.start_sector))
    else sector_at ts n

-- The same for a byte of the device, where a table counts in sectors of the given size. (The kernel's
-- own size is `dm_sector_size` of Mount/Binary/Reads.)
abbrev pub byte_at : ℕ → List DmTarget → ℕ → Option (Text × ℕ)
byte_at sector_size ts x = elim (sector_at ts (x / sector_size)) [
  | none ↦ none
  | some (path, n) ↦ some (path, n * sector_size + x % sector_size)
]

abbrev pub linear_targets : ℕ → List CopySliceTarget → List DmTarget
linear_targets sector_size slices = map (λ slice. linear_target slice sector_size) slices

-- Slices that follow each other without a gap, in whole sectors.
abbrev pub Tiled : ℕ → ℕ → List CopySliceTarget → Type 0
Tiled sector_size n [] = Unit {0}
Tiled sector_size n (c ∷ cs) =
    (m : ℕ) × (c.volume_offset ≡ n * sector_size)
    × (c.size ≡ m * sector_size)
    × Tiled sector_size (n + m) cs

-- The slice is one of those that begin at a sector or later.
Tiled-le :
    (sector_size n : ℕ) (slices : List CopySliceTarget) (i : ℕ) {c : CopySliceTarget}
    → Tiled sector_size n slices
    → get_elem? slices i ≡ some c
    → (k : ℕ) × (m : ℕ) × (n ≤ k) × (c.volume_offset ≡ k * sector_size) × (c.size ≡ m * sector_size)
Tiled-le sector_size n [] i tiled at = cc
Tiled-le sector_size n (d ∷ ds) zero {c = c} (m, o, z, r) at =
    let e : d ≡ c = cc in
    (
      n,
      m,
      omega arith,
      ap CopySliceTarget.volume_offset (sym e) ∙ o,
      ap CopySliceTarget.size (sym e) ∙ z,
    )
Tiled-le sector_size n (d ∷ ds) (suc i) (m, o, z, r) at =
    let (k, l, le, ok, zk) = Tiled-le sector_size (n + m) ds i r at in (k, l, omega arith, ok, zk)

-- A number of whole sectors and the byte in the sector.
sector_of :
    (sector_size k m x : ℕ)
    → 0 < sector_size
    → k * sector_size ≤ x
    → x < k * sector_size + m * sector_size
    → (k ≤ x / sector_size)
      × (x / sector_size < k + m)
      × ((x / sector_size - k) * sector_size + x % sector_size ≡ x - k * sector_size)
sector_of sector_size k m x pos low high =
    let q = x / sector_size in
    let above : k ≤ q = (le-div_iff_mul-le pos).1 low in
    let whole : q * sector_size + x % sector_size ≡ x = div-add-mod' x sector_size in
    let shares : (q - k) * sector_size + k * sector_size ≡ q * sector_size =
      sym (add-mul (q - k) k sector_size) ∙ ap (λ y. y * sector_size) (omega arith) in
    (above, (div-lt_iff_lt-mul pos).1 (grind arith), omega arith)

-- A slice is found at its sectors, whatever stands before it.
sector_at-slice :
    (sector_size n : ℕ) (slices : List CopySliceTarget) (i k m q : ℕ) {c : CopySliceTarget}
    → 0 < sector_size
    → Tiled sector_size n slices
    → get_elem? slices i ≡ some c
    → c.volume_offset ≡ k * sector_size
    → c.size ≡ m * sector_size
    → k ≤ q
    → q < k + m
    → sector_at (linear_targets sector_size slices) q ≡ some (c.loop_device_path, q - k)
unfolding linear_target
sector_at-slice sector_size n [] i k m q pos tiled at ok zk low high = cc
sector_at-slice sector_size n (d ∷ ds) zero k m q {c = c} pos (l, o, z, r) at ok zk low high =
    let e : d ≡ c = cc in rw (e, ok, zk, mul-div_left k pos, mul-div_left m pos) (ground arith)
sector_at-slice sector_size n (d ∷ ds) (suc i) k m q {c = c} pos (l, o, z, r) at ok zk low high =
    let (k', l', le, ok', _) = Tiled-le sector_size (n + l) ds i r at in
    let same_start : k ≡ k' =
      sym (mul-div_left k pos) ∙ ap (λ y. y / sector_size) (sym ok ∙ ok') ∙ mul-div_left k' pos in
    let rest = sector_at-slice sector_size (n + l) ds i k m q pos r at ok zk low high in
    rw (o, z, mul-div_left n pos, mul-div_left l pos) (ground (arith, rest))

-- A byte of the volume inside a slice is read from the loop device of the slice, at its place there.
pub byte_at-slice :
    (sector_size : ℕ) (slices : List CopySliceTarget) (i x : ℕ) {c : CopySliceTarget}
    → 0 < sector_size
    → Tiled sector_size 0 slices
    → get_elem? slices i ≡ some c
    → c.volume_offset ≤ x
    → x < c.volume_offset + c.size
    → byte_at sector_size (linear_targets sector_size slices) x
      ≡ some (c.loop_device_path, x - c.volume_offset)
byte_at-slice sector_size slices i x {c = c} pos tiled at low high =
    let (k, m, _, ok, zk) = Tiled-le sector_size 0 slices i tiled at in
    let (above, below, place) =
      sector_of sector_size k m x pos (omega (arith, ok)) (omega (arith, ok, zk)) in
    rw
      (
        sector_at-slice sector_size 0 slices i k m (x / sector_size) pos tiled at ok zk above below,
        byte_at,
      )
      (ap (λ y. some (c.loop_device_path, y)) (place ∙ ap (λ y. x - y) (sym ok)))

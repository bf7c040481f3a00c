-- ===== src/Raw/Offsets.antt =====
-- RawIO: what is written at a volume offset is read there.
use volume_backup.Prelude.{
  ℕ, zero, suc, ◌+◌, ◌-◌, ◌^◌, ◌≤◌, ◌<◌, ◌≡◌, refl, sym, ap, ap₂, ◌∙◌, arith, true, false, not,
  ◌||◌, some, List, [], ◌∷◌, length, take, ◌==◌, if◌then◌else◌,
}
use volume_backup.Session.{CopyFormat, bin, image}
use volume_backup.Pipeline.Writer.{Target, write_bytes}
use volume_backup.Raw.{RawHandle, open_copy, file_offset, read_bytes, moved, read, write}

read_bytes-cong :
    (f g : Target) (offset n : ℕ)
    → ((k : ℕ) → offset ≤ k → f k ≡ g k)
    → read_bytes f offset n ≡ read_bytes g offset n
unfolding read_bytes
read_bytes-cong f g offset zero h = refl
read_bytes-cong f g offset (suc n) h =
    ap₂ (λ x xs. x ∷ xs) (h offset (omega arith))
      (read_bytes-cong f g (offset + 1) n (λ k l. h k (omega arith)))

read-write_bytes :
    (t : Target) (offset : ℕ) (bs : List ℕ)
    → read_bytes (write_bytes t offset bs) offset (length bs) ≡ bs
unfolding read_bytes write_bytes
read-write_bytes t offset [] = refl
read-write_bytes t offset (b ∷ bs) =
    let there : (if offset == offset then b else write_bytes t (offset + 1) bs offset) ≡ b =
      ground arith in
    ap₂ (λ x xs. x ∷ xs) there
      (read_bytes-cong _ (write_bytes t (offset + 1) bs) (offset + 1) (length bs)
          (λ k h. ground arith)
        ∙ read-write_bytes t (offset + 1) bs)

take_all : (xs : List ℕ) → take (length xs) xs ≡ xs
take_all [] = refl
take_all (x ∷ xs) = ap (λ ys. x ∷ ys) (take_all xs)

-- The handle of a copy, for a session of it.
abbrev Opens : CopyFormat → ℕ → RawHandle → Type 0
Opens format volume_offset h = open_copy format volume_offset ≡ some h

bin_offset :
    (volume_offset : ℕ) (h : RawHandle) (offset : ℕ)
    → open_copy bin volume_offset ≡ some h
    → volume_offset ≤ offset
    → offset < 2 ^ 64
    → file_offset h offset ≡ offset - volume_offset
unfolding open_copy file_offset
bin_offset volume_offset h offset o from small = ground arith

image_offset :
    (volume_offset : ℕ) (h : RawHandle) (offset : ℕ)
    → open_copy image volume_offset ≡ some h
    → file_offset h offset ≡ offset
unfolding open_copy file_offset
image_offset volume_offset h offset o = ground arith

-- A write that moves all its bytes, through the handle of a session of a copy in the binary or the
-- image format, succeeds; a read at the same volume offset through a handle that is opened in the
-- same way returns these bytes; and in the binary format they stand in the file at the offset
-- within the session, for offsets from the start of the session on.
pub copy_read-write :
    (format : CopyFormat) (volume_offset : ℕ) (h : RawHandle) (file : Target) (offset : ℕ)
    (buffer : List ℕ)
    → Opens format volume_offset h
    → 0 < length buffer
    → volume_offset ≤ offset
    → offset < 2 ^ 64
    → let written = write h (moved (length buffer)) file offset buffer in
      (written.0 ≡ true)
      × (read h (moved (length buffer)) written.1 offset (length buffer) ≡ some buffer)
      × (format ≡ bin → file_offset h offset ≡ offset - volume_offset)
      × (format ≡ image → file_offset h offset ≡ offset)
unfolding read write
copy_read-write format volume_offset h file offset buffer o pos from small =
    let whole : (length buffer == 0 || not (length buffer == length buffer)) ≡ false =
      ground arith in
    (
      rw whole refl,
      rw (whole, take_all buffer, read-write_bytes file (file_offset h offset) buffer) refl,
      λ e.
          bin_offset volume_offset h offset (ap (λ f. open_copy f volume_offset) (sym e) ∙ o) from
            small,
      λ e. image_offset volume_offset h offset (ap (λ f. open_copy f volume_offset) (sym e) ∙ o),
    )

-- ===== src/Exec/SaeRing/Slot.antt =====
-- One slot: what is put is what is read, at its own height only.
use avalanche_s3_archival_no.Prelude.{
  ℕ, zero, suc, ◌+◌, ◌-◌, ◌^◌, ◌≤◌, ◌<◌, ◌≡◌, refl, sym, ap, ◌∙◌, arith, ◌==◌, if◌then◌else◌,
}
use avalanche_s3_archival_no.Prelude.{
  List, [], ◌∷◌, ◌++◌, none, some, length, length-append, length-replicate, take, drop, replicate,
  ◌⊎◌,
}
use avalanche_s3_archival_no.Prelude.Bytes.{
  Bytes, be, be_value, length-be, be_value-be, take-append, drop-append,
}
use avalanche_s3_archival_no.Exec.SaeRing.{
  read_bytes, byte_at, write_bytes, slot_body, slot_image, read_slot, max_clock, slot_size,
}

-- What the ring is given: a 32-byte root and a clock that fits.
pub record IsEntry (height : ℕ) (root clock : Bytes) : Type 0 where
  pub height_fits : height < 2 ^ 64
  pub root_size : length root ≡ 32
  pub clock_fits : length clock ≤ max_clock

drop-past {ℓ} :
    {A : Type ℓ} (xs ys : List A) (k n : ℕ) → k ≡ length xs + n → drop k (xs ++ ys) ≡ drop n ys
drop-past [] ys k n e = ap (λ (i : ℕ). drop i ys) (omega arith)
drop-past (x ∷ xs) ys zero n e = absurd (omega arith)
drop-past (x ∷ xs) ys (suc k) n e = drop-past xs ys k n (omega arith)

module _ (crc : Bytes → ℕ) (crc_fits : (x : Bytes) → crc x < 2 ^ 32) where
  module _ (height : ℕ) (root clock : Bytes) (v : IsEntry height root clock) where
    abbrev body : Bytes
    body = slot_body crc height root clock

    abbrev from_clock : Bytes
    from_clock = clock ++ replicate (max_clock - length clock) 0

    abbrev from_len : Bytes
    from_len = be 2 (length clock) ++ from_clock

    abbrev from_root : Bytes
    from_root = root ++ from_len

    abbrev image : Bytes
    image = be 4 (crc body) ++ (be 8 height ++ from_root)

    length-from_root : length from_root ≡ 148
    length-from_root = omega (
      arith,
      v.root_size,
      v.clock_fits,
      length-append root from_len,
      length-append (be 2 (length clock)) from_clock,
      length-be 2 (length clock),
      length-append clock (replicate (max_clock - length clock) 0),
      length-replicate {A = ℕ} (max_clock - length clock) 0,
    )

    length-image : length image ≡ slot_size
    length-image = omega (
      arith,
      length-from_root,
      length-append (be 4 (crc body)) (be 8 height ++ from_root),
      length-append (be 8 height) from_root,
      length-be 4 (crc body),
      length-be 8 height,
    )

    slot_image-lem : slot_image crc height root clock ≡ image
    unfolding slot_image slot_body
    slot_image-lem = refl

    pub length-slot_image : length (slot_image crc height root clock) ≡ slot_size
    length-slot_image = ap (λ (x : Bytes). length x) slot_image-lem ∙ length-image

    drop-height : drop 4 image ≡ be 8 height ++ from_root
    drop-height =
        drop-append (be 4 (crc body)) (be 8 height ++ from_root) 4 (length-be 4 (crc body))

    drop-root : drop 12 image ≡ from_root
    drop-root =
        drop-past (be 4 (crc body)) (be 8 height ++ from_root) 12 8
          (omega (arith, length-be 4 (crc body)))
        ∙ drop-append (be 8 height) from_root 8 (length-be 8 height)

    drop-len : drop 44 image ≡ from_len
    drop-len =
        drop-past (be 4 (crc body)) (be 8 height ++ from_root) 44 40
          (omega (arith, length-be 4 (crc body)))
        ∙ drop-past (be 8 height) from_root 40 32 (omega (arith, length-be 8 height))
        ∙ drop-append root from_len 32 v.root_size

    drop-clock : drop 46 image ≡ from_clock
    drop-clock =
        drop-past (be 4 (crc body)) (be 8 height ++ from_root) 46 42
          (omega (arith, length-be 4 (crc body)))
        ∙ drop-past (be 8 height) from_root 42 34 (omega (arith, length-be 8 height))
        ∙ drop-past root from_len 34 2 (omega (arith, v.root_size))
        ∙ drop-append (be 2 (length clock)) from_clock 2 (length-be 2 (length clock))

    image-crc : be_value 0 (take 4 image) ≡ crc (drop 4 image)
    unfolding slot_body
    image-crc =
        let fits = crc_fits body in
        ap (be_value 0)
          (take-append (be 4 (crc body)) (be 8 height ++ from_root) 4 (length-be 4 (crc body)))
        ∙ be_value-be 4 (crc body) (omega arith) (omega arith)
        ∙ sym (ap crc drop-height)

    image-height : be_value 0 (take 8 (drop 4 image)) ≡ height
    image-height =
        ap (λ (x : Bytes). be_value 0 (take 8 x)) drop-height
        ∙ ap (be_value 0) (take-append (be 8 height) from_root 8 (length-be 8 height))
        ∙ be_value-be 8 height (omega (arith, v.height_fits)) v.height_fits

    image-len : be_value 0 (take 2 (drop 44 image)) ≡ length clock
    image-len =
        ap (λ (x : Bytes). be_value 0 (take 2 x)) drop-len
        ∙ ap (be_value 0)
            (take-append (be 2 (length clock)) from_clock 2 (length-be 2 (length clock)))
        ∙ be_value-be 2 (length clock) (omega (arith, v.clock_fits)) (omega (arith, v.clock_fits))

    image-root : take 32 (drop 12 image) ≡ root
    image-root = ap (take 32) drop-root ∙ take-append root from_len 32 v.root_size

    image-clock : take (length clock) (drop 46 image) ≡ clock
    image-clock =
        ap (take (length clock)) drop-clock
        ∙ take-append clock (replicate (max_clock - length clock) 0) (length clock) refl

    -- The slot gives back the root and the clock at its own height, and nothing at any other.
    pub read_slot-image :
        (at : ℕ)
        → read_slot crc at (slot_image crc height root clock)
          ≡ (if height == at then some (root, clock) else none)
    unfolding read_slot
    read_slot-image at =
        let fits = v.clock_fits in
        rw (slot_image-lem, image-crc, image-height, image-len, image-root, image-clock)
          (ground arith)

  -- An empty slot gives nothing.
  pub read_slot-zeros :
      (at : ℕ) → (0 < crc (replicate 156 0)) → read_slot crc at (replicate 160 0) ≡ none
  unfolding read_slot be_value
  read_slot-zeros at h = ground (arith, h)

drop-byte : (bs : Bytes) (i : ℕ) → i < length bs → drop i bs ≡ byte_at bs i ∷ drop (suc i) bs
drop-byte [] i h = absurd (omega arith)
drop-byte (b ∷ bs) zero h = refl
drop-byte (b ∷ bs) (suc i) h = drop-byte bs i (omega arith)

drop-whole : (bs : Bytes) → drop (length bs) bs ≡ []
drop-whole [] = refl
drop-whole (b ∷ bs) = drop-whole bs

module _ (off : ℕ) (bs : Bytes) (buf : ℕ → ℕ) where
  write_bytes-inside : (i : ℕ) → i < length bs → write_bytes off bs buf (off + i) ≡ byte_at bs i
  unfolding write_bytes
  write_bytes-inside i h = let back : off + i - off ≡ i = omega arith in rw back (ground arith)

  write_bytes-outside :
      (k : ℕ) → (k < off) ⊎ (off + length bs ≤ k) → write_bytes off bs buf k ≡ buf k
  unfolding write_bytes
  write_bytes-outside k h = ground (arith, h)

  read_bytes-from :
      (i n : ℕ) → i + n ≡ length bs → read_bytes (off + i) n (write_bytes off bs buf) ≡ drop i bs
  read_bytes-from i zero e =
      let same : length bs ≡ i = omega arith in
      sym (ap (λ (j : ℕ). drop j bs) (sym same) ∙ drop-whole bs)
  read_bytes-from i (suc n) e =
      let next : off + i + 1 ≡ off + (i + 1) = omega arith in
      let suc_is : i + 1 ≡ suc i = omega arith in
      ap (λ (b : ℕ). b ∷ read_bytes (off + i + 1) n (write_bytes off bs buf))
        (write_bytes-inside i (omega arith))
      ∙ ap (λ (k : ℕ). byte_at bs i ∷ read_bytes k n (write_bytes off bs buf)) next
      ∙ ap (λ (l : Bytes). byte_at bs i ∷ l) (read_bytes-from (i + 1) n (omega arith))
      ∙ ap (λ (j : ℕ). byte_at bs i ∷ drop j bs) suc_is
      ∙ sym (drop-byte bs i (omega arith))

  -- What was written is read back.
  pub read_bytes-write : (n : ℕ) → n ≡ length bs → read_bytes off n (write_bytes off bs buf) ≡ bs
  read_bytes-write n e =
      let at : off + 0 ≡ off = omega arith in
      ap (λ (k : ℕ). read_bytes k n (write_bytes off bs buf)) (sym at)
      ∙ read_bytes-from 0 n (omega arith)

  -- And nothing else is changed.
  pub read_bytes-apart :
      (k n : ℕ)
      → (k + n ≤ off) ⊎ (off + length bs ≤ k)
      → read_bytes k n (write_bytes off bs buf) ≡ read_bytes k n buf
  read_bytes-apart k zero h = refl
  read_bytes-apart k (suc n) h =
      ap (λ (b : ℕ). b ∷ read_bytes (k + 1) n (write_bytes off bs buf))
        (write_bytes-outside k (ground (arith, h)))
      ∙ ap (λ (l : Bytes). buf k ∷ l) (read_bytes-apart (k + 1) n (ground (arith, h)))

pub read_bytes-zeros : (k n : ℕ) → read_bytes k n (λ i. 0) ≡ replicate n 0
read_bytes-zeros k zero = refl
read_bytes-zeros k (suc n) = ap (λ (l : Bytes). 0 ∷ l) (read_bytes-zeros (k + 1) n)

-- ===== src/Exec/SaeRing/Newest.antt =====
-- The ring against the list of everything that was put into it, the newest entry first.
use avalanche_s3_archival_no.Prelude.{
  ℕ, zero, suc, ◌+◌, ◌*◌, ◌%◌, ◌^◌, ◌<◌, ◌≡◌, refl, sym, ap, ◌∙◌, arith, ◌==◌, if◌then◌else◌,
}
use avalanche_s3_archival_no.Prelude.{
  true, false, List, [], ◌∷◌, Option, none, some, get_elem?, replicate, All, inl, inr, Bool-cases,
}
use avalanche_s3_archival_no.Prelude.Bytes.{Bytes}
use avalanche_s3_archival_no.Exec.SaeRing.{
  Ring, open_ring, read_bytes, write_bytes, slot_off, ring_slot, slot_image, ring_put, read_slot,
  ring_get, slot_size, ring_slots,
}
use avalanche_s3_archival_no.Exec.SaeRing.Slot.{
  IsEntry, length-slot_image, read_slot-image, read_slot-zeros, read_bytes-write, read_bytes-apart,
  read_bytes-zeros,
}

pub record Entry : Type 0 where
  pub height : ℕ
  pub root : Bytes
  pub clock : Bytes

abbrev pub IsPut : Entry → Type 0
IsPut e = IsEntry e.height e.root e.clock

-- The newest entry of the slot that a height has, if it is the height's own.
unfoldable pub recent : ℕ → List Entry → Option (Bytes × Bytes)
recent at [] = none
recent at (e ∷ es) =
    let older = recent at es in
    if e.height % ring_slots == at % ring_slots
    then (if e.height == at then some (e.root, e.clock) else none)
    else older

module _ (crc : Bytes → ℕ) where
  -- A ring that was opened empty, after all these puts; one that fails leaves it as it is.
  unfoldable pub after_puts : List Entry → Ring
  after_puts [] = open_ring
  after_puts (e ∷ es) = elim (ring_put crc (after_puts es) e.height e.root e.clock) [
    | none ↦ after_puts es
    | some r ↦ r
  ]

  module _ (crc_fits : (x : Bytes) → crc x < 2 ^ 32) (crc_zeros : 0 < crc (replicate 156 0)) where
    put_bytes : Ring → Entry → Ring
    put_bytes r e = record r {
      buf = write_bytes (slot_off e.height) (slot_image crc e.height e.root e.clock) r.buf;
      dirty = true;
    }

    ring_put-fits :
        (r : Ring) (e : Entry)
        → IsPut e
        → ring_put crc r e.height e.root e.clock ≡ some (put_bytes r e)
    unfolding ring_put put_bytes
    ring_put-fits r e v = let fits = v.clock_fits in ground arith

    after_puts-cons :
        (e : Entry) (es : List Entry) → IsPut e → after_puts (e ∷ es) ≡ put_bytes (after_puts es) e
    unfolding after_puts
    after_puts-cons e es v =
        ap (λ (o : Option Ring). elim o [ none ↦ after_puts es | some r ↦ r ])
          (ring_put-fits (after_puts es) e v)

    slot-same :
        (r : Ring) (e : Entry) (at : ℕ)
        → IsPut e
        → e.height % ring_slots ≡ at % ring_slots
        → ring_slot (put_bytes r e) at ≡ slot_image crc e.height e.root e.clock
    unfolding ring_slot put_bytes slot_off
    slot-same r e at v same =
        let image = slot_image crc e.height e.root e.clock in
        let size = length-slot_image crc crc_fits e.height e.root e.clock v in
        ap
          (λ (k : ℕ).
            read_bytes (k * slot_size) slot_size
              (write_bytes (e.height % ring_slots * slot_size) image r.buf))
          (sym same)
        ∙ read_bytes-write (e.height % ring_slots * slot_size) image r.buf slot_size (sym size)

    slot-other :
        (r : Ring) (e : Entry) (at : ℕ)
        → IsPut e
        → (e.height % ring_slots == at % ring_slots) ≡ false
        → ring_slot (put_bytes r e) at ≡ ring_slot r at
    unfolding ring_slot put_bytes slot_off
    slot-other r e at v other =
        let image = slot_image crc e.height e.root e.clock in
        let size = length-slot_image crc crc_fits e.height e.root e.clock v in
        read_bytes-apart (e.height % ring_slots * slot_size) image r.buf
          (at % ring_slots * slot_size) slot_size (ground (arith, other, size))

    ring_get-slot : (r : Ring) (at : ℕ) → ring_get crc r at ≡ read_slot crc at (ring_slot r at)
    unfolding ring_get
    ring_get-slot r at = refl

    slot-empty : (at : ℕ) → ring_slot (after_puts []) at ≡ replicate 160 0
    unfolding ring_slot after_puts open_ring
    slot-empty at = read_bytes-zeros (slot_off at) slot_size

    -- What the ring gives for a height is the newest entry that went into the height's slot, if that
    -- is the height's own: a root and a clock that were put, until a height of the same slot is put.
    -- A height that was never put, or whose slot has a newer one, gives nothing. The checksum has 32
    -- bits and is not zero on an empty slot.
    pub ring_get-recent :
        (es : List Entry) (at : ℕ) → All IsPut es → ring_get crc (after_puts es) at ≡ recent at es
    unfolding recent
    ring_get-recent [] at a =
        ring_get-slot (after_puts []) at
        ∙ ap (read_slot crc at) (slot-empty at)
        ∙ read_slot-zeros crc crc_fits at crc_zeros
    ring_get-recent (e ∷ es) at (v, a) =
        let image = read_slot-image crc crc_fits e.height e.root e.clock v at in
        let put = ap (λ (r : Ring). ring_get crc r at) (after_puts-cons e es v) in
        let read = ring_get-slot (put_bytes (after_puts es) e) at in
        elim (Bool-cases (e.height % ring_slots == at % ring_slots)) [
          | inl same ↦
              put
              ∙ read
              ∙ ap (read_slot crc at) (slot-same (after_puts es) e at v (ground (arith, same)))
              ∙ rw same image
          | inr other ↦
              put
              ∙ read
              ∙ ap (read_slot crc at) (slot-other (after_puts es) e at v other)
              ∙ sym (ring_get-slot (after_puts es) at)
              ∙ rw other (ring_get-recent es at a)
        ]

-- Entries of consecutive heights, the newest right below a height.
abbrev pub Down : ℕ → List Entry → Type 0
Down top [] = Unit
Down top (e ∷ es) = (e.height + 1 ≡ top) × Down e.height es

Down-height :
    (top : ℕ) (es : List Entry) (i : ℕ) (e : Entry)
    → Down top es
    → get_elem? es i ≡ some e
    → e.height + i + 1 ≡ top
Down-height top [] i e d h = absurd (cc)
Down-height top (x ∷ es) zero e (p, d) h =
    let same : x.height ≡ e.height =
      ap (λ (o : Option Entry). elim o [ none ↦ 0 | some y ↦ y.height ]) h in
    omega arith
Down-height top (x ∷ es) (suc i) e (p, d) h = omega (arith, Down-height x.height es i e d h)

recent-own : (e : Entry) (es : List Entry) → recent e.height (e ∷ es) ≡ some (e.root, e.clock)
unfolding recent
recent-own e es = ground arith

recent-past :
    (e : Entry) (es : List Entry) (at : ℕ)
    → (e.height % ring_slots == at % ring_slots) ≡ false
    → recent at (e ∷ es) ≡ recent at es
unfolding recent
recent-past e es at h = ground (arith, h)

recent-Down :
    (top : ℕ) (es : List Entry) (i : ℕ) (e : Entry)
    → Down top es
    → i < ring_slots
    → get_elem? es i ≡ some e
    → recent e.height es ≡ some (e.root, e.clock)
recent-Down top [] i e d lt h = absurd (cc)
recent-Down top (x ∷ es) zero e d lt h = let same : x ≡ e = cc in rw (sym same) (recent-own x es)
recent-Down top (x ∷ es) (suc i) e (p, d) lt h =
    let far = Down-height x.height es i e d h in
    recent-past x es e.height (ground (arith, far)) ∙ recent-Down x.height es i e d (omega arith) h

-- After the blocks of any consecutive heights, the ring still has the root and the clock of each of
-- the last 8192 of them.
pub ring_get-window :
    (crc : Bytes → ℕ) (top : ℕ) (es : List Entry) (i : ℕ) (e : Entry)
    → ((x : Bytes) → crc x < 2 ^ 32)
    → 0 < crc (replicate 156 0)
    → All IsPut es
    → Down top es
    → i < ring_slots
    → get_elem? es i ≡ some e
    → ring_get crc (after_puts crc es) e.height ≡ some (e.root, e.clock)
ring_get-window crc top es i e fits zeros a d lt h =
    ring_get-recent crc fits zeros es e.height a ∙ recent-Down top es i e d lt h

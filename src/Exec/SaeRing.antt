-- ===== src/Exec/SaeRing.antt =====
-- The SAE root ring of exec/saering.go: a slot for each height modulo 8192, with the executor's own
-- root and gas clock behind a checksum.
pub mod Slot
pub mod Newest
use avalanche_s3_archival_no.Prelude.{
  ℕ, zero, suc, ◌+◌, ◌-◌, ◌*◌, ◌%◌, ◌==◌, leb, ltb, if◌then◌else◌,
}
use avalanche_s3_archival_no.Prelude.{
  Bool, true, false, not, ◌&&◌, List, [], ◌∷◌, ◌++◌, Option, none, some, length, take, drop,
  replicate,
}
use avalanche_s3_archival_no.Prelude.Bytes.{Bytes, be, be_value}

abbrev pub ring_slots : ℕ
ring_slots = 8192

abbrev pub slot_size : ℕ
slot_size = 160

abbrev pub off_height : ℕ
off_height = 4

abbrev pub off_root : ℕ
off_root = 12

abbrev pub off_len : ℕ
off_len = 44

abbrev pub off_clock : ℕ
off_clock = 46

abbrev pub max_clock : ℕ
max_clock = slot_size - off_clock

-- `buf` is the mirror of the whole file, by offset.
pub record Ring : Type 0 where
  pub buf : ℕ → ℕ
  pub dirty : Bool

-- `openSAERing` on a file that is absent or empty.
unfoldable pub open_ring : Ring
open_ring = record { buf = λ k. 0; dirty = false }

abbrev pub read_bytes : ℕ → ℕ → (ℕ → ℕ) → Bytes
read_bytes off zero buf = []
read_bytes off (suc n) buf = buf off ∷ read_bytes (off + 1) n buf

abbrev pub byte_at : Bytes → ℕ → ℕ
byte_at [] i = 0
byte_at (b ∷ bs) zero = b
byte_at (b ∷ bs) (suc i) = byte_at bs i

unfoldable pub write_bytes : ℕ → Bytes → (ℕ → ℕ) → ℕ → ℕ
write_bytes off bs buf k =
    if leb off k && ltb k (off + length bs) then byte_at bs (k - off) else buf k

unfoldable pub slot_off : ℕ → ℕ
slot_off height = (height % ring_slots) * slot_size

unfoldable pub ring_slot : Ring → ℕ → Bytes
unfolding slot_off
ring_slot r height = read_bytes (slot_off height) slot_size r.buf

-- `crc` is crc32.ChecksumIEEE.
module _ (crc : Bytes → ℕ) where
  -- What `put` leaves in the slot, behind the checksum and with it.
  unfoldable pub slot_body : ℕ → Bytes → Bytes → Bytes
  slot_body height root clock =
      be 8 height
      ++ (root ++ (be 2 (length clock) ++ (clock ++ replicate (max_clock - length clock) 0)))

  unfoldable pub slot_image : ℕ → Bytes → Bytes → Bytes
  unfolding slot_body
  slot_image height root clock =
      be 4 (crc (slot_body height root clock)) ++ slot_body height root clock

  -- `none` is the error of a clock that does not fit; the write to the file succeeds.
  unfoldable pub ring_put : Ring → ℕ → Bytes → Bytes → Option Ring
  unfolding slot_image write_bytes slot_off
  ring_put r height root clock =
      if ltb max_clock (length clock)
      then none
      else some (record r {
        buf = write_bytes (slot_off height) (slot_image height root clock) r.buf;
        dirty = true;
      })

  -- What `get` makes of the bytes of a slot.
  unfoldable pub read_slot : ℕ → Bytes → Option (Bytes × Bytes)
  read_slot height s =
      let n = be_value 0 (take 2 (drop off_len s)) in
      if not (be_value 0 (take 4 s) == crc (drop off_height s))
      then none
      else if not (be_value 0 (take 8 (drop off_height s)) == height)
      then none
      else if ltb max_clock n
      then none
      else some (take 32 (drop off_root s), take n (drop off_clock s))

  unfoldable pub ring_get : Ring → ℕ → Option (Bytes × Bytes)
  unfolding read_slot ring_slot
  ring_get r height = read_slot height (ring_slot r height)

-- `sync` flushes a dirty file.
unfoldable pub ring_sync : Ring → Ring
ring_sync r = if not r.dirty then r else record r { dirty = false }

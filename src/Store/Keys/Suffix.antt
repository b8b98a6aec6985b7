-- ===== src/Store/Keys/Suffix.antt =====
-- The TxNum suffix: read back, and ordered as the numbers are.
use avalanche_s3_archival_no.Prelude.{
  ℕ, ◌-◌, ◌^◌, ◌<◌, ◌≡◌, ltb, some, ◌++◌, arith, length, length-append,
}
use avalanche_s3_archival_no.Prelude.Bytes.{Bytes, be, be_value-be, length-be, drop-append}
use avalanche_s3_archival_no.Prelude.Bytes.{blt, blt-append, blt-be}
use avalanche_s3_archival_no.Store.Keys.{suffixed, txnum_of}

-- `TxNumOf` reads back the uint64 that `Suffixed` appended, whatever the prefix.
pub txnum_of-suffixed :
    (prefix : Bytes) (n : ℕ) → n < 2 ^ 64 → txnum_of (suffixed prefix n) ≡ some n
unfolding suffixed txnum_of
txnum_of-suffixed prefix n h = ground (
  arith,
  length-append prefix (be 8 n),
  length-be 8 n,
  drop-append prefix (be 8 n) (length (prefix ++ be 8 n) - 8),
  be_value-be 8 n,
)

-- Under one prefix, byte order of the suffixed keys is the order of the TxNums.
pub blt-suffixed :
    (prefix : Bytes) (a b : ℕ)
    → a < 2 ^ 64
    → b < 2 ^ 64
    → blt (suffixed prefix a) (suffixed prefix b) ≡ ltb a b
unfolding suffixed
blt-suffixed prefix a b ha hb = rw blt-append (blt-be 8 a b (omega arith) (omega arith) ha hb)

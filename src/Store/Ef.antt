-- ===== src/Store/Ef.antt =====
-- The Elias-Fano codec of store/ef/ef.go: a posting chunk as three bit vectors behind a header.
pub mod Bits
pub mod Buffer
pub mod Decode
pub mod Digits
pub mod Header
pub mod Read
pub mod RoundTrip
pub mod Upper
pub mod Write
use avalanche_s3_archival_no.Prelude.{
  ℕ, zero, suc, ◌+◌, ◌-◌, ◌*◌, ◌/◌, ◌%◌, ◌^◌, ◌==◌, leb, ltb, sub64, if◌then◌else◌,
}
use avalanche_s3_archival_no.Prelude.{
  Bool, true, false, not, ◌&&◌, ◌||◌, List, [], ◌∷◌, ◌++◌, Option, none, some, length, drop,
  replicate, last?,
}
use avalanche_s3_archival_no.Prelude.Bytes.{Bytes}

abbrev pub max_entries : ℕ
max_entries = 4096

-- `x>>k&1 == 1`, and `x | 1<<k`, digit by digit.
abbrev pub bit_of : ℕ → ℕ → Bool
bit_of x zero = x % 2 == 1
bit_of x (suc k) = bit_of (x / 2) k

abbrev pub or_bit : ℕ → ℕ → ℕ
or_bit x zero = if x % 2 == 1 then x else x + 1
or_bit x (suc k) = or_bit (x / 2) k * 2 + x % 2

-- bits.Len64
unfoldable pub len64 : ℕ → ℕ → ℕ
len64 zero x = 0
len64 (suc w) x = let rest = len64 w (x / 2) in if x == 0 then 0 else suc rest

-- binary.AppendUvarint: at most ten groups of seven bits.
unfoldable pub uvarint_bytes : ℕ → ℕ → Bytes
uvarint_bytes zero x = x ∷ []
uvarint_bytes (suc groups) x =
    let rest = uvarint_bytes groups (x / 128) in
    if ltb x 128 then x ∷ [] else (x % 128 + 128) ∷ rest

abbrev pub put_uvarint : ℕ → Bytes
put_uvarint x = uvarint_bytes 9 x

-- binary.Uvarint: the value and the number of bytes, `none` where that number is not positive.
unfoldable pub uvarint_from : ℕ → ℕ → ℕ → Bytes → Option (ℕ × ℕ)
uvarint_from i unit x [] = none
uvarint_from i unit x (b ∷ bs) =
    let more = uvarint_from (suc i) (unit * 128) ((x + b % 128 * unit) % 2 ^ 64) bs in
    if i == 10
    then none
    else if ltb b 128
    then (if (i == 9) && ltb 1 b then none else some ((x + b * unit) % 2 ^ 64, suc i))
    else more

abbrev pub uvarint : Bytes → Option (ℕ × ℕ)
uvarint v = uvarint_from 0 1 0 v

-- `buf[k] |= 1 << j`
unfoldable pub or_at : Bytes → ℕ → ℕ → Bytes
or_at [] k j = []
or_at (b ∷ bs) zero j = or_bit b j ∷ bs
or_at (b ∷ bs) (suc k) j = b ∷ or_at bs k j

abbrev pub grow : ℕ → Bytes → Bytes
grow n buf = buf ++ replicate (n - length buf) 0

pub record BitWriter : Type 0 where
  pub buf : Bytes
  pub bits : ℕ
  pub base : ℕ
  pub ones : ℕ

abbrev pub based_writer : BitWriter → BitWriter
based_writer w = if w.base == 0 then record w { base = length w.buf } else w

unfoldable pub set_upper : BitWriter → ℕ → BitWriter
unfolding or_at
set_upper w i =
    let v = based_writer w in
    record v {
      buf = or_at (grow (v.base + i / 8 + 1) v.buf) (v.base + i / 8) (i % 8);
      bits = if ltb v.bits (i + 1) then i + 1 else v.bits;
    }

unfoldable pub pad_upper : BitWriter → ℕ → BitWriter
pad_upper w n =
    let v = based_writer w in
    let buf = grow (v.base + (n + 7) / 8) v.buf in record v { buf = buf; bits = length buf * 8 }

unfoldable pub put_bit : BitWriter → Bool → BitWriter
unfolding or_at
put_bit w b =
    let buf = if w.bits % 8 == 0 then w.buf ++ (0 ∷ []) else w.buf in
    record w { buf = if b then or_at buf (w.bits / 8) (w.bits % 8) else buf; bits = w.bits + 1 }

-- `put` from a bit on, for so many bits.
unfoldable pub put_bits : ℕ → ℕ → ℕ → BitWriter → BitWriter
unfolding put_bit
put_bits x k zero w = w
put_bits x k (suc n) w = put_bits x (suc k) n (put_bit w (bit_of x k))

-- The three loops of `Encode`.
unfoldable pub set_highs : ℕ → ℕ → List ℕ → BitWriter → BitWriter
unfolding set_upper
set_highs base low [] w = w
set_highs base low (t ∷ ts) w =
    let v = set_upper w (sub64 t base / 2 ^ low + w.ones) in
    set_highs base low ts (record v { ones = v.ones + 1 })

unfoldable pub put_lows : ℕ → ℕ → List ℕ → BitWriter → BitWriter
unfolding put_bits
put_lows base low [] w = w
put_lows base low (t ∷ ts) w = put_lows base low ts (put_bits (sub64 t base % 2 ^ low) 0 low w)

unfoldable pub put_payload : ℕ → Bytes → BitWriter → BitWriter
unfolding put_bits
put_payload pb [] w = w
put_payload pb (p ∷ ps) w = put_payload pb ps (put_bits p 0 pb w)

abbrev pub span_from : ℕ → List ℕ → ℕ
span_from base txnums = elim (last? txnums) [ none ↦ 0 | some t ↦ sub64 t base ]

abbrev pub low_bits : ℕ → ℕ → ℕ
low_bits n span = if ltb 0 n && ltb 0 (span / n) then len64 64 (span / n) else 0

abbrev pub ef_header : ℕ → ℕ → ℕ → Bytes
ef_header n low pb = put_uvarint n ++ (put_uvarint low ++ put_uvarint pb)

-- The payload has an entry for each TxNum; at a width of 0 it is not read.
unfoldable pub encode_ef : ℕ → List ℕ → Bytes → ℕ → Bytes
unfolding set_highs pad_upper put_lows put_payload len64 uvarint_bytes
encode_ef base txnums payload pb =
    let n = length txnums in
    let span = span_from base txnums in
    let low = low_bits n span in
    let w0 : BitWriter = record { buf = ef_header n low pb; bits = 0; base = 0; ones = 0 } in
    let w1 = pad_upper (set_highs base low txnums w0) (span / 2 ^ low + n) in
    let w2 = put_lows base low txnums w1 in (if ltb 0 pb then put_payload pb payload w2 else w2).buf

-- `next`: the bit at a position, and the position behind it.
abbrev pub byte_of : Bytes → ℕ → Option ℕ
byte_of [] k = none
byte_of (b ∷ bs) zero = some b
byte_of (b ∷ bs) (suc k) = byte_of bs k

unfoldable pub next_bit : Bytes → ℕ → Option (Bool × ℕ)
next_bit buf bit = elim (byte_of buf (bit / 8)) [
  | none ↦ none
  | some b ↦ some (bit_of b (bit % 8), bit + 1)
]

-- `get`, from a bit on.
unfoldable pub get_bits : Bytes → ℕ → ℕ → ℕ → ℕ → Option (ℕ × ℕ)
unfolding next_bit
get_bits buf bit x k zero = some (x, bit)
get_bits buf bit x k (suc n) = elim (next_bit buf bit) [
  | none ↦ none
  | some (b, at) ↦ get_bits buf at (if b then or_bit x k else x) (suc k) n
]

-- The loop to the next one of the upper vector, and the loop over the entries.
unfoldable pub get_unary : ℕ → Bytes → ℕ → ℕ → Option (ℕ × ℕ)
unfolding next_bit
get_unary zero buf bit hi = none
get_unary (suc fuel) buf bit hi = elim (next_bit buf bit) [
  | none ↦ none
  | some (true, at) ↦ some (hi, at)
  | some (false, at) ↦ get_unary fuel buf at (hi + 1)
]

unfoldable pub get_highs : ℕ → Bytes → ℕ → ℕ → Option (List ℕ × ℕ)
unfolding get_unary
get_highs zero buf bit hi = some ([], bit)
get_highs (suc n) buf bit hi = elim (get_unary (suc (length buf * 8 - bit)) buf bit hi) [
  | none ↦ none
  | some (h, at) ↦ elim (get_highs n buf at h) [
    | none ↦ none
    | some (hs, end_) ↦ some (h ∷ hs, end_)
  ]
]

unfoldable pub get_lows : ℕ → ℕ → List ℕ → Bytes → ℕ → Option (List ℕ × ℕ)
unfolding get_bits
get_lows base low [] buf bit = some ([], bit)
get_lows base low (h ∷ hs) buf bit = elim (get_bits buf bit 0 0 low) [
  | none ↦ none
  | some (lo, at) ↦ elim (get_lows base low hs buf at) [
    | none ↦ none
    | some (ts, end_) ↦ some (((base + h * 2 ^ low % 2 ^ 64 + lo) % 2 ^ 64) ∷ ts, end_)
  ]
]

unfoldable pub get_payload : ℕ → ℕ → Bytes → ℕ → Option Bytes
unfolding get_bits
get_payload pb zero buf bit = some []
get_payload pb (suc n) buf bit = elim (get_bits buf bit 0 0 pb) [
  | none ↦ none
  | some (p, at) ↦ elim (get_payload pb n buf at) [ none ↦ none | some ps ↦ some ((p % 256) ∷ ps) ]
]

-- What `Decode` comes to. `int` of a header number of 2 ^ 63 or more is negative: a negative count or
-- a negative shift panics, a negative payload width reads as none.
pub data Decoded : Type 0 where
  decoded : List ℕ → Option Bytes → Decoded
  corrupt panicked : Decoded

abbrev pub is_negative : ℕ → Bool
is_negative x = leb (2 ^ 63) x

unfoldable pub decode_rows : ℕ → ℕ → ℕ → ℕ → Bytes → ℕ → Decoded
unfolding get_highs get_lows get_payload
decode_rows base n low pb v pos = elim (get_highs n v (pos * 8) 0) [
  | none ↦ corrupt
  | some (hs, end_) ↦
      if is_negative low && ltb 0 n
      then panicked
      else elim (get_lows base low hs v ((end_ + 7) / 8 * 8)) [
        | none ↦ corrupt
        | some (ts, at) ↦
            if (pb == 0) || is_negative pb
            then decoded ts none
            else elim (get_payload pb n v at) [ none ↦ corrupt | some ps ↦ decoded ts (some ps) ]
      ]
]

abbrev pub header_from : Bytes → Option (ℕ × ℕ × ℕ × ℕ)
header_from v = elim (uvarint v) [
  | none ↦ none
  | some (n, k) ↦ elim (uvarint (drop k v)) [
    | none ↦ none
    | some (low, l) ↦ elim (uvarint (drop (k + l) v)) [
      | none ↦ none
      | some (pb, m) ↦ some (n, low, pb, k + l + m)
    ]
  ]
]

unfoldable pub decode_ef : ℕ → Bytes → Decoded
unfolding decode_rows uvarint_from
decode_ef base v = elim (header_from v) [
  | none ↦ corrupt
  | some (n, low, pb, pos) ↦
      if not (is_negative n) && ltb max_entries n
      then corrupt
      else if not (is_negative low) && ltb 64 low
      then corrupt
      else if not (is_negative pb) && ltb 8 pb
      then corrupt
      else if is_negative n
      then panicked
      else decode_rows base n low pb v pos
]

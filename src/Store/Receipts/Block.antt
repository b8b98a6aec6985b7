-- ===== src/Store/Receipts/Block.antt =====
-- The receipt fields of a block and the pair of records of the tail, read back.
use avalanche_s3_archival_no.Prelude.{
  ℕ, zero, suc, ◌+◌, ◌%◌, ◌^◌, ◌==◌, ◌<◌, ◌≡◌, refl, ap, ◌∙◌, arith, add64, if◌then◌else◌,
}
use avalanche_s3_archival_no.Prelude.{
  Bool, false, ◌&&◌, List, [], ◌∷◌, ◌++◌, Option, none, some, length, length-append, drop, All,
}
use avalanche_s3_archival_no.Prelude.Bytes.{Bytes, drop-append}
use avalanche_s3_archival_no.Store.Ef.{put_uvarint, uvarint}
use avalanche_s3_archival_no.Store.Ef.Header.{uvarint-put_uvarint, put_uvarint-some}
use avalanche_s3_archival_no.Store.Receipts.{
  Receipt, StoredRcpt, Outcome, ok, and_then, split_at, encode_stored_receipts, decode_rcpts,
  decode_stored_receipts, encode_tail_rcpt, decode_tail_rcpt,
}
use avalanche_s3_archival_no.Store.Receipts.Tx.{next_num-put_uvarint, split_at-append}

-- The entries of a block's receipts, with the gas summed up from so much on.
abbrev pub summed : ℕ → List Receipt → List StoredRcpt
summed cum [] = []
summed cum (r ∷ rs) =
    record { gas_used = r.gas_used; cumulative_gas = add64 cum r.gas_used; status = r.status }
    ∷ summed (add64 cum r.gas_used) rs

-- Gas of a uint64, and the status 0 or 1 of Ethereum, or any byte.
abbrev pub IsField : Receipt → Type 0
IsField r = (r.gas_used < 2 ^ 64) × (r.status < 256)

abbrev cons_rcpt : ℕ → ℕ → ℕ → Option (List StoredRcpt) → Option (List StoredRcpt)
cons_rcpt g cum s o = elim o [
  | none ↦ none
  | some rs ↦ some (record { gas_used = g; cumulative_gas = cum; status = s } ∷ rs)
]

abbrev at_status : ℕ → ℕ → ℕ → Bytes → Option (List StoredRcpt)
at_status fuel cum g b = elim b [
  | [] ↦ none
  | s ∷ rest ↦ cons_rcpt g (add64 cum g) s (decode_rcpts fuel (add64 cum g) rest)
]

abbrev at_gas : ℕ → ℕ → Bytes → Option (ℕ × ℕ) → Option (List StoredRcpt)
at_gas fuel cum whole o = elim o [ none ↦ none | some (g, k) ↦ at_status fuel cum g (drop k whole) ]

decode_rcpts-some :
    (fuel cum : ℕ) (b : Bytes)
    → 0 < length b
    → decode_rcpts (suc fuel) cum b ≡ at_gas fuel cum b (uvarint b)
unfolding decode_rcpts
decode_rcpts-some fuel cum [] h = absurd (omega arith)
decode_rcpts-some fuel cum (x ∷ b) h = refl

decode_rcpts-nil : (fuel cum : ℕ) → decode_rcpts (suc fuel) cum [] ≡ some []
unfolding decode_rcpts
decode_rcpts-nil fuel cum = refl

decode_rcpts-encoded :
    (rs : List Receipt) (fuel cum : ℕ)
    → length (encode_stored_receipts rs) < fuel
    → All IsField rs
    → decode_rcpts fuel cum (encode_stored_receipts rs) ≡ some (summed cum rs)
unfolding encode_stored_receipts
decode_rcpts-encoded [] zero cum h a = absurd (omega arith)
decode_rcpts-encoded [] (suc fuel) cum h a = decode_rcpts-nil fuel cum
decode_rcpts-encoded (r ∷ rs) zero cum h a = absurd (omega arith)
decode_rcpts-encoded (r ∷ rs) (suc fuel) cum h ((gas, byte), a) =
    let g = r.gas_used in
    let rest = encode_stored_receipts rs in
    let behind = (r.status % 256) ∷ rest in
    let size = length-append (put_uvarint g) behind in
    let some_bytes = put_uvarint-some g in
    let same : r.status % 256 ≡ r.status = omega arith in
    decode_rcpts-some fuel cum (put_uvarint g ++ behind) (omega arith)
    ∙ ap (at_gas fuel cum (put_uvarint g ++ behind)) (uvarint-put_uvarint g behind gas)
    ∙ ap (at_status fuel cum g) (drop-append (put_uvarint g) behind (length (put_uvarint g)) refl)
    ∙ ap (cons_rcpt g (add64 cum g) (r.status % 256))
        (decode_rcpts-encoded rs fuel (add64 cum g) (omega arith) a)
    ∙ ap
        (λ (s : ℕ). some (
          record { gas_used = g; cumulative_gas = add64 cum g; status = s }
          ∷ summed (add64 cum g) rs))
        same

-- The receipt fields of a block are read back to the end of the record, each with the sum of the
-- gas up to it, for uint64 gas and one-byte statuses.
pub decode_stored_receipts-encode_stored_receipts :
    (rs : List Receipt)
    → All IsField rs
    → decode_stored_receipts (encode_stored_receipts rs) ≡ some (summed 0 rs)
unfolding decode_stored_receipts
decode_stored_receipts-encode_stored_receipts rs a =
    decode_rcpts-encoded rs (suc (length (encode_stored_receipts rs))) 0 (omega arith) a

-- A tail record, of less than 2^63 bytes, is split into the logs record and the receipts record
-- that it was joined of, unless both are empty.
pub decode_tail_rcpt-encode_tail_rcpt :
    (logs_rec rcpt_rec : Bytes)
    → 0 < length logs_rec + length rcpt_rec
    → length (encode_tail_rcpt logs_rec rcpt_rec) < 2 ^ 63
    → decode_tail_rcpt (encode_tail_rcpt logs_rec rcpt_rec) ≡ ok (logs_rec, rcpt_rec)
unfolding encode_tail_rcpt decode_tail_rcpt
decode_tail_rcpt-encode_tail_rcpt a b some_bytes fits =
    let whole = put_uvarint (length a) ++ (a ++ b) in
    let full : ((length a == 0) && (length b == 0)) ≡ false = ground arith in
    let is : encode_tail_rcpt a b ≡ whole = ap (λ (t : Bool). if t then [] else whole) full in
    let size : length whole < 2 ^ 63 = omega (arith, fits, ap (λ (l : Bytes). length l) is) in
    let parts = length-append (put_uvarint (length a)) (a ++ b) in
    let sum = length-append a b in
    ap decode_tail_rcpt is
    ∙ ap (λ (o : Outcome (ℕ × Bytes)). and_then o (λ (n, rest). split_at (length whole) n rest))
        (next_num-put_uvarint (length a) (a ++ b) (omega arith))
    ∙ split_at-append (length whole) size (length a) a b refl (omega arith)

-- ===== src/Store/Ef/Decode.antt =====
-- The steps of `Decode` once each part of the chunk is read.
use avalanche_s3_archival_no.Prelude.{
  ℕ, ◌+◌, ◌*◌, ◌/◌, ◌≤◌, ◌<◌, ◌≡◌, ap, ◌∙◌, arith, ◌==◌, ltb, if◌then◌else◌,
}
use avalanche_s3_archival_no.Prelude.{
  Bool, false, not, ◌&&◌, ◌||◌, List, ◌++◌, Option, none, some, length, replicate, drop,
}
use avalanche_s3_archival_no.Prelude.Bytes.{Bytes}
use avalanche_s3_archival_no.Store.Ef.{
  max_entries, get_highs, get_lows, get_payload, Decoded, decoded, corrupt, panicked, is_negative,
  decode_rows, header_from, decode_ef,
}
use avalanche_s3_archival_no.Store.Ef.Bits.{to_bits, length-to_bits, to_bits-append, drop-past}
use avalanche_s3_archival_no.Store.Ef.Digits.{At}
use avalanche_s3_archival_no.Store.Ef.Buffer.{HasBits}

-- The buffer behind the header.
pub bits-At :
    (hdr : Bytes) (bs : List Bool) (buf : Bytes) (h : HasBits hdr bs buf)
    → At buf (length hdr * 8) (bs ++ replicate h.spare false)
bits-At hdr bs buf h =
    ap (λ (l : Bytes). drop (length hdr * 8) (to_bits l)) h.is
    ∙ ap (λ (l : List Bool). drop (length hdr * 8) l) (to_bits-append hdr h.body)
    ∙ drop-past (to_bits hdr) (to_bits h.body) (length hdr * 8) 0
        (omega (arith, length-to_bits hdr))
    ∙ h.holds

-- What the decoder does once it has the TxNums.
abbrev pub chunk_answer : ℕ → ℕ → Bytes → List ℕ → ℕ → Decoded
chunk_answer n pb v ts at =
    if (pb == 0) || is_negative pb
    then decoded ts none
    else elim (get_payload pb n v at) [ none ↦ corrupt | some ps ↦ decoded ts (some ps) ]

pub payload_read :
    (n pb : ℕ) (v : Bytes) (ts : List ℕ) (at : ℕ) (ps : Bytes)
    → 0 < pb
    → pb ≤ 8
    → get_payload pb n v at ≡ some ps
    → chunk_answer n pb v ts at ≡ decoded ts (some ps)
payload_read n pb v ts at ps wide small e =
    let read : ((pb == 0) || is_negative pb) ≡ false = ground arith in
    ground (arith, read)
    ∙ ap
        (λ (o : Option Bytes). elim o as (λ (q : Option Bytes). Decoded) [
          | none ↦ corrupt
          | some qs ↦ decoded ts (some qs)
        ])
        e

module _ (base n low pb : ℕ) (v : Bytes) where
  abbrev after_lows : Option (List ℕ × ℕ) → Decoded
  after_lows o = elim o [ none ↦ corrupt | some (ts, at) ↦ chunk_answer n pb v ts at ]

  abbrev after_highs : Option (List ℕ × ℕ) → Decoded
  after_highs o = elim o [
    | none ↦ corrupt
    | some (hs, end_) ↦
        if is_negative low && ltb 0 n
        then panicked
        else after_lows (get_lows base low hs v ((end_ + 7) / 8 * 8))
  ]

  pub decode_rows-reads :
      (pos end_ at : ℕ) (hs ts : List ℕ)
      → low ≤ 64
      → get_highs n v (pos * 8) 0 ≡ some (hs, end_)
      → get_lows base low hs v ((end_ + 7) / 8 * 8) ≡ some (ts, at)
      → decode_rows base n low pb v pos ≡ chunk_answer n pb v ts at
  unfolding decode_rows
  decode_rows-reads pos end_ at hs ts small highs lows =
      let positive : is_negative low ≡ false = ground arith in
      ap after_highs highs ∙ ground (arith, positive) ∙ ap after_lows lows

  abbrev checked : Option (ℕ × ℕ × ℕ × ℕ) → Decoded
  checked o = elim o [
    | none ↦ corrupt
    | some (n, low, pb, pos) ↦
        if not (is_negative n) && ltb max_entries n
        then corrupt
        else if not (is_negative low) && ltb 64 low
        then corrupt
        else if not (is_negative pb) && ltb 8 pb
        then corrupt
        else if is_negative n
        then panicked
        else decode_rows base n low pb v pos
  ]

  pub decode_ef-header :
      (pos : ℕ)
      → n ≤ max_entries
      → low ≤ 64
      → pb ≤ 8
      → header_from v ≡ some (n, low, pb, pos)
      → decode_ef base v ≡ decode_rows base n low pb v pos
  unfolding decode_ef
  decode_ef-header pos small small_low small_pb e = ap checked e ∙ ground arith

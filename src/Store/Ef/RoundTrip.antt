-- ===== src/Store/Ef/RoundTrip.antt =====
-- `Decode` of what `Encode` wrote.
use avalanche_s3_archival_no.Prelude.{
  ℕ, ◌+◌, ◌*◌, ◌/◌, ◌^◌, ◌≤◌, ◌<◌, ◌≡◌, refl, sym, ap, ◌∙◌, arith, ltb, if◌then◌else◌,
}
use avalanche_s3_archival_no.Prelude.{
  Bool, true, false, List, [], ◌∷◌, ◌++◌, append-nil, append_assoc, none, some, length,
  length-append, length-replicate, replicate, All, inl, inr,
}
use avalanche_s3_archival_no.Prelude.Bytes.{Bytes}
use native.Mathlib.Nat.{pow-le-pow_right}
use avalanche_s3_archival_no.Store.Ef.{
  max_entries, BitWriter, pad_upper, set_highs, put_lows, put_payload, span_from, low_bits,
  put_uvarint, ef_header, encode_ef, get_highs, get_lows, get_payload, decoded, decode_rows,
  header_from, decode_ef,
}
use avalanche_s3_archival_no.Store.Ef.Bits.{to_bits, drop-more}
use avalanche_s3_archival_no.Store.Ef.Digits.{At}
use avalanche_s3_archival_no.Store.Ef.Read.{
  unary, fixed, Rising, highs_of, lows_of, get_highs-unary, get_lows-fixed, get_payload-fixed,
}
use avalanche_s3_archival_no.Store.Ef.Buffer.{whole_bytes}
use avalanche_s3_archival_no.Store.Ef.Write.{
  Puts, Sets, set_highs-Sets, pad_upper-Puts, put_lows-Puts, put_payload-Puts,
}
use avalanche_s3_archival_no.Store.Ef.Header.{put_uvarint-some, header_from-ef_header}
use avalanche_s3_archival_no.Store.Ef.Upper.{
  PayloadFits, low_bits-le, highs-Rising, in_range, length-highs_of, upper_size,
}
use avalanche_s3_archival_no.Store.Ef.Decode.{
  bits-At, chunk_answer, payload_read, decode_rows-reads, decode_ef-header,
}

module _ (base : ℕ) (ts : List ℕ) (pb : ℕ) (rising : Rising base ts)
    (fits : All (λ (t : ℕ). t < 2 ^ 64) ts) where
  abbrev count : ℕ
  count = length ts

  abbrev width : ℕ
  width = low_bits count (span_from base ts)

  abbrev hdr : Bytes
  hdr = ef_header count width pb

  abbrev w0 : BitWriter
  w0 = record { buf = hdr; bits = 0; base = 0; ones = 0 }

  abbrev w1 : BitWriter
  w1 = pad_upper (set_highs base width ts w0) (span_from base ts / 2 ^ width + count)

  abbrev w2 : BitWriter
  w2 = put_lows base width ts w1

  abbrev uppers : List Bool
  uppers = unary 0 (highs_of base width ts)

  abbrev lowers : List Bool
  lowers = fixed width (lows_of base width ts)

  hdr-some : 0 < length hdr
  hdr-some = omega (
    arith,
    put_uvarint-some count,
    length-append (put_uvarint count) (put_uvarint width ++ put_uvarint pb),
  )

  abbrev upper_sets : Sets hdr uppers (set_highs base width ts w0)
  upper_sets =
      let start : Sets hdr [] w0 = record {
        has = record {
          body = [];
          spare = 0;
          is = sym (append-nil hdr);
          holds = refl;
          short = omega arith;
        };
        starts = inr (refl, refl);
      } in
      set_highs-Sets hdr hdr-some base width 0 ts [] w0 start refl
        (highs-Rising base width ts rising fits)

  abbrev pad : ℕ
  pad = upper_sets.has.spare

  abbrev w2_bits : List Bool
  w2_bits = (uppers ++ replicate pad false) ++ lowers

  w2-Puts : Puts hdr w2_bits w2
  w2-Puts = put_lows-Puts hdr base width ts (uppers ++ replicate pad false) w1 (
      pad_upper-Puts hdr hdr-some uppers (set_highs base width ts w0)
        (span_from base ts / 2 ^ width + count) upper_sets
        (upper_size base width ts (highs-Rising base width ts rising fits)))

  -- A chunk that continues in some way behind the lower vector.
  module _ (v : Bytes) (tail : List Bool) (h : At v (length hdr * 8) (w2_bits ++ tail)) where
    abbrev lows_at : ℕ
    lows_at = length hdr * 8 + length uppers + pad

    abbrev tail_at : ℕ
    tail_at = lows_at + length lowers

    uppers-At : At v (length hdr * 8) (uppers ++ (replicate pad false ++ (lowers ++ tail)))
    uppers-At =
        h
        ∙ append_assoc (uppers ++ replicate pad false) lowers tail
        ∙ append_assoc uppers (replicate pad false) (lowers ++ tail)

    lowers-At : At v lows_at (lowers ++ tail)
    lowers-At =
        drop-more (to_bits v) (length hdr * 8) lows_at (uppers ++ replicate pad false)
          (lowers ++ tail)
          (uppers-At ∙ sym (append_assoc uppers (replicate pad false) (lowers ++ tail)))
          (omega (
            arith,
            length-append uppers (replicate pad false),
            length-replicate {A = Bool} pad false,
          ))

    tail-At : At v tail_at tail
    tail-At = drop-more (to_bits v) lows_at tail_at lowers tail lowers-At refl

    rows-read : decode_rows base count width pb v (length hdr) ≡ chunk_answer count pb v ts tail_at
    rows-read =
        let highs = highs_of base width ts in
        let same = length-highs_of base width ts in
        let end_ = length hdr * 8 + length uppers in
        let whole = whole_bytes hdr uppers (set_highs base width ts w0).buf upper_sets.has in
        let short = upper_sets.has.short in
        let aligned : lows_at ≡ (end_ + 7) / 8 * 8 = omega (arith, whole, short) in
        let found =
          ap (λ (n : ℕ). get_highs n v (length hdr * 8) 0) (sym same)
          ∙ get_highs-unary v highs (length hdr * 8) 0 (replicate pad false ++ (lowers ++ tail))
              (highs-Rising base width ts rising fits) uppers-At in
        let read =
          ap (λ (k : ℕ). get_lows base width highs v k) (sym aligned)
          ∙ get_lows-fixed v base width ts lows_at tail
              (in_range base width base ts (omega arith) rising fits) lowers-At in
        decode_rows-reads base count width pb v (length hdr) end_ tail_at highs ts
          (low_bits-le count (span_from base ts)) found read

    decode-read :
        (body : Bytes)
        → v ≡ hdr ++ body
        → count ≤ max_entries
        → pb ≤ 8
        → decode_ef base v ≡ chunk_answer count pb v ts tail_at
    decode-read body is small small_pb =
        let small_low = low_bits-le count (span_from base ts) in
        decode_ef-header base count width pb v (length hdr) small small_low small_pb (
          ap (λ (l : Bytes). header_from l) is
          ∙ header_from-ef_header count width pb body (omega arith) (omega arith) (omega arith))
        ∙ rows-read

  encoded-bare : (payload : Bytes) → pb ≡ 0 → encode_ef base ts payload pb ≡ w2.buf
  unfolding encode_ef
  encoded-bare payload e =
      let no_width : ltb 0 pb ≡ false = ground (arith, e) in
      ap (λ (c : Bool). (if c then put_payload pb payload w2 else w2).buf) no_width

  encoded-full :
      (payload : Bytes) → 0 < pb → encode_ef base ts payload pb ≡ (put_payload pb payload w2).buf
  unfolding encode_ef
  encoded-full payload e =
      let some_width : ltb 0 pb ≡ true = ground arith in
      ap (λ (c : Bool). (if c then put_payload pb payload w2 else w2).buf) some_width

  bytes_fit :
      (payload : Bytes)
      → pb ≤ 8
      → All (λ (p : ℕ). p < 2 ^ pb) payload
      → All (λ (p : ℕ). (p < 2 ^ pb) × (p < 256)) payload
  bytes_fit [] le a = tt
  bytes_fit (p ∷ ps) le (small, a) =
      let most = pow-le-pow_right {n = 2} (omega arith) {i = pb} {j = 8} le in
      ((small, omega (arith, small, most)), bytes_fit ps le a)

  -- Decode gives back the TxNums and the payloads that Encode was given, for at most 4096
  -- ascending TxNums from the base on, and payloads that fit a width of at most eight bits, or
  -- none at a width of zero.
  pub decode_ef-encode_ef :
      (payload : Bytes)
      → count ≤ max_entries
      → pb ≤ 8
      → PayloadFits count pb payload
      → decode_ef base (encode_ef base ts payload pb)
        ≡ decoded ts (if ltb 0 pb then some payload else none)
  decode_ef-encode_ef payload small small_pb (inl none_kept) =
      let has = w2-Puts.has in
      let read =
        decode-read w2.buf (replicate has.spare false) (bits-At hdr w2_bits w2.buf has) has.body
          has.is small small_pb in
      ap (decode_ef base) (encoded-bare payload none_kept) ∙ read ∙ ground (arith, none_kept)
  decode_ef-encode_ef payload small small_pb (inr (wide, size, a)) =
      let w3 = put_payload pb payload w2 in
      let p3 = put_payload-Puts hdr pb payload w2_bits w2 w2-Puts in
      let has = p3.has in
      let field = fixed pb payload in
      let rest = field ++ replicate has.spare false in
      let behind =
        bits-At hdr (w2_bits ++ field) w3.buf has
        ∙ append_assoc w2_bits field (replicate has.spare false) in
      let at = tail_at w3.buf rest behind in
      let kept =
        ap (λ (n : ℕ). get_payload pb n w3.buf at) (sym size)
        ∙ get_payload-fixed w3.buf pb payload at (replicate has.spare false)
            (bytes_fit payload small_pb a) (tail-At w3.buf rest behind) in
      ap (decode_ef base) (encoded-full payload wide)
      ∙ decode-read w3.buf rest behind has.body has.is small small_pb
      ∙ payload_read count pb w3.buf ts at payload wide small_pb kept
      ∙ ground arith

-- ===== src/Store/Ef/Write.antt =====
-- What the encoder's writer appends, as a string of bits behind the header.
use avalanche_s3_archival_no.Prelude.{
  ℕ, zero, suc, ◌+◌, ◌-◌, ◌*◌, ◌/◌, ◌%◌, ◌^◌, ◌≤◌, ◌<◌, ◌≡◌, refl, sym, ap, ◌∙◌, arith, ◌==◌, sub64,
  if◌then◌else◌,
}
use avalanche_s3_archival_no.Prelude.{
  Bool, true, false, List, [], ◌∷◌, ◌++◌, append-nil, append_assoc, length, length-append,
  length-replicate, replicate, ◌⊎◌, inl, inr, Bool-cases,
}
use avalanche_s3_archival_no.Prelude.Bytes.{Bytes}
use mathlib.Core.Path.{subst}
use native.Mathlib.Nat.{pow-suc, div-div-eq-div-mul}
use avalanche_s3_archival_no.Store.Ef.{
  bit_of, or_at, grow, BitWriter, based_writer, set_upper, pad_upper, put_bit, put_bits, set_highs,
  put_lows, put_payload,
}
use avalanche_s3_archival_no.Store.Ef.Bits.{bits_of}
use avalanche_s3_archival_no.Store.Ef.Read.{unary, fixed, Rising, highs_of, lows_of}
use avalanche_s3_archival_no.Store.Ef.Buffer.{HasBits, whole_bytes, one-HasBits, zero-HasBits}

-- The writer behind the upper vector.
pub record Puts (hdr : Bytes) (bs : List Bool) (w : BitWriter) : Type 0 where
  pub has : HasBits hdr bs w.buf
  pub at : w.bits ≡ length hdr * 8 + length bs

module _ (hdr : Bytes) (bs : List Bool) (w : BitWriter) (p : Puts hdr bs w) where
  abbrev place : ℕ
  place = length bs

  abbrev opened_buf : Bytes
  opened_buf = if w.bits % 8 == 0 then w.buf ++ (0 ∷ []) else w.buf

  opened-grown : opened_buf ≡ grow (length hdr + place / 8 + 1) w.buf
  opened-grown =
      let size = ap (λ (l : Bytes). length l) p.has.is in
      let sum = length-append hdr p.has.body in
      let bytes = whole_bytes hdr bs w.buf p.has in
      let short = p.has.short in
      let at = p.at in
      elim (Bool-cases (w.bits % 8 == 0)) [
        | inl full ↦
            let even : w.bits % 8 ≡ 0 = ground (arith, full) in
            let one : length hdr + place / 8 + 1 - length w.buf ≡ 1 =
              omega (arith, size, sum, bytes, at, even) in
            rw full (ap (λ (n : ℕ). w.buf ++ replicate n 0) (sym one))
        | inr part ↦
            let odd : 0 < w.bits % 8 = ground (arith, part) in
            let nothing : length hdr + place / 8 + 1 - length w.buf ≡ 0 =
              omega (arith, size, sum, bytes, at, odd) in
            rw part (sym (ap (λ (n : ℕ). w.buf ++ replicate n 0) nothing ∙ append-nil w.buf))
      ]

  put_bit-Puts : (b : Bool) → Puts hdr (bs ++ (b ∷ [])) (put_bit w b)
  unfolding put_bit
  put_bit-Puts true =
      let at = p.at in
      let index : w.bits / 8 ≡ length hdr + place / 8 = omega arith in
      let digit : w.bits % 8 ≡ place % 8 = omega arith in
      let none_between : place - length bs ≡ 0 = omega arith in
      record {
        has =
            subst (HasBits hdr (bs ++ (true ∷ [])))
              (ap (λ (l : Bytes). or_at l (length hdr + place / 8) (place % 8)) (sym opened-grown)
                ∙ ap (λ (n : ℕ). or_at opened_buf n (place % 8)) (sym index)
                ∙ ap (or_at opened_buf (w.bits / 8)) (sym digit))
              (subst
                (λ (n : ℕ). HasBits hdr (bs ++ (replicate n false ++ (true ∷ []))) (
                  or_at (grow (length hdr + place / 8 + 1) w.buf) (length hdr + place / 8)
                    (place % 8)))
                none_between (one-HasBits hdr bs w.buf place p.has (omega arith)));
        at = omega (arith, length-append bs (true ∷ []));
      }
  put_bit-Puts false = record {
    has =
        subst (HasBits hdr (bs ++ (false ∷ []))) (sym opened-grown)
          (zero-HasBits hdr bs w.buf place p.has (omega arith) refl);
    at = omega (arith, p.at, length-append bs (false ∷ []));
  }

bit_of-div : (x k : ℕ) → bit_of x k ≡ (x / 2 ^ k % 2 == 1)
bit_of-div x zero = let same : x ≡ x / 2 ^ 0 = omega arith in ap (λ (y : ℕ). y % 2 == 1) same
bit_of-div x (suc k) =
    let double : 2 * 2 ^ k ≡ 2 ^ suc k = omega (arith, pow-suc 2 k) in
    bit_of-div (x / 2) k
    ∙ ap (λ (y : ℕ). y % 2 == 1) (div-div-eq-div-mul x 2 (2 ^ k) ∙ ap (λ (m : ℕ). x / m) double)

module _ (hdr : Bytes) where
  put_bits-Puts :
      (x k n : ℕ) (bs : List Bool) (w : BitWriter)
      → Puts hdr bs w
      → Puts hdr (bs ++ bits_of n (x / 2 ^ k)) (put_bits x k n w)
  unfolding put_bits
  put_bits-Puts x k zero bs w p = rw (append-nil bs) p
  put_bits-Puts x k (suc n) bs w p =
      let q = x / 2 ^ k in
      let b = bit_of x k in
      let half : x / 2 ^ suc k ≡ q / 2 =
        ap (λ (m : ℕ). x / m) (omega (arith, pow-suc 2 k)) ∙ sym (div-div-eq-div-mul x (2 ^ k) 2) in
      subst (λ (l : List Bool). Puts hdr l (put_bits x (suc k) n (put_bit w b)))
        (append_assoc bs (b ∷ []) (bits_of n (x / 2 ^ suc k))
          ∙ ap (λ (c : Bool). bs ++ (c ∷ bits_of n (x / 2 ^ suc k))) (bit_of-div x k)
          ∙ ap (λ (y : ℕ). bs ++ ((q % 2 == 1) ∷ bits_of n y)) half)
        (put_bits-Puts x (suc k) n (bs ++ (b ∷ [])) (put_bit w b) (put_bit-Puts hdr bs w p b))

  put_bits-number :
      (x n : ℕ) (bs : List Bool) (w : BitWriter)
      → Puts hdr bs w
      → Puts hdr (bs ++ bits_of n x) (put_bits x 0 n w)
  put_bits-number x n bs w p =
      let same : x / 2 ^ 0 ≡ x = omega arith in
      subst (λ (y : ℕ). Puts hdr (bs ++ bits_of n y) (put_bits x 0 n w)) same
        (put_bits-Puts x 0 n bs w p)

  pub put_lows-Puts :
      (base low : ℕ) (ts : List ℕ) (bs : List Bool) (w : BitWriter)
      → Puts hdr bs w
      → Puts hdr (bs ++ fixed low (lows_of base low ts)) (put_lows base low ts w)
  unfolding put_lows
  put_lows-Puts base low [] bs w p = rw (append-nil bs) p
  put_lows-Puts base low (t ∷ ts) bs w p =
      let x = sub64 t base % 2 ^ low in
      rw (sym (append_assoc bs (bits_of low x) (fixed low (lows_of base low ts)))) (
        put_lows-Puts base low ts (bs ++ bits_of low x) (put_bits x 0 low w)
          (put_bits-number x low bs w p))

  pub put_payload-Puts :
      (pb : ℕ) (ps : Bytes) (bs : List Bool) (w : BitWriter)
      → Puts hdr bs w
      → Puts hdr (bs ++ fixed pb ps) (put_payload pb ps w)
  unfolding put_payload
  put_payload-Puts pb [] bs w p = rw (append-nil bs) p
  put_payload-Puts pb (x ∷ ps) bs w p = rw (sym (append_assoc bs (bits_of pb x) (fixed pb ps))) (
      put_payload-Puts pb ps (bs ++ bits_of pb x) (put_bits x 0 pb w) (put_bits-number x pb bs w p))

-- The writer in the upper vector: its base is behind the header, or not taken yet.
pub record Sets (hdr : Bytes) (bs : List Bool) (w : BitWriter) : Type 0 where
  pub has : HasBits hdr bs w.buf
  pub starts : (w.base ≡ length hdr) ⊎ ((w.base ≡ 0) × (w.buf ≡ hdr))

module _ (hdr : Bytes) (some_bytes : 0 < length hdr) where
  based :
      (bs : List Bool) (w : BitWriter)
      → Sets hdr bs w
      → ((based_writer w).base ≡ length hdr)
        × ((based_writer w).buf ≡ w.buf)
        × ((based_writer w).ones ≡ w.ones)
  based bs w s = elim s.starts [
    | inl e ↦ (ground arith, ground arith, ground arith)
    | inr (z, e) ↦
        let size = ap (λ (l : Bytes). length l) e in
        (ground (arith, size), ground arith, ground arith)
  ]

  set_upper-ones :
      (bs : List Bool) (w : BitWriter) (i : ℕ) → Sets hdr bs w → (set_upper w i).ones ≡ w.ones
  unfolding set_upper
  set_upper-ones bs w i s = (based bs w s).2

  set_upper-Sets :
      (bs : List Bool) (w : BitWriter) (i : ℕ)
      → Sets hdr bs w
      → length bs ≤ i
      → Sets hdr (bs ++ (replicate (i - length bs) false ++ (true ∷ []))) (set_upper w i)
  unfolding set_upper
  set_upper-Sets bs w i s le =
      let (base, buf, ones) = based bs w s in
      record {
        has =
            subst (HasBits hdr (bs ++ (replicate (i - length bs) false ++ (true ∷ []))))
              (ap (λ (n : ℕ). or_at (grow (n + i / 8 + 1) w.buf) (n + i / 8) (i % 8)) (sym base)
                ∙ ap
                    (λ (l : Bytes).
                      or_at (grow ((based_writer w).base + i / 8 + 1) l)
                        ((based_writer w).base + i / 8) (i % 8))
                    (sym buf))
              (one-HasBits hdr bs w.buf i s.has le);
        starts = inl base;
      }

  pub set_highs-Sets :
      (base low prev : ℕ) (ts : List ℕ) (bs : List Bool) (w : BitWriter)
      → Sets hdr bs w
      → length bs ≡ prev + w.ones
      → Rising prev (highs_of base low ts)
      → Sets hdr (bs ++ unary prev (highs_of base low ts)) (set_highs base low ts w)
  unfolding set_highs
  set_highs-Sets base low prev [] bs w s e r = rw (append-nil bs) s
  set_highs-Sets base low prev (t ∷ ts) bs w s e (le, r) =
      let h = sub64 t base / 2 ^ low in
      let i = h + w.ones in
      let gap : i - length bs ≡ h - prev = omega arith in
      let more = bs ++ (replicate (h - prev) false ++ (true ∷ [])) in
      let v = set_upper w i in
      let set : Sets hdr more v =
        subst (λ (d : ℕ). Sets hdr (bs ++ (replicate d false ++ (true ∷ []))) v) gap
          (set_upper-Sets bs w i s (omega arith)) in
      let counted : Sets hdr more (record v { ones = v.ones + 1 }) = record {
        has = set.has;
        starts = set.starts;
      } in
      let ones = set_upper-ones bs w i s in
      let size : length more ≡ h + (v.ones + 1) = omega (
        arith,
        length-append bs (replicate (h - prev) false ++ (true ∷ [])),
        length-append (replicate (h - prev) false) (true ∷ []),
        length-replicate {A = Bool} (h - prev) false,
      ) in
      subst (λ (l : List Bool). Sets hdr l (set_highs base low ts (record v { ones = v.ones + 1 })))
        (append_assoc bs (replicate (h - prev) false ++ (true ∷ []))
            (unary h (highs_of base low ts))
          ∙ ap (λ (l : List Bool). bs ++ l)
              (append_assoc (replicate (h - prev) false) (true ∷ [])
                (unary h (highs_of base low ts))))
        (set_highs-Sets base low h ts more (record v { ones = v.ones + 1 }) counted size r)

  -- The upper vector is padded with the zeros of its last byte.
  pub pad_upper-Puts :
      (bs : List Bool) (w : BitWriter) (n : ℕ) (s : Sets hdr bs w)
      → n ≡ length bs
      → Puts hdr (bs ++ replicate s.has.spare false) (pad_upper w n)
  unfolding pad_upper
  pad_upper-Puts bs w n s e =
      let (base, buf, ones) = based bs w s in
      let size = ap (λ (l : Bytes). length l) s.has.is in
      let sum = length-append hdr s.has.body in
      let bytes = whole_bytes hdr bs w.buf s.has in
      let short = s.has.short in
      let v = based_writer w in
      let same = ap (λ (l : Bytes). length l) buf in
      let nothing : v.base + (n + 7) / 8 - length v.buf ≡ 0 = omega arith in
      let kept : grow (v.base + (n + 7) / 8) v.buf ≡ w.buf =
        ap (λ (k : ℕ). v.buf ++ replicate k 0) nothing ∙ append-nil v.buf ∙ buf in
      let long = length-append bs (replicate s.has.spare false) in
      let zeros = length-replicate {A = Bool} s.has.spare false in
      let kept_size = ap (λ (l : Bytes). length l) kept in
      record {
        has = record {
          body = s.has.body;
          spare = 0;
          is = kept ∙ s.has.is;
          holds = s.has.holds ∙ sym (append-nil (bs ++ replicate s.has.spare false));
          short = omega arith;
        };
        at = omega arith;
      }

-- ===== src/Store/Ef/Read.antt =====
-- What the decoder's loops read from a string of bits.
use avalanche_s3_archival_no.Prelude.{
  ℕ, zero, suc, ◌+◌, ◌-◌, ◌*◌, ◌/◌, ◌%◌, ◌^◌, ◌≤◌, ◌<◌, ◌≡◌, refl, sym, ap, ◌∙◌, arith, sub64,
}
use avalanche_s3_archival_no.Prelude.{
  Bool, true, false, List, [], ◌∷◌, ◌++◌, append_assoc, Option, none, some, length, length-append,
  length-replicate, length-drop, replicate, All,
}
use avalanche_s3_archival_no.Prelude.Bytes.{Bytes}
use native.Mathlib.Nat.{div-add-mod', mod-lt, one-le-pow}
use avalanche_s3_archival_no.Store.Ef.{get_unary, get_highs, get_lows, get_payload}
use avalanche_s3_archival_no.Store.Ef.Bits.{
  bits_of, to_bits, length-bits_of, length-to_bits, drop-more, next_bit-at,
}
use avalanche_s3_archival_no.Store.Ef.Digits.{At, get_bits-value}

-- The bit vectors: the upper one in unary, the others at a fixed width.
abbrev pub unary : ℕ → List ℕ → List Bool
unary prev [] = []
unary prev (h ∷ hs) = replicate (h - prev) false ++ (true ∷ unary h hs)

abbrev pub fixed : ℕ → List ℕ → List Bool
fixed w [] = []
fixed w (x ∷ xs) = bits_of w x ++ fixed w xs

abbrev pub Rising : ℕ → List ℕ → Type 0
Rising prev [] = Unit
Rising prev (h ∷ hs) = (prev ≤ h) × Rising h hs

abbrev pub highs_of : ℕ → ℕ → List ℕ → List ℕ
highs_of base low [] = []
highs_of base low (t ∷ ts) = (sub64 t base / 2 ^ low) ∷ highs_of base low ts

abbrev pub lows_of : ℕ → ℕ → List ℕ → List ℕ
lows_of base low [] = []
lows_of base low (t ∷ ts) = (sub64 t base % 2 ^ low) ∷ lows_of base low ts

module _ (buf : Bytes) where
  abbrev judged : ℕ → ℕ → Option (Bool × ℕ) → Option (ℕ × ℕ)
  judged fuel hi o = elim o [
    | none ↦ none
    | some (true, at) ↦ some (hi, at)
    | some (false, at) ↦ get_unary fuel buf at (hi + 1)
  ]

  get_unary-step :
      (fuel bit hi : ℕ) (b : Bool) (rest : List Bool)
      → At buf bit (b ∷ rest)
      → get_unary (suc fuel) buf bit hi ≡ judged fuel hi (some (b, bit + 1))
  unfolding get_unary
  get_unary-step fuel bit hi b rest e = ap (judged fuel hi) (next_bit-at buf bit b rest e)

  get_unary-finds :
      (fuel bit hi d : ℕ) (rest : List Bool)
      → d < fuel
      → At buf bit (replicate d false ++ (true ∷ rest))
      → get_unary fuel buf bit hi ≡ some (hi + d, bit + (d + 1))
  get_unary-finds zero bit hi d rest lt e = absurd (omega arith)
  get_unary-finds (suc fuel) bit hi zero rest lt e =
      let same : hi ≡ hi + 0 = omega arith in
      let here : bit + 1 ≡ bit + (0 + 1) = omega arith in
      get_unary-step fuel bit hi true rest e
      ∙ ap (λ (h : ℕ). some (h, bit + 1)) same
      ∙ ap (λ (j : ℕ). some (hi + 0, j)) here
  get_unary-finds (suc fuel) bit hi (suc d) rest lt e =
      let more = replicate d false ++ (true ∷ rest) in
      let next = drop-more (to_bits buf) bit (bit + 1) (false ∷ []) more e (omega arith) in
      let same : hi + 1 + d ≡ hi + suc d = omega arith in
      let here : bit + 1 + (d + 1) ≡ bit + (suc d + 1) = omega arith in
      get_unary-step fuel bit hi false more e
      ∙ get_unary-finds fuel (bit + 1) (hi + 1) d rest (omega arith) next
      ∙ ap (λ (h : ℕ). some (h, bit + 1 + (d + 1))) same
      ∙ ap (λ (j : ℕ). some (hi + suc d, j)) here

  enough_bits : (bit : ℕ) (bs : List Bool) → At buf bit bs → length bs ≡ length buf * 8 - bit
  enough_bits bit bs e =
      sym (ap (λ (l : List Bool). length l) e)
      ∙ length-drop bit (to_bits buf)
      ∙ ap (λ (n : ℕ). n - bit) (length-to_bits buf)

  abbrev gathered : ℕ → Option (ℕ × ℕ) → Option (List ℕ × ℕ)
  gathered n o = elim o [
    | none ↦ none
    | some (h, at) ↦ elim (get_highs n buf at h) [
      | none ↦ none
      | some (hs, end_) ↦ some (h ∷ hs, end_)
    ]
  ]

  abbrev cons_high : ℕ → Option (List ℕ × ℕ) → Option (List ℕ × ℕ)
  cons_high h o = elim o [ none ↦ none | some (hs, end_) ↦ some (h ∷ hs, end_) ]

  pub get_highs-unary :
      (hs : List ℕ) (bit prev : ℕ) (rest : List Bool)
      → Rising prev hs
      → At buf bit (unary prev hs ++ rest)
      → get_highs (length hs) buf bit prev ≡ some (hs, bit + length (unary prev hs))
  unfolding get_highs
  get_highs-unary [] bit prev rest r e =
      let here : bit ≡ bit + 0 = omega arith in ap (λ (j : ℕ). some ([], j)) here
  get_highs-unary (h ∷ hs) bit prev rest (le, r) e =
      let gap = replicate (h - prev) false in
      let more = unary h hs ++ rest in
      let whole : At buf bit (gap ++ (true ∷ more)) =
        e ∙ append_assoc gap (true ∷ unary h hs) rest in
      let size = enough_bits bit (gap ++ (true ∷ more)) whole in
      let sizes = length-append gap (true ∷ more) in
      let gap_size = length-replicate {A = Bool} (h - prev) false in
      let found =
        get_unary-finds (suc (length buf * 8 - bit)) bit prev (h - prev) more
          (omega (arith, size, sizes, gap_size)) whole in
      let high : prev + (h - prev) ≡ h = omega arith in
      let at = bit + (h - prev + 1) in
      let next =
        drop-more (to_bits buf) bit at (gap ++ (true ∷ [])) more
          (whole ∙ sym (append_assoc gap (true ∷ []) more))
          (omega (arith, length-append gap (true ∷ []), gap_size)) in
      let end_ : at + length (unary h hs) ≡ bit + length (unary prev (h ∷ hs)) =
        omega (arith, length-append gap (true ∷ unary h hs), gap_size) in
      ap (gathered (length hs)) found
      ∙ ap (λ (k : ℕ). gathered (length hs) (some (k, at))) high
      ∙ ap (cons_high h) (get_highs-unary hs at h rest r next)
      ∙ ap (λ (j : ℕ). some (h ∷ hs, j)) end_

  -- The bits behind a field of fixed width.
  behind :
      (bit w x : ℕ) (xs : List ℕ) (rest : List Bool)
      → At buf bit (fixed w (x ∷ xs) ++ rest)
      → At buf bit (bits_of w x ++ (fixed w xs ++ rest)) × At buf (bit + w) (fixed w xs ++ rest)
  behind bit w x xs rest e =
      let whole = e ∙ append_assoc (bits_of w x) (fixed w xs) rest in
      (
        whole,
        drop-more (to_bits buf) bit (bit + w) (bits_of w x) (fixed w xs ++ rest) whole
            (omega (arith, length-bits_of w x)),
      )

  abbrev with_low : ℕ → ℕ → ℕ → List ℕ → Option (ℕ × ℕ) → Option (List ℕ × ℕ)
  with_low base low h hs o = elim o [
    | none ↦ none
    | some (lo, at) ↦ elim (get_lows base low hs buf at) [
      | none ↦ none
      | some (ts, end_) ↦ some (((base + h * 2 ^ low % 2 ^ 64 + lo) % 2 ^ 64) ∷ ts, end_)
    ]
  ]

  abbrev cons_num : ℕ → Option (List ℕ × ℕ) → Option (List ℕ × ℕ)
  cons_num t o = elim o [ none ↦ none | some (ts, end_) ↦ some (t ∷ ts, end_) ]

  pub get_lows-fixed :
      (base low : ℕ) (ts : List ℕ) (bit : ℕ) (rest : List Bool)
      → All (λ (t : ℕ). (base ≤ t) × (t < 2 ^ 64)) ts
      → At buf bit (fixed low (lows_of base low ts) ++ rest)
      → get_lows base low (highs_of base low ts) buf bit
        ≡ some (ts, bit + length (fixed low (lows_of base low ts)))
  unfolding get_lows
  get_lows-fixed base low [] bit rest a e =
      let here : bit ≡ bit + 0 = omega arith in ap (λ (j : ℕ). some ([], j)) here
  get_lows-fixed base low (t ∷ ts) bit rest ((le, fits), a) e =
      let d = sub64 t base in
      let x = d % 2 ^ low in
      let h = d / 2 ^ low in
      let later = highs_of base low ts in
      let (here, next) = behind bit low x (lows_of base low ts) rest e in
      let small : x < 2 ^ low = mod-lt d (one-le-pow low 2 (omega arith)) in
      let sum : (base + h * 2 ^ low % 2 ^ 64 + x) % 2 ^ 64 ≡ t =
        omega (arith, div-add-mod' d (2 ^ low)) in
      let end_ : bit + low + length (fixed low (lows_of base low ts))
          ≡ bit + length (fixed low (lows_of base low (t ∷ ts))) =
        omega (
          arith,
          length-append (bits_of low x) (fixed low (lows_of base low ts)),
          length-bits_of low x,
        ) in
      ap (with_low base low h later)
        (get_bits-value buf bit x low (fixed low (lows_of base low ts) ++ rest) small here)
      ∙ ap (cons_num ((base + h * 2 ^ low % 2 ^ 64 + x) % 2 ^ 64))
          (get_lows-fixed base low ts (bit + low) rest a next)
      ∙ ap (λ (u : ℕ). some (u ∷ ts, bit + low + length (fixed low (lows_of base low ts)))) sum
      ∙ ap (λ (j : ℕ). some (t ∷ ts, j)) end_

  abbrev with_byte : ℕ → ℕ → Option (ℕ × ℕ) → Option Bytes
  with_byte pb n o = elim o [
    | none ↦ none
    | some (p, at) ↦ elim (get_payload pb n buf at) [
      | none ↦ none
      | some ps ↦ some ((p % 256) ∷ ps)
    ]
  ]

  pub get_payload-fixed :
      (pb : ℕ) (ps : Bytes) (bit : ℕ) (rest : List Bool)
      → All (λ (p : ℕ). (p < 2 ^ pb) × (p < 256)) ps
      → At buf bit (fixed pb ps ++ rest)
      → get_payload pb (length ps) buf bit ≡ some ps
  unfolding get_payload
  get_payload-fixed pb [] bit rest a e = refl
  get_payload-fixed pb (p ∷ ps) bit rest ((small, byte), a) e =
      let (here, next) = behind bit pb p ps rest e in
      let same : p % 256 ≡ p = omega arith in
      ap (with_byte pb (length ps)) (get_bits-value buf bit p pb (fixed pb ps ++ rest) small here)
      ∙ ap
          (λ (o : Option Bytes). elim o as (λ (q : Option Bytes). Option Bytes) [
            | none ↦ none
            | some qs ↦ some ((p % 256) ∷ qs)
          ])
          (get_payload-fixed pb ps (bit + pb) rest a next)
      ∙ ap (λ (b : ℕ). some (b ∷ ps)) same

-- ===== src/Store/Ef/Upper.antt =====
-- The upper vector of ascending TxNums.
use avalanche_s3_archival_no.Prelude.{ℕ, ◌+◌, ◌-◌, ◌/◌, ◌^◌, ◌≤◌, ◌<◌, ◌≡◌, refl, arith, sub64}
use avalanche_s3_archival_no.Prelude.{
  Bool, true, false, List, [], ◌∷◌, length, length-append, length-replicate, replicate, All, ◌⊎◌,
}
use avalanche_s3_archival_no.Prelude.Bytes.{Bytes}
use native.Mathlib.Nat.{div-mul-le_self, le-div_iff_mul-le, one-le-pow, zero-div}
use avalanche_s3_archival_no.Store.Ef.{span_from, low_bits}
use avalanche_s3_archival_no.Store.Ef.Header.{len64-le}
use avalanche_s3_archival_no.Store.Ef.Read.{unary, Rising, highs_of}

-- The payload of a chunk of `n` entries at a width: none at a width of 0.
abbrev pub PayloadFits : ℕ → ℕ → Bytes → Type 0
PayloadFits n pb payload =
    (pb ≡ 0) ⊎ ((0 < pb) × (length payload ≡ n) × All (λ (p : ℕ). p < 2 ^ pb) payload)

div_mono : (a b c : ℕ) → 0 < c → a ≤ b → a / c ≤ b / c
div_mono a b c pos le =
    (le-div_iff_mul-le {k = c} {x = a / c} {y = b} pos).1 (omega (arith, div-mul-le_self a c))

pub low_bits-le : (n span : ℕ) → low_bits n span ≤ 64
low_bits-le n span = ground (arith, len64-le 64 (span / n))

module _ (base low : ℕ) where
  abbrev high : ℕ → ℕ
  high t = sub64 t base / 2 ^ low

  high_mono : (s t : ℕ) → base ≤ s → s ≤ t → t < 2 ^ 64 → high s ≤ high t
  high_mono s t le up fits =
      div_mono (sub64 s base) (sub64 t base) (2 ^ low) (one-le-pow low 2 (omega arith))
        (omega arith)

  highs_from-Rising :
      (prev : ℕ) (ts : List ℕ)
      → base ≤ prev
      → Rising prev ts
      → All (λ (t : ℕ). t < 2 ^ 64) ts
      → Rising (high prev) (highs_of base low ts)
  highs_from-Rising prev [] le r a = tt
  highs_from-Rising prev (t ∷ ts) le (up, r) (fits, a) =
      (high_mono prev t le up fits, highs_from-Rising t ts (omega arith) r a)

  pub highs-Rising :
      (ts : List ℕ)
      → Rising base ts
      → All (λ (t : ℕ). t < 2 ^ 64) ts
      → Rising 0 (highs_of base low ts)
  highs-Rising [] r a = tt
  highs-Rising (t ∷ ts) (up, r) (fits, a) = (omega arith, highs_from-Rising t ts up r a)

  pub in_range :
      (prev : ℕ) (ts : List ℕ)
      → base ≤ prev
      → Rising prev ts
      → All (λ (t : ℕ). t < 2 ^ 64) ts
      → All (λ (t : ℕ). (base ≤ t) × (t < 2 ^ 64)) ts
  in_range prev [] le r a = tt
  in_range prev (t ∷ ts) le (up, r) (fits, a) =
      ((omega arith, fits), in_range t ts (omega arith) r a)

  pub length-highs_of : (ts : List ℕ) → length (highs_of base low ts) ≡ length ts
  length-highs_of [] = refl
  length-highs_of (t ∷ ts) = omega (arith, length-highs_of ts)

  -- The upper vector is as long as `Encode` pads it.
  unary_from :
      (prev t : ℕ) (ts : List ℕ)
      → Rising prev (highs_of base low (t ∷ ts))
      → prev + length (unary prev (highs_of base low (t ∷ ts)))
        ≡ span_from base (t ∷ ts) / 2 ^ low + length (t ∷ ts)
  unary_from prev t [] (le, r) = omega (
    arith,
    length-append (replicate (high t - prev) false) (true ∷ []),
    length-replicate {A = Bool} (high t - prev) false,
  )
  unary_from prev t (u ∷ us) (le, r) =
      let later = unary (high t) (highs_of base low (u ∷ us)) in
      omega (
        arith,
        length-append (replicate (high t - prev) false) (true ∷ later),
        length-replicate {A = Bool} (high t - prev) false,
        unary_from (high t) u us r,
      )

pub upper_size :
    (base low : ℕ) (ts : List ℕ)
    → Rising 0 (highs_of base low ts)
    → span_from base ts / 2 ^ low + length ts ≡ length (unary 0 (highs_of base low ts))
upper_size base low [] r = omega (arith, zero-div (2 ^ low))
upper_size base low (t ∷ ts) r = omega (arith, unary_from base low 0 t ts r)

-- ===== src/Store/Ef/Digits.antt =====
-- A number and its bits: what `get` reads at a position.
use avalanche_s3_archival_no.Prelude.{
  ℕ, zero, suc, ◌+◌, ◌*◌, ◌/◌, ◌%◌, ◌^◌, ◌<◌, ◌≡◌, refl, sym, ap, ◌∙◌, arith, ◌==◌, if◌then◌else◌,
}
use avalanche_s3_archival_no.Prelude.{Bool, List, [], ◌∷◌, ◌++◌, Option, none, some, drop}
use avalanche_s3_archival_no.Prelude.Bytes.{Bytes}
use native.Mathlib.Nat.{pow-suc, div-div-eq-div-mul, div-add-mod', mod-lt, mod-eq_of_lt, one-le-pow}
use avalanche_s3_archival_no.Store.Ef.{or_bit, get_bits}
use avalanche_s3_archival_no.Store.Ef.Bits.{bits_of, to_bits, drop-more, next_bit-at}

-- The next bits of a buffer from a position on.
abbrev pub At : Bytes → ℕ → List Bool → Type 0
At buf bit bs = drop bit (to_bits buf) ≡ bs

pub or_bit-top : (x k : ℕ) → x < 2 ^ k → or_bit x k ≡ x + 2 ^ k
or_bit-top x zero h = ground arith
or_bit-top x (suc k) h =
    omega (arith, or_bit-top (x / 2) k (omega (arith, pow-suc 2 k)), pow-suc 2 k)

-- The digit at `k` of a number, above its lower part.
high_digits : (x k : ℕ) → x / 2 ^ suc k ≡ x / 2 ^ k / 2
high_digits x k =
    let double : 2 ^ suc k ≡ 2 ^ k * 2 = omega (arith, pow-suc 2 k) in
    ap (λ (t : ℕ). x / t) double ∙ sym (div-div-eq-div-mul x (2 ^ k) 2)

low_digit : (x k : ℕ) → x % 2 ^ suc k ≡ x % 2 ^ k + x / 2 ^ k % 2 * 2 ^ k
low_digit x k =
    let q = x / 2 ^ k in
    let halves : q ≡ q / 2 * 2 + q % 2 = omega arith in
    omega (
      arith,
      div-add-mod' x (2 ^ k),
      div-add-mod' x (2 ^ suc k),
      ap (λ (t : ℕ). t * 2 ^ suc k) (high_digits x k),
      ap (λ (t : ℕ). q / 2 * t) (pow-suc 2 k),
      ap (λ (t : ℕ). t * 2 ^ k) halves,
    )

digit_in :
    (x k : ℕ) → (if x / 2 ^ k % 2 == 1 then or_bit (x % 2 ^ k) k else x % 2 ^ k) ≡ x % 2 ^ suc k
digit_in x k =
    let small : x % 2 ^ k < 2 ^ k = mod-lt x (one-le-pow k 2 (omega arith)) in
    ground (arith, or_bit-top (x % 2 ^ k) k small, low_digit x k)

module _ (buf : Bytes) where
  get_bits-done : (bit x k : ℕ) → get_bits buf bit x k 0 ≡ some (x, bit)
  unfolding get_bits
  get_bits-done bit x k = refl

  get_bits-step :
      (bit x k n : ℕ) (b : Bool) (rest : List Bool)
      → At buf bit (b ∷ rest)
      → get_bits buf bit x k (suc n)
        ≡ get_bits buf (bit + 1) (if b then or_bit x k else x) (suc k) n
  unfolding get_bits
  get_bits-step bit x k n b rest e =
      ap
        (λ (o : Option (Bool × ℕ)). elim o as (λ (p : Option (Bool × ℕ)). Option (ℕ × ℕ)) [
          | none ↦ none
          | some (c, at) ↦ get_bits buf at (if c then or_bit x k else x) (suc k) n
        ])
        (next_bit-at buf bit b rest e)

  get_bits-from :
      (bit x k n : ℕ) (rest : List Bool)
      → At buf bit (bits_of n (x / 2 ^ k) ++ rest)
      → get_bits buf bit (x % 2 ^ k) k n ≡ some (x % 2 ^ (k + n), bit + n)
  get_bits-from bit x k zero rest e =
      let same : k ≡ k + 0 = omega arith in
      let here : bit ≡ bit + 0 = omega arith in
      get_bits-done bit (x % 2 ^ k) k
      ∙ ap (λ (j : ℕ). some (x % 2 ^ j, bit)) same
      ∙ ap (λ (j : ℕ). some (x % 2 ^ (k + 0), j)) here
  get_bits-from bit x k (suc n) rest e =
      let q = x / 2 ^ k in
      let next =
        drop-more (to_bits buf) bit (bit + 1) ((q % 2 == 1) ∷ []) (bits_of n (q / 2) ++ rest) e
          (omega arith) in
      let shifted = ap (λ (y : ℕ). bits_of n y ++ rest) (sym (high_digits x k)) in
      let sum : suc k + n ≡ k + suc n = omega arith in
      let end_ : bit + 1 + n ≡ bit + suc n = omega arith in
      get_bits-step bit (x % 2 ^ k) k n (q % 2 == 1) (bits_of n (q / 2) ++ rest) e
      ∙ ap (λ (y : ℕ). get_bits buf (bit + 1) y (suc k) n) (digit_in x k)
      ∙ get_bits-from (bit + 1) x (suc k) n rest (next ∙ shifted)
      ∙ ap (λ (j : ℕ). some (x % 2 ^ j, bit + 1 + n)) sum
      ∙ ap (λ (j : ℕ). some (x % 2 ^ (k + suc n), j)) end_

  -- `get` reads the number that the bits are.
  pub get_bits-value :
      (bit x n : ℕ) (rest : List Bool)
      → x < 2 ^ n
      → At buf bit (bits_of n x ++ rest)
      → get_bits buf bit 0 0 n ≡ some (x, bit + n)
  get_bits-value bit x n rest fits e =
      let whole : x / 2 ^ 0 ≡ x = omega arith in
      let none_yet : 0 ≡ x % 2 ^ 0 = omega arith in
      let all : 0 + n ≡ n = omega arith in
      ap (λ (y : ℕ). get_bits buf bit y 0 n) none_yet
      ∙ get_bits-from bit x 0 n rest (e ∙ ap (λ (y : ℕ). bits_of n y ++ rest) (sym whole))
      ∙ ap (λ (j : ℕ). some (x % 2 ^ j, bit + n)) all
      ∙ ap (λ (y : ℕ). some (y, bit + n)) (mod-eq_of_lt fits)

-- ===== src/Store/Ef/Bits.antt =====
-- Byte strings as strings of bits, the lowest bit of a byte first.
use avalanche_s3_archival_no.Prelude.{
  ℕ, zero, suc, ◌+◌, ◌-◌, ◌*◌, ◌/◌, ◌%◌, ◌<◌, ◌≡◌, refl, sym, ap, ◌∙◌, arith, ◌==◌,
}
use avalanche_s3_archival_no.Prelude.{
  Bool, true, false, List, [], ◌∷◌, ◌++◌, Option, none, some, length, length-append, drop,
  replicate,
}
use avalanche_s3_archival_no.Prelude.Bytes.{Bytes}
use native.Mathlib.Decide.{dec_lt}
use avalanche_s3_archival_no.Store.Ef.{bit_of, or_bit, or_at, byte_of, next_bit}

abbrev pub bits_of : ℕ → ℕ → List Bool
bits_of zero x = []
bits_of (suc w) x = (x % 2 == 1) ∷ bits_of w (x / 2)

abbrev pub to_bits : Bytes → List Bool
to_bits [] = []
to_bits (b ∷ bs) = bits_of 8 b ++ to_bits bs

abbrev pub set_true : ℕ → List Bool → List Bool
set_true i [] = []
set_true zero (b ∷ bs) = true ∷ bs
set_true (suc i) (b ∷ bs) = b ∷ set_true i bs

pub length-bits_of : (w x : ℕ) → length (bits_of w x) ≡ w
length-bits_of zero x = refl
length-bits_of (suc w) x = omega (arith, length-bits_of w (x / 2))

pub length-to_bits : (bs : Bytes) → length (to_bits bs) ≡ length bs * 8
length-to_bits [] = refl
length-to_bits (b ∷ bs) = omega (arith, length-append (bits_of 8 b) (to_bits bs), length-to_bits bs)

pub to_bits-append : (xs ys : Bytes) → to_bits (xs ++ ys) ≡ to_bits xs ++ to_bits ys
to_bits-append [] ys = refl
to_bits-append (x ∷ xs) ys = ap (λ (l : List Bool). bits_of 8 x ++ l) (to_bits-append xs ys)

pub to_bits-zeros : (n : ℕ) → to_bits (replicate n 0) ≡ replicate (n * 8) false
to_bits-zeros zero = refl
to_bits-zeros (suc n) =
    let more : suc n * 8 ≡ suc (suc (suc (suc (suc (suc (suc (suc (n * 8)))))))) = omega arith in
    ap (λ (l : List Bool). bits_of 8 0 ++ l) (to_bits-zeros n)
    ∙ ap (λ (k : ℕ). replicate k false) (sym more)

bits_of-or_bit : (w x j : ℕ) → bits_of w (or_bit x j) ≡ set_true j (bits_of w x)
bits_of-or_bit zero x j = refl
bits_of-or_bit (suc w) x zero =
    let odd : (or_bit x 0 % 2 == 1) ≡ true = ground arith in
    let half : or_bit x 0 / 2 ≡ x / 2 = ground arith in
    ap (λ (b : Bool). b ∷ bits_of w (or_bit x 0 / 2)) odd ∙ ap (λ (y : ℕ). true ∷ bits_of w y) half
bits_of-or_bit (suc w) x (suc j) =
    let y = or_bit (x / 2) j in
    let odd : (y * 2 + x % 2) % 2 ≡ x % 2 = omega arith in
    let half : (y * 2 + x % 2) / 2 ≡ y = omega arith in
    ap (λ (r : ℕ). (r == 1) ∷ bits_of w ((y * 2 + x % 2) / 2)) odd
    ∙ ap (λ (z : ℕ). (x % 2 == 1) ∷ bits_of w z) half
    ∙ ap (λ (l : List Bool). (x % 2 == 1) ∷ l) (bits_of-or_bit w (x / 2) j)

set_true-left :
    (i : ℕ) (xs ys : List Bool) → i < length xs → set_true i (xs ++ ys) ≡ set_true i xs ++ ys
set_true-left i [] ys h = absurd (omega arith)
set_true-left zero (x ∷ xs) ys h = refl
set_true-left (suc i) (x ∷ xs) ys h =
    ap (λ (l : List Bool). x ∷ l) (set_true-left i xs ys (omega arith))

pub set_true-right :
    (xs ys : List Bool) (n i : ℕ) → n ≡ length xs + i → set_true n (xs ++ ys) ≡ xs ++ set_true i ys
set_true-right [] ys n i e = ap (λ (k : ℕ). set_true k ys) (omega arith)
set_true-right (x ∷ xs) ys zero i e = absurd (omega arith)
set_true-right (x ∷ xs) ys (suc n) i e =
    ap (λ (l : List Bool). x ∷ l) (set_true-right xs ys n i (omega arith))

pub to_bits-or_at :
    (buf : Bytes) (k j : ℕ) → j < 8 → to_bits (or_at buf k j) ≡ set_true (k * 8 + j) (to_bits buf)
unfolding or_at
to_bits-or_at [] k j h = refl
to_bits-or_at (b ∷ bs) zero j h =
    ap (λ (l : List Bool). l ++ to_bits bs) (bits_of-or_bit 8 b j)
    ∙ sym (set_true-left j (bits_of 8 b) (to_bits bs) h)
    ∙ ap (λ (i : ℕ). set_true i (to_bits (b ∷ bs))) (omega arith)
to_bits-or_at (b ∷ bs) (suc k) j h =
    ap (λ (l : List Bool). bits_of 8 b ++ l) (to_bits-or_at bs k j h)
    ∙ sym (set_true-right (bits_of 8 b) (to_bits bs) (suc k * 8 + j) (k * 8 + j) (omega arith))

pub set_true-zeros :
    (d z : ℕ)
    → d < z
    → set_true d (replicate z false) ≡ replicate d false ++ (true ∷ replicate (z - d - 1) false)
set_true-zeros d zero h = absurd (omega arith)
set_true-zeros zero (suc z) h = ap (λ (k : ℕ). true ∷ replicate k false) (omega arith)
set_true-zeros (suc d) (suc z) h =
    ap (λ (l : List Bool). false ∷ l) (set_true-zeros d z (omega arith))
    ∙ ap (λ (k : ℕ). false ∷ (replicate d false ++ (true ∷ replicate k false))) (omega arith)

pub replicate-append : (a b : ℕ) → replicate a false ++ replicate b false ≡ replicate (a + b) false
replicate-append zero b =
    let same : b ≡ 0 + b = omega arith in ap (λ (k : ℕ). replicate k false) same
replicate-append (suc a) b =
    let same : suc (a + b) ≡ suc a + b = omega arith in
    ap (λ (l : List Bool). false ∷ l) (replicate-append a b)
    ∙ ap (λ (k : ℕ). replicate k false) same

-- Reading at a position.
drop-bits_of :
    (w x j : ℕ) (rest : List Bool)
    → j < w
    → drop j (bits_of w x ++ rest) ≡ bit_of x j ∷ drop (suc j) (bits_of w x ++ rest)
drop-bits_of zero x j rest h = absurd (omega arith)
drop-bits_of (suc w) x zero rest h = refl
drop-bits_of (suc w) x (suc j) rest h = drop-bits_of w (x / 2) j rest (omega arith)

pub drop-past {ℓ} :
    {A : Type ℓ} (xs ys : List A) (k n : ℕ) → k ≡ length xs + n → drop k (xs ++ ys) ≡ drop n ys
drop-past [] ys k n e = ap (λ (i : ℕ). drop i ys) (omega arith)
drop-past (x ∷ xs) ys zero n e = absurd (omega arith)
drop-past (x ∷ xs) ys (suc k) n e = drop-past xs ys k n (omega arith)

pub drop-more {ℓ} :
    {A : Type ℓ} (l : List A) (k n : ℕ) (xs ys : List A)
    → drop k l ≡ xs ++ ys
    → n ≡ k + length xs
    → drop n l ≡ ys
drop-more l zero n xs ys e h = ap (drop n) e ∙ drop-past xs ys n 0 (omega arith)
drop-more [] (suc k) zero [] ys e h = absurd (omega arith)
drop-more [] (suc k) (suc n) [] ys e h = e
drop-more [] (suc k) n (x ∷ xs) ys e h = absurd (cc)
drop-more (y ∷ l) (suc k) zero xs ys e h = absurd (omega arith)
drop-more (y ∷ l) (suc k) (suc n) xs ys e h = drop-more l k n xs ys e (omega arith)

bit_there :
    (buf : Bytes) (bit : ℕ) (b : Bool) (rest : List Bool)
    → drop bit (to_bits buf) ≡ b ∷ rest
    → (x : ℕ) × (byte_of buf (bit / 8) ≡ some x) × (bit_of x (bit % 8) ≡ b)
bit_there [] zero b rest e = absurd (cc)
bit_there [] (suc bit) b rest e = absurd (cc)
bit_there (x ∷ xs) bit b rest e = elim (dec_lt bit 8) [
  | yes low ↦
      let first : bit / 8 ≡ 0 = omega arith in
      let same : bit % 8 ≡ bit = omega arith in
      let read = drop-bits_of 8 x bit (to_bits xs) low in
      let is : bit_of x bit ≡ b = cc in (x, ap (byte_of (x ∷ xs)) first, ap (bit_of x) same ∙ is)
  | no high ↦
      let next : bit / 8 ≡ suc ((bit - 8) / 8) = omega arith in
      let same : bit % 8 ≡ (bit - 8) % 8 = omega arith in
      let past = drop-past (bits_of 8 x) (to_bits xs) bit (bit - 8) (omega arith) in
      let (y, there, is) = bit_there xs (bit - 8) b rest (sym past ∙ e) in
      (y, ap (byte_of (x ∷ xs)) next ∙ there, ap (bit_of y) same ∙ is)
]

pub next_bit-at :
    (buf : Bytes) (bit : ℕ) (b : Bool) (rest : List Bool)
    → drop bit (to_bits buf) ≡ b ∷ rest
    → next_bit buf bit ≡ some (b, bit + 1)
unfolding next_bit
next_bit-at buf bit b rest e =
    let (x, there, is) = bit_there buf bit b rest e in
    ap
      (λ (o : Option ℕ). elim o as (λ (p : Option ℕ). Option (Bool × ℕ)) [
        | none ↦ none
        | some y ↦ some (bit_of y (bit % 8), bit + 1)
      ])
      there
    ∙ ap (λ (c : Bool). some (c, bit + 1)) is

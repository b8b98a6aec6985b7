-- ===== src/Prelude/Bytes.antt =====
-- Byte strings: Go's `[]byte` and `string` as lists of numbers, with the comparisons of package
-- bytes and the fixed-width big-endian writer of encoding/binary.
use Prim.Native.Nat.{ℕ, zero, suc, ◌+◌, ◌*◌, ◌/◌, ◌%◌, ◌^◌, ◌<◌}
use mathlib.Core.Path.{◌≡◌, refl, ap, sym, ◌∙◌}
use mathlib.Core.Bool.{Bool, true, false, ◌&&◌}
use mathlib.Core.List.{List, [], ◌∷◌, ◌++◌}
use mathlib.Core.Logic.{◌↔◌}
use native.Mathlib.Nat.{pow-suc}
use native.Mathlib.Omega.{arith}
use avalanche_s3_archival_no.Prelude.Tests.{ltb, ◌==◌, if◌then◌else◌}
use avalanche_s3_archival_no.Prelude.Lists.{length, length-append, take, drop}

abbrev pub Bytes : Type 0
Bytes = List ℕ

-- bytes.Equal
unfoldable pub beq : Bytes → Bytes → Bool
beq [] [] = true
beq [] (y ∷ ys) = false
beq (x ∷ xs) [] = false
beq (x ∷ xs) (y ∷ ys) = (x == y) && beq xs ys

pub beq_iff : (a b : Bytes) → (beq a b ≡ true) ↔ (a ≡ b)
unfolding beq
beq_iff [] [] = (λ h. refl, λ h. refl)
beq_iff [] (y ∷ ys) = (λ h. cc, λ h. cc)
beq_iff (x ∷ xs) [] = (λ h. cc, λ h. cc)
beq_iff (x ∷ xs) (y ∷ ys) = (λ h. ground (arith, beq_iff xs ys), λ h. ground (arith, beq_iff xs ys))

-- bytes.HasPrefix
unfoldable pub has_prefix : Bytes → Bytes → Bool
has_prefix k [] = true
has_prefix [] (p ∷ ps) = false
has_prefix (x ∷ xs) (p ∷ ps) = (x == p) && has_prefix xs ps

pub has_prefix-append : (p rest : Bytes) → has_prefix (p ++ rest) p ≡ true
unfolding has_prefix
has_prefix-append [] rest = refl
has_prefix-append (x ∷ p) rest = ground (arith, has_prefix-append p rest)

-- What follows a prefix that is there.
pub has_prefix→append : (k p : Bytes) → has_prefix k p ≡ true → k ≡ p ++ drop (length p) k
unfolding has_prefix
has_prefix→append k [] h = refl
has_prefix→append [] (p ∷ ps) h = cc
has_prefix→append (x ∷ xs) (p ∷ ps) h = ground (arith, has_prefix→append xs ps)

-- bytes.Compare(a, b) < 0
unfoldable pub blt : Bytes → Bytes → Bool
blt [] [] = false
blt [] (y ∷ ys) = true
blt (x ∷ xs) [] = false
blt (x ∷ xs) (y ∷ ys) = let rest = blt xs ys in if x == y then rest else ltb x y

pub blt-append : (p xs ys : Bytes) → blt (p ++ xs) (p ++ ys) ≡ blt xs ys
unfolding blt
blt-append [] xs ys = refl
blt-append (x ∷ p) xs ys = ground (arith, blt-append p xs ys)

-- The `w` big-endian bytes of `n`, as PutUint64, PutUint32 and PutUint16 write them.
unfoldable pub be : ℕ → ℕ → Bytes
be zero n = []
be (suc w) n = be w (n / 256) ++ (n % 256 ∷ [])

-- The value of a big-endian byte string in a uint64.
unfoldable pub be_value : ℕ → Bytes → ℕ
be_value acc [] = acc
be_value acc (c ∷ cs) = be_value (acc * 256 % 2 ^ 64 + c) cs

be_value-snoc :
    (acc : ℕ) (xs : Bytes) (c : ℕ)
    → be_value acc (xs ++ (c ∷ [])) ≡ be_value acc xs * 256 % 2 ^ 64 + c
unfolding be_value
be_value-snoc acc [] c = refl
be_value-snoc acc (x ∷ xs) c = be_value-snoc (acc * 256 % 2 ^ 64 + x) xs c

pub be_value-be : (w n : ℕ) → n < 256 ^ w → n < 2 ^ 64 → be_value 0 (be w n) ≡ n
unfolding be
be_value-be zero n h k = unfold be_value in omega arith
be_value-be (suc w) n h k = omega (
  arith,
  be_value-snoc 0 (be w (n / 256)) (n % 256),
  be_value-be w (n / 256) (omega (arith, pow-suc 256 w)) (omega arith),
)

pub length-be : (w n : ℕ) → length (be w n) ≡ w
unfolding be
length-be zero n = refl
length-be (suc w) n =
    omega (arith, length-append (be w (n / 256)) (n % 256 ∷ []), length-be w (n / 256))

blt-snoc :
    (xs ys : Bytes) (c d : ℕ)
    → length xs ≡ length ys
    → blt (xs ++ (c ∷ [])) (ys ++ (d ∷ [])) ≡ (if beq xs ys then ltb c d else blt xs ys)
unfolding blt beq
blt-snoc [] [] c d h = ground arith
blt-snoc [] (y ∷ ys) c d h = absurd (omega arith)
blt-snoc (x ∷ xs) [] c d h = absurd (omega arith)
blt-snoc (x ∷ xs) (y ∷ ys) c d h = ground (arith, blt-snoc xs ys c d (omega arith))

-- A fixed-width big-endian number determines the number, below the width's bound.
pub be-injective :
    (w a b : ℕ) → a < 256 ^ w → b < 256 ^ w → a < 2 ^ 64 → b < 2 ^ 64 → be w a ≡ be w b → a ≡ b
be-injective w a b ha hb ka kb e =
    sym (be_value-be w a ha ka) ∙ ap (be_value 0) e ∙ be_value-be w b hb kb

-- Byte order on fixed-width big-endian numbers is the order of the numbers.
pub blt-be :
    (w a b : ℕ)
    → a < 256 ^ w
    → b < 256 ^ w
    → a < 2 ^ 64
    → b < 2 ^ 64
    → blt (be w a) (be w b) ≡ ltb a b
unfolding be
blt-be zero a b ha hb ka kb = unfold blt in ground arith
blt-be (suc w) a b ha hb ka kb = ground (
  arith,
  blt-snoc (be w (a / 256)) (be w (b / 256)) (a % 256) (b % 256),
  length-be w (a / 256),
  length-be w (b / 256),
  beq_iff (be w (a / 256)) (be w (b / 256)),
  pow-suc 256 w,
  be-injective w (a / 256) (b / 256),
  blt-be w (a / 256) (b / 256),
  ap (be w),
)

-- s[:n] and s[n:] past a part of known length
module _ {ℓ} {A : Type ℓ} where
  pub take-append : (xs ys : List A) (n : ℕ) → length xs ≡ n → take n (xs ++ ys) ≡ xs
  take-append [] ys zero h = refl
  take-append [] ys (suc n) h = absurd (omega arith)
  take-append (x ∷ xs) ys zero h = absurd (omega arith)
  take-append (x ∷ xs) ys (suc n) h = ap (λ r. x ∷ r) (take-append xs ys n (omega arith))

  pub drop-append : (xs ys : List A) (n : ℕ) → length xs ≡ n → drop n (xs ++ ys) ≡ ys
  drop-append [] ys zero h = refl
  drop-append [] ys (suc n) h = absurd (omega arith)
  drop-append (x ∷ xs) ys zero h = absurd (omega arith)
  drop-append (x ∷ xs) ys (suc n) h = drop-append xs ys n (omega arith)

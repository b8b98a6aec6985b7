-- ===== src/Prelude/Lists.antt =====
-- Lists measured and indexed by native numbers, under the library's names.
use Prim.Native.Nat.{ℕ, zero, suc, ◌+◌, ◌-◌, ◌<◌}
use mathlib.Core.Path.{◌≡◌, refl, ap}
use mathlib.Core.List.{List, [], ◌∷◌, ◌++◌}
use mathlib.Core.Option.{Option, none, some}
use native.Mathlib.Omega.{arith}

module _ {ℓ} {A : Type ℓ} where
  abbrev pub length : List A → ℕ
  length [] = 0
  length (x ∷ xs) = suc (length xs)

  abbrev pub get_elem? : List A → ℕ → Option A
  get_elem? [] i = none
  get_elem? (x ∷ xs) zero = some x
  get_elem? (x ∷ xs) (suc i) = get_elem? xs i

  pub length-append : (xs ys : List A) → length (xs ++ ys) ≡ length xs + length ys
  length-append [] ys = omega arith
  length-append (x ∷ xs) ys = omega (arith, length-append xs ys)

module _ {ℓ} {A : Type ℓ} where
  abbrev pub take : ℕ → List A → List A
  take zero xs = []
  take (suc n) [] = []
  take (suc n) (x ∷ xs) = x ∷ take n xs

  abbrev pub drop : ℕ → List A → List A
  drop zero xs = xs
  drop (suc n) [] = []
  drop (suc n) (x ∷ xs) = drop n xs

  abbrev pub replicate : ℕ → A → List A
  replicate zero a = []
  replicate (suc n) a = a ∷ replicate n a

  pub length-drop : (n : ℕ) (xs : List A) → length (drop n xs) ≡ length xs - n
  length-drop zero xs = omega arith
  length-drop (suc n) [] = omega arith
  length-drop (suc n) (x ∷ xs) = omega (arith, length-drop n xs)

  pub length-replicate : (n : ℕ) (a : A) → length (replicate n a) ≡ n
  length-replicate zero a = refl
  length-replicate (suc n) a = ap suc (length-replicate n a)

module _ {ℓ} {A : Type ℓ} where
  pub get_elem?-append_right :
      (xs ys : List A) (n i : ℕ) → n ≡ length xs + i → get_elem? (xs ++ ys) n ≡ get_elem? ys i
  get_elem?-append_right [] ys n i h = ap (get_elem? ys) (omega arith)
  get_elem?-append_right (x ∷ xs) ys zero i h = absurd (omega arith)
  get_elem?-append_right (x ∷ xs) ys (suc n) i h = get_elem?-append_right xs ys n i (omega arith)

  pub get_elem?-append_left :
      (xs ys : List A) (n : ℕ) → n < length xs → get_elem? (xs ++ ys) n ≡ get_elem? xs n
  get_elem?-append_left [] ys n h = elim h [ ]
  get_elem?-append_left (x ∷ xs) ys zero h = refl
  get_elem?-append_left (x ∷ xs) ys (suc n) h = get_elem?-append_left xs ys n (omega arith)

  -- Two lists that agree behind parts of one length agree in both parts.
  pub append-injective :
      (xs ys : List A) {us vs : List A}
      → length xs ≡ length ys
      → xs ++ us ≡ ys ++ vs
      → (xs ≡ ys) × (us ≡ vs)
  append-injective [] [] h e = (refl, e)
  append-injective [] (y ∷ ys) h e = absurd (omega arith)
  append-injective (x ∷ xs) [] h e = absurd (omega arith)
  append-injective (x ∷ xs) (y ∷ ys) {us} {vs} h e =
      let (p, q) = append-injective xs ys {us = us} {vs = vs} (omega arith) (cc) in (cc, q)

abbrev pub All {ℓ κ} : {A : Type ℓ} → (A → Type κ) → List A → Type κ
All P [] = Unit
All P (x ∷ xs) = P x × All P xs

pub All-append {ℓ κ} :
    {A : Type ℓ} (P : A → Type κ) (xs ys : List A) → All P xs → All P ys → All P (xs ++ ys)
All-append P [] ys a b = b
All-append P (x ∷ xs) ys (p, a) b = (p, All-append P xs ys a b)

abbrev pub last? {ℓ} : {A : Type ℓ} → List A → Option A
last? [] = none
last? (x ∷ []) = some x
last? (x ∷ y ∷ xs) = last? (y ∷ xs)

pub last?-cases {ℓ} : {A : Type ℓ} (x : A) (xs : List A) → (z : A) × (last? (x ∷ xs) ≡ some z)
last?-cases x [] = (x, refl)
last?-cases x (y ∷ xs) = last?-cases y xs

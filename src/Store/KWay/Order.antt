-- ===== src/Store/KWay/Order.antt =====
-- Byte order as a total order, and the search for a key in rows that are in order.
use avalanche_s3_archival_no.Prelude.{◌≡◌, refl, arith, if◌then◌else◌}
use avalanche_s3_archival_no.Prelude.{
  true, false, List, [], ◌∷◌, Option, none, some, All, inl, inr, Bool-cases,
}
use avalanche_s3_archival_no.Prelude.Bytes.{Bytes, beq, beq_iff, blt}
use avalanche_s3_archival_no.Store.Run.{Row}
use avalanche_s3_archival_no.Store.Run.Order.{blt_trans, blt_irrefl}

-- What is not below, and not below that, is not below.
pub not_below_trans : (a b c : Bytes) → blt a b ≡ false → blt b c ≡ false → blt a c ≡ false
unfolding blt
not_below_trans [] b [] h k = refl
not_below_trans [] [] (z ∷ c) h k = absurd (cc)
not_below_trans [] (y ∷ b) (z ∷ c) h k = absurd (cc)
not_below_trans (x ∷ a) b [] h k = refl
not_below_trans (x ∷ a) [] (z ∷ c) h k = absurd (cc)
not_below_trans (x ∷ a) (y ∷ b) (z ∷ c) h k = ground (arith, not_below_trans a b c)

pub below-not_below : (a b c : Bytes) → blt a b ≡ true → blt c b ≡ false → blt a c ≡ true
below-not_below a b c h k = elim (Bool-cases (blt a c)) [
  | inl below ↦ below
  | inr not_below ↦ let no = not_below_trans a c b not_below k in absurd (cc)
]

pub blt-asym : (a b : Bytes) → blt a b ≡ true → blt b a ≡ false
blt-asym a b h = elim (Bool-cases (blt b a)) [
  | inr above ↦ above
  | inl back ↦ let loop = blt_trans a b a h back in let never = blt_irrefl a in absurd (cc)
]

pub blt-connected : (a b : Bytes) → blt a b ≡ false → blt b a ≡ false → a ≡ b
unfolding blt
blt-connected [] [] h k = refl
blt-connected [] (y ∷ b) h k = absurd (cc)
blt-connected (x ∷ a) [] h k = absurd (cc)
blt-connected (x ∷ a) (y ∷ b) h k = ground (arith, blt-connected a b)

-- The value of a key, in the first row that has it.
unfoldable pub find_key : Bytes → List Row → Option Bytes
find_key k [] = none
find_key k (r ∷ rs) = let rest = find_key k rs in if beq r.key k then some r.val else rest

pub find_key-below :
    (k : Bytes) (rs : List Row) → All (λ (r : Row). blt k r.key ≡ true) rs → find_key k rs ≡ none
unfolding find_key
find_key-below k [] a = refl
find_key-below k (r ∷ rs) (p, a) =
    ground (arith, find_key-below k rs a, beq_iff r.key k, blt_irrefl k)

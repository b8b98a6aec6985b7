-- ===== src/Store/Run/Order.antt =====
-- Byte order, keys outside a prefix, and rows that are in order.
use avalanche_s3_archival_no.Prelude.{◌≡◌, refl, arith}
use avalanche_s3_archival_no.Prelude.{true, false, List, [], ◌∷◌, ◌++◌, length, take, All}
use avalanche_s3_archival_no.Prelude.Bytes.{Bytes, beq, blt, has_prefix}
use avalanche_s3_archival_no.Store.Run.{Row}

pub blt_trans : (a b c : Bytes) → blt a b ≡ true → blt b c ≡ true → blt a c ≡ true
unfolding blt
blt_trans [] [] c h k = cc
blt_trans [] (y ∷ b) [] h k = cc
blt_trans [] (y ∷ b) (z ∷ c) h k = refl
blt_trans (x ∷ a) [] c h k = absurd (cc)
blt_trans (x ∷ a) (y ∷ b) [] h k = absurd (cc)
blt_trans (x ∷ a) (y ∷ b) (z ∷ c) h k = ground (arith, blt_trans a b c)

pub blt_irrefl : (a : Bytes) → blt a a ≡ false
unfolding blt
blt_irrefl [] = refl
blt_irrefl (x ∷ a) = ground (arith, blt_irrefl a)

-- A key that does not have a prefix lies on one side of all that have it.
pub blt-outside : (k p x y : Bytes) → has_prefix k p ≡ false → blt k (p ++ x) ≡ blt k (p ++ y)
unfolding has_prefix blt
blt-outside k [] x y h = absurd (cc)
blt-outside [] (c ∷ p) x y h = refl
blt-outside (z ∷ k) (c ∷ p) x y h = ground (arith, blt-outside k p x y)

pub take-outside : (k p : Bytes) → has_prefix k p ≡ false → beq (take (length p) k) p ≡ false
unfolding has_prefix beq
take-outside k [] h = absurd (cc)
take-outside [] (c ∷ p) h = refl
take-outside (z ∷ k) (c ∷ p) h = ground (arith, take-outside k p)

pub take-inside : (p x : Bytes) → beq (take (length p) (p ++ x)) p ≡ true
unfolding beq
take-inside [] x = refl
take-inside (c ∷ p) x = ground (arith, take-inside p x)

-- The rows of a sorted table: each below all that follow it.
abbrev pub Above : Row → Row → Type 0
Above r x = blt r.key x.key ≡ true

abbrev pub Sorted : List Row → Type 0
Sorted [] = Unit
Sorted (r ∷ rs) = All (Above r) rs × Sorted rs

-- ===== src/Prelude/Map.antt =====
-- Go's maps keyed by byte strings, as association lists without a second entry for a key.
use Prim.Native.Nat.{ℕ, ◌+◌, ◌≤◌}
use mathlib.Core.Path.{◌≡◌, refl}
use mathlib.Core.List.{List, [], ◌∷◌}
use mathlib.Core.Option.{Option, none, some}
use native.Mathlib.Omega.{arith}
use avalanche_s3_archival_no.Prelude.Tests.{if◌then◌else◌}
use avalanche_s3_archival_no.Prelude.Bytes.{Bytes, beq, beq_iff}

abbrev pub Map {ℓ} : Type ℓ → Type ℓ
Map V = List (Bytes × V)

module _ {ℓ} {V : Type ℓ} where
  unfoldable pub lookup : Bytes → Map V → Option V
  lookup k [] = none
  lookup k ((j, v) ∷ m) = if beq j k then some v else lookup k m

  unfoldable pub insert : Bytes → V → Map V → Map V
  insert k v [] = (k, v) ∷ []
  insert k v ((j, w) ∷ m) = if beq j k then (k, v) ∷ m else (j, w) ∷ insert k v m

  pub lookup-insert :
      (k j : Bytes) (v : V) (m : Map V)
      → lookup j (insert k v m) ≡ (if beq k j then some v else lookup j m)
  unfolding lookup insert
  lookup-insert k j v [] = refl
  lookup-insert k j v ((i, w) ∷ m) =
      ground (arith, beq_iff k j, beq_iff i k, beq_iff i j, lookup-insert k j v m)

  pub lookup-nil : (k : Bytes) → lookup k [] ≡ none
  unfolding lookup
  lookup-nil k = refl

  -- A sum over the entries, and how an insertion changes it.
  unfoldable pub total : (Bytes → V → ℕ) → Map V → ℕ
  total f [] = 0
  total f ((k, v) ∷ m) = f k v + total f m

  pub total-insert_new :
      (f : Bytes → V → ℕ) (k : Bytes) (v : V) (m : Map V)
      → lookup k m ≡ none
      → total f (insert k v m) ≡ total f m + f k v
  unfolding lookup insert total
  total-insert_new f k v [] h = ground arith
  total-insert_new f k v ((i, w) ∷ m) h = ground (arith, beq_iff i k, total-insert_new f k v m)

  pub total-insert_old :
      (f : Bytes → V → ℕ) (k : Bytes) (v w : V) (m : Map V)
      → lookup k m ≡ some w
      → total f (insert k v m) + f k w ≡ total f m + f k v
  unfolding lookup insert total
  total-insert_old f k v w [] h = cc
  total-insert_old f k v w ((i, u) ∷ m) h = ground (arith, beq_iff i k, total-insert_old f k v w m)

  pub entry-le-total :
      (f : Bytes → V → ℕ) (k : Bytes) (w : V) (m : Map V) → lookup k m ≡ some w → f k w ≤ total f m
  unfolding lookup total
  entry-le-total f k w [] h = cc
  entry-le-total f k w ((i, u) ∷ m) h = ground (arith, beq_iff i k, entry-le-total f k w m)

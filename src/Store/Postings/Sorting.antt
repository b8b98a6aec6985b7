-- ===== src/Store/Postings/Sorting.antt =====
-- Sorted lists: what sort.Slice leaves of a list.
use avalanche_s3_archival_no.Prelude.{◌≡◌}
use avalanche_s3_archival_no.Prelude.{Bool, true, false, List, [], ◌∷◌, All, inl, inr, Bool-cases}
use avalanche_s3_archival_no.Store.Postings.{insert_by, sort_by}

module _ {ℓ} {A : Type ℓ} (less : A → A → Bool) where
  -- A list in which none is less than the one before it.
  abbrev pub InOrder : A → List A → Type 0
  InOrder z [] = Unit
  InOrder z (y ∷ ys) = (less y z ≡ false) × InOrder y ys

  abbrev pub IsSorted : List A → Type 0
  IsSorted [] = Unit
  IsSorted (y ∷ ys) = InOrder y ys

  module _ (asym : (a b : A) → less a b ≡ true → less b a ≡ false) where
    insert-InOrder :
        (z x : A) (ys : List A) → less x z ≡ false → InOrder z ys → InOrder z (insert_by less x ys)
    unfolding insert_by
    insert-InOrder z x [] h o = (h, tt)
    insert-InOrder z x (y ∷ ys) h (hy, o) = elim (Bool-cases (less y x)) [
      | inl before ↦ rw before (hy, insert-InOrder y x ys (asym y x before) o)
      | inr behind ↦ let later : InOrder x (y ∷ ys) = (behind, o) in rw behind (h, later)
    ]

    insert-IsSorted : (x : A) (ys : List A) → IsSorted ys → IsSorted (insert_by less x ys)
    unfolding insert_by
    insert-IsSorted x [] o = tt
    insert-IsSorted x (y ∷ ys) o = elim (Bool-cases (less y x)) [
      | inl before ↦ rw before (insert-InOrder y x ys (asym y x before) o)
      | inr behind ↦ rw behind (behind, o)
    ]

    pub sort-IsSorted : (xs : List A) → IsSorted (sort_by less xs)
    unfolding sort_by
    sort-IsSorted [] = tt
    sort-IsSorted (x ∷ xs) = insert-IsSorted x (sort_by less xs) (sort-IsSorted xs)

  insert-All : (P : A → Type 0) (x : A) (ys : List A) → P x → All P ys → All P (insert_by less x ys)
  unfolding insert_by
  insert-All P x [] h a = (h, tt)
  insert-All P x (y ∷ ys) h (hy, a) = elim (Bool-cases (less y x)) [
    | inl before ↦ rw before (hy, insert-All P x ys h a)
    | inr behind ↦ let later : All P (y ∷ ys) = (hy, a) in rw behind (h, later)
  ]

  pub sort-All : (P : A → Type 0) (xs : List A) → All P xs → All P (sort_by less xs)
  unfolding sort_by
  sort-All P [] a = tt
  sort-All P (x ∷ xs) (h, a) = insert-All P x (sort_by less xs) h (sort-All P xs a)

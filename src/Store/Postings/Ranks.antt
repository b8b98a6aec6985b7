-- ===== src/Store/Postings/Ranks.antt =====
-- The rank of a group's id is the place of the group in byte order.
use avalanche_s3_archival_no.Prelude.{ℕ, zero, suc, ◌+◌, ◌==◌, ◌≡◌, ◌<◌, ◌≤◌, sym, ap, ◌∙◌, arith}
use avalanche_s3_archival_no.Prelude.{
  Bool, true, false, List, [], ◌∷◌, length, ◌⊎◌, inl, inr, Bool-cases,
}
use avalanche_s3_archival_no.Prelude.Bytes.{Bytes, beq, beq_iff, blt}
use native.Mathlib.Decide.{dec_lt}
use avalanche_s3_archival_no.Store.Run.Order.{blt_trans}
use avalanche_s3_archival_no.Store.Postings.{
  insert_by, sort_by, group_at, upto, group_order, rank_in,
}
use avalanche_s3_archival_no.Store.Postings.Order.{blt_cases, blt_asym}
use avalanche_s3_archival_no.Store.Postings.Sorting.{InOrder, IsSorted, sort-IsSorted}

abbrev In : ℕ → List ℕ → Type 0
In i [] = ⊥
In i (x ∷ xs) = (x ≡ i) ⊎ In i xs

module _ (less : ℕ → ℕ → Bool) where
  insert-In : (x i : ℕ) (ys : List ℕ) → (x ≡ i) ⊎ In i ys → In i (insert_by less x ys)
  unfolding insert_by
  insert-In x i [] h = h
  insert-In x i (y ∷ ys) h = elim (Bool-cases (less y x)) [
    | inr behind ↦ rw behind h
    | inl before ↦ rw before (elim h [
      | inl here ↦ inr (insert-In x i ys (inl here))
      | inr (inl first) ↦ inl first
      | inr (inr later) ↦ inr (insert-In x i ys (inr later))
    ])
  ]

  sort-In : (i : ℕ) (xs : List ℕ) → In i xs → In i (sort_by less xs)
  unfolding sort_by
  sort-In i [] h = elim h [ ]
  sort-In i (x ∷ xs) (inl here) = insert-In x i (sort_by less xs) (inl here)
  sort-In i (x ∷ xs) (inr later) = insert-In x i (sort_by less xs) (inr (sort-In i xs later))

upto-In : (k n i : ℕ) → k ≤ i → i < k + n → In i (upto k n)
upto-In k zero i le lt = absurd (omega arith)
upto-In k (suc n) i le lt = elim (dec_lt k i) [
  | yes up ↦ inr (upto-In (suc k) n i (omega arith) (omega arith))
  | no here ↦ inl (omega arith)
]

module _ (groups : List Bytes) where
  abbrev group_less : ℕ → ℕ → Bool
  group_less i j = blt (group_at groups i) (group_at groups j)

  -- What follows in order is not below.
  not_below : (o i : ℕ) (os : List ℕ) → InOrder group_less o os → In i os → group_less i o ≡ false
  not_below o i [] s h = elim h [ ]
  not_below o i (p ∷ os) (h, s) (inl here) = ap (λ (k : ℕ). group_less k o) (sym here) ∙ h
  not_below o i (p ∷ os) (h, s) (inr later) =
      let high = not_below p i os s later in
      elim (Bool-cases (group_less i o)) [
        | inr fine ↦ fine
        | inl low ↦ elim (blt_cases (group_at groups p) (group_at groups o) h) [
          | inl same ↦
              let below : group_less i p ≡ true = ap (blt (group_at groups i)) same ∙ low in
              absurd (cc)
          | inr under ↦
              let below =
                blt_trans (group_at groups i) (group_at groups o) (group_at groups p) low under in
              absurd (cc)
        ]
      ]

  later-IsSorted : (o : ℕ) (os : List ℕ) → InOrder group_less o os → IsSorted group_less os
  later-IsSorted o [] s = tt
  later-IsSorted o (p ∷ os) (h, s) = s

  rank-orders :
      (os : List ℕ) (a b : ℕ)
      → IsSorted group_less os
      → In a os
      → In b os
      → (a == b) ≡ false
      → beq (group_at groups a) (group_at groups b) ≡ false
      → rank_in os a ≤ rank_in os b
      → group_less a b ≡ true
  unfolding rank_in
  rank-orders [] a b s ha hb apart differ le = elim ha [ ]
  rank-orders (o ∷ os) a b s ha hb apart differ le = elim (Bool-cases (o == a)) [
    | inl at_a ↦
        let is : o ≡ a = ground (arith, at_a) in
        elim hb [
          | inl at_b ↦ absurd (ground (arith, apart, is, at_b))
          | inr behind ↦
              let high : group_less b a ≡ false =
                ap (group_less b) (sym is) ∙ not_below o b os s behind in
              elim (blt_cases (group_at groups b) (group_at groups a) high) [
                | inr under ↦ under
                | inl same ↦
                    let equal = (beq_iff (group_at groups a) (group_at groups b)).1 (sym same) in
                    absurd (cc)
              ]
        ]
    | inr off_a ↦ elim (Bool-cases (o == b)) [
      | inl at_b ↦ absurd (ground (arith, off_a, at_b, le))
      | inr off_b ↦ elim ha [
        | inl here ↦ absurd (ground (arith, here, off_a))
        | inr in_a ↦ elim hb [
          | inl here ↦ absurd (ground (arith, here, off_b))
          | inr in_b ↦
              rank-orders os a b (later-IsSorted o os s) in_a in_b apart differ
                (ground (arith, off_a, off_b, le))
        ]
      ]
    ]
  ]

  -- Of two ids, the one of a rank at most the other's has the lower group.
  pub group_order-ranks :
      (a b : ℕ)
      → a < length groups
      → b < length groups
      → (a == b) ≡ false
      → beq (group_at groups a) (group_at groups b) ≡ false
      → rank_in (group_order groups) a ≤ rank_in (group_order groups) b
      → blt (group_at groups a) (group_at groups b) ≡ true
  unfolding group_order
  group_order-ranks a b ha hb apart differ le =
      let ids = upto 0 (length groups) in
      rank-orders (sort_by group_less ids) a b
        (sort-IsSorted group_less (λ i j h. blt_asym (group_at groups i) (group_at groups j) h) ids)
        (sort-In group_less a ids (upto-In 0 (length groups) a (omega arith) (omega arith)))
        (sort-In group_less b ids (upto-In 0 (length groups) b (omega arith) (omega arith))) apart
        differ le

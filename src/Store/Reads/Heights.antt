-- ===== src/Store/Reads/Heights.antt =====
-- The bisection for the block that a TxNum belongs to.
use avalanche_s3_archival_no.Prelude.{
  ℕ, zero, suc, ◌+◌, ◌-◌, ◌/◌, ◌%◌, ◌^◌, ◌≤◌, ◌<◌, ◌≡◌, ap, ◌∙◌, arith, leb, ltb, sub64,
}
use avalanche_s3_archival_no.Prelude.{Bool, true, false, Option, none, some, inl, inr, Bool-cases}
use avalanche_s3_archival_no.Prelude.Bytes.{Bytes}
use mathlib.Core.Path.{subst}
use avalanche_s3_archival_no.Store.Run.{Section, Run}
use avalanche_s3_archival_no.Store.Reads.{View, block_tx_range, height_bounds, bisect, height_of_tx}

module _ (may_have : Run → Section → Bytes → Bool) (d : View) (first count : ℕ → ℕ) where
  -- The rows of the blocks from one height to another are there, and each block begins behind the
  -- boundary slot of the one below it.
  pub record IsTimeline (lo hi : ℕ) : Type 0 where
    pub read :
        (h : ℕ) → lo ≤ h → h ≤ hi → block_tx_range may_have d h ≡ some (some (first h, count h))
    pub next : (h : ℕ) → lo ≤ h → h < hi → first (h + 1) ≡ first h + count h + 1

  module _ (txnum fuel lo hi : ℕ) where
    abbrev middle : ℕ
    middle = (lo + hi + 1) % 2 ^ 64 / 2

    middle-between : lo < hi → hi < 2 ^ 63 → (lo < middle) × (middle ≤ hi)
    middle-between lt fit = (omega arith, omega arith)

    abbrev half : Bool → Option (Option ℕ)
    half b = elim b [
      | true ↦ bisect may_have fuel d txnum middle hi
      | false ↦ bisect may_have fuel d txnum lo (sub64 middle 1)
    ]

    abbrev judged : Option (Option (ℕ × ℕ)) → Option (Option ℕ)
    judged r = elim r [
      | none ↦ none
      | some none ↦ some none
      | some (some (f, c)) ↦ half (leb f txnum)
    ]

    abbrev round : Bool → Option (Option ℕ)
    round b = elim b [ false ↦ some (some lo) | true ↦ judged (block_tx_range may_have d middle) ]

    bisect-done : ltb lo hi ≡ false → bisect may_have (suc fuel) d txnum lo hi ≡ some (some lo)
    unfolding bisect
    bisect-done e = ap round e

    bisect-half :
        ltb lo hi ≡ true
        → block_tx_range may_have d middle ≡ some (some (first middle, count middle))
        → bisect may_have (suc fuel) d txnum lo hi ≡ half (leb (first middle) txnum)
    unfolding bisect
    bisect-half e r = ap round e ∙ ap judged r

  -- A height whose block has the TxNum among its slots, the boundary slot included.
  abbrev pub HasSlot : ℕ → ℕ → Type 0
  HasSlot txnum h = (first h ≤ txnum) × (txnum ≤ first h + count h)

  abbrev Found : ℕ → ℕ → ℕ → Option (Option ℕ) → Type 0
  Found txnum lo hi r = (h : ℕ) × (r ≡ some (some h)) × (lo ≤ h) × (h ≤ hi) × HasSlot txnum h

  bisect-finds :
      (fuel txnum lo hi : ℕ)
      → IsTimeline lo hi
      → hi < lo + fuel
      → lo ≤ hi
      → hi < 2 ^ 63
      → first lo ≤ txnum
      → txnum ≤ first hi + count hi
      → Found txnum lo hi (bisect may_have fuel d txnum lo hi)
  bisect-finds zero txnum lo hi t enough le fit low high = absurd (omega arith)
  bisect-finds (suc fuel) txnum lo hi t enough le fit low high = elim (Bool-cases (ltb lo hi)) [
    | inr done ↦
        let same : hi ≡ lo = ground arith in
        (
          lo,
          bisect-done txnum fuel lo hi done,
          omega arith,
          le,
          (low, subst (λ (x : ℕ). txnum ≤ first x + count x) same high),
        )
    | inl more ↦
        let mid = middle txnum fuel lo hi in
        let lt : lo < hi = ground arith in
        let (above, below) = middle-between txnum fuel lo hi lt fit in
        let step = bisect-half txnum fuel lo hi more (t.read mid (omega arith) below) in
        elim (Bool-cases (leb (first mid) txnum)) [
          | inl up ↦
              let (h, r, a, b, c) =
                bisect-finds fuel txnum mid hi
                  (record {
                    read = λ h x y. t.read h (omega arith) y;
                    next = λ h x y. t.next h (omega arith) y;
                  })
                  (omega arith) below fit (ground (arith, up)) high in
              (h, step ∙ ap (half txnum fuel lo hi) up ∙ r, omega arith, b, c)
          | inr down ↦
              let pred : sub64 mid 1 ≡ mid - 1 = omega arith in
              let next = t.next (mid - 1) (omega arith) (omega arith) in
              let up : mid - 1 + 1 ≡ mid = omega arith in
              let (h, r, a, b, c) =
                bisect-finds fuel txnum lo (mid - 1)
                  (record {
                    read = λ h x y. t.read h x (omega arith);
                    next = λ h x y. t.next h x (omega arith);
                  })
                  (omega arith) (omega arith) (omega arith) low
                  (ground (arith, down, ap first up, next)) in
              (
                h,
                step
                    ∙ ap (half txnum fuel lo hi) down
                    ∙ ap (bisect may_have fuel d txnum lo) pred
                    ∙ r,
                a,
                omega arith,
                c,
              )
        ]
  ]

  -- `HeightOfTx` ends, with the block that the TxNum belongs to: the one whose transactions and
  -- boundary slot it lies among. The bounds are those of the window or the run that has the TxNum, and
  -- the rows of their blocks are there and follow each other.
  pub height_of_tx-finds :
      (txnum lo hi : ℕ)
      → height_bounds d txnum ≡ some (lo, hi)
      → IsTimeline lo hi
      → lo ≤ hi
      → hi < 2 ^ 63
      → first lo ≤ txnum
      → txnum ≤ first hi + count hi
      → (h : ℕ) × (height_of_tx may_have d txnum ≡ some (some h))
        × (lo ≤ h)
        × (h ≤ hi)
        × (first h ≤ txnum)
        × (txnum ≤ first h + count h)
  unfolding height_of_tx
  height_of_tx-finds txnum lo hi e t le fit low high =
      let (h, r, a, b, (c1, c2)) =
        bisect-finds (suc (hi - lo)) txnum lo hi t (omega arith) le fit low high in
      (
        h,
        ap
              (λ (o : Option (ℕ × ℕ)). elim o [
                | none ↦ some none
                | some (x, y) ↦ bisect may_have (suc (y - x)) d txnum x y
              ])
              e
            ∙ r,
        a,
        b,
        c1,
        c2,
      )

-- ===== src/Store/Manifest/Tiling.antt =====
-- The tiling of the run set: kept by every seal, and what it gives to the readers.
use avalanche_s3_archival_no.Prelude.{ℕ, ◌≤◌, ◌<◌, ◌≡◌, refl, arith, last?, last?-cases}
use avalanche_s3_archival_no.Prelude.{true, ◌&&◌, List, [], ◌∷◌, ◌++◌, none, some}
use native.Mathlib.Decide.{dec_lt}
use avalanche_s3_archival_no.Store.Manifest.{
  RunRef, follows, check_tiling, flushed_tx, append_run, run_of_tx,
}

-- Tiling across a cut of the list.
pub check_tiling-append :
    (a : RunRef) (xs : List RunRef) (b : RunRef) (ys : List RunRef)
    → check_tiling ((a ∷ xs) ++ (b ∷ ys)) ≡ (
        check_tiling (a ∷ xs)
        && ((elim (last? (a ∷ xs)) [ none ↦ true | some z ↦ follows z b ])
            && check_tiling (b ∷ ys)))
unfolding check_tiling
check_tiling-append a [] b ys = refl
check_tiling-append a (x ∷ xs) b ys = ground (arith, check_tiling-append x xs b ys)

-- Where the next sealed run starts: at slot 0 of an empty store, whose first block need not be block
-- 0, and at the end of the last run elsewhere.
abbrev pub StartsAtEnd : List RunRef → RunRef → Type 0
StartsAtEnd runs ref = elim (last? runs) [ none ↦ ref.from_tx ≡ 0 | some z ↦ follows z ref ≡ true ]

-- A seal keeps the tiling.
pub check_tiling-append_run :
    (runs : List RunRef) (ref : RunRef)
    → check_tiling runs ≡ true
    → StartsAtEnd runs ref
    → check_tiling (append_run runs ref) ≡ true
unfolding append_run
check_tiling-append_run [] ref h p = unfold check_tiling in refl
check_tiling-append_run (a ∷ xs) ref h p =
    let (z, e) = last?-cases a xs in
    rw (check_tiling-append, e) (unfold check_tiling in ground (arith, e))

-- Two runs with one end are followed by the same runs, and two with one start follow the same.
front_replaced :
    (x z m : RunRef) (xs q : List RunRef)
    → check_tiling ((x ∷ xs) ++ q) ≡ true
    → last? (x ∷ xs) ≡ some z
    → m.to_tx ≡ z.to_tx
    → m.to_height ≡ z.to_height
    → check_tiling (m ∷ q) ≡ true
unfolding check_tiling follows
front_replaced x z m [] [] t e a b = refl
front_replaced x z m [] (y ∷ q) t e a b = ground arith
front_replaced x z m (y ∷ xs) q t e a b = front_replaced y z m xs q (ground arith) e a b

-- The merged run in the place of its inputs keeps the tiling.
pub check_tiling-swap :
    (ts q : List RunRef) (x z m : RunRef) (xs : List RunRef)
    → check_tiling (ts ++ ((x ∷ xs) ++ q)) ≡ true
    → last? (x ∷ xs) ≡ some z
    → m.from_tx ≡ x.from_tx
    → m.from_height ≡ x.from_height
    → m.to_tx ≡ z.to_tx
    → m.to_height ≡ z.to_height
    → check_tiling (ts ++ (m ∷ q)) ≡ true
unfolding check_tiling follows
check_tiling-swap [] q x z m xs t e a b c d = front_replaced x z m xs q t e c d
check_tiling-swap (y ∷ []) q x z m xs t e a b c d =
    ground (arith, front_replaced x z m xs q (ground arith) e c d)
check_tiling-swap (y ∷ w ∷ ts) q x z m xs t e a b c d =
    ground (arith, check_tiling-swap (w ∷ ts) q x z m xs (ground arith) e a b c d)

tail_tiled : (a : RunRef) (rs : List RunRef) → check_tiling (a ∷ rs) ≡ true → check_tiling rs ≡ true
unfolding check_tiling
tail_tiled a [] t = refl
tail_tiled a (b ∷ rs) t = ground arith

-- A tiled set of runs leaves no TxNum out between its first and its end.
pub run_of_tx-total :
    (a : RunRef) (rs : List RunRef) (n : ℕ)
    → check_tiling (a ∷ rs) ≡ true
    → a.from_tx ≤ n
    → n < flushed_tx (a ∷ rs)
    → (r : RunRef) × (run_of_tx (a ∷ rs) n ≡ some r) × (r.from_tx ≤ n) × (n < r.to_tx)
unfolding run_of_tx check_tiling flushed_tx
run_of_tx-total a [] n t lo hi = (a, ground arith, lo, hi)
run_of_tx-total a (b ∷ rs) n t lo hi = elim (dec_lt n a.to_tx) [
  | yes h ↦ (a, ground arith, lo, h)
  | no h ↦
      let (r, e, p, q) = run_of_tx-total b rs n (ground arith) (ground arith) hi in
      (r, ground arith, p, q)
]

-- Every stretch of a tiled list is tiled.
pub check_tiling-right :
    (xs ys : List RunRef) → check_tiling (xs ++ ys) ≡ true → check_tiling ys ≡ true
check_tiling-right [] ys t = t
check_tiling-right (x ∷ xs) ys t = check_tiling-right xs ys (tail_tiled x (xs ++ ys) t)

pub check_tiling-left :
    (xs ys : List RunRef) → check_tiling (xs ++ ys) ≡ true → check_tiling xs ≡ true
unfolding check_tiling
check_tiling-left [] ys t = refl
check_tiling-left (x ∷ []) ys t = refl
check_tiling-left (x ∷ y ∷ xs) ys t = ground (arith, check_tiling-left (y ∷ xs) ys)

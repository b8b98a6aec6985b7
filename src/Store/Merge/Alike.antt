-- ===== src/Store/Merge/Alike.antt =====
-- Two builders give their L0 runs different names, since a name hashes the run before it, and that
-- depends on the merges. The terminals do not depend on the names of the runs that are merged.
use avalanche_s3_archival_no.Prelude.{ℕ, zero, suc, ◌≡◌, refl, sym, ap, ◌∙◌, leb, sub64}
use avalanche_s3_archival_no.Prelude.{List, [], ◌∷◌, some, arith}
use avalanche_s3_archival_no.Prelude.{
  true, false, last?, last?-cases, Bool-cases, Option-cases, inl, inr,
}
use avalanche_s3_archival_no.Prelude.Bytes.{Bytes}
use avalanche_s3_archival_no.Store.Manifest.{RunRef}
use avalanche_s3_archival_no.Store.Merge.{merged_ref}
use avalanche_s3_archival_no.Store.Merge.Settle.{settle, cut, cut_from, settle-uncons, settle-cons}
use mathlib.Core.Path.{subst}

-- Two runs of one range and level, under any names.
abbrev pub SameRange : RunRef → RunRef → Type 0
SameRange r s =
    (r.from_tx ≡ s.from_tx)
    × (r.to_tx ≡ s.to_tx)
    × (r.from_height ≡ s.from_height)
    × (r.to_height ≡ s.to_height)
    × (r.level ≡ s.level)

-- Run by run.
abbrev pub SameRanges : List RunRef → List RunRef → Type 0
SameRanges [] [] = Unit
SameRanges [] (s ∷ ss) = ⊥
SameRanges (r ∷ rs) [] = ⊥
SameRanges (r ∷ rs) (s ∷ ss) = SameRange r s × SameRanges rs ss

last?-SameRange :
    (r s : RunRef) (rs ss : List RunRef) {z : RunRef}
    → SameRanges (r ∷ rs) (s ∷ ss)
    → last? (r ∷ rs) ≡ some z
    → (y : RunRef) × (last? (s ∷ ss) ≡ some y) × SameRange z y
last?-SameRange r s [] [] {z} (h, _) e =
    let same : r ≡ z = cc in (s, refl, subst (λ (x : RunRef). SameRange x s) same h)
last?-SameRange r s [] (x ∷ xs) (_, h) e = absurd h
last?-SameRange r s (x ∷ xs) [] (_, h) e = absurd h
last?-SameRange r s (x ∷ xs) (y ∷ ys) (_, h) e = last?-SameRange x y xs ys h e

merged_ref-SameRanges :
    (g h : List RunRef) (name : Bytes) → SameRanges g h → merged_ref g name ≡ merged_ref h name
unfolding merged_ref
merged_ref-SameRanges [] [] name e = refl
merged_ref-SameRanges [] (s ∷ ss) name e = absurd e
merged_ref-SameRanges (r ∷ rs) [] name e = absurd e
merged_ref-SameRanges (r ∷ rs) (s ∷ ss) name e =
    let (z, l) = last?-cases r rs in
    let (y, k, (_, to_tx, _, to_height, _)) = last?-SameRange r s rs ss e l in
    let from_tx = e.0.0 in
    let from_height = e.0.2 in ground (arith, l, k, to_tx, to_height, from_tx, from_height)

module _ (t f : ℕ) where
  abbrev Front : List RunRef → List RunRef → List RunRef → Type 0
  Front gs g q =
      (g' : List RunRef) × (q' : List RunRef) × (cut_from t f gs ≡ some (g', q'))
      × SameRanges g g'
      × SameRanges q q'

  cut_from-SameRanges :
      (hs gs : List RunRef) {g q : List RunRef}
      → SameRanges hs gs
      → cut_from t f hs ≡ some (g, q)
      → Front gs g q
  unfolding cut_from
  cut_from-SameRanges [] gs a e = absurd (cc)
  cut_from-SameRanges (r ∷ rs) [] a e = absurd a
  cut_from-SameRanges (r ∷ rs) (s ∷ ss) {g} {q} (a, b) e =
      elim (Bool-cases (leb t (sub64 r.to_tx f))) [
        | inl here ↦
            let parts : (r ∷ [], rs) ≡ (g, q) = ground arith in
            let here' : leb t (sub64 s.to_tx f) ≡ true =
              ap (λ (n : ℕ). leb t (sub64 n f)) (sym a.1) ∙ here in
            subst (λ (p : List RunRef × List RunRef). Front (s ∷ ss) p.0 p.1) parts
              (s ∷ [], ss, ground (arith, here'), (a, tt), b)
        | inr on ↦ elim (Option-cases (cut_from t f rs)) [
          | inl none_left ↦ absurd (ground arith)
          | inr ((g', q'), e') ↦
              let parts : (r ∷ g', q') ≡ (g, q) = ground arith in
              let on' : leb t (sub64 s.to_tx f) ≡ false =
                ap (λ (n : ℕ). leb t (sub64 n f)) (sym a.1) ∙ on in
              let (g2, q2, c, x, y) = cut_from-SameRanges rs ss b e' in
              subst (λ (p : List RunRef × List RunRef). Front (s ∷ ss) p.0 p.1) parts
                (s ∷ g2, q2, ground (arith, on', c), (a, x), y)
        ]
      ]

cut-SameRanges :
    (t : ℕ) (hs gs : List RunRef) {g q : List RunRef}
    → SameRanges hs gs
    → cut t hs ≡ some (g, q)
    → (g' : List RunRef) × (q' : List RunRef) × (cut t gs ≡ some (g', q'))
      × SameRanges g g'
      × SameRanges q q'
unfolding cut
cut-SameRanges t [] gs a e = absurd (cc)
cut-SameRanges t (r ∷ rs) [] a e = absurd a
cut-SameRanges t (r ∷ rs) (s ∷ ss) a e =
    let (g, q, c, x, y) = cut_from-SameRanges t r.from_tx (r ∷ rs) (s ∷ ss) a e in
    (g, q, ap (λ (f : ℕ). cut_from t f (s ∷ ss)) (sym a.0.0) ∙ c, x, y)

module _ (t : ℕ) (artifact : Bytes → List RunRef → Bytes)
    (unnamed : (p : Bytes) (g h : List RunRef) → SameRanges g h → artifact p g ≡ artifact p h) where
  -- The terminals that are cut off a sequence of sealed runs are cut off it under other names too.
  pub settle-SameRanges :
      (k : ℕ) (p : Bytes) (hs gs ts rest : List RunRef)
      → SameRanges hs gs
      → settle t artifact k p hs ≡ some (ts, rest)
      → (rest' : List RunRef) × (settle t artifact k p gs ≡ some (ts, rest'))
  settle-SameRanges zero p hs gs [] rest a e = unfold settle in (gs, refl)
  settle-SameRanges zero p hs gs (x ∷ ts) rest a e = unfold settle in absurd (cc)
  settle-SameRanges (suc k) p hs gs ts rest a e =
      let (g, q, m, us, c, d, e', x) = settle-uncons t artifact k p hs ts rest e in
      let (g', q', c', b, y) = cut-SameRanges t hs gs a c in
      let d' =
        sym (merged_ref-SameRanges g g' (artifact p g') b)
        ∙ ap (merged_ref g) (sym (unnamed p g g' b))
        ∙ d in
      let (rest', f) = settle-SameRanges k m.name q q' us rest y e' in
      (
        rest',
        settle-cons t artifact k p gs g' q' us rest' m c' d' f
            ∙ ap (λ (l : List RunRef). some (l, rest')) (sym x),
      )

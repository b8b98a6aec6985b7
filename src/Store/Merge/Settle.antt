-- ===== src/Store/Merge/Settle.antt =====
-- The reference: terminals cut off the sealed runs one after the other, greedily, as a function of
-- the sequence of sealed runs alone.
use avalanche_s3_archival_no.Prelude.{ℕ, zero, suc, ◌+◌, ◌≡◌, refl, leb, sub64, if◌then◌else◌}
use avalanche_s3_archival_no.Prelude.{List, [], ◌∷◌, ◌++◌, Option, none, some, arith}
use avalanche_s3_archival_no.Prelude.{length, Bool-cases, Option-cases, inl, inr, ◌<◌}
use avalanche_s3_archival_no.Prelude.Bytes.{Bytes}
use avalanche_s3_archival_no.Store.Manifest.{RunRef}
use avalanche_s3_archival_no.Store.Merge.{merged_ref, span_end}
use mathlib.Core.Option

abbrev Parts : Type 0
Parts = List RunRef × List RunRef

abbrev behind : RunRef → Parts → Parts
behind r (g, q) = (r ∷ g, q)

-- The shortest front of the list that reaches the boundary, counted from `f`, and what is behind.
unfoldable pub cut_from : ℕ → ℕ → List RunRef → Option (List RunRef × List RunRef)
cut_from t f [] = none
cut_from t f (r ∷ rs) =
    if leb t (sub64 r.to_tx f) then some (r ∷ [], rs) else Option.map (behind r) (cut_from t f rs)

unfoldable pub cut : ℕ → List RunRef → Option (List RunRef × List RunRef)
unfolding cut_from
cut t [] = none
cut t (r ∷ rs) = cut_from t r.from_tx (r ∷ rs)

-- The name that the next terminal is linked to.
abbrev pub prev_of : Bytes → List RunRef → Bytes
prev_of p [] = p
prev_of p (t ∷ ts) = prev_of t.name ts

module _ (t : ℕ) (artifact : Bytes → List RunRef → Bytes) where
  -- The first `k` terminals of a sequence of sealed runs, and the runs behind them.
  unfoldable pub settle : ℕ → Bytes → List RunRef → Option (List RunRef × List RunRef)
  settle zero p hs = some ([], hs)
  settle (suc k) p hs = elim (cut t hs) [
    | none ↦ none
    | some (g, q) ↦ elim (merged_ref g (artifact p g)) [
      | none ↦ none
      | some m ↦ Option.map (behind m) (settle k m.name q)
    ]
  ]

module _ (t f : ℕ) where
  cut_from-append :
      (rs more g q : List RunRef)
      → cut_from t f rs ≡ some (g, q)
      → cut_from t f (rs ++ more) ≡ some (g, q ++ more)
  unfolding cut_from
  cut_from-append [] more g q e = cc
  cut_from-append (r ∷ rs) more g q e = elim (Bool-cases (leb t (sub64 r.to_tx f))) [
    | inl here ↦ ground arith
    | inr on ↦ elim (Option-cases (cut_from t f rs)) [
      | inl none_left ↦ ground arith
      | inr ((g', q'), e') ↦ ground (arith, cut_from-append rs more g' q' e')
    ]
  ]

  cut_from-parts :
      (rs g q : List RunRef) → cut_from t f rs ≡ some (g, q) → (rs ≡ g ++ q) × (0 < length g)
  unfolding cut_from
  cut_from-parts [] g q e = cc
  cut_from-parts (r ∷ rs) g q e = elim (Bool-cases (leb t (sub64 r.to_tx f))) [
    | inl here ↦ ground arith
    | inr on ↦ elim (Option-cases (cut_from t f rs)) [
      | inl none_left ↦ ground arith
      | inr ((g', q'), e') ↦ ground (arith, cut_from-parts rs g' q' e')
    ]
  ]

  pub span_end-cut_from :
      (rs : List RunRef) (i : ℕ)
      → span_end t f rs i ≡ Option.map (λ (p : Parts). i + length p.0) (cut_from t f rs)
  unfolding cut_from span_end
  span_end-cut_from [] i = refl
  span_end-cut_from (r ∷ rs) i = elim (Option-cases (cut_from t f rs)) [
    | inl none_left ↦ ground (arith, span_end-cut_from rs (i + 1))
    | inr ((g', q'), e') ↦ ground (arith, span_end-cut_from rs (i + 1))
  ]

pub cut-append :
    (t : ℕ) (rs more g q : List RunRef)
    → cut t rs ≡ some (g, q)
    → cut t (rs ++ more) ≡ some (g, q ++ more)
unfolding cut
cut-append t [] more g q e = cc
cut-append t (r ∷ rs) more g q e = cut_from-append t r.from_tx (r ∷ rs) more g q e

pub cut-parts :
    (t : ℕ) (rs g q : List RunRef) → cut t rs ≡ some (g, q) → (rs ≡ g ++ q) × (0 < length g)
unfolding cut
cut-parts t [] g q e = cc
cut-parts t (r ∷ rs) g q e = cut_from-parts t r.from_tx (r ∷ rs) g q e

module _ (t : ℕ) (artifact : Bytes → List RunRef → Bytes) where
  -- More sealed runs behind change no terminal that is there.
  pub settle-append :
      (k : ℕ) (p : Bytes) (hs more ts rest : List RunRef)
      → settle t artifact k p hs ≡ some (ts, rest)
      → settle t artifact k p (hs ++ more) ≡ some (ts, rest ++ more)
  unfolding settle
  settle-append zero p hs more ts rest e = ground arith
  settle-append (suc k) p hs more ts rest e = elim (Option-cases (cut t hs)) [
    | inl no_cut ↦ ground arith
    | inr ((g, q), c) ↦ elim (Option-cases (merged_ref g (artifact p g))) [
      | inl no_ref ↦ ground arith
      | inr (m, d) ↦ elim (Option-cases (settle t artifact k m.name q)) [
        | inl no_more ↦ ground arith
        | inr ((ts', rest'), s) ↦
            ground (arith, cut-append t hs more g q c, settle-append k m.name q more ts' rest' s)
      ]
    ]
  ]

  pub settle-cons :
      (k : ℕ) (p : Bytes) (hs g q ts rest : List RunRef) (m : RunRef)
      → cut t hs ≡ some (g, q)
      → merged_ref g (artifact p g) ≡ some m
      → settle t artifact k m.name q ≡ some (ts, rest)
      → settle t artifact (suc k) p hs ≡ some (m ∷ ts, rest)
  unfolding settle
  settle-cons k p hs g q ts rest m c d e = ground arith

  pub settle-uncons :
      (k : ℕ) (p : Bytes) (hs ts rest : List RunRef)
      → settle t artifact (suc k) p hs ≡ some (ts, rest)
      → (g : List RunRef) × (q : List RunRef) × (m : RunRef) × (us : List RunRef) × (cut t hs
          ≡ some (g, q))
        × (merged_ref g (artifact p g) ≡ some m)
        × (settle t artifact k m.name q ≡ some (us, rest))
        × (ts ≡ m ∷ us)
  unfolding settle
  settle-uncons k p hs ts rest e = elim (Option-cases (cut t hs)) [
    | inl no_cut ↦ absurd (ground arith)
    | inr ((g, q), c) ↦ elim (Option-cases (merged_ref g (artifact p g))) [
      | inl no_ref ↦ absurd (ground arith)
      | inr (m, d) ↦ elim (Option-cases (settle t artifact k m.name q)) [
        | inl no_more ↦ absurd (ground arith)
        | inr ((us, rest'), s) ↦ (g, q, m, us, c, d, ground arith, ground arith)
      ]
    ]
  ]

  -- One more terminal, cut off what the first `k` left.
  pub settle-suc :
      (k : ℕ) (p : Bytes) (hs ts rest g q : List RunRef) (m : RunRef)
      → settle t artifact k p hs ≡ some (ts, rest)
      → cut t rest ≡ some (g, q)
      → merged_ref g (artifact (prev_of p ts) g) ≡ some m
      → settle t artifact (suc k) p hs ≡ some (ts ++ (m ∷ []), q)
  settle-suc zero p hs [] rest g q m e c d = unfold settle in ground arith
  settle-suc zero p hs (x ∷ ts) rest g q m e c d = unfold settle in cc
  settle-suc (suc k) p hs ts rest g q m e c d =
      let (g', q', m', us, c', d', e', f) = settle-uncons k p hs ts rest e in
      rw f (
        settle-cons (suc k) p hs g' q' (us ++ (m ∷ [])) q m' c' d'
          (settle-suc k m'.name q' us rest g q m e' c (rw f at d)))

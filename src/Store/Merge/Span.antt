-- ===== src/Store/Merge/Span.antt =====
-- The span of the next merge, on a manifest that is terminals first and L0 runs behind them.
use avalanche_s3_archival_no.Prelude.{ℕ, zero, suc, ◌+◌, ◌-◌, ◌≤◌, ◌<◌, ◌≡◌, refl, ap, ◌∙◌}
use avalanche_s3_archival_no.Prelude.{true, false, List, [], ◌∷◌, ◌++◌, some, arith}
use avalanche_s3_archival_no.Prelude.{
  length, length-append, get_elem?, get_elem?-append_right, drop, last?,
}
use avalanche_s3_archival_no.Prelude.{
  get_elem?-append_left, All, Option-cases, inl, inr, last?-cases, append_assoc,
}
use avalanche_s3_archival_no.Prelude.Bytes.{Bytes, beq, beq_iff, take-append, drop-append}
use avalanche_s3_archival_no.Store.Manifest.{RunRef}
use avalanche_s3_archival_no.Store.Merge.{
  span_start, span_of, merge_span, span_refs, prev_name, swap_span, level_zero_at,
}
use avalanche_s3_archival_no.Store.Merge.Settle.{cut, cut_from, span_end-cut_from, prev_of}
use mathlib.Core.Option

abbrev pub IsL0 : RunRef → Type 0
IsL0 r = r.level ≡ 0

abbrev pub IsTerminal : RunRef → Type 0
IsTerminal r = r.level ≡ 1

All-get_elem? :
    (P : RunRef → Type 0) (xs : List RunRef) (i : ℕ)
    → All P xs
    → i < length xs
    → (r : RunRef) × (get_elem? xs i ≡ some r) × P r
All-get_elem? P [] i a h = elim h [ ]
All-get_elem? P (x ∷ xs) zero (p, a) h = (x, refl, p)
All-get_elem? P (x ∷ xs) (suc i) (p, a) h = All-get_elem? P xs i a (omega arith)

-- The second loop from a given start.
span_of-cut :
    (t i : ℕ) (rest : List RunRef)
    → span_of t i rest
      ≡ Option.map (λ (p : List RunRef × List RunRef). (i, i + length p.0)) (cut t rest)
unfolding span_of cut
span_of-cut t i [] = refl
span_of-cut t i (r ∷ rest) = elim (Option-cases (cut_from t r.from_tx (r ∷ rest))) [
  | inl e ↦ ground (arith, span_end-cut_from t r.from_tx (r ∷ rest) i)
  | inr (p, e) ↦ ground (arith, span_end-cut_from t r.from_tx (r ∷ rest) i)
]

span_at :
    (t : ℕ) (ts rest : List RunRef)
    → span_start (ts ++ rest) (length (ts ++ rest)) ≡ length ts
    → drop (length ts) (ts ++ rest) ≡ rest
    → merge_span t (ts ++ rest)
      ≡ Option.map
          (λ (p : List RunRef × List RunRef). (length ts, length ts + length p.0))
          (cut t rest)
unfolding merge_span
span_at t ts rest e d = rw (e, d) (span_of-cut t (length ts) rest)

module _ (ts rest : List RunRef) (high : All IsTerminal ts) (low : All IsL0 rest) where
  terminal_at : (i : ℕ) → i < length ts → level_zero_at (ts ++ rest) i ≡ false
  unfolding level_zero_at
  terminal_at i h =
      let (r, e, l) = All-get_elem? IsTerminal ts i high h in
      ground (arith, get_elem?-append_left ts rest i h, e, l)

  l0_at : (i : ℕ) → i < length rest → level_zero_at (ts ++ rest) (length ts + i) ≡ true
  unfolding level_zero_at
  l0_at i h =
      let (r, e, l) = All-get_elem? IsL0 rest i low h in
      ground (arith, get_elem?-append_right ts rest (length ts + i) i refl, e, l)

  start_at_terminals : (n : ℕ) → n ≡ length ts → span_start (ts ++ rest) n ≡ length ts
  unfolding span_start
  start_at_terminals zero e = e
  start_at_terminals (suc n) e = rw (terminal_at n (omega arith)) e

  start_behind :
      (n m : ℕ) → n ≤ length rest → m ≡ length ts + n → span_start (ts ++ rest) m ≡ length ts
  unfolding span_start
  start_behind zero m h e = start_at_terminals m (omega arith)
  start_behind (suc n) zero h e = absurd (omega arith)
  start_behind (suc n) (suc m) h e = ground (
    arith,
    l0_at n,
    ap (level_zero_at (ts ++ rest)) {x = m} {y = length ts + n},
    start_behind n m (omega arith),
  )

  -- The span starts behind the terminals, and ends where the shortest front of the L0 runs that
  -- reaches the boundary ends; there is none while no front reaches it.
  pub merge_span-cut :
      (t : ℕ)
      → merge_span t (ts ++ rest)
        ≡ Option.map
            (λ (p : List RunRef × List RunRef). (length ts, length ts + length p.0))
            (cut t rest)
  merge_span-cut t =
      span_at t ts rest
        (start_behind (length rest) (length (ts ++ rest)) (omega arith) (length-append ts rest))
        (drop-append ts rest (length ts) refl)

get_elem?-last : (x : RunRef) (xs : List RunRef) → get_elem? (x ∷ xs) (length xs) ≡ last? (x ∷ xs)
get_elem?-last x [] = refl
get_elem?-last x (y ∷ xs) = get_elem?-last y xs

same_name_refl : (x : RunRef) → beq x.name x.name ≡ true
same_name_refl x = (beq_iff x.name x.name).1 refl

-- A span that lies behind `ts` is found again and replaced by the merged run, whatever is behind it.
pub swap_span-found :
    (ts q : List RunRef) (x : RunRef) (xs : List RunRef) (m : RunRef)
    → swap_span (ts ++ ((x ∷ xs) ++ q)) (length ts) (length ts + length (x ∷ xs)) (x ∷ xs) m
      ≡ some (ts ++ (m ∷ q))
unfolding swap_span
swap_span-found ts q x xs m =
    let (z, e) = last?-cases x xs in
    let old : List RunRef = ts ++ ((x ∷ xs) ++ q) in
    let first : get_elem? old (length ts) ≡ some x =
      get_elem?-append_right ts ((x ∷ xs) ++ q) (length ts) 0 (omega arith) in
    let at_end : get_elem? old (length ts + length (x ∷ xs) - 1) ≡ some z =
      get_elem?-append_right ts ((x ∷ xs) ++ q) (length ts + length (x ∷ xs) - 1) (length xs)
        (omega arith)
      ∙ get_elem?-append_left (x ∷ xs) q (length xs) (omega arith)
      ∙ get_elem?-last x xs
      ∙ e in
    ground (
      arith,
      first,
      at_end,
      e,
      same_name_refl x,
      same_name_refl z,
      length-append ts ((x ∷ xs) ++ q),
      length-append (x ∷ xs) q,
      take-append ts ((x ∷ xs) ++ q) (length ts) refl,
      ap (drop (length ts + length (x ∷ xs))) (append_assoc ts (x ∷ xs) q),
      drop-append (ts ++ (x ∷ xs)) q (length ts + length (x ∷ xs)) (length-append ts (x ∷ xs)),
    )

pub span_refs-found :
    (ts g q : List RunRef) → span_refs (ts ++ (g ++ q)) (length ts) (length ts + length g) ≡ some g
unfolding span_refs
span_refs-found ts g q = ground (
  arith,
  length-append ts (g ++ q),
  length-append g q,
  drop-append ts (g ++ q) (length ts) refl,
  take-append g q (length ts + length g - length ts) (omega arith),
)

prev_of-last :
    (root : Bytes) (x : RunRef) (ts : List RunRef) (z : RunRef)
    → last? (x ∷ ts) ≡ some z
    → prev_of root (x ∷ ts) ≡ z.name
prev_of-last root x [] z e = ground arith
prev_of-last root x (y ∷ ts) z e = prev_of-last x.name y ts z e

pub prev_name-found :
    (root : Bytes) (ts rest : List RunRef)
    → prev_name root (ts ++ rest) (length ts) ≡ prev_of root ts
unfolding prev_name
prev_name-found root [] rest = ground arith
prev_name-found root (x ∷ ts) rest =
    let (z, e) = last?-cases x ts in
    ground (
      arith,
      get_elem?-append_left (x ∷ ts) rest (length ts),
      get_elem?-last x ts,
      prev_of-last root x ts z e,
    )

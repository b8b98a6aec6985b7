-- ===== src/Fetch/Forward/Count.antt =====
-- How many of the spans that are out cover a height.
use avalanche_s3_archival_no.Prelude.{
  ℕ, zero, suc, ◌+◌, ◌≤◌, ◌<◌, ◌≡◌, refl, sym, ap, arith, ◌==◌, leb, ltb, if◌then◌else◌,
}
use avalanche_s3_archival_no.Prelude.{
  true, false, List, [], ◌∷◌, ◌++◌, Option, none, some, All, ◌⊎◌, inl, inr, Bool-cases,
}
use mathlib.Core.Path.{subst}
use avalanche_s3_archival_no.Fetch.Forward.{Span, SpanResult, delete, spanned, pull}

abbrev pub covers : Span → ℕ → ℕ
covers s h = if leb s.lo h then (if leb h s.hi then 1 else 0) else 0

abbrev pub hits : List Span → ℕ → ℕ
hits [] h = 0
hits (s ∷ ss) h = covers s h + hits ss h

abbrev pub hits_in : List SpanResult → ℕ → ℕ
hits_in [] h = 0
hits_in (r ∷ rs) h = covers r.span h + hits_in rs h

abbrev pub hits_job : Option Span → ℕ → ℕ
hits_job none h = 0
hits_job (some s) h = covers s h

abbrev pub IsSpan : Span → Type 0
IsSpan s = s.lo ≤ s.hi

abbrev pub IsSpanOf : Option Span → Type 0
IsSpanOf none = Unit
IsSpanOf (some s) = IsSpan s

pub hits-append : (xs ys : List Span) (h : ℕ) → hits (xs ++ ys) h ≡ hits xs h + hits ys h
hits-append [] ys h = omega arith
hits-append (x ∷ xs) ys h = omega (arith, hits-append xs ys h)

abbrev pub In : SpanResult → List SpanResult → Type 0
In r [] = ⊥
In r (x ∷ xs) = (x ≡ r) ⊎ In r xs

-- Answers with the same lowest height.
abbrev pub twins : ℕ → List SpanResult → ℕ
twins lo [] = 0
twins lo (r ∷ rs) = (if r.span.lo == lo then 1 else 0) + twins lo rs

abbrev pub IsAnswer : SpanResult → Type 0
IsAnswer r = IsSpan r.span

pub twins-hits : (lo : ℕ) (rs : List SpanResult) → All IsAnswer rs → twins lo rs ≤ hits_in rs lo
twins-hits lo [] a = omega arith
twins-hits lo (r ∷ rs) (p, a) = ground (arith, twins-hits lo rs a)

pub In-twins : (r : SpanResult) (rs : List SpanResult) → In r rs → 1 ≤ twins r.span.lo rs
In-twins r [] i = absurd i
In-twins r (x ∷ xs) (inl e) =
    let e' : x.span.lo ≡ r.span.lo = ap (λ (y : SpanResult). y.span.lo) e in ground (arith, e')
In-twins r (x ∷ xs) (inr i) = omega (arith, In-twins r xs i)

pub delete-alone : (lo : ℕ) (rs : List SpanResult) → twins lo rs ≡ 0 → delete lo rs ≡ rs
unfolding delete
delete-alone lo [] e = refl
delete-alone lo (r ∷ rs) e = ground (arith, delete-alone lo rs)

pub delete-hits :
    (r : SpanResult) (rs : List SpanResult) (h : ℕ)
    → twins r.span.lo rs ≤ 1
    → In r rs
    → hits_in rs h ≡ covers r.span h + hits_in (delete r.span.lo rs) h
unfolding delete
delete-hits r [] h le i = absurd i
delete-hits r (x ∷ xs) h le (inl e) =
    let lo : x.span.lo ≡ r.span.lo = ap (λ (y : SpanResult). y.span.lo) e in
    let hit : covers x.span h ≡ covers r.span h = ap (λ (y : SpanResult). covers y.span h) e in
    let alone : twins r.span.lo xs ≡ 0 = ground (arith, lo) in
    ground
      (arith, lo, hit, ap (λ (l : List SpanResult). hits_in l h) (delete-alone r.span.lo xs alone))
delete-hits r (x ∷ xs) h le (inr i) =
    let other = In-twins r xs i in
    let fewer : twins r.span.lo xs ≤ 1 = omega arith in
    ground (arith, other, delete-hits r xs h fewer i)

pub delete-All :
    (P : SpanResult → Type 0) (lo : ℕ) (rs : List SpanResult) → All P rs → All P (delete lo rs)
unfolding delete
delete-All P lo [] a = tt
delete-All P lo (r ∷ rs) (p, a) = elim (Bool-cases (r.span.lo == lo)) [
  | inl e ↦ rw e (delete-All P lo rs a)
  | inr e ↦ rw e (p, delete-All P lo rs a)
]

module _ (want : ℕ) where
  pub spanned-hits :
      (rs : List SpanResult) (h : ℕ)
      → (hits_in (spanned want rs).0 h ≤ hits_in rs h)
        × ((h < want) ⊎ (hits_in (spanned want rs).0 h ≡ hits_in rs h))
  unfolding spanned
  spanned-hits [] h = (omega arith, inr refl)
  spanned-hits (r ∷ rs) h = ground (arith, spanned-hits rs h)

  pub spanned-All :
      (P : SpanResult → Type 0) (rs : List SpanResult) → All P rs → All P (spanned want rs).0
  unfolding spanned
  spanned-All P [] a = tt
  spanned-All P (r ∷ rs) (p, a) = elim (Bool-cases (ltb r.span.hi want)) [
    | inl e ↦ rw e (spanned-All P rs a)
    | inr e ↦ elim (Bool-cases (leb r.span.lo want)) [
      | inl f ↦ rw (e, f) (p, spanned-All P rs a)
      | inr f ↦ rw (e, f) (p, spanned-All P rs a)
    ]
  ]

  module _ (x : SpanResult) (rs : List SpanResult) where
    pub spanned-past : ltb x.span.hi want ≡ true → spanned want (x ∷ rs) ≡ spanned want rs
    unfolding spanned
    spanned-past a = ground (arith, a)

    pub spanned-above :
        ltb x.span.hi want ≡ false
        → leb x.span.lo want ≡ false
        → spanned want (x ∷ rs) ≡ (x ∷ (spanned want rs).0, (spanned want rs).1)
    unfolding spanned
    spanned-above a b = ground (arith, a, b)

    pub spanned-here :
        ltb x.span.hi want ≡ false
        → leb x.span.lo want ≡ true
        → spanned want (x ∷ rs) ≡ (
          x ∷ (spanned want rs).0,
          elim (spanned want rs).1 [ none ↦ some x | some later ↦ some later ],
        )
    unfolding spanned
    spanned-here a b = ground (arith, a, b)

  -- An answer that was found is still there, and covers the height.
  unfoldable pub IsHit : List SpanResult × Option SpanResult → Type 0
  IsHit (rs, none) = Unit
  IsHit (rs, some r) = In r rs × (r.span.lo ≤ want) × (want ≤ r.span.hi)

  IsHit-cons :
      (x : SpanResult) (p : List SpanResult × Option SpanResult) → IsHit p → IsHit (x ∷ p.0, p.1)
  unfolding IsHit
  IsHit-cons x (rs, none) i = tt
  IsHit-cons x (rs, some r) (i, h, h2) = (inr i, h, h2)

  IsHit-here :
      (x : SpanResult) (p : List SpanResult × Option SpanResult)
      → x.span.lo ≤ want
      → want ≤ x.span.hi
      → IsHit p
      → IsHit (x ∷ p.0, elim p.1 [ none ↦ some x | some later ↦ some later ])
  unfolding IsHit
  IsHit-here x (rs, none) a b i = (inl refl, a, b)
  IsHit-here x (rs, some r) a b (i, h, h2) = (inr i, h, h2)

  pub spanned-IsHit : (rs : List SpanResult) → IsHit (spanned want rs)
  unfolding spanned IsHit
  spanned-IsHit [] = tt
  spanned-IsHit (x ∷ rs) = elim (Bool-cases (ltb x.span.hi want)) [
    | inl a ↦ subst IsHit (sym (spanned-past x rs a)) (spanned-IsHit rs)
    | inr a ↦ elim (Bool-cases (leb x.span.lo want)) [
      | inr b ↦
          subst IsHit (sym (spanned-above x rs a b))
            (IsHit-cons x (spanned want rs) (spanned-IsHit rs))
      | inl b ↦
          subst IsHit (sym (spanned-here x rs a b))
            (IsHit-here x (spanned want rs) (ground arith) (ground arith) (spanned-IsHit rs))
    ]
  ]

pub pull-hits :
    (k : ℕ) (ss : List Span) (s : Span) (h : ℕ)
    → (pull k ss).1 ≡ some s
    → hits ss h ≡ covers s h + hits (pull k ss).0 h
unfolding pull
pull-hits k [] s h e = absurd (cc)
pull-hits zero (x ∷ ss) s h e = let e' : x ≡ s = cc in rw (sym e') refl
pull-hits (suc k) (x ∷ ss) s h e = omega (arith, pull-hits k ss s h e)

pub pull-All :
    (P : Span → Type 0) (k : ℕ) (ss : List Span) (s : Span)
    → (pull k ss).1 ≡ some s
    → All P ss
    → P s × All P (pull k ss).0
unfolding pull
pull-All P k [] s e a = absurd (cc)
pull-All P zero (x ∷ ss) s e (p, a) = let e' : x ≡ s = cc in rw (sym e') (p, a)
pull-All P (suc k) (x ∷ ss) s e (p, a) = let (q, a') = pull-All P k ss s e a in (q, (p, a'))

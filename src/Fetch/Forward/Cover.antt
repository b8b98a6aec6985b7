-- ===== src/Fetch/Forward/Cover.antt =====
-- No height is lost: whatever comes back and in what order, each height between the head of the queue
-- and the next one to schedule is in exactly one span.
use avalanche_s3_archival_no.Prelude.{ℕ, ◌+◌, ◌^◌, ◌≤◌, ◌<◌, ◌≡◌, refl, sym, ap, arith, leb, add64}
use avalanche_s3_archival_no.Prelude.{
  Bool, true, false, List, [], ◌∷◌, ◌++◌, Option, none, some, All, All-append, ◌⊎◌, inl, inr,
  Bool-cases, Option-cases,
}
use avalanche_s3_archival_no.Prelude.Bytes.{Bytes}
use mathlib.Core.Path.{subst}
use avalanche_s3_archival_no.Fetch.Queue.{Parsed, Queue, RawBlock, takes, appended, join_span}
use avalanche_s3_archival_no.Fetch.Queue.Join.{
  join_span-nil, join_span-skip, join_span-take, join_span-stop,
}
use avalanche_s3_archival_no.Fetch.Forward.{
  Span, SpanResult, Forward, delete, spanned, joined, join_round,
}
use avalanche_s3_archival_no.Fetch.Forward.Count.{
  covers, hits, hits_in, hits_job, IsSpan, IsSpanOf, IsAnswer, hits-append, In, twins, twins-hits,
  delete-hits, delete-All, spanned-hits, spanned-All, IsHit, spanned-IsHit,
}

-- Blocks numbered without a gap from a height up to another.
abbrev pub Steps : ℕ → List RawBlock → ℕ → Type 0
Steps lo [] hi = lo ≡ hi + 1
Steps lo (b ∷ bs) hi = (b.p.block_number ≡ lo) × Steps (lo + 1) bs hi

-- An answer has all the heights of its span.
pub record IsWhole (r : SpanResult) : Type 0 where
  pub span : IsSpan r.span
  pub steps : Steps r.span.lo r.blocks r.span.hi

abbrev pub out_at : Forward → ℕ → ℕ
out_at f h = hits f.redo h + hits_job f.job h + hits f.working h + hits_in f.pending h

pub record IsCovered (f : Forward) : Type 0 where
  pub once : (h : ℕ) → out_at f h ≤ 1
  pub ahead : (h : ℕ) → f.next ≤ h → out_at f h ≡ 0
  pub covered : (h : ℕ) → f.q.head < h → h < f.next → out_at f h ≡ 1
  pub redo : All IsSpan f.redo
  pub job : IsSpanOf f.job
  pub working : All IsSpan f.working
  pub pending : All IsWhole f.pending
  pub next_fits : f.next ≤ 2 ^ 63
  pub head_fits : f.q.head < 2 ^ 63

-- How a queue comes out of joining a span up to `hi`.
abbrev Stops : ℕ → ℕ → Queue × Option ℕ → Type 0
Stops head hi (q, r) =
    (head ≤ q.head)
    × (((r ≡ none) × (hi ≤ q.head)) ⊎ ((r ≡ some (q.head + 1)) × (q.head < hi)))
    × ((q.head ≤ hi) ⊎ (q.head ≤ head))

pub appended-head :
    (q : Queue) (p : Parsed) (raw : Bytes) → (appended q p raw).head ≡ p.block_number
unfolding appended
appended-head q p raw = refl

Steps-le : (lo : ℕ) (bs : List RawBlock) (hi : ℕ) → Steps lo bs hi → lo ≤ hi + 1
Steps-le lo [] hi e = omega arith
Steps-le lo (b ∷ bs) hi (e, s) = omega (arith, Steps-le (lo + 1) bs hi s)

pub takes-number :
    (q : Queue) (p : Parsed) → q.head < 2 ^ 63 → takes q p ≡ true → p.block_number ≡ q.head + 1
unfolding takes
takes-number q p lt e = ground (arith, e)

join_span-Stops :
    (bs : List RawBlock) (lo hi : ℕ) (q : Queue)
    → Steps lo bs hi
    → lo ≤ q.head + 1
    → q.head < 2 ^ 63
    → hi < 2 ^ 63
    → Stops q.head hi (join_span q bs)
join_span-Stops [] lo hi q s le lt fit =
    subst (Stops q.head hi) (sym (join_span-nil q))
      (omega arith, inl (refl, omega arith), inr (omega arith))
join_span-Stops (b ∷ bs) lo hi q (e, s) le lt fit =
    elim (Bool-cases (leb b.p.block_number q.head)) [
      | inl old ↦
          subst (Stops q.head hi) (sym (join_span-skip q b bs old))
            (join_span-Stops bs (lo + 1) hi q s (ground arith) lt fit)
      | inr new ↦ elim (Bool-cases (takes q b.p)) [
        | inr bad ↦
            let same : b.p.block_number ≡ q.head + 1 = ground arith in
            subst (Stops q.head hi) (sym (join_span-stop q b bs new bad)) (
              omega arith,
              inr (ap some same, omega (arith, Steps-le (lo + 1) bs hi s)),
              inr (omega arith),
            )
        | inl good ↦
            let num = appended-head q b.p b.raw in
            let is = takes-number q b.p lt good in
            let top = Steps-le (lo + 1) bs hi s in
            let (up, how, most) =
              join_span-Stops bs (lo + 1) hi (appended q b.p b.raw) s (omega (arith, num))
                (omega (arith, num)) fit in
            subst (Stops q.head hi) (sym (join_span-take q b bs new good))
              (omega (arith, num, up), how, ground (arith, most, num, top))
      ]
    ]

abbrev pub rejoined : Queue × Option ℕ → SpanResult → Forward → Forward
rejoined (q, stopped) r f = record f {
  q = q;
  redo = elim stopped [
    | none ↦ f.redo
    | some bad ↦ f.redo ++ (record { lo = bad; hi = r.span.hi } ∷ [])
  ];
}

rejoined-IsCovered :
    (f : Forward) (r : SpanResult) (rest : List SpanResult) (p : Queue × Option ℕ)
    → IsCovered f
    → ((h : ℕ) → covers r.span h + hits_in rest h ≤ hits_in f.pending h)
    → ((h : ℕ) → f.q.head < h → hits_in f.pending h ≡ covers r.span h + hits_in rest h)
    → r.span.lo ≤ f.q.head + 1
    → r.span.hi < 2 ^ 63
    → All IsWhole rest
    → Stops f.q.head r.span.hi p
    → IsCovered (rejoined p r (record f { pending = rest }))
rejoined-IsCovered f r rest (q, none) v few same lo fit whole (up, inr (e, lt), most) = absurd (cc)
rejoined-IsCovered f r rest (q, none) v few same lo fit whole (up, inl (e, all), most) = record {
  once = λ h. omega (arith, v.once h, few h);
  ahead = λ h lt. omega (arith, v.ahead h lt, few h);
  covered = λ h a b. ground (arith, v.covered h (omega arith) b, same h (omega arith));
  redo = v.redo;
  job = v.job;
  working = v.working;
  pending = whole;
  next_fits = v.next_fits;
  head_fits = ground (arith, v.head_fits);
}
rejoined-IsCovered f r rest (q, some bad) v few same lo fit whole (up, inl (e, all), most) =
    absurd (cc)
rejoined-IsCovered f r rest (q, some bad) v few same lo fit whole (up, inr (e, lt), most) =
    let at : bad ≡ q.head + 1 = cc in
    let again : Span = record { lo = bad; hi = r.span.hi } in
    let sum : (h : ℕ) → hits (f.redo ++ (again ∷ [])) h ≡ hits f.redo h + covers again h =
      λ h. omega (arith, hits-append f.redo (again ∷ []) h) in
    let less : (h : ℕ) → covers again h ≤ covers r.span h = λ h. ground arith in
    record {
      once = λ h. omega (arith, v.once h, few h, sum h, less h);
      ahead = λ h a. omega (arith, v.ahead h a, few h, sum h, less h);
      covered = λ h a b. ground (arith, v.covered h (omega arith) b, same h (omega arith), sum h);
      redo = All-append IsSpan f.redo (again ∷ []) v.redo (omega arith, tt);
      job = v.job;
      working = v.working;
      pending = whole;
      next_fits = v.next_fits;
      head_fits = omega arith;
    }

All-In :
    (P : SpanResult → Type 0) (r : SpanResult) (rs : List SpanResult) → In r rs → All P rs → P r
All-In P r [] i a = absurd i
All-In P r (x ∷ rs) (inl e) (p, a) = rw (sym e) p
All-In P r (x ∷ rs) (inr i) (p, a) = All-In P r rs i a

pub IsAnswer-All : (rs : List SpanResult) → All IsWhole rs → All IsAnswer rs
IsAnswer-All [] a = tt
IsAnswer-All (r ∷ rs) (w, a) = (w.span, IsAnswer-All rs a)

module _ (f : Forward) where
  abbrev pub want : ℕ
  want = add64 f.q.head 1

  abbrev pub kept : List SpanResult
  kept = (spanned want f.pending).0

  abbrev pub round_of : Option SpanResult → Forward × Bool
  round_of hit = elim hit [
    | none ↦ (record f { pending = kept }, false)
    | some r ↦
        (rejoined (join_span f.q r.blocks) r (record f { pending = delete r.span.lo kept }), true)
  ]

  pub join_round-lem : join_round f ≡ round_of (spanned want f.pending).1
  unfolding join_round joined
  join_round-lem = refl

  found-IsCovered :
      (r : SpanResult)
      → IsCovered f
      → IsHit want (spanned want f.pending)
      → (spanned want f.pending).1 ≡ some r
      → IsCovered
          (rejoined (join_span f.q r.blocks) r (record f { pending = delete r.span.lo kept }))
  unfolding IsHit
  found-IsCovered r v i e =
      let (here, lo, hi) = subst (λ (o : Option SpanResult). IsHit want (kept, o)) e i in
      let fits = v.head_fits in
      let up : want ≡ f.q.head + 1 = omega arith in
      let whole = spanned-All want IsWhole f.pending v.pending in
      let gone = spanned-hits want f.pending in
      let single : twins r.span.lo kept ≤ 1 = omega (
        arith,
        twins-hits r.span.lo kept (IsAnswer-All kept whole),
        gone r.span.lo,
        v.once r.span.lo,
      ) in
      let one = λ (h : ℕ). delete-hits r kept h single here in
      let low : r.span.hi < f.next =
        ground (arith, v.ahead r.span.hi, one r.span.hi, gone r.span.hi, lo, hi) in
      let w = All-In IsWhole r kept here whole in
      rejoined-IsCovered f r (delete r.span.lo kept) (join_span f.q r.blocks) v
        (λ h. omega (arith, one h, gone h)) (λ h lt. ground (arith, one h, gone h, up))
        (omega (arith, up)) (omega (arith, low, v.next_fits))
        (delete-All IsWhole r.span.lo kept whole)
        (join_span-Stops r.blocks r.span.lo r.span.hi f.q w.steps (omega (arith, up)) fits
          (omega (arith, low, v.next_fits)))

  pub join_round-IsCovered : IsCovered f → IsCovered (join_round f).0
  join_round-IsCovered v =
      let gone = spanned-hits want f.pending in
      let fits = v.head_fits in
      let up : want ≡ f.q.head + 1 = omega arith in
      subst (λ (x : Forward × Bool). IsCovered x.0) (sym join_round-lem)
        (elim (Option-cases (spanned want f.pending).1) [
          | inr (r, e) ↦
              subst (λ (o : Option SpanResult). IsCovered (round_of o).0) (sym e)
                (found-IsCovered r v (spanned-IsHit want f.pending) e)
          | inl e ↦
              subst (λ (o : Option SpanResult). IsCovered (round_of o).0) (sym e)
                record {
                  once = λ h. omega (arith, v.once h, gone h);
                  ahead = λ h lt. omega (arith, v.ahead h lt, gone h);
                  covered = λ h a b. ground (arith, v.covered h a b, gone h, up);
                  redo = v.redo;
                  job = v.job;
                  working = v.working;
                  pending = spanned-All want IsWhole f.pending v.pending;
                  next_fits = v.next_fits;
                  head_fits = v.head_fits;
                }
        ])

-- ===== src/Fetch/Forward/Rule.antt =====
-- The window rule: what it schedules, and every state that the ascending fetch comes to.
use avalanche_s3_archival_no.Prelude.{ℕ, ◌+◌, ◌^◌, ◌≤◌, ◌<◌, ◌≡◌, refl, sym, ap, ◌∙◌, arith, add64}
use avalanche_s3_archival_no.Prelude.{
  true, false, List, [], ◌∷◌, Option, none, some, length, ◌⊎◌, inl, inr, Bool-cases, Option-cases,
}
use native.Mathlib.Decide.{dec_lt}
use mathlib.Core.Path.{subst}
use avalanche_s3_archival_no.Fetch.Forward.{
  Span, SpanResult, Forward, next_from, fills, window_target, has_room, span_top, take_job,
  window_rule, tip_target, window_blocks, refill_below, queue_max_bytes, span_blocks,
}
use avalanche_s3_archival_no.Fetch.Forward.Count.{hits, hits_job, hits_in}
use avalanche_s3_archival_no.Fetch.Forward.Cover.{IsCovered}
use avalanche_s3_archival_no.Fetch.Forward.Moves.{
  caught_up, caught_up-IsCovered, take_redo-IsCovered, take_new-IsCovered,
}

module _ (target : ℕ) (f : Forward) where
  take_job-redo :
      (s : Span) (ss : List Span)
      → take_job target (s ∷ ss) f ≡ (record f { job = some s; redo = ss })
  unfolding take_job
  take_job-redo s ss = refl

  take_job-new :
      f.next ≤ target
      → take_job target [] f ≡ (record f {
        job = some (record { lo = f.next; hi = span_top f.next target });
        next = add64 (span_top f.next target) 1;
      })
  unfolding take_job
  take_job-new le = ground arith

  take_job-none : target < f.next → take_job target [] f ≡ f
  unfolding take_job
  take_job-none lt = ground arith

span_top-bounds :
    (next target : ℕ)
    → next ≤ target
    → target < 2 ^ 63
    → (next ≤ span_top next target)
      × (span_top next target ≤ target)
      × (span_top next target < next + span_blocks)
unfolding span_top
span_top-bounds next target le fit = ground arith

take_job-IsCovered :
    (target : ℕ) (f : Forward) (redo : List Span)
    → f.redo ≡ redo
    → f.job ≡ none
    → target < 2 ^ 63
    → IsCovered f
    → IsCovered (take_job target redo f)
take_job-IsCovered target f (s ∷ ss) r e fit v =
    subst IsCovered (sym (take_job-redo target f s ss)) (take_redo-IsCovered f s ss e r v)
take_job-IsCovered target f [] r e fit v = elim (dec_lt target f.next) [
  | yes over ↦ subst IsCovered (sym (take_job-none target f over)) v
  | no room ↦
      let (lo, hi, most) = span_top-bounds f.next target (omega arith) fit in
      subst IsCovered (sym (take_job-new target f (omega arith)))
        (take_new-IsCovered f (span_top f.next target) e lo (omega arith) v)
]

tip_target-fits :
    (tip ceiling : ℕ) → tip < 2 ^ 63 → ceiling < 2 ^ 63 → tip_target tip ceiling < 2 ^ 63
unfolding tip_target
tip_target-fits tip ceiling a b = ground arith

window_target-le :
    (tip ceiling : ℕ) (f : Forward)
    → (window_target tip ceiling f ≤ tip_target tip ceiling)
      × (window_target tip ceiling f ≤ add64 f.q.consumed window_blocks)
unfolding window_target
window_target-le tip ceiling f = ground arith

module _ (tip ceiling : ℕ) (f : Forward) where
  window_rule-busy : (s : Span) → f.job ≡ some s → window_rule tip ceiling f ≡ caught_up f
  unfolding window_rule caught_up
  window_rule-busy s e = ground (arith, e)

  window_rule-full : f.job ≡ none → has_room f ≡ false → window_rule tip ceiling f ≡ caught_up f
  unfolding window_rule caught_up
  window_rule-full e r = ground (arith, e, r)

  window_rule-taken :
      f.job ≡ none
      → has_room f ≡ true
      → window_rule tip ceiling f ≡ take_job (window_target tip ceiling f) f.redo (caught_up f)
  unfolding window_rule caught_up
  window_rule-taken e r = ground (arith, e, r)

  pub window_rule-IsCovered :
      tip < 2 ^ 63 → ceiling < 2 ^ 63 → IsCovered f → IsCovered (window_rule tip ceiling f)
  unfolding caught_up
  window_rule-IsCovered a b v = elim (Option-cases f.job) [
    | inr (s, e) ↦ subst IsCovered (sym (window_rule-busy s e)) (caught_up-IsCovered f v)
    | inl e ↦ elim (Bool-cases (has_room f)) [
      | inr r ↦ subst IsCovered (sym (window_rule-full e r)) (caught_up-IsCovered f v)
      | inl r ↦
          let fit = tip_target-fits tip ceiling a b in
          let (le, top) = window_target-le tip ceiling f in
          subst IsCovered (sym (window_rule-taken e r)) (
            take_job-IsCovered (window_target tip ceiling f) (caught_up f) f.redo refl e
              (omega arith) (caught_up-IsCovered f v))
    ]
  ]

-- A span that is new: where it begins and how far it may go.
abbrev IsNewSpan : ℕ → ℕ → Forward → Span → Type 0
IsNewSpan tip ceiling f s =
    (s.lo ≡ next_from f)
    × (s.lo ≤ s.hi)
    × (s.hi < s.lo + span_blocks)
    × (s.hi ≤ tip_target tip ceiling)
    × (s.hi ≤ f.q.consumed + window_blocks)

-- What the window rule has made of the state.
abbrev pub Ruled : ℕ → ℕ → Forward → Forward → Type 0
Ruled tip ceiling f g =
    ((g.job ≡ none) × (g.next ≡ next_from f) × (g.redo ≡ f.redo))
    ⊎ ((s : Span) × (g.job ≡ some s) × (g.next ≡ next_from f) × (f.redo ≡ s ∷ g.redo))
    ⊎ ((s : Span) × (g.job ≡ some s)
        × (g.next ≡ s.hi + 1)
        × (f.redo ≡ [])
        × IsNewSpan tip ceiling f s)

take_job-Ruled :
    (tip ceiling : ℕ) (f : Forward) (redo : List Span)
    → f.redo ≡ redo
    → f.job ≡ none
    → tip < 2 ^ 63
    → ceiling < 2 ^ 63
    → f.q.consumed < 2 ^ 63
    → Ruled tip ceiling f (take_job (window_target tip ceiling f) redo (caught_up f))
unfolding caught_up
take_job-Ruled tip ceiling f (s ∷ ss) r e a b c =
    subst (Ruled tip ceiling f)
      (sym (take_job-redo (window_target tip ceiling f) (caught_up f) s ss))
      (inr (inl (s, refl, refl, r)))
take_job-Ruled tip ceiling f [] r e a b c =
    let target = window_target tip ceiling f in
    let next = next_from f in
    elim (dec_lt target next) [
      | yes over ↦
          subst (Ruled tip ceiling f) (sym (take_job-none target (caught_up f) over))
            (inl (e, refl, refl))
      | no room ↦
          let fit = tip_target-fits tip ceiling a b in
          let (le, top) = window_target-le tip ceiling f in
          let (lo, hi, most) = span_top-bounds next target (omega arith) (omega arith) in
          let span : Span = record { lo = next; hi = span_top next target } in
          subst (Ruled tip ceiling f) (sym (take_job-new target (caught_up f) (omega arith)))
            (inr (inr (span, refl, omega arith, r, (refl, lo, most, omega arith, omega arith))))
    ]

window_target-ge :
    (tip ceiling : ℕ) (f : Forward) (n : ℕ)
    → n ≤ tip_target tip ceiling
    → n ≤ f.q.consumed + refill_below
    → f.q.consumed < 2 ^ 63
    → n ≤ window_target tip ceiling f
unfolding window_target
window_target-ge tip ceiling f n a b c = ground arith

none_out-next :
    (f : Forward)
    → IsCovered f
    → f.redo ≡ []
    → f.job ≡ none
    → f.working ≡ []
    → f.pending ≡ []
    → f.next ≤ f.q.head + 1
none_out-next f v e1 e2 e3 e4 = elim (dec_lt (f.q.head + 1) f.next) [
  | no le ↦ omega arith
  | yes lt ↦
      let top = f.q.head + 1 in
      let a : hits f.redo top ≡ 0 = ap (λ (l : List Span). hits l top) e1 in
      let b : hits_job f.job top ≡ 0 = ap (λ (o : Option Span). hits_job o top) e2 in
      let c : hits f.working top ≡ 0 = ap (λ (l : List Span). hits l top) e3 in
      let d : hits_in f.pending top ≡ 0 = ap (λ (l : List SpanResult). hits_in l top) e4 in
      absurd (omega (arith, v.covered top (omega arith) lt, a, b, c, d))
]

refill-has_room :
    (f : Forward)
    → f.next ≤ f.q.head + 1
    → f.working ≡ []
    → f.q.consumed ≤ f.q.head
    → f.q.head < f.q.consumed + refill_below
    → f.q.bytes < queue_max_bytes
    → f.q.head < 2 ^ 63
    → (has_room f ≡ true) × (next_from f ≡ f.q.head + 1)
unfolding has_room fills next_from
refill-has_room f n e le few small fit =
    let idle : length f.working ≡ 0 = ap (λ (l : List Span). length l) e in ground (arith, idle)

module _ (tip ceiling : ℕ) (f : Forward) where
  -- With no job waiting, the window rule leaves it so; or it hands out the first of the spans that
  -- came back; or, when none did, a new span: it begins at the next height that was never scheduled,
  -- has at most 4096 heights, and ends neither above the tip (or its ceiling) nor more than 100000
  -- above what was executed, and the next height is then the one after it.
  pub window_rule-Ruled :
      f.job ≡ none
      → tip < 2 ^ 63
      → ceiling < 2 ^ 63
      → f.q.consumed < 2 ^ 63
      → Ruled tip ceiling f (window_rule tip ceiling f)
  unfolding caught_up
  window_rule-Ruled e a b c = elim (Bool-cases (has_room f)) [
    | inr r ↦
        subst (Ruled tip ceiling f) (sym (window_rule-full tip ceiling f e r)) (inl (e, refl, refl))
    | inl r ↦
        subst (Ruled tip ceiling f) (sym (window_rule-taken tip ceiling f e r))
          (take_job-Ruled tip ceiling f f.redo refl e a b c)
  ]

  -- When every span has come back and joined, the executor is less than 50000 behind the head, the
  -- queue is under its limit in bytes and the head is below the tip, the window rule hands out a
  -- span that begins right above the head: the fetch does not stall.
  pub window_rule-refills :
      IsCovered f
      → f.redo ≡ []
      → f.job ≡ none
      → f.working ≡ []
      → f.pending ≡ []
      → f.q.consumed ≤ f.q.head
      → f.q.head < f.q.consumed + refill_below
      → f.q.bytes < queue_max_bytes
      → f.q.head < tip_target tip ceiling
      → tip < 2 ^ 63
      → ceiling < 2 ^ 63
      → (s : Span) × ((window_rule tip ceiling f).job ≡ some s)
        × (s.lo ≡ f.q.head + 1)
        × (s.lo ≤ s.hi)
  unfolding caught_up
  window_rule-refills v e1 e2 e3 e4 le few small below a b =
      let next = none_out-next f v e1 e2 e3 e4 in
      let (room, is) = refill-has_room f next e3 le few small v.head_fits in
      let target = window_target tip ceiling f in
      let at : f.q.head + 1 ≤ target =
        window_target-ge tip ceiling f (f.q.head + 1) (omega arith) (omega arith)
          (omega (arith, v.head_fits)) in
      let (lo, hi, most) =
        span_top-bounds (next_from f) target (omega (arith, is))
          (omega (arith, (window_target-le tip ceiling f).0, tip_target-fits tip ceiling a b)) in
      let job_of = λ (g : Forward). g.job in
      (
        record { lo = next_from f; hi = span_top (next_from f) target },
        ap job_of (window_rule-taken tip ceiling f e2 room)
            ∙ ap (λ (redo : List Span). (take_job target redo (caught_up f)).job) e1
            ∙ ap job_of (take_job-new target (caught_up f) (omega (arith, is))),
        is,
        lo,
      )

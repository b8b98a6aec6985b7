-- ===== src/Fetch/Forward/Moves.antt =====
-- Every other move of the ascending fetch keeps its spans covering what they have to.
use avalanche_s3_archival_no.Prelude.{
  ℕ, zero, suc, ◌+◌, ◌^◌, ◌≤◌, ◌<◌, ◌≡◌, refl, sym, ap, ◌∙◌, arith, leb, add64,
}
use avalanche_s3_archival_no.Prelude.{
  List, ◌∷◌, Option, none, some, All, inl, inr, Bool-cases, Option-cases,
}
use mathlib.Core.Path.{subst}
use avalanche_s3_archival_no.Fetch.Queue.{
  Queue, RawBlock, takes, append, get_by_height, hand_over, release, release_loop, release_one,
  keep_behind,
}
use avalanche_s3_archival_no.Fetch.Queue.Release.{
  release_loop-zero, release_loop-more, release_loop-done,
}
use avalanche_s3_archival_no.Fetch.Forward.{
  Span, SpanResult, Forward, put_result, pull, start_forward, next_from, fills, hand_out, arrive,
}
use avalanche_s3_archival_no.Fetch.Forward.Count.{
  covers, hits, hits_in, hits_job, IsSpan, IsSpanOf, twins, twins-hits, delete-alone, delete-All,
  pull-hits, pull-All,
}
use avalanche_s3_archival_no.Fetch.Forward.Cover.{
  Steps, IsWhole, IsCovered, appended-head, takes-number, IsAnswer-All,
}

pub start_forward-IsCovered : (q : Queue) → q.head + 1 < 2 ^ 63 → IsCovered (start_forward q)
unfolding start_forward
start_forward-IsCovered q lt =
    let next : add64 q.head 1 ≡ q.head + 1 = omega arith in
    record {
      once = λ h. omega arith;
      ahead = λ h a. refl;
      covered = λ h a b. absurd (omega (arith, next));
      redo = tt;
      job = tt;
      working = tt;
      pending = tt;
      next_fits = omega (arith, next);
      head_fits = omega arith;
    }

-- The queue moves on by itself, never back.
pub moved-IsCovered :
    (f : Forward) (q : Queue)
    → IsCovered f
    → f.q.head ≤ q.head
    → q.head < 2 ^ 63
    → IsCovered (record f { q = q })
moved-IsCovered f q v le fit = record {
  once = v.once;
  ahead = v.ahead;
  covered = λ h a b. v.covered h (omega arith) b;
  redo = v.redo;
  job = v.job;
  working = v.working;
  pending = v.pending;
  next_fits = v.next_fits;
  head_fits = fit;
}

pub append-head :
    (q : Queue) (b : RawBlock)
    → q.head < 2 ^ 63
    → b.p.block_number < 2 ^ 63
    → (q.head ≤ (append q b.p b.raw).0.head) × ((append q b.p b.raw).0.head < 2 ^ 63)
unfolding append
append-head q b lt fit = elim (Bool-cases (takes q b.p)) [
  | inr bad ↦ rw bad (omega arith, lt)
  | inl good ↦
      let num = appended-head q b.p b.raw in
      let is = takes-number q b.p lt good in rw good (omega (arith, num), omega (arith, num))
]

release_one-head : (q : Queue) → (release_one q).head ≡ q.head
unfolding release_one
release_one-head q = ground arith

release_loop-head : (fuel up_to : ℕ) (q : Queue) → (release_loop fuel up_to q).head ≡ q.head
release_loop-head zero up_to q = ap (λ (x : Queue). x.head) (release_loop-zero up_to q)
release_loop-head (suc fuel) up_to q = elim (Bool-cases (leb (add64 q.low keep_behind) up_to)) [
  | inl more ↦
      ap (λ (x : Queue). x.head) (release_loop-more fuel up_to q more)
      ∙ release_loop-head fuel up_to (release_one q)
      ∙ release_one-head q
  | inr done ↦ ap (λ (x : Queue). x.head) (release_loop-done fuel up_to q done)
]

pub get_by_height-head : (q : Queue) (n : ℕ) → (get_by_height q n).0.head ≡ q.head
unfolding get_by_height hand_over release
get_by_height-head q n = ground (arith, release_loop-head (suc n) n (record q { consumed = n }))

pull-answer :
    (k : ℕ) (blocks : List RawBlock) (f : Forward) (s : Span)
    → (pull k f.working).1 ≡ some s
    → arrive k blocks f ≡ (record f {
      working = (pull k f.working).0;
      pending = put_result (record { span = s; blocks = blocks }) f.pending;
    })
unfolding arrive
pull-answer k blocks f s e = ground (arith, e)

pull-nothing :
    (k : ℕ) (blocks : List RawBlock) (f : Forward)
    → (pull k f.working).1 ≡ none
    → arrive k blocks f ≡ f
unfolding arrive
pull-nothing k blocks f e = ground (arith, e)

-- A worker's answer has every height of the span that the worker took.
pub IsReply : ℕ → List RawBlock → Forward → Type 0
IsReply k blocks f = (s : Span) → (pull k f.working).1 ≡ some s → Steps s.lo blocks s.hi

pub arrive-IsCovered :
    (k : ℕ) (blocks : List RawBlock) (f : Forward)
    → IsReply k blocks f
    → IsCovered f
    → IsCovered (arrive k blocks f)
unfolding IsReply put_result
arrive-IsCovered k blocks f reply v = elim (Option-cases (pull k f.working).1) [
  | inl e ↦ subst IsCovered (sym (pull-nothing k blocks f e)) v
  | inr (s, e) ↦
      let one = λ (h : ℕ). pull-hits k f.working s h e in
      let (span, rest) = pull-All IsSpan k f.working s e v.working in
      let here : covers s s.lo ≡ 1 = ground arith in
      let none_there : twins s.lo f.pending ≡ 0 = omega (
        arith,
        one s.lo,
        here,
        v.once s.lo,
        twins-hits s.lo f.pending (IsAnswer-All f.pending v.pending),
      ) in
      let same = λ (h : ℕ).
        ap (λ (l : List SpanResult). hits_in l h) (delete-alone s.lo f.pending none_there) in
      subst IsCovered (sym (pull-answer k blocks f s e)) record {
        once = λ h. omega (arith, v.once h, one h, same h);
        ahead = λ h a. omega (arith, v.ahead h a, one h, same h);
        covered = λ h a b. omega (arith, v.covered h a b, one h, same h);
        redo = v.redo;
        job = v.job;
        working = rest;
        pending = (
          record { span = span; steps = reply s e },
          delete-All IsWhole s.lo f.pending v.pending,
        );
        next_fits = v.next_fits;
        head_fits = v.head_fits;
      }
]

hand_out-idle : (f : Forward) → f.job ≡ none → hand_out f ≡ f
unfolding hand_out
hand_out-idle f e = ground (arith, e)

hand_out-job :
    (f : Forward) (s : Span)
    → f.job ≡ some s
    → hand_out f ≡ (record f { job = none; working = s ∷ f.working })
unfolding hand_out
hand_out-job f s e = ground (arith, e)

pub hand_out-IsCovered : (f : Forward) → IsCovered f → IsCovered (hand_out f)
hand_out-IsCovered f v = elim (Option-cases f.job) [
  | inl e ↦ subst IsCovered (sym (hand_out-idle f e)) v
  | inr (s, e) ↦
      let same = λ (h : ℕ). ap (λ (o : Option Span). hits_job o h) e in
      subst IsCovered (sym (hand_out-job f s e)) record {
        once = λ h. omega (arith, v.once h, same h);
        ahead = λ h a. omega (arith, v.ahead h a, same h);
        covered = λ h a b. omega (arith, v.covered h a b, same h);
        redo = v.redo;
        job = tt;
        working = (subst IsSpanOf e v.job, v.working);
        pending = v.pending;
        next_fits = v.next_fits;
        head_fits = v.head_fits;
      }
]

-- The next height catches up with a queue that has run past it.
unfoldable pub caught_up : Forward → Forward
caught_up f = record f { next = next_from f; filling = fills f }

pub caught_up-IsCovered : (f : Forward) → IsCovered f → IsCovered (caught_up f)
unfolding caught_up next_from
caught_up-IsCovered f v =
    let fits = v.head_fits in
    let next_fits = v.next_fits in
    record {
      once = v.once;
      ahead = λ h a. v.ahead h (ground arith);
      covered = λ h a b. v.covered h a (ground arith);
      redo = v.redo;
      job = v.job;
      working = v.working;
      pending = v.pending;
      next_fits = ground arith;
      head_fits = v.head_fits;
    }

pub take_redo-IsCovered :
    (f : Forward) (s : Span) (ss : List Span)
    → f.job ≡ none
    → f.redo ≡ s ∷ ss
    → IsCovered f
    → IsCovered (record f { job = some s; redo = ss })
take_redo-IsCovered f s ss e r v =
    let idle = λ (h : ℕ). ap (λ (o : Option Span). hits_job o h) e in
    let same = λ (h : ℕ). ap (λ (l : List Span). hits l h) r in
    let (span, rest) = subst (All IsSpan) r v.redo in
    record {
      once = λ h. omega (arith, v.once h, idle h, same h);
      ahead = λ h a. omega (arith, v.ahead h a, idle h, same h);
      covered = λ h a b. omega (arith, v.covered h a b, idle h, same h);
      redo = rest;
      job = span;
      working = v.working;
      pending = v.pending;
      next_fits = v.next_fits;
      head_fits = v.head_fits;
    }

pub take_new-IsCovered :
    (f : Forward) (hi : ℕ)
    → f.job ≡ none
    → f.next ≤ hi
    → hi < 2 ^ 63
    → IsCovered f
    → IsCovered (record f { job = some (record { lo = f.next; hi = hi }); next = add64 hi 1 })
take_new-IsCovered f hi e le fit v =
    let idle = λ (h : ℕ). ap (λ (o : Option Span). hits_job o h) e in
    let next : add64 hi 1 ≡ hi + 1 = omega arith in
    record {
      once = λ h. ground (arith, v.once h, v.ahead h, idle h);
      ahead = λ h a. ground (arith, v.ahead h, idle h, next);
      covered = λ h a b. ground (arith, v.ahead h, v.covered h, idle h, next);
      redo = v.redo;
      job = le;
      working = v.working;
      pending = v.pending;
      next_fits = omega (arith, next);
      head_fits = v.head_fits;
    }

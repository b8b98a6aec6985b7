-- ===== src/Fetch/Forward/Reach.antt =====
-- The joining loop, and every state that the ascending fetch comes to.
use avalanche_s3_archival_no.Prelude.{
  ℕ, zero, suc, ◌+◌, ◌^◌, ◌≤◌, ◌<◌, ◌≡◌, refl, sym, ap, ◌∙◌, arith, leb, ltb,
}
use avalanche_s3_archival_no.Prelude.{
  Bool, true, false, List, [], ◌∷◌, Option, none, some, length, All, inl, inr, Bool-cases,
  Option-cases,
}
use mathlib.Core.Path.{subst}
use avalanche_s3_archival_no.Fetch.Queue.{Queue, RawBlock, append, get_by_height}
use avalanche_s3_archival_no.Fetch.Forward.{
  SpanResult, Forward, start_forward, join_round, join_loop, window_rule, hand_out, delete, spanned,
  arrive,
}
use avalanche_s3_archival_no.Fetch.Forward.Count.{
  In, IsHit, spanned-IsHit, spanned-past, spanned-above, spanned-here,
}
use avalanche_s3_archival_no.Fetch.Forward.Cover.{
  IsCovered, want, kept, round_of, join_round-lem, join_round-IsCovered,
}
use avalanche_s3_archival_no.Fetch.Forward.Moves.{
  start_forward-IsCovered, moved-IsCovered, append-head, get_by_height-head, IsReply,
  arrive-IsCovered, hand_out-IsCovered,
}
use avalanche_s3_archival_no.Fetch.Forward.Rule.{window_rule-IsCovered}

join_loop-zero : (f : Forward) → join_loop 0 f ≡ f
unfolding join_loop
join_loop-zero f = refl

module _ (fuel : ℕ) (f : Forward) where
  abbrev after_round : Bool → Forward
  after_round b = elim b [ true ↦ join_loop fuel (join_round f).0 | false ↦ (join_round f).0 ]

  join_loop-more :
      (join_round f).1 ≡ true → join_loop (suc fuel) f ≡ join_loop fuel (join_round f).0
  unfolding join_loop
  join_loop-more e = ap after_round e

  join_loop-last : (join_round f).1 ≡ false → join_loop (suc fuel) f ≡ (join_round f).0
  unfolding join_loop
  join_loop-last e = ap after_round e

fewer-rest : (lo : ℕ) (rs : List SpanResult) → length (delete lo rs) ≤ length rs
unfolding delete
fewer-rest lo [] = omega arith
fewer-rest lo (r ∷ rs) = ground (arith, fewer-rest lo rs)

delete-fewer :
    (r : SpanResult) (rs : List SpanResult) → In r rs → length (delete r.span.lo rs) < length rs
unfolding delete
delete-fewer r [] i = absurd i
delete-fewer r (x ∷ xs) (inl e) =
    let lo : x.span.lo ≡ r.span.lo = ap (λ (y : SpanResult). y.span.lo) e in
    ground (arith, lo, fewer-rest r.span.lo xs)
delete-fewer r (x ∷ xs) (inr i) = ground (arith, delete-fewer r xs i)

module _ (want : ℕ) where
  -- What is left when no answer covers the height: those that lie above it.
  IsOver : List SpanResult × Option SpanResult → Type 0
  IsOver (rs, none) = All (λ (r : SpanResult). want < r.span.lo) rs
  IsOver (rs, some r) = Unit

  IsOver-cons :
      (x : SpanResult) (p : List SpanResult × Option SpanResult)
      → want < x.span.lo
      → IsOver p
      → IsOver (x ∷ p.0, p.1)
  unfolding IsOver
  IsOver-cons x (rs, none) lt i = (lt, i)
  IsOver-cons x (rs, some r) lt i = tt

  IsOver-here :
      (x : SpanResult) (p : List SpanResult × Option SpanResult)
      → IsOver (x ∷ p.0, elim p.1 [ none ↦ some x | some later ↦ some later ])
  unfolding IsOver
  IsOver-here x (rs, none) = tt
  IsOver-here x (rs, some r) = tt

  spanned-IsOver : (rs : List SpanResult) → IsOver (spanned want rs)
  unfolding spanned IsOver
  spanned-IsOver [] = tt
  spanned-IsOver (x ∷ rs) = elim (Bool-cases (ltb x.span.hi want)) [
    | inl a ↦ subst IsOver (sym (spanned-past want x rs a)) (spanned-IsOver rs)
    | inr a ↦ elim (Bool-cases (leb x.span.lo want)) [
      | inr b ↦
          subst IsOver (sym (spanned-above want x rs a b))
            (IsOver-cons x (spanned want rs) (ground arith) (spanned-IsOver rs))
      | inl b ↦ subst IsOver (sym (spanned-here want x rs a b)) (IsOver-here x (spanned want rs))
    ]
  ]

  spanned-length : (rs : List SpanResult) → length (spanned want rs).0 ≤ length rs
  unfolding spanned
  spanned-length [] = omega arith
  spanned-length (x ∷ rs) = ground (arith, spanned-length rs)

-- No answer is left that has the next height of the queue, or lies below it.
abbrev pub IsJoinedUp : Forward → Type 0
IsJoinedUp f = All (λ (r : SpanResult). want f < r.span.lo) f.pending

join_round-last : (f : Forward) → (join_round f).1 ≡ false → IsJoinedUp (join_round f).0
unfolding IsOver
join_round-last f e = elim (Option-cases (spanned (want f) f.pending).1) [
  | inl n ↦
      subst (λ (x : Forward × Bool). IsJoinedUp x.0) (sym (join_round-lem f))
        (subst (λ (o : Option SpanResult). IsJoinedUp (round_of f o).0) (sym n)
          (subst (λ (o : Option SpanResult). IsOver (want f) (kept f, o)) n
            (spanned-IsOver (want f) f.pending)))
  | inr (r, h) ↦
      let more : (join_round f).1 ≡ true =
        ap (λ (x : Forward × Bool). x.1) (join_round-lem f)
        ∙ ap (λ (o : Option SpanResult). (round_of f o).1) h in
      absurd (cc)
]

join_round-more :
    (f : Forward) → (join_round f).1 ≡ true → length (join_round f).0.pending < length f.pending
unfolding IsHit
join_round-more f e = elim (Option-cases (spanned (want f) f.pending).1) [
  | inl n ↦
      let last : (join_round f).1 ≡ false =
        ap (λ (x : Forward × Bool). x.1) (join_round-lem f)
        ∙ ap (λ (o : Option SpanResult). (round_of f o).1) n in
      absurd (cc)
  | inr (r, h) ↦
      let (here, lo, hi) =
        subst (λ (o : Option SpanResult). IsHit (want f) (kept f, o)) h
          (spanned-IsHit (want f) f.pending) in
      let left : (join_round f).0.pending ≡ delete r.span.lo (kept f) =
        ap (λ (x : Forward × Bool). x.0.pending) (join_round-lem f)
        ∙ ap (λ (o : Option SpanResult). (round_of f o).0.pending) h in
      omega (
        arith,
        ap (λ (l : List SpanResult). length l) left,
        delete-fewer r (kept f) here,
        spanned-length (want f) f.pending,
      )
]

joins_up : (fuel : ℕ) (f : Forward) → length f.pending < fuel → IsJoinedUp (join_loop fuel f)
joins_up zero f lt = absurd (omega arith)
joins_up (suc fuel) f lt = elim (Bool-cases (join_round f).1) [
  | inl more ↦
      subst IsJoinedUp (sym (join_loop-more fuel f more))
        (joins_up fuel (join_round f).0 (omega (arith, join_round-more f more)))
  | inr last ↦ subst IsJoinedUp (sym (join_loop-last fuel f last)) (join_round-last f last)
]

-- The joining loop ends, in one round for each answer and one more: then every answer that is left
-- lies wholly above the next height of the queue.
pub join_loop-ends : (f : Forward) → IsJoinedUp (join_loop (suc (length f.pending)) f)
join_loop-ends f = joins_up (suc (length f.pending)) f (omega arith)

join_loop-IsCovered : (fuel : ℕ) (f : Forward) → IsCovered f → IsCovered (join_loop fuel f)
join_loop-IsCovered zero f v = subst IsCovered (sym (join_loop-zero f)) v
join_loop-IsCovered (suc fuel) f v = elim (Bool-cases (join_round f).1) [
  | inl more ↦
      subst IsCovered (sym (join_loop-more fuel f more))
        (join_loop-IsCovered fuel (join_round f).0 (join_round-IsCovered f v))
  | inr last ↦ subst IsCovered (sym (join_loop-last fuel f last)) (join_round-IsCovered f v)
]

-- What may happen, in any order: the answers are joined, the window rule is applied, a job goes to a
-- worker, an answer comes in, the follower appends a block of its own, the executor reads one.
pub data Step : Forward → Forward → Type 0 where
  joins : (f : Forward) → Step f (join_loop (suc (length f.pending)) f)
  rules :
      (f : Forward) (tip ceiling : ℕ)
      → tip < 2 ^ 63
      → ceiling < 2 ^ 63
      → Step f (window_rule tip ceiling f)
  hands : (f : Forward) → Step f (hand_out f)
  arrives :
      (f : Forward) (k : ℕ) (blocks : List RawBlock)
      → IsReply k blocks f
      → Step f (arrive k blocks f)
  follows :
      (f : Forward) (b : RawBlock)
      → b.p.block_number < 2 ^ 63
      → Step f (record f { q = (append f.q b.p b.raw).0 })
  executes : (f : Forward) (n : ℕ) → Step f (record f { q = (get_by_height f.q n).0 })

pub data Reach (q : Queue) : Forward → Type 0 where
  started : Reach q (start_forward q)
  stepped : {f g : Forward} → Reach q f → Step f g → Reach q g

Step-IsCovered : {f g : Forward} → Step f g → IsCovered f → IsCovered g
Step-IsCovered (joins f) v = join_loop-IsCovered (suc (length f.pending)) f v
Step-IsCovered (rules f tip ceiling a b) v = window_rule-IsCovered tip ceiling f a b v
Step-IsCovered (hands f) v = hand_out-IsCovered f v
Step-IsCovered (arrives f k blocks r) v = arrive-IsCovered k blocks f r v
Step-IsCovered (follows f b fit) v =
    let (le, small) = append-head f.q b v.head_fits fit in
    moved-IsCovered f (append f.q b.p b.raw).0 v le small
Step-IsCovered (executes f n) v =
    let same = get_by_height-head f.q n in
    moved-IsCovered f (get_by_height f.q n).0 v (omega (arith, same))
      (omega (arith, same, v.head_fits))

-- In every state that the ascending fetch comes to, each height above the head of the queue and below
-- the next one to schedule is in exactly one of the spans that are out (to be asked again, waiting
-- for a worker, in flight, or answered), no height is in two, and none that was not scheduled is in
-- any: as long as the answers have every height of their spans, none is lost and none asked twice.
pub Reach-IsCovered : (q : Queue) {f : Forward} → q.head + 1 < 2 ^ 63 → Reach q f → IsCovered f
Reach-IsCovered q lt started = start_forward-IsCovered q lt
Reach-IsCovered q lt (stepped r s) = Step-IsCovered s (Reach-IsCovered q lt r)

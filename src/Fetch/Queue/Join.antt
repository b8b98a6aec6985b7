-- ===== src/Fetch/Queue/Join.antt =====
-- Spans of containers joined to the queue, and any run of the queue's calls.
use mathlib.Core.Path.{subst}
use avalanche_s3_archival_no.Prelude.{ℕ, ◌^◌, ◌≤◌, ◌<◌, ◌≡◌, refl, sym, arith, leb}
use avalanche_s3_archival_no.Prelude.{
  true, false, List, [], ◌∷◌, ◌++◌, append-nil, append_assoc, Option, none, some, All, ◌⊎◌, inl,
  inr, Bool-cases,
}
use avalanche_s3_archival_no.Prelude.Bytes.{Bytes}
use avalanche_s3_archival_no.Fetch.Queue.{
  Parsed, Queue, RawBlock, new_queue, takes, appended, append, get_by_height, close, join_span,
}
use avalanche_s3_archival_no.Fetch.Queue.Chain.{IsOffer, appended-Holds}
use avalanche_s3_archival_no.Fetch.Queue.Serve.{IsQueue, new_queue-IsQueue, get_by_height-IsQueue}

abbrev pub IsOffered : RawBlock → Type 0
IsOffered b = IsOffer b.p b.raw

module _ (q : Queue) (b : RawBlock) (bs : List RawBlock) where
  pub join_span-skip : leb b.p.block_number q.head ≡ true → join_span q (b ∷ bs) ≡ join_span q bs
  unfolding join_span
  join_span-skip e = ground (arith, e)

  pub join_span-take :
      leb b.p.block_number q.head ≡ false
      → takes q b.p ≡ true
      → join_span q (b ∷ bs) ≡ join_span (appended q b.p b.raw) bs
  unfolding join_span
  join_span-take e t = ground (arith, e, t)

  pub join_span-stop :
      leb b.p.block_number q.head ≡ false
      → takes q b.p ≡ false
      → join_span q (b ∷ bs) ≡ (q, some b.p.block_number)
  unfolding join_span
  join_span-stop e t = ground (arith, e, t)

abbrev UpTo : ℕ → RawBlock → Type 0
UpTo h b = b.p.block_number ≤ h

pub join_span-nil : (q : Queue) → join_span q [] ≡ (q, none)
unfolding join_span
join_span-nil q = refl

-- How a span joined: all of it, up to its highest container, or up to the first that did not link.
abbrev pub Joined : List RawBlock → Queue × Option ℕ → Type 0
Joined bs (q, r) =
    ((r ≡ none) × All (UpTo q.head) bs) ⊎ ((bad : ℕ) × (r ≡ some bad) × (q.head < bad))

Joined-cons :
    (b : RawBlock) (bs : List RawBlock) (r : Queue × Option ℕ)
    → UpTo r.0.head b
    → Joined bs r
    → Joined (b ∷ bs) r
Joined-cons b bs (q, r) le (inl (e, a)) = inl (e, (le, a))
Joined-cons b bs (q, r) le (inr x) = inr x

module _ (from : ℕ) (anchor : Bytes) where
  appended-head : (q : Queue) (p : Parsed) (raw : Bytes) → (appended q p raw).head ≡ p.block_number
  unfolding appended
  appended-head q p raw = refl

  pub appended-IsQueue :
      (chain : List RawBlock) (q : Queue) (b : RawBlock)
      → IsOffered b
      → IsQueue from anchor chain q
      → takes q b.p ≡ true
      → IsQueue from anchor (chain ++ (b ∷ [])) (appended q b.p b.raw)
  unfolding appended
  appended-IsQueue chain q b o v t = record {
    holds = appended-Holds from anchor chain q b.p b.raw o v.holds t;
    tight = v.tight;
  }

  Outcome : List RawBlock → List RawBlock → ℕ → Queue × Option ℕ → Type 0
  Outcome bs chain head r =
      ((more : List RawBlock) × IsQueue from anchor (chain ++ more) r.0)
      × (head ≤ r.0.head)
      × Joined bs r

  -- A span joined to a queue in any state: the queue then holds its chain and some more containers,
  -- each linked to the one below it; either every container of the span is at most at the new head,
  -- or the height that is sent back is above it.
  pub join_span-IsQueue :
      (bs chain : List RawBlock) (q : Queue)
      → All IsOffered bs
      → IsQueue from anchor chain q
      → ((more : List RawBlock) × IsQueue from anchor (chain ++ more) (join_span q bs).0)
        × (q.head ≤ (join_span q bs).0.head)
        × Joined bs (join_span q bs)
  unfolding Outcome
  join_span-IsQueue [] chain q o v =
      subst (Outcome [] chain q.head) (sym (join_span-nil q))
        (([], rw (append-nil chain) v), omega arith, inl (refl, tt))
  join_span-IsQueue (b ∷ bs) chain q (ob, o) v = elim (Bool-cases (leb b.p.block_number q.head)) [
    | inl old ↦
        let (held, up, joined) = join_span-IsQueue bs chain q o v in
        subst (Outcome (b ∷ bs) chain q.head) (sym (join_span-skip q b bs old))
          (held, up, Joined-cons b bs (join_span q bs) (ground (arith, up)) joined)
    | inr new ↦ elim (Bool-cases (takes q b.p)) [
      | inr bad ↦
          subst (Outcome (b ∷ bs) chain q.head) (sym (join_span-stop q b bs new bad))
            (([], rw (append-nil chain) v), omega arith, inr (b.p.block_number, refl, ground arith))
      | inl good ↦
          let v' = appended-IsQueue chain q b ob v good in
          let ((more, w), up, joined) =
            join_span-IsQueue bs (chain ++ (b ∷ [])) (appended q b.p b.raw) o v' in
          let num = appended-head q b.p b.raw in
          subst (Outcome (b ∷ bs) chain q.head) (sym (join_span-take q b bs new good)) (
            (b ∷ more, rw (sym (append_assoc chain (b ∷ []) more)) w),
            ground (arith, up, num),
            Joined-cons b bs (join_span (appended q b.p b.raw) bs) (omega (arith, up, num)) joined,
          )
    ]
  ]

-- A call of the queue: a container offered, a height read, a span joined, the context done.
pub data Call : Type 0 where
  offer : RawBlock → Call
  read : ℕ → Call
  join : List RawBlock → Call
  stop : Call

unfoldable pub call : Queue → Call → Queue
unfolding append get_by_height join_span close
call q (offer b) = (append q b.p b.raw).0
call q (read n) = (get_by_height q n).0
call q (join bs) = (join_span q bs).0
call q stop = close q

unfoldable pub run : Queue → List Call → Queue
unfolding call
run q [] = q
run q (c ∷ cs) = run (call q c) cs

abbrev pub IsCall : Call → Type 0
IsCall (offer b) = IsOffered b
IsCall (read n) = Unit
IsCall (join bs) = All IsOffered bs
IsCall stop = Unit

module _ (from : ℕ) (anchor : Bytes) where
  append-IsQueue :
      (chain : List RawBlock) (q : Queue) (b : RawBlock)
      → IsOffered b
      → IsQueue from anchor chain q
      → (more : List RawBlock) × IsQueue from anchor (chain ++ more) (append q b.p b.raw).0
  unfolding append
  append-IsQueue chain q b o v = elim (Bool-cases (takes q b.p)) [
    | inl t ↦ (b ∷ [], rw t (appended-IsQueue from anchor chain q b o v t))
    | inr f ↦ ([], rw (f, append-nil chain) v)
  ]

  close-IsQueue :
      (chain : List RawBlock) (q : Queue)
      → IsQueue from anchor chain q
      → IsQueue from anchor chain (close q)
  unfolding close
  close-IsQueue chain q v =
      let h = v.holds in
      record {
        holds = record {
          linked = h.linked;
          top = h.top;
          tip = h.tip;
          map = h.map;
          size = h.size;
          floor = h.floor;
          eaten = h.eaten;
          kept = h.kept;
          start = h.start;
          small = h.small;
          fit = h.fit;
        };
        tight = v.tight;
      }

  call-IsQueue :
      (chain : List RawBlock) (q : Queue) (c : Call)
      → IsCall c
      → IsQueue from anchor chain q
      → (more : List RawBlock) × IsQueue from anchor (chain ++ more) (call q c)
  unfolding call
  call-IsQueue chain q (offer b) o v = append-IsQueue chain q b o v
  call-IsQueue chain q (read n) o v =
      ([], rw (append-nil chain) (get_by_height-IsQueue from anchor chain q n v))
  call-IsQueue chain q (join bs) o v = (join_span-IsQueue from anchor bs chain q o v).0
  call-IsQueue chain q stop o v = ([], rw (append-nil chain) (close-IsQueue chain q v))

  run_on-IsQueue :
      (cs : List Call) (chain : List RawBlock) (q : Queue)
      → All IsCall cs
      → IsQueue from anchor chain q
      → (more : List RawBlock) × IsQueue from anchor (chain ++ more) (run q cs)
  unfolding run
  run_on-IsQueue [] chain q o v = ([], rw (append-nil chain) v)
  run_on-IsQueue (c ∷ cs) chain q (oc, o) v =
      let (more, w) = call-IsQueue chain q c oc v in
      let (rest, u) = run_on-IsQueue cs (chain ++ more) (call q c) o w in
      (more ++ rest, rw (sym (append_assoc chain more rest)) u)

  -- Whatever is offered, joined and read, in any order: a queue that was opened above a known block
  -- holds, at every moment, one chain of containers that begins on top of that block and in which
  -- each names the hash of the one before as its parent.
  pub run-IsQueue :
      (cs : List Call)
      → 1 ≤ from
      → from < 2 ^ 63
      → All IsCall cs
      → (chain : List RawBlock) × IsQueue from anchor chain (run (new_queue from anchor) cs)
  run-IsQueue cs lo hi o =
      run_on-IsQueue cs [] (new_queue from anchor) o (new_queue-IsQueue from anchor lo hi)

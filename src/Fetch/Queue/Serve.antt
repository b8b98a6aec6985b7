-- ===== src/Fetch/Queue/Serve.antt =====
-- What the queue serves: through every append, read and release it holds one linked stretch of the
-- chain, the executed tail of it included.
use avalanche_s3_archival_no.Prelude.{
  ℕ, ◌+◌, ◌^◌, ◌≤◌, ◌<◌, ◌≡◌, refl, arith, sub64, ltb, if◌then◌else◌,
}
use avalanche_s3_archival_no.Prelude.{List, [], none, some}
use avalanche_s3_archival_no.Prelude.{inl, inr, Bool-cases}
use avalanche_s3_archival_no.Prelude.Bytes.{Bytes}
use native.Mathlib.Decide.{dec_lt}
use avalanche_s3_archival_no.Fetch.Queue.{
  Queue, RawBlock, new_queue, hand_over, get_by_height, keep_behind, served, released, canceled,
  waiting,
}
use avalanche_s3_archival_no.Fetch.Queue.Chain.{Holds}
use avalanche_s3_archival_no.Fetch.Queue.Release.{held_inside, held_outside, release-Holds}

-- A queue that holds the chain, with no more than the executed tail below the executor.
pub record IsQueue (from : ℕ) (anchor : Bytes) (chain : List RawBlock) (q : Queue) : Type 0 where
  pub holds : Holds from anchor chain q
  pub tight : q.consumed < q.low + keep_behind

pub new_queue-IsQueue :
    (from : ℕ) (anchor : Bytes)
    → 1 ≤ from
    → from < 2 ^ 63
    → IsQueue from anchor [] (new_queue from anchor)
unfolding new_queue
new_queue-IsQueue from anchor lo hi =
    let head : sub64 from 1 + 1 ≡ from = omega arith in
    record {
      holds = record {
        linked = tt;
        top = omega (arith, head);
        tip = refl;
        map = λ n. ground arith;
        size = ground arith;
        floor = omega arith;
        eaten = omega arith;
        kept = inl refl;
        start = lo;
        small = omega (arith, head);
        fit = tt;
      };
      tight = omega (arith, head);
    }

module _ (from : ℕ) (anchor : Bytes) (chain : List RawBlock) where
  hand_over-IsQueue :
      (q : Queue) (n : ℕ)
      → IsQueue from anchor chain q
      → n ≤ q.head
      → IsQueue from anchor chain (hand_over q n)
  unfolding hand_over
  hand_over-IsQueue q n v le = elim (Bool-cases (ltb q.consumed n)) [
    | inr old ↦ rw old v
    | inl new ↦
        let h = v.holds in
        let (h', e, t) =
          release-Holds from anchor chain (record q { consumed = n }) n
            (record {
              linked = h.linked;
              top = h.top;
              tip = h.tip;
              map = h.map;
              size = h.size;
              floor = h.floor;
              eaten = le;
              kept = ground (arith, h.kept);
              start = h.start;
              small = h.small;
              fit = h.fit;
            })
            refl in
        rw new record { holds = h'; tight = omega (arith, e, t) }
  ]

  get_served :
      (q : Queue) (n : ℕ) {raw : Bytes}
      → q.blk n ≡ some raw
      → get_by_height q n ≡ (hand_over q n, served raw)
  unfolding get_by_height
  get_served q n e = ground (arith, e)

  get_missing :
      (q : Queue) (n : ℕ)
      → q.blk n ≡ none
      → get_by_height q n
        ≡ (q, if ltb n q.low then released else if q.closed then canceled else waiting)
  unfolding get_by_height
  get_missing q n e = ground (arith, e)

  pub get_by_height-IsQueue :
      (q : Queue) (n : ℕ)
      → IsQueue from anchor chain q
      → IsQueue from anchor chain (get_by_height q n).0
  get_by_height-IsQueue q n v = elim (dec_lt n q.low) [
    | yes low ↦ rw (get_missing q n (held_outside from anchor chain q n v.holds (inl low))) v
    | no in_low ↦ elim (dec_lt q.head n) [
      | yes past ↦ rw (get_missing q n (held_outside from anchor chain q n v.holds (inr past))) v
      | no inside ↦
          let (b, e, f) = held_inside from anchor chain q n v.holds (omega arith) (omega arith) in
          rw (get_served q n f) (hand_over-IsQueue q n v (omega arith))
    ]
  ]

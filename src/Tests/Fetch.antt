-- ===== src/Tests/Fetch.antt =====
-- A queue opened above block 4, and the fetch of the blocks above it.
use avalanche_s3_archival_no.Prelude.{ℕ, ◌≡◌, ◌≤◌, ◌+◌, ◌-◌, refl, arith, List, [], ◌∷◌, ◌++◌, some}
use avalanche_s3_archival_no.Prelude.Bytes.{Bytes, beq}
use avalanche_s3_archival_no.Fetch.Queue.{Queue, RawBlock, new_queue, appended, join_span, takes}
use avalanche_s3_archival_no.Fetch.Queue.Chain.{IsOffer}
use avalanche_s3_archival_no.Fetch.Queue.Serve.{IsQueue, new_queue-IsQueue}
use avalanche_s3_archival_no.Fetch.Queue.Join.{
  Joined, read, join, run, run-IsQueue, appended-IsQueue, join_span-IsQueue,
}
use avalanche_s3_archival_no.Fetch.Forward.{
  Span, Forward, start_forward, window_rule, join_loop, join_round, tip_target, joined, spanned,
  delete,
}
use avalanche_s3_archival_no.Fetch.Forward.Cover.{IsCovered}
use avalanche_s3_archival_no.Fetch.Forward.Rule.{Ruled, window_rule-Ruled, window_rule-refills}
use avalanche_s3_archival_no.Fetch.Forward.Reach.{
  started, stepped, rules, Reach-IsCovered, IsJoinedUp, join_loop-ends,
}

abbrev anchor : Bytes
anchor = 4 ∷ []

abbrev block : ℕ → RawBlock
block n = record {
  p = record {
    container_id = n ∷ [];
    parent_id = (n - 1) ∷ [];
    block_number = n;
    block_hash = n ∷ [];
    parent_hash = (n - 1) ∷ [];
    block_time = n;
  };
  raw = 9 ∷ [];
}

block_five : IsOffer (block 5).p (block 5).raw
block_five = record { number = omega arith; number_fits = omega arith; raw_fits = omega arith }

block_six : IsOffer (block 6).p (block 6).raw
block_six = record { number = omega arith; number_fits = omega arith; raw_fits = omega arith }

-- A queue that has taken block 5 and not handed it out.
abbrev held_five : Queue
held_five = appended (new_queue 5 anchor) (block 5).p (block 5).raw

held_five-IsQueue : IsQueue 5 anchor (block 5 ∷ []) held_five
unfolding takes new_queue beq
held_five-IsQueue =
    appended-IsQueue 5 anchor [] (new_queue 5 anchor) (block 5) block_five
      (new_queue-IsQueue 5 anchor (omega arith) (omega arith)) refl

run-IsQueue_example :
    (chain : List RawBlock) × IsQueue 5 anchor chain
      (run (new_queue 5 anchor) (join (block 5 ∷ block 6 ∷ []) ∷ read 5 ∷ []))
run-IsQueue_example =
    run-IsQueue 5 anchor (join (block 5 ∷ block 6 ∷ []) ∷ read 5 ∷ []) (omega arith) (omega arith)
      ((block_five, (block_six, tt)), (tt, tt))

join_span-IsQueue_example :
    ((more : List RawBlock) × IsQueue 5 anchor
        ((block 5 ∷ []) ++ more)
        (join_span held_five (block 5 ∷ block 6 ∷ [])).0)
    × (5 ≤ (join_span held_five (block 5 ∷ block 6 ∷ [])).0.head)
    × Joined (block 5 ∷ block 6 ∷ []) (join_span held_five (block 5 ∷ block 6 ∷ []))
unfolding appended new_queue
join_span-IsQueue_example =
    join_span-IsQueue 5 anchor (block 5 ∷ block 6 ∷ []) (block 5 ∷ []) held_five
      (block_five, (block_six, tt)) held_five-IsQueue

abbrev opened : Forward
opened = start_forward held_five

opened-IsCovered : IsCovered opened
unfolding appended new_queue
opened-IsCovered = Reach-IsCovered held_five (omega arith) started

Reach-IsCovered_example : IsCovered (window_rule 7 0 opened)
unfolding appended new_queue
Reach-IsCovered_example =
    Reach-IsCovered held_five (omega arith)
      (stepped started (rules opened 7 0 (omega arith) (omega arith)))

window_rule-Ruled_example : Ruled 7 0 opened (window_rule 7 0 opened)
unfolding start_forward appended new_queue
window_rule-Ruled_example =
    window_rule-Ruled 7 0 opened refl (omega arith) (omega arith) (omega arith)

window_rule-refills_example :
    (s : Span) × ((window_rule 7 0 opened).job ≡ some s) × (s.lo ≡ 5 + 1) × (s.lo ≤ s.hi)
unfolding start_forward tip_target appended new_queue
window_rule-refills_example =
    window_rule-refills 7 0 opened opened-IsCovered refl refl refl refl (omega arith) (omega arith)
      (omega arith) (omega arith) (omega arith) (omega arith)

abbrev answered : Forward
answered = record opened {
  pending = record { span = record { lo = 6; hi = 6 }; blocks = block 6 ∷ [] } ∷ [];
}

join_loop-ends_example : IsJoinedUp (join_loop 2 answered)
join_loop-ends_example = join_loop-ends answered

-- An answer whose blocks leave a gap is sent back from the first that does not link, and the heights
-- below that one are in no span: here 6 and 7 of a span from 6 to 8.
abbrev gappy : Forward
gappy = record opened {
  next = 9;
  pending = record { span = record { lo = 6; hi = 8 }; blocks = block 8 ∷ [] } ∷ [];
}

gappy_loses : (join_loop 2 gappy).redo ≡ record { lo = 8; hi = 8 } ∷ []
unfolding join_loop join_round start_forward joined spanned delete join_span takes appended
    new_queue beq
gappy_loses = refl

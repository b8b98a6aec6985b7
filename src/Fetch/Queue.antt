-- ===== src/Fetch/Queue.antt =====
-- The queue of fetch/window.go: the bounded handoff of containers between the fetcher and the
-- executor, one contiguous, hash-linked stretch of the chain.
pub mod Chain
pub mod Release
pub mod Serve
pub mod Join
use avalanche_s3_archival_no.Prelude.{
  ℕ, zero, suc, ◌+◌, ◌==◌, leb, ltb, add64, sub64, if◌then◌else◌,
}
use avalanche_s3_archival_no.Prelude.{
  Bool, true, false, not, ◌&&◌, ◌||◌, List, [], ◌∷◌, Option, none, some, length,
}
use avalanche_s3_archival_no.Prelude.Bytes.{Bytes, beq}

-- `parsedContainer` of fetch/parse.go; the ids are hashes.
pub record Parsed : Type 0 where
  pub container_id : Bytes
  pub parent_id : Bytes
  pub block_number : ℕ
  pub block_hash : Bytes
  pub parent_hash : Bytes
  pub block_time : ℕ

abbrev pub keep_behind : ℕ
keep_behind = 8192

-- `blk` is the map, as the function that it is.
pub record Queue : Type 0 where
  pub blk : ℕ → Option Bytes
  pub head : ℕ
  pub head_hash : Bytes
  pub low : ℕ
  pub consumed : ℕ
  pub bytes : ℕ
  pub peak : ℕ
  pub closed : Bool

unfoldable pub new_queue : ℕ → Bytes → Queue
new_queue from anchor_hash = record {
  blk = λ n. none;
  head = sub64 from 1;
  head_hash = anchor_hash;
  low = from;
  consumed = sub64 from 1;
  bytes = 0;
  peak = 0;
  closed = false;
}

abbrev stored : (ℕ → Option Bytes) → ℕ → Option Bytes → ℕ → Option Bytes
stored blk n v k = if k == n then v else blk k

-- `Append`: the next container, if it links to the head.
unfoldable pub takes : Queue → Parsed → Bool
takes q p = (p.block_number == add64 q.head 1) && beq p.parent_hash q.head_hash

unfoldable pub appended : Queue → Parsed → Bytes → Queue
appended q p raw =
    let bytes = add64 q.bytes (length raw) in
    record q {
      blk = stored q.blk p.block_number (some raw);
      head = p.block_number;
      head_hash = p.block_hash;
      bytes = bytes;
      peak = if ltb q.peak bytes then bytes else q.peak;
    }

unfoldable pub append : Queue → Parsed → Bytes → Queue × Bool
unfolding takes appended
append q p raw = if takes q p then (appended q p raw, true) else (q, false)

-- One round of `release`: the lowest container goes.
unfoldable pub release_one : Queue → Queue
release_one q = elim (q.blk q.low) [
  | none ↦ record q { low = add64 q.low 1 }
  | some raw ↦ record q {
    blk = stored q.blk q.low none;
    bytes = sub64 q.bytes (length raw);
    low = add64 q.low 1;
  }
]

unfoldable pub release_loop : ℕ → ℕ → Queue → Queue
unfolding release_one
release_loop zero up_to q = q
release_loop (suc fuel) up_to q = elim (leb (add64 q.low keep_behind) up_to) [
  | true ↦ release_loop fuel up_to (release_one q)
  | false ↦ q
]

unfoldable pub release : Queue → ℕ → Queue
unfolding release_loop
release q up_to = if ltb up_to keep_behind then q else release_loop (suc up_to) up_to q

-- What `GetByHeight` comes to: a container, an error, or one more round of waiting.
pub data Answer : Type 0 where
  served : Bytes → Answer
  released canceled waiting : Answer

unfoldable pub hand_over : Queue → ℕ → Queue
unfolding release
hand_over q n = if ltb q.consumed n then release (record q { consumed = n }) n else q

unfoldable pub get_by_height : Queue → ℕ → Queue × Answer
unfolding hand_over
get_by_height q n = elim (q.blk n) [
  | some raw ↦ (hand_over q n, served raw)
  | none ↦ (q, if ltb n q.low then released else if q.closed then canceled else waiting)
]

unfoldable pub close : Queue → Queue
close q = record q { closed = true }

-- `joinSpan`: a span's blocks in ascending order; the height of the first that does not link.
pub record RawBlock : Type 0 where
  pub p : Parsed
  pub raw : Bytes

unfoldable pub join_span : Queue → List RawBlock → Queue × Option ℕ
join_span q [] = (q, none)
join_span q (b ∷ bs) =
    let skipped = join_span q bs in
    let taken = join_span (appended q b.p b.raw) bs in
    if leb b.p.block_number q.head
    then skipped
    else if takes q b.p
    then taken
    else (q, some b.p.block_number)

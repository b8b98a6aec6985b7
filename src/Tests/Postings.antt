-- ===== src/Tests/Postings.antt =====
-- Posting entries of two groups cut into chunks, and a scan of them.
use avalanche_s3_archival_no.Prelude.{
  ◌≡◌, refl, arith, true, false, Bool, List, [], ◌∷◌, ◌++◌, ℕ, replicate, map, inl, All,
}
use avalanche_s3_archival_no.Prelude.Bytes.{Bytes, beq, blt, has_prefix}
use avalanche_s3_archival_no.Store.Keys.{prefix_addr, payload_bits}
use avalanche_s3_archival_no.Store.Run.{Section, Row, Run}
use avalanche_s3_archival_no.Store.Memtable.{Posting}
use avalanche_s3_archival_no.Store.Postings.{
  post_add, empty_set, chunks, scan_chunks, scanned, gated_off, or_bits,
}
use avalanche_s3_archival_no.Store.Postings.Scan.{Chunk, Chunked, row_of, all_entries, within}
use avalanche_s3_archival_no.Store.Postings.InRun.{SeenFrom, scan_chunks-within}
use avalanche_s3_archival_no.Store.Postings.Set.{added}
use avalanche_s3_archival_no.Store.Postings.Order.{Ascending}
use avalanche_s3_archival_no.Store.Postings.Union.{union_at}
use avalanche_s3_archival_no.Store.Postings.Whole.{IsEntry, chunks-added}

abbrev group_b : Bytes
group_b = prefix_addr ++ replicate 20 7

abbrev group_a : Bytes
group_a = prefix_addr ++ replicate 20 3

abbrev post : Bytes → ℕ → ℕ → Posting
post g t p = record { group = g; txnum = t; payload = p }

-- The later group comes first, and one transaction has two roles in it.
abbrev some_entries : List Posting
some_entries = post group_b 9 1 ∷ post group_a 5 2 ∷ post group_b 9 2 ∷ post group_a 4 16 ∷ []

abbrev chunk_a : Chunk
chunk_a = record { group = group_a; first = 4; more = 5 ∷ []; pay = 16 ∷ 2 ∷ [] }

abbrev chunk_b : Chunk
chunk_b = record { group = group_b; first = 9; more = []; pay = 3 ∷ [] }

chunks_example : chunks (added some_entries empty_set) ≡ row_of chunk_a ∷ row_of chunk_b ∷ []
unfolding chunks post_add beq blt or_bits
chunks_example = refl

entries_fit : All IsEntry some_entries
unfolding payload_bits has_prefix
entries_fit = (
  (omega arith, omega arith),
  ((omega arith, omega arith), ((omega arith, omega arith), ((omega arith, omega arith), tt))),
)

chunks-added_example :
    (cs : List Chunk) × (chunks (added some_entries empty_set) ≡ map row_of cs)
    × Chunked cs
    × Ascending (all_entries cs)
    × ((g : Bytes) (t : ℕ) → union_at g t (all_entries cs) ≡ union_at g t some_entries)
chunks-added_example = chunks-added some_entries entries_fit

-- The same two chunks between a row of another family and one above.
abbrev before_row : Row
before_row = record { key = b'a' ∷ []; val = [] }

abbrev after_row : Row
after_row = record { key = b's' ∷ b'e' ∷ b't' ∷ b'/' ∷ []; val = [] }

abbrev small_rows : List Row
small_rows = before_row ∷ row_of chunk_a ∷ row_of chunk_b ∷ after_row ∷ []

abbrev small_run : Run
small_run = record {
  ref = record { from_tx = 0; to_tx = 10; from_height = 0; to_height = 5; name = []; level = 0 };
  rows = λ s. small_rows;
}

abbrev always : Run → Section → Bytes → Bool
always r s k = true

chunks_are : Chunked (chunk_a ∷ chunk_b ∷ [])
unfolding payload_bits has_prefix beq
chunks_are = (
  record {
    rising = (omega arith, tt);
    fits = (omega arith, (omega arith, tt));
    few = omega arith;
    paired = refl;
    narrow = (omega arith, (omega arith, tt));
  },
  inl refl,
  record {
    rising = tt;
    fits = (omega arith, tt);
    few = omega arith;
    paired = refl;
    narrow = (omega arith, tt);
  },
)

seen : SeenFrom prefix_addr (chunk_a ∷ chunk_b ∷ []) small_rows
unfolding blt has_prefix
seen = record {
  before = before_row ∷ [];
  rest = after_row ∷ [];
  is = refl;
  below = (refl, tt);
  under = (refl, (refl, tt));
  above = (refl, tt);
  ends = refl;
}

gate_open : gated_off always small_run prefix_addr ≡ false
gate_open = ground arith

scan_chunks-within_example :
    scan_chunks always small_run prefix_addr 5 9
    ≡ scanned (within 5 9 (all_entries (chunk_a ∷ chunk_b ∷ [])))
scan_chunks-within_example =
    scan_chunks-within always small_run prefix_addr 5 9 (chunk_a ∷ chunk_b ∷ []) chunks_are seen
      (inl gate_open)

within_example :
    within 5 9 (all_entries (chunk_a ∷ chunk_b ∷ [])) ≡ post group_a 5 2 ∷ post group_b 9 3 ∷ []
unfolding within
within_example = refl

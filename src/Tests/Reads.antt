-- ===== src/Tests/Reads.antt =====
-- A store with one run: the blocks 1 and 2, of one and two transactions, and two writes of one key.
use avalanche_s3_archival_no.Prelude.{
  ℕ, zero, suc, ◌≡◌, ◌<◌, ◌≤◌, ◌+◌, refl, arith, Bool, true, List, [], ◌∷◌, ◌++◌, none, some, All,
  inl, ◌==◌, if◌then◌else◌,
}
use avalanche_s3_archival_no.Prelude.Bytes.{Bytes, be, beq, blt, be_value, has_prefix}
use avalanche_s3_archival_no.Prelude.Map.{lookup}
use avalanche_s3_archival_no.Store.Keys.{suffixed, num_key, prefix_blk, txnum_of}
use avalanche_s3_archival_no.Store.Manifest.{RunRef}
use avalanche_s3_archival_no.Store.Memtable.{reset, cleared, chain_at}
use avalanche_s3_archival_no.Store.Window.{empty_index, find}
use avalanche_s3_archival_no.Store.Memtable.Read.{last_at, chain_get}
use avalanche_s3_archival_no.Store.Run.{
  Section, chain_section, state_section, lookup_section, Row, Run, latest, get_row, seek_ge,
}
use avalanche_s3_archival_no.Store.Run.Order.{Sorted}
use avalanche_s3_archival_no.Store.Run.Newest.{IsKeyed, history_of, latest-history}
use avalanche_s3_archival_no.Store.Reads.{
  View, latest_at, block_tx_range, chain_row_at, runs_chain_row, fam_prefix, height_bounds,
  man_bounds, window_bounds, height_of_tx,
}
use avalanche_s3_archival_no.Store.Reads.Descent.{IsStack, view_history, latest_at-history}
use avalanche_s3_archival_no.Store.Reads.Heights.{IsTimeline, height_of_tx-finds}

abbrev any_key : Run → Section → Bytes → Bool
any_key r s key = true

abbrev key_one : Bytes
key_one = 1 ∷ []

abbrev two_writes : List Row
two_writes =
    record { key = suffixed key_one 2; val = 7 ∷ [] }
    ∷ record { key = suffixed key_one 4; val = 8 ∷ [] }
    ∷ []

abbrev blk_val : ℕ → ℕ → Bytes
blk_val first count = be 8 first ++ be 4 count

abbrev section_rows : Section → List Row
section_rows chain_section =
    record { key = num_key prefix_blk 1; val = blk_val 0 1 }
    ∷ record { key = num_key prefix_blk 2; val = blk_val 2 2 }
    ∷ []
section_rows state_section = two_writes
section_rows lookup_section = []

abbrev only_ref : RunRef
only_ref = record { from_tx = 0; to_tx = 5; from_height = 1; to_height = 2; name = []; level = 0 }

abbrev only_run : Run
only_run = record { ref = only_ref; rows = section_rows }

two_writes-Sorted : Sorted two_writes
unfolding suffixed be blt
two_writes-Sorted = ((refl, tt), (tt, tt))

two_writes-IsKeyed : All (IsKeyed key_one) two_writes
two_writes-IsKeyed = (inl (2, omega arith, refl), (inl (4, omega arith, refl), tt))

latest-history_example :
    latest any_key only_run state_section key_one 3 ≡ last_at (history_of key_one two_writes) 3
latest-history_example =
    latest-history any_key only_run state_section key_one 3 (omega arith) (inl refl)
      two_writes-Sorted two_writes-IsKeyed

abbrev one_run : View
one_run = record { mem = reset 5 3; frozen = none; runs = only_run ∷ []; man = only_ref ∷ [] }

one_run-IsStack : IsStack any_key state_section key_one (only_run ∷ [])
unfolding history_of suffixed txnum_of be be_value has_prefix
one_run-IsStack = (
  record {
    sorted = two_writes-Sorted;
    keyed = two_writes-IsKeyed;
    gate = inl refl;
    own = (omega arith, (omega arith, tt));
    above = tt;
  },
  tt,
)

latest_at-history_example :
    latest_at any_key one_run state_section key_one 3
    ≡ last_at (view_history any_key state_section key_one one_run) 3
unfolding history_of suffixed txnum_of be be_value has_prefix reset cleared lookup
latest_at-history_example =
    latest_at-history any_key state_section key_one 3 (omega arith) one_run one_run-IsStack
      (5, (omega arith, (omega arith, tt)), tt) (5, (omega arith, (omega arith, tt)), tt)

abbrev first_of : ℕ → ℕ
first_of h = if h == 1 then 0 else 2

abbrev count_of : ℕ → ℕ
count_of h = h

blocks_read :
    (h : ℕ)
    → 1 ≤ h
    → h ≤ 2
    → block_tx_range any_key one_run h ≡ some (some (first_of h, count_of h))
unfolding block_tx_range chain_row_at runs_chain_row reset cleared empty_index chain_at chain_get
    find get_row seek_ge fam_prefix num_key be be_value beq blt
blocks_read zero a b = absurd (omega arith)
blocks_read (suc zero) a b = refl
blocks_read (suc (suc zero)) a b = refl
blocks_read (suc (suc (suc h))) a b = absurd (omega arith)

blocks_follow : (h : ℕ) → 1 ≤ h → h < 2 → first_of (h + 1) ≡ first_of h + count_of h + 1
blocks_follow zero a b = absurd (omega arith)
blocks_follow (suc zero) a b = refl
blocks_follow (suc (suc h)) a b = absurd (omega arith)

one_run-IsTimeline : IsTimeline any_key one_run first_of count_of 1 2
one_run-IsTimeline = record { read = blocks_read; next = blocks_follow }

height_of_tx-finds_example :
    (h : ℕ) × (height_of_tx any_key one_run 3 ≡ some (some h))
    × (1 ≤ h)
    × (h ≤ 2)
    × (first_of h ≤ 3)
    × (3 ≤ first_of h + count_of h)
unfolding height_bounds man_bounds window_bounds reset cleared
height_of_tx-finds_example =
    height_of_tx-finds any_key one_run first_of count_of 3 1 2 refl one_run-IsTimeline (omega arith)
      (omega arith) (omega arith) (omega arith)

-- ===== src/Tests/Cut.antt =====
-- A store that cuts its window behind every block.
use avalanche_s3_archival_no.Prelude.{
  ◌≡◌, ◌+◌, ◌⊎◌, refl, arith, true, false, ltb, if◌then◌else◌, List, [], ◌∷◌, Option, none, some,
  replicate,
}
use mathlib.Core.Path.{subst}
use avalanche_s3_archival_no.Prelude.Bytes.{Bytes, beq, be}
use avalanche_s3_archival_no.Prelude.Map.{lookup, insert}
use avalanche_s3_archival_no.Store.Rows.{BlockWrite}
use avalanche_s3_archival_no.Store.Container.{reassemble}
use avalanche_s3_archival_no.Store.Window.{empty_index, add, pad_to}
use avalanche_s3_archival_no.Store.Memtable.{
  Memtable, reset, cleared, add_chain, chain_at, set_chain, write, encode_rec, kind_byte, fam_byte,
  put_num, pad_chains,
}
use avalanche_s3_archival_no.Store.Memtable.Write.{
  add_block, start_window, block_body, chain_row, num_row, tx_rows, state_rows, code_rows,
  end_block,
}
use avalanche_s3_archival_no.Store.Memtable.Blocks.{IsBlock}
use avalanche_s3_archival_no.Store.Flat.{FlatCache, apply}
use avalanche_s3_archival_no.Store.Cut.{
  prev_run, Writer, next_tx, next_height, seal, wait_cut, freeze, cut_window, flush, maybe_flush,
  write_block,
}
use avalanche_s3_archival_no.Store.Cut.Ends.{IsJoined, next-flush}
use avalanche_s3_archival_no.Store.Manifest.{RunRef, check_tiling, follows, sealed_ref, append_run}
use avalanche_s3_archival_no.Store.Merge.{
  Merging, idle, planned, building, plan, maybe_merge, merge_span, span_of, span_end, span_start,
  level_zero_at, take_inputs, begin_merge, span_refs, prev_name, install, finish_merge, merged_ref,
  swap_span,
}
use avalanche_s3_archival_no.Store.Merge.Progress.{Inputs}
use avalanche_s3_archival_no.Store.Merge.Seals.{db_of}
use avalanche_s3_archival_no.Store.Merge.Node.{
  Node, fresh_node, merge_started, merge_begun, merge_finished, Node-IsJoined, Node-Inputs,
}
use avalanche_s3_archival_no.Store.Cut.Life.{
  empty_store, Life, fresh_store, written, sealed_one, Life-IsJoined, write_block-IsJoined,
}

abbrev tiny_hash : Bytes → Bytes
tiny_hash x = replicate 32 7

abbrev header_only : Bytes → List Bytes → Option Bytes
header_only header txs = some header

abbrev first_block : BlockWrite
first_block = record { height = 1; header_rlp = 11 ∷ []; pvm = []; txs = []; code = []; tail = [] }

first_block-IsBlock : IsBlock first_block
first_block-IsBlock = record {
  height_fits = omega arith;
  header_fits = omega arith;
  pvm_fits = omega arith;
  code_fits = tt;
  txs_fit = tt;
  tail_fits = tt;
}

abbrev no_cache : FlatCache
no_cache = record {
  budget = 0;
  half = 0;
  hot = [];
  cold = [];
  bytes = 0;
  height = 0;
  is_set = false;
}

abbrev root_name : Bytes
root_name = b'g' ∷ []

abbrev named : Bytes → Memtable → Bytes
named prev m = b'r' ∷ prev

abbrev writer_of : Option Writer → Writer
writer_of o = elim o [ none ↦ empty_store no_cache | some d ↦ d ]

unfoldable after_first : Writer
after_first = writer_of (
    write_block root_name named 1 1000 tiny_hash tiny_hash header_only (empty_store no_cache)
      first_block)

first_lands :
    write_block root_name named 1 1000 tiny_hash tiny_hash header_only
      (empty_store no_cache)
      first_block
    ≡ some after_first
unfolding after_first write_block maybe_flush cut_window wait_cut freeze seal empty_store reset
    cleared empty_index add_block start_window block_body chain_row add_chain chain_at set_chain add
    write encode_rec kind_byte fam_byte be num_row put_num reassemble tx_rows state_rows code_rows
    end_block pad_chains pad_to lookup insert beq apply
first_lands = refl

after_first-Life :
    Life tiny_hash tiny_hash header_only
      (λ x. refl)
      (λ x. refl)
      root_name
      named
      1
      1000
      no_cache
      after_first
after_first-Life = written first_block fresh_store first_block-IsBlock first_lands

empty-IsJoined : IsJoined (empty_store no_cache)
empty-IsJoined =
    Life-IsJoined tiny_hash tiny_hash header_only (λ x. refl) (λ x. refl) root_name named 1 1000
      fresh_store

write_block-IsJoined_example :
    IsJoined after_first
    × (next_height after_first ≡ (
        if ltb 1 (next_height (empty_store no_cache))
        then next_height (empty_store no_cache)
        else 1 + 1))
    × ((ltb 1 (next_height (empty_store no_cache)) ≡ false)
        ⊎ (next_tx after_first ≡ next_tx (empty_store no_cache)))
write_block-IsJoined_example =
    write_block-IsJoined tiny_hash tiny_hash header_only (λ x. refl) (λ x. refl) root_name named 1
      1000 (empty_store no_cache) first_block first_block-IsBlock empty-IsJoined first_lands

next-flush_example :
    ((next_height (wait_cut root_name named after_first) ≡ next_height after_first)
      × (next_tx (wait_cut root_name named after_first) ≡ next_tx after_first))
    × ((next_height (cut_window root_name named after_first) ≡ next_height after_first)
        × (next_tx (cut_window root_name named after_first) ≡ next_tx after_first))
    × ((next_height (flush root_name named after_first) ≡ next_height after_first)
        × (next_tx (flush root_name named after_first) ≡ next_tx after_first))
next-flush_example = next-flush root_name named after_first (
    Life-IsJoined tiny_hash tiny_hash header_only (λ x. refl) (λ x. refl) root_name named 1 1000
      after_first-Life)

-- The same store with its merge: a run of one transaction slot is enough for a terminal.
abbrev merged_name : Bytes → List RunRef → Bytes
merged_name prev inputs = b'm' ∷ prev

abbrev first_run : RunRef
first_run = record {
  from_tx = 0;
  to_tx = 1;
  from_height = 1;
  to_height = 1;
  name = b'r' ∷ root_name;
  level = 0;
}

abbrev sealed_first : Writer
sealed_first = record after_first { runs = first_run ∷ []; frozen = none }

sealed_first_is : wait_cut root_name named after_first ≡ sealed_first
unfolding after_first write_block maybe_flush cut_window wait_cut freeze seal empty_store reset
    cleared empty_index add_block start_window block_body chain_row add_chain chain_at set_chain add
    write encode_rec kind_byte fam_byte be num_row put_num reassemble tx_rows state_rows code_rows
    end_block pad_chains pad_to lookup insert beq apply append_run sealed_ref prev_run
sealed_first_is = refl

abbrev NodeOf : Writer → Merging → Type 0
NodeOf =
    Node 1 root_name merged_name named 1 1000 tiny_hash tiny_hash header_only (λ x. refl)
      (λ x. refl) no_cache

first_node : NodeOf sealed_first idle
first_node =
    subst (λ (w : Writer). NodeOf w idle) sealed_first_is
      (Node.sealed_one (Node.written first_block fresh_node first_block-IsBlock first_lands))

plans_first : (maybe_merge 1 (db_of sealed_first idle)).merging ≡ planned 0 1
unfolding maybe_merge plan merge_span span_of span_end span_start level_zero_at
plans_first = refl

planned_node : NodeOf sealed_first (planned 0 1)
planned_node = subst (NodeOf sealed_first) plans_first (merge_started first_node)

Node-Inputs_example : Inputs 1 root_name merged_name (db_of sealed_first (planned 0 1)) 0 1
Node-Inputs_example =
    Node-Inputs 1 root_name merged_name named 1 1000 tiny_hash tiny_hash header_only (λ x. refl)
      (λ x. refl) planned_node

abbrev in_flight : Merging
in_flight = building 0 1 (first_run ∷ []) root_name

begins_first :
    begin_merge root_name (db_of sealed_first (planned 0 1)) ≡ some (db_of sealed_first in_flight)
unfolding begin_merge take_inputs span_refs prev_name check_tiling follows
begins_first = refl

abbrev merged_first : Writer
merged_first = record sealed_first {
  runs = record first_run { name = b'm' ∷ root_name; level = 1 } ∷ [];
}

finishes_first :
    finish_merge merged_name (db_of sealed_first in_flight) ≡ some (db_of merged_first idle)
unfolding finish_merge install merged_ref swap_span beq
finishes_first = refl

merged_node : NodeOf merged_first idle
merged_node = merge_finished (merge_begun planned_node begins_first) finishes_first

Node-IsJoined_example : (check_tiling merged_first.runs ≡ true) × IsJoined merged_first
Node-IsJoined_example =
    Node-IsJoined 1 root_name merged_name named 1 1000 tiny_hash tiny_hash header_only (λ x. refl)
      (λ x. refl) merged_node

-- ===== src/Tests/Memtable.antt =====
-- Two blocks into an empty window, and the second one torn in the middle of its bytes.
use avalanche_s3_archival_no.Prelude.{
  ◌≡◌, ◌<◌, ◌+◌, refl, arith, List, [], ◌∷◌, ◌++◌, Option, none, some, length, replicate, take,
  drop,
}
use avalanche_s3_archival_no.Prelude.Bytes.{Bytes, beq, be}
use avalanche_s3_archival_no.Prelude.Map.{lookup, insert}
use avalanche_s3_archival_no.Store.Rows.{StateRow, TxWrite, BlockWrite, state_key_prefix}
use avalanche_s3_archival_no.Store.Rows.Entries.{
  tx_postings, role, frame_roles, logs_postings, or_in, sorted, insert_sorted,
}
use avalanche_s3_archival_no.Store.Keys.{account_prefix, addr_prefix, join}
use avalanche_s3_archival_no.Store.Container.{reassemble}
use avalanche_s3_archival_no.Store.Window.{empty_index, add, pad_to}
use avalanche_s3_archival_no.Store.Memtable.{
  Memtable, reset, cleared, add_chain, chain_at, set_chain, write, encode_rec, kind_byte, fam_byte,
  put_num, put_post, put_state, put_history, pad_chains,
}
use avalanche_s3_archival_no.Store.Memtable.Write.{
  add_block, add_blocks, start_window, block_body, chain_row, num_row, tx_rows, tx_row, entry_rows,
  post_rows, post_row, log_rows, state_rows, state_row, code_rows, end_block,
}
use avalanche_s3_archival_no.Store.Memtable.Replay.{recover}
use avalanche_s3_archival_no.Store.Memtable.Emits.{IsRow}
use avalanche_s3_archival_no.Store.Memtable.Blocks.{IsTx, IsBlock}
use avalanche_s3_archival_no.Store.Memtable.Torn.{recover-torn, recover-log}
use avalanche_s3_archival_no.Store.Memtable.Sealed.{recover-sealed}

abbrev here_addr : Bytes
here_addr = replicate 20 1

abbrev flat_hash : Bytes → Bytes
flat_hash x = replicate 32 7

abbrev bare_of : Bytes → List Bytes → Option Bytes
bare_of header txs = some header

abbrev balance_row : StateRow
balance_row = record { kind = b'a'; addr = here_addr; slot = []; val = 5 ∷ [] }

abbrev plain_tx : TxWrite
plain_tx = record {
  hash = replicate 32 4;
  rlp = 8 ∷ [];
  receipt = 9 ∷ [];
  frames = [];
  frame_addrs = [];
  state = balance_row ∷ [];
  sender = here_addr;
  to = [];
  created = [];
  logs = [];
}

abbrev block_one : BlockWrite
block_one = record {
  height = 1;
  header_rlp = 11 ∷ [];
  pvm = [];
  txs = plain_tx ∷ [];
  code = [];
  tail = [];
}

abbrev block_two : BlockWrite
block_two = record {
  height = 2;
  header_rlp = 12 ∷ [];
  pvm = [];
  txs = [];
  code = [];
  tail = balance_row ∷ [];
}

abbrev content : Option Memtable → Memtable
content o = elim o [ none ↦ reset 0 0 | some m ↦ m ]

unfoldable window_one : Memtable
window_one = content (add_blocks flat_hash flat_hash bare_of (reset 0 0) (block_one ∷ []))

unfoldable window_two : Memtable
window_two = content (add_block flat_hash flat_hash bare_of window_one block_two)

balance_row-IsRow : IsRow balance_row
unfolding state_key_prefix account_prefix
balance_row-IsRow = record { key_fits = omega arith; row_fits = omega arith }

plain_tx-IsTx : IsTx plain_tx
unfolding tx_postings role frame_roles logs_postings or_in addr_prefix join sorted insert_sorted
    lookup insert
plain_tx-IsTx = record {
  frames_fit = omega arith;
  receipt_fits = omega arith;
  rlp_fits = omega arith;
  hash_fits = omega arith;
  groups_fit = (omega arith, tt);
  sets_fit = tt;
  rows_fit = (balance_row-IsRow, tt);
}

block_one-IsBlock : IsBlock block_one
block_one-IsBlock = record {
  height_fits = omega arith;
  header_fits = omega arith;
  pvm_fits = omega arith;
  code_fits = tt;
  txs_fit = (plain_tx-IsTx, tt);
  tail_fits = tt;
}

block_two-IsBlock : IsBlock block_two
block_two-IsBlock = record {
  height_fits = omega arith;
  header_fits = omega arith;
  pvm_fits = omega arith;
  code_fits = tt;
  txs_fit = tt;
  tail_fits = (balance_row-IsRow, tt);
}

one_lands : add_blocks flat_hash flat_hash bare_of (reset 0 0) (block_one ∷ []) ≡ some window_one
unfolding window_one add_blocks add_block start_window block_body chain_row add_chain chain_at
    set_chain add write encode_rec kind_byte fam_byte reset cleared empty_index be num_row put_num
    reassemble tx_rows tx_row entry_rows post_rows post_row put_post log_rows state_rows state_row
    put_state put_history state_key_prefix account_prefix code_rows end_block pad_chains pad_to
    tx_postings role frame_roles logs_postings or_in addr_prefix join sorted insert_sorted lookup
    insert beq
one_lands = refl

two_lands : add_block flat_hash flat_hash bare_of window_one block_two ≡ some window_two
unfolding window_one window_two add_blocks add_block start_window block_body chain_row add_chain
    chain_at set_chain add write encode_rec kind_byte fam_byte reset cleared empty_index be num_row
    put_num reassemble tx_rows tx_row entry_rows post_rows post_row put_post log_rows state_rows
    state_row put_state put_history state_key_prefix account_prefix code_rows end_block pad_chains
    pad_to tx_postings role frame_roles logs_postings or_in addr_prefix join sorted insert_sorted
    lookup insert beq
two_lands = refl

unfoldable torn_part : Bytes
torn_part = take 30 (drop (length window_one.log) window_two.log)

unfoldable lost_part : Bytes
lost_part = drop (length window_one.log + 30) window_two.log

torn_there : window_two.log ≡ window_one.log ++ (torn_part ++ lost_part)
unfolding torn_part lost_part window_one window_two add_blocks add_block start_window block_body
    chain_row add_chain chain_at set_chain add write encode_rec kind_byte fam_byte reset cleared
    empty_index be num_row put_num reassemble tx_rows tx_row entry_rows post_rows post_row put_post
    log_rows state_rows state_row put_state put_history state_key_prefix account_prefix code_rows
    end_block pad_chains pad_to tx_postings role frame_roles logs_postings or_in addr_prefix join
    sorted insert_sorted lookup insert beq
torn_there = refl

some_lost : 0 < length lost_part
unfolding lost_part window_one window_two add_blocks add_block start_window block_body chain_row
    add_chain chain_at set_chain add write encode_rec kind_byte fam_byte reset cleared empty_index
    be num_row put_num reassemble tx_rows tx_row entry_rows post_rows post_row put_post log_rows
    state_rows state_row put_state put_history state_key_prefix account_prefix code_rows end_block
    pad_chains pad_to tx_postings role frame_roles logs_postings or_in addr_prefix join sorted
    insert_sorted lookup insert beq
some_lost = omega arith

recover-torn_example : recover (window_one.log ++ torn_part) 0 0 ≡ some window_one
recover-torn_example =
    recover-torn flat_hash flat_hash bare_of (λ x. refl) (λ x. refl) 0 0 (block_one ∷ []) block_two
      window_one window_two torn_part lost_part (omega arith) (block_one-IsBlock, tt)
      block_two-IsBlock one_lands two_lands torn_there some_lost

recover-log_example : recover window_one.log 0 0 ≡ some window_one
recover-log_example =
    recover-log flat_hash flat_hash bare_of (λ x. refl) (λ x. refl) 0 0 (block_one ∷ []) window_one
      (omega arith) (block_one-IsBlock, tt) one_lands

-- The same log after its block was sealed: the window starts at slot 2 and height 2.
recover-sealed_example :
    recover window_one.log 2 2 ≡ some (record (reset 2 2) { log = window_one.log })
recover-sealed_example =
    recover-sealed flat_hash flat_hash bare_of (λ x. refl) (λ x. refl) 2 2 0 0 (block_one ∷ [])
      window_one (omega arith) (block_one-IsBlock, tt) (omega arith, tt) one_lands

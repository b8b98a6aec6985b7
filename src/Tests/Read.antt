-- ===== src/Tests/Read.antt =====
-- Reads of a small window.
use avalanche_s3_archival_no.Prelude.{
  ◌≡◌, ◌≤◌, refl, arith, leb, if◌then◌else◌, [], ◌∷◌, none, some,
}
use avalanche_s3_archival_no.Prelude.Bytes.{Bytes, be, beq}
use avalanche_s3_archival_no.Prelude.Map.{lookup}
use avalanche_s3_archival_no.Store.Window.{empty_index, add}
use avalanche_s3_archival_no.Store.Window.Index.{IsIndex}
use avalanche_s3_archival_no.Store.Memtable.{
  blk, Index, Memtable, reset, cleared, chain_at, set_chain, add_chain, write, encode_rec,
  kind_byte, fam_byte, put_state,
}
use avalanche_s3_archival_no.Store.Memtable.Write.{chain_row}
use avalanche_s3_archival_no.Store.Memtable.Read.{chain_get, latest_state}
use avalanche_s3_archival_no.Store.Memtable.Read.Back.{chain_get-chain_row, latest_state-put_state}

abbrev first_log : Bytes
first_log = b'B' ∷ 0 ∷ 0 ∷ 0 ∷ 0 ∷ 0 ∷ 0 ∷ 0 ∷ 4 ∷ 0 ∷ 0 ∷ 0 ∷ 2 ∷ 70 ∷ 71 ∷ []

unfoldable with_first : Memtable
with_first = elim (chain_row (reset 0 4) blk 4 (70 ∷ 71 ∷ [])) [ none ↦ reset 0 0 | some m ↦ m ]

unfoldable with_second : Memtable
with_second = elim (chain_row with_first blk 5 (80 ∷ [])) [ none ↦ reset 0 0 | some m ↦ m ]

first_row : chain_row (reset 0 4) blk 4 (70 ∷ 71 ∷ []) ≡ some with_first
unfolding with_first chain_row add_chain chain_at set_chain add write encode_rec kind_byte fam_byte
    reset cleared empty_index be
first_row = refl

first_bytes : with_first.log ≡ first_log
unfolding with_first chain_row add_chain chain_at set_chain add write encode_rec kind_byte fam_byte
    reset cleared empty_index be
first_bytes = refl

second_row_lands : chain_row with_first blk 5 (80 ∷ []) ≡ some with_second
unfolding with_first with_second chain_row add_chain chain_at set_chain add write encode_rec
    kind_byte fam_byte reset cleared empty_index be
second_row_lands = refl

start-IsIndex : IsIndex (chain_at blk (reset 0 4).idx.chains)
unfolding chain_at reset cleared empty_index
start-IsIndex = record { in_step = refl; unset = λ h. refl; fits = omega arith }

first-IsIndex : IsIndex (chain_at blk with_first.idx.chains)
unfolding with_first chain_row add_chain chain_at set_chain add write encode_rec kind_byte fam_byte
    reset cleared empty_index be
first-IsIndex = record { in_step = refl; unset = λ h. cc; fits = omega arith }

chain_get-chain_row_example : chain_get with_first blk 4 ≡ some (some (70 ∷ 71 ∷ []))
chain_get-chain_row_example =
    chain_get-chain_row (reset 0 4) blk 4 (70 ∷ 71 ∷ []) start-IsIndex (omega arith) (omega arith)
      first_row

abbrev one_key : Index
one_key = record (reset 0 4).idx {
  state = ((1 ∷ []), record { txnum = 3; val = 30 ∷ [] } ∷ []) ∷ [];
}

below_seven : (3 ≤ 7) × Unit {0}
below_seven = (omega arith, tt)

latest_state-put_state_example :
    (latest_state (put_state one_key (1 ∷ []) 7 (50 ∷ [])) (1 ∷ []) 5 ≡ (
      if leb 7 5
      then some (record { txnum = 7; val = 50 ∷ [] })
      else latest_state one_key (1 ∷ []) 5))
    × (latest_state (put_state one_key (1 ∷ []) 7 (50 ∷ [])) (2 ∷ []) 5
        ≡ latest_state one_key (2 ∷ []) 5)
unfolding lookup beq
latest_state-put_state_example =
    latest_state-put_state one_key (1 ∷ []) (2 ∷ []) 7 5 (50 ∷ []) below_seven (λ e. cc)

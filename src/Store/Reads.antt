-- ===== src/Store/Reads.antt =====
-- The reads of the store (store/db.go): every read asks the window, then the frozen one, then the runs.
pub mod Descent
pub mod Heights
use avalanche_s3_archival_no.Prelude.{
  ℕ, zero, suc, ◌+◌, ◌-◌, ◌/◌, ◌%◌, ◌^◌, ◌==◌, add64, sub64, leb, ltb, if◌then◌else◌,
}
use avalanche_s3_archival_no.Prelude.{
  Bool, true, false, not, ◌&&◌, ◌||◌, List, [], ◌∷◌, Option, none, some, length, take, drop,
}
use avalanche_s3_archival_no.Prelude.Bytes.{Bytes, be_value}
use avalanche_s3_archival_no.Store.Keys.{
  num_key, prefix_blk, prefix_hdr, prefix_itx, prefix_pvm, prefix_rcpt, prefix_tx, tx_hash_key,
  blk_hash_key, cid_key, account_prefix, slot_prefix, code_ref_prefix,
}
use avalanche_s3_archival_no.Store.Manifest.{RunRef}
use avalanche_s3_archival_no.Store.Memtable.{Memtable, MemVal, Fam, blk, hdr, itx, pvm, rcpt, tx}
use avalanche_s3_archival_no.Store.Memtable.Read.{chain_get, latest_state, lookup_num}
use avalanche_s3_archival_no.Store.Run.{
  Section, chain_section, state_section, lookup_section, Run, get_row, latest,
}

unfoldable pub fam_prefix : Fam → Bytes
fam_prefix blk = prefix_blk
fam_prefix hdr = prefix_hdr
fam_prefix itx = prefix_itx
fam_prefix pvm = prefix_pvm
fam_prefix rcpt = prefix_rcpt
fam_prefix tx = prefix_tx

-- What a reader sees: the two windows, the runs that are open, the newest one first, and the manifest.
pub record View : Type 0 where
  pub mem : Memtable
  pub frozen : Option Memtable
  pub runs : List Run
  pub man : List RunRef

-- A window's answer, or else that of the frozen window behind it.
abbrev pub or_frozen {ℓ} : {A : Type ℓ} → (Memtable → Option A) → View → Option A
or_frozen ask d = elim (ask d.mem) [
  | some v ↦ some v
  | none ↦ elim d.frozen [ none ↦ none | some f ↦ ask f ]
]

-- The heights of the window or the run that has a TxNum.
unfoldable pub man_bounds : List RunRef → ℕ → Option (ℕ × ℕ)
man_bounds [] txnum = none
man_bounds (r ∷ rs) txnum =
    let rest = man_bounds rs txnum in
    if leb r.from_tx txnum && ltb txnum r.to_tx then some (r.from_height, r.to_height) else rest

unfoldable pub window_bounds : ℕ → Memtable → Option (ℕ × ℕ)
window_bounds txnum m =
    if m.started && (leb m.base_tx txnum && ltb txnum m.next_tx)
    then some (m.base_height, sub64 m.next_height 1)
    else none

unfoldable pub height_bounds : View → ℕ → Option (ℕ × ℕ)
unfolding man_bounds window_bounds
height_bounds d txnum = elim (or_frozen (window_bounds txnum) d) [
  | some b ↦ some b
  | none ↦ man_bounds d.man txnum
]

module _ (may_have : Run → Section → Bytes → Bool) where
  -- The loops from the newest run to the oldest one. With two options, `none` is an error and
  -- `some none` no row.
  unfoldable pub runs_chain_row : List Run → Fam → ℕ → Bool → Option Bytes
  runs_chain_row [] fam n by_height = none
  runs_chain_row (r ∷ older) fam n by_height =
      let f = r.ref in
      let in_run =
        if by_height
        then leb f.from_height n && leb n f.to_height
        else leb f.from_tx n && ltb n f.to_tx in
      let rest = runs_chain_row older fam n by_height in
      if in_run then get_row may_have r chain_section (num_key (fam_prefix fam) n) else rest

  unfoldable pub runs_lookup_num : List Run → Bytes → Option (Option ℕ)
  runs_lookup_num [] key = some none
  runs_lookup_num (r ∷ older) key = elim (get_row may_have r lookup_section key) [
    | none ↦ runs_lookup_num older key
    | some v ↦ if length v == 8 then some (some (be_value 0 v)) else none
  ]

  unfoldable pub runs_latest : List Run → Section → Bytes → ℕ → Option MemVal
  runs_latest [] sec prefix at = none
  runs_latest (r ∷ older) sec prefix at =
      let rest = runs_latest older sec prefix at in
      if ltb at r.ref.from_tx
      then rest
      else elim (latest may_have r sec prefix at) [ none ↦ rest | some v ↦ some v ]

  unfoldable pub chain_row_at : View → Fam → ℕ → Bool → Option (Option Bytes)
  unfolding runs_chain_row
  chain_row_at d fam n by_height =
      let from_runs = runs_chain_row d.runs fam n by_height in
      elim (chain_get d.mem fam n) [
        | none ↦ none
        | some (some v) ↦ some (some v)
        | some none ↦ elim d.frozen [
          | none ↦ some from_runs
          | some f ↦ elim (chain_get f fam n) [
            | none ↦ none
            | some (some v) ↦ some (some v)
            | some none ↦ some from_runs
          ]
        ]
      ]

  unfoldable pub number_of : View → Bytes → Option (Option ℕ)
  unfolding runs_lookup_num
  number_of d key = elim (or_frozen (λ (m : Memtable). lookup_num m.idx key) d) [
    | some n ↦ some (some n)
    | none ↦ runs_lookup_num d.runs key
  ]

  unfoldable pub tx_num_by_hash : View → Bytes → Option (Option ℕ)
  unfolding number_of
  tx_num_by_hash d hash = number_of d (tx_hash_key hash)

  unfoldable pub height_by_hash : View → Bytes → Option (Option ℕ)
  unfolding number_of
  height_by_hash d hash = number_of d (blk_hash_key hash)

  unfoldable pub height_by_container_id : View → Bytes → Option (Option ℕ)
  unfolding number_of
  height_by_container_id d id = number_of d (cid_key id)

  unfoldable pub latest_at : View → Section → Bytes → ℕ → Option MemVal
  unfolding runs_latest
  latest_at d sec prefix at = elim (or_frozen (λ (m : Memtable). latest_state m.idx prefix at) d) [
    | some v ↦ some v
    | none ↦ runs_latest d.runs sec prefix at
  ]

  unfoldable pub account_at : View → Bytes → ℕ → Option MemVal
  unfolding latest_at
  account_at d addr at = latest_at d state_section (account_prefix addr) at

  unfoldable pub storage_at : View → Bytes → Bytes → ℕ → Option MemVal
  unfolding latest_at
  storage_at d addr slot at = latest_at d state_section (slot_prefix addr slot) at

  unfoldable pub code_hash_at : View → Bytes → ℕ → Option MemVal
  unfolding latest_at
  code_hash_at d addr at = latest_at d state_section (code_ref_prefix addr) at

  -- `BlockTxRange`: the first TxNum of a block and its count of transactions.
  unfoldable pub block_tx_range : View → ℕ → Option (Option (ℕ × ℕ))
  unfolding chain_row_at
  block_tx_range d height = elim (chain_row_at d blk height true) [
    | none ↦ none
    | some none ↦ some none
    | some (some v) ↦
        if length v == 12
        then some (some (be_value 0 (take 8 v), be_value 0 (drop 8 v) % 2 ^ 32))
        else none
  ]

  -- The bisection of `HeightOfTx`, on fuel. Out of fuel it has no answer, as on an error.
  unfoldable pub bisect : ℕ → View → ℕ → ℕ → ℕ → Option (Option ℕ)
  unfolding block_tx_range
  bisect zero d txnum lo hi = none
  bisect (suc fuel) d txnum lo hi =
      let mid = (lo + hi + 1) % 2 ^ 64 / 2 in
      elim (ltb lo hi) [
        | false ↦ some (some lo)
        | true ↦ elim (block_tx_range d mid) [
          | none ↦ none
          | some none ↦ some none
          | some (some (first, count)) ↦ elim (leb first txnum) [
            | true ↦ bisect fuel d txnum mid hi
            | false ↦ bisect fuel d txnum lo (sub64 mid 1)
          ]
        ]
      ]

  unfoldable pub height_of_tx : View → ℕ → Option (Option ℕ)
  unfolding height_bounds bisect
  height_of_tx d txnum = elim (height_bounds d txnum) [
    | none ↦ some none
    | some (lo, hi) ↦ bisect (suc (hi - lo)) d txnum lo hi
  ]

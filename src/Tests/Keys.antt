-- ===== src/Tests/Keys.antt =====
-- Keys, rows and containers at concrete inputs.
use avalanche_s3_archival_no.Prelude.{
  ◌≡◌, ◌&&◌, inl, inr, refl, arith, true, replicate, List, [], ◌∷◌, Option, none, some,
}
use avalanche_s3_archival_no.Prelude.Bytes.{Bytes, beq, has_prefix}
use avalanche_s3_archival_no.Store.Keys.{
  suffixed, account_prefix, code_ref_prefix, slot_prefix, bloom_key, join, split, set_key,
}
use avalanche_s3_archival_no.Store.Keys.Split.{bloom-state}
use avalanche_s3_archival_no.Store.Rows.{StateRow, state_key_prefix}
use avalanche_s3_archival_no.Store.Rows.Columns.{column-disjoint, same_column}
use avalanche_s3_archival_no.Store.Container.{pvm_template, reassemble}
use avalanche_s3_archival_no.Store.Container.Template.{reassemble-pvm_template}
use avalanche_s3_archival_no.Store.Window.{ChainIndex, add}
use avalanche_s3_archival_no.Store.Window.Index.{IsIndex}

abbrev an_addr : Bytes
an_addr = replicate 20 1

abbrev a_slot : Bytes
a_slot = replicate 32 2

abbrev a_topic : Bytes
a_topic = replicate 32 3

bloom-state_example :
    (bloom_key (suffixed (account_prefix an_addr) 7) ≡ account_prefix an_addr)
    × (bloom_key (suffixed (code_ref_prefix an_addr) 7) ≡ code_ref_prefix an_addr)
    × (bloom_key (suffixed (slot_prefix an_addr a_slot) 7) ≡ slot_prefix an_addr a_slot)
bloom-state_example = bloom-state an_addr a_slot 7 refl refl

abbrev a_row : StateRow
a_row = record { kind = b's'; addr = an_addr; slot = a_slot; val = 9 ∷ [] }

-- A set row is cut behind its value.
split-set_key_example : split (set_key a_topic 1 a_slot an_addr) ≡ 72
unfolding split set_key join has_prefix
split-set_key_example = refl

-- An account row has no slot.
abbrev account_row : StateRow
account_row = record { kind = b'a'; addr = an_addr; slot = []; val = 9 ∷ [] }

column-disjoint_example :
    has_prefix (suffixed (state_key_prefix account_row) 4) (state_key_prefix a_row)
    ≡ (beq an_addr an_addr && same_column account_row a_row)
column-disjoint_example =
    column-disjoint account_row a_row 4 (record { addr_len = refl; slot_len = inl refl })
      (record { addr_len = refl; slot_len = inr (inr refl) })

abbrev no_bare : Bytes → List Bytes → Option Bytes
no_bare header txs = none

abbrev two_txs : List Bytes
two_txs = (31 ∷ 32 ∷ []) ∷ (33 ∷ []) ∷ []

abbrev a_container : Bytes
a_container = 11 ∷ 12 ∷ 21 ∷ 22 ∷ 23 ∷ 13 ∷ 31 ∷ 32 ∷ 33 ∷ 14 ∷ []

reassemble-pvm_template_example :
    reassemble no_bare (pvm_template a_container 2 5 6 9) (21 ∷ 22 ∷ 23 ∷ []) two_txs
    ≡ some a_container
reassemble-pvm_template_example =
    reassemble-pvm_template no_bare (11 ∷ 12 ∷ []) (21 ∷ 22 ∷ 23 ∷ []) (13 ∷ []) (14 ∷ []) two_txs
      (omega arith) (omega arith)

abbrev one_row : ChainIndex
one_row = record { base = 7; is_set = true; off = 13 ∷ []; n = 5 ∷ [] }

abbrev two_rows : ChainIndex
two_rows = record { base = 7; is_set = true; off = 13 ∷ 31 ∷ []; n = 5 ∷ 4 ∷ [] }

second_row : add one_row 8 31 4 ≡ some two_rows
unfolding add
second_row = refl

one_row-IsIndex : IsIndex one_row
one_row-IsIndex = record { in_step = refl; unset = λ h. cc; fits = omega arith }

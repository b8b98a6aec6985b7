-- ===== src/Store/Rows/Entries.antt =====
-- The index entries of one transaction (store/mem.go): its posting groups with their payload bits,
-- and the set rows of its logs.
use avalanche_s3_archival_no.Prelude.{
  ℕ, ◌+◌, ltb, if◌then◌else◌, List, [], ◌∷◌, none, some, length, replicate,
}
use avalanche_s3_archival_no.Prelude.Bytes.{Bytes, blt}
use avalanche_s3_archival_no.Prelude.Map.{Map, lookup, insert}
use avalanche_s3_archival_no.Store.Keys.{addr_prefix, elog_group, tval_group, sig_group, set_key}
use avalanche_s3_archival_no.Store.Rows.{TxWrite, LogWrite}
use Prim.Native.Nat.{bit_or}

abbrev pub role_sender : ℕ
role_sender = 1

abbrev pub role_recipient : ℕ
role_recipient = 2

abbrev pub role_created : ℕ
role_created = 4

abbrev pub role_emitter : ℕ
role_emitter = 8

abbrev pub role_frame : ℕ
role_frame = 16

abbrev zero_hash : Bytes
zero_hash = replicate 32 0

abbrev payload_of : Bytes → Map ℕ → ℕ
payload_of k m = elim (lookup k m) [ none ↦ 0 | some v ↦ v ]

-- `post[k] |= bits`
unfoldable pub or_in : Bytes → ℕ → Map ℕ → Map ℕ
or_in k bits m = insert k (bit_or (payload_of k m) bits) m

unfoldable pub role : Map ℕ → Bytes → ℕ → Map ℕ
unfolding or_in
role post a r = if ltb 0 (length a) then or_in (addr_prefix a) r post else post

unfoldable pub frame_roles : Map ℕ → List Bytes → Map ℕ
unfolding role
frame_roles post [] = post
frame_roles post (a ∷ as_) = frame_roles (role post a role_frame) as_

-- The values at topic positions 1, 2 and 3, with their bit.
unfoldable pub value_postings : Map ℕ → Bytes → List Bytes → ℕ → Map ℕ
unfolding or_in
value_postings post topic0 [] bit = post
value_postings post topic0 (v ∷ vs) bit =
    let rest = value_postings (or_in (tval_group v topic0) bit post) topic0 vs (bit + bit) in
    if ltb bit 8 then rest else post

unfoldable pub log_postings : Map ℕ → Bytes → List Bytes → Map ℕ
unfolding or_in value_postings
log_postings post emitter [] = or_in (elog_group emitter zero_hash) 0 post
log_postings post emitter (topic0 ∷ values) =
    value_postings (or_in (elog_group emitter topic0) 0 (or_in (sig_group topic0) 0 post)) topic0
      values 1

unfoldable pub logs_postings : Map ℕ → List LogWrite → Map ℕ
unfolding role log_postings
logs_postings post [] = post
logs_postings post (l ∷ ls) =
    logs_postings (log_postings (role post l.emitter role_emitter) l.emitter l.topics) ls

-- All posting entries of a transaction, one for each group.
unfoldable pub tx_postings : TxWrite → Map ℕ
unfolding role frame_roles logs_postings
tx_postings t =
    let named =
      role (role (role [] t.sender role_sender) t.to role_recipient) t.created role_created in
    logs_postings (frame_roles named t.frame_addrs) t.logs

-- `sortedKeys`, with each key's payload
unfoldable pub insert_sorted : Bytes → ℕ → Map ℕ → Map ℕ
insert_sorted k v [] = (k, v) ∷ []
insert_sorted k v ((j, w) ∷ m) =
    if blt k j then (k, v) ∷ (j, w) ∷ m else (j, w) ∷ insert_sorted k v m

unfoldable pub sorted : Map ℕ → Map ℕ
unfolding insert_sorted
sorted [] = []
sorted ((k, v) ∷ m) = insert_sorted k v (sorted m)

unfoldable pub value_sets : Bytes → Bytes → List Bytes → ℕ → List Bytes
value_sets emitter topic0 [] pos = []
value_sets emitter topic0 (v ∷ vs) pos =
    let rest = set_key topic0 pos v emitter ∷ value_sets emitter topic0 vs (pos + 1) in
    if ltb pos 4 then rest else []

unfoldable pub log_sets : Bytes → List Bytes → List Bytes
unfolding value_sets
log_sets emitter [] = []
log_sets emitter (topic0 ∷ values) = value_sets emitter topic0 values 1

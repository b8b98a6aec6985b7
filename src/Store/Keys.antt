-- ===== src/Store/Keys.antt =====
-- The key schema of store/format.go: the prefixes of the row families, the builders of their keys,
-- the eight-byte TxNum suffix, and `split`, the length of a key's bloom prefix.
pub mod Suffix
pub mod Split
use avalanche_s3_archival_no.Prelude.{ℕ, ◌+◌, ◌-◌, ◌<◌, ◌≡◌, ltb, leb, ◌==◌, if◌then◌else◌}
use avalanche_s3_archival_no.Prelude.{
  Bool, true, false, ◌&&◌, Option, none, some, List, [], ◌∷◌, ◌++◌,
}
use avalanche_s3_archival_no.Prelude.{length, get_elem?, take, drop}
use avalanche_s3_archival_no.Prelude.Bytes.{Bytes, has_prefix, be, be_value}

abbrev pub prefix_blk : Bytes
prefix_blk = b'b' ∷ b'l' ∷ b'k' ∷ b'/' ∷ []

abbrev pub prefix_hdr : Bytes
prefix_hdr = b'h' ∷ b'd' ∷ b'r' ∷ b'/' ∷ []

abbrev pub prefix_itx : Bytes
prefix_itx = b'i' ∷ b't' ∷ b'x' ∷ b'/' ∷ []

abbrev pub prefix_pvm : Bytes
prefix_pvm = b'p' ∷ b'v' ∷ b'm' ∷ b'/' ∷ []

abbrev pub prefix_rcpt : Bytes
prefix_rcpt = b'r' ∷ b'c' ∷ b'p' ∷ b't' ∷ b'/' ∷ []

abbrev pub prefix_tx : Bytes
prefix_tx = b't' ∷ b'x' ∷ b'/' ∷ []

abbrev pub prefix_code : Bytes
prefix_code = b'c' ∷ b'o' ∷ b'd' ∷ b'e' ∷ b'/' ∷ []

abbrev pub prefix_state : Bytes
prefix_state = b's' ∷ b't' ∷ b'a' ∷ b't' ∷ b'e' ∷ b'/' ∷ []

abbrev pub prefix_tx_hash : Bytes
prefix_tx_hash = b't' ∷ b'x' ∷ b'h' ∷ b'/' ∷ []

abbrev pub prefix_blk_hash : Bytes
prefix_blk_hash = b'b' ∷ b'l' ∷ b'k' ∷ b'h' ∷ b'/' ∷ []

abbrev pub prefix_cid : Bytes
prefix_cid = b'c' ∷ b'i' ∷ b'd' ∷ b'/' ∷ []

abbrev pub prefix_addr : Bytes
prefix_addr = b'a' ∷ b'd' ∷ b'd' ∷ b'r' ∷ b'/' ∷ []

abbrev pub prefix_elog : Bytes
prefix_elog = b'e' ∷ b'l' ∷ b'o' ∷ b'g' ∷ b'/' ∷ []

abbrev pub prefix_tval : Bytes
prefix_tval = b't' ∷ b'v' ∷ b'a' ∷ b'l' ∷ b'/' ∷ []

abbrev pub prefix_sig : Bytes
prefix_sig = b's' ∷ b'i' ∷ b'g' ∷ b'/' ∷ []

abbrev pub prefix_set : Bytes
prefix_set = b's' ∷ b'e' ∷ b't' ∷ b'/' ∷ []

-- The payload width of a posting family, by group key.
unfoldable pub payload_bits : Bytes → ℕ
unfolding has_prefix
payload_bits group =
    if has_prefix group prefix_addr then 5 else if has_prefix group prefix_tval then 3 else 0

unfoldable pub num_key : Bytes → ℕ → Bytes
num_key prefix n = prefix ++ be 8 n

abbrev pub tx_hash_key : Bytes → Bytes
tx_hash_key h = prefix_tx_hash ++ h

abbrev pub code_key : Bytes → Bytes
code_key hash = prefix_code ++ hash

abbrev pub blk_hash_key : Bytes → Bytes
blk_hash_key h = prefix_blk_hash ++ h

abbrev pub cid_key : Bytes → Bytes
cid_key id = prefix_cid ++ id

unfoldable pub account_prefix : Bytes → Bytes
account_prefix addr = prefix_state ++ (addr ++ (b'/' ∷ b'a' ∷ b'/' ∷ []))

unfoldable pub code_ref_prefix : Bytes → Bytes
code_ref_prefix addr = prefix_state ++ (addr ++ (b'/' ∷ b'c' ∷ b'/' ∷ []))

unfoldable pub slot_prefix : Bytes → Bytes → Bytes
slot_prefix addr slot = prefix_state ++ (addr ++ (b'/' ∷ b's' ∷ b'/' ∷ (slot ++ (b'/' ∷ []))))

-- `join`: every part is followed by a slash.
abbrev parts_key : List Bytes → Bytes
parts_key [] = []
parts_key (p ∷ ps) = p ++ (b'/' ∷ parts_key ps)

unfoldable pub join : Bytes → List Bytes → Bytes
join prefix parts = prefix ++ parts_key parts

unfoldable pub addr_prefix : Bytes → Bytes
unfolding join
addr_prefix addr = join prefix_addr (addr ∷ [])

unfoldable pub elog_group : Bytes → Bytes → Bytes
unfolding join
elog_group emitter topic0 = join prefix_elog (emitter ∷ topic0 ∷ [])

unfoldable pub tval_group : Bytes → Bytes → Bytes
unfolding join
tval_group value topic0 = join prefix_tval (value ∷ topic0 ∷ [])

unfoldable pub sig_group : Bytes → Bytes
unfolding join
sig_group topic0 = join prefix_sig (topic0 ∷ [])

unfoldable pub set_prefix : Bytes → ℕ → Bytes → Bytes
unfolding join
set_prefix topic0 pos value = join prefix_set (topic0 ∷ (pos ∷ []) ∷ value ∷ [])

unfoldable pub set_key : Bytes → ℕ → Bytes → Bytes → Bytes
unfolding set_prefix
set_key topic0 pos value emitter = set_prefix topic0 pos value ++ emitter

abbrev pub set_split : ℕ
set_split = 4 + 32 + 1 + 1 + 1 + 32 + 1

-- `Suffixed` appends the eight-byte big-endian TxNum.
unfoldable pub suffixed : Bytes → ℕ → Bytes
suffixed prefix txnum = prefix ++ be 8 txnum

-- `TxNumOf` and `NumOf`; `none` is the slice panic of a key under eight bytes.
unfoldable pub txnum_of : Bytes → Option ℕ
txnum_of key = if ltb (length key) 8 then none else some (be_value 0 (drop (length key - 8) key))

-- `key[27] == 's'`, read only past the length guard.
abbrev shape_is_slot : Bytes → Bool
shape_is_slot key = elim (get_elem? key 27) [ none ↦ false | some c ↦ c == b's' ]

-- One case of the switch: a family whose keys are cut at `cut` once they have `tail` bytes more.
abbrev cut_at : Bytes → ℕ → ℕ → ℕ
cut_at key cut tail = if leb (cut + tail) (length key) then cut else length key

unfoldable pub split : Bytes → ℕ
unfolding has_prefix
split key =
    if has_prefix key prefix_state
    then if ltb 27 (length key) && shape_is_slot key then cut_at key 62 8 else cut_at key 29 8
    else if has_prefix key prefix_addr
    then cut_at key 26 8
    else if has_prefix key prefix_elog
    then cut_at key 26 8
    else if has_prefix key prefix_tval
    then cut_at key 38 8
    else if has_prefix key prefix_sig
    then cut_at key 37 8
    else if has_prefix key prefix_set
    then cut_at key set_split 20
    else length key

-- What the bloom filter of a run is keyed on: `key[:split(key)]`.
unfoldable pub bloom_key : Bytes → Bytes
unfolding split
bloom_key key = take (split key) key

-- Does a scan of `prefix` have a bloom question to ask?
unfoldable pub bloom_gated : Bytes → Bool
unfolding split suffixed
bloom_gated prefix = ltb (split (suffixed prefix 0)) (length prefix + 8)

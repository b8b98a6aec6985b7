-- ===== src/Store/Postings.antt =====
-- Posting lists (store/postings.go): the entries of a flush cut into chunks, and the scans of a
-- run's lookup section. `insert_by` is sort.Slice; entries that it may order either way are equal in
-- all that the loop below reads but the payload, which it ORs.
pub mod Collect
pub mod Cut
pub mod InRun
pub mod Loop
pub mod Open
pub mod Order
pub mod Ranks
pub mod Sorting
pub mod Scan
pub mod Set
pub mod Union
pub mod Whole
use avalanche_s3_archival_no.Prelude.{
  ℕ, zero, suc, ◌+◌, ◌-◌, ◌*◌, ◌/◌, ◌%◌, ◌==◌, ltb, leb, if◌then◌else◌,
}
use avalanche_s3_archival_no.Prelude.{
  Bool, true, false, not, ◌&&◌, ◌||◌, List, [], ◌∷◌, ◌++◌, Option, none, some, length, take,
  get_elem?, last?, map,
}
use avalanche_s3_archival_no.Prelude.Bytes.{Bytes, beq, blt, has_prefix}
use avalanche_s3_archival_no.Prelude.Map.{Map, lookup, insert}
use avalanche_s3_archival_no.Prelude.Fail.{◌>>=◌}
use avalanche_s3_archival_no.Store.Keys.{suffixed, txnum_of, payload_bits, bloom_gated, set_split}
use avalanche_s3_archival_no.Store.Memtable.{Posting}
use avalanche_s3_archival_no.Store.Run.{Section, lookup_section, Row, Run}
use avalanche_s3_archival_no.Store.Ef.{
  max_entries, encode_ef, Decoded, decoded, corrupt, panicked, decode_ef,
}

pub record PostEnt : Type 0 where
  pub gid : ℕ
  pub payload : ℕ
  pub txnum : ℕ

pub record PostSet : Type 0 where
  pub groups : List Bytes
  pub ids : Map ℕ
  pub ents : List PostEnt

abbrev pub empty_set : PostSet
empty_set = record { groups = []; ids = []; ents = [] }

abbrev pub entered : PostSet → ℕ → ℕ → ℕ → PostSet
entered p id txnum payload = record p {
  ents = p.ents ++ (record { gid = id; payload = payload; txnum = txnum } ∷ []);
}

unfoldable pub post_add : PostSet → Bytes → ℕ → ℕ → PostSet
unfolding lookup insert
post_add p group txnum payload = elim (lookup group p.ids) [
  | some id ↦ entered p id txnum payload
  | none ↦
      let id = length p.groups in
      entered (record p { groups = p.groups ++ (group ∷ []); ids = insert group id p.ids }) id txnum
        payload
]

-- sort.Slice
unfoldable pub insert_by {ℓ} : {A : Type ℓ} → (A → A → Bool) → A → List A → List A
insert_by less x [] = x ∷ []
insert_by less x (y ∷ ys) =
    let rest = insert_by less x ys in if less y x then y ∷ rest else x ∷ y ∷ ys

unfoldable pub sort_by {ℓ} : {A : Type ℓ} → (A → A → Bool) → List A → List A
unfolding insert_by
sort_by less [] = []
sort_by less (x ∷ xs) = insert_by less x (sort_by less xs)

-- `groups[gid]`, where an id that `add` gave is in range.
abbrev pub group_at : List Bytes → ℕ → Bytes
group_at groups gid = elim (get_elem? groups gid) [ none ↦ [] | some g ↦ g ]

abbrev pub upto : ℕ → ℕ → List ℕ
upto i zero = []
upto i (suc n) = i ∷ upto (suc i) n

-- `order`, and the place of an id in it.
unfoldable pub group_order : List Bytes → List ℕ
unfolding sort_by
group_order groups =
    sort_by (λ (i j : ℕ). blt (group_at groups i) (group_at groups j)) (upto 0 (length groups))

unfoldable pub rank_in : List ℕ → ℕ → ℕ
rank_in [] id = 0
rank_in (o ∷ order) id = let rest = rank_in order id in if o == id then 0 else suc rest

unfoldable pub sort_ents : PostSet → List PostEnt
unfolding sort_by group_order rank_in
sort_ents p =
    let order = group_order p.groups in
    sort_by
      (λ (a b : PostEnt).
        let ra = rank_in order a.gid in
        let rb = rank_in order b.gid in if not (ra == rb) then ltb ra rb else ltb a.txnum b.txnum)
      p.ents

-- `a | b` of two numbers of so many bits.
unfoldable pub or_bits : ℕ → ℕ → ℕ → ℕ
or_bits zero a b = 0
or_bits (suc w) a b =
    or_bits w (a / 2) (b / 2) * 2 + (if (a % 2 == 1) || (b % 2 == 1) then 1 else 0)

-- The loop over the sorted entries: the rows, and the chunk that is open.
pub record Cutting : Type 0 where
  pub rows : List Row
  pub nums : List ℕ
  pub pay : Bytes

abbrev pub chunk_row : Bytes → ℕ → List ℕ → Bytes → Row
chunk_row group first nums pay = record {
  key = suffixed group first;
  val = encode_ef first nums pay (payload_bits group);
}

unfoldable pub cut_flush : List Bytes → ℕ → Cutting → Cutting
cut_flush groups gid c = elim c.nums [
  | [] ↦ c
  | n ∷ ns ↦ record {
    rows = c.rows ++ (chunk_row (group_at groups gid) n c.nums c.pay ∷ []);
    nums = [];
    pay = [];
  }
]

-- `pay[n-1] |= x`
unfoldable pub or_last : Bytes → ℕ → Bytes
or_last [] x = []
or_last (p ∷ []) x = or_bits 8 p x ∷ []
or_last (p ∷ q ∷ ps) x = p ∷ or_last (q ∷ ps) x

abbrev pub ends_at : List ℕ → ℕ → Bool
ends_at nums t = elim (last? nums) [ none ↦ false | some n ↦ n == t ]

abbrev pub group_left : List Bytes → Option PostEnt → PostEnt → Cutting → Cutting
group_left groups none e c = c
group_left groups (some q) e c = if q.gid == e.gid then c else cut_flush groups q.gid c

unfoldable pub cut_entry : List Bytes → PostEnt → Cutting → Cutting
unfolding cut_flush or_last
cut_entry groups e c =
    if ends_at c.nums e.txnum
    then record c { pay = or_last c.pay e.payload }
    else let d = if length c.nums == max_entries then cut_flush groups e.gid c else c in
      record d { nums = d.nums ++ (e.txnum ∷ []); pay = d.pay ++ (e.payload ∷ []) }

unfoldable pub cut_loop : List Bytes → Option PostEnt → List PostEnt → Cutting → List Row
unfolding cut_entry
cut_loop groups none [] c = c.rows
cut_loop groups (some q) [] c = (cut_flush groups q.gid c).rows
cut_loop groups prev (e ∷ es) c =
    cut_loop groups (some e) es (cut_entry groups e (group_left groups prev e c))

unfoldable pub chunks : PostSet → List Row
unfolding cut_loop sort_ents
chunks p = cut_loop p.groups none (sort_ents p) (record { rows = []; nums = []; pay = [] })

-- What a scan comes to: an error of the codec is returned, a panic of it is not caught.
pub data Scanned : Type 0 where
  scanned : List Posting → Scanned
  failed crashed : Scanned

unfoldable pub pick : ℕ → ℕ → Bytes → List ℕ → Bytes → List Posting
pick lo hi group [] ps = []
pick lo hi group (n ∷ ns) [] = []
pick lo hi group (n ∷ ns) (p ∷ ps) =
    let rest = pick lo hi group ns ps in
    if ltb n lo || ltb hi n then rest else record { group = group; txnum = n; payload = p } ∷ rest

abbrev pub payloads : List ℕ → Option Bytes → Bytes
payloads nums none = map (λ (n : ℕ). 0) nums
payloads nums (some ps) = ps

abbrev pub group_of : Bytes → Bytes
group_of key = take (length key - 8) key

unfoldable pub decode_pend : ℕ → ℕ → Option Row → List Posting → Scanned
unfolding pick decode_ef
decode_pend lo hi none out = scanned out
decode_pend lo hi (some kv) out = elim (txnum_of kv.key) [
  | none ↦ crashed
  | some base ↦ elim (decode_ef base kv.val) [
    | corrupt ↦ failed
    | panicked ↦ crashed
    | decoded nums pay ↦ scanned (out ++ pick lo hi (group_of kv.key) nums (payloads nums pay))
  ]
]

-- Is a key outside the scan, where the loops stop?
abbrev pub is_past : Bytes → Bytes → Bool
is_past prefix key = not (has_prefix key prefix) || ltb (length key) (length prefix + 8)

abbrev pub same_group : Option Row → Row → Bool
same_group none kv = false
same_group (some q) kv = beq (group_of q.key) (group_of kv.key)

unfoldable pub scan_loop : Bytes → ℕ → ℕ → List Row → Option Row → List Posting → Scanned
unfolding decode_pend
scan_loop prefix lo hi [] pend out = decode_pend lo hi pend out
scan_loop prefix lo hi (kv ∷ rest) pend out =
    if is_past prefix kv.key then decode_pend lo hi pend out else elim (txnum_of kv.key) [
      | none ↦ crashed
      | some first ↦
          let kept =
            if same_group pend kv && leb first lo
            then scanned out
            else decode_pend lo hi pend out in
          elim kept [
            | failed ↦ failed
            | crashed ↦ crashed
            | scanned more ↦
                scan_loop prefix lo hi rest (if ltb hi first then none else some kv) more
          ]
    ]

-- The rows from a key on, as the iterator of `SeekGE` and `Next` gives them.
unfoldable pub rows_from : Bytes → List Row → List Row
rows_from key [] = []
rows_from key (r ∷ rs) = let rest = rows_from key rs in if blt r.key key then rest else r ∷ rs

unfoldable pub group_loop : (Bytes → Bool) → Bytes → List Row → Bytes → List Bytes
group_loop fn prefix [] last = []
group_loop fn prefix (kv ∷ rest) last =
    if is_past prefix kv.key
    then []
    else let g = group_of kv.key in
      let later = group_loop fn prefix rest g in
      if beq g last then later else if fn g then g ∷ later else g ∷ []

unfoldable pub set_loop : (Bytes → Bool) → Bytes → List Row → List Bytes
set_loop fn prefix [] = []
set_loop fn prefix (kv ∷ rest) =
    let later = set_loop fn prefix rest in
    if not (has_prefix kv.key prefix) then [] else if fn kv.key then kv.key ∷ later else kv.key ∷ []

-- `may_have` is the bloom gate of a section. `scan_groups` and `scan_set` answer the calls of `fn`.
module _ (may_have : Run → Section → Bytes → Bool) where
  abbrev pub gated_off : Run → Bytes → Bool
  gated_off r prefix = bloom_gated prefix && not (may_have r lookup_section (suffixed prefix 0))

  unfoldable pub scan_chunks : Run → Bytes → ℕ → ℕ → Scanned
  unfolding scan_loop rows_from
  scan_chunks r prefix lo hi =
      if gated_off r prefix
      then scanned []
      else scan_loop prefix lo hi (rows_from prefix (r.rows lookup_section)) none []

  unfoldable pub scan_groups : Run → Bytes → (Bytes → Bool) → List Bytes
  unfolding group_loop rows_from
  scan_groups r prefix fn =
      if gated_off r prefix
      then []
      else group_loop fn prefix (rows_from prefix (r.rows lookup_section)) []

  unfoldable pub scan_set : Run → Bytes → (Bytes → Bool) → List Bytes
  unfolding set_loop rows_from
  scan_set r prefix fn =
      if leb set_split (length prefix) && not (may_have r lookup_section (take set_split prefix))
      then []
      else set_loop fn prefix (rows_from prefix (r.rows lookup_section))

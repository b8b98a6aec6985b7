-- ===== src/Store/Flat/Budget.antt =====
-- The byte budget of the cache: what is accounted, and what the two generations hold together.
use avalanche_s3_archival_no.Prelude.{ℕ, ◌+◌, ◌/◌, ◌%◌, ◌^◌, ◌≤◌, ◌<◌, ◌≡◌, ◌∙◌, ◌==◌}
use avalanche_s3_archival_no.Prelude.{Bool, List, [], ◌∷◌}
use avalanche_s3_archival_no.Prelude.{inl, inr, arith, Bool-cases, Option-cases, All}
use avalanche_s3_archival_no.Prelude.Bytes.{Bytes}
use avalanche_s3_archival_no.Prelude.Map.{Map, lookup, insert, total}
use avalanche_s3_archival_no.Prelude.Map.{total-insert_new, total-insert_old, entry-le-total}
use avalanche_s3_archival_no.Store.Rows.{StateRow, BlockWrite, state_key_prefix}
use avalanche_s3_archival_no.Store.Flat.{
  FlatVal, FlatCache, new_flat_cache, adopt, put, fill, put_rows, drop_gap, apply, flat_entry_bytes,
  without_old,
}
use avalanche_s3_archival_no.Store.Flat.Truth.{
  History, Call, land, filled, run, block_rows, written, rows_lem,
}

abbrev pub held : Map FlatVal → ℕ
held = total flat_entry_bytes

-- `m` bounds the accounted size of one entry.
pub record IsWithin (m : ℕ) (c : FlatCache) : Type 0 where
  pub exact : c.bytes ≡ held c.hot
  pub hot_le : held c.hot ≤ c.half
  pub cold_le : held c.cold ≤ c.half + m
  pub room : c.half + m < 2 ^ 64

-- The bytes accounted once the new entry is in, without a wrap.
put_bytes :
    (m : ℕ) (c : FlatCache) (k : Bytes) (v : FlatVal)
    → flat_entry_bytes k v ≤ m
    → IsWithin m c
    → ((without_old c k + flat_entry_bytes k v) % 2 ^ 64 ≡ held (insert k v c.hot))
      × (held (insert k v c.hot) ≤ c.half + m)
unfolding without_old
put_bytes m c k v s w = elim (Option-cases (lookup k c.hot)) [
  | inl new ↦ ground (arith, total-insert_new flat_entry_bytes k v c.hot new)
  | inr (old, e) ↦ ground (
    arith,
    total-insert_old flat_entry_bytes k v old c.hot e,
    entry-le-total flat_entry_bytes k old c.hot e,
  )
]

put-IsWithin :
    (m : ℕ) (c : FlatCache) (k : Bytes) (v : FlatVal)
    → flat_entry_bytes k v ≤ m
    → IsWithin m c
    → IsWithin m (put c k v)
unfolding put total
put-IsWithin m c k v s w = ground (arith, put_bytes m c k v s w)

put-half : (c : FlatCache) (k : Bytes) (v : FlatVal) → (put c k v).half ≡ c.half
unfolding put
put-half c k v = ground arith

abbrev pub RowFits : ℕ → StateRow → Type 0
RowFits m r = flat_entry_bytes (state_key_prefix r) (written r) ≤ m

-- A call whose entries are at most `m` bytes each.
abbrev pub Fits : ℕ → History → Call → Type 0
Fits m truth (land b) = All (RowFits m) (block_rows b)
Fits m truth (filled k h) = flat_entry_bytes k (truth h k) ≤ m

-- The invariant, at one fixed `half`.
record Bounded (m half : ℕ) (c : FlatCache) : Type 0 where
  within : IsWithin m c
  same : c.half ≡ half

put-Bounded :
    (m half : ℕ) (c : FlatCache) (k : Bytes) (v : FlatVal)
    → flat_entry_bytes k v ≤ m
    → Bounded m half c
    → Bounded m half (put c k v)
put-Bounded m half c k v s w = record {
  within = put-IsWithin m c k v s w.within;
  same = put-half c k v ∙ w.same;
}

put_rows-Bounded :
    (m half : ℕ) (c : FlatCache) (rs : List StateRow)
    → All (RowFits m) rs
    → Bounded m half c
    → Bounded m half (put_rows c rs)
unfolding put_rows
put_rows-Bounded m half c [] a w = w
put_rows-Bounded m half c (r ∷ rs) (s, a) w =
    put_rows-Bounded m half (put c (state_key_prefix r) (written r)) rs a
      (put-Bounded m half c (state_key_prefix r) (written r) s w)

drop_gap-Bounded :
    (m half : ℕ) (c : FlatCache) (h : ℕ) → Bounded m half c → Bounded m half (drop_gap c h)
unfolding drop_gap total
drop_gap-Bounded m half c h w = ground arith

apply-Bounded :
    (m half : ℕ) (c : FlatCache) (b : BlockWrite)
    → All (RowFits m) (block_rows b)
    → Bounded m half c
    → Bounded m half (apply c b)
unfolding apply
apply-Bounded m half c b a w = elim (Bool-cases (c.budget == 0)) [
  | inl off ↦ rw off w
  | inr on ↦
      let d =
        put_rows-Bounded m half (drop_gap c b.height) (block_rows b) a
          (drop_gap-Bounded m half c b.height w) in
      rw (on, rows_lem)
        (record {
          within = record {
            exact = d.within.exact;
            hot_le = d.within.hot_le;
            cold_le = d.within.cold_le;
            room = d.within.room;
          };
          same = d.same;
        })
]

fill-Bounded :
    (m half : ℕ) (c : FlatCache) (k val : Bytes) (found : Bool) (h : ℕ)
    → flat_entry_bytes k (record { val = val; found = found }) ≤ m
    → Bounded m half c
    → Bounded m half (fill c k val found h)
unfolding fill
fill-Bounded m half c k val found h s w =
    ground (arith, put-Bounded m half c k (record { val = val; found = found }) s w)

run-Bounded :
    (m half : ℕ) (truth : History) (c : FlatCache) (calls : List Call)
    → All (Fits m truth) calls
    → Bounded m half c
    → Bounded m half (run truth c calls)
unfolding run
run-Bounded m half truth c [] a w = w
run-Bounded m half truth c (land b ∷ calls) (s, a) w =
    run-Bounded m half truth (apply c b) calls a (apply-Bounded m half c b s w)
run-Bounded m half truth c (filled k h ∷ calls) (s, a) w =
    run-Bounded m half truth (fill c k (truth h k).val (truth h k).found h) calls a
      (fill-Bounded m half c k (truth h k).val (truth h k).found h s w)

-- If no entry takes more than `m` bytes and `budget / 2 + m` is a uint64, then after any landed
-- blocks and fills the accounted bytes are exactly those of the hot generation, they are at most
-- half the budget, and both generations together hold at most `budget + m` bytes.
pub run-within-budget :
    (m budget h0 : ℕ) (truth : History) (calls : List Call)
    → budget / 2 + m < 2 ^ 64
    → All (Fits m truth) calls
    → let c = run truth (adopt (new_flat_cache budget) h0) calls in
      (c.bytes ≡ held c.hot) × (c.bytes ≤ budget / 2) × (held c.hot + held c.cold ≤ budget + m)
unfolding adopt new_flat_cache total
run-within-budget m budget h0 truth calls r a =
    let c = adopt (new_flat_cache budget) h0 in
    let start : Bounded m (budget / 2) c = ground arith in
    let w = run-Bounded m (budget / 2) truth c calls a start in
    ground (arith, w.within.exact, w.within.hot_le, w.within.cold_le, w.same)

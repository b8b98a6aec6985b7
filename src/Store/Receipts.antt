-- ===== src/Store/Receipts.antt =====
-- The receipt records of store/receipts.go: the row of a transaction, the receipt fields of a block
-- and the pair of records of the tail. Where the code reads at `pos`, the model has what is left
-- from there on; `size` is `len(rec)`.

pub mod Block
pub mod Logs
pub mod Tx
use avalanche_s3_archival_no.Prelude.{
  ℕ, zero, suc, ◌+◌, ◌-◌, ◌*◌, ◌%◌, ◌^◌, ◌==◌, leb, ltb, add64, if◌then◌else◌,
}
use avalanche_s3_archival_no.Prelude.{
  Bool, true, false, not, ◌&&◌, List, [], ◌∷◌, ◌++◌, Option, none, some, length, take, drop, map,
}
use avalanche_s3_archival_no.Prelude.Bytes.{Bytes}
use avalanche_s3_archival_no.Store.Ef.{put_uvarint, uvarint}

-- An address has 20 bytes, a topic 32. The tx index is not in a transaction's row.
pub record StoredLog : Type 0 where
  pub address : Bytes
  pub topics : List Bytes
  pub data_ : Bytes

-- What the records keep of a types.Receipt of libevm.
pub record Receipt : Type 0 where
  pub status : ℕ
  pub gas_used : ℕ
  pub logs : List StoredLog

abbrev pub all_topics : List Bytes → Bytes
all_topics [] = []
all_topics (x ∷ xs) = x ++ all_topics xs

abbrev pub encode_log : StoredLog → Bytes
encode_log l =
    l.address
    ++ (put_uvarint (length l.topics)
        ++ (all_topics l.topics ++ (put_uvarint (length l.data_) ++ l.data_)))

abbrev pub encode_logs : List StoredLog → Bytes
encode_logs [] = []
encode_logs (l ∷ ls) = encode_log l ++ encode_logs ls

unfoldable pub encode_tx_receipt : Receipt → ℕ → Bytes
encode_tx_receipt r cumulative =
    put_uvarint r.status
    ++ (put_uvarint r.gas_used
        ++ (put_uvarint cumulative ++ (put_uvarint (length r.logs) ++ encode_logs r.logs)))

-- What a decoder comes to: `failed` is its error, `crashed` a panic.
pub data Outcome (A : Type 0) : Type 0 where
  ok : A → Outcome A
  failed crashed : Outcome A

abbrev pub and_then : {A B : Type 0} → Outcome A → (A → Outcome B) → Outcome B
and_then (ok a) f = f a
and_then failed f = failed
and_then crashed f = crashed

-- `next`: a number, and what is behind it.
abbrev pub next_num : Bytes → Outcome (ℕ × Bytes)
next_num rest = elim (uvarint rest) [ none ↦ failed | some (v, k) ↦ ok (v, drop k rest) ]

-- `pos+n > len(rec)`, in an int.
abbrev pub is_beyond : ℕ → ℕ → Bytes → Bool
is_beyond size n rest =
    let end_ = (size - length rest + n) % 2 ^ 64 in ltb end_ (2 ^ 63) && ltb size end_

-- So many bytes from here on: where the test above lets a count through that wrapped around, the
-- slice or the allocation panics.
unfoldable pub split_at : ℕ → ℕ → Bytes → Outcome (Bytes × Bytes)
split_at size n rest =
    if is_beyond size n rest
    then failed
    else if ltb (length rest) n
    then crashed
    else ok (take n rest, drop n rest)

-- The bytes of so many topics, cut up.
abbrev pub hashes : ℕ → Bytes → List Bytes
hashes zero b = []
hashes (suc n) b = take 32 b ∷ hashes n (drop 32 b)

unfoldable pub decode_log : ℕ → Bytes → Outcome (StoredLog × Bytes)
unfolding split_at
decode_log size rest =
    if ltb (length rest) 20
    then failed
    else and_then (next_num (drop 20 rest)) (λ (nt, r1).
      and_then (split_at size (nt * 32) r1) (λ (ts, r2). and_then (next_num r2) (λ (dl, r3).
        and_then (split_at size dl r3) (λ (d, r4).
          ok (record { address = take 20 rest; topics = hashes nt ts; data_ = d }, r4)))))

unfoldable pub decode_logs : ℕ → ℕ → Bytes → Outcome (List StoredLog)
unfolding decode_log
decode_logs size zero rest = ok []
decode_logs size (suc n) rest =
    and_then (decode_log size rest)
      (λ (l, more). and_then (decode_logs size n more) (λ ls. ok (l ∷ ls)))

-- `can_make` is what the runtime allocates at once: a count beyond it panics in `make`.
module _ (can_make : ℕ → Bool) where
  unfoldable pub decode_tx_receipt : Bytes → Outcome (Receipt × ℕ)
  unfolding decode_logs
  decode_tx_receipt rec = and_then (next_num rec) (λ (status, r1).
      and_then (next_num r1) (λ (gas_used, r2). and_then (next_num r2) (λ (cumulative, r3).
        and_then (next_num r3) (λ (n, r4).
          if not (can_make n)
          then crashed
          else and_then (decode_logs (length rec) n r4) (λ logs.
            ok (record { status = status; gas_used = gas_used; logs = logs }, cumulative))))))

-- The receipt fields of a block: gas and status byte of each transaction.
unfoldable pub encode_stored_receipts : List Receipt → Bytes
encode_stored_receipts [] = []
encode_stored_receipts (r ∷ rs) =
    put_uvarint r.gas_used ++ ((r.status % 256) ∷ encode_stored_receipts rs)

pub record StoredRcpt : Type 0 where
  pub gas_used : ℕ
  pub cumulative_gas : ℕ
  pub status : ℕ

-- On fuel: every round takes two bytes at least.
unfoldable pub decode_rcpts : ℕ → ℕ → Bytes → Option (List StoredRcpt)
decode_rcpts zero cum rest = none
decode_rcpts (suc fuel) cum [] = some []
decode_rcpts (suc fuel) cum (b ∷ bs) = elim (uvarint (b ∷ bs)) [
  | none ↦ none
  | some (g, k) ↦ elim (drop k (b ∷ bs)) [
    | [] ↦ none
    | s ∷ rest ↦ elim (decode_rcpts fuel (add64 cum g) rest) [
      | none ↦ none
      | some rs ↦ some (record { gas_used = g; cumulative_gas = add64 cum g; status = s } ∷ rs)
    ]
  ]
]

unfoldable pub decode_stored_receipts : Bytes → Option (List StoredRcpt)
unfolding decode_rcpts
decode_stored_receipts rec = decode_rcpts (suc (length rec)) 0 rec

-- The two records of a block in one.
unfoldable pub encode_tail_rcpt : Bytes → Bytes → Bytes
encode_tail_rcpt logs_rec rcpt_rec =
    if (length logs_rec == 0) && (length rcpt_rec == 0)
    then []
    else put_uvarint (length logs_rec) ++ (logs_rec ++ rcpt_rec)

unfoldable pub decode_tail_rcpt : Bytes → Outcome (Bytes × Bytes)
unfolding split_at
decode_tail_rcpt rec = and_then (next_num rec) (λ (n, rest). split_at (length rec) n rest)

-- The record of a block's logs, each with the index of its transaction.
pub record TxLog : Type 0 where
  pub log : StoredLog
  pub tx_index : ℕ

abbrev pub logs_of_tx : ℕ → List StoredLog → Bytes
logs_of_tx ti [] = []
logs_of_tx ti (l ∷ ls) = encode_log l ++ (put_uvarint ti ++ logs_of_tx ti ls)

abbrev pub logs_of_block : ℕ → List Receipt → Bytes
logs_of_block ti [] = []
logs_of_block ti (r ∷ rs) = logs_of_tx ti r.logs ++ logs_of_block (ti + 1) rs

abbrev pub count_logs : List Receipt → ℕ
count_logs [] = 0
count_logs (r ∷ rs) = length r.logs + count_logs rs

unfoldable pub encode_stored_logs : List Receipt → Bytes
encode_stored_logs rs =
    if count_logs rs == 0 then [] else put_uvarint (count_logs rs) ++ logs_of_block 0 rs

-- A slice that nothing tests before: beyond the record it panics, there or at the next read.
unfoldable pub cut_off : ℕ → Bytes → Outcome (Bytes × Bytes)
cut_off n rest = if ltb (length rest) n then crashed else ok (take n rest, drop n rest)

unfoldable pub decode_stored_log : Bytes → Outcome (TxLog × Bytes)
unfolding cut_off
decode_stored_log rest =
    if ltb (length rest) 20
    then failed
    else and_then (next_num (drop 20 rest)) (λ (nt, r1).
      and_then (cut_off (nt * 32) r1) (λ (ts, r2). and_then (next_num r2) (λ (dl, r3).
        and_then (cut_off dl r3) (λ (d, r4). and_then (next_num r4) (λ (ti, r5). ok (
          record {
            log = record { address = take 20 rest; topics = hashes nt ts; data_ = d };
            tx_index = ti;
          },
          r5,
        ))))))

unfoldable pub decode_tx_logs : ℕ → Bytes → Outcome (List TxLog)
unfolding decode_stored_log
decode_tx_logs zero rest = ok []
decode_tx_logs (suc n) rest =
    and_then (decode_stored_log rest)
      (λ (l, more). and_then (decode_tx_logs n more) (λ ls. ok (l ∷ ls)))

unfoldable pub decode_stored_logs : (ℕ → Bool) → Bytes → Outcome (List TxLog)
unfolding decode_tx_logs
decode_stored_logs can_make rec =
    and_then (next_num rec)
      (λ (n, rest). if not (can_make n) then crashed else decode_tx_logs n rest)

-- ===== src/Store/Receipts/Logs.antt =====
-- The record of a block's logs, read back.
use avalanche_s3_archival_no.Prelude.{
  ℕ, suc, ◌+◌, ◌*◌, ◌^◌, ◌==◌, ◌≤◌, ◌<◌, ◌≡◌, refl, ap, ◌∙◌, arith, ltb, if◌then◌else◌,
}
use avalanche_s3_archival_no.Prelude.{
  Bool, true, false, not, List, [], ◌∷◌, ◌++◌, append_assoc, length, length-append, take, drop, All,
}
use avalanche_s3_archival_no.Prelude.Bytes.{Bytes, take-append, drop-append}
use avalanche_s3_archival_no.Store.Ef.{put_uvarint}
use avalanche_s3_archival_no.Store.Receipts.{
  StoredLog, Receipt, all_topics, encode_log, Outcome, ok, failed, crashed, and_then, next_num,
  hashes, TxLog, logs_of_tx, logs_of_block, count_logs, encode_stored_logs, cut_off,
  decode_stored_log, decode_tx_logs, decode_stored_logs,
}
use avalanche_s3_archival_no.Store.Receipts.Tx.{
  IsLog, next_num-put_uvarint, length-all_topics, hashes-all_topics, encode_log-parts,
}

cut_off-append : (n : ℕ) (xs ys : Bytes) → length xs ≡ n → cut_off n (xs ++ ys) ≡ ok (xs, ys)
unfolding cut_off
cut_off-append n xs ys e =
    let enough : ltb (length (xs ++ ys)) n ≡ false = ground (arith, length-append xs ys, e) in
    ap (λ (b : Bool). if b then crashed else ok (take n (xs ++ ys), drop n (xs ++ ys))) enough
    ∙ ap (λ (l : Bytes). ok (l, drop n (xs ++ ys))) (take-append xs ys n e)
    ∙ ap (λ (l : Bytes). ok (xs, l)) (drop-append xs ys n e)

-- A log whose counts are uint64s.
pub record IsStored (l : StoredLog) : Type 0 where
  pub made : IsLog l
  pub few_topics : length l.topics < 2 ^ 64
  pub short_data : length l.data_ < 2 ^ 64

module _ (l : StoredLog) (h : IsStored l) (ti : ℕ) (small : ti < 2 ^ 64) (more : Bytes) where
  abbrev behind_data : Bytes
  behind_data = put_uvarint ti ++ more

  abbrev after_topics : Bytes
  after_topics = put_uvarint (length l.data_) ++ (l.data_ ++ behind_data)

  abbrev after_address : Bytes
  after_address = put_uvarint (length l.topics) ++ (all_topics l.topics ++ after_topics)

  abbrev from_index : Bytes → List Bytes → Bytes → Outcome (ℕ × Bytes) → Outcome (TxLog × Bytes)
  from_index rest ts d o = and_then o (λ (i, r5). ok (
    record { log = record { address = take 20 rest; topics = ts; data_ = d }; tx_index = i },
    r5,
  ))

  abbrev from_data : Bytes → List Bytes → Outcome (Bytes × Bytes) → Outcome (TxLog × Bytes)
  from_data rest ts o = and_then o (λ (d, r4). from_index rest ts d (next_num r4))

  abbrev from_size : Bytes → List Bytes → Outcome (ℕ × Bytes) → Outcome (TxLog × Bytes)
  from_size rest ts o = and_then o (λ (dl, r3). from_data rest ts (cut_off dl r3))

  abbrev from_topics : Bytes → ℕ → Outcome (Bytes × Bytes) → Outcome (TxLog × Bytes)
  from_topics rest nt o = and_then o (λ (ts, r2). from_size rest (hashes nt ts) (next_num r2))

  abbrev from_count : Bytes → Outcome (ℕ × Bytes) → Outcome (TxLog × Bytes)
  from_count rest o = and_then o (λ (nt, r1). from_topics rest nt (cut_off (nt * 32) r1))

  decode_stored_log-long :
      (rest : Bytes)
      → 20 ≤ length rest
      → decode_stored_log rest ≡ from_count rest (next_num (drop 20 rest))
  unfolding decode_stored_log
  decode_stored_log-long rest h =
      let long : ltb (length rest) 20 ≡ false = ground arith in
      ap (λ (b : Bool). if b then failed else from_count rest (next_num (drop 20 rest))) long

  decode_stored_log-encoded :
      decode_stored_log (encode_log l ++ behind_data) ≡ ok (record { log = l; tx_index = ti }, more)
  decode_stored_log-encoded =
      let w = l.address ++ after_address in
      let nt = length l.topics in
      let address_size = h.made.address_size in
      ap decode_stored_log (encode_log-parts 0 (omega arith) l h.made behind_data)
      ∙ decode_stored_log-long w
          (omega (arith, length-append l.address after_address, address_size))
      ∙ ap (λ (b : Bytes). from_count w (next_num b))
          (drop-append l.address after_address 20 address_size)
      ∙ ap (from_count w)
          (next_num-put_uvarint nt (all_topics l.topics ++ after_topics) h.few_topics)
      ∙ ap (from_topics w nt) (
          cut_off-append (nt * 32) (all_topics l.topics) after_topics
            (length-all_topics l.topics h.made.topic_sizes))
      ∙ ap (from_size w (hashes nt (all_topics l.topics)))
          (next_num-put_uvarint (length l.data_) (l.data_ ++ behind_data) h.short_data)
      ∙ ap (from_data w (hashes nt (all_topics l.topics)))
          (cut_off-append (length l.data_) l.data_ behind_data refl)
      ∙ ap (from_index w (hashes nt (all_topics l.topics)) l.data_)
          (next_num-put_uvarint ti more small)
      ∙ ap
          (λ (ts : List Bytes). ok (
            record {
              log = record { address = take 20 w; topics = ts; data_ = l.data_ };
              tx_index = ti;
            },
            more,
          ))
          (hashes-all_topics l.topics h.made.topic_sizes)
      ∙ ap
          (λ (a : Bytes). ok (
            record {
              log = record { address = a; topics = l.topics; data_ = l.data_ };
              tx_index = ti;
            },
            more,
          ))
          (take-append l.address after_address 20 address_size)

abbrev indexed : ℕ → List StoredLog → List TxLog
indexed ti [] = []
indexed ti (l ∷ ls) = record { log = l; tx_index = ti } ∷ indexed ti ls

-- The logs of a block in order, each with the place of its transaction.
abbrev pub block_logs : ℕ → List Receipt → List TxLog
block_logs ti [] = []
block_logs ti (r ∷ rs) = indexed ti r.logs ++ block_logs (ti + 1) rs

abbrev from_log : ℕ → Outcome (TxLog × Bytes) → Outcome (List TxLog)
from_log n o = and_then o (λ (l, more). and_then (decode_tx_logs n more) (λ ls. ok (l ∷ ls)))

abbrev consed : TxLog → Outcome (List TxLog) → Outcome (List TxLog)
consed l o = and_then o (λ ls. ok (l ∷ ls))

decode-logs_of_tx :
    (ti : ℕ) (ls : List StoredLog) (n : ℕ) (rest : Bytes) (later : List TxLog)
    → ti < 2 ^ 64
    → All IsStored ls
    → decode_tx_logs n rest ≡ ok later
    → decode_tx_logs (length ls + n) (logs_of_tx ti ls ++ rest) ≡ ok (indexed ti ls ++ later)
unfolding decode_tx_logs
decode-logs_of_tx ti [] n rest later small a e =
    let same : 0 + n ≡ n = omega arith in ap (λ (m : ℕ). decode_tx_logs m rest) same ∙ e
decode-logs_of_tx ti (l ∷ ls) n rest later small (h, a) e =
    let rows = logs_of_tx ti ls in
    let next : suc (length ls) + n ≡ suc (length ls + n) = omega arith in
    let place =
      append_assoc (encode_log l) (put_uvarint ti ++ rows) rest
      ∙ ap (λ (b : Bytes). encode_log l ++ b) (append_assoc (put_uvarint ti) rows rest) in
    ap (λ (m : ℕ). decode_tx_logs m (logs_of_tx ti (l ∷ ls) ++ rest)) next
    ∙ ap (λ (b : Bytes). from_log (length ls + n) (decode_stored_log b)) place
    ∙ ap (from_log (length ls + n)) (decode_stored_log-encoded l h ti small (rows ++ rest))
    ∙ ap (consed (record { log = l; tx_index = ti }))
        (decode-logs_of_tx ti ls n rest later small a e)

abbrev pub AllStored : List Receipt → Type 0
AllStored rs = All (λ (r : Receipt). All IsStored r.logs) rs

decode_tx_logs-nil : (rest : Bytes) → decode_tx_logs 0 rest ≡ ok []
unfolding decode_tx_logs
decode_tx_logs-nil rest = refl

decode-logs_of_block :
    (ti : ℕ) (rs : List Receipt)
    → ti + length rs < 2 ^ 64
    → AllStored rs
    → decode_tx_logs (count_logs rs) (logs_of_block ti rs) ≡ ok (block_logs ti rs)
decode-logs_of_block ti [] small a = decode_tx_logs-nil []
decode-logs_of_block ti (r ∷ rs) small (h, a) =
    decode-logs_of_tx ti r.logs (count_logs rs) (logs_of_block (ti + 1) rs) (block_logs (ti + 1) rs)
      (omega arith) h (decode-logs_of_block (ti + 1) rs (omega arith) a)

-- The logs of a block's receipts, at least one, are read back in order, each with the place of
-- its transaction, for addresses of 20 bytes, topics of 32, counts and data lengths of a uint64
-- and a number of logs that the runtime can allocate.
pub decode_stored_logs-encode_stored_logs :
    (can_make : ℕ → Bool) (rs : List Receipt)
    → 0 < count_logs rs
    → count_logs rs < 2 ^ 64
    → length rs < 2 ^ 64
    → AllStored rs
    → can_make (count_logs rs) ≡ true
    → decode_stored_logs can_make (encode_stored_logs rs) ≡ ok (block_logs 0 rs)
unfolding decode_stored_logs encode_stored_logs
decode_stored_logs-encode_stored_logs can_make rs some_logs fits few a made =
    let n = count_logs rs in
    let whole = put_uvarint n ++ logs_of_block 0 rs in
    let full : (n == 0) ≡ false = ground arith in
    ap (λ (b : Bool). decode_stored_logs can_make (if b then [] else whole)) full
    ∙ ap
        (λ (o : Outcome (ℕ × Bytes)).
          and_then o (λ (m, rest). if not (can_make m) then crashed else decode_tx_logs m rest))
        (next_num-put_uvarint n (logs_of_block 0 rs) fits)
    ∙ ap (λ (b : Bool). if not b then crashed else decode_tx_logs n (logs_of_block 0 rs)) made
    ∙ decode-logs_of_block 0 rs (omega arith) a

-- ===== src/Store/Receipts/Tx.antt =====
-- The receipt row of a transaction, read back.
use avalanche_s3_archival_no.Prelude.{
  ℕ, ◌*◌, ◌^◌, ◌≤◌, ◌<◌, ◌≡◌, refl, ap, ◌∙◌, arith, ltb, if◌then◌else◌,
}
use avalanche_s3_archival_no.Prelude.{
  Bool, true, false, not, List, [], ◌∷◌, ◌++◌, append_assoc, Option, none, some, length,
  length-append, take, drop, All,
}
use avalanche_s3_archival_no.Prelude.Bytes.{Bytes, take-append, drop-append}
use avalanche_s3_archival_no.Store.Ef.{put_uvarint}
use avalanche_s3_archival_no.Store.Ef.Header.{uvarint-put_uvarint}
use avalanche_s3_archival_no.Store.Receipts.{
  StoredLog, Receipt, all_topics, encode_log, encode_logs, encode_tx_receipt, Outcome, ok, failed,
  crashed, and_then, next_num, is_beyond, split_at, hashes, decode_log, decode_logs,
  decode_tx_receipt,
}

pub next_num-put_uvarint :
    (v : ℕ) (rest : Bytes) → v < 2 ^ 64 → next_num (put_uvarint v ++ rest) ≡ ok (v, rest)
next_num-put_uvarint v rest fits =
    let whole = put_uvarint v ++ rest in
    ap
      (λ (o : Option (ℕ × ℕ)). elim o as (λ (q : Option (ℕ × ℕ)). Outcome (ℕ × Bytes)) [
        | none ↦ failed
        | some (x, k) ↦ ok (x, drop k whole)
      ])
      (uvarint-put_uvarint v rest fits)
    ∙ ap (λ (l : Bytes). ok (v, l)) (drop-append (put_uvarint v) rest (length (put_uvarint v)) refl)

module _ (size : ℕ) (fits : size < 2 ^ 63) where
  pub split_at-append :
      (n : ℕ) (xs ys : Bytes)
      → length xs ≡ n
      → length (xs ++ ys) ≤ size
      → split_at size n (xs ++ ys) ≡ ok (xs, ys)
  unfolding split_at
  split_at-append n xs ys e le =
      let all = length-append xs ys in
      let inside : is_beyond size n (xs ++ ys) ≡ false = ground (arith, all, e, le, fits) in
      let enough : ltb (length (xs ++ ys)) n ≡ false = ground (arith, all, e) in
      ap
        (λ (b : Bool).
          if b
          then failed
          else if ltb (length (xs ++ ys)) n
          then crashed
          else ok (take n (xs ++ ys), drop n (xs ++ ys)))
        inside
      ∙ ap (λ (b : Bool). if b then crashed else ok (take n (xs ++ ys), drop n (xs ++ ys))) enough
      ∙ ap (λ (l : Bytes). ok (l, drop n (xs ++ ys))) (take-append xs ys n e)
      ∙ ap (λ (l : Bytes). ok (xs, l)) (drop-append xs ys n e)

-- Topics of 32 bytes, cut up again.
pub length-all_topics :
    (ts : List Bytes)
    → All (λ (t : Bytes). length t ≡ 32) ts
    → length (all_topics ts) ≡ length ts * 32
length-all_topics [] a = refl
length-all_topics (t ∷ ts) (h, a) =
    omega (arith, length-append t (all_topics ts), h, length-all_topics ts a)

pub hashes-all_topics :
    (ts : List Bytes)
    → All (λ (t : Bytes). length t ≡ 32) ts
    → hashes (length ts) (all_topics ts) ≡ ts
hashes-all_topics [] a = refl
hashes-all_topics (t ∷ ts) (h, a) =
    ap (λ (l : Bytes). l ∷ hashes (length ts) (drop 32 (t ++ all_topics ts)))
      (take-append t (all_topics ts) 32 h)
    ∙ ap (λ (l : Bytes). t ∷ hashes (length ts) l) (drop-append t (all_topics ts) 32 h)
    ∙ ap (λ (l : List Bytes). t ∷ l) (hashes-all_topics ts a)

-- A log as the EVM makes it.
pub record IsLog (l : StoredLog) : Type 0 where
  pub address_size : length l.address ≡ 20
  pub topic_sizes : All (λ (t : Bytes). length t ≡ 32) l.topics

module _ (size : ℕ) (fits : size < 2 ^ 63) (l : StoredLog) (h : IsLog l) (more : Bytes) where
  abbrev topic_bytes : Bytes
  topic_bytes = all_topics l.topics

  abbrev behind_topics : Bytes
  behind_topics = put_uvarint (length l.data_) ++ (l.data_ ++ more)

  abbrev behind_address : Bytes
  behind_address = put_uvarint (length l.topics) ++ (topic_bytes ++ behind_topics)

  pub encode_log-parts : encode_log l ++ more ≡ l.address ++ behind_address
  encode_log-parts =
      let data_part = put_uvarint (length l.data_) ++ l.data_ in
      let topic_part = topic_bytes ++ data_part in
      append_assoc l.address (put_uvarint (length l.topics) ++ topic_part) more
      ∙ ap (λ (b : Bytes). l.address ++ b)
          (append_assoc (put_uvarint (length l.topics)) topic_part more)
      ∙ ap (λ (b : Bytes). l.address ++ (put_uvarint (length l.topics) ++ b))
          (append_assoc topic_bytes data_part more)
      ∙ ap (λ (b : Bytes). l.address ++ (put_uvarint (length l.topics) ++ (topic_bytes ++ b)))
          (append_assoc (put_uvarint (length l.data_)) l.data_ more)

  -- The rest of the decoder, from each of its reads on.
  abbrev from_data : Bytes → List Bytes → Outcome (Bytes × Bytes) → Outcome (StoredLog × Bytes)
  from_data rest ts o =
      and_then o (λ (d, r4). ok (record { address = take 20 rest; topics = ts; data_ = d }, r4))

  abbrev from_size : Bytes → List Bytes → Outcome (ℕ × Bytes) → Outcome (StoredLog × Bytes)
  from_size rest ts o = and_then o (λ (dl, r3). from_data rest ts (split_at size dl r3))

  abbrev from_topics : Bytes → ℕ → Outcome (Bytes × Bytes) → Outcome (StoredLog × Bytes)
  from_topics rest nt o = and_then o (λ (ts, r2). from_size rest (hashes nt ts) (next_num r2))

  abbrev from_count : Bytes → Outcome (ℕ × Bytes) → Outcome (StoredLog × Bytes)
  from_count rest o = and_then o (λ (nt, r1). from_topics rest nt (split_at size (nt * 32) r1))

  decode_log-long :
      (rest : Bytes)
      → 20 ≤ length rest
      → decode_log size rest ≡ from_count rest (next_num (drop 20 rest))
  unfolding decode_log
  decode_log-long rest h =
      let long : ltb (length rest) 20 ≡ false = ground arith in
      ap (λ (b : Bool). if b then failed else from_count rest (next_num (drop 20 rest))) long

  decode_log-encode_log :
      length (encode_log l ++ more) ≤ size → decode_log size (encode_log l ++ more) ≡ ok (l, more)
  decode_log-encode_log le =
      let w = l.address ++ behind_address in
      let nt = length l.topics in
      let all = ap (λ (b : Bytes). length b) encode_log-parts in
      let in_address = length-append l.address behind_address in
      let in_count = length-append (put_uvarint nt) (topic_bytes ++ behind_topics) in
      let in_topics = length-append topic_bytes behind_topics in
      let in_size = length-append (put_uvarint (length l.data_)) (l.data_ ++ more) in
      let in_data = length-append l.data_ more in
      let topics_size = length-all_topics l.topics h.topic_sizes in
      let address_size = h.address_size in
      ap (decode_log size) encode_log-parts
      ∙ decode_log-long w (omega arith)
      ∙ ap (λ (b : Bytes). from_count w (next_num b))
          (drop-append l.address behind_address 20 address_size)
      ∙ ap (from_count w) (next_num-put_uvarint nt (topic_bytes ++ behind_topics) (omega arith))
      ∙ ap (from_topics w nt)
          (split_at-append size fits (nt * 32) topic_bytes behind_topics topics_size (omega arith))
      ∙ ap (from_size w (hashes nt topic_bytes))
          (next_num-put_uvarint (length l.data_) (l.data_ ++ more) (omega arith))
      ∙ ap (from_data w (hashes nt topic_bytes))
          (split_at-append size fits (length l.data_) l.data_ more refl (omega arith))
      ∙ ap
          (λ (ts : List Bytes).
            ok (record { address = take 20 w; topics = ts; data_ = l.data_ }, more))
          (hashes-all_topics l.topics h.topic_sizes)
      ∙ ap (λ (a : Bytes). ok (record { address = a; topics = l.topics; data_ = l.data_ }, more))
          (take-append l.address behind_address 20 address_size)

module _ (size : ℕ) (fits : size < 2 ^ 63) where
  abbrev from_log : ℕ → Outcome (StoredLog × Bytes) → Outcome (List StoredLog)
  from_log n o = and_then o (λ (l, more). and_then (decode_logs size n more) (λ ls. ok (l ∷ ls)))

  decode_logs-encode_logs :
      (ls : List StoredLog)
      → All IsLog ls
      → length (encode_logs ls) ≤ size
      → decode_logs size (length ls) (encode_logs ls) ≡ ok ls
  unfolding decode_logs
  decode_logs-encode_logs [] a le = refl
  decode_logs-encode_logs (l ∷ ls) (h, a) le =
      ap (from_log (length ls)) (decode_log-encode_log size fits l h (encode_logs ls) le)
      ∙ ap (λ (o : Outcome (List StoredLog)). and_then o (λ ls. ok (l ∷ ls)))
          (decode_logs-encode_logs ls a
            (omega (arith, length-append (encode_log l) (encode_logs ls), le)))

-- A receipt whose numbers are uint64s.
pub record IsReceipt (r : Receipt) (cumulative : ℕ) : Type 0 where
  pub status_fits : r.status < 2 ^ 64
  pub gas_fits : r.gas_used < 2 ^ 64
  pub cumulative_fits : cumulative < 2 ^ 64
  pub logs_made : All IsLog r.logs

length-encode_log : (ls : List StoredLog) → All IsLog ls → length ls ≤ length (encode_logs ls)
length-encode_log [] a = omega arith
length-encode_log (l ∷ ls) (h, a) = omega (
  arith,
  length-append (encode_log l) (encode_logs ls),
  length-append l.address (
      put_uvarint (length l.topics)
      ++ (all_topics l.topics ++ (put_uvarint (length l.data_) ++ l.data_))),
  h.address_size,
  length-encode_log ls a,
)

module _ (can_make : ℕ → Bool) (r : Receipt) (cumulative : ℕ) (h : IsReceipt r cumulative) where
  abbrev behind_cumulative : Bytes
  behind_cumulative = put_uvarint (length r.logs) ++ encode_logs r.logs

  abbrev behind_gas : Bytes
  behind_gas = put_uvarint cumulative ++ behind_cumulative

  abbrev behind_status : Bytes
  behind_status = put_uvarint r.gas_used ++ behind_gas

  abbrev row : Bytes
  row = put_uvarint r.status ++ behind_status

  -- The rest of the decoder, from each of its reads on.
  abbrev from_logs : ℕ → ℕ → ℕ → Outcome (List StoredLog) → Outcome (Receipt × ℕ)
  from_logs st g c o =
      and_then o (λ logs. ok (record { status = st; gas_used = g; logs = logs }, c))

  abbrev from_log_count : ℕ → ℕ → ℕ → Outcome (ℕ × Bytes) → Outcome (Receipt × ℕ)
  from_log_count st g c o = and_then o (λ (n, r4).
      if not (can_make n) then crashed else from_logs st g c (decode_logs (length row) n r4))

  abbrev from_cumulative : ℕ → ℕ → Outcome (ℕ × Bytes) → Outcome (Receipt × ℕ)
  from_cumulative st g o = and_then o (λ (c, r3). from_log_count st g c (next_num r3))

  abbrev from_gas : ℕ → Outcome (ℕ × Bytes) → Outcome (Receipt × ℕ)
  from_gas st o = and_then o (λ (g, r2). from_cumulative st g (next_num r2))

  abbrev from_status : Outcome (ℕ × Bytes) → Outcome (Receipt × ℕ)
  from_status o = and_then o (λ (st, r1). from_gas st (next_num r1))

  -- A transaction's receipt row is read back whole, with its status, gas, cumulative gas and
  -- logs, for uint64 numbers, addresses of 20 bytes and topics of 32, a row shorter than 2 ^ 63
  -- bytes and a number of logs that the runtime can allocate.
  pub decode_tx_receipt-encode_tx_receipt :
      length (encode_tx_receipt r cumulative) < 2 ^ 63
      → can_make (length r.logs) ≡ true
      → decode_tx_receipt can_make (encode_tx_receipt r cumulative) ≡ ok (r, cumulative)
  unfolding decode_tx_receipt encode_tx_receipt
  decode_tx_receipt-encode_tx_receipt fits made =
      let n = length r.logs in
      let in_row = length-append (put_uvarint r.status) behind_status in
      let in_status = length-append (put_uvarint r.gas_used) behind_gas in
      let in_gas = length-append (put_uvarint cumulative) behind_cumulative in
      let in_cumulative = length-append (put_uvarint n) (encode_logs r.logs) in
      let few = length-encode_log r.logs h.logs_made in
      ap from_status (next_num-put_uvarint r.status behind_status h.status_fits)
      ∙ ap (from_gas r.status) (next_num-put_uvarint r.gas_used behind_gas h.gas_fits)
      ∙ ap (from_cumulative r.status r.gas_used)
          (next_num-put_uvarint cumulative behind_cumulative h.cumulative_fits)
      ∙ ap (from_log_count r.status r.gas_used cumulative)
          (next_num-put_uvarint n (encode_logs r.logs) (omega arith))
      ∙ ap
          (λ (b : Bool).
            if not b
            then crashed
            else from_logs r.status r.gas_used cumulative
                (decode_logs (length row) n (encode_logs r.logs)))
          made
      ∙ ap (from_logs r.status r.gas_used cumulative)
          (decode_logs-encode_logs (length row) fits r.logs h.logs_made (omega arith))

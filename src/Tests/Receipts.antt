-- ===== src/Tests/Receipts.antt =====
-- Receipt records on small receipts, and rows that the encoder does not write.
use avalanche_s3_archival_no.Prelude.{
  length, ◌^◌, ◌≡◌, ◌<◌, refl, arith, Bool, List, [], ◌∷◌, ◌++◌, ℕ, some, replicate, ltb,
}
use avalanche_s3_archival_no.Prelude.Bytes.{Bytes}
use avalanche_s3_archival_no.Store.Ef.{uvarint_bytes, uvarint_from}
use avalanche_s3_archival_no.Store.Receipts.{
  StoredLog, Receipt, ok, failed, crashed, encode_tx_receipt, decode_tx_receipt,
  encode_stored_receipts, decode_stored_receipts, encode_tail_rcpt, decode_tail_rcpt,
}
use avalanche_s3_archival_no.Store.Receipts.{encode_stored_logs, decode_stored_logs}
use avalanche_s3_archival_no.Store.Receipts.Logs.{
  IsStored, block_logs, decode_stored_logs-encode_stored_logs,
}
use avalanche_s3_archival_no.Store.Receipts.Tx.{IsReceipt, decode_tx_receipt-encode_tx_receipt}
use avalanche_s3_archival_no.Store.Receipts.Block.{
  summed, decode_stored_receipts-encode_stored_receipts, decode_tail_rcpt-encode_tail_rcpt,
}

abbrev a_log : StoredLog
a_log = record {
  address = replicate 20 9;
  topics = replicate 32 1 ∷ replicate 32 2 ∷ [];
  data_ = 7 ∷ 8 ∷ [];
}

abbrev a_receipt : Receipt
a_receipt = record { status = 1; gas_used = 21000; logs = a_log ∷ [] }

abbrev up_to_1000 : ℕ → Bool
up_to_1000 n = ltb n 1000

a_receipt-IsReceipt : IsReceipt a_receipt 63000
a_receipt-IsReceipt = record {
  status_fits = omega arith;
  gas_fits = omega arith;
  cumulative_fits = omega arith;
  logs_made = (record { address_size = refl; topic_sizes = (refl, (refl, tt)) }, tt);
}

row_fits : length (encode_tx_receipt a_receipt 63000) < 2 ^ 63
unfolding encode_tx_receipt uvarint_bytes
row_fits = omega arith

decode_tx_receipt-encode_tx_receipt_example :
    decode_tx_receipt up_to_1000 (encode_tx_receipt a_receipt 63000) ≡ ok (a_receipt, 63000)
decode_tx_receipt-encode_tx_receipt_example =
    decode_tx_receipt-encode_tx_receipt up_to_1000 a_receipt 63000 a_receipt-IsReceipt row_fits refl

-- A row that ends inside an address.
decode_torn : decode_tx_receipt up_to_1000 (1 ∷ 5 ∷ 5 ∷ 1 ∷ 9 ∷ 9 ∷ []) ≡ failed
unfolding decode_tx_receipt uvarint_from
decode_torn = refl

-- A count of 2 ^ 59 topics: 32 bytes for each of them wrap around to 0 in an int, the test for a
-- truncated row lets it through, and `make` panics.
decode_many_topics :
    decode_tx_receipt up_to_1000 (1 ∷ 5 ∷ 5 ∷ 1 ∷ replicate 20 9 ++ (replicate 8 128 ++ (8 ∷ [])))
    ≡ crashed
unfolding decode_tx_receipt uvarint_from
decode_many_topics = refl

abbrev two_receipts : List Receipt
two_receipts = a_receipt ∷ record { status = 0; gas_used = 300; logs = [] } ∷ []

decode_stored_receipts-encode_stored_receipts_example :
    decode_stored_receipts (encode_stored_receipts two_receipts) ≡ some (summed 0 two_receipts)
decode_stored_receipts-encode_stored_receipts_example =
    decode_stored_receipts-encode_stored_receipts two_receipts
      ((omega arith, omega arith), ((omega arith, omega arith), tt))

a_log-IsStored : IsStored a_log
a_log-IsStored = record {
  made = record { address_size = refl; topic_sizes = (refl, (refl, tt)) };
  few_topics = omega arith;
  short_data = omega arith;
}

decode_stored_logs-encode_stored_logs_example :
    decode_stored_logs up_to_1000 (encode_stored_logs two_receipts) ≡ ok (block_logs 0 two_receipts)
decode_stored_logs-encode_stored_logs_example =
    decode_stored_logs-encode_stored_logs up_to_1000 two_receipts (omega arith) (omega arith)
      (omega arith) ((a_log-IsStored, tt), (tt, tt)) refl

-- A record that ends inside the topics: nothing tests for it.
decode_logs_torn : decode_stored_logs up_to_1000 (1 ∷ replicate 20 9 ++ (1 ∷ 4 ∷ 4 ∷ [])) ≡ crashed
unfolding decode_stored_logs uvarint_from
decode_logs_torn = refl

abbrev some_logs : Bytes
some_logs = 5 ∷ 6 ∷ 7 ∷ []

abbrev some_receipts : Bytes
some_receipts = 8 ∷ 9 ∷ []

tail_fits : length (encode_tail_rcpt some_logs some_receipts) < 2 ^ 63
unfolding encode_tail_rcpt uvarint_bytes
tail_fits = omega arith

decode_tail_rcpt-encode_tail_rcpt_example :
    decode_tail_rcpt (encode_tail_rcpt some_logs some_receipts) ≡ ok (some_logs, some_receipts)
decode_tail_rcpt-encode_tail_rcpt_example =
    decode_tail_rcpt-encode_tail_rcpt some_logs some_receipts (omega arith) tail_fits

-- ===== src/Store/Memtable/Blocks.antt =====
-- The rows of one block: what `add` writes before the end record is kept by the replay.
use avalanche_s3_archival_no.Prelude.{ℕ, ◌+◌, ◌^◌, ◌≤◌, ◌<◌, ◌≡◌, arith, add64}
use avalanche_s3_archival_no.Prelude.{
  List, [], ◌∷◌, ◌++◌, Option, some, length, length-append, All, map,
}
use avalanche_s3_archival_no.Prelude.Fail.{>>=-eq-some}
use avalanche_s3_archival_no.Prelude.Bytes.{Bytes, be, length-be}
use avalanche_s3_archival_no.Prelude.Map.{Map}
use avalanche_s3_archival_no.Store.Keys.{tx_hash_key, blk_hash_key, cid_key}
use avalanche_s3_archival_no.Store.Rows.{StateRow, LogWrite, TxWrite, BlockWrite}
use avalanche_s3_archival_no.Store.Rows.Entries.{tx_postings, sorted, log_sets}
use avalanche_s3_archival_no.Store.Container.{reassemble}
use avalanche_s3_archival_no.Store.Memtable.{blk, hdr, itx, pvm, rcpt, tx, Memtable}
use avalanche_s3_archival_no.Store.Memtable.Write.{
  chain_row, num_row, post_row, state_row, code_row, set_row, code_rows, post_rows, set_rows,
  log_rows, state_rows, entry_rows, tx_row, tx_rows, tx_rlp, end_block, block_body,
}
use avalanche_s3_archival_no.Store.Memtable.Emits.{
  Emits, Emits-refl, Emits-trans, gb, IsRow, chain_row-Emits, num_row-Emits, post_row-Emits,
  set_row-Emits, code_row-Emits, state_row-Emits,
}

abbrev pub CodeFits : Bytes × Bytes → Type 0
CodeFits (hash, blob) = (length hash ≡ 32) × (32 + length blob ≤ gb)

abbrev pub GroupFits : Bytes × ℕ → Type 0
GroupFits (group, payload) = length group < gb

abbrev pub KeyFits : Bytes → Type 0
KeyFits k = length k ≤ gb

abbrev pub LogFits : LogWrite → Type 0
LogFits l = All KeyFits (log_sets l.emitter l.topics)

-- A transaction each of whose rows fits a record of 1 GB, the bound that the replay reads to.
pub record IsTx (t : TxWrite) : Type 0 where
  pub frames_fit : length t.frames ≤ gb
  pub receipt_fits : length t.receipt ≤ gb
  pub rlp_fits : length t.rlp ≤ gb
  pub hash_fits : length t.hash + 4 ≤ gb
  pub groups_fit : All GroupFits (sorted (tx_postings t))
  pub sets_fit : All LogFits t.logs
  pub rows_fit : All IsRow t.state

pub record IsBlock (b : BlockWrite) : Type 0 where
  pub height_fits : b.height + 1 < 2 ^ 64
  pub header_fits : length b.header_rlp ≤ gb
  pub pvm_fits : length b.pvm ≤ gb
  pub code_fits : All CodeFits b.code
  pub txs_fit : All IsTx b.txs
  pub tail_fits : All IsRow b.tail

code_rows-Emits :
    (m : Memtable) (code : List (Bytes × Bytes)) → All CodeFits code → Emits m (code_rows m code)
unfolding code_rows
code_rows-Emits m [] a = Emits-refl m
code_rows-Emits m ((h, blob) ∷ code) ((p, q), a) =
    Emits-trans (code_row-Emits m h blob p q) (code_rows-Emits (code_row m h blob) code a)

module _ (n : ℕ) (hn : n < 2 ^ 64) where
  post_rows-Emits : (m : Memtable) (ps : Map ℕ) → All GroupFits ps → Emits m (post_rows m n ps)
  unfolding post_rows
  post_rows-Emits m [] a = Emits-refl m
  post_rows-Emits m ((g, p) ∷ ps) (h, a) =
      Emits-trans (post_row-Emits m g n p hn h) (post_rows-Emits (post_row m g n p) ps a)

  set_rows-Emits : (m : Memtable) (ks : List Bytes) → All KeyFits ks → Emits m (set_rows m n ks)
  unfolding set_rows
  set_rows-Emits m [] a = Emits-refl m
  set_rows-Emits m (k ∷ ks) (h, a) =
      Emits-trans (set_row-Emits m n k hn h) (set_rows-Emits (set_row m n k) ks a)

  log_rows-Emits : (m : Memtable) (ls : List LogWrite) → All LogFits ls → Emits m (log_rows m n ls)
  unfolding log_rows
  log_rows-Emits m [] a = Emits-refl m
  log_rows-Emits m (l ∷ ls) (h, a) =
      Emits-trans (set_rows-Emits m (log_sets l.emitter l.topics) h)
        (log_rows-Emits (set_rows m n (log_sets l.emitter l.topics)) ls a)

  pub state_rows-Emits :
      (m : Memtable) (rs : List StateRow) → All IsRow rs → Emits m (state_rows m n rs)
  unfolding state_rows
  state_rows-Emits m [] a = Emits-refl m
  state_rows-Emits m (r ∷ rs) (h, a) =
      Emits-trans (state_row-Emits m n r hn h) (state_rows-Emits (state_row m n r) rs a)

  entry_rows-Emits : (m : Memtable) (t : TxWrite) → IsTx t → Emits m (entry_rows m n t)
  unfolding entry_rows
  entry_rows-Emits m t v =
      let a = num_row m (tx_hash_key t.hash) n in
      let b = post_rows a n (sorted (tx_postings t)) in
      Emits-trans (num_row-Emits m (tx_hash_key t.hash) n hn (omega (arith, v.hash_fits))) (
        Emits-trans (post_rows-Emits a (sorted (tx_postings t)) v.groups_fit) (
          Emits-trans (log_rows-Emits b t.logs v.sets_fit)
            (state_rows-Emits (log_rows b n t.logs) t.state v.rows_fit)))

  tx_row-Emits :
      (m : Memtable) (t : TxWrite) {m' : Memtable} → IsTx t → tx_row m n t ≡ some m' → Emits m m'
  unfolding tx_row
  tx_row-Emits m t {m'} v h =
      let (a, ea, ha) = >>=-eq-some (chain_row m itx n t.frames) _ h in
      let (b, eb, hb) = >>=-eq-some (chain_row a rcpt n t.receipt) _ ha in
      let (c, ec, hc) = >>=-eq-some (chain_row b tx n t.rlp) _ hb in
      let same : m' ≡ entry_rows c n t = cc in
      Emits-trans (chain_row-Emits m itx n t.frames hn v.frames_fit ea) (
        Emits-trans (chain_row-Emits a rcpt n t.receipt hn v.receipt_fits eb) (
          Emits-trans (chain_row-Emits b tx n t.rlp hn v.rlp_fits ec)
            (rw same (entry_rows-Emits c t v))))

tx_rows-Emits :
    (n : ℕ) (m : Memtable) (ts : List TxWrite) {m' : Memtable}
    → n < 2 ^ 64
    → All IsTx ts
    → tx_rows m n ts ≡ some m'
    → Emits m m'
unfolding tx_rows
tx_rows-Emits n m [] {m'} hn a h = let same : m' ≡ m = cc in rw same (Emits-refl m)
tx_rows-Emits n m (t ∷ ts) hn (v, a) h =
    let (k, e, g) = >>=-eq-some (tx_row m n t) _ h in
    Emits-trans (tx_row-Emits n hn m t v e) (tx_rows-Emits (add64 n 1) k ts (omega arith) a g)

-- The body of a block: rows that the replay keeps, and the end record.
module _ (keccak sha : Bytes → Bytes) (bare : Bytes → List Bytes → Option Bytes) where
  pub block_body-Emits :
      (m : Memtable) (b : BlockWrite) {m' : Memtable}
      → ((x : Bytes) → length (keccak x) ≡ 32)
      → ((x : Bytes) → length (sha x) ≡ 32)
      → IsBlock b
      → m.next_tx < 2 ^ 64
      → block_body keccak sha bare m b ≡ some m'
      → (k : Memtable) × Emits m k × (m' ≡ end_block k b.height (add64 m.next_tx (length b.txs)))
  unfolding block_body
  block_body-Emits m b {m'} hk hs v hn h =
      let first = m.next_tx in
      let big : b.height < 2 ^ 64 = omega (arith, v.height_fits) in
      let (a, ea, ha) =
        >>=-eq-some (chain_row m blk b.height (be 8 first ++ be 4 (length b.txs))) _ h in
      let (c, ec, hc) = >>=-eq-some (chain_row a hdr b.height b.header_rlp) _ ha in
      let (d, ed, hd) = >>=-eq-some (chain_row c pvm b.height b.pvm) _ hc in
      let (box, eb, hb) =
        >>=-eq-some (reassemble bare b.pvm b.header_rlp (map tx_rlp b.txs)) _ hd in
      let e = num_row d (blk_hash_key (keccak b.header_rlp)) b.height in
      let n = num_row e (cid_key (sha box)) b.height in
      let f = code_rows n b.code in
      let (g, eg, hg) = >>=-eq-some (tx_rows f first b.txs) _ hb in
      let tail_at = add64 first (length b.txs) in
      (
        state_rows g tail_at b.tail,
        Emits-trans
            (chain_row-Emits m blk b.height (be 8 first ++ be 4 (length b.txs)) big
              (omega (
                arith,
                length-append (be 8 first) (be 4 (length b.txs)),
                length-be 8 first,
                length-be 4 (length b.txs),
              ))
              ea)
            (Emits-trans (chain_row-Emits a hdr b.height b.header_rlp big v.header_fits ec) (
              Emits-trans (chain_row-Emits c pvm b.height b.pvm big v.pvm_fits ed) (
                Emits-trans
                  (num_row-Emits d (blk_hash_key (keccak b.header_rlp)) b.height big
                    (omega (arith, hk b.header_rlp)))
                  (Emits-trans
                    (num_row-Emits e (cid_key (sha box)) b.height big (omega (arith, hs box)))
                    (Emits-trans (code_rows-Emits n b.code v.code_fits) (
                      Emits-trans (tx_rows-Emits first f b.txs hn v.txs_fit eg)
                        (state_rows-Emits tail_at (omega arith) g b.tail v.tail_fits))))))),
        cc,
      )

-- ===== src/Store/Memtable/Read/Back.antt =====
-- What was written to the window is read back.
use avalanche_s3_archival_no.Prelude.{
  ℕ, zero, suc, ◌+◌, ◌-◌, ◌^◌, ◌≤◌, ◌<◌, ◌≡◌, ◌≢◌, refl, ap, ◌∙◌, arith, leb, if◌then◌else◌,
}
use avalanche_s3_archival_no.Prelude.{
  List, [], ◌∷◌, ◌++◌, Option, none, some, length, length-append, length-drop, take, drop,
  append_assoc, append-nil,
}
use avalanche_s3_archival_no.Prelude.{inl, inr, Option-cases, All}
use avalanche_s3_archival_no.Prelude.Bytes.{Bytes, be, length-be, beq_iff}
use avalanche_s3_archival_no.Prelude.Map.{lookup, insert, lookup-insert}
use avalanche_s3_archival_no.Store.Container.{slice}
use avalanche_s3_archival_no.Store.Container.Template.{slice-append}
use avalanche_s3_archival_no.Store.Window.{ChainIndex, add, find}
use avalanche_s3_archival_no.Store.Window.Index.{IsIndex, find-add}
use avalanche_s3_archival_no.Store.Memtable.{
  Fam, blk, hdr, itx, pvm, rcpt, tx, Kind, row, kind_byte, chain_at, set_chain, Index, Memtable,
  MemVal, write, encode_rec, body_at, add_chain, put_history, put_state, history,
}
use avalanche_s3_archival_no.Store.Memtable.Write.{chain_row}
use avalanche_s3_archival_no.Store.Memtable.Records.{length-encode_rec}
use avalanche_s3_archival_no.Store.Memtable.Read.{read_row, chain_get, last_at, latest_state}

take_left {ℓ} :
    {A : Type ℓ} (n : ℕ) (xs ys : List A) → n ≤ length xs → take n (xs ++ ys) ≡ take n xs
take_left zero xs ys h = refl
take_left (suc n) [] ys h = absurd (omega arith)
take_left (suc n) (x ∷ xs) ys h = ap (λ r. x ∷ r) (take_left n xs ys (omega arith))

drop_left {ℓ} :
    {A : Type ℓ} (n : ℕ) (xs ys : List A) → n ≤ length xs → drop n (xs ++ ys) ≡ drop n xs ++ ys
drop_left zero xs ys h = refl
drop_left (suc n) [] ys h = absurd (omega arith)
drop_left (suc n) (x ∷ xs) ys h = drop_left n xs ys (omega arith)

slice_left :
    (xs ys : Bytes) (off n : ℕ)
    → off + n ≤ length xs
    → slice (xs ++ ys) off (off + n) ≡ slice xs off (off + n)
slice_left xs ys off n h =
    ap (take (off + n - off)) (drop_left off xs ys (omega arith))
    ∙ take_left (off + n - off) (drop off xs) ys (omega (arith, length-drop off xs))

read_row-append :
    (log more : Bytes) (off n : ℕ) {v : Bytes}
    → read_row log off n ≡ some v
    → read_row (log ++ more) off n ≡ some v
unfolding read_row
read_row-append log more off n h = ground (arith, length-append log more, slice_left log more off n)

-- The payload of the record that was just written.
read_row-encode_rec :
    (log : Bytes) (k : Kind) (num : ℕ) (val : Bytes)
    → read_row (log ++ encode_rec k num val) (length log + 13) (length val) ≡ some val
unfolding read_row encode_rec
read_row-encode_rec log k num [] = refl
read_row-encode_rec log k num (x ∷ xs) =
    let val : Bytes = x ∷ xs in
    let head : Bytes = kind_byte k ∷ (be 8 num ++ be 4 (length val)) in
    let shape : log ++ encode_rec k num val ≡ (log ++ head) ++ (val ++ []) =
      simp (append_assoc, append-nil) in
    let size : length (log ++ head) ≡ length log + 13 = omega (
      arith,
      length-append log head,
      length-append (be 8 num) (be 4 (length val)),
      length-be 8 num,
      length-be 4 (length val),
    ) in
    let cut : slice (log ++ encode_rec k num val) (length log + 13) (length log + 13 + length val)
        ≡ val =
      ap (λ (r : Bytes). slice r (length log + 13) (length log + 13 + length val)) shape
      ∙ slice-append (log ++ head) val [] (length log + 13) (length log + 13 + length val) size
          refl in
    ground (arith, cut, length-append log (encode_rec k num val), length-encode_rec k num val)

chain_at-set_chain :
    (f : Fam) (c : ChainIndex) (i : Index) → chain_at f (set_chain f c i.chains) ≡ c
unfolding chain_at set_chain
chain_at-set_chain blk c i = refl
chain_at-set_chain hdr c i = refl
chain_at-set_chain itx c i = refl
chain_at-set_chain pvm c i = refl
chain_at-set_chain rcpt c i = refl
chain_at-set_chain tx c i = refl

-- What a row that was accepted makes of the log and of its family.
chain_row-parts :
    (m : Memtable) (fam : Fam) (num : ℕ) (val : Bytes) {m' : Memtable}
    → chain_row m fam num val ≡ some m'
    → (d : ChainIndex) × (add (chain_at fam m.idx.chains) num (body_at m) (length val) ≡ some d)
      × (chain_at fam m'.idx.chains ≡ d)
      × (m'.log ≡ m.log ++ encode_rec (row fam) num val)
unfolding chain_row add_chain write
chain_row-parts m fam num val {m'} h =
    elim (Option-cases (add (chain_at fam m.idx.chains) num (body_at m) (length val))) [
      | inl none_added ↦ absurd (ground arith)
      | inr (d, added) ↦
          let same : m' ≡ record m {
            log = m.log ++ encode_rec (row fam) num val;
            idx = record m.idx { chains = set_chain fam d m.idx.chains };
          } =
            ground (arith, added) in
          (
            d,
            added,
            ap (λ (x : Memtable). chain_at fam x.idx.chains) same ∙ chain_at-set_chain fam d m.idx,
            ap (λ (x : Memtable). x.log) same,
          )
    ]

chain_get-found :
    (m : Memtable) (fam : Fam) (num off n : ℕ) (v : Bytes)
    → find (chain_at fam m.idx.chains) num ≡ some (off, n)
    → read_row m.log off n ≡ some v
    → chain_get m fam num ≡ some (some v)
unfolding chain_get
chain_get-found m fam num off n v e f = ground (arith, e, f)

found-chain_get :
    (m : Memtable) (fam : Fam) (num : ℕ) (v : Bytes)
    → chain_get m fam num ≡ some (some v)
    → (p : ℕ × ℕ) × (find (chain_at fam m.idx.chains) num ≡ some p)
      × (read_row m.log p.0 p.1 ≡ some v)
unfolding chain_get
found-chain_get m fam num v h = elim (Option-cases (find (chain_at fam m.idx.chains) num)) [
  | inl gone ↦ absurd (ground (arith, gone))
  | inr (p, held) ↦ (p, held, ground (arith, held))
]

-- A chain row that was accepted, with a number below 2 ^ 64 - 1 and less than 4 GB, is read back
-- byte for byte.
pub chain_get-chain_row :
    (m : Memtable) (fam : Fam) (num : ℕ) (val : Bytes) {m' : Memtable}
    → IsIndex (chain_at fam m.idx.chains)
    → num + 1 < 2 ^ 64
    → length val < 2 ^ 32
    → chain_row m fam num val ≡ some m'
    → chain_get m' fam num ≡ some (some val)
chain_get-chain_row m fam num val {m'} w small size h =
    let (d, added, at, log) = chain_row-parts m fam num val h in
    let (new, _, _) =
      find-add (chain_at fam m.idx.chains) d num (body_at m) (length val) num w small
        (λ z. omega arith) size added in
    chain_get-found m' fam num (body_at m) (length val) val
      (ap (λ (i : ChainIndex). find i num) at ∙ new)
      (ap (λ (l : Bytes). read_row l (body_at m) (length val)) log
        ∙ read_row-encode_rec m.log (row fam) num val)

-- A chain row that was read before another one of its family was accepted is read unchanged after.
pub chain_get-chain_row_old :
    (m : Memtable) (fam : Fam) (num old : ℕ) (val v : Bytes) {m' : Memtable}
    → IsIndex (chain_at fam m.idx.chains)
    → num + 1 < 2 ^ 64
    → length val < 2 ^ 32
    → chain_row m fam num val ≡ some m'
    → chain_get m fam old ≡ some (some v)
    → chain_get m' fam old ≡ some (some v)
chain_get-chain_row_old m fam num old val v {m'} w small size h before =
    let (d, added, at, log) = chain_row-parts m fam num val h in
    let (_, kept, _) =
      find-add (chain_at fam m.idx.chains) d num (body_at m) (length val) old w small
        (λ z. omega arith) size added in
    let ((off, n), held, back) = found-chain_get m fam old v before in
    chain_get-found m' fam old off n v
      (ap (λ (i : ChainIndex). find i old) at ∙ ground (arith, kept))
      (ap (λ (l : Bytes). read_row l off n) log
        ∙ read_row-append m.log (encode_rec (row fam) num val) off n back)

last_at-put_history :
    (h : List MemVal) (n at : ℕ) (val : Bytes)
    → All (λ (e : MemVal). e.txnum ≤ n) h
    → last_at (put_history h n val) at
      ≡ (if leb n at then some (record { txnum = n; val = val }) else last_at h at)
unfolding last_at put_history
last_at-put_history [] n at val a = ground arith
last_at-put_history (e ∷ []) n at val (le, a) = ground arith
last_at-put_history (e ∷ f ∷ h) n at val (le, a) =
    ground (arith, last_at-put_history (f ∷ h) n at val a)

-- If no row of the key stands above a TxNum, then after a write of the key at it the latest state at
-- any position from there on is the write, and below it what it was; no other key's answer changes.
pub latest_state-put_state :
    (i : Index) (key other : Bytes) (n at : ℕ) (val : Bytes)
    → All (λ (e : MemVal). e.txnum ≤ n) (history key i.state)
    → key ≢ other
    → (latest_state (put_state i key n val) key at
        ≡ (if leb n at then some (record { txnum = n; val = val }) else latest_state i key at))
      × (latest_state (put_state i key n val) other at ≡ latest_state i other at)
unfolding latest_state put_state
latest_state-put_state i key other n at val a ne =
    let h' = put_history (history key i.state) n val in
    let here : lookup key (insert key h' i.state) ≡ some h' =
      ground (arith, lookup-insert key key h' i.state, beq_iff key key) in
    let there : lookup other (insert key h' i.state) ≡ lookup other i.state =
      ground (arith, lookup-insert key other h' i.state, beq_iff key other) in
    (
      ap (λ (o : Option (List MemVal)). last_at (elim o [ none ↦ [] | some h ↦ h ]) at) here
          ∙ last_at-put_history (history key i.state) n at val a,
      ap (λ (o : Option (List MemVal)). last_at (elim o [ none ↦ [] | some h ↦ h ]) at) there,
    )

-- ===== src/Store/Memtable/Emits.antt =====
-- What the writers of a block append to the log, and that the replay of it does to the index what
-- they do.
use avalanche_s3_archival_no.Prelude.{ℕ, ◌+◌, ◌^◌, ◌≤◌, ◌<◌, ◌≡◌, refl, sym, ap, ◌∙◌, arith}
use avalanche_s3_archival_no.Prelude.{
  List, [], ◌∷◌, ◌++◌, Option, none, some, length, length-append, append_assoc, append-nil,
}
use avalanche_s3_archival_no.Prelude.{inl, inr, All, All-append, take, drop, Option-cases}
use avalanche_s3_archival_no.Prelude.Fail.{◌>>=◌}
use avalanche_s3_archival_no.Prelude.Bytes.{
  Bytes, be, be_value, be_value-be, length-be, take-append, drop-append,
}
use avalanche_s3_archival_no.Prelude.Map.{lookup}
use avalanche_s3_archival_no.Store.Container.{slice}
use avalanche_s3_archival_no.Store.Container.Template.{slice-append}
use avalanche_s3_archival_no.Store.Rows.{StateRow, state_key_prefix}
use avalanche_s3_archival_no.Store.Memtable.{
  Fam, row, state_rec, post_rec, num_rec, set_rec, code_rec, Index, Memtable, write, body_at,
  add_chain, put_state, put_num, put_post, put_set, put_code,
}
use avalanche_s3_archival_no.Store.Memtable.Write.{
  with_index, chain_row, num_row, post_row, state_row, code_row, set_row,
}
use avalanche_s3_archival_no.Store.Memtable.Replay.{
  Pending, commit, Action, keep, action, state_action, post_action,
}
use avalanche_s3_archival_no.Store.Memtable.Pass.{
  Rec, encoded, encode_all, kept, pend_of, pendings, IsRec,
}

pub commit-append :
    (fs gs : List Pending) (i : Index) → commit (fs ++ gs) i ≡ (commit fs i >>= commit gs)
unfolding commit
commit-append [] gs i = refl
commit-append (f ∷ fs) gs i = elim (Option-cases (f i)) [
  | inl e ↦ rw e refl
  | inr (j, e) ↦ rw e (commit-append fs gs j)
]

encode_all-append : (rs ss : List Rec) → encode_all (rs ++ ss) ≡ encode_all rs ++ encode_all ss
encode_all-append [] ss = refl
encode_all-append (r ∷ rs) ss =
    ap (λ (x : Bytes). encoded r ++ x) (encode_all-append rs ss)
    ∙ sym (append_assoc (encoded r) (encode_all rs) (encode_all ss))

pendings-append :
    (rs ss : List Rec) (o q : ℕ)
    → q ≡ o + length (encode_all rs)
    → pendings o (rs ++ ss) ≡ pendings o rs ++ pendings q ss
pendings-append [] ss o q h = ap (λ (n : ℕ). pendings n ss) (omega arith)
pendings-append (r ∷ rs) ss o q h =
    ap (λ (x : List Pending). pend_of o r ∷ x)
      (pendings-append rs ss (o + length (encoded r)) q
        (omega (arith, length-append (encoded r) (encode_all rs))))

-- A writer's effect: records behind the log, and the index that they make.
pub record Emits (m m' : Memtable) : Type 0 where
  pub recs : List Rec
  pub index : Index
  pub shape : m' ≡ record m { log = m.log ++ encode_all recs; idx = index }
  pub made : commit (pendings (length m.log) recs) m.idx ≡ some index
  pub fine : All IsRec recs

pub Emits-refl : (m : Memtable) → Emits m m
unfolding commit
Emits-refl m = record {
  recs = [];
  index = m.idx;
  shape = ap (λ (l : Bytes). record m { log = l }) (sym (append-nil m.log));
  made = refl;
  fine = tt;
}

then_at :
    (m k : Memtable) (rs : List Rec) (i : Index) {n : Memtable}
    → k ≡ record m { log = m.log ++ encode_all rs; idx = i }
    → commit (pendings (length m.log) rs) m.idx ≡ some i
    → All IsRec rs
    → Emits k n
    → Emits m n
then_at m k rs i {n} h c a e =
    let size : length k.log ≡ length m.log + length (encode_all rs) =
      ap (λ (x : Memtable). length x.log) h ∙ length-append m.log (encode_all rs) in
    record {
      recs = rs ++ e.recs;
      index = e.index;
      shape =
          e.shape
          ∙ ap (λ (x : Memtable). record x { log = x.log ++ encode_all e.recs; idx = e.index }) h
          ∙ ap (λ (l : Bytes). record m { log = l; idx = e.index })
              (append_assoc m.log (encode_all rs) (encode_all e.recs)
                ∙ ap (λ (x : Bytes). m.log ++ x) (sym (encode_all-append rs e.recs)));
      made =
          ap (λ (x : List Pending). commit x m.idx)
            (pendings-append rs e.recs (length m.log) (length k.log) size)
          ∙ (commit-append (pendings (length m.log) rs) (pendings (length k.log) e.recs) m.idx
              ∙ (ap (λ (o : Option Index). o >>= commit (pendings (length k.log) e.recs)) c
                  ∙ (ap (λ (x : Memtable). commit (pendings (length k.log) e.recs) x.idx) (sym h)
                      ∙ e.made)));
      fine = All-append IsRec rs e.recs a e.fine;
    }

pub Emits-trans : {m k n : Memtable} → Emits m k → Emits k n → Emits m n
Emits-trans {m} {k} d e = then_at m k d.recs d.index d.shape d.made d.fine e

-- One record.
pub Emits-one :
    (m : Memtable) (r : Rec) (i : Index)
    → IsRec r
    → pend_of (length m.log) r m.idx ≡ some i
    → Emits m (record m { log = m.log ++ encoded r; idx = i })
unfolding commit
Emits-one m r i v h = record {
  recs = r ∷ [];
  index = i;
  shape = ap (λ (l : Bytes). record m { log = m.log ++ l; idx = i }) (sym (append-nil (encoded r)));
  made = ap (λ (o : Option Index). o >>= commit []) h;
  fine = (v, tt);
}

abbrev pub gb : ℕ
gb = 2 ^ 30

-- The writers, row by row.
pub chain_row-Emits :
    (m : Memtable) (fam : Fam) (num : ℕ) (val : Bytes) {m' : Memtable}
    → num < 2 ^ 64
    → length val ≤ gb
    → chain_row m fam num val ≡ some m'
    → Emits m m'
unfolding chain_row write action
chain_row-Emits m fam num val {m'} hn hv h =
    let r : Rec = record { kind = row fam; num = num; payload = val } in
    elim (Option-cases (add_chain m.idx fam num (body_at m) (length val))) [
      | inl e ↦ absurd (cc)
      | inr (i, e) ↦
          let same : m' ≡ record m { log = m.log ++ encoded r; idx = i } = ground arith in
          rw same (Emits-one m r i (record { num_fits = hn; small = hv; keeps = λ body. refl }) e)
    ]

pub num_row-Emits :
    (m : Memtable) (key : Bytes) (num : ℕ)
    → num < 2 ^ 64
    → length key ≤ gb
    → Emits m (num_row m key num)
unfolding num_row write action
num_row-Emits m key num hn hk =
    Emits-one m (record { kind = num_rec; num = num; payload = key }) (put_num m.idx key num)
      (record { num_fits = hn; small = hk; keeps = λ body. refl }) refl

pub post_row-Emits :
    (m : Memtable) (group : Bytes) (n payload : ℕ)
    → n < 2 ^ 64
    → length group < gb
    → Emits m (post_row m group n payload)
unfolding post_row write action post_action
post_row-Emits m group n payload hn hk =
    Emits-one m (record { kind = post_rec; num = n; payload = payload ∷ group })
      (put_post m.idx group n payload)
      (record { num_fits = hn; small = omega arith; keeps = λ body. refl }) refl

set_row-known :
    (m : Memtable) (n : ℕ) (k : Bytes) {u : Unit {0}}
    → lookup k m.idx.sets ≡ some u
    → set_row m n k ≡ m
unfolding set_row
set_row-known m n k e = ground (arith, e)

set_row-new :
    (m : Memtable) (n : ℕ) (k : Bytes)
    → lookup k m.idx.sets ≡ none
    → set_row m n k ≡ with_index (write m set_rec n k) (put_set m.idx k)
unfolding set_row
set_row-new m n k e = ground (arith, e)

pub set_row-Emits :
    (m : Memtable) (n : ℕ) (k : Bytes) → n < 2 ^ 64 → length k ≤ gb → Emits m (set_row m n k)
unfolding write action
set_row-Emits m n k hn hk = elim (Option-cases (lookup k m.idx.sets)) [
  | inl e ↦ rw (set_row-new m n k e) (
      Emits-one m (record { kind = set_rec; num = n; payload = k }) (put_set m.idx k)
        (record { num_fits = hn; small = hk; keeps = λ body. refl }) refl)
  | inr (u, e) ↦ rw (set_row-known m n k e) (Emits-refl m)
]

-- A record whose payload is taken apart again.
Emits-keep :
    (m : Memtable) (r : Rec) (f : Pending) (i : Index)
    → r.num < 2 ^ 64
    → length r.payload ≤ gb
    → ((body : ℕ) → action r.kind r.num r.payload body ≡ keep f)
    → f m.idx ≡ some i
    → Emits m (record m { log = m.log ++ encoded r; idx = i })
Emits-keep m r f i hn hp k h =
    Emits-one m r i
      (record {
        num_fits = hn;
        small = hp;
        keeps = λ body. k body ∙ sym (ap (λ (a : Action). keep (kept a)) (k body));
      })
      (ap (λ (a : Action). kept a m.idx) (k (length m.log + 13)) ∙ h)

action-code :
    (n body : ℕ) (hash blob : Bytes)
    → length hash ≡ 32
    → action code_rec n (hash ++ blob) body ≡ keep (λ i. some (put_code i hash blob))
unfolding action
action-code n body hash blob h =
    rw (take-append hash blob 32 h, drop-append hash blob 32 h)
      (ground (arith, length-append hash blob))

code_row-known :
    (m : Memtable) (hash blob : Bytes) {u : Bytes}
    → lookup hash m.idx.code ≡ some u
    → code_row m hash blob ≡ m
unfolding code_row
code_row-known m hash blob e = ground (arith, e)

code_row-new :
    (m : Memtable) (hash blob : Bytes)
    → lookup hash m.idx.code ≡ none
    → code_row m hash blob
      ≡ with_index (write m code_rec 0 (hash ++ blob)) (put_code m.idx hash blob)
unfolding code_row
code_row-new m hash blob e = ground (arith, e)

pub code_row-Emits :
    (m : Memtable) (hash blob : Bytes)
    → length hash ≡ 32
    → 32 + length blob ≤ gb
    → Emits m (code_row m hash blob)
unfolding write
code_row-Emits m hash blob h hb = elim (Option-cases (lookup hash m.idx.code)) [
  | inl e ↦ rw (code_row-new m hash blob e) (
      Emits-keep m (record { kind = code_rec; num = 0; payload = hash ++ blob })
        (λ i. some (put_code i hash blob)) (put_code m.idx hash blob) (omega arith)
        (omega (arith, length-append hash blob)) (λ body. action-code 0 body hash blob h) refl)
  | inr (u, e) ↦ rw (code_row-known m hash blob e) (Emits-refl m)
]

state_action-parts :
    (n kl : ℕ) (p pl k v : Bytes)
    → take 2 p ≡ pl
    → be_value 0 pl ≡ kl
    → slice p 2 (2 + kl) ≡ k
    → drop (2 + kl) p ≡ v
    → 2 + kl ≤ length p
    → state_action n p ≡ keep (λ i. some (put_state i k n v))
unfolding state_action
state_action-parts n kl p pl k v e1 e2 e3 e4 h = rw (e1, e2, e3, e4) (ground arith)

state_action-payload :
    (n : ℕ) (k v : Bytes)
    → length k < 2 ^ 16
    → state_action n (be 2 (length k) ++ (k ++ v)) ≡ keep (λ i. some (put_state i k n v))
state_action-payload n k v h =
    let pl : Bytes = be 2 (length k) in
    let l2 = length-be 2 (length k) in
    state_action-parts n (length k) (pl ++ (k ++ v)) pl k v (take-append pl (k ++ v) 2 l2)
      (be_value-be 2 (length k) (omega arith) (omega arith))
      (slice-append pl k v 2 (2 + length k) l2 refl)
      (ap (drop (2 + length k)) (sym (append_assoc pl k v))
        ∙ drop-append (pl ++ k) v (2 + length k) (omega (arith, l2, length-append pl k)))
      (omega (arith, l2, length-append pl (k ++ v), length-append k v))

-- A state row whose key has a two-byte length and which fits a record.
pub record IsRow (r : StateRow) : Type 0 where
  pub key_fits : length (state_key_prefix r) < 2 ^ 16
  pub row_fits : 2 + length (state_key_prefix r) + length r.val ≤ gb

pub state_row-Emits :
    (m : Memtable) (n : ℕ) (r : StateRow) → n < 2 ^ 64 → IsRow r → Emits m (state_row m n r)
unfolding state_row write action
state_row-Emits m n r hn v =
    let k : Bytes = state_key_prefix r in
    Emits-keep m (record { kind = state_rec; num = n; payload = be 2 (length k) ++ (k ++ r.val) })
      (λ i. some (put_state i k n r.val)) (put_state m.idx k n r.val) hn
      (omega (
        arith,
        length-be 2 (length k),
        length-append (be 2 (length k)) (k ++ r.val),
        length-append k r.val,
        v.row_fits,
      ))
      (λ body. state_action-payload n k r.val v.key_fits) refl

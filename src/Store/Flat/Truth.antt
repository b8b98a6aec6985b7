-- ===== src/Store/Flat/Truth.antt =====
-- The cache against the descent: what it serves is the state at the height that was asked for.
use avalanche_s3_archival_no.Prelude.{
  ℕ, ◌+◌, ◌-◌, ◌%◌, ◌^◌, ◌<◌, ◌≡◌, ◌∙◌, sym, ap, refl, ◌==◌, if◌then◌else◌,
}
use avalanche_s3_archival_no.Prelude.{
  Bool, true, false, not, ◌||◌, Option, none, some, List, [], ◌∷◌, ◌++◌,
}
use avalanche_s3_archival_no.Prelude.{◌≢◌, inl, inr, arith, Bool-cases, All}
use avalanche_s3_archival_no.Prelude.Bytes.{Bytes, beq, beq_iff}
use avalanche_s3_archival_no.Prelude.Map.{lookup, lookup-insert, lookup-nil}
use avalanche_s3_archival_no.Store.Rows.{StateRow, TxWrite, BlockWrite, state_key_prefix}
use avalanche_s3_archival_no.Store.Flat.{
  FlatVal, FlatCache, new_flat_cache, adopt, get, put, fill, put_rows, put_txs, drop_gap, apply,
}

-- What the two generations hold for a key, the hot one first.
abbrev pub entry : FlatCache → Bytes → Option FlatVal
entry c k = elim (lookup k c.hot) [ some v ↦ some v | none ↦ lookup k c.cold ]

-- The state rows of a block in the order in which it writes them.
abbrev pub txs_rows : List TxWrite → List StateRow
txs_rows [] = []
txs_rows (t ∷ ts) = t.state ++ txs_rows ts

abbrev pub block_rows : BlockWrite → List StateRow
block_rows b = txs_rows b.txs ++ b.tail

-- A state, key by key, and what a list of writes makes of it: the last write of a key counts.
abbrev pub State : Type 0
State = Bytes → FlatVal

abbrev pub written : StateRow → FlatVal
written r = record { val = r.val; found = true }

abbrev pub overlay : List StateRow → State → State
overlay [] s = s
overlay (r ∷ rs) s = overlay rs (λ k. if beq (state_key_prefix r) k then written r else s k)

-- What the descent answers at each height, and what makes it the history of a block: the state at
-- the block's height is the state below it with the block's rows written over.
abbrev pub History : Type 0
History = ℕ → State

abbrev pub Extends : History → BlockWrite → Type 0
Extends truth b =
    (b.height + 1 < 2 ^ 64)
    × ((k : Bytes) → truth b.height k ≡ overlay (block_rows b) (truth (b.height - 1)) k)

-- The calls that a cache sees: a block that lands, and a fill with what the descent answered for a
-- height, which may be another height than the cache's by then.
pub data Call : Type 0 where
  land : BlockWrite → Call
  filled : Bytes → ℕ → Call

abbrev pub IsCall : History → Call → Type 0
IsCall truth (land b) = Extends truth b
IsCall truth (filled k h) = Unit

unfoldable pub run : History → FlatCache → List Call → FlatCache
run truth c [] = c
run truth c (land b ∷ calls) = run truth (apply c b) calls
run truth c (filled k h ∷ calls) = run truth (fill c k (truth h k).val (truth h k).found h) calls

abbrev Agrees : FlatCache → State → Type 0
Agrees c s = (k : Bytes) (v : FlatVal) → entry c k ≡ some v → v ≡ s k

-- A write leaves an entry of the cache as it was, replaces it or drops it.
entry-put :
    (c : FlatCache) (k : Bytes) (v : FlatVal) (j : Bytes) (w : FlatVal)
    → entry (put c k v) j ≡ some w
    → (if beq k j then some v else entry c j) ≡ some w
unfolding put
entry-put c k v j w h = ground (arith, lookup-insert k j v c.hot, lookup-nil {V = FlatVal} j)

put-Agrees :
    (c : FlatCache) (k : Bytes) (v : FlatVal) (s : State)
    → Agrees c s
    → Agrees (put c k v) (λ j. if beq k j then v else s j)
put-Agrees c k v s a j w h = ground (arith, entry-put c k v j w h, a j w)

put_rows-Agrees :
    (c : FlatCache) (rs : List StateRow) (s : State)
    → Agrees c s
    → Agrees (put_rows c rs) (overlay rs s)
unfolding put_rows
put_rows-Agrees c [] s a = a
put_rows-Agrees c (r ∷ rs) s a =
    put_rows-Agrees (put c (state_key_prefix r) (written r)) rs _
      (put-Agrees c (state_key_prefix r) (written r) s a)

put_rows-append :
    (c : FlatCache) (rs ts : List StateRow) → put_rows c (rs ++ ts) ≡ put_rows (put_rows c rs) ts
unfolding put_rows
put_rows-append c [] ts = refl
put_rows-append c (r ∷ rs) ts = put_rows-append (put c (state_key_prefix r) (written r)) rs ts

put_txs-rows : (c : FlatCache) (ts : List TxWrite) → put_txs c ts ≡ put_rows c (txs_rows ts)
unfolding put_txs
put_txs-rows c [] = unfold put_rows in refl
put_txs-rows c (t ∷ ts) =
    put_txs-rows (put_rows c t.state) ts ∙ sym (put_rows-append c t.state (txs_rows ts))

-- All that `apply` does with a block's rows.
pub rows_lem :
    (c : FlatCache) (b : BlockWrite) → put_rows (put_txs c b.txs) b.tail ≡ put_rows c (block_rows b)
rows_lem c b = rw (put_txs-rows, ← put_rows-append)

record IsGood (truth : History) (c : FlatCache) : Type 0 where
  agrees : c.is_set ≡ true → Agrees c (truth c.height)
  unset : c.is_set ≡ false → (k : Bytes) → entry c k ≡ none
  bound : c.is_set ≡ true → c.height + 1 < 2 ^ 64

put-fields :
    (c : FlatCache) (k : Bytes) (v : FlatVal)
    → ((put c k v).height ≡ c.height) × ((put c k v).is_set ≡ c.is_set)
unfolding put
put-fields c k v = ground arith

unset-Agrees :
    (c : FlatCache) (k : Bytes) (v : FlatVal) (s : State)
    → entry c k ≡ none
    → entry c k ≡ some v
    → v ≡ s k
unset-Agrees c k v s h e = cc

-- Before its rows are written, the cache of a block agrees with the state below the block.
drop_gap-Agrees :
    (truth : History) (c : FlatCache) (h : ℕ)
    → IsGood truth c
    → Agrees (drop_gap c h) (truth (h - 1))
unfolding drop_gap
drop_gap-Agrees truth c h g k v e = elim (Bool-cases c.is_set) [
  | inr off ↦ unset-Agrees c k v (truth (h - 1)) (g.unset off k) (rw off at e)
  | inl on ↦ elim (Bool-cases (h == (c.height + 1) % 2 ^ 64)) [
    | inr gap ↦ ground (arith, lookup-nil {V = FlatVal} k)
    | inl next ↦ ground (arith, g.agrees on k v, g.bound on, ap (λ (n : ℕ). truth n k))
  ]
]

apply-IsGood :
    (truth : History) (c : FlatCache) (b : BlockWrite)
    → Extends truth b
    → IsGood truth c
    → IsGood truth (apply c b)
unfolding apply
apply-IsGood truth c b (fits, ext) g = elim (Bool-cases (c.budget == 0)) [
  | inl off ↦ rw off g
  | inr on ↦ rw on (
      rw rows_lem record {
        agrees = λ _ k v e.
            put_rows-Agrees (drop_gap c b.height) (block_rows b) (truth (b.height - 1))
              (drop_gap-Agrees truth c b.height g) k v e
            ∙ sym (ext k);
        unset = λ e k. cc;
        bound = λ _. fits;
      })
]

put-IsGood :
    (truth : History) (c : FlatCache) (k : Bytes) (v : FlatVal)
    → c.is_set ≡ true
    → v ≡ truth c.height k
    → IsGood truth c
    → IsGood truth (put c k v)
put-IsGood truth c k v on e g = record {
  agrees = λ _ j w f. ground (
    arith,
    put-Agrees c k v (truth c.height) (g.agrees on) j w f,
    put-fields c k v,
    beq_iff k j,
    ap (truth c.height) {x = k} {y = j},
    ap (λ (n : ℕ). truth n j) {x = (put c k v).height} {y = c.height},
  );
  unset = λ off j. ground (arith, put-fields c k v);
  bound = λ _. ground (arith, put-fields c k v, g.bound on);
}

fill-IsGood :
    (truth : History) (c : FlatCache) (k : Bytes) (h : ℕ)
    → IsGood truth c
    → IsGood truth (fill c k (truth h k).val (truth h k).found h)
unfolding fill
fill-IsGood truth c k h g = elim (Bool-cases (c.budget == 0)) [
  | inl off ↦ rw off g
  | inr on ↦ rw on (elim (Bool-cases (not c.is_set || not (c.height == h))) [
    | inl away ↦ rw away g
    | inr here ↦ rw here (
        put-IsGood truth c k (truth h k) (ground arith)
          (ground (arith, ap (λ (n : ℕ). truth n k) {x = h} {y = c.height})) g)
  ])
]

run-IsGood :
    (truth : History) (c : FlatCache) (calls : List Call)
    → All (IsCall truth) calls
    → IsGood truth c
    → IsGood truth (run truth c calls)
unfolding run
run-IsGood truth c [] a g = g
run-IsGood truth c (land b ∷ calls) (e, a) g =
    run-IsGood truth (apply c b) calls a (apply-IsGood truth c b e g)
run-IsGood truth c (filled k h ∷ calls) (e, a) g =
    run-IsGood truth (fill c k (truth h k).val (truth h k).found h) calls a
      (fill-IsGood truth c k h g)

adopted-IsGood :
    (truth : History) (budget h : ℕ)
    → h + 1 < 2 ^ 64
    → IsGood truth (adopt (new_flat_cache budget) h)
unfolding adopt new_flat_cache
adopted-IsGood truth budget h b = record {
  agrees = λ on k v e. ground (arith, lookup-nil {V = FlatVal} k);
  unset = λ off k. ground (arith, lookup-nil {V = FlatVal} k);
  bound = λ on. ground arith;
}

get-entry :
    (c : FlatCache) (k : Bytes) (h : ℕ) (v : FlatVal)
    → get c k h ≡ (v, true)
    → (c.is_set ≡ true) × (c.height ≡ h) × (entry c k ≡ some v)
unfolding get
get-entry c k h v e = ground arith

-- Let `truth` be the answers of the descent by height. A cache opened at the head `h0`, after any
-- blocks landed that each extend `truth`, in any order and with gaps and replays, and after any
-- fills with what the descent answered at any height: a hit at height `h` is the descent's answer
-- at `h`, deleted rows and "never written" included.
pub get-run :
    (truth : History) (budget h0 : ℕ) (calls : List Call) (k : Bytes) (h : ℕ) (v : FlatVal)
    → h0 + 1 < 2 ^ 64
    → All (IsCall truth) calls
    → get (run truth (adopt (new_flat_cache budget) h0) calls) k h ≡ (v, true)
    → v ≡ truth h k
get-run truth budget h0 calls k h v b a e =
    let c = run truth (adopt (new_flat_cache budget) h0) calls in
    let g =
      run-IsGood truth (adopt (new_flat_cache budget) h0) calls a
        (adopted-IsGood truth budget h0 b) in
    let (on, at, held) = get-entry c k h v e in g.agrees on k v held ∙ ap (λ (n : ℕ). truth n k) at

fill_here :
    (c : FlatCache) (k val : Bytes) (found : Bool) (h : ℕ)
    → c.budget ≢ 0
    → c.is_set ≡ true
    → c.height ≡ h
    → fill c k val found h ≡ put c k (record { val = val; found = found })
unfolding fill
fill_here c k val found h b on at = ground arith

get_away : (c : FlatCache) (k : Bytes) (h : ℕ) → c.height ≢ h → (get c k h).1 ≡ false
unfolding get
get_away c k h ne = ground arith

get-put :
    (c : FlatCache) (k : Bytes) (v : FlatVal) (h : ℕ)
    → c.budget ≢ 0
    → c.is_set ≡ true
    → c.height ≡ h
    → get (put c k v) k h ≡ (v, true)
unfolding get put
get-put c k v h b on at =
    ground (arith, lookup-insert k k v c.hot, beq_iff k k, lookup-nil {V = FlatVal} k)

-- If the cache is on and set, a fill at its height is served at that height by the next read, rotated
-- or not, and no read at another height hits.
pub get-fill :
    (c : FlatCache) (k val : Bytes) (found : Bool) (h other : ℕ)
    → c.budget ≢ 0
    → c.is_set ≡ true
    → c.height ≡ h
    → h ≢ other
    → (get (fill c k val found h) k h ≡ (record { val = val; found = found }, true))
      × ((get (fill c k val found h) k other).1 ≡ false)
get-fill c k val found h other b on at ne =
    let v : FlatVal = record { val = val; found = found } in
    rw (fill_here c k val found h b on at)
      (get-put c k v h b on at, ground (arith, get_away (put c k v) k other, put-fields c k v))

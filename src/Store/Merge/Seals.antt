-- ===== src/Store/Merge/Seals.antt =====
-- The seals of the writer are seals of the merge machine, and a merge that is installed leaves the
-- windows joined.
use avalanche_s3_archival_no.Prelude.{ℕ, ◌<◌, ◌≡◌, refl, sym, ap, ◌∙◌, arith, add64}
use avalanche_s3_archival_no.Prelude.{true, List, [], ◌∷◌, ◌++◌, Option, none, some, length}
use avalanche_s3_archival_no.Prelude.{
  append-nil, last?, last?-cases, ◌⊎◌, inl, inr, Bool-cases, ltb, sub64, ◌&&◌,
}
use avalanche_s3_archival_no.Prelude.Bytes.{Bytes}
use avalanche_s3_archival_no.Prelude.Fail.{>>=-eq-some}
use avalanche_s3_archival_no.Store.Memtable.Write.{add_block}
use mathlib.Core.Path.{subst}
use avalanche_s3_archival_no.Store.Rows.{BlockWrite}
use avalanche_s3_archival_no.Store.Manifest.{RunRef, check_tiling, sealed_ref}
use avalanche_s3_archival_no.Store.Memtable.{Memtable}
use avalanche_s3_archival_no.Store.Memtable.Blocks.{IsBlock}
use avalanche_s3_archival_no.Store.Flat.{apply}
use avalanche_s3_archival_no.Store.Cut.{
  Writer, prev_run, seal, wait_cut, freeze, cut_window, flush, maybe_flush, write_block,
}
use avalanche_s3_archival_no.Store.Cut.Ends.{
  IsJoined, IsFrozen, Joins, run_end, cut_end, joined_start, cut_window-IsJoined,
}
use avalanche_s3_archival_no.Store.Cut.Life.{add-IsJoined}
use avalanche_s3_archival_no.Store.Merge.{Db, Merging, finish_merge, merged_ref}
use avalanche_s3_archival_no.Store.Merge.Settle.{cut-parts, prev_of}
use avalanche_s3_archival_no.Store.Merge.Reach.{
  Reach, sealed, finished, Reach-Inv, finish_merge-install, install-found,
}
use avalanche_s3_archival_no.Store.Merge.Progress.{
  Reach-check_tiling, live_install, merged_ref-bounds,
}

-- The run list that the writer and the merge share.
abbrev pub db_of : Writer → Merging → Db
db_of w m = record { runs = w.runs; merging = m }

last?-behind {ℓ} :
    {A : Type ℓ} (xs : List A) (y : A) (ys : List A) → last? (xs ++ (y ∷ ys)) ≡ last? (y ∷ ys)
last?-behind [] y ys = refl
last?-behind (x ∷ []) y ys = refl
last?-behind (x ∷ z ∷ xs) y ys = last?-behind (z ∷ xs) y ys

abbrev end_of : Option RunRef → Option (ℕ × ℕ)
end_of o = elim o [ none ↦ none | some z ↦ some (z.to_tx, add64 z.to_height 1) ]

-- The run list ends where it ended when a merged run stands for its inputs.
run_end-behind :
    (ts : List RunRef) (y : RunRef) (ys : List RunRef) → run_end (ts ++ (y ∷ ys)) ≡ run_end (y ∷ ys)
run_end-behind ts y ys = ap end_of (last?-behind ts y ys)

run_end-merged :
    (ts q : List RunRef) (x : RunRef) (xs : List RunRef) (name : Bytes) {m : RunRef}
    → merged_ref (x ∷ xs) name ≡ some m
    → run_end (ts ++ (m ∷ q)) ≡ run_end (ts ++ ((x ∷ xs) ++ q))
run_end-merged ts [] x xs name {m} e =
    let (z, l) = last?-cases x xs in
    let (_, _, tx, height) = merged_ref-bounds x z xs name l e in
    let pair : some (m.to_tx, add64 m.to_height 1) ≡ some (z.to_tx, add64 z.to_height 1) = cc in
    let same : run_end (m ∷ []) ≡ run_end (x ∷ xs) = pair ∙ sym (ap end_of l) in
    run_end-behind ts m []
    ∙ same
    ∙ sym (run_end-behind ts x xs)
    ∙ ap (λ (l : List RunRef). run_end (ts ++ l)) (sym (append-nil (x ∷ xs)))
run_end-merged ts (r ∷ q) x xs name {m} e =
    run_end-behind ts m (r ∷ q)
    ∙ run_end-behind (m ∷ []) r q
    ∙ sym (run_end-behind (x ∷ xs) r q)
    ∙ sym (run_end-behind ts x (xs ++ (r ∷ q)))

run_end-merged_front :
    (ts q g : List RunRef) (name : Bytes) {m : RunRef}
    → 0 < length g
    → merged_ref g name ≡ some m
    → run_end (ts ++ (m ∷ q)) ≡ run_end (ts ++ (g ++ q))
run_end-merged_front ts q [] name h e = absurd (omega arith)
run_end-merged_front ts q (x ∷ xs) name h e = run_end-merged ts q x xs name e

-- The windows are joined to the end of the run list, whichever runs make it up.
IsFrozen-end :
    (rs ss : List RunRef) (o : Option Memtable)
    → run_end rs ≡ run_end ss
    → IsFrozen ss o
    → IsFrozen rs o
IsFrozen-end rs ss none e v = tt
IsFrozen-end rs ss (some f) e (w, on, j) =
    (w, on, subst (λ (k : Option (ℕ × ℕ)). Joins k f) (sym e) j)

cut_end-end :
    (rs ss : List RunRef) (o : Option Memtable)
    → run_end rs ≡ run_end ss
    → cut_end rs o ≡ cut_end ss o
cut_end-end rs ss none e = e
cut_end-end rs ss (some f) e = refl

IsJoined-runs :
    (w : Writer) (rs : List RunRef)
    → IsJoined w
    → check_tiling rs ≡ true
    → run_end rs ≡ run_end w.runs
    → IsJoined (record w { runs = rs })
IsJoined-runs w rs v h e = record {
  tiled = h;
  frozen_ok = IsFrozen-end rs w.runs w.frozen e v.frozen_ok;
  active = v.active;
  joins =
      subst (λ (k : Option (ℕ × ℕ)). Joins k w.mem) (sym (cut_end-end rs w.runs w.frozen e))
        v.joins;
}

freeze-runs : (d : Writer) → (freeze d).runs ≡ d.runs
unfolding freeze
freeze-runs d = ground arith

module _ (t : ℕ) (root : Bytes) (artifact : Bytes → List RunRef → Bytes) where
  -- A machine of merges that some sealed runs have brought to these live runs.
  abbrev pub Merges : List RunRef → Merging → Type 0
  Merges runs m =
      (hs : List RunRef) × Reach t root artifact hs (record { runs = runs; merging = m })

  pub finished-IsJoined :
      (w : Writer) (m : Merging) {e : Db}
      → IsJoined w
      → Merges w.runs m
      → finish_merge artifact (db_of w m) ≡ some e
      → IsJoined (record w { runs = e.runs })
  finished-IsJoined w m {e} v (hs, r) x =
      let tiled = Reach-check_tiling t root artifact (finished r x) in
      let (runs, i, f) = finish_merge-install t root artifact (db_of w m) e x in
      let k = Reach-Inv t root artifact r in
      let (g, q, ref, c, d, is) =
        install-found t root artifact k.ts k.rest m k.flight
          (live_install t root artifact (db_of w m) k i) in
      let split = (cut-parts t k.rest g q c).0 in
      let ends =
        run_end-merged_front k.ts q g (artifact (prev_of root k.ts) g) (cut-parts t k.rest g q c).1
          d in
      IsJoined-runs w e.runs v tiled (
        ap (λ (y : Db). run_end y.runs) f
        ∙ ap run_end is
        ∙ ends
        ∙ ap (λ (l : List RunRef). run_end (k.ts ++ l)) (sym split)
        ∙ ap run_end (sym k.live))

  module _ (run_name : Bytes → Memtable → Bytes) where
    seal-Merges :
        (w : Writer) (m : Merging) (f : Memtable)
        → Joins (run_end w.runs) f
        → Merges w.runs m
        → Merges (seal root run_name w f).runs m
    unfolding seal sealed_ref
    seal-Merges w m f j (hs, r) =
        let ref =
          sealed_ref f.base_tx f.next_tx f.base_height f.next_height
            (run_name (prev_run root run_name w.runs) f) in
        (hs ++ (ref ∷ []), sealed ref r refl (joined_start w.runs f ref.name j) refl)

    pub wait_cut-Merges :
        (w : Writer) (m : Merging)
        → IsJoined w
        → Merges w.runs m
        → Merges (wait_cut root run_name w).runs m
    unfolding wait_cut
    wait_cut-Merges w m v r = go w.frozen v.frozen_ok
      where
        go :
            (o : Option Memtable)
            → IsFrozen w.runs o
            → Merges (wait_cut root run_name (record w { frozen = o })).runs m
        go none j = r
        go (some f) (_, _, j) = seal-Merges (record w { frozen = some f }) m f j r

    cut_window-Merges :
        (w : Writer) (m : Merging)
        → IsJoined w
        → Merges w.runs m
        → Merges (cut_window root run_name w).runs m
    unfolding cut_window
    cut_window-Merges w m v r =
        subst (λ (l : List RunRef). Merges l m) (sym (freeze-runs (wait_cut root run_name w)))
          (wait_cut-Merges w m v r)

    pub flush-Merges :
        (w : Writer) (m : Merging)
        → IsJoined w
        → Merges w.runs m
        → Merges (flush root run_name w).runs m
    unfolding flush
    flush-Merges w m v r =
        wait_cut-Merges (cut_window root run_name w) m (cut_window-IsJoined root run_name w v)
          (cut_window-Merges w m v r)

    module _ (flush_txs flush_blocks : ℕ) where
      maybe_flush-cases :
          (w : Writer)
          → (maybe_flush root run_name flush_txs flush_blocks w ≡ w)
            ⊎ (maybe_flush root run_name flush_txs flush_blocks w ≡ cut_window root run_name w)
      unfolding maybe_flush
      maybe_flush-cases w = elim (Bool-cases w.mem.started) [
        | inr off ↦ inl (ground arith)
        | inl on ↦
            elim (Bool-cases (
              ltb (sub64 w.mem.next_tx w.mem.base_tx) flush_txs
              && ltb (sub64 w.mem.next_height w.mem.base_height) flush_blocks)) [
                | inl small ↦ inl (ground arith)
                | inr big ↦ inr (ground arith)
              ]
      ]

      maybe_flush-Merges :
          (w : Writer) (m : Merging)
          → IsJoined w
          → Merges w.runs m
          → Merges (maybe_flush root run_name flush_txs flush_blocks w).runs m
      maybe_flush-Merges w m v r = elim (maybe_flush-cases w) [
        | inl same ↦ subst (λ (x : Writer). Merges x.runs m) (sym same) r
        | inr full ↦ subst (λ (x : Writer). Merges x.runs m) (sym full) (cut_window-Merges w m v r)
      ]

      module _ (keccak sha : Bytes → Bytes) (bare : Bytes → List Bytes → Option Bytes)
          (hk : (x : Bytes) → length (keccak x) ≡ 32) (hs : (x : Bytes) → length (sha x) ≡ 32) where
        pub written-Merges :
            (w : Writer) (m : Merging) (b : BlockWrite) {e : Writer}
            → IsBlock b
            → IsJoined w
            → Merges w.runs m
            → write_block root run_name flush_txs flush_blocks keccak sha bare w b ≡ some e
            → Merges e.runs m
        unfolding write_block
        written-Merges w m b {e} v j r h =
            let (mem, a, q) = >>=-eq-some (add_block keccak sha bare w.mem b) _ h in
            let k = (add-IsJoined keccak sha bare hk hs w b (apply w.flat b) v j a).0 in
            let same : e
                ≡ maybe_flush root run_name flush_txs flush_blocks
                    (record w { mem = mem; flat = apply w.flat b }) =
              cc in
            subst (λ (x : Writer). Merges x.runs m) (sym same)
              (maybe_flush-Merges (record w { mem = mem; flat = apply w.flat b }) m k r)

-- ===== src/Store/Merge/Node.antt =====
-- The whole node: the writer of store/db.go writes, cuts and seals, and the terminal merge of
-- store/merge.go runs beside it on the same run list.
use avalanche_s3_archival_no.Prelude.{ℕ, ◌≡◌, refl, ap}
use avalanche_s3_archival_no.Prelude.{true, List, [], Option, some, length}
use avalanche_s3_archival_no.Prelude.Bytes.{Bytes}
use mathlib.Core.Path.{subst}
use avalanche_s3_archival_no.Store.Rows.{BlockWrite}
use avalanche_s3_archival_no.Store.Manifest.{RunRef, check_tiling}
use avalanche_s3_archival_no.Store.Memtable.{Memtable}
use avalanche_s3_archival_no.Store.Memtable.Blocks.{IsBlock}
use avalanche_s3_archival_no.Store.Flat.{FlatCache}
use avalanche_s3_archival_no.Store.Cut.{Writer, wait_cut, flush, write_block}
use avalanche_s3_archival_no.Store.Cut.Ends.{IsJoined, wait_cut-IsJoined, flush-IsJoined}
use avalanche_s3_archival_no.Store.Cut.Life.{
  empty_store, empty_store-IsJoined, write_block-IsJoined,
}
use avalanche_s3_archival_no.Store.Merge.{
  Db, Merging, idle, planned, maybe_merge, begin_merge, finish_merge,
}
use avalanche_s3_archival_no.Store.Merge.Reach.{
  Reach, opened, started, begun, finished, killed, begin_merge-inputs,
}
use avalanche_s3_archival_no.Store.Merge.Progress.{Inputs, planned-Inputs}
use avalanche_s3_archival_no.Store.Merge.Seals.{
  db_of, Merges, finished-IsJoined, wait_cut-Merges, flush-Merges, written-Merges,
}

module _ (t : ℕ) (root : Bytes) (artifact : Bytes → List RunRef → Bytes)
    (run_name : Bytes → Memtable → Bytes) (flush_txs flush_blocks : ℕ) (keccak sha : Bytes → Bytes)
    (bare : Bytes → List Bytes → Option Bytes) (hk : (x : Bytes) → length (keccak x) ≡ 32)
    (hs : (x : Bytes) → length (sha x) ≡ 32) where
  -- What a node can come to: its writer writes blocks, collects the seal of its frozen window
  -- and flushes; beside it, at any time and in their order, a merge is planned, reads its inputs
  -- and is installed, or stops. Every run is one that these operations made.
  pub data Node (flat : FlatCache) : Writer → Merging → Type 0 where
    fresh_node : Node flat (empty_store flat) idle
    written :
        {w e : Writer} {m : Merging} (b : BlockWrite)
        → Node flat w m
        → IsBlock b
        → write_block root run_name flush_txs flush_blocks keccak sha bare w b ≡ some e
        → Node flat e m
    sealed_one : {w : Writer} {m : Merging} → Node flat w m → Node flat (wait_cut root run_name w) m
    flushed : {w : Writer} {m : Merging} → Node flat w m → Node flat (flush root run_name w) m
    merge_started :
        {w : Writer} {m : Merging} → Node flat w m → Node flat w (maybe_merge t (db_of w m)).merging
    merge_begun :
        {w : Writer} {m : Merging} {e : Db}
        → Node flat w m
        → begin_merge root (db_of w m) ≡ some e
        → Node flat w e.merging
    merge_finished :
        {w : Writer} {m : Merging} {e : Db}
        → Node flat w m
        → finish_merge artifact (db_of w m) ≡ some e
        → Node flat (record w { runs = e.runs }) e.merging
    merge_stopped : {w : Writer} {m : Merging} → Node flat w m → Node flat w idle

  started-Merges :
      (w : Writer) (m : Merging)
      → Merges t root artifact w.runs m
      → Merges t root artifact w.runs (maybe_merge t (db_of w m)).merging
  unfolding maybe_merge
  started-Merges w m (hs, r) = (hs, started r)

  begun-Merges :
      (w : Writer) (m : Merging) {e : Db}
      → Merges t root artifact w.runs m
      → begin_merge root (db_of w m) ≡ some e
      → Merges t root artifact w.runs e.merging
  begun-Merges w m {e} (hs, r) x =
      let (n, _, f) = begin_merge-inputs t root artifact (db_of w m) e x in
      (
        hs,
        subst
            (λ (l : List RunRef).
              Reach t root artifact hs (record { runs = l; merging = e.merging }))
            (ap (λ (y : Db). y.runs) f) (begun r x),
      )

  Node-both :
      {flat : FlatCache} {w : Writer} {m : Merging}
      → Node flat w m
      → IsJoined w × Merges t root artifact w.runs m
  Node-both {flat} fresh_node = (empty_store-IsJoined flat, unfold empty_store in ([], opened))
  Node-both (written {w = w} {m = m} b n v h) =
      let (j, r) = Node-both n in
      (
        (write_block-IsJoined keccak sha bare hk hs root run_name flush_txs flush_blocks w b v j
            h).0,
        written-Merges t root artifact run_name flush_txs flush_blocks keccak sha bare hk hs w m b v
            j r h,
      )
  Node-both (sealed_one {w = w} {m = m} n) =
      let (j, r) = Node-both n in
      (wait_cut-IsJoined root run_name w j, wait_cut-Merges t root artifact run_name w m j r)
  Node-both (flushed {w = w} {m = m} n) =
      let (j, r) = Node-both n in
      (flush-IsJoined root run_name w j, flush-Merges t root artifact run_name w m j r)
  Node-both (merge_started {w = w} {m = m} n) =
      let (j, r) = Node-both n in (j, started-Merges w m r)
  Node-both (merge_begun {w = w} {m = m} n x) =
      let (j, r) = Node-both n in (j, begun-Merges w m r x)
  Node-both (merge_finished {w = w} {m = m} n x) =
      let (j, r) = Node-both n in
      (finished-IsJoined t root artifact w m j r x, (r.0, finished r.1 x))
  Node-both (merge_stopped {w = w} {m = m} n) = let (j, r) = Node-both n in (j, (r.0, killed r.1))

  -- In every state that a node comes to by writes, cuts, seals, flushes and merges, in any
  -- interleaving, the live runs tile both dimensions, so that an open of the saved manifest is
  -- never refused by `checkTiling`, and the windows stay joined to them: the frozen window starts
  -- where the runs end, and the active one where that ends. The two hashes give 32 bytes each,
  -- and the blocks that are written are within their length prefixes.
  pub Node-IsJoined :
      {flat : FlatCache} {w : Writer} {m : Merging}
      → Node flat w m
      → (check_tiling w.runs ≡ true) × IsJoined w
  Node-IsJoined n = ((Node-both n).0.tiled, (Node-both n).0)

  -- In every state that a node comes to by writes, cuts, seals, flushes and merges, in any
  -- interleaving, a merge that is planned on the span from `s` to `e` reads its inputs: no slice
  -- is out of range, the contiguity check passes, and what it reads are L0 runs, at least one,
  -- that begin right behind the published terminals. The two hashes give 32 bytes each, and the
  -- blocks that are written are within their length prefixes.
  pub Node-Inputs :
      {flat : FlatCache} {w : Writer} {s e : ℕ}
      → Node flat w (planned s e)
      → Inputs t root artifact (db_of w (planned s e)) s e
  Node-Inputs n = planned-Inputs t root artifact (Node-both n).1.1 refl

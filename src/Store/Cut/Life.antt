-- ===== src/Store/Cut/Life.antt =====
-- The life of a store: blocks are written, windows are cut and sealed, in any interleaving.
use avalanche_s3_archival_no.Prelude.{
  ℕ, ◌+◌, ◌≡◌, refl, sym, ap, ◌∙◌, arith, add64, ◌==◌, ltb, if◌then◌else◌,
}
use avalanche_s3_archival_no.Prelude.{true, false, List, [], Option, none, some, length}
use avalanche_s3_archival_no.Prelude.{◌⊎◌, inl, inr, Bool-cases}
use avalanche_s3_archival_no.Prelude.Bytes.{Bytes}
use avalanche_s3_archival_no.Prelude.Fail.{>>=-eq-some}
use mathlib.Core.Path.{subst}
use avalanche_s3_archival_no.Store.Rows.{BlockWrite}
use avalanche_s3_archival_no.Store.Manifest.{check_tiling}
use avalanche_s3_archival_no.Store.Memtable.{Memtable, reset, write}
use avalanche_s3_archival_no.Store.Memtable.Write.{start_window, end_block, add_block}
use avalanche_s3_archival_no.Store.Memtable.Replay.{started_at}
use avalanche_s3_archival_no.Store.Memtable.Blocks.{IsBlock}
use avalanche_s3_archival_no.Store.Memtable.Torn.{Lands, add_block-Lands, Lands-IsOpen}
use avalanche_s3_archival_no.Store.Flat.{FlatCache, apply}
use avalanche_s3_archival_no.Store.Cut.{
  Writer, next_tx, next_height, wait_cut, flush, maybe_flush, write_block,
}
use avalanche_s3_archival_no.Store.Cut.Ends.{
  Joins, IsWindow, IsJoined, cut_end, next-IsJoined, wait_cut-IsJoined, flush-IsJoined,
  maybe_flush-IsJoined, maybe_flush-ends,
}

-- A fresh store.
unfoldable pub empty_store : FlatCache → Writer
empty_store flat = record { runs = []; mem = reset 0 0; frozen = none; flat = flat }

pub empty_store-IsJoined : (flat : FlatCache) → IsJoined (empty_store flat)
unfolding empty_store reset check_tiling
empty_store-IsJoined flat = record {
  tiled = refl;
  frozen_ok = tt;
  active = record {
    bounds = record { ordered = omega arith; fits = omega arith };
    height_fits = omega arith;
    empty = λ h. (refl, refl);
    busy = λ h. cc;
  };
  joins = (refl, λ h. refl);
}

-- The bounds of a window that took a block.
Lands-bounds :
    {m m' : Memtable} (h : ℕ)
    → Lands m h m'
    → (m'.base_tx ≡ m.base_tx)
      × (m'.base_height ≡ (if m.started then m.base_height else h))
      × (m'.next_height ≡ add64 h 1)
      × (m'.started ≡ true)
unfolding started_at end_block write
Lands-bounds h l = (
  ap (λ (x : Memtable). x.base_tx) l.shape,
  ap (λ (x : Memtable). x.base_height) l.shape,
  ap (λ (x : Memtable). x.next_height) l.shape,
  ap (λ (x : Memtable). x.started) l.shape,
)

module _ (keccak sha : Bytes → Bytes) (bare : Bytes → List Bytes → Option Bytes) where
  -- A block that starts a window is the next one, but for the first of an empty store.
  add_block-start :
      (m : Memtable) (b : BlockWrite) {m' : Memtable}
      → add_block keccak sha bare m b ≡ some m'
      → ltb b.height m.next_height ≡ false
      → m.started ≡ false
      → (m.next_height ≡ 0) ⊎ (b.height ≡ m.next_height)
  unfolding add_block start_window
  add_block-start m b h new idle = elim (Bool-cases (m.next_height == 0)) [
    | inl z ↦ inl (ground arith)
    | inr nz ↦ inr (ground arith)
  ]

  module _ (hk : (x : Bytes) → length (keccak x) ≡ 32)
      (hs : (x : Bytes) → length (sha x) ≡ 32) where
    add_block-Joins :
        (m : Memtable) (b : BlockWrite) (o : Option (ℕ × ℕ)) {m' : Memtable}
        → IsBlock b
        → ltb b.height m.next_height ≡ false
        → add_block keccak sha bare m b ≡ some m'
        → Lands m b.height m'
        → IsWindow m
        → Joins o m
        → Joins o m'
    add_block-Joins m b none v new h l w j =
        let (bt, bh, nh, on) = Lands-bounds b.height l in (bt ∙ j.0, λ off. cc)
    add_block-Joins m b (some (t, k)) {m'} v new h l w (jt, jh, pos) = elim (Bool-cases m.started) [
      | inl busy ↦ let (bt, bh, nh, on) = Lands-bounds b.height l in (bt ∙ jt, ground arith, pos)
      | inr idle ↦
          let (bt, bh, nh, on) = Lands-bounds b.height l in
          let (_, same) = w.empty idle in
          (bt ∙ jt, ground (arith, add_block-start m b h new idle), pos)
    ]

    Lands-IsWindow :
        {m m' : Memtable} (b : BlockWrite) → IsBlock b → Lands m b.height m' → IsWindow m'
    Lands-IsWindow {m} {m'} b v l =
        let (bt, bh, nh, on) = Lands-bounds b.height l in
        let small = v.height_fits in
        record {
          bounds = Lands-IsOpen keccak sha bare hk hs b v l;
          height_fits = omega arith;
          empty = λ off. cc;
          busy = λ _. omega arith;
        }

    -- An `add` to the active window keeps the store joined; its next height is the block's, plus one,
    -- unless the block was there.
    pub add-IsJoined :
        (d : Writer) (b : BlockWrite) {m' : Memtable} (flat : FlatCache)
        → IsBlock b
        → IsJoined d
        → add_block keccak sha bare d.mem b ≡ some m'
        → IsJoined (record d { mem = m'; flat = flat })
          × (m'.next_height
              ≡ (if ltb b.height d.mem.next_height then d.mem.next_height else b.height + 1))
          × ((ltb b.height d.mem.next_height ≡ false) ⊎ (m'.next_tx ≡ d.mem.next_tx))
    add-IsJoined d b {m'} flat v w h = elim (Bool-cases (ltb b.height d.mem.next_height)) [
      | inl held ↦
          let same : m' ≡ d.mem = unfold add_block in ground arith in
          (
            record {
              tiled = w.tiled;
              frozen_ok = w.frozen_ok;
              active = rw same w.active;
              joins = subst (Joins (cut_end d.runs d.frozen)) (sym same) w.joins;
            },
            rw (same, held) refl,
            inr (ap (λ (m : Memtable). m.next_tx) same),
          )
      | inr new ↦
          let l = add_block-Lands keccak sha bare hk hs d.mem b w.active.bounds v new h in
          let small = v.height_fits in
          let (bt, bh, nh, on) = Lands-bounds b.height l in
          (
            record {
              tiled = w.tiled;
              frozen_ok = w.frozen_ok;
              active = Lands-IsWindow b v l;
              joins = add_block-Joins d.mem b (cut_end d.runs d.frozen) v new h l w.active w.joins;
            },
            rw new (omega arith),
            inl new,
          )
    ]

    module _ (chain_root : Bytes) (run_name : Bytes → Memtable → Bytes)
        (flush_txs flush_blocks : ℕ) where
      -- A block written to a joined store keeps it joined, cuts the window or not, and the next
      -- height is the block's plus one. A block below the next height moves neither the next
      -- height nor the next TxNum, though its rows still pass through the flat cache and the
      -- window may be cut. The two hashes give 32 bytes each, and the block is within its length
      -- prefixes.
      pub write_block-IsJoined :
          (d : Writer) (b : BlockWrite) {d' : Writer}
          → IsBlock b
          → IsJoined d
          → write_block chain_root run_name flush_txs flush_blocks keccak sha bare d b ≡ some d'
          → IsJoined d'
            × (next_height d'
                ≡ (if ltb b.height (next_height d) then next_height d else b.height + 1))
            × ((ltb b.height (next_height d) ≡ false) ⊎ (next_tx d' ≡ next_tx d))
      unfolding write_block
      write_block-IsJoined d b {d'} v w h =
          let (m, e, q) = >>=-eq-some (add_block keccak sha bare d.mem b) _ h in
          let k : Writer = record d { mem = m; flat = apply d.flat b } in
          let same : d' ≡ maybe_flush chain_root run_name flush_txs flush_blocks k = cc in
          let (j, n, t) = add-IsJoined d b (apply d.flat b) v w e in
          let kept = maybe_flush-IsJoined chain_root run_name flush_txs flush_blocks k j in
          let now = next-IsJoined (maybe_flush chain_root run_name flush_txs flush_blocks k) kept in
          let before = next-IsJoined d w in
          let ends = maybe_flush-ends chain_root run_name flush_txs flush_blocks k in
          (
            rw same kept,
            rw same (
                now.0
                ∙ ends.0
                ∙ n
                ∙ ap (λ (x : ℕ). if ltb b.height x then x else b.height + 1) (sym before.0)),
            elim t [
              | inl new ↦ inl (ap (ltb b.height) before.0 ∙ new)
              | inr held ↦ inr (ap next_tx same ∙ now.1 ∙ ends.1 ∙ held ∙ sym before.1)
            ],
          )

      -- What a store can come to: blocks are written, at any time the seal of the frozen window is
      -- through, and the store is flushed at a stop.
      pub data Life (flat : FlatCache) : Writer → Type 0 where
        fresh_store : Life flat (empty_store flat)
        written :
            {d e : Writer} (b : BlockWrite)
            → Life flat d
            → IsBlock b
            → write_block chain_root run_name flush_txs flush_blocks keccak sha bare d b ≡ some e
            → Life flat e
        sealed_one : {d : Writer} → Life flat d → Life flat (wait_cut chain_root run_name d)
        flushed : {d : Writer} → Life flat d → Life flat (flush chain_root run_name d)

      pub Life-IsJoined : {flat : FlatCache} {d : Writer} → Life flat d → IsJoined d
      Life-IsJoined {flat} fresh_store = empty_store-IsJoined flat
      Life-IsJoined (written {d = d} b l v h) = (write_block-IsJoined d b v (Life-IsJoined l) h).0
      Life-IsJoined (sealed_one {d = d} l) =
          wait_cut-IsJoined chain_root run_name d (Life-IsJoined l)
      Life-IsJoined (flushed {d = d} l) = flush-IsJoined chain_root run_name d (Life-IsJoined l)

-- ===== src/Store/Memtable/Sealed.antt =====
-- A window log that outlives the sealing of its blocks: `recover` drops what the runs hold.
use avalanche_s3_archival_no.Prelude.{
  ℕ, zero, suc, ◌+◌, ◌^◌, ◌<◌, ◌≡◌, refl, sym, ap, ◌∙◌, arith, add64,
}
use avalanche_s3_archival_no.Prelude.{
  List, [], ◌∷◌, ◌++◌, Option, none, some, length, length-append, All, take, append_assoc,
  append-nil,
}
use avalanche_s3_archival_no.Prelude.{inl, inr}
use avalanche_s3_archival_no.Prelude.Fail.{>>=-eq-some}
use mathlib.Core.Path.{subst}
use avalanche_s3_archival_no.Prelude.Bytes.{Bytes, be, length-be, take-append}
use avalanche_s3_archival_no.Store.Rows.{BlockWrite}
use avalanche_s3_archival_no.Store.Memtable.{end_rec, Memtable, reset, encode_rec, rec_header}
use avalanche_s3_archival_no.Store.Memtable.Write.{add_block, add_blocks}
use avalanche_s3_archival_no.Store.Memtable.Replay.{
  Replay, Action, end_of_block, handle, replay, recover, read_rec,
}
use avalanche_s3_archival_no.Store.Memtable.Records.{length-encode_rec}
use avalanche_s3_archival_no.Store.Memtable.Pass.{
  Rec, encode_all, IsRec, at, after, next, replay-step, replay-records, replay-torn,
}
use avalanche_s3_archival_no.Store.Memtable.Blocks.{IsBlock}
use avalanche_s3_archival_no.Store.Memtable.Recover.{block_bytes, action-end}
use avalanche_s3_archival_no.Store.Memtable.Torn.{
  IsOpen, Lands, add_block-cases, Lands-IsOpen, Lands-log,
}

end_of_block-held :
    (s : Replay) (h n : ℕ)
    → h < s.mem.base_height
    → end_of_block s h n ≡ some (record s { pend = []; good = s.off })
unfolding end_of_block
end_of_block-held s h n held = ground arith

-- The end record of a block below the base drops what is pending.
replay-held :
    (f : ℕ) (s : Replay) (h n : ℕ) (t : Bytes)
    → h < 2 ^ 64
    → n < 2 ^ 64
    → h < s.mem.base_height
    → replay (suc f) (at s (encode_rec end_rec h (be 8 n) ++ t))
      ≡ replay f (record s {
        off = s.off + rec_header + length (be 8 n);
        pend = [];
        good = s.off + rec_header + length (be 8 n);
        rest = t;
      })
unfolding handle
replay-held f s h n t hh hn held =
    let z : Replay = at s (encode_rec end_rec h (be 8 n) ++ t) in
    let u : Replay = record s { off = s.off + rec_header + length (be 8 n); rest = t } in
    replay-step f s end_rec h (be 8 n) t hh (omega (arith, length-be 8 n))
    ∙ (ap (λ (a : Action). next f z (handle u h a)) (action-end h n (s.off + rec_header) hn)
        ∙ ap (λ (o : Option Replay). next f z (elim o [ none ↦ none | some r ↦ some (some r) ]))
            (end_of_block-held u h n held))

-- The replay that has dropped the first `o` bytes.
abbrev dropped : Memtable → ℕ → Bytes → Replay
dropped m o t = record { mem = m; pend = []; off = o; good = o; rest = t }

pass_held :
    (m : Memtable) (o q : ℕ) (rs : List Rec) (h tail_at : ℕ) (t : Bytes) (f : ℕ)
    → h < 2 ^ 64
    → h < m.base_height
    → All IsRec rs
    → q ≡ o + length (block_bytes rs h tail_at)
    → length (block_bytes rs h tail_at ++ t) < f
    → (g : ℕ) × (length t < g)
      × (replay f (dropped m o (block_bytes rs h tail_at ++ t)) ≡ replay g (dropped m q t))
pass_held m o q rs h tail_at t f hh held a hq hf =
    let n : ℕ = add64 tail_at 1 in
    let e : Bytes = encode_rec end_rec h (be 8 n) in
    let shape : block_bytes rs h tail_at ++ t ≡ encode_all rs ++ (e ++ t) =
      append_assoc (encode_all rs) e t in
    let s : Replay = dropped m o [] in
    let (g, left, p) =
      replay-records rs s (e ++ t) f a (omega (arith, ap (λ (x : Bytes). length x) shape)) in
    elim g
        as (λ g.
          length (e ++ t) < g
          → replay f (at s (encode_all rs ++ (e ++ t))) ≡ replay g (at (after s rs) (e ++ t))
          → (k : ℕ) × (length t < k)
            × (replay f (dropped m o (block_bytes rs h tail_at ++ t)) ≡ replay k (dropped m q t))) [
              | zero ↦ λ lt r. absurd (omega arith)
              | suc k ↦ λ lt r.
                  let size : o + length (encode_all rs) + rec_header + length (be 8 n) ≡ q = omega (
                    arith,
                    length-append (encode_all rs) e,
                    length-encode_rec end_rec h (be 8 n),
                  ) in
                  (
                    k,
                    omega (arith, length-append e t, length-encode_rec end_rec h (be 8 n)),
                    ap (λ (x : Bytes). replay f (at s x)) shape
                        ∙ (r
                            ∙ (replay-held k (after s rs) h n t hh (omega arith) held
                                ∙ ap (λ (x : ℕ). replay k (dropped m x t)) size)),
                  )
            ]
      left p

abbrev pub IsHeld : ℕ → BlockWrite → Type 0
IsHeld base_height b = b.height < base_height

module _ (keccak sha : Bytes → Bytes) (bare : Bytes → List Bytes → Option Bytes) where
  module _ (hk : (x : Bytes) → length (keccak x) ≡ 32) (hs : (x : Bytes) → length (sha x) ≡ 32)
      (base_tx base_height : ℕ) where
    -- The replay of a log of blocks below the base comes behind them with nothing taken.
    record IsDropped (m : Memtable) : Type 0 where
      bounds : IsOpen m
      passes :
          (t : Bytes) (f : ℕ)
          → length (m.log ++ t) < f
          → (g : ℕ) × (length t < g)
            × (replay f (dropped (reset base_tx base_height) 0 (m.log ++ t))
                ≡ replay g (dropped (reset base_tx base_height) (length m.log) t))

    Lands-IsDropped :
        (m : Memtable) (b : BlockWrite) {m' : Memtable}
        → IsBlock b
        → IsHeld base_height b
        → IsDropped m
        → Lands m b.height m'
        → IsDropped m'
    unfolding reset
    Lands-IsDropped m b {m'} v held w l = record {
      bounds = Lands-IsOpen keccak sha bare hk hs b v l;
      passes = λ t f hf.
          let z : Bytes = block_bytes l.recs b.height l.tail_at in
          let grew : m'.log ≡ m.log ++ z = Lands-log keccak sha bare hk hs b.height l in
          let shape : m'.log ++ t ≡ m.log ++ (z ++ t) =
            ap (λ (x : Bytes). x ++ t) grew ∙ append_assoc m.log z t in
          let (g, left, p) =
            w.passes (z ++ t) f (omega (arith, ap (λ (x : Bytes). length x) shape)) in
          let (k, lt, q) =
            pass_held (reset base_tx base_height) (length m.log) (length m'.log) l.recs b.height
              l.tail_at t g (omega (arith, v.height_fits)) held l.fine
              (omega (arith, ap (λ (x : Bytes). length x) grew, length-append m.log z)) left in
          (
            k,
            lt,
            ap (λ (x : Bytes). replay f (dropped (reset base_tx base_height) 0 x)) shape ∙ (p ∙ q),
          );
    }

    add_blocks-IsDropped :
        (m : Memtable) (bs : List BlockWrite) {m' : Memtable}
        → All IsBlock bs
        → All (IsHeld base_height) bs
        → IsDropped m
        → add_blocks keccak sha bare m bs ≡ some m'
        → IsDropped m'
    unfolding add_blocks
    add_blocks-IsDropped m [] {m'} a d w h = let same : m' ≡ m = cc in subst IsDropped (sym same) w
    add_blocks-IsDropped m (b ∷ bs) {m'} (v, a) (held, d) w h =
        let (k, e, q) = >>=-eq-some (add_block keccak sha bare m b) _ h in
        elim (add_block-cases keccak sha bare hk hs m b w.bounds v e) [
          | inl same ↦ add_blocks-IsDropped k bs a d (subst IsDropped (sym same) w) q
          | inr l ↦ add_blocks-IsDropped k bs a d (Lands-IsDropped m b v held w l) q
        ]

    opened-IsDropped :
        (old_tx old_height : ℕ) → old_tx < 2 ^ 64 → IsDropped (reset old_tx old_height)
    unfolding reset
    opened-IsDropped old_tx old_height h = record {
      bounds = record { ordered = omega arith; fits = h };
      passes = λ t f hf. (f, hf, refl);
    }

    -- A crash between the saved manifest and the cut of the log: the log holds blocks, each row of
    -- them below 1 GB, with 32-byte hashes, that were added to an earlier window, and the runs hold
    -- all of them, so that the base is above their heights. `recover` is no error, takes no row of
    -- them, and leaves an empty window at the new base with the log behind it.
    pub recover-sealed :
        (old_tx old_height : ℕ) (bs : List BlockWrite) (m : Memtable)
        → old_tx < 2 ^ 64
        → All IsBlock bs
        → All (IsHeld base_height) bs
        → add_blocks keccak sha bare (reset old_tx old_height) bs ≡ some m
        → recover m.log base_tx base_height
          ≡ some (record (reset base_tx base_height) { log = m.log })
    unfolding recover
    recover-sealed old_tx old_height bs m hb a d h =
        let w =
          add_blocks-IsDropped (reset old_tx old_height) bs a d
            (opened-IsDropped old_tx old_height hb) h in
        let r : Memtable = reset base_tx base_height in
        let (g, left, p) =
          w.passes [] (suc (length m.log)) (omega (arith, length-append m.log [])) in
        let stop : replay (suc (length m.log)) (dropped r 0 m.log)
            ≡ some (dropped r (length m.log) []) =
          ap (λ (x : Bytes). replay (suc (length m.log)) (dropped r 0 x)) (sym (append-nil m.log))
          ∙ (p ∙ replay-torn g (dropped r (length m.log) []) [] (unfold read_rec in refl)) in
        ap
          (λ (o : Option Replay). elim o [
            | none ↦ none
            | some z ↦ some (record z.mem { log = take z.good m.log })
          ])
          stop
        ∙ ap (λ (l : Bytes). some (record r { log = l }))
            (ap (take (length m.log)) (sym (append-nil m.log))
              ∙ take-append m.log [] (length m.log) refl)

-- ===== src/Store/Memtable/Torn.antt =====
-- Whatever blocks were added and wherever the next one was torn, `recover` gives the window back.
use avalanche_s3_archival_no.Prelude.{false}
use avalanche_s3_archival_no.Prelude.{
  ℕ, suc, ◌+◌, ◌^◌, ◌≤◌, ◌<◌, ◌≡◌, refl, sym, ap, ◌∙◌, arith, add64, ◌==◌, ltb, if◌then◌else◌,
}
use avalanche_s3_archival_no.Prelude.{
  not, List, [], ◌∷◌, ◌++◌, Option, none, some, length, length-append, All, take, append_assoc,
  append-nil, append-injective,
}
use avalanche_s3_archival_no.Prelude.{◌⊎◌, inl, inr, Bool-cases}
use avalanche_s3_archival_no.Prelude.Fail.{◌>>=◌, >>=-eq-some}
use mathlib.Core.Path.{subst}
use avalanche_s3_archival_no.Prelude.Bytes.{Bytes, be, length-be, take-append}
use avalanche_s3_archival_no.Store.Rows.{BlockWrite}
use avalanche_s3_archival_no.Store.Memtable.{end_rec, Index, Memtable, reset, write, encode_rec}
use avalanche_s3_archival_no.Store.Memtable.Write.{
  start_window, end_block, block_body, add_block, add_blocks,
}
use avalanche_s3_archival_no.Store.Memtable.Replay.{
  Replay, commit, started_at, replay, recover, read_rec,
}
use avalanche_s3_archival_no.Store.Memtable.Pass.{
  Rec, encode_all, pendings, IsRec, replay-torn, replay-cut,
}
use avalanche_s3_archival_no.Store.Memtable.Blocks.{IsBlock, block_body-Emits}
use avalanche_s3_archival_no.Store.Memtable.Recover.{
  standing, opened_for, block_bytes, landed, pass_block,
}

-- The bounds of a window.
pub record IsOpen (m : Memtable) : Type 0 where
  pub ordered : m.base_height ≤ m.next_height
  pub fits : m.next_tx < 2 ^ 64

start_window-opened :
    (m : Memtable) (h : ℕ) {s : Memtable}
    → m.base_height ≤ m.next_height
    → start_window m h ≡ some s
    → h ≡ s.next_height
    → (s ≡ opened_for m h) × (m.base_height ≤ h)
unfolding start_window started_at
start_window-opened m h le e at = ground arith

-- What an `add` that landed did.
pub record Lands (m : Memtable) (h : ℕ) (m' : Memtable) : Type 0 where
  pub recs : List Rec
  pub index : Index
  pub tail_at : ℕ
  pub fine : All IsRec recs
  pub made : commit (pendings (length m.log) recs) m.idx ≡ some index
  pub shape : m' ≡ landed m recs index h tail_at
  pub above : m.base_height ≤ h

module _ (keccak sha : Bytes → Bytes) (bare : Bytes → List Bytes → Option Bytes) where
  module _ (hk : (x : Bytes) → length (keccak x) ≡ 32)
      (hs : (x : Bytes) → length (sha x) ≡ 32) where
    body-Lands :
        (m s : Memtable) (b : BlockWrite) {m' : Memtable}
        → IsBlock b
        → m.next_tx < 2 ^ 64
        → s ≡ opened_for m b.height
        → m.base_height ≤ b.height
        → block_body keccak sha bare s b ≡ some m'
        → Lands m b.height m'
    unfolding started_at
    body-Lands m s b {m'} v fits p above h =
        let (k, e, q) =
          block_body-Emits keccak sha bare (opened_for m b.height) b hk hs v fits
            (ap (λ (x : Memtable). block_body keccak sha bare x b) (sym p) ∙ h) in
        record {
          recs = e.recs;
          index = e.index;
          tail_at = add64 m.next_tx (length b.txs);
          fine = e.fine;
          made = e.made;
          shape =
              q
              ∙ ap (λ (x : Memtable). end_block x b.height (add64 m.next_tx (length b.txs)))
                  e.shape;
          above = above;
        }

    -- A block that is not below the window's end, and is no error, lands.
    pub add_block-Lands :
        (m : Memtable) (b : BlockWrite) {m' : Memtable}
        → IsOpen m
        → IsBlock b
        → ltb b.height m.next_height ≡ false
        → add_block keccak sha bare m b ≡ some m'
        → Lands m b.height m'
    unfolding add_block
    add_block-Lands m b {m'} o v new h =
        let go : (start_window m b.height >>= λ s.
        if not (b.height == s.next_height) then none else block_body keccak sha bare s b)
            ≡ some m' =
          ground arith in
        let (s, e, q) = >>=-eq-some (start_window m b.height) _ go in
        let (at, body) : (b.height ≡ s.next_height) × (block_body keccak sha bare s b ≡ some m') =
          ground arith in
        let (p, above) = start_window-opened m b.height o.ordered e at in
        body-Lands m s b v o.fits p above body

    pub add_block-cases :
        (m : Memtable) (b : BlockWrite) {m' : Memtable}
        → IsOpen m
        → IsBlock b
        → add_block keccak sha bare m b ≡ some m'
        → (m' ≡ m) ⊎ Lands m b.height m'
    add_block-cases m b {m'} o v h = elim (Bool-cases (ltb b.height m.next_height)) [
      | inl held ↦ inl (unfold add_block in ground arith)
      | inr new ↦ inr (add_block-Lands m b o v new h)
    ]

    pub Lands-IsOpen :
        {m m' : Memtable} (b : BlockWrite) → IsBlock b → Lands m b.height m' → IsOpen m'
    unfolding started_at end_block write
    Lands-IsOpen {m} {m'} b v l =
        let small = v.height_fits in
        let above = l.above in
        let e : m'.base_height ≡ (landed m l.recs l.index b.height l.tail_at).base_height =
          ap (λ (x : Memtable). x.base_height) l.shape in
        let f : m'.next_height ≡ add64 b.height 1 = ap (λ (x : Memtable). x.next_height) l.shape in
        let g : m'.next_tx ≡ add64 l.tail_at 1 = ap (λ (x : Memtable). x.next_tx) l.shape in
        record { ordered = ground arith; fits = ground arith }

    -- The bytes that a landed block adds.
    pub Lands-log :
        {m m' : Memtable} (h : ℕ) (l : Lands m h m')
        → m'.log ≡ m.log ++ block_bytes l.recs h l.tail_at
    unfolding end_block write
    Lands-log {m} h l =
        ap (λ (x : Memtable). x.log) l.shape
        ∙ append_assoc m.log (encode_all l.recs) (encode_rec end_rec h (be 8 (add64 l.tail_at 1)))

    module _ (base_tx base_height : ℕ) where
      abbrev from_start : Bytes → Replay
      from_start r = record {
        mem = reset base_tx base_height;
        pend = [];
        off = 0;
        good = 0;
        rest = r;
      }

      -- The replay of a memtable's log comes to stand at the memtable, whatever follows.
      record IsReplayed (m : Memtable) : Type 0 where
        bounds : IsOpen m
        passes :
            (t : Bytes) (f : ℕ)
            → length (m.log ++ t) < f
            → (g : ℕ) × (length t < g)
              × (replay f (from_start (m.log ++ t)) ≡ replay g (standing m t))

      Lands-IsReplayed :
          (m : Memtable) (b : BlockWrite) {m' : Memtable}
          → IsBlock b
          → IsReplayed m
          → Lands m b.height m'
          → IsReplayed m'
      Lands-IsReplayed m b {m'} v w l = record {
        bounds = Lands-IsOpen b v l;
        passes = λ t f hf.
            let z : Bytes = block_bytes l.recs b.height l.tail_at in
            let shape : m'.log ++ t ≡ m.log ++ (z ++ t) =
              ap (λ (x : Bytes). x ++ t) (Lands-log b.height l) ∙ append_assoc m.log z t in
            let (g, left, p) =
              w.passes (z ++ t) f (omega (arith, ap (λ (x : Bytes). length x) shape)) in
            let (k, lt, q) =
              pass_block m l.recs l.index b.height l.tail_at t g (omega (arith, v.height_fits))
                l.above l.fine l.made left in
            (
              k,
              lt,
              ap (λ (x : Bytes). replay f (from_start x)) shape
                  ∙ (p ∙ (q ∙ ap (λ (x : Memtable). replay k (standing x t)) (sym l.shape))),
            );
      }

      add_blocks-IsReplayed :
          (m : Memtable) (bs : List BlockWrite) {m' : Memtable}
          → All IsBlock bs
          → IsReplayed m
          → add_blocks keccak sha bare m bs ≡ some m'
          → IsReplayed m'
      unfolding add_blocks
      add_blocks-IsReplayed m [] {m'} a w h =
          let same : m' ≡ m = cc in subst IsReplayed (sym same) w
      add_blocks-IsReplayed m (b ∷ bs) {m'} (v, a) w h =
          let (k, e, q) = >>=-eq-some (add_block keccak sha bare m b) _ h in
          elim (add_block-cases m b w.bounds v e) [
            | inl same ↦ add_blocks-IsReplayed k bs a (subst IsReplayed (sym same) w) q
            | inr l ↦ add_blocks-IsReplayed k bs a (Lands-IsReplayed m b v w l) q
          ]

      reset-IsReplayed : base_tx < 2 ^ 64 → IsReplayed (reset base_tx base_height)
      unfolding reset
      reset-IsReplayed h = record {
        bounds = record { ordered = omega arith; fits = h };
        passes = λ t f hf. (f, hf, refl);
      }

      recover-stands :
          (m : Memtable) (t : Bytes) (s : Replay)
          → replay (suc (length (m.log ++ t))) (from_start (m.log ++ t)) ≡ some s
          → s.mem ≡ record m { log = [] }
          → s.good ≡ length m.log
          → recover (m.log ++ t) base_tx base_height ≡ some m
      unfolding recover
      recover-stands m t s e p q =
          ap
            (λ (o : Option Replay). elim o [
              | none ↦ none
              | some z ↦ some (record z.mem { log = take z.good (m.log ++ t) })
            ])
            e
          ∙ (ap (λ (x : Memtable). some (record x { log = take s.good (m.log ++ t) })) p
              ∙ ap (λ (l : Bytes). some (record m { log = l }))
                  (ap (λ (n : ℕ). take n (m.log ++ t)) q ∙ take-append m.log t (length m.log) refl))

      -- After any blocks that were added to an empty window, each row of them below the 1 GB that the
      -- replay reads, with 32-byte hashes: if the next block is torn anywhere in the bytes that it
      -- would append, `recover` cuts the log back to the last complete block and rebuilds every index,
      -- bound and byte of the window as it was before.
      pub recover-torn :
          (bs : List BlockWrite) (b : BlockWrite) (m m' : Memtable) (t u : Bytes)
          → base_tx < 2 ^ 64
          → All IsBlock bs
          → IsBlock b
          → add_blocks keccak sha bare (reset base_tx base_height) bs ≡ some m
          → add_block keccak sha bare m b ≡ some m'
          → m'.log ≡ m.log ++ (t ++ u)
          → 0 < length u
          → recover (m.log ++ t) base_tx base_height ≡ some m
      recover-torn bs b m m' t u hb a v h e cut lost =
          let w = add_blocks-IsReplayed (reset base_tx base_height) bs a (reset-IsReplayed hb) h in
          let (g, left, p) = w.passes t (suc (length (m.log ++ t))) (omega arith) in
          let more : length m'.log ≡ length m.log + (length t + length u) = omega (
            arith,
            ap (λ (x : Bytes). length x) cut,
            length-append m.log (t ++ u),
            length-append t u,
          ) in
          elim (add_block-cases m b w.bounds v e) [
            | inl same ↦ absurd (omega (arith, more, ap (λ (x : Memtable). length x.log) same))
            | inr l ↦
                let z : Bytes = block_bytes l.recs b.height l.tail_at in
                let (_, split) =
                  append-injective m.log m.log {us = t ++ u} {vs = z} refl
                    (sym cut ∙ Lands-log b.height l) in
                let (s, r, x, y) =
                  replay-cut l.recs b.height (be 8 (add64 l.tail_at 1)) (standing m []) t u g l.fine
                    (omega (arith, v.height_fits)) (omega (arith, length-be 8 (add64 l.tail_at 1)))
                    split
                    (omega (arith, lost, ap (λ (q : Bytes). length q) split, length-append t u)) in
                recover-stands m t s (p ∙ r) x y
          ]

      -- After any blocks that were added to an empty window, each row of them below 1 GB, with 32-byte
      -- hashes, `recover` of the whole log gives the window back.
      pub recover-log :
          (bs : List BlockWrite) (m : Memtable)
          → base_tx < 2 ^ 64
          → All IsBlock bs
          → add_blocks keccak sha bare (reset base_tx base_height) bs ≡ some m
          → recover m.log base_tx base_height ≡ some m
      recover-log bs m hb a h =
          let w = add_blocks-IsReplayed (reset base_tx base_height) bs a (reset-IsReplayed hb) h in
          let (g, left, p) = w.passes [] (suc (length (m.log ++ []))) (omega arith) in
          ap (λ (x : Bytes). recover x base_tx base_height) (sym (append-nil m.log))
          ∙ recover-stands m [] (standing m [])
              (p ∙ replay-torn g (standing m []) [] (unfold read_rec in refl)) refl refl

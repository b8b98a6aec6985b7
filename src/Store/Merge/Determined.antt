-- ===== src/Store/Merge/Determined.antt =====
-- Whatever the timing of seals, merges and kills, the terminals are a function of the sealed runs.
use avalanche_s3_archival_no.Prelude.{
  ℕ, zero, suc, ◌≡◌, refl, sym, ap, ◌∙◌, ◌≤◌, arith, ◌⊎◌, inl, inr,
}
use avalanche_s3_archival_no.Prelude.{List, [], ◌∷◌, ◌++◌, some}
use avalanche_s3_archival_no.Prelude.{All}
use avalanche_s3_archival_no.Prelude.Bytes.{Bytes}
use avalanche_s3_archival_no.Store.Manifest.{RunRef, is_terminal}
use avalanche_s3_archival_no.Store.Merge.{Db, publishable}
use avalanche_s3_archival_no.Store.Merge.Settle.{settle, settle-append, settle-uncons}
use avalanche_s3_archival_no.Store.Merge.Alike.{SameRanges, settle-SameRanges}
use avalanche_s3_archival_no.Store.Merge.Span.{IsL0, IsTerminal}
use avalanche_s3_archival_no.Store.Merge.Reach.{Reach, Reach-Inv}
use native.Mathlib.Decide.{dec_le}

pub publishable-terminals :
    (ts rest : List RunRef) → All IsTerminal ts → All IsL0 rest → publishable (ts ++ rest) ≡ ts
unfolding publishable is_terminal
publishable-terminals [] [] h l = refl
publishable-terminals [] (r ∷ rest) h (l, a) = ground arith
publishable-terminals (t ∷ ts) rest (h, a) l = ground (arith, publishable-terminals ts rest a l)

module _ (t : ℕ) (root : Bytes) (artifact : Bytes → List RunRef → Bytes) where
  -- Of two counts of terminals cut off one sequence, the longer list continues the shorter one.
  settle-IsPrefix :
      (j k : ℕ) (p : Bytes) (hs ts rest us more : List RunRef)
      → j ≤ k
      → settle t artifact j p hs ≡ some (ts, rest)
      → settle t artifact k p hs ≡ some (us, more)
      → (zs : List RunRef) × (us ≡ ts ++ zs)
  settle-IsPrefix zero k p hs [] rest us more h e f = (us, refl)
  settle-IsPrefix zero k p hs (x ∷ ts) rest us more h e f = unfold settle in absurd (cc)
  settle-IsPrefix (suc j) zero p hs ts rest us more h e f = absurd (omega arith)
  settle-IsPrefix (suc j) (suc k) p hs ts rest us more h e f =
      let (g, q, m, vs, c, d, e', x) = settle-uncons t artifact j p hs ts rest e in
      let (g', q', m', ws, c', d', f', y) = settle-uncons t artifact k p hs us more f in
      let same_q : q' ≡ q = cc in
      let same_m : m' ≡ m = cc in
      let (zs, z) = settle-IsPrefix j k m.name q vs rest ws more (omega arith) e' (cc) in
      (
        zs,
        y
            ∙ ap (λ (r : RunRef). r ∷ ws) same_m
            ∙ ap (λ (r : List RunRef). m ∷ r) z
            ∙ ap (λ (r : List RunRef). r ++ zs) (sym x),
      )

  -- In every state that a node can come to, the live runs are the terminals of the greedy partition
  -- of its sealed runs, so many as have been merged, and behind them the sealed runs left over; the
  -- published set is exactly those terminals.
  pub publishable-settle :
      (hs : List RunRef) (d : Db)
      → Reach t root artifact hs d
      → (k : ℕ) × (rest : List RunRef) × (settle t artifact k root hs
          ≡ some (publishable d.runs, rest))
        × (d.runs ≡ publishable d.runs ++ rest)
  publishable-settle hs d r =
      let v = Reach-Inv t root artifact r in
      let e : publishable d.runs ≡ v.ts =
        rw v.live (publishable-terminals v.ts v.rest v.high v.low) in
      (v.k, v.rest, rw e v.settled, rw e v.live)

  -- Two builders of one chain, the second of which has sealed all that the first has and maybe
  -- more: the sealed runs have the same bounds in the same order, under whatever names. Whatever
  -- the timing of their merges and restarts, the published terminals of one continue those of the
  -- other, name by name. The content hash of a merged run reads the terminal before it and the
  -- ranges and rows of its inputs, not their names.
  pub publishable-determined :
      (hs more gs : List RunRef) (d e : Db)
      → ((p : Bytes) (g h : List RunRef) → SameRanges g h → artifact p g ≡ artifact p h)
      → SameRanges (hs ++ more) gs
      → Reach t root artifact hs d
      → Reach t root artifact gs e
      → ((zs : List RunRef) × (publishable e.runs ≡ publishable d.runs ++ zs))
        ⊎ ((zs : List RunRef) × (publishable d.runs ≡ publishable e.runs ++ zs))
  publishable-determined hs more gs d e unnamed same r s =
      let (j, rest, a, _) = publishable-settle hs d r in
      let (k, rest', b, _) = publishable-settle gs e s in
      let a' = settle-append t artifact j root hs more (publishable d.runs) rest a in
      let (left, a'') =
        settle-SameRanges t artifact unnamed j root (hs ++ more) gs (publishable d.runs)
          (rest ++ more) same a' in
      elim (dec_le j k) [
        | yes h ↦ inl (
            settle-IsPrefix j k root gs (publishable d.runs) left (publishable e.runs) rest' h a''
              b)
        | no h ↦ inr (
            settle-IsPrefix k j root gs (publishable e.runs) rest' (publishable d.runs) left
              (omega arith) b a'')
      ]

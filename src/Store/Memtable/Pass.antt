-- ===== src/Store/Memtable/Pass.antt =====
-- The replay over the records of a block: kept one after the other, and not committed where the
-- bytes break off before the end record is whole.
use avalanche_s3_archival_no.Prelude.{
  ℕ, zero, suc, ◌+◌, ◌^◌, ◌≤◌, ◌<◌, ◌≡◌, refl, sym, ap, ◌∙◌, arith,
}
use avalanche_s3_archival_no.Prelude.{
  List, [], ◌∷◌, ◌++◌, Option, none, some, length, length-append, append_assoc, append-nil,
}
use avalanche_s3_archival_no.Prelude.{inl, inr, All}
use avalanche_s3_archival_no.Prelude.Bytes.{Bytes}
use avalanche_s3_archival_no.Store.Memtable.{
  blk, hdr, itx, pvm, rcpt, tx, Kind, row, state_rec, post_rec, num_rec, set_rec, code_rec, end_rec,
  kind_byte, fam_byte, encode_rec, rec_header,
}
use avalanche_s3_archival_no.Store.Memtable.Replay.{
  Pending, Read, Action, stop, keep, block_end, action, kind_of, classify, Replay, consume, handle,
  replay, read_rec,
}
use avalanche_s3_archival_no.Store.Memtable.Records.{
  read_rec-encode_rec, read_rec-torn, append-cut, length-encode_rec,
}

pub record Rec : Type 0 where
  pub kind : Kind
  pub num : ℕ
  pub payload : Bytes

abbrev pub encoded : Rec → Bytes
encoded r = encode_rec r.kind r.num r.payload

abbrev pub encode_all : List Rec → Bytes
encode_all [] = []
encode_all (r ∷ rs) = encoded r ++ encode_all rs

abbrev pub kept : Action → Pending
kept (keep f) i = f i
kept stop i = none
kept (block_end n) i = none

abbrev pub pend_of : ℕ → Rec → Pending
pend_of off r = kept (action r.kind r.num r.payload (off + rec_header))

-- What the records are waiting to do, the first of them at an offset of the log.
abbrev pub pendings : ℕ → List Rec → List Pending
pendings off [] = []
pendings off (r ∷ rs) = pend_of off r ∷ pendings (off + length (encoded r)) rs

-- A record that the replay reads and keeps.
pub record IsRec (r : Rec) : Type 0 where
  pub num_fits : r.num < 2 ^ 64
  pub small : length r.payload ≤ 2 ^ 30
  pub keeps :
      (body : ℕ)
      → action r.kind r.num r.payload body ≡ keep (kept (action r.kind r.num r.payload body))

kind_of-kind_byte : (k : Kind) → kind_of (kind_byte k) ≡ some k
unfolding kind_of kind_byte fam_byte
kind_of-kind_byte (row blk) = refl
kind_of-kind_byte (row hdr) = refl
kind_of-kind_byte (row itx) = refl
kind_of-kind_byte (row pvm) = refl
kind_of-kind_byte (row rcpt) = refl
kind_of-kind_byte (row tx) = refl
kind_of-kind_byte state_rec = refl
kind_of-kind_byte post_rec = refl
kind_of-kind_byte num_rec = refl
kind_of-kind_byte set_rec = refl
kind_of-kind_byte code_rec = refl
kind_of-kind_byte end_rec = refl

pub classify-kind_byte :
    (k : Kind) (n : ℕ) (p : Bytes) (body : ℕ) → classify (kind_byte k) n p body ≡ action k n p body
unfolding classify
classify-kind_byte k n p body =
    ap (λ (o : Option Kind). elim o [ none ↦ stop | some j ↦ action j n p body ])
      (kind_of-kind_byte k)

abbrev pub at : Replay → Bytes → Replay
at s t = record s { rest = t }

-- The loop behind one record.
abbrev pub next : ℕ → Replay → Option (Option Replay) → Option Replay
next f s o = elim o [ none ↦ none | some none ↦ some s | some (some t) ↦ replay f t ]

-- One whole record that is read.
pub replay-step :
    (f : ℕ) (s : Replay) (k : Kind) (n : ℕ) (p t : Bytes)
    → n < 2 ^ 64
    → length p ≤ 2 ^ 30
    → replay (suc f) (at s (encode_rec k n p ++ t))
      ≡ next f (at s (encode_rec k n p ++ t)) (
          handle
            (record s { off = s.off + rec_header + length p; rest = t })
            n
            (action k n p (s.off + rec_header)))
unfolding replay consume
replay-step f s k n p t hn hp =
    let z : Replay = at s (encode_rec k n p ++ t) in
    ap (λ (o : Option Read). elim o [ none ↦ some z | some r ↦ next f z (consume z r) ])
      (read_rec-encode_rec k n p t hn hp)
    ∙ ap
        (λ (a : Action).
          next f z (handle (record s { off = s.off + rec_header + length p; rest = t }) n a))
        (classify-kind_byte k n p (s.off + rec_header))

-- A record that is not whole ends the replay.
pub replay-torn :
    (f : ℕ) (s : Replay) (t : Bytes) → read_rec t ≡ none → replay f (at s t) ≡ some (at s t)
unfolding replay
replay-torn zero s t h = refl
replay-torn (suc f) s t h =
    ap
      (λ (o : Option Read). elim o [
        | none ↦ some (at s t)
        | some r ↦ next f (at s t) (consume (at s t) r)
      ])
      h

abbrev one_more : Replay → Rec → Replay
one_more s r = record s {
  off = s.off + length (encoded r);
  pend = s.pend ++ (pend_of s.off r ∷ []);
}

abbrev pub after : Replay → List Rec → Replay
after s rs = record s { off = s.off + length (encode_all rs); pend = s.pend ++ pendings s.off rs }

replay-keep :
    (f : ℕ) (s : Replay) (r : Rec) (t : Bytes)
    → IsRec r
    → replay (suc f) (at s (encoded r ++ t)) ≡ replay f (at (one_more s r) t)
unfolding handle
replay-keep f s r t v =
    replay-step f s r.kind r.num r.payload t v.num_fits v.small
    ∙ (ap
          (λ (a : Action).
            next f (at s (encoded r ++ t))
              (handle (record s { off = s.off + rec_header + length r.payload; rest = t }) r.num a))
          (v.keeps (s.off + rec_header))
        ∙ ap
            (λ (o : ℕ).
              replay f (record s { off = o; pend = s.pend ++ (pend_of s.off r ∷ []); rest = t }))
            (omega (arith, length-encode_rec r.kind r.num r.payload)))

moved :
    (s : Replay) (o q : ℕ) (fs gs : List Pending) (t : Bytes) (f : ℕ)
    → o ≡ q
    → fs ≡ gs
    → replay f (record s { off = o; pend = fs; rest = t })
      ≡ replay f (record s { off = q; pend = gs; rest = t })
moved s o q fs gs t f a b = rw (a, b) refl

-- Whole records are kept, with fuel left for what follows.
pub replay-records :
    (rs : List Rec) (s : Replay) (t : Bytes) (f : ℕ)
    → All IsRec rs
    → length (encode_all rs ++ t) < f
    → (g : ℕ) × (length t < g)
      × (replay f (at s (encode_all rs ++ t)) ≡ replay g (at (after s rs) t))
replay-records [] s t f a h = (
  f,
  h,
  moved s s.off (s.off + 0) s.pend (s.pend ++ []) t f (omega arith) (sym (append-nil s.pend)),
)
replay-records (r ∷ rs) s t zero a h = absurd (omega arith)
replay-records (r ∷ rs) s t (suc f) (v, a) h =
    let shape : encode_all (r ∷ rs) ++ t ≡ encoded r ++ (encode_all rs ++ t) = simp append_assoc in
    let n = length-encode_rec r.kind r.num r.payload in
    let fuel : length (encode_all rs ++ t) < f = omega (
      arith,
      n,
      ap (λ (x : Bytes). length x) shape,
      length-append (encoded r) (encode_all rs ++ t),
    ) in
    let (g, left, e) = replay-records rs (one_more s r) t f a fuel in
    (
      g,
      left,
      ap (λ (x : Bytes). replay (suc f) (at s x)) shape
          ∙ (replay-keep f s r (encode_all rs ++ t) v
              ∙ (e
                  ∙ moved s (s.off + length (encoded r) + length (encode_all rs))
                      (s.off + length (encode_all (r ∷ rs)))
                      ((s.pend ++ (pend_of s.off r ∷ []))
                        ++ pendings (s.off + length (encoded r)) rs)
                      (s.pend ++ pendings s.off (r ∷ rs)) t g
                      (omega (arith, length-append (encoded r) (encode_all rs)))
                      (append_assoc s.pend (pend_of s.off r ∷ [])
                        (pendings (s.off + length (encoded r)) rs)))),
    )

-- A strict front of a block's bytes changes neither the memtable nor the end of the good part.
pub replay-cut :
    (rs : List Rec) (n : ℕ) (p : Bytes) (s : Replay) (t u : Bytes) (f : ℕ)
    → All IsRec rs
    → n < 2 ^ 64
    → length p ≤ 2 ^ 30
    → t ++ u ≡ encode_all rs ++ encode_rec end_rec n p
    → length t < length (encode_all rs ++ encode_rec end_rec n p)
    → (z : Replay) × (replay f (at s t) ≡ some z) × (z.mem ≡ s.mem) × (z.good ≡ s.good)
replay-cut [] n p s t u f a hn hp e h =
    (at s t, replay-torn f s t (read_rec-torn end_rec n p t u hn hp (sym e) h), refl, refl)
replay-cut (r ∷ rs) n p s t u zero a hn hp e h = (at s t, unfold replay in refl, refl, refl)
replay-cut (r ∷ rs) n p s t u (suc g) (v, a) hn hp e h =
    let more : Bytes = encode_all rs ++ encode_rec end_rec n p in
    elim (append-cut t u (encoded r) more (e ∙ simp append_assoc)) [
      | inr (w, x, short) ↦ (
        at s t,
        replay-torn (suc g) s t
            (read_rec-torn r.kind r.num r.payload t w v.num_fits v.small x short),
        refl,
        refl,
      )
      | inl (w, x, y) ↦
          let fewer : length w < length more = omega (
            arith,
            ap (λ (q : Bytes). length q) x,
            length-append (encoded r) w,
            length-append (encoded r) more,
            ap (λ (q : Bytes). length q)
                (append_assoc (encoded r) (encode_all rs) (encode_rec end_rec n p)),
          ) in
          let (z, b, c, d) = replay-cut rs n p (one_more s r) w u g a hn hp y fewer in
          (z, ap (λ (q : Bytes). replay (suc g) (at s q)) x ∙ (replay-keep g s r w v ∙ b), c, d)
    ]

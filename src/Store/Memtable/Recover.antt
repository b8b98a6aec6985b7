-- ===== src/Store/Memtable/Recover.antt =====
-- The window log against `recover`: what was landed comes back, and a torn tail is cut.
use avalanche_s3_archival_no.Prelude.{ℕ, zero, suc, ◌+◌, ◌^◌, ◌≤◌, ◌<◌, ◌≡◌, ap, ◌∙◌, arith, add64}
use avalanche_s3_archival_no.Prelude.{
  List, [], ◌∷◌, ◌++◌, Option, none, some, length, length-append, All, append_assoc,
}
use avalanche_s3_archival_no.Prelude.Fail.{◌>>=◌}
use avalanche_s3_archival_no.Prelude.Bytes.{Bytes, be, be_value-be, length-be}
use avalanche_s3_archival_no.Store.Memtable.{
  end_rec, Index, Memtable, write, encode_rec, rec_header, pad_chains,
}
use avalanche_s3_archival_no.Store.Memtable.Write.{end_block}
use avalanche_s3_archival_no.Store.Memtable.Replay.{
  commit, Action, block_end, action, started_at, Replay, committed, end_of_block, handle, replay,
}
use avalanche_s3_archival_no.Store.Memtable.Records.{length-encode_rec}
use avalanche_s3_archival_no.Store.Memtable.Pass.{
  Rec, encode_all, pendings, IsRec, at, next, after, replay-step, replay-records,
}
use avalanche_s3_archival_no.Store.Memtable.Emits.{commit-append}

pub action-end : (h n body : ℕ) → n < 2 ^ 64 → action end_rec h (be 8 n) body ≡ block_end n
unfolding action
action-end h n body hn = ground (arith, length-be 8 n, be_value-be 8 n)

end_of_block-commit :
    (s : Replay) (h n : ℕ) (i : Index)
    → s.mem.base_height ≤ h
    → commit (s.pend ++ ((λ j. some (pad_chains j n)) ∷ [])) s.mem.idx ≡ some i
    → end_of_block s h n ≡ some (committed s h n i)
unfolding end_of_block
end_of_block-commit s h n i hb c = ground (arith, c)

-- The end record commits the block.
replay-end :
    (f : ℕ) (s : Replay) (h n : ℕ) (t : Bytes) (i : Index)
    → h < 2 ^ 64
    → n < 2 ^ 64
    → s.mem.base_height ≤ h
    → commit (s.pend ++ ((λ j. some (pad_chains j n)) ∷ [])) s.mem.idx ≡ some i
    → replay (suc f) (at s (encode_rec end_rec h (be 8 n) ++ t))
      ≡ replay f
          (committed (record s { off = s.off + rec_header + length (be 8 n); rest = t }) h n i)
unfolding handle
replay-end f s h n t i hh hn hb c =
    let z : Replay = at s (encode_rec end_rec h (be 8 n) ++ t) in
    let u : Replay = record s { off = s.off + rec_header + length (be 8 n); rest = t } in
    replay-step f s end_rec h (be 8 n) t hh (omega (arith, length-be 8 n))
    ∙ (ap (λ (a : Action). next f z (handle u h a)) (action-end h n (s.off + rec_header) hn)
        ∙ ap (λ (o : Option Replay). next f z (elim o [ none ↦ none | some r ↦ some (some r) ]))
            (end_of_block-commit u h n i hb c))

-- The replay where it has just committed all of a memtable.
abbrev pub standing : Memtable → Bytes → Replay
standing m t = record {
  mem = record m { log = [] };
  pend = [];
  off = length m.log;
  good = length m.log;
  rest = t;
}

abbrev pub opened_for : Memtable → ℕ → Memtable
opened_for m h = record (started_at m h) { next_height = h }

-- A block's records behind a memtable, with the end record that closes them.
abbrev pub block_bytes : List Rec → ℕ → ℕ → Bytes
block_bytes rs h tail_at = encode_all rs ++ encode_rec end_rec h (be 8 (add64 tail_at 1))

abbrev pub landed : Memtable → List Rec → Index → ℕ → ℕ → Memtable
landed m rs i h tail_at =
    end_block (record (opened_for m h) { log = m.log ++ encode_all rs; idx = i }) h tail_at

pub pass_block :
    (m : Memtable) (rs : List Rec) (i : Index) (h tail_at : ℕ) (t : Bytes) (f : ℕ)
    → h < 2 ^ 64
    → m.base_height ≤ h
    → All IsRec rs
    → commit (pendings (length m.log) rs) m.idx ≡ some i
    → length (block_bytes rs h tail_at ++ t) < f
    → (g : ℕ) × (length t < g)
      × (replay f (standing m (block_bytes rs h tail_at ++ t))
          ≡ replay g (standing (landed m rs i h tail_at) t))
unfolding end_block write committed started_at commit
pass_block m rs i h tail_at t f hh hb a c hf =
    let n : ℕ = add64 tail_at 1 in
    let e : Bytes = encode_rec end_rec h (be 8 n) in
    let shape : block_bytes rs h tail_at ++ t ≡ encode_all rs ++ (e ++ t) =
      append_assoc (encode_all rs) e t in
    let s : Replay = standing m [] in
    let (g, left, p) =
      replay-records rs s (e ++ t) f a (omega (arith, ap (λ (x : Bytes). length x) shape)) in
    elim g
        as (λ g.
          length (e ++ t) < g
          → replay f (at s (encode_all rs ++ (e ++ t))) ≡ replay g (at (after s rs) (e ++ t))
          → (k : ℕ) × (length t < k)
            × (replay f (standing m (block_bytes rs h tail_at ++ t))
                ≡ replay k (standing (landed m rs i h tail_at) t))) [
                  | zero ↦ λ lt q. absurd (omega arith)
                  | suc k ↦ λ lt q.
                      let made : commit
                            (pendings (length m.log) rs ++ ((λ j. some (pad_chains j n)) ∷ []))
                            m.idx
                          ≡ some (pad_chains i n) =
                        commit-append (pendings (length m.log) rs)
                          ((λ j. some (pad_chains j n)) ∷ []) m.idx
                        ∙ ap
                            (λ (o : Option Index). o >>= commit ((λ j. some (pad_chains j n)) ∷ []))
                            c in
                      let size : length m.log
                            + length (encode_all rs)
                            + rec_header
                            + length (be 8 n)
                          ≡ length ((m.log ++ encode_all rs) ++ e) =
                        omega (
                          arith,
                          length-append (m.log ++ encode_all rs) e,
                          length-append m.log (encode_all rs),
                          length-encode_rec end_rec h (be 8 n),
                        ) in
                      (
                        k,
                        omega (arith, length-append e t, length-encode_rec end_rec h (be 8 n)),
                        ap (λ (x : Bytes). replay f (at s x)) shape
                            ∙ (q
                                ∙ (replay-end k (after s rs) h n t (pad_chains i n) hh (omega arith)
                                      hb made
                                    ∙ ap
                                        (λ (o : ℕ). replay k (record {
                                          mem = record (landed m rs i h tail_at) { log = [] };
                                          pend = [];
                                          off = o;
                                          good = o;
                                          rest = t;
                                        }))
                                        size)),
                      )
                ]
      left p

-- ===== src/Store/Postings/InRun.antt =====
-- `ScanChunks` on a run: the gate, the seek to the prefix, the loop.
use avalanche_s3_archival_no.Prelude.{ℕ, ◌≡◌, refl, sym, ap, ◌∙◌, arith, if◌then◌else◌}
use avalanche_s3_archival_no.Prelude.{
  Bool, true, false, List, [], ◌∷◌, ◌++◌, none, map, All, ◌⊎◌, inl, inr, Bool-cases,
}
use avalanche_s3_archival_no.Prelude.Bytes.{Bytes, blt, has_prefix, be}
use avalanche_s3_archival_no.Store.Keys.{suffixed}
use avalanche_s3_archival_no.Store.Run.{Section, lookup_section, Row, Run}
use avalanche_s3_archival_no.Store.Memtable.{Posting}
use avalanche_s3_archival_no.Store.Postings.{scanned, scan_loop, rows_from, gated_off, scan_chunks}
use avalanche_s3_archival_no.Store.Postings.Scan.{Chunk, row_of, all_entries, within, Chunked}
use avalanche_s3_archival_no.Store.Postings.Loop.{
  IsEnd, scan_loop-held, has_prefix-more, within-nil,
}

rows_from-below :
    (key : Bytes) (before rows : List Row)
    → All (λ (r : Row). blt r.key key ≡ true) before
    → rows_from key (before ++ rows) ≡ rows_from key rows
unfolding rows_from
rows_from-below key [] rows a = refl
rows_from-below key (r ∷ before) rows (h, a) = ground (arith, h, rows_from-below key before rows a)

rows_from-all :
    (key : Bytes) (rows : List Row)
    → All (λ (r : Row). blt r.key key ≡ false) rows
    → rows_from key rows ≡ rows
unfolding rows_from
rows_from-all key [] a = refl
rows_from-all key (r ∷ rows) (h, a) = ground (arith, h, rows_from-all key rows a)

-- A section in order, seen from a prefix: rows below it, the chunks under it, and rows from it on
-- that begin outside the scan.
pub record SeenFrom (prefix : Bytes) (cs : List Chunk) (rows : List Row) : Type 0 where
  pub before : List Row
  pub rest : List Row
  pub is : rows ≡ before ++ (map row_of cs ++ rest)
  pub below : All (λ (r : Row). blt r.key prefix ≡ true) before
  pub under : All (λ (c : Chunk). has_prefix c.group prefix ≡ true) cs
  pub above : All (λ (r : Row). blt r.key prefix ≡ false) rest
  pub ends : IsEnd prefix rest

blt-under : (k p : Bytes) → has_prefix k p ≡ true → blt k p ≡ false
unfolding has_prefix blt
blt-under [] [] h = refl
blt-under (x ∷ k) [] h = refl
blt-under [] (q ∷ p) h = absurd (cc)
blt-under (x ∷ k) (q ∷ p) h = ground (arith, h, blt-under k p)

chunks-above :
    (prefix : Bytes) (cs : List Chunk) (rest : List Row)
    → All (λ (c : Chunk). has_prefix c.group prefix ≡ true) cs
    → All (λ (r : Row). blt r.key prefix ≡ false) rest
    → All (λ (r : Row). blt r.key prefix ≡ false) (map row_of cs ++ rest)
unfolding suffixed
chunks-above prefix [] rest u a = a
chunks-above prefix (c ∷ cs) rest (h, u) a = (
  blt-under (row_of c).key prefix (has_prefix-more c.group prefix (be 8 c.first) h).0,
  chunks-above prefix cs rest u a,
)

module _ (may_have : Run → Section → Bytes → Bool) (r : Run) (prefix : Bytes) (lo hi : ℕ) where
  scan_chunks-off :
      gated_off may_have r prefix ≡ true → scan_chunks may_have r prefix lo hi ≡ scanned []
  unfolding scan_chunks
  scan_chunks-off e =
      ap
        (λ (b : Bool).
          if b
          then scanned []
          else scan_loop prefix lo hi (rows_from prefix (r.rows lookup_section)) none [])
        e

  scan_chunks-on :
      gated_off may_have r prefix ≡ false
      → scan_chunks may_have r prefix lo hi
        ≡ scan_loop prefix lo hi (rows_from prefix (r.rows lookup_section)) none []
  unfolding scan_chunks
  scan_chunks-on e =
      ap
        (λ (b : Bool).
          if b
          then scanned []
          else scan_loop prefix lo hi (rows_from prefix (r.rows lookup_section)) none [])
        e

  -- The scan of a run answers, in order, the entries with a TxNum in the range that the chunks
  -- under the prefix hold, though it decodes only the chunks that can have one; for well-formed
  -- chunks in a section in order, and a bloom gate that turns away no prefix that has chunks.
  pub scan_chunks-within :
      (cs : List Chunk)
      → Chunked cs
      → SeenFrom prefix cs (r.rows lookup_section)
      → (gated_off may_have r prefix ≡ false) ⊎ (cs ≡ [])
      → scan_chunks may_have r prefix lo hi ≡ scanned (within lo hi (all_entries cs))
  scan_chunks-within cs h s gate = elim (Bool-cases (gated_off may_have r prefix)) [
    | inr on ↦
        scan_chunks-on on
        ∙ ap (λ (l : List Row). scan_loop prefix lo hi l none [])
            (ap (λ (l : List Row). rows_from prefix l) s.is
              ∙ rows_from-below prefix s.before (map row_of cs ++ s.rest) s.below
              ∙ rows_from-all prefix (map row_of cs ++ s.rest)
                  (chunks-above prefix cs s.rest s.under s.above))
        ∙ scan_loop-held prefix lo hi none cs s.rest [] h s.under s.ends
    | inl off ↦ elim gate [
      | inl on ↦ absurd (cc)
      | inr empty ↦
          scan_chunks-off off
          ∙ ap (λ (es : List Posting). scanned es) (sym (within-nil prefix lo hi))
          ∙ ap (λ (l : List Chunk). scanned (within lo hi (all_entries l))) (sym empty)
    ]
  ]

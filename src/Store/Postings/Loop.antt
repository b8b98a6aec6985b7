-- ===== src/Store/Postings/Loop.antt =====
-- The loop of `ScanChunks` over the chunks of a prefix.
use avalanche_s3_archival_no.Prelude.{
  ℕ, ◌^◌, ◌≡◌, ◌<◌, ◌≤◌, refl, sym, ap, ◌∙◌, arith, ltb, leb, if◌then◌else◌,
}
use avalanche_s3_archival_no.Prelude.{
  Bool, true, false, ◌&&◌, List, [], ◌∷◌, ◌++◌, append-nil, append_assoc, Option, none, some,
  length, map, All, inl, inr, Bool-cases, length-append,
}
use avalanche_s3_archival_no.Prelude.Bytes.{Bytes, beq, has_prefix, be, length-be}
use avalanche_s3_archival_no.Store.Keys.{suffixed, txnum_of}
use avalanche_s3_archival_no.Store.Keys.Suffix.{txnum_of-suffixed}
use avalanche_s3_archival_no.Store.Run.{Row}
use avalanche_s3_archival_no.Store.Memtable.{Posting}
use avalanche_s3_archival_no.Store.Postings.{
  group_of, Scanned, scanned, failed, crashed, decode_pend, is_past, same_group, scan_loop,
}
use avalanche_s3_archival_no.Store.Postings.Scan.{
  Chunk, nums_of, row_of, entries, all_entries, within, within-append, IsChunk, Ends, Chunked,
  below-within, above-within, group_of-suffixed, decode_pend-row_of,
}

pub has_prefix-more :
    (g p x : Bytes) → has_prefix g p ≡ true → (has_prefix (g ++ x) p ≡ true) × (length p ≤ length g)
unfolding has_prefix
has_prefix-more g [] x h = (refl, omega arith)
has_prefix-more [] (b ∷ p) x h = absurd (cc)
has_prefix-more (a ∷ g) (b ∷ p) x h =
    let inner : has_prefix g p ≡ true = ground (arith, h) in
    let (more, long) = has_prefix-more g p x inner in (ground (arith, h, more), omega (arith, long))

-- Where the loop stops: at the end of the section or at a key outside the scan.
abbrev pub IsEnd : Bytes → List Row → Type 0
IsEnd prefix [] = Unit
IsEnd prefix (r ∷ rs) = is_past prefix r.key ≡ true

module _ (prefix : Bytes) (lo hi : ℕ) where
  abbrev IsUnder : Chunk → Type 0
  IsUnder c = has_prefix c.group prefix ≡ true

  row-here : (c : Chunk) → IsUnder c → is_past prefix (row_of c).key ≡ false
  unfolding suffixed
  row-here c u =
      let (more, long) = has_prefix-more c.group prefix (be 8 c.first) u in
      ground (arith, more, length-append c.group (be 8 c.first), length-be 8 c.first, long)

  abbrev went_on : Row → List Row → ℕ → Scanned → Scanned
  went_on kv rest first kept = elim kept [
    | failed ↦ failed
    | crashed ↦ crashed
    | scanned more ↦ scan_loop prefix lo hi rest (if ltb hi first then none else some kv) more
  ]

  abbrev stepped : Row → List Row → Option Row → List Posting → Option ℕ → Scanned
  stepped kv rest pend out o = elim o [
    | none ↦ crashed
    | some first ↦
        went_on kv rest first
          (if same_group pend kv && leb first lo then scanned out else decode_pend lo hi pend out)
  ]

  scan_loop-row :
      (c : Chunk) (rest : List Row) (pend : Option Row) (out kept : List Posting)
      → IsUnder c
      → c.first < 2 ^ 64
      → (if same_group pend (row_of c) && leb c.first lo
          then scanned out
          else decode_pend lo hi pend out)
        ≡ scanned kept
      → scan_loop prefix lo hi (row_of c ∷ rest) pend out
        ≡ scan_loop prefix lo hi rest (if ltb hi c.first then none else some (row_of c)) kept
  unfolding scan_loop
  scan_loop-row c rest pend out kept u fits e =
      let kv = row_of c in
      ap
        (λ (b : Bool).
          if b then decode_pend lo hi pend out else stepped kv rest pend out (txnum_of kv.key))
        (row-here c u)
      ∙ ap (stepped kv rest pend out) (txnum_of-suffixed c.group c.first fits)
      ∙ ap (went_on kv rest c.first) e

  scan_loop-end :
      (rest : List Row) (pend : Option Row) (out : List Posting)
      → IsEnd prefix rest
      → scan_loop prefix lo hi rest pend out ≡ decode_pend lo hi pend out
  unfolding scan_loop
  scan_loop-end [] pend out e = refl
  scan_loop-end (r ∷ rs) pend out e = ground (arith, e)

  decode_pend-none : (out : List Posting) → decode_pend lo hi none out ≡ scanned out
  unfolding decode_pend
  decode_pend-none out = refl

  same_group-rows : (c d : Chunk) → same_group (some (row_of c)) (row_of d) ≡ beq c.group d.group
  same_group-rows c d =
      ap (λ (g : Bytes). beq g (group_of (row_of d).key)) (group_of-suffixed c.group c.first)
      ∙ ap (beq c.group) (group_of-suffixed d.group d.first)

  pub within-nil : within lo hi [] ≡ []
  unfolding within
  within-nil = refl

  late-nothing : (c : Chunk) → IsChunk c → hi < c.first → within lo hi (entries c) ≡ []
  late-nothing c h late =
      above-within lo hi c.first c.group (nums_of c) c.pay late (omega arith, h.rising)

  all_below :
      (at : ℕ) (ns : List ℕ) → at ≤ lo → All (λ (t : ℕ). t < at) ns → All (λ (t : ℕ). t < lo) ns
  all_below at [] le a = tt
  all_below at (n ∷ ns) le (h, a) = (omega arith, all_below at ns le a)

  skipped-nothing :
      (c d : Chunk)
      → Ends c d
      → (same_group (some (row_of c)) (row_of d) && leb d.first lo) ≡ true
      → within lo hi (entries c) ≡ []
  skipped-nothing c d (inl other) skip =
      let same = same_group-rows c d in absurd (ground (arith, skip, same, other))
  skipped-nothing c d (inr before) skip =
      let low : d.first ≤ lo = ground (arith, skip) in
      below-within lo hi c.group (nums_of c) c.pay (all_below d.first (nums_of c) low before)

  -- The row that is pending when the next one is there: decoded, or left out since it has nothing.
  kept_of :
      (c d : Chunk) (out : List Posting)
      → IsChunk c
      → Ends c d
      → (if same_group (some (row_of c)) (row_of d) && leb d.first lo
          then scanned out
          else decode_pend lo hi (some (row_of c)) out)
        ≡ scanned (out ++ within lo hi (entries c))
  kept_of c d out h ends =
      elim (Bool-cases (same_group (some (row_of c)) (row_of d) && leb d.first lo)) [
        | inr decode ↦
            ap (λ (b : Bool). if b then scanned out else decode_pend lo hi (some (row_of c)) out)
              decode
            ∙ decode_pend-row_of c h lo hi out
        | inl skip ↦
            ap (λ (b : Bool). if b then scanned out else decode_pend lo hi (some (row_of c)) out)
              skip
            ∙ ap (λ (es : List Posting). scanned es) (sym (append-nil out))
            ∙ ap (λ (es : List Posting). scanned (out ++ es)) (sym (skipped-nothing c d ends skip))
      ]

  abbrev answered : List Posting → List Chunk → Scanned
  answered out cs = scanned (out ++ within lo hi (all_entries cs))

  after_row :
      (d : Chunk) (cs : List Chunk) (rest : List Row) (out : List Posting)
      → IsChunk d
      → scan_loop prefix lo hi (map row_of cs ++ rest) none out ≡ answered out cs
      → scan_loop prefix lo hi (map row_of cs ++ rest) (some (row_of d)) out ≡ answered out (d ∷ cs)
      → scan_loop prefix lo hi
          (map row_of cs ++ rest)
          (if ltb hi d.first then none else some (row_of d))
          out
        ≡ answered out (d ∷ cs)
  after_row d cs rest out h passed held = elim (Bool-cases (ltb hi d.first)) [
    | inl late ↦
        let nothing = late-nothing d h (ground (arith, late)) in
        ap
          (λ (b : Bool).
            scan_loop prefix lo hi (map row_of cs ++ rest) (if b then none else some (row_of d))
              out)
          late
        ∙ passed
        ∙ ap (λ (es : List Posting). scanned (out ++ (es ++ within lo hi (all_entries cs))))
            (sym nothing)
        ∙ ap (λ (es : List Posting). scanned (out ++ es))
            (sym (within-append lo hi (entries d) (all_entries cs)))
    | inr early ↦
        ap
          (λ (b : Bool).
            scan_loop prefix lo hi (map row_of cs ++ rest) (if b then none else some (row_of d))
              out)
          early
        ∙ held
  ]

  -- The chunk of the row that is pending, and those to come.
  abbrev from_held : Option Chunk → List Chunk → List Chunk
  from_held none cs = cs
  from_held (some c) cs = c ∷ cs

  abbrev pending : Option Chunk → Option Row
  pending none = none
  pending (some c) = some (row_of c)

  first-IsChunk : (d : Chunk) (cs : List Chunk) → Chunked (d ∷ cs) → IsChunk d × Chunked cs
  first-IsChunk d [] h = (h, tt)
  first-IsChunk d (e ∷ cs) (h, ends, more) = (h, more)

  pub scan_loop-held :
      (held : Option Chunk) (cs : List Chunk) (rest : List Row) (out : List Posting)
      → Chunked (from_held held cs)
      → All IsUnder cs
      → IsEnd prefix rest
      → scan_loop prefix lo hi (map row_of cs ++ rest) (pending held) out
        ≡ answered out (from_held held cs)
  scan_loop-held none [] rest out h u e =
      scan_loop-end rest none out e
      ∙ decode_pend-none out
      ∙ ap (λ (es : List Posting). scanned es) (sym (append-nil out))
      ∙ ap (λ (es : List Posting). scanned (out ++ es)) (sym (within-nil))
  scan_loop-held (some c) [] rest out h u e =
      scan_loop-end rest (some (row_of c)) out e
      ∙ decode_pend-row_of c h lo hi out
      ∙ ap (λ (es : List Posting). scanned (out ++ within lo hi es)) (sym (append-nil (entries c)))
  scan_loop-held none (d ∷ cs) rest out h (u, us) e =
      let (here, later) = first-IsChunk d cs h in
      scan_loop-row d (map row_of cs ++ rest) none out out u here.fits.0 (decode_pend-none out)
      ∙ after_row d cs rest out here (scan_loop-held none cs rest out later us e)
          (scan_loop-held (some d) cs rest out h us e)
  scan_loop-held (some c) (d ∷ cs) rest out (hc, ends, h) (u, us) e =
      let (here, later) = first-IsChunk d cs h in
      let more = out ++ within lo hi (entries c) in
      scan_loop-row d (map row_of cs ++ rest) (some (row_of c)) out more u here.fits.0
        (kept_of c d out hc ends)
      ∙ after_row d cs rest more here (scan_loop-held none cs rest more later us e)
          (scan_loop-held (some d) cs rest more h us e)
      ∙ ap (λ (es : List Posting). scanned es)
          (append_assoc out (within lo hi (entries c)) (within lo hi (all_entries (d ∷ cs))))
      ∙ ap (λ (es : List Posting). scanned (out ++ es))
          (sym (within-append lo hi (entries c) (all_entries (d ∷ cs))))

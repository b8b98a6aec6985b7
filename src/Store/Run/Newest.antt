-- ===== src/Store/Run/Newest.antt =====
-- The newest row of a run under a prefix, against the history that the rows hold.
use avalanche_s3_archival_no.Prelude.{
  ℕ, ◌+◌, ◌^◌, ◌<◌, ◌≡◌, refl, sym, ap, ◌∙◌, arith, ◌==◌, leb, add64, if◌then◌else◌,
}
use avalanche_s3_archival_no.Prelude.{
  Bool, true, false, not, ◌||◌, List, [], ◌∷◌, Option, none, some, length, take, length-append, All,
  ◌⊎◌, inl, inr, Bool-cases, Option-cases,
}
use avalanche_s3_archival_no.Prelude.Bytes.{
  Bytes, beq, blt, has_prefix, has_prefix-append, be, length-be,
}
use avalanche_s3_archival_no.Store.Keys.{suffixed, txnum_of}
use avalanche_s3_archival_no.Store.Keys.Suffix.{txnum_of-suffixed, blt-suffixed}
use avalanche_s3_archival_no.Store.Memtable.{MemVal}
use avalanche_s3_archival_no.Store.Memtable.Read.{last_at}
use avalanche_s3_archival_no.Store.Run.{Section, Row, Run, seek_lt, latest}
use avalanche_s3_archival_no.Store.Run.Order.{
  Above, Sorted, blt_trans, blt_irrefl, blt-outside, take-outside, take-inside,
}

module _ (prefix : Bytes) where
  -- A row is under the prefix, with a TxNum behind it, or not at all.
  abbrev pub IsKeyed : Row → Type 0
  IsKeyed r =
      ((n : ℕ) × (n < 2 ^ 64) × (r.key ≡ suffixed prefix n)) ⊎ (has_prefix r.key prefix ≡ false)

  -- What a table holds under the prefix.
  abbrev pub mem_val : Row → Option MemVal
  mem_val r = elim (txnum_of r.key) [
    | none ↦ none
    | some n ↦ some (record { txnum = n; val = r.val })
  ]

  unfoldable pub history_of : List Row → List MemVal
  history_of [] = []
  history_of (r ∷ rs) =
      let rest = history_of rs in
      if has_prefix r.key prefix then elim (mem_val r) [ none ↦ rest | some e ↦ e ∷ rest ] else rest

  -- What `Latest` makes of the row that it came to.
  abbrev pub picked : Option Row → Option MemVal
  picked none = none
  picked (some kv) =
      if not (length kv.key == length prefix + 8) || not (beq (take (length prefix) kv.key) prefix)
      then none
      else mem_val kv

  picked-inside :
      (r : Row) (n : ℕ)
      → n < 2 ^ 64
      → r.key ≡ suffixed prefix n
      → picked (some r) ≡ some (record { txnum = n; val = r.val })
  unfolding suffixed
  picked-inside r n lt e =
      let size : length r.key ≡ length prefix + 8 =
        omega
          (arith, ap (λ (k : Bytes). length k) e, length-append prefix (be 8 n), length-be 8 n) in
      let here : beq (take (length prefix) r.key) prefix ≡ true =
        ap (λ (k : Bytes). beq (take (length prefix) k) prefix) e ∙ take-inside prefix (be 8 n) in
      let num : txnum_of r.key ≡ some n = ap txnum_of e ∙ txnum_of-suffixed prefix n lt in
      ground (arith, size, here, num)

  picked-outside : (r : Row) → has_prefix r.key prefix ≡ false → picked (some r) ≡ none
  picked-outside r h = ground (arith, take-outside r.key prefix)

  history_of-inside :
      (r : Row) (rs : List Row) (n : ℕ)
      → n < 2 ^ 64
      → r.key ≡ suffixed prefix n
      → history_of (r ∷ rs) ≡ record { txnum = n; val = r.val } ∷ history_of rs
  unfolding history_of suffixed
  history_of-inside r rs n lt e =
      let here : has_prefix r.key prefix ≡ true =
        ap (λ (k : Bytes). has_prefix k prefix) e ∙ has_prefix-append prefix (be 8 n) in
      let num : txnum_of r.key ≡ some n = ap txnum_of e ∙ txnum_of-suffixed prefix n lt in
      ground (arith, here, num)

  history_of-outside :
      (r : Row) (rs : List Row)
      → has_prefix r.key prefix ≡ false
      → history_of (r ∷ rs) ≡ history_of rs
  unfolding history_of
  history_of-outside r rs h = ground (arith, h)

  module _ (key : Bytes) (r : Row) (rs : List Row) where
    seek_lt-over : blt r.key key ≡ false → seek_lt key (r ∷ rs) ≡ none
    unfolding seek_lt
    seek_lt-over h = ground (arith, h)

    seek_lt-last : blt r.key key ≡ true → seek_lt key rs ≡ none → seek_lt key (r ∷ rs) ≡ some r
    unfolding seek_lt
    seek_lt-last h e = ground (arith, h, e)

    seek_lt-later :
        (y : Row) → blt r.key key ≡ true → seek_lt key rs ≡ some y → seek_lt key (r ∷ rs) ≡ some y
    unfolding seek_lt
    seek_lt-later y h e = ground (arith, h, e)

  seek_lt-nil : (key : Bytes) → seek_lt key [] ≡ none
  unfolding seek_lt
  seek_lt-nil key = refl

  seek_lt-All :
      (P : Row → Type 0) (key : Bytes) (rs : List Row) (x : Row)
      → All P rs
      → seek_lt key rs ≡ some x
      → P x × (blt x.key key ≡ true)
  seek_lt-All P key [] x a e = let nothing = seek_lt-nil key in absurd (cc)
  seek_lt-All P key (r ∷ rs) x (p, a) e = elim (Bool-cases (blt r.key key)) [
    | inr over ↦ let f = seek_lt-over key r rs over in absurd (cc)
    | inl under ↦ elim (Option-cases (seek_lt key rs)) [
      | inl n ↦
          let f = seek_lt-last key r rs under n in let same : r ≡ x = cc in rw (sym same) (p, under)
      | inr (y, n) ↦
          let f = seek_lt-later key r rs y under n in
          let same : y ≡ x = cc in rw (sym same) (seek_lt-All P key rs y a n)
    ]
  ]

  seek_lt-none :
      (key : Bytes) (r : Row) (rs : List Row)
      → blt r.key key ≡ false
      → All (Above r) rs
      → seek_lt key rs ≡ none
  seek_lt-none key r [] h a = seek_lt-nil key
  seek_lt-none key r (x ∷ rs) h (p, a) = elim (Bool-cases (blt x.key key)) [
    | inr over ↦ seek_lt-over key x rs over
    | inl under ↦ let low = blt_trans r.key x.key key p under in absurd (cc)
  ]

  module _ (at : ℕ) (fits : at + 1 < 2 ^ 64) where
    abbrev bound : Bytes
    bound = suffixed prefix (add64 at 1)

    below-bound :
        (r : Row) (n : ℕ) → n < 2 ^ 64 → r.key ≡ suffixed prefix n → blt r.key bound ≡ leb n at
    below-bound r n lt e =
        let top : add64 at 1 ≡ at + 1 = omega arith in
        ap (λ (k : Bytes). blt k bound) e
        ∙ blt-suffixed prefix n (add64 at 1) lt (omega (arith, top))
        ∙ ground (arith, top)

    -- A row outside the prefix does not lie between two rows under it.
    no_between :
        (r y : Row) (n : ℕ)
        → r.key ≡ suffixed prefix n
        → has_prefix y.key prefix ≡ false
        → blt r.key y.key ≡ true
        → blt y.key bound ≡ true
        → ⊥
    unfolding suffixed
    no_between r y n e out lo hi =
        let back = blt-outside y.key prefix (be 8 (add64 at 1)) (be 8 n) out in
        let under : blt y.key r.key ≡ true = cc in
        let loop = blt_trans r.key y.key r.key lo under in
        let no_loop = blt_irrefl r.key in absurd (cc)

    last_at-over :
        (e : MemVal) (h : List MemVal) → leb e.txnum at ≡ false → last_at (e ∷ h) at ≡ none
    unfolding last_at
    last_at-over e h o = ground (arith, o)

    last_at-last :
        (e : MemVal) (h : List MemVal)
        → leb e.txnum at ≡ true
        → last_at h at ≡ none
        → last_at (e ∷ h) at ≡ some e
    unfolding last_at
    last_at-last e h o n = ground (arith, o, n)

    last_at-later :
        (e f : MemVal) (h : List MemVal)
        → leb e.txnum at ≡ true
        → last_at h at ≡ some f
        → last_at (e ∷ h) at ≡ some f
    unfolding last_at
    last_at-later e f h o n = ground (arith, o, n)

    picked-history :
        (rs : List Row)
        → Sorted rs
        → All IsKeyed rs
        → picked (seek_lt bound rs) ≡ last_at (history_of rs) at
    picked-history [] s k = unfold seek_lt in unfold history_of in unfold last_at in refl
    picked-history (r ∷ rs) (above, s) (inr out, k) =
        let ih = picked-history rs s k in
        let drop_row = ap (λ (h : List MemVal). last_at h at) (history_of-outside r rs out) in
        elim (Bool-cases (blt r.key bound)) [
          | inr over ↦
              ap picked (seek_lt-over bound r rs over)
              ∙ sym (ap picked (seek_lt-none bound r rs over above))
              ∙ ih
              ∙ sym drop_row
          | inl under ↦ elim (Option-cases (seek_lt bound rs)) [
            | inl n ↦
                ap picked (seek_lt-last bound r rs under n)
                ∙ picked-outside r out
                ∙ sym (ap picked n)
                ∙ ih
                ∙ sym drop_row
            | inr (y, n) ↦
                ap picked (seek_lt-later bound r rs y under n ∙ sym n) ∙ ih ∙ sym drop_row
          ]
        ]
    picked-history (r ∷ rs) (above, s) (inl (n, lt, e), k) =
        let ih = picked-history rs s k in
        let mv : MemVal = record { txnum = n; val = r.val } in
        let whole = ap (λ (h : List MemVal). last_at h at) (history_of-inside r rs n lt e) in
        let side = below-bound r n lt e in
        elim (Bool-cases (leb n at)) [
          | inr over ↦
              ap picked (seek_lt-over bound r rs (side ∙ over))
              ∙ sym (whole ∙ last_at-over mv (history_of rs) over)
          | inl under ↦ elim (Option-cases (seek_lt bound rs)) [
            | inl gone ↦
                ap picked (seek_lt-last bound r rs (side ∙ under) gone)
                ∙ picked-inside r n lt e
                ∙ sym (whole ∙ last_at-last mv (history_of rs) under (sym ih ∙ ap picked gone))
            | inr (y, found) ↦
                let (keyed, low) = seek_lt-All IsKeyed bound rs y k found in
                let (up, low') = seek_lt-All (Above r) bound rs y above found in
                elim keyed [
                  | inr out ↦ absurd (no_between r y n e out up low)
                  | inl (m, fit, e') ↦
                      let pick = picked-inside y m fit e' in
                      ap picked (seek_lt-later bound r rs y (side ∙ under) found)
                      ∙ pick
                      ∙ sym (
                          whole
                          ∙ last_at-later mv (record { txnum = m; val = y.val }) (history_of rs)
                              under (sym ih ∙ ap picked found ∙ pick))
                ]
          ]
        ]

pub last_at-nil : (at : ℕ) → last_at [] at ≡ none
unfolding last_at
last_at-nil at = refl

-- `Latest` of a run at a TxNum below 2^64 - 1 finds what the window's own search finds in the
-- history that the run's rows hold under the prefix: the last write at or below the TxNum. The
-- rows are in byte order, the bloom gate turns away no prefix that has rows, and every row is
-- under the prefix with a TxNum behind it, or not at all.
pub latest-history :
    (may_have : Run → Section → Bytes → Bool) (r : Run) (s : Section) (prefix : Bytes) (at : ℕ)
    → at + 1 < 2 ^ 64
    → (may_have r s (suffixed prefix 0) ≡ true) ⊎ (history_of prefix (r.rows s) ≡ [])
    → Sorted (r.rows s)
    → All (IsKeyed prefix) (r.rows s)
    → latest may_have r s prefix at ≡ last_at (history_of prefix (r.rows s)) at
unfolding latest
latest-history may_have r s prefix at fits gate sorted keyed =
    elim (Bool-cases (may_have r s (suffixed prefix 0))) [
      | inl pass ↦ rw pass (picked-history prefix at fits (r.rows s) sorted keyed)
      | inr fail ↦ elim gate [
        | inl pass ↦ absurd (cc)
        | inr empty ↦ rw (fail, empty) (sym (last_at-nil at))
      ]
    ]

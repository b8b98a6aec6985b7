-- ===== src/Store/Postings/Scan.antt =====
-- The scan of chunks that `chunks` writes: what it answers against the entries that they hold.
use avalanche_s3_archival_no.Prelude.{
  ℕ, ◌-◌, ◌^◌, ◌≡◌, ◌<◌, ◌≤◌, refl, ap, ◌∙◌, arith, ltb, if◌then◌else◌,
}
use avalanche_s3_archival_no.Prelude.{
  Bool, false, ◌||◌, List, [], ◌∷◌, ◌++◌, Option, none, some, length, map, All, ◌⊎◌, inl, inr,
  Bool-cases, length-append,
}
use avalanche_s3_archival_no.Prelude.Bytes.{Bytes, beq, be, length-be}
use mathlib.Core.Path.{subst}
use avalanche_s3_archival_no.Prelude.Bytes.{take-append}
use avalanche_s3_archival_no.Store.Keys.{suffixed, payload_bits}
use avalanche_s3_archival_no.Store.Keys.Suffix.{txnum_of-suffixed}
use avalanche_s3_archival_no.Store.Run.{Row}
use avalanche_s3_archival_no.Store.Ef.{
  max_entries, encode_ef, Decoded, decoded, corrupt, panicked, decode_ef,
}
use avalanche_s3_archival_no.Store.Ef.Read.{Rising}
use avalanche_s3_archival_no.Store.Ef.Upper.{PayloadFits}
use avalanche_s3_archival_no.Store.Ef.RoundTrip.{decode_ef-encode_ef}
use avalanche_s3_archival_no.Store.Memtable.{Posting}
use avalanche_s3_archival_no.Store.Postings.{
  chunk_row, pick, payloads, group_of, Scanned, scanned, failed, crashed, decode_pend,
}

-- A chunk before it is coded: a group, its first TxNum, the later ones, and a payload for each.
pub record Chunk : Type 0 where
  pub group : Bytes
  pub first : ℕ
  pub more : List ℕ
  pub pay : Bytes

abbrev pub nums_of : Chunk → List ℕ
nums_of c = c.first ∷ c.more

abbrev pub row_of : Chunk → Row
row_of c = chunk_row c.group c.first (nums_of c) c.pay

abbrev pub zipped : Bytes → List ℕ → Bytes → List Posting
zipped group [] ps = []
zipped group (n ∷ ns) [] = []
zipped group (n ∷ ns) (p ∷ ps) =
    record { group = group; txnum = n; payload = p } ∷ zipped group ns ps

abbrev pub entries : Chunk → List Posting
entries c = zipped c.group (nums_of c) c.pay

abbrev pub all_entries : List Chunk → List Posting
all_entries [] = []
all_entries (c ∷ cs) = entries c ++ all_entries cs

-- The entries of a range, in order.
unfoldable pub within : ℕ → ℕ → List Posting → List Posting
within lo hi [] = []
within lo hi (e ∷ es) =
    let rest = within lo hi es in if ltb e.txnum lo || ltb hi e.txnum then rest else e ∷ rest

-- What `chunks` keeps of each chunk.
pub record IsChunk (c : Chunk) : Type 0 where
  pub rising : Rising c.first c.more
  pub fits : All (λ (t : ℕ). t < 2 ^ 64) (nums_of c)
  pub few : length (nums_of c) ≤ max_entries
  pub paired : length c.pay ≡ length (nums_of c)
  pub narrow : All (λ (p : ℕ). p < 2 ^ payload_bits c.group) c.pay

-- All of a chunk's entries come before the next one of its group.
abbrev pub Ends : Chunk → Chunk → Type 0
Ends c d = (beq c.group d.group ≡ false) ⊎ All (λ (t : ℕ). t < d.first) (nums_of c)

abbrev pub Chunked : List Chunk → Type 0
Chunked [] = Unit
Chunked (c ∷ []) = IsChunk c
Chunked (c ∷ d ∷ cs) = IsChunk c × Ends c d × Chunked (d ∷ cs)

pub within-append :
    (lo hi : ℕ) (xs ys : List Posting)
    → within lo hi (xs ++ ys) ≡ within lo hi xs ++ within lo hi ys
unfolding within
within-append lo hi [] ys = refl
within-append lo hi (x ∷ xs) ys = ground (arith, within-append lo hi xs ys)

pick-zipped :
    (lo hi : ℕ) (group : Bytes) (ns : List ℕ) (ps : Bytes)
    → pick lo hi group ns ps ≡ within lo hi (zipped group ns ps)
unfolding pick within
pick-zipped lo hi group [] ps = refl
pick-zipped lo hi group (n ∷ ns) [] = refl
pick-zipped lo hi group (n ∷ ns) (p ∷ ps) = ground (arith, pick-zipped lo hi group ns ps)

pub below-within :
    (lo hi : ℕ) (group : Bytes) (ns : List ℕ) (ps : Bytes)
    → All (λ (t : ℕ). t < lo) ns
    → within lo hi (zipped group ns ps) ≡ []
unfolding within
below-within lo hi group [] ps a = refl
below-within lo hi group (n ∷ ns) [] a = refl
below-within lo hi group (n ∷ ns) (p ∷ ps) (h, a) = ground (arith, below-within lo hi group ns ps a)

pub above-within :
    (lo hi at : ℕ) (group : Bytes) (ns : List ℕ) (ps : Bytes)
    → hi < at
    → Rising at ns
    → within lo hi (zipped group ns ps) ≡ []
unfolding within
above-within lo hi at group [] ps h r = refl
above-within lo hi at group (n ∷ ns) [] h r = refl
above-within lo hi at group (n ∷ ns) (p ∷ ps) h (le, r) =
    ground (arith, above-within lo hi n group ns ps (omega arith) r)

pub group_of-suffixed : (group : Bytes) (n : ℕ) → group_of (suffixed group n) ≡ group
unfolding suffixed
group_of-suffixed group n =
    take-append group (be 8 n) (length (group ++ be 8 n) - 8)
      (omega (arith, length-append group (be 8 n), length-be 8 n))

all_zero :
    (ns : List ℕ) (ps : Bytes)
    → length ps ≡ length ns
    → All (λ (p : ℕ). p < 1) ps
    → map (λ (n : ℕ). 0) ns ≡ ps
all_zero [] [] e a = refl
all_zero [] (p ∷ ps) e a = absurd (omega arith)
all_zero (n ∷ ns) [] e a = absurd (omega arith)
all_zero (n ∷ ns) (p ∷ ps) e (h, a) =
    let zero_here : 0 ≡ p = omega arith in
    ap (λ (l : Bytes). 0 ∷ l) (all_zero ns ps (omega arith) a) ∙ ap (λ (q : ℕ). q ∷ ps) zero_here

payload_bits-le : (group : Bytes) → payload_bits group ≤ 8
unfolding payload_bits
payload_bits-le group = ground arith

module _ (c : Chunk) (h : IsChunk c) where
  abbrev bits : ℕ
  bits = payload_bits c.group

  abbrev coded : Option Bytes
  coded = if ltb 0 bits then some c.pay else none

  payload-fits : PayloadFits (length (nums_of c)) bits c.pay
  payload-fits = elim (Bool-cases (ltb 0 bits)) [
    | inl wide ↦ inr (ground (arith, wide), h.paired, h.narrow)
    | inr flat ↦ inl (ground (arith, flat))
  ]

  payloads-coded : payloads (nums_of c) coded ≡ c.pay
  payloads-coded = elim (Bool-cases (ltb 0 bits)) [
    | inl wide ↦ ap (λ (b : Bool). payloads (nums_of c) (if b then some c.pay else none)) wide
    | inr flat ↦
        let none_wide : bits ≡ 0 = ground (arith, flat) in
        ap (λ (b : Bool). payloads (nums_of c) (if b then some c.pay else none)) flat
        ∙ all_zero (nums_of c) c.pay h.paired
            (subst (λ (w : ℕ). All (λ (p : ℕ). p < 2 ^ w) c.pay) none_wide h.narrow)
  ]

  decoded-back :
      decode_ef c.first (encode_ef c.first (nums_of c) c.pay bits) ≡ decoded (nums_of c) coded
  decoded-back =
      decode_ef-encode_ef c.first (nums_of c) bits (omega arith, h.rising) h.fits c.pay h.few
        (payload_bits-le c.group) payload-fits

  module _ (lo hi : ℕ) (out : List Posting) where
    abbrev given : Decoded → Scanned
    given d = elim d [
      | corrupt ↦ failed
      | panicked ↦ crashed
      | decoded nums pay ↦
          scanned (out ++ pick lo hi (group_of (row_of c).key) nums (payloads nums pay))
    ]

    abbrev based_at : Option ℕ → Scanned
    based_at o = elim o [ none ↦ crashed | some base ↦ given (decode_ef base (row_of c).val) ]

    pub decode_pend-row_of :
        decode_pend lo hi (some (row_of c)) out ≡ scanned (out ++ within lo hi (entries c))
    unfolding decode_pend
    decode_pend-row_of =
        let nums = nums_of c in
        ap based_at (txnum_of-suffixed c.group c.first h.fits.0)
        ∙ ap given decoded-back
        ∙ ap (λ (g : Bytes). scanned (out ++ pick lo hi g nums (payloads nums coded)))
            (group_of-suffixed c.group c.first)
        ∙ ap (λ (ps : Bytes). scanned (out ++ pick lo hi c.group nums ps)) payloads-coded
        ∙ ap (λ (es : List Posting). scanned (out ++ es)) (pick-zipped lo hi c.group nums c.pay)

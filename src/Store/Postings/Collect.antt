-- ===== src/Store/Postings/Collect.antt =====
-- Entries one after the other into one list, one for each group and TxNum: what `chunks` cuts.
use avalanche_s3_archival_no.Prelude.{
  ℕ, zero, suc, ◌/◌, ◌^◌, ◌==◌, ◌≡◌, ◌<◌, ◌≤◌, refl, sym, ap, ◌∙◌, arith, if◌then◌else◌,
}
use avalanche_s3_archival_no.Prelude.{
  Bool, false, ◌&&◌, List, [], ◌∷◌, ◌++◌, some, length, last?, All, ◌⊎◌, inl, inr, Bool-cases,
}
use avalanche_s3_archival_no.Prelude.Bytes.{Bytes, beq, beq_iff}
use native.Mathlib.Nat.{pow-suc}
use avalanche_s3_archival_no.Store.Ef.Read.{Rising}
use avalanche_s3_archival_no.Store.Memtable.{Posting}
use avalanche_s3_archival_no.Store.Postings.{or_bits, or_last}
use avalanche_s3_archival_no.Store.Postings.Scan.{zipped}

abbrev pub same_entry : Posting → Posting → Bool
same_entry x e = beq x.group e.group && (x.txnum == e.txnum)

abbrev pub absorb : List Posting → Posting → List Posting
absorb [] e = e ∷ []
absorb (x ∷ []) e =
    if same_entry x e then record x { payload = or_bits 8 x.payload e.payload } ∷ [] else x ∷ e ∷ []
absorb (x ∷ y ∷ xs) e = x ∷ absorb (y ∷ xs) e

abbrev pub collect : List Posting → List Posting → List Posting
collect acc [] = acc
collect acc (e ∷ es) = collect (absorb acc e) es

absorb-append :
    (xs : List Posting) (y : Posting) (ys : List Posting) (e : Posting)
    → absorb (xs ++ (y ∷ ys)) e ≡ xs ++ absorb (y ∷ ys) e
absorb-append [] y ys e = refl
absorb-append (x ∷ []) y ys e = refl
absorb-append (x ∷ z ∷ xs) y ys e = ap (λ (l : List Posting). x ∷ l) (absorb-append (z ∷ xs) y ys e)

absorb-some :
    (y : Posting) (ys : List Posting) (e : Posting)
    → (z : Posting) × (zs : List Posting) × (absorb (y ∷ ys) e ≡ z ∷ zs)
absorb-some y [] e = elim (Bool-cases (same_entry y e)) [
  | inl same ↦ (record y { payload = or_bits 8 y.payload e.payload }, [], ground (arith, same))
  | inr other ↦ (y, e ∷ [], ground (arith, other))
]
absorb-some y (x ∷ ys) e = (y, absorb (x ∷ ys) e, refl)

pub collect-append :
    (xs : List Posting) (y : Posting) (ys es : List Posting)
    → collect (xs ++ (y ∷ ys)) es ≡ xs ++ collect (y ∷ ys) es
collect-append xs y ys [] = refl
collect-append xs y ys (e ∷ es) =
    let (z, zs, is) = absorb-some y ys e in
    ap (λ (l : List Posting). collect l es)
      (absorb-append xs y ys e ∙ ap (λ (l : List Posting). xs ++ l) is)
    ∙ collect-append xs z zs es
    ∙ ap (λ (l : List Posting). xs ++ collect l es) (sym is)

-- The union of the bits of two numbers of so many bits.
pub or_bits-lt : (w k a b : ℕ) → a < 2 ^ k → b < 2 ^ k → or_bits w a b < 2 ^ k
unfolding or_bits
or_bits-lt zero k a b ha hb = omega arith
or_bits-lt (suc w) zero a b ha hb =
    let rest = or_bits-lt w 0 (a / 2) (b / 2) (omega arith) (omega arith) in ground (arith, rest)
or_bits-lt (suc w) (suc k) a b ha hb =
    let twice = pow-suc 2 k in
    let rest = or_bits-lt w k (a / 2) (b / 2) (omega arith) (omega arith) in
    ground (arith, rest, twice)

-- The same steps on the TxNums and payloads of one group.
module _ (group : Bytes) (t p : ℕ) where
  abbrev entry : Posting
  entry = record { group = group; txnum = t; payload = p }

  pub absorb-last :
      (n : ℕ) (ns : List ℕ) (ps : Bytes)
      → length ps ≡ length (n ∷ ns)
      → last? (n ∷ ns) ≡ some t
      → absorb (zipped group (n ∷ ns) ps) entry ≡ zipped group (n ∷ ns) (or_last ps p)
  unfolding or_last
  absorb-last n ns [] e l = absurd (omega arith)
  absorb-last n [] (x ∷ []) e l =
      let same : n ≡ t = cc in
      let groups = (beq_iff group group).1 refl in ground (arith, same, groups)
  absorb-last n (m ∷ ns) (x ∷ []) e l = absurd (omega arith)
  absorb-last n [] (x ∷ y ∷ ps) e l = absurd (omega arith)
  absorb-last n (m ∷ ns) (x ∷ y ∷ ps) e l =
      ap (λ (es : List Posting). record { group = group; txnum = n; payload = x } ∷ es)
        (absorb-last m ns (y ∷ ps) (omega arith) l)

  pub zipped-append :
      (ns : List ℕ) (ps : Bytes)
      → length ps ≡ length ns
      → zipped group (ns ++ (t ∷ [])) (ps ++ (p ∷ [])) ≡ zipped group ns ps ++ (entry ∷ [])
  zipped-append [] [] e = refl
  zipped-append [] (x ∷ ps) e = absurd (omega arith)
  zipped-append (n ∷ ns) [] e = absurd (omega arith)
  zipped-append (n ∷ ns) (x ∷ ps) e =
      ap (λ (es : List Posting). record { group = group; txnum = n; payload = x } ∷ es)
        (zipped-append ns ps (omega arith))

  -- An entry of another group or another TxNum is a new one.
  pub absorb-new :
      (g : Bytes) (n : ℕ) (ns : List ℕ) (ps : Bytes) (last : ℕ)
      → length ps ≡ length (n ∷ ns)
      → last? (n ∷ ns) ≡ some last
      → (beq g group ≡ false) ⊎ ((last == t) ≡ false)
      → absorb (zipped g (n ∷ ns) ps) entry ≡ zipped g (n ∷ ns) ps ++ (entry ∷ [])
  absorb-new g n ns [] last e l d = absurd (omega arith)
  absorb-new g n [] (x ∷ []) last e l d = let same : n ≡ last = cc in ground (arith, d)
  absorb-new g n (m ∷ ns) (x ∷ []) last e l d = absurd (omega arith)
  absorb-new g n [] (x ∷ y ∷ ps) last e l d = absurd (omega arith)
  absorb-new g n (m ∷ ns) (x ∷ y ∷ ps) last e l d =
      ap (λ (es : List Posting). record { group = g; txnum = n; payload = x } ∷ es)
        (absorb-new g m ns (y ∷ ps) last (omega arith) l d)

-- What the steps keep of a chunk.
pub length-or_last : (ps : Bytes) (x : ℕ) → length (or_last ps x) ≡ length ps
unfolding or_last
length-or_last [] x = refl
length-or_last (p ∷ []) x = refl
length-or_last (p ∷ q ∷ ps) x = ap (λ (n : ℕ). suc n) (length-or_last (q ∷ ps) x)

pub or_last-All :
    (k : ℕ) (ps : Bytes) (x : ℕ)
    → x < 2 ^ k
    → All (λ (p : ℕ). p < 2 ^ k) ps
    → All (λ (p : ℕ). p < 2 ^ k) (or_last ps x)
unfolding or_last
or_last-All k [] x h a = tt
or_last-All k (p ∷ []) x h (hp, a) = (or_bits-lt 8 k p x hp h, tt)
or_last-All k (p ∷ q ∷ ps) x h (hp, a) = (hp, or_last-All k (q ∷ ps) x h a)

pub last-append : (ns : List ℕ) (t : ℕ) → last? (ns ++ (t ∷ [])) ≡ some t
last-append [] t = refl
last-append (n ∷ []) t = refl
last-append (n ∷ m ∷ ns) t = last-append (m ∷ ns) t

pub Rising-append :
    (n : ℕ) (ns : List ℕ) (t last : ℕ)
    → Rising n ns
    → last? (n ∷ ns) ≡ some last
    → last ≤ t
    → Rising n (ns ++ (t ∷ []))
Rising-append n [] t last r l le = let same : n ≡ last = cc in (omega arith, tt)
Rising-append n (m ∷ ns) t last (up, r) l le = (up, Rising-append m ns t last r l le)

-- All of a chunk lies below what comes behind its last TxNum.
pub Rising-below :
    (n : ℕ) (ns : List ℕ) (t last : ℕ)
    → Rising n ns
    → last? (n ∷ ns) ≡ some last
    → last < t
    → All (λ (m : ℕ). m < t) (n ∷ ns)
Rising-below n [] t last r l lt = let same : n ≡ last = cc in (omega arith, tt)
Rising-below n (m ∷ ns) t last (up, r) l lt =
    let below = Rising-below m ns t last r l lt in
    let next : m < t = below.0 in (omega arith, below)

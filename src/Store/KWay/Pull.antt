-- ===== src/Store/KWay/Pull.antt =====
-- The cursor that is pulled: the least key, from the newest of the inputs that have it.
use avalanche_s3_archival_no.Prelude.{ℕ, ◌+◌, ◌<◌, ◌≡◌, refl, sym, ap, ◌∙◌, arith}
use avalanche_s3_archival_no.Prelude.{
  true, false, List, [], ◌∷◌, Option, none, some, All, inl, inr, Bool-cases,
}
use avalanche_s3_archival_no.Prelude.Bytes.{Bytes, beq, beq_iff, blt}
use mathlib.Core.Path.{subst}
use avalanche_s3_archival_no.Store.Run.{Row}
use avalanche_s3_archival_no.Store.Run.Order.{Above, Sorted, blt_trans, blt_irrefl}
use avalanche_s3_archival_no.Store.KWay.{Cursor, less, advance, pull_least, rows_left}
use avalanche_s3_archival_no.Store.KWay.Order.{not_below_trans, blt-asym, find_key, find_key-below}

-- What the cursors hold of a key: the first that has it, which is the newest input.
unfoldable pub newest_left : Bytes → List Cursor → Option Bytes
unfolding find_key
newest_left k [] = none
newest_left k (c ∷ cs) =
    let older = newest_left k cs in
    elim (find_key k (c.row ∷ c.rest)) [ none ↦ older | some v ↦ some v ]

-- Cursors in the order of their inputs, each on rows that are in order.
abbrev pub IsCursors : List Cursor → Type 0
IsCursors [] = Unit
IsCursors (c ∷ cs) = Sorted (c.row ∷ c.rest) × All (λ (d : Cursor). d.idx < c.idx) cs × IsCursors cs

abbrev pub NotBelow : Bytes → Cursor → Type 0
NotBelow k c = blt c.row.key k ≡ false

-- What is pulled, and what is left.
pub record IsPulled (cs : List Cursor) (p : Cursor × List Cursor) : Type 0 where
  pub least : All (NotBelow p.0.row.key) cs
  pub left_least : All (NotBelow p.0.row.key) p.1
  pub low : (l : Bytes) → All (NotBelow l) cs → blt p.0.row.key l ≡ false
  pub newest : newest_left p.0.row.key cs ≡ some p.0.row.val
  pub others : (k : Bytes) → beq p.0.row.key k ≡ false → newest_left k p.1 ≡ newest_left k cs
  pub valid : IsCursors p.1
  pub fewer : rows_left p.1 + 1 ≡ rows_left cs
  pub older :
      (n : ℕ)
      → All (λ (d : Cursor). d.idx < n) cs
      → (p.0.idx < n) × All (λ (d : Cursor). d.idx < n) p.1

module _ (c d : Cursor) (ds : List Cursor) where
  pull_least-later :
      less (pull_least d ds).0 c ≡ true
      → pull_least c (d ∷ ds) ≡ ((pull_least d ds).0, c ∷ (pull_least d ds).1)
  unfolding pull_least
  pull_least-later e = ground (arith, e)

  pull_least-first :
      less (pull_least d ds).0 c ≡ false → pull_least c (d ∷ ds) ≡ (c, advance c (d ∷ ds))
  unfolding pull_least
  pull_least-first e = ground (arith, e)

less-older : (m c : Cursor) → m.idx < c.idx → less m c ≡ blt m.row.key c.row.key
unfolding less
less-older m c lt = ground (arith, blt-asym m.row.key c.row.key)

-- The first cursor goes on, when no other one is below it.
moved-IsPulled :
    (idx : ℕ) (row : Row) (rest : List Row) (cs : List Cursor)
    → Sorted (row ∷ rest)
    → All (λ (d : Cursor). d.idx < idx) cs
    → IsCursors cs
    → All (NotBelow row.key) cs
    → let c : Cursor = record { idx = idx; row = row; rest = rest } in
      IsPulled (c ∷ cs) (c, advance c cs)
unfolding advance newest_left find_key
moved-IsPulled idx row [] cs s o v least = record {
  least = (blt_irrefl row.key, least);
  left_least = least;
  low = λ l a. a.0;
  newest = ground (arith, beq_iff row.key row.key);
  others = λ k h. ground (arith, h);
  valid = v;
  fewer = omega arith;
  older = λ n a. a;
}
moved-IsPulled idx row (r ∷ rs) cs ((up, ups), s) o v least = record {
  least = (blt_irrefl row.key, least);
  left_least = (blt-asym row.key r.key up, least);
  low = λ l a. a.0;
  newest = ground (arith, beq_iff row.key row.key);
  others = λ k h. ground (arith, h);
  valid = (s, o, v);
  fewer = omega arith;
  older = λ n a. (a.0, (a.0, a.1));
}

NotBelow-all :
    (x y : Bytes) (cs : List Cursor) → blt y x ≡ false → All (NotBelow y) cs → All (NotBelow x) cs
NotBelow-all x y [] h a = tt
NotBelow-all x y (c ∷ cs) h (p, a) = (not_below_trans c.row.key y x p h, NotBelow-all x y cs h a)

pub Above-all :
    (x : Bytes) (r : Row) (rs : List Row)
    → blt x r.key ≡ true
    → All (Above r) rs
    → All (λ (y : Row). blt x y.key ≡ true) rs
Above-all x r [] h a = tt
Above-all x r (y ∷ rs) h (p, a) = (blt_trans x r.key y.key h p, Above-all x r rs h a)

pub newest_left-skip :
    (k : Bytes) (c : Cursor) (cs : List Cursor)
    → find_key k (c.row ∷ c.rest) ≡ none
    → newest_left k (c ∷ cs) ≡ newest_left k cs
unfolding newest_left
newest_left-skip k c cs e =
    ap (λ (o : Option Bytes). elim o [ none ↦ newest_left k cs | some v ↦ some v ]) e

newest_left-cong :
    (k : Bytes) (c : Cursor) (cs ds : List Cursor)
    → newest_left k cs ≡ newest_left k ds
    → newest_left k (c ∷ cs) ≡ newest_left k (c ∷ ds)
unfolding newest_left
newest_left-cong k c cs ds e =
    ap (λ (o : Option Bytes). elim (find_key k (c.row ∷ c.rest)) [ none ↦ o | some v ↦ some v ]) e

kept-IsPulled :
    (c : Cursor) (cs : List Cursor) (p : Cursor × List Cursor)
    → Sorted (c.row ∷ c.rest)
    → All (λ (d : Cursor). d.idx < c.idx) cs
    → blt p.0.row.key c.row.key ≡ true
    → IsPulled cs p
    → IsPulled (c ∷ cs) (p.0, c ∷ p.1)
kept-IsPulled c cs (m, left) (up, s) o lt i =
    let over = blt-asym m.row.key c.row.key lt in
    let gone =
      find_key-below m.row.key (c.row ∷ c.rest) (lt, Above-all m.row.key c.row c.rest lt up) in
    record {
      least = (over, i.least);
      left_least = (over, i.left_least);
      low = λ l a. i.low l a.1;
      newest = newest_left-skip m.row.key c cs gone ∙ i.newest;
      others = λ k h. newest_left-cong k c left cs (i.others k h);
      valid = ((up, s), (i.older c.idx o).1, i.valid);
      fewer = omega (arith, i.fewer);
      older = λ n a. let b = i.older n a.1 in (b.0, (a.0, b.1));
    }

pull_least-only : (c : Cursor) → pull_least c [] ≡ (c, advance c [])
unfolding pull_least
pull_least-only c = refl

pub pull_least-IsPulled :
    (c : Cursor) (cs : List Cursor) → IsCursors (c ∷ cs) → IsPulled (c ∷ cs) (pull_least c cs)
pull_least-IsPulled c [] (s, o, v) =
    subst (IsPulled (c ∷ [])) (sym (pull_least-only c))
      (moved-IsPulled c.idx c.row c.rest [] s tt tt tt)
pull_least-IsPulled c (d ∷ ds) (s, o, v) =
    let i = pull_least-IsPulled d ds v in
    let m = (pull_least d ds).0 in
    let order = less-older m c (i.older c.idx o).0 in
    elim (Bool-cases (less m c)) [
      | inl later ↦
          subst (IsPulled (c ∷ d ∷ ds)) (sym (pull_least-later c d ds later))
            (kept-IsPulled c (d ∷ ds) (pull_least d ds) s o (sym order ∙ later) i)
      | inr first ↦ subst (IsPulled (c ∷ d ∷ ds)) (sym (pull_least-first c d ds first)) (
          moved-IsPulled c.idx c.row c.rest (d ∷ ds) s o v
            (NotBelow-all c.row.key m.row.key (d ∷ ds) (sym order ∙ first) i.least))
    ]

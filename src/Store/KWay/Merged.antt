-- ===== src/Store/KWay/Merged.antt =====
-- What the merged section holds: every key once, in order, with the value of the newest input.
use avalanche_s3_archival_no.Prelude.{
  ℕ, zero, suc, ◌≤◌, ◌<◌, ◌≡◌, refl, sym, ap, ◌∙◌, arith, if◌then◌else◌,
}
use avalanche_s3_archival_no.Prelude.{
  true, false, List, [], ◌∷◌, Option, none, some, length, All, inl, inr, Bool-cases,
}
use avalanche_s3_archival_no.Prelude.Bytes.{Bytes, beq, beq_iff, blt}
use mathlib.Core.Path.{subst}
use avalanche_s3_archival_no.Store.Run.{Row}
use avalanche_s3_archival_no.Store.Run.Order.{Sorted, blt_trans}
use avalanche_s3_archival_no.Store.KWay.{
  Cursor, pull_least, repeats, merge_loop, first_cursors, rows_left, merge_section,
}
use avalanche_s3_archival_no.Store.KWay.Order.{
  below-not_below, blt-connected, find_key, find_key-below,
}
use avalanche_s3_archival_no.Store.KWay.Pull.{
  newest_left, IsCursors, NotBelow, IsPulled, pull_least-IsPulled, newest_left-skip, Above-all,
}

-- A key behind the last one that was written.
abbrev After : Option Bytes → Bytes → Type 0
After none k = Unit
After (some l) k = blt l k ≡ true

abbrev IsLow : Option Bytes → List Cursor → Type 0
IsLow none cs = Unit
IsLow (some l) cs = All (NotBelow l) cs

record IsMerged (last : Option Bytes) (cs : List Cursor) (out : List Row) : Type 0 where
  sorted : Sorted out
  after : All (λ (r : Row). After last r.key) out
  found : (k : Bytes) → find_key k out ≡ (if repeats last k then none else newest_left k cs)

module _ (fuel : ℕ) (last : Option Bytes) (c : Cursor) (cs : List Cursor) where
  abbrev pulled : Cursor
  pulled = (pull_least c cs).0

  abbrev rest_of : List Row
  rest_of = merge_loop fuel (some pulled.row.key) (pull_least c cs).1

  merge_loop-skip :
      repeats last pulled.row.key ≡ true → merge_loop (suc fuel) last (c ∷ cs) ≡ rest_of
  unfolding merge_loop
  merge_loop-skip e = ground (arith, e)

  merge_loop-write :
      repeats last pulled.row.key ≡ false
      → merge_loop (suc fuel) last (c ∷ cs) ≡ pulled.row ∷ rest_of
  unfolding merge_loop
  merge_loop-write e = ground (arith, e)

merge_loop-nil : (fuel : ℕ) (last : Option Bytes) → merge_loop fuel last [] ≡ []
unfolding merge_loop
merge_loop-nil zero last = refl
merge_loop-nil (suc fuel) last = refl

newest_left-nil : (k : Bytes) → newest_left k [] ≡ none
unfolding newest_left
newest_left-nil k = refl

nothing_found :
    (last : Option Bytes) (k : Bytes)
    → find_key k [] ≡ (if repeats last k then none else newest_left k [])
unfolding find_key newest_left
nothing_found last k = elim (Bool-cases (repeats last k)) [ inl e ↦ rw e refl | inr e ↦ rw e refl ]

-- A key below all that is left is in none of it.
newest_left-none :
    (k : Bytes) (cs : List Cursor)
    → IsCursors cs
    → All (λ (c : Cursor). blt k c.row.key ≡ true) cs
    → newest_left k cs ≡ none
newest_left-none k [] v a = newest_left-nil k
newest_left-none k (c ∷ cs) ((up, s), o, v) (p, a) =
    newest_left-skip k c cs (find_key-below k (c.row ∷ c.rest) (p, Above-all k c.row c.rest p up))
    ∙ newest_left-none k cs v a

Below-all :
    (l m : Bytes) (cs : List Cursor)
    → blt l m ≡ true
    → All (NotBelow m) cs
    → All (λ (c : Cursor). blt l c.row.key ≡ true) cs
Below-all l m [] h a = tt
Below-all l m (c ∷ cs) h (p, a) = (below-not_below l m c.row.key h p, Below-all l m cs h a)

find_key-cons :
    (k : Bytes) (r : Row) (rs : List Row)
    → beq r.key k ≡ false
    → find_key k (r ∷ rs) ≡ find_key k rs
unfolding find_key
find_key-cons k r rs e = ground (arith, e)

find_key-here :
    (k : Bytes) (r : Row) (rs : List Row) → beq r.key k ≡ true → find_key k (r ∷ rs) ≡ some r.val
unfolding find_key
find_key-here k r rs e = ground (arith, e)

After-all :
    (last : Option Bytes) (m : Row) (rs : List Row)
    → After last m.key
    → All (λ (r : Row). blt m.key r.key ≡ true) rs
    → All (λ (r : Row). After last r.key) rs
After-all last m [] h a = tt
After-all none m (r ∷ rs) h (p, a) = (tt, After-all none m rs h a)
After-all (some l) m (r ∷ rs) h (p, a) = (blt_trans l m.key r.key h p, After-all (some l) m rs h a)

module _ (cs : List Cursor) (m : Cursor) (left : List Cursor) (rest : List Row) (v : IsCursors cs)
    (i : IsPulled cs (m, left)) where
  After-pulled :
      (last : Option Bytes) → IsLow last cs → repeats last m.row.key ≡ false → After last m.row.key
  unfolding repeats
  After-pulled none low e = tt
  After-pulled (some l) low e = elim (Bool-cases (blt l m.row.key)) [
    | inl above ↦ above
    | inr over ↦
        let same = blt-connected l m.row.key over (i.low l low) in
        absurd (ground (arith, beq_iff l m.row.key))
  ]

  same_found :
      (l : Bytes)
      → l ≡ m.row.key
      → (k : Bytes)
      → (if beq m.row.key k then none else newest_left k left)
        ≡ (if beq l k then none else newest_left k cs)
  same_found l same k =
      let both = ap (λ (x : Bytes). beq x k) same in
      elim (Bool-cases (beq m.row.key k)) [
        | inl b ↦ ground (arith, b, both)
        | inr b ↦ ground (arith, b, both, i.others k b)
      ]

  repeated-none :
      (last : Option Bytes)
      → After last m.row.key
      → (k : Bytes) → repeats last k ≡ true
      → newest_left k cs ≡ none
  unfolding repeats
  repeated-none none h k e = absurd (cc)
  repeated-none (some l) h k e =
      let same = (beq_iff l k).0 e in
      subst (λ (x : Bytes). newest_left x cs ≡ none) same
        (newest_left-none l cs v (Below-all l m.row.key cs h i.least))

  written-found :
      (last : Option Bytes)
      → IsLow last cs
      → repeats last m.row.key ≡ false
      → After last m.row.key
      → IsMerged (some m.row.key) left rest
      → (k : Bytes)
      → find_key k (m.row ∷ rest) ≡ (if repeats last k then none else newest_left k cs)
  unfolding repeats
  written-found last low e here g k = elim (Bool-cases (beq m.row.key k)) [
    | inl b ↦
        let same = (beq_iff m.row.key k).0 b in
        let new : repeats last k ≡ false = ap (repeats last) (sym same) ∙ e in
        find_key-here k m.row rest b
        ∙ sym (subst (λ (x : Bytes). newest_left x cs ≡ some m.row.val) same i.newest)
        ∙ rw new refl
    | inr b ↦
        let rest_found : find_key k rest ≡ newest_left k cs = g.found k ∙ rw b (i.others k b) in
        find_key-cons k m.row rest b ∙ rest_found ∙ elim (Bool-cases (repeats last k)) [
          | inl old ↦ repeated-none last here k old ∙ rw old refl
          | inr new ↦ rw new refl
        ]
  ]

  skipped-IsMerged :
      (last : Option Bytes)
      → repeats last m.row.key ≡ true
      → IsMerged (some m.row.key) left rest
      → IsMerged last cs rest
  unfolding repeats
  skipped-IsMerged none e g = absurd (cc)
  skipped-IsMerged (some l) e g =
      let same = (beq_iff l m.row.key).0 e in
      record {
        sorted = g.sorted;
        after =
            subst (λ (x : Bytes). All (λ (r : Row). After (some x) r.key) rest) (sym same) g.after;
        found = λ k. g.found k ∙ same_found l same k;
      }

  written-IsMerged :
      (last : Option Bytes)
      → IsLow last cs
      → repeats last m.row.key ≡ false
      → IsMerged (some m.row.key) left rest
      → IsMerged last cs (m.row ∷ rest)
  written-IsMerged last low e g =
      let here = After-pulled last low e in
      record {
        sorted = (g.after, g.sorted);
        after = (here, After-all last m.row rest here g.after);
        found = λ k. written-found last low e here g k;
      }

merge_loop-IsMerged :
    (fuel : ℕ) (last : Option Bytes) (cs : List Cursor)
    → IsCursors cs
    → IsLow last cs
    → rows_left cs ≤ fuel
    → IsMerged last cs (merge_loop fuel last cs)
merge_loop-IsMerged fuel last [] v low enough =
    subst (IsMerged last []) (sym (merge_loop-nil fuel last))
      record { sorted = tt; after = tt; found = λ k. nothing_found last k }
merge_loop-IsMerged zero last (c ∷ cs) v low enough = absurd (omega arith)
merge_loop-IsMerged (suc fuel) last (c ∷ cs) v low enough =
    let i = pull_least-IsPulled c cs v in
    let (m, left) = pull_least c cs in
    let g =
      merge_loop-IsMerged fuel (some m.row.key) left i.valid i.left_least
        (omega (arith, i.fewer)) in
    let rest = merge_loop fuel (some m.row.key) left in
    elim (Bool-cases (repeats last m.row.key)) [
      | inl skip ↦
          subst (IsMerged last (c ∷ cs)) (sym (merge_loop-skip fuel last c cs skip))
            (skipped-IsMerged (c ∷ cs) m left rest v i last skip g)
      | inr write ↦
          subst (IsMerged last (c ∷ cs)) (sym (merge_loop-write fuel last c cs write))
            (written-IsMerged (c ∷ cs) m left rest v i last low write g)
    ]

-- What the inputs hold of a key: the value of the newest one that has it.
unfoldable pub newest : Bytes → List (List Row) → Option Bytes
newest k [] = none
newest k (rows ∷ older) =
    let rest = newest k older in elim (find_key k rows) [ none ↦ rest | some v ↦ some v ]

first_cursors-newest :
    (k : Bytes) (inputs : List (List Row)) → newest_left k (first_cursors inputs) ≡ newest k inputs
unfolding newest first_cursors newest_left find_key
first_cursors-newest k [] = refl
first_cursors-newest k ([] ∷ older) = first_cursors-newest k older
first_cursors-newest k ((r ∷ rs) ∷ older) =
    ap (λ (o : Option Bytes). elim (find_key k (r ∷ rs)) [ none ↦ o | some v ↦ some v ])
      (first_cursors-newest k older)

first_cursors-idx :
    (n : ℕ) (inputs : List (List Row))
    → length inputs ≤ n
    → All (λ (c : Cursor). c.idx < n) (first_cursors inputs)
unfolding first_cursors
first_cursors-idx n [] le = tt
first_cursors-idx n ([] ∷ older) le = first_cursors-idx n older (omega arith)
first_cursors-idx n ((r ∷ rs) ∷ older) le = (omega arith, first_cursors-idx n older (omega arith))

first_cursors-IsCursors :
    (inputs : List (List Row)) → All Sorted inputs → IsCursors (first_cursors inputs)
unfolding first_cursors
first_cursors-IsCursors [] a = tt
first_cursors-IsCursors ([] ∷ older) (s, a) = first_cursors-IsCursors older a
first_cursors-IsCursors ((r ∷ rs) ∷ older) (s, a) =
    (s, first_cursors-idx (length older) older (omega arith), first_cursors-IsCursors older a)

-- The merge of sections that are in order is in order, with no key twice, and for every key it holds
-- what the newest input that has the key holds, and nothing for a key that no input has.
pub merge_section-newest :
    (inputs : List (List Row)) (k : Bytes)
    → All Sorted inputs
    → Sorted (merge_section inputs) × (find_key k (merge_section inputs) ≡ newest k inputs)
unfolding merge_section repeats
merge_section-newest inputs k a =
    let cs = first_cursors inputs in
    let g =
      merge_loop-IsMerged (rows_left cs) none cs (first_cursors-IsCursors inputs a) tt
        (omega arith) in
    (g.sorted, g.found k ∙ first_cursors-newest k inputs)

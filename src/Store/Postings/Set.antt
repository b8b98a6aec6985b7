-- ===== src/Store/Postings/Set.antt =====
-- Posting sets: the ids that `add` hands out, and the order in which `chunks` takes the entries.
use mathlib.Core.Path.{subst}
use native.Mathlib.Decide.{dec_lt}
use avalanche_s3_archival_no.Prelude.{
  ℕ, zero, suc, ◌+◌, ◌-◌, ◌==◌, ◌≡◌, ◌<◌, refl, sym, ap, ◌∙◌, arith, if◌then◌else◌,
}
use avalanche_s3_archival_no.Prelude.{
  Bool, false, List, [], ◌∷◌, ◌++◌, append-nil, append_assoc, Option, none, some, length, map, All,
  inl, inr, Bool-cases, Option-cases, length-append, All-append, get_elem?, get_elem?-append_left,
  get_elem?-append_right,
}
use avalanche_s3_archival_no.Prelude.Bytes.{Bytes, beq, beq_iff}
use avalanche_s3_archival_no.Prelude.Map.{lookup, insert, lookup-insert, lookup-nil}
use avalanche_s3_archival_no.Store.Memtable.{Posting}
use avalanche_s3_archival_no.Store.Postings.{
  PostEnt, PostSet, empty_set, entered, post_add, group_at,
}
use avalanche_s3_archival_no.Store.Postings.Open.{as_posting}

-- Ids and groups are each other's inverses, and every entry has one.
pub record IsPostSet (p : PostSet) : Type 0 where
  pub known : (i : ℕ) (g : Bytes) → get_elem? p.groups i ≡ some g → lookup g p.ids ≡ some i
  pub named : (g : Bytes) (i : ℕ) → lookup g p.ids ≡ some i → get_elem? p.groups i ≡ some g
  pub placed : All (λ (e : PostEnt). e.gid < length p.groups) p.ents

pub empty-IsPostSet : IsPostSet empty_set
empty-IsPostSet = record {
  known = λ i g h. absurd (cc);
  named = λ g i h. let nothing = lookup-nil {V = ℕ} g in absurd (cc);
  placed = tt;
}

abbrev same_id : List Bytes → ℕ → ℕ → Bool
same_id groups i j = beq (group_at groups i) (group_at groups j)

elem_at :
    (groups : List Bytes) (i : ℕ)
    → i < length groups
    → get_elem? groups i ≡ some (group_at groups i)
elem_at [] i h = absurd (omega arith)
elem_at (g ∷ groups) zero h = refl
elem_at (g ∷ groups) (suc i) h = elem_at groups i (omega arith)

pub ids_apart :
    (p : PostSet) (i j : ℕ)
    → IsPostSet p
    → i < length p.groups
    → j < length p.groups
    → (i == j) ≡ false
    → same_id p.groups i j ≡ false
ids_apart p i j s hi hj apart = elim (Bool-cases (same_id p.groups i j)) [
  | inr differ ↦ differ
  | inl same ↦
      let groups = (beq_iff (group_at p.groups i) (group_at p.groups j)).0 same in
      let first = s.known i (group_at p.groups i) (elem_at p.groups i hi) in
      let second = s.known j (group_at p.groups j) (elem_at p.groups j hj) in
      let both : some i ≡ some j = sym first ∙ ap (λ (g : Bytes). lookup g p.ids) groups ∙ second in
      let equal : i ≡ j = cc in absurd (ground (arith, equal, apart))
]

pub elem_inside :
    (groups : List Bytes) (i : ℕ) (g : Bytes) → get_elem? groups i ≡ some g → i < length groups
elem_inside [] i g h = absurd (cc)
elem_inside (x ∷ groups) zero g h = omega arith
elem_inside (x ∷ groups) (suc i) g h = let rest = elem_inside groups i g h in omega (arith, rest)

one_elem : (a g : Bytes) (i : ℕ) → get_elem? (a ∷ []) i ≡ some g → (i ≡ 0) × (a ≡ g)
one_elem a g zero h = (refl, cc)
one_elem a g (suc i) h = absurd (cc)

module _ (p : PostSet) (group : Bytes) (txnum payload : ℕ) where
  abbrev new_groups : PostSet
  new_groups = record p {
    groups = p.groups ++ (group ∷ []);
    ids = insert group (length p.groups) p.ids;
  }

  abbrev with_id : Option ℕ → PostSet
  with_id o = elim o [
    | some id ↦ entered p id txnum payload
    | none ↦ entered new_groups (length p.groups) txnum payload
  ]

  post_add-by : (o : Option ℕ) → lookup group p.ids ≡ o → post_add p group txnum payload ≡ with_id o
  unfolding post_add
  post_add-by o h = ap with_id h

  entered-IsPostSet :
      (id : ℕ) → IsPostSet p → id < length p.groups → IsPostSet (entered p id txnum payload)
  entered-IsPostSet id s h = record {
    known = s.known;
    named = s.named;
    placed =
        All-append (λ (e : PostEnt). e.gid < length p.groups) p.ents
          (record { gid = id; payload = payload; txnum = txnum } ∷ []) s.placed (h, tt);
  }

  module _ (s : IsPostSet p) (fresh : lookup group p.ids ≡ none) where
    new-known :
        (i : ℕ) (g : Bytes)
        → get_elem? new_groups.groups i ≡ some g
        → lookup g new_groups.ids ≡ some i
    new-known i g h = elim (dec_lt i (length p.groups)) [
      | yes old ↦
          let was = s.known i g (sym (get_elem?-append_left p.groups (group ∷ []) i old) ∙ h) in
          let read = lookup-insert group g (length p.groups) p.ids in
          let eq = beq_iff group g in ground (arith, read, was, fresh, eq)
      | no new ↦
          let back = i - length p.groups in
          let (zero_back, is) =
            one_elem group g back
              (sym (get_elem?-append_right p.groups (group ∷ []) i back (omega arith)) ∙ h) in
          let at : length p.groups ≡ i = omega arith in
          let read = lookup-insert group g (length p.groups) p.ids in
          let eq = (beq_iff group g).1 is in
          read
          ∙ ap (λ (b : Bool). if b then some (length p.groups) else lookup g p.ids) eq
          ∙ ap (λ (n : ℕ). some n) at
    ]

    new-named :
        (g : Bytes) (i : ℕ)
        → lookup g new_groups.ids ≡ some i
        → get_elem? new_groups.groups i ≡ some g
    new-named g i h =
        let read = sym (lookup-insert group g (length p.groups) p.ids) ∙ h in
        elim (Bool-cases (beq group g)) [
          | inl same ↦
              let at : i ≡ length p.groups + 0 = ground (arith, read, same) in
              let is = (beq_iff group g).0 same in
              get_elem?-append_right p.groups (group ∷ []) i 0 at ∙ ap (λ (b : Bytes). some b) is
          | inr other ↦
              let was : lookup g p.ids ≡ some i = ground (arith, read, other) in
              let there = s.named g i was in
              get_elem?-append_left p.groups (group ∷ []) i (elem_inside p.groups i g there) ∙ there
        ]

    raised :
        (es : List PostEnt)
        → All (λ (e : PostEnt). e.gid < length p.groups) es
        → All (λ (e : PostEnt). e.gid < length new_groups.groups) es
    raised [] a = tt
    raised (e ∷ es) (h, a) = (omega (arith, h, length-append p.groups (group ∷ [])), raised es a)

    new-IsPostSet : IsPostSet new_groups
    new-IsPostSet = record { known = new-known; named = new-named; placed = raised p.ents s.placed }

pub post_add-IsPostSet :
    (p : PostSet) (group : Bytes) (txnum payload : ℕ)
    → IsPostSet p
    → IsPostSet (post_add p group txnum payload)
post_add-IsPostSet p group txnum payload s = elim (Option-cases (lookup group p.ids)) [
  | inr (id, old) ↦ subst IsPostSet (sym (post_add-by p group txnum payload (some id) old)) (
      entered-IsPostSet p group txnum payload id s
        (elem_inside p.groups id group (s.named group id old)))
  | inl new ↦ subst IsPostSet (sym (post_add-by p group txnum payload none new)) (
      entered-IsPostSet (new_groups p group txnum payload) group txnum payload (length p.groups)
        (new-IsPostSet p group txnum payload s new)
        (omega (arith, length-append p.groups (group ∷ []))))
]

-- A set built up by `add` from the empty one.
abbrev pub added : List Posting → PostSet → PostSet
added [] p = p
added (x ∷ xs) p = added xs (post_add p x.group x.txnum x.payload)

pub added-IsPostSet : (xs : List Posting) (p : PostSet) → IsPostSet p → IsPostSet (added xs p)
added-IsPostSet [] p s = s
added-IsPostSet (x ∷ xs) p s =
    added-IsPostSet xs (post_add p x.group x.txnum x.payload)
      (post_add-IsPostSet p x.group x.txnum x.payload s)

-- The entries of a set, their groups written out.
abbrev pub entered_in : PostSet → List Posting
entered_in p = map (as_posting p.groups) p.ents

map-append :
    (f : PostEnt → Posting) (xs ys : List PostEnt) → map f (xs ++ ys) ≡ map f xs ++ map f ys
map-append f [] ys = refl
map-append f (x ∷ xs) ys = ap (λ (l : List Posting). f x ∷ l) (map-append f xs ys)

entered-last :
    (p : PostSet) (group : Bytes) (id txnum payload : ℕ)
    → group_at p.groups id ≡ group
    → entered_in (entered p id txnum payload)
      ≡ entered_in p ++ (record { group = group; txnum = txnum; payload = payload } ∷ [])
entered-last p group id txnum payload is =
    map-append (as_posting p.groups) p.ents
      (record { gid = id; payload = payload; txnum = txnum } ∷ [])
    ∙ ap
        (λ (g : Bytes).
          entered_in p ++ (record { group = g; txnum = txnum; payload = payload } ∷ []))
        is

group_at-some :
    (groups : List Bytes) (i : ℕ) (g : Bytes) → get_elem? groups i ≡ some g → group_at groups i ≡ g
group_at-some groups i g h =
    ap (λ (o : Option Bytes). elim o as (λ (q : Option Bytes). Bytes) [ none ↦ [] | some b ↦ b ]) h

-- One more group leaves the entries as they are.
entered_in-more :
    (groups : List Bytes) (group : Bytes) (es : List PostEnt)
    → All (λ (e : PostEnt). e.gid < length groups) es
    → map (as_posting (groups ++ (group ∷ []))) es ≡ map (as_posting groups) es
entered_in-more groups group [] a = refl
entered_in-more groups group (e ∷ es) (h, a) =
    let same =
      group_at-some (groups ++ (group ∷ [])) e.gid (group_at groups e.gid)
        (get_elem?-append_left groups (group ∷ []) e.gid h ∙ elem_at groups e.gid h) in
    ap
      (λ (g : Bytes).
        record { group = g; txnum = e.txnum; payload = e.payload }
        ∷ map (as_posting (groups ++ (group ∷ []))) es)
      same
    ∙ ap (λ (l : List Posting). as_posting groups e ∷ l) (entered_in-more groups group es a)

post_add-entered_in :
    (p : PostSet) (x : Posting)
    → IsPostSet p
    → entered_in (post_add p x.group x.txnum x.payload) ≡ entered_in p ++ (x ∷ [])
post_add-entered_in p x s = elim (Option-cases (lookup x.group p.ids)) [
  | inr (id, old) ↦
      ap entered_in (post_add-by p x.group x.txnum x.payload (some id) old)
      ∙ entered-last p x.group id x.txnum x.payload
          (group_at-some p.groups id x.group (s.named x.group id old))
  | inl new ↦
      let q = new_groups p x.group x.txnum x.payload in
      let at : length p.groups ≡ length p.groups + 0 = omega arith in
      ap entered_in (post_add-by p x.group x.txnum x.payload none new)
      ∙ entered-last q x.group (length p.groups) x.txnum x.payload (
          group_at-some q.groups (length p.groups) x.group
            (get_elem?-append_right p.groups (x.group ∷ []) (length p.groups) 0 at))
      ∙ ap (λ (l : List Posting). l ++ (x ∷ [])) (entered_in-more p.groups x.group p.ents s.placed)
]

pub added-entered_in :
    (xs : List Posting) (p : PostSet) → IsPostSet p → entered_in (added xs p) ≡ entered_in p ++ xs
added-entered_in [] p s = sym (append-nil (entered_in p))
added-entered_in (x ∷ xs) p s =
    added-entered_in xs (post_add p x.group x.txnum x.payload)
      (post_add-IsPostSet p x.group x.txnum x.payload s)
    ∙ ap (λ (l : List Posting). l ++ xs) (post_add-entered_in p x s)
    ∙ append_assoc (entered_in p) (x ∷ []) xs

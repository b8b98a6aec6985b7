-- ===== src/Store/Postings/Whole.antt =====
-- `chunks` of a posting set.
use mathlib.Core.Path.{subst}
use avalanche_s3_archival_no.Prelude.{
  ℕ, ◌≤◌, ◌^◌, ◌==◌, ◌≡◌, ◌<◌, refl, sym, ap, ◌∙◌, arith, ltb, if◌then◌else◌,
}
use avalanche_s3_archival_no.Prelude.{
  Bool, true, false, not, List, [], ◌∷◌, map, All, none, inl, inr, Bool-cases, length,
}
use avalanche_s3_archival_no.Prelude.Bytes.{Bytes}
use avalanche_s3_archival_no.Store.Run.{Row}
use avalanche_s3_archival_no.Store.Memtable.{Posting}
use avalanche_s3_archival_no.Store.Postings.{
  PostEnt, PostSet, empty_set, group_at, group_order, rank_in, sort_ents, Cutting, cut_loop, chunks,
}
use avalanche_s3_archival_no.Store.Postings.Scan.{Chunk, row_of, all_entries, Chunked}
use avalanche_s3_archival_no.Store.Postings.Collect.{collect}
use avalanche_s3_archival_no.Store.Postings.Open.{as_posting, Fine, Next, Linked}
use avalanche_s3_archival_no.Store.Postings.Cut.{cut_loop-start}
use avalanche_s3_archival_no.Store.Postings.Order.{UpTo, Climbing, Ascending, collected-Ascending}
use avalanche_s3_archival_no.Store.Postings.Ranks.{group_order-ranks}
use avalanche_s3_archival_no.Store.Postings.Union.{union_at, union_at-sort, union_at-collect}
use avalanche_s3_archival_no.Store.Keys.{payload_bits}
use avalanche_s3_archival_no.Store.Postings.Sorting.{InOrder, IsSorted, sort-IsSorted, sort-All}
use avalanche_s3_archival_no.Store.Postings.Set.{
  entered_in, added-entered_in, IsPostSet, ids_apart, added, added-IsPostSet, empty-IsPostSet,
}

abbrev ent_less : List ℕ → PostEnt → PostEnt → Bool
ent_less order a b =
    let ra = rank_in order a.gid in
    let rb = rank_in order b.gid in if not (ra == rb) then ltb ra rb else ltb a.txnum b.txnum

ent_less_asym :
    (order : List ℕ) (a b : PostEnt) → ent_less order a b ≡ true → ent_less order b a ≡ false
ent_less_asym order a b h = ground (arith, h)

module _ (p : PostSet) (s : IsPostSet p) where
  abbrev order : List ℕ
  order = group_order p.groups

  abbrev IsPlaced : PostEnt → Type 0
  IsPlaced e = e.gid < length p.groups

  Next-placed :
      (q e : PostEnt) → IsPlaced q → IsPlaced e → ent_less order e q ≡ false → Next p.groups q e
  Next-placed q e hq he h = elim (Bool-cases (q.gid == e.gid)) [
    | inr apart ↦ inl (apart, ids_apart p q.gid e.gid s hq he apart)
    | inl same ↦
        let ids : q.gid ≡ e.gid = ground (arith, same) in
        let ranks : rank_in order q.gid ≡ rank_in order e.gid = ap (rank_in order) ids in
        inr (same, ground (arith, h, ranks))
  ]

  Linked-placed :
      (q : PostEnt) (es : List PostEnt)
      → IsPlaced q
      → All IsPlaced es
      → InOrder (ent_less order) q es
      → Linked p.groups q es
  Linked-placed q [] hq a o = tt
  Linked-placed q (e ∷ es) hq (he, a) (h, o) = (Next-placed q e hq he h, Linked-placed e es he a o)

  climb_of :
      (q e : PostEnt)
      → IsPlaced q
      → IsPlaced e
      → ent_less order e q ≡ false
      → UpTo (as_posting p.groups q) (as_posting p.groups e)
  climb_of q e hq he h = elim (Bool-cases (q.gid == e.gid)) [
    | inl same ↦
        let ids : q.gid ≡ e.gid = ground (arith, same) in
        let ranks : rank_in order q.gid ≡ rank_in order e.gid = ap (rank_in order) ids in
        inr (ap (group_at p.groups) ids, ground (arith, h, ranks))
    | inr apart ↦
        let differ = ids_apart p q.gid e.gid s hq he apart in
        let le : rank_in order q.gid ≤ rank_in order e.gid = ground (arith, h) in
        inl (group_order-ranks p.groups q.gid e.gid hq he apart differ le)
  ]

  Climbing-placed :
      (q : PostEnt) (es : List PostEnt)
      → IsPlaced q
      → All IsPlaced es
      → InOrder (ent_less order) q es
      → Climbing (as_posting p.groups q) (map (as_posting p.groups) es)
  Climbing-placed q [] hq a o = tt
  Climbing-placed q (e ∷ es) hq (he, a) (h, o) = (climb_of q e hq he h, Climbing-placed e es he a o)

  Ascending-placed :
      (es : List PostEnt)
      → All IsPlaced es
      → IsSorted (ent_less order) es
      → Ascending (collect [] (map (as_posting p.groups) es))
  Ascending-placed [] a o = tt
  Ascending-placed (e ∷ es) (h, a) o =
      collected-Ascending (as_posting p.groups e) (map (as_posting p.groups) es)
        (Climbing-placed e es h a o)

  sorted-Ascending : Ascending (collect [] (map (as_posting p.groups) (sort_ents p)))
  unfolding sort_ents
  sorted-Ascending =
      Ascending-placed (sort_ents p) (sort-All (ent_less order) IsPlaced p.ents s.placed)
        (sort-IsSorted (ent_less order) (ent_less_asym order) p.ents)

  -- The chunks of a list of entries in order.
  pub record Cutted (es : List PostEnt) (rows : List Row) : Type 0 where
    pub cs : List Chunk
    pub are : rows ≡ map row_of cs
    pub ok : Chunked cs
    pub hold : all_entries cs ≡ collect [] (map (as_posting p.groups) es)

  abbrev empty_cut : Cutting
  empty_cut = record { rows = []; nums = []; pay = [] }

  cut_all :
      (es : List PostEnt)
      → All IsPlaced es
      → All (Fine p.groups) es
      → IsSorted (ent_less order) es
      → Cutted es (cut_loop p.groups none es empty_cut)
  unfolding cut_loop
  cut_all [] a f o = record { cs = []; are = refl; ok = tt; hold = refl }
  cut_all (e ∷ es) (h, a) (fine, f) o =
      let c = cut_loop-start p.groups e es fine (Linked-placed e es h a o) f in
      record { cs = c.head ∷ c.tail; are = c.is; ok = c.ok; hold = c.holds }

  pub chunks-Cutted : All (Fine p.groups) p.ents → Cutted (sort_ents p) (chunks p)
  unfolding chunks sort_ents
  chunks-Cutted f =
      cut_all (sort_ents p) (sort-All (ent_less order) IsPlaced p.ents s.placed)
        (sort-All (ent_less order) (Fine p.groups) p.ents f)
        (sort-IsSorted (ent_less order) (ent_less_asym order) p.ents)

sorted_union :
    (p : PostSet) (g : Bytes) (t : ℕ)
    → union_at g t (map (as_posting p.groups) (sort_ents p)) ≡ union_at g t (entered_in p)
unfolding sort_ents
sorted_union p g t =
    union_at-sort g t (ent_less (group_order p.groups)) (as_posting p.groups) p.ents

-- An entry of a uint64 TxNum whose payload has no bit beyond its family's width.
abbrev pub IsEntry : Posting → Type 0
IsEntry x = (x.txnum < 2 ^ 64) × (x.payload < 2 ^ payload_bits x.group)

all_map :
    (f : PostEnt → Posting) (es : List PostEnt)
    → All IsEntry (map f es)
    → All (λ (e : PostEnt). IsEntry (f e)) es
all_map f [] a = tt
all_map f (e ∷ es) (h, a) = (h, all_map f es a)

-- What is cut from entries that were added one by one, each of a uint64 TxNum and with a payload
-- that fits the width of its family, are the rows of well-formed chunks. Read one after the
-- other, the chunks have their groups in byte order and the TxNums of each group ascending, none
-- twice, and they say of every group and TxNum what the entries say: nothing if no entry names
-- them, and the union of the payloads of those that do.
pub chunks-added :
    (xs : List Posting)
    → All IsEntry xs
    → (cs : List Chunk) × (chunks (added xs empty_set) ≡ map row_of cs)
      × Chunked cs
      × Ascending (all_entries cs)
      × ((g : Bytes) (t : ℕ) → union_at g t (all_entries cs) ≡ union_at g t xs)
chunks-added xs a =
    let p = added xs empty_set in
    let s = added-IsPostSet xs empty_set empty-IsPostSet in
    let same = added-entered_in xs empty_set empty-IsPostSet in
    let fine =
      all_map (as_posting p.groups) p.ents
        (subst (λ (l : List Posting). All IsEntry l) (sym same) a) in
    let c = chunks-Cutted p s fine in
    (
      c.cs,
      c.are,
      c.ok,
      subst Ascending (sym c.hold) (sorted-Ascending p s),
      λ g t.
          ap (union_at g t) c.hold
          ∙ union_at-collect g t (map (as_posting p.groups) (sort_ents p)) []
          ∙ sorted_union p g t
          ∙ ap (union_at g t) same,
    )

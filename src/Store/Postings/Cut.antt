-- ===== src/Store/Postings/Cut.antt =====
-- The loop of `chunks`: chunks of sorted entries.
use mathlib.Core.Path.{subst}
use avalanche_s3_archival_no.Prelude.{◌==◌, ◌≡◌, ◌<◌, refl, sym, ap, ◌∙◌, arith, if◌then◌else◌}
use avalanche_s3_archival_no.Prelude.{
  Bool, true, false, List, [], ◌∷◌, ◌++◌, append-nil, none, some, length, map, All, inl, inr,
  Bool-cases,
}
use avalanche_s3_archival_no.Prelude.Bytes.{Bytes, beq}
use avalanche_s3_archival_no.Store.Run.{Row}
use avalanche_s3_archival_no.Store.Ef.{max_entries}
use avalanche_s3_archival_no.Store.Memtable.{Posting}
use avalanche_s3_archival_no.Store.Postings.{
  PostEnt, group_at, Cutting, cut_flush, group_left, cut_entry, cut_loop,
}
use avalanche_s3_archival_no.Store.Postings.Scan.{Chunk, nums_of, row_of, entries}
use avalanche_s3_archival_no.Store.Postings.Collect.{collect, absorb-new, Rising-below}
use avalanche_s3_archival_no.Store.Postings.Open.{
  as_posting, Fine, Linked, started, Opened, started-Opened, open_state, flush-row, Cuts, fresh,
  entry-fresh, Cuts-behind, ends_at-last, with_role, longer, with_role-Opened, with_role-entries,
  longer-Opened, new-entry, longer-entries, entry-again, entry-else, with_last,
}

module _ (groups : List Bytes) where
  -- The steps of the loop, each with the chunk that is open behind it.
  module _ (q e : PostEnt) (k : Chunk) (rows : List Row) (o : Opened groups q k)
      (fine : Fine groups e) where
    abbrev after : Cutting
    after = cut_entry groups e (group_left groups (some q) e (open_state groups rows k))

    left_to :
        (b : Bool)
        → (q.gid == e.gid) ≡ b
        → after
          ≡ cut_entry groups e (
              if b
              then open_state groups rows k
              else cut_flush groups q.gid (open_state groups rows k))
    left_to b h =
        ap
          (λ (a : Bool). cut_entry groups e (
            if a
            then open_state groups rows k
            else cut_flush groups q.gid (open_state groups rows k)))
          h

    step-left : (q.gid == e.gid) ≡ false → after ≡ fresh groups (rows ++ (row_of k ∷ [])) e
    step-left h =
        left_to false h
        ∙ ap (cut_entry groups e) (flush-row groups q k rows o.of)
        ∙ entry-fresh groups e (rows ++ (row_of k ∷ []))

    step-again :
        (q.gid == e.gid) ≡ true
        → q.txnum ≡ e.txnum
        → after ≡ open_state groups rows (with_role groups k e)
    step-again h same =
        let test : (q.txnum == e.txnum) ≡ true = ground arith in
        left_to true h
        ∙ entry-again groups e (open_state groups rows k) (ends_at-last groups q e k o ∙ test)

    step-full :
        (q.gid == e.gid) ≡ true
        → (q.txnum == e.txnum) ≡ false
        → (length (nums_of k) == max_entries) ≡ true
        → k.group ≡ group_at groups e.gid
        → after ≡ fresh groups (rows ++ (row_of k ∷ [])) e
    step-full h other full here =
        left_to true h
        ∙ entry-else groups e (open_state groups rows k) true (ends_at-last groups q e k o ∙ other)
            full
        ∙ ap (with_last groups e (open_state groups rows k)) (flush-row groups e k rows here)

    step-longer :
        (q.gid == e.gid) ≡ true
        → (q.txnum == e.txnum) ≡ false
        → (length (nums_of k) == max_entries) ≡ false
        → after ≡ open_state groups rows (longer groups k e)
    step-longer h other room =
        left_to true h
        ∙ entry-else groups e (open_state groups rows k) false (ends_at-last groups q e k o ∙ other)
            room

  cut_loop-done :
      (q : PostEnt) (c : Cutting) → cut_loop groups (some q) [] c ≡ (cut_flush groups q.gid c).rows
  unfolding cut_loop
  cut_loop-done q c = refl

  cut_loop-next :
      (q e : PostEnt) (es : List PostEnt) (c d : Cutting)
      → cut_entry groups e (group_left groups (some q) e c) ≡ d
      → cut_loop groups (some q) (e ∷ es) c ≡ cut_loop groups (some e) es d
  unfolding cut_loop
  cut_loop-next q e es c d h = ap (cut_loop groups (some e) es) h

  Cuts-as :
      (k j : Chunk) (rows : List Row) {acc : List Posting} {out out1 : List Row}
      → acc ≡ entries j
      → j.group ≡ k.group
      → j.first ≡ k.first
      → (es : List Posting) → out1 ≡ out
      → Cuts groups j (collect (entries j) es) rows out
      → Cuts groups k (collect acc es) rows out1
  Cuts-as k j rows all group first es out c = record {
    head = c.head;
    tail = c.tail;
    group = c.group ∙ group;
    first = c.first ∙ first;
    is = out ∙ c.is;
    ok = c.ok;
    holds = c.holds ∙ sym (ap (λ (l : List Posting). collect l es) all);
  }

  abbrev CutsOf : PostEnt → Chunk → List PostEnt → List Row → Type 0
  CutsOf q k es rows =
      Cuts groups k (collect (entries k) (map (as_posting groups) es)) rows
        (cut_loop groups (some q) es (open_state groups rows k))

  -- From the open chunk on, the loop cuts what the entries come to.
  cut_loop-Cuts :
      (es : List PostEnt) (q : PostEnt) (k : Chunk) (rows : List Row)
      → Opened groups q k
      → Linked groups q es
      → All (Fine groups) es
      → CutsOf q k es rows
  cut_loop-Cuts [] q k rows o l a = record {
    head = k;
    tail = [];
    group = refl;
    first = refl;
    is =
        cut_loop-done q (open_state groups rows k)
        ∙ ap (λ (c : Cutting). c.rows) (flush-row groups q k rows o.of);
    ok = o.ok;
    holds = append-nil (entries k);
  }
  cut_loop-Cuts (e ∷ es) q k rows o (inl (apart, differ), l) (fine, a) =
      let other = ap (λ (g : Bytes). beq g (group_at groups e.gid)) o.of ∙ differ in
      let new =
        absorb-new (group_at groups e.gid) e.txnum e.payload k.group k.first k.more k.pay q.txnum
          o.ok.paired o.at (inl other) in
      subst (Cuts groups k (collect (entries k) (map (as_posting groups) (e ∷ es))) rows)
        (sym (
          cut_loop-next q e es (open_state groups rows k) (fresh groups (rows ++ (row_of k ∷ [])) e)
            (step-left q e k rows o fine apart)))
        (Cuts-behind groups k e (map (as_posting groups) es) rows
          (cut_loop groups (some e) es (fresh groups (rows ++ (row_of k ∷ [])) e)) o.ok (inl other)
          new
          (cut_loop-Cuts es e (started groups e) (rows ++ (row_of k ∷ []))
            (started-Opened groups e fine) l a))
  cut_loop-Cuts (e ∷ es) q k rows o (inr (same, le), l) (fine, a) =
      let ids : q.gid ≡ e.gid = ground (arith, same) in
      let here = o.of ∙ ap (group_at groups) ids in
      let goal = map (as_posting groups) es in
      elim (Bool-cases (q.txnum == e.txnum)) [
        | inl again ↦
            let tx : q.txnum ≡ e.txnum = ground (arith, again) in
            Cuts-as k (with_role groups k e) rows (with_role-entries groups q e k o fine here tx)
              refl refl goal
              (cut_loop-next q e es (open_state groups rows k)
                (open_state groups rows (with_role groups k e))
                (step-again q e k rows o fine same tx))
              (cut_loop-Cuts es e (with_role groups k e) rows
                (with_role-Opened groups q e k o fine here tx) l a)
        | inr other ↦
            let up : q.txnum < e.txnum = ground (arith, other) in
            elim (Bool-cases (length (nums_of k) == max_entries)) [
              | inl full ↦
                  let closed = rows ++ (row_of k ∷ []) in
                  subst (Cuts groups k (collect (entries k) (as_posting groups e ∷ goal)) rows)
                    (sym (
                      cut_loop-next q e es (open_state groups rows k) (fresh groups closed e)
                        (step-full q e k rows o fine same other full here)))
                    (Cuts-behind groups k e goal rows
                      (cut_loop groups (some e) es (fresh groups closed e)) o.ok
                      (inr (Rising-below k.first k.more e.txnum q.txnum o.ok.rising o.at up))
                      (new-entry groups q e k o fine here other)
                      (cut_loop-Cuts es e (started groups e) closed (started-Opened groups e fine) l
                        a))
              | inr room ↦
                  let few = o.ok.few in
                  let space : length (nums_of k) < max_entries = ground (arith, room, few) in
                  Cuts-as k (longer groups k e) rows (longer-entries groups q e k o fine here other)
                    refl refl goal
                    (cut_loop-next q e es (open_state groups rows k)
                      (open_state groups rows (longer groups k e))
                      (step-longer q e k rows o fine same other room))
                    (cut_loop-Cuts es e (longer groups k e) rows
                      (longer-Opened groups q e k o fine here up space) l a)
            ]
      ]

  -- From the first entry on.
  pub cut_loop-start :
      (e : PostEnt) (es : List PostEnt)
      → Fine groups e
      → Linked groups e es
      → All (Fine groups) es
      → Cuts groups
          (started groups e)
          (collect [] (map (as_posting groups) (e ∷ es)))
          []
          (cut_loop groups none (e ∷ es) (record { rows = []; nums = []; pay = [] }))
  unfolding cut_loop
  cut_loop-start e es fine l a =
      subst
        (λ (c : Cutting).
          Cuts groups (started groups e) (collect [] (map (as_posting groups) (e ∷ es))) []
            (cut_loop groups (some e) es c))
        (sym (entry-fresh groups e []))
        (cut_loop-Cuts es e (started groups e) [] (started-Opened groups e fine) l a)

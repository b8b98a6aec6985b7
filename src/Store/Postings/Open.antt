-- ===== src/Store/Postings/Open.antt =====
-- The chunk that `chunks` has open, and what one more entry does to it.
use mathlib.Core.Path.{subst}
use avalanche_s3_archival_no.Prelude.{
  ℕ, ◌^◌, ◌==◌, ◌≡◌, ◌<◌, ◌≤◌, refl, sym, ap, ◌∙◌, arith, if◌then◌else◌,
}
use avalanche_s3_archival_no.Prelude.{
  Bool, true, false, List, [], ◌∷◌, ◌++◌, append_assoc, Option, none, some, length, map, last?, All,
  ◌⊎◌, inl, inr, length-append, All-append,
}
use avalanche_s3_archival_no.Prelude.Bytes.{Bytes, beq}
use avalanche_s3_archival_no.Store.Keys.{payload_bits}
use avalanche_s3_archival_no.Store.Run.{Row}
use avalanche_s3_archival_no.Store.Ef.{max_entries}
use avalanche_s3_archival_no.Store.Memtable.{Posting}
use avalanche_s3_archival_no.Store.Postings.{
  PostEnt, group_at, chunk_row, Cutting, cut_flush, or_last, ends_at, cut_entry,
}
use avalanche_s3_archival_no.Store.Postings.Scan.{
  Chunk, nums_of, row_of, entries, all_entries, IsChunk, Ends, Chunked,
}
use avalanche_s3_archival_no.Store.Postings.Collect.{
  absorb, collect, collect-append, absorb-last, zipped-append, absorb-new, length-or_last,
  or_last-All, last-append, Rising-append,
}

module _ (groups : List Bytes) where
  abbrev pub as_posting : PostEnt → Posting
  as_posting e = record { group = group_at groups e.gid; txnum = e.txnum; payload = e.payload }

  -- An entry of a uint64 TxNum whose payload fits its family.
  abbrev pub Fine : PostEnt → Type 0
  Fine e = (e.txnum < 2 ^ 64) × (e.payload < 2 ^ payload_bits (group_at groups e.gid))

  -- Neighbours in the sorted list: of two groups, or of one and in order.
  abbrev pub Next : PostEnt → PostEnt → Type 0
  Next q e =
      (((q.gid == e.gid) ≡ false) × (beq (group_at groups q.gid) (group_at groups e.gid) ≡ false))
      ⊎ (((q.gid == e.gid) ≡ true) × (q.txnum ≤ e.txnum))

  abbrev pub Linked : PostEnt → List PostEnt → Type 0
  Linked q [] = Unit
  Linked q (e ∷ es) = Next q e × Linked e es

  abbrev pub started : PostEnt → Chunk
  started e = record {
    group = group_at groups e.gid;
    first = e.txnum;
    more = [];
    pay = e.payload ∷ [];
  }

  -- The chunk that is open behind an entry.
  pub record Opened (q : PostEnt) (k : Chunk) : Type 0 where
    pub ok : IsChunk k
    pub of : k.group ≡ group_at groups q.gid
    pub at : last? (nums_of k) ≡ some q.txnum

  pub started-Opened : (e : PostEnt) → Fine e → Opened e (started e)
  started-Opened e (fits, narrow) = record {
    ok = record {
      rising = tt;
      fits = (fits, tt);
      few = omega arith;
      paired = refl;
      narrow = (narrow, tt);
    };
    of = refl;
    at = refl;
  }

  abbrev pub open_state : List Row → Chunk → Cutting
  open_state rows k = record { rows = rows; nums = nums_of k; pay = k.pay }

  pub flush-row :
      (q : PostEnt) (k : Chunk) (rows : List Row)
      → k.group ≡ group_at groups q.gid
      → cut_flush groups q.gid (open_state rows k)
        ≡ record { rows = rows ++ (row_of k ∷ []); nums = []; pay = [] }
  unfolding cut_flush
  flush-row q k rows e =
      ap
        (λ (g : Bytes).
          let c : Cutting = record {
            rows = rows ++ (chunk_row g k.first (nums_of k) k.pay ∷ []);
            nums = [];
            pay = [];
          } in
          c)
        (sym e)

  -- What the loop adds from an open chunk on: chunks of which the first is the open one, longer.
  pub record Cuts (k : Chunk) (all : List Posting) (rows out : List Row) : Type 0 where
    pub head : Chunk
    pub tail : List Chunk
    pub group : head.group ≡ k.group
    pub first : head.first ≡ k.first
    pub is : out ≡ rows ++ map row_of (head ∷ tail)
    pub ok : Chunked (head ∷ tail)
    pub holds : all_entries (head ∷ tail) ≡ all

  -- The next entry opens a chunk of its own.
  abbrev pub fresh : List Row → PostEnt → Cutting
  fresh rows e = open_state rows (started e)

  pub entry-fresh :
      (e : PostEnt) (rows : List Row)
      → cut_entry groups e (record { rows = rows; nums = []; pay = [] }) ≡ fresh rows e
  unfolding cut_entry
  entry-fresh e rows = refl

  pub Ends-from : (k d e : Chunk) → d.group ≡ e.group → d.first ≡ e.first → Ends k e → Ends k d
  Ends-from k d e g f (inl other) = inl (ap (beq k.group) g ∙ other)
  Ends-from k d e g f (inr below) =
      inr (subst (λ (t : ℕ). All (λ (n : ℕ). n < t) (nums_of k)) (sym f) below)

  pub Cuts-behind :
      (k : Chunk) (e : PostEnt) (es : List Posting) (rows out : List Row)
      → IsChunk k
      → Ends k (started e)
      → absorb (entries k) (as_posting e) ≡ entries k ++ (as_posting e ∷ [])
      → Cuts (started e) (collect (entries (started e)) es) (rows ++ (row_of k ∷ [])) out
      → Cuts k (collect (entries k) (as_posting e ∷ es)) rows out
  Cuts-behind k e es rows out ok ends new c = record {
    head = k;
    tail = c.head ∷ c.tail;
    group = refl;
    first = refl;
    is = c.is ∙ append_assoc rows (row_of k ∷ []) (map row_of (c.head ∷ c.tail));
    ok = (ok, Ends-from k c.head (started e) c.group c.first ends, c.ok);
    holds =
        ap (λ (l : List Posting). entries k ++ l) c.holds
        ∙ sym (collect-append (entries k) (as_posting e) [] es)
        ∙ ap (λ (l : List Posting). collect l es) (sym new);
  }

  module _ (e : PostEnt) (c : Cutting) where
    abbrev pub with_last : Cutting → Cutting
    with_last d = record d { nums = d.nums ++ (e.txnum ∷ []); pay = d.pay ++ (e.payload ∷ []) }

    pub entry-again :
        ends_at c.nums e.txnum ≡ true
        → cut_entry groups e c ≡ record c { pay = or_last c.pay e.payload }
    unfolding cut_entry
    entry-again h =
        ap
          (λ (b : Bool).
            if b
            then record c { pay = or_last c.pay e.payload }
            else with_last (if length c.nums == max_entries then cut_flush groups e.gid c else c))
          h

    pub entry-else :
        (b : Bool)
        → ends_at c.nums e.txnum ≡ false
        → (length c.nums == max_entries) ≡ b
        → cut_entry groups e c ≡ with_last (if b then cut_flush groups e.gid c else c)
    unfolding cut_entry
    entry-else b h full =
        ap
          (λ (a : Bool).
            if a
            then record c { pay = or_last c.pay e.payload }
            else with_last (if length c.nums == max_entries then cut_flush groups e.gid c else c))
          h
        ∙ ap (λ (a : Bool). with_last (if a then cut_flush groups e.gid c else c)) full

  pub ends_at-last :
      (q e : PostEnt) (k : Chunk) → Opened q k → ends_at (nums_of k) e.txnum ≡ (q.txnum == e.txnum)
  ends_at-last q e k o =
      ap
        (λ (l : Option ℕ). elim l as (λ (m : Option ℕ). Bool) [
          | none ↦ false
          | some n ↦ n == e.txnum
        ])
        o.at

  -- The open chunk with one more payload in its last entry, or with one more entry.
  abbrev pub with_role : Chunk → PostEnt → Chunk
  with_role k e = record k { pay = or_last k.pay e.payload }

  abbrev pub longer : Chunk → PostEnt → Chunk
  longer k e = record k { more = k.more ++ (e.txnum ∷ []); pay = k.pay ++ (e.payload ∷ []) }

  module _ (q e : PostEnt) (k : Chunk) (o : Opened q k) (fine : Fine e)
      (here : k.group ≡ group_at groups e.gid) where
    pub narrow_here : e.payload < 2 ^ payload_bits k.group
    narrow_here = subst (λ (g : Bytes). e.payload < 2 ^ payload_bits g) (sym here) fine.1

    pub entry-here : record { group = k.group; txnum = e.txnum; payload = e.payload } ≡ as_posting e
    entry-here =
        ap
          (λ (g : Bytes).
            let p : Posting = record { group = g; txnum = e.txnum; payload = e.payload } in p)
          here

    pub with_role-Opened : q.txnum ≡ e.txnum → Opened e (with_role k e)
    with_role-Opened same = record {
      ok = record {
        rising = o.ok.rising;
        fits = o.ok.fits;
        few = o.ok.few;
        paired = length-or_last k.pay e.payload ∙ o.ok.paired;
        narrow = or_last-All (payload_bits k.group) k.pay e.payload narrow_here o.ok.narrow;
      };
      of = here;
      at = o.at ∙ ap (λ (t : ℕ). some t) same;
    }

    pub with_role-entries :
        q.txnum ≡ e.txnum → absorb (entries k) (as_posting e) ≡ entries (with_role k e)
    with_role-entries same =
        ap (absorb (entries k)) (sym entry-here)
        ∙ absorb-last k.group e.txnum e.payload k.first k.more k.pay o.ok.paired
            (o.at ∙ ap (λ (t : ℕ). some t) same)

    pub longer-Opened : q.txnum < e.txnum → length (nums_of k) < max_entries → Opened e (longer k e)
    longer-Opened up room = record {
      ok = record {
        rising = Rising-append k.first k.more e.txnum q.txnum o.ok.rising o.at (omega arith);
        fits = All-append (λ (t : ℕ). t < 2 ^ 64) (nums_of k) (e.txnum ∷ []) o.ok.fits (fine.0, tt);
        few = omega (arith, length-append k.more (e.txnum ∷ []));
        paired = omega (
          arith,
          length-append k.more (e.txnum ∷ []),
          length-append k.pay (e.payload ∷ []),
          o.ok.paired,
        );
        narrow =
            All-append (λ (p : ℕ). p < 2 ^ payload_bits k.group) k.pay (e.payload ∷ []) o.ok.narrow
              (narrow_here, tt);
      };
      of = here;
      at = last-append (nums_of k) e.txnum;
    }

    pub new-entry :
        (q.txnum == e.txnum) ≡ false
        → absorb (entries k) (as_posting e) ≡ entries k ++ (as_posting e ∷ [])
    new-entry other =
        ap (absorb (entries k)) (sym entry-here)
        ∙ absorb-new k.group e.txnum e.payload k.group k.first k.more k.pay q.txnum o.ok.paired o.at
            (inr other)
        ∙ ap (λ (p : Posting). entries k ++ (p ∷ [])) entry-here

    pub longer-entries :
        (q.txnum == e.txnum) ≡ false → absorb (entries k) (as_posting e) ≡ entries (longer k e)
    longer-entries other =
        new-entry other
        ∙ ap (λ (p : Posting). entries k ++ (p ∷ [])) (sym entry-here)
        ∙ sym (zipped-append k.group e.txnum e.payload (nums_of k) k.pay o.ok.paired)

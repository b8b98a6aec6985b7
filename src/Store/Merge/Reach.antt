-- ===== src/Store/Merge/Reach.antt =====
-- The steps of a node that seals runs and merges them beside, and the invariant that they keep.
use avalanche_s3_archival_no.Prelude.{ℕ, suc, ◌+◌, ◌≡◌, refl, sym, ◌∙◌, arith, inl, inr}
use avalanche_s3_archival_no.Prelude.{List, [], ◌∷◌, ◌++◌, none, some}
use avalanche_s3_archival_no.Prelude.{length, All, All-append, append_assoc, Option-cases}
use avalanche_s3_archival_no.Prelude.Bytes.{Bytes}
use avalanche_s3_archival_no.Store.Manifest.{RunRef, append_run}
use avalanche_s3_archival_no.Store.Manifest.Tiling.{StartsAtEnd}
use avalanche_s3_archival_no.Store.Merge.{
  Db, Merging, idle, planned, building, plan, maybe_merge, take_inputs, install, begin_merge,
  finish_merge, merged_ref, span_refs, prev_name,
}
use avalanche_s3_archival_no.Store.Merge.Settle.{
  settle, cut, cut-append, cut-parts, prev_of, settle-append, settle-suc,
}
use avalanche_s3_archival_no.Store.Merge.Span.{
  IsL0, IsTerminal, merge_span-cut, swap_span-found, span_refs-found, prev_name-found,
}

abbrev pub fresh : Db
fresh = record { runs = []; merging = idle }

module _ (t : ℕ) (root : Bytes) (artifact : Bytes → List RunRef → Bytes) where
  -- What a node can have come to with its sealed runs, in the order of their seals: a seal appends an
  -- L0 run that starts where the runs end, under any name; the merge's three steps run beside it, in
  -- their order and at any time; a kill forgets the merge in flight. In Store/Merge/Node the seals are
  -- those of the writer of Store/Cut.
  pub data Reach : List RunRef → Db → Type 0 where
    opened : Reach [] fresh
    sealed :
        {hs js : List RunRef} {d : Db} (ref : RunRef)
        → Reach hs d
        → IsL0 ref
        → StartsAtEnd d.runs ref
        → js ≡ hs ++ (ref ∷ [])
        → Reach js (record d { runs = append_run d.runs ref })
    started : {hs : List RunRef} {d : Db} → Reach hs d → Reach hs (maybe_merge t d)
    begun : {hs : List RunRef} {d e : Db} → Reach hs d → begin_merge root d ≡ some e → Reach hs e
    finished :
        {hs : List RunRef} {d e : Db} → Reach hs d → finish_merge artifact d ≡ some e → Reach hs e
    killed : {hs : List RunRef} {d : Db} → Reach hs d → Reach hs (record d { merging = idle })

  -- A merge in flight is one of the shortest front behind the terminals.
  pub data Flight (ts rest : List RunRef) : Merging → Type 0 where
    none_in_flight : Flight ts rest idle
    plans :
        (g q : List RunRef) {s e : ℕ}
        → cut t rest ≡ some (g, q)
        → s ≡ length ts
        → e ≡ length ts + length g
        → Flight ts rest (planned s e)
    builds :
        (g q : List RunRef) {s e : ℕ} {refs : List RunRef} {prev : Bytes}
        → cut t rest ≡ some (g, q)
        → s ≡ length ts
        → e ≡ length ts + length g
        → refs ≡ g
        → prev ≡ prev_of root ts
        → Flight ts rest (building s e refs prev)

  pub record Inv (hs : List RunRef) (d : Db) : Type 0 where
    pub k : ℕ
    pub ts : List RunRef
    pub rest : List RunRef
    pub settled : settle t artifact k root hs ≡ some (ts, rest)
    pub live : d.runs ≡ ts ++ rest
    pub high : All IsTerminal ts
    pub low : All IsL0 rest
    pub flight : Flight ts rest d.merging

  Flight-append :
      (ts rest more : List RunRef) {m : Merging} → Flight ts rest m → Flight ts (rest ++ more) m
  Flight-append ts rest more none_in_flight = none_in_flight
  Flight-append ts rest more (plans g q c a b) =
      plans g (q ++ more) (cut-append t rest more g q c) a b
  Flight-append ts rest more (builds g q c a b x y) =
      builds g (q ++ more) (cut-append t rest more g q c) a b x y

  opened-Inv : Inv [] fresh
  opened-Inv = record {
    k = 0;
    ts = [];
    rest = [];
    settled = unfold settle in refl;
    live = refl;
    high = tt;
    low = tt;
    flight = none_in_flight;
  }

  sealed-Inv :
      (hs : List RunRef) (d : Db) (ref : RunRef)
      → IsL0 ref
      → Inv hs d
      → Inv (hs ++ (ref ∷ [])) (record d { runs = append_run d.runs ref })
  unfolding append_run
  sealed-Inv hs d ref l v = record {
    k = v.k;
    ts = v.ts;
    rest = v.rest ++ (ref ∷ []);
    settled = settle-append t artifact v.k root hs (ref ∷ []) v.ts v.rest v.settled;
    live = rw v.live (append_assoc v.ts v.rest (ref ∷ []));
    high = v.high;
    low = All-append IsL0 v.rest (ref ∷ []) v.low (l, tt);
    flight = Flight-append v.ts v.rest (ref ∷ []) v.flight;
  }

  plan-none :
      (ts rest : List RunRef)
      → All IsTerminal ts
      → All IsL0 rest
      → cut t rest ≡ none
      → plan t (ts ++ rest) idle ≡ idle
  unfolding plan
  plan-none ts rest h l e = ground (arith, merge_span-cut ts rest h l t)

  plan-some :
      (ts rest g q : List RunRef)
      → All IsTerminal ts
      → All IsL0 rest
      → cut t rest ≡ some (g, q)
      → plan t (ts ++ rest) idle ≡ planned (length ts) (length ts + length g)
  unfolding plan
  plan-some ts rest g q h l e = ground (arith, merge_span-cut ts rest h l t)

  plan-Flight :
      (m : Merging) (ts rest : List RunRef)
      → All IsTerminal ts
      → All IsL0 rest
      → Flight ts rest m
      → Flight ts rest (plan t (ts ++ rest) m)
  plan-Flight idle ts rest h l f = elim (Option-cases (cut t rest)) [
    | inl e ↦ rw (plan-none ts rest h l e) none_in_flight
    | inr ((g, q), e) ↦ rw (plan-some ts rest g q h l e) (plans g q e refl refl)
  ]
  plan-Flight (planned s e) ts rest h l f = unfold plan in f
  plan-Flight (building s e refs prev) ts rest h l f = unfold plan in f

  take_inputs-building :
      (runs : List RunRef) (s e : ℕ) {n : Merging}
      → take_inputs root runs (planned s e) ≡ some n
      → (refs : List RunRef) × (span_refs runs s e ≡ some refs)
        × (n ≡ building s e refs (prev_name root runs s))
  unfolding take_inputs
  take_inputs-building runs s e {n} x = elim (Option-cases (span_refs runs s e)) [
    | inl out ↦ absurd (ground (arith, x, out))
    | inr (refs, there) ↦ (refs, there, ground (arith, x, there))
  ]

  take_inputs-Flight :
      (ts rest : List RunRef) (m : Merging) {n : Merging}
      → Flight ts rest m
      → take_inputs root (ts ++ rest) m ≡ some n
      → Flight ts rest n
  take_inputs-Flight ts rest idle none_in_flight x = unfold take_inputs in cc
  take_inputs-Flight ts rest (building s e refs prev) f x = unfold take_inputs in cc
  take_inputs-Flight ts rest (planned s e) {n} (plans g q c a b) x =
      let (refs, there, is) = take_inputs-building (ts ++ rest) s e x in
      rw is (
        builds g q c a b (cc (there, span_refs-found ts g q, (cut-parts t rest g q c).0, a, b))
          (cc (prev_name-found root ts rest, a)))

  -- A merge that is being built ends with its merged run in the place of its inputs.
  pub install-found :
      (ts rest : List RunRef) (m : Merging) {runs : List RunRef}
      → Flight ts rest m
      → install artifact (ts ++ rest) m ≡ some runs
      → (g : List RunRef) × (q : List RunRef) × (ref : RunRef) × (cut t rest ≡ some (g, q))
        × (merged_ref g (artifact (prev_of root ts) g) ≡ some ref)
        × (runs ≡ ts ++ (ref ∷ q))
  unfolding install
  install-found ts rest idle none_in_flight x = absurd (cc)
  install-found ts rest (planned s e) f x = absurd (cc)
  install-found ts rest (building s e refs prev) (builds [] q c a b y z) x =
      absurd (omega (arith, cut-parts t rest [] q c))
  install-found ts rest (building s e refs prev) (builds (r ∷ rs) q c a b y z) x =
      elim (Option-cases (merged_ref refs (artifact prev refs))) [
        | inl e ↦ absurd (ground arith)
        | inr (ref, e) ↦ (
          r ∷ rs,
          q,
          ref,
          c,
          cc (e, y, z),
          ground (arith, swap_span-found ts q r rs ref, cut-parts t rest (r ∷ rs) q c),
        )
      ]

  merged_ref-IsTerminal :
      (g : List RunRef) (name : Bytes) {m : RunRef} → merged_ref g name ≡ some m → IsTerminal m
  unfolding merged_ref
  merged_ref-IsTerminal [] name e = cc
  merged_ref-IsTerminal (r ∷ rs) name e = ground arith

  All-right : (g q : List RunRef) → All IsL0 (g ++ q) → All IsL0 q
  All-right [] q a = a
  All-right (r ∷ g) q (p, a) = All-right g q a

  pub finish_merge-install :
      (d e : Db)
      → finish_merge artifact d ≡ some e
      → (runs : List RunRef) × (install artifact d.runs d.merging ≡ some runs)
        × (e ≡ record { runs = runs; merging = idle })
  unfolding finish_merge
  finish_merge-install d e x = elim (Option-cases (install artifact d.runs d.merging)) [
    | inl f ↦ absurd (ground arith)
    | inr (runs, f) ↦ (runs, f, ground arith)
  ]

  finished-Inv :
      (hs : List RunRef) (d e : Db) → finish_merge artifact d ≡ some e → Inv hs d → Inv hs e
  finished-Inv hs d e x v =
      let (runs, i, f) = finish_merge-install d e x in
      let (g, q, ref, c, m, r) = install-found v.ts v.rest d.merging v.flight (rw v.live at i) in
      rw f record {
        k = suc v.k;
        ts = v.ts ++ (ref ∷ []);
        rest = q;
        settled = settle-suc t artifact v.k root hs v.ts v.rest g q ref v.settled c m;
        live = r ∙ sym (append_assoc v.ts (ref ∷ []) q);
        high = All-append IsTerminal v.ts (ref ∷ []) v.high (merged_ref-IsTerminal g _ m, tt);
        low = All-right g q (rw (cut-parts t v.rest g q c).0 at v.low);
        flight = none_in_flight;
      }

  pub begin_merge-inputs :
      (d e : Db)
      → begin_merge root d ≡ some e
      → (m : Merging) × (take_inputs root d.runs d.merging ≡ some m)
        × (e ≡ record d { merging = m })
  unfolding begin_merge
  begin_merge-inputs d e x = elim (Option-cases (take_inputs root d.runs d.merging)) [
    | inl f ↦ absurd (ground arith)
    | inr (m, f) ↦ (m, f, ground arith)
  ]

  -- An invariant with another merge in flight.
  with_merging-Inv :
      (hs : List RunRef) (d : Db) (m : Merging) (v : Inv hs d)
      → Flight v.ts v.rest m
      → Inv hs (record d { merging = m })
  with_merging-Inv hs d m v f = record {
    k = v.k;
    ts = v.ts;
    rest = v.rest;
    settled = v.settled;
    live = v.live;
    high = v.high;
    low = v.low;
    flight = f;
  }

  begun-Inv : (hs : List RunRef) (d e : Db) → begin_merge root d ≡ some e → Inv hs d → Inv hs e
  begun-Inv hs d e x v =
      let (m, i, f) = begin_merge-inputs d e x in
      rw f (
        with_merging-Inv hs d m v
          (take_inputs-Flight v.ts v.rest d.merging v.flight (rw v.live at i)))

  started-Inv : (hs : List RunRef) (d : Db) → Inv hs d → Inv hs (maybe_merge t d)
  unfolding maybe_merge
  started-Inv hs d v =
      with_merging-Inv hs d (plan t d.runs d.merging) v
        (rw v.live (plan-Flight d.merging v.ts v.rest v.high v.low v.flight))

  pub Reach-Inv : {hs : List RunRef} {d : Db} → Reach hs d → Inv hs d
  Reach-Inv opened = opened-Inv
  Reach-Inv (sealed {hs = hs} {d = d} ref r l a e) = rw e (sealed-Inv hs d ref l (Reach-Inv r))
  Reach-Inv (started {hs = hs} {d = d} r) = started-Inv hs d (Reach-Inv r)
  Reach-Inv (begun {hs = hs} {d = d} {e = e} r x) = begun-Inv hs d e x (Reach-Inv r)
  Reach-Inv (finished {hs = hs} {d = d} {e = e} r x) = finished-Inv hs d e x (Reach-Inv r)
  Reach-Inv (killed {hs = hs} {d = d} r) = with_merging-Inv hs d idle (Reach-Inv r) none_in_flight

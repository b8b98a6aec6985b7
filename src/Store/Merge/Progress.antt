-- ===== src/Store/Merge/Progress.antt =====
-- The merge's own checks never stop it: its inputs tile, and its span is found again at the swap.
use avalanche_s3_archival_no.Prelude.{ℕ, ◌<◌, All, ◌+◌, ◌≡◌, refl, sym, ap, ◌∙◌, arith}
use avalanche_s3_archival_no.Prelude.{true, List, [], ◌∷◌, ◌++◌, some, length}
use avalanche_s3_archival_no.Prelude.{last?, last?-cases}
use avalanche_s3_archival_no.Prelude.Bytes.{Bytes}
use avalanche_s3_archival_no.Store.Manifest.{RunRef, check_tiling}
use avalanche_s3_archival_no.Store.Manifest.Tiling.{
  check_tiling-append_run, check_tiling-swap, check_tiling-left, check_tiling-right,
}
use mathlib.Core.Path.{subst}
use mathlib.Core.Option
use avalanche_s3_archival_no.Store.Merge.Determined.{publishable-terminals}
use avalanche_s3_archival_no.Store.Merge.{
  publishable, Db, Merging, idle, planned, building, maybe_merge, take_inputs, install, begin_merge,
  finish_merge, merged_ref, span_refs, prev_name,
}
use avalanche_s3_archival_no.Store.Merge.Settle.{cut, cut-parts}
use avalanche_s3_archival_no.Store.Merge.Span.{IsL0, swap_span-found, span_refs-found}
use avalanche_s3_archival_no.Store.Merge.Reach.{
  Reach, opened, sealed, started, begun, finished, killed, Flight, plans, builds, none_in_flight,
  Inv, Reach-Inv, install-found, finish_merge-install, begin_merge-inputs,
}

pub merged_ref-bounds :
    (x z : RunRef) (xs : List RunRef) (name : Bytes) {m : RunRef}
    → last? (x ∷ xs) ≡ some z
    → merged_ref (x ∷ xs) name ≡ some m
    → (m.from_tx ≡ x.from_tx)
      × (m.from_height ≡ x.from_height)
      × (m.to_tx ≡ z.to_tx)
      × (m.to_height ≡ z.to_height)
unfolding merged_ref
merged_ref-bounds x z xs name e h = ground arith

merged_ref-some :
    (x : RunRef) (xs : List RunRef) (name : Bytes)
    → (m : RunRef) × (merged_ref (x ∷ xs) name ≡ some m)
unfolding merged_ref
merged_ref-some x xs name =
    let (z, e) = last?-cases x xs in
    (
      record {
        from_tx = x.from_tx;
        to_tx = z.to_tx;
        from_height = x.from_height;
        to_height = z.to_height;
        name = name;
        level = 1;
      },
      ground arith,
    )

module _ (t : ℕ) (root : Bytes) (artifact : Bytes → List RunRef → Bytes) where
  install-tiled :
      (ts rest g q : List RunRef) (m : RunRef) (name : Bytes)
      → check_tiling (ts ++ rest) ≡ true
      → cut t rest ≡ some (g, q)
      → merged_ref g name ≡ some m
      → check_tiling (ts ++ (m ∷ q)) ≡ true
  install-tiled ts rest [] q m name h c d = absurd (omega (arith, cut-parts t rest [] q c))
  install-tiled ts rest (x ∷ xs) q m name h c d =
      let (z, e) = last?-cases x xs in
      let (b1, b2, b3, b4) = merged_ref-bounds x z xs name e d in
      check_tiling-swap ts q x z m xs
        (ap (λ (r : List RunRef). check_tiling (ts ++ r)) (sym (cut-parts t rest (x ∷ xs) q c).0)
          ∙ h)
        e b1 b2 b3 b4

  started-runs : (d : Db) → (maybe_merge t d).runs ≡ d.runs
  unfolding maybe_merge
  started-runs d = refl

  pub live_install :
      (d : Db) {hs runs : List RunRef} (v : Inv t root artifact hs d)
      → install artifact d.runs d.merging ≡ some runs
      → install artifact (v.ts ++ v.rest) d.merging ≡ some runs
  live_install d v i = ap (λ (x : List RunRef). install artifact x d.merging) (sym v.live) ∙ i

  -- In every state that a node can come to by seals of runs that start where the runs end, the live
  -- runs tile both dimensions.
  pub Reach-check_tiling :
      {hs : List RunRef} {d : Db} → Reach t root artifact hs d → check_tiling d.runs ≡ true
  Reach-check_tiling opened = unfold check_tiling in refl
  Reach-check_tiling (sealed {d = d} ref r l a e) =
      check_tiling-append_run d.runs ref (Reach-check_tiling r) a
  Reach-check_tiling (started {d = d} r) = ap check_tiling (started-runs d) ∙ Reach-check_tiling r
  Reach-check_tiling (begun {d = d} {e = e} r x) =
      ap (λ (y : Db). check_tiling y.runs) (begin_merge-inputs t root artifact d e x).2
      ∙ Reach-check_tiling r
  Reach-check_tiling (finished {d = d} {e = e} r x) =
      let (runs, i, f) = finish_merge-install t root artifact d e x in
      let v = Reach-Inv t root artifact r in
      let (g, q, ref, c, m, same) =
        install-found t root artifact v.ts v.rest d.merging v.flight (live_install d v i) in
      ap (λ (y : Db). check_tiling y.runs) f
      ∙ ap check_tiling same
      ∙ install-tiled v.ts v.rest g q ref _ (sym (ap check_tiling v.live) ∙ Reach-check_tiling r) c
          m
  Reach-check_tiling (killed {d = d} r) = Reach-check_tiling r

  take_inputs-planned :
      (ts rest g q : List RunRef)
      → check_tiling (ts ++ rest) ≡ true
      → cut t rest ≡ some (g, q)
      → take_inputs root (ts ++ rest) (planned (length ts) (length ts + length g))
        ≡ some (
            building (length ts) (length ts + length g) g (prev_name root (ts ++ rest) (length ts)))
  unfolding take_inputs
  take_inputs-planned ts rest g q h c =
      let split = (cut-parts t rest g q c).0 in
      let inner = check_tiling-left g q (
        check_tiling-right ts (g ++ q)
          (ap (λ (x : List RunRef). check_tiling (ts ++ x)) (sym split) ∙ h)) in
      let same =
        ap (λ (x : List RunRef). span_refs (ts ++ x) (length ts) (length ts + length g)) split
        ∙ span_refs-found ts g q in
      ground (arith, same, inner)

  install-building :
      (ts rest g q : List RunRef) (prev : Bytes)
      → cut t rest ≡ some (g, q)
      → (runs : List RunRef) × (install artifact
            (ts ++ rest)
            (building (length ts) (length ts + length g) g prev)
          ≡ some runs)
  unfolding install
  install-building ts rest [] q prev c = absurd (omega (arith, cut-parts t rest [] q c))
  install-building ts rest (x ∷ xs) q prev c =
      let (m, e) = merged_ref-some x xs (artifact prev (x ∷ xs)) in
      (ts ++ (m ∷ q), ground (arith, e, swap_span-found ts q x xs m, cut-parts t rest (x ∷ xs) q c))

  -- What a planned merge reads: the runs of its span, L0 runs that begin right behind the published
  -- ones.
  pub record Inputs (d : Db) (s e : ℕ) : Type 0 where
    pub refs : List RunRef
    pub behind : List RunRef
    pub prev : Bytes
    pub begins : begin_merge root d ≡ some (record d { merging = building s e refs prev })
    pub there : d.runs ≡ publishable d.runs ++ (refs ++ behind)
    pub from : s ≡ length (publishable d.runs)
    pub size : e ≡ s + length refs
    pub some_refs : 0 < length refs
    pub low : All IsL0 refs

  All-left : (g q : List RunRef) → All IsL0 (g ++ q) → All IsL0 g
  All-left [] q a = tt
  All-left (r ∷ g) q (p, a) = (p, All-left g q a)

  begin_with :
      (d : Db) {m n : Merging}
      → d.merging ≡ m
      → take_inputs root d.runs m ≡ some n
      → begin_merge root d ≡ some (record d { merging = n })
  unfolding begin_merge
  begin_with d e i =
      ap
        (λ (x : Merging).
          Option.map (λ (k : Merging). record d { merging = k }) (take_inputs root d.runs x))
        e
      ∙ ap (Option.map (λ (k : Merging). record d { merging = k })) i

  begin_Flight :
      (d : Db) (ts rest : List RunRef) (m : Merging) {s e : ℕ}
      → d.runs ≡ ts ++ rest
      → publishable d.runs ≡ ts
      → All IsL0 rest
      → d.merging ≡ m
      → m ≡ planned s e
      → check_tiling (ts ++ rest) ≡ true
      → Flight t root artifact ts rest m
      → Inputs d s e
  begin_Flight d ts rest idle lv pub_ low a b h none_in_flight = absurd (cc)
  begin_Flight d ts rest (building s e refs prev) lv pub_ low a b h f = absurd (cc)
  begin_Flight d ts rest (planned x y) {s} {e} lv pub_ low a b h (plans g q c fx fy) =
      let (split, some_g) = cut-parts t rest g q c in
      let first : s ≡ length ts = cc in
      let last : e ≡ length ts + length g = cc in
      let plan_is : planned (length ts) (length ts + length g) ≡ planned x y = cc in
      let taken =
        ap (λ (l : List RunRef). take_inputs root l (planned x y)) lv
        ∙ ap (take_inputs root (ts ++ rest)) (sym plan_is)
        ∙ take_inputs-planned ts rest g q h c in
      record {
        refs = g;
        behind = q;
        prev = prev_name root (ts ++ rest) (length ts);
        begins =
            begin_with d a taken
            ∙ ap
                (λ (k : ℕ). some (record d {
                  merging =
                      building k (length ts + length g) g (prev_name root (ts ++ rest) (length ts));
                }))
                (sym first)
            ∙ ap
                (λ (k : ℕ).
                  some (record d {
                    merging = building s k g (prev_name root (ts ++ rest) (length ts));
                  }))
                (sym last);
        there =
            lv
            ∙ ap (λ (l : List RunRef). ts ++ l) split
            ∙ ap (λ (l : List RunRef). l ++ (g ++ q)) (sym pub_);
        from = first ∙ ap (λ (l : List RunRef). length l) (sym pub_);
        size = last ∙ ap (λ (k : ℕ). k + length g) (sym first);
        some_refs = some_g;
        low = All-left g q (subst (λ (l : List RunRef). All IsL0 l) split low);
      }

  -- A merge that is planned and not killed reads its inputs, whatever was sealed meanwhile.
  pub planned-Inputs :
      {hs : List RunRef} {d : Db} {s e : ℕ}
      → Reach t root artifact hs d
      → d.merging ≡ planned s e
      → Inputs d s e
  planned-Inputs {d = d} r h =
      let v = Reach-Inv t root artifact r in
      begin_Flight d v.ts v.rest d.merging v.live
        (ap publishable v.live ∙ publishable-terminals v.ts v.rest v.high v.low) v.low refl h
        (ap check_tiling (sym v.live) ∙ Reach-check_tiling r) v.flight

  finish_Flight :
      (d : Db) (ts rest : List RunRef) (m : Merging) {s e : ℕ} {refs : List RunRef} {prev : Bytes}
      → d.runs ≡ ts ++ rest
      → d.merging ≡ m
      → m ≡ building s e refs prev
      → Flight t root artifact ts rest m
      → (d' : Db) × (finish_merge artifact d ≡ some d')
  unfolding finish_merge
  finish_Flight d ts rest idle lv a b none_in_flight = absurd (cc)
  finish_Flight d ts rest (planned s e) lv a b f = absurd (cc)
  finish_Flight d ts rest (building s e refs prev) lv a b (builds g q c x y z w) =
      let (runs, i) = install-building ts rest g q prev c in
      (record { runs = runs; merging = idle }, ground (arith, i))

  -- A merge that is being built and not killed always installs its run: at the swap its span is
  -- where it was, whatever was sealed meanwhile.
  pub finish_merge-some :
      {hs : List RunRef} {d : Db} {s e : ℕ} {refs : List RunRef} {prev : Bytes}
      → Reach t root artifact hs d
      → d.merging ≡ building s e refs prev
      → (d' : Db) × (finish_merge artifact d ≡ some d')
  finish_merge-some {d = d} r h =
      let v = Reach-Inv t root artifact r in
      finish_Flight d v.ts v.rest d.merging v.live refl h v.flight

-- ===== src/Tests/Merge.antt =====
-- A small node: four seals, and a merge that is planned before the third and installed after it.
use avalanche_s3_archival_no.Prelude.{
  ℕ, ◌≡◌, ◌≤◌, ◌<◌, refl, ap, arith, true, List, [], ◌∷◌, ◌++◌, ◌⊎◌, some,
}
use avalanche_s3_archival_no.Prelude.Bytes.{Bytes, beq}
use avalanche_s3_archival_no.Store.Manifest.{
  RunRef, check_tiling, follows, flushed_tx, append_run, run_of_tx,
}
use avalanche_s3_archival_no.Store.Manifest.Tiling.{run_of_tx-total}
use avalanche_s3_archival_no.Store.Merge.{
  Db, idle, planned, building, plan, maybe_merge, merge_span, span_of, span_end, span_start,
  level_zero_at, take_inputs, begin_merge, span_refs, prev_name, install, finish_merge, merged_ref,
  swap_span, publishable,
}
use avalanche_s3_archival_no.Store.Merge.Settle.{settle}
use avalanche_s3_archival_no.Store.Merge.Alike.{SameRanges}
use avalanche_s3_archival_no.Store.Merge.Reach.{Reach, opened, sealed, started, begun, finished}
use avalanche_s3_archival_no.Store.Merge.Determined.{publishable-settle, publishable-determined}
use avalanche_s3_archival_no.Store.Merge.Progress.{finish_merge-some}

abbrev l0 : ℕ → ℕ → ℕ → ℕ → Bytes → RunRef
l0 t0 t1 h0 h1 name = record {
  from_tx = t0;
  to_tx = t1;
  from_height = h0;
  to_height = h1;
  name = name;
  level = 0;
}

abbrev run_a : RunRef
run_a = l0 0 6 3 4 (b'a' ∷ [])

abbrev run_b : RunRef
run_b = l0 6 12 5 7 (b'b' ∷ [])

abbrev run_c : RunRef
run_c = l0 12 15 8 9 (b'c' ∷ [])

abbrev three : List RunRef
three = run_a ∷ run_b ∷ run_c ∷ []

abbrev genesis : Bytes
genesis = b'g' ∷ []

abbrev names : List RunRef → Bytes
names [] = []
names (r ∷ rs) = r.name ++ names rs

-- A stand-in for the content hash: the names that go into it.
abbrev hash_of : Bytes → List RunRef → Bytes
hash_of prev inputs = prev ++ names inputs

three-tile : check_tiling three ≡ true
unfolding check_tiling follows
three-tile = refl

in_range : 7 < flushed_tx three
unfolding flushed_tx
in_range = omega arith

run_of_tx-total_example :
    (r : RunRef) × (run_of_tx three 7 ≡ some r) × (r.from_tx ≤ 7) × (7 < r.to_tx)
run_of_tx-total_example =
    run_of_tx-total run_a (run_b ∷ run_c ∷ []) 7 three-tile (omega arith) in_range

-- The states of the node.
abbrev sealed_two : Db
sealed_two = record { runs = run_a ∷ run_b ∷ []; merging = idle }

abbrev planned_two : Db
planned_two = record { runs = run_a ∷ run_b ∷ []; merging = planned 0 2 }

abbrev planned_three : Db
planned_three = record { runs = three; merging = planned 0 2 }

abbrev building_three : Db
building_three = record { runs = three; merging = building 0 2 (run_a ∷ run_b ∷ []) genesis }

abbrev merged_ab : RunRef
merged_ab = record {
  from_tx = 0;
  to_tx = 12;
  from_height = 3;
  to_height = 7;
  name = b'g' ∷ b'a' ∷ b'b' ∷ [];
  level = 1;
}

abbrev merged_three : Db
merged_three = record { runs = merged_ab ∷ run_c ∷ []; merging = idle }

plans_two : maybe_merge 10 sealed_two ≡ planned_two
unfolding maybe_merge plan merge_span span_of span_end span_start level_zero_at
plans_two = refl

begins : begin_merge genesis planned_three ≡ some building_three
unfolding begin_merge take_inputs span_refs prev_name check_tiling follows
begins = refl

finishes : finish_merge hash_of building_three ≡ some merged_three
unfolding finish_merge install merged_ref swap_span beq
finishes = refl

two-Reach : Reach 10 genesis hash_of (run_a ∷ run_b ∷ []) sealed_two
unfolding append_run follows
two-Reach = sealed run_b (sealed run_a opened refl refl refl) refl refl refl

planned-Reach : Reach 10 genesis hash_of (run_a ∷ run_b ∷ []) planned_two
unfolding maybe_merge plan merge_span span_of span_end span_start level_zero_at
planned-Reach = started two-Reach

planned_three-Reach : Reach 10 genesis hash_of three planned_three
unfolding append_run follows
planned_three-Reach = sealed run_c planned-Reach refl refl refl

building-Reach : Reach 10 genesis hash_of three building_three
building-Reach = begun planned_three-Reach begins

merged-Reach : Reach 10 genesis hash_of three merged_three
merged-Reach = finished building-Reach finishes

-- A merge's hash of its ranges alone.
abbrev ranges : List RunRef → Bytes
ranges [] = []
ranges (r ∷ rs) = r.from_tx ∷ r.to_tx ∷ ranges rs

abbrev hash_ranges : Bytes → List RunRef → Bytes
hash_ranges prev inputs = prev ++ ranges inputs

hash_ranges-unnamed :
    (p : Bytes) (g h : List RunRef) → SameRanges g h → hash_ranges p g ≡ hash_ranges p h
hash_ranges-unnamed p g h e = ap (λ (l : Bytes). p ++ l) (same g h e)
  where
    same : (g h : List RunRef) → SameRanges g h → ranges g ≡ ranges h
    same [] [] e = refl
    same [] (s ∷ ss) e = absurd e
    same (r ∷ rs) [] e = absurd e
    same (r ∷ rs) (s ∷ ss) ((a, b, _, _, _), e) = cc (a, b, same rs ss e)

-- The first node has sealed two runs and merged them; a second one has sealed three, under other
-- names, and merged nothing yet.
abbrev merged_two : Db
merged_two = record {
  runs = record merged_ab { name = b'g' ∷ 0 ∷ 6 ∷ 6 ∷ 12 ∷ [] } ∷ [];
  merging = idle;
}

begins_two :
    begin_merge genesis planned_two
    ≡ some
        (record { runs = run_a ∷ run_b ∷ []; merging = building 0 2 (run_a ∷ run_b ∷ []) genesis })
unfolding begin_merge take_inputs span_refs prev_name check_tiling follows
begins_two = refl

finishes_two :
    finish_merge hash_ranges
      (record { runs = run_a ∷ run_b ∷ []; merging = building 0 2 (run_a ∷ run_b ∷ []) genesis })
    ≡ some merged_two
unfolding finish_merge install merged_ref swap_span beq
finishes_two = refl

merged_two-Reach : Reach 10 genesis hash_ranges (run_a ∷ run_b ∷ []) merged_two
unfolding append_run follows maybe_merge plan merge_span span_of span_end span_start level_zero_at
merged_two-Reach =
    finished
      (begun (started (sealed run_b (sealed run_a opened refl refl refl) refl refl refl))
        begins_two)
      finishes_two

abbrev renamed : RunRef → RunRef
renamed r = record r { name = b'x' ∷ r.name }

abbrev other_three : List RunRef
other_three = renamed run_a ∷ renamed run_b ∷ renamed run_c ∷ []

abbrev sealed_three : Db
sealed_three = record { runs = other_three; merging = idle }

other-Reach : Reach 10 genesis hash_ranges other_three sealed_three
unfolding append_run follows
other-Reach =
    sealed (renamed run_c)
      (sealed (renamed run_b) (sealed (renamed run_a) opened refl refl refl) refl refl refl) refl
      refl refl

publishable-settle_example :
    (k : ℕ) × (rest : List RunRef) × (settle 10 hash_of k genesis three
      ≡ some (publishable merged_three.runs, rest))
    × (merged_three.runs ≡ publishable merged_three.runs ++ rest)
publishable-settle_example = publishable-settle 10 genesis hash_of three merged_three merged-Reach

same_ranges : SameRanges three other_three
same_ranges = (
  (refl, refl, refl, refl, refl),
  ((refl, refl, refl, refl, refl), ((refl, refl, refl, refl, refl), tt)),
)

publishable-determined_example :
    ((zs : List RunRef) × (publishable sealed_three.runs ≡ publishable merged_two.runs ++ zs))
    ⊎ ((zs : List RunRef) × (publishable merged_two.runs ≡ publishable sealed_three.runs ++ zs))
publishable-determined_example =
    publishable-determined 10 genesis hash_ranges (run_a ∷ run_b ∷ []) (run_c ∷ []) other_three
      merged_two sealed_three hash_ranges-unnamed same_ranges merged_two-Reach other-Reach

finish_merge-some_example : (d' : Db) × (finish_merge hash_of building_three ≡ some d')
finish_merge-some_example = finish_merge-some 10 genesis hash_of building-Reach refl

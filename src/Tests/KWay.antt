-- ===== src/Tests/KWay.antt =====
-- Two inputs with one key in common.
use avalanche_s3_archival_no.Prelude.{ℕ, ◌≡◌, refl, List, [], ◌∷◌, some, All}
use avalanche_s3_archival_no.Prelude.Bytes.{beq, blt}
use avalanche_s3_archival_no.Store.Run.{Row}
use avalanche_s3_archival_no.Store.Run.Order.{Sorted}
use avalanche_s3_archival_no.Store.KWay.{
  merge_section, merge_loop, first_cursors, pull_least, less, advance, repeats,
}
use avalanche_s3_archival_no.Store.KWay.Order.{find_key}
use avalanche_s3_archival_no.Store.KWay.Merged.{newest, merge_section-newest}

abbrev row : ℕ → ℕ → Row
row k v = record { key = k ∷ []; val = v ∷ [] }

abbrev two_inputs : List (List Row)
two_inputs = (row 1 9 ∷ row 4 9 ∷ []) ∷ (row 1 8 ∷ row 3 8 ∷ []) ∷ []

two_inputs-Sorted : All Sorted two_inputs
unfolding blt
two_inputs-Sorted = (((refl, tt), (tt, tt)), (((refl, tt), (tt, tt)), tt))

merge_section-newest_example :
    Sorted (merge_section two_inputs)
    × (find_key (1 ∷ []) (merge_section two_inputs) ≡ some (9 ∷ []))
unfolding newest find_key beq
merge_section-newest_example = merge_section-newest two_inputs (1 ∷ []) two_inputs-Sorted

two_inputs_merged : merge_section two_inputs ≡ row 1 9 ∷ row 3 8 ∷ row 4 9 ∷ []
unfolding merge_section merge_loop first_cursors pull_least less advance repeats beq blt
two_inputs_merged = refl

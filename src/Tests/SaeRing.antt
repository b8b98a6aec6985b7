-- ===== src/Tests/SaeRing.antt =====
-- A ring with two blocks in it.
use avalanche_s3_archival_no.Prelude.{ℕ, ◌≡◌, refl, arith, List, [], ◌∷◌, some, replicate, All}
use avalanche_s3_archival_no.Prelude.Bytes.{Bytes}
use avalanche_s3_archival_no.Exec.SaeRing.{ring_get}
use avalanche_s3_archival_no.Exec.SaeRing.Newest.{
  Entry, IsPut, recent, after_puts, ring_get-recent, ring_get-window,
}

abbrev one_sum : Bytes → ℕ
one_sum x = 1

abbrev ring_entry : ℕ → Entry
ring_entry h = record { height = h; root = replicate 32 h; clock = 5 ∷ 6 ∷ [] }

abbrev two_entries : List Entry
two_entries = ring_entry 8 ∷ ring_entry 7 ∷ []

two_entries-All : All IsPut two_entries
two_entries-All = (
  record { height_fits = omega arith; root_size = refl; clock_fits = omega arith },
  (record { height_fits = omega arith; root_size = refl; clock_fits = omega arith }, tt),
)

ring_get-recent_example : ring_get one_sum (after_puts one_sum two_entries) 7 ≡ recent 7 two_entries
ring_get-recent_example =
    ring_get-recent one_sum (λ x. omega arith) (omega arith) two_entries 7 two_entries-All

ring_get-window_example :
    ring_get one_sum (after_puts one_sum two_entries) 7 ≡ some (replicate 32 7, 5 ∷ 6 ∷ [])
ring_get-window_example =
    ring_get-window one_sum 9 two_entries 1 (ring_entry 7) (λ x. omega arith) (omega arith)
      two_entries-All (refl, (refl, tt)) (omega arith) refl

-- ===== src/Store/Window/Index.antt =====
-- What the chain index answers: every row that was added, and nothing at a padded slot.
use native.Mathlib.Decide.{dec_lt}
use avalanche_s3_archival_no.Prelude.{suc, zero, sub64, replicate, length-replicate, ◌≤◌, ◌∙◌, refl}
use avalanche_s3_archival_no.Store.Window.{pad_to}
use avalanche_s3_archival_no.Prelude.{ℕ, ◌+◌, ◌-◌, ◌^◌, ◌<◌, ◌≡◌, ◌≢◌, arith}
use avalanche_s3_archival_no.Prelude.{
  true, false, List, [], ◌∷◌, ◌++◌, none, some, add64, ◌⊎◌, inl, inr, Option-cases,
}
use avalanche_s3_archival_no.Prelude.{
  length, length-append, get_elem?, get_elem?-append_right, get_elem?-append_left,
}
use avalanche_s3_archival_no.Store.Window.{ChainIndex, based, add, find}

-- Offsets and lengths go in step, an index with no base holds nothing, and no number wraps.
pub record IsIndex (c : ChainIndex) : Type 0 where
  pub in_step : length c.n ≡ length c.off
  pub unset : c.is_set ≡ false → length c.off ≡ 0
  pub fits : c.base + length c.off < 2 ^ 64

get_elem?-snoc : (xs : List ℕ) (x i : ℕ) → i ≡ length xs → get_elem? (xs ++ (x ∷ [])) i ≡ some x
get_elem?-snoc xs x i h = get_elem?-append_right xs (x ∷ []) i 0 (omega arith)

abbrev grown : ChainIndex → ℕ → ℕ → ChainIndex
grown d off n = record d { off = d.off ++ (off ∷ []); n = d.n ++ (n ∷ []) }

add-grown :
    (c d : ChainIndex) (num off n : ℕ)
    → n < 2 ^ 32
    → add c num off n ≡ some d
    → (d ≡ grown (based c num) off n) × (num ≡ add64 (based c num).base (length c.off))
unfolding add
add-grown c d num off n w h = ground arith

find-grown :
    (d : ChainIndex) (num off n : ℕ)
    → d.is_set ≡ true
    → length d.n ≡ length d.off
    → num ≡ d.base + length d.off
    → num + 1 < 2 ^ 64
    → off ≢ 0
    → find (grown d off n) num ≡ some (off, n)
unfolding find
find-grown d num off n s v e w ne = ground (
  arith,
  get_elem?-snoc d.off off (num - d.base),
  get_elem?-snoc d.n n (num - d.base),
  length-append d.off (off ∷ []),
)

find-grown_old :
    (d : ChainIndex) (num off n old : ℕ) {p : ℕ × ℕ}
    → length d.n ≡ length d.off
    → d.base + length d.off + 1 < 2 ^ 64
    → find d old ≡ some p
    → find (grown d off n) old ≡ some p
unfolding find
find-grown_old d num off n old v w h = ground (
  arith,
  get_elem?-append_left d.off (off ∷ []) (old - d.base),
  get_elem?-append_left d.n (n ∷ []) (old - d.base),
  length-append d.off (off ∷ []),
)

num_at :
    (c : ChainIndex) (num : ℕ)
    → IsIndex c
    → num + 1 < 2 ^ 64
    → num ≡ add64 (based c num).base (length c.off)
    → num ≡ (based c num).base + length (based c num).off
num_at c num v small q = ground (arith, v.unset, v.fits)

based_old :
    (c : ChainIndex) (num old : ℕ) {p : ℕ × ℕ}
    → find c old ≡ some p
    → find (based c num) old ≡ some p
unfolding find
based_old c num old h = ground arith

grown-IsIndex :
    (c : ChainIndex) (num off n : ℕ)
    → IsIndex c
    → num + 1 < 2 ^ 64
    → num ≡ (based c num).base + length (based c num).off
    → IsIndex (grown (based c num) off n)
grown-IsIndex c num off n v small at =
    ground (
      arith,
      length-append c.off (off ∷ []),
      length-append c.n (n ∷ []),
      v.in_step,
      v.fits,
      v.unset,
    )

-- A row that an index accepts, with an offset behind a record header, is found under its number
-- with its offset and length, every row that was found before is found unchanged, and the index
-- stays well formed, as long as no number wraps.
pub find-add :
    (c d : ChainIndex) (num off n old : ℕ)
    → IsIndex c
    → num + 1 < 2 ^ 64
    → off ≢ 0
    → n < 2 ^ 32
    → add c num off n ≡ some d
    → (find d num ≡ some (off, n)) × ((find c old ≡ none) ⊎ (find d old ≡ find c old)) × IsIndex d
find-add c d num off n old v small ne w h =
    let (e, q) = add-grown c d num off n w h in
    let at = num_at c num v small q in
    (
      rw e (
          find-grown (based c num) num off n (ground arith) (ground (arith, v.in_step)) at small
            ne),
      elim (Option-cases (find c old)) [
        | inl gone ↦ inl gone
        | inr (p, there) ↦ inr (
            rw (e, there)
              (find-grown_old (based c num) num off n old (ground (arith, v.in_step))
                (ground (arith, at)) (based_old c num old there)))
      ],
      rw e (grown-IsIndex c num off n v small at),
    )

get_elem?-replicate : (r i : ℕ) → i < r → get_elem? {A = ℕ} (replicate r 0) i ≡ some 0
get_elem?-replicate zero i h = absurd (omega arith)
get_elem?-replicate (suc r) zero h = refl
get_elem?-replicate (suc r) (suc i) h = get_elem?-replicate r i (omega arith)

abbrev padded : ChainIndex → ℕ → ChainIndex
padded d r = record d { off = d.off ++ replicate r 0; n = d.n ++ replicate r 0 }

find-padded :
    (d : ChainIndex) (r k : ℕ)
    → length d.n ≡ length d.off
    → d.base + length d.off + r < 2 ^ 64
    → find (padded d r) k ≡ find d k
unfolding find
find-padded d r k v fits = elim (dec_lt (k - d.base) (length d.off)) [
  | yes old ↦ ground (
    arith,
    get_elem?-append_left d.off (replicate r 0) (k - d.base) old,
    get_elem?-append_left d.n (replicate r 0) (k - d.base) (omega arith),
    length-append d.off (replicate r 0),
    length-replicate {A = ℕ} r 0,
  )
  | no new ↦ ground (
    arith,
    get_elem?-append_right d.off (replicate r 0) (k - d.base) (k - d.base - length d.off),
    get_elem?-replicate r (k - d.base - length d.off),
    length-append d.off (replicate r 0),
    length-replicate {A = ℕ} r 0,
  )
]

find-based : (c : ChainIndex) (num k : ℕ) → IsIndex c → find (based c num) k ≡ find c k
unfolding find
find-based c num k v = ground (arith, v.unset, v.fits)

-- Parking an index past a block's boundary slot, at a slot that is not below its end, changes no
-- answer, the padded slots included, and the next row that it accepts is the one at that slot.
pub find-pad_to :
    (c : ChainIndex) (next k : ℕ)
    → IsIndex c
    → 0 < next
    → next < 2 ^ 64
    → c.base + length c.off ≤ next
    → (find (pad_to c next) k ≡ find c k)
      × ((pad_to c next).base + length (pad_to c next).off ≡ next)
unfolding pad_to
find-pad_to c next k v some_slot small le =
    let d = based c (sub64 next 1) in
    let r = next - add64 d.base (length d.off) in
    let ends : d.base + length d.off + r ≡ next = ground (arith, v.unset, v.fits) in
    (
      find-padded d r k (ground (arith, v.in_step)) (omega arith) ∙ find-based c (sub64 next 1) k v,
      omega (arith, length-append d.off (replicate r 0), length-replicate {A = ℕ} r 0),
    )

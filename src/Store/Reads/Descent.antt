-- ===== src/Store/Reads/Descent.antt =====
-- The state descent: window, frozen window and runs together answer what one history of all of them
-- would.
use avalanche_s3_archival_no.Prelude.{ℕ, ◌+◌, ◌^◌, ◌≤◌, ◌<◌, ◌≡◌, refl, sym, ap, ◌∙◌, arith, ltb}
use avalanche_s3_archival_no.Prelude.{
  Bool, true, false, List, [], ◌∷◌, ◌++◌, Option, none, some, All, ◌⊎◌, inl, inr, Bool-cases,
  Option-cases,
}
use avalanche_s3_archival_no.Prelude.Bytes.{Bytes}
use avalanche_s3_archival_no.Store.Keys.{suffixed}
use avalanche_s3_archival_no.Store.Memtable.{Memtable, MemVal, history}
use avalanche_s3_archival_no.Store.Memtable.Read.{last_at, latest_state}
use avalanche_s3_archival_no.Store.Run.{Section, Run, latest}
use avalanche_s3_archival_no.Store.Run.Order.{Sorted}
use avalanche_s3_archival_no.Store.Run.Newest.{IsKeyed, history_of, latest-history, last_at-nil}
use avalanche_s3_archival_no.Store.Reads.{View, runs_latest, latest_at}

-- Two histories that a TxNum keeps apart.
abbrev pub Parted : List MemVal → List MemVal → Type 0
Parted older newer =
    (t : ℕ) × All (λ (e : MemVal). e.txnum < t) older × All (λ (e : MemVal). t ≤ e.txnum) newer

abbrev or_else {ℓ} : {A : Type ℓ} → Option A → Option A → Option A
or_else o rest = elim o [ none ↦ rest | some v ↦ some v ]

or_else_assoc {ℓ} :
    {A : Type ℓ} (x y z : Option A) → or_else (or_else x y) z ≡ or_else x (or_else y z)
or_else_assoc none y z = refl
or_else_assoc (some v) y z = refl

last_at-first :
    (at t : ℕ) (h : List MemVal) (v : MemVal)
    → All (λ (e : MemVal). t ≤ e.txnum) h
    → last_at h at ≡ some v
    → t ≤ at
unfolding last_at
last_at-first at t [] v a e = absurd (cc)
last_at-first at t (x ∷ h) v (p, a) e = ground (arith, e)

last_at-late :
    (at t : ℕ) (h : List MemVal)
    → All (λ (e : MemVal). t ≤ e.txnum) h
    → at < t
    → last_at h at ≡ none
unfolding last_at
last_at-late at t [] a lt = refl
last_at-late at t (x ∷ h) (p, a) lt = ground arith

last_at-none :
    (at : ℕ) (older newer : List MemVal)
    → last_at newer at ≡ none
    → last_at (older ++ newer) at ≡ last_at older at
unfolding last_at
last_at-none at [] newer e = e
last_at-none at (x ∷ older) newer e = ground (arith, last_at-none at older newer e)

last_at-some :
    (at t : ℕ) (older newer : List MemVal) (v : MemVal)
    → All (λ (e : MemVal). e.txnum < t) older
    → t ≤ at
    → last_at newer at ≡ some v
    → last_at (older ++ newer) at ≡ some v
unfolding last_at
last_at-some at t [] newer v a le e = e
last_at-some at t (x ∷ older) newer v (p, a) le e =
    ground (arith, last_at-some at t older newer v a le e)

last_at-append :
    (at : ℕ) (older newer : List MemVal)
    → Parted older newer
    → last_at (older ++ newer) at ≡ or_else (last_at newer at) (last_at older at)
last_at-append at older newer (t, a, b) = elim (Option-cases (last_at newer at)) [
  | inl n ↦
      last_at-none at older newer n
      ∙ sym (ap (λ (o : Option MemVal). or_else o (last_at older at)) n)
  | inr (v, s) ↦
      last_at-some at t older newer v a (last_at-first at t newer v b s) s
      ∙ sym (ap (λ (o : Option MemVal). or_else o (last_at older at)) s)
]

module _ (may_have : Run → Section → Bytes → Bool) (sec : Section) (prefix : Bytes) where
  -- What runs hold under a prefix, oldest first; the runs are newest first.
  abbrev pub runs_history : List Run → List MemVal
  runs_history [] = []
  runs_history (r ∷ older) = runs_history older ++ history_of prefix (r.rows sec)

  -- A run over older ones: its rows in order, under the prefix or not, its TxNums from its first one
  -- on and above all that is older, and a bloom gate without false negatives.
  pub record IsOver (r : Run) (older : List Run) : Type 0 where
    pub sorted : Sorted (r.rows sec)
    pub keyed : All (IsKeyed prefix) (r.rows sec)
    pub gate : (may_have r sec (suffixed prefix 0) ≡ true) ⊎ (history_of prefix (r.rows sec) ≡ [])
    pub own : All (λ (e : MemVal). r.ref.from_tx ≤ e.txnum) (history_of prefix (r.rows sec))
    pub above : All (λ (e : MemVal). e.txnum < r.ref.from_tx) (runs_history older)

  abbrev pub IsStack : List Run → Type 0
  IsStack [] = Unit
  IsStack (r ∷ older) = IsOver r older × IsStack older

  -- What the store holds under the prefix: the runs, the frozen window, the window.
  abbrev pub window_history : Option Memtable → List MemVal
  window_history none = []
  window_history (some m) = history prefix m.idx.state

  abbrev pub view_history : View → List MemVal
  view_history d = (runs_history d.runs ++ window_history d.frozen) ++ window_history (some d.mem)

  runs_latest-nil : (at : ℕ) → runs_latest may_have [] sec prefix at ≡ none
  unfolding runs_latest
  runs_latest-nil at = refl

  module _ (at : ℕ) (r : Run) (older : List Run) where
    runs_latest-late :
        ltb at r.ref.from_tx ≡ true
        → runs_latest may_have (r ∷ older) sec prefix at ≡ runs_latest may_have older sec prefix at
    unfolding runs_latest
    runs_latest-late e = ground (arith, e)

    runs_latest-due :
        ltb at r.ref.from_tx ≡ false
        → runs_latest may_have (r ∷ older) sec prefix at
          ≡ or_else (latest may_have r sec prefix at) (runs_latest may_have older sec prefix at)
    unfolding runs_latest
    runs_latest-due e = ground (arith, e)

  module _ (at : ℕ) (fits : at + 1 < 2 ^ 64) where
    runs_latest-history :
        (runs : List Run)
        → IsStack runs
        → runs_latest may_have runs sec prefix at ≡ last_at (runs_history runs) at
    runs_latest-history [] s = runs_latest-nil at ∙ sym (last_at-nil at)
    runs_latest-history (r ∷ older) (o, s) =
        let own = history_of prefix (r.rows sec) in
        let found = latest-history may_have r sec prefix at fits o.gate o.sorted o.keyed in
        let rest = runs_latest-history older s in
        let whole = last_at-append at (runs_history older) own (r.ref.from_tx, o.above, o.own) in
        elim (Bool-cases (ltb at r.ref.from_tx)) [
          | inl late ↦
              let none_own = last_at-late at r.ref.from_tx own o.own (ground (arith, late)) in
              runs_latest-late at r older late
              ∙ rest
              ∙ sym (
                  whole
                  ∙ ap (λ (v : Option MemVal). or_else v (last_at (runs_history older) at))
                      none_own)
          | inr due ↦
              runs_latest-due at r older due
              ∙ ap (λ (v : Option MemVal). or_else v (runs_latest may_have older sec prefix at))
                  found
              ∙ ap (or_else (last_at own at)) rest
              ∙ sym whole
        ]

    abbrev ask_frozen : Option Memtable → Option MemVal
    ask_frozen o = elim o [ none ↦ none | some f ↦ latest_state f.idx prefix at ]

    frozen-history : (o : Option Memtable) → ask_frozen o ≡ last_at (window_history o) at
    unfolding latest_state
    frozen-history none = sym (last_at-nil at)
    frozen-history (some m) = refl

    latest_at-windows :
        (d : View)
        → latest_at may_have d sec prefix at
          ≡ or_else
              (or_else (last_at (window_history (some d.mem)) at) (ask_frozen d.frozen))
              (runs_latest may_have d.runs sec prefix at)
    unfolding latest_at latest_state
    latest_at-windows d = refl

    -- The state descent answers the last write at or below the TxNum of the one history that the runs,
    -- the frozen window and the window make together, if each has only TxNums above what is older, the
    -- runs are in order and their bloom gates turn away no prefix that has rows.
    pub latest_at-history :
        (d : View)
        → IsStack d.runs
        → Parted (runs_history d.runs) (window_history d.frozen)
        → Parted (runs_history d.runs ++ window_history d.frozen) (window_history (some d.mem))
        → latest_at may_have d sec prefix at ≡ last_at (view_history d) at
    latest_at-history d s p q =
        let mem = last_at (window_history (some d.mem)) at in
        let cold = last_at (window_history d.frozen) at in
        let runs = last_at (runs_history d.runs) at in
        latest_at-windows d
        ∙ ap
            (λ (v : Option MemVal).
              or_else (or_else mem v) (runs_latest may_have d.runs sec prefix at))
            (frozen-history d.frozen)
        ∙ ap (or_else (or_else mem cold)) (runs_latest-history d.runs s)
        ∙ or_else_assoc mem cold runs
        ∙ ap (or_else mem)
            (sym (last_at-append at (runs_history d.runs) (window_history d.frozen) p))
        ∙ sym (
            last_at-append at (runs_history d.runs ++ window_history d.frozen)
              (window_history (some d.mem)) q)

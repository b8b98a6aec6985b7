-- ===== src/Store/Cut/Ends.antt =====
-- The ends of the store: runs, the frozen window and the active one stay joined through every
-- write, cut and seal.
use avalanche_s3_archival_no.Prelude.{ℕ, ◌^◌, ◌<◌, ◌≡◌, refl, sym, ap, ◌∙◌, arith, add64, ◌==◌}
use avalanche_s3_archival_no.Prelude.{
  true, false, not, ◌||◌, List, [], ◌∷◌, ◌++◌, Option, none, some, last?,
}
use avalanche_s3_archival_no.Prelude.{inl, inr, Bool-cases, Option-cases}
use avalanche_s3_archival_no.Prelude.Bytes.{Bytes}
use mathlib.Core.Path.{subst}
use avalanche_s3_archival_no.Store.Manifest.{
  RunRef, follows, check_tiling, flushed_tx, flushed_height, sealed_ref, append_run,
}
use avalanche_s3_archival_no.Store.Manifest.Tiling.{StartsAtEnd, check_tiling-append_run}
use avalanche_s3_archival_no.Store.Memtable.{Memtable, reset}
use avalanche_s3_archival_no.Store.Memtable.Torn.{IsOpen}
use avalanche_s3_archival_no.Store.Flat.{FlatCache}
use avalanche_s3_archival_no.Store.Cut.{
  Writer, next_tx, next_height, prev_run, seal, wait_cut, freeze, cut_window, flush, maybe_flush,
}

-- Where a run list, or a frozen window behind it, ends.
abbrev pub run_end : List RunRef → Option (ℕ × ℕ)
run_end runs = elim (last? runs) [ none ↦ none | some z ↦ some (z.to_tx, add64 z.to_height 1) ]

abbrev pub cut_end : List RunRef → Option Memtable → Option (ℕ × ℕ)
cut_end runs none = run_end runs
cut_end runs (some f) = some (f.next_tx, f.next_height)

-- A window that starts at an end: the first of an empty store takes slot 0, and any first block.
abbrev pub Joins : Option (ℕ × ℕ) → Memtable → Type 0
Joins none m = (m.base_tx ≡ 0) × (m.started ≡ false → m.base_height ≡ 0)
Joins (some (t, h)) m = (m.base_tx ≡ t) × (m.base_height ≡ h) × (0 < h)

pub record IsWindow (m : Memtable) : Type 0 where
  pub bounds : IsOpen m
  pub height_fits : m.next_height < 2 ^ 64
  pub empty : m.started ≡ false → (m.next_tx ≡ m.base_tx) × (m.next_height ≡ m.base_height)
  pub busy : m.started ≡ true → 0 < m.next_height

abbrev pub IsFrozen : List RunRef → Option Memtable → Type 0
IsFrozen runs none = Unit
IsFrozen runs (some f) = IsWindow f × (f.started ≡ true) × Joins (run_end runs) f

pub record IsJoined (d : Writer) : Type 0 where
  pub tiled : check_tiling d.runs ≡ true
  pub frozen_ok : IsFrozen d.runs d.frozen
  pub active : IsWindow d.mem
  pub joins : Joins (cut_end d.runs d.frozen) d.mem

last?-append {ℓ} : {A : Type ℓ} (xs : List A) (x : A) → last? (xs ++ (x ∷ [])) ≡ some x
last?-append [] x = refl
last?-append (y ∷ []) x = refl
last?-append (y ∷ z ∷ xs) x = last?-append (z ∷ xs) x

-- The read side agrees with the active window.
next-mem :
    (runs : List RunRef) (mem : Memtable) (frozen : Option Memtable) (flat : FlatCache)
    → IsFrozen runs frozen
    → IsWindow mem
    → Joins (cut_end runs frozen) mem
    → (next_height (record { runs = runs; mem = mem; frozen = frozen; flat = flat })
        ≡ mem.next_height)
      × (next_tx (record { runs = runs; mem = mem; frozen = frozen; flat = flat }) ≡ mem.next_tx)
unfolding next_height next_tx flushed_height flushed_tx
next-mem runs mem (some f) flat (w, on, j) a h = elim (Bool-cases mem.started) [
  | inl busy ↦ ground arith
  | inr idle ↦ ground (arith, a.empty idle)
]
next-mem runs mem none flat w a h = elim (Bool-cases mem.started) [
  | inl busy ↦ ground arith
  | inr idle ↦ elim (Option-cases (last? runs)) [
    | inl e ↦ ground (arith, a.empty idle)
    | inr (z, e) ↦ ground (arith, a.empty idle)
  ]
]

pub joined_start :
    (runs : List RunRef) (f : Memtable) (name : Bytes)
    → Joins (run_end runs) f
    → StartsAtEnd runs (sealed_ref f.base_tx f.next_tx f.base_height f.next_height name)
unfolding sealed_ref follows
joined_start runs f name j = elim (Option-cases (last? runs)) [
  | inl e ↦ ground (arith, e)
  | inr (z, e) ↦ ground (arith, e)
]

module _ (chain_root : Bytes) (run_name : Bytes → Memtable → Bytes) where
  seal-IsJoined :
      (runs : List RunRef) (mem f : Memtable) (flat : FlatCache)
      → IsJoined (record { runs = runs; mem = mem; frozen = some f; flat = flat })
      → IsJoined (
          seal chain_root run_name
            (record { runs = runs; mem = mem; frozen = some f; flat = flat })
            f)
  unfolding seal append_run sealed_ref
  seal-IsJoined runs mem f flat v =
      let (w, on, j) = v.frozen_ok in
      let name = run_name (prev_run chain_root run_name runs) f in
      let ref = sealed_ref f.base_tx f.next_tx f.base_height f.next_height name in
      let newest = last?-append runs ref in
      let small = w.height_fits in
      record {
        tiled = check_tiling-append_run runs ref v.tiled (joined_start runs f name j);
        frozen_ok = tt;
        active = v.active;
        joins = ground (arith, newest, v.joins);
      }

  pub wait_cut-IsJoined : (d : Writer) → IsJoined d → IsJoined (wait_cut chain_root run_name d)
  unfolding wait_cut
  wait_cut-IsJoined d v = go d.frozen refl
    where
      go :
          (o : Option Memtable)
          → d.frozen ≡ o
          → IsJoined (elim d.frozen [ none ↦ d | some m ↦ seal chain_root run_name d m ])
      go none e =
          subst
            (λ (o : Option Memtable).
              IsJoined (elim o [ none ↦ d | some m ↦ seal chain_root run_name d m ]))
            (sym e) v
      go (some f) e =
          subst
            (λ (o : Option Memtable).
              IsJoined (elim o [ none ↦ d | some m ↦ seal chain_root run_name d m ]))
            (sym e)
            (seal-IsJoined d.runs d.mem f d.flat (
              subst
                (λ (o : Option Memtable).
                  IsJoined (record { runs = d.runs; mem = d.mem; frozen = o; flat = d.flat }))
                e v))

  pub wait_cut-frozen : (d : Writer) → (wait_cut chain_root run_name d).frozen ≡ none
  unfolding wait_cut seal
  wait_cut-frozen d = elim (Option-cases d.frozen) [
    | inl e ↦ ground (arith, e)
    | inr (f, e) ↦ ground (arith, e)
  ]

  wait_cut-mem : (d : Writer) → (wait_cut chain_root run_name d).mem ≡ d.mem
  unfolding wait_cut seal
  wait_cut-mem d = elim (Option-cases d.frozen) [
    | inl e ↦ ground (arith, e)
    | inr (f, e) ↦ ground (arith, e)
  ]

freeze-IsJoined : (d : Writer) → IsJoined d → d.frozen ≡ none → IsJoined (freeze d)
unfolding freeze reset
freeze-IsJoined d v e =
    elim (Bool-cases (not d.mem.started || (d.mem.next_height == d.mem.base_height))) [
      | inl still ↦ rw still v
      | inr full ↦
          let on : d.mem.started ≡ true = ground arith in
          let a = v.active in
          rw full record {
            tiled = v.tiled;
            frozen_ok = (
              v.active,
              on,
              subst (λ (o : Option Memtable). Joins (cut_end d.runs o) d.mem) e v.joins,
            );
            active = record {
              bounds = record { ordered = omega arith; fits = a.bounds.fits };
              height_fits = a.height_fits;
              empty = λ _. (refl, refl);
              busy = λ h. cc;
            };
            joins = (refl, refl, a.busy on);
          }
    ]

freeze-ends :
    (d : Writer)
    → ((freeze d).mem.next_height ≡ d.mem.next_height) × ((freeze d).mem.next_tx ≡ d.mem.next_tx)
unfolding freeze reset
freeze-ends d = ground arith

pub next-IsJoined :
    (d : Writer) → IsJoined d → (next_height d ≡ d.mem.next_height) × (next_tx d ≡ d.mem.next_tx)
next-IsJoined d v = next-mem d.runs d.mem d.frozen d.flat v.frozen_ok v.active v.joins

module _ (chain_root : Bytes) (run_name : Bytes → Memtable → Bytes) where
  pub cut_window-IsJoined : (d : Writer) → IsJoined d → IsJoined (cut_window chain_root run_name d)
  unfolding cut_window
  cut_window-IsJoined d v =
      freeze-IsJoined (wait_cut chain_root run_name d) (wait_cut-IsJoined chain_root run_name d v)
        (wait_cut-frozen chain_root run_name d)

  cut_window-ends :
      (d : Writer)
      → ((cut_window chain_root run_name d).mem.next_height ≡ d.mem.next_height)
        × ((cut_window chain_root run_name d).mem.next_tx ≡ d.mem.next_tx)
  unfolding cut_window
  cut_window-ends d =
      let (h, n) = freeze-ends (wait_cut chain_root run_name d) in
      let e = wait_cut-mem chain_root run_name d in
      (h ∙ ap (λ (m : Memtable). m.next_height) e, n ∙ ap (λ (m : Memtable). m.next_tx) e)

  pub flush-IsJoined : (d : Writer) → IsJoined d → IsJoined (flush chain_root run_name d)
  unfolding flush
  flush-IsJoined d v =
      wait_cut-IsJoined chain_root run_name (cut_window chain_root run_name d)
        (cut_window-IsJoined d v)

  -- Collecting the seal in flight, cutting the window and flushing it move neither end of the store:
  -- the next block takes the same height and the same TxNum before and after, whichever of the runs,
  -- the frozen window and the active window holds them.
  pub next-flush :
      (d : Writer)
      → IsJoined d
      → ((next_height (wait_cut chain_root run_name d) ≡ next_height d)
          × (next_tx (wait_cut chain_root run_name d) ≡ next_tx d))
        × ((next_height (cut_window chain_root run_name d) ≡ next_height d)
            × (next_tx (cut_window chain_root run_name d) ≡ next_tx d))
        × ((next_height (flush chain_root run_name d) ≡ next_height d)
            × (next_tx (flush chain_root run_name d) ≡ next_tx d))
  unfolding flush
  next-flush d v =
      let w = wait_cut chain_root run_name d in
      let c = cut_window chain_root run_name d in
      let f = wait_cut chain_root run_name c in
      let (h, n) = next-IsJoined d v in
      let (hw, nw) = next-IsJoined w (wait_cut-IsJoined chain_root run_name d v) in
      let (hc, nc) = next-IsJoined c (cut_window-IsJoined d v) in
      let (hf, nf) = next-IsJoined f (flush-IsJoined d v) in
      let e = wait_cut-mem chain_root run_name d in
      let k = wait_cut-mem chain_root run_name c in
      let (p, q) = cut_window-ends d in
      (
        (
          hw ∙ ap (λ (m : Memtable). m.next_height) e ∙ sym h,
          nw ∙ ap (λ (m : Memtable). m.next_tx) e ∙ sym n,
        ),
        (hc ∙ p ∙ sym h, nc ∙ q ∙ sym n),
        (
          hf ∙ ap (λ (m : Memtable). m.next_height) k ∙ p ∙ sym h,
          nf ∙ ap (λ (m : Memtable). m.next_tx) k ∙ q ∙ sym n,
        ),
      )

  module _ (flush_txs flush_blocks : ℕ) where
    pub maybe_flush-IsJoined :
        (d : Writer)
        → IsJoined d
        → IsJoined (maybe_flush chain_root run_name flush_txs flush_blocks d)
    unfolding maybe_flush
    maybe_flush-IsJoined d v = ground (arith, v, cut_window-IsJoined d v)

    pub maybe_flush-ends :
        (d : Writer)
        → ((maybe_flush chain_root run_name flush_txs flush_blocks d).mem.next_height
            ≡ d.mem.next_height)
          × ((maybe_flush chain_root run_name flush_txs flush_blocks d).mem.next_tx ≡ d.mem.next_tx)
    unfolding maybe_flush
    maybe_flush-ends d = ground (arith, cut_window-ends d)

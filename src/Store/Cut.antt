-- ===== src/Store/Cut.antt =====
-- The writer of store/db.go: a block into the window, the cut of a full window, the seal of the
-- frozen one into a run, and the ends that the next block starts from.
pub mod Ends
pub mod Life
use avalanche_s3_archival_no.Prelude.{ℕ, ◌+◌, ◌-◌, ◌==◌, ltb, sub64, if◌then◌else◌}
use avalanche_s3_archival_no.Prelude.{
  Bool, true, false, not, ◌&&◌, ◌||◌, List, [], ◌∷◌, Option, none, some, length,
}
use avalanche_s3_archival_no.Prelude.Bytes.{Bytes}
use avalanche_s3_archival_no.Prelude.Fail.{◌>>=◌}
use avalanche_s3_archival_no.Store.Rows.{BlockWrite}
use avalanche_s3_archival_no.Store.Manifest.{
  RunRef, flushed_tx, flushed_height, sealed_ref, append_run, head,
}
use avalanche_s3_archival_no.Store.Memtable.{Memtable, reset}
use avalanche_s3_archival_no.Store.Memtable.Write.{add_block}
use avalanche_s3_archival_no.Store.Flat.{FlatCache, apply}

-- `frozen` is the window whose seal runs on its goroutine, nil without one.
pub record Writer : Type 0 where
  pub runs : List RunRef
  pub mem : Memtable
  pub frozen : Option Memtable
  pub flat : FlatCache

-- `NextTx` and `NextHeight`
abbrev window_end : (Memtable → ℕ) → Memtable → Option Memtable → ℕ → ℕ
window_end end_ mem none flushed = if mem.started then end_ mem else flushed
window_end end_ mem (some f) flushed =
    if mem.started then end_ mem else if f.started then end_ f else flushed

unfoldable pub next_tx : Writer → ℕ
next_tx d = window_end (λ m. m.next_tx) d.mem d.frozen (flushed_tx d.runs)

unfoldable pub next_height : Writer → ℕ
next_height d = window_end (λ m. m.next_height) d.mem d.frozen (flushed_height d.runs)

-- The highest stored height; `none` on an empty store.
unfoldable pub head_height : Writer → Option ℕ
unfolding next_height
head_height d = if next_height d == 0 then none else some (sub64 (next_height d) 1)

-- The window is frozen as it is, and a fresh one starts at its end.
unfoldable pub freeze : Writer → Writer
freeze d =
    if not d.mem.started || (d.mem.next_height == d.mem.base_height)
    then d
    else record d { frozen = some d.mem; mem = reset d.mem.next_tx d.mem.next_height }

-- `run_name` is the content hash of the run that the sections of a window make, behind a previous
-- name.
module _ (chain_root : Bytes) (run_name : Bytes → Memtable → Bytes) where
  unfoldable pub prev_run : List RunRef → Bytes
  prev_run [] = chain_root
  prev_run (r ∷ rs) = head (r ∷ rs)

  unfoldable pub seal : Writer → Memtable → Writer
  unfolding prev_run
  seal d m =
      let ref =
        sealed_ref m.base_tx m.next_tx m.base_height m.next_height (run_name (prev_run d.runs) m) in
      record d { runs = append_run d.runs ref; frozen = none }

  -- The cut in flight is collected: its seal has run.
  unfoldable pub wait_cut : Writer → Writer
  unfolding seal
  wait_cut d = elim d.frozen [ none ↦ d | some m ↦ seal d m ]

  unfoldable pub cut_window : Writer → Writer
  unfolding wait_cut freeze
  cut_window d = freeze (wait_cut d)

  -- `Flush`: the synchronous form.
  unfoldable pub flush : Writer → Writer
  unfolding wait_cut cut_window
  flush d = wait_cut (cut_window d)

  module _ (flush_txs flush_blocks : ℕ) where
    unfoldable pub maybe_flush : Writer → Writer
    unfolding cut_window
    maybe_flush d =
        if not d.mem.started
        then d
        else if ltb (sub64 d.mem.next_tx d.mem.base_tx) flush_txs
            && ltb (sub64 d.mem.next_height d.mem.base_height) flush_blocks
        then d
        else cut_window d

    module _ (keccak sha : Bytes → Bytes) (bare : Bytes → List Bytes → Option Bytes) where
      -- `WriteBlock`; `none` is the error of `add`.
      unfoldable pub write_block : Writer → BlockWrite → Option Writer
      unfolding maybe_flush
      write_block d b = add_block keccak sha bare d.mem b >>= λ m.
          some (maybe_flush (record d { mem = m; flat = apply d.flat b }))

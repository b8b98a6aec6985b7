-- ===== src/Store/Merge.antt =====
-- The terminal merge of store/merge.go on the manifest: the span that it takes, the merged run's
-- reference and the swap, as the steps of a machine in which seals go on while a merge runs.
mod Span
pub mod Settle
pub mod Alike
pub mod Reach
pub mod Determined
pub mod Progress
pub mod Seals
pub mod Node
use avalanche_s3_archival_no.Prelude.{ℕ, zero, suc, ◌+◌, ◌-◌, ◌==◌, leb, ltb, sub64, if◌then◌else◌}
use avalanche_s3_archival_no.Prelude.{
  Bool, true, false, not, ◌&&◌, ◌||◌, List, [], ◌∷◌, ◌++◌, Option, none, some,
}
use avalanche_s3_archival_no.Prelude.{length, get_elem?, take, drop, last?}
use avalanche_s3_archival_no.Prelude.Bytes.{Bytes, beq}
use mathlib.Core.Option
use avalanche_s3_archival_no.Store.Manifest.{
  RunRef, follows, check_tiling, is_terminal, terminal_level,
}

-- `runs[i].Level == 0`, in range
unfoldable pub level_zero_at : List RunRef → ℕ → Bool
level_zero_at runs i = elim (get_elem? runs i) [ none ↦ false | some r ↦ r.level == 0 ]

-- The first loop: from `start` down while the run below is an L0 run.
unfoldable pub span_start : List RunRef → ℕ → ℕ
span_start runs zero = zero
span_start runs (suc i) = if level_zero_at runs i then span_start runs i else suc i

-- The second loop, over `runs[end..]`: the index behind the first run that reaches the boundary.
unfoldable pub span_end : ℕ → ℕ → List RunRef → ℕ → Option ℕ
span_end terminal_txs from_tx [] i = none
span_end terminal_txs from_tx (r ∷ rs) i =
    if leb terminal_txs (sub64 r.to_tx from_tx)
    then some (i + 1)
    else span_end terminal_txs from_tx rs (i + 1)

-- From a start, with the runs there; `runs[start].FromTx` is read only where there is one.
unfoldable pub span_of : ℕ → ℕ → List RunRef → Option (ℕ × ℕ)
span_of terminal_txs start [] = none
span_of terminal_txs start (r ∷ rs) = elim (span_end terminal_txs r.from_tx (r ∷ rs) start) [
  | none ↦ none
  | some end_ ↦ some (start, end_)
]

unfoldable pub merge_span : ℕ → List RunRef → Option (ℕ × ℕ)
merge_span terminal_txs runs =
    let start = span_start runs (length runs) in span_of terminal_txs start (drop start runs)

-- The inputs and the name of the run before them, as `merge` reads them off the manifest.
-- `none` is the slice panic of a span that is out of range.
unfoldable pub span_refs : List RunRef → ℕ → ℕ → Option (List RunRef)
span_refs runs start end_ =
    if leb start end_ && leb end_ (length runs)
    then some (take (end_ - start) (drop start runs))
    else none

unfoldable pub prev_name : Bytes → List RunRef → ℕ → Bytes
prev_name chain_root runs start =
    if ltb 0 start
    then elim (get_elem? runs (start - 1)) [ none ↦ chain_root | some r ↦ r.name ]
    else chain_root

-- The merged run's reference, over the first and last input.
abbrev merged_over : RunRef → RunRef → Bytes → RunRef
merged_over from to name = record {
  from_tx = from.from_tx;
  to_tx = to.to_tx;
  from_height = from.from_height;
  to_height = to.to_height;
  name = name;
  level = terminal_level;
}

unfoldable pub merged_ref : List RunRef → Bytes → Option RunRef
merged_ref [] name = none
merged_ref (r ∷ rs) name = elim (last? (r ∷ rs)) [
  | none ↦ none
  | some to ↦ some (merged_over r to name)
]

abbrev same_name : Option RunRef → Option RunRef → Bool
same_name (some a) (some b) = beq a.name b.name
same_name (some a) none = false
same_name none b = false

-- The swap: refused if the span is no longer where it was.
unfoldable pub swap_span : List RunRef → ℕ → ℕ → List RunRef → RunRef → Option (List RunRef)
swap_span old start end_ refs ref =
    if ltb (length old) end_
      || (not (same_name (get_elem? old start) (get_elem? refs 0))
          || not (same_name (get_elem? old (end_ - 1)) (last? refs)))
    then none
    else some (take start old ++ (ref ∷ drop end_ old))

-- A merge in flight: its span is fixed when it is started, and its inputs when it begins to read.
pub data Merging : Type 0 where
  idle : Merging
  planned : ℕ → ℕ → Merging
  building : ℕ → ℕ → List RunRef → Bytes → Merging

pub record Db : Type 0 where
  pub runs : List RunRef
  pub merging : Merging

-- `MaybeMerge` where it starts a merge, or finds one in flight or nothing to do.
unfoldable pub plan : ℕ → List RunRef → Merging → Merging
plan terminal_txs runs idle = elim (merge_span terminal_txs runs) [
  | none ↦ idle
  | some (start, end_) ↦ planned start end_
]
plan terminal_txs runs (planned s e) = planned s e
plan terminal_txs runs (building s e refs prev) = building s e refs prev

unfoldable pub maybe_merge : ℕ → Db → Db
maybe_merge terminal_txs d = record d { merging = plan terminal_txs d.runs d.merging }

-- The head of `merge`: the inputs under the read lock, and the contiguity check on them.
-- `none` is the error, or the panic.
unfoldable pub take_inputs : Bytes → List RunRef → Merging → Option Merging
take_inputs chain_root runs idle = none
take_inputs chain_root runs (building s e refs prev) = none
take_inputs chain_root runs (planned start end_) = elim (span_refs runs start end_) [
  | none ↦ none
  | some refs ↦
      if check_tiling refs
      then some (building start end_ refs (prev_name chain_root runs start))
      else none
]

unfoldable pub begin_merge : Bytes → Db → Option Db
begin_merge chain_root d =
    Option.map (λ (m : Merging). record d { merging = m }) (take_inputs chain_root d.runs d.merging)

-- The tail of `merge`: the merged run's reference and the swap under the write lock. `none` is the
-- error that the span moved. `artifact prev inputs` is the content hash of the merged run: merging
-- is a pure function of both.
unfoldable pub install :
    (Bytes → List RunRef → Bytes) → List RunRef → Merging → Option (List RunRef)
install artifact runs idle = none
install artifact runs (planned s e) = none
install artifact runs (building start end_ refs prev) =
    elim (merged_ref refs (artifact prev refs)) [
      | none ↦ none
      | some ref ↦ swap_span runs start end_ refs ref
    ]

unfoldable pub finish_merge : (Bytes → List RunRef → Bytes) → Db → Option Db
finish_merge artifact d =
    Option.map (λ (runs : List RunRef). record { runs = runs; merging = idle })
      (install artifact d.runs d.merging)

-- What a manifest publishes: the leading run of terminals.
unfoldable pub publishable : List RunRef → List RunRef
publishable [] = []
publishable (r ∷ rs) = if is_terminal r then r ∷ publishable rs else []

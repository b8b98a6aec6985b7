-- ===== src/Store/Manifest.antt =====
-- The manifest of live runs (store/db.go): the run references, the tiling that `checkTiling` demands
-- at open, the ends that the next window starts from, and the append of a sealed run.
pub mod Tiling
use avalanche_s3_archival_no.Prelude.{
  ℕ, ◌+◌, ◌-◌, ◌%◌, ◌^◌, ◌==◌, add64, sub64, last?, leb, ltb, if◌then◌else◌,
}
use avalanche_s3_archival_no.Prelude.{
  Bool, true, false, not, ◌&&◌, List, [], ◌∷◌, ◌++◌, Option, none, some,
}
use avalanche_s3_archival_no.Prelude.Bytes.{Bytes}

pub record RunRef : Type 0 where
  pub from_tx : ℕ
  pub to_tx : ℕ
  pub from_height : ℕ
  pub to_height : ℕ
  pub name : Bytes
  pub level : ℕ

abbrev pub terminal_level : ℕ
terminal_level = 1

unfoldable pub is_terminal : RunRef → Bool
is_terminal r = leb terminal_level r.level

-- Does `b` start exactly where `a` ends?
unfoldable pub follows : RunRef → RunRef → Bool
follows a b = (b.from_tx == a.to_tx) && (b.from_height == add64 a.to_height 1)

-- `checkTiling`; false is its error.
unfoldable pub check_tiling : List RunRef → Bool
unfolding follows
check_tiling [] = true
check_tiling (a ∷ []) = true
check_tiling (a ∷ b ∷ rs) = follows a b && check_tiling (b ∷ rs)

unfoldable pub flushed_tx : List RunRef → ℕ
flushed_tx runs = elim (last? runs) [ none ↦ 0 | some r ↦ r.to_tx ]

unfoldable pub flushed_height : List RunRef → ℕ
flushed_height runs = elim (last? runs) [ none ↦ 0 | some r ↦ add64 r.to_height 1 ]

unfoldable pub flushed_floor : List RunRef → ℕ
flushed_floor runs = elim (last? runs) [ none ↦ 0 | some r ↦ r.to_height ]

-- `Head`: the newest run's name, empty without a run.
unfoldable pub head : List RunRef → Bytes
head runs = elim (last? runs) [ none ↦ [] | some r ↦ r.name ]

-- The reference that `seal` makes of a frozen window, and its append.
unfoldable pub sealed_ref : ℕ → ℕ → ℕ → ℕ → Bytes → RunRef
sealed_ref base_tx next_tx base_height next_height name = record {
  from_tx = base_tx;
  to_tx = next_tx;
  from_height = base_height;
  to_height = sub64 next_height 1;
  name = name;
  level = 0;
}

unfoldable pub append_run : List RunRef → RunRef → List RunRef
append_run runs ref = runs ++ (ref ∷ [])

-- The run that holds a TxNum, as `heightBounds` looks for it.
unfoldable pub run_of_tx : List RunRef → ℕ → Option RunRef
run_of_tx [] n = none
run_of_tx (r ∷ rs) n = if leb r.from_tx n && ltb n r.to_tx then some r else run_of_tx rs n

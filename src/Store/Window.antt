-- ===== src/Store/Window.antt =====
-- The chain index of the memtable (store/mem.go): one offset and length for each row of a family,
-- contiguous from a base, with offset 0 where a family has no row.
pub mod Index
use avalanche_s3_archival_no.Prelude.{
  ℕ, ◌+◌, ◌-◌, ◌%◌, ◌^◌, ◌==◌, ltb, leb, add64, sub64, if◌then◌else◌,
}
use avalanche_s3_archival_no.Prelude.{
  Bool, true, false, not, ◌&&◌, ◌||◌, List, [], ◌∷◌, ◌++◌, Option, none, some,
}
use avalanche_s3_archival_no.Prelude.{length, get_elem?, replicate}

pub record ChainIndex : Type 0 where
  pub base : ℕ
  pub is_set : Bool
  pub off : List ℕ
  pub n : List ℕ

unfoldable pub empty_index : ChainIndex
empty_index = record { base = 0; is_set = false; off = []; n = [] }

-- `!c.set` takes the base from the number.
abbrev pub based : ChainIndex → ℕ → ChainIndex
based c num = if c.is_set then c else record c { base = num; is_set = true }

-- `none` is the error of a row that does not follow.
unfoldable pub add : ChainIndex → ℕ → ℕ → ℕ → Option ChainIndex
add c num off n =
    let d = based c num in
    if num == add64 d.base (length d.off)
    then some (record d { off = d.off ++ (off ∷ []); n = d.n ++ ((n % 2 ^ 32) ∷ []) })
    else none

-- The offset and length of a row.
unfoldable pub find : ChainIndex → ℕ → Option (ℕ × ℕ)
find c num =
    if not c.is_set || (ltb num c.base || leb (add64 c.base (length c.off)) num)
    then none
    else elim (get_elem? c.off (num - c.base)) [
      | none ↦ none
      | some off ↦
          if off == 0
          then none
          else elim (get_elem? c.n (num - c.base)) [ none ↦ none | some n ↦ some (off, n) ]
    ]

-- The loop appends one absent entry a round until the index reaches `next`.
unfoldable pub pad_to : ChainIndex → ℕ → ChainIndex
pad_to c next =
    let d = based c (sub64 next 1) in
    let rounds = next - add64 d.base (length d.off) in
    record d { off = d.off ++ replicate rounds 0; n = d.n ++ replicate rounds 0 }

-- ===== src/Store/Container.antt =====
-- Container reassembly (store/container.go): the pvm row as a template of three verbatim pieces
-- around a block's header and transactions.
pub mod Template
use avalanche_s3_archival_no.Prelude.{
  ℕ, ◌+◌, ◌-◌, ltb, ◌==◌, if◌then◌else◌, List, [], ◌∷◌, ◌++◌, Option, none, some,
}
use avalanche_s3_archival_no.Prelude.{length, take, drop}
use avalanche_s3_archival_no.Prelude.Bytes.{Bytes, be, be_value}

-- Go's `s[lo:hi]` in range
abbrev pub slice : Bytes → ℕ → ℕ → Bytes
slice s lo hi = take (hi - lo) (drop lo s)

-- [4B len(A)] A [4B len(B)] B C, around the header span [hs, he) and the transactions' [ts, te).
unfoldable pub pvm_template : Bytes → ℕ → ℕ → ℕ → ℕ → Bytes
pvm_template raw hs he ts te =
    let a = take hs raw in
    let b = slice raw he ts in
    let c = drop te raw in be 4 (length a) ++ (a ++ (be 4 (length b) ++ (b ++ c)))

abbrev pub concat : List Bytes → Bytes
concat [] = []
concat (x ∷ xs) = x ++ concat xs

-- Behind the length of A, which is at most what is there.
unfoldable pub reassemble_at : Bytes → ℕ → Bytes → List Bytes → Option Bytes
reassemble_at pvm la header txs =
    let a = slice pvm 4 (4 + la) in
    let lb = be_value 0 (slice pvm (4 + la) (8 + la)) in
    if ltb (length pvm) (8 + la + lb)
    then none
    else let b = slice pvm (8 + la) (8 + la + lb) in
      let c = drop (8 + la + lb) pvm in some (a ++ (header ++ (b ++ (concat txs ++ c))))

-- `Reassemble`. `bare` is rlp.EncodeToBytes on the three-field block, for an empty row; `none` is
-- an error.
unfoldable pub reassemble :
    (Bytes → List Bytes → Option Bytes) → Bytes → Bytes → List Bytes → Option Bytes
reassemble bare pvm header txs =
    if length pvm == 0
    then bare header txs
    else if ltb (length pvm) 8
    then none
    else let la = be_value 0 (take 4 pvm) in
      if ltb (length pvm) (4 + la + 4) then none else reassemble_at pvm la header txs

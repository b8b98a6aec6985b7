-- ===== src/Store/Memtable/Replay.antt =====
-- `recover`: the window log read back record by record. A block's rows are pending until its end
-- record; a torn tail is cut back to the last complete block.
use avalanche_s3_archival_no.Prelude.{ℕ, zero, suc, ◌+◌, ◌^◌, ◌==◌, ltb, add64, if◌then◌else◌}
use avalanche_s3_archival_no.Prelude.{
  true, not, List, [], ◌∷◌, ◌++◌, Option, none, some, length, take, drop,
}
use avalanche_s3_archival_no.Prelude.Bytes.{Bytes, be_value}
use avalanche_s3_archival_no.Prelude.Fail.{◌>>=◌}
use avalanche_s3_archival_no.Store.Container.{slice}
use avalanche_s3_archival_no.Store.Memtable.{
  blk, hdr, itx, pvm, rcpt, tx, Kind, row, state_rec, post_rec, num_rec, set_rec, code_rec, end_rec,
  Index, Memtable, reset, rec_header, put_state, add_chain, put_num, put_post, put_set, put_code,
  pad_chains,
}

-- A closure of the replay: what a record will do to the index once its block is complete.
abbrev pub Pending : Type 0
Pending = Index → Option Index

-- `commit`
unfoldable pub commit : List Pending → Index → Option Index
commit [] i = some i
commit (f ∷ fs) i = f i >>= commit fs

-- A record as it is read: the kind byte, the number, the payload, and what follows.
pub record Read : Type 0 where
  pub byte : ℕ
  pub num : ℕ
  pub payload : Bytes
  pub rest : Bytes

-- `none` is a short read, or a length above 1 GB.
unfoldable pub read_payload : ℕ → ℕ → ℕ → Bytes → Option Read
read_payload byte num n r =
    if ltb (2 ^ 30) n
    then none
    else if ltb (length r) n
    then none
    else some (record { byte = byte; num = num; payload = take n r; rest = drop n r })

unfoldable pub read_rec : Bytes → Option Read
unfolding read_payload
read_rec r =
    if ltb (length r) rec_header
    then none
    else read_payload (be_value 0 (slice r 0 1)) (be_value 0 (slice r 1 9))
        (be_value 0 (slice r 9 13)) (drop 13 r)

-- The switch on the kind byte.
unfoldable pub kind_of : ℕ → Option Kind
kind_of c =
    if c == b'B'
    then some (row blk)
    else if c == b'H'
    then some (row hdr)
    else if c == b'I'
    then some (row itx)
    else if c == b'P'
    then some (row pvm)
    else if c == b'R'
    then some (row rcpt)
    else if c == b'T'
    then some (row tx)
    else if c == b'S'
    then some state_rec
    else if c == b'L'
    then some post_rec
    else if c == b'X'
    then some num_rec
    else if c == b'K'
    then some set_rec
    else if c == b'C'
    then some code_rec
    else if c == b'E'
    then some end_rec
    else none

-- What the replay does with a record: it breaks off, it keeps a closure, or a block ends.
pub data Action : Type 0 where
  stop : Action
  keep : Pending → Action
  block_end : ℕ → Action

unfoldable pub state_action : ℕ → Bytes → Action
state_action num payload =
    if ltb (length payload) 2
    then stop
    else let kl = be_value 0 (take 2 payload) in
      if ltb (length payload) (2 + kl)
      then stop
      else keep (λ i. some (put_state i (slice payload 2 (2 + kl)) num (drop (2 + kl) payload)))

unfoldable pub post_action : ℕ → Bytes → Action
post_action num [] = stop
post_action num (v ∷ group) = keep (λ i. some (put_post i group num v))

unfoldable pub action : Kind → ℕ → Bytes → ℕ → Action
unfolding state_action post_action
action (row f) num payload body = keep (λ i. add_chain i f num body (length payload))
action state_rec num payload body = state_action num payload
action post_rec num payload body = post_action num payload
action num_rec num payload body = keep (λ i. some (put_num i payload num))
action set_rec num payload body = keep (λ i. some (put_set i payload))
action code_rec num payload body =
    if ltb (length payload) 32
    then stop
    else keep (λ i. some (put_code i (take 32 payload) (drop 32 payload)))
action end_rec num payload body =
    if not (length payload == 8) then stop else block_end (be_value 0 payload)

unfoldable pub classify : ℕ → ℕ → Bytes → ℕ → Action
unfolding action kind_of
classify byte num payload body = elim (kind_of byte) [
  | none ↦ stop
  | some k ↦ action k num payload body
]

-- The state of the replay; `mem` has the bounds and the index, `rest` is what the reader has left.
pub record Replay : Type 0 where
  pub mem : Memtable
  pub pend : List Pending
  pub off : ℕ
  pub good : ℕ
  pub rest : Bytes

-- The first block that the runs do not hold starts the window.
unfoldable pub started_at : Memtable → ℕ → Memtable
started_at m num = record m {
  base_height = if m.started then m.base_height else num;
  started = true;
}

unfoldable pub committed : Replay → ℕ → ℕ → Index → Replay
unfolding started_at
committed s num next i = record s {
  mem = record (started_at s.mem num) { idx = i; next_height = add64 num 1; next_tx = next };
  pend = [];
  good = s.off;
}

-- An end record: a block that a run already holds is dropped, any other is committed. `none` is the
-- error of a row that does not follow.
unfoldable pub end_of_block : Replay → ℕ → ℕ → Option Replay
unfolding committed
end_of_block s num next =
    if ltb num s.mem.base_height
    then some (record s { pend = []; good = s.off })
    else elim (commit (s.pend ++ ((λ i. some (pad_chains i next)) ∷ [])) s.mem.idx) [
      | none ↦ none
      | some i ↦ some (committed s num next i)
    ]

-- One record: the state behind it, `some none` where the loop breaks off.
unfoldable pub handle : Replay → ℕ → Action → Option (Option Replay)
unfolding end_of_block
handle s num stop = some none
handle s num (keep f) = some (some (record s { pend = s.pend ++ (f ∷ []) }))
handle s num (block_end next) = elim (end_of_block s num next) [
  | none ↦ none
  | some t ↦ some (some t)
]

unfoldable pub consume : Replay → Read → Option (Option Replay)
unfolding handle classify
consume s r =
    let body = s.off + rec_header in
    handle (record s { off = body + length r.payload; rest = r.rest }) r.num
      (classify r.byte r.num r.payload body)

-- The loop; a record has thirteen bytes at least, so the length of the log is enough fuel.
unfoldable pub replay : ℕ → Replay → Option Replay
replay zero s = some s
replay (suc fuel) s = elim (read_rec s.rest) [
  | none ↦ some s
  | some r ↦ elim (consume s r) [ none ↦ none | some none ↦ some s | some (some t) ↦ replay fuel t ]
]

-- The replay from an empty window, and the cut of the log by the writer.
unfoldable pub recover : Bytes → ℕ → ℕ → Option Memtable
recover log base_tx base_height =
    elim (replay (suc (length log))
      (record { mem = reset base_tx base_height; pend = []; off = 0; good = 0; rest = log })) [
        | none ↦ none
        | some s ↦ some (record s.mem { log = take s.good log })
      ]

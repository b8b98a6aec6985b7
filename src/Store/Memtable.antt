-- ===== src/Store/Memtable.antt =====
-- The memtable of store/mem.go: the window log, byte for byte, and the indexes in RAM that the
-- executor's writes and the replay of the log both build.
pub mod Write
pub mod Replay
pub mod Records
pub mod Pass
pub mod Emits
pub mod Blocks
pub mod Recover
pub mod Torn
pub mod Sealed
pub mod Read
use avalanche_s3_archival_no.Prelude.{ℕ, ◌+◌, ◌==◌, ltb, add64, sub64, if◌then◌else◌}
use avalanche_s3_archival_no.Prelude.{
  Bool, true, false, List, [], ◌∷◌, ◌++◌, Option, none, some, length, last?,
}
use avalanche_s3_archival_no.Prelude.Bytes.{Bytes, be}
use avalanche_s3_archival_no.Prelude.Map.{Map, lookup, insert}
use avalanche_s3_archival_no.Store.Window.{ChainIndex, empty_index, add, pad_to}
use mathlib.Core.Option

-- The chain families, in the order of their key prefixes.
pub data Fam : Type 0 where
  blk hdr itx pvm rcpt tx : Fam

pub record MemVal : Type 0 where
  pub txnum : ℕ
  pub val : Bytes

pub record Posting : Type 0 where
  pub group : Bytes
  pub txnum : ℕ
  pub payload : ℕ

pub record Chains : Type 0 where
  pub c_blk : ChainIndex
  pub c_hdr : ChainIndex
  pub c_itx : ChainIndex
  pub c_pvm : ChainIndex
  pub c_rcpt : ChainIndex
  pub c_tx : ChainIndex

unfoldable pub chain_at : Fam → Chains → ChainIndex
chain_at blk c = c.c_blk
chain_at hdr c = c.c_hdr
chain_at itx c = c.c_itx
chain_at pvm c = c.c_pvm
chain_at rcpt c = c.c_rcpt
chain_at tx c = c.c_tx

unfoldable pub set_chain : Fam → ChainIndex → Chains → Chains
set_chain blk i c = record c { c_blk = i }
set_chain hdr i c = record c { c_hdr = i }
set_chain itx i c = record c { c_itx = i }
set_chain pvm i c = record c { c_pvm = i }
set_chain rcpt i c = record c { c_rcpt = i }
set_chain tx i c = record c { c_tx = i }

-- The rows that the memtable holds in RAM, or indexes in the log.
pub record Index : Type 0 where
  pub chains : Chains
  pub state : Map (List MemVal)
  pub code : Map Bytes
  pub nums : Map ℕ
  pub post : List Posting
  pub sets : Map (Unit {0})

-- `log` is the file with the write buffer behind it; `pos` is its length.
pub record Memtable : Type 0 where
  pub log : Bytes
  pub base_tx : ℕ
  pub next_tx : ℕ
  pub base_height : ℕ
  pub next_height : ℕ
  pub started : Bool
  pub idx : Index

unfoldable pub cleared : Index
cleared = record {
  chains = record {
    c_blk = empty_index;
    c_hdr = empty_index;
    c_itx = empty_index;
    c_pvm = empty_index;
    c_rcpt = empty_index;
    c_tx = empty_index;
  };
  state = [];
  code = [];
  nums = [];
  post = [];
  sets = [];
}

-- An empty window that starts at a TxNum and a height.
unfoldable pub reset : ℕ → ℕ → Memtable
reset base_tx base_height = record {
  log = [];
  base_tx = base_tx;
  next_tx = base_tx;
  base_height = base_height;
  next_height = base_height;
  started = false;
  idx = cleared;
}

-- The kinds of log records, and their bytes.
pub data Kind : Type 0 where
  row : Fam → Kind
  state_rec post_rec num_rec set_rec code_rec end_rec : Kind

unfoldable pub fam_byte : Fam → ℕ
fam_byte blk = b'B'
fam_byte hdr = b'H'
fam_byte itx = b'I'
fam_byte pvm = b'P'
fam_byte rcpt = b'R'
fam_byte tx = b'T'

unfoldable pub kind_byte : Kind → ℕ
unfolding fam_byte
kind_byte (row f) = fam_byte f
kind_byte state_rec = b'S'
kind_byte post_rec = b'L'
kind_byte num_rec = b'X'
kind_byte set_rec = b'K'
kind_byte code_rec = b'C'
kind_byte end_rec = b'E'

abbrev pub rec_header : ℕ
rec_header = 1 + 8 + 4

-- One log record: kind, number, payload length, payload.
unfoldable pub encode_rec : Kind → ℕ → Bytes → Bytes
encode_rec kind num payload = kind_byte kind ∷ (be 8 num ++ (be 4 (length payload) ++ payload))

-- `write`; the body starts behind the record's header.
unfoldable pub write : Memtable → Kind → ℕ → Bytes → Memtable
write m kind num payload = record m { log = m.log ++ encode_rec kind num payload }

abbrev pub body_at : Memtable → ℕ
body_at m = length m.log + rec_header

-- `putState` appends a row, or replaces the last one at its own TxNum.
unfoldable pub put_history : List MemVal → ℕ → Bytes → List MemVal
put_history [] txnum val = record { txnum = txnum; val = val } ∷ []
put_history (e ∷ []) txnum val =
    if e.txnum == txnum
    then record { txnum = txnum; val = val } ∷ []
    else e ∷ record { txnum = txnum; val = val } ∷ []
put_history (e ∷ f ∷ h) txnum val = e ∷ put_history (f ∷ h) txnum val

abbrev pub history : Bytes → Map (List MemVal) → List MemVal
history key state = elim (lookup key state) [ none ↦ [] | some h ↦ h ]

unfoldable pub put_state : Index → Bytes → ℕ → Bytes → Index
put_state i key txnum val = record i {
  state = insert key (put_history (history key i.state) txnum val) i.state;
}

unfoldable pub add_chain : Index → Fam → ℕ → ℕ → ℕ → Option Index
add_chain i fam num off n =
    Option.map (λ (c : ChainIndex). record i { chains = set_chain fam c i.chains })
      (add (chain_at fam i.chains) num off n)

unfoldable pub put_num : Index → Bytes → ℕ → Index
put_num i key num = record i { nums = insert key num i.nums }

unfoldable pub put_post : Index → Bytes → ℕ → ℕ → Index
put_post i group txnum payload = record i {
  post = i.post ++ (record { group = group; txnum = txnum; payload = payload } ∷ []);
}

unfoldable pub put_set : Index → Bytes → Index
put_set i key = record i { sets = insert key tt i.sets }

unfoldable pub put_code : Index → Bytes → Bytes → Index
put_code i hash blob = record i { code = insert hash blob i.code }

-- The tx-keyed families are parked past a block's boundary slot.
unfoldable pub pad_chains : Index → ℕ → Index
pad_chains i next =
    let c = i.chains in
    record i {
      chains = record c {
        c_itx = pad_to c.c_itx next;
        c_rcpt = pad_to c.c_rcpt next;
        c_tx = pad_to c.c_tx next;
      };
    }

-- ===== src/Tests/Flat.antt =====
-- The flat cache over a small history.
use avalanche_s3_archival_no.Prelude.{
  ◌≡◌, ◌≤◌, ◌+◌, ◌/◌, refl, arith, true, false, ◌==◌, if◌then◌else◌, replicate, All, List, [], ◌∷◌,
}
use avalanche_s3_archival_no.Prelude.Bytes.{Bytes, beq}
use avalanche_s3_archival_no.Prelude.Map.{lookup, insert}
use avalanche_s3_archival_no.Store.Keys.{account_prefix}
use avalanche_s3_archival_no.Store.Rows.{StateRow, BlockWrite, state_key_prefix}
use avalanche_s3_archival_no.Store.Flat.{
  FlatVal, FlatCache, new_flat_cache, adopt, get, put, without_old, fill, put_rows, put_txs,
  drop_gap, apply,
}
use avalanche_s3_archival_no.Store.Flat.Truth.{
  History, State, Call, land, filled, IsCall, run, overlay, block_rows, get-run,
}
use avalanche_s3_archival_no.Store.Flat.Budget.{Fits, held, run-within-budget}

abbrev some_addr : Bytes
some_addr = replicate 20 1

abbrev nonce_row : StateRow
nonce_row = record { kind = b'a'; addr = some_addr; slot = []; val = 9 ∷ [] }

abbrev sixth : BlockWrite
sixth = record { height = 6; header_rlp = []; pvm = []; txs = []; code = []; tail = nonce_row ∷ [] }

abbrev before : State
before k = record { val = []; found = false }

abbrev small_history : History
small_history h k = if h == 6 then overlay (block_rows sixth) before k else before k

abbrev two_calls : List Call
two_calls = filled (account_prefix some_addr) 5 ∷ land sixth ∷ []

two_calls-IsCall : All (IsCall small_history) two_calls
two_calls-IsCall = (tt, ((omega arith, λ k. refl), tt))

abbrev nine : FlatVal
nine = record { val = 9 ∷ []; found = true }

a_hit :
    get (run small_history (adopt (new_flat_cache 1000) 5) two_calls) (account_prefix some_addr) 6
    ≡ (nine, true)
unfolding get run adopt new_flat_cache fill apply drop_gap put_rows put_txs put without_old lookup
    insert beq state_key_prefix account_prefix
a_hit = refl

get-run_example : nine ≡ small_history 6 (account_prefix some_addr)
get-run_example =
    get-run small_history 1000 5 two_calls (account_prefix some_addr) 6 nine (omega arith)
      two_calls-IsCall a_hit

abbrev at_five : FlatCache
at_five = record {
  budget = 1000;
  half = 500;
  hot = [];
  cold = [];
  bytes = 0;
  height = 5;
  is_set = true;
}

two_calls-Fit : All (Fits 200 small_history) two_calls
unfolding state_key_prefix account_prefix beq
two_calls-Fit = (omega arith, ((omega arith, tt), tt))

run-within-budget_example :
    let c = run small_history (adopt (new_flat_cache 1000) 5) two_calls in
    (c.bytes ≡ held c.hot) × (c.bytes ≤ 1000 / 2) × (held c.hot + held c.cold ≤ 1000 + 200)
run-within-budget_example =
    run-within-budget 200 1000 5 small_history two_calls (omega arith) two_calls-Fit

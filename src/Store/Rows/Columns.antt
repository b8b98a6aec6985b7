-- ===== src/Store/Rows/Columns.antt =====
-- The columns of the state family do not overlap.
use avalanche_s3_archival_no.Prelude.{ℕ, ◌≡◌, ◌++◌, [], ◌∷◌, arith, true, length}
use avalanche_s3_archival_no.Prelude.{
  length-append, append_assoc, append-injective, drop, ◌==◌, ◌⊎◌, inl, inr, Bool-cases, Bool, not,
  ◌&&◌, sym, ap, ◌∙◌, if◌then◌else◌,
}
use avalanche_s3_archival_no.Prelude.Bytes.{
  Bytes, beq, beq_iff, has_prefix-append, be, has_prefix, has_prefix→append,
}
use avalanche_s3_archival_no.Store.Keys.{
  prefix_state, account_prefix, code_ref_prefix, slot_prefix, suffixed,
}
use avalanche_s3_archival_no.Store.Rows.{StateRow, state_key_prefix}

-- A row with an address of 20 bytes and, if it is a storage row, a slot of 32 bytes. Account rows
-- and code rows have no slot.
pub record IsSized (r : StateRow) : Type 0 where
  pub addr_len : length r.addr ≡ 20
  pub slot_len : (r.kind ≡ b'a') ⊎ ((r.kind ≡ b'c') ⊎ (length r.slot ≡ 32))

-- The letter of a row's column, and what follows it in the key.
letter : StateRow → ℕ
letter r = if r.kind == b'a' then b'a' else if r.kind == b'c' then b'c' else b's'

rest : StateRow → Bytes
rest r = if r.kind == b'a' then [] else if r.kind == b'c' then [] else r.slot ++ (b'/' ∷ [])

state_key_form :
    (r : StateRow)
    → state_key_prefix r ≡ prefix_state ++ (r.addr ++ (b'/' ∷ letter r ∷ b'/' ∷ rest r))
unfolding state_key_prefix letter rest account_prefix code_ref_prefix slot_prefix
state_key_form r = ground arith

-- Rows with one letter have tails of one length.
rest_len :
    (r t : StateRow)
    → IsSized r
    → IsSized t
    → letter r ≡ letter t
    → length (rest r) ≡ length (rest t)
unfolding letter rest
rest_len r t v w e =
    ground (arith, length-append r.slot (b'/' ∷ []), length-append t.slot (b'/' ∷ []))

same_letter :
    (a b : Bytes) (c d : ℕ) (us vs : Bytes)
    → length a ≡ length b
    → prefix_state ++ (a ++ (b'/' ∷ c ∷ b'/' ∷ us)) ≡ prefix_state ++ (b ++ (b'/' ∷ d ∷ b'/' ∷ vs))
    → (a ≡ b) × (c ≡ d) × (us ≡ vs)
same_letter a b c d us vs h e =
    let (p, q) =
      append-injective a b {us = b'/' ∷ c ∷ b'/' ∷ us} {vs = b'/' ∷ d ∷ b'/' ∷ vs} h (cc) in
    (p, ground (arith, q), cc q)

key_parts :
    (r t : StateRow) (us vs : Bytes)
    → IsSized r
    → IsSized t
    → state_key_prefix r ++ us ≡ state_key_prefix t ++ vs
    → (r.addr ≡ t.addr) × (letter r ≡ letter t) × (rest r ≡ rest t)
key_parts r t us vs v w e =
    let whole = simp (state_key_form, append_assoc) at e in
    let (p, q, f) =
      same_letter r.addr t.addr (letter r) (letter t) (rest r ++ us) (rest t ++ vs) (omega arith)
        whole in
    let (g, _) = append-injective (rest r) (rest t) {us = us} {vs = vs} (rest_len r t v w q) f in
    (p, q, g)

-- Two rows of one column: both of accounts, both of code hashes, or both of one storage slot.
abbrev pub same_column : StateRow → StateRow → Bool
same_column r t =
    if r.kind == b'a'
    then t.kind == b'a'
    else if r.kind == b'c'
    then t.kind == b'c'
    else not (t.kind == b'a') && (not (t.kind == b'c') && beq r.slot t.slot)

slots_same : (a b : Bytes) → a ++ (b'/' ∷ []) ≡ b ++ (b'/' ∷ []) → beq a b ≡ true
slots_same a b e =
    let size = ap (λ (l : Bytes). length l) e in
    let long = length-append a (b'/' ∷ []) in
    let long_too = length-append b (b'/' ∷ []) in
    (beq_iff a b).1 (append-injective a b {us = b'/' ∷ []} {vs = b'/' ∷ []} (omega arith) e).0

same_column-letter :
    (r t : StateRow) → letter r ≡ letter t → rest r ≡ rest t → same_column r t ≡ true
unfolding letter rest
same_column-letter r t e f = ground (arith, e, f, slots_same r.slot t.slot)

same_column-state_key_prefix :
    (r t : StateRow)
    → r.addr ≡ t.addr
    → same_column r t ≡ true
    → state_key_prefix r ≡ state_key_prefix t
unfolding state_key_prefix
same_column-state_key_prefix r t e h = ground (arith, e, h, beq_iff r.slot t.slot)

-- For two rows with 20-byte addresses, of which a storage row has a 32-byte slot and the others
-- need none: the key of one, with any TxNum behind it, falls into the key range of the other's
-- column exactly if both are of one account and one column, so that the range that `Latest` scans
-- for an account, a code hash or a slot holds the rows of that column and no other.
pub column-disjoint :
    (r t : StateRow) (n : ℕ)
    → IsSized r
    → IsSized t
    → has_prefix (suffixed (state_key_prefix r) n) (state_key_prefix t)
      ≡ (beq r.addr t.addr && same_column r t)
unfolding suffixed
column-disjoint r t n v w =
    let key = state_key_prefix r ++ be 8 n in
    let column = state_key_prefix t in
    elim (Bool-cases (has_prefix key column)) [
      | inl inside ↦
          let (a, l, f) =
            key_parts r t (be 8 n) (drop (length column) key) v w
              (has_prefix→append key column inside) in
          let same = same_column-letter r t l f in
          let addrs = (beq_iff r.addr t.addr).1 a in inside ∙ ground (arith, same, addrs)
      | inr outside ↦ elim (Bool-cases (beq r.addr t.addr && same_column r t)) [
        | inr apart ↦ outside ∙ sym apart
        | inl both ↦
            let addrs : r.addr ≡ t.addr = ground (arith, both, beq_iff r.addr t.addr) in
            let same : same_column r t ≡ true = ground (arith, both) in
            let prefixes = same_column-state_key_prefix r t addrs same in
            let there : has_prefix key column ≡ true =
              ap (λ (p : Bytes). has_prefix (p ++ be 8 n) column) prefixes
              ∙ has_prefix-append column (be 8 n) in
            absurd (cc)
      ]
    ]

-- ===== src/Store/Keys/Split.antt =====
-- `split` on the keys that the engine writes: what the bloom filters are keyed on.
use avalanche_s3_archival_no.Prelude.{ℕ, ◌≤◌, ◌≡◌, ◌++◌, [], ◌∷◌, some, arith}
use avalanche_s3_archival_no.Prelude.{
  length, length-append, get_elem?, get_elem?-append_right, take,
}
use avalanche_s3_archival_no.Prelude.{append_assoc, ap, ◌∙◌, refl, ◌≢◌}
use avalanche_s3_archival_no.Prelude.Bytes.{Bytes, be, length-be, take-append}
use avalanche_s3_archival_no.Store.Keys.{
  prefix_state, prefix_addr, prefix_elog, prefix_tval, prefix_sig, account_prefix, code_ref_prefix,
  slot_prefix, addr_prefix, elog_group, tval_group, sig_group, suffixed, split, join, bloom_key,
}

-- The byte behind `state/<addr>/` is at index 27.
shape_byte :
    (addr rest : Bytes) (c : ℕ)
    → length addr ≡ 20
    → get_elem? (prefix_state ++ (addr ++ (b'/' ∷ c ∷ rest))) 27 ≡ some c
shape_byte addr rest c h = get_elem?-append_right addr (b'/' ∷ c ∷ rest) 21 1 (omega arith)

split_account :
    (addr rest : Bytes) (c : ℕ)
    → length addr ≡ 20
    → c ≢ b's'
    → length rest ≡ 9
    → split (prefix_state ++ (addr ++ (b'/' ∷ c ∷ rest))) ≡ 29
unfolding split
split_account addr rest c h ne k =
    ground (arith, shape_byte addr rest c h, length-append addr (b'/' ∷ c ∷ rest))

split_slot :
    (addr rest : Bytes)
    → length addr ≡ 20
    → length rest ≡ 42
    → split (prefix_state ++ (addr ++ (b'/' ∷ b's' ∷ rest))) ≡ 62
unfolding split
split_slot addr rest h k =
    ground (arith, shape_byte addr rest b's' h, length-append addr (b'/' ∷ b's' ∷ rest))

-- A posting key is cut behind its first component.
module _ (part rest : Bytes) (long : 8 ≤ length rest) where
  split_addr : length part ≡ 20 → split (prefix_addr ++ (part ++ (b'/' ∷ rest))) ≡ 26
  unfolding split
  split_addr h = ground (arith, length-append part (b'/' ∷ rest))

  split_elog : length part ≡ 20 → split (prefix_elog ++ (part ++ (b'/' ∷ rest))) ≡ 26
  unfolding split
  split_elog h = ground (arith, length-append part (b'/' ∷ rest))

  split_tval : length part ≡ 32 → split (prefix_tval ++ (part ++ (b'/' ∷ rest))) ≡ 38
  unfolding split
  split_tval h = ground (arith, length-append part (b'/' ∷ rest))

  split_sig : length part ≡ 32 → split (prefix_sig ++ (part ++ (b'/' ∷ rest))) ≡ 37
  unfolding split
  split_sig h = ground (arith, length-append part (b'/' ∷ rest))

-- A key of the form `front ++ rest` that `split` cuts at the front's length has it for bloom key.
bloom_front :
    (key front rest : Bytes) (n : ℕ)
    → key ≡ front ++ rest
    → split key ≡ n
    → length front ≡ n
    → bloom_key key ≡ front
unfolding bloom_key
bloom_front key front rest n e h k =
    ap (λ m. take m key) h ∙ ap (take n) e ∙ take-append front rest n k

module _ (addr : Bytes) (h : length addr ≡ 20) (n : ℕ) where
  bloom_account : bloom_key (suffixed (account_prefix addr) n) ≡ account_prefix addr
  unfolding suffixed account_prefix
  bloom_account =
      bloom_front _ (prefix_state ++ (addr ++ (b'/' ∷ b'a' ∷ b'/' ∷ []))) (be 8 n) 29 refl
        (simp append_assoc (
          split_account addr (b'/' ∷ be 8 n) b'a' h (λ e. omega arith)
            (omega (arith, length-be 8 n))))
        (omega (arith, length-append addr (b'/' ∷ b'a' ∷ b'/' ∷ [])))

  bloom_code_ref : bloom_key (suffixed (code_ref_prefix addr) n) ≡ code_ref_prefix addr
  unfolding suffixed code_ref_prefix
  bloom_code_ref =
      bloom_front _ (prefix_state ++ (addr ++ (b'/' ∷ b'c' ∷ b'/' ∷ []))) (be 8 n) 29 refl
        (simp append_assoc (
          split_account addr (b'/' ∷ be 8 n) b'c' h (λ e. omega arith)
            (omega (arith, length-be 8 n))))
        (omega (arith, length-append addr (b'/' ∷ b'c' ∷ b'/' ∷ [])))

  bloom_slot :
      (slot : Bytes)
      → length slot ≡ 32
      → bloom_key (suffixed (slot_prefix addr slot) n) ≡ slot_prefix addr slot
  unfolding suffixed slot_prefix
  bloom_slot slot k =
      bloom_front _ (prefix_state ++ (addr ++ (b'/' ∷ b's' ∷ b'/' ∷ (slot ++ (b'/' ∷ [])))))
        (be 8 n) 62 refl
        (simp append_assoc (
          split_slot addr (b'/' ∷ (slot ++ (b'/' ∷ be 8 n))) h
            (omega (arith, length-be 8 n, length-append slot (b'/' ∷ be 8 n)))))
        (omega (
          arith,
          length-append addr (b'/' ∷ b's' ∷ b'/' ∷ (slot ++ (b'/' ∷ []))),
          length-append slot (b'/' ∷ []),
        ))

-- A chunk key of a group with a further component still has the first component for its bloom key.
module _ (part more : Bytes) (n : ℕ) where
  eight_left : 8 ≤ length (more ++ be 8 n)
  eight_left = omega (arith, length-append more (be 8 n), length-be 8 n)

  bloom_addr :
      length part ≡ 20
      → bloom_key (suffixed (prefix_addr ++ (part ++ (b'/' ∷ more))) n)
        ≡ prefix_addr ++ (part ++ (b'/' ∷ []))
  unfolding suffixed
  bloom_addr h =
      bloom_front _ (prefix_addr ++ (part ++ (b'/' ∷ []))) (more ++ be 8 n) 26 (simp append_assoc)
        (simp append_assoc (split_addr part (more ++ be 8 n) eight_left h))
        (omega (arith, length-append part (b'/' ∷ [])))

  bloom_elog :
      length part ≡ 20
      → bloom_key (suffixed (prefix_elog ++ (part ++ (b'/' ∷ more))) n)
        ≡ prefix_elog ++ (part ++ (b'/' ∷ []))
  unfolding suffixed
  bloom_elog h =
      bloom_front _ (prefix_elog ++ (part ++ (b'/' ∷ []))) (more ++ be 8 n) 26 (simp append_assoc)
        (simp append_assoc (split_elog part (more ++ be 8 n) eight_left h))
        (omega (arith, length-append part (b'/' ∷ [])))

  bloom_tval :
      length part ≡ 32
      → bloom_key (suffixed (prefix_tval ++ (part ++ (b'/' ∷ more))) n)
        ≡ prefix_tval ++ (part ++ (b'/' ∷ []))
  unfolding suffixed
  bloom_tval h =
      bloom_front _ (prefix_tval ++ (part ++ (b'/' ∷ []))) (more ++ be 8 n) 38 (simp append_assoc)
        (simp append_assoc (split_tval part (more ++ be 8 n) eight_left h))
        (omega (arith, length-append part (b'/' ∷ [])))

  bloom_sig :
      length part ≡ 32
      → bloom_key (suffixed (prefix_sig ++ (part ++ (b'/' ∷ more))) n)
        ≡ prefix_sig ++ (part ++ (b'/' ∷ []))
  unfolding suffixed
  bloom_sig h =
      bloom_front _ (prefix_sig ++ (part ++ (b'/' ∷ []))) (more ++ be 8 n) 37 (simp append_assoc)
        (simp append_assoc (split_sig part (more ++ be 8 n) eight_left h))
        (omega (arith, length-append part (b'/' ∷ [])))

-- For a 20-byte address and a 32-byte slot, the bloom key of every state row is the key without its
-- TxNum: `Run.MayHave` asks "is this address or slot in the run", whatever the position.
pub bloom-state :
    (addr slot : Bytes) (n : ℕ)
    → length addr ≡ 20
    → length slot ≡ 32
    → (bloom_key (suffixed (account_prefix addr) n) ≡ account_prefix addr)
      × (bloom_key (suffixed (code_ref_prefix addr) n) ≡ code_ref_prefix addr)
      × (bloom_key (suffixed (slot_prefix addr slot) n) ≡ slot_prefix addr slot)
bloom-state addr slot n h k =
    (bloom_account addr h n, bloom_code_ref addr h n, bloom_slot addr h n slot k)

-- The bloom key of a posting chunk is its family and first component alone, for each of the four
-- families: a probe by address, emitter, value or signature meets every chunk that it reaches,
-- whichever second component and TxNum the chunk has.
pub bloom-posting :
    (addr topic value : Bytes) (n : ℕ)
    → length addr ≡ 20
    → length topic ≡ 32
    → length value ≡ 32
    → (bloom_key (suffixed (addr_prefix addr) n) ≡ addr_prefix addr)
      × (bloom_key (suffixed (elog_group addr topic) n) ≡ join prefix_elog (addr ∷ []))
      × (bloom_key (suffixed (tval_group value topic) n) ≡ join prefix_tval (value ∷ []))
      × (bloom_key (suffixed (sig_group topic) n) ≡ sig_group topic)
unfolding addr_prefix elog_group tval_group sig_group join
bloom-posting addr topic value n h k l = (
  bloom_addr addr [] n h,
  bloom_elog addr (topic ++ (b'/' ∷ [])) n h,
  bloom_tval value (topic ++ (b'/' ∷ [])) n l,
  bloom_sig topic [] n k,
)

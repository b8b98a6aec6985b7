-- ===== src/Store/Memtable/Records.antt =====
-- The log record: what is written is read back, and a record that is cut short is not read.
use avalanche_s3_archival_no.Prelude.{ℕ, ◌+◌, ◌^◌, ◌≤◌, ◌<◌, ◌≡◌, refl, sym, ap, ◌∙◌, arith}
use avalanche_s3_archival_no.Prelude.{
  List, [], ◌∷◌, ◌++◌, none, some, length, length-append, drop, append_assoc,
}
use avalanche_s3_archival_no.Prelude.{◌⊎◌, inl, inr}
use avalanche_s3_archival_no.Prelude.Bytes.{
  Bytes, be, be_value, be_value-be, length-be, take-append, drop-append,
}
use avalanche_s3_archival_no.Store.Container.{slice}
use avalanche_s3_archival_no.Store.Container.Template.{slice-append}
use avalanche_s3_archival_no.Store.Memtable.{Kind, kind_byte, encode_rec}
use avalanche_s3_archival_no.Store.Memtable.Replay.{read_rec, read_payload}

read_rec-parts :
    (r pn pl rest : Bytes) (x n l : ℕ)
    → slice r 0 1 ≡ x ∷ []
    → slice r 1 9 ≡ pn
    → slice r 9 13 ≡ pl
    → drop 13 r ≡ rest
    → be_value 0 (x ∷ []) ≡ x
    → be_value 0 pn ≡ n
    → be_value 0 pl ≡ l
    → 13 ≤ length r
    → read_rec r ≡ read_payload x n l rest
unfolding read_rec
read_rec-parts r pn pl rest x n l e0 e1 e2 e3 v0 v1 v2 h =
    rw (e0, e1, e2, e3, v0, v1, v2) (ground arith)

one_byte : (x : ℕ) → be_value 0 (x ∷ []) ≡ x
unfolding be_value
one_byte x = omega arith

pub length-encode_rec : (k : Kind) (n : ℕ) (p : Bytes) → length (encode_rec k n p) ≡ 13 + length p
unfolding encode_rec
length-encode_rec k n p = omega (
  arith,
  length-append (be 8 n) (be 4 (length p) ++ p),
  length-append (be 4 (length p)) p,
  length-be 8 n,
  length-be 4 (length p),
)

-- The header of a record, with anything behind it.
read_rec-header :
    (x n l : ℕ) (q : Bytes)
    → n < 2 ^ 64
    → l < 2 ^ 32
    → read_rec (x ∷ (be 8 n ++ (be 4 l ++ q))) ≡ read_payload x n l q
read_rec-header x n l q hn hl =
    let pn : Bytes = be 8 n in
    let pl : Bytes = be 4 l in
    let r : Bytes = x ∷ (pn ++ (pl ++ q)) in
    let e3 : drop 12 (pn ++ (pl ++ q)) ≡ q =
      ap (drop 12) (sym (append_assoc pn pl q))
      ∙ drop-append (pn ++ pl) q 12
          (omega (arith, length-append pn pl, length-be 8 n, length-be 4 l)) in
    read_rec-parts r pn pl q x n l refl (take-append pn (pl ++ q) 8 (length-be 8 n))
      (slice-append pn pl q 8 12 (length-be 8 n) (omega (arith, length-be 4 l))) e3 (one_byte x)
      (be_value-be 8 n (omega arith) hn) (be_value-be 4 l (omega arith) (omega arith))
      (omega (arith, length-append pn (pl ++ q), length-append pl q, length-be 8 n, length-be 4 l))

read_payload-whole :
    (x n : ℕ) (p t : Bytes)
    → length p ≤ 2 ^ 30
    → read_payload x n (length p) (p ++ t)
      ≡ some (record { byte = x; num = n; payload = p; rest = t })
unfolding read_payload
read_payload-whole x n p t h =
    ground
      (arith, length-append p t, take-append p t (length p) refl, drop-append p t (length p) refl)

pub read_rec-encode_rec :
    (k : Kind) (n : ℕ) (p t : Bytes)
    → n < 2 ^ 64
    → length p ≤ 2 ^ 30
    → read_rec (encode_rec k n p ++ t)
      ≡ some (record { byte = kind_byte k; num = n; payload = p; rest = t })
unfolding encode_rec
read_rec-encode_rec k n p t hn hp =
    let whole : encode_rec k n p ++ t ≡ kind_byte k ∷ (be 8 n ++ (be 4 (length p) ++ (p ++ t))) =
      simp append_assoc in
    ap read_rec whole
    ∙ (read_rec-header (kind_byte k) n (length p) (p ++ t) hn (omega arith)
        ∙ read_payload-whole (kind_byte k) n p t hp)

-- Two cuts of one list: one of the first parts continues the other.
pub append-cut {ℓ} :
    {A : Type ℓ} (t u xs ys : List A)
    → t ++ u ≡ xs ++ ys
    → ((v : List A) × (t ≡ xs ++ v) × (v ++ u ≡ ys))
      ⊎ ((v : List A) × (xs ≡ t ++ v) × (length t < length xs))
append-cut t u [] ys e = inl (t, refl, e)
append-cut [] u (x ∷ xs) ys e = inr (x ∷ xs, refl, omega arith)
append-cut (a ∷ t) u (x ∷ xs) ys e = elim (append-cut t u xs ys (cc)) [
  | inl (v, p, q) ↦ inl (v, cc, q)
  | inr (v, p, q) ↦ inr (v, cc, omega arith)
]

-- A cut of a record's bytes is short of its header or short of its payload.
pub read_rec-torn :
    (k : Kind) (n : ℕ) (p t v : Bytes)
    → n < 2 ^ 64
    → length p ≤ 2 ^ 30
    → encode_rec k n p ≡ t ++ v
    → length t < length (encode_rec k n p)
    → read_rec t ≡ none
unfolding encode_rec
read_rec-torn k n p t v hn hp e h =
    let head : Bytes = kind_byte k ∷ (be 8 n ++ be 4 (length p)) in
    let n13 : length head ≡ 13 =
      omega
        (arith, length-append (be 8 n) (be 4 (length p)), length-be 8 n, length-be 4 (length p)) in
    let split : t ++ v ≡ head ++ p = sym e ∙ simp append_assoc in
    elim (append-cut t v head p split) [
      | inr (w, f, short) ↦ unfold read_rec in ground arith
      | inl (q, f, g) ↦
          let whole : t ≡ kind_byte k ∷ (be 8 n ++ (be 4 (length p) ++ q)) =
            f ∙ simp append_assoc in
          ap read_rec whole
          ∙ (read_rec-header (kind_byte k) n (length p) q hn (omega arith)
              ∙ unfold read_payload in
                ground (
                  arith,
                  length-append head q,
                  length-append q v,
                  length-encode_rec k n p,
                  ap (λ (r : Bytes). length r) f,
                  ap (λ (r : Bytes). length r) g,
                ))
    ]

-- ===== src/Store/Container/Template.antt =====
-- A container cut at its spans comes back byte for byte.
use avalanche_s3_archival_no.Prelude.{ℕ, ◌+◌, ◌-◌, ◌^◌, ◌≤◌, ◌<◌, ◌≡◌, refl, sym, ap, ◌∙◌, arith}
use avalanche_s3_archival_no.Prelude.{
  List, ◌++◌, Option, some, length, length-append, take, drop, append_assoc,
}
use avalanche_s3_archival_no.Prelude.Bytes.{
  Bytes, be, be_value, be_value-be, length-be, take-append, drop-append,
}
use avalanche_s3_archival_no.Store.Container.{
  slice, pvm_template, concat, reassemble_at, reassemble,
}

-- A slice that is the middle part of a list.
pub slice-append :
    (xs ys zs : Bytes) (lo hi : ℕ)
    → length xs ≡ lo
    → hi ≡ lo + length ys
    → slice (xs ++ (ys ++ zs)) lo hi ≡ ys
slice-append xs ys zs lo hi h k =
    ap (take (hi - lo)) (drop-append xs (ys ++ zs) lo h) ∙ take-append ys zs (hi - lo) (omega arith)

-- The template of a container laid out as A, header, B, transactions, C.
template_lem :
    (a h b t c : Bytes)
    → pvm_template
        (a ++ (h ++ (b ++ (t ++ c))))
        (length a)
        (length a + length h)
        (length a + length h + length b)
        (length a + length h + length b + length t)
      ≡ be 4 (length a) ++ (a ++ (be 4 (length b) ++ (b ++ c)))
unfolding pvm_template
template_lem a h b t c =
    let raw : Bytes = a ++ (h ++ (b ++ (t ++ c))) in
    let e1 : take (length a) raw ≡ a = take-append a (h ++ (b ++ (t ++ c))) (length a) refl in
    let e2 : slice raw (length a + length h) (length a + length h + length b) ≡ b =
      ap (λ (r : Bytes). slice r (length a + length h) (length a + length h + length b))
        (sym (append_assoc a h (b ++ (t ++ c))))
      ∙ slice-append (a ++ h) b (t ++ c) (length a + length h) (length a + length h + length b)
          (length-append a h) refl in
    let whole : raw ≡ ((a ++ h) ++ (b ++ t)) ++ c = simp append_assoc in
    let e3 : drop (length a + length h + length b + length t) raw ≡ c =
      ap (drop (length a + length h + length b + length t)) whole
      ∙ drop-append ((a ++ h) ++ (b ++ t)) c (length a + length h + length b + length t)
          (omega (arith, length-append (a ++ h) (b ++ t), length-append a h, length-append b t)) in
    rw (e1, e2, e3)

-- The two halves of `Reassemble`, from what its slices are.
reassemble_at-pieces :
    (pvm a b c pb h : Bytes) (txs : List Bytes) (la lb : ℕ)
    → slice pvm 4 (4 + la) ≡ a
    → slice pvm (4 + la) (8 + la) ≡ pb
    → be_value 0 pb ≡ lb
    → slice pvm (8 + la) (8 + la + lb) ≡ b
    → drop (8 + la + lb) pvm ≡ c
    → 8 + la + lb ≤ length pvm
    → reassemble_at pvm la h txs ≡ some (a ++ (h ++ (b ++ (concat txs ++ c))))
unfolding reassemble_at
reassemble_at-pieces pvm a b c pb h txs la lb e1 e2 e3 e4 e5 n =
    rw (e1, e2, e3, e4, e5) (ground arith)

reassemble-at :
    (bare : Bytes → List Bytes → Option Bytes) (pvm pa h : Bytes) (txs : List Bytes) (la : ℕ)
    → take 4 pvm ≡ pa
    → be_value 0 pa ≡ la
    → 8 + la ≤ length pvm
    → reassemble bare pvm h txs ≡ reassemble_at pvm la h txs
unfolding reassemble
reassemble-at bare pvm pa h txs la e1 e2 n = rw (e1, e2) (ground arith)

-- `Reassemble` on a row that is laid out as a template.
reassemble_template :
    (bare : Bytes → List Bytes → Option Bytes) (a h b c : Bytes) (txs : List Bytes)
    → length a < 2 ^ 32
    → length b < 2 ^ 32
    → reassemble bare (be 4 (length a) ++ (a ++ (be 4 (length b) ++ (b ++ c)))) h txs
      ≡ some (a ++ (h ++ (b ++ (concat txs ++ c))))
reassemble_template bare a h b c txs p q =
    let pa : Bytes = be 4 (length a) in
    let pb : Bytes = be 4 (length b) in
    let pvm : Bytes = pa ++ (a ++ (pb ++ (b ++ c))) in
    let la = length-be 4 (length a) in
    let lb = length-be 4 (length b) in
    let n : length pvm ≡ 8 + length a + length b + length c = omega (
      arith,
      la,
      lb,
      length-append pa (a ++ (pb ++ (b ++ c))),
      length-append a (pb ++ (b ++ c)),
      length-append pb (b ++ c),
      length-append b c,
    ) in
    let n2 : length (pa ++ a) ≡ 4 + length a = omega (arith, la, length-append pa a) in
    let n3 : length ((pa ++ a) ++ pb) ≡ 8 + length a =
      omega (arith, n2, lb, length-append (pa ++ a) pb) in
    let n4 : length (((pa ++ a) ++ pb) ++ b) ≡ 8 + length a + length b =
      omega (arith, n3, length-append ((pa ++ a) ++ pb) b) in
    let s2 : pvm ≡ (pa ++ a) ++ (pb ++ (b ++ c)) = simp append_assoc in
    let s3 : pvm ≡ ((pa ++ a) ++ pb) ++ (b ++ c) = simp append_assoc in
    let s4 : pvm ≡ (((pa ++ a) ++ pb) ++ b) ++ c = simp append_assoc in
    reassemble-at bare pvm pa h txs (length a) (take-append pa (a ++ (pb ++ (b ++ c))) 4 la)
      (be_value-be 4 (length a) (omega arith) (omega arith)) (omega (arith, n))
    ∙ reassemble_at-pieces pvm a b c pb h txs (length a) (length b)
        (slice-append pa a (pb ++ (b ++ c)) 4 (4 + length a) la refl)
        (ap (λ (r : Bytes). slice r (4 + length a) (8 + length a)) s2
          ∙ slice-append (pa ++ a) pb (b ++ c) (4 + length a) (8 + length a) n2 (omega (arith, lb)))
        (be_value-be 4 (length b) (omega arith) (omega arith))
        (ap (λ (r : Bytes). slice r (8 + length a) (8 + length a + length b)) s3
          ∙ slice-append ((pa ++ a) ++ pb) b c (8 + length a) (8 + length a + length b) n3 refl)
        (ap (drop (8 + length a + length b)) s4
          ∙ drop-append (((pa ++ a) ++ pb) ++ b) c (8 + length a + length b) n4)
        (omega (arith, n))

-- A container laid out as A, header, B, transactions, C, with A and B below 4 GB: the row cut at the
-- spans of its header and its transactions gives the container back, byte for byte.
pub reassemble-pvm_template :
    (bare : Bytes → List Bytes → Option Bytes) (a h b c : Bytes) (txs : List Bytes)
    → length a < 2 ^ 32
    → length b < 2 ^ 32
    → let raw = a ++ (h ++ (b ++ (concat txs ++ c))) in
      let he = length a + length h in
      let te = he + length b + length (concat txs) in
      reassemble bare (pvm_template raw (length a) he (he + length b) te) h txs ≡ some raw
reassemble-pvm_template bare a h b c txs p q =
    rw (template_lem a h b (concat txs) c) (reassemble_template bare a h b c txs p q)

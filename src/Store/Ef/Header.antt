-- ===== src/Store/Ef/Header.antt =====
-- The chunk header: the variable-length numbers of `binary.AppendUvarint`, and what `Decode` reads back.
use avalanche_s3_archival_no.Prelude.{
  ℕ, zero, suc, ◌+◌, ◌*◌, ◌/◌, ◌%◌, ◌^◌, ◌≤◌, ◌<◌, ◌≡◌, refl, sym, ap, ◌∙◌, arith,
}
use avalanche_s3_archival_no.Prelude.{
  [], ◌∷◌, ◌++◌, append_assoc, Option, none, some, length, length-append, drop, ◌⊎◌, inl, inr,
}
use avalanche_s3_archival_no.Prelude.Bytes.{Bytes}
use native.Mathlib.Nat.{pow-suc}
use native.Mathlib.Decide.{dec_lt}
use avalanche_s3_archival_no.Store.Ef.{
  len64, uvarint_bytes, put_uvarint, uvarint_from, uvarint, ef_header, header_from,
}
use avalanche_s3_archival_no.Store.Ef.Bits.{drop-past}

pub len64-le : (w x : ℕ) → len64 w x ≤ w
unfolding len64
len64-le zero x = omega arith
len64-le (suc w) x = ground (arith, len64-le w (x / 2))

last_group :
    (i unit acc b : ℕ) (bs : Bytes)
    → b < 128
    → i < 9 ⊎ ((i ≡ 9) × (b < 2))
    → uvarint_from i unit acc (b ∷ bs) ≡ some ((acc + b * unit) % 2 ^ 64, suc i)
unfolding uvarint_from
last_group i unit acc b bs small (inl early) = ground arith
last_group i unit acc b bs small (inr (late, one)) = ground arith

more_groups :
    (i unit acc b : ℕ) (bs : Bytes)
    → 128 ≤ b
    → i < 10
    → uvarint_from i unit acc (b ∷ bs)
      ≡ uvarint_from (suc i) (unit * 128) ((acc + b % 128 * unit) % 2 ^ 64) bs
unfolding uvarint_from
more_groups i unit acc b bs big early = ground arith

put_last : (g x : ℕ) → x < 128 → uvarint_bytes g x ≡ x ∷ []
unfolding uvarint_bytes
put_last zero x small = refl
put_last (suc g) x small = ground arith

put_more :
    (g x : ℕ) → 128 ≤ x → uvarint_bytes (suc g) x ≡ (x % 128 + 128) ∷ uvarint_bytes g (x / 128)
unfolding uvarint_bytes
put_more g x big = ground arith

one_group :
    (g i unit acc x : ℕ) (rest : Bytes)
    → x < 128
    → i < 9 ⊎ ((i ≡ 9) × (x < 2))
    → acc + x * unit < 2 ^ 64
    → uvarint_from i unit acc (uvarint_bytes g x ++ rest)
      ≡ some (acc + x * unit, i + length (uvarint_bytes g x))
one_group g i unit acc x rest small early fits =
    let value : (acc + x * unit) % 2 ^ 64 ≡ acc + x * unit = omega arith in
    let count : suc i ≡ i + length (x ∷ []) = omega arith in
    ap (λ (l : Bytes). uvarint_from i unit acc (l ++ rest)) (put_last g x small)
    ∙ last_group i unit acc x rest small early
    ∙ ap (λ (v : ℕ). some (v, suc i)) value
    ∙ ap (λ (k : ℕ). some (acc + x * unit, k)) count
    ∙ ap (λ (l : Bytes). some (acc + x * unit, i + length l)) (sym (put_last g x small))

uvarint_from-bytes :
    (g i unit acc x : ℕ) (rest : Bytes)
    → i + g ≡ 9
    → unit * 128 ^ g ≡ 2 ^ 63
    → acc + x * unit < 2 ^ 64
    → uvarint_from i unit acc (uvarint_bytes g x ++ rest)
      ≡ some (acc + x * unit, i + length (uvarint_bytes g x))
uvarint_from-bytes zero i unit acc x rest sum top fits =
    let unit_is : unit ≡ 2 ^ 63 = omega arith in
    let few : x < 2 = omega (arith, ap (λ (u : ℕ). x * u) unit_is) in
    one_group 0 i unit acc x rest (omega arith) (inr (omega arith, few)) fits
uvarint_from-bytes (suc g) i unit acc x rest sum top fits = elim (dec_lt x 128) [
  | yes small ↦ one_group (suc g) i unit acc x rest small (inl (omega arith)) fits
  | no big ↦
      let b = x % 128 + 128 in
      let acc1 = acc + x % 128 * unit in
      let parts : x ≡ x / 128 * 128 + x % 128 = omega arith in
      let split = ap (λ (y : ℕ). y * unit) parts in
      let low : (acc + b % 128 * unit) % 2 ^ 64 ≡ acc1 =
        let digit : b % 128 ≡ x % 128 = omega arith in
        omega (arith, split, ap (λ (d : ℕ). d * unit) digit) in
      let value : acc1 + x / 128 * (unit * 128) ≡ acc + x * unit = omega (arith, split) in
      let top1 : unit * 128 * 128 ^ g ≡ 2 ^ 63 =
        omega (arith, top, ap (λ (p : ℕ). unit * p) (pow-suc 128 g)) in
      let bytes = uvarint_bytes g (x / 128) in
      let count : suc i + length bytes ≡ i + length (b ∷ bytes) = omega arith in
      ap (λ (l : Bytes). uvarint_from i unit acc (l ++ rest)) (put_more g x (omega arith))
      ∙ more_groups i unit acc b (bytes ++ rest) (omega arith) (omega arith)
      ∙ ap (λ (a : ℕ). uvarint_from (suc i) (unit * 128) a (bytes ++ rest)) low
      ∙ uvarint_from-bytes g (suc i) (unit * 128) acc1 (x / 128) rest (omega arith) top1
          (omega (arith, value))
      ∙ ap (λ (v : ℕ). some (v, suc i + length bytes)) value
      ∙ ap (λ (k : ℕ). some (acc + x * unit, k)) count
      ∙ ap (λ (l : Bytes). some (acc + x * unit, i + length l)) (sym (put_more g x (omega arith)))
]

pub uvarint-put_uvarint :
    (x : ℕ) (rest : Bytes)
    → x < 2 ^ 64
    → uvarint (put_uvarint x ++ rest) ≡ some (x, length (put_uvarint x))
uvarint-put_uvarint x rest fits =
    let value : 0 + x * 1 ≡ x = omega arith in
    let count : 0 + length (put_uvarint x) ≡ length (put_uvarint x) = omega arith in
    uvarint_from-bytes 9 0 1 0 x rest refl refl (omega arith)
    ∙ ap (λ (v : ℕ). some (v, 0 + length (put_uvarint x))) value
    ∙ ap (λ (k : ℕ). some (x, k)) count

abbrev third : ℕ → ℕ → ℕ → Option (ℕ × ℕ) → Option (ℕ × ℕ × ℕ × ℕ)
third n low at o = elim o [ none ↦ none | some (pb, m) ↦ some (n, low, pb, at + m) ]

abbrev second : Bytes → ℕ → ℕ → Option (ℕ × ℕ) → Option (ℕ × ℕ × ℕ × ℕ)
second v n k o = elim o [
  | none ↦ none
  | some (low, l) ↦ third n low (k + l) (uvarint (drop (k + l) v))
]

abbrev first : Bytes → Option (ℕ × ℕ) → Option (ℕ × ℕ × ℕ × ℕ)
first v o = elim o [ none ↦ none | some (n, k) ↦ second v n k (uvarint (drop k v)) ]

pub header_from-ef_header :
    (n low pb : ℕ) (rest : Bytes)
    → n < 2 ^ 64
    → low < 2 ^ 64
    → pb < 2 ^ 64
    → header_from (ef_header n low pb ++ rest) ≡ some (n, low, pb, length (ef_header n low pb))
header_from-ef_header n low pb rest fits fits_low fits_pb =
    let a = put_uvarint n in
    let b = put_uvarint low in
    let c = put_uvarint pb in
    let v = ef_header n low pb ++ rest in
    let at_low : v ≡ a ++ (b ++ (c ++ rest)) =
      append_assoc a (b ++ c) rest ∙ ap (λ (l : Bytes). a ++ l) (append_assoc b c rest) in
    let at_pb : v ≡ (a ++ b) ++ (c ++ rest) = at_low ∙ sym (append_assoc a b (c ++ rest)) in
    let here : drop (length a) v ≡ b ++ (c ++ rest) =
      ap (λ (l : Bytes). drop (length a) l) at_low
      ∙ drop-past a (b ++ (c ++ rest)) (length a) 0 (omega arith) in
    let there : drop (length a + length b) v ≡ c ++ rest =
      ap (λ (l : Bytes). drop (length a + length b) l) at_pb
      ∙ drop-past (a ++ b) (c ++ rest) (length a + length b) 0 (omega (arith, length-append a b)) in
    let size : length a + length b + length c ≡ length (ef_header n low pb) =
      omega (arith, length-append a (b ++ c), length-append b c) in
    ap (first v)
      (ap (λ (l : Bytes). uvarint l) at_low ∙ uvarint-put_uvarint n (b ++ (c ++ rest)) fits)
    ∙ ap (second v n (length a))
        (ap (λ (l : Bytes). uvarint l) here ∙ uvarint-put_uvarint low (c ++ rest) fits_low)
    ∙ ap (third n low (length a + length b))
        (ap (λ (l : Bytes). uvarint l) there ∙ uvarint-put_uvarint pb rest fits_pb)
    ∙ ap (λ (k : ℕ). some (n, low, pb, k)) size

pub put_uvarint-some : (x : ℕ) → 0 < length (put_uvarint x)
unfolding uvarint_bytes
put_uvarint-some x = ground arith

-- ===== src/Store/Postings/Union.antt =====
-- What a list of entries says of a group and a TxNum: the union of the payloads. Neither the order
-- of the entries nor the joining of neighbours changes it.
use avalanche_s3_archival_no.Prelude.{
  ℕ, zero, suc, ◌+◌, ◌*◌, ◌/◌, ◌%◌, ◌==◌, ◌≡◌, refl, sym, ap, ◌∙◌, arith, if◌then◌else◌,
}
use avalanche_s3_archival_no.Prelude.{
  Bool, true, false, ◌&&◌, ◌||◌, List, [], ◌∷◌, ◌++◌, append-nil, map, Option, none, some, inl, inr,
  Bool-cases,
}
use avalanche_s3_archival_no.Prelude.Bytes.{Bytes, beq, beq_iff}
use avalanche_s3_archival_no.Store.Memtable.{Posting}
use avalanche_s3_archival_no.Store.Postings.{or_bits, insert_by, sort_by}
use avalanche_s3_archival_no.Store.Postings.Collect.{same_entry, absorb, collect}

or_bits_comm : (w a b : ℕ) → or_bits w a b ≡ or_bits w b a
unfolding or_bits
or_bits_comm zero a b = refl
or_bits_comm (suc w) a b = ground (arith, or_bits_comm w (a / 2) (b / 2))

or_bits-half : (w a b : ℕ) → or_bits (suc w) a b / 2 ≡ or_bits w (a / 2) (b / 2)
unfolding or_bits
or_bits-half w a b = ground arith

or_bits-odd : (w a b : ℕ) → (or_bits (suc w) a b % 2 == 1) ≡ (a % 2 == 1) || (b % 2 == 1)
unfolding or_bits
or_bits-odd w a b = ground arith

or_bits-split :
    (w a b : ℕ)
    → or_bits (suc w) a b
      ≡ or_bits w (a / 2) (b / 2) * 2 + (if (a % 2 == 1) || (b % 2 == 1) then 1 else 0)
unfolding or_bits
or_bits-split w a b = refl

or_none : (a b : ℕ) → or_bits 0 a b ≡ 0
unfolding or_bits
or_none a b = refl

abbrev digit : Bool → ℕ
digit b = if b then 1 else 0

or_assoc : (x y z : Bool) → ((x || y) || z) ≡ (x || (y || z))
or_assoc true y z = refl
or_assoc false y z = refl

or_bits_assoc : (w a b c : ℕ) → or_bits w (or_bits w a b) c ≡ or_bits w a (or_bits w b c)
or_bits_assoc zero a b c = or_none (or_bits 0 a b) c ∙ sym (or_none a (or_bits 0 b c))
or_bits_assoc (suc w) a b c =
    let odd_a = a % 2 == 1 in
    let odd_b = b % 2 == 1 in
    let odd_c = c % 2 == 1 in
    let ab = or_bits (suc w) a b in
    let bc = or_bits (suc w) b c in
    let left =
      or_bits-split w ab c
      ∙ ap (λ (h : ℕ). or_bits w h (c / 2) * 2 + digit ((ab % 2 == 1) || odd_c))
          (or_bits-half w a b)
      ∙ ap (λ (d : Bool). or_bits w (or_bits w (a / 2) (b / 2)) (c / 2) * 2 + digit (d || odd_c))
          (or_bits-odd w a b) in
    let right =
      or_bits-split w a bc
      ∙ ap (λ (h : ℕ). or_bits w (a / 2) h * 2 + digit (odd_a || (bc % 2 == 1)))
          (or_bits-half w b c)
      ∙ ap (λ (d : Bool). or_bits w (a / 2) (or_bits w (b / 2) (c / 2)) * 2 + digit (odd_a || d))
          (or_bits-odd w b c) in
    left
    ∙ ap (λ (r : ℕ). r * 2 + digit ((odd_a || odd_b) || odd_c))
        (or_bits_assoc w (a / 2) (b / 2) (c / 2))
    ∙ ap (λ (d : Bool). or_bits w (a / 2) (or_bits w (b / 2) (c / 2)) * 2 + digit d)
        (or_assoc odd_a odd_b odd_c)
    ∙ sym right

or_bits_swap : (w a b c : ℕ) → or_bits w a (or_bits w b c) ≡ or_bits w b (or_bits w a c)
or_bits_swap w a b c =
    sym (or_bits_assoc w a b c)
    ∙ ap (λ (x : ℕ). or_bits w x c) (or_bits_comm w a b)
    ∙ or_bits_assoc w b a c

abbrev pub join_in : ℕ → Option ℕ → ℕ
join_in p none = p
join_in p (some q) = or_bits 8 p q

join_in_swap :
    (p q : ℕ) (o : Option ℕ) → join_in p (some (join_in q o)) ≡ join_in q (some (join_in p o))
join_in_swap p q none = or_bits_comm 8 p q
join_in_swap p q (some r) = or_bits_swap 8 p q r

join_in_assoc :
    (p q : ℕ) (o : Option ℕ) → join_in (or_bits 8 p q) o ≡ join_in p (some (join_in q o))
join_in_assoc p q none = refl
join_in_assoc p q (some r) = or_bits_assoc 8 p q r

module _ (g : Bytes) (t : ℕ) where
  abbrev is_at : Posting → Bool
  is_at e = beq e.group g && (e.txnum == t)

  -- One more entry in front.
  abbrev unite : Posting → Option ℕ → Option ℕ
  unite e o = if is_at e then some (join_in e.payload o) else o

  abbrev pub union_at : List Posting → Option ℕ
  union_at [] = none
  union_at (e ∷ es) = unite e (union_at es)

  unite_swap : (x y : Posting) (o : Option ℕ) → unite x (unite y o) ≡ unite y (unite x o)
  unite_swap x y o = ground (arith, join_in_swap x.payload y.payload o)

  module _ {ℓ} {A : Type ℓ} (less : A → A → Bool) (f : A → Posting) where
    union_at-insert :
        (x : A) (ys : List A) → union_at (map f (insert_by less x ys)) ≡ union_at (map f (x ∷ ys))
    unfolding insert_by
    union_at-insert x [] = refl
    union_at-insert x (y ∷ ys) = elim (Bool-cases (less y x)) [
      | inl before ↦
          rw before
            (ap (unite (f y)) (union_at-insert x ys) ∙ unite_swap (f y) (f x) (union_at (map f ys)))
      | inr behind ↦ rw behind refl
    ]

    pub union_at-sort : (xs : List A) → union_at (map f (sort_by less xs)) ≡ union_at (map f xs)
    unfolding sort_by
    union_at-sort [] = refl
    union_at-sort (x ∷ xs) =
        union_at-insert x (sort_by less xs) ∙ ap (unite (f x)) (union_at-sort xs)

  unite_same :
      (x e : Posting) (o : Option ℕ)
      → same_entry x e ≡ true
      → unite (record x { payload = or_bits 8 x.payload e.payload }) o ≡ unite x (unite e o)
  unite_same x e o same =
      let groups : x.group ≡ e.group = (beq_iff x.group e.group).0 (ground (arith, same)) in
      let nums : x.txnum ≡ e.txnum = ground (arith, same) in
      let both : is_at x ≡ is_at e =
        ap (λ (h : Bytes). beq h g && (x.txnum == t)) groups
        ∙ ap (λ (n : ℕ). beq e.group g && (n == t)) nums in
      let assoc = join_in_assoc x.payload e.payload o in
      elim (Bool-cases (is_at x)) [
        | inl here ↦ let there = sym both ∙ here in rw (here, there) (ap (λ (n : ℕ). some n) assoc)
        | inr off ↦ let there = sym both ∙ off in rw (off, there) refl
      ]

  union_at-absorb :
      (acc : List Posting) (e : Posting) (es : List Posting)
      → union_at (absorb acc e ++ es) ≡ union_at (acc ++ (e ∷ es))
  union_at-absorb [] e es = refl
  union_at-absorb (x ∷ []) e es = elim (Bool-cases (same_entry x e)) [
    | inl same ↦ rw same (unite_same x e (union_at es) same)
    | inr other ↦ rw other refl
  ]
  union_at-absorb (x ∷ y ∷ acc) e es = ap (unite x) (union_at-absorb (y ∷ acc) e es)

  pub union_at-collect : (es acc : List Posting) → union_at (collect acc es) ≡ union_at (acc ++ es)
  union_at-collect [] acc = ap union_at (sym (append-nil acc))
  union_at-collect (e ∷ es) acc = union_at-collect es (absorb acc e) ∙ union_at-absorb acc e es

-- ===== src/Store/Postings/Order.antt =====
-- The order of the entries in the chunks: by group in byte order, then by TxNum, none twice.
use mathlib.Core.Path.{subst}
use avalanche_s3_archival_no.Prelude.{◌==◌, ◌≡◌, ◌<◌, ◌≤◌, refl, sym, ap, ◌∙◌, arith}
use avalanche_s3_archival_no.Prelude.{
  true, false, List, [], ◌∷◌, some, last?, ◌⊎◌, inl, inr, Bool-cases,
}
use avalanche_s3_archival_no.Prelude.Bytes.{Bytes, beq_iff, blt}
use avalanche_s3_archival_no.Store.Memtable.{Posting}
use avalanche_s3_archival_no.Store.Postings.{or_bits}
use avalanche_s3_archival_no.Store.Postings.Collect.{same_entry, absorb, collect}

-- One entry before another, and one at most at another.
abbrev pub Before : Posting → Posting → Type 0
Before x y = (blt x.group y.group ≡ true) ⊎ ((x.group ≡ y.group) × (x.txnum < y.txnum))

abbrev pub UpTo : Posting → Posting → Type 0
UpTo x y = (blt x.group y.group ≡ true) ⊎ ((x.group ≡ y.group) × (x.txnum ≤ y.txnum))

abbrev pub Ascending : List Posting → Type 0
Ascending [] = Unit
Ascending (x ∷ []) = Unit
Ascending (x ∷ y ∷ ys) = Before x y × Ascending (y ∷ ys)

abbrev pub Climbing : Posting → List Posting → Type 0
Climbing x [] = Unit
Climbing x (e ∷ es) = UpTo x e × Climbing e es

pub blt_cases : (a b : Bytes) → blt a b ≡ false → (a ≡ b) ⊎ (blt b a ≡ true)
unfolding blt
blt_cases [] [] h = inl refl
blt_cases [] (y ∷ b) h = absurd (cc)
blt_cases (x ∷ a) [] h = inr refl
blt_cases (x ∷ a) (y ∷ b) h = elim (Bool-cases (x == y)) [
  | inr apart ↦ inr (ground (arith, apart, h))
  | inl same ↦
      let heads : x ≡ y = ground (arith, same) in
      elim (blt_cases a b (ground (arith, same, h))) [
        | inl e ↦ inl (cc)
        | inr l ↦ inr (ground (arith, heads, l))
      ]
]

pub blt_asym : (a b : Bytes) → blt a b ≡ true → blt b a ≡ false
unfolding blt
blt_asym [] [] h = absurd (cc)
blt_asym [] (y ∷ b) h = refl
blt_asym (x ∷ a) [] h = absurd (cc)
blt_asym (x ∷ a) (y ∷ b) h = ground (arith, h, blt_asym a b)

-- Entries that were joined one after the other.
pub record Joined (x : Posting) (xs : List Posting) (e : Posting) : Type 0 where
  pub head : Posting
  pub tail : List Posting
  pub is : absorb (x ∷ xs) e ≡ head ∷ tail
  pub group : head.group ≡ x.group
  pub txnum : head.txnum ≡ x.txnum
  pub up : Ascending (head ∷ tail)
  pub last : Posting
  pub ends : last? (head ∷ tail) ≡ some last
  pub last_group : last.group ≡ e.group
  pub last_txnum : last.txnum ≡ e.txnum

Before-key : (x y h : Posting) → h.group ≡ y.group → h.txnum ≡ y.txnum → Before x y → Before x h
Before-key x y h g t (inl l) = inl (ap (blt x.group) g ∙ l)
Before-key x y h g t (inr (e, l)) = inr (e ∙ sym g, omega arith)

UpTo-Before : (x e : Posting) → UpTo x e → same_entry x e ≡ false → Before x e
UpTo-Before x e (inl l) h = inl l
UpTo-Before x e (inr (g, le)) h =
    let groups = (beq_iff x.group e.group).1 g in inr (g, ground (arith, h, groups))

absorb-Joined :
    (x : Posting) (xs : List Posting) (z e : Posting)
    → Ascending (x ∷ xs)
    → last? (x ∷ xs) ≡ some z
    → UpTo z e
    → Joined x xs e
absorb-Joined x [] z e a l u = elim (Bool-cases (same_entry x e)) [
  | inl same ↦
      let merged : Posting = record x { payload = or_bits 8 x.payload e.payload } in
      let groups : x.group ≡ e.group = ground (arith, same, beq_iff x.group e.group) in
      record {
        head = merged;
        tail = [];
        is = ground (arith, same);
        group = refl;
        txnum = refl;
        up = tt;
        last = merged;
        ends = refl;
        last_group = groups;
        last_txnum = ground (arith, same);
      }
  | inr other ↦
      let here : z ≡ x = cc in
      record {
        head = x;
        tail = e ∷ [];
        is = ground (arith, other);
        group = refl;
        txnum = refl;
        up = (UpTo-Before x e (subst (λ (p : Posting). UpTo p e) here u) other, tt);
        last = e;
        ends = refl;
        last_group = refl;
        last_txnum = refl;
      }
]
absorb-Joined x (y ∷ ys) z e (b, a) l u =
    let j = absorb-Joined y ys z e a l u in
    record {
      head = x;
      tail = j.head ∷ j.tail;
      is = ap (λ (p : List Posting). x ∷ p) j.is;
      group = refl;
      txnum = refl;
      up = (Before-key x y j.head j.group j.txnum b, j.up);
      last = j.last;
      ends = j.ends;
      last_group = j.last_group;
      last_txnum = j.last_txnum;
    }

Climbing-key :
    (z e : Posting) (es : List Posting)
    → z.group ≡ e.group
    → z.txnum ≡ e.txnum
    → Climbing e es
    → Climbing z es
Climbing-key z e [] g t c = tt
Climbing-key z e (f ∷ es) g t (inl l, c) = (inl (ap (λ (b : Bytes). blt b f.group) g ∙ l), c)
Climbing-key z e (f ∷ es) g t (inr (q, le), c) = (inr (g ∙ q, omega arith), c)

collect-Ascending :
    (es : List Posting) (x : Posting) (xs : List Posting) (z : Posting)
    → Ascending (x ∷ xs)
    → last? (x ∷ xs) ≡ some z
    → Climbing z es
    → Ascending (collect (x ∷ xs) es)
collect-Ascending [] x xs z a l c = a
collect-Ascending (e ∷ es) x xs z a l (u, c) =
    let j = absorb-Joined x xs z e a l u in
    subst (λ (p : List Posting). Ascending (collect p es)) (sym j.is)
      (collect-Ascending es j.head j.tail j.last j.up j.ends
        (Climbing-key j.last e es j.last_group j.last_txnum c))

-- Entries in order are joined to entries that ascend.
pub collected-Ascending :
    (e : Posting) (es : List Posting) → Climbing e es → Ascending (collect [] (e ∷ es))
collected-Ascending e es c = collect-Ascending es e [] e tt refl c

-- ===== src/Fetch/Queue/Chain.antt =====
-- The queue against the chain of all containers that it ever took.
use avalanche_s3_archival_no.Prelude.{
  ℕ, zero, suc, ◌+◌, ◌-◌, ◌%◌, ◌^◌, ◌≤◌, ◌<◌, ◌≡◌, refl, sym, ap, ◌∙◌, arith, ◌==◌, ltb,
  if◌then◌else◌,
}
use avalanche_s3_archival_no.Prelude.{
  true, List, [], ◌∷◌, ◌++◌, Option, none, some, length, length-append, get_elem?,
  get_elem?-append_left, get_elem?-append_right, All, All-append,
}
use avalanche_s3_archival_no.Prelude.{◌⊎◌, drop}
use avalanche_s3_archival_no.Prelude.Bytes.{Bytes, beq_iff}
use native.Mathlib.Decide.{dec_lt}
use avalanche_s3_archival_no.Fetch.Queue.{Parsed, Queue, RawBlock, takes, appended, keep_behind}

-- A chain of containers from a height on, each with the hash of the one before for its parent.
abbrev pub Linked : ℕ → Bytes → List RawBlock → Type 0
Linked from anchor [] = Unit
Linked from anchor (b ∷ bs) =
    (b.p.block_number ≡ from) × (b.p.parent_hash ≡ anchor) × Linked (from + 1) b.p.block_hash bs

abbrev pub tip_hash : Bytes → List RawBlock → Bytes
tip_hash anchor [] = anchor
tip_hash anchor (b ∷ bs) = tip_hash b.p.block_hash bs

abbrev pub raw_size : List RawBlock → ℕ
raw_size [] = 0
raw_size (b ∷ bs) = length b.raw + raw_size bs

-- What a queue that holds a chain from `low` on has at a height.
abbrev pub held_at : ℕ → List RawBlock → ℕ → ℕ → Option Bytes
held_at from chain low n =
    if ltb n low
    then none
    else elim (get_elem? chain (n - from)) [ none ↦ none | some b ↦ some b.raw ]

abbrev pub RawFits : RawBlock → Type 0
RawFits b = length b.raw < 2 ^ 63

pub record Holds (from : ℕ) (anchor : Bytes) (chain : List RawBlock) (q : Queue) : Type 0 where
  pub linked : Linked from anchor chain
  pub top : q.head + 1 ≡ from + length chain
  pub tip : q.head_hash ≡ tip_hash anchor chain
  pub map : (n : ℕ) → q.blk n ≡ held_at from chain q.low n
  pub size : q.bytes ≡ raw_size (drop (q.low - from) chain) % 2 ^ 64
  pub floor : from ≤ q.low
  pub eaten : q.consumed ≤ q.head
  pub kept : (q.low ≡ from) ⊎ (q.low + keep_behind ≤ q.consumed + 1)
  pub start : 1 ≤ from
  pub small : q.head < 2 ^ 63
  pub fit : All RawFits chain

Linked-append :
    (from : ℕ) (anchor : Bytes) (chain : List RawBlock) (b : RawBlock)
    → Linked from anchor chain
    → b.p.block_number ≡ from + length chain
    → b.p.parent_hash ≡ tip_hash anchor chain
    → Linked from anchor (chain ++ (b ∷ []))
Linked-append from anchor [] b l e h = (omega arith, h, tt)
Linked-append from anchor (c ∷ cs) b (x, y, l) e h =
    (x, y, Linked-append (from + 1) c.p.block_hash cs b l (omega arith) h)

tip_hash-append :
    (anchor : Bytes) (chain : List RawBlock) (b : RawBlock)
    → tip_hash anchor (chain ++ (b ∷ [])) ≡ b.p.block_hash
tip_hash-append anchor [] b = refl
tip_hash-append anchor (c ∷ cs) b = tip_hash-append c.p.block_hash cs b

pub get_elem?-past {ℓ} : {A : Type ℓ} (xs : List A) (i : ℕ) → length xs ≤ i → get_elem? xs i ≡ none
get_elem?-past [] i h = refl
get_elem?-past (x ∷ xs) zero h = absurd (omega arith)
get_elem?-past (x ∷ xs) (suc i) h = get_elem?-past xs i (omega arith)

pub get_elem?-inside {ℓ} :
    {A : Type ℓ} (xs : List A) (i : ℕ) → i < length xs → (x : A) × (get_elem? xs i ≡ some x)
get_elem?-inside [] i h = absurd (omega arith)
get_elem?-inside (x ∷ xs) zero h = (x, refl)
get_elem?-inside (x ∷ xs) (suc i) h = get_elem?-inside xs i (omega arith)

drop-append_left {ℓ} :
    {A : Type ℓ} (n : ℕ) (xs ys : List A) → n ≤ length xs → drop n (xs ++ ys) ≡ drop n xs ++ ys
drop-append_left zero xs ys h = refl
drop-append_left (suc n) [] ys h = absurd (omega arith)
drop-append_left (suc n) (x ∷ xs) ys h = drop-append_left n xs ys (omega arith)

raw_size-append : (xs ys : List RawBlock) → raw_size (xs ++ ys) ≡ raw_size xs + raw_size ys
raw_size-append [] ys = omega arith
raw_size-append (x ∷ xs) ys = omega (arith, raw_size-append xs ys)

-- The chain with one more container, height by height.
held_at-append :
    (from low n num : ℕ) (chain : List RawBlock) (b : RawBlock)
    → from ≤ low
    → num ≡ from + length chain
    → low ≤ num
    → held_at from (chain ++ (b ∷ [])) low n
      ≡ (if n == num then some b.raw else held_at from chain low n)
held_at-append from low n num chain b lo e le = elim (dec_lt (n - from) (length chain)) [
  | yes old ↦ ground (arith, get_elem?-append_left chain (b ∷ []) (n - from) old)
  | no new ↦ elim (dec_lt num n) [
    | yes past ↦ ground (
      arith,
      get_elem?-past (chain ++ (b ∷ [])) (n - from),
      get_elem?-past chain (n - from),
      length-append chain (b ∷ []),
    )
    | no top ↦
        ground (
          arith,
          get_elem?-append_right chain (b ∷ []) (n - from) 0,
          get_elem?-past chain (n - from),
        )
  ]
]

-- A container that the queue can be offered.
pub record IsOffer (p : Parsed) (raw : Bytes) : Type 0 where
  pub number : 0 < p.block_number
  pub number_fits : p.block_number < 2 ^ 63
  pub raw_fits : length raw < 2 ^ 63

pub appended-Holds :
    (from : ℕ) (anchor : Bytes) (chain : List RawBlock) (q : Queue) (p : Parsed) (raw : Bytes)
    → IsOffer p raw
    → Holds from anchor chain q
    → takes q p ≡ true
    → Holds from anchor (chain ++ (record { p = p; raw = raw } ∷ [])) (appended q p raw)
unfolding appended takes
appended-Holds from anchor chain q p raw o h t =
    let b : RawBlock = record { p = p; raw = raw } in
    let small = h.small in
    let pos = o.number in
    let num : p.block_number ≡ from + length chain = ground (arith, h.top) in
    let link : p.parent_hash ≡ q.head_hash = ground (arith, beq_iff p.parent_hash q.head_hash) in
    let le : q.low ≤ p.block_number = ground (arith, h.kept, h.eaten, h.top) in
    record {
      linked = Linked-append from anchor chain b h.linked num (link ∙ h.tip);
      top = omega (arith, length-append chain (b ∷ []));
      tip = sym (tip_hash-append anchor chain b);
      map = λ n.
          ap (λ (v : Option Bytes). if n == p.block_number then some raw else v) (h.map n)
          ∙ sym (held_at-append from q.low n p.block_number chain b h.floor num le);
      size = omega (
        arith,
        h.size,
        ap raw_size (drop-append_left (q.low - from) chain (b ∷ []) (omega arith)),
        raw_size-append (drop (q.low - from) chain) (b ∷ []),
      );
      floor = h.floor;
      eaten = ground (arith, h.eaten, h.top);
      kept = h.kept;
      start = h.start;
      small = o.number_fits;
      fit = All-append RawFits chain (b ∷ []) h.fit (o.raw_fits, tt);
    }

-- ===== src/Fetch/Queue/Release.antt =====
-- What a queue holds at a height, and the release of the containers below the executed tail.
use avalanche_s3_archival_no.Prelude.{
  ℕ, zero, suc, ◌+◌, ◌-◌, ◌≤◌, ◌<◌, ◌≡◌, refl, sym, ap, ◌∙◌, arith, add64, sub64, ◌==◌, leb, ltb,
  if◌then◌else◌,
}
use avalanche_s3_archival_no.Prelude.{
  Bool, true, false, List, [], ◌∷◌, Option, none, some, length, get_elem?, All,
}
use avalanche_s3_archival_no.Prelude.{◌⊎◌, inl, inr, Bool-cases, drop}
use avalanche_s3_archival_no.Prelude.Bytes.{Bytes}
use avalanche_s3_archival_no.Fetch.Queue.{
  Queue, RawBlock, release_one, release_loop, release, keep_behind, stored,
}
use avalanche_s3_archival_no.Fetch.Queue.Chain.{
  raw_size, Holds, RawFits, get_elem?-past, get_elem?-inside,
}

drop-step {ℓ} :
    {A : Type ℓ} (xs : List A) (k : ℕ) {x : A}
    → get_elem? xs k ≡ some x
    → drop k xs ≡ x ∷ drop (suc k) xs
drop-step [] k h = absurd (cc)
drop-step (y ∷ xs) zero h = cc
drop-step (y ∷ xs) (suc k) h = drop-step xs k h

All-get_elem? :
    (P : RawBlock → Type 0) (xs : List RawBlock) (k : ℕ) {b : RawBlock}
    → All P xs
    → get_elem? xs k ≡ some b
    → P b
All-get_elem? P [] k a h = absurd (cc)
All-get_elem? P (y ∷ xs) zero {b} (p, a) h = let e : y ≡ b = cc in rw (sym e) p
All-get_elem? P (y ∷ xs) (suc k) (p, a) h = All-get_elem? P xs k a h

abbrev dropped : Queue → Bytes → Queue
dropped q raw = record q {
  blk = stored q.blk q.low none;
  bytes = sub64 q.bytes (length raw);
  low = add64 q.low 1;
}

release_one-there :
    (q : Queue) (raw : Bytes) → q.blk q.low ≡ some raw → release_one q ≡ dropped q raw
unfolding release_one
release_one-there q raw e =
    ap
      (λ (o : Option Bytes). elim o [
        | none ↦ record q { low = add64 q.low 1 }
        | some r ↦ dropped q r
      ])
      e

pub release_loop-zero : (up_to : ℕ) (q : Queue) → release_loop 0 up_to q ≡ q
unfolding release_loop
release_loop-zero up_to q = refl

module _ (fuel up_to : ℕ) (q : Queue) where
  abbrev next_round : Bool → Queue
  next_round b = elim b [ true ↦ release_loop fuel up_to (release_one q) | false ↦ q ]

  pub release_loop-more :
      leb (add64 q.low keep_behind) up_to ≡ true
      → release_loop (suc fuel) up_to q ≡ release_loop fuel up_to (release_one q)
  unfolding release_loop
  release_loop-more e = ap next_round e

  pub release_loop-done :
      leb (add64 q.low keep_behind) up_to ≡ false → release_loop (suc fuel) up_to q ≡ q
  unfolding release_loop
  release_loop-done e = ap next_round e

module _ (from : ℕ) (anchor : Bytes) (chain : List RawBlock) where
  -- A height between the lowest and the head is there.
  pub held_inside :
      (q : Queue) (n : ℕ)
      → Holds from anchor chain q
      → q.low ≤ n
      → n ≤ q.head
      → (b : RawBlock) × (get_elem? chain (n - from) ≡ some b) × (q.blk n ≡ some b.raw)
  held_inside q n h lo hi =
      let (b, e) = get_elem?-inside chain (n - from) (omega (arith, h.top, h.floor)) in
      (b, e, h.map n ∙ ground (arith, e))

  pub held_outside :
      (q : Queue) (n : ℕ) → Holds from anchor chain q → (n < q.low) ⊎ (q.head < n) → q.blk n ≡ none
  held_outside q n h o =
      h.map n ∙ ground (arith, o, h.top, h.floor, get_elem?-past chain (n - from))

  release_one-Holds :
      (q : Queue)
      → Holds from anchor chain q
      → q.low + keep_behind ≤ q.consumed
      → Holds from anchor chain (release_one q)
        × ((release_one q).low ≡ q.low + 1)
        × ((release_one q).consumed ≡ q.consumed)
  release_one-Holds q h behind =
      let (b, e, f) = held_inside q q.low h (omega arith) (omega (arith, h.eaten)) in
      let small = h.small in
      let wide = All-get_elem? RawFits chain (q.low - from) h.fit e in
      let step = ap raw_size (drop-step chain (q.low - from) e) in
      let low' : add64 q.low 1 ≡ q.low + 1 = omega (arith, h.eaten) in
      let same : add64 q.low 1 - from ≡ suc (q.low - from) = omega (arith, low', h.floor) in
      rw (release_one-there q b.raw f) (
        record {
          linked = h.linked;
          top = h.top;
          tip = h.tip;
          map = λ n.
              ap (λ (v : Option Bytes). if n == q.low then none else v) (h.map n)
              ∙ ground (arith, low');
          size = omega (arith, h.size, step, wide, ap (λ (k : ℕ). raw_size (drop k chain)) same);
          floor = omega (arith, h.floor, low');
          eaten = h.eaten;
          kept = inr (omega (arith, low'));
          start = h.start;
          small = h.small;
          fit = h.fit;
        },
        low',
        refl,
      )

  release_loop-Holds :
      (fuel up_to : ℕ) (q : Queue)
      → Holds from anchor chain q
      → q.consumed ≡ up_to
      → up_to < fuel + q.low + keep_behind
      → Holds from anchor chain (release_loop fuel up_to q)
        × ((release_loop fuel up_to q).consumed ≡ up_to)
        × (up_to < (release_loop fuel up_to q).low + keep_behind)
  release_loop-Holds zero up_to q h e f = (rw (release_loop-zero up_to q) (h, e, omega arith))
  release_loop-Holds (suc fuel) up_to q h e f =
      elim (Bool-cases (leb (add64 q.low keep_behind) up_to)) [
        | inr done ↦
            rw (release_loop-done fuel up_to q done)
              (h, e, ground (arith, h.small, h.eaten, h.floor, h.kept))
        | inl more ↦
            let behind : q.low + keep_behind ≤ q.consumed =
              ground (arith, h.small, h.eaten, h.kept) in
            let (h', low', eaten') = release_one-Holds q h behind in
            rw (release_loop-more fuel up_to q more)
              (release_loop-Holds fuel up_to (release_one q) h' (eaten' ∙ e) (omega (arith, low')))
      ]

  pub release-Holds :
      (q : Queue) (n : ℕ)
      → Holds from anchor chain q
      → q.consumed ≡ n
      → Holds from anchor chain (release q n)
        × ((release q n).consumed ≡ n)
        × (n < (release q n).low + keep_behind)
  unfolding release
  release-Holds q n h e = elim (Bool-cases (ltb n keep_behind)) [
    | inl few ↦ rw few (h, e, ground (arith, h.floor))
    | inr many ↦ rw many (release_loop-Holds (suc n) n q h e (omega arith))
  ]

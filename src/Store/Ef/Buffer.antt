-- ===== src/Store/Ef/Buffer.antt =====
-- The buffer of the writer: the header, the bits behind it, and zeros up to a whole byte.
use avalanche_s3_archival_no.Prelude.{
  ℕ, zero, suc, ◌+◌, ◌-◌, ◌*◌, ◌/◌, ◌%◌, ◌≤◌, ◌<◌, ◌≡◌, refl, sym, ap, ◌∙◌, arith,
}
use avalanche_s3_archival_no.Prelude.{
  Bool, true, false, List, [], ◌∷◌, ◌++◌, append_assoc, length, length-append, length-replicate,
  replicate,
}
use avalanche_s3_archival_no.Prelude.Bytes.{Bytes}
use avalanche_s3_archival_no.Store.Ef.{or_at, grow}
use avalanche_s3_archival_no.Store.Ef.Bits.{
  to_bits, set_true, length-to_bits, to_bits-append, to_bits-zeros, to_bits-or_at, set_true-right,
  set_true-zeros, replicate-append,
}

-- A buffer that holds the header and some bits, and zeros up to the end of the last byte.
pub record HasBits (hdr : Bytes) (bs : List Bool) (buf : Bytes) : Type 0 where
  pub body : Bytes
  pub spare : ℕ
  pub is : buf ≡ hdr ++ body
  pub holds : to_bits body ≡ bs ++ replicate spare false
  pub short : spare < 8

or_at-append :
    (hdr body : Bytes) (n k j : ℕ)
    → n ≡ length hdr + k
    → or_at (hdr ++ body) n j ≡ hdr ++ or_at body k j
unfolding or_at
or_at-append [] body n k j e = ap (λ (m : ℕ). or_at body m j) (omega arith)
or_at-append (h ∷ hdr) body zero k j e = absurd (omega arith)
or_at-append (h ∷ hdr) body (suc n) k j e =
    ap (λ (l : Bytes). h ∷ l) (or_at-append hdr body n k j (omega arith))

pub whole_bytes :
    (hdr : Bytes) (bs : List Bool) (buf : Bytes) (h : HasBits hdr bs buf)
    → length bs + h.spare ≡ length h.body * 8
whole_bytes hdr bs buf h = omega (
  arith,
  length-to_bits h.body,
  ap (λ (l : List Bool). length l) h.holds,
  length-append bs (replicate h.spare false),
  length-replicate {A = Bool} h.spare false,
)

module _ (hdr : Bytes) (bs : List Bool) (buf : Bytes) (i : ℕ) (h : HasBits hdr bs buf)
    (le : length bs ≤ i) where
  abbrev grown : Bytes
  grown = grow (length hdr + i / 8 + 1) buf

  abbrev added : ℕ
  added = length hdr + i / 8 + 1 - length buf

  abbrev body1 : Bytes
  body1 = h.body ++ replicate added 0

  abbrev room : ℕ
  room = h.spare + added * 8

  grown-is : grown ≡ hdr ++ body1
  grown-is =
      ap (λ (l : Bytes). l ++ replicate added 0) h.is ∙ append_assoc hdr h.body (replicate added 0)

  body1-bits : to_bits body1 ≡ bs ++ replicate room false
  body1-bits =
      to_bits-append h.body (replicate added 0)
      ∙ ap (λ (l : List Bool). to_bits h.body ++ l) (to_bits-zeros added)
      ∙ ap (λ (l : List Bool). l ++ replicate (added * 8) false) h.holds
      ∙ append_assoc bs (replicate h.spare false) (replicate (added * 8) false)
      ∙ ap (λ (l : List Bool). bs ++ l) (replicate-append h.spare (added * 8))

  room-fits : (i - length bs < room) × (room - (i - length bs) - 1 < 8)
  room-fits =
      let size = ap (λ (l : Bytes). length l) h.is in
      let sum = length-append hdr h.body in
      let bytes = whole_bytes hdr bs buf h in
      let short = h.short in (omega (arith, size, sum, bytes), omega (arith, size, sum, bytes))

  -- A one at a position that is not written yet, with zeros up to it.
  pub one-HasBits :
      HasBits hdr
        (bs ++ (replicate (i - length bs) false ++ (true ∷ [])))
        (or_at grown (length hdr + i / 8) (i % 8))
  one-HasBits = record {
    body = or_at body1 (i / 8) (i % 8);
    spare = room - (i - length bs) - 1;
    is =
        ap (λ (l : Bytes). or_at l (length hdr + i / 8) (i % 8)) grown-is
        ∙ or_at-append hdr body1 (length hdr + i / 8) (i / 8) (i % 8) refl;
    holds =
        let gap = replicate (i - length bs) false in
        let tail = replicate (room - (i - length bs) - 1) false in
        let at : i / 8 * 8 + i % 8 ≡ i = omega arith in
        to_bits-or_at body1 (i / 8) (i % 8) (omega arith)
        ∙ ap (λ (k : ℕ). set_true k (to_bits body1)) at
        ∙ ap (set_true i) body1-bits
        ∙ set_true-right bs (replicate room false) i (i - length bs) (omega arith)
        ∙ ap (λ (l : List Bool). bs ++ l) (set_true-zeros (i - length bs) room room-fits.0)
        ∙ ap (λ (l : List Bool). bs ++ l) (sym (append_assoc gap (true ∷ []) tail))
        ∙ sym (append_assoc bs (gap ++ (true ∷ [])) tail);
    short = room-fits.1;
  }

  -- A zero at the next position.
  pub zero-HasBits : i ≡ length bs → HasBits hdr (bs ++ (false ∷ [])) grown
  zero-HasBits e =
      let more : suc (room - 1) ≡ room = omega (arith, room-fits) in
      record {
        body = body1;
        spare = room - 1;
        is = grown-is;
        holds =
            body1-bits
            ∙ ap (λ (n : ℕ). bs ++ replicate n false) (sym more)
            ∙ sym (append_assoc bs (false ∷ []) (replicate (room - 1) false));
        short = omega (arith, room-fits);
      }

-- ===== src/Store/Footer/RoundTrip.antt =====
-- A footer read back, and refused at another storage version.
use avalanche_s3_archival_no.Prelude.{
  ℕ, zero, suc, ◌-◌, ◌*◌, ◌^◌, ◌==◌, ◌<◌, ◌≡◌, refl, ap, ◌∙◌, arith, if◌then◌else◌,
}
use avalanche_s3_archival_no.Prelude.{
  Bool, true, not, List, [], ◌∷◌, ◌++◌, append_assoc, none, some, length, length-append, take, drop,
  All, get_elem?,
}
use avalanche_s3_archival_no.Prelude.Bytes.{
  Bytes, beq, beq_iff, be, be_value, be_value-be, length-be, take-append,
}
use avalanche_s3_archival_no.Store.Ef.Bits.{drop-past}
use avalanche_s3_archival_no.Store.Footer.{
  run_magic, footer_size, Footer, numbers, be64s, encode_footer, number_at, extent_at,
  decode_footer_version,
}

-- A footer as Go has it: ten uint64s, a name of 32 bytes, a uint32 version.
pub record IsFooter (f : Footer) : Type 0 where
  pub number_fits : All (λ (n : ℕ). n < 2 ^ 64) (numbers f)
  pub prev_size : length f.prev ≡ 32
  pub version_fits : f.version < 2 ^ 32

length-be64s : (ns : List ℕ) → length (be64s ns) ≡ length ns * 8
length-be64s [] = refl
length-be64s (n ∷ ns) =
    omega (arith, length-append (be 8 n) (be64s ns), length-be 8 n, length-be64s ns)

number_at-be64s :
    (ns : List ℕ) (i n : ℕ) (rest : Bytes)
    → All (λ (m : ℕ). m < 2 ^ 64) ns
    → get_elem? ns i ≡ some n
    → number_at i (be64s ns ++ rest) ≡ n
number_at-be64s [] i n rest a e = absurd (cc)
number_at-be64s (m ∷ ns) zero n rest (h, a) e =
    let same : m ≡ n = cc in
    ap (λ (b : Bytes). be_value 0 (take 8 b)) (append_assoc (be 8 m) (be64s ns) rest)
    ∙ ap (be_value 0) (take-append (be 8 m) (be64s ns ++ rest) 8 (length-be 8 m))
    ∙ be_value-be 8 m (omega arith) h
    ∙ same
number_at-be64s (m ∷ ns) (suc i) n rest (h, a) e =
    ap (λ (b : Bytes). be_value 0 (take 8 (drop (suc i * 8) b)))
      (append_assoc (be 8 m) (be64s ns) rest)
    ∙ ap (λ (b : Bytes). be_value 0 (take 8 b))
        (drop-past (be 8 m) (be64s ns ++ rest) (suc i * 8) (i * 8) (omega (arith, length-be 8 m)))
    ∙ number_at-be64s ns i n rest a e

module _ (f : Footer) (h : IsFooter f) where
  abbrev tail : Bytes
  tail = f.prev ++ (be 4 f.version ++ run_magic)

  abbrev b : Bytes
  b = be64s (numbers f) ++ tail

  head_size : length (be64s (numbers f)) ≡ 80
  head_size = length-be64s (numbers f)

  whole_size : length b ≡ footer_size
  whole_size = omega (
    arith,
    head_size,
    length-append (be64s (numbers f)) tail,
    length-append f.prev (be 4 f.version ++ run_magic),
    length-append (be 4 f.version) run_magic,
    length-be 4 f.version,
    h.prev_size,
  )

  at_prev : drop 80 b ≡ tail
  at_prev = drop-past (be64s (numbers f)) tail 80 0 (omega (arith, head_size))

  at_version : drop 112 b ≡ be 4 f.version ++ run_magic
  at_version =
      drop-past (be64s (numbers f)) tail 112 32 (omega (arith, head_size))
      ∙ drop-past f.prev (be 4 f.version ++ run_magic) 32 0 (omega (arith, h.prev_size))

  at_magic : drop (length b - length run_magic) b ≡ run_magic
  at_magic =
      ap (λ (n : ℕ). drop (n - length run_magic) b) whole_size
      ∙ drop-past (be64s (numbers f)) tail 116 36 (omega (arith, head_size))
      ∙ drop-past f.prev (be 4 f.version ++ run_magic) 36 4 (omega (arith, h.prev_size))
      ∙ drop-past (be 4 f.version) run_magic 4 0 (omega (arith, length-be 4 f.version))

  abbrev read_back : Footer
  read_back = record {
    chain_at = extent_at 0 b;
    state_at = extent_at 2 b;
    lookup_at = extent_at 4 b;
    from_tx = number_at 6 b;
    to_tx = number_at 7 b;
    from_height = number_at 8 b;
    to_height = number_at 9 b;
    prev = take 32 (drop 80 b);
    version = be_value 0 (take 4 (drop 112 b));
  }

  version_back : be_value 0 (take 4 (drop 112 b)) ≡ f.version
  version_back =
      ap (λ (c : Bytes). be_value 0 (take 4 c)) at_version
      ∙ ap (be_value 0) (take-append (be 4 f.version) run_magic 4 (length-be 4 f.version))
      ∙ be_value-be 4 f.version (omega (arith, h.version_fits)) (omega (arith, h.version_fits))

  prev_back : take 32 (drop 80 b) ≡ f.prev
  prev_back = ap (take 32) at_prev ∙ take-append f.prev (be 4 f.version ++ run_magic) 32 h.prev_size

  number_back : (i n : ℕ) → get_elem? (numbers f) i ≡ some n → number_at i b ≡ n
  number_back i n e = number_at-be64s (numbers f) i n tail h.number_fits e

  extents_back :
      (extent_at 0 b ≡ f.chain_at) × (extent_at 2 b ≡ f.state_at) × (extent_at 4 b ≡ f.lookup_at)
  extents_back =
      let n0 = number_back 0 f.chain_at.off refl in
      let n1 = number_back 1 f.chain_at.len refl in
      let n2 = number_back 2 f.state_at.off refl in
      let n3 = number_back 3 f.state_at.len refl in
      let n4 = number_back 4 f.lookup_at.off refl in
      let n5 = number_back 5 f.lookup_at.len refl in (cc, cc, cc)

  footer_back : read_back ≡ f
  footer_back =
      let (c, s, l) = extents_back in
      let n6 = number_back 6 f.from_tx refl in
      let n7 = number_back 7 f.to_tx refl in
      let n8 = number_back 8 f.from_height refl in
      let n9 = number_back 9 f.to_height refl in let p = prev_back in let v = version_back in cc

  -- A run's footer is read back field by field at its own storage version, and refused at any
  -- other; for uint64 numbers, a name of 32 bytes and a uint32 version.
  pub decode_footer_version-encode_footer :
      (version : ℕ)
      → decode_footer_version (encode_footer f) version
        ≡ (if f.version == version then some f else none)
  unfolding decode_footer_version encode_footer
  decode_footer_version-encode_footer version =
      let size : (length b == footer_size) ≡ true = ground (arith, whole_size) in
      let magic = (beq_iff (drop (length b - length run_magic) b) run_magic).1 at_magic in
      ap
        (λ (t : Bool).
          if not t
          then none
          else if not (beq (drop (length b - length run_magic) b) run_magic)
          then none
          else if not (read_back.version == version)
          then none
          else some read_back)
        size
      ∙ ap
          (λ (t : Bool).
            if not t
            then none
            else if not (read_back.version == version)
            then none
            else some read_back)
          magic
      ∙ ap (λ (g : Footer). if not (g.version == version) then none else some g) footer_back
      ∙ ground arith

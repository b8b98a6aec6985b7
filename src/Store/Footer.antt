-- ===== src/Store/Footer.antt =====
-- The footer of a run (store/run.go): fixed-width numbers, the name of the run before, the storage
-- version and a magic string.
pub mod RoundTrip
use avalanche_s3_archival_no.Prelude.{
  ℕ, zero, suc, ◌+◌, ◌-◌, ◌*◌, ◌/◌, ◌%◌, ◌^◌, ◌==◌, ◌≤◌, ◌<◌, ◌≡◌, refl, sym, ap, ◌∙◌, arith,
  if◌then◌else◌,
}
use avalanche_s3_archival_no.Prelude.{
  Bool, true, false, not, List, [], ◌∷◌, ◌++◌, append-nil, append_assoc, Option, none, some, length,
  length-append, take, drop, All,
}
use avalanche_s3_archival_no.Prelude.Bytes.{
  Bytes, beq, beq_iff, be, be_value, be_value-be, length-be, take-append, drop-append,
}

abbrev pub run_magic : Bytes
run_magic = b'E' ∷ b'P' ∷ b'O' ∷ b'C' ∷ b'H' ∷ b'R' ∷ b'U' ∷ b'N' ∷ []

abbrev pub footer_size : ℕ
footer_size = 3 * 16 + 4 * 8 + 32 + 4 + length run_magic

-- Where a section lies.
pub record Extent : Type 0 where
  pub off : ℕ
  pub len : ℕ

pub record Footer : Type 0 where
  pub chain_at : Extent
  pub state_at : Extent
  pub lookup_at : Extent
  pub from_tx : ℕ
  pub to_tx : ℕ
  pub from_height : ℕ
  pub to_height : ℕ
  pub prev : Bytes
  pub version : ℕ

-- The uint64s in the order in which they are written.
abbrev pub numbers : Footer → List ℕ
numbers f =
    f.chain_at.off ∷ f.chain_at.len ∷ f.state_at.off ∷ f.state_at.len ∷ f.lookup_at.off
    ∷ f.lookup_at.len ∷ f.from_tx ∷ f.to_tx ∷ f.from_height ∷ f.to_height ∷ []

abbrev pub be64s : List ℕ → Bytes
be64s [] = []
be64s (n ∷ ns) = be 8 n ++ be64s ns

unfoldable pub encode_footer : Footer → Bytes
encode_footer f = be64s (numbers f) ++ (f.prev ++ (be 4 f.version ++ run_magic))

-- The uint64 at a place, behind as many that were read.
abbrev pub number_at : ℕ → Bytes → ℕ
number_at i p = be_value 0 (take 8 (drop (i * 8) p))

abbrev pub extent_at : ℕ → Bytes → Extent
extent_at i p = record { off = number_at i p; len = number_at (i + 1) p }

unfoldable pub decode_footer_version : Bytes → ℕ → Option Footer
unfolding beq be_value
decode_footer_version b version =
    if not (length b == footer_size)
    then none
    else if not (beq (drop (length b - length run_magic) b) run_magic)
    then none
    else let f : Footer = record {
      chain_at = extent_at 0 b;
      state_at = extent_at 2 b;
      lookup_at = extent_at 4 b;
      from_tx = number_at 6 b;
      to_tx = number_at 7 b;
      from_height = number_at 8 b;
      to_height = number_at 9 b;
      prev = take 32 (drop 80 b);
      version = be_value 0 (take 4 (drop 112 b));
    } in
      if not (f.version == version) then none else some f

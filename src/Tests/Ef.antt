-- ===== src/Tests/Ef.antt =====
-- Posting chunks on small lists, and chunks that `Encode` does not write.
use avalanche_s3_archival_no.Prelude.{
  ◌≡◌, refl, arith, List, [], ◌∷◌, ℕ, some, replicate, ◌++◌, inr,
}
use avalanche_s3_archival_no.Prelude.Bytes.{Bytes}
use avalanche_s3_archival_no.Store.Ef.{encode_ef, decoded, corrupt, panicked, decode_ef}
use avalanche_s3_archival_no.Store.Ef.RoundTrip.{decode_ef-encode_ef}

-- ef_test.go's kind of list: repeated and far entries, each with a role byte.
abbrev nums : List ℕ
nums = 70 ∷ 70 ∷ 75 ∷ 200 ∷ 1000 ∷ []

abbrev roles : Bytes
roles = 1 ∷ 2 ∷ 3 ∷ 0 ∷ 3 ∷ []

encode_ef_example :
    encode_ef 64 nums roles 2 ≡ 5 ∷ 8 ∷ 2 ∷ 143 ∷ 6 ∷ 6 ∷ 11 ∷ 136 ∷ 168 ∷ 57 ∷ 3 ∷ []
unfolding encode_ef
encode_ef_example = refl

decode_ef-encode_ef_example : decode_ef 64 (encode_ef 64 nums roles 2) ≡ decoded nums (some roles)
decode_ef-encode_ef_example =
    decode_ef-encode_ef 64 nums 2
      (omega arith, (omega arith, (omega arith, (omega arith, (omega arith, tt)))))
      (omega arith, (omega arith, (omega arith, (omega arith, (omega arith, tt))))) roles
      (omega arith) (omega arith)
      (inr (
        omega arith,
        refl,
        (omega arith, (omega arith, (omega arith, (omega arith, (omega arith, tt))))),
      ))

-- A chunk that ends inside the lower vector.
decode_short : decode_ef 64 (5 ∷ 8 ∷ 2 ∷ 143 ∷ 6 ∷ 6 ∷ []) ≡ corrupt
unfolding decode_ef
decode_short = refl

-- A chunk of more entries than a chunk can have.
decode_long : decode_ef 64 (129 ∷ 32 ∷ 0 ∷ 0 ∷ []) ≡ corrupt
unfolding decode_ef
decode_long = refl

-- A count of 2 ^ 63: `int` of it is negative, so it passes the test against MaxEntries, and
-- `make` panics. So does a first low width of 2 ^ 63, in the shift.
decode_negative_count : decode_ef 64 (replicate 9 128 ++ (1 ∷ 0 ∷ 0 ∷ [])) ≡ panicked
unfolding decode_ef
decode_negative_count = refl

decode_negative_width : decode_ef 64 (1 ∷ (replicate 9 128 ++ (1 ∷ 0 ∷ 1 ∷ []))) ≡ panicked
unfolding decode_ef
decode_negative_width = refl

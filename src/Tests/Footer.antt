-- ===== src/Tests/Footer.antt =====
-- A footer of one run at its version and at another.
use avalanche_s3_archival_no.Prelude.{◌≡◌, refl, arith, none, some, replicate, ◌==◌, if◌then◌else◌}
use avalanche_s3_archival_no.Store.Footer.{Footer, encode_footer, decode_footer_version}
use avalanche_s3_archival_no.Store.Footer.RoundTrip.{IsFooter, decode_footer_version-encode_footer}

abbrev a_footer : Footer
a_footer = record {
  chain_at = record { off = 0; len = 4096 };
  state_at = record { off = 4096; len = 300 };
  lookup_at = record { off = 4396; len = 77 };
  from_tx = 100;
  to_tx = 250;
  from_height = 7;
  to_height = 12;
  prev = replicate 32 5;
  version = 4;
}

a_footer-IsFooter : IsFooter a_footer
a_footer-IsFooter = record {
  number_fits = (
    omega arith,
    (
      omega arith,
      (
        omega arith,
        (
          omega arith,
          (
            omega arith,
            (omega arith, (omega arith, (omega arith, (omega arith, (omega arith, tt))))),
          ),
        ),
      ),
    ),
  );
  prev_size = refl;
  version_fits = omega arith;
}

decode_footer_version-encode_footer_example :
    decode_footer_version (encode_footer a_footer) 4
    ≡ (if a_footer.version == 4 then some a_footer else none)
decode_footer_version-encode_footer_example =
    decode_footer_version-encode_footer a_footer a_footer-IsFooter 4

-- The footer of an older version is refused.
decode_old : decode_footer_version (encode_footer a_footer) 3 ≡ none
decode_old = decode_footer_version-encode_footer a_footer a_footer-IsFooter 3

-- ===== src/Quote/Tdx/Examples.antt =====
-- A TDX quote, written and read back, and the same TD in another report.
use cathedral_compute.Base.{
  ℕ, ◌<◌, ◌≡◌, refl, [], ◌∷◌, All, arith, replicate, ok, leb, if◌then◌else◌,
}
use cathedral_compute.Base.Text.{codes, Bytes}
use cathedral_compute.Base.Slices.{HaveLengths, slice, find, join_split, b64decode}
use cathedral_compute.Quote.Tdx.{
  ParsedTdxQuote, parse_tdx_quote, extract_first_pem_certificate, measurement, measurement_material,
}
use cathedral_compute.Quote.Tdx.Roundtrip.{
  IsQuote, print_quote, parse-print_quote, body_chunks, body_lengths,
}
use cathedral_compute.Quote.Tdx.Identity.{SameIdentity, measurement-SameIdentity}

abbrev certificates : Bytes
certificates = codes "-----BEGIN CERTIFICATE-----\nQUJD\n-----END CERTIFICATE-----\n"

abbrev quote : ParsedTdxQuote
quote = record {
  header = record {
    version = 4;
    attestation_key_type = 2;
    tee_type = 129;
    qe_svn = 1;
    pce_svn = 13;
    qe_vendor_id = replicate 16 9;
    user_data = replicate 20 0;
  };
  body = record {
    tee_tcb_svn = replicate 16 3;
    mr_seam = replicate 48 4;
    mr_signer_seam = replicate 48 0;
    seam_attributes = replicate 8 0;
    td_attributes = replicate 8 0;
    xfam = replicate 8 7;
    mr_td = replicate 48 11;
    mr_config_id = replicate 48 0;
    mr_owner = replicate 48 0;
    mr_owner_config = replicate 48 0;
    rtmr0 = replicate 48 21;
    rtmr1 = replicate 48 22;
    rtmr2 = replicate 48 23;
    rtmr3 = replicate 48 24;
    report_data = replicate 64 200;
  };
  attestation_key = replicate 64 5;
  certification_data_type = 6;
  certification_data = certificates;
  pck_leaf_cert_der = codes "ABC";
}

leaf : extract_first_pem_certificate certificates ≡ ok (codes "ABC")
unfolding extract_first_pem_certificate find slice join_split b64decode
leaf = refl

body_sized : HaveLengths (body_chunks quote.body) body_lengths
body_sized = (
  refl,
  (
    refl,
    (
      refl,
      (
        refl,
        (refl, (refl, (refl, (refl, (refl, (refl, (refl, (refl, (refl, (refl, (refl, tt))))))))))),
      ),
    ),
  ),
)

quote-IsQuote : IsQuote (replicate 64 1) quote
quote-IsQuote = record {
  header_ok = record {
    is_version_4 = refl;
    key_type_fits = omega arith;
    is_tdx = refl;
    qe_fits = omega arith;
    pce_fits = omega arith;
    vendor_size = refl;
    user_size = refl;
  };
  body_ok = body_sized;
  signature_size = refl;
  key_size = refl;
  key_not_zero = refl;
  is_pck_chain = refl;
  certificate_fits = omega arith;
  leaf_found = leaf;
}

parse-print_quote_example :
    parse_tdx_quote (print_quote (replicate 64 1) quote (0 ∷ 0 ∷ [])) ≡ ok quote
parse-print_quote_example = parse-print_quote (replicate 64 1) quote (0 ∷ 0 ∷ []) quote-IsQuote

-- A stand-in for the digest, which ends on bytes.
abbrev as_byte : ℕ → ℕ
as_byte b = if leb b 255 then b else 0

abbrev as_bytes : Bytes → Bytes
as_bytes [] = []
as_bytes (b ∷ bs) = as_byte b ∷ as_bytes bs

as_bytes-IsByte : (m : Bytes) → All (λ b. b < 256) (as_bytes m)
as_bytes-IsByte [] = tt
as_bytes-IsByte (b ∷ bs) = (ground arith, as_bytes-IsByte bs)

-- The same TD in another report.
abbrev later_quote : ParsedTdxQuote
later_quote = record quote { body = record quote.body { report_data = replicate 64 201 } }

later_sized : HaveLengths (body_chunks later_quote.body) body_lengths
later_sized = (
  refl,
  (
    refl,
    (
      refl,
      (
        refl,
        (refl, (refl, (refl, (refl, (refl, (refl, (refl, (refl, (refl, (refl, (refl, tt))))))))))),
      ),
    ),
  ),
)

same_material : measurement_material quote.body ≡ measurement_material later_quote.body
unfolding measurement_material
same_material = refl

same_measurement : measurement as_bytes quote ≡ measurement as_bytes later_quote
unfolding measurement measurement_material
same_measurement = refl

measurement-SameIdentity_example : SameIdentity quote.body later_quote.body
measurement-SameIdentity_example =
    measurement-SameIdentity as_bytes as_bytes-IsByte quote later_quote body_sized later_sized
      (λ e. same_material) same_measurement

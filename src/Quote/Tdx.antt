-- ===== src/Quote/Tdx.antt =====
-- cathedral/verify/tdx_quote.py: the parser of Intel TDX quotes, version 4, and the identities that
-- are derived from a parsed quote. SHA-256 is a parameter.
pub mod Roundtrip
pub mod Identity
mod Examples
use cathedral_compute.Base.{
  ℕ, ◌+◌, ◌%◌, Bool, not, List, [], ◌∷◌, ◌++◌, Option, none, some, any, length, ltb, nat_beq,
  Result, ok, err, ◌>>=◌, ◌>>◌, raise_if,
}
use cathedral_compute.Base.Text.{codes, hex, from_bytes_big, from_bytes_little, Bytes}
use cathedral_compute.Base.Slices.{slice, concat, find, join_split, b64decode}

abbrev quote_header_size : ℕ
quote_header_size = 48

abbrev td_report_body_size : ℕ
td_report_body_size = 584

abbrev quote_signature_data_len_offset : ℕ
quote_signature_data_len_offset = quote_header_size + td_report_body_size

abbrev quote_signature_data_offset : ℕ
quote_signature_data_offset = quote_signature_data_len_offset + 4

abbrev quote_signature_size : ℕ
quote_signature_size = 64

abbrev quote_attestation_key_size : ℕ
quote_attestation_key_size = 64

abbrev quote_certification_header_size : ℕ
quote_certification_header_size = 6

-- The ways in which `TdxQuoteParseError` is raised, and `struct.error`.
pub data TdxQuoteParseError : Type 0 where
  too_short unsupported_version unsupported_tee_type signature_data_too_short : TdxQuoteParseError
  truncated attestation_key_empty unsupported_certification_type : TdxQuoteParseError
  certification_truncated trailing_bytes body_size no_certificate : TdxQuoteParseError
  unterminated_certificate bad_base64 empty_certificate struct_error : TdxQuoteParseError

pub record TdxQuoteHeader : Type 0 where
  pub version : ℕ
  pub attestation_key_type : ℕ
  pub tee_type : ℕ
  pub qe_svn : ℕ
  pub pce_svn : ℕ
  pub qe_vendor_id : Bytes
  pub user_data : Bytes

pub record TdxReportBody : Type 0 where
  pub tee_tcb_svn : Bytes
  pub mr_seam : Bytes
  pub mr_signer_seam : Bytes
  pub seam_attributes : Bytes
  pub td_attributes : Bytes
  pub xfam : Bytes
  pub mr_td : Bytes
  pub mr_config_id : Bytes
  pub mr_owner : Bytes
  pub mr_owner_config : Bytes
  pub rtmr0 : Bytes
  pub rtmr1 : Bytes
  pub rtmr2 : Bytes
  pub rtmr3 : Bytes
  pub report_data : Bytes

pub record ParsedTdxQuote : Type 0 where
  pub header : TdxQuoteHeader
  pub body : TdxReportBody
  pub attestation_key : Bytes
  pub certification_data_type : ℕ
  pub certification_data : Bytes
  pub pck_leaf_cert_der : Bytes

-- `struct.unpack("<HHIHH", data[:12])` and the rest of the header.
unfoldable pub parse_header : Bytes → Result TdxQuoteParseError TdxQuoteHeader
parse_header raw = do
  raise_if (not (nat_beq (length (slice 0 12 raw)) 12)) struct_error
  ok (record {
    version = from_bytes_little (slice 0 2 raw);
    attestation_key_type = from_bytes_little (slice 2 4 raw);
    tee_type = from_bytes_little (slice 4 8 raw);
    qe_svn = from_bytes_little (slice 8 10 raw);
    pce_svn = from_bytes_little (slice 10 12 raw);
    qe_vendor_id = slice 12 28 raw;
    user_data = slice 28 48 raw;
  })

unfoldable pub parse_body : Bytes → Result TdxQuoteParseError TdxReportBody
parse_body raw = do
  raise_if (not (nat_beq (length raw) td_report_body_size)) body_size
  ok (record {
    tee_tcb_svn = slice 0 16 raw;
    mr_seam = slice 16 64 raw;
    mr_signer_seam = slice 64 112 raw;
    seam_attributes = slice 112 120 raw;
    td_attributes = slice 120 128 raw;
    xfam = slice 128 136 raw;
    mr_td = slice 136 184 raw;
    mr_config_id = slice 184 232 raw;
    mr_owner = slice 232 280 raw;
    mr_owner_config = slice 280 328 raw;
    rtmr0 = slice 328 376 raw;
    rtmr1 = slice 376 424 raw;
    rtmr2 = slice 424 472 raw;
    rtmr3 = slice 472 520 raw;
    report_data = slice 520 584 raw;
  })

or_raise : {A : Type 0} → Option A → TdxQuoteParseError → Result TdxQuoteParseError A
or_raise none e = err e
or_raise (some a) e = ok a

abbrev begin_marker : Bytes
begin_marker = codes "-----BEGIN CERTIFICATE-----"

abbrev end_marker : Bytes
end_marker = codes "-----END CERTIFICATE-----"

unfoldable pub extract_first_pem_certificate : Bytes → Result TdxQuoteParseError Bytes
unfolding or_raise
extract_first_pem_certificate raw = do
  start ← or_raise (find begin_marker 0 raw) no_certificate
  let body_start = start + length begin_marker
  stop ← or_raise (find end_marker body_start raw) unterminated_certificate
  cert_der ← or_raise (b64decode (join_split (slice body_start stop raw))) bad_base64
  raise_if (nat_beq (length cert_der) 0) empty_certificate
  ok cert_der

-- The signature data: the key, and the certification data that ends it.
unfoldable pub parse_signature_data :
    TdxQuoteHeader → TdxReportBody → Bytes → Result TdxQuoteParseError ParsedTdxQuote
parse_signature_data header body signature_data = do
  let attestation_key = slice 64 128 signature_data
  raise_if (not (any (λ b. not (nat_beq b 0)) attestation_key)) attestation_key_empty
  let cert_type = from_bytes_little (slice 128 130 signature_data)
  raise_if (not (nat_beq cert_type 6)) unsupported_certification_type
  let cert_size = from_bytes_little (slice 130 134 signature_data)
  let cert_data_end = 134 + cert_size
  raise_if (ltb (length signature_data) cert_data_end) certification_truncated
  raise_if (not (nat_beq cert_data_end (length signature_data))) trailing_bytes
  let cert_data = slice 134 cert_data_end signature_data
  pck_leaf_cert_der ← extract_first_pem_certificate cert_data
  ok (record {
    header = header;
    body = body;
    attestation_key = attestation_key;
    certification_data_type = cert_type;
    certification_data = cert_data;
    pck_leaf_cert_der = pck_leaf_cert_der;
  })

unfoldable pub parse_tdx_quote : Bytes → Result TdxQuoteParseError ParsedTdxQuote
parse_tdx_quote raw = do
  raise_if
      (ltb (length raw)
        (quote_signature_data_offset + quote_signature_size + quote_attestation_key_size))
      too_short
  header ← parse_header (slice 0 quote_header_size raw)
  raise_if (not (nat_beq header.version 4)) unsupported_version
  raise_if (not (nat_beq header.tee_type 129)) unsupported_tee_type
  body ← parse_body (slice quote_header_size quote_signature_data_len_offset raw)
  let signature_data_len =
      from_bytes_little (slice quote_signature_data_len_offset quote_signature_data_offset raw)
  raise_if
      (ltb signature_data_len
        (quote_signature_size + quote_attestation_key_size + quote_certification_header_size))
      signature_data_too_short
  let signature_data_end = quote_signature_data_offset + signature_data_len
  raise_if (ltb (length raw) signature_data_end) truncated
  parse_signature_data header body (slice quote_signature_data_offset signature_data_end raw)

abbrev measurement_domain : Bytes
measurement_domain = codes "cathedral-tdx-measurement-v1" ++ 0 ∷ []

-- The bytes that `ParsedTdxQuote.measurement` hashes.
unfoldable pub measurement_material : TdxReportBody → Bytes
measurement_material b = concat (
    measurement_domain ∷ b.td_attributes ∷ b.xfam ∷ b.mr_td ∷ b.mr_config_id ∷ b.mr_owner
    ∷ b.mr_owner_config ∷ b.rtmr0 ∷ b.rtmr1 ∷ b.rtmr2 ∷ b.rtmr3 ∷ [])

unfoldable pub measurement : (Bytes → Bytes) → ParsedTdxQuote → Bytes
measurement sha256 q = codes "tdx-measurement-sha256:" ++ hex (sha256 (measurement_material q.body))

unfoldable pub tcb : ParsedTdxQuote → ℕ
tcb q = from_bytes_big 0 q.body.tee_tcb_svn

-- `int.from_bytes(td_attributes, "little") & 1`
unfoldable pub debug_enabled : ParsedTdxQuote → Bool
debug_enabled q = nat_beq (from_bytes_little q.body.td_attributes % 2) 1

unfoldable pub attestation_key_id : (Bytes → Bytes) → ParsedTdxQuote → Bytes
attestation_key_id sha256 q = codes "tdx-ak-sha256:" ++ hex (sha256 q.attestation_key)

unfoldable pub platform_id : (Bytes → Bytes) → ParsedTdxQuote → Bytes
platform_id sha256 q = codes "tdx-pck-cert-sha256:" ++ hex (sha256 q.pck_leaf_cert_der)

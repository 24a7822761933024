-- ===== src/Quote/Tdx/Roundtrip.antt =====
-- Quotes written field after field, the layout of cathedral/verify/tdx_quote.py, are read back.
use cathedral_compute.Base.{
  ℕ, ◌+◌, ◌^◌, ◌<◌, ◌≡◌, refl, sym, true, false, ltb, List, [], ◌∷◌, any, length, length-take,
  nat_beq, not, arith, ok,
}
use cathedral_compute.Base.Text.{from_bytes_little, Bytes}
use cathedral_compute.Base.Slices.{
  slice, concat, HaveLengths, slice-concat, length-concat, to_bytes_little, length-to_bytes_little,
  from_bytes_little-to_bytes_little,
}
use cathedral_compute.Quote.Tdx.{
  TdxQuoteHeader, TdxReportBody, ParsedTdxQuote, parse_header, parse_body, parse_signature_data,
  parse_tdx_quote, extract_first_pem_certificate,
}

abbrev pub header_chunks : TdxQuoteHeader → List Bytes
header_chunks h =
    to_bytes_little 2 h.version
    ∷ to_bytes_little 2 h.attestation_key_type
    ∷ to_bytes_little 4 h.tee_type
    ∷ to_bytes_little 2 h.qe_svn
    ∷ to_bytes_little 2 h.pce_svn
    ∷ h.qe_vendor_id
    ∷ h.user_data
    ∷ []

abbrev pub body_chunks : TdxReportBody → List Bytes
body_chunks b =
    b.tee_tcb_svn ∷ b.mr_seam ∷ b.mr_signer_seam ∷ b.seam_attributes ∷ b.td_attributes ∷ b.xfam
    ∷ b.mr_td ∷ b.mr_config_id ∷ b.mr_owner ∷ b.mr_owner_config ∷ b.rtmr0 ∷ b.rtmr1 ∷ b.rtmr2
    ∷ b.rtmr3 ∷ b.report_data ∷ []

abbrev pub body_lengths : List ℕ
body_lengths = 16 ∷ 48 ∷ 48 ∷ 8 ∷ 8 ∷ 8 ∷ 48 ∷ 48 ∷ 48 ∷ 48 ∷ 48 ∷ 48 ∷ 48 ∷ 48 ∷ 64 ∷ []

pub parse_body-concat :
    (b : TdxReportBody)
    → HaveLengths (body_chunks b) body_lengths
    → parse_body (concat (body_chunks b)) ≡ ok b
unfolding parse_body
parse_body-concat b h =
    let raw = concat (body_chunks b) in
    let at = λ (i : ℕ). slice-concat i (body_chunks b) body_lengths h in
    let all_read : length raw ≡ 584 = length-concat (body_chunks b) body_lengths h in
    rw
      (
        all_read,
        at 0,
        at 1,
        at 2,
        at 3,
        at 4,
        at 5,
        at 6,
        at 7,
        at 8,
        at 9,
        at 10,
        at 11,
        at 12,
        at 13,
        at 14,
      )
      refl

-- The fields have the sizes of the format, and the numbers fit theirs.
pub record IsHeader (h : TdxQuoteHeader) : Type 0 where
  pub is_version_4 : h.version ≡ 4
  pub key_type_fits : h.attestation_key_type < 256 ^ 2
  pub is_tdx : h.tee_type ≡ 129
  pub qe_fits : h.qe_svn < 256 ^ 2
  pub pce_fits : h.pce_svn < 256 ^ 2
  pub vendor_size : length h.qe_vendor_id ≡ 16
  pub user_size : length h.user_data ≡ 20

abbrev pub signature_chunks : Bytes → ParsedTdxQuote → List Bytes
signature_chunks signature q =
    signature
    ∷ q.attestation_key
    ∷ to_bytes_little 2 q.certification_data_type
    ∷ to_bytes_little 4 (length q.certification_data)
    ∷ q.certification_data
    ∷ []

abbrev pub signature_data_of : Bytes → ParsedTdxQuote → Bytes
signature_data_of signature q = concat (signature_chunks signature q)

pub record IsQuote (signature : Bytes) (q : ParsedTdxQuote) : Type 0 where
  pub header_ok : IsHeader q.header
  pub body_ok : HaveLengths (body_chunks q.body) body_lengths
  pub signature_size : length signature ≡ 64
  pub key_size : length q.attestation_key ≡ 64
  pub key_not_zero : any (λ b. not (nat_beq b 0)) q.attestation_key ≡ true
  pub is_pck_chain : q.certification_data_type ≡ 6
  pub certificate_fits : 134 + length q.certification_data < 256 ^ 4
  pub leaf_found : extract_first_pem_certificate q.certification_data ≡ ok q.pck_leaf_cert_der

-- The bytes of a quote, with any signature, and with what may follow the signature data.
abbrev pub print_quote : Bytes → ParsedTdxQuote → Bytes → Bytes
print_quote signature q trailing = concat (
    concat (header_chunks q.header)
    ∷ concat (body_chunks q.body)
    ∷ to_bytes_little 4 (length (signature_data_of signature q))
    ∷ signature_data_of signature q
    ∷ trailing
    ∷ [])

header_lengths :
    (h : TdxQuoteHeader)
    → IsHeader h
    → HaveLengths (header_chunks h) (2 ∷ 2 ∷ 4 ∷ 2 ∷ 2 ∷ 16 ∷ 20 ∷ [])
header_lengths h p = (
  length-to_bytes_little 2 h.version,
  (
    length-to_bytes_little 2 h.attestation_key_type,
    (
      length-to_bytes_little 4 h.tee_type,
      (
        length-to_bytes_little 2 h.qe_svn,
        (length-to_bytes_little 2 h.pce_svn, (p.vendor_size, (p.user_size, tt))),
      ),
    ),
  ),
)

length-slice : (raw : Bytes) → length raw ≡ 48 → length (slice 0 12 raw) ≡ 12
unfolding slice
length-slice raw e = omega (arith, length-take 12 raw)

parse_header-concat :
    (h : TdxQuoteHeader) → IsHeader h → parse_header (concat (header_chunks h)) ≡ ok h
unfolding parse_header
parse_header-concat h p =
    let raw = concat (header_chunks h) in
    let ws = 2 ∷ 2 ∷ 4 ∷ 2 ∷ 2 ∷ 16 ∷ 20 ∷ [] in
    let sized = header_lengths h p in
    let at = λ (i : ℕ). slice-concat i (header_chunks h) ws sized in
    let enough = length-slice raw (length-concat (header_chunks h) ws sized) in
    let v = p.is_version_4 in
    let t = p.is_tdx in
    rw
      (
        enough,
        at 0,
        at 1,
        at 2,
        at 3,
        at 4,
        at 5,
        at 6,
        from_bytes_little-to_bytes_little 2 h.version (omega arith),
        from_bytes_little-to_bytes_little 2 h.attestation_key_type p.key_type_fits,
        from_bytes_little-to_bytes_little 4 h.tee_type (omega arith),
        from_bytes_little-to_bytes_little 2 h.qe_svn p.qe_fits,
        from_bytes_little-to_bytes_little 2 h.pce_svn p.pce_fits,
      )
      refl

signature_lengths :
    (signature : Bytes) (q : ParsedTdxQuote)
    → IsQuote signature q
    → HaveLengths
        (signature_chunks signature q)
        (64 ∷ 64 ∷ 2 ∷ 4 ∷ length q.certification_data ∷ [])
signature_lengths signature q p = (
  p.signature_size,
  (
    p.key_size,
    (
      length-to_bytes_little 2 q.certification_data_type,
      (length-to_bytes_little 4 (length q.certification_data), (refl, tt)),
    ),
  ),
)

length-signature_data_of :
    (signature : Bytes) (q : ParsedTdxQuote)
    → IsQuote signature q
    → length (signature_data_of signature q) ≡ 134 + length q.certification_data
length-signature_data_of signature q p =
    let total =
      length-concat (signature_chunks signature q)
        (64 ∷ 64 ∷ 2 ∷ 4 ∷ length q.certification_data ∷ []) (signature_lengths signature q p) in
    omega arith

parse_signature_data-concat :
    (signature : Bytes) (q : ParsedTdxQuote)
    → IsQuote signature q
    → parse_signature_data q.header q.body (signature_data_of signature q) ≡ ok q
unfolding parse_signature_data
parse_signature_data-concat signature q p =
    let raw = signature_data_of signature q in
    let n = length q.certification_data in
    let ws = 64 ∷ 64 ∷ 2 ∷ 4 ∷ n ∷ [] in
    let at = λ (i : ℕ).
      slice-concat i (signature_chunks signature q) ws (signature_lengths signature q p) in
    let total = length-signature_data_of signature q p in
    let end : 64 + (64 + (2 + (4 + (n + 0)))) ≡ 134 + n = omega arith in
    let certificate : slice 134 (134 + n) raw ≡ q.certification_data = rw (sym end) (at 4) in
    let key = p.key_not_zero in
    let chain = p.is_pck_chain in
    let leaf = p.leaf_found in
    let fits = p.certificate_fits in
    let size : from_bytes_little (to_bytes_little 4 n) ≡ n =
      from_bytes_little-to_bytes_little 4 n (omega arith) in
    let type_read = from_bytes_little-to_bytes_little 2 q.certification_data_type (omega arith) in
    let is_six : nat_beq q.certification_data_type 6 ≡ true = ground arith in
    let not_over : ltb (134 + n) (134 + n) ≡ false = ground arith in
    let exact : nat_beq (134 + n) (134 + n) ≡ true = ground arith in
    rw (at 1, at 2, at 3, key, type_read, is_six, size, certificate, total, not_over, exact, leaf)
      refl

-- A quote with the version, TEE type and field sizes of the format, an attestation key that is not
-- zero, and certification data of the PCK chain type from which the parser extracts the leaf,
-- printed in the order of the format with any signature of 64 bytes and any bytes after the
-- signature data, parses, to itself.
pub parse-print_quote :
    (signature : Bytes) (q : ParsedTdxQuote) (trailing : Bytes)
    → IsQuote signature q
    → parse_tdx_quote (print_quote signature q trailing) ≡ ok q
unfolding parse_tdx_quote
parse-print_quote signature q trailing p =
    let signed = signature_data_of signature q in
    let n = length signed in
    let t = length trailing in
    let chunks =
      concat (header_chunks q.header)
      ∷ concat (body_chunks q.body)
      ∷ to_bytes_little 4 n
      ∷ signed
      ∷ trailing
      ∷ [] in
    let ws = 48 ∷ 584 ∷ 4 ∷ n ∷ t ∷ [] in
    let hs =
      length-concat (header_chunks q.header) (2 ∷ 2 ∷ 4 ∷ 2 ∷ 2 ∷ 16 ∷ 20 ∷ [])
        (header_lengths q.header p.header_ok) in
    let bs = length-concat (body_chunks q.body) body_lengths p.body_ok in
    let sized : HaveLengths chunks ws =
      (hs, (bs, (length-to_bytes_little 4 n, (refl, (refl, tt))))) in
    let raw = print_quote signature q trailing in
    let at = λ (i : ℕ). slice-concat i chunks ws sized in
    let end : 48 + (584 + (4 + (n + 0))) ≡ 636 + n = omega arith in
    let signed_at : slice 636 (636 + n) raw ≡ signed = rw (sym end) (at 3) in
    let total : length raw ≡ 48 + (584 + (4 + (n + (t + 0)))) = length-concat chunks ws sized in
    let fits = p.certificate_fits in
    let size = length-signature_data_of signature q p in
    let read = from_bytes_little-to_bytes_little 4 n (omega arith) in
    let not_short : ltb (length raw) 764 ≡ false = ground arith in
    let version_ok : nat_beq q.header.version 4 ≡ true =
      let v = p.header_ok.is_version_4 in ground arith in
    let tee_ok : nat_beq q.header.tee_type 129 ≡ true =
      let v = p.header_ok.is_tdx in ground arith in
    let long_enough : ltb n 134 ≡ false = ground arith in
    let not_cut : ltb (length raw) (636 + n) ≡ false = ground arith in
    rw
      (
        not_short,
        at 0,
        parse_header-concat q.header p.header_ok,
        version_ok,
        tee_ok,
        at 1,
        parse_body-concat q.body p.body_ok,
        at 2,
        read,
        long_enough,
        not_cut,
        signed_at,
      )
      (parse_signature_data-concat signature q p)

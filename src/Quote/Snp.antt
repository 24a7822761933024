-- ===== src/Quote/Snp.antt =====
-- cathedral/verify/snp.py: the parser of AMD SEV-SNP reports and the verdict on a report. What
-- `_resolve_snpguest` finds, and what each run of `_verify_chain_with_snpguest` does, are
-- parameters: `none` for a run that raises, else the value that it returns.
pub mod Layout
pub mod Verdict
pub mod Replay
mod Examples
use cathedral_compute.Base.{
  ℕ, Bool, true, false, not, ◌&&◌, List, Option, none, some, any, length, nat_beq, member, text_eq,
  ◌==◌, Result, err, ok, ◌>>=◌, ◌>>◌, raise_if, if◌then◌else◌,
}
use cathedral_compute.Base.Int.{pos, ltb_ℤ}
use cathedral_compute.Base.Text.{codes, hex, from_bytes_little, Bytes}
use cathedral_compute.Base.Slices.{slice}
use cathedral_compute.Binding.{BindingError, Evidence, evidence_report_data}
use cathedral_compute.Assurance.{
  AssuranceError, AssuranceClaims, Stdlib, Policy, passed, failed, not_evaluated, evidence_invalid,
}
use cathedral_compute.Assurance.Policies.{Outcome, attestation_claims}

pub data SnpError : Type 0 where
  wrong_report_size signature_empty wrong_expected_size : SnpError
  bad_claims : AssuranceError → SnpError
  bad_binding : BindingError → SnpError

pub record SnpTcb : Type 0 where
  pub current : ℕ
  pub reported : ℕ
  pub committed : ℕ
  pub launch : ℕ

-- `measurement` and `chip_id` are hexadecimal text.
pub record SnpReport : Type 0 where
  pub version : ℕ
  pub guest_svn : ℕ
  pub guest_policy : ℕ
  pub vmpl : ℕ
  pub signature_algo : ℕ
  pub platform_info : ℕ
  pub signer_info : ℕ
  pub report_data : Bytes
  pub measurement : List ℕ
  pub chip_id : List ℕ
  pub tcb : SnpTcb
  pub signature : Bytes

abbrev snp_report_size : ℕ
snp_report_size = 1184

abbrev report_data_size : ℕ
report_data_size = 64

unfoldable pub parse_snp_report : Bytes → Result SnpError SnpReport
parse_snp_report report = do
  raise_if (not (nat_beq (length report) snp_report_size)) wrong_report_size
  let u = λ (a b : ℕ). from_bytes_little (slice a b report)
  let signature = slice 672 1184 report
  raise_if (not (any (λ b. not (nat_beq b 0)) signature)) signature_empty
  ok (record {
    version = u 0 4;
    guest_svn = u 4 8;
    guest_policy = u 8 16;
    vmpl = u 48 52;
    signature_algo = u 52 56;
    platform_info = u 64 72;
    signer_info = u 72 76;
    report_data = slice 80 144 report;
    measurement = hex (slice 144 192 report);
    chip_id = hex (slice 416 480 report);
    tcb = record {
      current = u 56 64;
      reported = u 384 392;
      committed = u 480 488;
      launch = u 496 504;
    };
    signature = signature;
  })

-- The fields of `Attested` of cathedral/common.py that the verdict sets; the tier is the
-- confidential CPU of SNP.
pub record Attested : Type 0 where
  pub chip_id : List ℕ
  pub measurement : List ℕ
  pub tcb : ℕ
  pub verification_status : List ℕ
  pub chain_verified : Bool
  pub assurance : AssuranceClaims

-- The loop of three attempts: `none` where it returns `None`.
unfoldable pub chain_attempts : (ℕ → Option Bool) → Option Bool
chain_attempts run = elim (run 0) [
  | some verified ↦ some verified
  | none ↦ elim (run 1) [ some verified ↦ some verified | none ↦ run 2 ]
]

-- Whether the chain is verified; without the tool it is not.
unfoldable pub chain_verdict : Option (ℕ → Option Bool) → Option Bool
unfolding chain_attempts
chain_verdict none = some false
chain_verdict (some run) = chain_attempts run

unfoldable pub lift_claims : Result AssuranceError AssuranceClaims → Result SnpError AssuranceClaims
lift_claims (err e) = err (bad_claims e)
lift_claims (ok cs) = ok cs

-- The verdict on a report that matched the policy.
unfoldable pub attest :
    Stdlib → Bytes → Policy → SnpReport → Bool → Result SnpError (Option Attested)
unfolding lift_claims
attest std report policy parsed chain_verified = do
  cs ← lift_claims (
      attestation_claims std report policy none
        (record {
          status = if chain_verified then passed else failed;
          reason = if chain_verified then none else some evidence_invalid;
        })
        (record { status = if chain_verified then passed else not_evaluated; reason = none }))
  ok (
      some (record {
        chip_id = parsed.chip_id;
        measurement = parsed.measurement;
        tcb = parsed.tcb.reported;
        verification_status =
            codes (if chain_verified then "VERIFIED" else "STRUCTURE_OK_CHAIN_UNVERIFIED");
        chain_verified = chain_verified;
        assurance = cs;
      }))

unfoldable pub verdict_of_chain :
    Stdlib → Bytes → Policy → SnpReport → Bool → Option Bool → Result SnpError (Option Attested)
verdict_of_chain std report policy parsed require_chain none = ok none
verdict_of_chain std report policy parsed require_chain (some chain_verified) =
    let attested = attest std report policy parsed chain_verified in
    if require_chain && not chain_verified then ok none else attested

unfoldable pub verify_snp_report_data :
    Stdlib
    → Option (ℕ → Option Bool)
    → Bytes
    → Bytes
    → Policy
    → Bool
    → Result SnpError (Option Attested)
unfolding verdict_of_chain chain_verdict
verify_snp_report_data std snpguest report expected_report_data policy require_chain = do
  raise_if (not (nat_beq (length expected_report_data) report_data_size)) wrong_expected_size
  parsed ← parse_snp_report report
  let attested = verdict_of_chain std report policy parsed require_chain (chain_verdict snpguest)
  if not (parsed.report_data == expected_report_data)
      then ok none
      else if not (member parsed.measurement policy.allowed_measurements)
      then ok none
      else if ltb_ℤ (pos parsed.tcb.reported) policy.min_tcb
      then ok none
      else attested

unfoldable pub lift_binding : Result BindingError Bytes → Result SnpError Bytes
lift_binding (err e) = err (bad_binding e)
lift_binding (ok expected) = ok expected

-- `verify_snp(evidence, nonce, policy)`, which requires the chain.
unfoldable pub verify_snp :
    (Bytes → Bytes)
    → Stdlib
    → Option (ℕ → Option Bool)
    → Evidence
    → Bytes
    → Policy
    → Result SnpError (Option Attested)
unfolding lift_binding
verify_snp sha512 std snpguest evidence nonce policy = do
  expected ← lift_binding (evidence_report_data sha512 evidence nonce)
  verify_snp_report_data std snpguest evidence.quote expected policy true

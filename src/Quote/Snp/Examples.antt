-- ===== src/Quote/Snp/Examples.antt =====
-- An SNP report, written, read back and attested.
use cathedral_compute.Base.{
  ℕ, zero, suc, ◌≡◌, refl, true, false, Bool, List, [], ◌∷◌, Option, none, some, arith, replicate,
  ok, ◌++◌, sym, ap, ◌∙◌,
}
use cathedral_compute.Base.Text.{codes, utf8, utf8_codes, hex, Bytes, is_digest_text, strip_prefix}
use cathedral_compute.Base.Json.{text}
use cathedral_compute.Base.Slices.{HaveLengths, concat, slice, to_bytes_little}
use cathedral_compute.Base.Int.{pos}
use cathedral_compute.Assurance.{
  Stdlib, AssuranceClaim, passed, Policy, policy_digest, sha256_digest, check_claim,
  valid_utc_timestamp, empty_assurance_claims,
}
use cathedral_compute.Assurance.Policies.{attestation_claims}
use cathedral_compute.Binding.{
  Evidence, ChannelBinding, tls_spki_sha256, data_of_binding, evidence_report_data, report_data_v2,
  report_field,
}
use cathedral_compute.Binding.Report.{payload}
use cathedral_compute.Quote.Snp.Replay.{verify_snp_replay}
use cathedral_compute.Quote.Snp.{
  verify_snp, lift_binding, SnpReport, Attested, parse_snp_report, verify_snp_report_data,
  chain_verdict, chain_attempts, lift_claims, attest, verdict_of_chain,
}
use cathedral_compute.Quote.Snp.Layout.{
  Rest, IsReport, report_chunks, report_lengths, parse_snp_report-concat,
}
use cathedral_compute.Quote.Snp.Verdict.{IsAttested, verify_snp_report_data-IsAttested}

abbrev binding : ChannelBinding
binding = record { binding_type = tls_spki_sha256; digest = replicate 32 7 }

abbrev nonce : Bytes
nonce = replicate 32 1

-- A stand-in for SHA-512 that keeps what follows the domain.
abbrev stand_in : Bytes → Bytes
stand_in bytes = slice 22 86 bytes

abbrev bound_data : Bytes
bound_data =
    (0 ∷ 2 ∷ 1 ∷ 0 ∷ 32 ∷ nonce)
    ++ (2 ∷ 0 ∷ 7 ∷ codes "miner-a")
    ++ (3 ∷ 0 ∷ 15 ∷ codes "tls_spki_sha25")

some-injective : (b d : ChannelBinding) → some b ≡ some d → b ≡ d
some-injective b d e = cc

abbrev report : SnpReport
report = record {
  version = 2;
  guest_svn = 1;
  guest_policy = 0x30000;
  vmpl = 0;
  signature_algo = 1;
  platform_info = 3;
  signer_info = 0;
  report_data = bound_data;
  measurement = hex (replicate 48 17);
  chip_id = hex (replicate 64 18);
  tcb = record { current = 9; reported = 8; committed = 7; launch = 6 };
  signature = 1 ∷ replicate 511 0;
}

abbrev rest : Rest
rest = record {
  after_policy = replicate 32 0;
  after_signer = replicate 4 0;
  measurement_bytes = replicate 48 17;
  after_measurement = replicate 192 0;
  after_reported = replicate 24 0;
  chip_bytes = replicate 64 18;
  after_committed = replicate 8 0;
  after_launch = replicate 168 0;
}

report_sized : HaveLengths (report_chunks report rest) report_lengths
unfolding to_bytes_little
report_sized = (
  refl,
  (
    refl,
    (
      refl,
      (
        refl,
        (
          refl,
          (
            refl,
            (
              refl,
              (
                refl,
                (
                  refl,
                  (
                    refl,
                    (
                      refl,
                      (
                        refl,
                        (refl, (refl, (refl, (refl, (refl, (refl, (refl, (refl, (refl, tt))))))))),
                      ),
                    ),
                  ),
                ),
              ),
            ),
          ),
        ),
      ),
    ),
  ),
)

report-IsReport : IsReport report rest
report-IsReport = record {
  sizes = report_sized;
  version_fits = omega arith;
  guest_svn_fits = omega arith;
  guest_policy_fits = omega arith;
  vmpl_fits = omega arith;
  algo_fits = omega arith;
  platform_fits = omega arith;
  signer_fits = omega arith;
  current_fits = omega arith;
  reported_fits = omega arith;
  committed_fits = omega arith;
  launch_fits = omega arith;
  measured = refl;
  chip = refl;
  signed = refl;
}

parse_snp_report-concat_example : parse_snp_report (concat (report_chunks report rest)) ≡ ok report
parse_snp_report-concat_example = parse_snp_report-concat report rest report-IsReport

abbrev std : Stdlib
std = record {
  sha256 = λ bytes. replicate 32 0x5a;
  fromisoformat = λ time. some (some (pos 0));
  now = codes "2026-01-01T00:00:00Z";
}

abbrev policy : Policy
policy = record {
  allowed_measurements = report.measurement ∷ [];
  min_tcb = pos 8;
  allowed_firmware = [];
  tdx_strict = false;
  tdx_allowed_tcb_statuses = [];
  tdx_allowed_advisories = [];
  registry_release = none;
  registry_digest = none;
  registry_profile_ids = [];
}

-- The first run of the tool raises, the second one verifies the chain.
abbrev second_run : ℕ → Option Bool
second_run zero = none
second_run (suc n) = some true

abbrev digest : List ℕ
digest = codes "sha256:5a5a5a5a5a5a5a5a5a5a5a5a5a5a5a5a5a5a5a5a5a5a5a5a5a5a5a5a5a5a5a5a"

abbrev claimed : AssuranceClaim
claimed = record {
  status = passed;
  evidence_digest = text digest;
  policy_digest = text digest;
  verified_at = text (codes "2026-01-01T00:00:00Z");
  reason = none;
}

abbrev attested : Attested
attested = record {
  chip_id = report.chip_id;
  measurement = report.measurement;
  tcb = 8;
  verification_status = codes "VERIFIED";
  chain_verified = true;
  assurance = record empty_assurance_claims { hardware_claim = claimed; software_claim = claimed };
}

attests :
    verify_snp_report_data std
      (some second_run)
      (concat (report_chunks report rest))
      bound_data
      policy
      true
    ≡ ok (some attested)
unfolding verify_snp_report_data verdict_of_chain chain_verdict chain_attempts attest lift_claims
    attestation_claims policy_digest sha256_digest check_claim valid_utc_timestamp is_digest_text
    strip_prefix hex empty_assurance_claims
attests = rw parse_snp_report-concat_example refl

verify_snp_report_data-IsAttested_example :
    IsAttested
      (some second_run)
      (concat (report_chunks report rest))
      bound_data
      policy
      true
      attested
verify_snp_report_data-IsAttested_example =
    verify_snp_report_data-IsAttested std (some second_run) (concat (report_chunks report rest))
      bound_data policy true attested attests

-- Evidence of version 2.
abbrev evidence : Evidence
evidence = record {
  quote = concat (report_chunks report rest);
  miner_hotkey = "miner-a";
  ssh_host_key = none;
  report_data_version = 2;
  channel_binding = some binding;
}

hashed : report_data_v2 stand_in nonce "miner-a" binding ≡ ok bound_data
unfolding report_data_v2 report_field utf8_codes slice
hashed = refl

verifies : verify_snp stand_in std (some second_run) evidence nonce policy ≡ ok (some attested)
unfolding verify_snp lift_binding evidence_report_data data_of_binding
verifies = rw hashed attests

verify_snp_replay_example :
    (nonce ≡ nonce)
    × (utf8 "miner-a" ≡ utf8 "miner-a")
    × (evidence.channel_binding ≡ evidence.channel_binding)
verify_snp_replay_example =
    verify_snp_replay stand_in std (some second_run) evidence evidence nonce nonce policy policy
      attested attested
      (λ b d one two e. ap (λ x. payload nonce "miner-a" x) (some-injective b d (sym one ∙ two)))
      refl refl refl verifies verifies

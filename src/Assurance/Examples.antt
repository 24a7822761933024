-- ===== src/Assurance/Examples.antt =====
-- Claims of a verified quote, and a worker without claims.
use cathedral_compute.Base.{ℕ, ◌≡◌, ◌↔◌, refl, true, List, [], ◌∷◌, none, some, All, ok, replicate}
use cathedral_compute.Base.Int.{pos}
use cathedral_compute.Base.Text.{codes, hex, is_digest_text, strip_prefix}
use cathedral_compute.Base.Json.{text, object, Fields}
use cathedral_compute.Assurance.{
  AssuranceDimension, hardware, software, channel, work, passed, Stdlib, Policy, AssuranceClaim,
  AssuranceClaims, check_claim, claim, empty_assurance_claims, evaluated_claim, policy_digest,
  sha256_digest, valid_utc_timestamp,
}
use cathedral_compute.Assurance.Policies.{
  Outcome, allows, attestation_claims, with_verified_channel, key_release_policy,
}
use cathedral_compute.Assurance.Gates.{Gates, HasPassed, allows_iff, attestation_claims-Gates}
use cathedral_compute.Assurance.Documents.{
  to_dict, assurance_from_dict, assurance_from_dict-to_dict,
}

-- Stand-ins for the digest and the clock.
abbrev std : Stdlib
std = record {
  sha256 = λ bytes. replicate 32 0x5a;
  fromisoformat = λ time. some (some (pos 0));
  now = codes "2026-01-01T00:00:00.000000Z";
}

allows_iff_example :
    (allows key_release_policy none ≡ true)
    ↔ All (HasPassed none) key_release_policy.required_passed
allows_iff_example = allows_iff key_release_policy none

abbrev policy : Policy
policy = record {
  allowed_measurements = codes "m" ∷ [];
  min_tcb = pos 3;
  allowed_firmware = [];
  tdx_strict = true;
  tdx_allowed_tcb_statuses = codes "UpToDate" ∷ [];
  tdx_allowed_advisories = [];
  registry_release = none;
  registry_digest = none;
  registry_profile_ids = [];
}

abbrev good : Outcome
good = record { status = passed; reason = none }

abbrev digest : List ℕ
digest = codes "sha256:5a5a5a5a5a5a5a5a5a5a5a5a5a5a5a5a5a5a5a5a5a5a5a5a5a5a5a5a5a5a5a5a"

abbrev passed_claim : AssuranceClaim
passed_claim = record {
  status = passed;
  evidence_digest = text digest;
  policy_digest = text digest;
  verified_at = text (codes "2026-01-01T00:00:00.000000Z");
  reason = none;
}

abbrev attested : AssuranceClaims
attested = record empty_assurance_claims {
  hardware_claim = passed_claim;
  software_claim = passed_claim;
}

abbrev with_channel : AssuranceClaims
with_channel = record attested { channel_claim = passed_claim }

attests : attestation_claims std (1 ∷ 2 ∷ []) policy none good good ≡ ok attested
unfolding attestation_claims policy_digest sha256_digest check_claim valid_utc_timestamp
    is_digest_text strip_prefix hex empty_assurance_claims
attests = refl

binds : with_verified_channel std attested (7 ∷ []) none ≡ ok with_channel
unfolding with_verified_channel evaluated_claim sha256_digest check_claim valid_utc_timestamp
    is_digest_text strip_prefix hex empty_assurance_claims
binds = refl

attestation_claims-Gates_example : Gates attested with_channel true true
attestation_claims-Gates_example =
    attestation_claims-Gates std (1 ∷ 2 ∷ []) policy none good good (7 ∷ []) none attested
      with_channel attests binds

claims_checked :
    (d : AssuranceDimension) → check_claim std (claim with_channel d) ≡ ok (claim with_channel d)
unfolding claim check_claim valid_utc_timestamp is_digest_text strip_prefix empty_assurance_claims
claims_checked hardware = refl
claims_checked software = refl
claims_checked channel = refl
claims_checked work = refl

assurance_from_dict-to_dict_example :
    (fields : Fields) × (to_dict true with_channel ≡ object fields)
    × (assurance_from_dict std fields ≡ ok with_channel)
assurance_from_dict-to_dict_example = assurance_from_dict-to_dict std with_channel claims_checked

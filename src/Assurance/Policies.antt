-- ===== src/Assurance/Policies.antt =====
-- Eligibility policies, and the claims that a verdict on a quote carries, of cathedral/assurance.py.
use cathedral_compute.Base.{
  ℕ, Bool, true, false, ◌||◌, String, List, [], ◌∷◌, Option, none, some, ltb, length, nat_beq, Eq,
  member, string_eq, ◌==◌, ◌≡◌, ◌↔◌, arith, if◌then◌else◌, Result, ok, ◌>>=◌, ◌>>◌, raise_if,
}
use cathedral_compute.Base.Text.{codes, Bytes}
use cathedral_compute.Base.Json.{text}
use cathedral_compute.Assurance.{
  AssuranceDimension, hardware, software, channel, work, ClaimStatus, passed, ReasonCategory,
  AssuranceError, policy_name_unbounded, repeated_dimension, Stdlib, Policy, policy_digest,
  sha256_digest, is_passed, is_not_evaluated, AssuranceClaim, AssuranceClaims, check_claim, claim,
  with_claim, not_evaluated_claim, evaluated_claim, time_or_now,
}

abbrev rank : AssuranceDimension → ℕ
rank hardware = 0
rank software = 1
rank channel = 2
rank work = 3

abbrev pub dimension_beq : AssuranceDimension → AssuranceDimension → Bool
dimension_beq d e = nat_beq (rank d) (rank e)

pub dimension_beq_iff : (d e : AssuranceDimension) → (dimension_beq d e ≡ true) ↔ (d ≡ e)
dimension_beq_iff d e = ground arith

instance abbrev pub dimension_eq : Eq AssuranceDimension
dimension_eq = record { same = dimension_beq; same_iff = dimension_beq_iff }

pub record EligibilityDecision : Type 0 where
  pub eligible : Bool
  pub required : List AssuranceDimension
  pub unsatisfied : List AssuranceDimension

pub record EligibilityPolicy : Type 0 where
  pub name : String
  pub required_passed : List AssuranceDimension

has_repeats : List AssuranceDimension → Bool
has_repeats [] = false
has_repeats (d ∷ ds) = member d ds || has_repeats ds

-- `EligibilityPolicy.__post_init__`
unfoldable pub check_policy : EligibilityPolicy → Result AssuranceError EligibilityPolicy
unfolding has_repeats
check_policy p = do
  raise_if (p.name == "" || ltb 128 (length (codes p.name))) policy_name_unbounded
  raise_if (has_repeats p.required_passed) repeated_dimension
  ok p

abbrev pub is_satisfied : Option AssuranceClaims → AssuranceDimension → Bool
unfolding claim
is_satisfied none d = false
is_satisfied (some cs) d = is_passed (claim cs d).status

unfoldable pub unsatisfied_of :
    Option AssuranceClaims → List AssuranceDimension → List AssuranceDimension
unsatisfied_of claims [] = []
unsatisfied_of claims (d ∷ ds) =
    let rest = unsatisfied_of claims ds in if is_satisfied claims d then rest else d ∷ rest

-- `EligibilityPolicy.evaluate`
unfoldable pub evaluate : EligibilityPolicy → Option AssuranceClaims → EligibilityDecision
unfolding unsatisfied_of
evaluate p claims =
    let missing = unsatisfied_of claims p.required_passed in
    record {
      eligible = nat_beq (length missing) 0;
      required = p.required_passed;
      unsatisfied = missing;
    }

-- `EligibilityPolicy.allows`
unfoldable pub allows : EligibilityPolicy → Option AssuranceClaims → Bool
unfolding evaluate
allows p claims = (evaluate p claims).eligible

abbrev pub attestation_admission_policy : EligibilityPolicy
attestation_admission_policy = record {
  name = "attestation_admission_v1";
  required_passed = hardware ∷ software ∷ [];
}

abbrev pub key_release_policy : EligibilityPolicy
key_release_policy = record {
  name = "key_release_v1";
  required_passed = hardware ∷ software ∷ channel ∷ [];
}

abbrev pub work_dispatch_policy : EligibilityPolicy
work_dispatch_policy = record {
  name = "work_dispatch_v1";
  required_passed = hardware ∷ software ∷ channel ∷ [];
}

abbrev pub score_eligibility_policy : EligibilityPolicy
score_eligibility_policy = record {
  name = "score_eligibility_v1";
  required_passed = hardware ∷ software ∷ work ∷ [];
}

abbrev pub receipt_issuance_policy : EligibilityPolicy
receipt_issuance_policy = record { name = "receipt_issuance_v1"; required_passed = [] }

-- The outcome of a check of hardware or software.
pub record Outcome : Type 0 where
  pub status : ClaimStatus
  pub reason : Option ReasonCategory

unfoldable pub software_claim_of :
    Stdlib → Bytes → List ℕ → List ℕ → Outcome → Result AssuranceError AssuranceClaim
software_claim_of std evidence policy_id when outcome =
    if is_not_evaluated outcome.status
    then ok not_evaluated_claim
    else check_claim std (record {
      status = outcome.status;
      evidence_digest = text (sha256_digest std evidence);
      policy_digest = text policy_id;
      verified_at = text when;
      reason = outcome.reason;
    })

-- `attestation_claims(evidence, policy, verified_at=..., hardware_status=..., ...)`
unfoldable pub attestation_claims :
    Stdlib
    → Bytes
    → Policy
    → Option (List ℕ)
    → Outcome
    → Outcome
    → Result AssuranceError AssuranceClaims
unfolding software_claim_of
attestation_claims std evidence policy verified_at hardware_outcome software_outcome = do
  let when = time_or_now std verified_at
  let evidence_id = sha256_digest std evidence
  let policy_id = policy_digest std policy
  hw ← check_claim std (record {
    status = hardware_outcome.status;
    evidence_digest = text evidence_id;
    policy_digest = text policy_id;
    verified_at = text when;
    reason = hardware_outcome.reason;
  })
  sw ← software_claim_of std evidence policy_id when software_outcome
  ok (record {
    hardware_claim = hw;
    software_claim = sw;
    channel_claim = not_evaluated_claim;
    work_claim = not_evaluated_claim;
  })

abbrev channel_binding_policy_digest : Stdlib → List ℕ
channel_binding_policy_digest std = sha256_digest std (codes "cathedral-channel-binding-policy-v2")

unfoldable pub with_verified_channel :
    Stdlib → AssuranceClaims → Bytes → Option (List ℕ) → Result AssuranceError AssuranceClaims
unfolding with_claim
with_verified_channel std claims binding_material verified_at = do
  channel_claim ←
      evaluated_claim std passed binding_material (channel_binding_policy_digest std) verified_at
        none
  ok (with_claim claims channel channel_claim)

-- ===== src/Assurance/Gates.antt =====
-- What a decision of an eligibility policy says, and which gates the claims of a quote open.
use cathedral_compute.Base.{
  ℕ, Bool, true, false, ◌&&◌, List, [], ◌∷◌, Option, some, All, length, nat_beq, ◌≡◌, ◌↔◌, sym, ap,
  ◌∙◌, refl, arith, Result, ok, >>=-eq-ok, Bool-cases, inl, inr,
}
use cathedral_compute.Base.Text.{Bytes}
use cathedral_compute.Assurance.{
  AssuranceDimension, ClaimStatus, passed, not_evaluated, AssuranceError, Stdlib, Policy, is_passed,
  is_not_evaluated, not_evaluated_claim, AssuranceClaim, AssuranceClaims, check_claim, claim,
  with_claim, evaluated_claim,
}
use cathedral_compute.Assurance.Policies.{
  Outcome, software_claim_of, is_satisfied, unsatisfied_of, allows, evaluate, EligibilityPolicy,
  attestation_admission_policy, key_release_policy, work_dispatch_policy, score_eligibility_policy,
  receipt_issuance_policy, attestation_claims, with_verified_channel,
}

-- There are claims, and the one of the dimension has the status `passed`.
abbrev pub HasPassed : Option AssuranceClaims → AssuranceDimension → Type 0
HasPassed claims d = (cs : AssuranceClaims) × (claims ≡ some cs) × ((claim cs d).status ≡ passed)

is_passed_iff : (s : ClaimStatus) → (is_passed s ≡ true) ↔ (s ≡ passed)
is_passed_iff s = ground arith

some-injective : (a b : AssuranceClaims) → some a ≡ some b → a ≡ b
some-injective a b e = cc

is_satisfied_iff :
    (claims : Option AssuranceClaims) (d : AssuranceDimension)
    → (is_satisfied claims d ≡ true) ↔ HasPassed claims d
unfolding claim
is_satisfied_iff Option.none d = (λ h. cc, λ (cs, given, status). cc)
is_satisfied_iff (Option.some c) d = (
  λ h. (c, refl, (is_passed_iff (claim c d).status).0 h),
  λ (cs, given, status).
      (is_passed_iff (claim c d).status).1
        (ap (λ x. (claim x d).status) (some-injective c cs given) ∙ status),
)

zero_length :
    (d : AssuranceDimension) (ds : List AssuranceDimension) → nat_beq (length (d ∷ ds)) 0 ≡ false
zero_length d ds = ground arith

differs : {A : Type 0} {b : Bool} → b ≡ true → b ≡ false → A
differs e f = cc

unsatisfied_of-nil :
    (claims : Option AssuranceClaims) (ds : List AssuranceDimension)
    → (nat_beq (length (unsatisfied_of claims ds)) 0 ≡ true) ↔ All (HasPassed claims) ds
unfolding unsatisfied_of
unsatisfied_of-nil claims [] = ground arith
unsatisfied_of-nil claims (d ∷ ds) =
    let rest = unsatisfied_of-nil claims ds in
    let one = is_satisfied_iff claims d in
    elim (Bool-cases (is_satisfied claims d)) [
      | inl held ↦ rw held (λ h. (one.0 held, rest.0 h), λ h. rest.1 h.1)
      | inr fails ↦ rw fails (
        λ h. differs h (zero_length d (unsatisfied_of claims ds)),
        λ h. differs (one.1 h.0) fails,
      )
    ]

-- A policy allows claims exactly when, for every dimension that it requires, there are claims and
-- the one of the dimension has the status `passed`: without claims only a policy that requires
-- nothing allows.
pub allows_iff :
    (p : EligibilityPolicy) (claims : Option AssuranceClaims)
    → (allows p claims ≡ true) ↔ All (HasPassed claims) p.required_passed
unfolding allows evaluate
allows_iff p claims = unsatisfied_of-nil claims p.required_passed

-- The checked claim is the claim itself.
check_claim-eq : (std : Stdlib) (c c' : AssuranceClaim) → check_claim std c ≡ ok c' → c ≡ c'
unfolding check_claim
check_claim-eq std c c' h = ground arith

record Statuses (cs : AssuranceClaims) (hw sw ch : ClaimStatus) : Type 0 where
  hw_status : cs.hardware_claim.status ≡ hw
  sw_status : cs.software_claim.status ≡ sw
  ch_status : cs.channel_claim.status ≡ ch
  wk_status : cs.work_claim.status ≡ not_evaluated

ok-injective : {A : Type 0} (a b : A) → ◌≡◌ {A = Result AssuranceError A} (ok a) (ok b) → a ≡ b
ok-injective a b e = cc

not_evaluated_only : (s : ClaimStatus) → is_not_evaluated s ≡ true → s ≡ not_evaluated
not_evaluated_only s e = ground arith

software-status :
    (std : Stdlib) (evidence : Bytes) (id when : List ℕ) (sw : Outcome) (c : AssuranceClaim)
    → software_claim_of std evidence id when sw ≡ ok c
    → c.status ≡ sw.status
unfolding software_claim_of
software-status std evidence id when sw c h = elim (Bool-cases (is_not_evaluated sw.status)) [
  | inl absent ↦
      let none_made = rw absent at h in
      let empty : not_evaluated_claim ≡ c = ok-injective _ _ none_made in
      let status = not_evaluated_only sw.status absent in
      sym (ap (λ (x : AssuranceClaim). x.status) empty) ∙ sym status
  | inr present ↦
      let made = rw present at h in
      sym (ap (λ (x : AssuranceClaim). x.status) (check_claim-eq std _ c made))
]

attestation_claims-Statuses :
    (std : Stdlib) (evidence : Bytes) (policy : Policy) (at : Option (List ℕ)) (hw sw : Outcome)
    (cs : AssuranceClaims)
    → attestation_claims std evidence policy at hw sw ≡ ok cs
    → Statuses cs hw.status sw.status not_evaluated
unfolding attestation_claims
attestation_claims-Statuses std evidence policy at hw sw cs h =
    let (hc, hw_ok, rest) = >>=-eq-ok _ _ h in
    let (sc, sw_ok, last) = >>=-eq-ok _ _ rest in
    let hw_same = check_claim-eq std _ hc hw_ok in
    let sw_same = software-status std evidence _ _ sw sc sw_ok in
    let e = ok-injective _ _ last in
    record {
      hw_status =
          sym (ap (λ (x : AssuranceClaims). x.hardware_claim.status) e)
          ∙ sym (ap (λ (x : AssuranceClaim). x.status) hw_same);
      sw_status = sym (ap (λ (x : AssuranceClaims). x.software_claim.status) e) ∙ sw_same;
      ch_status = sym (ap (λ (x : AssuranceClaims). x.channel_claim.status) e);
      wk_status = sym (ap (λ (x : AssuranceClaims). x.work_claim.status) e);
    }

with_verified_channel-Statuses :
    (std : Stdlib) (cs cs' : AssuranceClaims) (material : Bytes) (at : Option (List ℕ))
    (hw sw ch : ClaimStatus)
    → with_verified_channel std cs material at ≡ ok cs'
    → Statuses cs hw sw ch
    → Statuses cs' hw sw passed
unfolding with_verified_channel evaluated_claim with_claim
with_verified_channel-Statuses std cs cs' material at hw sw ch h s =
    let (cc', c_ok, last) = >>=-eq-ok _ _ h in
    let same = check_claim-eq std _ cc' c_ok in
    let e = ok-injective _ _ last in
    record {
      hw_status = sym (ap (λ (x : AssuranceClaims). x.hardware_claim.status) e) ∙ s.hw_status;
      sw_status = sym (ap (λ (x : AssuranceClaims). x.software_claim.status) e) ∙ s.sw_status;
      ch_status =
          sym (ap (λ (x : AssuranceClaims). x.channel_claim.status) e)
          ∙ sym (ap (λ (x : AssuranceClaim). x.status) same);
      wk_status = sym (ap (λ (x : AssuranceClaims). x.work_claim.status) e) ∙ s.wk_status;
    }

pub record Gates (cs : AssuranceClaims) (cs' : AssuranceClaims) (hw sw : Bool) : Type 0 where
  pub admission : allows attestation_admission_policy (some cs) ≡ (hw && sw)
  pub no_key : allows key_release_policy (some cs) ≡ false
  pub no_work : allows work_dispatch_policy (some cs) ≡ false
  pub receipt : allows receipt_issuance_policy (some cs) ≡ true
  pub no_score : allows score_eligibility_policy (some cs) ≡ false
  pub key_after : allows key_release_policy (some cs') ≡ (hw && sw)
  pub work_after : allows work_dispatch_policy (some cs') ≡ (hw && sw)
  pub receipt_after : allows receipt_issuance_policy (some cs') ≡ true
  pub no_score_after : allows score_eligibility_policy (some cs') ≡ false

-- Claims of a quote open admission exactly when hardware and software passed, receipt issuance
-- always, and neither key release nor work dispatch nor a score. With a verified channel they open
-- key release and work dispatch exactly when hardware and software passed, receipt issuance always,
-- and still no score.
pub attestation_claims-Gates :
    (std : Stdlib) (evidence : Bytes) (policy : Policy) (at : Option (List ℕ)) (hw sw : Outcome)
    (material : Bytes) (later : Option (List ℕ)) (cs cs' : AssuranceClaims)
    → attestation_claims std evidence policy at hw sw ≡ ok cs
    → with_verified_channel std cs material later ≡ ok cs'
    → Gates cs cs' (is_passed hw.status) (is_passed sw.status)
unfolding allows evaluate unsatisfied_of claim
attestation_claims-Gates std evidence policy at hw sw material later cs cs' h h' =
    let s = attestation_claims-Statuses std evidence policy at hw sw cs h in
    let s' =
      with_verified_channel-Statuses std cs cs' material later hw.status sw.status not_evaluated h'
        s in
    record {
      admission = rw (s.hw_status, s.sw_status) (ground arith);
      no_key = rw (s.hw_status, s.sw_status, s.ch_status) (ground arith);
      no_work = rw (s.hw_status, s.sw_status, s.ch_status) (ground arith);
      receipt = refl;
      no_score = rw (s.hw_status, s.sw_status, s.wk_status) (ground arith);
      key_after = rw (s'.hw_status, s'.sw_status, s'.ch_status) (ground arith);
      work_after = rw (s'.hw_status, s'.sw_status, s'.ch_status) (ground arith);
      receipt_after = refl;
      no_score_after = rw (s'.hw_status, s'.sw_status, s'.wk_status) (ground arith);
    }

pub attestation_claims-admission :
    (std : Stdlib) (evidence : Bytes) (policy : Policy) (at : Option (List ℕ)) (hw sw : Outcome)
    (cs : AssuranceClaims)
    → attestation_claims std evidence policy at hw sw ≡ ok cs
    → allows attestation_admission_policy (some cs) ≡ (is_passed hw.status && is_passed sw.status)
unfolding allows evaluate unsatisfied_of claim
attestation_claims-admission std evidence policy at hw sw cs h =
    let s = attestation_claims-Statuses std evidence policy at hw sw cs h in
    rw (s.hw_status, s.sw_status) (ground arith)

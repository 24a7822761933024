-- ===== src/Quote/Snp/Verdict.antt =====
-- What the verdicts of cathedral/verify/snp.py guarantee.
use cathedral_compute.Base.{
  ℕ, ◌≡◌, refl, sym, ap, ◌∙◌, Bool, true, false, not, ◌&&◌, Option, none, some, member, length,
  nat_beq, ◌==◌, text_eq, text_beq_iff, arith, Result, err, ok, raise_if->>, >>=-eq-ok,
  if◌then◌else◌,
}
use cathedral_compute.Base.Int.{pos, ◌≤ℤ◌, ltb_ℤ}
use cathedral_compute.Base.Text.{Bytes}
use cathedral_compute.Assurance.{
  Stdlib, Policy, AssuranceClaims, AssuranceError, passed, failed, not_evaluated, is_passed,
}
use cathedral_compute.Assurance.Policies.{allows, attestation_admission_policy}
use cathedral_compute.Assurance.Gates.{attestation_claims-admission}
use cathedral_compute.Binding.{BindingError, Evidence, evidence_report_data}
use cathedral_compute.Quote.Snp.{
  lift_binding, verify_snp, SnpError, wrong_expected_size, lift_claims, SnpReport, Attested,
  parse_snp_report, chain_verdict, attest, verdict_of_chain, verify_snp_report_data,
}

-- An attested verdict, from the report that it is about.
pub record IsAttested (snpguest : Option (ℕ → Option Bool)) (report expected : Bytes)
    (policy : Policy) (require_chain : Bool) (a : Attested) : Type 0 where
  pub parsed : SnpReport
  pub parses : parse_snp_report report ≡ ok parsed
  pub bound : parsed.report_data ≡ expected
  pub allowed : member parsed.measurement policy.allowed_measurements ≡ true
  pub recent : policy.min_tcb ≤ℤ pos parsed.tcb.reported
  pub chain : chain_verdict snpguest ≡ some a.chain_verified
  pub required : require_chain ≡ true → a.chain_verified ≡ true
  pub same_chip : a.chip_id ≡ parsed.chip_id
  pub same_measurement : a.measurement ≡ parsed.measurement
  pub same_tcb : a.tcb ≡ parsed.tcb.reported
  pub admission : allows attestation_admission_policy (some a.assurance) ≡ a.chain_verified

module _ {A : Type 0} where
  passed_over :
      (b : Bool) (x : Result SnpError (Option A)) (a : A)
      → (if b then ok none else x) ≡ ok (some a)
      → (b ≡ false) × (x ≡ ok (some a))
  passed_over true x a h = ground arith
  passed_over false x a h = (refl, h)

record IsOf (parsed : SnpReport) (chain : Bool) (a : Attested) : Type 0 where
  of_chip : a.chip_id ≡ parsed.chip_id
  of_measurement : a.measurement ≡ parsed.measurement
  of_tcb : a.tcb ≡ parsed.tcb.reported
  of_chain : a.chain_verified ≡ chain
  of_admission : allows attestation_admission_policy (some a.assurance) ≡ chain

lift_claims-ok :
    (r : Result AssuranceError AssuranceClaims) (cs : AssuranceClaims)
    → lift_claims r ≡ ok cs
    → r ≡ ok cs
unfolding lift_claims
lift_claims-ok (err e) cs h = cc
lift_claims-ok (ok c) cs h = cc

some_ok-injective :
    {A : Type 0} (a b : A)
    → ◌≡◌ {A = Result SnpError (Option A)} (ok (some a)) (ok (some b))
    → a ≡ b
some_ok-injective a b e = cc

both :
    (chain : Bool)
    → (is_passed (if chain then passed else failed)
        && is_passed (if chain then passed else not_evaluated))
      ≡ chain
both true = refl
both false = refl

attest-IsOf :
    (std : Stdlib) (report : Bytes) (policy : Policy) (parsed : SnpReport) (chain : Bool)
    (a : Attested)
    → attest std report policy parsed chain ≡ ok (some a)
    → IsOf parsed chain a
unfolding attest
attest-IsOf std report policy parsed chain a h =
    let (cs, lifted, made) = >>=-eq-ok _ _ h in
    let admitted =
      attestation_claims-admission std report policy none _ _ cs (lift_claims-ok _ cs lifted) in
    let e = some_ok-injective _ _ made in
    record {
      of_chip = sym (ap (λ (x : Attested). x.chip_id) e);
      of_measurement = sym (ap (λ (x : Attested). x.measurement) e);
      of_tcb = sym (ap (λ (x : Attested). x.tcb) e);
      of_chain = sym (ap (λ (x : Attested). x.chain_verified) e);
      of_admission =
          sym (ap (λ (x : Attested). allows attestation_admission_policy (some x.assurance)) e)
          ∙ (admitted ∙ both chain);
    }

verdict_of_chain-cases :
    (std : Stdlib) (report : Bytes) (policy : Policy) (parsed : SnpReport) (require_chain : Bool)
    (v : Option Bool) (a : Attested)
    → verdict_of_chain std report policy parsed require_chain v ≡ ok (some a)
    → (chain : Bool) × (v ≡ some chain)
      × ((require_chain && not chain) ≡ false)
      × IsOf parsed chain a
unfolding verdict_of_chain
verdict_of_chain-cases std report policy parsed require_chain none a h = ground arith
verdict_of_chain-cases std report policy parsed require_chain (some chain) a h =
    let (enough, made) = passed_over (require_chain && not chain) _ a h in
    (chain, refl, enough, attest-IsOf std report policy parsed chain a made)

-- An attested verdict is about the report that was passed: it carries the expected data, its
-- measurement is allowed, its reported TCB is at least the policy's least, the chain was verified
-- where that is required, and the claims open admission exactly when the chain was verified.
pub verify_snp_report_data-IsAttested :
    (std : Stdlib) (snpguest : Option (ℕ → Option Bool)) (report expected : Bytes) (policy : Policy)
    (require_chain : Bool) (a : Attested)
    → verify_snp_report_data std snpguest report expected policy require_chain ≡ ok (some a)
    → IsAttested snpguest report expected policy require_chain a
unfolding verify_snp_report_data
verify_snp_report_data-IsAttested std snpguest report expected policy require_chain a h =
    let (sized, rest) = raise_if->> (not (nat_beq (length expected) 64)) wrong_expected_size _ h in
    let (parsed, parses, body) = >>=-eq-ok _ _ rest in
    let (bound, after_data) = passed_over (not (parsed.report_data == expected)) _ a body in
    let (allowed, after_measurement) =
      passed_over (not (member parsed.measurement policy.allowed_measurements)) _ a after_data in
    let (recent, chained) =
      passed_over (ltb_ℤ (pos parsed.tcb.reported) policy.min_tcb) _ a after_measurement in
    let (chain, verdict, enough, made) =
      verdict_of_chain-cases std report policy parsed require_chain (chain_verdict snpguest) a
        chained in
    record {
      parsed = parsed;
      parses = parses;
      bound = (text_beq_iff parsed.report_data expected).0 (ground arith);
      allowed = ground arith;
      recent = ground arith;
      chain = verdict ∙ ap some (sym made.of_chain);
      required = λ r. made.of_chain ∙ ground arith;
      same_chip = made.of_chip;
      same_measurement = made.of_measurement;
      same_tcb = made.of_tcb;
      admission = made.of_admission ∙ sym made.of_chain;
    }

lift_binding-ok : (r : Result BindingError Bytes) (d : Bytes) → lift_binding r ≡ ok d → r ≡ ok d
unfolding lift_binding
lift_binding-ok (err e) d h = cc
lift_binding-ok (ok x) d h = cc

-- What `verify_snp` attests: a quote that carries the report data of the evidence for this nonce,
-- with a chain that was verified, and claims that open admission.
pub record IsVerified (sha512 : Bytes → Bytes) (snpguest : Option (ℕ → Option Bool)) (e : Evidence)
    (nonce : Bytes) (policy : Policy) (a : Attested) : Type 0 where
  pub expected : Bytes
  pub derived : evidence_report_data sha512 e nonce ≡ ok expected
  pub attested : IsAttested snpguest e.quote expected policy true a
  pub chain : a.chain_verified ≡ true
  pub admitted : allows attestation_admission_policy (some a.assurance) ≡ true

-- Evidence that `verify_snp` attests carries the report data derived from the nonce, the hotkey and
-- the channel, in a report that the policy allows, with a verified chain, and is admitted.
pub verify_snp-IsVerified :
    (sha512 : Bytes → Bytes) (std : Stdlib) (snpguest : Option (ℕ → Option Bool)) (e : Evidence)
    (nonce : Bytes) (policy : Policy) (a : Attested)
    → verify_snp sha512 std snpguest e nonce policy ≡ ok (some a)
    → IsVerified sha512 snpguest e nonce policy a
unfolding verify_snp
verify_snp-IsVerified sha512 std snpguest e nonce policy a h =
    let (expected, lifted, verdict) = >>=-eq-ok _ _ h in
    let good =
      verify_snp_report_data-IsAttested std snpguest e.quote expected policy true a verdict in
    record {
      expected = expected;
      derived = lift_binding-ok (evidence_report_data sha512 e nonce) expected lifted;
      attested = good;
      chain = good.required refl;
      admitted = good.admission ∙ good.required refl;
    }

-- ===== src/Ledger/Attestations.antt =====
-- `add_attestation` of cathedral/ledger.py: the evidence of a worker in a running epoch, which
-- stays as it is once it is written.
use cathedral_compute.Base.{
  ℕ, String, Bool, true, false, not, ◌&&◌, ◌||◌, List, [], ◌∷◌, Option, none, some, find_first,
  nat_beq, leb, length, take, drop, string_eq, text_eq, ◌==◌, text_beq, if◌then◌else◌, Result, ok,
  ◌>>=◌, ◌>>◌, raise_if,
}
use cathedral_compute.Base.Text.{codes, is_sha256_digest, is_digest_text, strip_prefix}
use cathedral_compute.Ledger.{
  Ledger, Attestation, LedgerError, ledger_closed, bad_envelope_digest, missing_envelope,
  bad_challenge_digest, bad_hardware_shape, missing_identity, bad_policy_mode,
  attestation_immutable, require_running,
}
use cathedral_compute.Ledger.Epochs.{is_none, same_bool}

pub record AttestationRequest : Type 0 where
  pub verdict : String
  pub tee_type : String
  pub workload : String
  pub evidence_digest : String
  pub policy_mode : String
  pub score_eligible : Option Bool
  pub envelope_digest : Option String
  pub envelope_required : Bool
  pub challenge_digest : Option String

abbrev optional_digest_ok : Option String → Bool
optional_digest_ok none = true
optional_digest_ok (some s) = is_sha256_digest s

abbrev pub is_alphanumeric : ℕ → Bool
is_alphanumeric c = (leb 48 c && leb c 57) || (leb 65 c && leb c 90) || (leb 97 c && leb c 122)

-- `[A-Za-z0-9._-]`
abbrev is_name_char : ℕ → Bool
is_name_char c = is_alphanumeric c || nat_beq c 46 || nat_beq c 95 || nat_beq c 45

-- The longest front of characters that pass, and what follows.
span_name : (ℕ → Bool) → List ℕ → List ℕ × List ℕ
span_name p [] = ([], [])
span_name p (c ∷ cs) =
    let (front, rest) = span_name p cs in if p c then (c ∷ front, rest) else ([], c ∷ cs)

is_profile_name : List ℕ → Bool
is_profile_name [] = false
is_profile_name (c ∷ cs) = is_alphanumeric c && leb (length cs) 127

abbrev is_digit : ℕ → Bool
is_digit c = leb 48 c && leb c 57

-- `[1-9][0-9]{0,18}`
is_release_number : List ℕ → Bool
is_release_number [] = false
is_release_number (c ∷ cs) = is_digit c && not (nat_beq c 48) && leb (length cs) 18

-- `@release=none@registry=none` or `@release=N@registry=sha256:H`
is_release_part : List ℕ → Bool
unfolding span_name is_release_number strip_prefix
is_release_part s =
    let (after_release, has_release) = strip_prefix (codes "@release=") s in
    let (number, rest) = span_name is_digit after_release in
    let (registry, has_registry) = strip_prefix (codes "@registry=") rest in
    text_beq s (codes "@release=none@registry=none")
    || (has_release && is_release_number number && has_registry && is_digest_text registry)

-- `_GPU_POLICY_MODE_RE.fullmatch(policy_mode)`
is_gpu_policy_mode : String → Bool
unfolding span_name is_profile_name is_release_part strip_prefix
is_gpu_policy_mode mode =
    let (after_prefix, has_prefix) = strip_prefix (codes "gpu-profile:") (codes mode) in
    let (name, rest) = span_name is_name_char after_prefix in
    let (after_profile, has_profile) = strip_prefix (codes "@profile=") rest in
    has_prefix
    && is_profile_name name
    && has_profile
    && is_digest_text (take 71 after_profile)
    && is_release_part (drop 71 after_profile)

abbrev pub is_cpu_shape : AttestationRequest → Bool
is_cpu_shape a = a.verdict == "VERIFIED" && a.tee_type == "TDX" && a.workload == "CPU"

abbrev pub is_gpu_shape : AttestationRequest → Bool
is_gpu_shape a = a.verdict == "VERIFIED" && a.tee_type == "TDX+GPU_CC" && a.workload == "GPU"

policy_mode_ok : AttestationRequest → Bool
unfolding is_gpu_policy_mode
policy_mode_ok a =
    if is_cpu_shape a
    then a.policy_mode == "strict" || a.policy_mode == "compatibility"
    else is_gpu_policy_mode a.policy_mode

abbrev pub eligibility : AttestationRequest → Bool
eligibility a = elim a.score_eligible [ none ↦ is_cpu_shape a | some b ↦ b ]

abbrev same_text : Option String → Option String → Bool
same_text none none = true
same_text (some s) (some t) = s == t
same_text _ _ = false

abbrev pub is_row : ℕ → String → Attestation → Bool
is_row epoch_id hotkey a = nat_beq a.epoch_id epoch_id && a.hotkey == hotkey

abbrev pub row_of : ℕ → String → AttestationRequest → Attestation
row_of epoch_id hotkey a = record {
  epoch_id = epoch_id;
  hotkey = hotkey;
  tee_type = a.tee_type;
  workload = a.workload;
  evidence_digest = a.evidence_digest;
  policy_mode = a.policy_mode;
  score_eligible = eligibility a;
  envelope_digest = a.envelope_digest;
  challenge_digest = a.challenge_digest;
}

unfoldable pub is_same_evidence : Attestation → Attestation → Bool
is_same_evidence x y =
    x.evidence_digest == y.evidence_digest
    && x.policy_mode == y.policy_mode
    && x.tee_type == y.tee_type
    && x.workload == y.workload
    && same_text x.envelope_digest y.envelope_digest
    && same_text x.challenge_digest y.challenge_digest
    && same_bool x.score_eligible y.score_eligible

unfoldable pub write_attestation :
    Option Attestation → Attestation → Bool → Ledger → Result LedgerError Ledger
unfolding is_same_evidence
write_attestation none row envelope_required l =
    ok (record l { attestations = row ∷ l.attestations })
write_attestation (some existing) row envelope_required l = do
  raise_if (envelope_required && is_none existing.envelope_digest) missing_envelope
  raise_if (not (is_same_evidence existing row)) attestation_immutable
  ok l

-- The checks of `add_attestation` before its transaction
unfoldable pub validate_attestation : String → AttestationRequest → Result LedgerError (Unit {0})
unfolding policy_mode_ok
validate_attestation hotkey a = do
  raise_if (not (optional_digest_ok a.envelope_digest)) bad_envelope_digest
  raise_if (a.envelope_required && is_none a.envelope_digest) missing_envelope
  raise_if (not (optional_digest_ok a.challenge_digest)) bad_challenge_digest
  raise_if (not (is_cpu_shape a) && not (is_gpu_shape a)) bad_hardware_shape
  raise_if (hotkey == "" || a.evidence_digest == "") missing_identity
  raise_if (not (policy_mode_ok a)) bad_policy_mode

unfoldable pub add_attestation :
    ℕ → String → AttestationRequest → Ledger → Result LedgerError Ledger
unfolding validate_attestation write_attestation require_running
add_attestation epoch_id hotkey a l = do
  validate_attestation hotkey a
  raise_if l.closed ledger_closed
  e ← require_running epoch_id l
  write_attestation (find_first (is_row epoch_id hotkey) l.attestations) (row_of epoch_id hotkey a)
      a.envelope_required l

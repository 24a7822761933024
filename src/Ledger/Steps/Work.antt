-- ===== src/Ledger/Steps/Work.antt =====
-- What the methods of cathedral/ledger.py on challenges and attestations do to the tables when they
-- return.
use cathedral_compute.Base.{
  ℕ, ◌≡◌, refl, Bool, true, false, not, ◌&&◌, ◌||◌, List, ◌∷◌, Option, none, some, String, ok,
  nat_beq, length, arith, raise_if->>, >>=-eq-ok, ok-injective, ◌⊎◌, find_first, update_first, inl,
  inr, string_eq, text_eq, ◌==◌, ap, ◌∙◌, subst,
}
use cathedral_compute.Ledger.{
  Ledger, Epoch, Challenge, ChallengeStatus, Attestation, ledger_closed, missing_identity,
  duplicate_challenge, not_running, already_resolved, is_running, is_issued, has_id, has_challenge,
  challenge_at, epoch_at, find_epoch, require_running, missing_envelope, attestation_immutable,
}
use cathedral_compute.Ledger.Challenges.{
  issue_challenge, insert_challenge, is_free, or_missing, resolved, resolve_in_transaction,
  resolve_challenge, validated_resolution_units,
}
use cathedral_compute.Ledger.Attestations.{
  AttestationRequest, add_attestation, write_attestation, validate_attestation, is_row, row_of,
  is_same_evidence,
}
use cathedral_compute.Ledger.Epochs.{is_none}
use cathedral_compute.Ledger.Steps.Effects.{find_epoch-ok}

pub require_running-ok :
    (id : ℕ) (l : Ledger) {e : Epoch}
    → require_running id l ≡ ok e
    → (find_first (has_id id) l.epochs ≡ some e) × (is_running e.status ≡ true)
unfolding require_running
require_running-ok id l h =
    let (x, found, h1) = >>=-eq-ok (find_epoch id l) _ h in
    let (runs, h2) = raise_if->> (not (is_running x.status)) not_running _ h1 in
    let same = ok-injective h2 in
    (
      find_epoch-ok id l (found ∙ ap ok same),
      subst (λ y. is_running y.status ≡ true) same (ground (arith, runs)),
    )

pub free_row : (o : Option Challenge) → not (is_free o) ≡ false → o ≡ none
free_row none h = refl
free_row (some c) h = ground arith

pub issue-effect :
    (id : List ℕ) (hotkey : String) (epoch_id : ℕ) (l : Ledger) {m : Ledger}
    → issue_challenge id hotkey epoch_id l ≡ ok m
    → (e : Epoch) × (find_first (has_id epoch_id) l.epochs ≡ some e)
      × (is_running e.status ≡ true)
      × (challenge_at id l.challenges ≡ none)
      × (insert_challenge id hotkey epoch_id l ≡ m)
unfolding issue_challenge
issue-effect id hotkey epoch_id l h =
    let (a, h1) = raise_if->> (nat_beq (length id) 0 || hotkey == "") missing_identity _ h in
    let (b, h2) = raise_if->> l.closed ledger_closed _ h1 in
    let (e, found, h3) = >>=-eq-ok (require_running epoch_id l) _ h2 in
    let (free, h4) =
      raise_if->> (not (is_free (challenge_at id l.challenges))) duplicate_challenge _ h3 in
    let (at_id, runs) = require_running-ok epoch_id l found in
    (e, at_id, runs, free_row (challenge_at id l.challenges) free, ok-injective h4)

found_row : (o : Option Challenge) {c : Challenge} → or_missing o ≡ ok c → o ≡ some c
unfolding or_missing
found_row none h = cc
found_row (some c) h = cc

pub resolve_in_transaction-effect :
    (id : List ℕ) (status : ChallengeStatus) (u : ℕ) (l : Ledger) {c : Challenge} {m : Ledger}
    → resolve_in_transaction id status u l ≡ ok (c, m)
    → (challenge_at id l.challenges ≡ some c)
      × (is_issued c.status ≡ true)
      × (record l { challenges = update_first (has_challenge id) (resolved status u) l.challenges }
          ≡ m)
unfolding resolve_in_transaction
resolve_in_transaction-effect id status u l h =
    let (d, at_id, h1) = >>=-eq-ok (or_missing (challenge_at id l.challenges)) _ h in
    let (e, found, h2) = >>=-eq-ok (or_missing (epoch_at d.epoch_id l.epochs)) _ h1 in
    let (runs, h3) = raise_if->> (not (is_running e.status)) not_running _ h2 in
    let (is_open, h4) = raise_if->> (not (is_issued d.status)) already_resolved _ h3 in
    let same = ap (λ p. p.0) (ok-injective h4) in
    (
      found_row (challenge_at id l.challenges) at_id ∙ ap some same,
      subst (λ y. is_issued y.status ≡ true) same (ground (arith, is_open)),
      ap (λ p. p.1) (ok-injective h4),
    )

pub resolve-effect :
    (id : List ℕ) (status : ChallengeStatus) (units : ℕ) (derived : Bool) (l : Ledger) {m : Ledger}
    → resolve_challenge id status units derived l ≡ ok m
    → (c : Challenge) × (u : ℕ) × (challenge_at id l.challenges ≡ some c)
      × (is_issued c.status ≡ true)
      × (validated_resolution_units status units derived ≡ ok u)
      × (record l { challenges = update_first (has_challenge id) (resolved status u) l.challenges }
          ≡ m)
unfolding resolve_challenge
resolve-effect id status units derived l h =
    let (u, valid, h1) = >>=-eq-ok (validated_resolution_units status units derived) _ h in
    let (b, h2) = raise_if->> l.closed ledger_closed _ h1 in
    let (done, h3, h4) = >>=-eq-ok (resolve_in_transaction id status u l) _ h2 in
    let (at_id, is_open, tables) = resolve_in_transaction-effect id status u l h3 in
    (done.0, u, at_id, is_open, valid, tables ∙ ok-injective h4)

pub attest-effect :
    (id : ℕ) (hotkey : String) (a : AttestationRequest) (l : Ledger) {m : Ledger}
    → add_attestation id hotkey a l ≡ ok m
    → (l ≡ m)
      ⊎ ((find_first (is_row id hotkey) l.attestations ≡ none)
          × (record l { attestations = row_of id hotkey a ∷ l.attestations } ≡ m))
unfolding add_attestation write_attestation
attest-effect id hotkey a l {m = m} h =
    let (u, valid, h1) = >>=-eq-ok (validate_attestation hotkey a) _ h in
    let (b, h2) = raise_if->> l.closed ledger_closed _ h1 in
    let (e, found, h3) = >>=-eq-ok (require_running id l) _ h2 in
    written (find_first (is_row id hotkey) l.attestations) h3
  where
    written :
        (o : Option Attestation)
        → write_attestation o (row_of id hotkey a) a.envelope_required l ≡ ok m
        → (l ≡ m)
          ⊎ ((o ≡ none) × (record l { attestations = row_of id hotkey a ∷ l.attestations } ≡ m))
    written none k = inr (refl, ok-injective k)
    written (some x) k =
        let (c, k1) =
          raise_if->> (a.envelope_required && is_none x.envelope_digest) missing_envelope _ k in
        let (d, k2) =
          raise_if->> (not (is_same_evidence x (row_of id hotkey a))) attestation_immutable _ k1 in
        inl (ok-injective k2)

-- ===== src/Ledger/Challenges.antt =====
-- The challenges of cathedral/ledger.py: `issue_challenge` and `resolve_challenge` without a
-- customer's lease. `work_units` is a whole number, so it is finite and not negative.
use cathedral_compute.Base.{
  ℕ, String, Bool, true, false, not, ◌&&◌, ◌||◌, List, ◌∷◌, Option, none, some, update_first,
  nat_beq, length, string_eq, ◌==◌, if◌then◌else◌, Result, err, ok, ◌>>=◌, ◌>>◌, raise_if,
}
use cathedral_compute.Ledger.{
  Ledger, Challenge, ChallengeStatus, issued, LedgerError, ledger_closed, missing_identity,
  duplicate_challenge, bad_resolve_status, not_validator_derived, challenge_not_found, not_running,
  already_resolved, is_running, is_issued, is_verified, has_challenge, challenge_at, epoch_at,
  require_running,
}

abbrev pub is_free : Option Challenge → Bool
is_free none = true
is_free (some c) = false

-- `INSERT INTO challenges`, whose primary key is the challenge id
abbrev pub insert_challenge : List ℕ → String → ℕ → Ledger → Ledger
insert_challenge id hotkey epoch_id l = record l {
  challenges =
      record {
        challenge_id = id;
        epoch_id = epoch_id;
        hotkey = hotkey;
        status = issued;
        work_units = 0;
      }
      ∷ l.challenges;
}

unfoldable pub issue_challenge : List ℕ → String → ℕ → Ledger → Result LedgerError Ledger
unfolding require_running
issue_challenge id hotkey epoch_id l = do
  raise_if (nat_beq (length id) 0 || hotkey == "") missing_identity
  raise_if l.closed ledger_closed
  e ← require_running epoch_id l
  raise_if (not (is_free (challenge_at id l.challenges))) duplicate_challenge
  ok (insert_challenge id hotkey epoch_id l)

-- `_validated_resolution_units`
unfoldable pub validated_resolution_units : ChallengeStatus → ℕ → Bool → Result LedgerError ℕ
validated_resolution_units status units validator_derived = do
  raise_if (is_issued status) bad_resolve_status
  raise_if (is_verified status && not validator_derived) not_validator_derived
  ok (if is_verified status then units else 0)

abbrev pub resolved : ChallengeStatus → ℕ → Challenge → Challenge
resolved status units c = record c { status = status; work_units = units }

unfoldable pub or_missing : {A : Type 0} → Option A → Result LedgerError A
or_missing none = err challenge_not_found
or_missing (some row) = ok row

-- `_resolve_challenge_in_transaction`
unfoldable pub resolve_in_transaction :
    List ℕ → ChallengeStatus → ℕ → Ledger → Result LedgerError (Challenge × Ledger)
unfolding or_missing
resolve_in_transaction id status units l = do
  c ← or_missing (challenge_at id l.challenges)
  e ← or_missing (epoch_at c.epoch_id l.epochs)
  raise_if (not (is_running e.status)) not_running
  raise_if (not (is_issued c.status)) already_resolved
  ok (
    c,
    record l { challenges = update_first (has_challenge id) (resolved status units) l.challenges },
  )

unfoldable pub resolve_challenge :
    List ℕ → ChallengeStatus → ℕ → Bool → Ledger → Result LedgerError Ledger
unfolding validated_resolution_units resolve_in_transaction
resolve_challenge id status work_units validator_derived l = do
  units ← validated_resolution_units status work_units validator_derived
  raise_if l.closed ledger_closed
  done ← resolve_in_transaction id status units l
  ok done.1

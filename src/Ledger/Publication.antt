-- ===== src/Ledger/Publication.antt =====
-- `report_bytes`, `report_digest` and `post_and_mark_published` of cathedral/ledger.py. The poster
-- is a parameter: whether the acknowledgement of a body has the status `accepted`.
use cathedral_compute.Base.{
  Bool, true, false, not, ◌||◌, ℕ, none, some, text_beq, Result, err, ok, ◌>>=◌, ◌>>◌, raise_if,
}
use cathedral_compute.Base.Text.{Bytes}
use cathedral_compute.Ledger.{
  Ledger, Epoch, EpochStatus, abandoned, Report, LedgerError, no_report, report_corrupt,
  not_accepted, is_final, find_epoch,
}
use cathedral_compute.Ledger.Epochs.{mark_published}
use cathedral_compute.Ledger.Completion.{Services, validate_cardinality}

abbrev is_abandoned : EpochStatus → Bool
is_abandoned abandoned = true
is_abandoned _ = false

unfoldable pub stored_report : Bool → Epoch → Result LedgerError Report
stored_report readable e = elim e.report [
  | none ↦ err no_report
  | some report ↦ raise_if (not readable) no_report >> ok report
]

unfoldable pub stored_digest : Epoch → Result LedgerError Bytes
stored_digest e = elim e.report_digest [ none ↦ err no_report | some digest ↦ ok digest ]

unfoldable pub report_bytes : Services → ℕ → Ledger → Result LedgerError Bytes
unfolding find_epoch stored_report
report_bytes sv id l = do
  e ← find_epoch id l
  report ← stored_report (is_final e.status || is_abandoned e.status) e
  ok (sv.canonical_json report)

unfoldable pub report_digest : ℕ → Ledger → Result LedgerError Bytes
unfolding find_epoch stored_digest
report_digest id l = do e ← find_epoch id l; stored_digest e

-- The bytes of the report, checked against its digest and the limits of the launch
unfoldable pub checked_body : Services → Report → Bytes → Result LedgerError (Bytes × Bytes)
unfolding validate_cardinality
checked_body sv report stored = do
  let body = sv.canonical_json report
  let digest = sv.sha256_hex body
  raise_if (not (text_beq digest stored)) report_corrupt
  validate_cardinality body report
  ok (body, digest)

-- The body to post and its digest
unfoldable pub publishable : Services → ℕ → Ledger → Result LedgerError (Bytes × Bytes)
unfolding find_epoch stored_report stored_digest checked_body
publishable sv id l = do
  e ← find_epoch id l
  report ← stored_report (is_final e.status) e
  stored ← stored_digest e
  checked_body sv report stored

-- The poster is called between two transactions: `before` is the ledger read for the body, `after`
-- the ledger that `mark_published` finds.
unfoldable pub post_and_mark_published :
    Services → (Bytes → Bool) → ℕ → Ledger → Ledger → Result LedgerError Ledger
unfolding publishable mark_published
post_and_mark_published sv accepted id before after = do
  (body, digest) ← publishable sv id before
  raise_if (not (accepted body)) not_accepted
  mark_published id (some digest) after

-- ===== src/Ledger/Epochs.antt =====
-- The epochs of cathedral/ledger.py: `begin_epoch`, `abandon_completed_epoch`, `mark_published` and
-- `blocking_epoch`. Epoch ids come from an autoincrementing key, so the newest row is the first.
pub mod Order
use cathedral_compute.Base.{
  ℕ, suc, String, Bool, true, false, not, ◌&&◌, ◌||◌, List, [], ◌∷◌, Option, none, some, max, leb,
  ltb, all, length, nat_beq, text_eq, ◌==◌, find_first, if◌then◌else◌, Result, err, ok, ◌>>=◌, ◌>>◌,
  raise_if, text_beq,
}
use cathedral_compute.Base.Int.{ℤ, pos, pos_part, leb_ℤ, ltb_ℤ}
use cathedral_compute.Base.Text.{codes, is_sha256_digest, Bytes}
use cathedral_compute.Ledger.{
  Ledger, Epoch, EpochStatus, running, published, abandoned, LedgerError, ledger_closed,
  bad_source_epoch, registry_pair, anchor_pair, bad_anchor_block, anchor_without_audience,
  audience_pair, bad_registry_metadata, retry_first, not_greater, not_complete, bad_reason,
  cannot_publish, published_digest_mismatch, epoch_blocking, is_running, is_complete, is_aborted,
  is_published, is_blocking, is_final, set_epoch, find_epoch,
}
use cathedral_compute.Ledger.Audience.{validate_score_audience, normalize_block_hash, is_space}

pub record BeginRequest : Type 0 where
  pub source_epoch : ℤ
  pub registry_release : Option ℤ
  pub registry_digest : Option String
  pub network : Option String
  pub netuid : Option ℤ
  pub anchor_block : Option ℤ
  pub anchor_hash : Option String

abbrev pub is_none : {A : Type 0} → Option A → Bool
is_none none = true
is_none (some a) = false

abbrev pub same_bool : Bool → Bool → Bool
same_bool true b = b
same_bool false b = not b

abbrev max_sqlite_integer : ℤ
max_sqlite_integer = pos 9223372036854775807

-- The anchor block with its normalized hash.
check_anchor : BeginRequest → Result LedgerError (Option (ℤ × List ℕ))
check_anchor r = elim r.anchor_block [
  | none ↦ ok none
  | some block ↦
      raise_if (ltb_ℤ block (pos 0) || ltb_ℤ max_sqlite_integer block) bad_anchor_block
      >> (elim r.anchor_hash [
        | none ↦ err anchor_pair
        | some hash ↦ normalize_block_hash hash >>= λ digits.
            raise_if (is_none r.network || is_none r.netuid) anchor_without_audience
            >> ok (some (block, digits))
      ])
]

check_audience : Option String → Option ℤ → Result LedgerError (Option (String × ℤ))
check_audience (some network) (some netuid) =
    validate_score_audience network netuid >>= λ audience. ok (some audience)
check_audience _ _ = ok none

registry_ok : Option ℤ → Option String → Bool
registry_ok (some release) (some digest) =
    ltb_ℤ (pos 0) release && leb_ℤ release max_sqlite_integer && is_sha256_digest digest
registry_ok (some release) none = false
registry_ok none digest = true

-- `SELECT MAX(source_epoch) ... WHERE status IN ('complete', 'published')`
abbrev pub max_option : ℕ → Option ℕ → Option ℕ
max_option n none = some n
max_option n (some m) = some (max n m)

unfoldable pub last_final : List Epoch → Option ℕ
last_final [] = none
last_final (e ∷ es) =
    let rest = last_final es in if is_final e.status then max_option e.source_epoch rest else rest

abbrev pub above : Option ℕ → ℕ → Bool
above none n = true
above (some m) n = ltb m n

-- The newest aborted attempt that no final epoch has overtaken.
abbrev pub is_retry : Option ℕ → Epoch → Bool
is_retry final e = is_aborted e.status && above final e.source_epoch

abbrev pub retries_other : Option Epoch → ℕ → Bool
retries_other none source = false
retries_other (some e) source = not (nat_beq source e.source_epoch)

-- `blocking_epoch`, also under its alias `pending_epoch`
unfoldable pub blocking_epoch : List Epoch → Option Epoch
blocking_epoch es = find_first (λ e. is_blocking e.status) es

abbrev pub no_block : Option Epoch → Result LedgerError (Unit {0})
no_block none = ok tt
no_block (some e) = err (epoch_blocking e.epoch_id)

-- `INSERT INTO epochs`
abbrev pub new_row :
    ℕ → Option ℤ → Option String → Option (String × ℤ) → Option (ℤ × List ℕ) → Ledger → Ledger
new_row source release digest anchor anchor_block l = record l {
  epochs =
      record {
        epoch_id = l.next_id;
        source_epoch = source;
        status = running;
        registry_release = release;
        registry_digest = digest;
        anchor = anchor;
        anchor_block = anchor_block;
        report = none;
        report_digest = none;
      }
      ∷ l.epochs;
  next_id = suc l.next_id;
}

-- The transaction of `begin_epoch`, which inserts the new row.
unfoldable pub insert_epoch :
    ℕ
    → Option ℤ
    → Option String
    → Option (String × ℤ)
    → Option (ℤ × List ℕ)
    → Ledger
    → Result LedgerError (ℕ × Ledger)
unfolding last_final blocking_epoch
insert_epoch source release digest anchor anchor_block l = do
  raise_if l.closed ledger_closed
  no_block (blocking_epoch l.epochs)
  let final = last_final l.epochs
  raise_if (retries_other (find_first (is_retry final) l.epochs) source) retry_first
  raise_if (not (above final source)) not_greater
  ok (l.next_id, new_row source release digest anchor anchor_block l)

-- The checks of `begin_epoch` before its transaction: the anchor block and the audience it leaves.
unfoldable pub validate_begin :
    BeginRequest → Result LedgerError (Option (ℤ × List ℕ) × Option (String × ℤ))
unfolding check_anchor check_audience registry_ok
validate_begin r = do
  raise_if (ltb_ℤ r.source_epoch (pos 0)) bad_source_epoch
  raise_if (not (same_bool (is_none r.registry_release) (is_none r.registry_digest))) registry_pair
  raise_if (not (same_bool (is_none r.anchor_block) (is_none r.anchor_hash))) anchor_pair
  anchor_block ← check_anchor r
  raise_if (not (same_bool (is_none r.network) (is_none r.netuid))) audience_pair
  anchor ← check_audience r.network r.netuid
  raise_if (not (registry_ok r.registry_release r.registry_digest)) bad_registry_metadata
  ok (anchor_block, anchor)

unfoldable pub begin_epoch : BeginRequest → Ledger → Result LedgerError (ℕ × Ledger)
unfolding validate_begin insert_epoch
begin_epoch r l = do
  (anchor_block, anchor) ← validate_begin r
  insert_epoch (pos_part r.source_epoch) r.registry_release r.registry_digest anchor anchor_block l

-- `abandon_completed_epoch`; a reason is blank when all of it is white space.
unfoldable pub abandon_completed_epoch : ℕ → String → Ledger → Result LedgerError Ledger
unfolding find_epoch
abandon_completed_epoch id reason l = do
  raise_if (all is_space (codes reason)) bad_reason
  raise_if l.closed ledger_closed
  e ← find_epoch id l
  raise_if (not (is_complete e.status)) not_complete
  ok (set_epoch id (λ row. record row { status = abandoned }) l)

abbrev pub is_expected : Option Bytes → Option Bytes → Bool
is_expected none none = true
is_expected (some a) (some b) = text_beq a b
is_expected _ _ = false

-- `report_digest or expected`
abbrev pub supplied : Option Bytes → Option Bytes → Option Bytes
supplied none expected = expected
supplied (some []) expected = expected
supplied (some (c ∷ cs)) expected = some (c ∷ cs)

unfoldable pub mark_published : ℕ → Option Bytes → Ledger → Result LedgerError Ledger
unfolding find_epoch
mark_published id report_digest l = do
  raise_if l.closed ledger_closed
  e ← find_epoch id l
  let matches = is_expected (supplied report_digest e.report_digest) e.report_digest
  if is_published e.status then (raise_if (not matches) published_digest_mismatch >> ok l) else (do
    raise_if (not (is_complete e.status)) cannot_publish
    raise_if (not matches) published_digest_mismatch
    ok (set_epoch id (λ row. record row { status = published }) l))

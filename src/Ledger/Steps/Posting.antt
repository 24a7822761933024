-- ===== src/Ledger/Steps/Posting.antt =====
-- `post_and_mark_published` of cathedral/ledger.py, with steps between the posting and the
-- publication.
use cathedral_compute.Base.{
  ℕ, ◌≡◌, refl, Bool, true, false, not, List, [], ◌∷◌, Option, some, arith, subst, sym, ap, ◌∙◌,
  update_first, inl, inr, ok, text_beq, text_beq_iff, raise_if->>, >>=-eq-ok, ok-injective,
}
use cathedral_compute.Base.Text.{Bytes}
use cathedral_compute.Ledger.{
  Ledger, Epoch, Report, published, has_id, epoch_at, is_running, is_published, is_final,
  report_corrupt, not_accepted, find_epoch,
}
use cathedral_compute.Ledger.Epochs.{mark_published}
use cathedral_compute.Ledger.Epochs.Order.{find_first-cases}
use cathedral_compute.Ledger.Completion.{Services, validate_cardinality}
use cathedral_compute.Ledger.Publication.{
  post_and_mark_published, publishable, checked_body, stored_report, stored_digest,
}
use cathedral_compute.Ledger.Steps.{Reach, consistent}
use cathedral_compute.Ledger.Steps.Effects.{publish-effect, find_epoch-ok}
use cathedral_compute.Ledger.Steps.Order.{find_first-holds}
use cathedral_compute.Ledger.Steps.Reports.{Reach-Kept}

pub epoch_at-update_first :
    (id : ℕ) (f : Epoch → Epoch) (es : List Epoch) {e : Epoch}
    → epoch_at id es ≡ some e
    → has_id id (f e) ≡ true
    → epoch_at id (update_first (has_id id) f es) ≡ some (f e)
epoch_at-update_first id f [] found same = ground (arith, found)
epoch_at-update_first id f (x ∷ xs) {e = e} found same =
    elim (find_first-cases (has_id id) x xs found) [
      | inl (here_id, is_e) ↦
          rw here_id (subst (λ y. epoch_at id (f y ∷ xs) ≡ some (f e)) (sym is_e) (rw same))
      | inr (other, later) ↦ rw other (rw other (epoch_at-update_first id f xs later same))
    ]

stored_report-ok :
    (readable : Bool) (e : Epoch) {report : Report}
    → stored_report readable e ≡ ok report
    → (readable ≡ true) × (e.report ≡ some report)
unfolding stored_report
stored_report-ok readable e h = ground arith

stored_digest-ok :
    (e : Epoch) {digest : Bytes} → stored_digest e ≡ ok digest → e.report_digest ≡ some digest
unfolding stored_digest
stored_digest-ok e h = ground arith

checked_body-ok :
    (sv : Services) (report : Report) (stored : Bytes) {body digest : Bytes}
    → checked_body sv report stored ≡ ok (body, digest)
    → (sv.canonical_json report ≡ body)
      × (sv.sha256_hex body ≡ digest)
      × (digest ≡ stored)
      × (validate_cardinality body report ≡ ok tt)
unfolding checked_body
checked_body-ok sv report stored h =
    let body' = sv.canonical_json report in
    let (same, h1) = raise_if->> (not (text_beq (sv.sha256_hex body') stored)) report_corrupt _ h in
    let (u, fits, h2) = >>=-eq-ok (validate_cardinality body' report) _ h1 in
    let bodies = ap (λ p. p.0) (ok-injective h2) in
    let digests = ap (λ p. p.1) (ok-injective h2) in
    let equal = (text_beq_iff (sv.sha256_hex body') stored).0 (ground (arith, same)) in
    (
      bodies,
      sym (ap sv.sha256_hex bodies) ∙ digests,
      sym digests ∙ equal,
      subst (λ b. validate_cardinality b report ≡ ok tt) bodies fits,
    )

-- What is known of an epoch whose report is fit to be posted.
pub record Publishable (sv : Services) (id : ℕ) (l : Ledger) (body digest : Bytes) : Type 0 where
  pub row : Epoch
  pub report : Report
  pub found : epoch_at id l.epochs ≡ some row
  pub final : is_final row.status ≡ true
  pub stored : row.report ≡ some report
  pub sealed : row.report_digest ≡ some digest
  pub bytes : sv.canonical_json report ≡ body
  pub hashed : sv.sha256_hex body ≡ digest
  pub fits : validate_cardinality body report ≡ ok tt

publishable-effect :
    (sv : Services) (id : ℕ) (l : Ledger) {body digest : Bytes}
    → publishable sv id l ≡ ok (body, digest)
    → Publishable sv id l body digest
unfolding publishable
publishable-effect sv id l h =
    let (e, found, h1) = >>=-eq-ok (find_epoch id l) _ h in
    let (report, has_report, h2) = >>=-eq-ok (stored_report (is_final e.status) e) _ h1 in
    let (stored, has_digest, h3) = >>=-eq-ok (stored_digest e) _ h2 in
    let (ready, has) = stored_report-ok (is_final e.status) e has_report in
    let (bytes, hashed, equal, fits) = checked_body-ok sv report stored h3 in
    record {
      row = e;
      report = report;
      found = find_epoch-ok id l found;
      final = ready;
      stored = has;
      sealed = stored_digest-ok e has_digest ∙ ap some (sym equal);
      bytes = bytes;
      hashed = hashed;
      fits = fits;
    }

found_once : {x e : Epoch} → some x ≡ some e → x ≡ e
found_once h = cc

-- Publishing leaves the row published, with the report it had.
mark_published-row :
    (id : ℕ) (digest : Option Bytes) (l : Ledger) {m : Ledger} {e : Epoch}
    → epoch_at id l.epochs ≡ some e
    → mark_published id digest l ≡ ok m
    → (row : Epoch) × (epoch_at id m.epochs ≡ some row)
      × (is_published row.status ≡ true)
      × (row.report ≡ e.report)
      × (row.report_digest ≡ e.report_digest)
mark_published-row id digest l {e = e} found h =
    let (x, found', matches, outcome) = publish-effect id digest l h in
    let same_row = found_once (sym found' ∙ found) in
    elim outcome [
      | inl (already, same) ↦ (
        x,
        subst (λ t. epoch_at id t.epochs ≡ some x) same found',
        already,
        ap (λ r. r.report) same_row,
        ap (λ r. r.report_digest) same_row,
      )
      | inr (ready, same) ↦ (
        record x { status = published },
        subst (λ t. epoch_at id t.epochs ≡ some (record x { status = published })) same
            (epoch_at-update_first id (λ row. record row { status = published }) l.epochs found'
              (find_first-holds (has_id id) l.epochs found')),
        refl,
        ap (λ r. r.report) same_row,
        ap (λ r. r.report_digest) same_row,
      )
    ]

-- What a publication leaves: the row is published, the poster accepted the bytes of the report it
-- holds, and these fit the launch limits and have the stored digest.
pub record Published (sv : Services) (accepted : Bytes → Bool) (id : ℕ) (l : Ledger) : Type 0 where
  pub row : Epoch
  pub report : Report
  pub found : epoch_at id l.epochs ≡ some row
  pub is_out : is_published row.status ≡ true
  pub stored : row.report ≡ some report
  pub sealed : row.report_digest ≡ some (sv.sha256_hex (sv.canonical_json report))
  pub sent : accepted (sv.canonical_json report) ≡ true
  pub fits : validate_cardinality (sv.canonical_json report) report ≡ ok tt

-- When the posting of a report returns, then, on consistent tables and whatever methods ran between
-- the posting and the publication, the epoch is published with the report whose bytes the poster
-- accepted, these bytes pass the launch limits, and their digest is the stored one.
pub post_and_mark_published-Published :
    (sv : Services) (accepted : Bytes → Bool) (id : ℕ) (before after final : Ledger)
    → consistent before ≡ true
    → Reach sv before after
    → post_and_mark_published sv accepted id before after ≡ ok final
    → Published sv accepted id final
unfolding post_and_mark_published
post_and_mark_published-Published sv accepted id before after final inv reached h =
    let (sent, checked, h1) = >>=-eq-ok (publishable sv id before) _ h in
    let (taken, h2) = raise_if->> (not (accepted sent.0)) not_accepted _ h1 in
    let p = publishable-effect sv id before checked in
    let stops : is_running p.row.status ≡ false = ground (arith, p.final) in
    let kept = Reach-Kept sv before after id p.row inv reached p.found stops in
    let (row, found, out, same_report, same_digest) =
      mark_published-row id (some sent.1) after kept.found h2 in
    record {
      row = row;
      report = p.report;
      found = found;
      is_out = out;
      stored = same_report ∙ kept.same_report ∙ p.stored;
      sealed =
          same_digest
          ∙ kept.same_digest
          ∙ p.sealed
          ∙ ap some (sym (ap sv.sha256_hex p.bytes ∙ p.hashed));
      sent = subst (λ b. accepted b ≡ true) (sym p.bytes) (ground (arith, taken));
      fits = subst (λ b. validate_cardinality b p.report ≡ ok tt) (sym p.bytes) p.fits;
    }

-- ===== src/Ledger/Examples.antt =====
-- One epoch of a ledger with one worker: begun, attested, worked, completed, posted and published;
-- and another that is aborted.
use cathedral_compute.Base.{
  ℕ, ◌≡◌, ◌<◌, refl, Bool, true, false, List, [], ◌∷◌, none, some, ok, err, arith, Any, Member,
  subst, sym, text_eq, ◌==◌, find_first,
}
use cathedral_compute.Base.Int.{ℤ, pos}
use cathedral_compute.Base.Text.{Bytes, codes}
use cathedral_compute.Ledger.{
  Ledger, Epoch, Challenge, Report, Score, new_ledger, find_epoch, require_running, issued,
  verified, running, complete, published, aborted, challenge_at, retry_first,
}
use cathedral_compute.Ledger.Audience.{is_launch_hotkey}
use cathedral_compute.Ledger.Epochs.{
  BeginRequest, begin_epoch, validate_begin, insert_epoch, last_final, blocking_epoch,
  mark_published,
}
use cathedral_compute.Ledger.Epochs.Order.{ordered}
use cathedral_compute.Ledger.Challenges.{
  issue_challenge, resolve_challenge, resolve_in_transaction, validated_resolution_units,
  or_missing,
}
use cathedral_compute.Ledger.Attestations.{
  AttestationRequest, add_attestation, validate_attestation, write_attestation, row_of, is_row,
}
use cathedral_compute.Ledger.Scores.{
  score_epoch, universe, shares, gated_units, is_attested, verified_work, sorted_set, insert_text,
}
use cathedral_compute.Ledger.Scores.Earned.{IsEligible, IsAllowed, Earned, score_epoch-Earned}
use cathedral_compute.Ledger.Scores.Shares.{IsShare, score_epoch-IsShare}
use cathedral_compute.Ledger.Scores.Locality.{score_epoch-local}
use cathedral_compute.Ledger.Completion.{
  Services, CompletionRequest, complete_epoch, freeze_epoch, score_audience, build_report,
  validate_cardinality, check_rows, abort_epoch, abort_running, give_up_leased,
}
use cathedral_compute.Ledger.Publication.{
  post_and_mark_published, publishable, checked_body, stored_report, stored_digest,
}
use cathedral_compute.Ledger.Steps.{Step, Reach, consistent}
use cathedral_compute.Ledger.Steps.Phase.{Label, Turns, view, last_published, idle, opened}
use cathedral_compute.Ledger.Steps.Phase.Run.{Reach-Turns}
use cathedral_compute.Ledger.Steps.Invariant.{Reach-consistent, Reach-final_lt}
use cathedral_compute.Ledger.Steps.Reports.{Kept, Reach-Kept}
use cathedral_compute.Ledger.Steps.Posting.{Published, post_and_mark_published-Published}
use cathedral_compute.Ledger.Steps.Completing.{
  complete_epoch-returns, complete_epoch-again, completed,
}
use cathedral_compute.Ledger.Steps.Records.{Reach-challenge_at}
use cathedral_compute.Ledger.Steps.Evidence.{Reach-attestation}
use cathedral_compute.Ledger.Steps.Retrying.{begin_epoch-abort_epoch}

-- Canonical bytes that name the report's time, and a digest that is its input.
abbrev pub services : Services
services = record {
  canonical_json = λ r. codes r.generated_at;
  sha256_hex = λ bytes. bytes;
  is_timestamp = λ text. true;
}

abbrev pub request : ℤ → BeginRequest
request source = record {
  source_epoch = source;
  registry_release = none;
  registry_digest = none;
  network = none;
  netuid = none;
  anchor_block = none;
  anchor_hash = none;
}

abbrev evidence : AttestationRequest
evidence = record {
  verdict = "VERIFIED";
  tee_type = "TDX";
  workload = "CPU";
  evidence_digest = "e";
  policy_mode = "strict";
  score_eligible = none;
  envelope_digest = none;
  envelope_required = false;
  challenge_digest = none;
}

abbrev completion : CompletionRequest
completion = record {
  all_hotkeys = "b" ∷ [];
  generated_at = none;
  valid_until = none;
  network = none;
  netuid = none;
  stamp = "noon";
  now = 3;
}

abbrev pub epoch_7 : Epoch
epoch_7 = record {
  epoch_id = 1;
  source_epoch = 7;
  status = running;
  registry_release = none;
  registry_digest = none;
  anchor = none;
  anchor_block = none;
  report = none;
  report_digest = none;
}

abbrev work : List ℕ
work = 119 ∷ []

abbrev solved : Challenge
solved = record {
  challenge_id = work;
  epoch_id = 1;
  hotkey = "a";
  status = verified;
  work_units = 5;
}

abbrev pub began : Ledger
began = record new_ledger { epochs = epoch_7 ∷ []; next_id = 2 }

abbrev equipped : Ledger
equipped = record began { attestations = row_of 1 "a" evidence ∷ [] }

abbrev worked : Ledger
worked = record equipped { challenges = solved ∷ [] }

abbrev given : Ledger
given = record equipped {
  challenges =
      record { challenge_id = work; epoch_id = 1; hotkey = "a"; status = issued; work_units = 0 }
      ∷ [];
}

pub begins_7 : begin_epoch (request (pos 7)) new_ledger ≡ ok (1, began)
unfolding begin_epoch validate_begin insert_epoch blocking_epoch last_final
begins_7 = refl

attests : add_attestation 1 "a" evidence began ≡ ok equipped
unfolding add_attestation validate_attestation require_running find_epoch write_attestation
attests = refl

issues : issue_challenge work "a" 1 equipped ≡ ok given
unfolding issue_challenge require_running find_epoch
issues = refl

resolves : resolve_challenge work verified 5 true given ≡ ok worked
unfolding resolve_challenge resolve_in_transaction validated_resolution_units or_missing find_epoch
resolves = refl

worked_reached : Reach services new_ledger worked
worked_reached =
    Reach.step {m = given}
      (Reach.step {m = equipped}
        (Reach.step {m = began}
          (Reach.step {m = new_ledger} Reach.start (Step.begin_step (request (pos 7)) 1 begins_7))
          (Step.attest_step 1 "a" evidence attests))
        (Step.issue_step work "a" 1 issues))
      (Step.resolve_step work verified 5 true resolves)

new_consistent : consistent new_ledger ≡ true
unfolding consistent ordered
new_consistent = refl

worked-consistent : consistent worked ≡ true
worked-consistent = Reach-consistent services new_ledger worked worked_reached new_consistent

-- The completion of the epoch.
abbrev done : Ledger
done = (completed services epoch_7 completion "noon" none worked).1

abbrev noon_report : Report
noon_report = build_report epoch_7 (score_epoch 1 ("b" ∷ []) worked) "noon" none worked

report_fits : validate_cardinality (codes "noon") noon_report ≡ ok tt
unfolding validate_cardinality check_rows build_report score_epoch universe sorted_set insert_text
    shares gated_units is_attested verified_work is_launch_hotkey
report_fits = refl

unaddressed : score_audience none none ≡ ok none
unfolding score_audience
unaddressed = refl

complete_epoch-returns_example :
    complete_epoch services 1 completion worked
    ≡ ok (completed services epoch_7 completion "noon" none worked)
unfolding build_report
complete_epoch-returns_example =
    complete_epoch-returns services worked 1 epoch_7 completion "noon" none worked-consistent refl
      refl refl refl unaddressed refl refl refl report_fits refl

completes : complete_epoch services 1 completion worked ≡ ok (score_epoch 1 ("b" ∷ []) worked, done)
unfolding complete_epoch freeze_epoch score_audience find_epoch validate_cardinality check_rows
    build_report score_epoch universe sorted_set insert_text shares gated_units is_attested
    verified_work is_launch_hotkey
completes = refl

complete_epoch-again_example :
    complete_epoch services 1 completion done ≡ ok (score_epoch 1 ("b" ∷ []) worked, done)
complete_epoch-again_example =
    complete_epoch-again services worked done 1 completion completion
      (score_epoch 1 ("b" ∷ []) worked) "noon" none worked-consistent refl completes refl
      unaddressed refl

done_reached : Reach services new_ledger done
done_reached =
    Reach.step {m = worked} worked_reached
      (Step.complete_step 1 completion (score_epoch 1 ("b" ∷ []) worked) completes)

done-consistent : consistent done ≡ true
done-consistent = Reach-consistent services new_ledger done done_reached new_consistent

-- The posting and the publication.
abbrev done_row : Epoch
done_row = record epoch_7 {
  status = complete;
  report = some noon_report;
  report_digest = some (codes "noon");
}

abbrev out : Ledger
out = record done { epochs = record done_row { status = published } ∷ [] }

accepts_noon : Bytes → Bool
accepts_noon body = body == codes "noon"

posts : post_and_mark_published services accepts_noon 1 done done ≡ ok out
unfolding post_and_mark_published publishable checked_body stored_report stored_digest find_epoch
    mark_published validate_cardinality check_rows build_report score_epoch universe sorted_set
    insert_text shares gated_units is_attested verified_work is_launch_hotkey accepts_noon
posts = refl

post_and_mark_published-Published_example : Published services accepts_noon 1 out
post_and_mark_published-Published_example =
    post_and_mark_published-Published services accepts_noon 1 done done out done-consistent
      Reach.start posts

publishes : mark_published 1 none done ≡ ok out
unfolding mark_published find_epoch build_report
publishes = refl

done_to_out : Reach services done out
done_to_out = Reach.step {m = done} Reach.start (Step.publish_step 1 none publishes)

Reach-Kept_example : Kept 1 done_row out.epochs
unfolding build_report
Reach-Kept_example = Reach-Kept services done out 1 done_row done-consistent done_to_out refl refl

worked_to_done : Reach services worked done
worked_to_done =
    Reach.step {m = worked} Reach.start
      (Step.complete_step 1 completion (score_epoch 1 ("b" ∷ []) worked) completes)

Reach-challenge_at_example : challenge_at work done.challenges ≡ some solved
Reach-challenge_at_example =
    Reach-challenge_at services worked done work solved worked_to_done refl refl

Reach-attestation_example :
    find_first (is_row 1 "a") done.attestations ≡ some (row_of 1 "a" evidence)
Reach-attestation_example =
    Reach-attestation services worked done 1 "a" (row_of 1 "a" evidence) worked_to_done refl

-- The scores: "a" worked, "b" only stands in the list of hotkeys.
abbrev best : Score
best = record { hotkey = "a"; work_units = 5; numerator = 5; denominator = 5 }

abbrev rest_score : Score
rest_score = record { hotkey = "b"; work_units = 0; numerator = 0; denominator = 5 }

scores_of_worked : score_epoch 1 ("b" ∷ []) worked ≡ best ∷ rest_score ∷ []
unfolding score_epoch universe sorted_set insert_text shares gated_units is_attested verified_work
scores_of_worked = refl

best_scored : Member best (score_epoch 1 ("b" ∷ []) worked)
best_scored = subst (Member best) (sym scores_of_worked) (Any.here refl)

score_epoch-Earned_example :
    IsEligible 1 "a" worked
    × IsAllowed 1 "a" worked
    × Earned 1 "a" worked.challenges best.work_units
    × (best.numerator ≡ best.work_units)
score_epoch-Earned_example = score_epoch-Earned 1 ("b" ∷ []) worked best best_scored (omega arith)

score_epoch-IsShare_example : IsShare best
score_epoch-IsShare_example = score_epoch-IsShare 1 ("b" ∷ []) worked best best_scored

score_epoch-local_example : score_epoch 1 ("b" ∷ []) worked ≡ score_epoch 1 ("b" ∷ []) done
score_epoch-local_example = score_epoch-local 1 ("b" ∷ []) worked done refl refl refl

-- A later epoch, above the published one.
abbrev epoch_9 : Epoch
epoch_9 = record epoch_7 { epoch_id = 2; source_epoch = 9 }

abbrev later : Ledger
later = record out { epochs = epoch_9 ∷ out.epochs; next_id = 3 }

begins_9 : begin_epoch (request (pos 9)) out ≡ ok (2, later)
unfolding begin_epoch validate_begin insert_epoch blocking_epoch last_final
begins_9 = refl

later_reached : Reach services new_ledger later
later_reached =
    Reach.step {m = out} (Reach.step {m = done} done_reached (Step.publish_step 1 none publishes))
      (Step.begin_step (request (pos 9)) 2 begins_9)

Reach-Turns_example :
    Turns
      (Label.begins 2 9
        ∷ Label.publishes 1
        ∷ Label.completes 1
        ∷ Label.works
        ∷ Label.works
        ∷ Label.works
        ∷ Label.begins 1 7
        ∷ [])
      (none, idle)
      (some 7, opened 2 9)
unfolding later_reached done_reached worked_reached view last_published blocking_epoch
Reach-Turns_example = Reach-Turns services later later_reached

Reach-final_lt_example : 7 < 9
Reach-final_lt_example =
    Reach-final_lt services later epoch_9 (record done_row { status = published }) later_reached
      (Any.here refl) (Any.there (Any.here refl)) (omega arith) refl

-- The epoch aborted instead.
abbrev dropped : Ledger
dropped = record began { epochs = record epoch_7 { status = aborted } ∷ [] }

aborts : abort_epoch 1 4 began ≡ ok dropped
unfolding abort_epoch abort_running find_epoch give_up_leased
aborts = refl

began-consistent : consistent began ≡ true
unfolding consistent ordered
began-consistent = refl

valid_8 : validate_begin (request (pos 8)) ≡ ok (none, none)
unfolding validate_begin
valid_8 = refl

begin_epoch-abort_epoch_example : begin_epoch (request (pos 8)) dropped ≡ err retry_first
begin_epoch-abort_epoch_example =
    begin_epoch-abort_epoch (request (pos 8)) 1 4 began dropped epoch_7 (none, none)
      began-consistent refl refl refl aborts valid_8

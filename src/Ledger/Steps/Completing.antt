-- ===== src/Ledger/Steps/Completing.antt =====
-- `complete_epoch` of cathedral/ledger.py on consistent tables.
use cathedral_compute.Base.{
  ℕ, ◌≡◌, refl, true, false, not, List, [], ◌∷◌, ◌++◌, map, filter, Option, some, String, ok, all,
  any, nat_beq, nat_beq_iff, arith, raise_if, ◌>>◌, ok->>=, pass->>, find_first, subst, ap, ◌∙◌,
  inl, inr, &&_parts, string_eq, ◌==◌,
}
use cathedral_compute.Base.Int.{ℤ}
use cathedral_compute.Ledger.{
  Ledger, Epoch, Report, Score, ledger_closed, bad_hotkey, anchored_audience, unresolved_challenges,
  authority_expired, integrity_error, has_id, is_running, is_final, find_epoch, epoch_at,
}
use cathedral_compute.Ledger.Scores.{score_epoch}
use cathedral_compute.Ledger.Epochs.Order.{ordered, is_behind, active_head, all-find_first}
use cathedral_compute.Ledger.Completion.{
  Services, CompletionRequest, complete_epoch, freeze_epoch, build_report, validate_cardinality,
  validated_generated_at, score_audience, matches_anchor, is_unresolved, expired, finalized_twin,
  has_score, load_scores, frozen,
}
use cathedral_compute.Ledger.Steps.{consistent, unscored}
use cathedral_compute.Ledger.Steps.Effects.{find_epoch-found}
use cathedral_compute.Ledger.Steps.Freezing.{frozen_tables, complete_epoch-effect}
use cathedral_compute.Ledger.Steps.Posting.{epoch_at-update_first}
use cathedral_compute.Ledger.Steps.Order.{find_own, find_first-holds}
use cathedral_compute.Ledger.Steps.Invariant.{consistent-parts}
use cathedral_compute.Ledger.Steps.Tallies.{row_of_epoch}

none_behind :
    (id : ℕ) (e : Epoch) (es : List Epoch)
    → all (is_behind e) es ≡ true
    → any (finalized_twin id e.source_epoch) es ≡ false
none_behind id e [] h = refl
none_behind id e (x ∷ xs) h = ground (arith, none_behind id e xs)

-- The running epoch has no final twin and no scores.
untwinned :
    (es : List Epoch) (e : Epoch) (id : ℕ)
    → ordered es ≡ true
    → find_first (has_id id) es ≡ some e
    → is_running e.status ≡ true
    → any (finalized_twin id e.source_epoch) es ≡ false
unfolding ordered
untwinned es e id inv found runs =
    let (rest, same, here_id) = active_head (has_id id) es inv found (ground (arith, runs)) in
    let behind =
      (&&_parts (all (is_behind e) rest) _ (subst (λ xs. ordered xs ≡ true) same inv)).0 in
    rw same (ground (arith, none_behind id e rest behind, here_id))

unscored_row :
    (id : ℕ) (rows : List (ℕ × Score)) (s : Score)
    → any (row_of_epoch id) rows ≡ false
    → has_score id rows s ≡ false
unscored_row id [] s h = refl
unscored_row id (row ∷ rows) s h = ground (arith, unscored_row id rows s)

unscored_rows :
    (id : ℕ) (rows : List (ℕ × Score)) (scores : List Score)
    → any (row_of_epoch id) rows ≡ false
    → any (has_score id rows) scores ≡ false
unscored_rows id rows [] h = refl
unscored_rows id rows (s ∷ scores) h = rw (unscored_row id rows s h, unscored_rows id rows scores h)

running_unscored :
    (l : Ledger) (id : ℕ) {e : Epoch}
    → consistent l ≡ true
    → epoch_at id l.epochs ≡ some e
    → is_running e.status ≡ true
    → any (row_of_epoch e.epoch_id) l.scores ≡ false
running_unscored l id {e = e} inv found runs =
    let (in_order, older, (rows_older, fresh)) = consistent-parts l inv in
    let quiet = all-find_first (unscored l.scores) (has_id id) l.epochs fresh found in
    ground (arith, quiet, runs)

-- The scores and the tables that a completion makes of a running epoch.
abbrev pub completed :
    Services
    → Epoch
    → CompletionRequest
    → String
    → Option (String × ℤ)
    → Ledger
    → List Score × Ledger
completed sv e r generated_at audience l =
    let scores = score_epoch e.epoch_id r.all_hotkeys l in
    (scores, frozen_tables sv e scores (build_report e scores generated_at audience l) l)

-- On consistent tables the completion of a running epoch returns, with the epoch's scores and the
-- frozen report, once the request's time and audience are valid and match the anchor, no challenge
-- of the epoch is unresolved, the report is within the launch limits and the authority has not
-- expired: the indexes of the database never refuse it.
pub complete_epoch-returns :
    (sv : Services) (l : Ledger) (id : ℕ) (e : Epoch) (r : CompletionRequest)
    (generated_at : String) (audience : Option (String × ℤ))
    → consistent l ≡ true
    → l.closed ≡ false
    → epoch_at id l.epochs ≡ some e
    → is_running e.status ≡ true
    → validated_generated_at sv r ≡ ok generated_at
    → score_audience r.network r.netuid ≡ ok audience
    → any (λ h. h == "") r.all_hotkeys ≡ false
    → matches_anchor e.anchor audience ≡ true
    → any (is_unresolved e.epoch_id) l.challenges ≡ false
    → (let report =
          build_report e (score_epoch e.epoch_id r.all_hotkeys l) generated_at audience l in
        validate_cardinality (sv.canonical_json report) report ≡ ok tt)
    → expired r.valid_until r.now ≡ false
    → complete_epoch sv id r l ≡ ok (completed sv e r generated_at audience l)
unfolding complete_epoch freeze_epoch
complete_epoch-returns sv l id e r generated_at audience inv is_open found runs timed heard named
      anchored settled fits unexpired =
    let (in_order, older, tallied) = consistent-parts l inv in
    let own = find_own id l.epochs found in
    let fresh =
      unscored_rows e.epoch_id l.scores (score_epoch e.epoch_id r.all_hotkeys l)
        (running_unscored l id inv found runs) in
    let scores = score_epoch e.epoch_id r.all_hotkeys l in
    let report = build_report e scores generated_at audience l in
    let not_final : is_final e.status ≡ false = ground (arith, runs) in
    ok->>= (validated_generated_at sv r) _ timed
    ∙ ok->>= (score_audience r.network r.netuid) _ heard
    ∙ pass->> (any (λ h. h == "") r.all_hotkeys) bad_hotkey _ named
    ∙ pass->> l.closed ledger_closed _ is_open
    ∙ ok->>= (find_epoch id l) _ (find_epoch-found id l found)
    ∙ rw (not_final, runs)
        (pass->> (not (matches_anchor e.anchor audience)) anchored_audience _
            (ground (arith, anchored))
          ∙ pass->> (any (is_unresolved e.epoch_id) l.challenges) unresolved_challenges _ settled
          ∙ ok->>= (validate_cardinality (sv.canonical_json report) report)
              (λ u.
                raise_if (expired r.valid_until r.now) authority_expired
                >> (raise_if (any (finalized_twin e.epoch_id e.source_epoch) l.epochs)
                      integrity_error
                    >> (raise_if (any (has_score e.epoch_id l.scores) scores) integrity_error
                        >> ok (completed sv e r generated_at audience l))))
              fits
          ∙ pass->> (expired r.valid_until r.now) authority_expired _ unexpired
          ∙ pass->> (any (finalized_twin e.epoch_id e.source_epoch) l.epochs) integrity_error _
              (untwinned l.epochs e e.epoch_id in_order own runs)
          ∙ pass->> (any (has_score e.epoch_id l.scores) scores) integrity_error _ fresh)

load_none :
    (id : ℕ) (rows : List (ℕ × Score))
    → any (row_of_epoch id) rows ≡ false
    → filter (row_of_epoch id) rows ≡ []
load_none id [] h = refl
load_none id (row ∷ rows) h = ground (arith, load_none id rows)

-- The rows written for an epoch that had none are those read back.
load_written :
    (id : ℕ) (scores : List Score) (rows : List (ℕ × Score))
    → any (row_of_epoch id) rows ≡ false
    → map (λ row. row.1) (filter (row_of_epoch id) (map (λ s. (id, s)) scores ++ rows)) ≡ scores
load_written id [] rows h = rw (load_none id rows h)
load_written id (s ∷ scores) rows h =
    let own : nat_beq id id ≡ true = ground arith in
    rw own (ap (λ t. s ∷ t) (load_written id scores rows h))

-- A completion that finds the epoch final reads its scores.
complete_final :
    (sv : Services) (id : ℕ) (r : CompletionRequest) (l : Ledger) {generated_at : String}
    {audience : Option (String × ℤ)} {e : Epoch}
    → validated_generated_at sv r ≡ ok generated_at
    → score_audience r.network r.netuid ≡ ok audience
    → any (λ h. h == "") r.all_hotkeys ≡ false
    → l.closed ≡ false
    → epoch_at id l.epochs ≡ some e
    → is_final e.status ≡ true
    → complete_epoch sv id r l ≡ ok (load_scores id l, l)
unfolding complete_epoch
complete_final sv id r l timed heard named is_open found final =
    ok->>= (validated_generated_at sv r) _ timed
    ∙ ok->>= (score_audience r.network r.netuid) _ heard
    ∙ pass->> (any (λ h. h == "") r.all_hotkeys) bad_hotkey _ named
    ∙ pass->> l.closed ledger_closed _ is_open
    ∙ ok->>= (find_epoch id l) _ (find_epoch-found id l found)
    ∙ rw final

frozen_again :
    (sv : Services) (e : Epoch) (report : Report) (scores : List Score) (q : CompletionRequest)
    (l : Ledger) {generated_at : String} {audience : Option (String × ℤ)}
    → consistent l ≡ true
    → epoch_at e.epoch_id l.epochs ≡ some e
    → is_running e.status ≡ true
    → validated_generated_at sv q ≡ ok generated_at
    → score_audience q.network q.netuid ≡ ok audience
    → any (λ h. h == "") q.all_hotkeys ≡ false
    → l.closed ≡ false
    → complete_epoch sv e.epoch_id q (frozen_tables sv e scores report l)
      ≡ ok (scores, frozen_tables sv e scores report l)
frozen_again sv e report scores q l inv found runs timed heard named is_open =
    let tables = frozen_tables sv e scores report l in
    let digest = sv.sha256_hex (sv.canonical_json report) in
    complete_final sv e.epoch_id q tables timed heard named is_open
      (epoch_at-update_first e.epoch_id (frozen report digest) l.epochs found
        (find_first-holds (has_id e.epoch_id) l.epochs found))
      refl
    ∙ ap (λ s. ok (s, tables))
        (load_written e.epoch_id scores l.scores (running_unscored l e.epoch_id inv found runs))

-- A completion that returned on consistent tables of an open ledger returns the same scores when it
-- is called again, with any valid time, audience and hotkeys, and changes nothing.
pub complete_epoch-again :
    (sv : Services) (l m : Ledger) (id : ℕ) (r q : CompletionRequest) (scores : List Score)
    (generated_at : String) (audience : Option (String × ℤ))
    → consistent l ≡ true
    → l.closed ≡ false
    → complete_epoch sv id r l ≡ ok (scores, m)
    → validated_generated_at sv q ≡ ok generated_at
    → score_audience q.network q.netuid ≡ ok audience
    → any (λ h. h == "") q.all_hotkeys ≡ false
    → complete_epoch sv id q m ≡ ok (scores, m)
complete_epoch-again sv l m id r q scores generated_at audience inv is_open h timed heard named =
    let (e, found, outcome) = complete_epoch-effect sv id r l h in
    elim outcome [
      | inl (final, loaded, same) ↦
          subst (λ t. complete_epoch sv id q t ≡ ok (scores, t)) same
            (complete_final sv id q l timed heard named is_open found final
              ∙ ap (λ s. ok (s, l)) loaded)
      | inr (first_time, first_audience, runs, done) ↦
          let same_id =
            (nat_beq_iff e.epoch_id id).0 (find_first-holds (has_id id) l.epochs found) in
          let own = find_own id l.epochs found in
          let again = frozen_again sv e _ _ q l inv own runs timed heard named is_open in
          subst (λ i. complete_epoch sv i q m ≡ ok (scores, m)) same_id
            (subst
                (λ t.
                  complete_epoch sv e.epoch_id q t ≡ ok (score_epoch e.epoch_id r.all_hotkeys l, t))
                done.tables again
              ∙ ap (λ s. ok (s, m)) done.scored)
    ]

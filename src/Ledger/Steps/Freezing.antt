-- ===== src/Ledger/Steps/Freezing.antt =====
-- What `complete_epoch` of cathedral/ledger.py does to the tables when it returns.
use cathedral_compute.Base.{
  ℕ, ◌≡◌, true, false, not, List, ◌++◌, map, Option, some, String, ok, any, arith, raise_if->>,
  >>=-eq-ok, ok-injective, if-eq-ok, ◌⊎◌, find_first, update_first, ap, inl, inr, string_eq, ◌==◌,
}
use cathedral_compute.Base.Int.{ℤ}
use cathedral_compute.Ledger.{
  Ledger, Epoch, Report, Score, ledger_closed, bad_hotkey, anchored_audience, unresolved_challenges,
  authority_expired, integrity_error, cannot_complete, has_id, is_running, is_final, find_epoch,
}
use cathedral_compute.Ledger.Scores.{score_epoch}
use cathedral_compute.Ledger.Completion.{
  Services, CompletionRequest, complete_epoch, freeze_epoch, build_report, validate_cardinality,
  validated_generated_at, score_audience, matches_anchor, is_unresolved, expired, finalized_twin,
  has_score, load_scores, frozen,
}
use cathedral_compute.Ledger.Steps.Effects.{find_epoch-ok}

-- The tables after the report of `e` is frozen.
abbrev pub frozen_tables : Services → Epoch → List Score → Report → Ledger → Ledger
frozen_tables sv e scores report l = record l {
  epochs =
      update_first (has_id e.epoch_id) (frozen report (sv.sha256_hex (sv.canonical_json report)))
        l.epochs;
  scores = map (λ s. (e.epoch_id, s)) scores ++ l.scores;
}

-- What holds when the report of `e` is frozen.
pub record Frozen (sv : Services) (e : Epoch) (r : CompletionRequest) (generated_at : String)
    (audience : Option (String × ℤ)) (l : Ledger) (scores : List Score) (m : Ledger) : Type 0 where
  pub resolved : any (is_unresolved e.epoch_id) l.challenges ≡ false
  pub scored : score_epoch e.epoch_id r.all_hotkeys l ≡ scores
  pub fits :
      validate_cardinality
        (sv.canonical_json
          (build_report e (score_epoch e.epoch_id r.all_hotkeys l) generated_at audience l))
        (build_report e (score_epoch e.epoch_id r.all_hotkeys l) generated_at audience l)
      ≡ ok tt
  pub untwinned : any (finalized_twin e.epoch_id e.source_epoch) l.epochs ≡ false
  pub tables :
      frozen_tables sv e
        (score_epoch e.epoch_id r.all_hotkeys l)
        (build_report e (score_epoch e.epoch_id r.all_hotkeys l) generated_at audience l)
        l
      ≡ m

pub freeze_epoch-effect :
    (sv : Services) (e : Epoch) (r : CompletionRequest) (generated_at : String)
    (audience : Option (String × ℤ)) (l : Ledger) {scores : List Score} {m : Ledger}
    → freeze_epoch sv e r generated_at audience l ≡ ok (scores, m)
    → Frozen sv e r generated_at audience l scores m
unfolding freeze_epoch
freeze_epoch-effect sv e r generated_at audience l h =
    let scores' = score_epoch e.epoch_id r.all_hotkeys l in
    let report' = build_report e scores' generated_at audience l in
    let (a, h1) = raise_if->> (not (matches_anchor e.anchor audience)) anchored_audience _ h in
    let (b, h2) =
      raise_if->> (any (is_unresolved e.epoch_id) l.challenges) unresolved_challenges _ h1 in
    let (u, c, h3) = >>=-eq-ok (validate_cardinality (sv.canonical_json report') report') _ h2 in
    let (d, h4) = raise_if->> (expired r.valid_until r.now) authority_expired _ h3 in
    let (f, h5) =
      raise_if->> (any (finalized_twin e.epoch_id e.source_epoch) l.epochs) integrity_error _ h4 in
    let (g, h6) = raise_if->> (any (has_score e.epoch_id l.scores) scores') integrity_error _ h5 in
    let same = ok-injective h6 in
    record {
      resolved = b;
      scored = ap (λ p. p.0) same;
      fits = c;
      untwinned = f;
      tables = ap (λ p. p.1) same;
    }

pub complete_epoch-effect :
    (sv : Services) (id : ℕ) (r : CompletionRequest) (l : Ledger) {scores : List Score} {m : Ledger}
    → complete_epoch sv id r l ≡ ok (scores, m)
    → (e : Epoch) × (find_first (has_id id) l.epochs ≡ some e)
      × (((is_final e.status ≡ true) × (load_scores id l ≡ scores) × (l ≡ m))
          ⊎ ((generated_at : String) × (audience : Option (String × ℤ)) × (is_running e.status
                ≡ true)
              × Frozen sv e r generated_at audience l scores m))
unfolding complete_epoch
complete_epoch-effect sv id r l h =
    let (generated_at, a, h1) = >>=-eq-ok (validated_generated_at sv r) _ h in
    let (audience, b, h2) = >>=-eq-ok (score_audience r.network r.netuid) _ h1 in
    let (c, h3) = raise_if->> (any (λ k. k == "") r.all_hotkeys) bad_hotkey _ h2 in
    let (d, h4) = raise_if->> l.closed ledger_closed _ h3 in
    let (e, found, h5) = >>=-eq-ok (find_epoch id l) _ h4 in
    elim (if-eq-ok (is_final e.status) _ _ h5) [
      | inl (already, h6) ↦ (
        e,
        find_epoch-ok id l found,
        inl (already, ap (λ p. p.0) (ok-injective h6), ap (λ p. p.1) (ok-injective h6)),
      )
      | inr (other, h6) ↦
          let (runs, h7) = raise_if->> (not (is_running e.status)) cannot_complete _ h6 in
          (
            e,
            find_epoch-ok id l found,
            inr (
              generated_at,
              audience,
              ground (arith, runs),
              freeze_epoch-effect sv e r generated_at audience l h7,
            ),
          )
    ]

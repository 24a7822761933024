-- ===== src/Ledger/Completion.antt =====
-- `complete_epoch`, `abort_epoch` and `_validate_launch_report_cardinality` of cathedral/ledger.py.
-- The canonical JSON of a report, SHA-256 and the reading of a timestamp are parameters. The checks
-- of the report's document read the report itself, which its JSON is read back to.
use cathedral_compute.Base.{
  ℕ, suc, ◌*◌, String, Bool, true, false, not, ◌&&◌, ◌||◌, List, [], ◌∷◌, ◌++◌, Option, none, some,
  leb, ltb, any, filter, map, member, length, nat_beq, string_eq, text_eq, ◌==◌, update_first,
  update_where, if◌then◌else◌, Result, err, ok, ◌>>=◌, ◌>>◌, raise_if,
}
use cathedral_compute.Base.Int.{ℤ, int_eq}
use cathedral_compute.Base.Text.{codes, Bytes}
use cathedral_compute.Ledger.{
  Ledger, Epoch, Challenge, Report, Score, LifecycleRow, Job, LedgerError, complete, aborted,
  ledger_closed, bad_generated_at, bad_report_score, bad_audience, bad_hotkey, cannot_complete,
  cannot_abort, anchored_audience, unresolved_challenges, report_too_large, too_many_candidates,
  bad_report_hotkey, too_many_verified, authority_expired, integrity_error, is_running, is_final,
  is_aborted, is_issued, is_leased, queued, has_id, find_epoch, give_up,
}
use cathedral_compute.Ledger.Audience.{validate_score_audience, is_launch_hotkey}
use cathedral_compute.Ledger.Scores.{score_epoch, text_ltb, sorted_set, in_epoch}

pub record Services : Type 0 where
  pub canonical_json : Report → Bytes
  pub sha256_hex : Bytes → Bytes
  pub is_timestamp : String → Bool

-- `stamp` and `now` are the clock, as a text and in seconds.
pub record CompletionRequest : Type 0 where
  pub all_hotkeys : List String
  pub generated_at : Option String
  pub valid_until : Option ℕ
  pub network : Option String
  pub netuid : Option ℤ
  pub stamp : String
  pub now : ℕ

abbrev pub validated_generated_at : Services → CompletionRequest → Result LedgerError String
validated_generated_at sv r = elim r.generated_at [
  | none ↦ ok r.stamp
  | some value ↦ raise_if (not (sv.is_timestamp value)) bad_generated_at >> ok value
]

unfoldable pub score_audience : Option String → Option ℤ → Result LedgerError (Option (String × ℤ))
unfolding validate_score_audience
score_audience none none = ok none
score_audience (some network) (some netuid) =
    validate_score_audience network netuid >>= λ audience. ok (some audience)
score_audience _ _ = err bad_audience

abbrev pub matches_anchor : Option (String × ℤ) → Option (String × ℤ) → Bool
matches_anchor none audience = true
matches_anchor (some anchor) none = false
matches_anchor (some (network, netuid)) (some (n, u)) = n == network && u == netuid

abbrev pub max_report_bytes : ℕ
max_report_bytes = 1024 * 1024

abbrev pub max_candidates : ℕ
max_candidates = 4096

abbrev pub max_verified : ℕ
max_verified = 28

abbrev pub earns : Score → Bool
earns s = ltb 0 s.numerator

-- The loop over the rows: the hotkeys seen so far, and the number of verified rows at the end.
unfoldable pub check_rows : List Score → List String → Result LedgerError ℕ
check_rows [] seen = ok 0
check_rows (s ∷ rows) seen =
    let rest = check_rows rows (s.hotkey ∷ seen) in
    raise_if (not (is_launch_hotkey s.hotkey) || member s.hotkey seen) bad_report_hotkey
    >> raise_if (not (leb s.numerator s.denominator)) bad_report_score
    >> (rest >>= λ count. ok (if earns s then suc count else count))

unfoldable pub validate_cardinality : Bytes → Report → Result LedgerError (Unit {0})
unfolding check_rows
validate_cardinality body report = do
  raise_if (ltb max_report_bytes (length body)) report_too_large
  raise_if (ltb max_candidates (length report.scores)) too_many_candidates
  count ← check_rows report.scores []
  raise_if (ltb max_verified count) too_many_verified

-- The epoch's lifecycle rows in the order of their hotkeys
insert_row : LifecycleRow → List LifecycleRow → List LifecycleRow
insert_row r [] = r ∷ []
insert_row r (x ∷ xs) =
    let rest = insert_row r xs in
    if text_ltb (codes x.hotkey) (codes r.hotkey) then x ∷ rest else r ∷ x ∷ xs

sort_rows : List LifecycleRow → List LifecycleRow
unfolding insert_row
sort_rows [] = []
sort_rows (r ∷ rs) = insert_row r (sort_rows rs)

abbrev pub earning_hotkey : List Score → LifecycleRow → Bool
earning_hotkey scores r = any (λ s. s.hotkey == r.hotkey && earns s) scores

unfoldable pub build_report : Epoch → List Score → String → Option (String × ℤ) → Ledger → Report
unfolding sort_rows
build_report e scores generated_at audience l = record {
  source_epoch = e.source_epoch;
  generated_at = generated_at;
  policy_modes =
      sorted_set
        (map (λ a. a.policy_mode) (filter (λ a. nat_beq a.epoch_id e.epoch_id) l.attestations));
  registry_release = e.registry_release;
  registry_digest = e.registry_digest;
  worker_lifecycle =
      filter (earning_hotkey scores) (sort_rows (filter (in_epoch e.epoch_id) l.lifecycle));
  scores = scores;
  audience = audience;
}

abbrev pub is_unresolved : ℕ → Challenge → Bool
is_unresolved id c = nat_beq c.epoch_id id && is_issued c.status

-- The index `one_finalized_source_epoch`, against the rows other than this one
abbrev pub finalized_twin : ℕ → ℕ → Epoch → Bool
finalized_twin id source e = not (has_id id e) && is_final e.status && nat_beq e.source_epoch source

-- The primary key of `epoch_scores`
abbrev pub has_score : ℕ → List (ℕ × Score) → Score → Bool
has_score id rows s = any (λ row. nat_beq row.0 id && row.1.hotkey == s.hotkey) rows

abbrev pub expired : Option ℕ → ℕ → Bool
expired none now = false
expired (some limit) now = leb limit now

abbrev pub load_scores : ℕ → Ledger → List Score
load_scores id l = map (λ row. row.1) (filter (λ row. nat_beq row.0 id) l.scores)

abbrev pub frozen : Report → Bytes → Epoch → Epoch
frozen report digest e = record e {
  status = complete;
  report = some report;
  report_digest = some digest;
}

-- The part of the transaction after the status is known to be `running`
unfoldable pub freeze_epoch :
    Services
    → Epoch
    → CompletionRequest
    → String
    → Option (String × ℤ)
    → Ledger
    → Result LedgerError (List Score × Ledger)
unfolding score_epoch build_report validate_cardinality
freeze_epoch sv e r generated_at audience l = do
  raise_if (not (matches_anchor e.anchor audience)) anchored_audience
  raise_if (any (is_unresolved e.epoch_id) l.challenges) unresolved_challenges
  let scores = score_epoch e.epoch_id r.all_hotkeys l
  let report = build_report e scores generated_at audience l
  let body = sv.canonical_json report
  validate_cardinality body report
  raise_if (expired r.valid_until r.now) authority_expired
  raise_if (any (finalized_twin e.epoch_id e.source_epoch) l.epochs) integrity_error
  raise_if (any (has_score e.epoch_id l.scores) scores) integrity_error
  ok (
    scores,
    record l {
      epochs = update_first (has_id e.epoch_id) (frozen report (sv.sha256_hex body)) l.epochs;
      scores = map (λ s. (e.epoch_id, s)) scores ++ l.scores;
    },
  )

unfoldable pub complete_epoch :
    Services → ℕ → CompletionRequest → Ledger → Result LedgerError (List Score × Ledger)
unfolding find_epoch freeze_epoch
complete_epoch sv id r l = do
  generated_at ← validated_generated_at sv r
  audience ← score_audience r.network r.netuid
  raise_if (any (λ h. h == "") r.all_hotkeys) bad_hotkey
  raise_if l.closed ledger_closed
  e ← find_epoch id l
  if is_final e.status
      then ok (load_scores id l, l)
      else raise_if (not (is_running e.status)) cannot_complete
        >> freeze_epoch sv e r generated_at audience l

-- `lease_epoch_id = ?` among the leased jobs
abbrev pub leased_in : ℕ → Job → Bool
leased_in id j =
    is_leased j.status && (elim j.lease [ none ↦ false | some lease ↦ nat_beq lease.epoch_id id ])

abbrev pub release_job : ℕ → List ℕ → Job → Job
release_job now message j = record j {
  status = queued;
  available_at = now;
  lease = none;
  last_error = some message;
}

-- The challenge of each leased job is given up.
unfoldable pub give_up_leased : List Job → List Challenge → List Challenge
give_up_leased [] cs = cs
give_up_leased (j ∷ js) cs =
    give_up_leased js
      (elim j.lease [ none ↦ cs | some lease ↦ map (give_up lease.challenge_id) cs ])

unfoldable pub abort_running : ℕ → ℕ → Ledger → Ledger
unfolding give_up_leased
abort_running id now l = record l {
  challenges = give_up_leased (filter (leased_in id) l.jobs) l.challenges;
  jobs = update_where (leased_in id) (release_job now (codes "customer job epoch aborted")) l.jobs;
  epochs = update_first (has_id id) (λ e. record e { status = aborted }) l.epochs;
}

unfoldable pub abort_epoch : ℕ → ℕ → Ledger → Result LedgerError Ledger
unfolding find_epoch abort_running
abort_epoch id now l = do
  raise_if l.closed ledger_closed
  e ← find_epoch id l
  if is_aborted e.status
      then ok l
      else raise_if (not (is_running e.status)) cannot_abort >> ok (abort_running id now l)

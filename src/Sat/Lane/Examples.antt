-- ===== src/Sat/Lane/Examples.antt =====
-- One life of a lane: a customer job is dispatched, verified, sent again and scored.
use cathedral_compute.Base.{
  ◌≡◌, ◌≤◌, ◌↔◌, refl, ap, text_eq, true, List, [], ◌∷◌, ◌++◌, Option, none, some, arith, take,
  replicate, ok, eq_iff,
}
use cathedral_compute.Base.Int.{ℤ, pos, negsuc}
use cathedral_compute.Base.Text.{hex}
use cathedral_compute.Base.Json.{dumps}
use cathedral_compute.Sat.Instance.{validate_sat_instance}
use cathedral_compute.Base.Dict.{get}
use cathedral_compute.Sat.Examples.{two_clauses, two_clauses-IsValid, first_draws}
use cathedral_compute.Sat.Certificate.{check_assignment}
use cathedral_compute.Sat.Certificate.Sound.{valuation_of}
use cathedral_compute.Sat.Solver.Semantics.{satisfies}
use cathedral_compute.Sat.WorkItem.{
  SatWorkItem, SatCertificate, Hashes, compute_challenge_id, validate_sat_work_item,
  derived_work_units,
}
use cathedral_compute.Sat.WorkItem.Laws.{IsValidItem, validate_item_iff}
use cathedral_compute.Sat.Lane.{SatLane, new_lane, dispatch, verify}
use cathedral_compute.Sat.Lane.Verify.{
  IsAccounted, IsCredited, verify-accepts, verify_sound, credited, with_credit,
}
use cathedral_compute.Sat.Lane.Reach.{here, next, dispatched, IsSound, Reach-IsSound, credited_once}
use cathedral_compute.Sat.Lane.Score.{sum_scores, total_credits, sum_scores-le-total_credits}

-- Stand-ins for SHA-256 and its HMAC.
abbrev constant_hashes : Hashes
constant_hashes = record {
  sha256 = λ bytes. replicate 32 0x11;
  hmac_sha256 = λ key bytes. take 32 (key ++ bytes ++ replicate 32 0);
}

abbrev job : SatWorkItem
job = record { instance' = two_clauses; seed = pos 9; challenge_id = replicate 64 b'1' }

job_valid : validate_sat_work_item constant_hashes job ≡ ok tt
unfolding validate_sat_work_item compute_challenge_id hex dumps validate_sat_instance
job_valid = refl

validate_item_iff_example :
    (validate_sat_work_item constant_hashes job ≡ ok tt) ↔ IsValidItem constant_hashes job
validate_item_iff_example = validate_item_iff constant_hashes job

-- The lane after the job is dispatched to a miner.
abbrev lane : SatLane
lane = record (new_lane "epoch-1") {
  issued_ids = job.challenge_id ∷ [];
  customer_ids = job.challenge_id ∷ [];
  challenge_owner = (job.challenge_id, "miner-a") ∷ [];
  verified_credits = [];
  queue = [];
}

abbrev answer : SatCertificate
answer = record {
  satisfiable = true;
  assignment = some (pos 1 ∷ pos 2 ∷ negsuc 2 ∷ []);
  work_units = 1_000_000;
  challenge_id = job.challenge_id;
  assigned_hotkey = "miner-a";
}

answer-IsAccounted : IsAccounted lane job answer
unfolding get
answer-IsAccounted = record {
  same_challenge = refl;
  issued = refl;
  uncredited = refl;
  named = λ e. ground (arith, eq_iff "miner-a" "");
  owned = refl;
}

accepts_answer :
    verify first_draws job answer lane
    ≡ (some (credited first_draws job answer), with_credit first_draws job answer lane)
unfolding check_assignment
accepts_answer = verify-accepts first_draws job answer lane answer-IsAccounted refl refl refl

-- The claimed units are not the units of the answer.
verify_sound_example :
    IsAccounted lane job answer
    × ((credited first_draws job answer).work_units ≡ derived_work_units first_draws job)
    × IsCredited first_draws job answer lane
    × ((a : List ℤ) × (answer.assignment ≡ some a)
        × (satisfies (valuation_of a) job.instance'.clauses ≡ true))
verify_sound_example =
    verify_sound first_draws job answer lane two_clauses-IsValid
      (ap (λ (r : Option SatCertificate × SatLane). r.0) accepts_answer)

Reach-IsSound_example :
    IsSound (dispatch constant_hashes first_draws "miner-a" (new_lane "epoch-1")).1
Reach-IsSound_example =
    Reach-IsSound constant_hashes first_draws "epoch-1" (next here (dispatched "miner-a" refl))

credited_once_example :
    ((verify first_draws job answer (with_credit first_draws job answer lane)).0 ≡ none)
    × (get answer.challenge_id (with_credit first_draws job answer lane).verified_credits
        ≡ some (derived_work_units first_draws job))
credited_once_example =
    credited_once constant_hashes first_draws job job answer answer lane
      (ap (λ (r : Option SatCertificate × SatLane). r.0) accepts_answer) (rw accepts_answer here)
      refl

sum_scores-le-total_credits_example :
    sum_scores
      (with_credit first_draws job answer lane)
      (("miner-a", answer ∷ answer ∷ []) ∷ ("miner-b", answer ∷ []) ∷ [])
    ≤ total_credits (with_credit first_draws job answer lane).verified_credits
sum_scores-le-total_credits_example =
    sum_scores-le-total_credits (with_credit first_draws job answer lane)
      (("miner-a", answer ∷ answer ∷ []) ∷ ("miner-b", answer ∷ []) ∷ []) (refl, (refl, tt))

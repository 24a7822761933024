-- ===== src/Sat/Lane.antt =====
-- `SatLane` of cathedral/lanes/sat.py. Its sets and dicts are association lists; the methods
-- return the lane that they leave. The GPU tier of `qualify` asks cathedral/gpu.py, whose answer
-- is an argument.
pub mod Verify
pub mod Reach
pub mod Score
mod Examples
use cathedral_compute.Base.{
  ℕ, suc, ◌+◌, ◌∷◌, [], ◌++◌, List, String, Bool, true, false, not, ◌&&◌, ◌||◌, Option, none, some,
  member, ◌==◌, text_eq, string_eq, if◌then◌else◌, Result, ok, err,
}
use cathedral_compute.Base.Int.{ℤ}
use cathedral_compute.Sat.Instance.{SatInstance, SatError}
use cathedral_compute.Sat.Certificate.{check_assignment}
use cathedral_compute.Sat.Canonical.{Random, canonical_instance}
use cathedral_compute.Sat.WorkItem.{
  SatWorkItem, SatCertificate, Hashes, compute_challenge_id, derive_canonical_seed,
  derived_work_units, validate_sat_work_item,
}
use cathedral_compute.Base.Dict.{Dict, get, put}

-- `Tier` of cathedral/common.py
pub data Tier : Type 0 where
  cc_cpu_snp cc_cpu_tdx cc_gpu : Tier

unfoldable pub qualify : (gpu_score_eligible : Bool) → Tier → Bool
qualify eligible cc_cpu_snp = true
qualify eligible cc_cpu_tdx = true
qualify eligible cc_gpu = eligible

abbrev pub ChallengeId : Type 0
ChallengeId = List ℕ

pub record SatLane : Type 0 where
  pub queue : List SatWorkItem
  pub namespace : String
  pub seed_counter : ℕ
  pub issued_ids : List ChallengeId
  pub customer_ids : List ChallengeId
  pub challenge_owner : Dict ChallengeId String
  pub verified_credits : Dict ChallengeId ℕ

-- `__init__` with a namespace; the random default is such a namespace.
unfoldable pub new_lane : String → SatLane
new_lane namespace = record {
  queue = [];
  namespace = namespace;
  seed_counter = 0;
  issued_ids = [];
  customer_ids = [];
  challenge_owner = [];
  verified_credits = [];
}

-- The last two lines of `dispatch`, on both of its paths.
issue : ChallengeId → String → SatLane → SatLane
issue id miner lane = record lane {
  issued_ids = id ∷ lane.issued_ids;
  challenge_owner = put id miner lane.challenge_owner;
}

module _ (hashes : Hashes) (rng : Random) where
  -- A refused item raises and leaves the lane as it was.
  unfoldable pub enqueue : SatWorkItem → SatLane → Result SatError SatLane
  enqueue item lane = elim (validate_sat_work_item hashes item) [
    | err e ↦ err e
    | ok u ↦ ok (record lane {
      customer_ids = item.challenge_id ∷ lane.customer_ids;
      queue = lane.queue ++ item ∷ [];
    })
  ]

  -- Backfill: the next canonical item of the lane.
  unfoldable pub canonical_item : SatLane → SatWorkItem
  canonical_item lane =
      let seed = derive_canonical_seed hashes lane.namespace lane.seed_counter in
      let i = canonical_instance rng seed in
      record { instance' = i; seed = seed; challenge_id = compute_challenge_id hashes i seed }

  dispatch_from : List SatWorkItem → String → SatLane → SatWorkItem × SatLane
  unfolding issue
  dispatch_from (item ∷ rest) miner lane =
      (item, issue item.challenge_id miner (record lane { queue = rest }))
  dispatch_from [] miner lane =
      let item = canonical_item lane in
      (item, issue item.challenge_id miner (record lane { seed_counter = lane.seed_counter + 1 }))

  unfoldable pub dispatch : String → SatLane → SatWorkItem × SatLane
  unfolding dispatch_from
  dispatch miner lane = dispatch_from lane.queue miner lane

abbrev pub is_owner : Option String → String → Bool
is_owner none hotkey = false
is_owner (some owner) hotkey = hotkey == owner

abbrev pub is_some {ℓ} : {A : Type ℓ} → Option A → Bool
is_some none = false
is_some (some a) = true

-- The challenge accounting at the head of `verify`.
accounted : SatLane → SatWorkItem → SatCertificate → Bool
accounted lane item result =
    result.challenge_id == item.challenge_id
    && member result.challenge_id lane.issued_ids
    && not (is_some (get result.challenge_id lane.verified_credits))
    && not (result.assigned_hotkey == "")
    && is_owner (get result.challenge_id lane.challenge_owner) result.assigned_hotkey

-- The test of a claimed assignment; an unsatisfiable claim is rejected.
accepts_assignment : SatInstance → SatCertificate → Bool
accepts_assignment i result = elim result.assignment [
  | none ↦ false
  | some assignment ↦ result.satisfiable && check_assignment i assignment
]

-- `derived_work_units` is a finite nonnegative number, so the test of that never fails.
unfoldable pub verify :
    Random → SatWorkItem → SatCertificate → SatLane → Option SatCertificate × SatLane
unfolding accounted accepts_assignment
verify rng item result lane =
    let units = derived_work_units rng item in
    if accounted lane item result && accepts_assignment item.instance' result
    then (
      some (record {
        satisfiable = true;
        assignment = result.assignment;
        work_units = units;
        challenge_id = result.challenge_id;
        assigned_hotkey = result.assigned_hotkey;
      }),
      record lane { verified_credits = put result.challenge_id units lane.verified_credits },
    )
    else (none, lane)

-- One certificate of the loop of `score`: what it adds, if anything.
earned : SatLane → String → List ChallengeId → ChallengeId → Option ℕ
earned lane miner seen id =
    if member id seen || not (is_owner (get id lane.challenge_owner) miner)
    then none
    else get id lane.verified_credits

score_from : SatLane → String → List ChallengeId → List SatCertificate → ℕ
unfolding earned
score_from lane miner seen [] = 0
score_from lane miner seen (c ∷ certs) = elim (earned lane miner seen c.challenge_id) [
  | none ↦ score_from lane miner seen certs
  | some units ↦ units + score_from lane miner (c.challenge_id ∷ seen) certs
]

unfoldable pub score : SatLane → String → List SatCertificate → ℕ
unfolding score_from
score lane miner certs = score_from lane miner [] certs

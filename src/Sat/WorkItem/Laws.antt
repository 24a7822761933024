-- ===== src/Sat/WorkItem/Laws.antt =====
-- What `validate_sat_work_item` admits.
use cathedral_compute.Base.{ℕ, ◌≤◌, ◌≡◌, ◌↔◌, true, arith, length, ok, text_eq, text_beq_iff}
use cathedral_compute.Base.Int.{◌≤ℤ◌}
use cathedral_compute.Base.Text.{is_hex_text}
use cathedral_compute.Base.Json.{dumps, compact}
use cathedral_compute.Sat.Instance.Laws.{IsValid, validate_sound, validate_complete}
use cathedral_compute.Sat.WorkItem.{
  SatWorkItem, Hashes, compute_challenge_id, min_seed, max_seed, max_customer_work_bytes,
  request_body, validate_sat_work_item,
}

-- The encoded request, with a hotkey of 256 characters.
pub request_size : SatWorkItem → ℕ
request_size item = length (dumps compact (request_body item))

pub record IsValidItem (hashes : Hashes) (item : SatWorkItem) : Type 0 where
  pub hex_id : is_hex_text 64 item.challenge_id ≡ true
  pub seed_low : min_seed ≤ℤ item.seed
  pub seed_high : item.seed ≤ℤ max_seed
  pub valid_instance : IsValid item.instance'
  pub own_id : compute_challenge_id hashes item.instance' item.seed ≡ item.challenge_id
  pub fits : request_size item ≤ max_customer_work_bytes

module _ (hashes : Hashes) (item : SatWorkItem) where
  validate_item_sound : validate_sat_work_item hashes item ≡ ok tt → IsValidItem hashes item
  unfolding validate_sat_work_item request_size
  validate_item_sound h = record {
    hex_id = ground arith;
    seed_low = ground arith;
    seed_high = ground arith;
    valid_instance = validate_sound item.instance' (ground arith);
    own_id = ground (
      arith,
      text_beq_iff (compute_challenge_id hashes item.instance' item.seed) item.challenge_id,
    );
    fits = ground arith;
  }

  validate_item_complete : IsValidItem hashes item → validate_sat_work_item hashes item ≡ ok tt
  unfolding validate_sat_work_item request_size
  validate_item_complete v = ground (
    arith,
    validate_complete item.instance' v.valid_instance,
    text_beq_iff (compute_challenge_id hashes item.instance' item.seed) item.challenge_id,
  )

  -- A work item is admitted exactly when its id is 64 hexadecimal digits and is the digest of its
  -- own instance and seed, the seed fits 64 signed bits, the instance is within its bounds, and
  -- the request that carries it has at most 61440 bytes.
  pub validate_item_iff : (validate_sat_work_item hashes item ≡ ok tt) ↔ IsValidItem hashes item
  validate_item_iff = (validate_item_sound, validate_item_complete)

-- ===== src/Sat/WorkItem.antt =====
-- `SatWorkItem` and `SatCertificate` of cathedral/lanes/sat_types.py, and the challenge id, the
-- work-unit rule, the seed derivation and `validate_sat_work_item` of cathedral/lanes/sat.py.
-- hashlib and hmac are parameters: `sha256` and `hmac_sha256` on bytes.
pub mod Laws
use cathedral_compute.Base.{
  ℕ, suc, ◌+◌, ◌*◌, ◌-◌, ◌%◌, ◌^◌, String, Bool, true, false, not, ◌&&◌, ◌||◌, List, [], ◌∷◌,
  Option, ltb, leb, length, take, replicate, if◌then◌else◌, Result, ok, ◌>>=◌, ◌>>◌, raise_if, ◌==◌,
  text_eq,
}
use cathedral_compute.Base.Int.{ℤ, pos, negsuc, leb_ℤ, int_eq, int_beq}
use cathedral_compute.Base.Text.{codes, utf8, decimal, is_hex_text, hex, from_bytes_big, Bytes}
use cathedral_compute.Base.Json.{
  Json, num, text, list, object, nil, cons, Items, end, field, dumps, compact, spaced,
}
use cathedral_compute.Sat.Instance.{
  Clause, SatInstance, SatError, invalid_challenge_id, invalid_seed, challenge_id_mismatch,
  exceeds_request_size, validate_sat_instance,
}
use cathedral_compute.Sat.Canonical.{Random, canonical_instance}

-- A challenge id is 64 hexadecimal digits, kept as code points.
pub record SatWorkItem : Type 0 where
  pub instance' : SatInstance
  pub seed : ℤ
  pub challenge_id : List ℕ

-- `work_units` is the miner's claim until `verify` replaces it.
pub record SatCertificate : Type 0 where
  pub satisfiable : Bool
  pub assignment : Option (List ℤ)
  pub work_units : ℕ
  pub challenge_id : List ℕ
  pub assigned_hotkey : String

abbrev pub customer_sat_work_units : ℕ
customer_sat_work_units = 20

abbrev pub max_customer_work_bytes : ℕ
max_customer_work_bytes = 60 * 1024

json_literals : Clause → Items
json_literals [] = nil
json_literals (l ∷ c) = cons (num l) (json_literals c)

unfoldable pub json_clauses : List Clause → Items
unfolding json_literals
json_clauses [] = nil
json_clauses (c ∷ cs) = cons (list (json_literals c)) (json_clauses cs)

-- The payload of the digest, its keys in order.
challenge_payload : SatInstance → ℤ → Json
unfolding json_clauses
challenge_payload i seed = object (
    field "clauses" (list (json_clauses i.clauses))
      (field "n_vars" (num i.n_vars) (field "seed" (num seed) end)))

-- The request body whose size is bounded, with the longest hotkey.
request_body : SatWorkItem → Json
unfolding json_clauses
request_body item = object (
    field "assigned_hotkey" (text (replicate 256 b'x')) (
      field "challenge_id" (text item.challenge_id) (
        field "instance"
          (object (
            field "clauses" (list (json_clauses item.instance'.clauses))
              (field "n_vars" (num item.instance'.n_vars) end)))
          (field "seed" (num item.seed) end))))

unfoldable pub same_clause : Clause → Clause → Bool
same_clause [] [] = true
same_clause (l ∷ c) (m ∷ d) = int_beq l m && same_clause c d
same_clause _ _ = false

unfoldable pub same_clauses : List Clause → List Clause → Bool
same_clauses [] [] = true
same_clauses (c ∷ cs) (d ∷ ds) = same_clause c d && same_clauses cs ds
same_clauses _ _ = false

-- `SatInstance.__eq__` of the frozen dataclass.
unfoldable pub same_instance : SatInstance → SatInstance → Bool
unfolding same_clause same_clauses
same_instance i j = int_beq i.n_vars j.n_vars && same_clauses i.clauses j.clauses

pub record Hashes : Type 0 where
  pub sha256 : Bytes → Bytes
  pub hmac_sha256 : Bytes → Bytes → Bytes

-- `_compute_challenge_id`
unfoldable pub compute_challenge_id : Hashes → SatInstance → ℤ → List ℕ
unfolding challenge_payload
compute_challenge_id hashes i seed = hex (hashes.sha256 (dumps spaced (challenge_payload i seed)))

-- `_derive_canonical_seed`: the first 64 bits of the HMAC, masked to 63.
unfoldable pub derive_canonical_seed : Hashes → String → ℕ → ℤ
derive_canonical_seed hashes namespace counter =
    pos (from_bytes_big 0 (take 8 (hashes.hmac_sha256 (utf8 namespace) (decimal counter))) % 2 ^ 63)

-- `derived_work_units`; the floats are whole numbers below 2^53.
unfoldable pub derived_work_units : Random → SatWorkItem → ℕ
derived_work_units rng item =
    if same_instance item.instance' (canonical_instance rng item.seed)
    then length item.instance'.clauses
    else customer_sat_work_units

pub min_seed : ℤ
min_seed = negsuc (2 ^ 63 - 1)

pub max_seed : ℤ
max_seed = pos (2 ^ 63 - 1)

unfoldable pub validate_sat_work_item : Hashes → SatWorkItem → Result SatError (Unit {0})
unfolding request_body min_seed max_seed
validate_sat_work_item hashes item = do
  raise_if (not (is_hex_text 64 item.challenge_id)) invalid_challenge_id
  raise_if (not (leb_ℤ min_seed item.seed && leb_ℤ item.seed max_seed)) invalid_seed
  validate_sat_instance item.instance'
  raise_if (not (compute_challenge_id hashes item.instance' item.seed == item.challenge_id))
      challenge_id_mismatch
  raise_if (ltb max_customer_work_bytes (length (dumps compact (request_body item))))
      exceeds_request_size

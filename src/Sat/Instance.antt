-- ===== src/Sat/Instance.antt =====
-- `SatInstance` of cathedral/lanes/sat_types.py and `validate_sat_instance` of
-- cathedral/lanes/sat.py. A literal is a signed integer, and so is `n_vars`, which comes from
-- decoded JSON. The `isinstance` tests hold of every value of these types.
pub mod Laws
use cathedral_compute.Base.{
  ℕ, ◌+◌, Bool, true, false, not, ◌&&◌, ◌||◌, List, [], ◌∷◌, leb, ltb, length, any, ◌==◌, Result,
  ok, ◌>>=◌, ◌>>◌, raise_if,
}
use cathedral_compute.Base.Int.{ℤ, pos, leb_ℤ, abs, int_eq}

abbrev pub Clause : Type 0
Clause = List ℤ

pub record SatInstance : Type 0 where
  pub n_vars : ℤ
  pub clauses : List Clause

abbrev pub max_n_vars : ℕ
max_n_vars = 512

abbrev pub max_clauses : ℕ
max_clauses = 8192

abbrev pub max_literals : ℕ
max_literals = 65536

abbrev pub max_literals_per_clause : ℕ
max_literals_per_clause = 1024

-- The messages of the `ValueError`s.
pub data SatError : Type 0 where
  invalid_n_vars invalid_clauses invalid_clause exceeds_literal_limit invalid_literal : SatError
  invalid_challenge_id invalid_seed challenge_id_mismatch exceeds_request_size : SatError

-- `literal == 0 or abs(literal) > n_vars`
is_bad_literal : ℤ → ℤ → Bool
is_bad_literal n_vars literal = literal == pos 0 || not (leb_ℤ (pos (abs literal)) n_vars)

-- The loop over the clauses; `literal_count` is the running total.
validate_clauses : ℤ → ℕ → List Clause → Result SatError (Unit {0})
validate_clauses n_vars literal_count [] = ok tt
validate_clauses n_vars literal_count (clause ∷ rest) = do
  raise_if (ltb max_literals_per_clause (length clause)) invalid_clause
  let total = literal_count + length clause
  raise_if (ltb max_literals total) exceeds_literal_limit
  raise_if (any (is_bad_literal n_vars) clause) invalid_literal
  validate_clauses n_vars total rest

abbrev is_empty : List Clause → Bool
is_empty [] = true
is_empty (c ∷ cs) = false

unfoldable pub validate_sat_instance : SatInstance → Result SatError (Unit {0})
unfolding validate_clauses is_bad_literal
validate_sat_instance instance' = do
  raise_if (not (leb_ℤ (pos 1) n_vars && leb_ℤ n_vars (pos max_n_vars))) invalid_n_vars
  raise_if (is_empty clauses || ltb max_clauses (length clauses)) invalid_clauses
  validate_clauses n_vars 0 clauses
  where
    open instance' use {n_vars, clauses}

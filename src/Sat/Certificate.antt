-- ===== src/Sat/Certificate.antt =====
-- The check of an assignment that `SatLane.verify` of cathedral/lanes/sat.py and
-- `verify_work_artifacts` of cathedral/workproof.py make: the right length, every variable exactly
-- once, and a true literal in every clause.
pub mod Sound
pub mod Complete
use cathedral_compute.Base.{
  ℕ, Bool, true, false, ◌&&◌, List, [], ◌∷◌, map, length, all, any, member, ◌==◌, nat_eq,
}
use cathedral_compute.Base.Int.{ℤ, pos, abs, int_eq}
use cathedral_compute.Sat.Instance.{Clause, SatInstance}
use cathedral_compute.Sat.Solver.{variables}

-- `{abs(lit) for lit in assignment} == set(range(1, n_vars + 1))`
unfoldable pub covers_variables : SatInstance → List ℤ → Bool
covers_variables i assignment =
    all (λ lit. member (abs lit) (variables i)) assignment
    && all (λ var. member var (map abs assignment)) (variables i)

-- `any(lit in true_lits for lit in clause)`, for every clause
unfoldable pub satisfies_clauses : List ℤ → List Clause → Bool
satisfies_clauses true_lits clauses = all (any (λ lit. member lit true_lits)) clauses

unfoldable pub check_assignment : SatInstance → List ℤ → Bool
unfolding covers_variables satisfies_clauses
check_assignment i assignment =
    pos (length assignment) == i.n_vars
    && covers_variables i assignment
    && satisfies_clauses assignment i.clauses

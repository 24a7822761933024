-- ===== src/Sat/Examples.antt =====
-- Runs of the SAT lane on small inputs, and the theorems applied to them.
use cathedral_compute.Base.{
  ℕ, zero, suc, ◌+◌, ◌≡◌, ◌≤◌, ◌↔◌, ◌⊎◌, refl, true, false, List, [], ◌∷◌, arith, length, ok, All,
  here,
}
use cathedral_compute.Base.Int.{ℤ, pos, negsuc}
use cathedral_compute.Sat.Instance.{SatInstance, validate_sat_instance}
use cathedral_compute.Sat.Instance.Laws.{IsValid, validate_iff}
use cathedral_compute.Sat.Solver.{done, conflict, solve_sat, range_from}
use cathedral_compute.Sat.Solver.Semantics.{Valuation, satisfies}
use cathedral_compute.Sat.Solver.Decision.{solver_fuel, solve_decides}
use cathedral_compute.Sat.Certificate.{check_assignment}
use cathedral_compute.Sat.Certificate.Sound.{check_sound, valuation_of}
use cathedral_compute.Sat.Canonical.{Random, canonical_instance}
use cathedral_compute.Sat.Canonical.Satisfiable.{
  canonical-IsValid_satisfiable, solve-canonical_instance,
}

abbrev pub two_clauses : SatInstance
two_clauses = record {
  n_vars = pos 3;
  clauses = (negsuc 0 ∷ pos 2 ∷ []) ∷ (pos 1 ∷ []) ∷ (negsuc 1 ∷ negsuc 2 ∷ []) ∷ [];
}

abbrev contradiction : SatInstance
contradiction = record {
  n_vars = pos 2;
  clauses =
      (pos 1 ∷ pos 2 ∷ [])
      ∷ (pos 1 ∷ negsuc 1 ∷ [])
      ∷ (negsuc 0 ∷ pos 2 ∷ [])
      ∷ (negsuc 0 ∷ negsuc 1 ∷ [])
      ∷ [];
}

solve_two_clauses : solve_sat 4 two_clauses ≡ done (pos 1 ∷ pos 2 ∷ negsuc 2 ∷ [])
unfolding solve_sat
solve_two_clauses = refl

solve_contradiction : solve_sat 3 contradiction ≡ conflict
unfolding solve_sat
solve_contradiction = refl

pub two_clauses-IsValid : IsValid two_clauses
two_clauses-IsValid = omega arith

contradiction-IsValid : IsValid contradiction
contradiction-IsValid = omega arith

validate_iff_example : (validate_sat_instance two_clauses ≡ ok tt) ↔ IsValid two_clauses
validate_iff_example = validate_iff two_clauses

solve_decides_example :
    ((ls : List ℤ) × (solve_sat (solver_fuel contradiction) contradiction ≡ done ls)
      × (check_assignment contradiction ls ≡ true))
    ⊎ ((solve_sat (solver_fuel contradiction) contradiction ≡ conflict)
        × ((σ : Valuation) → satisfies σ contradiction.clauses ≡ false))
solve_decides_example = solve_decides contradiction contradiction-IsValid

check_sound_example :
    satisfies (valuation_of (pos 1 ∷ pos 2 ∷ negsuc 2 ∷ [])) two_clauses.clauses ≡ true
unfolding check_assignment
check_sound_example =
    check_sound two_clauses (pos 1 ∷ pos 2 ∷ negsuc 2 ∷ []) two_clauses-IsValid refl

-- Both signs of a variable, and a variable left out.
contradictory_certificate : check_assignment two_clauses (pos 1 ∷ negsuc 0 ∷ pos 2 ∷ []) ≡ false
unfolding check_assignment
contradictory_certificate = refl

-- A generator that always draws the first possibility.
unfoldable pub first_sample : ℕ → ℕ → ℕ → List ℕ × ℕ
first_sample n k s = (range_from 1 k, s)

unfoldable pub first_choice : List ℕ → ℕ → ℕ × ℕ
first_choice [] s = (0, s)
first_choice (x ∷ xs) s = (x, s)

pub length-range : (start k : ℕ) → length (range_from start k) ≡ k
length-range start zero = refl
length-range start (suc k) = omega (arith, length-range (suc start) k)

pub range_bounds :
    (start k n : ℕ)
    → 1 ≤ start
    → start + k ≤ suc n
    → All (λ v. (1 ≤ v) × (v ≤ n)) (range_from start k)
range_bounds start zero n p q = tt
range_bounds start (suc k) n p q =
    ((omega arith, omega arith), range_bounds (suc start) k n (omega arith) (omega arith))

abbrev pub first_draws : Random
unfolding first_sample first_choice
first_draws = record {
  State = ℕ;
  seeded = λ seed. 0;
  coin = λ s. (true, s);
  sample = first_sample;
  choice = first_choice;
  length-sample = λ n k s h. length-range 1 k;
  sample_range = λ n k s h. range_bounds 1 k n (omega arith) (omega arith);
  choice_member = λ x xs s. here refl;
}

canonical-IsValid_satisfiable_example :
    IsValid (canonical_instance first_draws (pos 7))
    × ((σ : Valuation) × (satisfies σ (canonical_instance first_draws (pos 7)).clauses ≡ true))
canonical-IsValid_satisfiable_example = canonical-IsValid_satisfiable first_draws (pos 7)

solve-canonical_instance_example :
    let i = canonical_instance first_draws (pos 7) in
    (ls : List ℤ) × (solve_sat (solver_fuel i) i ≡ done ls) × (check_assignment i ls ≡ true)
solve-canonical_instance_example = solve-canonical_instance first_draws (pos 7)

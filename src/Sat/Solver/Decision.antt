-- ===== src/Sat/Solver/Decision.antt =====
-- `solve_sat` decides satisfiability of the valid instances.
use mathlib.Core.Path.{fun_ext}
use cathedral_compute.Base.{
  ℕ, suc, ◌≡◌, refl, inl, inr, ◌⊎◌, true, false, List, [], ◌∷◌, map, arith, All, Bool-cases,
  Option-cases,
}
use cathedral_compute.Base.Int.{ℤ, abs, pos_part}
use cathedral_compute.Sat.Instance.{Clause, SatInstance}
use cathedral_compute.Sat.Instance.Laws.{IsLiteral, IsClause, IsValid}
use cathedral_compute.Sat.Solver.{
  Assignment, value_of, exhausted, conflict, done, backtrack, signed_literal, variables, solve_sat,
}
use cathedral_compute.Sat.Solver.Completeness.{Outcome-cases, backtrack-ne-conflict}
use cathedral_compute.Sat.Solver.Semantics.{Valuation, satisfies, Extends-nil}
use cathedral_compute.Sat.Solver.Termination.{VarsIn, InRange, free_count-nil}
use cathedral_compute.Sat.Solver.Fuel.{backtrack-ne-exhausted}
use cathedral_compute.Sat.Solver.Witness.{completion, satisfies-completion, backtrack-all_satisfied}
use cathedral_compute.Sat.Certificate.{check_assignment}
use cathedral_compute.Sat.Certificate.Complete.{literal_of, check_complete}

-- One round more than there are variables.
abbrev pub solver_fuel : SatInstance → ℕ
solver_fuel i = suc (pos_part i.n_vars)

signed_literal-eq : (a : Assignment) (v : ℕ) → signed_literal a v ≡ literal_of (completion a) v
unfolding signed_literal
signed_literal-eq a v = elim (Option-cases (value_of v a)) [
  | inl e ↦ ground arith
  | inr (b, e) ↦ ground arith
]

literals-InRange :
    (n : ℤ) (c : Clause) → All (IsLiteral n) c → All (λ l. InRange 1 (pos_part n) (abs l)) c
literals-InRange n [] h = tt
literals-InRange n (l ∷ c) h = ((omega arith, omega arith), literals-InRange n c h.1)

VarsIn-well_formed : (n : ℤ) (cs : List Clause) → All (IsClause n) cs → VarsIn (pos_part n) cs
VarsIn-well_formed n [] h = tt
VarsIn-well_formed n (c ∷ cs) h = (literals-InRange n c h.0.1, VarsIn-well_formed n cs h.1)

module _ (i : SatInstance) (valid : IsValid i) where
  search-ne-exhausted : backtrack (solver_fuel i) (solver_fuel i) i.clauses [] ≡ exhausted → ⊥
  search-ne-exhausted =
      let all_free = free_count-nil 1 (pos_part i.n_vars) in
      backtrack-ne-exhausted (pos_part i.n_vars) i.clauses
        (VarsIn-well_formed i.n_vars i.clauses valid.well_formed) (solver_fuel i) (solver_fuel i) []
        (omega arith) (omega arith)

  written_out :
      (a : Assignment)
      → satisfies (completion a) i.clauses ≡ true
      → check_assignment i (map (signed_literal a) (variables i)) ≡ true
  written_out a h = rw (fun_ext (signed_literal-eq a)) (check_complete i (completion a) valid h)

  -- On a valid instance the solver returns within `n_vars + 1` rounds of each loop: an assignment
  -- that passes the certificate check, or `None`, and then no valuation satisfies the clauses.
  pub solve_decides :
      ((ls : List ℤ) × (solve_sat (solver_fuel i) i ≡ done ls) × (check_assignment i ls ≡ true))
      ⊎ ((solve_sat (solver_fuel i) i ≡ conflict)
          × ((σ : Valuation) → satisfies σ i.clauses ≡ false))
  unfolding solve_sat
  solve_decides = elim (Outcome-cases (backtrack (solver_fuel i) (solver_fuel i) i.clauses [])) [
    | inl e ↦ absurd (search-ne-exhausted e)
    | inr (inl e) ↦ inr (
      rw (e, solve_sat) refl,
      λ σ. elim (Bool-cases (satisfies σ i.clauses)) [
        | inl sat ↦ absurd (
            backtrack-ne-conflict σ i.clauses sat (solver_fuel i) (solver_fuel i) [] (Extends-nil σ)
              e)
        | inr unsat ↦ unsat
      ],
    )
    | inr (inr (a, e)) ↦ inl (
      map (signed_literal a) (variables i),
      rw (e, solve_sat) refl,
      written_out a (
          satisfies-completion a i.clauses
            (backtrack-all_satisfied i.clauses (solver_fuel i) (solver_fuel i) [] a e)),
    )
  ]

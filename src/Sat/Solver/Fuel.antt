-- ===== src/Sat/Solver/Fuel.antt =====
-- Fuel above the number of free variables is never exhausted.
use cathedral_compute.Base.{
  ℕ, zero, suc, ◌≤◌, ◌<◌, ◌≡◌, inl, inr, true, false, List, arith, Option-cases,
}
use cathedral_compute.Base.Int.{abs}
use cathedral_compute.Sat.Instance.{Clause}
use cathedral_compute.Sat.Solver.{
  Assignment, is_positive, pass, Outcome, exhausted, done, assign_value, unit_propagate,
  unassigned_var, branch, backtrack,
}
use cathedral_compute.Sat.Solver.Completeness.{Outcome-cases, Pass-cases}
use cathedral_compute.Sat.Solver.Termination.{
  free_count, free_count-assign_value, VarsIn, pass-IsFree, unassigned_var-IsFree,
}

module _ (n : ℕ) (cs : List Clause) (vars : VarsIn n cs) where
  abbrev free : Assignment → ℕ
  free assign = free_count assign 1 n

  propagate-ne-exhausted :
      (fuel : ℕ) (assign : Assignment)
      → free assign < fuel
      → unit_propagate fuel cs assign ≡ exhausted
      → ⊥
  unfolding unit_propagate
  propagate-ne-exhausted zero assign f h = absurd (omega arith)
  propagate-ne-exhausted (suc fuel) assign f h = elim (Pass-cases (pass assign cs)) [
    | inl e ↦ ground arith
    | inr (inl (lit, e)) ↦
        let (none_yet, range) = pass-IsFree n assign cs lit vars e in
        let fewer = free_count-assign_value assign (abs lit) (is_positive lit) 1 n none_yet range in
        propagate-ne-exhausted fuel _ (omega arith) (rw (e, unit_propagate) at h)
    | inr (inr e) ↦ ground arith
  ]

  propagate-free_le :
      (fuel : ℕ) (assign reached : Assignment)
      → unit_propagate fuel cs assign ≡ done reached
      → free reached ≤ free assign
  unfolding unit_propagate
  propagate-free_le zero assign reached h = cc
  propagate-free_le (suc fuel) assign reached h = elim (Pass-cases (pass assign cs)) [
    | inl e ↦ ground arith
    | inr (inl (lit, e)) ↦
        let (none_yet, range) = pass-IsFree n assign cs lit vars e in
        let fewer = free_count-assign_value assign (abs lit) (is_positive lit) 1 n none_yet range in
        omega (arith, propagate-free_le fuel _ reached (rw (e, unit_propagate) at h))
    | inr (inr e) ↦ ground arith
  ]

  branch-ne-exhausted :
      (search_from : Assignment → Outcome Assignment) (assign : Assignment)
      → ((a : Assignment) → free a < free assign → search_from a ≡ exhausted → ⊥)
      → branch search_from cs assign ≡ exhausted
      → ⊥
  unfolding branch
  branch-ne-exhausted search_from assign never h = elim (Option-cases (unassigned_var assign cs)) [
    | inl e ↦ ground arith
    | inr (var, e) ↦
        let (none_yet, range) = unassigned_var-IsFree n assign cs var vars e in
        let up = free_count-assign_value assign var true 1 n none_yet range in
        let down = free_count-assign_value assign var false 1 n none_yet range in
        ground (
          arith,
          never (assign_value var true assign) up,
          never (assign_value var false assign) down,
        )
  ]

  pub backtrack-ne-exhausted :
      (fuel rounds : ℕ) (assign : Assignment)
      → free assign < fuel
      → free assign < rounds
      → backtrack fuel rounds cs assign ≡ exhausted
      → ⊥
  unfolding backtrack
  backtrack-ne-exhausted zero rounds assign f r h = absurd (omega arith)
  backtrack-ne-exhausted (suc fuel) rounds assign f r h =
      elim (Outcome-cases (unit_propagate rounds cs assign)) [
        | inl e ↦ propagate-ne-exhausted rounds assign r e
        | inr (inl e) ↦ ground arith
        | inr (inr (reached, e)) ↦
            let fewer = propagate-free_le rounds assign reached e in
            branch-ne-exhausted (λ a. backtrack fuel rounds cs a) reached
              (λ a lt. backtrack-ne-exhausted fuel rounds a (omega arith) (omega arith))
              (rw (e, backtrack) at h)
      ]

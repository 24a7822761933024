-- ===== src/Sat/Solver/Witness.antt =====
-- A found assignment, completed by `True`, satisfies the formula.
use cathedral_compute.Base.{
  ℕ, zero, suc, ◌≡◌, refl, inl, inr, true, false, List, [], ◌∷◌, none, some, arith, any,
  Option-cases,
}
use cathedral_compute.Sat.Instance.{Clause}
use cathedral_compute.Sat.Solver.{
  Assignment, value_of, Outcome, done, assign_value, is_true, all_satisfied, unassigned_var,
  unit_propagate, branch, backtrack,
}
use cathedral_compute.Sat.Solver.Completeness.{Outcome-cases}
use cathedral_compute.Sat.Solver.Semantics.{Valuation, holds, satisfies}

-- `setdefault(var, True)`
abbrev pub completion : Assignment → Valuation
completion assign v = elim (value_of v assign) [ none ↦ true | some b ↦ b ]

module _ (assign : Assignment) where
  any-completion :
      (c : Clause) → any (is_true assign) c ≡ true → any (holds (completion assign)) c ≡ true
  unfolding is_true
  any-completion [] h = cc
  any-completion (l ∷ c) h = ground (arith, any-completion c)

  pub satisfies-completion :
      (cs : List Clause) → all_satisfied cs assign ≡ true → satisfies (completion assign) cs ≡ true
  unfolding all_satisfied
  satisfies-completion [] h = refl
  satisfies-completion (c ∷ cs) h = ground (arith, any-completion c, satisfies-completion cs)

module _ (cs : List Clause) where
  branch-all_satisfied :
      (search_from : Assignment → Outcome Assignment) (assign found : Assignment)
      → ((a : Assignment) → search_from a ≡ done found → all_satisfied cs found ≡ true)
      → branch search_from cs assign ≡ done found
      → all_satisfied cs found ≡ true
  unfolding branch
  branch-all_satisfied search_from assign found ih h =
      elim (Option-cases (unassigned_var assign cs)) [
        | inl e ↦ ground arith
        | inr (v, e) ↦
            ground (arith, ih (assign_value v true assign), ih (assign_value v false assign))
      ]

  pub backtrack-all_satisfied :
      (fuel rounds : ℕ) (assign found : Assignment)
      → backtrack fuel rounds cs assign ≡ done found
      → all_satisfied cs found ≡ true
  unfolding backtrack
  backtrack-all_satisfied zero rounds assign found h = cc
  backtrack-all_satisfied (suc fuel) rounds assign found h =
      elim (Outcome-cases (unit_propagate rounds cs assign)) [
        | inl e ↦ ground arith
        | inr (inl e) ↦ ground arith
        | inr (inr (reached, e)) ↦
            branch-all_satisfied (λ a. backtrack fuel rounds cs a) reached found
              (λ a. backtrack-all_satisfied fuel rounds a found) (rw (e, backtrack) at h)
      ]

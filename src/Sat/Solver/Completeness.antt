-- ===== src/Sat/Solver/Completeness.antt =====
-- A valuation that satisfies the formula survives propagation and branching, so that `conflict` is
-- an answer only for a formula with no such valuation.
use cathedral_compute.Base.{
  ℕ, zero, suc, ◌≡◌, refl, sym, ◌⊎◌, inl, inr, true, false, List, [], ◌∷◌, none, arith, any,
  Option-cases, Bool-cases,
}
use cathedral_compute.Base.Int.{ℤ, abs}
use cathedral_compute.Sat.Instance.{Clause}
use cathedral_compute.Sat.Solver.{
  Assignment, value_of, is_positive, empty_clause, unit, no_unit, Pass, pass, Outcome, exhausted,
  conflict, done, assign_value, unit_propagate, is_true, all_satisfied, unassigned_in,
  unassigned_var, branch, backtrack,
}
use cathedral_compute.Sat.Solver.Semantics.{
  Valuation, holds, satisfies, Extends, Extends-assign_value, same_eq, pass-empty_clause, pass-unit,
}

pub Outcome-cases :
    {A : Type 0} (o : Outcome A) → (o ≡ exhausted) ⊎ (o ≡ conflict) ⊎ ((a : A) × (o ≡ done a))
Outcome-cases exhausted = inl refl
Outcome-cases conflict = inr (inl refl)
Outcome-cases (done a) = inr (inr (a, refl))

pub Pass-cases : (p : Pass) → (p ≡ empty_clause) ⊎ ((lit : ℤ) × (p ≡ unit lit)) ⊎ (p ≡ no_unit)
Pass-cases empty_clause = inl refl
Pass-cases (unit lit) = inr (inl (lit, refl))
Pass-cases no_unit = inr (inr refl)

module _ (σ : Valuation) (cs : List Clause) (sat : satisfies σ cs ≡ true) where
  unit-Extends :
      (assign : Assignment) (lit : ℤ)
      → Extends σ assign
      → pass assign cs ≡ unit lit
      → Extends σ (assign_value (abs lit) (is_positive lit) assign)
  unit-Extends assign lit ext h =
      Extends-assign_value σ assign (abs lit) (is_positive lit) ext
        (same_eq _ _ (pass-unit σ assign ext cs lit h sat))

  propagate-ne-conflict :
      (fuel : ℕ) (assign : Assignment)
      → Extends σ assign
      → unit_propagate fuel cs assign ≡ conflict
      → ⊥
  unfolding unit_propagate
  propagate-ne-conflict zero assign ext h = cc
  propagate-ne-conflict (suc fuel) assign ext h = elim (Pass-cases (pass assign cs)) [
    | inl e ↦ pass-empty_clause σ assign ext cs e sat
    | inr (inl (lit, e)) ↦
        propagate-ne-conflict fuel _ (unit-Extends assign lit ext e) (rw (e, unit_propagate) at h)
    | inr (inr e) ↦ ground arith
  ]

  propagate-Extends :
      (fuel : ℕ) (assign reached : Assignment)
      → Extends σ assign
      → unit_propagate fuel cs assign ≡ done reached
      → Extends σ reached
  unfolding unit_propagate
  propagate-Extends zero assign reached ext h = cc
  propagate-Extends (suc fuel) assign reached ext h = elim (Pass-cases (pass assign cs)) [
    | inl e ↦ ground arith
    | inr (inl (lit, e)) ↦
        propagate-Extends fuel _ reached (unit-Extends assign lit ext e)
          (rw (e, unit_propagate) at h)
    | inr (inr e) ↦ let same_assign : assign ≡ reached = ground arith in rw (sym same_assign) ext
  ]

module _ (σ : Valuation) (assign : Assignment) (ext : Extends σ assign) where
  any-is_true :
      (c : Clause) → unassigned_in assign c ≡ none → any (is_true assign) c ≡ any (holds σ) c
  unfolding unassigned_in is_true
  any-is_true [] h = refl
  any-is_true (lit ∷ c) h = elim (Option-cases (value_of (abs lit) assign)) [
    | inl e ↦ ground arith
    | inr (b, e) ↦ ground (arith, ext (abs lit) b, any-is_true c)
  ]

  -- With nothing left to assign, the assignment satisfies what the valuation does.
  all_satisfied-eq-satisfies :
      (cs : List Clause)
      → unassigned_var assign cs ≡ none
      → all_satisfied cs assign ≡ satisfies σ cs
  unfolding unassigned_var all_satisfied
  all_satisfied-eq-satisfies [] h = refl
  all_satisfied-eq-satisfies (c ∷ cs) h =
      ground (arith, any-is_true c, all_satisfied-eq-satisfies cs)

module _ (σ : Valuation) (cs : List Clause) (sat : satisfies σ cs ≡ true) where
  branch-ne-conflict :
      (search_from : Assignment → Outcome Assignment)
      → ((a : Assignment) → Extends σ a → search_from a ≡ conflict → ⊥)
      → (assign : Assignment) → Extends σ assign
      → branch search_from cs assign ≡ conflict
      → ⊥
  unfolding branch
  branch-ne-conflict search_from never assign ext h =
      elim (Option-cases (unassigned_var assign cs)) [
        | inl e ↦ ground (arith, all_satisfied-eq-satisfies σ assign ext cs)
        | inr (var, e) ↦ elim (Bool-cases (σ var)) [
          | inl up ↦ ground (
            arith,
            never (assign_value var true assign) (Extends-assign_value σ assign var true ext up),
          )
          | inr down ↦ ground (
            arith,
            never (assign_value var false assign)
                (Extends-assign_value σ assign var false ext down),
          )
        ]
      ]

  pub backtrack-ne-conflict :
      (fuel rounds : ℕ) (assign : Assignment)
      → Extends σ assign
      → backtrack fuel rounds cs assign ≡ conflict
      → ⊥
  unfolding backtrack
  backtrack-ne-conflict zero rounds assign ext h = cc
  backtrack-ne-conflict (suc fuel) rounds assign ext h =
      elim (Outcome-cases (unit_propagate rounds cs assign)) [
        | inl e ↦ ground arith
        | inr (inl e) ↦ propagate-ne-conflict σ cs sat rounds assign ext e
        | inr (inr (reached, e)) ↦
            branch-ne-conflict (λ a. backtrack fuel rounds cs a)
              (λ a x. backtrack-ne-conflict fuel rounds a x) reached
              (propagate-Extends σ cs sat rounds assign reached ext e) (rw (e, backtrack) at h)
      ]

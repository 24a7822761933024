-- ===== src/Sat/Solver/Termination.antt =====
-- Every assignment takes one of the variables `1..n_vars` that was free, which bounds both loops of
-- the solver.
use cathedral_compute.Base.{
  ℕ, zero, suc, ◌+◌, ◌≤◌, ◌<◌, ◌≡◌, refl, inl, inr, Bool, List, [], ◌∷◌, Option, none, some, arith,
  All, nat_beq_iff, Option-cases,
}
use cathedral_compute.Base.Int.{ℤ, abs}
use cathedral_compute.Sat.Instance.{Clause}
use cathedral_compute.Sat.Solver.{
  Assignment, value_of, unresolved, unit, pass, assign_value, unassigned_in, unassigned_var,
}

abbrev one_if_none : Option Bool → ℕ
one_if_none none = 1
one_if_none (some b) = 0

-- How many of the variables `start .. start + n - 1` have no value.
pub free_count : Assignment → ℕ → ℕ → ℕ
free_count assign start zero = 0
free_count assign start (suc n) =
    one_if_none (value_of start assign) + free_count assign (suc start) n

abbrev pub InRange : ℕ → ℕ → ℕ → Type 0
InRange start n v = (start ≤ v) × (v < start + n)

-- The variables of a formula lie in `1..n`.
abbrev pub VarsIn : ℕ → List Clause → Type 0
VarsIn n cs = All (All (λ l. InRange 1 n (abs l))) cs

pub free_count-nil : (start n : ℕ) → free_count [] start n ≡ n
unfolding free_count value_of
free_count-nil start zero = refl
free_count-nil start (suc n) = omega (arith, free_count-nil (suc start) n)

module _ (assign : Assignment) (v : ℕ) (b : Bool) where
  free_count-assign_le :
      (start n : ℕ) → free_count (assign_value v b assign) start n ≤ free_count assign start n
  unfolding free_count value_of
  free_count-assign_le start zero = omega arith
  free_count-assign_le start (suc n) = ground (arith, free_count-assign_le (suc start) n)

  pub free_count-assign_value :
      (start n : ℕ)
      → value_of v assign ≡ none
      → InRange start n v
      → free_count (assign_value v b assign) start n < free_count assign start n
  unfolding free_count value_of
  free_count-assign_value start zero free r = absurd (omega arith)
  free_count-assign_value start (suc n) free r = ground (
    arith,
    free_count-assign_le (suc start) n,
    free_count-assign_value (suc start) n free,
    nat_beq_iff v start,
  )

module _ (n : ℕ) (assign : Assignment) where
  abbrev pub IsFree : ℕ → Type 0
  IsFree v = (value_of v assign ≡ none) × InRange 1 n v

  unresolved-IsFree :
      (c ls : Clause)
      → All (λ l. InRange 1 n (abs l)) c
      → unresolved assign c ≡ some ls
      → All (λ l. IsFree (abs l)) ls
  unfolding unresolved
  unresolved-IsFree [] ls r h = ground arith
  unresolved-IsFree (l ∷ c) ls r h = elim (Option-cases (value_of (abs l) assign)) [
    | inl free ↦ elim (Option-cases (unresolved assign c)) [
      | inl e ↦ ground arith
      | inr (more, e) ↦ ground (arith, unresolved-IsFree c more r.1 e)
    ]
    | inr (b, known) ↦ ground (arith, unresolved-IsFree c ls)
  ]

  pub pass-IsFree :
      (cs : List Clause) (lit : ℤ) → VarsIn n cs → pass assign cs ≡ unit lit → IsFree (abs lit)
  unfolding pass
  pass-IsFree [] lit r h = cc
  pass-IsFree (c ∷ cs) lit r h = ground (arith, pass-IsFree cs lit, unresolved-IsFree c (lit ∷ []))

  unassigned_in-IsFree :
      (c : Clause) (v : ℕ)
      → All (λ l. InRange 1 n (abs l)) c
      → unassigned_in assign c ≡ some v
      → IsFree v
  unfolding unassigned_in
  unassigned_in-IsFree [] v r h = cc
  unassigned_in-IsFree (l ∷ c) v r h = ground (arith, unassigned_in-IsFree c v)

  pub unassigned_var-IsFree :
      (cs : List Clause) (v : ℕ) → VarsIn n cs → unassigned_var assign cs ≡ some v → IsFree v
  unfolding unassigned_var
  unassigned_var-IsFree [] v r h = cc
  unassigned_var-IsFree (c ∷ cs) v r h =
      ground (arith, unassigned_var-IsFree cs v, unassigned_in-IsFree c v)

-- ===== src/Sat/Solver/Semantics.antt =====
-- The meaning of a formula, and what a round of propagation says about the valuations that satisfy
-- it.
use cathedral_compute.Base.{
  ℕ, ◌≡◌, inl, inr, Bool, true, List, [], ◌∷◌, some, arith, any, all, nat_beq_iff, Option-cases,
}
use cathedral_compute.Base.Int.{ℤ, abs}
use cathedral_compute.Sat.Instance.{Clause}
use cathedral_compute.Sat.Solver.{
  Assignment, value_of, same, is_positive, unresolved, empty_clause, unit, pass, assign_value,
}

abbrev pub Valuation : Type 0
Valuation = ℕ → Bool

-- A literal, a clause and a formula under a valuation.
abbrev pub holds : Valuation → ℤ → Bool
holds σ lit = same (is_positive lit) (σ (abs lit))

abbrev pub satisfies : Valuation → List Clause → Bool
satisfies σ clauses = all (any (holds σ)) clauses

-- The valuation agrees with the assignment wherever that is defined.
abbrev pub Extends : Valuation → Assignment → Type 0
Extends σ assign = (v : ℕ) (b : Bool) → value_of v assign ≡ some b → σ v ≡ b

pub same_eq : (a b : Bool) → same a b ≡ true → b ≡ a
same_eq a b h = ground arith

module _ (σ : Valuation) where
  pub Extends-nil : Extends σ []
  unfolding value_of
  Extends-nil v b h = cc

  pub Extends-assign_value :
      (assign : Assignment) (var : ℕ) (b : Bool)
      → Extends σ assign
      → σ var ≡ b
      → Extends σ (assign_value var b assign)
  unfolding value_of
  Extends-assign_value assign var b ext e v c h = ground (arith, nat_beq_iff var v, ext v c)

module _ (σ : Valuation) (assign : Assignment) (ext : Extends σ assign) where
  -- A literal that the assignment makes false is false under the valuation.
  holds-unresolved :
      (c ls : Clause)
      → unresolved assign c ≡ some ls
      → any (holds σ) c ≡ true
      → any (holds σ) ls ≡ true
  unfolding unresolved
  holds-unresolved [] ls h t = ground arith
  holds-unresolved (lit ∷ c) ls h t = elim (Option-cases (value_of (abs lit) assign)) [
    | inl free ↦ elim (Option-cases (unresolved assign c)) [
      | inl e ↦ ground arith
      | inr (more, e) ↦ ground (arith, holds-unresolved c more)
    ]
    | inr (b, known) ↦ ground (arith, ext (abs lit) b, holds-unresolved c ls)
  ]

  pub pass-empty_clause :
      (cs : List Clause) → pass assign cs ≡ empty_clause → satisfies σ cs ≡ true → ⊥
  unfolding pass
  pass-empty_clause [] h t = cc
  pass-empty_clause (c ∷ cs) h t = ground (arith, pass-empty_clause cs, holds-unresolved c [])

  pub pass-unit :
      (cs : List Clause) (lit : ℤ)
      → pass assign cs ≡ unit lit
      → satisfies σ cs ≡ true
      → holds σ lit ≡ true
  unfolding pass
  pass-unit [] lit h t = cc
  pass-unit (c ∷ cs) lit h t = ground (arith, pass-unit cs lit, holds-unresolved c (lit ∷ []))

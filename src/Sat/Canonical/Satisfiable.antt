-- ===== src/Sat/Canonical/Satisfiable.antt =====
-- Canonical work always has a certificate.
use cathedral_compute.Base.{
  ℕ, zero, suc, ◌*◌, ◌∙◌, ◌≤◌, ◌≡◌, refl, Bool, true, List, [], ◌∷◌, arith, length, any, All,
  Member, here, there, nat_beq, inl, inr, Bool-cases,
}
use cathedral_compute.Base.Int.{ℤ, pos}
use cathedral_compute.Sat.Instance.Laws.{IsLiteral, IsClause, IsValid, total_literals}
use cathedral_compute.Sat.Solver.{done, range_from, solve_sat}
use cathedral_compute.Sat.Solver.Decision.{solver_fuel, solve_decides}
use cathedral_compute.Sat.Certificate.{check_assignment}
use cathedral_compute.Sat.Solver.Semantics.{Valuation, holds, satisfies}
use cathedral_compute.Sat.Canonical.{
  Random, canonical_vars, canonical_clauses, clause_len, signed, planted_value, plant, emit,
  emit_clause, emit_clauses, canonical_instance,
}

module _ (rng : Random) (planted : Valuation) where
  open rng use {State, coin, sample, choice, length-sample, sample_range, choice_member}

  abbrev IsVar : ℕ → Type 0
  IsVar v = (1 ≤ v) × (v ≤ canonical_vars)

  signed-IsLiteral : (v : ℕ) (b : Bool) → IsVar v → IsLiteral (pos canonical_vars) (signed v b)
  signed-IsLiteral (suc v) b h = ground arith
  signed-IsLiteral zero b h = absurd (omega arith)

  holds-signed : (v : ℕ) → 1 ≤ v → holds planted (signed v (planted v)) ≡ true
  holds-signed (suc v) h = ground arith
  holds-signed zero h = absurd (omega arith)

  length-emit : (t : ℕ) (vs : List ℕ) (s : State) → length (emit rng planted t vs s).0 ≡ length vs
  unfolding emit
  length-emit t [] s = refl
  length-emit t (v ∷ vs) s = ground (arith, length-emit t vs s, length-emit t vs (coin s).1)

  emit-IsLiteral :
      (t : ℕ) (vs : List ℕ) (s : State)
      → All IsVar vs
      → All (IsLiteral (pos canonical_vars)) (emit rng planted t vs s).0
  unfolding emit
  emit-IsLiteral t [] s h = tt
  emit-IsLiteral t (v ∷ vs) s h = elim (Bool-cases (nat_beq v t)) [
    | inl e ↦ rw (e, emit) (signed-IsLiteral v (planted v) h.0, emit-IsLiteral t vs s h.1)
    | inr e ↦ rw (e, emit) (signed-IsLiteral v (coin s).0 h.0, emit-IsLiteral t vs (coin s).1 h.1)
  ]

  any-emit :
      (t : ℕ) (vs : List ℕ) (s : State)
      → All IsVar vs
      → Member t vs
      → any (holds planted) (emit rng planted t vs s).0 ≡ true
  unfolding emit
  any-emit t [] s h m = elim m [ ]
  any-emit t (v ∷ vs) s h (here e) = ground (arith, holds-signed v)
  any-emit t (v ∷ vs) s h (there m) =
      ground (arith, holds-signed v, any-emit t vs s h.1 m, any-emit t vs (coin s).1 h.1 m)

  sampled_choice : (vs : List ℕ) (s : State) → length vs ≡ clause_len → Member (choice vs s).0 vs
  sampled_choice [] s h = absurd (omega arith)
  sampled_choice (v ∷ vs) s h = choice_member v vs s

  emit_clause-IsClause :
      (s : State)
      → (length (emit_clause rng planted s).0 ≡ clause_len)
        × All (IsLiteral (pos canonical_vars)) (emit_clause rng planted s).0
        × (any (holds planted) (emit_clause rng planted s).0 ≡ true)
  unfolding emit_clause
  emit_clause-IsClause s =
      let (vs, s₁) = sample canonical_vars clause_len s in
      let (t, s₂) = choice vs s₁ in
      let size = length-sample canonical_vars clause_len s (omega arith) in
      let range = sample_range canonical_vars clause_len s (omega arith) in
      (
        length-emit t vs s₂ ∙ size,
        emit-IsLiteral t vs s₂ range,
        any-emit t vs s₂ range (sampled_choice vs s₁ size),
      )

  emit_clauses-shape :
      (n : ℕ) (s : State)
      → (length (emit_clauses rng planted n s) ≡ n)
        × (total_literals (emit_clauses rng planted n s) ≡ n * clause_len)
        × All (IsClause (pos canonical_vars)) (emit_clauses rng planted n s)
        × (satisfies planted (emit_clauses rng planted n s) ≡ true)
  unfolding emit_clauses
  emit_clauses-shape zero s = (refl, omega arith, tt, refl)
  emit_clauses-shape (suc n) s =
      let (size, literals, holding) = emit_clause-IsClause s in
      let (count, total, valid, sat) = emit_clauses-shape n (emit_clause rng planted s).1 in
      (omega arith, omega arith, ((omega arith, literals), valid), ground arith)

-- Whatever the seed, the canonical instance passes `validate_sat_instance`'s bounds, and the
-- planted assignment satisfies it.
pub canonical-IsValid_satisfiable :
    (rng : Random) (seed : ℤ)
    → IsValid (canonical_instance rng seed)
      × ((σ : Valuation) × (satisfies σ (canonical_instance rng seed).clauses ≡ true))
unfolding canonical_instance
canonical-IsValid_satisfiable rng seed =
    let (planted, s) = plant rng (range_from 1 canonical_vars) (rng.seeded seed) in
    let σ = planted_value planted in
    let (count, total, valid, sat) = emit_clauses-shape rng σ canonical_clauses s in
    (
      record {
        some_vars = omega arith;
        vars_bounded = omega arith;
        some_clauses = omega arith;
        clauses_bounded = omega arith;
        literals_bounded = omega arith;
        well_formed = valid;
      },
      (σ, sat),
    )

-- Whatever the seed, the solver finds an assignment for the canonical instance that passes the
-- certificate check.
pub solve-canonical_instance :
    (rng : Random) (seed : ℤ)
    → let i = canonical_instance rng seed in
      (ls : List ℤ) × (solve_sat (solver_fuel i) i ≡ done ls) × (check_assignment i ls ≡ true)
solve-canonical_instance rng seed =
    let (valid, planted) = canonical-IsValid_satisfiable rng seed in
    elim (solve_decides (canonical_instance rng seed) valid) [
      | inl found ↦ found
      | inr (none_found, unsat) ↦ cc (unsat planted.0, planted.1)
    ]

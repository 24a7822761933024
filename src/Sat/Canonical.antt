-- ===== src/Sat/Canonical.antt =====
-- `_canonical_instance` of cathedral/lanes/sat.py: instances with a planted solution. Python's
-- `random.Random` is a parameter, with what its documentation says of the three calls.
pub mod Satisfiable
use cathedral_compute.Base.{
  ℕ, zero, suc, ◌≤◌, ◌<◌, ◌≡◌, Bool, true, false, List, [], ◌∷◌, map, Option, none, some, length,
  All, Member, nat_beq, if◌then◌else◌,
}
use cathedral_compute.Base.Int.{ℤ, pos}
use cathedral_compute.Sat.Instance.{Clause, SatInstance}
use cathedral_compute.Sat.Solver.{negative, range_from}

pub record Random : Type 1 where
  pub State : Type 0
  -- `random.Random(seed)`
  pub seeded : ℤ → State
  -- `rng.choice([True, False])`
  pub coin : State → Bool × State
  -- `rng.sample(range(1, n + 1), k)`
  pub sample : ℕ → ℕ → State → List ℕ × State
  -- `rng.choice(xs)`
  pub choice : List ℕ → State → ℕ × State
  pub length-sample : (n k : ℕ) (s : State) → k ≤ n → length (sample n k s).0 ≡ k
  pub sample_range : (n k : ℕ) (s : State) → k ≤ n → All (λ v. (1 ≤ v) × (v ≤ n)) (sample n k s).0
  pub choice_member : (x : ℕ) (xs : List ℕ) (s : State) → Member (choice (x ∷ xs) s).0 (x ∷ xs)

abbrev pub canonical_vars : ℕ
canonical_vars = 8

abbrev pub canonical_clauses : ℕ
canonical_clauses = 20

abbrev pub clause_len : ℕ
clause_len = 3

module _ (rng : Random) where
  open rng use {State, seeded, coin, sample, choice}

  -- `{v: rng.choice([True, False]) for v in range(...)}`, in the order of the draws
  plant : List ℕ → State → List (ℕ × Bool) × State
  plant [] s = ([], s)
  plant (v ∷ vs) s = let (b, s') = coin s in let (rest, s'') = plant vs s' in ((v, b) ∷ rest, s'')

abbrev pub signed : ℕ → Bool → ℤ
signed v b = if b then pos v else negative v

-- `planted[v]`
pub planted_value : List (ℕ × Bool) → ℕ → Bool
planted_value [] v = false
planted_value ((w, b) ∷ rest) v = if nat_beq w v then b else planted_value rest v

module _ (rng : Random) (planted : ℕ → Bool) where
  open rng use {State, coin, sample, choice}

  -- The loop over `vars_in_clause`.
  pub emit : ℕ → List ℕ → State → Clause × State
  emit true_var [] s = ([], s)
  emit true_var (v ∷ vs) s =
      if nat_beq v true_var
      then (let (rest, s') = emit true_var vs s in (signed v (planted v) ∷ rest, s'))
      else (let (b, s') = coin s in
          let (rest, s'') = emit true_var vs s' in (signed v b ∷ rest, s''))

  pub emit_clause : State → Clause × State
  emit_clause s =
      let (vars_in_clause, s₁) = sample canonical_vars clause_len s in
      let (true_var, s₂) = choice vars_in_clause s₁ in emit true_var vars_in_clause s₂

  pub emit_clauses : ℕ → State → List Clause
  emit_clauses zero s = []
  emit_clauses (suc n) s = let (clause, s') = emit_clause s in clause ∷ emit_clauses n s'

unfoldable pub canonical_instance : Random → ℤ → SatInstance
unfolding plant planted_value emit emit_clause emit_clauses
canonical_instance rng seed =
    let (planted, s) = plant rng (range_from 1 canonical_vars) (rng.seeded seed) in
    record {
      n_vars = pos canonical_vars;
      clauses = emit_clauses rng (planted_value planted) canonical_clauses s;
    }

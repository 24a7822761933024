-- ===== src/Sat/Instance/Laws.antt =====
-- `validate_sat_instance` accepts exactly the instances within the bounds.
use cathedral_compute.Base.{
  ℕ, ◌+◌, ◌≤◌, ◌<◌, ◌≡◌, refl, ◌↔◌, false, List, [], ◌∷◌, arith, length, any, All, ok,
}
use cathedral_compute.Base.Int.{ℤ, pos, ◌≤ℤ◌, abs}
use cathedral_compute.Sat.Instance.{
  Clause, SatInstance, max_n_vars, max_clauses, max_literals, max_literals_per_clause,
  is_bad_literal, validate_clauses, validate_sat_instance,
}

-- The literals of all clauses together.
abbrev pub total_literals : List Clause → ℕ
total_literals [] = 0
total_literals (c ∷ cs) = length c + total_literals cs

abbrev pub IsLiteral : ℤ → ℤ → Type 0
IsLiteral n_vars l = (0 < abs l) × (pos (abs l) ≤ℤ n_vars)

abbrev pub IsClause : ℤ → Clause → Type 0
IsClause n_vars c = (length c ≤ max_literals_per_clause) × All (IsLiteral n_vars) c

pub record IsValid (i : SatInstance) : Type 0 where
  pub some_vars : pos 1 ≤ℤ i.n_vars
  pub vars_bounded : i.n_vars ≤ℤ pos max_n_vars
  pub some_clauses : 0 < length i.clauses
  pub clauses_bounded : length i.clauses ≤ max_clauses
  pub literals_bounded : total_literals i.clauses ≤ max_literals
  pub well_formed : All (IsClause i.n_vars) i.clauses

IsLiteral-good : (n l : ℤ) → (is_bad_literal n l ≡ false) ↔ IsLiteral n l
unfolding is_bad_literal
IsLiteral-good n l = (λ h. ground arith, λ h. ground arith)

literals_good : (n : ℤ) (c : Clause) → (any (is_bad_literal n) c ≡ false) ↔ All (IsLiteral n) c
literals_good n [] = (λ h. tt, λ h. refl)
literals_good n (l ∷ c) = (
  λ h. ground (arith, IsLiteral-good n l, literals_good n c),
  λ h. ground (arith, IsLiteral-good n l, literals_good n c),
)

abbrev ClausesValid : ℤ → ℕ → List Clause → Type 0
ClausesValid n count cs = All (IsClause n) cs × (count + total_literals cs ≤ max_literals)

clauses_sound :
    (n : ℤ) (count : ℕ) (cs : List Clause)
    → count ≤ max_literals
    → validate_clauses n count cs ≡ ok tt
    → ClausesValid n count cs
unfolding validate_clauses
clauses_sound n count [] b h = (tt, omega arith)
clauses_sound n count (c ∷ cs) b h =
    ground (arith, literals_good n c, clauses_sound n (count + length c) cs)

clauses_complete :
    (n : ℤ) (count : ℕ) (cs : List Clause)
    → ClausesValid n count cs
    → validate_clauses n count cs ≡ ok tt
unfolding validate_clauses
clauses_complete n count [] h = refl
clauses_complete n count (c ∷ cs) h =
    ground (arith, literals_good n c, clauses_complete n (count + length c) cs)

pub validate_sound : (i : SatInstance) → validate_sat_instance i ≡ ok tt → IsValid i
unfolding validate_sat_instance
validate_sound i h = ground (arith, clauses_sound i.n_vars 0 i.clauses)

pub validate_complete : (i : SatInstance) → IsValid i → validate_sat_instance i ≡ ok tt
unfolding validate_sat_instance
validate_complete i v = ground (arith, clauses_complete i.n_vars 0 i.clauses)

-- An instance passes `validate_sat_instance` exactly when `1 ≤ n_vars ≤ 512`, there are from 1 to
-- 8192 clauses of at most 1024 literals each and at most 65536 in all, and every literal is
-- nonzero with a variable of at most `n_vars`.
pub validate_iff : (i : SatInstance) → (validate_sat_instance i ≡ ok tt) ↔ IsValid i
validate_iff i = (validate_sound i, validate_complete i)

-- ===== src/Sat/Certificate/Sound.antt =====
-- An assignment that passes the check stands for a valuation: with `n_vars` entries that cover
-- `n_vars` variables, no variable can stand with both signs.
use cathedral_compute.Base.{
  ℕ, zero, suc, ◌+◌, ◌≤◌, ◌<◌, ◌≡◌, refl, inl, inr, true, false, List, [], ◌∷◌, map, arith, all,
  any, length, member, nat_eq, nat_beq, nat_beq_iff, All, Bool-cases, if◌then◌else◌,
}
use cathedral_compute.Base.Int.{ℤ, pos, negsuc, abs, int_eq, int_beq_iff}
use cathedral_compute.Sat.Instance.{Clause, SatInstance}
use cathedral_compute.Sat.Instance.Laws.{IsLiteral, IsClause, IsValid}
use cathedral_compute.Sat.Solver.{range_from}
use cathedral_compute.Sat.Solver.Semantics.{Valuation, holds, satisfies}
use cathedral_compute.Sat.Certificate.{satisfies_clauses, check_assignment}

-- How often a variable stands in the assignment, and in all for a range of variables.
occurs : ℕ → List ℤ → ℕ
occurs v [] = 0
occurs v (l ∷ ls) = (if nat_beq v (abs l) then 1 else 0) + occurs v ls

occurs_in : ℕ → ℕ → List ℤ → ℕ
occurs_in start zero ls = 0
occurs_in start (suc n) ls = occurs start ls + occurs_in (suc start) n ls

-- How often a number is in a range: at most once.
hits : ℕ → ℕ → ℕ → ℕ
hits start zero v = 0
hits start (suc n) v = (if nat_beq start v then 1 else 0) + hits (suc start) n v

hits_below : (start n v : ℕ) → v < start → hits start n v ≡ 0
unfolding hits
hits_below start zero v h = refl
hits_below start (suc n) v h = ground (arith, hits_below (suc start) n v)

hits-le-one : (start n v : ℕ) → hits start n v ≤ 1
unfolding hits
hits-le-one start zero v = omega arith
hits-le-one start (suc n) v =
    ground (arith, hits_below (suc start) n v, hits-le-one (suc start) n v)

occurs_in-nil : (start n : ℕ) → occurs_in start n [] ≡ 0
unfolding occurs_in occurs
occurs_in-nil start zero = refl
occurs_in-nil start (suc n) = omega (arith, occurs_in-nil (suc start) n)

occurs_in-cons :
    (start n : ℕ) (l : ℤ) (ls : List ℤ)
    → occurs_in start n (l ∷ ls) ≡ hits start n (abs l) + occurs_in start n ls
unfolding occurs_in occurs hits
occurs_in-cons start zero l ls = omega arith
occurs_in-cons start (suc n) l ls = ground (arith, occurs_in-cons (suc start) n l ls)

occurs_in-le-length : (start n : ℕ) (ls : List ℤ) → occurs_in start n ls ≤ length ls
occurs_in-le-length start n [] = omega (arith, occurs_in-nil start n)
occurs_in-le-length start n (l ∷ ls) = omega (
  arith,
  occurs_in-cons start n l ls,
  hits-le-one start n (abs l),
  occurs_in-le-length start n ls,
)

occurs_pos : (v : ℕ) (ls : List ℤ) → member v (map abs ls) ≡ true → 0 < occurs v ls
unfolding occurs
occurs_pos v [] h = cc
occurs_pos v (l ∷ ls) h = ground (arith, occurs_pos v ls)

-- If every variable of the range occurs, and one of them twice, they occur more than `n` times.
covered :
    (start n : ℕ) (ls : List ℤ)
    → all (λ v. member v (map abs ls)) (range_from start n) ≡ true
    → n ≤ occurs_in start n ls
unfolding occurs_in
covered start zero ls h = omega arith
covered start (suc n) ls h = ground (arith, covered (suc start) n ls, occurs_pos start ls)

covered_twice :
    (start n : ℕ) (ls : List ℤ) (w : ℕ)
    → all (λ v. member v (map abs ls)) (range_from start n) ≡ true
    → start ≤ w
    → w < start + n
    → 1 < occurs w ls
    → n < occurs_in start n ls
unfolding occurs_in
covered_twice start zero ls w h p q t = absurd (omega arith)
covered_twice start (suc n) ls w h p q t = ground (
  arith,
  covered (suc start) n ls,
  covered_twice (suc start) n ls w,
  occurs_pos start ls,
  nat_beq_iff start w,
)

occurs_once : (l : ℤ) (ls : List ℤ) → member l ls ≡ true → 0 < occurs (abs l) ls
unfolding occurs
occurs_once l [] h = cc
occurs_once l (k ∷ ls) h = ground (arith, occurs_once l ls, int_beq_iff l k)

occurs_both_signs :
    (v : ℕ) (ls : List ℤ)
    → member (pos (suc v)) ls ≡ true
    → member (negsuc v) ls ≡ true
    → 1 < occurs (suc v) ls
unfolding occurs
occurs_both_signs v [] p q = cc
occurs_both_signs v (l ∷ ls) p q = ground (
  arith,
  occurs_both_signs v ls,
  int_beq_iff (pos (suc v)) l,
  int_beq_iff (negsuc v) l,
  occurs_once (pos (suc v)) ls,
  occurs_once (negsuc v) ls,
)

-- The valuation that an assignment names.
abbrev pub valuation_of : List ℤ → Valuation
valuation_of assignment v = member (pos v) assignment

module _ (n : ℕ) (ls : List ℤ) (exact : length ls ≡ n) where
  abbrev Covers : Type 0
  Covers = all (λ v. member v (map abs ls)) (range_from 1 n) ≡ true

  not_both_signs :
      (v : ℕ) → Covers → suc v ≤ n → member (negsuc v) ls ≡ true → member (pos (suc v)) ls ≡ false
  not_both_signs v cov h q = elim (Bool-cases (member (pos (suc v)) ls)) [
    | inl p ↦ absurd (
        omega (
          arith,
          covered_twice 1 n ls (suc v) cov (omega arith) (omega arith) (occurs_both_signs v ls p q),
          occurs_in-le-length 1 n ls,
        ))
    | inr p ↦ p
  ]

  holds-member :
      (l : ℤ) → Covers → IsLiteral (pos n) l → member l ls ≡ true → holds (valuation_of ls) l ≡ true
  holds-member (pos v) cov h q = ground arith
  holds-member (negsuc v) cov h q = ground (arith, not_both_signs v cov (omega arith) q)

  any-holds :
      (c : Clause)
      → Covers
      → All (IsLiteral (pos n)) c
      → any (λ l. member l ls) c ≡ true
      → any (holds (valuation_of ls)) c ≡ true
  any-holds [] cov h q = cc
  any-holds (l ∷ c) cov h q = ground (arith, holds-member l, any-holds c)

  clauses-hold :
      (cs : List Clause)
      → Covers
      → All (IsClause (pos n)) cs
      → satisfies_clauses ls cs ≡ true
      → satisfies (valuation_of ls) cs ≡ true
  unfolding satisfies_clauses
  clauses-hold [] cov h q = refl
  clauses-hold (c ∷ cs) cov h q = ground (arith, any-holds c cov h.0.1, clauses-hold cs cov h.1)

check_for :
    (n : ℤ) (i : SatInstance) (ls : List ℤ)
    → i.n_vars ≡ n
    → All (IsClause n) i.clauses
    → check_assignment i ls ≡ true
    → satisfies (valuation_of ls) i.clauses ≡ true
unfolding check_assignment
check_for (negsuc n) i ls e h q = ground arith
check_for (pos n) i ls e h q =
    clauses-hold n ls (ground arith) i.clauses (ground arith) h (ground arith)

-- On a valid instance, the literals of an assignment that passes the check name a valuation that
-- satisfies every clause: no certificate of an unsatisfiable instance passes.
pub check_sound :
    (i : SatInstance) (assignment : List ℤ)
    → IsValid i
    → check_assignment i assignment ≡ true
    → satisfies (valuation_of assignment) i.clauses ≡ true
check_sound i assignment v h = check_for i.n_vars i assignment refl v.well_formed h

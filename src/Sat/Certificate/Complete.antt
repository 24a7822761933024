-- ===== src/Sat/Certificate/Complete.antt =====
-- The assignment written out from a satisfying valuation passes the check.
use cathedral_compute.Base.{
  ℕ, zero, suc, ◌+◌, ◌≤◌, ◌<◌, ◌≡◌, refl, ap, subst, ◌∙◌, length-map, Bool, true, List, [], ◌∷◌,
  map, arith, all, any, All, length, member, nat_eq, nat_beq_iff, if◌then◌else◌,
}
use cathedral_compute.Base.Int.{ℤ, pos, negsuc, ◌≤ℤ◌, abs, int_eq, int_beq_iff}
use cathedral_compute.Sat.Instance.{Clause, SatInstance}
use cathedral_compute.Sat.Instance.Laws.{IsLiteral, IsClause, IsValid}
use cathedral_compute.Sat.Solver.{variables, range_from, negative}
use cathedral_compute.Sat.Solver.Semantics.{Valuation, holds, satisfies}
use cathedral_compute.Sat.Certificate.{covers_variables, satisfies_clauses, check_assignment}

all_range :
    (p : ℕ → Bool) (start n : ℕ)
    → ((v : ℕ) → start ≤ v → v < start + n → p v ≡ true)
    → all p (range_from start n) ≡ true
all_range p start zero h = refl
all_range p start (suc n) h =
    let rest = all_range p (suc start) n (λ v a b. h v (omega arith) (omega arith)) in
    let first = h start (omega arith) (omega arith) in ground arith

all-map {ℓ κ} :
    {A : Type ℓ} {B : Type κ} (p : B → Bool) (f : A → B) (xs : List A)
    → all p (map f xs) ≡ all (λ a. p (f a)) xs
all-map p f [] = refl
all-map p f (x ∷ xs) = ground (arith, all-map p f xs)

member-range : (v start n : ℕ) → start ≤ v → v < start + n → member v (range_from start n) ≡ true
member-range v start zero p q = absurd (omega arith)
member-range v start (suc n) p q = ground (arith, member-range v (suc start) n, nat_beq_iff v start)

length-range : (start n : ℕ) → length (range_from start n) ≡ n
length-range start zero = refl
length-range start (suc n) = ap suc (length-range (suc start) n)

-- The signed literal of a variable under a valuation.
abbrev pub literal_of : Valuation → ℕ → ℤ
literal_of σ v = if σ v then pos v else negative v

module _ (σ : Valuation) where
  abs-literal_of : (v : ℕ) → abs (literal_of σ v) ≡ v
  abs-literal_of zero = ground arith
  abs-literal_of (suc v) = ground arith

  map-abs-literal_of : (vs : List ℕ) → map abs (map (literal_of σ) vs) ≡ vs
  map-abs-literal_of [] = refl
  map-abs-literal_of (v ∷ vs) = cc (abs-literal_of v, map-abs-literal_of vs)

  literal_of-abs : (l : ℤ) → 0 < abs l → holds σ l ≡ true → literal_of σ (abs l) ≡ l
  literal_of-abs (pos zero) p h = absurd (omega arith)
  literal_of-abs (pos (suc v)) p h = ground arith
  literal_of-abs (negsuc v) p h = ground arith

  member-literal_of :
      (v : ℕ) (vs : List ℕ)
      → member v vs ≡ true
      → member (literal_of σ v) (map (literal_of σ) vs) ≡ true
  member-literal_of v [] h = cc
  member-literal_of v (w ∷ vs) h = ground (
    arith,
    member-literal_of v vs,
    nat_beq_iff v w,
    int_beq_iff (literal_of σ v) (literal_of σ w),
  )

  module _ (n : ℕ) where
    abbrev all_literals : List ℤ
    all_literals = map (literal_of σ) (range_from 1 n)

    holds-member : (l : ℤ) → IsLiteral (pos n) l → holds σ l ≡ true → member l all_literals ≡ true
    holds-member l h q =
        subst (λ k. member k all_literals ≡ true) (literal_of-abs l h.0 q)
          (member-literal_of (abs l) (range_from 1 n)
            (member-range (abs l) 1 n (omega arith) (omega arith)))

    any-member :
        (c : Clause)
        → All (IsLiteral (pos n)) c
        → any (holds σ) c ≡ true
        → any (λ l. member l all_literals) c ≡ true
    any-member [] h q = cc
    any-member (l ∷ c) h q = ground (arith, holds-member l h.0, any-member c h.1)

    clauses-satisfied :
        (cs : List Clause)
        → All (IsClause (pos n)) cs
        → satisfies σ cs ≡ true
        → satisfies_clauses all_literals cs ≡ true
    unfolding satisfies_clauses
    clauses-satisfied [] h q = refl
    clauses-satisfied (c ∷ cs) h q = ground (arith, any-member c h.0.1, clauses-satisfied cs h.1)

    covers :
        (cs : List Clause)
        → covers_variables (record { n_vars = pos n; clauses = cs }) all_literals ≡ true
    unfolding covers_variables
    covers cs =
        rw (all-map (λ l. member (abs l) (range_from 1 n)) (literal_of σ) (range_from 1 n)) (
          rw (map-abs-literal_of (range_from 1 n)) (
            cc (
              all_range (λ v. member (abs (literal_of σ v)) (range_from 1 n)) 1 n
                  (λ v p q. rw (abs-literal_of v) (member-range v 1 n p q)),
              all_range (λ v. member v (range_from 1 n)) 1 n (λ v p q. member-range v 1 n p q),
            )))

    length-all_literals : length all_literals ≡ n
    length-all_literals = length-map (range_from 1 n) (literal_of σ) ∙ length-range 1 n

check_for :
    (σ : Valuation) (n : ℤ) (cs : List Clause)
    → let i : SatInstance = record { n_vars = n; clauses = cs } in
      pos 1 ≤ℤ n
      → All (IsClause n) cs
      → satisfies σ cs ≡ true
      → check_assignment i (map (literal_of σ) (variables i)) ≡ true
unfolding check_assignment
check_for σ (negsuc n) cs p h q = absurd (omega arith)
check_for σ (pos n) cs p h q =
    ground (arith, length-all_literals σ n, covers σ n cs, clauses-satisfied σ n cs h q)

-- On a valid instance, the literals of a satisfying valuation, one for each variable in order,
-- pass the check.
pub check_complete :
    (i : SatInstance) (σ : Valuation)
    → IsValid i
    → satisfies σ i.clauses ≡ true
    → check_assignment i (map (literal_of σ) (variables i)) ≡ true
check_complete i σ v h = check_for σ i.n_vars i.clauses v.some_vars v.well_formed h

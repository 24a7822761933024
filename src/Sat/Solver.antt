-- ===== src/Sat/Solver.antt =====
-- `solve_sat` of cathedral/lanes/sat.py: unit propagation, then a branch on the first unassigned
-- variable. The dict `assignment` is a list of pairs whose newest entry is read; the two loops
-- that are not over a list take fuel, and `exhausted` says that it ran out.
pub mod Completeness
pub mod Semantics
pub mod Witness
pub mod Termination
pub mod Fuel
pub mod Decision
use cathedral_compute.Base.{
  ℕ, zero, suc, ◌+◌, Bool, true, false, List, [], ◌∷◌, map, Option, none, some, any, all, nat_beq,
  if◌then◌else◌,
}
use cathedral_compute.Base.Int.{ℤ, pos, negsuc, pos_part, ltb_ℤ, abs}
use cathedral_compute.Sat.Instance.{Clause, SatInstance}

abbrev pub Assignment : Type 0
Assignment = List (ℕ × Bool)

-- `assign.get(var)`
pub value_of : ℕ → Assignment → Option Bool
value_of var [] = none
value_of var ((v, b) ∷ rest) = if nat_beq v var then some b else value_of var rest

abbrev pub same : Bool → Bool → Bool
same true b = b
same false true = false
same false false = true

-- `lit > 0`
abbrev pub is_positive : ℤ → Bool
is_positive lit = ltb_ℤ (pos 0) lit

-- The inner loop of `unit_propagate` over one clause: `none` when a literal of it is true, else
-- the unresolved literals.
pub unresolved : Assignment → Clause → Option Clause
unresolved assign [] = some []
unresolved assign (lit ∷ rest) = elim (value_of (abs lit) assign) [
  | some b ↦ if same (is_positive lit) b then none else unresolved assign rest
  | none ↦ elim (unresolved assign rest) [ none ↦ none | some more ↦ some (lit ∷ more) ]
]

pub data Pass : Type 0 where
  empty_clause : Pass
  unit : ℤ → Pass
  no_unit : Pass

abbrev pub pass_step : Option Clause → Pass → Pass
pass_step none rest = rest
pass_step (some []) rest = empty_clause
pass_step (some (lit ∷ [])) rest = unit lit
pass_step (some (lit ∷ m ∷ more)) rest = rest

-- One round of the `while True` loop.
pub pass : Assignment → List Clause → Pass
pass assign [] = no_unit
pass assign (clause ∷ rest) = pass_step (unresolved assign clause) (pass assign rest)

pub data Outcome (A : Type 0) : Type 0 where
  exhausted : Outcome A
  conflict : Outcome A
  done : A → Outcome A

-- `assign[var] = value`
abbrev pub assign_value : ℕ → Bool → Assignment → Assignment
assign_value var b assign = (var, b) ∷ assign

pub unit_propagate : ℕ → List Clause → Assignment → Outcome Assignment
unit_propagate zero clauses assign = exhausted
unit_propagate (suc fuel) clauses assign = elim (pass assign clauses) [
  | empty_clause ↦ conflict
  | unit lit ↦ unit_propagate fuel clauses (assign_value (abs lit) (is_positive lit) assign)
  | no_unit ↦ done assign
]

-- `abs(lit) in assign and (lit > 0) == assign[abs(lit)]`
pub is_true : Assignment → ℤ → Bool
is_true assign lit = elim (value_of (abs lit) assign) [
  | none ↦ false
  | some b ↦ same (is_positive lit) b
]

pub all_satisfied : List Clause → Assignment → Bool
all_satisfied clauses assign = all (any (is_true assign)) clauses

unassigned_in : Assignment → Clause → Option ℕ
unassigned_in assign [] = none
unassigned_in assign (lit ∷ rest) = elim (value_of (abs lit) assign) [
  | none ↦ some (abs lit)
  | some b ↦ unassigned_in assign rest
]

pub unassigned_var : Assignment → List Clause → Option ℕ
unfolding unassigned_in
unassigned_var assign [] = none
unassigned_var assign (clause ∷ rest) = elim (unassigned_in assign clause) [
  | some var ↦ some var
  | none ↦ unassigned_var assign rest
]

-- `backtrack` after `unit_propagate` has returned, with the recursive call as `search_from`.
pub branch : (Assignment → Outcome Assignment) → List Clause → Assignment → Outcome Assignment
branch search_from clauses assign =
    if all_satisfied clauses assign then done assign else elim (unassigned_var assign clauses) [
      | none ↦ conflict
      | some var ↦ elim (search_from (assign_value var true assign)) [
        | done a ↦ done a
        | exhausted ↦ exhausted
        | conflict ↦ search_from (assign_value var false assign)
      ]
    ]

-- `rounds` is the fuel of each propagation.
pub backtrack : ℕ → ℕ → List Clause → Assignment → Outcome Assignment
unfolding branch
backtrack zero rounds clauses assign = exhausted
backtrack (suc fuel) rounds clauses assign = elim (unit_propagate rounds clauses assign) [
  | exhausted ↦ exhausted
  | conflict ↦ conflict
  | done propagated ↦ branch (λ a. backtrack fuel rounds clauses a) clauses propagated
]

-- `range(1, n_vars + 1)`, from `start` and with `n` entries left.
abbrev pub range_from : ℕ → ℕ → List ℕ
range_from start zero = []
range_from start (suc n) = start ∷ range_from (suc start) n

abbrev pub variables : SatInstance → List ℕ
variables i = range_from 1 (pos_part i.n_vars)

abbrev pub negative : ℕ → ℤ
negative zero = pos 0
negative (suc n) = negsuc n

-- `setdefault(var, True)` and then `var if assignment[var] else -var`
pub signed_literal : Assignment → ℕ → ℤ
signed_literal assign var = elim (value_of var assign) [
  | none ↦ pos var
  | some b ↦ if b then pos var else negative var
]

-- `conflict` stands for `None`.
unfoldable pub solve_sat : ℕ → SatInstance → Outcome (List ℤ)
unfolding value_of unresolved pass unit_propagate is_true all_satisfied unassigned_var branch
    backtrack signed_literal
solve_sat fuel i = elim (backtrack fuel fuel i.clauses []) [
  | exhausted ↦ exhausted
  | conflict ↦ conflict
  | done assignment ↦ done (map (signed_literal assignment) (variables i))
]

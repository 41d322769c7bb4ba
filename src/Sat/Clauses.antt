-- ===== src/Sat/Clauses.antt =====
-- `is_clause_satisfied` and `has_conflict` of fabko/compiler/backend/sat/solver_impl.cpp, and the
-- parts of `unit_propagation` that read one clause.
pub mod Laws
use fabko.Base.{Bool, ◌&&◌, ◌||◌, List, any, all, keep}
use fabko.Sat.Literal.{
  Literal, Assignment, is_on, is_off, is_assigned_on, is_assigned_off, is_unassigned,
}
use fabko.Sat.Types.{Env, Context, Clause, Entry, assignment_at}

-- The tests of the two lambdas.
abbrev pub lit_true : Literal → Assignment → Bool
lit_true l a = (is_on l && is_assigned_on a) || (is_off l && is_assigned_off a)

abbrev pub lit_false : Literal → Assignment → Bool
lit_false l a = (is_on l && is_assigned_off a) || (is_off l && is_assigned_on a)

module _ ⦃e : Env⦄ where
  unfoldable pub is_clause_satisfied : Context → Clause → Bool
  is_clause_satisfied ctx c = any (λ p. lit_true p.0 (assignment_at ctx p.1)) c.vars

  unfoldable pub has_conflict : Context → Clause → Bool
  has_conflict ctx c = all (λ p. lit_false p.0 (assignment_at ctx p.1)) c.vars

  -- The literals of a clause whose variable has no assignment.
  unfoldable pub unassigned : Context → Clause → List Entry
  unassigned ctx c = keep (λ p. is_unassigned (assignment_at ctx p.1)) c.vars

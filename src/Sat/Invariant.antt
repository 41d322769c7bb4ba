-- ===== src/Sat/Invariant.antt =====
-- What holds of a solver context between the steps of fabko/compiler/backend/sat/solver_impl.cpp:
-- every clause names variables of the context, the trail is ordered by level and holds the assigned
-- variables once each, and a variable with a reason was forced by that clause and what stands before
-- it on the trail.
pub mod Frame
pub mod Assign
pub mod Carried
pub mod Ground
use fabko.Base.{
  ℕ, ◌≤◌, ◌<◌, ◌≡◌, ◌≢◌, ◌⊎◌, Bool, true, false, not, ◌&&◌, ◌||◌, List, [], ◌∷◌, Option, none, some,
  In, All, any,
}
use fabko.Sat.Literal.{Literal, value, is_on, is_off, is_unassigned}
use fabko.Sat.Types.{
  Env, Context, Entry, Variable, var_at, lits_at, var_ids, clause_ids, assignment_at, level_at,
  reason_at,
}
use fabko.Sat.Clauses.{lit_true, lit_false}

-- A valuation of the variables makes a literal true.
abbrev pub holds : (ℕ → Bool) → Entry → Bool
holds ν p = (is_on p.0 && ν p.1) || (is_off p.0 && not (ν p.1))

-- Equal but for the activity.
pub record Agree (v w : Variable) : Type 0 where
  pub literal : w.literal ≡ v.literal
  pub assignment : w.assignment ≡ v.assignment
  pub level : w.context.decision_level ≡ v.context.decision_level
  pub reason : w.context.clause_propagation ≡ v.context.clause_propagation

module _ ⦃e : Env⦄ where
  -- The valuation satisfies every clause, learned ones included.
  abbrev pub Models : (ℕ → Bool) → Context → Type 0
  Models ν ctx = (d : ℕ) → In d (clause_ids ctx) → any (holds ν) (lits_at ctx d) ≡ true

  abbrev pub IsFalse : Context → Entry → Type 0
  IsFalse ctx p = lit_false p.0 (assignment_at ctx p.1) ≡ true

  -- A literal of the clause that forced `x`: of `x` and true, or false since before `x`.
  abbrev pub Forces : Context → ℕ → List ℕ → Entry → Type 0
  Forces ctx x rest p =
      ((p.1 ≡ x) × (lit_true p.0 (assignment_at ctx x) ≡ true)) ⊎ (IsFalse ctx p × In p.1 rest)

-- `canon` gives the variable id that the literals of a variable are mapped to.
module _ ⦃e : Env⦄ (canon : ℕ → ℕ) where
  pub record IsEntry (ctx : Context) (p : Entry) : Type 0 where
    pub known : In p.1 (var_ids ctx)
    pub canonical : p.1 ≡ canon (value p.0)
    pub named : value p.0 ≡ value (var_at ctx p.1).literal
    pub nonzero : value p.0 ≢ 0

  -- Why `x` has its assignment: a decision stands above level 0 and above what is before it.
  abbrev pub IsReason : Context → ℕ → List ℕ → Option ℕ → Type 0
  IsReason ctx x rest none =
      (0 < level_at ctx x) × ((y : ℕ) → In y rest → level_at ctx y < level_at ctx x)
  IsReason ctx x rest (some d) =
      In d (clause_ids ctx)
      × (x ≡ canon (value (var_at ctx x).literal))
      × All (Forces ctx x rest) (lits_at ctx d)

  -- The levels fall along the trail, from `n`.
  abbrev pub IsTrail : Context → ℕ → List ℕ → Type 0
  IsTrail ctx n [] = Unit
  IsTrail ctx n (x ∷ rest) =
      In x (var_ids ctx)
      × (level_at ctx x ≤ n)
      × (¬ In x rest)
      × (is_unassigned (assignment_at ctx x) ≡ false)
      × IsReason ctx x rest (reason_at ctx x)
      × IsTrail ctx (level_at ctx x) rest

  pub record IsValid (ctx : Context) : Type 0 where
    pub entries : (d : ℕ) → In d (clause_ids ctx) → All (IsEntry ctx) (lits_at ctx d)
    pub ordered : IsTrail ctx ctx.level ctx.trail
    pub complete :
        (i : ℕ) → In i (var_ids ctx) → is_unassigned (assignment_at ctx i) ≡ false → In i ctx.trail
    pub no_reason :
        (i : ℕ)
        → In i (var_ids ctx)
        → is_unassigned (assignment_at ctx i) ≡ true
        → reason_at ctx i ≡ none

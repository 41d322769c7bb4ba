-- ===== src/Sat/Build.antt =====
-- The constructor `solver_context::solver_context` of fabko/compiler/backend/sat/solver.cpp, in a
-- build with assertions.
pub mod Variables
pub mod Valid
pub mod Total
use fabko.Base.{ℕ, pos, ◌+ℤ◌, if◌then◌else◌, ◌≡◌, refl, List, [], ◌∷◌, Option, none, some}
use fabko.Sat.Literal.{Literal, not_assigned, same_var}
use fabko.Sat.Types.{Env, Context, Entry, Variable, Model, Statistics}
use fabko.Sat.Watcher.{assertion, Result, ok, err, make_watcher}
use fabko.Sat.Vsids.{change_activity}

-- `next` runs on a value; an exception ends the rest.
infixl 5 ◌>>=◌
abbrev pub ◌>>=◌ {ℓ κ} :
    {Next : Type κ} {Value : Type ℓ} → Result Value → (Value → Result Next) → Result Next
err problem >>= next = err problem
ok value >>= next = next value

-- Where a chain returns, its first part did.
pub ok-of_chain {ℓ κ} :
    {Next : Type κ} {Value : Type ℓ} (first : Result Value) (next : Value → Result Next) {y : Next}
    → (first >>= next) ≡ ok y
    → (value : Value) × (first ≡ ok value) × (next value ≡ ok y)
ok-of_chain (err problem) next returns = cc
ok-of_chain (ok value) next returns = (value, refl, returns)

pub ok-injective {ℓ} : {A : Type ℓ} (a b : A) → ok a ≡ ok b → a ≡ b
ok-injective a b h = cc

abbrev pub new_variable : Literal → Variable
new_variable l = record {
  literal = l;
  assignment = not_assigned;
  context = record { vsids_activity = pos 0; decision_level = 0; clause_propagation = none };
}

abbrev pub no_statistics : Statistics
no_statistics = record {
  restarts = 0;
  conflicts = 0;
  propagations = 0;
  decisions = 0;
  learned_clause = 0;
  max_decision_lvl = 0;
}

-- `zip_transform` of the literals and their ids.
unfoldable pub zip : List Literal → List ℕ → List Entry
zip [] is = []
zip (l ∷ ls) [] = []
zip (l ∷ ls) (i ∷ is) = (l, i) ∷ zip ls is

module _ ⦃e : Env⦄ where
  unfoldable pub insert_variables : e.vars.Store → List Literal → e.vars.Store
  insert_variables vs [] = vs
  insert_variables vs (l ∷ ls) = insert_variables (e.vars.insert vs (new_variable l)).0 ls

  -- `find_if` over the variables.
  unfoldable pub find_variable : e.vars.Store → Literal → List ℕ → Option ℕ
  find_variable vs l [] = none
  find_variable vs l (i ∷ is) =
      let later = find_variable vs l is in
      if same_var (e.vars.at vs i).literal l then some i else later

  pub bump : e.vars.Store → ℕ → e.vars.Store
  unfolding change_activity
  bump vs i = e.vars.put vs i (change_activity (λ a. a +ℤ pos 1) (e.vars.at vs i))

  found_or_fail : Option ℕ → Result ℕ
  found_or_fail none = err assertion
  found_or_fail (some i) = ok i

  -- The fold over the literals of a clause: their ids, and their variables' activity counted up.
  unfoldable pub map_literals : e.vars.Store → List Literal → Result (e.vars.Store × List ℕ)
  unfolding bump found_or_fail
  map_literals vs [] = ok (vs, [])
  map_literals vs (l ∷ ls) = do
    i ← found_or_fail (find_variable vs l (e.vars.ids vs))
    r ← map_literals (bump vs i) ls
    ok (r.0, i ∷ r.1)

  pub record Stores : Type 0 where
    pub vars : e.vars.Store
    pub clauses : e.clauses.Store

  insert_clause : Stores → List Literal → Result Stores
  unfolding zip
  insert_clause s ls = do
    r ← map_literals s.vars ls
    w ← make_watcher r.0 (record { vars = zip ls r.1 })
    ok (record {
      vars = r.0;
      clauses =
          (e.clauses.insert s.clauses
            (record { clause = record { vars = zip ls r.1 }; watcher = w })).0;
    })

  unfoldable pub insert_clauses : Stores → List (List Literal) → Result Stores
  unfolding insert_clause
  insert_clauses s [] = ok s
  insert_clauses s (c ∷ cs) = do s' ← insert_clause s c; insert_clauses s' cs

  abbrev initial : Model → Stores → Context
  initial m s = record {
    config = m.conf;
    vars = s.vars;
    clauses = s.clauses;
    trail = [];
    conflict_count = 0;
    level = 0;
    statistics = no_statistics;
  }

  unfoldable pub make_context : Model → Result Context
  unfolding insert_variables insert_clauses
  make_context m = do
    s ←
        insert_clauses
          (record { vars = insert_variables e.vars.empty m.literals; clauses = e.clauses.empty })
          m.clauses
    ok (initial m s)

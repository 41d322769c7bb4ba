-- ===== src/Sat/Backtrack.antt =====
-- `backtrack` of fabko/compiler/backend/sat/solver_impl.cpp.
pub mod Valid
use fabko.Base.{ℕ, List, [], ◌∷◌, none, leb, if◌then◌else◌}
use fabko.Sat.Literal.{not_assigned}
use fabko.Sat.Types.{Env, Context, Variable, var_at, level_at}

-- The assignment and its reason are cleared; the level and the activity stay.
unfoldable pub unassign : Variable → Variable
unassign v = record v {
  assignment = not_assigned;
  context = record (v.context) { clause_propagation = none };
}

module _ ⦃e : Env⦄ where
  -- One round of the loop: the last variable of the trail is cleared and taken off.
  unfoldable pub pop : Context → ℕ → List ℕ → Context
  unfolding unassign
  pop ctx i rest = record ctx {
    vars = e.vars.put ctx.vars i (unassign (var_at ctx i));
    trail = rest;
  }

  -- The loop, over the trail that is left.
  unfoldable pub backtrack_loop : Context → ℕ → List ℕ → Context
  backtrack_loop ctx level [] = record ctx { trail = [] }
  backtrack_loop ctx level (i ∷ rest) =
      let popped = backtrack_loop (pop ctx i rest) level rest in
      if leb (level_at ctx i) level then record ctx { trail = i ∷ rest } else popped

  unfoldable pub backtrack : Context → ℕ → Context
  unfolding backtrack_loop
  backtrack ctx level = record (backtrack_loop ctx level ctx.trail) { level = level }

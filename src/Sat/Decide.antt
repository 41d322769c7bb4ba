-- ===== src/Sat/Decide.antt =====
-- `make_decision` of fabko/compiler/backend/sat/solver_impl.cpp.
pub mod Valid
use Prim.Native.Nat.{max}
use fabko.Base.{ℕ, ◌+◌, ◌%◌, ◌^◌, ltb_ℤ, if◌then◌else◌, List, [], ◌∷◌, Option, none, some, keep}
use fabko.Sat.Literal.{on, is_unassigned}
use fabko.Sat.Types.{Env, Context, Variable, var_at, var_ids, assignment_at}

module _ ⦃e : Env⦄ where
  unfoldable pub unassigned_vars : Context → List ℕ
  unassigned_vars ctx = keep (λ i. is_unassigned (assignment_at ctx i)) (var_ids ctx)

  -- `std::ranges::max_element` by activity: the first of the greatest.
  unfoldable pub highest_vsids : Context → ℕ → List ℕ → ℕ
  highest_vsids ctx best [] = best
  highest_vsids ctx best (i ∷ is) =
      highest_vsids ctx
        (if ltb_ℤ (var_at ctx best).context.vsids_activity (var_at ctx i).context.vsids_activity
          then i
          else best)
        is

  unfoldable pub decided : Variable → ℕ → Variable
  decided v level = record v {
    assignment = on;
    context = record (v.context) { decision_level = level };
  }

  unfoldable pub decide : Context → ℕ → Context
  unfolding decided
  decide ctx i = record ctx {
    level = ctx.level + 1;
    vars = e.vars.put ctx.vars i (decided (var_at ctx i) (ctx.level + 1));
    trail = i ∷ ctx.trail;
    statistics = record (ctx.statistics) {
      max_decision_lvl = max ctx.statistics.max_decision_lvl (ctx.level + 1);
      decisions = (ctx.statistics.decisions + 1) % 2 ^ 64;
    };
  }

  decide_among : Context → List ℕ → Option Context
  decide_among ctx [] = none
  decide_among ctx (i ∷ is) = some (decide ctx (highest_vsids ctx i is))

  -- `none` is the result `false`, which leaves the context as it is.
  unfoldable pub make_decision : Context → Option Context
  unfolding decide_among
  make_decision ctx = decide_among ctx (unassigned_vars ctx)

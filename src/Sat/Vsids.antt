-- ===== src/Sat/Vsids.antt =====
-- `update_vsids_activity` of fabko/compiler/backend/sat/solver_impl.cpp. Activities are integers; the
-- normalisation keeps the source's `int64_t` sums below its maximum.
pub mod Valid
use fabko.Base.{
  ℕ, ◌-◌, ◌%◌, ◌^◌, ℤ, pos, ◌+ℤ◌, ◌-ℤ◌, leb_ℤ, to_size, Bool, if◌then◌else◌, List, [], ◌∷◌, any,
  map, ◌==◌,
}
use fabko.Sat.Types.{Env, Context, Clause, Entry, Variable, var_at, var_ids}
use fabko.Sat.Watcher.{Result, ok, err, division_by_zero}

unfoldable pub change_activity : (ℤ → ℤ) → Variable → Variable
change_activity f v = record v {
  context = record (v.context) { vsids_activity = f v.context.vsids_activity };
}

module _ ⦃e : Env⦄ where
  -- A loop that changes the activity of each of the variables.
  unfoldable pub update_each : (ℤ → ℤ) → Context → List ℕ → Context
  unfolding change_activity
  update_each f ctx [] = ctx
  update_each f ctx (i ∷ is) =
      update_each f (record ctx { vars = e.vars.put ctx.vars i (change_activity f (var_at ctx i)) })
        is

  unfoldable pub need_normalization : Context → List Entry → Bool
  need_normalization ctx lits =
      any
        (λ p.
          leb_ℤ (pos (2 ^ 63 - 1) -ℤ ctx.config.vsids_increment)
            (var_at ctx p.1).context.vsids_activity)
        lits

  normalized : Context → List Entry → Context
  normalized ctx lits =
      if need_normalization ctx lits then update_each e.divide_1e6 ctx (var_ids ctx) else ctx

  increased : Context → List Entry → Context
  increased ctx lits =
      update_each (λ a. a +ℤ ctx.config.vsids_increment) ctx (map (λ (p : Entry). p.1) lits)

  -- The remainder of a division by the interval, as a `size_t`.
  decayed : Context → Result Context
  decayed ctx =
      if to_size ctx.config.decay_interval == 0
      then err division_by_zero
      else if ctx.statistics.conflicts % to_size ctx.config.decay_interval == 0
      then ok (update_each (λ a. e.divide a ctx.config.vsids_decay_ratio) ctx (var_ids ctx))
      else ok ctx

  unfoldable pub update_vsids_activity : Context → Clause → Result Context
  unfolding normalized increased decayed
  update_vsids_activity ctx c = decayed (increased (normalized ctx c.vars) c.vars)

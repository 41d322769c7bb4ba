-- ===== src/Sat/Resolve.antt =====
-- `resolve_conflict` of fabko/compiler/backend/sat/solver_impl.cpp. A handle of a variable is its id.
pub mod Literals
pub mod Sorted
pub mod Strict
pub mod Sound
pub mod Uip
pub mod Loop
pub mod Asserting
use fabko.Base.{
  ℕ, Bool, true, false, not, ◌&&◌, ◌||◌, if◌then◌else◌, List, [], ◌∷◌, ◌++◌, map, Option, none,
  some, length, keep, any, ◌==◌, ltb,
}
use fabko.Sat.Literal.{Literal, value, same_var, var_lt}
use fabko.Sat.Types.{
  Env, Context, Entry, ConflictResolutionResult, var_at, lits_at, level_at, reason_at,
}

-- The variables of the function that its loop changes.
pub record Resolution : Type 0 where
  pub learned : List Entry
  pub current_level_vars : List ℕ
  pub backtrack_level : ℕ

-- `std::ranges::sort` by variable. (Entries of one variable may come in any order; there they are
-- equal literals.)
unfoldable pub sort_insert : Entry → List Entry → List Entry
sort_insert p [] = p ∷ []
sort_insert p (q ∷ qs) =
    let later = q ∷ sort_insert p qs in if var_lt q.0 p.0 then later else p ∷ q ∷ qs

unfoldable pub sort : List Entry → List Entry
unfolding sort_insert
sort [] = []
sort (p ∷ ps) = sort_insert p (sort ps)

-- `std::ranges::unique`: of neighbours with one variable the first stays.
unfoldable pub unique_from : Entry → List Entry → List Entry
unique_from p [] = p ∷ []
unique_from p (q ∷ qs) =
    let skip = unique_from p qs in
    let take = p ∷ unique_from q qs in if same_var p.0 q.0 then skip else take

unfoldable pub unique : List Entry → List Entry
unfolding unique_from
unique [] = []
unique (p ∷ ps) = unique_from p ps

abbrev pub is_var : Literal → Entry → Bool
is_var l p = value p.0 == value l

module _ ⦃e : Env⦄ where
  abbrev pub at_current_level : Context → ℕ → Bool
  at_current_level ctx i = level_at ctx i == ctx.level

  -- One literal of the antecedent clause.
  unfoldable pub add_literal : Context → Literal → Resolution → Entry → Resolution
  add_literal ctx trail_lit s (l, i) =
      if is_var trail_lit (l, i) || any (is_var l) s.learned
      then s
      else if at_current_level ctx i
      then record s {
        learned = s.learned ++ (l, i) ∷ [];
        current_level_vars = s.current_level_vars ++ i ∷ [];
      }
      else record s {
        learned = s.learned ++ (l, i) ∷ [];
        backtrack_level =
            if ltb s.backtrack_level (level_at ctx i) then level_at ctx i else s.backtrack_level;
      }

  unfoldable pub add_literals : Context → Literal → Resolution → List Entry → Resolution
  unfolding add_literal
  add_literals ctx trail_lit s [] = s
  add_literals ctx trail_lit s (p ∷ ps) =
      add_literals ctx trail_lit (add_literal ctx trail_lit s p) ps

  -- `std::erase_if` of the trail literal's variable.
  abbrev pub erase_var : Literal → List Entry → List Entry
  erase_var l = keep (λ p. not (is_var l p))

  abbrev pub antecedent : Context → Option ℕ → List Entry
  antecedent ctx none = []
  antecedent ctx (some d) = lits_at ctx d

  unfoldable pub resolve_with : Context → Resolution → ℕ → Resolution
  unfolding add_literals
  resolve_with ctx s x =
      let trail_lit = (var_at ctx x).literal in
      let r =
        add_literals ctx trail_lit (record s { learned = erase_var trail_lit s.learned })
          (antecedent ctx (reason_at ctx x)) in
      record r {
        current_level_vars =
            keep (λ i. not (same_var (var_at ctx i).literal trail_lit)) r.current_level_vars;
      }

  abbrev pub is_propagated : Option ℕ → Bool
  is_propagated none = false
  is_propagated (some d) = true

  -- The test of the inner loop on the trail.
  unfoldable pub is_candidate : Context → Resolution → ℕ → Bool
  is_candidate ctx s x =
      is_propagated (reason_at ctx x)
      && at_current_level ctx x
      && any (λ i. same_var (var_at ctx i).literal (var_at ctx x).literal) s.current_level_vars

  -- One position of the trail: the outer loop goes on while two variables of the level are left, and
  -- the inner one passes over what is no candidate.
  unfoldable pub resolve_at : Context → Resolution → ℕ → Resolution
  unfolding resolve_with is_candidate
  resolve_at ctx s x =
      if ltb 1 (length s.current_level_vars) && is_candidate ctx s x
      then resolve_with ctx s x
      else s

  -- The two loops, on the part of the trail up to `trail_index`, its last element first. Each round
  -- lowers the index by one, and index 0 ends both. On an empty trail the source would read outside
  -- it; a conflict has an assigned literal, so that does not occur.
  unfoldable pub resolve_loop : Context → Resolution → List ℕ → Resolution
  unfolding resolve_at
  resolve_loop ctx s [] = s
  resolve_loop ctx s (x ∷ []) = s
  resolve_loop ctx s (x ∷ y ∷ rest) = resolve_loop ctx (resolve_at ctx s x) (y ∷ rest)

  abbrev pub start_resolution : Context → List Entry → Resolution
  start_resolution ctx c = record {
    learned = c;
    current_level_vars = keep (at_current_level ctx) (map (λ (p : Entry). p.1) c);
    backtrack_level = 0;
  }

  unfoldable pub resolve_conflict : Context → ℕ → ConflictResolutionResult
  unfolding resolve_loop sort unique
  resolve_conflict ctx d =
      let r = resolve_loop ctx (start_resolution ctx (lits_at ctx d)) ctx.trail in
      record {
        learned_clause = record { vars = unique (sort r.learned) };
        backtrack_level = r.backtrack_level;
      }

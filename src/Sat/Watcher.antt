-- ===== src/Sat/Watcher.antt =====
-- `clause_watcher` of fabko/compiler/backend/sat/solver.hh and solver.cpp.
pub mod Made
pub mod Laws
use fabko.Base.{
  ℕ, Bool, false, not, ◌&&◌, if◌then◌else◌, List, [], ◌∷◌, ◌++◌, Option, none, some, keep, ◌==◌,
  ◌+◌,
}
use fabko.Sat.Literal.{is_unassigned}
use fabko.Sat.Types.{Env, Clause, ClauseWatcher, Entry}

-- The exceptions that the solver throws: a failed `fabko_assert` of a build with assertions, and those
-- of the standard library. The last two are no exceptions: there the behaviour of the source is
-- undefined.
pub data Exception : Type 0 where
  assertion bad_optional_access runtime_error length_error division_by_zero overflow : Exception

pub data Result {ℓ} (A : Type ℓ) : Type ℓ where
  ok : A → Result A
  err : Exception → Result A

abbrev pub watches : Option ℕ → ℕ → Bool
watches none i = false
watches (some w) i = w == i

-- The first two of the variables without an assignment.
pub first_two : List Entry → ClauseWatcher
first_two [] = record { first = none; second = none }
first_two (p ∷ []) = record { first = some p.1; second = none }
first_two (p ∷ q ∷ ps) = record { first = some p.1; second = some q.1 }

abbrev pub count_watch : Option ℕ → ℕ
count_watch none = 0
count_watch (some w) = 1

-- `size()`.
unfoldable pub size : ClauseWatcher → ℕ
size w = count_watch w.first + count_watch w.second

abbrev to_list : Option ℕ → List ℕ
to_list none = []
to_list (some w) = w ∷ []

unfoldable pub get_watched : ClauseWatcher → List ℕ
get_watched w = to_list w.first ++ to_list w.second

module _ ⦃e : Env⦄ where
  -- Whether a literal's variable has no assignment.
  abbrev pub is_free : e.vars.Store → Entry → Bool
  is_free vs p = is_unassigned (e.vars.at vs p.1).assignment

  pub make_watcher_of : e.vars.Store → List Entry → Result ClauseWatcher
  make_watcher_of vs [] = err assertion
  make_watcher_of vs (p ∷ ps) = ok (first_two (keep (is_free vs) (p ∷ ps)))

  -- The constructor.
  unfoldable pub make_watcher : e.vars.Store → Clause → Result ClauseWatcher
  unfolding make_watcher_of first_two
  make_watcher vs c = make_watcher_of vs c.vars

  -- `find_if` of a new variable to watch, other than the one that stays.
  unfoldable pub find_free : e.vars.Store → Option ℕ → List Entry → Option ℕ
  find_free vs other [] = none
  find_free vs other (p ∷ ps) =
      let later = find_free vs other ps in
      if watches other p.1 then later else if is_free vs p then some p.1 else later

  -- `watchers_[0].value()` throws where the first watch is empty.
  replace_watched : e.vars.Store → Clause → ℕ → Option ℕ → Option ℕ → Result ClauseWatcher
  replace_watched vs c i none second = err bad_optional_access
  replace_watched vs c i (some w) second =
      if w == i
      then ok (record { first = find_free vs second c.vars; second = second })
      else ok (record { first = some w; second = find_free vs (some w) c.vars })

  unfoldable pub replace : e.vars.Store → ClauseWatcher → Clause → ℕ → Result ClauseWatcher
  unfolding replace_watched
  replace vs w c i =
      if not (watches w.first i) && not (watches w.second i)
      then ok w
      else replace_watched vs c i w.first w.second

-- ===== src/Soa.antt =====
-- The interface of `fil::soa::soa`, the structure of arrays that the solver keeps its variables and
-- clauses in. The container is not part of the repository: it is a parameter, with the laws that the
-- solver relies on. A row is read and written through its `struct_id` (here its `offset`).
use fabko.Base.{ℕ, ◌≡◌, List, [], ◌∷◌, ◌++◌, In, ◌==◌, if◌then◌else◌}

pub record Soa (Row : Type 0) : Type 1 where
  pub Store : Type 0
  pub empty : Store
  -- `insert` appends a row and gives its `struct_id`.
  pub insert : Store → Row → Store × ℕ
  -- The ids of the rows, in the order of iteration.
  pub ids : Store → List ℕ
  -- `soa[id]`, and a write through the handle that it returns.
  pub at : Store → ℕ → Row
  pub put : Store → ℕ → Row → Store
  pub ids-empty : ids empty ≡ []
  pub ids-insert : (s : Store) (a : Row) → ids (insert s a).0 ≡ ids s ++ (insert s a).1 ∷ []
  pub insert_fresh : (s : Store) (a : Row) → ¬ In (insert s a).1 (ids s)
  pub at-insert_new : (s : Store) (a : Row) → at (insert s a).0 (insert s a).1 ≡ a
  pub at-insert_old : (s : Store) (a : Row) (i : ℕ) → In i (ids s) → at (insert s a).0 i ≡ at s i
  pub ids-put : (s : Store) (i : ℕ) (a : Row) → ids (put s i a) ≡ ids s
  pub at-put :
      (s : Store) (i j : ℕ) (a : Row)
      → In i (ids s)
      → at (put s i a) j ≡ (if i == j then a else at s j)

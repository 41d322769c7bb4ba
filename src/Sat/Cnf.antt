-- ===== src/Sat/Cnf.antt =====
-- `make_model_from_cnf_file` of fabko/compiler/backend/sat/solver.cpp. How a vector grows is the
-- library's choice, so it is a parameter: `grown` is the capacity after a `push_back` on a full one,
-- `reserved` that after a `reserve` beyond it.
pub mod Unique
pub mod Laws
pub mod Decides
use fabko.Base.{
  ℕ, zero, suc, ◌≤◌, ◌<◌, ◌-◌, ◌^◌, any, ℤ, pos, negsuc, abs, Bool, true, false, not, ◌&&◌, ◌||◌,
  if◌then◌else◌, List, [], ◌∷◌, ◌++◌, map, Option, none, some, length, is_nil, ◌==◌, ltb, leb,
}
use fabko.Text.Join.{Text}
use fabko.Text.Stream.{same_text, read_word, read_integer, lines_of}
use fabko.Sat.Literal.{Literal, value, same_var, var_lt}
use fabko.Sat.Types.{Env, Configuration, Model, Context}
use fabko.Sat.Watcher.{Exception, assertion, runtime_error, length_error, overflow, Result, ok, err}
use fabko.Sat.Build.{◌>>=◌, make_context}

pub record VectorGrowth : Type 0 where
  pub grown : ℕ → ℕ
  pub reserved : ℕ → ℕ
  pub grown-lt : (n : ℕ) → n < grown n
  pub reserved-le : (n : ℕ) → n ≤ reserved n

-- What the file system has under the path.
pub data CnfFile : Type 0 where
  missing unreadable : CnfFile
  content : Text → CnfFile

-- The variables of the function; `literals` is empty until the end, so only its capacity counts.
pub record Reading : Type 0 where
  pub clauses : List (List Literal)
  pub clauses_capacity : ℕ
  pub literals_capacity : ℕ
  pub literals_unique : List Literal

abbrev pub new_reading : Reading
new_reading = record {
  clauses = [];
  clauses_capacity = 0;
  literals_capacity = 0;
  literals_unique = [];
}

abbrev pub literal_of : ℤ → Literal
literal_of v = record { value_ = v }

-- `std::set::insert`, in the order of the variables.
unfoldable pub insert_unique : Literal → List Literal → List Literal
insert_unique l [] = l ∷ []
insert_unique l (m ∷ ms) =
    let later = insert_unique l ms in
    if var_lt l m then l ∷ m ∷ ms else if var_lt m l then m ∷ later else m ∷ ms

unfoldable pub insert_each : List Literal → List Literal → List Literal
unfolding insert_unique
insert_each [] unique = unique
insert_each (l ∷ ls) unique = insert_each ls (insert_unique (literal_of (pos (value l))) unique)

-- `while (iss >> lit && lit != 0)`, on fuel.
abbrev pub is_zero : ℤ → Bool
is_zero (pos zero) = true
is_zero (pos (suc n)) = false
is_zero (negsuc n) = false

unfoldable pub read_literals : ℕ → Text → List Literal
read_literals zero s = []
read_literals (suc fuel) s =
    let (lit, more) = read_integer 64 s in
    elim more [
      | none ↦ []
      | some rest ↦ if is_zero lit then [] else literal_of lit ∷ read_literals fuel rest
    ]

-- Each number takes a character at least.
abbrev pub clause_of_line : Text → List Literal
clause_of_line line = read_literals (suc (length line)) line

-- The `int64_t` of which `std::abs` is undefined.
abbrev pub is_least_value : ℤ → Bool
is_least_value (pos n) = false
is_least_value (negsuc n) = n == 2 ^ 63 - 1

abbrev pub is_least : Literal → Bool
is_least l = is_least_value l.value_

module _ ⦃g : VectorGrowth⦄ where
  abbrev pub after_reserve : ℕ → ℕ → ℕ
  after_reserve capacity n = if leb n capacity then capacity else g.reserved n

  abbrev pub after_push : ℕ → ℕ → ℕ
  after_push size capacity = if ltb size capacity then capacity else g.grown capacity

  abbrev pub add_clause : Reading → List Literal → Reading
  add_clause s [] = s
  add_clause s (l ∷ ls) = record {
    clauses = s.clauses ++ (l ∷ ls) ∷ [];
    clauses_capacity = after_push (length s.clauses) s.clauses_capacity;
    literals_capacity = s.literals_capacity;
    literals_unique = insert_each (l ∷ ls) s.literals_unique;
  }

  -- A line of literals.
  unfoldable pub read_clause : Reading → Text → Result Reading
  unfolding read_literals insert_each
  read_clause s line =
      if any is_least (clause_of_line line)
      then err overflow
      else ok (add_clause s (clause_of_line line))

  -- The two numbers of the header; what could not be read is 0, or the nearest value in range.
  abbrev pub second_number : Option Text → ℤ
  second_number none = pos 0
  second_number (some s) = (read_integer 32 s).0

  unfoldable pub header_numbers : Text → ℤ × ℤ
  header_numbers s = ((read_integer 32 s).0, second_number (read_integer 32 s).1)

  -- A negative count is a size beyond `max_size`.
  abbrev pub reserve : ℕ → ℤ → Result ℕ
  reserve capacity (pos n) = ok (after_reserve capacity n)
  reserve capacity (negsuc n) = err length_error

  abbrev pub reserve_both : Reading → ℤ × ℤ → Result Reading
  reserve_both s (num_variables, num_clauses) = do
    v ← reserve s.literals_capacity num_variables
    c ← reserve s.clauses_capacity num_clauses
    ok (record s { literals_capacity = v; clauses_capacity = c })

  -- The two words of the header, and what follows them.
  abbrev pub second_word : Option (Text × Text) → Option Text
  second_word none = none
  second_word (some (w, s)) = if same_text w (99 ∷ 110 ∷ 102 ∷ []) then some s else none

  abbrev pub first_word : Option (Text × Text) → Option Text
  first_word none = none
  first_word (some (w, s)) = if same_text w (112 ∷ []) then second_word (read_word s) else none

  abbrev pub checked_header : Reading → Option Text → Result Reading
  checked_header s none = err runtime_error
  checked_header s (some rest) = reserve_both s (header_numbers rest)

  -- The line `p cnf ...`.
  unfoldable pub read_header : Reading → Text → Result Reading
  unfolding header_numbers
  read_header s line =
      if ltb 0 s.clauses_capacity
      then err runtime_error
      else checked_header s (first_word (read_word line))

  -- One round of the loop over the lines.
  unfoldable pub read_line : Reading → Text → Result Reading
  unfolding read_header read_clause
  read_line s [] = ok s
  read_line s (c ∷ line) =
      if c == 99
      then ok s
      else if c == 112
      then read_header s (c ∷ line)
      else read_clause s (c ∷ line)

  unfoldable pub read_lines : Reading → List Text → Result Reading
  unfolding read_line
  read_lines s [] = ok s
  read_lines s (line ∷ lines) = do s' ← read_line s line; read_lines s' lines

  module _ ⦃e : Env⦄ where
    -- The configuration of a model that sets none; the ratio is the float 0.95.
    unfoldable pub default_conf : e.Float → Configuration
    default_conf ratio = record {
      restart_threshold = 100;
      restart_multiplier = 2;
      vsids_increment = pos 10;
      decay_interval = pos 100;
      vsids_decay_ratio = ratio;
    }

    -- The two assertions, and the model.
    unfoldable pub finish : e.Float → Reading → Result Model
    unfolding default_conf
    finish ratio s =
        if not (length s.literals_unique == s.literals_capacity)
        then err assertion
        else if not (length s.clauses == s.clauses_capacity)
        then err assertion
        else ok (record {
          literals = s.literals_unique;
          clauses = s.clauses;
          conf = default_conf ratio;
        })

    unfoldable pub make_model_from_cnf_file : e.Float → CnfFile → Result Model
    unfolding read_lines finish
    make_model_from_cnf_file ratio missing = err runtime_error
    make_model_from_cnf_file ratio unreadable = err runtime_error
    make_model_from_cnf_file ratio (content text) = do
      s ← read_lines new_reading (lines_of text)
      finish ratio s

    -- `solver` of a model that was read.
    unfoldable pub solver_from_file : e.Float → CnfFile → Result Context
    unfolding make_model_from_cnf_file
    solver_from_file ratio file = do m ← make_model_from_cnf_file ratio file; make_context m

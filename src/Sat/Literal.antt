-- ===== src/Sat/Literal.antt =====
-- `literal` and `assignment` of fabko/compiler/backend/sat/solver.hh. A literal is a signed integer:
-- the sign says on or off, the absolute value names the variable. An `int64_t` is read as an integer
-- other than the least one, of which `std::abs` is undefined.
use fabko.Base.{ℕ, zero, suc, ℤ, pos, negsuc, abs, ◌==◌, ltb, Bool, true, false}

pub data Assignment : Type 0 where
  on off not_assigned : Assignment

pub record Literal : Type 0 where
  pub value_ : ℤ

-- `literal::value()`.
abbrev pub value : Literal → ℕ
value l = abs l.value_

-- `operator==` and `operator<=>` compare the variables.
abbrev pub same_var : Literal → Literal → Bool
same_var a b = value a == value b

abbrev pub var_lt : Literal → Literal → Bool
var_lt a b = ltb (value a) (value b)

abbrev pub positive : ℤ → Bool
positive (pos zero) = false
positive (pos (suc n)) = true
positive (negsuc n) = false

abbrev pub negative : ℤ → Bool
negative (pos n) = false
negative (negsuc n) = true

abbrev pub is_on : Literal → Bool
is_on l = positive l.value_

abbrev pub is_off : Literal → Bool
is_off l = negative l.value_

abbrev pub is_assigned_on : Assignment → Bool
is_assigned_on on = true
is_assigned_on off = false
is_assigned_on not_assigned = false

abbrev pub is_assigned_off : Assignment → Bool
is_assigned_off on = false
is_assigned_off off = true
is_assigned_off not_assigned = false

abbrev pub is_unassigned : Assignment → Bool
is_unassigned on = false
is_unassigned off = false
is_unassigned not_assigned = true

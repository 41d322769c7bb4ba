-- ===== src/SatBuilder.antt =====
-- fabko/compiler/frontend/sat_builder: the SAT model of an integer constant. `compiler_generation_context`
-- is carried along unread.
use fabko.Base.{
  ℕ, minus, ◌-◌, ◌^◌, ℤ, pos, negsuc, Bool, true, false, ltb_ℤ, if◌then◌else◌, List, [], ◌∷◌,
}
use fabko.Sat.Literal.{Literal, value}
pub mod Laws

abbrev pub literal : ℤ → Literal
literal v = record { value_ = v }

-- The absolute value with a minus.
abbrev pub negate : Literal → Literal
negate lit = literal (minus (value lit))

abbrev pub bits16 : Literal
bits16 = literal (pos 0)

abbrev pub bits32 : Literal
bits32 = literal (pos 1)

abbrev pub bits64 : Literal
bits64 = literal (pos 2)

abbrev pub bits_negative : Literal
bits_negative = literal (pos 3)

pub record SatBuildAtom : Type 0 where
  pub literals : List Literal
  pub cnf_clauses : List (List Literal)

-- `value > std::numeric_limits<uint_w_t>::max()`.
abbrev pub above : ℕ → ℤ → Bool
above w value = ltb_ℤ (pos (2 ^ w - 1)) value

abbrev pub is_negative : ℤ → Bool
is_negative (pos n) = false
is_negative (negsuc n) = true

unfoldable pub make_integer_size_sat : ℤ → SatBuildAtom
make_integer_size_sat value = record {
  literals = bits16 ∷ bits32 ∷ bits64 ∷ bits_negative ∷ [];
  cnf_clauses =
      ((if above 8 value then bits16 else negate bits16) ∷ [])
      ∷ ((if above 16 value then bits32 else negate bits32) ∷ [])
      ∷ ((if above 32 value then bits64 else negate bits64) ∷ [])
      ∷ ((if is_negative value then bits32 else negate bits32) ∷ [])
      ∷ [];
}

pub record IntegerSatBuilder : Type 0 where
  pub value_ : ℤ
  pub bits_ : ℕ

-- The lambda of the constructor that chooses the number of bits.
unfoldable pub bits_of : ℤ → ℕ
bits_of value =
    if above 8 value then 16 else if above 16 value then 32 else if above 32 value then 64 else 8

-- The constructor.
unfoldable pub make_builder : ℤ → IntegerSatBuilder
unfolding bits_of
make_builder value = record { value_ = value; bits_ = bits_of value }

unfoldable pub generate_model : IntegerSatBuilder → SatBuildAtom
unfolding make_integer_size_sat
generate_model b = make_integer_size_sat b.value_

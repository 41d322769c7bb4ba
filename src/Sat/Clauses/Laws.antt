-- ===== src/Sat/Clauses/Laws.antt =====
-- How a literal of a variable reads under an assignment.
use fabko.Base.{
  zero, suc, ℤ, pos, negsuc, abs, Bool, true, false, not, ◌&&◌, ◌||◌, if◌then◌else◌, ◌≡◌, ◌≢◌, refl,
}
use fabko.Sat.Literal.{
  Literal, Assignment, on, off, not_assigned, value, positive, negative, is_on, is_off,
  is_unassigned,
}
use fabko.Sat.Clauses.{lit_true, lit_false}

abbrev lit_of : ℤ → Literal
lit_of v = record { value_ = v }

decided_of :
    (v : ℤ) (a : Assignment)
    → abs v ≢ 0
    → is_unassigned a ≡ false
    → lit_true (lit_of v) a ≡ false
    → lit_false (lit_of v) a ≡ true
decided_of (pos zero) a n u h = absurd (n refl)
decided_of (pos (suc k)) on n u h = cc
decided_of (pos (suc k)) off n u h = refl
decided_of (pos (suc k)) not_assigned n u h = cc
decided_of (negsuc k) on n u h = refl
decided_of (negsuc k) off n u h = cc
decided_of (negsuc k) not_assigned n u h = cc

-- A literal of an assigned variable is true or false.
pub lit_decided :
    (l : Literal) (a : Assignment)
    → value l ≢ 0
    → is_unassigned a ≡ false
    → lit_true l a ≡ false
    → lit_false l a ≡ true
lit_decided l a = decided_of l.value_ a

set_of : (v : ℤ) → abs v ≢ 0 → lit_true (lit_of v) (if is_on (lit_of v) then on else off) ≡ true
set_of (pos zero) n = absurd (n refl)
set_of (pos (suc k)) n = refl
set_of (negsuc k) n = refl

-- The assignment that propagation gives makes the literal true.
pub lit_set : (l : Literal) → value l ≢ 0 → lit_true l (if is_on l then on else off) ≡ true
lit_set l = set_of l.value_

pub set_assigned : (b : Bool) → is_unassigned (if b then on else off) ≡ false
set_assigned true = refl
set_assigned false = refl

false_of : (v : ℤ) (a : Assignment) → lit_false (lit_of v) a ≡ true → is_unassigned a ≡ false
false_of (pos zero) a h = cc
false_of (pos (suc k)) on h = refl
false_of (pos (suc k)) off h = refl
false_of (pos (suc k)) not_assigned h = cc
false_of (negsuc k) on h = refl
false_of (negsuc k) off h = refl
false_of (negsuc k) not_assigned h = cc

-- A false literal has an assigned variable.
pub false_assigned : (l : Literal) (a : Assignment) → lit_false l a ≡ true → is_unassigned a ≡ false
false_assigned l a = false_of l.value_ a

true_assigned_of : (v : ℤ) (a : Assignment) → lit_true (lit_of v) a ≡ true → is_unassigned a ≡ false
true_assigned_of v on h = refl
true_assigned_of v off h = refl
true_assigned_of (pos zero) not_assigned h = cc
true_assigned_of (pos (suc n)) not_assigned h = cc
true_assigned_of (negsuc n) not_assigned h = cc

pub true_assigned : (l : Literal) (a : Assignment) → lit_true l a ≡ true → is_unassigned a ≡ false
true_assigned l a = true_assigned_of l.value_ a

true_false_of :
    (v : ℤ) (a : Assignment) → lit_true (lit_of v) a ≡ true → lit_false (lit_of v) a ≡ true → ⊥
true_false_of (pos zero) on h k = cc
true_false_of (pos zero) off h k = cc
true_false_of (pos zero) not_assigned h k = cc
true_false_of (pos (suc n)) on h k = cc
true_false_of (pos (suc n)) off h k = cc
true_false_of (pos (suc n)) not_assigned h k = cc
true_false_of (negsuc n) on h k = cc
true_false_of (negsuc n) off h k = cc
true_false_of (negsuc n) not_assigned h k = cc

-- No literal is both true and false.
pub true_false : (l : Literal) (a : Assignment) → lit_true l a ≡ true → lit_false l a ≡ true → ⊥
true_false l a = true_false_of l.value_ a

both_false_of :
    (v w : ℤ) (a : Assignment)
    → lit_false (lit_of v) a ≡ true
    → lit_false (lit_of w) a ≡ true
    → (positive v ≡ positive w) × (negative v ≡ negative w)
both_false_of (pos zero) w a h k = cc
both_false_of (pos (suc m)) (pos zero) a h k = cc
both_false_of (pos (suc m)) (pos (suc n)) a h k = (refl, refl)
both_false_of (pos (suc m)) (negsuc n) on h k = cc
both_false_of (pos (suc m)) (negsuc n) off h k = cc
both_false_of (pos (suc m)) (negsuc n) not_assigned h k = cc
both_false_of (negsuc m) (pos zero) a h k = cc
both_false_of (negsuc m) (pos (suc n)) on h k = cc
both_false_of (negsuc m) (pos (suc n)) off h k = cc
both_false_of (negsuc m) (pos (suc n)) not_assigned h k = cc
both_false_of (negsuc m) (negsuc n) a h k = (refl, refl)

-- Two literals that one assignment makes false have one sign.
pub both_false :
    (l m : Literal) (a : Assignment)
    → lit_false l a ≡ true
    → lit_false m a ≡ true
    → (is_on l ≡ is_on m) × (is_off l ≡ is_off m)
both_false l m a = both_false_of l.value_ m.value_ a

-- Whether a Boolean value of its variable makes a literal true.
abbrev pub bit_true : Literal → Bool → Bool
bit_true l b = (is_on l && b) || (is_off l && not b)

clash_of :
    (v w : ℤ) (a : Assignment) (b : Bool)
    → lit_false (lit_of v) a ≡ true
    → lit_true (lit_of w) a ≡ true
    → bit_true (lit_of v) b ≡ true
    → bit_true (lit_of w) b ≡ true
    → ⊥
clash_of (pos zero) w a b h k p q = cc
clash_of (pos (suc m)) (pos zero) a b h k p q = cc
clash_of (pos (suc m)) (pos (suc n)) on b h k p q = cc
clash_of (pos (suc m)) (pos (suc n)) off b h k p q = cc
clash_of (pos (suc m)) (pos (suc n)) not_assigned b h k p q = cc
clash_of (pos (suc m)) (negsuc n) a true h k p q = cc
clash_of (pos (suc m)) (negsuc n) a false h k p q = cc
clash_of (negsuc m) (pos zero) a b h k p q = cc
clash_of (negsuc m) (pos (suc n)) a true h k p q = cc
clash_of (negsuc m) (pos (suc n)) a false h k p q = cc
clash_of (negsuc m) (negsuc n) on b h k p q = cc
clash_of (negsuc m) (negsuc n) off b h k p q = cc
clash_of (negsuc m) (negsuc n) not_assigned b h k p q = cc

-- No value of a variable makes true a literal that its assignment makes false and one that it makes
-- true.
pub clash :
    (l m : Literal) (a : Assignment) (b : Bool)
    → lit_false l a ≡ true
    → lit_true m a ≡ true
    → bit_true l b ≡ true
    → bit_true m b ≡ true
    → ⊥
clash l m a b = clash_of l.value_ m.value_ a b

true_forces_of :
    (v : ℤ) (a : Assignment) (b : Bool)
    → lit_true (lit_of v) a ≡ true
    → bit_true (lit_of v) b ≡ true
    → a ≡ (if b then on else off)
true_forces_of (pos zero) a b h k = cc
true_forces_of (pos (suc m)) on true h k = refl
true_forces_of (pos (suc m)) on false h k = cc
true_forces_of (pos (suc m)) off b h k = cc
true_forces_of (pos (suc m)) not_assigned b h k = cc
true_forces_of (negsuc m) on b h k = cc
true_forces_of (negsuc m) off true h k = cc
true_forces_of (negsuc m) off false h k = refl
true_forces_of (negsuc m) not_assigned b h k = cc

-- A literal that both an assignment and a value make true ties the two.
pub true_forces :
    (l : Literal) (a : Assignment) (b : Bool)
    → lit_true l a ≡ true
    → bit_true l b ≡ true
    → a ≡ (if b then on else off)
true_forces l a b = true_forces_of l.value_ a b

false_refutes_of :
    (v : ℤ) (b : Bool)
    → lit_false (lit_of v) (if b then on else off) ≡ true
    → bit_true (lit_of v) b ≡ false
false_refutes_of (pos zero) b h = refl
false_refutes_of (pos (suc m)) true h = cc
false_refutes_of (pos (suc m)) false h = refl
false_refutes_of (negsuc m) true h = refl
false_refutes_of (negsuc m) false h = cc

-- A value does not hold a literal that its own assignment makes false.
pub false_refutes :
    (l : Literal) (b : Bool) → lit_false l (if b then on else off) ≡ true → bit_true l b ≡ false
false_refutes l b = false_refutes_of l.value_ b

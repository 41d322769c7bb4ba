-- ===== src/Sat/Resolve/Strict.antt =====
-- The learned clause ascends strictly, so it names each variable once.
use fabko.Base.{
  ℕ, ◌≤◌, ◌<◌, ◌≡◌, ap, inl, inr, List, [], ◌∷◌, map, map-In, In, All, All-In, All-of_In, Distinct,
  Bool-cases, arith,
}
use fabko.Sat.Literal.{value, same_var, var_lt}
use fabko.Sat.Types.{Entry}
use fabko.Sat.Resolve.{sort_insert, sort, unique_from, unique}
use fabko.Sat.Resolve.Sorted.{sort_insert_from, unique_from-In}

-- In the order of the variables, and strictly so.
abbrev IsSorted : List Entry → Type 0
IsSorted [] = Unit
IsSorted (p ∷ ps) = All (λ q. value p.0 ≤ value q.0) ps × IsSorted ps

abbrev pub IsStrict : List Entry → Type 0
IsStrict [] = Unit
IsStrict (p ∷ ps) = All (λ q. value p.0 < value q.0) ps × IsStrict ps

-- Below all of a list.
abbrev Below : Entry → List Entry → Type 0
Below p ps = (q : Entry) → In q ps → value p.0 ≤ value q.0

Below-cons : (p q : Entry) (ps : List Entry) → value p.0 ≤ value q.0 → Below p ps → Below p (q ∷ ps)
Below-cons p q ps le h r (inl z) = omega (arith, le, ap (λ (w : Entry). value w.0) z)
Below-cons p q ps le h r (inr m) = h r m

All-Below : (p : Entry) (ps : List Entry) → All (λ q. value p.0 ≤ value q.0) ps → Below p ps
All-Below p ps h q m = All-In (λ (r : Entry). value p.0 ≤ value r.0) ps h q m

Below-All : (p : Entry) (ps : List Entry) → Below p ps → All (λ q. value p.0 ≤ value q.0) ps
Below-All p ps h = All-of_In (λ (r : Entry). value p.0 ≤ value r.0) ps h

sort_insert-IsSorted : (p : Entry) (ls : List Entry) → IsSorted ls → IsSorted (sort_insert p ls)
unfolding sort_insert
sort_insert-IsSorted p [] h = (tt, tt)
sort_insert-IsSorted p (q ∷ qs) h = elim (Bool-cases (var_lt q.0 p.0)) [
  | inl t ↦
      rw (t, sort_insert)
        (
          Below-All q (sort_insert p qs) (λ r m.
              Below-cons q p qs (ground arith) (All-Below q qs h.0) r (sort_insert_from p qs r m)),
          sort_insert-IsSorted p qs h.1,
        )
  | inr f ↦
      let le : value p.0 ≤ value q.0 = ground arith in
      rw (f, sort_insert)
        (
          Below-All p (q ∷ qs)
              (Below-cons p q qs le (λ r m. omega (arith, le, All-Below q qs h.0 r m))),
          h,
        )
]

sort-IsSorted : (ls : List Entry) → IsSorted (sort ls)
unfolding sort
sort-IsSorted [] = tt
sort-IsSorted (p ∷ ps) = sort_insert-IsSorted p (sort ps) (sort-IsSorted ps)

unique_from-IsStrict :
    (p : Entry) (ls : List Entry) → IsSorted (p ∷ ls) → IsStrict (unique_from p ls)
unfolding unique_from
unique_from-IsStrict p [] h = (tt, tt)
unique_from-IsStrict p (q ∷ qs) h = elim (Bool-cases (same_var p.0 q.0)) [
  | inl t ↦ rw (t, unique_from) (unique_from-IsStrict p qs (h.0.1, h.1.1))
  | inr f ↦
      let lt : value p.0 < value q.0 = ground (arith, h.0.0) in
      rw (f, unique_from)
        (
          All-of_In (λ (r : Entry). value p.0 < value r.0) (unique_from q qs)
              (λ r m.
                let le =
                  Below-cons q q qs (omega arith) (All-Below q qs h.1.0) r
                    (unique_from-In q qs r m) in
                omega (arith, lt, le)),
          unique_from-IsStrict q qs h.1,
        )
]

unique-IsStrict : (ls : List Entry) → IsSorted ls → IsStrict (unique ls)
unfolding unique
unique-IsStrict [] h = tt
unique-IsStrict (p ∷ ps) h = unique_from-IsStrict p ps h

pub sorted-IsStrict : (ls : List Entry) → IsStrict (unique (sort ls))
sorted-IsStrict ls = unique-IsStrict (sort ls) (sort-IsSorted ls)

-- Where an id has one variable, ids do not repeat.
pub IsStrict-Distinct :
    (ls : List Entry) (name : ℕ → ℕ)
    → All (λ p. value p.0 ≡ name p.1) ls
    → IsStrict ls
    → Distinct (map (λ (p : Entry). p.1) ls)
IsStrict-Distinct [] name h s = tt
IsStrict-Distinct (p ∷ ps) name h s = (
  λ m.
      let (q, i, z) = map-In (λ (r : Entry). r.1) ps p.1 m in
      let lt = All-In (λ (r : Entry). value p.0 < value r.0) ps s.0 q i in
      let eq = All-In (λ (r : Entry). value r.0 ≡ name r.1) ps h.1 q i in
      omega (arith, lt, eq, h.0, ap name z),
  IsStrict-Distinct ps name h.1 s.1,
)

-- ===== src/Sat/Cnf/Unique.antt =====
-- The set of literals that the reader of CNF files gathers.
use fabko.Base.{
  ℕ, ◌<◌, pos, ◌≡◌, refl, inl, inr, List, [], ◌∷◌, In, All, All-imp, Bool-cases, arith,
}
use fabko.Sat.Literal.{Literal, value, var_lt}
use fabko.Sat.Build.Total.{Names}
use fabko.Sat.Cnf.{literal_of, insert_unique, insert_each}

-- The set: in ascending order of the variables, one positive literal for each.
abbrev pub IsStrict : List Literal → Type 0
IsStrict [] = Unit
IsStrict (l ∷ ls) = All (λ m. value l < value m) ls × IsStrict ls

insert_unique-above :
    (k : ℕ) (l : Literal) (us : List Literal)
    → k < value l
    → All (λ m. k < value m) us
    → All (λ m. k < value m) (insert_unique l us)
unfolding insert_unique
insert_unique-above k l [] h a = (h, tt)
insert_unique-above k l (m ∷ ms) h a = elim (Bool-cases (var_lt l m)) [
  | inl t ↦ rw t (h, a)
  | inr f ↦ elim (Bool-cases (var_lt m l)) [
    | inl t ↦ rw f (rw t (a.0, insert_unique-above k l ms h a.1))
    | inr f' ↦ rw f (rw f' a)
  ]
]

pub insert_unique-IsStrict :
    (l : Literal) (us : List Literal) → IsStrict us → IsStrict (insert_unique l us)
unfolding insert_unique
insert_unique-IsStrict l [] h = (tt, tt)
insert_unique-IsStrict l (m ∷ ms) h = elim (Bool-cases (var_lt l m)) [
  | inl t ↦
      let lt : value l < value m = ground arith in
      rw t ((lt, All-imp ms (λ n g. omega (arith, g)) h.0), h)
  | inr f ↦ elim (Bool-cases (var_lt m l)) [
    | inl t ↦
        let lt : value m < value l = ground arith in
        rw f (rw t (insert_unique-above (value m) l ms lt h.0, insert_unique-IsStrict l ms h.1))
    | inr f' ↦ rw f (rw f' h)
  ]
]

Names-cons : (u : Literal) (us : List Literal) (l : Literal) → Names us l → Names (u ∷ us) l
Names-cons u us l (m, i, q) = (m, inr i, q)

insert_unique_self : (l : Literal) (us : List Literal) → Names (insert_unique l us) l
unfolding insert_unique
insert_unique_self l [] = (l, inl refl, refl)
insert_unique_self l (m ∷ ms) = elim (Bool-cases (var_lt l m)) [
  | inl t ↦ rw t (l, inl refl, refl)
  | inr f ↦ elim (Bool-cases (var_lt m l)) [
    | inl t ↦ rw f (rw t (Names-cons m (insert_unique l ms) l (insert_unique_self l ms)))
    | inr f' ↦ let q : value m ≡ value l = ground arith in rw f (rw f' (m, inl refl, q))
  ]
]

insert_unique-kept :
    (l : Literal) (us : List Literal) (u : Literal) → In u us → In u (insert_unique l us)
unfolding insert_unique
insert_unique-kept l [] u i = absurd i
insert_unique-kept l (m ∷ ms) u i = elim (Bool-cases (var_lt l m)) [
  | inl t ↦ rw t (inr i)
  | inr f ↦ elim (Bool-cases (var_lt m l)) [
    | inl t ↦ rw f (rw t (elim i [ inl z ↦ inl z | inr j ↦ inr (insert_unique-kept l ms u j) ]))
    | inr f' ↦ rw f (rw f' i)
  ]
]

-- The literals that are inserted are named afterwards, and what was named stays so.
pub insert_each-Names :
    (ls us : List Literal)
    → IsStrict us
    → IsStrict (insert_each ls us)
      × All (Names (insert_each ls us)) ls
      × ((l : Literal) → Names us l → Names (insert_each ls us) l)
unfolding insert_each
insert_each-Names [] us h = (h, tt, λ l n. n)
insert_each-Names (l ∷ ls) us h =
    let l' = literal_of (pos (value l)) in
    let (s, a, k) = insert_each-Names ls (insert_unique l' us) (insert_unique-IsStrict l' us h) in
    let (m, i, q) = insert_unique_self l' us in
    (s, (k l (m, i, q), a), λ n (u, j, e). k n (u, insert_unique-kept l' us u j, e))

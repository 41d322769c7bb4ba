-- ===== src/Sat/Resolve/Sorted.antt =====
-- The sort of the learned clause and the removal of duplicates keep its variables.
use fabko.Base.{
  true, ◌==◌, ==_refl, ==_iff, ◌≡◌, refl, ap, ◌∙◌, subst, inl, inr, List, [], ◌∷◌, In, any,
  any_intro, Bool-cases, arith,
}
use fabko.Sat.Literal.{value, same_var, var_lt}
use fabko.Sat.Types.{Entry}
use fabko.Sat.Resolve.{is_var, sort_insert, sort, unique_from, unique}

sort_insert_to : (p : Entry) (ls : List Entry) (q : Entry) → In q (p ∷ ls) → In q (sort_insert p ls)
unfolding sort_insert
sort_insert_to p [] q m = m
sort_insert_to p (r ∷ rs) q m = elim (Bool-cases (var_lt r.0 p.0)) [
  | inl t ↦ rw (t, sort_insert) (later (sort_insert_to p rs q) m)
  | inr f ↦ rw (f, sort_insert) m
]
  where
    later :
        (In q (p ∷ rs) → In q (sort_insert p rs)) → In q (p ∷ r ∷ rs) → In q (r ∷ sort_insert p rs)
    later h (inl z) = inr (h (inl z))
    later h (inr (inl z)) = inl z
    later h (inr (inr i)) = inr (h (inr i))

pub sort_insert_from :
    (p : Entry) (ls : List Entry) (q : Entry) → In q (sort_insert p ls) → In q (p ∷ ls)
unfolding sort_insert
sort_insert_from p [] q m = m
sort_insert_from p (r ∷ rs) q m = elim (Bool-cases (var_lt r.0 p.0)) [
  | inl t ↦ earlier (sort_insert_from p rs q) (rw (t, sort_insert) at m)
  | inr f ↦ rw (f, sort_insert) at m
]
  where
    earlier :
        (In q (sort_insert p rs) → In q (p ∷ rs)) → In q (r ∷ sort_insert p rs) → In q (p ∷ r ∷ rs)
    earlier h (inl z) = inr (inl z)
    earlier h (inr i) = elim (h i) [ inl z ↦ inl z | inr j ↦ inr (inr j) ]

pub In-sort_to : (ls : List Entry) (q : Entry) → In q ls → In q (sort ls)
unfolding sort
In-sort_to [] q m = m
In-sort_to (p ∷ ps) q (inl z) = sort_insert_to p (sort ps) q (inl z)
In-sort_to (p ∷ ps) q (inr i) = sort_insert_to p (sort ps) q (inr (In-sort_to ps q i))

pub In-sort_from : (ls : List Entry) (q : Entry) → In q (sort ls) → In q ls
unfolding sort
In-sort_from [] q m = m
In-sort_from (p ∷ ps) q m = elim (sort_insert_from p (sort ps) q m) [
  | inl z ↦ inl z
  | inr i ↦ inr (In-sort_from ps q i)
]

pub unique_from-In :
    (p : Entry) (ls : List Entry) (q : Entry) → In q (unique_from p ls) → In q (p ∷ ls)
unfolding unique_from
unique_from-In p [] q m = m
unique_from-In p (r ∷ rs) q m = elim (Bool-cases (same_var p.0 r.0)) [
  | inl t ↦ skip (unique_from-In p rs q (rw (t, unique_from) at m))
  | inr f ↦ take (unique_from-In r rs q) (rw (f, unique_from) at m)
]
  where
    skip : In q (p ∷ rs) → In q (p ∷ r ∷ rs)
    skip (inl z) = inl z
    skip (inr i) = inr (inr i)

    take :
        (In q (unique_from r rs) → In q (r ∷ rs)) → In q (p ∷ unique_from r rs) → In q (p ∷ r ∷ rs)
    take h (inl z) = inl z
    take h (inr i) = inr (h i)

-- Each variable stays.
unique_from-covers :
    (p : Entry) (ls : List Entry) (q : Entry)
    → In q (p ∷ ls)
    → any (is_var q.0) (unique_from p ls) ≡ true
unfolding unique_from
unique_from-covers p [] q (inl z) =
    subst (λ (r : Entry). any (is_var r.0) (p ∷ []) ≡ true) z (ground arith)
unique_from-covers p [] q (inr z) = absurd z
unique_from-covers p (r ∷ rs) q m = elim (Bool-cases (same_var p.0 r.0)) [
  | inl t ↦
      rw (t, unique_from)
        (skip (unique_from-covers p rs q) (unique_from-covers p rs p (inl refl)) t m)
  | inr f ↦ rw (f, unique_from) (take (unique_from-covers r rs q) m)
]
  where
    skip :
        (In q (p ∷ rs) → any (is_var q.0) (unique_from p rs) ≡ true)
        → any (is_var p.0) (unique_from p rs) ≡ true
        → same_var p.0 r.0 ≡ true
        → In q (p ∷ r ∷ rs)
        → any (is_var q.0) (unique_from p rs) ≡ true
    skip h self t (inl z) = h (inl z)
    skip h self t (inr (inl z)) =
        subst (λ v. any (λ (w : Entry). value w.0 == v) (unique_from p rs) ≡ true)
          ((==_iff (value p.0) (value r.0)).0 t ∙ ap (λ (w : Entry). value w.0) z) self
    skip h self t (inr (inr i)) = h (inr i)

    take :
        (In q (r ∷ rs) → any (is_var q.0) (unique_from r rs) ≡ true)
        → In q (p ∷ r ∷ rs)
        → any (is_var q.0) (p ∷ unique_from r rs) ≡ true
    take h (inl z) =
        any_intro (is_var q.0) (p ∷ unique_from r rs) p (inl refl)
          (subst (λ (w : Entry). is_var w.0 p ≡ true) z (==_refl (value p.0)))
    take h (inr i) = let t = h i in ground arith

pub In-unique : (ls : List Entry) (q : Entry) → In q (unique ls) → In q ls
unfolding unique
In-unique [] q m = m
In-unique (p ∷ ps) q m = unique_from-In p ps q m

pub unique-covers : (ls : List Entry) (q : Entry) → In q ls → any (is_var q.0) (unique ls) ≡ true
unfolding unique
unique-covers [] q m = absurd m
unique-covers (p ∷ ps) q m = unique_from-covers p ps q m

-- ===== src/Text/Split/Laws.antt =====
-- Splitting a text loses nothing, and ends unless the separator is empty.
use fabko.Base.{
  ℕ, zero, suc, ◌+◌, ◌≤◌, ◌<◌, ℤ, pos, negsuc, Bool, true, false, ◌&&◌, List, [], ◌∷◌, ◌++◌, ◌≡◌,
  refl, sym, ◌∙◌, ap, subst, Option, none, some, length, length-append, append-nil, is_nil, ◌==◌,
  ==_iff, inl, inr, Bool-cases, Option-cases, arith,
}
use fabko.Text.Join.{Text, join, tail_of, join_cons}
use fabko.Text.Split.{
  take, drop, starts_with, later, find, is_last, lowered, with_part, split_loop, allowed,
  split_string,
}

some_inj : {A : Type 0} {a b : A} → some a ≡ some b → a ≡ b
some_inj h = cc

&&-both : (a b : Bool) → (a && b) ≡ true → (a ≡ true) × (b ≡ true)
&&-both true b h = (refl, h)
&&-both false b h = cc

starts_with_split : (s p : Text) → starts_with s p ≡ true → s ≡ p ++ drop (length p) s
starts_with_split s [] h = refl
starts_with_split [] (x ∷ p) h = cc
starts_with_split (c ∷ s) (x ∷ p) h =
    let q = &&-both (c == x) (starts_with s p) h in
    let same : c ≡ x = (==_iff c x).0 q.0 in
    subst (λ y. c ∷ s ≡ y ∷ (p ++ drop (length p) s)) same (ap (◌∷◌ c) (starts_with_split s p q.1))

-- Where the separator is found, it parts the text.
pub find_split :
    (separator s : Text) (k : ℕ)
    → find separator s ≡ some k
    → s ≡ take k s ++ (separator ++ drop (k + length separator) s)
unfolding find
find_split [] [] zero h = refl
find_split [] [] (suc k) h = cc
find_split (x ∷ p) [] k h = cc
find_split separator (c ∷ s) k h = elim (Bool-cases (starts_with (c ∷ s) separator)) [
  | inl t ↦
      let q : some 0 ≡ some k = rw t at h in
      let z : 0 ≡ k = cc in
      subst (λ n. c ∷ s ≡ take n (c ∷ s) ++ (separator ++ drop (n + length separator) (c ∷ s))) z
        (subst (λ n. c ∷ s ≡ separator ++ drop n (c ∷ s)) (omega arith)
          (starts_with_split (c ∷ s) separator t))
  | inr f ↦
      let q : later (find separator s) ≡ some k = rw f at h in
      go (find separator s) (λ m e. find_split separator s m e) refl k q
]
  where
    go :
        (o : Option ℕ)
        → ((m : ℕ)
            → find separator s ≡ some m
            → s ≡ take m s ++ (separator ++ drop (m + length separator) s))
        → find separator s ≡ o
        → (n : ℕ) → later o ≡ some n
        → c ∷ s ≡ take n (c ∷ s) ++ (separator ++ drop (n + length separator) (c ∷ s))
    go none r e n q = cc
    go (some m) r e zero q = cc
    go (some m) r e (suc n) q =
        let same : m ≡ n = cc in
        let at : suc (n + length separator) ≡ suc n + length separator = omega arith in
        subst (λ a. c ∷ s ≡ c ∷ (take n s ++ (separator ++ drop a (c ∷ s)))) at
          (ap (◌∷◌ c) (r n (e ∙ ap some same)))

left_shorter :
    (separator rest left t : Text)
    → is_nil separator ≡ false
    → rest ≡ t ++ (separator ++ left)
    → (fuel : ℕ) → length rest < suc fuel
    → length left < fuel
left_shorter [] rest left t n e fuel lt = cc
left_shorter (x ∷ p) rest left t n e fuel lt =
    omega (arith, lt, ap length e ∙ length-append t (x ∷ (p ++ left)), length-append p left)

-- The parts exist, and joined by the separator they are the text.
abbrev JoinsTo : Text → Text → Option (List Text) → Type 0
JoinsTo separator rest o =
    (t : Text) × (ts : List Text) × (o ≡ some (t ∷ ts)) × (t ++ tail_of ts separator ≡ rest)

split_loop-JoinsTo :
    (fuel : ℕ) (separator rest : Text) (limitation : ℤ)
    → is_nil separator ≡ false
    → length rest < fuel
    → JoinsTo separator rest (split_loop fuel separator rest limitation)
unfolding split_loop
split_loop-JoinsTo zero separator rest limitation n lt = absurd (omega (arith, lt))
split_loop-JoinsTo (suc fuel) separator rest limitation n lt =
    elim (Bool-cases (is_last limitation)) [
      | inl t ↦ (rest, [], rw t refl, append-nil rest)
      | inr f ↦ elim (Option-cases (find separator rest)) [
        | inl z ↦ (rest, [], rw f (rw (z, split_loop) refl), append-nil rest)
        | inr (k, z) ↦
            let parted = find_split separator rest k z in
            let left = drop (k + length separator) rest in
            let shorter : length left < fuel =
              left_shorter separator rest left (take k rest) n parted fuel lt in
            let (t, ts, q, j) =
              split_loop-JoinsTo fuel separator left (lowered limitation) n shorter in
            (
              take k rest,
              t ∷ ts,
              rw f (rw (z, split_loop) (ap (with_part (take k rest)) q)),
              ap (λ u. take k rest ++ (separator ++ u)) j ∙ sym parted,
            )
      ]
    ]

-- For a separator that is not empty, splitting a text at it ends, whatever the limitation, and
-- joining the parts by the separator gives the text again.
pub join-split_string :
    (input separator : Text) (limitation : ℤ)
    → is_nil separator ≡ false
    → (parts : List Text) × (split_string input separator limitation ≡ some parts)
      × (join parts separator ≡ input)
unfolding split_string
join-split_string input separator limitation n =
    let (t, ts, q, j) =
      split_loop-JoinsTo (suc (length input + allowed limitation)) separator input limitation n
        (omega arith) in
    (t ∷ ts, q, join_cons t ts separator ∙ j)

-- The parts exist, and are at most so many.
abbrev pub IsLimited : ℕ → Option (List Text) → Type 0
IsLimited n none = ⊥
IsLimited n (some parts) = (1 ≤ length parts) × (length parts ≤ n)

-- One part more.
with_part-IsLimited :
    (t : Text) (n : ℕ) (o : Option (List Text)) → IsLimited n o → IsLimited (suc n) (with_part t o)
with_part-IsLimited t n none h = h
with_part-IsLimited t n (some ts) h = (omega arith, omega (arith, h.1))

split_loop-IsLimited :
    (fuel : ℕ) (separator rest : Text) (n : ℕ)
    → suc n ≤ fuel
    → IsLimited (suc n) (split_loop fuel separator rest (pos (suc n)))
unfolding split_loop
split_loop-IsLimited zero separator rest n le = absurd (omega (arith, le))
split_loop-IsLimited (suc fuel) separator rest zero le = (omega arith, omega arith)
split_loop-IsLimited (suc fuel) separator rest (suc n) le =
    elim (Option-cases (find separator rest)) [
      | inl z ↦ rw (z, split_loop) (omega arith, omega arith)
      | inr (k, z) ↦
          rw (z, split_loop)
            (with_part-IsLimited (take k rest) (suc n) _ (
              split_loop-IsLimited fuel separator (drop (k + length separator) rest) n
                (omega (arith, le))))
    ]

-- With a limitation of one or more, splitting a text at any separator, an empty one too, ends,
-- and gives at least one part and at most as many as the limitation.
pub split_string-IsLimited :
    (input separator : Text) (n : ℕ)
    → IsLimited (suc n) (split_string input separator (pos (suc n)))
unfolding split_string
split_string-IsLimited input separator n =
    split_loop-IsLimited (suc (length input + suc n)) separator input n (omega arith)

-- With an empty separator and no limitation, the loop of the split ends on no fuel.
pub split_loop_diverges : (fuel : ℕ) (input : Text) → split_loop fuel [] input (negsuc 0) ≡ none
unfolding split_loop find
split_loop_diverges zero input = refl
split_loop_diverges (suc fuel) [] = ap (with_part []) (split_loop_diverges fuel [])
split_loop_diverges (suc fuel) (c ∷ input) =
    ap (with_part []) (split_loop_diverges fuel (c ∷ input))

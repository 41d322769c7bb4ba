-- ===== src/Text/SplitAny.antt =====
-- `split_string` of fabko/common/string_utils.hh with several separators.
use fabko.Base.{
  ℕ, zero, suc, ◌+◌, ◌<◌, ℤ, true, false, if◌then◌else◌, ltb, List, [], ◌∷◌, ◌≡◌, refl, ap, Option,
  none, some, length, is_nil, inl, inr, Bool-cases, Option-cases, arith,
}
use fabko.Text.Join.{Text}
use fabko.Text.Split.{take, drop, starts_with, later, find, is_last, lowered, with_part, split_loop}

abbrev or_size : ℕ → Option ℕ → ℕ
or_size size none = size
or_size size (some k) = k

-- An entry of `tmp`: where the separator occurs first, or the size of what is left.
abbrev pub position : Text → Text → ℕ
position rest separator = or_size (length rest) (find separator rest)

-- `std::min_element`: the first of the least positions, with the size of its separator.
unfoldable pub nearest : Text → Text → List Text → ℕ × ℕ
nearest rest best [] = (position rest best, length best)
nearest rest best (s ∷ ss) =
    nearest rest (if ltb (position rest s) (position rest best) then s else best) ss

-- The loop, on what is left from `pos_start`, and on fuel. Without separators the source reads outside
-- `tmp`; here there is a first one.
unfoldable pub split_any_loop : ℕ → Text → List Text → Text → ℤ → Option (List Text)
unfolding nearest
split_any_loop zero first separators rest limitation = none
split_any_loop (suc fuel) first separators rest limitation =
    let (pos_end, size) = nearest rest first separators in
    let parts =
      split_any_loop fuel first separators (drop (pos_end + size) rest) (lowered limitation) in
    if is_last limitation
    then some (rest ∷ [])
    else if ltb pos_end (length rest)
    then with_part (take pos_end rest) parts
    else some (take pos_end rest ∷ [])

take_all : (s : Text) → take (length s) s ≡ s
take_all [] = refl
take_all (c ∷ s) = ap (◌∷◌ c) (take_all s)

later-bound :
    (o : Option ℕ) (n k : ℕ) → ((j : ℕ) → o ≡ some j → j < n) → later o ≡ some k → k < suc n
later-bound none n k f h = cc
later-bound (some j) n k f h = let q : suc j ≡ k = cc in omega (arith, q, f j refl)

find-bound :
    (separator s : Text) (k : ℕ)
    → is_nil separator ≡ false
    → find separator s ≡ some k
    → k < length s
unfolding find
find-bound separator [] k n h = let q : none ≡ some k = rw n at h in cc
find-bound separator (c ∷ s) k n h = elim (Bool-cases (starts_with (c ∷ s) separator)) [
  | inl t ↦ let q : some 0 ≡ some k = rw t at h in let z : 0 ≡ k = cc in omega (arith, z)
  | inr f ↦
      let q : later (find separator s) ≡ some k = rw f at h in
      later-bound (find separator s) (length s) k (λ j e. find-bound separator s j n e) q
]

-- With one separator that is not empty, the loop of the split at several separators gives, on
-- any fuel, what the loop of the split at one gives.
pub split_any_loop_one :
    (fuel : ℕ) (separator rest : Text) (limitation : ℤ)
    → is_nil separator ≡ false
    → split_any_loop fuel separator [] rest limitation ≡ split_loop fuel separator rest limitation
unfolding split_any_loop split_loop
split_any_loop_one zero separator rest limitation n = refl
split_any_loop_one (suc fuel) separator rest limitation n = elim (Bool-cases (is_last limitation)) [
  | inl t ↦ rw t refl
  | inr f ↦ elim (Option-cases (find separator rest)) [
    | inl z ↦
        let out : ltb (length rest) (length rest) ≡ false = ground arith in
        rw (f, z, split_loop, split_any_loop, out) (ap (λ u. some (u ∷ [])) (take_all rest))
    | inr (k, z) ↦
        let inside : ltb k (length rest) ≡ true = ground (arith, find-bound separator rest k n z) in
        rw (f, z, split_loop, split_any_loop, inside)
          (ap (with_part (take k rest)) (
            split_any_loop_one fuel separator (drop (k + length separator) rest)
              (lowered limitation) n))
  ]
]

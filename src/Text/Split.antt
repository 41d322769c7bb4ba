-- ===== src/Text/Split.antt =====
-- `split_string` of fabko/common/string_utils.hh with one separator. The handler is called with one
-- part after the other: the result is the list of the parts.
pub mod Laws
use fabko.Base.{
  ℕ, zero, suc, ◌+◌, ℤ, pos, negsuc, Bool, true, false, ◌&&◌, if◌then◌else◌, List, [], ◌∷◌, Option,
  none, some, length, is_nil, ◌==◌,
}
use fabko.Text.Join.{Text}

abbrev pub take : ℕ → Text → Text
take zero s = []
take (suc n) [] = []
take (suc n) (c ∷ s) = c ∷ take n s

abbrev pub drop : ℕ → Text → Text
drop zero s = s
drop (suc n) [] = []
drop (suc n) (c ∷ s) = drop n s

abbrev pub starts_with : Text → Text → Bool
starts_with s [] = true
starts_with [] (p ∷ ps) = false
starts_with (c ∷ s) (p ∷ ps) = (c == p) && starts_with s ps

abbrev pub later : Option ℕ → Option ℕ
later none = none
later (some k) = some (suc k)

-- `find`: where the separator occurs first; `none` is `npos`.
unfoldable pub find : Text → Text → Option ℕ
find separator [] = if is_nil separator then some 0 else none
find separator (c ∷ s) =
    let rest = find separator s in if starts_with (c ∷ s) separator then some 0 else later rest

-- The test of `limitation`, which is -1 for no limit, and what is left of it.
abbrev pub is_last : ℤ → Bool
is_last (pos zero) = true
is_last (pos (suc zero)) = true
is_last (pos (suc (suc n))) = false
is_last (negsuc zero) = false
is_last (negsuc (suc n)) = true

abbrev pub lowered : ℤ → ℤ
lowered (pos zero) = negsuc 0
lowered (pos (suc n)) = pos n
lowered (negsuc zero) = negsuc 0
lowered (negsuc (suc n)) = negsuc (suc (suc n))

abbrev pub with_part : Text → Option (List Text) → Option (List Text)
with_part t none = none
with_part t (some ts) = some (t ∷ ts)

-- The loop, on what is left of the input from `pos_start`, and on fuel; `none` where it runs out.
unfoldable pub split_loop : ℕ → Text → Text → ℤ → Option (List Text)
split_loop zero separator rest limitation = none
split_loop (suc fuel) separator rest limitation =
    if is_last limitation then some (rest ∷ []) else elim (find separator rest) [
      | none ↦ some (rest ∷ [])
      | some k ↦
          with_part (take k rest)
            (split_loop fuel separator (drop (k + length separator) rest) (lowered limitation))
    ]

-- The rounds of a limitation; none are counted for -1, which is no limit, and below, where the first
-- round is the last.
abbrev pub allowed : ℤ → ℕ
allowed (pos n) = n
allowed (negsuc n) = 0

-- A round that is not the last takes one off the limitation, and shortens what is left by a separator
-- that is not empty. Only without a limitation and with an empty separator does the source not end.
unfoldable pub split_string : Text → Text → ℤ → Option (List Text)
unfolding split_loop
split_string input separator limitation =
    split_loop (suc (length input + allowed limitation)) separator input limitation

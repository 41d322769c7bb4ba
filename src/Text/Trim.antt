-- ===== src/Text/Trim.antt =====
-- `trim_string` of fabko/common/string_utils.hh. `is_whitespace` is a parameter: `std::isspace` depends
-- on the locale.
use fabko.Base.{
  ℕ, suc, ◌+◌, ◌-◌, ◌≤◌, ◌<◌, Bool, true, false, if◌then◌else◌, leb, [], ◌∷◌, ◌++◌, ◌≡◌, ◌↔◌, refl,
  sym, ◌∙◌, ap, Option, none, some, length, length-append, all, Bool-cases, arith, inl, inr, is_nil,
  none≢some,
}
use fabko.Text.Join.{Text}
use fabko.Text.Split.{take, drop}

module _ (is_whitespace : ℕ → Bool) where
  -- How many characters `find_if_not` passes over.
  unfoldable pub find_if_not : Text → ℕ
  find_if_not [] = 0
  find_if_not (c ∷ s) = let rest = find_if_not s in if is_whitespace c then suc rest else 0

  unfoldable pub reverse : Text → Text
  reverse [] = []
  reverse (c ∷ s) = reverse s ++ c ∷ []

  -- The view from `begin_it` to `end_it.base()`; `none` where the end stands before the begin, which
  -- is no range.
  unfoldable pub trim_string : Text → Option Text
  unfolding find_if_not reverse
  trim_string s =
      let begin_it = find_if_not s in
      let end_it = length s - find_if_not (reverse s) in
      if leb begin_it end_it then some (drop begin_it (take end_it s)) else none

  length-reverse : (s : Text) → length (reverse s) ≡ length s
  unfolding reverse
  length-reverse [] = refl
  length-reverse (c ∷ s) = omega (arith, length-append (reverse s) (c ∷ []), length-reverse s)

  -- Passing over white space: all of a prefix, then a character that is none.
  find_if_not-all : (s : Text) → all is_whitespace s ≡ true → find_if_not s ≡ length s
  unfolding find_if_not
  find_if_not-all [] h = refl
  find_if_not-all (c ∷ s) h = elim (Bool-cases (is_whitespace c)) [
    | inl t ↦ let q : all is_whitespace s ≡ true = rw t at h in rw t (ap suc (find_if_not-all s q))
    | inr f ↦ let q : false ≡ true = rw f at h in cc
  ]

  all-append :
      (xs ys : Text)
      → all is_whitespace xs ≡ true
      → all is_whitespace ys ≡ true
      → all is_whitespace (xs ++ ys) ≡ true
  all-append [] ys h k = k
  all-append (x ∷ xs) ys h k = elim (Bool-cases (is_whitespace x)) [
    | inl t ↦ let q : all is_whitespace xs ≡ true = rw t at h in rw t (all-append xs ys q k)
    | inr f ↦ let q : false ≡ true = rw f at h in cc
  ]

  all-reverse : (s : Text) → all is_whitespace s ≡ true → all is_whitespace (reverse s) ≡ true
  unfolding reverse
  all-reverse [] h = refl
  all-reverse (c ∷ s) h = elim (Bool-cases (is_whitespace c)) [
    | inl t ↦
        let q : all is_whitespace s ≡ true = rw t at h in
        all-append (reverse s) (c ∷ []) (all-reverse s q) (rw t refl)
    | inr f ↦ let q : false ≡ true = rw f at h in cc
  ]

  pub trim_string-whitespace :
      (s : Text) → is_nil s ≡ false → all is_whitespace s ≡ true → trim_string s ≡ none
  unfolding trim_string
  trim_string-whitespace [] n h = cc
  trim_string-whitespace (c ∷ s) n h =
      let b : find_if_not (c ∷ s) ≡ suc (length s) = find_if_not-all (c ∷ s) h in
      let e : find_if_not (reverse (c ∷ s)) ≡ suc (length s) =
        find_if_not-all (reverse (c ∷ s)) (all-reverse (c ∷ s) h) ∙ length-reverse (c ∷ s) in
      rw (b, e) (ground arith)

  find_if_not-append :
      (xs ys : Text)
      → all is_whitespace xs ≡ false
      → (find_if_not (xs ++ ys) ≡ find_if_not xs) × (all is_whitespace (xs ++ ys) ≡ false)
  unfolding find_if_not
  find_if_not-append [] ys h = cc
  find_if_not-append (x ∷ xs) ys h = elim (Bool-cases (is_whitespace x)) [
    | inl t ↦
        let q : all is_whitespace xs ≡ false = rw t at h in
        let r = find_if_not-append xs ys q in (rw t (ap suc r.0), rw t r.1)
    | inr f ↦ (rw f refl, rw f refl)
  ]

  append_stop :
      (xs : Text) (c : ℕ)
      → is_whitespace c ≡ false
      → (find_if_not (xs ++ c ∷ []) ≤ length xs) × (all is_whitespace (xs ++ c ∷ []) ≡ false)
  unfolding find_if_not
  append_stop [] c h = (rw h (omega arith), rw h refl)
  append_stop (x ∷ xs) c h = elim (Bool-cases (is_whitespace x)) [
    | inl t ↦ let r = append_stop xs c h in (rw t (omega (arith, r.0)), rw t r.1)
    | inr f ↦ (rw f (omega arith), rw f refl)
  ]

  -- A text with another character: what is cut off on both sides leaves room for it.
  trim_fits :
      (s : Text)
      → all is_whitespace s ≡ false
      → (find_if_not s + find_if_not (reverse s) < length s)
        × (all is_whitespace (reverse s) ≡ false)
  unfolding find_if_not reverse
  trim_fits [] h = cc
  trim_fits (c ∷ s) h = elim (Bool-cases (is_whitespace c)) [
    | inl t ↦
        let q : all is_whitespace s ≡ false = rw t at h in
        let r = trim_fits s q in
        let a = find_if_not-append (reverse s) (c ∷ []) r.1 in (rw t (omega (arith, a.0, r.0)), a.1)
    | inr f ↦
        let a = append_stop (reverse s) c f in (rw f (omega (arith, a.0, length-reverse s)), a.1)
  ]

  trim_string-none :
      (s : Text) → trim_string s ≡ none → (is_nil s ≡ false) × (all is_whitespace s ≡ true)
  unfolding trim_string
  trim_string-none s h = elim (Bool-cases (all is_whitespace s)) [
    | inl t ↦ (not_nil s h, t)
    | inr f ↦
        let r = trim_fits s f in
        let i = find_if_not s in
        let e = length s - find_if_not (reverse s) in
        let le : leb i e ≡ true = ground (arith, r.0) in
        let q : some (drop i (take e s)) ≡ none = rw le at h in cc
  ]
    where
      not_nil : (s : Text) → trim_string s ≡ none → is_nil s ≡ false
      not_nil [] h = absurd (none≢some (sym h))
      not_nil (c ∷ s) h = refl

  -- Trimming forms a range whose end stands before its begin exactly for a text that is not
  -- empty and all white space.
  pub trim_string-none_iff :
      (s : Text) → (trim_string s ≡ none) ↔ ((is_nil s ≡ false) × (all is_whitespace s ≡ true))
  trim_string-none_iff s = (trim_string-none s, λ h. trim_string-whitespace s h.0 h.1)

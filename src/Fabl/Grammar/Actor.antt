-- ===== src/Fabl/Grammar/Actor.antt =====
-- An actor that is written out is read back.
use fabko.Base.{
  ℕ, ◌<◌, ℤ, true, false, not, List, [], ◌∷◌, ◌++◌, map, none, some, length, length-append, all,
  All, ◌==◌, ◌≡◌, refl, sym, ◌∙◌, ap, subst, arith, Bool-cases, inl, inr,
}
use fabko.Text.Join.{Text}
use fabko.Text.Codes.{codes}
use fabko.Text.Stream.{is_space}
use fabko.Text.Split.{starts_with}
use fabko.Fabl.Copa.{Copa, matched, matched_char}
use fabko.Fabl.Copa.Laws.{both-some, both-none, emit-some, emit-none, either_left, either_right}
use fabko.Fabl.Cst.{DataType, has_statement, capability, capability_identifier, custom_data_type}
use fabko.Fabl.Grammar.{
  match_actor, match_can, match_has, match_capability, capability_definition, capability_of,
  actor_can_statement, actor_has_statement, has_of, actor_content, actor_definition, actor_of,
  content_of,
}

-- A statement of an actor: the text of a number with its value, and an identifier.
pub data Line : Type 0 where
  has_line : Text → ℤ → Text → Line
  can_line : Text → Line

-- A token after a blank.
abbrev pub tok : Text → Text → Text
tok t rest = 32 ∷ t ++ rest

abbrev pub print_line : Line → Text → Text
print_line (has_line t n x) rest = tok (codes "has") (tok t (tok x (tok (codes ";") rest)))
print_line (can_line x) rest = tok (codes "can") (tok x (tok (codes ";") rest))

abbrev pub print_lines : List Line → Text → Text
print_lines [] rest = rest
print_lines (l ∷ ls) rest = print_line l (print_lines ls rest)

abbrev pub print_actor : Text → List Line → Text → Text
print_actor name ls rest =
    tok (codes "actor")
      (tok name (tok (codes "{") (print_lines ls (tok (codes "}") (tok (codes ";") rest)))))

-- What the grammar gives for a statement.
abbrev pub data_of : Line → DataType
data_of (has_line t n x) = has_statement (record { id = x; quantity = n })
data_of (can_line x) = capability_identifier x

-- A text that does not start with a word does not after a blank is put behind it.
starts_with-blank :
    (x word rest : Text)
    → all (λ p. not (32 == p)) word ≡ true
    → starts_with x word ≡ false
    → starts_with (x ++ 32 ∷ rest) word ≡ false
starts_with-blank x [] rest a h = cc
starts_with-blank [] (p ∷ ps) rest a h = ground arith
starts_with-blank (d ∷ x) (p ∷ ps) rest a h = elim (Bool-cases (d == p)) [
  | inl y ↦
      let k : starts_with x ps ≡ false = rw y at h in
      rw y (starts_with-blank x ps rest (ground arith) k)
  | inr y ↦ rw y refl
]

print_line_longer : (l : Line) (rest : Text) → length rest < length (print_line l rest)
print_line_longer (has_line t n x) rest =
    omega (
      arith,
      length-append t (tok x (tok (codes ";") rest)),
      length-append x (tok (codes ";") rest),
    )
print_line_longer (can_line x) rest = omega (arith, length-append x (tok (codes ";") rest))

module _ ⦃c : Copa⦄ where
  -- The identifiers and numbers of a statement are such, and a capability that is named is not
  -- taken for one that is defined.
  abbrev pub IsLine : Line → Type 0
  IsLine (has_line t n x) = c.IsNumber t n × c.IsIdentifier x
  IsLine (can_line x) = c.IsIdentifier x × (starts_with x (codes "capability") ≡ false)

  skip-tok :
      (d : ℕ) (t rest : Text) → is_space d ≡ false → c.skip (tok (d ∷ t) rest) ≡ d ∷ t ++ rest
  skip-tok d t rest h = c.skip_space (d ∷ t ++ rest) ∙ c.skip_other d (t ++ rest) h

  run-string :
      (word t rest : Text) (d : ℕ)
      → is_space d ≡ false
      → c.run (c.match_string word) (tok (d ∷ t) rest) ≡ matched word (d ∷ t ++ rest)
  run-string word t rest d h =
      c.run-match_string word (tok (d ∷ t) rest) ∙ ap (matched word) (skip-tok d t rest h)

  run-char :
      (e d : ℕ) (rest : Text)
      → is_space d ≡ false
      → c.run (c.match_char e) (tok (d ∷ []) rest) ≡ matched_char e (d ∷ rest)
  run-char e d rest h =
      c.run-match_char e (tok (d ∷ []) rest) ∙ ap (matched_char e) (skip-tok d [] rest h)

  run-has : (rest : Text) → c.run match_has (tok (codes "has") rest) ≡ some (codes "has", rest)
  run-has rest = run-string (codes "has") (codes "as") rest 104 refl

  run-can : (rest : Text) → c.run match_can (tok (codes "can") rest) ≡ some (codes "can", rest)
  run-can rest = run-string (codes "can") (codes "an") rest 99 refl

  run-actor :
      (rest : Text) → c.run match_actor (tok (codes "actor") rest) ≡ some (codes "actor", rest)
  run-actor rest = run-string (codes "actor") (codes "ctor") rest 97 refl

  actor_has_statement-print :
      (t x rest : Text) (n : ℤ)
      → IsLine (has_line t n x)
      → c.run actor_has_statement (print_line (has_line t n x) rest)
        ≡ some (record { id = x; quantity = n }, rest)
  unfolding actor_has_statement
  actor_has_statement-print t x rest n (hn, hx) = emit-some has_of _ _ _ rest (
      both-some _ _ _ _ _ _ rest (run-has _) (
        both-some _ _ _ _ _ _ rest (c.run-match_number t _ n hn)
          (both-some _ _ _ _ _ _ rest (c.run-match_identifier x _ hx) (run-char 59 59 rest refl))))

  not_capability :
      (x rest : Text)
      → c.IsIdentifier x
      → starts_with x (codes "capability") ≡ false
      → c.run capability_definition (tok x (32 ∷ rest)) ≡ none
  unfolding capability_definition
  not_capability x rest h k = emit-none capability_of _ _ (both-none match_capability _ _ fails)
    where
      fails : c.run match_capability (tok x (32 ∷ rest)) ≡ none
      fails =
          let (d, t, q, y) = c.IsIdentifier-start x h in
          let b : starts_with (d ∷ t ++ 32 ∷ rest) (codes "capability") ≡ false =
            starts_with-blank (d ∷ t) (codes "capability") rest refl
              (subst (λ z. starts_with z (codes "capability") ≡ false) q k) in
          subst (λ z. c.run match_capability (tok z (32 ∷ rest)) ≡ none) (sym q)
            (run-string (codes "capability") t (32 ∷ rest) d y ∙ rw b refl)

  actor_can_statement-print :
      (x rest : Text)
      → IsLine (can_line x)
      → c.run actor_can_statement (print_line (can_line x) rest)
        ≡ some (capability_identifier x, rest)
  unfolding actor_can_statement
  actor_can_statement-print x rest (h, k) = emit-some _ _ _ _ rest (
      both-some _ _ _ _ _ _ rest (run-can _) (
        either_right _ _ _ _ (emit-none capability _ _ (not_capability x _ h k)) (
          emit-some _ _ _ _ rest (
            both-some _ _ _ _ _ _ rest (c.run-match_identifier x _ h) (run-char 59 59 rest refl)))))

  actor_content-print :
      (l : Line) (rest : Text)
      → IsLine l
      → c.run actor_content (print_line l rest) ≡ some (data_of l, rest)
  unfolding actor_content actor_has_statement
  actor_content-print (has_line t n x) rest h =
      either_left _ _ _ _
        (emit-some has_statement _ _ _ rest (actor_has_statement-print t x rest n h))
  actor_content-print (can_line x) rest h =
      either_right _ _ _ _
        (emit-none has_statement _ _ (
          emit-none has_of _ _
            (both-none match_has _ _ (run-string (codes "has") (codes "an") _ 99 refl))))
        (actor_can_statement-print x rest h)

  no_content_left : (rest : Text) → c.run actor_content (tok (codes "}") rest) ≡ none
  unfolding actor_content actor_has_statement actor_can_statement
  no_content_left rest =
      either_right _ _ _ _
        (emit-none has_statement _ _
          (emit-none has_of _ _ (both-none match_has _ _ (run-string (codes "has") [] _ 125 refl))))
        (emit-none _ _ _ (both-none match_can _ _ (run-string (codes "can") [] _ 125 refl)))

  list-print :
      (ls : List Line) (rest : Text)
      → All IsLine ls
      → c.run (c.list actor_content) (print_lines ls (tok (codes "}") rest))
        ≡ some (map data_of ls, tok (codes "}") rest)
  list-print [] rest h = c.run-list_end actor_content _ (no_content_left rest)
  list-print (l ∷ ls) rest h =
      c.run-list_more actor_content _ _ _ (data_of l) (map data_of ls) (actor_content-print l _ h.0)
        (print_line_longer l _) (list-print ls rest h.1)

  -- An actor that is written out token by token, with a blank before each, is read back by the
  -- grammar with its name and its statements in their order, if the names are identifiers, the
  -- quantities are numbers, and no capability that is only named starts with the word
  -- capability.
  pub actor_definition-print :
      (name : Text) (ls : List Line) (rest : Text)
      → c.IsIdentifier name
      → All IsLine ls
      → c.run actor_definition (print_actor name ls rest)
        ≡ some (custom_data_type name (content_of (map data_of ls)), rest)
  unfolding actor_definition
  actor_definition-print name ls rest hn h = emit-some actor_of _ _ _ rest (
      both-some _ _ _ _ _ _ rest (run-actor _) (
        both-some _ _ _ _ _ _ rest (c.run-match_identifier name _ hn) (
          both-some _ _ _ _ _ _ rest
            (c.run-bracketed _ _
              ∙ emit-some _ _ _ _ _ (
                  both-some _ _ _ _ _ _ _ (run-char 123 123 _ refl)
                    (both-some _ _ _ _ _ _ _ (list-print ls _ h) (run-char 125 125 _ refl))))
            (run-char 59 59 rest refl))))

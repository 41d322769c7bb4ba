-- ===== src/Examples/Fabl.antt =====
-- The theorems on the grammar of FABL and on its intermediate representation, applied to parsers that
-- are functions on texts, and to JSON values that are lists of members.
use fabko.Base.{
  ℕ, zero, suc, ◌-◌, ◌≤◌, ◌<◌, ℤ, pos, true, false, not, List, [], ◌∷◌, ◌++◌, map, Option, none,
  some, length, all, ◌≡◌, refl, sym, ◌∙◌, ap, subst, arith, Option-cases, if◌then◌else◌, none≢some,
  Bool-cases, true≢false, inl, inr,
}
use fabko.Text.Join.{Text}
use fabko.Text.Codes.{codes}
use fabko.Text.Stream.{is_space, is_digit, skip_spaces, word_and_rest}
use fabko.Fabl.Copa.{Copa, matched, matched_char, and_then, or_run, may_run}
use fabko.Fabl.Cst.{greater_equal, multiply, operand, custom_data_type, operator_exec_of}
use fabko.Fabl.Grammar.{
  condition_grammar, level_1_grammar, level_2_grammar, actor_definition, content_of,
}
use fabko.Fabl.Grammar.Operators.{condition_grammar_reads, IsLevelled, level_grammars-IsLevelled}
use fabko.Fabl.Grammar.Actor.{
  Line, has_line, can_line, data_of, print_actor, actor_definition-print,
}

-- A parser.
abbrev Parser : Type 0 → Type 0
Parser A = Text → Option (A × Text)

abbrev both_run : {A B : Type 0} → Parser A → Parser B → Parser (A × B)
both_run r q s = and_then (r s) (λ a s'. and_then (q s') (λ b s''. some ((a, b), s'')))

abbrev emit_run : {A B : Type 0} → (A → B) → Parser A → Parser B
emit_run f r s = and_then (r s) (λ a s'. some (f a, s'))

abbrev char_run : ℕ → Parser ℕ
char_run d s = matched_char d (skip_spaces s)

abbrev bracketed_run : {A : Type 0} → Parser A → Parser A
bracketed_run r = emit_run (λ x. x.1.0) (both_run (char_run 123) (both_run r (char_run 125)))

abbrev cons_run : {A : Type 0} → A → Option (List A × Text) → Option (List A × Text)
cons_run a none = none
cons_run a (some (rest, s)) = some (a ∷ rest, s)

-- A list, on fuel.
unfoldable list_run : {A : Type 0} → Parser A → ℕ → Text → Option (List A × Text)
list_run r zero s = none
list_run r (suc n) s = elim (r s) [ none ↦ some ([], s) | some p ↦ cons_run p.0 (list_run r n p.1) ]

cons_run-some :
    {A : Type 0} (a : A) (x : Option (List A × Text)) (v : List A × Text)
    → cons_run a x ≡ some v
    → (w : List A × Text) × (x ≡ some w) × (cons_run a (some w) ≡ some v)
cons_run-some a none v h = absurd (none≢some h)
cons_run-some a (some w) v h = (w, refl, h)

list_run_enough :
    {A : Type 0} (r : Parser A) (n m : ℕ) (s : Text) (v : List A × Text)
    → list_run r n s ≡ some v
    → n ≤ m
    → list_run r m s ≡ some v
unfolding list_run
list_run_enough r zero m s v h le = absurd (none≢some h)
list_run_enough r (suc n) zero s v h le = absurd (omega (arith, le))
list_run_enough r (suc n) (suc m) s v h le = elim (Option-cases (r s)) [
  | inl z ↦ rw (z, list_run) (rw (z, list_run) at h)
  | inr (p, z) ↦
      let k : cons_run p.0 (list_run r n p.1) ≡ some v = rw (z, list_run) at h in
      let (w, q, f) = cons_run-some p.0 (list_run r n p.1) v k in
      rw (z, list_run) (rw (list_run_enough r n m p.1 w q (omega (arith, le))) f)
]

-- A single digit.
abbrev digit_at : Text → Option (ℤ × Text)
digit_at [] = none
digit_at (d ∷ s) = if is_digit d then some (pos (d - 48), s) else none

abbrev word_at : Text → Option (Text × Text)
word_at s = some (word_and_rest s)

abbrev IsWord : Text → Type 0
IsWord x =
    ((d : ℕ) × (t : Text) × (x ≡ d ∷ t) × (is_space d ≡ false))
    × (all (λ p. not (is_space p)) x ≡ true)

word_and_rest_lem :
    (x s : Text) → all (λ p. not (is_space p)) x ≡ true → word_and_rest (x ++ 32 ∷ s) ≡ (x, 32 ∷ s)
unfolding word_and_rest
word_and_rest_lem [] s h = refl
word_and_rest_lem (d ∷ x) s h = elim (Bool-cases (is_space d)) [
  | inl y ↦ absurd (true≢false (sym h ∙ rw y refl))
  | inr y ↦
      let k : all (λ p. not (is_space p)) x ≡ true = rw y at h in
      rw y (ap (λ (r : Text × Text). (d ∷ r.0, r.1)) (word_and_rest_lem x s k))
]

skip_other_lem : (d : ℕ) (s : Text) → is_space d ≡ false → skip_spaces (d ∷ s) ≡ d ∷ s
unfolding skip_spaces
skip_other_lem d s h = rw h refl

read_word_lem :
    (x s : Text) → IsWord x → word_at (skip_spaces (32 ∷ x ++ 32 ∷ s)) ≡ some (x, 32 ∷ s)
unfolding skip_spaces
read_word_lem x s ((d, t, q, y), h) =
    subst (λ z. word_at (skip_spaces (z ++ 32 ∷ s)) ≡ some (z, 32 ∷ s)) (sym q)
      (ap word_at (skip_other_lem d (t ++ 32 ∷ s) y)
        ∙ ap some
            (word_and_rest_lem (d ∷ t) s (subst (λ z. all (λ p. not (is_space p)) z ≡ true) q h)))

abbrev IsDigit : Text → ℤ → Type 0
IsDigit t n = (d : ℕ) × (t ≡ d ∷ []) × (is_digit d ≡ true) × (n ≡ pos (d - 48))

digit_lem :
    (t s : Text) (n : ℤ)
    → IsDigit t n
    → digit_at (skip_spaces (32 ∷ t ++ 32 ∷ s)) ≡ some (n, 32 ∷ s)
unfolding skip_spaces
digit_lem t s n (d, q, y, m) =
    subst (λ z. digit_at (skip_spaces (z ++ 32 ∷ s)) ≡ some (n, 32 ∷ s)) (sym q)
      (ap digit_at (skip_other_lem d (32 ∷ s) (ground arith)) ∙ rw (y, m) refl)

list_run_more :
    {A : Type 0} (r : Parser A) (s s' s'' : Text) (a : A) (rest : List A)
    → r s ≡ some (a, s')
    → length s' < length s
    → list_run r (suc (length s')) s' ≡ some (rest, s'')
    → list_run r (suc (length s)) s ≡ some (a ∷ rest, s'')
unfolding list_run
list_run_more r s s' s'' a rest h lt k =
    rw (h, list_run)
      (rw (list_run_enough r (suc (length s')) (length s) s' (rest, s'') k (omega (arith, lt)))
        refl)

list_run_end :
    {A : Type 0} (r : Parser A) (s : Text)
    → r s ≡ none
    → list_run r (suc (length s)) s ≡ some ([], s)
unfolding list_run
list_run_end r s h = rw (h, list_run) refl

instance text_copa : Copa
text_copa = record {
  Rule = Parser;
  run = λ r s. r s;
  skip = skip_spaces;
  match_string = λ t s. matched t (skip_spaces s);
  match_char = char_run;
  match_identifier = λ s. word_at (skip_spaces s);
  match_number = λ s. digit_at (skip_spaces s);
  both = both_run;
  either = λ r q s. or_run (r s) (q s);
  emit = emit_run;
  may = λ r s. may_run s (r s);
  list = λ r s. list_run r (suc (length s)) s;
  bracketed = bracketed_run;
  parenthesised = λ r. r;
  recursive = λ f s. none;
  IsIdentifier = IsWord;
  IsNumber = IsDigit;
  skip_space = λ s. unfold skip_spaces in refl;
  skip_other = skip_other_lem;
  run-match_string = λ t s. refl;
  run-match_char = λ d s. refl;
  IsIdentifier-start = λ x h. h.0;
  run-match_identifier = read_word_lem;
  run-match_number = digit_lem;
  run-both = λ r q s. refl;
  run-either = λ r q s. refl;
  run-emit = λ f r s. refl;
  run-may = λ r s. refl;
  run-list_end = list_run_end;
  run-list_more = list_run_more;
  run-bracketed = λ r s. refl;
}

condition_grammar_reads_example :
    text_copa.run condition_grammar (codes " >=1") ≡ some (operand 1 greater_equal, codes "1")
unfolding text_copa
condition_grammar_reads_example =
    condition_grammar_reads greater_equal (codes " >=1") (codes "1") (λ h. cc) refl
      (unfold skip_spaces in refl)

times_read :
    text_copa.run (text_copa.either level_1_grammar level_2_grammar) (codes "*2")
    ≡ some (operand 2 multiply, codes "2")
unfolding level_1_grammar level_2_grammar skip_spaces operator_exec_of text_copa
times_read = refl

level_grammars-IsLevelled_example : IsLevelled (operand 2 multiply)
level_grammars-IsLevelled_example =
    level_grammars-IsLevelled (codes "*2") (codes "2") (operand 2 multiply) times_read

-- has 4 chocobo; can fly;
abbrev two_lines : List Line
two_lines = has_line (codes "4") (pos 4) (codes "chocobo") ∷ can_line (codes "fly") ∷ []

actor_definition-print_example :
    text_copa.run actor_definition (print_actor (codes "dada") two_lines [])
    ≡ some (custom_data_type (codes "dada") (content_of (map data_of two_lines)), [])
unfolding text_copa
actor_definition-print_example =
    actor_definition-print (codes "dada") two_lines [] ((100, codes "ada", refl, refl), refl)
      (
        ((52, refl, refl, refl), ((99, codes "hocobo", refl, refl), refl)),
        ((((102, codes "ly", refl, refl), refl), refl), tt),
      )

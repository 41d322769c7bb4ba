-- ===== src/Fabl/Copa/Laws.antt =====
-- How the combinators run on a text where the rules that they join do.
use fabko.Base.{refl, Option, none, some, ◌≡◌, ◌∙◌}
use fabko.Text.Join.{Text}
use fabko.Fabl.Copa.{Copa, or_run}

module _ ⦃c : Copa⦄ {A B : Type 0} where
  pub both-some :
      (r : c.Rule A) (q : c.Rule B) (a : A) (b : B) (s s' s'' : Text)
      → c.run r s ≡ some (a, s')
      → c.run q s' ≡ some (b, s'')
      → c.run (c.both r q) s ≡ some ((a, b), s'')
  both-some r q a b s s' s'' h k = c.run-both r q s ∙ rw (h, k) refl

  pub both-none :
      (r : c.Rule A) (q : c.Rule B) (s : Text) → c.run r s ≡ none → c.run (c.both r q) s ≡ none
  both-none r q s h = c.run-both r q s ∙ rw h refl

  pub emit-some :
      (f : A → B) (r : c.Rule A) (a : A) (s s' : Text)
      → c.run r s ≡ some (a, s')
      → c.run (c.emit f r) s ≡ some (f a, s')
  emit-some f r a s s' h = c.run-emit f r s ∙ rw h refl

  pub emit-none :
      (f : A → B) (r : c.Rule A) (s : Text) → c.run r s ≡ none → c.run (c.emit f r) s ≡ none
  emit-none f r s h = c.run-emit f r s ∙ rw h refl

module _ ⦃c : Copa⦄ {A : Type 0} where
  pub either-run :
      (r q : c.Rule A) (s : Text) (x y : Option (A × Text))
      → c.run r s ≡ x
      → c.run q s ≡ y
      → c.run (c.either r q) s ≡ or_run x y
  either-run r q s x y h k = c.run-either r q s ∙ rw (h, k) refl

  pub either_left :
      (r q : c.Rule A) (s : Text) (x : A × Text)
      → c.run r s ≡ some x
      → c.run (c.either r q) s ≡ some x
  either_left r q s x h = c.run-either r q s ∙ rw h refl

  pub either_right :
      (r q : c.Rule A) (s : Text) (y : Option (A × Text))
      → c.run r s ≡ none
      → c.run q s ≡ y
      → c.run (c.either r q) s ≡ y
  either_right r q s y h k = c.run-either r q s ∙ rw (h, k) refl

-- ===== src/Sat/Solve/Rank.antt =====
-- How far the main loop can still go: the clauses that it may learn, whether a restart is due, and the
-- variables that are free.
use mathlib.Core.Path.{fun_ext}
use native.Mathlib.Decide.{ℕ_discrete}
use fabko.Base.{
  minus, ℕ, suc, ◌+◌, ◌*◌, ◌≤◌, ◌<◌, ◌≡◌, ◌≢◌, ◌⊎◌, refl, sym, ◌∙◌, ap, subst, inl, inr, List, [],
  ◌∷◌, length, length-map, length-keep-le, length-words, word_count, In, map-In, any, any_elim,
  any_intro, Bool, true, false, not, leb, if◌then◌else◌, keep, keep_shrinks, words, In-words,
  length-le_Distinct, Distinct, ℤ, pos, negsuc, abs, All-In, arith, Bool-cases, true≢false,
}
use fabko.Sat.Literal.{value}
use fabko.Sat.Types.{Env, Context, Entry, var_at, lits_at, var_ids, clause_ids}
use fabko.Sat.Invariant.{IsEntry, IsValid}
use fabko.Sat.Propagate.Settling.{free_count}
use fabko.Sat.Solve.{signed}
use fabko.Sat.Solve.Levels.{ids_of}

Clause-discrete : Discrete (List Entry)
Clause-discrete = hlevel (ℕ_discrete)

-- The literals over the variables of the ids, both signs of each, by their names.
unfoldable pub entries_over : (ℕ → ℕ) → List ℕ → List Entry
entries_over name [] = []
entries_over name (i ∷ is) =
    (signed (name i) true, i) ∷ (signed (name i) false, i) ∷ entries_over name is

sign_cases : (v : ℤ) → (pos (abs v) ≡ v) ⊎ (minus (abs v) ≡ v)
sign_cases (pos n) = inl refl
sign_cases (negsuc n) = inr refl

length-entries_over :
    (name : ℕ → ℕ) (is : List ℕ) → length (entries_over name is) ≡ length is + length is
unfolding entries_over
length-entries_over name [] = omega arith
length-entries_over name (i ∷ is) = omega (arith, length-entries_over name is)

In-entries_over :
    (name : ℕ → ℕ) (is : List ℕ) (p : Entry)
    → In p.1 is
    → value p.0 ≡ name p.1
    → In p (entries_over name is)
unfolding entries_over
In-entries_over name [] p i q = absurd i
In-entries_over name (j ∷ is) p (inr i) q = inr (inr (In-entries_over name is p i q))
In-entries_over name (j ∷ is) p (inl z) q =
    let n : name j ≡ value p.0 = ap name z ∙ sym q in
    elim (sign_cases p.0.value_) [
      | inl s ↦ inl (λ k. (record { value_ = (ap pos n ∙ s) k }, z k))
      | inr s ↦ inr (inl (λ k. (record { value_ = (ap minus n ∙ s) k }, z k)))
    ]

is_yes : {a b : List Entry} → Dec (a ≡ b) → Bool
is_yes (yes h) = true
is_yes (no h) = false

is_yes-true : {a b : List Entry} (d : Dec (a ≡ b)) → is_yes d ≡ true → a ≡ b
unfolding is_yes
is_yes-true (yes h) t = h
is_yes-true (no h) t = cc

is_yes_of : {a b : List Entry} (d : Dec (a ≡ b)) → a ≡ b → is_yes d ≡ true
unfolding is_yes
is_yes_of (yes h) q = refl
is_yes_of (no h) q = absurd (h q)

module _ ⦃e : Env⦄ where
  -- Not among the clauses of the store.
  is_fresh : e.clauses.Store → List Entry → Bool
  unfolding is_yes
  is_fresh s w =
      not (any (λ d. is_yes (Clause-discrete (e.clauses.at s d).clause.vars w)) (e.clauses.ids s))

  unlearned_of : (ℕ → ℕ) → List ℕ → e.clauses.Store → ℕ
  unfolding is_fresh
  unlearned_of name is s = length (keep (is_fresh s) (words (entries_over name is) (length is)))

  -- The words over the literals, no longer than there are variables, that are no clause.
  pub unlearned : Context → ℕ
  unfolding unlearned_of
  unlearned c = unlearned_of (λ i. value (var_at c i).literal) (var_ids c) c.clauses

  -- 1 where a restart is due.
  unfoldable pub pending : Context → ℕ
  pending c = if leb c.config.restart_threshold c.conflict_count then 1 else 0

  unfoldable pub rank : Context → ℕ
  rank c = (unlearned c * 2 + pending c) * suc (length (var_ids c)) + free_count c

  not-any : (f : ℕ → Bool) (ds : List ℕ) → ((d : ℕ) → In d ds → f d ≢ true) → not (any f ds) ≡ true
  not-any f ds h = elim (Bool-cases (any f ds)) [
    | inr n ↦ rw n refl
    | inl y ↦ let (d, i, t) = any_elim f ds y in absurd (h d i t)
  ]

  fresh_intro :
      (s : e.clauses.Store) (w : List Entry)
      → ((d : ℕ) → In d (e.clauses.ids s) → (e.clauses.at s d).clause.vars ≢ w)
      → is_fresh s w ≡ true
  unfolding is_fresh
  fresh_intro s w h =
      not-any _ (e.clauses.ids s)
        (λ d i t. h d i (is_yes-true (Clause-discrete (e.clauses.at s d).clause.vars w) t))

  stale :
      (s : e.clauses.Store) (w : List Entry) (d : ℕ)
      → In d (e.clauses.ids s)
      → (e.clauses.at s d).clause.vars ≡ w
      → is_fresh s w ≡ false
  unfolding is_fresh
  stale s w d i q = ap not (
      any_intro (λ k. is_yes (Clause-discrete (e.clauses.at s k).clause.vars w)) (e.clauses.ids s) d
        i (is_yes_of (Clause-discrete (e.clauses.at s d).clause.vars w) q))

  fresh_mono :
      (s t : e.clauses.Store)
      → ((k : ℕ)
          → In k (e.clauses.ids s)
          → In k (e.clauses.ids t)
            × ((e.clauses.at t k).clause.vars ≡ (e.clauses.at s k).clause.vars))
      → (w : List Entry) → is_fresh t w ≡ true
      → is_fresh s w ≡ true
  fresh_mono s t kept w f =
      fresh_intro s w (λ k i q. let (j, z) = kept k i in true≢false (sym f ∙ stale t w k j (z ∙ q)))

  -- Both signs of each variable, at most as many literals as there are variables.
  pub unlearned-le :
      (c : Context)
      → unlearned c ≤ word_count (length (var_ids c) + length (var_ids c)) (length (var_ids c))
  unfolding unlearned unlearned_of
  unlearned-le c =
      let name = λ (i : ℕ). value (var_at c i).literal in
      let letters = entries_over name (var_ids c) in
      let n = length (var_ids c) in
      let count : length (words letters n) ≡ word_count (n + n) n =
        length-words letters n ∙ ap (λ k. word_count k n) (length-entries_over name (var_ids c)) in
      omega (arith, count, length-keep-le (is_fresh c.clauses) (words letters n))

  -- The same clauses over the same variables.
  pub unlearned-same :
      (a b : Context)
      → b.clauses ≡ a.clauses
      → var_ids b ≡ var_ids a
      → ((i : ℕ) → (var_at b i).literal ≡ (var_at a i).literal)
      → unlearned b ≡ unlearned a
  unfolding unlearned
  unlearned-same a b qc qi ql =
      let qn : (λ i. value (var_at b i).literal) ≡ (λ i. value (var_at a i).literal) =
        fun_ext (λ i. ap value (ql i)) in
      λ k. unlearned_of (qn k) (qi k) (qc k)

  -- A clause that is none of the old ones leaves fewer to be learned.
  pub unlearned_falls :
      (canon : ℕ → ℕ) (a b : Context) (d : ℕ)
      → IsValid canon b
      → var_ids b ≡ var_ids a
      → ((i : ℕ) → (var_at b i).literal ≡ (var_at a i).literal)
      → ((k : ℕ) → In k (clause_ids a) → In k (clause_ids b) × (lits_at b k ≡ lits_at a k))
      → In d (clause_ids b)
      → Distinct (ids_of (lits_at b d))
      → ((k : ℕ) → In k (clause_ids a) → lits_at a k ≢ lits_at b d)
      → unlearned b < unlearned a
  unfolding unlearned unlearned_of
  unlearned_falls canon a b d v qi ql kept m distinct new =
      let ls = lits_at b d in
      let name = λ (i : ℕ). value (var_at b i).literal in
      let short : length ls ≤ length (var_ids b) = omega (
        arith,
        length-map (λ (p : Entry). p.1) ls,
        length-le_Distinct (ids_of ls) (var_ids b) distinct (λ i k.
            let (p, j, q) = map-In (λ (p : Entry). p.1) ls i k in
            subst (λ x. In x (var_ids b)) q (entry p j).known),
      ) in
      let all_words = words (entries_over name (var_ids b)) (length (var_ids b)) in
      let below : length (keep (is_fresh b.clauses) all_words)
          < length (keep (is_fresh a.clauses) all_words) =
        keep_shrinks (is_fresh a.clauses) (is_fresh b.clauses) all_words ls
          (fresh_mono a.clauses b.clauses kept)
          (In-words _ (length (var_ids b)) ls short
            (λ p i. In-entries_over name (var_ids b) p (entry p i).known (entry p i).named))
          (fresh_intro a.clauses ls new) (stale b.clauses ls d m refl) in
      let same : length (keep (is_fresh a.clauses) all_words) ≡ unlearned a =
        λ k. unlearned_of (fun_ext (λ i. ap value (ql i)) k) (qi k) a.clauses in
      omega (arith, below, same)
    where
      entry : (p : Entry) → In p (lits_at b d) → IsEntry canon b p
      entry p i = All-In (IsEntry canon b) (lits_at b d) (v.entries d m) p i

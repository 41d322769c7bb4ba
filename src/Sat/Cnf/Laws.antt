-- ===== src/Sat/Cnf/Laws.antt =====
-- What the reader of CNF files gives: a model on which the constructor succeeds.
use fabko.Base.{
  ℕ, zero, suc, ◌<◌, ℤ, pos, negsuc, abs, false, any, if◌then◌else◌, ltb, ◌==◌, ◌≡◌, ◌≢◌, refl, sym,
  ap, subst, inl, inr, List, [], ◌∷◌, Option, none, some, All, All-imp, All-append, is_nil, length,
  Bool-cases, arith,
}
use fabko.Text.Join.{Text}
use fabko.Text.Stream.{read_word, read_integer, lines_of}
use fabko.Text.Stream.Laws.{read_integer-lt}
use fabko.Sat.Literal.{Literal}
use fabko.Sat.Types.{Env, Model, Context}
use fabko.Sat.Watcher.{assertion, runtime_error, overflow, ok, err}
use fabko.Sat.Build.{ok-of_chain, ok-injective, make_context}
use fabko.Sat.Build.Valid.{IsNonzero}
use fabko.Sat.Build.Total.{Names, make_context_total}
use fabko.Sat.Cnf.{
  VectorGrowth, CnfFile, missing, unreadable, content, Reading, new_reading, literal_of, is_zero,
  is_least, read_literals, clause_of_line, add_clause, read_clause, reserve, reserve_both,
  header_numbers, first_word, checked_header, read_header, read_line, read_lines, finish,
  make_model_from_cnf_file, solver_from_file,
}
use fabko.Sat.Cnf.Unique.{IsStrict, insert_each-Names}

nonzero_of : (v : ℤ) → is_zero v ≡ false → abs v ≢ 0
nonzero_of (pos zero) h = cc
nonzero_of (pos (suc n)) h = omega arith
nonzero_of (negsuc n) h = omega arith

read_literals-IsNonzero : (fuel : ℕ) (s : Text) → IsNonzero (read_literals fuel s)
unfolding read_literals
read_literals-IsNonzero zero s = tt
read_literals-IsNonzero (suc fuel) s =
    go (read_integer 64 s) (λ rest. read_literals-IsNonzero fuel rest)
  where
    go :
        (r : ℤ × Option Text)
        → ((rest : Text) → IsNonzero (read_literals fuel rest))
        → IsNonzero (elim r.1 [
          | none ↦ []
          | some rest ↦ if is_zero r.0 then [] else literal_of r.0 ∷ read_literals fuel rest
        ])
    go (lit, none) k = tt
    go (lit, some rest) k = elim (Bool-cases (is_zero lit)) [
      | inl t ↦ rw t tt
      | inr f ↦ rw f (nonzero_of lit f, k rest)
    ]

read_literals_same :
    (f g : ℕ) (s : Text) → length s < f → length s < g → read_literals f s ≡ read_literals g s
unfolding read_literals
read_literals_same zero g s h k = absurd (omega (arith, h))
read_literals_same (suc f) zero s h k = absurd (omega (arith, k))
read_literals_same (suc f) (suc g) s h k =
    go (read_integer 64 s) refl
      (λ rest lt. read_literals_same f g rest (omega (arith, lt, h)) (omega (arith, lt, k)))
  where
    go :
        (r : ℤ × Option Text)
        → read_integer 64 s ≡ r
        → ((rest : Text) → length rest < length s → read_literals f rest ≡ read_literals g rest)
        → (◌≡◌ {A = List Literal}
            (elim r.1 [
              | none ↦ []
              | some rest ↦ if is_zero r.0 then [] else literal_of r.0 ∷ read_literals f rest
            ])
            (elim r.1 [
              | none ↦ []
              | some rest ↦ if is_zero r.0 then [] else literal_of r.0 ∷ read_literals g rest
            ]))
    go (lit, none) e ih = refl
    go (lit, some rest) e ih = rw (ih rest (read_integer-lt 64 s lit rest e)) refl

-- Reading the literals of a line gives the same list on any fuel above the length of the line.
pub read_literals_enough :
    (fuel : ℕ) (line : Text) → length line < fuel → read_literals fuel line ≡ clause_of_line line
read_literals_enough fuel line lt =
    read_literals_same fuel (suc (length line)) line lt (omega arith)

-- What holds of the variables of the reader between two lines.
pub record IsRead (s : Reading) : Type 0 where
  pub nonempty : All (λ (cl : List Literal). is_nil cl ≡ false) s.clauses
  pub nonzero : All IsNonzero s.clauses
  pub named : All (All (Names s.literals_unique)) s.clauses
  pub strict : IsStrict s.literals_unique

IsRead-same :
    (s s' : Reading)
    → s'.clauses ≡ s.clauses
    → s'.literals_unique ≡ s.literals_unique
    → IsRead s
    → IsRead s'
IsRead-same s s' ec eu h = record {
  nonempty = rw ec h.nonempty;
  nonzero = rw ec h.nonzero;
  named = rw (ec, eu) h.named;
  strict = rw eu h.strict;
}

module _ ⦃g : VectorGrowth⦄ where
  add_clause-IsRead :
      (s : Reading) (cl : List Literal) → IsNonzero cl → IsRead s → IsRead (add_clause s cl)
  add_clause-IsRead s [] n h = h
  add_clause-IsRead s (l ∷ ls) n h =
      let (strict, new, kept) = insert_each-Names (l ∷ ls) s.literals_unique h.strict in
      record {
        nonempty = All-append _ s.clauses ((l ∷ ls) ∷ []) h.nonempty (refl, tt);
        nonzero = All-append IsNonzero s.clauses ((l ∷ ls) ∷ []) h.nonzero (n, tt);
        named =
            All-append _ s.clauses ((l ∷ ls) ∷ [])
              (All-imp s.clauses (λ cl a. All-imp cl (λ m i. kept m i) a) h.named) (new, tt);
        strict = strict;
      }

  reserve_both-same :
      (s s' : Reading) (n : ℤ × ℤ)
      → reserve_both s n ≡ ok s'
      → (s'.clauses ≡ s.clauses) × (s'.literals_unique ≡ s.literals_unique)
  reserve_both-same s s' (v, c) h =
      let (a, qa, h1) = ok-of_chain (reserve s.literals_capacity v) _ h in
      let (b, qb, h2) = ok-of_chain (reserve s.clauses_capacity c) _ h1 in
      let z = ok-injective (record s { literals_capacity = a; clauses_capacity = b }) s' h2 in
      (sym (ap (λ (r : Reading). r.clauses) z), sym (ap (λ (r : Reading). r.literals_unique) z))

  checked_header-same :
      (s s' : Reading) (o : Option Text)
      → checked_header s o ≡ ok s'
      → (s'.clauses ≡ s.clauses) × (s'.literals_unique ≡ s.literals_unique)
  checked_header-same s s' none h = cc
  checked_header-same s s' (some rest) h = reserve_both-same s s' (header_numbers rest) h

  read_header-IsRead :
      (s s' : Reading) (line : Text) → read_header s line ≡ ok s' → IsRead s → IsRead s'
  unfolding read_header
  read_header-IsRead s s' line h r = elim (Bool-cases (ltb 0 s.clauses_capacity)) [
    | inl t ↦ let q : err runtime_error ≡ ok s' = rw t at h in cc
    | inr f ↦
        let q = checked_header-same s s' (first_word (read_word line)) (rw f at h) in
        IsRead-same s s' q.0 q.1 r
  ]

  read_clause-IsRead :
      (s s' : Reading) (line : Text) → read_clause s line ≡ ok s' → IsRead s → IsRead s'
  unfolding read_clause
  read_clause-IsRead s s' line h r = elim (Bool-cases (any is_least (clause_of_line line))) [
    | inl t ↦ let q : err overflow ≡ ok s' = rw t at h in cc
    | inr f ↦
        let cl = clause_of_line line in
        subst IsRead (ok-injective (add_clause s cl) s' (rw f at h))
          (add_clause-IsRead s cl (read_literals-IsNonzero (suc (length line)) line) r)
  ]

  read_line-IsRead :
      (s s' : Reading) (line : Text) → read_line s line ≡ ok s' → IsRead s → IsRead s'
  unfolding read_line
  read_line-IsRead s s' [] h r = subst IsRead (ok-injective s s' h) r
  read_line-IsRead s s' (c ∷ line) h r = elim (Bool-cases (c == 99)) [
    | inl t ↦ subst IsRead (ok-injective s s' (rw t at h)) r
    | inr f ↦ elim (Bool-cases (c == 112)) [
      | inl t ↦ read_header-IsRead s s' (c ∷ line) (rw t at (rw f at h)) r
      | inr f' ↦ read_clause-IsRead s s' (c ∷ line) (rw f' at (rw f at h)) r
    ]
  ]

  read_lines-IsRead :
      (s s' : Reading) (lines : List Text) → read_lines s lines ≡ ok s' → IsRead s → IsRead s'
  unfolding read_lines
  read_lines-IsRead s s' [] h r = subst IsRead (ok-injective s s' h) r
  read_lines-IsRead s s' (line ∷ lines) h r =
      let (s1, q, h1) = ok-of_chain (read_line s line) _ h in
      read_lines-IsRead s1 s' lines h1 (read_line-IsRead s s1 line q r)

  module _ ⦃e : Env⦄ where
    -- What a model that was read is like.
    pub record IsReadable (m : Model) : Type 0 where
      pub nonempty : All (λ (cl : List Literal). is_nil cl ≡ false) m.clauses
      pub nonzero : All IsNonzero m.clauses
      pub named : All (All (Names m.literals)) m.clauses
      pub strict : IsStrict m.literals
      pub threshold : m.conf.restart_threshold ≡ 100
      pub multiplier : m.conf.restart_multiplier ≡ 2
      pub interval : m.conf.decay_interval ≡ pos 100

    finish-IsReadable :
        (ratio : e.Float) (s : Reading) (m : Model)
        → finish ratio s ≡ ok m
        → IsRead s
        → IsReadable m
    unfolding finish
    finish-IsReadable ratio s m h r =
        elim (Bool-cases (length s.literals_unique == s.literals_capacity)) [
          | inr f ↦ let q : err assertion ≡ ok m = rw f at h in cc
          | inl t ↦ elim (Bool-cases (length s.clauses == s.clauses_capacity)) [
            | inr f ↦ let q : err assertion ≡ ok m = rw f at (rw t at h) in cc
            | inl t' ↦ subst IsReadable (ok-injective _ m (rw t' at (rw t at h))) (record {
              nonempty = r.nonempty;
              nonzero = r.nonzero;
              named = r.named;
              strict = r.strict;
              threshold = refl;
              multiplier = refl;
              interval = refl;
            })
          ]
        ]

    -- A model that is read from a CNF file has no empty clause and no literal 0 in a clause, its
    -- literals name the variable of each literal of a clause, and they ascend strictly in the
    -- number of their variable.
    pub make_model_from_cnf_file-IsReadable :
        (ratio : e.Float) (file : CnfFile) (m : Model)
        → make_model_from_cnf_file ratio file ≡ ok m
        → IsReadable m
    unfolding make_model_from_cnf_file
    make_model_from_cnf_file-IsReadable ratio missing m h = cc
    make_model_from_cnf_file-IsReadable ratio unreadable m h = cc
    make_model_from_cnf_file-IsReadable ratio (content text) m h =
        let (s, q, h1) = ok-of_chain (read_lines new_reading (lines_of text)) _ h in
        finish-IsReadable ratio s m h1 (
          read_lines-IsRead new_reading s (lines_of text) q
            (record { nonempty = tt; nonzero = tt; named = tt; strict = tt }))

    -- If a model is read from a file, then the solver is built from it without an exception: the
    -- context is the one that the constructor makes of the model.
    pub solver_from_file_total :
        (ratio : e.Float) (file : CnfFile) (m : Model)
        → make_model_from_cnf_file ratio file ≡ ok m
        → (c : Context) × (solver_from_file ratio file ≡ ok c) × (make_context m ≡ ok c)
    unfolding solver_from_file
    solver_from_file_total ratio file m h =
        let r = make_model_from_cnf_file-IsReadable ratio file m h in
        let (c, q) = make_context_total m r.nonempty r.named in (c, rw (h, q) refl, q)

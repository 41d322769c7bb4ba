-- ===== src/Sat/Propagate/Valid.antt =====
-- Unit propagation keeps the invariant, and the clause that it returns is falsified.
use fabko.Base.{
  none≢some, Option-cases, ℕ, zero, suc, ◌==◌, ◌≡◌, refl, sym, ap, ◌∙◌, subst, inl, inr, List, [],
  ◌∷◌, Option, none, some, In, All-In, Bool-cases, length,
}
use fabko.Sat.Types.{Env, Context, Entry, lits_at, var_ids, clause_ids}
use fabko.Sat.Clauses.{is_clause_satisfied, unassigned}
use fabko.Sat.Propagate.{
  Pass, propagate_unassigned, propagate_clause, propagate_unless, propagate, propagate_each,
  propagate_all, count_propagations, unit_loop, unit_propagation,
}
use fabko.Sat.Invariant.{IsEntry, IsValid}
use fabko.Sat.Invariant.Frame.{IsValid-same}
use fabko.Sat.Propagate.Assign.{
  Keeps, Keeps-refl, Keeps-trans, IsConflict, IsPass, Rest, unsatisfied-Rest, assign-Keeps,
  assign-IsValid, free_known, All-IsFalse,
}

module _ ⦃e : Env⦄ (canon : ℕ → ℕ) where
  propagate_unassigned-IsPass :
      (c0 : Context) (p : Pass) (d : ℕ) (free : List Entry)
      → IsPass canon c0 p
      → In d (clause_ids p.ctx)
      → unassigned p.ctx (e.clauses.at p.ctx.clauses d).clause ≡ free
      → ((q : Entry) → In q (lits_at p.ctx d) → Rest canon p.ctx free q)
      → p.conflict ≡ none
      → IsPass canon c0 (propagate_unassigned p d free)
  unfolding propagate_unassigned
  propagate_unassigned-IsPass c0 p d [] h m eq rest n = record {
    valid = h.valid;
    keeps = h.keeps;
    conflicting = λ d' q.
        subst (IsConflict p.ctx) {x = d} {y = d'} (cc)
          (record { known = m; falsified = All-IsFalse canon p.ctx d rest });
  }
  propagate_unassigned-IsPass c0 p d (q ∷ []) h m eq rest n =
      let fk = free_known canon p.ctx d q [] eq in
      let entry = All-In (IsEntry canon p.ctx) (lits_at p.ctx d) (h.valid.entries d m) q fk.0 in
      let k = assign-Keeps canon p.ctx d q entry.known fk.1 in
      record {
        valid = assign-IsValid canon p.ctx d q h.valid m fk.0 fk.1 rest;
        keeps = Keeps-trans c0 p.ctx _ h.keeps k;
        conflicting = λ d' z. absurd (none≢some (sym n ∙ z));
      }
  propagate_unassigned-IsPass c0 p d (q ∷ r ∷ qs) h m eq rest n = h

  pub propagate-IsPass :
      (c0 : Context) (p : Pass) (d : ℕ)
      → IsPass canon c0 p
      → In d (clause_ids c0)
      → IsPass canon c0 (propagate p d)
  unfolding propagate propagate_clause
  propagate-IsPass c0 p d h m = elim (Option-cases p.conflict) [
    | inr (c, q) ↦ subst (IsPass canon c0) (sym (ap (propagate_unless p d) q)) h
    | inl n ↦
        let m' : In d (clause_ids p.ctx) =
          subst (λ s. In d (e.clauses.ids s)) (sym h.keeps.clauses) m in
        let cl = (e.clauses.at p.ctx.clauses d).clause in
        subst (IsPass canon c0) (sym (ap (propagate_unless p d) n))
          (elim (Bool-cases (is_clause_satisfied p.ctx cl)) [
            | inl s ↦ rw s h
            | inr s ↦ rw s (
                propagate_unassigned-IsPass c0 p d (unassigned p.ctx cl) h m' refl
                  (unsatisfied-Rest canon p.ctx d h.valid m' s) n)
          ])
  ]

  propagate_each-IsPass :
      (c0 : Context) (p : Pass) (ds : List ℕ)
      → IsPass canon c0 p
      → ((d : ℕ) → In d ds → In d (clause_ids c0))
      → IsPass canon c0 (propagate_each p ds)
  unfolding propagate_each
  propagate_each-IsPass c0 p [] h m = h
  propagate_each-IsPass c0 p (d ∷ ds) h m =
      propagate_each-IsPass c0 (propagate p d) ds (propagate-IsPass c0 p d h (m d (inl refl)))
        (λ k i. m k (inr i))

  pub start-IsPass :
      (c : Context)
      → IsValid canon c
      → IsPass canon c (record { ctx = c; conflict = none; count = 0 })
  start-IsPass c v = record {
    valid = v;
    keeps = Keeps-refl c;
    conflicting = λ d z. absurd (none≢some z);
  }

  pub propagate_all-IsPass : (c : Context) → IsValid canon c → IsPass canon c (propagate_all c)
  unfolding propagate_all
  propagate_all-IsPass c v =
      propagate_each-IsPass c (record { ctx = c; conflict = none; count = 0 }) (clause_ids c)
        (start-IsPass c v) (λ d i. i)

  pub count-IsValid :
      (c : Context) (n : ℕ) → IsValid canon c → IsValid canon (count_propagations c n)
  unfolding count_propagations
  count-IsValid c n v = IsValid-same canon c (count_propagations c n) refl refl refl refl v

  count-Keeps : (a c : Context) (n : ℕ) → Keeps a c → Keeps a (count_propagations c n)
  unfolding count_propagations
  count-Keeps a c n k = record {
    ids = k.ids;
    clauses = k.clauses;
    level = k.level;
    old = k.old;
    new = k.new;
    carried = record {
      config = k.carried.config;
      conflict_count = k.carried.conflict_count;
      literals = k.carried.literals;
    };
  }

  -- What `unit_propagation` gives for the context `c0`.
  pub record IsPropagated (c0 : Context) (r : Context × Option ℕ) : Type 0 where
    pub valid : IsValid canon r.0
    pub keeps : Keeps c0 r.0
    pub conflicting : (d : ℕ) → r.1 ≡ some d → IsConflict r.0 d

  unit_loop-IsPropagated :
      (fuel : ℕ) (c : Context) → IsValid canon c → IsPropagated c (unit_loop fuel c)
  unfolding unit_loop
  unit_loop-IsPropagated zero c v = record {
    valid = v;
    keeps = Keeps-refl c;
    conflicting = λ d z. absurd (none≢some z);
  }
  unit_loop-IsPropagated (suc fuel) c v =
      let p = propagate_all c in
      let h = propagate_all-IsPass c v in
      let stop : (o : Option ℕ) → p.conflict ≡ o → IsPropagated c (p.ctx, o) = λ o q. record {
        valid = h.valid;
        keeps = h.keeps;
        conflicting = λ d z. h.conflicting d (q ∙ z);
      } in
      let ih =
        unit_loop-IsPropagated fuel (count_propagations p.ctx p.count)
          (count-IsValid p.ctx p.count h.valid) in
      elim (Option-cases p.conflict) [
        | inr (d, q) ↦ rw (q, unit_loop) (stop (some d) q)
        | inl n ↦ elim (Bool-cases (p.count == 0)) [
          | inl z ↦ rw (n, unit_loop) (rw z (stop none n))
          | inr z ↦
              rw (n, unit_loop)
                (rw z (record {
                  valid = ih.valid;
                  keeps =
                      Keeps-trans c (count_propagations p.ctx p.count) _
                        (count-Keeps c p.ctx p.count h.keeps) ih.keeps;
                  conflicting = ih.conflicting;
                }))
        ]
      ]

  -- Unit propagation of a valid context keeps the context valid, its variables, its clauses, its
  -- level and the rows of assigned variables, gives what it assigns the current level, and each
  -- literal of a clause that it returns as a conflict is false.
  pub unit_propagation-IsPropagated :
      (c : Context) → IsValid canon c → IsPropagated c (unit_propagation c)
  unfolding unit_propagation
  unit_propagation-IsPropagated c v = unit_loop-IsPropagated (suc (length (var_ids c))) c v

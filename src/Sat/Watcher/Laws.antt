-- ===== src/Sat/Watcher/Laws.antt =====
-- What `clause_watcher` watches.
use Prim.Native.Nat.{min}
use fabko.Base.{
  ℕ, true, false, not, ◌&&◌, ◌==◌, ==_iff, ◌≡◌, ◌≢◌, ◌↔◌, refl, sym, ◌∙◌, ap, subst, inl, inr, List,
  [], ◌∷◌, Option, none, some, In, keep, keep-In, length, Bool-cases, none≢some, true≢false, arith,
}
use fabko.Sat.Types.{Env, Clause, ClauseWatcher, Entry}
use fabko.Sat.Watcher.{
  Exception, bad_optional_access, ok, err, watches, size, is_free, make_watcher, find_free,
  replace_watched, replace,
}
use fabko.Sat.Watcher.Made.{
  IsFreeIn, IsWatching, size-first_two, first_two_free, make_watcher_of_free,
}

module _ ⦃e : Env⦄ where
  -- A new watcher watches unassigned variables of its clause only, and as many as the clause has
  -- unassigned literals, two at most.
  pub make_watcher-IsWatching :
      (vs : e.vars.Store) (c : Clause) (w : ClauseWatcher)
      → make_watcher vs c ≡ ok w
      → IsWatching vs c w × (size w ≡ min 2 (length (keep (is_free vs) c.vars)))
  unfolding make_watcher
  make_watcher-IsWatching vs c w h =
      let q = make_watcher_of_free vs c.vars w h in
      (
        subst (IsWatching vs c) (sym q) (
            first_two_free vs c (keep (is_free vs) c.vars)
              (λ p i. keep-In (is_free vs) c.vars p i)),
        ap size q ∙ size-first_two (keep (is_free vs) c.vars),
      )

  find_free-found :
      (vs : e.vars.Store) (other : Option ℕ) (ls : List Entry) (k : ℕ)
      → find_free vs other ls ≡ some k
      → (p : Entry) × In p ls × (p.1 ≡ k) × (is_free vs p ≡ true) × (watches other k ≡ false)
  unfolding find_free
  find_free-found vs other [] k h = absurd (none≢some h)
  find_free-found vs other (p ∷ ps) k h = elim (Bool-cases (watches other p.1)) [
    | inl t ↦
        let (q, i, n, f, w) = find_free-found vs other ps k (rw (t, find_free) at h) in
        (q, inr i, n, f, w)
    | inr o ↦ elim (Bool-cases (is_free vs p)) [
      | inl t ↦
          let h' : some p.1 ≡ some k = rw (t, find_free) at (rw (o, find_free) at h) in
          let z : p.1 ≡ k = cc in (p, inl refl, z, t, subst (λ j. watches other j ≡ false) z o)
      | inr u ↦
          let (q, i, n, f, w) =
            find_free-found vs other ps k (rw (u, find_free) at (rw (o, find_free) at h)) in
          (q, inr i, n, f, w)
    ]
  ]

  found-IsFreeIn :
      (vs : e.vars.Store) (c : Clause) (other : Option ℕ) (k : ℕ)
      → find_free vs other c.vars ≡ some k
      → IsFreeIn vs c k
  found-IsFreeIn vs c other k h =
      let (p, i, n, f, w) = find_free-found vs other c.vars k h in
      record { entry = p; inside = i; named = n; free = f }

  replace_watched-IsWatching :
      (vs : e.vars.Store) (c : Clause) (i : ℕ) (first second : Option ℕ) (w' : ClauseWatcher)
      → ((k : ℕ) → first ≡ some k → k ≢ i → IsFreeIn vs c k)
      → ((k : ℕ) → second ≡ some k → k ≢ i → IsFreeIn vs c k)
      → ((k : ℕ) → first ≡ some k → second ≢ some k)
      → replace_watched vs c i first second ≡ ok w'
      → IsWatching vs c w'
  unfolding replace_watched
  replace_watched-IsWatching vs c i none second w' hf hs d h = cc
  replace_watched-IsWatching vs c i (some a) second w' hf hs d h = elim (Bool-cases (a == i)) [
    | inl t ↦
        let z = (==_iff a i).0 t in
        let q : record { first = find_free vs second c.vars; second = second } ≡ w' =
          ok_inj (rw (t, replace_watched) at h) in
        subst (IsWatching vs c) q (record {
          first_free = λ k r. found-IsFreeIn vs c second k r;
          second_free = λ k r. hs k r (λ y. d a refl (r ∙ ap some (y ∙ sym z)));
        })
    | inr f ↦
        let q : record { first = some a; second = find_free vs (some a) c.vars } ≡ w' =
          ok_inj (rw (f, replace_watched) at h) in
        subst (IsWatching vs c) q (record {
          first_free = λ k r. hf k r (λ y. differs k r y f);
          second_free = λ k r. found-IsFreeIn vs c (some a) k r;
        })
  ]
    where
      ok_inj : {x y : ClauseWatcher} → ok x ≡ ok y → x ≡ y
      ok_inj r = cc

      differs : (k : ℕ) → some a ≡ some k → k ≡ i → (a == i) ≡ false → ⊥
      differs k r y f = let z : a ≡ k = cc in true≢false (sym ((==_iff a i).1 (z ∙ y)) ∙ f)

  unwatched : (o : Option ℕ) (i k : ℕ) → watches o i ≡ false → o ≡ some k → k ≢ i
  unwatched none i k h q y = absurd (none≢some q)
  unwatched (some a) i k h q y = let z : a ≡ k = cc in true≢false (sym ((==_iff a i).1 (z ∙ y)) ∙ h)

  -- If each watch other than the replaced one is an unassigned variable of the clause and the
  -- two watches differ, then each watch after a replacement that returns is an unassigned
  -- variable of the clause.
  pub replace-IsWatching :
      (vs : e.vars.Store) (c : Clause) (w w' : ClauseWatcher) (i : ℕ)
      → ((k : ℕ) → w.first ≡ some k → k ≢ i → IsFreeIn vs c k)
      → ((k : ℕ) → w.second ≡ some k → k ≢ i → IsFreeIn vs c k)
      → ((k : ℕ) → w.first ≡ some k → w.second ≢ some k)
      → replace vs w c i ≡ ok w'
      → IsWatching vs c w'
  unfolding replace
  replace-IsWatching vs c w w' i hf hs d h =
      elim (Bool-cases (not (watches w.first i) && not (watches w.second i))) [
        | inl t ↦
            let q : ok w ≡ ok w' = rw (t, replace) at h in
            let z : w ≡ w' = cc in
            subst (IsWatching vs c) z (record {
              first_free = λ k r. hf k r (unwatched w.first i k (ground arith) r);
              second_free = λ k r. hs k r (unwatched w.second i k (ground arith) r);
            })
        | inr f ↦
            replace_watched-IsWatching vs c i w.first w.second w' hf hs d (rw (f, replace) at h)
      ]

  throws_watched :
      (vs : e.vars.Store) (c : Clause) (i : ℕ) (first second : Option ℕ) (x : Exception)
      → replace_watched vs c i first second ≡ err x
      → first ≡ none
  unfolding replace_watched
  throws_watched vs c i none second x h = refl
  throws_watched vs c i (some a) second x h = elim (Bool-cases (a == i)) [
    | inl t ↦ absurd (not_err (rw (t, replace_watched) at h))
    | inr f ↦ absurd (not_err (rw (f, replace_watched) at h))
  ]
    where
      not_err : {y : ClauseWatcher} → ok y ≡ err x → ⊥
      not_err r = cc

  -- Replacing a watch throws bad_optional_access exactly when the first watch is empty and the
  -- second one is the watch to replace.
  pub replace_throws_iff :
      (vs : e.vars.Store) (c : Clause) (w : ClauseWatcher) (i : ℕ)
      → (replace vs w c i ≡ err bad_optional_access) ↔ ((w.first ≡ none) × (w.second ≡ some i))
  unfolding replace
  replace_throws_iff vs c w i = (forward, backward)
    where
      second_of : (o : Option ℕ) → watches o i ≡ true → o ≡ some i
      second_of none h = cc
      second_of (some a) h = ap some ((==_iff a i).0 h)

      forward : replace vs w c i ≡ err bad_optional_access → (w.first ≡ none) × (w.second ≡ some i)
      forward h = elim (Bool-cases (not (watches w.first i) && not (watches w.second i))) [
        | inl t ↦ let q : ok w ≡ err bad_optional_access = rw (t, replace) at h in cc
        | inr f ↦
            let n =
              throws_watched vs c i w.first w.second bad_optional_access (rw (f, replace) at h) in
            let u : watches w.first i ≡ false = ap (λ o. watches o i) n in
            (n, second_of w.second (ground arith))
      ]

      backward : (w.first ≡ none) × (w.second ≡ some i) → replace vs w c i ≡ err bad_optional_access
      backward h =
          let u : watches w.first i ≡ false = ap (λ o. watches o i) h.0 in
          let v : watches w.second i ≡ true = ap (λ o. watches o i) h.1 ∙ (==_iff i i).1 refl in
          let g : (not (watches w.first i) && not (watches w.second i)) ≡ false = ground arith in
          rw (g, replace)
            (ap (λ o. replace_watched vs c i o w.second) h.0 ∙ unfold replace_watched in refl)

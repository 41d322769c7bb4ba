-- ===== src/Sat/Watcher/Made.antt =====
-- A new watcher: the constructor succeeds, and what it watches is free.
use Prim.Native.Nat.{min}
use fabko.Base.{
  ℕ, true, false, ◌≡◌, refl, inl, inr, List, [], ◌∷◌, some, In, keep, length, is_nil, none≢some,
  arith,
}
use fabko.Sat.Types.{Env, Clause, ClauseWatcher, Entry}
use fabko.Sat.Watcher.{ok, first_two, size, is_free, make_watcher, make_watcher_of}

module _ ⦃e : Env⦄ where
  make_watcher_of_total :
      (vs : e.vars.Store) (ls : List Entry)
      → is_nil ls ≡ false
      → (w : ClauseWatcher) × (make_watcher_of vs ls ≡ ok w)
  unfolding make_watcher_of
  make_watcher_of_total vs [] h = cc
  make_watcher_of_total vs (p ∷ ps) h = (_, refl)

  -- The constructor does not throw for a clause that has a literal.
  pub make_watcher_total :
      (vs : e.vars.Store) (c : Clause)
      → is_nil c.vars ≡ false
      → (w : ClauseWatcher) × (make_watcher vs c ≡ ok w)
  unfolding make_watcher
  make_watcher_total vs c h = make_watcher_of_total vs c.vars h

  -- A variable of the clause without an assignment.
  pub record IsFreeIn (vs : e.vars.Store) (c : Clause) (k : ℕ) : Type 0 where
    pub entry : Entry
    pub inside : In entry c.vars
    pub named : entry.1 ≡ k
    pub free : is_free vs entry ≡ true

  -- Each watch is a free variable of the clause.
  pub record IsWatching (vs : e.vars.Store) (c : Clause) (w : ClauseWatcher) : Type 0 where
    pub first_free : (k : ℕ) → w.first ≡ some k → IsFreeIn vs c k
    pub second_free : (k : ℕ) → w.second ≡ some k → IsFreeIn vs c k

  free_literals : e.vars.Store → Clause → List Entry
  free_literals vs c = keep (is_free vs) c.vars

  pub size-first_two : (ls : List Entry) → size (first_two ls) ≡ min 2 (length ls)
  unfolding first_two size
  size-first_two [] = refl
  size-first_two (p ∷ []) = refl
  size-first_two (p ∷ q ∷ ps) = omega arith

  pub first_two_free :
      (vs : e.vars.Store) (c : Clause) (ls : List Entry)
      → ((p : Entry) → In p ls → In p c.vars × (is_free vs p ≡ true))
      → IsWatching vs c (first_two ls)
  unfolding first_two
  first_two_free vs c [] h = record {
    first_free = λ k q. absurd (none≢some q);
    second_free = λ k q. absurd (none≢some q);
  }
  first_two_free vs c (p ∷ []) h = record {
    first_free = λ k q. record {
      entry = p;
      inside = (h p (inl refl)).0;
      named = cc;
      free = (h p (inl refl)).1;
    };
    second_free = λ k q. absurd (none≢some q);
  }
  first_two_free vs c (p ∷ q ∷ ps) h = record {
    first_free = λ k z. record {
      entry = p;
      inside = (h p (inl refl)).0;
      named = cc;
      free = (h p (inl refl)).1;
    };
    second_free = λ k z. record {
      entry = q;
      inside = (h q (inr (inl refl))).0;
      named = cc;
      free = (h q (inr (inl refl))).1;
    };
  }

  pub make_watcher_of_free :
      (vs : e.vars.Store) (ls : List Entry) (w : ClauseWatcher)
      → make_watcher_of vs ls ≡ ok w
      → w ≡ first_two (keep (is_free vs) ls)
  unfolding make_watcher_of
  make_watcher_of_free vs [] w h = cc
  make_watcher_of_free vs (p ∷ ps) w h = cc

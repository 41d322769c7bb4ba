-- ===== src/Datastore/Listing.antt =====
-- What `list` with a prefix passes to its handler: the pairs whose key starts with the prefix.
use fabko.Base.{
  ◌+◌, ◌%◌, ◌<◌, Bool, true, false, not, ◌&&◌, List, [], ◌∷◌, ◌≡◌, ◌↔◌, refl, sym, ◌∙◌, ap, subst,
  inl, inr, Option, none, some, In, All, All-In, keep, In-keep, keep-In, All-keep, true≢false, ◌==◌,
  Bool-cases, arith,
}
use fabko.Text.Join.{Text}
use fabko.Datastore.{
  KeyValue, Rocks, value, get_error, or_fail, get, less, next_end, with_char, list_until, list,
  list_prefix,
}

-- The key starts with the text.
unfoldable pub starts_with : Text → Text → Bool
starts_with [] k = true
starts_with (c ∷ s) [] = false
starts_with (c ∷ s) (d ∷ k) = let rest = starts_with s k in (c == d) && rest

-- The last byte of the text is not the last of all.
abbrev pub Fits : Text → Type 0
Fits [] = ⊥
Fits (c ∷ []) = c < 255
Fits (c ∷ d ∷ s) = Fits (d ∷ s)

-- The keys strictly ascend.
abbrev pub IsAscending : List KeyValue → Type 0
IsAscending [] = Unit
IsAscending (p ∷ ps) = All (λ (q : KeyValue). less p.0 q.0 ≡ true) ps × IsAscending ps

less_trans : (a b c : Text) → less a b ≡ true → less b c ≡ true → less a c ≡ true
unfolding less
less_trans a b [] h k = cc
less_trans a [] (z ∷ c) h k = cc
less_trans [] (y ∷ b) (z ∷ c) h k = refl
less_trans (x ∷ a) (y ∷ b) (z ∷ c) h k = ground (arith, less_trans a b c)

next_end_total : (s : Text) → Fits s → (e : Text) × (next_end s ≡ some e)
next_end_total [] f = absurd f
next_end_total (c ∷ []) f = (_, refl)
next_end_total (c ∷ d ∷ s) f = let (e, q) = next_end_total (d ∷ s) f in (c ∷ e, ap (with_char c) q)

some_injective : {a b : Text} → some a ≡ some b → a ≡ b
some_injective h = cc

-- Between the text and its successor stand the keys that start with it.
between :
    (s e k : Text) → Fits s → next_end s ≡ some e → (not (less k s) && less k e) ≡ starts_with s k
unfolding less starts_with
between [] e k f q = absurd f
between (c ∷ []) e k f q =
    subst (λ t. (not (less k (c ∷ [])) && less k t) ≡ starts_with (c ∷ []) k) (some_injective q)
      (one k)
  where
    one :
        (k : Text) → (not (less k (c ∷ [])) && less k ((c + 1) % 256 ∷ [])) ≡ starts_with (c ∷ []) k
    one [] = refl
    one (x ∷ k) = ground (arith, f)
between (c ∷ d ∷ s) e k f q =
    let (e', q') = next_end_total (d ∷ s) f in
    subst (λ t. (not (less k (c ∷ d ∷ s)) && less k t) ≡ starts_with (c ∷ d ∷ s) k)
      (some_injective (sym (ap (with_char c) q') ∙ q))
      (longer k e' (λ r. between (d ∷ s) e' r f q'))
  where
    longer :
        (k e' : Text)
        → ((r : Text) → (not (less r (d ∷ s)) && less r e') ≡ starts_with (d ∷ s) r)
        → (not (less k (c ∷ d ∷ s)) && less k (c ∷ e')) ≡ starts_with (c ∷ d ∷ s) k
    longer [] e' h = refl
    longer (x ∷ k) e' h = ground (arith, h k)

keep_nothing :
    (f : KeyValue → Bool) (ps : List KeyValue)
    → ((p : KeyValue) → In p ps → f p ≡ false)
    → keep f ps ≡ []
keep_nothing f [] h = refl
keep_nothing f (p ∷ ps) h = rw (h p (inl refl)) (keep_nothing f ps (λ q i. h q (inr i)))

-- The loop over ascending keys stops where the test of the keys fails for good.
list_until-keep :
    (e : Text) (ps : List KeyValue) → IsAscending ps → list_until e ps ≡ keep (λ p. less p.0 e) ps
unfolding list_until
list_until-keep e [] h = refl
list_until-keep e (p ∷ ps) h = elim (Bool-cases (less p.0 e)) [
  | inl y ↦ rw y (ap (◌∷◌ p) (list_until-keep e ps h.1))
  | inr n ↦ rw n (
      sym (
        keep_nothing (λ q. less q.0 e) ps
          λ q i. elim (Bool-cases (less q.0 e)) [
            | inr z ↦ z
            | inl z ↦ absurd (
                true≢false (
                  sym (
                    less_trans p.0 q.0 e (All-In (λ (r : KeyValue). less p.0 r.0 ≡ true) ps h.0 q i)
                      z)
                  ∙ n))
          ]))
]

keep-IsAscending :
    (f : KeyValue → Bool) (ps : List KeyValue) → IsAscending ps → IsAscending (keep f ps)
keep-IsAscending f [] h = tt
keep-IsAscending f (p ∷ ps) h = elim (Bool-cases (f p)) [
  | inl y ↦
      rw y (All-keep (λ (q : KeyValue). less p.0 q.0 ≡ true) f ps h.0, keep-IsAscending f ps h.1)
  | inr n ↦ rw n (keep-IsAscending f ps h.1)
]

module _ ⦃db : Rocks⦄ where
  -- What an iterator passes over from a start on: the pairs that are stored, in the order of keys.
  pub record IsIterator (t : db.Tx) (start : Text) : Type 0 where
    pub ascending : IsAscending (db.seek t start)
    pub exact :
        (k v : Text)
        → In (k, v) (db.seek t start) ↔ ((db.get t k ≡ some v) × (less k start ≡ false))

  get-value : (t : db.Tx) (k v : Text) → (get t k ≡ value v) ↔ (db.get t k ≡ some v)
  unfolding get
  get-value t k v = (to (db.get t k), λ q. rw q refl)
    where
      to : (o : Option Text) → or_fail get_error o ≡ value v → o ≡ some v
      to none h = cc
      to (some w) h = cc

  -- Where an iterator passes over the stored pairs from its start on in the order of keys, a
  -- list for a start whose last byte is below 255 passes to the handler, in that order, exactly
  -- the pairs whose key starts with it and that get returns.
  pub list_prefix_exact :
      (t : db.Tx) (start : Text)
      → Fits start
      → IsIterator t start
      → (ps : List KeyValue) × (list_prefix t start ≡ some ps)
        × IsAscending ps
        × ((k v : Text) → In (k, v) ps ↔ ((get t k ≡ value v) × (starts_with start k ≡ true)))
  unfolding list_prefix list
  list_prefix_exact t start f h =
      let (e, q) = next_end_total start f in
      let all = db.seek t start in
      let below : KeyValue → Bool = λ p. less p.0 e in
      (
        keep below all,
        rw (q, list_prefix) (ap some (list_until-keep e all h.ascending)),
        keep-IsAscending below all h.ascending,
        λ k v. (
          λ i.
              let (j, lt) = keep-In below all (k, v) i in
              let (stored, from) = (h.exact k v).0 j in
              ((get-value t k v).1 stored, sym (between start e k f q) ∙ rw (from, lt) refl),
          λ g.
              let (from, lt) = both (less k start) (less k e) (between start e k f q ∙ g.1) in
              In-keep below all (k, v) ((h.exact k v).1 ((get-value t k v).0 g.0, from)) lt,
        ),
      )
    where
      both : (a b : Bool) → (not a && b) ≡ true → (a ≡ false) × (b ≡ true)
      both true b h = cc
      both false b h = (refl, h)

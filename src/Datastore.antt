-- ===== src/Datastore.antt =====
-- fabko/datastore/kv_rocksdb.hh and kv_rocksdb.cpp: transactions on a key value store. RocksDB is not
-- part of the repository: what the code calls of it is a parameter, with its laws.
pub mod Laws
pub mod Refines
pub mod Listing
use fabko.Base.{
  ℕ, ◌+◌, ◌%◌, Bool, true, false, List, [], ◌∷◌, map, ◌≡◌, ◌≢◌, Option, none, some, if◌then◌else◌,
  ltb, ◌==◌,
}
use fabko.Text.Join.{Text}

abbrev pub KeyValue : Type 0
KeyValue = Text × Text

-- A call whose status is not ok is `none`. An iterator is the list of what it still passes over.
pub record Rocks : Type 1 where
  pub Tx : Type 0
  pub get : Tx → Text → Option Text
  pub multi_get : Tx → List Text → List (Option Text)
  pub put : Tx → Text → Text → Option Tx
  pub commit : Tx → Option Tx
  pub seek : Tx → Text → List KeyValue
  pub multi_get-get : (t : Tx) (ks : List Text) → multi_get t ks ≡ map (get t) ks
  pub get-put_self : (t t' : Tx) (k v : Text) → put t k v ≡ some t' → get t' k ≡ some v
  pub get-put_other :
      (t t' : Tx) (k k' v : Text) → put t k v ≡ some t' → k ≢ k' → get t' k' ≡ get t k'

-- The error codes that the assertions throw, and `std::out_of_range` of `at`.
pub data DbError : Type 0 where
  put_error get_error commit_error out_of_range : DbError

-- The numbers of the codes; the last one has none.
abbrev pub error_code : DbError → Option ℕ
error_code put_error = some 0
error_code get_error = some 1
error_code commit_error = some 42
error_code out_of_range = none

pub data Outcome {ℓ} (A : Type ℓ) : Type ℓ where
  value : A → Outcome A
  failed : DbError → Outcome A

abbrev pub or_fail {ℓ} : {A : Type ℓ} → DbError → Option A → Outcome A
or_fail x none = failed x
or_fail x (some a) = value a

abbrev pub with_pair : KeyValue → Outcome (List KeyValue) → Outcome (List KeyValue)
with_pair p (value ps) = value (p ∷ ps)
with_pair p (failed x) = failed x

abbrev pub with_char : ℕ → Option Text → Option Text
with_char c none = none
with_char c (some s) = some (c ∷ s)

-- `a.compare(b) < 0`, of the bytes.
unfoldable pub less : Text → Text → Bool
less a [] = false
less [] (d ∷ b) = true
less (c ∷ a) (d ∷ b) = let rest = less a b in if c == d then rest else ltb c d

-- `++end.back()`, of a byte; the source is undefined for an empty start.
abbrev pub next_end : Text → Option Text
next_end [] = none
next_end (c ∷ []) = some ((c + 1) % 256 ∷ [])
next_end (c ∷ d ∷ s) = with_char c (next_end (d ∷ s))

-- What the handler is called with: the pairs from the start on, up to the first key that is not
-- below the end.
unfoldable pub list_until : Text → List KeyValue → List KeyValue
unfolding less
list_until end_key [] = []
list_until end_key (p ∷ ps) =
    let rest = list_until end_key ps in if less p.0 end_key then p ∷ rest else []

module _ ⦃db : Rocks⦄ where
  unfoldable pub get : db.Tx → Text → Outcome Text
  get t key = or_fail get_error (db.get t key)

  -- The loop over the statuses, with the keys that belong to them.
  unfoldable pub collect : List Text → List (Option Text) → Outcome (List KeyValue)
  collect keys [] = value []
  collect keys (none ∷ ss) = failed get_error
  collect [] (some v ∷ ss) = failed out_of_range
  collect (k ∷ ks) (some v ∷ ss) = with_pair (k, v) (collect ks ss)

  unfoldable pub multi_get : db.Tx → List Text → Outcome (List KeyValue)
  unfolding collect
  multi_get t keys = collect keys (db.multi_get t keys)

  -- The transaction afterwards, with the result.
  abbrev pub put_result : db.Tx → Option db.Tx → db.Tx × Outcome Bool
  put_result t none = (t, failed put_error)
  put_result t (some t') = (t', value true)

  unfoldable pub set : db.Tx → KeyValue → db.Tx × Outcome Bool
  set t (k, v) = put_result t (db.put t k v)

  abbrev pub after_set :
      (db.Tx → db.Tx × Outcome Bool) → db.Tx × Outcome Bool → db.Tx × Outcome Bool
  after_set next (t, value b) = next t
  after_set next (t, failed x) = (t, failed x)

  -- The pairs that were set before one fails stay set.
  unfoldable pub multi_set : db.Tx → List KeyValue → db.Tx × Outcome Bool
  unfolding set
  multi_set t [] = (t, value true)
  multi_set t (p ∷ ps) = after_set (λ t'. multi_set t' ps) (set t p)

  abbrev pub commit_result : db.Tx → Option db.Tx → db.Tx × Outcome Bool
  commit_result t none = (t, failed commit_error)
  commit_result t (some t') = (t', value true)

  unfoldable pub commit_transaction : db.Tx → db.Tx × Outcome Bool
  commit_transaction t = commit_result t (db.commit t)

  unfoldable pub list : db.Tx → Text → Text → List KeyValue
  unfolding list_until
  list t start end_key = list_until end_key (db.seek t start)

  unfoldable pub list_prefix : db.Tx → Text → Option (List KeyValue)
  unfolding list
  list_prefix t start = elim (next_end start) [
    | none ↦ none
    | some end_key ↦ some (list t start end_key)
  ]

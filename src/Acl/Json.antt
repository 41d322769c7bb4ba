-- ===== src/Acl/Json.antt =====
-- `to_json` and `from_json` of `acc` of fabko/agent/protocol/acl.hh. The JSON library is not part of the
-- repository: its values and the reading and writing of members are a parameter.
use fabko.Base.{ℕ, List, ◌≡◌, ◌≢◌, refl, ◌∙◌, Option, none, some}
use fabko.Text.Join.{Text}

-- The names of the members.
pub data Key : Type 0 where
  protocol_key reply_with_key reply_by_key : Key
  type_key sender_key receivers_key content_key ontology_key communication_key : Key

-- What the two functions use of the library. A member is written by `put` and read by `at`, which
-- throws where it is missing; `as_text` throws for a value of another type.
pub record JsonApi : Type 1 where
  pub Json : Type 0
  pub empty : Json
  pub put : Json → Key → Json → Json
  pub at : Json → Key → Option Json
  pub of_text : Text → Json
  pub as_text : Json → Option Text
  pub of_number : ℕ → Json
  pub as_number : Json → Option ℕ
  pub of_texts : List Text → Json
  pub as_texts : Json → Option (List Text)
  pub of_bytes : List ℕ → Json
  pub as_bytes : Json → Option (List ℕ)
  pub at-empty : (k : Key) → at empty k ≡ none
  pub at-put_self : (s v : Json) (k : Key) → at (put s k v) k ≡ some v
  pub at-put_other : (s v : Json) (k k' : Key) → k ≢ k' → at (put s k v) k' ≡ at s k'
  pub as_text-of_text : (t : Text) → as_text (of_text t) ≡ some t
  pub as_number-of_number : (n : ℕ) → as_number (of_number n) ≡ some n
  pub as_texts-of_texts : (ts : List Text) → as_texts (of_texts ts) ≡ some ts
  pub as_bytes-of_bytes : (bs : List ℕ) → as_bytes (of_bytes bs) ≡ some bs

pub record Acc : Type 0 where
  pub identifier : ℕ
  pub protocol : Text
  pub reply_with : Option Text
  pub reply_by : Option Text

-- A call that may throw, and what follows it.
infixl 5 ◌>>=◌
abbrev pub ◌>>=◌ {ℓ κ} :
    {Next : Type κ} {Value : Type ℓ} → Option Value → (Value → Option Next) → Option Next
none >>= next = none
some value >>= next = next value

module _ ⦃j : JsonApi⦄ where
  abbrev pub put_optional : j.Json → Key → Option Text → j.Json
  put_optional s k none = s
  put_optional s k (some t) = j.put s k (j.of_text t)

  -- `to_json`, on the value that it adds to.
  unfoldable pub to_json : j.Json → Acc → j.Json
  to_json s a =
      put_optional
        (put_optional (j.put s protocol_key (j.of_text a.protocol)) reply_with_key a.reply_with)
        reply_by_key a.reply_by

  abbrev pub text_at : j.Json → Key → Option Text
  text_at s k = do v ← j.at s k; j.as_text v

  -- A member is read only if the target has a value.
  abbrev pub read_optional : j.Json → Key → Option Text → Option (Option Text)
  read_optional s k none = some none
  read_optional s k (some old) = do t ← text_at s k; some (some t)

  -- `from_json`, into the target; `none` where it throws.
  unfoldable pub from_json : j.Json → Acc → Option Acc
  from_json s obj = do
    p ← text_at s protocol_key
    w ← read_optional s reply_with_key obj.reply_with
    b ← read_optional s reply_by_key obj.reply_by
    some (record { identifier = obj.identifier; protocol = p; reply_with = w; reply_by = b })

  -- What comes of one optional member of a sent value, in a target.
  abbrev pub received : Option Text → Option Text → Option (Option Text)
  received sent none = some none
  received none (some old) = none
  received (some t) (some old) = some (some t)

  abbrev pub received_acc : Acc → Acc → Option Acc
  received_acc a obj = do
    w ← received a.reply_with obj.reply_with
    b ← received a.reply_by obj.reply_by
    some (record {
      identifier = obj.identifier;
      protocol = a.protocol;
      reply_with = w;
      reply_by = b;
    })

  text_at-put_self :
      (s : j.Json) (k : Key) (t : Text) → text_at (j.put s k (j.of_text t)) k ≡ some t
  text_at-put_self s k t = rw (j.at-put_self s (j.of_text t) k) (j.as_text-of_text t)

  text_at-put_other : (s v : j.Json) (k k' : Key) → k ≢ k' → text_at (j.put s k v) k' ≡ text_at s k'
  text_at-put_other s v k k' n = rw (j.at-put_other s v k k' n) refl

  text_at-put_optional_other :
      (s : j.Json) (k k' : Key) (o : Option Text)
      → k ≢ k'
      → text_at (put_optional s k o) k' ≡ text_at s k'
  text_at-put_optional_other s k k' none n = refl
  text_at-put_optional_other s k k' (some t) n = text_at-put_other s (j.of_text t) k k' n

  text_at-put_optional_self :
      (s : j.Json) (k : Key) (o : Option Text)
      → j.at s k ≡ none
      → text_at (put_optional s k o) k ≡ o
  text_at-put_optional_self s k none h = rw h refl
  text_at-put_optional_self s k (some t) h = text_at-put_self s k t

  read-received :
      (s : j.Json) (k : Key) (sent old : Option Text)
      → text_at s k ≡ sent
      → read_optional s k old ≡ received sent old
  read-received s k sent none h = refl
  read-received s k none (some old) h = rw h refl
  read-received s k (some t) (some old) h = rw h refl

  -- Reading a written conversation into a target gives its protocol and the identifier of the
  -- target, and each optional member only where the target has a value in it, and throws where
  -- the target has one and the written conversation has none.
  pub from_json-to_json : (a obj : Acc) → from_json (to_json j.empty a) obj ≡ received_acc a obj
  unfolding from_json to_json
  from_json-to_json a obj =
      let s0 = j.put j.empty protocol_key (j.of_text a.protocol) in
      let s1 = put_optional s0 reply_with_key a.reply_with in
      let s2 = put_optional s1 reply_by_key a.reply_by in
      let p : text_at s2 protocol_key ≡ some a.protocol =
        text_at-put_optional_other s1 reply_by_key protocol_key a.reply_by (λ h. cc)
        ∙ (text_at-put_optional_other s0 reply_with_key protocol_key a.reply_with (λ h. cc)
            ∙ text_at-put_self j.empty protocol_key a.protocol) in
      let w : text_at s2 reply_with_key ≡ a.reply_with =
        text_at-put_optional_other s1 reply_by_key reply_with_key a.reply_by (λ h. cc)
        ∙ text_at-put_optional_self s0 reply_with_key a.reply_with
            (absent reply_with_key (λ h. cc)) in
      let b : text_at s2 reply_by_key ≡ a.reply_by =
        text_at-put_optional_self s1 reply_by_key a.reply_by (
          at-put_optional_other s0 reply_with_key reply_by_key a.reply_with (λ h. cc)
          ∙ absent reply_by_key (λ h. cc)) in
      rw
        (
          p,
          read-received s2 reply_with_key a.reply_with obj.reply_with w,
          read-received s2 reply_by_key a.reply_by obj.reply_by b,
        )
        refl
    where
      absent :
          (k : Key)
          → protocol_key ≢ k
          → j.at (j.put j.empty protocol_key (j.of_text a.protocol)) k ≡ none
      absent k n = j.at-put_other j.empty (j.of_text a.protocol) protocol_key k n ∙ j.at-empty k

      at-put_optional_other :
          (s : j.Json) (k k' : Key) (o : Option Text)
          → k ≢ k'
          → j.at (put_optional s k o) k' ≡ j.at s k'
      at-put_optional_other s k k' none n = refl
      at-put_optional_other s k k' (some t) n = j.at-put_other s (j.of_text t) k k' n

-- ===== src/Acl/Message.antt =====
-- `message` of fabko/agent/protocol/acl.hh with its JSON reader and writer. A type is the
-- number of its constructor, a byte of the content a number, and the envelope, which is neither written
-- nor read, a list of pairs.
use fabko.Base.{ℕ, List, ◌≡◌, ◌≢◌, refl, ◌∙◌, [], Option, none, some}
use fabko.Text.Join.{Text}
use fabko.Acl.Json.{
  JsonApi, Key, type_key, sender_key, receivers_key, content_key, ontology_key, communication_key,
  Acc, ◌>>=◌, to_json, from_json, from_json-to_json, text_at,
}

pub record Message : Type 0 where
  pub type : ℕ
  pub sender : Text
  pub receivers : List Text
  pub envelope : List (Text × Text)
  pub content : List ℕ
  pub ontology : Text
  pub communication : Option Acc

-- `acc` as `get` makes it before it reads.
abbrev pub default_acc : Acc
default_acc = record { identifier = 0; protocol = []; reply_with = none; reply_by = none }

module _ ⦃j : JsonApi⦄ where
  abbrev pub put_communication : j.Json → Option Acc → j.Json
  put_communication s none = s
  put_communication s (some a) = j.put s communication_key (to_json j.empty a)

  abbrev pub put_plain : Message → j.Json
  put_plain m =
      j.put
        (j.put
          (j.put
            (j.put (j.put j.empty type_key (j.of_number m.type)) sender_key (j.of_text m.sender))
            receivers_key (j.of_texts m.receivers))
          content_key (j.of_bytes m.content))
        ontology_key (j.of_text m.ontology)

  -- `to_json`, on a new value.
  unfoldable pub message_to_json : Message → j.Json
  message_to_json m = put_communication (put_plain m) m.communication

  abbrev pub read_communication : j.Json → Option Acc → Option (Option Acc)
  read_communication s none = some none
  read_communication s (some old) = do
    v ← j.at s communication_key
    a ← from_json v default_acc
    some (some a)

  abbrev pub read_plain : j.Json → Message → Option Acc → Option Message
  read_plain s obj c = do
    n ← j.at s type_key
    t ← j.as_number n
    f ← text_at s sender_key
    l ← j.at s receivers_key
    r ← j.as_texts l
    d ← j.at s content_key
    b ← j.as_bytes d
    o ← text_at s ontology_key
    some (record {
      type = t;
      sender = f;
      receivers = r;
      envelope = obj.envelope;
      content = b;
      ontology = o;
      communication = c;
    })

  -- `from_json`, into the target; `none` where it throws.
  unfoldable pub message_from_json : j.Json → Message → Option Message
  message_from_json s obj = do
    m ← read_plain s obj none
    c ← read_communication s obj.communication
    some (record m { communication = c })

  -- What a target holds of a message that was sent.
  abbrev pub received_communication : Option Acc → Option Acc → Option (Option Acc)
  received_communication sent none = some none
  received_communication none (some old) = none
  received_communication (some a) (some old) =
      some (some (record default_acc { protocol = a.protocol }))

  abbrev pub received_message : Message → Message → Option Message
  received_message m obj = do
    c ← received_communication m.communication obj.communication
    some (record m { envelope = obj.envelope; communication = c })

  at-put_communication :
      (s : j.Json) (c : Option Acc) (k : Key)
      → communication_key ≢ k
      → j.at (put_communication s c) k ≡ j.at s k
  at-put_communication s none k n = refl
  at-put_communication s (some a) k n = j.at-put_other s (to_json j.empty a) communication_key k n

  read_communication-received :
      (s : j.Json) (sent old : Option Acc)
      → j.at s communication_key ≡ none
      → read_communication (put_communication s sent) old ≡ received_communication sent old
  read_communication-received s sent none h = refl
  read_communication-received s none (some old) h = rw h refl
  read_communication-received s (some a) (some old) h =
      rw (j.at-put_self s (to_json j.empty a) communication_key, from_json-to_json a default_acc)
        refl

  read_plain-lem :
      (m obj : Message) (c : Option Acc)
      → read_plain (put_communication (put_plain m) m.communication) obj c
        ≡ some (record m { envelope = obj.envelope; communication = c })
  read_plain-lem m obj c =
      let s1 = j.put j.empty type_key (j.of_number m.type) in
      let s2 = j.put s1 sender_key (j.of_text m.sender) in
      let s3 = j.put s2 receivers_key (j.of_texts m.receivers) in
      let s4 = j.put s3 content_key (j.of_bytes m.content) in
      let s5 = put_plain m in
      let s6 = put_communication s5 m.communication in
      let e5 : j.at s6 ontology_key ≡ some (j.of_text m.ontology) =
        at-put_communication s5 m.communication ontology_key (λ h. cc)
        ∙ j.at-put_self s4 (j.of_text m.ontology) ontology_key in
      let out : (k : Key) → communication_key ≢ k → ontology_key ≢ k → j.at s6 k ≡ j.at s4 k =
        λ k n n'.
          at-put_communication s5 m.communication k n
          ∙ j.at-put_other s4 (j.of_text m.ontology) ontology_key k n' in
      let e4 : j.at s6 content_key ≡ some (j.of_bytes m.content) =
        out content_key (λ h. cc) (λ h. cc) ∙ j.at-put_self s3 (j.of_bytes m.content) content_key in
      let e3 : j.at s6 receivers_key ≡ some (j.of_texts m.receivers) =
        out receivers_key (λ h. cc) (λ h. cc)
        ∙ (j.at-put_other s3 (j.of_bytes m.content) content_key receivers_key (λ h. cc)
            ∙ j.at-put_self s2 (j.of_texts m.receivers) receivers_key) in
      let e2 : j.at s6 sender_key ≡ some (j.of_text m.sender) =
        out sender_key (λ h. cc) (λ h. cc)
        ∙ (j.at-put_other s3 (j.of_bytes m.content) content_key sender_key (λ h. cc)
            ∙ (j.at-put_other s2 (j.of_texts m.receivers) receivers_key sender_key (λ h. cc)
                ∙ j.at-put_self s1 (j.of_text m.sender) sender_key)) in
      let e1 : j.at s6 type_key ≡ some (j.of_number m.type) =
        out type_key (λ h. cc) (λ h. cc)
        ∙ (j.at-put_other s3 (j.of_bytes m.content) content_key type_key (λ h. cc)
            ∙ (j.at-put_other s2 (j.of_texts m.receivers) receivers_key type_key (λ h. cc)
                ∙ (j.at-put_other s1 (j.of_text m.sender) sender_key type_key (λ h. cc)
                    ∙ j.at-put_self j.empty (j.of_number m.type) type_key))) in
      rw
        (
          e1,
          j.as_number-of_number m.type,
          e2,
          j.as_text-of_text m.sender,
          e3,
          j.as_texts-of_texts m.receivers,
          e4,
          j.as_bytes-of_bytes m.content,
          e5,
          j.as_text-of_text m.ontology,
        )
        refl

  absent : (m : Message) → j.at (put_plain m) communication_key ≡ none
  absent m =
      j.at-put_other _ _ ontology_key communication_key (λ h. cc)
      ∙ (j.at-put_other _ _ content_key communication_key (λ h. cc)
          ∙ (j.at-put_other _ _ receivers_key communication_key (λ h. cc)
              ∙ (j.at-put_other _ _ sender_key communication_key (λ h. cc)
                  ∙ (j.at-put_other _ _ type_key communication_key (λ h. cc)
                      ∙ j.at-empty communication_key))))

  -- Reading a written message into a target gives its type, sender, receivers, content and
  -- ontology, and leaves the envelope of the target; the conversation is read only where the
  -- target has one, of which then the protocol alone is kept, and it throws where the target has
  -- one and the written message has none.
  pub message_from_json-to_json :
      (m obj : Message) → message_from_json (message_to_json m) obj ≡ received_message m obj
  unfolding message_from_json message_to_json
  message_from_json-to_json m obj =
      rw
        (
          read_plain-lem m obj none,
          read_communication-received (put_plain m) m.communication obj.communication (absent m),
        )
        refl

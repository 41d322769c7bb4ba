-- ===== src/Examples/Parts.antt =====
-- The theorems on texts, messages and integer constants, applied to small inputs.
use fabko.Base.{
  sym, ◌∙◌, ap, get_elem?, ℕ, pos, negsuc, true, false, List, [], ◌∷◌, ◌≡◌, ◌↔◌, refl, Option, none,
  some, all, is_nil, if◌then◌else◌, ◌==◌, ==_refl, ==_ne,
}
use fabko.Text.Join.{Text, join}
use fabko.Text.Split.{split_string, split_loop, find}
use fabko.Text.Split.Laws.{
  IsLimited, join-split_string, split_string-IsLimited, split_loop_diverges,
}
use fabko.Text.SplitAny.{split_any_loop, split_any_loop_one}
use fabko.Text.Trim.{trim_string, trim_string-none_iff}
use fabko.Acl.Message.{
  Message, default_acc, message_to_json, message_from_json, received_message,
  message_from_json-to_json,
}
use fabko.Acl.Json.{
  JsonApi, Key, Acc, protocol_key, reply_with_key, reply_by_key, type_key, sender_key,
  receivers_key, content_key, ontology_key, communication_key, to_json, from_json, received_acc,
  from_json-to_json,
}
use fabko.Sat.Correct.{Satisfies}
use fabko.SatBuilder.{make_builder, generate_model}
use fabko.SatBuilder.Laws.{generate_model_unsatisfiable}

-- "1,2" and ",".
abbrev input : Text
input = 49 ∷ 44 ∷ 50 ∷ []

abbrev comma : Text
comma = 44 ∷ []

abbrev two_parts : List Text
two_parts = (49 ∷ []) ∷ (50 ∷ []) ∷ []

abbrev blanks : Text
blanks = 32 ∷ 32 ∷ []

split_input : split_string input comma (pos 2) ≡ some two_parts
unfolding split_string find
split_input = refl

join-split_string_example :
    (parts : List Text) × (split_string input comma (negsuc 0) ≡ some parts)
    × (join parts comma ≡ input)
join-split_string_example = join-split_string input comma (negsuc 0) refl

-- An empty separator is found at once, four times.
split_empty : split_string comma [] (pos 5) ≡ some ([] ∷ [] ∷ [] ∷ [] ∷ comma ∷ [])
unfolding split_string find
split_empty = refl

split_string-IsLimited_example : IsLimited 5 (split_string comma [] (pos 5))
split_string-IsLimited_example = split_string-IsLimited comma [] 4

split_loop_diverges_example : split_loop 100 [] input (negsuc 0) ≡ none
split_loop_diverges_example = split_loop_diverges 100 input

trim_string-none_iff_example :
    (trim_string (λ c. c == 32) blanks ≡ none)
    ↔ ((is_nil blanks ≡ false) × (all (λ c. c == 32) blanks ≡ true))
trim_string-none_iff_example = trim_string-none_iff (λ c. c == 32) blanks

generate_model_unsatisfiable_example :
    ¬ Satisfies (λ n. true) (generate_model (make_builder (pos 300))).cnf_clauses
generate_model_unsatisfiable_example = generate_model_unsatisfiable (pos 300) (λ n. true)

-- A JSON value for the parameter: a text, or members with the last one first.
data Value : Type 0 where
  text bytes : Text → Value
  texts : List Text → Value
  natural : ℕ → Value
  nothing : Value
  member : Key → Value → Value → Value

abbrev number : Key → ℕ
number protocol_key = 0
number reply_with_key = 1
number reply_by_key = 2
number type_key = 3
number sender_key = 4
number receivers_key = 5
number content_key = 6
number ontology_key = 7
number communication_key = 8

abbrev keys : List Key
keys =
    protocol_key ∷ reply_with_key ∷ reply_by_key ∷ type_key ∷ sender_key ∷ receivers_key
    ∷ content_key ∷ ontology_key ∷ communication_key ∷ []

abbrev key_of : ℕ → Option Key
key_of n = get_elem? keys n

key_of-number : (k : Key) → key_of (number k) ≡ some k
key_of-number protocol_key = refl
key_of-number reply_with_key = refl
key_of-number reply_by_key = refl
key_of-number type_key = refl
key_of-number sender_key = refl
key_of-number receivers_key = refl
key_of-number content_key = refl
key_of-number ontology_key = refl
key_of-number communication_key = refl

number_inj : (k k' : Key) → number k ≡ number k' → k ≡ k'
number_inj k k' h =
    let q : some k ≡ some k' = sym (key_of-number k) ∙ (ap key_of h ∙ key_of-number k') in cc

abbrev member_at : Value → Key → Option Value
member_at (text t) k = none
member_at (bytes t) k = none
member_at (texts t) k = none
member_at (natural n) k = none
member_at nothing k = none
member_at (member k' v rest) k =
    let found = member_at rest k in if number k' == number k then some v else found

abbrev text_of : Value → Option Text
text_of (text t) = some t
text_of v = none

abbrev bytes_of : Value → Option Text
bytes_of (bytes t) = some t
bytes_of v = none

abbrev texts_of : Value → Option (List Text)
texts_of (texts t) = some t
texts_of v = none

abbrev natural_of : Value → Option ℕ
natural_of (natural n) = some n
natural_of v = none

instance abbrev value_api : JsonApi
value_api = record {
  Json = Value;
  empty = nothing;
  put = λ s k v. member k v s;
  at = member_at;
  of_text = text;
  as_text = text_of;
  of_number = natural;
  as_number = natural_of;
  of_texts = texts;
  as_texts = texts_of;
  of_bytes = bytes;
  as_bytes = bytes_of;
  at-empty = λ k. refl;
  at-put_self = λ s v k. rw (==_refl (number k)) refl;
  at-put_other = λ s v k k' n. rw (==_ne (number k) (number k') λ h. n (number_inj k k' h)) refl;
  as_text-of_text = λ t. refl;
  as_number-of_number = λ n. refl;
  as_texts-of_texts = λ ts. refl;
  as_bytes-of_bytes = λ bs. refl;
}

abbrev sent : Acc
sent = record { identifier = 7; protocol = 1 ∷ []; reply_with = some (2 ∷ []); reply_by = none }

abbrev target : Acc
target = record { identifier = 0; protocol = []; reply_with = none; reply_by = none }

from_json-to_json_example : from_json (to_json nothing sent) target ≡ received_acc sent target
from_json-to_json_example = from_json-to_json sent target

abbrev message_of : Option Acc → Message
message_of c = record {
  type = 7;
  sender = 97 ∷ [];
  receivers = (98 ∷ []) ∷ [];
  envelope = [];
  content = 1 ∷ 2 ∷ [];
  ontology = [];
  communication = c;
}

message_from_json-to_json_example :
    message_from_json (message_to_json (message_of (some sent))) (message_of (some default_acc))
    ≡ received_message (message_of (some sent)) (message_of (some default_acc))
message_from_json-to_json_example =
    message_from_json-to_json (message_of (some sent)) (message_of (some default_acc))

split_any_loop_one_example :
    split_any_loop 4 comma [] input (negsuc 0) ≡ split_loop 4 comma input (negsuc 0)
split_any_loop_one_example = split_any_loop_one 4 comma input (negsuc 0) refl

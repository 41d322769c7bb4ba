-- ===== src/Acl/MessageType.antt =====
-- `message_type` of fabko/agent/protocol/acl.hh and its five categories.
use fabko.Base.{ℕ, suc, Bool, true, false, ◌||◌, ◌==◌, ◌+◌, ◌≡◌, refl}

pub data MessageType : Type 0 where
  accept_proposal agree cancel cfp confirm disconfirm failure inform inform_if : MessageType
  not_understood propose query_if query_ref refuse reject_proposal request : MessageType
  request_when request_whenever subscribe inform_ref : MessageType

-- The number of a constructor.
abbrev pub code : MessageType → ℕ
code accept_proposal = 0
code agree = 1
code cancel = 2
code cfp = 3
code confirm = 4
code disconfirm = 5
code failure = 6
code inform = 7
code inform_if = 8
code not_understood = 9
code propose = 10
code query_if = 11
code query_ref = 12
code refuse = 13
code reject_proposal = 14
code request = 15
code request_when = 16
code request_whenever = 17
code subscribe = 18
code inform_ref = 19

abbrev pub is_type : MessageType → MessageType → Bool
is_type a b = code a == code b

unfoldable pub is_negotiation : MessageType → Bool
is_negotiation t =
    is_type t accept_proposal || is_type t cfp || is_type t propose || is_type t reject_proposal

unfoldable pub is_action : MessageType → Bool
is_action t =
    is_type t agree
    || is_type t cancel
    || is_type t refuse
    || is_type t request
    || is_type t query_ref
    || is_type t request_when
    || is_type t request_whenever

unfoldable pub is_info_passing : MessageType → Bool
is_info_passing t =
    is_type t inform
    || is_type t inform_if
    || is_type t inform_ref
    || is_type t failure
    || is_type t confirm
    || is_type t disconfirm

unfoldable pub is_query : MessageType → Bool
is_query t = is_type t query_if || is_type t query_ref || is_type t subscribe || is_type t refuse

unfoldable pub is_error_handling : MessageType → Bool
is_error_handling t = is_type t failure || is_type t inform || is_type t not_understood

abbrev pub one_if : Bool → ℕ
one_if true = 1
one_if false = 0

-- In how many categories a type is.
abbrev pub categories : MessageType → ℕ
categories t =
    one_if (is_negotiation t)
    + one_if (is_action t)
    + one_if (is_info_passing t)
    + one_if (is_query t)
    + one_if (is_error_handling t)

-- The types that are in two categories.
abbrev pub is_shared : MessageType → Bool
is_shared t = is_type t failure || is_type t inform || is_type t query_ref || is_type t refuse

-- Each message type is in one category, except failure, inform, query_ref and refuse, which are
-- in two.
pub categories_lem : (t : MessageType) → categories t ≡ suc (one_if (is_shared t))
unfolding is_negotiation is_action is_info_passing is_query is_error_handling
categories_lem accept_proposal = refl
categories_lem agree = refl
categories_lem cancel = refl
categories_lem cfp = refl
categories_lem confirm = refl
categories_lem disconfirm = refl
categories_lem failure = refl
categories_lem inform = refl
categories_lem inform_if = refl
categories_lem not_understood = refl
categories_lem propose = refl
categories_lem query_if = refl
categories_lem query_ref = refl
categories_lem refuse = refl
categories_lem reject_proposal = refl
categories_lem request = refl
categories_lem request_when = refl
categories_lem request_whenever = refl
categories_lem subscribe = refl
categories_lem inform_ref = refl

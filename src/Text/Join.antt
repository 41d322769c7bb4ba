-- ===== src/Text/Join.antt =====
-- `join` of fabko/common/string_utils.hh.
use fabko.Base.{ℕ, Bool, true, false, List, [], ◌∷◌, ◌++◌, ◌≡◌, sym, ◌∙◌, append-nil, append_assoc}

abbrev pub Text : Type 0
Text = List ℕ

-- The loop, with the flag `first` and the text so far.
unfoldable pub join_loop : Bool → Text → List Text → Text → Text
join_loop first result [] separator = result
join_loop true result (j ∷ js) separator = join_loop false (result ++ j) js separator
join_loop false result (j ∷ js) separator =
    join_loop false ((result ++ separator) ++ j) js separator

unfoldable pub join : List Text → Text → Text
unfolding join_loop
join js separator = join_loop true [] js separator

-- What follows the first text.
abbrev pub tail_of : List Text → Text → Text
tail_of [] separator = []
tail_of (j ∷ js) separator = separator ++ (j ++ tail_of js separator)

join_loop-tail :
    (result : Text) (js : List Text) (separator : Text)
    → join_loop false result js separator ≡ result ++ tail_of js separator
unfolding join_loop
join_loop-tail result [] separator = sym (append-nil result)
join_loop-tail result (j ∷ js) separator =
    join_loop-tail ((result ++ separator) ++ j) js separator
    ∙ (append_assoc (result ++ separator) j (tail_of js separator)
        ∙ append_assoc result separator (j ++ tail_of js separator))

pub join_cons :
    (j : Text) (js : List Text) (separator : Text)
    → join (j ∷ js) separator ≡ j ++ tail_of js separator
unfolding join
join_cons j js separator = join_loop-tail j js separator

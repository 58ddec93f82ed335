-- ===== src/Templates/Variables.antt =====
-- `LocalVariables.filter_stream`: `$name` becomes a call of `local_variable`.
pub mod Coverage
use mlogv.Prelude.{
  ℕ, zero, suc, ◌+◌, Bool, true, false, ◌&&◌, ◌||◌, Option, none, some, List, [], ◌∷◌, ◌++◌, Text,
  codes, if◌then◌else◌, ◌==◌,
}
use mlogv.Templates.{Token, count_newlines, in_front, data_token, filter_tokens}
use mlogv.Templates.Search.{Found, search_from}

-- the class `[\n #\t;]`
unfoldable pub is_break : ℕ → Bool
is_break c = c == b'\n' || c == b' ' || c == b'#' || c == 9 || c == b';'

-- the longest part in front without such a character, and the text behind it
unfoldable pub take_name : Text → Text × Text
take_name [] = ([], [])
take_name (c ∷ s) =
    let rest = take_name s in if is_break c then ([], c ∷ s) else (c ∷ rest.0, rest.1)

unfoldable pub some_name : Text × Text → Option (Text × Text)
some_name ([], rest) = none
some_name (c ∷ name, rest) = some (c ∷ name, rest)

-- the pattern `\$([^\n #\t;]+)` at one place
unfoldable pub match_local : Text → Option (Text × Text)
match_local [] = none
match_local (c ∷ s) = if c == b'$' then some_name (take_name s) else none

abbrev pub token_at : ℕ → Text → Text → Token
token_at lineno kind value = record { lineno = lineno; kind = kind; value = value }

unfoldable pub call_tokens : ℕ → Text → List Token
call_tokens lineno name =
    token_at lineno (codes "variable_begin") []
    ∷ token_at lineno (codes "name") (codes "local_variable")
    ∷ token_at lineno (codes "lparen") []
    ∷ token_at lineno (codes "string") name
    ∷ token_at lineno (codes "rparen") []
    ∷ token_at lineno (codes "variable_end") []
    ∷ []

-- The loop over the matches in a data token, from `pos` on: the text is what is left behind `pos`,
-- and the flag says that a match may begin there. A match ends behind a character of the name, so
-- that none may begin at its end.
unfoldable pub filter_data : ℕ → Bool → ℕ → Text → Option (List Token)
filter_data zero at lineno s = none
filter_data (suc fuel) at lineno s = elim (search_from match_local is_break at s) [
  | none ↦ some (data_token lineno s)
  | some r ↦
      let lineno' = lineno + count_newlines r.before in
      in_front (data_token lineno r.before ++ call_tokens lineno' r.found)
        (filter_data fuel false lineno' r.after)
]

unfoldable pub filter_stream : List Token → Option (List Token)
filter_stream stream = filter_tokens filter_data stream

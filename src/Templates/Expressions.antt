-- ===== src/Templates/Expressions.antt =====
-- `LineExpression.filter_stream`: a line `#{ expression` becomes an inline expression.
pub mod Matching
pub mod Complete
pub mod Lines
use mlogv.Prelude.{
  ℕ, zero, suc, ◌+◌, Bool, true, false, not, ◌&&◌, ◌||◌, Option, none, some, List, [], ◌∷◌, ◌++◌,
  map, Text, codes, if◌then◌else◌, ◌==◌,
}
use mlogv.PyInt.{strip_right}
use mlogv.Templates.{Token, count_newlines, in_front, data_token, filter_tokens}
use mlogv.Templates.Search.{Found, search_from}

-- the groups of the pattern `^([ \t\v]*)#\{(-?) ([^\r\n]+)$`
pub record Groups : Type 0 where
  pub blank : Text
  pub minus : Bool
  pub expression : Text

unfoldable pub is_newline : ℕ → Bool
is_newline c = c == b'\n'

-- the longest part in front with the property, and the text behind it
unfoldable pub span : (ℕ → Bool) → Text → Text × Text
span holds [] = ([], [])
span holds (c ∷ s) =
    let rest = span holds s in if holds c then (c ∷ rest.0, rest.1) else ([], c ∷ s)

unfoldable pub is_blank : ℕ → Bool
is_blank c = c == b' ' || c == 9 || c == 11

unfoldable pub in_line : ℕ → Bool
in_line c = not (c == 13 || c == b'\n')

-- `([^\r\n]+)$`
unfoldable pub match_expression : Text → Bool → Text × Text → Option (Groups × Text)
match_expression blank minus ([], rest) = none
match_expression blank minus (c ∷ e, []) =
    some (record { blank = blank; minus = minus; expression = c ∷ e }, [])
match_expression blank minus (c ∷ e, d ∷ rest) =
    if d == b'\n'
    then some (record { blank = blank; minus = minus; expression = c ∷ e }, d ∷ rest)
    else none

-- ` ([^\r\n]+)$`
unfoldable pub match_space : Text → Bool → Text → Option (Groups × Text)
match_space blank minus [] = none
match_space blank minus (c ∷ s) =
    if c == b' ' then match_expression blank minus (span in_line s) else none

-- `(-?) ([^\r\n]+)$`
unfoldable pub match_minus : Text → Text → Option (Groups × Text)
match_minus blank [] = none
match_minus blank (c ∷ s) =
    if c == b'-' then match_space blank true s else match_space blank false (c ∷ s)

unfoldable pub match_prefix : Text → Text → Option (Groups × Text)
match_prefix blank [] = none
match_prefix blank (c ∷ []) = none
match_prefix blank (c ∷ d ∷ s) = if c == b'#' && d == b'{' then match_minus blank s else none

-- the pattern at the begin of a line
unfoldable pub match_line : Text → Option (Groups × Text)
match_line s = let cut = span is_blank s in match_prefix cut.0 cut.1

-- `preval`, with its `rstrip`
unfoldable pub kept : Groups → Text → Text
kept groups before = if groups.minus then strip_right before else before

-- the first token of a round, which is yielded only where there is text in front of the match
unfoldable pub front_token : ℕ → Groups → Text → List Token
front_token lineno groups [] = []
front_token lineno groups (c ∷ before) =
    record { lineno = lineno; kind = codes "data"; value = kept groups (c ∷ before) } ∷ []

unfoldable pub blank_token : ℕ → Groups → List Token
blank_token lineno groups =
    if groups.minus
    then []
    else record { lineno = lineno; kind = codes "data"; value = groups.blank } ∷ []

-- `tokenize` is Jinja's lexer: the type and the value of each token of a text
module _ (tokenize : Text → List (Text × Text)) where
  abbrev pub at_line : ℕ → Text × Text → Token
  at_line lineno subtoken = record { lineno = lineno; kind = subtoken.0; value = subtoken.1 }

  unfoldable pub expression_tokens : ℕ → Groups → List Token
  expression_tokens lineno groups =
      map (at_line lineno) (tokenize (codes "{{ " ++ (groups.expression ++ codes " }}")))

  -- the loop over the matches in a data token; a match ends inside a line, so that none may begin
  -- at its end
  unfoldable pub filter_data : ℕ → Bool → ℕ → Text → Option (List Token)
  filter_data zero at lineno s = none
  filter_data (suc fuel) at lineno s = elim (search_from match_line is_newline at s) [
    | none ↦ some (data_token lineno s)
    | some r ↦
        let lineno' = lineno + count_newlines (kept r.found r.before) in
        in_front
          (front_token lineno r.found r.before
            ++ (blank_token lineno' r.found ++ expression_tokens lineno' r.found))
          (filter_data fuel false lineno' r.after)
  ]

  unfoldable pub filter_stream : List Token → Option (List Token)
  filter_stream stream = filter_tokens filter_data stream

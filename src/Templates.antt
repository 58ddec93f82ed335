-- ===== src/Templates.antt =====
-- python/src/mlogv32/preprocessor/extensions.py: the extensions that rewrite a template before
-- Jinja reads it. Of the lexer's tokens the line, the type and the value are kept; `re` is written
-- out for the two patterns, and Jinja's tokenizer is a parameter.
pub mod Search
pub mod Variables
pub mod Expressions
use mlogv.Prelude.{
  ℕ, zero, suc, ◌+◌, Bool, true, false, ◌&&◌, ◌||◌, Option, none, some, List, [], ◌∷◌, ◌++◌, Text,
  text_eq, codes, if◌then◌else◌, ◌==◌, length,
}

-- `jinja2.lexer.Token`
pub record Token : Type 0 where
  pub lineno : ℕ
  pub kind : Text
  pub value : Text

-- the newlines of a text whose newlines Jinja has already made single characters
unfoldable pub count_newlines : Text → ℕ
count_newlines [] = 0
count_newlines (c ∷ s) = (if c == b'\n' then 1 else 0) + count_newlines s

-- `source.replace("{{#", "{{")`: the text behind a match is searched again from its end
unfoldable pub preprocess : Text → Text
preprocess [] = []
preprocess (a ∷ []) = a ∷ []
preprocess (a ∷ b ∷ []) = a ∷ b ∷ []
preprocess (a ∷ b ∷ c ∷ s) = elim (a == b'{' && b == b'{' && c == b'#') [
  | true ↦ b'{' ∷ b'{' ∷ preprocess s
  | false ↦ a ∷ preprocess (b ∷ c ∷ s)
]

-- the tokens of a data token, in front of those of the rest; `none` means that the fuel ran out
abbrev pub in_front : List Token → Option (List Token) → Option (List Token)
in_front tokens none = none
in_front tokens (some rest) = some (tokens ++ rest)

abbrev pub join_tokens : Option (List Token) → Option (List Token) → Option (List Token)
join_tokens none rest = none
join_tokens (some tokens) rest = in_front tokens rest

-- `if new_pos > pos: yield Token(lineno, "data", preval)`
unfoldable pub data_token : ℕ → Text → List Token
data_token lineno [] = []
data_token lineno (c ∷ s) = record { lineno = lineno; kind = codes "data"; value = c ∷ s } ∷ []

-- The loop over the tokens of a stream, with the treatment of a data token. The fuel of a data token
-- is one more than its length.
module _ (filter_data : ℕ → Bool → ℕ → Text → Option (List Token)) where
  unfoldable pub filter_tokens : List Token → Option (List Token)
  filter_tokens [] = some []
  filter_tokens (token ∷ stream) =
      let rest = filter_tokens stream in
      if text_eq token.kind (codes "data")
      then join_tokens (filter_data (suc (length token.value)) true token.lineno token.value) rest
      else in_front (token ∷ []) rest

-- ===== src/Tests/Streams.antt =====
-- The theorems on the extensions of the templates.
use mlogv.Prelude.{suc, ◌≡◌, true, some, List, [], ◌∷◌, ◌++◌, Text, codes, length}
use mlogv.Templates.{Token}
use mlogv.Templates.Variables.{filter_data}
use mlogv.Templates.Variables.Coverage.{source, Located, filter_data-source}
use mlogv.Templates.Expressions
use mlogv.Templates.Expressions.Lines

abbrev one_local : Text
one_local = codes "set $a 1" ++ (b'\n' ∷ codes "$b")

filter_data-source_example :
    (tokens : List Token) × (filter_data (suc (length one_local)) true 7 one_local ≡ some tokens)
    × (source tokens ≡ one_local)
    × Located 7 tokens
filter_data-source_example = filter_data-source 7 one_local

-- a tokenizer that gives the whole text as one name
abbrev as_name : Text → List (Text × Text)
as_name s = (codes "name", s) ∷ []

abbrev one_expression : Text
one_expression = b'a' ∷ b'\n' ∷ codes "#{- 1 + 1"

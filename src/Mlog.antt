-- ===== src/Mlog.antt =====
-- python/src/mlogv32/preprocessor/parser/mlog.py: the syntax tree of mlog code, and the parser's
-- transformer. Lark, which turns text into a parse tree, is not modelled: `parse_mlog` is a
-- parameter of the functions that call it.
pub mod Labels
pub mod Unsaved
pub mod Replace
pub mod Worker
use mlogv.Prelude.{
  ℕ, ◌+◌, Bool, Option, List, [], ◌∷◌, ◌++◌, map, Text, ℤ, text_eq, codes, if◌then◌else◌,
}

pub data TokenType : Type 0 where
  word label label_ref string_literal : TokenType

-- a Lark token: a text with its terminal and its place in the source
pub record Token : Type 0 where
  pub text : Text
  pub kind : TokenType
  pub start_pos : Option ℕ
  pub end_pos : Option ℕ

pub data AstNode : Type 0 where
  label : Token → AstNode
  statement : Token → List Token → AstNode
  directive : Token → List Token → AstNode

abbrev pub Ast : Type 0
Ast = List AstNode

-- the exceptions of this file, with the token that each one carries
pub data MlogError : Type 0 where
  not_an_int : Token → MlogError
  invalid_value : Token → ℤ → MlogError
  nested_length end_without_start start_without_end : Token → MlogError
  wrong_length : Token → ℤ → ℕ → MlogError
  wrong_counter : Token → ℤ → ℕ → MlogError
  unknown_label invalid_token : Token → MlogError
  key_error : Text → MlogError
  mismatched_statements mismatched_labels : MlogError

-- `text[:-1]`
unfoldable pub drop_last : Text → Text
drop_last [] = []
drop_last (c ∷ []) = []
drop_last (c ∷ d ∷ s) = c ∷ drop_last (d ∷ s)

-- `text[1:-1]`
unfoldable pub inner : Text → Text
unfolding drop_last
inner [] = []
inner (c ∷ s) = drop_last s

-- One line of the parse tree that Lark hands to the transformer: the rule's name and its tokens.
pub data Line : Type 0 where
  label_line : Token → Line
  statement_line : Token → List Token → Line
  directive_line : Token → List Token → Line

transform_line : Line → AstNode
transform_line (label_line name) = AstNode.label (record name { text = drop_last name.text })
transform_line (statement_line name args) = statement name args
transform_line (directive_line name args) = directive name args

-- `MlogTransformer.start`
unfoldable pub transform : List Line → Ast
unfolding transform_line drop_last
transform = map transform_line

unfoldable pub count_statements : Ast → ℕ
count_statements [] = 0
count_statements (statement name args ∷ ast) = count_statements ast + 1
count_statements (AstNode.label name ∷ ast) = count_statements ast
count_statements (directive name args ∷ ast) = count_statements ast

-- `token.text` against a literal of the source
unfoldable pub is_named : Token → Text → Bool
unfolding text_eq
is_named token name = text_eq token.text name

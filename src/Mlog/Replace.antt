-- ===== src/Mlog/Replace.antt =====
-- `replace_symbolic_labels` and `_iter_label_refs`: every reference `%name%` in an argument is
-- replaced by the address of the label, in the text of the program.
pub mod Substitution
pub mod Dict
use mlogv.Prelude.{
  ℕ, ◌-◌, Bool, true, false, not, ◌&&◌, Option, none, some, List, [], ◌∷◌, ◌++◌, Text, Result, ok,
  err, ◌>>=◌, if◌then◌else◌, ◌==◌, text_eq, length, take, drop,
}
use mlogv.PyInt.{decimal}
use mlogv.Mlog.{
  Token, TokenType, label_ref, AstNode, label, statement, directive, Ast, MlogError, unknown_label,
  invalid_token, mismatched_statements, mismatched_labels, inner, count_statements,
}
use mlogv.Mlog.Labels.{iter_labels}

is_label_ref : TokenType → Bool
is_label_ref label_ref = true
is_label_ref _ = false

refs_in : List Token → List Token
refs_in [] = []
refs_in (t ∷ args) = let rest = refs_in args in if is_label_ref t.kind then t ∷ rest else rest

-- `_iter_label_refs`
unfoldable pub iter_label_refs : Ast → List Token
unfolding refs_in is_label_ref
iter_label_refs [] = []
iter_label_refs (statement name args ∷ ast) = refs_in args ++ iter_label_refs ast
iter_label_refs (AstNode.label name ∷ ast) = iter_label_refs ast
iter_label_refs (directive name args ∷ ast) = iter_label_refs ast

-- `labels[name]` of a dict
unfoldable pub lookup : List (Text × ℕ) → Text → Option ℕ
lookup [] name = none
lookup ((key, n) ∷ labels) name = if text_eq key name then some n else lookup labels name

-- `labels[name] = n`: a key keeps its place
insert : List (Text × ℕ) → Text → ℕ → List (Text × ℕ)
insert [] name n = (name, n) ∷ []
insert ((key, m) ∷ labels) name n =
    if text_eq key name then (key, n) ∷ labels else (key, m) ∷ insert labels name n

insert_all : List (Text × ℕ) → List (Text × ℕ) → List (Text × ℕ)
insert_all labels [] = labels
insert_all labels ((name, n) ∷ pairs) = insert_all (insert labels name n) pairs

-- `dict(pairs)`
unfoldable pub dict_of : List (Text × ℕ) → List (Text × ℕ)
unfolding insert insert_all
dict_of pairs = insert_all [] pairs

pub same_value : Option ℕ → ℕ → Bool
same_value none n = false
same_value (some m) n = m == n

pub all_in : List (Text × ℕ) → List (Text × ℕ) → Bool
all_in [] other = true
all_in ((name, n) ∷ labels) other = same_value (lookup other name) n && all_in labels other

-- `labels == other`, for dicts
unfoldable pub dict_eq : List (Text × ℕ) → List (Text × ℕ) → Bool
unfolding all_in same_value
dict_eq labels other = length labels == length other && all_in labels other

-- `text[start:end]`
unfoldable pub slice : Text → ℕ → ℕ → Text
slice text start end = take (end - start) (drop start text)

-- The loop over the references. `start_pos` is the local of that name, `parts` is joined at the end.
unfoldable pub replace_from : Text → List (Text × ℕ) → ℕ → Text → List Token → Result MlogError Text
replace_from text labels start_pos parts [] = ok (parts ++ drop start_pos text)
replace_from text labels start_pos parts (token ∷ refs) = elim (lookup labels (inner token.text)) [
  | none ↦ err (unknown_label token)
  | some address ↦ elim token.start_pos [
    | none ↦ err (invalid_token token)
    | some first ↦ elim token.end_pos [
      | none ↦ err (invalid_token token)
      | some last ↦
          replace_from text labels last (parts ++ (slice text start_pos first ++ decimal address))
            refs
    ]
  ]
]

-- the two sanity checks; the labels are listed only if the first one passes
pub sane_labels : Bool → List (Text × ℕ) → Ast → Text → Result MlogError Text
sane_labels false labels new_ast new_text = err mismatched_statements
sane_labels true labels new_ast new_text = do
  new_labels ← iter_labels new_ast
  (if not (dict_eq labels (dict_of new_labels)) then err mismatched_labels else ok new_text)

-- `parse_mlog` is Lark's parser behind the transformer, and may raise; the error type of the
-- whole is its error type, into which those of this file are put.
module _ (parse_mlog : Text → Result MlogError Ast) where
  pub check_sanity : Ast → List (Text × ℕ) → Text → Result MlogError Text
  check_sanity ast labels new_text = do
    new_ast ← parse_mlog new_text
    sane_labels (count_statements ast == count_statements new_ast) labels new_ast new_text

  unfoldable pub replace_symbolic_labels :
      Text → Ast → List (Text × ℕ) → Bool → Result MlogError Text
  unfolding check_sanity sane_labels
  replace_symbolic_labels text ast labels check = do
    new_text ← replace_from text labels 0 [] (iter_label_refs ast)
    if check then check_sanity ast labels new_text else ok new_text

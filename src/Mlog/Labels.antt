-- ===== src/Mlog/Labels.antt =====
-- `expect_int` and `iter_labels`: the address of each label, and the assertions on addresses.
pub mod Positions
pub mod Assertions
use mlogv.Prelude.{
  ℕ, ◌+◌, ◌-◌, Bool, true, false, not, Option, none, some, List, [], ◌∷◌, Text, codes, Result, ok,
  err, ◌>>=◌, if◌then◌else◌, ℤ, pos, ltb_ℤ, eqb_ℤ,
}
use mlogv.PyInt.{parse_int}
use mlogv.Mlog.{
  Token, AstNode, label, statement, directive, Ast, MlogError, not_an_int, invalid_value,
  nested_length, end_without_start, start_without_end, wrong_length, wrong_counter, is_named,
}

-- `predicate` is `none` where the caller passes no predicate
unfoldable pub expect_int : Token → Option (ℤ → Bool) → Result MlogError ℤ
expect_int n predicate = elim (parse_int n.text) [
  | none ↦ err (not_an_int n)
  | some result ↦ elim predicate [
    | none ↦ ok result
    | some holds ↦ if holds result then ok result else err (invalid_value n result)
  ]
]

-- the local `length_assertion`: length, start counter, token for errors
pub record LengthAssertion : Type 0 where
  pub want_length : ℤ
  pub start_counter : ℕ
  pub token : Token

unfoldable pub start_assert_length :
    ℕ → Option LengthAssertion → Token → Token → Result MlogError (Option LengthAssertion)
start_assert_length counter (some _) name n = err (nested_length name)
start_assert_length counter none name n = do
  want ← expect_int n (some (λ v. not (ltb_ℤ v (pos 0))))
  ok (some (record { want_length = want; start_counter = counter; token = n }))

unfoldable pub end_assert_length :
    ℕ → Option LengthAssertion → Token → Result MlogError (Option LengthAssertion)
end_assert_length counter none name = err (end_without_start name)
end_assert_length counter (some a) name =
    let got_length = counter - a.start_counter in
    if not (eqb_ℤ a.want_length (pos got_length))
    then err (wrong_length name a.want_length got_length)
    else ok none

unfoldable pub assert_counter :
    ℕ → Option LengthAssertion → Token → Token → Result MlogError (Option LengthAssertion)
assert_counter counter assertion name n = do
  want ← expect_int n none
  if not (eqb_ℤ (pos counter) want) then err (wrong_counter name want counter) else ok assertion

-- the `case Directive` arms, in the source's order; the patterns on `args` are the clauses
unfoldable pub directive_step :
    ℕ → Option LengthAssertion → Token → List Token → Result MlogError (Option LengthAssertion)
directive_step counter assertion name (n ∷ []) =
    if is_named name (codes "start_assert_length")
    then start_assert_length counter assertion name n
    else if is_named name (codes "end_assert_length")
    then end_assert_length counter assertion name
    else if is_named name (codes "assert_counter")
    then assert_counter counter assertion name n
    else ok assertion
directive_step counter assertion name args =
    if is_named name (codes "end_assert_length")
    then end_assert_length counter assertion name
    else ok assertion

-- behind the loop
unfoldable pub at_end : Option LengthAssertion → Result MlogError (List (Text × ℕ))
at_end none = ok []
at_end (some a) = err (start_without_end a.token)

unfoldable pub labels_from : ℕ → Option LengthAssertion → Ast → Result MlogError (List (Text × ℕ))
labels_from counter assertion [] = at_end assertion
labels_from counter assertion (AstNode.label name ∷ ast) = do
  rest ← labels_from counter assertion ast
  ok ((name.text, counter) ∷ rest)
labels_from counter assertion (statement name args ∷ ast) = labels_from (counter + 1) assertion ast
labels_from counter assertion (directive name args ∷ ast) = do
  assertion' ← directive_step counter assertion name args
  labels_from counter assertion' ast

-- The pairs that the generator yields, or the exception that ends it.
unfoldable pub iter_labels : Ast → Result MlogError (List (Text × ℕ))
unfolding labels_from
iter_labels ast = labels_from 0 none ast

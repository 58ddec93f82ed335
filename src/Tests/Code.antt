-- ===== src/Tests/Code.antt =====
-- The theorems on mlog code and local variables, at small programs.
use mlogv.Prelude.{
  ℕ, ◌≡◌, refl, ◌↔◌, true, false, none, some, List, [], ◌∷◌, ◌++◌, if◌then◌else◌, Text, codes,
  text_eq, contains, Result, ok, get_elem?, length, pos,
}
use mlogv.PyInt.{parse_int}
use mlogv.Mlog.{
  Token, TokenType, word, label_ref, AstNode, label, statement, directive, Ast, MlogError, is_named,
  count_statements, inner,
}
use mlogv.Mlog.Labels.{
  iter_labels, directive_step, at_end, start_assert_length, end_assert_length, expect_int,
}
use mlogv.Mlog.Labels.Positions.{count_labels, iter_labels-position}
use mlogv.Mlog.Labels.Assertions.{iter_labels-assert_length}
use mlogv.Mlog.Unsaved.{
  check_unsaved_variables, start, Warning, unsaved_variable, statement_step, written_by,
  writes_first, target_of, written, report, is_check, add, node_step, check_nodes,
}
use mlogv.Mlog.Unsaved.Steps.{unsaved_of}
use mlogv.Mlog.Unsaved.Reports.{UnsavedStatement, check_unsaved_variables-exact}
use mlogv.Mlog.Replace.{replace_symbolic_labels, iter_label_refs}
use mlogv.Mlog.Replace.Substitution.{Pieces, render, substitute, replace_symbolic_labels-substitute}

abbrev plain : Text → Token
plain s = record { text = s; kind = word; start_pos = none; end_pos = none }

abbrev line : Text → AstNode
line s = statement (plain s) []

abbrev labelled : Text → AstNode
labelled s = AstNode.label (plain s)

abbrev two_labels : List (Text × ℕ)
two_labels = (codes "a", 1) ∷ (codes "b", 2) ∷ []

iter_labels-position_example :
    (length two_labels
      ≡ count_labels (
          (line (codes "noop") ∷ labelled (codes "a") ∷ line (codes "noop") ∷ [])
          ++ labelled (codes "b") ∷ []))
    × (get_elem? two_labels
          (count_labels (line (codes "noop") ∷ labelled (codes "a") ∷ line (codes "noop") ∷ []))
        ≡ some (
          codes "b",
          count_statements (line (codes "noop") ∷ labelled (codes "a") ∷ line (codes "noop") ∷ []),
        ))
unfolding iter_labels at_end
iter_labels-position_example =
    iter_labels-position (line (codes "noop") ∷ labelled (codes "a") ∷ line (codes "noop") ∷ [])
      (plain (codes "b")) [] two_labels refl

iter_labels-assert_length_example :
    parse_int (codes "2")
    ≡ some (pos (count_statements (line (codes "noop") ∷ line (codes "stop") ∷ [])))
unfolding iter_labels directive_step is_named start_assert_length expect_int parse_int
    end_assert_length at_end
iter_labels-assert_length_example =
    iter_labels-assert_length (line (codes "end") ∷ [])
      (line (codes "noop") ∷ line (codes "stop") ∷ []) [] (plain (codes "start_assert_length"))
      (plain (codes "2")) (plain (codes "end_assert_length")) [] [] refl refl tt refl

abbrev saves_nothing : Ast
saves_nothing =
    directive (plain (codes "end_fetch")) []
    ∷ statement (plain (codes "set")) (plain (codes "pc") ∷ plain (codes "4") ∷ [])
    ∷ []

abbrev one_warning : List Warning
one_warning = unsaved_variable (codes "pc") ∷ []

check_unsaved_variables-exact_example :
    (contains (unsaved_of one_warning) (codes "pc") ≡ true)
    ↔ UnsavedStatement saves_nothing (codes "pc")
unfolding check_unsaved_variables is_named check_nodes node_step mlogv.Mlog.Unsaved.directive_step
    statement_step written_by target_of mlogv.Mlog.Unsaved.writes_second writes_first written
    is_check report contains
check_unsaved_variables-exact_example =
    check_unsaved_variables-exact saves_nothing one_warning 0 (codes "pc") refl

-- `jump %a%`, written behind the label
abbrev reference : Token
reference = record { text = codes "%a%"; kind = label_ref; start_pos = some 8; end_pos = some 11 }

abbrev jumping : Ast
jumping = labelled (codes "a") ∷ statement (plain (codes "jump")) (reference ∷ []) ∷ []

abbrev pieces : Pieces
pieces = (codes "a: jump ", reference) ∷ []

abbrev at_zero : List (Text × ℕ)
at_zero = (codes "a", 0) ∷ []

-- a parser that knows two texts
abbrev parse_two : Text → Result MlogError Ast
parse_two s =
    if text_eq s (codes "a: jump 0")
    then ok (labelled (codes "a") ∷ statement (plain (codes "jump")) (plain (codes "0") ∷ []) ∷ [])
    else ok []

replace_symbolic_labels-substitute_example :
    replace_symbolic_labels parse_two (render pieces []) jumping at_zero false
    ≡ substitute at_zero pieces []
unfolding iter_label_refs
replace_symbolic_labels-substitute_example =
    replace_symbolic_labels-substitute parse_two jumping at_zero pieces [] refl (refl, refl, tt)

-- ===== src/Mlog/Unsaved.antt =====
-- python/src/mlogv32/preprocessor/parser/mlog.py: `check_unsaved_variables`, which looks for variables
-- that the worker writes and does not save.
pub mod Sets
pub mod Steps
pub mod Prefix
pub mod Saved
pub mod Reports
use mlogv.Prelude.{
  ℕ, ◌+◌, Bool, true, false, not, ◌&&◌, ◌||◌, Option, none, some, List, [], ◌∷◌, ◌++◌, Text, codes,
  Result, ok, err, ◌>>=◌, if◌then◌else◌, text_eq, contains, length,
}
use mlogv.Mlog.{
  Token, AstNode, label, statement, directive, Ast, MlogError, key_error, inner, is_named,
}

-- the values of the local `state`
pub data Phase : Type 0 where
  init fetch check : Phase

-- the lines that are printed, but for the count at the end
pub data Warning : Type 0 where
  invalid_restoration : Text → Text → Warning
  duplicate_restoration : Text → Warning
  unsaved_variable : Text → Warning

-- the locals of the loop; the two sets are lists without duplicates
pub record Checker : Type 0 where
  pub saved_variables : List Text
  pub warned_variables : List Text
  pub state : Phase
  pub warnings : List Warning

-- `names.add(name)`
unfoldable pub add : List Text → Text → List Text
add names name = if contains names name then names else names ++ name ∷ []

-- `names.remove(name)`
unfoldable pub remove : List Text → Text → Result MlogError (List Text)
remove [] name = err (key_error name)
remove (x ∷ names) name =
    let rest = remove names name in
    if text_eq x name then ok names else (do names' ← rest; ok (x ∷ names'))

unfoldable pub add_all : List Text → List Token → List Text
add_all names [] = names
add_all names (var ∷ args) = add_all (add names var.text) args

unfoldable pub remove_all : List Text → List Token → Result MlogError (List Text)
remove_all names [] = ok names
remove_all names (var ∷ args) = do names' ← remove names var.text; remove_all names' args

pub warn : Checker → Warning → Checker
warn c w = record c { warnings = c.warnings ++ w ∷ [] }

-- the test behind the `match`, on the variable that the statement writes
unfoldable pub report : Checker → Text → Checker
unfolding warn
report c var =
    if contains c.saved_variables var || contains c.warned_variables var
    then c
    else record (warn c (unsaved_variable var)) { warned_variables = add c.warned_variables var }

unfoldable pub is_check : Phase → Bool
is_check check = true
is_check _ = false

unfoldable pub is_fetch : Phase → Bool
is_fetch fetch = true
is_fetch _ = false

unfoldable pub written : Checker → Text → Checker
written c var = if is_check c.state then report c var else c

-- `read var prev_proc "name"` between the fetch directives restores a variable
unfoldable pub restore : Checker → Text → Text → Checker
unfolding warn
restore c var name =
    let warned =
      if not (text_eq var (inner name))
      then warn c (invalid_restoration var (inner name))
      else if contains c.saved_variables var
      then warn c (duplicate_restoration var)
      else c in
    record warned { saved_variables = add c.saved_variables var }

-- The instructions that write their first argument, and those that write their second.
unfoldable pub writes_first : Token → Bool
writes_first name =
    is_named name (codes "getflag")
    || is_named name (codes "getlink")
    || is_named name (codes "sensor")
    || is_named name (codes "set")
    || is_named name (codes "select")

unfoldable pub writes_second : Token → Bool
writes_second name =
    is_named name (codes "getblock") || is_named name (codes "lookup") || is_named name (codes "op")

-- The `case Statement` arms but for `read`: the variable that the pattern binds.
unfoldable pub target_of : Token → List Token → Option Text
target_of name [] = none
target_of name (a ∷ []) = if writes_first name then some a.text else none
target_of name (a ∷ b ∷ args) =
    if writes_second name then some b.text else if writes_first name then some a.text else none

unfoldable pub written_by : Checker → Option Text → Checker
written_by c none = c
written_by c (some var) = written c var

-- a `read` has exactly three arguments, or falls through to `case _`
unfoldable pub statement_step : Checker → Token → List Token → Checker
statement_step c name (var ∷ target ∷ from ∷ []) =
    if is_named name (codes "read")
    then (if is_fetch c.state && is_named target (codes "prev_proc")
        then restore c var.text from.text
        else written c var.text)
    else written_by c (target_of name (var ∷ target ∷ from ∷ []))
statement_step c name args = written_by c (target_of name args)

unfoldable pub directive_step : Checker → Token → List Token → Result MlogError Checker
directive_step c name args =
    if is_named name (codes "start_fetch")
    then ok (record c { state = fetch })
    else if is_named name (codes "end_fetch")
    then ok (record c { state = check })
    else if is_named name (codes "push_saved")
    then ok (record c { saved_variables = add_all c.saved_variables args })
    else if is_named name (codes "pop_saved")
    then (do saved ← remove_all c.saved_variables args; ok (record c { saved_variables = saved }))
    else ok c

unfoldable pub node_step : Checker → AstNode → Result MlogError Checker
node_step c (AstNode.label name) = ok c
node_step c (statement name args) = ok (statement_step c name args)
node_step c (directive name args) = directive_step c name args

-- the loop
unfoldable pub check_nodes : Checker → Ast → Result MlogError Checker
check_nodes c [] = ok c
check_nodes c (node ∷ ast) = do c' ← node_step c node; check_nodes c' ast

abbrev pub start : Checker
start = record {
  saved_variables = codes "@counter" ∷ [];
  warned_variables = [];
  state = init;
  warnings = [];
}

-- `len(saved_variables - {'@counter'})`
pub count_saved : List Text → ℕ
count_saved [] = 0
count_saved (x ∷ names) = (if text_eq x (codes "@counter") then 0 else 1) + count_saved names

-- what is printed: the warnings, then the number of saved variables
unfoldable pub check_unsaved_variables : Ast → Result MlogError (List Warning × ℕ)
unfolding count_saved
check_unsaved_variables ast = do
  c ← check_nodes start ast
  ok (c.warnings, count_saved c.saved_variables)

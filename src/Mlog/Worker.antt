-- ===== src/Mlog/Worker.antt =====
-- python/src/mlogv32/preprocessor/app.py: how `build` makes the worker's code and the labels that the
-- controller gets, and the command `labels`. The printed counts are not modelled.
pub mod Addresses
use mlogv.Prelude.{
  ℕ, Bool, true, false, Option, none, some, List, [], ◌∷◌, ◌++◌, Text, codes, join, Result, ok, err,
  ◌>>=◌, if◌then◌else◌,
}
use mlogv.PyInt.{decimal}
use mlogv.Mlog.{Token, Ast, MlogError, count_statements}
use mlogv.Mlog.Labels.{iter_labels}
use mlogv.Mlog.Unsaved.{Warning, check_unsaved_variables}
use mlogv.Mlog.Replace.{dict_of, replace_symbolic_labels}

-- the worker's code, its labels, and what is printed: the warnings, the number of saved variables, and
-- the number of the instructions
pub record WorkerBuild : Type 0 where
  pub worker_code : Text
  pub worker_labels : List (Text × ℕ)
  pub warnings : List Warning
  pub saved : ℕ
  pub instructions : ℕ

unfoldable pub prepare_worker : (Text → Result MlogError Ast) → Text → Result MlogError WorkerBuild
prepare_worker parse_mlog worker_code = do
  worker_ast ← parse_mlog worker_code
  report ← check_unsaved_variables worker_ast
  pairs ← iter_labels worker_ast
  new_code ← replace_symbolic_labels parse_mlog worker_code worker_ast (dict_of pairs) true
  ok (record {
    worker_code = new_code;
    worker_labels = dict_of pairs;
    warnings = report.0;
    saved = report.1;
    instructions = count_statements worker_ast;
  })

-- `not filter_re or filter_re.fullmatch(name)`
passes_filter : Option (Text → Bool) → Text → Bool
passes_filter none name = true
passes_filter (some fullmatch) name = fullmatch name

unfoldable pub set_lines : Option (Text → Bool) → List (Text × ℕ) → List Text
unfolding passes_filter
set_lines filter_re [] = []
set_lines filter_re ((name, line_num) ∷ pairs) =
    let rest = set_lines filter_re pairs in
    if passes_filter filter_re name
    then (codes "set " ++ (name ++ (b' ' ∷ decimal line_num))) ∷ rest
    else rest

-- the command `labels`
unfoldable pub labels_command :
    (Text → Result MlogError Ast) → Option (Text → Bool) → Text → Result MlogError Text
labels_command parse_mlog filter_re text = do
  lines ← parse_mlog text
  pairs ← iter_labels lines
  ok (join (b'\n' ∷ []) (set_lines filter_re pairs))

-- ===== src/Rendering/Codes.antt =====
-- python/src/mlogv32/preprocessor/app.py: `_render_template` of `build`, and the codes of the worker, the
-- controller, the debugger and the display, from the templates to the code and the files. The printed
-- counts are not modelled.
pub mod Steps
pub mod Labels
use mlogv.Prelude.{
  ℕ, Bool, true, false, not, ◌&&◌, Option, none, some, List, [], ◌∷◌, ◌++◌, map, Text, text_eq,
  codes, contains, Result, ok, err, ◌>>=◌, if◌then◌else◌,
}
use mlogv.BuildConfig.{Instruction, Csr}
use mlogv.Mlog.{MlogError, Ast}
use mlogv.Mlog.Worker.{WorkerBuild, prepare_worker}
use mlogv.Rendering.{
  FilePath, Files, RenderError, multiple_values, read_text, write_text, parent, name_of,
  stem_and_suffix, get_template_output_path, Value, text_value, labels_value, instructions_value,
  csrs_value, Extension, local_variables, create_jinja_env, Jinja, render_template,
}

-- a keyword that is given twice, as an option of the functions or as another keyword, is a TypeError
abbrev pub own_keywords : List Text
own_keywords =
    codes "template"
    ∷ codes "extensions"
    ∷ codes "force"
    ∷ codes "path"
    ∷ codes "output"
    ∷ codes "env"
    ∷ []

pub check_inputs : {V : Type 0} → List Text → List (Text × Value V) → Result RenderError Unit
check_inputs taken [] = ok tt
check_inputs taken ((key, value) ∷ inputs) =
    if contains taken key then err (multiple_values key) else check_inputs taken inputs

-- the call with `**inputs`
unfoldable pub with_inputs :
    {V : Type 0}
    → List (Text × Value V)
    → List (Text × Value V)
    → Result RenderError (List (Text × Value V))
unfolding check_inputs
with_inputs given inputs = do
  checked ← check_inputs (own_keywords ++ map (λ entry. entry.0) given) inputs
  ok (given ++ inputs)

pub data CodesError : Type 0 where
  render_failed : RenderError → CodesError
  mlog_failed : MlogError → CodesError

abbrev pub rendering : {A : Type 0} → Result RenderError A → Result CodesError A
rendering (err e) = err (render_failed e)
rendering (ok a) = ok a

abbrev pub checking : {A : Type 0} → Result MlogError A → Result CodesError A
checking (err e) = err (mlog_failed e)
checking (ok a) = ok a

-- `config.templates`, `config.inputs`, `config.instructions` and `config.csrs`
pub record Sources (V : Type 0) : Type 0 where
  pub worker : FilePath
  pub controller : FilePath
  pub debugger : FilePath
  pub display : FilePath
  pub inputs : List (Text × Value V)
  pub instructions : List Instruction
  pub csrs : List (Text × Csr)

-- what `build` has behind the codes: that of the worker with its labels, the others, and the files
pub record CodesBuild : Type 0 where
  pub worker : WorkerBuild
  pub controller_code : Text
  pub debugger_code : Text
  pub display_code : Text
  pub files : Files

abbrev pub page_argument : {V : Type 0} → Text → Text × Value V
page_argument pages = (codes "VARIABLE_0_TO_PAGE_OFFSET", text_value pages)

abbrev pub controller_arguments :
    {V : Type 0} → Sources V → List (Text × ℕ) → Text → List (Text × Value V)
controller_arguments sources labels pages =
    (codes "instructions", instructions_value sources.instructions)
    ∷ (codes "csrs", csrs_value sources.csrs)
    ∷ (codes "labels", labels_value labels)
    ∷ page_argument pages
    ∷ []

module _ {Template V : Type 0} (jinja : Jinja Template V) where
  -- `_render_template` where the template is rendered
  unfoldable pub render_forced :
      FilePath
      → List Extension
      → List (Text × Value V)
      → Files
      → Result RenderError (Text × FilePath × Files)
  render_forced template extensions kwargs files = do
    output ← get_template_output_path template
    rendered ←
        render_template jinja files template output (create_jinja_env (parent template) extensions)
          kwargs
    ok (rendered.0, output, rendered.1)

  pub read_or_render : Bool → FilePath → Files → Result RenderError (Text × Files)
  read_or_render true template files = do text ← read_text files template; ok (text, files)
  read_or_render false template files = do
    rendered ← render_forced template [] [] files
    ok (rendered.0, rendered.2)

  -- `_render_template` without `force`: a file of mlog is only read
  unfoldable pub render_or_read : FilePath → Files → Result RenderError (Text × Files)
  unfolding read_or_render
  render_or_read template files =
      read_or_render (text_eq (stem_and_suffix (name_of template)).1 (codes ".mlog")) template files

  module _ (parse_mlog : Text → Result MlogError Ast) (sources : Sources V) (pages : Text) where
    -- the worker: rendered, checked, and written again with addresses in place of the labels
    unfoldable pub worker_for : Files → Result CodesError (WorkerBuild × FilePath × Files)
    worker_for files = do
      kwargs ← rendering (with_inputs (page_argument pages ∷ []) sources.inputs)
      rendered ← rendering (render_forced sources.worker (local_variables ∷ []) kwargs files)
      worker ← checking (prepare_worker parse_mlog rendered.0)
      ok (worker, rendered.1, write_text rendered.2 rendered.1 worker.worker_code)

    unfoldable pub controller_for :
        List (Text × ℕ) → Files → Result CodesError (Text × FilePath × Files)
    controller_for labels files = do
      kwargs ← rendering (with_inputs (controller_arguments sources labels pages) sources.inputs)
      rendered ← rendering (render_forced sources.controller (local_variables ∷ []) kwargs files)
      ast ← checking (parse_mlog rendered.0)
      ok rendered

    unfoldable pub codes_for : Files → Result CodesError CodesBuild
    codes_for files = do
      worker ← worker_for files
      controller ← controller_for worker.0.worker_labels worker.2
      debugger ← rendering (render_or_read sources.debugger controller.2)
      display ← rendering (render_or_read sources.display debugger.1)
      ok (record {
        worker = worker.0;
        controller_code = controller.0;
        debugger_code = debugger.0;
        display_code = display.0;
        files = display.1;
      })

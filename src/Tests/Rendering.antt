-- ===== src/Tests/Rendering.antt =====
-- The theorems on the rendered codes and files.
use mlogv.Prelude.{
  ap, arith, length, ℕ, ◌≡◌, ◌≢◌, refl, Bool, true, false, if◌then◌else◌, Option, none, some, List,
  [], ◌∷◌, ◌++◌, Text, text_eq, codes, Result, ok, err, ◌>>=◌,
}
use mlogv.Mlog.{Token, word, label_ref, AstNode, statement, Ast, MlogError}
use mlogv.Mlog.Replace.{lookup}
use mlogv.Mlog.Worker.{WorkerBuild}
use mlogv.Mlog.Worker.Addresses.{HasLabel}
use mlogv.Rendering.{
  FilePath, Files, RenderError, read_text, Jinja, Value, text_value, yaml_value, ConfigsYaml, union,
  config_for, joined, Environment,
}
use mlogv.Rendering.Configs.{IsRendered, config_for-IsRendered}
use mlogv.Rendering.Codes.{Sources, CodesBuild, codes_for}
use mlogv.Rendering.Codes.Labels.{IsControlled, codes_for-labels}

-- the values of the arguments
abbrev values : List (Text × Value Text) → Text
values [] = []
values ((key, yaml_value text) ∷ args) = text ++ values args
values ((key, value) ∷ args) = values args

-- the number of the characters in a path
abbrev characters : Result RenderError FilePath → ℕ
characters (ok (directory ∷ file ∷ [])) = length file
characters path = 0

-- templates that end in the values of the arguments
abbrev appending : Jinja Text Text
appending = record {
  get_template = λ files env name. read_text files (joined env.template_dir name);
  render = λ env template args. ok (template ++ values args);
}

abbrev two_configs : ConfigsYaml Text
two_configs = record {
  template = codes "c.jinja";
  defaults = (codes "A", yaml_value (codes "1")) ∷ [];
  configs =
      (codes "small", (codes "B", yaml_value (codes "2")) ∷ [])
      ∷ (codes "big", (codes "A", yaml_value (codes "3")) ∷ [])
      ∷ [];
}

abbrev configs_files : Files
configs_files = (codes "c" ∷ codes "c.jinja" ∷ [], codes "x") ∷ []

abbrev written_files : Files
written_files =
    (codes "c" ∷ codes "c.jinja" ∷ [], codes "x")
    ∷ (codes "c" ∷ codes "small.mlog" ∷ [], codes "x12")
    ∷ (codes "c" ∷ codes "big.mlog" ∷ [], codes "x3")
    ∷ []

abbrev small_args : List (Text × Value Text)
small_args = (codes "A", yaml_value (codes "1")) ∷ (codes "B", yaml_value (codes "2")) ∷ []

config_for-IsRendered_example :
    (small_args ≡ union two_configs.defaults ((codes "B", yaml_value (codes "2")) ∷ []))
    × IsRendered appending two_configs
        (codes "c" ∷ codes "configs.yaml" ∷ [])
        configs_files
        small_args
        (codes "c" ∷ codes "small.mlog" ∷ [])
        (codes "x12")
        written_files
unfolding mlogv.Rendering.nonempty_entry mlogv.BuildConfig.lookup text_eq
    mlogv.Rendering.config_path mlogv.Rendering.with_suffix mlogv.Rendering.name_of joined
    mlogv.Rendering.parent mlogv.Config.split mlogv.Rendering.stem_and_suffix
    mlogv.Rendering.cut_dot config_for mlogv.Rendering.configs read_text mlogv.Rendering.path_eq
    mlogv.Rendering.create_jinja_env mlogv.Rendering.write_configs mlogv.BuildConfig.insert
    mlogv.Config.split_from union mlogv.Rendering.write_text
config_for-IsRendered_example =
    config_for-IsRendered appending two_configs (codes "c" ∷ codes "configs.yaml" ∷ [])
      (codes "build.yaml" ∷ []) (codes "small") ((codes "B", yaml_value (codes "2")) ∷ []) []
      ((codes "big", (codes "A", yaml_value (codes "3")) ∷ []) ∷ []) configs_files written_files
      (codes "c" ∷ codes "small.mlog" ∷ []) small_args (codes "x12") refl refl refl
      ((λ h. omega (arith, ap characters h)), tt) refl

abbrev plain : Text → Token
plain s = record { text = s; kind = word; start_pos = none; end_pos = none }

abbrev jump_to : Token → Ast
jump_to target =
    AstNode.label (plain (codes "a")) ∷ statement (plain (codes "jump")) (target ∷ []) ∷ []

-- a parser that knows the worker's text with the reference, and else its final text
abbrev parse_worker : Text → Result MlogError Ast
parse_worker s =
    if text_eq s (codes "a: jump %a%")
    then ok (
        jump_to
          (record { text = codes "%a%"; kind = label_ref; start_pos = some 8; end_pos = some 11 }))
    else ok (jump_to (plain (codes "0")))

abbrev four_templates : Sources Text
four_templates = record {
  worker = codes "w.jinja" ∷ [];
  controller = codes "c.jinja" ∷ [];
  debugger = codes "d.mlog" ∷ [];
  display = codes "e.mlog" ∷ [];
  inputs = [];
  instructions = [];
  csrs = [];
}

abbrev template_files : Files
template_files =
    (codes "w.jinja" ∷ [], codes "a: jump %a%")
    ∷ (codes "c.jinja" ∷ [], codes "end")
    ∷ (codes "d.mlog" ∷ [], codes "stop")
    ∷ (codes "e.mlog" ∷ [], codes "stop")
    ∷ []

abbrev four_codes : CodesBuild
four_codes = record {
  worker = record {
    worker_code = codes "a: jump 0";
    worker_labels = (codes "a", 0) ∷ [];
    warnings = [];
    saved = 0;
    instructions = 1;
  };
  controller_code = codes "end";
  debugger_code = codes "stop";
  display_code = codes "stop";
  files =
      template_files ++ ((codes "w" ∷ [], codes "a: jump 0") ∷ (codes "c" ∷ [], codes "end") ∷ []);
}

-- the first character of a path
abbrev initial : Result RenderError FilePath → ℕ
initial (ok ((c ∷ name) ∷ path)) = c
initial path = 0

codes_for-labels_example :
    IsControlled appending parse_worker four_templates
      (codes "0")
      ((codes "a", 0) ∷ [])
      (codes "end")
    × ((ast : Ast) × (parse_worker (codes "a: jump 0") ≡ ok ast) × HasLabel ast (codes "a") 0)
    × (read_text four_codes.files (codes "w" ∷ []) ≡ ok (codes "a: jump 0"))
unfolding codes_for mlogv.Rendering.Codes.worker_for mlogv.Rendering.Codes.controller_for
    mlogv.Rendering.Codes.render_or_read mlogv.Rendering.Codes.with_inputs
    mlogv.Rendering.Codes.render_forced mlogv.Rendering.get_template_output_path text_eq
    mlogv.Rendering.stem_and_suffix mlogv.Rendering.cut_dot mlogv.Rendering.name_of
    mlogv.Rendering.with_suffix mlogv.Rendering.parent mlogv.Rendering.create_jinja_env
    mlogv.Rendering.render_template joined read_text mlogv.Rendering.path_eq
    mlogv.Rendering.write_text mlogv.Config.split mlogv.Config.split_from mlogv.Prelude.contains
    mlogv.Mlog.Worker.prepare_worker lookup mlogv.Mlog.Unsaved.check_unsaved_variables
    mlogv.Mlog.Unsaved.check_nodes mlogv.Mlog.Unsaved.node_step mlogv.Mlog.Labels.iter_labels
    mlogv.Mlog.Labels.labels_from mlogv.Mlog.Labels.at_end
    mlogv.Mlog.Replace.replace_symbolic_labels mlogv.Mlog.Replace.iter_label_refs
    mlogv.Mlog.Replace.replace_from mlogv.Mlog.Replace.dict_of mlogv.Mlog.inner
    mlogv.Mlog.Replace.slice mlogv.PyInt.decimal mlogv.Mlog.count_statements
    mlogv.Mlog.Replace.dict_eq mlogv.Mlog.Unsaved.statement_step mlogv.Mlog.Unsaved.written_by
    mlogv.Mlog.Unsaved.target_of mlogv.Mlog.Unsaved.written mlogv.Mlog.Unsaved.is_check
    mlogv.Mlog.Unsaved.writes_first mlogv.Mlog.is_named
codes_for-labels_example =
    codes_for-labels appending parse_worker four_templates (codes "0") template_files four_codes
      (codes "w" ∷ []) (codes "a") 0 refl refl (λ h. omega (arith, ap initial h))
      (λ h. omega (arith, ap initial h)) (λ h. omega (arith, ap initial h)) refl

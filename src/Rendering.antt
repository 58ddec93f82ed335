-- ===== src/Rendering.antt =====
-- python/src/mlogv32/preprocessor/app.py: what is rendered to which file: `create_jinja_env`,
-- `render_template`, `get_template_output_path`, `configs`, and `_render_template` and the choice of the
-- configuration in `build`. Jinja is a parameter, and so is what YAML reads; a path is the list of its
-- parts, a file system the texts of its files. Directories and what is printed are not modelled.
pub mod Files
pub mod Configs
pub mod Codes
use mlogv.Prelude.{
  ℕ, Bool, true, false, not, ◌&&◌, Option, none, some, List, [], ◌∷◌, ◌++◌, Text, text_eq, codes,
  contains, Result, ok, err, ◌>>=◌, if◌then◌else◌, ◌==◌, ℤ, pos,
}
use mlogv.BuildConfig.{Instruction, Csr, lookup, insert}
use mlogv.Config.{ConfigArgs, split, parse_config_str}

-- pathlib's `parts`
abbrev pub FilePath : Type 0
FilePath = List Text

unfoldable pub path_eq : FilePath → FilePath → Bool
path_eq [] [] = true
path_eq (a ∷ p) (b ∷ q) = text_eq a b && path_eq p q
path_eq _ _ = false

-- the texts of the files
abbrev pub Files : Type 0
Files = List (FilePath × Text)

pub data RenderError : Type 0 where
  template_error : Text → RenderError
  file_not_found : FilePath → RenderError
  empty_name : RenderError
  unexpected_suffix : FilePath → RenderError
  multiple_values : Text → RenderError
  invalid_config : Text → RenderError

unfoldable pub read_text : Files → FilePath → Result RenderError Text
read_text [] path = err (file_not_found path)
read_text ((p, text) ∷ files) path = if path_eq p path then ok text else read_text files path

unfoldable pub write_text : Files → FilePath → Text → Files
write_text [] path text = (path, text) ∷ []
write_text ((p, old) ∷ files) path text =
    if path_eq p path then (p, text) ∷ files else (p, old) ∷ write_text files path text

-- the parts of a relative path in a text
relative_parts : List Text → FilePath
relative_parts [] = []
relative_parts (part ∷ parts) =
    let rest = relative_parts parts in
    if text_eq part [] then rest else if text_eq part (codes ".") then rest else part ∷ rest

-- `directory / name`
unfoldable pub joined : FilePath → Text → FilePath
unfolding relative_parts
joined directory [] = directory
joined directory (c ∷ name) =
    let parts = relative_parts (split b'/' (c ∷ name)) in
    if c == b'/' then codes "/" ∷ parts else directory ++ parts

unfoldable pub parent : FilePath → FilePath
parent [] = []
parent (part ∷ []) = if text_eq part (codes "/") then part ∷ [] else []
parent (part ∷ q ∷ path) = part ∷ parent (q ∷ path)

-- `path.name`; the root has none
unfoldable pub name_of : FilePath → Text
name_of [] = []
name_of (part ∷ []) = if text_eq part (codes "/") then [] else part
name_of (part ∷ q ∷ path) = name_of (q ∷ path)

-- a name cut at its last dot, which is left out
unfoldable pub cut_dot : Text → Option (Text × Text)
cut_dot [] = none
cut_dot (c ∷ s) = elim (cut_dot s) [
  | some cut ↦ some (c ∷ cut.0, cut.1)
  | none ↦ if c == b'.' then some ([], s) else none
]

-- a dot in front of the name or behind it begins no suffix
whole_or_cut : Text → Option (Text × Text) → Text × Text
whole_or_cut name none = (name, [])
whole_or_cut name (some ([], suffix)) = (name, [])
whole_or_cut name (some (c ∷ stem, [])) = (name, [])
whole_or_cut name (some (c ∷ stem, d ∷ suffix)) = (c ∷ stem, b'.' ∷ d ∷ suffix)

-- the name without `suffix`, and `suffix`
unfoldable pub stem_and_suffix : Text → Text × Text
unfolding whole_or_cut
stem_and_suffix name = whole_or_cut name (cut_dot name)

renamed : FilePath → Text → Text → Result RenderError FilePath
renamed path [] suffix = err empty_name
renamed path (c ∷ name) suffix =
    ok (parent path ++ (((stem_and_suffix (c ∷ name)).0 ++ suffix) ∷ []))

unfoldable pub with_suffix : FilePath → Text → Result RenderError FilePath
unfolding renamed
with_suffix path suffix = renamed path (name_of path) suffix

unfoldable pub get_template_output_path : FilePath → Result RenderError FilePath
get_template_output_path path =
    if text_eq (stem_and_suffix (name_of path)).1 (codes ".jinja")
    then with_suffix path []
    else err (unexpected_suffix path)

-- what a template gets: values from YAML, integers, texts, and the lists of the build
pub data Value (V : Type 0) : Type 0 where
  yaml_value : V → Value V
  int_value : ℤ → Value V
  text_value : Text → Value V
  labels_value : List (Text × ℕ) → Value V
  instructions_value : List Instruction → Value V
  csrs_value : List (Text × Csr) → Value V

pub data Extension : Type 0 where
  do_statement comment_statement line_expression local_variables : Extension

-- the options of the environment that do not differ are the same in each
pub record Environment : Type 0 where
  pub template_dir : FilePath
  pub extensions : List Extension

unfoldable pub create_jinja_env : FilePath → List Extension → Environment
create_jinja_env template_dir extensions = record {
  template_dir = template_dir;
  extensions = do_statement ∷ comment_statement ∷ line_expression ∷ extensions;
}

-- Jinja: a template is loaded from the files, and rendered with the arguments
pub record Jinja (Template V : Type 0) : Type 0 where
  pub get_template : Files → Environment → Text → Result RenderError Template
  pub render : Environment → Template → List (Text × Value V) → Result RenderError Text

-- `defaults | args`
unfoldable pub union : {V : Type 0} → List (Text × V) → List (Text × V) → List (Text × V)
union defaults [] = defaults
union defaults ((key, value) ∷ args) = union (insert defaults key value) args

pub record ConfigsYaml (V : Type 0) : Type 0 where
  pub template : Text
  pub defaults : List (Text × Value V)
  pub configs : List (Text × List (Text × Value V))

-- the file of a configuration
unfoldable pub config_path : FilePath → Text → Result RenderError FilePath
config_path output_dir name = with_suffix (joined output_dir name) (codes ".mlog")

-- the `ConfigArgs` that `parse_config_str` makes
unfoldable pub args_of : {V : Type 0} → ConfigArgs → List (Text × Value V)
args_of args =
    (codes "UART_FIFO_CAPACITY", int_value (pos args.uart_fifo_capacity))
    ∷ (codes "MTIME_FREQUENCY", int_value (pos args.mtime_frequency))
    ∷ (codes "MEMORY_X_OFFSET", int_value args.memory_x_offset)
    ∷ (codes "MEMORY_Y_OFFSET", int_value args.memory_y_offset)
    ∷ (codes "MEMORY_WIDTH", int_value args.memory_width)
    ∷ (codes "PROGRAM_ROM_ROWS", int_value args.program_rom_rows)
    ∷ (codes "DATA_ROM_ROWS", int_value args.data_rom_rows)
    ∷ (codes "RAM_ROWS", int_value args.ram_rows)
    ∷ (codes "ICACHE_ROWS", int_value args.icache_rows)
    ∷ []

-- an entry that is there and not empty
unfoldable pub nonempty_entry :
    {V : Type 0} → Option (List (Text × Value V)) → Option (List (Text × Value V))
nonempty_entry none = none
nonempty_entry (some []) = none
nonempty_entry (some (arg ∷ args)) = some (arg ∷ args)

-- the arguments, the code and the files
abbrev pub ConfigCode : Type 0 → Type 0
ConfigCode V = List (Text × Value V) × Text × Files

module _ {Template V : Type 0} (jinja : Jinja Template V) where
  -- with an output path
  unfoldable pub render_template :
      Files
      → FilePath
      → FilePath
      → Environment
      → List (Text × Value V)
      → Result RenderError (Text × Files)
  render_template files path output env kwargs = do
    template ← jinja.get_template files env (name_of path)
    result ← jinja.render env template kwargs
    ok (result, write_text files output result)

  unfoldable pub write_configs :
      FilePath
      → Environment
      → Template
      → List (Text × Value V)
      → List (Text × List (Text × Value V))
      → Files
      → Result RenderError Files
  write_configs output_dir env template defaults [] files = ok files
  write_configs output_dir env template defaults ((name, args) ∷ entries) files = do
    result ← jinja.render env template (union defaults args)
    path ← config_path output_dir name
    write_configs output_dir env template defaults entries (write_text files path result)

  -- the command `configs`
  unfoldable pub configs : ConfigsYaml V → FilePath → Files → Result RenderError Files
  configs yaml yaml_path files = do
    template ← jinja.get_template files (create_jinja_env (parent yaml_path) []) yaml.template
    write_configs (parent yaml_path) (create_jinja_env (parent yaml_path) []) template yaml.defaults
        yaml.configs files

  pub known_config :
      ConfigsYaml V
      → FilePath
      → Text
      → List (Text × Value V)
      → Files
      → Result RenderError (ConfigCode V)
  known_config yaml configs_path name args files = do
    files' ← configs yaml configs_path files
    path ← config_path (parent configs_path) name
    code ← read_text files' path
    ok (union yaml.defaults args, code, files')

  pub parsed_config :
      ConfigsYaml V
      → FilePath
      → FilePath
      → Text
      → Option ConfigArgs
      → Files
      → Result RenderError (ConfigCode V)
  parsed_config yaml configs_path yaml_path name none files = err (invalid_config name)
  parsed_config yaml configs_path yaml_path name (some args) files =
      let path = joined (parent configs_path) yaml.template in
      do
        rendered ←
            render_template files path (joined (parent yaml_path) (codes "generated_config.mlog"))
              (create_jinja_env (parent path) []) (args_of args)
        ok (args_of args, rendered.0, rendered.1)

  pub chosen_config :
      ConfigsYaml V
      → FilePath
      → FilePath
      → Text
      → Option (List (Text × Value V))
      → Files
      → Result RenderError (ConfigCode V)
  unfolding known_config parsed_config
  chosen_config yaml configs_path yaml_path name (some args) files =
      known_config yaml configs_path name args files
  chosen_config yaml configs_path yaml_path name none files =
      parsed_config yaml configs_path yaml_path name (parse_config_str name) files

  -- `config_args` and `config_code` of `build`, for a name that is not empty
  unfoldable pub config_for :
      ConfigsYaml V → FilePath → FilePath → Text → Files → Result RenderError (ConfigCode V)
  unfolding chosen_config
  config_for yaml configs_path yaml_path name files =
      chosen_config yaml configs_path yaml_path name (nonempty_entry (lookup yaml.configs name))
        files

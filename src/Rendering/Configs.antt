-- ===== src/Rendering/Configs.antt =====
-- python/src/mlogv32/preprocessor/app.py: the code that `build` reads for a configuration.
use mlogv.Prelude.{
  some, List, [], ◌∷◌, ◌++◌, All, Text, Result, ok, bind-eq-ok, ◌≡◌, ◌≢◌, ap, ap₂, sym, ◌∙◌,
}
use mlogv.BuildConfig.{lookup}
use mlogv.Rendering.{
  FilePath, Files, RenderError, read_text, write_text, parent, Value, Environment, create_jinja_env,
  Jinja, union, ConfigsYaml, config_path, nonempty_entry, write_configs, configs, known_config,
  chosen_config, config_for, ConfigCode,
}
use mlogv.Rendering.Files.{read_text-write_text, read_text-write_text_other}

-- the configurations are not written to the file
abbrev pub SpareFile :
    {V : Type 0} → FilePath → FilePath → List (Text × List (Text × Value V)) → Type 0
SpareFile output_dir path = All (λ entry. config_path output_dir entry.0 ≢ ok path)

ok-injective : (a b : FilePath) → ◌≡◌ {A = Result RenderError FilePath} (ok a) (ok b) → a ≡ b
ok-injective a b h = cc

parts :
    {V : Type 0} (a a' : List (Text × Value V)) (t t' : Text) (f f' : Files)
    → ◌≡◌ {A = Result RenderError (ConfigCode V)} (ok (a, t, f)) (ok (a', t', f'))
    → (a ≡ a') × (t ≡ t') × (f ≡ f')
parts a a' t t' f f' h = (cc, cc, cc)

module _ {Template V : Type 0} (jinja : Jinja Template V) (output_dir : FilePath)
    (env : Environment) (template : Template) (defaults : List (Text × Value V)) where
  write_configs-spares :
      (entries : List (Text × List (Text × Value V))) (files files' : Files) (path : FilePath)
      → SpareFile output_dir path entries
      → write_configs jinja output_dir env template defaults entries files ≡ ok files'
      → read_text files' path ≡ read_text files path
  unfolding write_configs
  write_configs-spares [] files files' path spared h = cc
  write_configs-spares ((name, args) ∷ entries) files files' path (other, spared) h =
      let (result, rendered, h1) =
        bind-eq-ok (jinja.render env template (union defaults args)) _ h in
      let (target, placed, h2) = bind-eq-ok (config_path output_dir name) _ h1 in
      let apart : target ≢ path = λ same. other (placed ∙ ap ok same) in
      write_configs-spares entries (write_text files target result) files' path spared h2
      ∙ read_text-write_text_other files target result path apart

  write_configs-entry :
      (front : List (Text × List (Text × Value V))) (name : Text) (args : List (Text × Value V))
      (back : List (Text × List (Text × Value V))) (files files' : Files) (path : FilePath)
      → config_path output_dir name ≡ ok path
      → SpareFile output_dir path back
      → write_configs jinja output_dir env template defaults (front ++ ((name, args) ∷ back)) files
        ≡ ok files'
      → jinja.render env template (union defaults args) ≡ read_text files' path
  unfolding write_configs
  write_configs-entry [] name args back files files' path located spared h =
      let (result, rendered, h1) =
        bind-eq-ok (jinja.render env template (union defaults args)) _ h in
      let (target, placed, h2) = bind-eq-ok (config_path output_dir name) _ h1 in
      let same : target ≡ path = ok-injective target path (sym placed ∙ located) in
      let kept = write_configs-spares back (write_text files target result) files' path spared h2 in
      rendered
      ∙ sym (
          kept
          ∙ ap (read_text (write_text files target result)) (sym same)
          ∙ read_text-write_text files target result)
  write_configs-entry ((other, more) ∷ front) name args back files files' path located spared h =
      let (result, rendered, h1) =
        bind-eq-ok (jinja.render env template (union defaults more)) _ h in
      let (target, placed, h2) = bind-eq-ok (config_path output_dir other) _ h1 in
      write_configs-entry front name args back (write_text files target result) files' path located
        spared h2

-- the code is the text that the template gives with the arguments, and the file holds it
abbrev pub IsRendered :
    {Template V : Type 0}
    → Jinja Template V
    → ConfigsYaml V
    → FilePath
    → Files
    → List (Text × Value V)
    → FilePath
    → Text
    → Files
    → Type 0
IsRendered {Template} jinja yaml configs_path files args path code files' =
    (template : Template) × (jinja.get_template files (create_jinja_env (parent configs_path) [])
        yaml.template
      ≡ ok template)
    × (jinja.render (create_jinja_env (parent configs_path) []) template args ≡ ok code)
    × (read_text files' path ≡ ok code)

module _ {Template V : Type 0} (jinja : Jinja Template V) (yaml : ConfigsYaml V)
    (configs_path : FilePath) where
  known_config-IsRendered :
      (name : Text) (args : List (Text × Value V))
      (front back : List (Text × List (Text × Value V))) (files files' : Files) (path : FilePath)
      (all_args : List (Text × Value V)) (code : Text)
      → yaml.configs ≡ front ++ ((name, args) ∷ back)
      → config_path (parent configs_path) name ≡ ok path
      → SpareFile (parent configs_path) path back
      → known_config jinja yaml configs_path name args files ≡ ok (all_args, code, files')
      → (all_args ≡ union yaml.defaults args)
        × IsRendered jinja yaml configs_path files all_args path code files'
  unfolding known_config configs
  known_config-IsRendered name args front back files files' path all_args code split located spared
        h =
      let output_dir = parent configs_path in
      let env = create_jinja_env output_dir [] in
      let (written, done, h1) = bind-eq-ok (configs jinja yaml configs_path files) _ h in
      let (template, loaded, h2) = bind-eq-ok (jinja.get_template files env yaml.template) _ done in
      let (target, placed, h3) = bind-eq-ok (config_path output_dir name) _ h1 in
      let (text, read, h4) = bind-eq-ok (read_text written target) _ h3 in
      let (args_are, text_is, files_are) =
        parts (union yaml.defaults args) all_args text code written files' h4 in
      let same : path ≡ target = ok-injective path target (sym located ∙ placed) in
      let found : read_text files' path ≡ ok code =
        ap₂ read_text (sym files_are) same ∙ read ∙ ap ok text_is in
      let entries : write_configs jinja output_dir env template yaml.defaults
            (front ++ ((name, args) ∷ back)) files
          ≡ ok files' =
        ap (λ es. write_configs jinja output_dir env template yaml.defaults es files) (sym split)
        ∙ h2
        ∙ ap ok files_are in
      (
        sym args_are,
        (
          template,
          loaded,
          ap (jinja.render env template) (sym args_are)
              ∙ write_configs-entry jinja output_dir env template yaml.defaults front name args back
                  files files' path located spared entries
              ∙ found,
          found,
        ),
      )

  -- Let the configuration of the name be there and not be empty, and let no later configuration be written
  -- to its file. If `build` finds the code of the configuration, then its arguments are the defaults
  -- overridden by those of the configuration, the code is the text that the template of the configurations
  -- gives with these arguments, and the configuration's file holds it.
  pub config_for-IsRendered :
      (yaml_path : FilePath) (name : Text) (args : List (Text × Value V))
      (front back : List (Text × List (Text × Value V))) (files files' : Files) (path : FilePath)
      (all_args : List (Text × Value V)) (code : Text)
      → yaml.configs ≡ front ++ ((name, args) ∷ back)
      → nonempty_entry (lookup yaml.configs name) ≡ some args
      → config_path (parent configs_path) name ≡ ok path
      → SpareFile (parent configs_path) path back
      → config_for jinja yaml configs_path yaml_path name files ≡ ok (all_args, code, files')
      → (all_args ≡ union yaml.defaults args)
        × IsRendered jinja yaml configs_path files all_args path code files'
  unfolding config_for chosen_config
  config_for-IsRendered yaml_path name args front back files files' path all_args code split known
        located spared h =
      known_config-IsRendered name args front back files files' path all_args code split located
        spared
        (ap (λ o. chosen_config jinja yaml configs_path yaml_path name o files) (sym known) ∙ h)

-- ===== src/Sail.antt =====
-- riscof/sail_cSim/riscof_sail_cSim.py: the plugin of the reference simulator, from its configuration to
-- the targets of the makefile. A path is a text; `abspath`, `which` and the two YAML fields of the hart
-- are arguments; logging, the removal of an old makefile and the make utility are not modelled. The
-- paths in the commands are taken not to contain braces.
pub mod Texts
pub mod Clean
pub mod Targets
use mlogv.Prelude.{
  ℕ, ◌+◌, Bool, true, false, not, Option, none, some, List, [], ◌∷◌, ◌++◌, Text, codes, join, map,
  Result, ok, err, ◌>>=◌, if◌then◌else◌, ◌==◌,
}
use mlogv.PyInt.{strip_left, strip_right}
use mlogv.Config.{split}
use mlogv.Riscof.{
  is_in, join_path, xlen_of, mabi_of, isa_letter, compile_macros, lower, squeeze, PluginError,
  system_exit, setting, required, but_last,
}

-- the attributes that `__init__` sets
pub record SailPlugin : Type 0 where
  pub name : Text
  pub num_jobs : Text
  pub plugin_path : Text
  pub sail_exe : Text
  pub isa_spec : Text
  pub platform_spec : Text
  pub make : Text

-- the plugin's specification of the platform is read where that of the ISA is there
platform_spec_of : (Text → Text) → Bool → List (Text × Text) → Result PluginError Text
platform_spec_of abspath false config = ok []
platform_spec_of abspath true config = do spec ← required config (codes "pspec"); ok (abspath spec)

isa_spec_of : (Text → Text) → Bool → List (Text × Text) → Text
isa_spec_of abspath false config = []
isa_spec_of abspath true config = abspath (setting config (codes "ispec") [])

has_key : List (Text × Text) → Text → Bool
has_key config key = elim (required config key) [ ok value ↦ true | err e ↦ false ]

-- `__init__`; no configuration is logged as an error
unfoldable pub init :
    (Text → Text) → Text → Option (List (Text × Text)) → Result PluginError SailPlugin
unfolding platform_spec_of isa_spec_of has_key
init abspath name none = err (system_exit 1 (codes "Config node for sail_cSim missing."))
init abspath name (some config) = do
  plugin_path ← required config (codes "pluginpath")
  platform_spec ← platform_spec_of abspath (has_key config (codes "ispec")) config
  ok record {
    name = name;
    num_jobs = setting config (codes "jobs") (codes "1");
    plugin_path = abspath plugin_path;
    sail_exe = join_path (setting config (codes "PATH") []) (codes "sail_riscv_sim");
    isa_spec = isa_spec_of abspath (has_key config (codes "ispec")) config;
    platform_spec = platform_spec;
    make = setting config (codes "make") (codes "make");
  }

-- `hart0` of the ISA's specification
pub record Hart : Type 0 where
  pub supported_xlen : List ℕ
  pub isa : Text

unfoldable pub flen_of : Hart → Text
flen_of hart = if is_in (codes "D") hart.isa then codes "64" else codes "32"

-- `self.isa` after `build`
unfoldable pub isa_of : Hart → Text
isa_of hart =
    codes "rv"
    ++ (xlen_of hart.supported_xlen
        ++ (isa_letter b'I' hart.isa
            ++ (isa_letter b'M' hart.isa
                ++ (isa_letter b'A' hart.isa
                    ++ (isa_letter b'F' hart.isa
                        ++ (isa_letter b'D' hart.isa ++ isa_letter b'C' hart.isa))))))

-- the executables that `build` looks for, in their order
unfoldable pub executables : SailPlugin → Hart → List Text
executables plugin hart =
    (codes "riscv" ++ (xlen_of hart.supported_xlen ++ codes "-unknown-elf-objdump"))
    ∷ (codes "riscv" ++ (xlen_of hart.supported_xlen ++ codes "-unknown-elf-gcc"))
    ∷ plugin.sail_exe
    ∷ plugin.make
    ∷ []

unfoldable pub check_executables : (Text → Bool) → List Text → Result PluginError Unit
check_executables which [] = ok tt
check_executables which (exe ∷ exes) =
    if which exe
    then check_executables which exes
    else err
        (system_exit 1 (exe ++ codes ": executable not found. Please check environment setup."))

-- what `build` leaves: xlen, flen, isa, and the end of `compile_cmd`
pub record Target : Type 0 where
  pub xlen : Text
  pub flen : Text
  pub isa : Text
  pub mabi : Text

unfoldable pub build : (Text → Bool) → SailPlugin → Hart → Result PluginError Target
build which plugin hart = do
  found ← check_executables which (executables plugin hart)
  ok record {
    xlen = xlen_of hart.supported_xlen;
    flen = flen_of hart;
    isa = isa_of hart;
    mabi = codes " -mabi=" ++ mabi_of hart.supported_xlen;
  }

-- `testentry`
pub record SailTest : Type 0 where
  pub test_path : Text
  pub work_dir : Text
  pub isa : Text
  pub macros : List Text
  pub coverage_labels : List Text
  pub mac : List Text

-- what `initialise` keeps
pub record Suite : Type 0 where
  pub work_dir : Text
  pub archtest_env : Text

pub data RunError : Type 0 where
  no_directory : Text → RunError

-- the text behind the last slash
pub behind_slash : Text → Option Text
behind_slash [] = none
behind_slash (c ∷ s) = elim (behind_slash s) [
  | none ↦ if c == b'/' then some s else none
  | some t ↦ some t
]

pub without_suffix : Text → Option Text → Result RunError Text
without_suffix test none = err (no_directory test)
without_suffix test (some file) = ok (but_last (but_last file))

-- `test.rsplit("/", 1)[1][:-2]`
unfoldable pub test_name_of : Text → Result RunError Text
unfolding behind_slash without_suffix
test_name_of test = without_suffix test (behind_slash test)

-- `initialise` and `build` put `compile_cmd` together, `runTests` fills it in
unfoldable pub compile_parts : SailPlugin → Suite → Target → SailTest → List Text
compile_parts plugin suite target test =
    codes "riscv"
    ∷ target.xlen
    ∷ codes "-unknown-elf-gcc -march="
    ∷ lower test.isa
    ∷ codes "        -static -mcmodel=medany -fvisibility=hidden -nostdlib -nostartfiles       -T "
    ∷ plugin.plugin_path
    ∷ codes "/env/link.ld       -I "
    ∷ plugin.plugin_path
    ∷ codes "/env/       -I "
    ∷ suite.archtest_env
    ∷ target.mabi
    ∷ codes " "
    ∷ test.test_path
    ∷ codes " -o ref.elf"
    ∷ compile_macros test.macros
    ∷ []

unfoldable pub compile : SailPlugin → Suite → Target → SailTest → Text
compile plugin suite target test = join [] (compile_parts plugin suite target test)

-- `objdump_cmd` without its semicolon
unfoldable pub objdump : Target → Text
objdump target =
    codes "riscv" ++ (target.xlen ++ codes "-unknown-elf-objdump -D ref.elf > ref.dump")

unfoldable pub simulate_parts : SailPlugin → SailTest → Text → List Text
simulate_parts plugin test test_name =
    plugin.sail_exe
    ∷ codes " --config="
    ∷ join_path plugin.plugin_path (codes "env/sail_config.json")
    ∷ codes " -v --trace=step --signature-granularity=4  --test-signature="
    ∷ join_path test.work_dir (but_last plugin.name ++ codes ".signature")
    ∷ codes " ref.elf > "
    ∷ join_path test.work_dir (test_name ++ codes ".log")
    ∷ codes " 2>&1"
    ∷ []

unfoldable pub simulate : SailPlugin → SailTest → Text → Text
simulate plugin test test_name = join [] (simulate_parts plugin test test_name)

-- each name behind the option
pub options : Text → List Text → Text
options option [] = []
options option (name ∷ names) = option ++ (name ++ options option names)

pub header_flag : Option Text → Text
header_flag none = codes " "
header_flag (some header_file) = codes " -h " ++ (header_file ++ codes " ")

pub cgf_mac : Option Text → List Text → Text
unfolding options
cgf_mac none mac = codes " "
cgf_mac (some header_file) mac = codes "  -cm common " ++ options (codes " -cm ") mac

-- without its semicolon
unfoldable pub cover_parts : Target → SailTest → Text → List Text → Option Text → List Text
unfolding options header_flag cgf_mac
cover_parts target test test_name cgf_file header_file =
    codes "riscv_isac --verbose info coverage -d                         -t "
    ∷ test_name
    ∷ codes
        ".log --parser-name c_sail -o coverage.rpt                          --sig-label begin_signature  end_signature                         -e ref.elf -c "
    ∷ join (codes " -c ") cgf_file
    ∷ codes " -x"
    ∷ target.xlen
    ∷ codes " -f"
    ∷ target.flen
    ∷ codes " "
    ∷ (codes " " ++ options (codes " -l ") test.coverage_labels)
    ∷ codes " "
    ∷ header_flag header_file
    ∷ codes " "
    ∷ cgf_mac header_file test.mac
    ∷ []

unfoldable pub cover : Target → SailTest → Text → List Text → Option Text → Text
cover target test test_name cgf_file header_file =
    join [] (cover_parts target test test_name cgf_file header_file)

-- `coverage_cmd`
unfoldable pub coverage : Target → SailTest → Text → Option (List Text) → Option Text → Text
coverage target test test_name none header_file = []
coverage target test test_name (some cgf_file) header_file =
    cover target test test_name cgf_file header_file ++ codes ";"

-- the text that is split into commands
unfoldable pub execute :
    SailPlugin → Suite → Target → SailTest → Text → Option (List Text) → Option Text → Text
execute plugin suite target test test_name cgf_file header_file =
    compile plugin suite target test
    ++ (codes ";"
        ++ ((b'#' ∷ objdump target)
            ++ (codes ";"
                ++ (simulate plugin test test_name
                    ++ (codes ";" ++ coverage target test test_name cgf_file header_file)))))

-- `"@cd " + work_dir + "; " + re.sub(r" +", " ", cmd.strip())`, where `cmd.strip()` is not empty
unfoldable pub rule_onto : Text → Text → List Text → List Text
rule_onto work_dir [] rest = rest
rule_onto work_dir (c ∷ stripped) rest =
    (codes "@cd " ++ (work_dir ++ (codes "; " ++ squeeze (c ∷ stripped)))) ∷ rest

unfoldable pub rules : Text → List Text → List Text
rules work_dir [] = []
rules work_dir (cmd ∷ cmds) =
    rule_onto work_dir (strip_right (strip_left cmd)) (rules work_dir cmds)

unfoldable pub target_of :
    SailPlugin → Suite → Target → Option (List Text) → Option Text → SailTest → Result RunError Text
target_of plugin suite target cgf_file header_file test = do
  test_name ← test_name_of test.test_path
  ok (
      join (codes "\n\n") (
        rules test.work_dir
          (split b';' (execute plugin suite target test test_name cgf_file header_file))))

-- the targets of the makefile, in the order of the tests
unfoldable pub targets :
    SailPlugin
    → Suite
    → Target
    → Option (List Text)
    → Option Text
    → List (Text × SailTest)
    → Result RunError (List Text)
targets plugin suite target cgf_file header_file [] = ok []
targets plugin suite target cgf_file header_file ((file, test) ∷ tests) = do
  first ← target_of plugin suite target cgf_file header_file test
  rest ← targets plugin suite target cgf_file header_file tests
  ok (first ∷ rest)

-- what `runTests` gives to the make utility: the makefile's path, the command and the targets
pub record Makefile : Type 0 where
  pub makefile_path : Text
  pub make_command : Text
  pub target_commands : List Text

unfoldable pub run_tests :
    SailPlugin
    → Suite
    → Target
    → Option (List Text)
    → Option Text
    → List (Text × SailTest)
    → Result RunError Makefile
run_tests plugin suite target cgf_file header_file tests = do
  all_targets ← targets plugin suite target cgf_file header_file tests
  ok record {
    makefile_path = join_path suite.work_dir (codes "Makefile." ++ but_last plugin.name);
    make_command = plugin.make ++ (codes " -j" ++ plugin.num_jobs);
    target_commands = all_targets;
  }

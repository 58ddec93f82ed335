-- ===== src/Riscof/Session.antt =====
-- riscof/mlogv32/riscof_mlogv32.py: `__init__`, and `runTests` from the targets of the makefile to the runs
-- of the tests on one connection. `abspath`, the output of `nm` and the bytes of the dumped files are
-- arguments; the make utility is not modelled.
pub mod Passes
pub mod Fails
use mlogv.Prelude.{
  ℕ, zero, suc, ◌-◌, Bool, true, false, not, Option, none, some, List, [], ◌∷◌, ◌++◌, map, length,
  Text, text_eq, codes, Result, ok, err, ◌>>=◌, if◌then◌else◌,
}
use mlogv.Config.{split}
use mlogv.Access.{Request, Response, Socket}
use mlogv.Riscof.{
  TestEntry, Plugin, TestError, PluginError, system_exit, setting, required, but_last, behind,
  join_path, get_compile_command,
}
use mlogv.Riscof.Run.{TestRun, run_test}

-- the attributes that `__init__` sets
pub record Settings : Type 0 where
  pub num_jobs : Text
  pub plugin_path : Text
  pub isa_spec : Text
  pub platform_spec : Text
  pub host_repo_path : Text
  pub riscof_repo_path : Text
  pub reloc_tests : List Text
  pub make : Text
  pub target_run : Bool

-- only the text 0 switches the runs off
unfoldable pub init : (Text → Text) → Option (List (Text × Text)) → Result PluginError Settings
init abspath none = err (system_exit 1 (codes "Please enter input file paths in configuration."))
init abspath (some config) = do
  plugin_path ← required config (codes "pluginpath")
  isa_spec ← required config (codes "ispec")
  platform_spec ← required config (codes "pspec")
  host_repo_path ← required config (codes "host_repo_path")
  riscof_repo_path ← required config (codes "riscof_repo_path")
  reloc_tests ← required config (codes "reloc_tests")
  ok record {
    num_jobs = setting config (codes "jobs") (codes "1");
    plugin_path = abspath plugin_path;
    isa_spec = abspath isa_spec;
    platform_spec = abspath platform_spec;
    host_repo_path = host_repo_path;
    riscof_repo_path = riscof_repo_path;
    reloc_tests = split b',' reloc_tests;
    make = setting config (codes "make") (codes "make");
    target_run = not (text_eq (setting config (codes "target_run") (codes "1")) (codes "0"));
  }

-- `text.replace(old, new)`; the number says how many characters of a match are still to be skipped
replace_from : Text → Text → ℕ → Text → Text
replace_from old new skip [] = []
replace_from old new (suc skip) (c ∷ s) = replace_from old new skip s
replace_from old new zero (c ∷ s) = elim (behind old (c ∷ s)) [
  | none ↦ c ∷ replace_from old new zero s
  | some rest ↦ new ++ replace_from old new (length old - 1) s
]

-- an empty text stands before each character and at the end
between_all : Text → Text → Text
between_all new [] = new
between_all new (c ∷ s) = new ++ (c ∷ between_all new s)

unfoldable pub replace : Text → Text → Text → Text
unfolding replace_from between_all
replace [] new s = between_all new s
replace (c ∷ old) new s = replace_from (c ∷ old) new 0 s

-- the path of a test's file on the host
unfoldable pub host_path : Settings → TestEntry → Text → Text
host_path settings test file =
    replace settings.riscof_repo_path settings.host_repo_path (join_path test.work_dir file)

-- an entry of the test list, with what `nm` prints for it and what its dump writes
pub record Job : Type 0 where
  pub testname : Text
  pub test : TestEntry
  pub nm_lines : List Text
  pub out_bytes : List ℕ

-- what the runs leave: the outcome, the connection, and the signature files
pub record SessionRun : Type 0 where
  pub outcome : Result TestError Unit
  pub socket : Socket
  pub files : List (Text × List Text)

pub written_file : Text → Option (List Text) → List (Text × List Text)
written_file path none = []
written_file path (some lines) = (path, lines) ∷ []

-- an exception of `run_test` ends the loop
behind_test : Result TestError Unit → TestRun → Text → (Socket → SessionRun) → SessionRun
unfolding written_file
behind_test (err e) run sig_file rest = record {
  outcome = err e;
  socket = run.socket;
  files = written_file sig_file run.signature;
}
behind_test (ok done) run sig_file rest =
    let later = rest run.socket in
    record {
      outcome = later.outcome;
      socket = later.socket;
      files = written_file sig_file run.signature ++ later.files;
    }

unfoldable pub sig_file_of : Text → TestEntry → Text
sig_file_of name test = join_path test.work_dir (but_last name ++ codes ".signature")

module _ (model_dump_json : Request → Text) (validate_json : Text → Option Response)
    (is_absolute : Text → Bool) (settings : Settings) (name : Text) where
  pub run_job : Job → Socket → TestRun
  run_job job s =
      run_test model_dump_json validate_json is_absolute
        (host_path settings job.test (codes "dut.bin"))
        (host_path settings job.test (codes "out.bin")) job.nm_lines job.out_bytes s

  -- the loop over the test list
  unfoldable pub run_jobs : List Job → Socket → SessionRun
  unfolding run_job behind_test
  run_jobs [] s = record { outcome = ok tt; socket = s; files = [] }
  run_jobs (job ∷ jobs) s =
      let run = run_job job s in
      behind_test run.outcome run (sig_file_of name job.test) (λ t. run_jobs jobs t)

-- `exited` is SystemExit
pub data SessionError : Type 0 where
  exited : ℕ → SessionError
  test_failed : TestError → SessionError

-- what `runTests` gives to the make utility, and how it ends
pub record Session : Type 0 where
  pub makefile_path : Text
  pub make_command : Text
  pub make_targets : List Text
  pub ended : Result SessionError Unit
  pub socket : Socket
  pub files : List (Text × List Text)

ended_by : Result TestError Unit → Result SessionError Unit
ended_by (err e) = err (test_failed e)
ended_by (ok done) = ok done

module _ (model_dump_json : Request → Text) (validate_json : Text → Option Response)
    (is_absolute : Text → Bool) where
  -- the runs, or the exit where `target_run` is off
  pub runs_for :
      Bool
      → Settings
      → Text
      → List Job
      → Socket
      → Result SessionError Unit × Socket × List (Text × List Text)
  unfolding ended_by
  runs_for false settings name jobs s = (err (exited 0), s, [])
  runs_for true settings name jobs s =
      let run = run_jobs model_dump_json validate_json is_absolute settings name jobs s in
      (ended_by run.outcome, run.socket, run.files)

  -- `env` is the directory that `initialise` gets, `supported` the field of the ISA's specification
  unfoldable pub run_tests : Settings → Text → Text → Text → List ℕ → List Job → Socket → Session
  unfolding runs_for
  run_tests settings name work_dir env supported jobs s =
      let runs = runs_for settings.target_run settings name jobs s in
      let plugin : Plugin = record {
        name = name;
        plugin_path = settings.plugin_path;
        env = env;
        host_repo_path = settings.host_repo_path;
        riscof_repo_path = settings.riscof_repo_path;
        reloc_tests = settings.reloc_tests;
      } in
      record {
        makefile_path = join_path work_dir (codes "Makefile." ++ but_last name);
        make_command = settings.make ++ (codes " -j" ++ settings.num_jobs);
        make_targets = map (λ job. get_compile_command plugin supported job.test job.testname) jobs;
        ended = runs.0;
        socket = runs.1;
        files = runs.2;
      }

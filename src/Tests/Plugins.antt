-- ===== src/Tests/Plugins.antt =====
-- The theorem on the targets of the reference simulator.
use mlogv.Prelude.{◌≡◌, refl, none, some, [], ◌∷◌, codes, join, map, ok}
use mlogv.Sail.{SailPlugin, Suite, Target, SailTest, target_of}
use mlogv.Sail.Texts.{lacks, in_directory}
use mlogv.Sail.Targets.{commands, target_of-commands}

abbrev plugin : SailPlugin
plugin = record {
  name = codes "sail_cSim:";
  num_jobs = codes "2";
  plugin_path = codes "/p";
  sail_exe = codes "sail_riscv_sim";
  isa_spec = [];
  platform_spec = [];
  make = codes "make";
}

abbrev suite : Suite
suite = record { work_dir = codes "/w"; archtest_env = codes "/e" }

abbrev target : Target
target = record {
  xlen = codes "32";
  flen = codes "32";
  isa = codes "rv32i";
  mabi = codes " -mabi=ilp32 ";
}

abbrev test : SailTest
test = record {
  test_path = codes "/s/add-01.S";
  work_dir = codes "/w/add";
  isa = codes "RV32I";
  macros = codes "XLEN=32" ∷ [];
  coverage_labels = codes "add" ∷ [];
  mac = [];
}

target_of-commands_example :
    target_of plugin suite target (some (codes "rv32i.cgf" ∷ [])) none test
    ≡ ok (
        join (codes "\n\n") (
          map (in_directory (codes "/w/add")) (
            commands plugin suite target test
              (codes "add-01")
              (some (codes "rv32i.cgf" ∷ []))
              none)))
unfolding lacks
target_of-commands_example =
    target_of-commands plugin suite target test (some (codes "rv32i.cgf" ∷ [])) none (codes "/s")
      (codes "add-01") b'.' b'S'
      (
        refl,
        refl,
        refl,
        refl,
        refl,
        refl,
        refl,
        refl,
        refl,
        refl,
        (refl, tt),
        (refl, tt),
        tt,
        (refl, tt),
        tt,
      )
      refl refl

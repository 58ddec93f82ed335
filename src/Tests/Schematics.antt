-- ===== src/Tests/Schematics.antt =====
-- The theorems on the blocks of the schematic, on the page table and on the worker's code.
use mlogv.Prelude.{
  ◌+◌, ◌/◌, ◌%◌, text_eq, if◌then◌else◌, ◌≡◌, refl, true, false, none, some, [], ◌∷◌, Text, codes,
  Result, ok, All, arith, get_elem?, pos, negsuc,
}
use mlogv.Pages.{variable_0_to_page_offset}
use mlogv.Pages.Table.{variable_0_to_page_offset-page, ram_var-digits}
use mlogv.RamProc.Variables.{digit_char}
use mlogv.Mlog.Replace.{lookup}
use mlogv.Config.{ConfigArgs}
use mlogv.Layout.{peripherals}
use mlogv.Layout.Cpu.{dimensions, cpu}
use mlogv.Layout.Covers.{LeadTo}
use mlogv.Layout.Reach.{placed, build-LeadTo}
use mlogv.Layout.Overlap.{IsClear, cpu-IsClear}
use mlogv.Layout.Build.{BuildArguments, Codes, Built, assemble, build, config_args_for}
use mlogv.Layout.Build.Points.{Named, MemoryNamed, build-Named}
use mlogv.Mlog.{
  Token, word, label_ref, AstNode, statement, directive, Ast, MlogError, count_statements,
}
use mlogv.Mlog.Worker.{WorkerBuild, prepare_worker}
use mlogv.Mlog.Worker.Addresses.{HasLabel, prepare_worker-addresses}

abbrev plain : Text → Token
plain s = record { text = s; kind = word; start_pos = none; end_pos = none }

cpu-IsClear_example : All (IsClear (peripherals [] [] true)) (cpu [] [] (pos 4) (pos 4))
unfolding dimensions
cpu-IsClear_example =
    cpu-IsClear [] [] [] [] true (pos 20) (pos 20) (some (pos 4)) (pos 4) (pos 4) refl

abbrev no_codes : Codes
no_codes = record {
  config_code = [];
  display_code = [];
  controller_code = [];
  worker_code = [];
  debugger_code = [];
}

abbrev with_memory : BuildArguments
with_memory = record {
  config_name = some (codes "small");
  width = pos 2;
  height = pos 2;
  size = none;
  bin = 1 ∷ 2 ∷ 3 ∷ 4 ∷ [];
  include_all = true;
  include_cpu = false;
  include_peripherals = false;
  include_memory = false;
  include_debugger = false;
  include_keyboard = false;
}

abbrev small_memory : ConfigArgs
small_memory = record {
  uart_fifo_capacity = 254;
  mtime_frequency = 1000;
  memory_x_offset = negsuc 8;
  memory_y_offset = pos 4;
  memory_width = pos 2;
  program_rom_rows = pos 1;
  data_rom_rows = pos 0;
  ram_rows = pos 1;
  icache_rows = pos 0;
}

abbrev small_built : Built
small_built = assemble no_codes with_memory (pos 2, pos 2) (some small_memory)

build-Named_example :
    Named small_built.metadata small_built.blocks
    × MemoryNamed small_built.metadata.memory small_built.cells
unfolding build dimensions config_args_for
build-Named_example =
    build-Named (λ name. some small_memory) no_codes with_memory small_built refl refl

build-LeadTo_example : All (LeadTo (placed small_built)) (placed small_built)
unfolding build dimensions config_args_for
build-LeadTo_example =
    build-LeadTo (λ name. some small_memory) no_codes with_memory small_built refl refl refl refl

variable_0_to_page_offset-page_example :
    (pages : Text) × (variable_0_to_page_offset ≡ ok pages)
    × (get_elem? pages (digit_char (1024 / 64)) ≡ some (b'0' + 1024 / 1024))
variable_0_to_page_offset-page_example =
    variable_0_to_page_offset-page 1024 (digit_char (1024 / 64)) (digit_char (1024 % 64))
      (omega arith) (ram_var-digits 1024 (omega arith))

abbrev jump_to : Token → Ast
jump_to target =
    AstNode.label (plain (codes "a")) ∷ statement (plain (codes "jump")) (target ∷ []) ∷ []

abbrev reference_to : Token
reference_to = record {
  text = codes "%a%";
  kind = label_ref;
  start_pos = some 8;
  end_pos = some 11;
}

-- a parser that knows the text before and the text behind the replacement
abbrev parse_jump : Text → Result MlogError Ast
parse_jump s =
    if text_eq s (codes "a: jump 0")
    then ok (jump_to (plain (codes "0")))
    else ok (jump_to reference_to)

abbrev linked : WorkerBuild
linked = record {
  worker_code = codes "a: jump 0";
  worker_labels = (codes "a", 0) ∷ [];
  warnings = [];
  saved = 0;
  instructions = 1;
}

prepare_worker-addresses_example :
    (ast : Ast) × (parse_jump (codes "a: jump 0") ≡ ok ast)
    × (count_statements ast ≡ 1)
    × HasLabel ast (codes "a") 0
unfolding prepare_worker lookup text_eq mlogv.Mlog.Unsaved.check_unsaved_variables
    mlogv.Mlog.Unsaved.check_nodes mlogv.Mlog.Unsaved.node_step mlogv.Mlog.Labels.iter_labels
    mlogv.Mlog.Labels.labels_from mlogv.Mlog.Labels.at_end
    mlogv.Mlog.Replace.replace_symbolic_labels mlogv.Mlog.Replace.iter_label_refs
    mlogv.Mlog.Replace.replace_from mlogv.Mlog.Replace.dict_of mlogv.Mlog.inner
    mlogv.Mlog.Replace.slice mlogv.PyInt.decimal count_statements mlogv.Mlog.Replace.dict_eq
    mlogv.Mlog.Unsaved.statement_step mlogv.Mlog.Unsaved.written_by mlogv.Mlog.Unsaved.target_of
    mlogv.Mlog.Unsaved.written mlogv.Mlog.Unsaved.is_check mlogv.Mlog.Unsaved.writes_first
    mlogv.Mlog.is_named
prepare_worker-addresses_example =
    prepare_worker-addresses parse_jump (codes "a: jump %a%") linked (codes "a") 0 refl refl

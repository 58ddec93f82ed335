-- ===== src/Layout/Build.antt =====
-- python/src/mlogv32/preprocessor/app.py: `build` from the arguments to the blocks and the metadata, and
-- the metadata of preprocessor/models.py. The rendered codes, the entries of the configuration file and
-- the offsets of the schematic, which pymsch computes, are arguments; the JSON is not modelled.
pub mod Points
use mlogv.Prelude.{
  ℕ, ◌+◌, ◌*◌, Bool, true, false, not, ◌&&◌, ◌||◌, Option, none, some, List, [], ◌∷◌, ◌++◌, map,
  Text, Result, ok, err, ◌>>=◌, if◌then◌else◌, ℤ, pos, negsuc, sub_ℕ, suc, ◌+ℤ◌,
}
use mlogv.Config.{ConfigArgs, parse_config_str}
use mlogv.Memory.{Cell, memory, rom_height, memory_height, config_x, config_y}
use mlogv.Layout.{
  Link, Block, peripherals, uart_links, registers_link, csrs_link, config_link, error_output_link,
  power_switch_link, pause_switch_link, single_step_switch_link, controller_link,
}
use mlogv.Layout.Cpu.{BuildError, config_required, invalid_config, dimensions, cpu, debugger}

abbrev pub Point : Type 0
Point = ℤ × ℤ

pub record Metadata : Type 0 where
  pub uarts : List Point
  pub registers : Option Point
  pub csrs : Option Point
  pub config : Option Point
  pub error_output : Option Point
  pub power_switch : Option Point
  pub pause_switch : Option Point
  pub single_step_switch : Option Point
  pub cpu : Option Point
  pub cpu_width : Option ℤ
  pub cpu_height : Option ℤ
  pub memory : Option Point
  pub memory_width : Option ℤ
  pub memory_height : Option ℤ
  pub rom_processors : Option ℤ
  pub ram_processors : Option ℤ
  pub icache_processors : Option ℤ
  pub uart_fifo_capacity : Option ℕ
  pub mtime_frequency : Option ℕ

-- the arguments of `build`, with the codes that the templates give
pub record BuildArguments : Type 0 where
  pub config_name : Option Text
  pub width : ℤ
  pub height : ℤ
  pub size : Option ℤ
  pub bin : List ℕ
  pub include_all : Bool
  pub include_cpu : Bool
  pub include_peripherals : Bool
  pub include_memory : Bool
  pub include_debugger : Bool
  pub include_keyboard : Bool

pub record Codes : Type 0 where
  pub config_code : Text
  pub display_code : Text
  pub controller_code : Text
  pub worker_code : Text
  pub debugger_code : Text

-- the schematic in the order of the parts: peripherals and CPU, memory, debugger
pub record Built : Type 0 where
  pub blocks : List Block
  pub cells : List Cell
  pub debugger_blocks : List Block
  pub metadata : Metadata

-- `known` is the lookup in the configuration file, with the defaults; an empty name counts as none
unfoldable pub config_args_for :
    (Text → Option ConfigArgs) → Option Text → Bool → Result BuildError (Option ConfigArgs)
config_args_for known none include_memory = if include_memory then err config_required else ok none
config_args_for known (some []) include_memory =
    if include_memory then err config_required else ok none
config_args_for known (some (c ∷ name)) include_memory = elim (known (c ∷ name)) [
  | some args ↦ ok (some args)
  | none ↦ elim (parse_config_str (c ∷ name)) [
    | none ↦ err (invalid_config (c ∷ name))
    | some args ↦ ok (some args)
  ]
]

point_of : Link → Point
point_of link = (link.x, link.y)

-- `*` of two integers
unfoldable pub product : ℤ → ℤ → ℤ
product (pos a) (pos b) = pos (a * b)
product (pos a) (negsuc b) = sub_ℕ 0 (a * suc b)
product (negsuc a) (pos b) = sub_ℕ 0 (suc a * b)
product (negsuc a) (negsuc b) = pos (suc a * suc b)

memory_point : ConfigArgs → Point
memory_point args = (pos config_x +ℤ args.memory_x_offset, pos config_y +ℤ args.memory_y_offset)

-- the parts of the memory, which is there only with a configuration
cells_for : Bool → Option ConfigArgs → List ℕ → List Cell
cells_for false args bin = []
cells_for true none bin = []
cells_for true (some args) bin = (memory args bin).0

given : {A B : Type 0} → Bool → Option A → (A → B) → Option B
given false a f = none
given true none f = none
given true (some a) f = some (f a)

-- the metadata; the points of the peripherals are set whether or not they are placed
unfoldable pub metadata_for : (with_cpu with_memory : Bool) → ℤ → ℤ → Option ConfigArgs → Metadata
unfolding point_of memory_point given
metadata_for with_cpu with_memory width height args = record {
  uarts = map point_of uart_links;
  registers = some (point_of registers_link);
  csrs = some (point_of csrs_link);
  config = some (point_of config_link);
  error_output = some (point_of error_output_link);
  power_switch = some (point_of power_switch_link);
  pause_switch = some (point_of pause_switch_link);
  single_step_switch = some (point_of single_step_switch_link);
  cpu = if with_cpu then some (point_of controller_link) else none;
  cpu_width = if with_cpu then some width else none;
  cpu_height = if with_cpu then some height else none;
  memory = given with_memory args memory_point;
  memory_width = given with_memory args (λ a. a.memory_width);
  memory_height = given with_memory args (λ a. memory_height a);
  rom_processors = given with_memory args (λ a. product a.memory_width (rom_height a));
  ram_processors = given with_memory args (λ a. product a.memory_width a.ram_rows);
  icache_processors = given with_memory args (λ a. product a.memory_width a.icache_rows);
  uart_fifo_capacity = given true args (λ a. a.uart_fifo_capacity);
  mtime_frequency = given true args (λ a. a.mtime_frequency);
}

unfoldable pub assemble : Codes → BuildArguments → ℤ × ℤ → Option ConfigArgs → Built
unfolding cells_for
assemble code a size args = record {
  blocks =
      (if a.include_all || a.include_peripherals
        then peripherals code.config_code code.display_code a.include_keyboard
        else [])
      ++ (if a.include_all || a.include_cpu
          then cpu code.controller_code code.worker_code size.0 size.1
          else []);
  cells = cells_for (a.include_all || a.include_memory) args a.bin;
  debugger_blocks = if a.include_all || a.include_debugger then debugger code.debugger_code else [];
  metadata =
      metadata_for (a.include_all || a.include_cpu) (a.include_all || a.include_memory) size.0
        size.1 args;
}

unfoldable pub build : (Text → Option ConfigArgs) → Codes → BuildArguments → Result BuildError Built
build known code a = do
  size ← dimensions a.width a.height a.size a.include_keyboard
  args ← config_args_for known a.config_name (a.include_all || a.include_memory)
  ok (assemble code a size args)

-- `_serialize_point` with the offsets of the schematic
unfoldable pub serialize_point : Point → Point → Point
serialize_point offset point = (point.0 +ℤ offset.0, point.1 +ℤ offset.1)

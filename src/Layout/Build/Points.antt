-- ===== src/Layout/Build/Points.antt =====
-- python/src/mlogv32/preprocessor/app.py: the positions in the metadata against the blocks.
use mlogv.Prelude.{
  ℕ, ◌≡◌, refl, sym, subst, Bool, true, false, ◌&&◌, ◌||◌, Option, none, some, List, [], ◌∷◌, ◌++◌,
  Text, Result, ok, bind-eq-ok, arith, ◌==◌, if◌then◌else◌, ℤ, pos, ◌+ℤ◌, eqb_ℤ,
}
use mlogv.Config.{ConfigArgs}
use mlogv.Memory.{Cell, lenrange}
use mlogv.Memory.Corner.{FirstAt, memory-FirstAt}
use mlogv.Layout.{
  Part, tile_logic_display, world_cell, memory_bank, memory_cell, micro_processor, world_processor,
  message, switch, lookups_schem, ram_schem, sortkb_schem, Block, over, column, peripherals,
  devices, uart_links, links_over, links_over_all, simple_block,
}
use mlogv.Layout.Cpu.{BuildError, dimensions, cpu}
use mlogv.Layout.Build.{
  Point, Metadata, BuildArguments, Codes, Built, config_args_for, metadata_for, build, assemble,
  given, memory_point, cells_for,
}

part_number : Part → ℕ
part_number tile_logic_display = 0
part_number world_cell = 1
part_number memory_bank = 2
part_number memory_cell = 3
part_number micro_processor = 4
part_number world_processor = 5
part_number message = 6
part_number switch = 7
part_number lookups_schem = 8
part_number ram_schem = 9
part_number sortkb_schem = 10

-- Some block of the kind stands at the point.
pub stands : Part → Point → List Block → Bool
unfolding part_number
stands part p [] = false
stands part p (b ∷ blocks) =
    (part_number b.part == part_number part && (eqb_ℤ b.x p.0 && eqb_ℤ b.y p.1))
    || stands part p blocks

-- at the point, where there is one
abbrev pub on : Part → Option Point → List Block → Bool
on part none blocks = true
on part (some p) blocks = stands part p blocks

abbrev pub all_on : Part → List Point → List Block → Bool
all_on part [] blocks = true
all_on part (p ∷ points) blocks = stands part p blocks && all_on part points blocks

stands-append :
    (part : Part) (p : Point) (a b : List Block)
    → stands part p (a ++ b) ≡ stands part p a || stands part p b
unfolding stands
stands-append part p [] b = refl
stands-append part p (x ∷ a) b = ground (arith, stands-append part p a b)

-- the blocks at which the metadata points
abbrev pub Named : Metadata → List Block → Type 0
Named m blocks =
    (all_on memory_bank m.uarts blocks ≡ true)
    × (on memory_cell m.registers blocks ≡ true)
    × (on ram_schem m.csrs blocks ≡ true)
    × (on micro_processor m.config blocks ≡ true)
    × (on message m.error_output blocks ≡ true)
    × (on switch m.power_switch blocks ≡ true)
    × (on switch m.pause_switch blocks ≡ true)
    × (on switch m.single_step_switch blocks ≡ true)
    × (on world_processor m.cpu blocks ≡ true)

-- where there is a memory, its position is that of its first processor
abbrev pub MemoryNamed : Option Point → List Cell → Type 0
MemoryNamed none cells = cells ≡ []
MemoryNamed (some p) cells = FirstAt p cells

controller-stands :
    (controller_code worker_code : Text) (keyboard : Bool) (width height : ℤ)
    → stands world_processor
        (pos 16, pos 0)
        ((if keyboard then simple_block sortkb_schem 14 16 ∷ [] else [])
          ++ cpu controller_code worker_code width height)
      ≡ true
unfolding stands cpu
controller-stands controller_code worker_code true width height = refl
controller-stands controller_code worker_code false width height = refl

peripherals-Named :
    (config_code display_code controller_code worker_code : Text)
    (keyboard with_cpu with_memory : Bool) (width height : ℤ) (args : Option ConfigArgs)
    → Named (metadata_for with_cpu with_memory width height args) (
        peripherals config_code display_code keyboard
        ++ (if with_cpu then cpu controller_code worker_code width height else []))
unfolding peripherals devices metadata_for uart_links links_over links_over_all stands over column
    lenrange ◌+ℤ◌
peripherals-Named config_code display_code controller_code worker_code keyboard true with_memory
      width height args =
    (
      refl,
      refl,
      refl,
      refl,
      refl,
      refl,
      refl,
      refl,
      controller-stands controller_code worker_code keyboard width height,
    )
peripherals-Named config_code display_code controller_code worker_code keyboard false with_memory
      width height args =
    (refl, refl, refl, refl, refl, refl, refl, refl, refl)

assemble-Named :
    (code : Codes) (a : BuildArguments) (size : ℤ × ℤ) (args : Option ConfigArgs)
    → a.include_all || a.include_peripherals ≡ true
    → Named (assemble code a size args).metadata (assemble code a size args).blocks
unfolding assemble
assemble-Named code a size args p =
    let with_cpu = a.include_all || a.include_cpu in
    let with_memory = a.include_all || a.include_memory in
    subst
      (λ placed. Named (metadata_for with_cpu with_memory size.0 size.1 args) (
        (if placed then peripherals code.config_code code.display_code a.include_keyboard else [])
        ++ (if with_cpu then cpu code.controller_code code.worker_code size.0 size.1 else [])))
      (sym p)
      (peripherals-Named code.config_code code.display_code code.controller_code code.worker_code
        a.include_keyboard with_cpu with_memory size.0 size.1 args)

memory_point-MemoryNamed :
    (with_memory : Bool) (args : Option ConfigArgs) (bin : List ℕ)
    → MemoryNamed (given with_memory args memory_point) (cells_for with_memory args bin)
unfolding given memory_point cells_for
memory_point-MemoryNamed false args bin = refl
memory_point-MemoryNamed true none bin = refl
memory_point-MemoryNamed true (some args) bin = memory-FirstAt args bin

assemble-MemoryNamed :
    (code : Codes) (a : BuildArguments) (size : ℤ × ℤ) (args : Option ConfigArgs)
    → MemoryNamed (assemble code a size args).metadata.memory (assemble code a size args).cells
unfolding assemble metadata_for
assemble-MemoryNamed code a size args =
    memory_point-MemoryNamed (a.include_all || a.include_memory) args a.bin

ok-injective : {r b : Built} → ◌≡◌ {A = Result BuildError Built} (ok r) (ok b) → r ≡ b
ok-injective h = cc

-- If `build` succeeds and the peripherals are included, then the positions of the peripherals and of the
-- CPU in the metadata are those of blocks of the right kind: memory banks for the UARTs, a memory cell for
-- the registers, a RAM schematic for the CSRs, processors for the configuration and the CPU, a message and
-- switches for the rest; and the position of the memory is that of its first processor if it has any,
-- while without such a position there is no memory.
pub build-Named :
    (known : Text → Option ConfigArgs) (code : Codes) (a : BuildArguments) (b : Built)
    → build known code a ≡ ok b
    → a.include_all || a.include_peripherals ≡ true
    → Named b.metadata b.blocks × MemoryNamed b.metadata.memory b.cells
unfolding build
build-Named known code a b h p =
    let (size, sized, h1) =
      bind-eq-ok (dimensions a.width a.height a.size a.include_keyboard) _ h in
    let (args, found, h2) =
      bind-eq-ok (config_args_for known a.config_name (a.include_all || a.include_memory)) _ h1 in
    subst (λ r. Named r.metadata r.blocks × MemoryNamed r.metadata.memory r.cells) (ok-injective h2)
      (assemble-Named code a size args p, assemble-MemoryNamed code a size args)

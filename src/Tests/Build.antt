-- ===== src/Tests/Build.antt =====
-- The theorems on the build's configuration, the memory and the generated RAM code.
use mlogv.Prelude.{
  get_elem?, ◌+ℤ◌, ℕ, ◌+◌, ◌-◌, ◌*◌, ◌/◌, ◌%◌, ◌≡◌, refl, ◌↔◌, ◌⊎◌, Option, none, some, List, [],
  ◌∷◌, ◌++◌, map, Text, codes, ltb, join, ok, err, if◌then◌else◌, length, take, ℤ, pos, negsuc,
  arith,
}
use mlogv.PyInt.{decimal}
use mlogv.RamProc.{VariableFormat, mlogv32, generate_code, iter_variables}
use mlogv.RamProc.Variables.{digit_char, name_index, get_variable-digits, name_index-get_variable}
use mlogv.RamProc.Chunks.{chunks}
use mlogv.RamProc.Build.{Processor, build}
use mlogv.RamProc.Build.Tables.{shifted, build-tables}
use mlogv.Layout.{lookup_links}
use mlogv.RamProc.Rounds.{lookup_codes, draw_padded}
use mlogv.RamProc.Generate.{generate_code-chunks}
use mlogv.BuildConfig.{Instruction, address_before, resolve_instructions, place, count_at, ceil_div}
use mlogv.BuildConfig.{Csr, lookup, resolve_csrs}
use mlogv.BuildConfig.Csrs.{IsResolved, resolve_csrs-IsResolved}
use mlogv.BuildConfig.Layout.{Laid, end_of, resolve_instructions-Laid, resolve_instructions-overlap}
use mlogv.Config.{ConfigArgs, parse_config_str}
use mlogv.Config.Positional.{from_numbers, parse_config_str-positional}
use mlogv.Memory.{pad, memory, overflowed, rom_bytes}
use mlogv.Memory.{config_x, config_y}
use mlogv.Memory.Grid.{Stands, memory-Stands}
use mlogv.Memory.Below.{memory-below}
use mlogv.Memory.Image.{memory-image, pad-aligned}
use mlogv.Memory.Writes.{image}

name_index-get_variable_example : name_index (digit_char 1 ∷ digit_char 2 ∷ []) ≡ 66
name_index-get_variable_example =
    name_index-get_variable 66 (digit_char 1 ∷ digit_char 2 ∷ []) (get_variable-digits 66)

abbrev two_names : List Text
two_names = codes "v0" ∷ codes "v1" ∷ []

generate_code-chunks_example :
    generate_code 2 2 VariableFormat.dec
    ≡ ok (
      lookup_codes 0 (chunks 260 two_names),
      join (b'\n' ∷ []) (codes "stop" ∷ map draw_padded (chunks 6 two_names)),
    )
unfolding iter_variables decimal
generate_code-chunks_example =
    generate_code-chunks 2 VariableFormat.dec (codes "v0") (codes "v1" ∷ []) (omega arith)
      (refl, (refl, tt))

abbrev sized : Text → ℕ → Option ℤ → Instruction
sized label count address = record {
  label = label;
  count = count;
  up_to = none;
  align = 4;
  address = address;
}

abbrev given : List Instruction
given = sized (codes "load") 2 none ∷ sized (codes "store") 1 (some (pos 16)) ∷ []

abbrev resolved : List Instruction
resolved = sized (codes "load") 2 (some (pos 0)) ∷ sized (codes "store") 1 (some (pos 16)) ∷ []

resolve_instructions-Laid_example : Laid 0 given resolved
unfolding resolve_instructions place count_at ceil_div
resolve_instructions-Laid_example =
    resolve_instructions-Laid given resolved
      ((omega arith, omega arith), ((omega arith, omega arith), tt)) refl

resolve_instructions-overlap_example :
    resolve_instructions (given ++ sized (codes "jump") 1 (some (pos 18)) ∷ [])
    ≡ err (address_before (length given) (pos 18) (end_of 0 resolved))
unfolding resolve_instructions place count_at ceil_div
resolve_instructions-overlap_example =
    resolve_instructions-overlap given (sized (codes "jump") 1 (some (pos 18))) [] resolved (pos 18)
      refl refl refl

parse_config_str-positional_example :
    parse_config_str (join (codes ",") (map decimal (4 ∷ 4 ∷ []))) ≡ from_numbers (4 ∷ 4 ∷ [])
parse_config_str-positional_example = parse_config_str-positional 4 (4 ∷ [])

abbrev small : ConfigArgs
small = record {
  uart_fifo_capacity = 253;
  mtime_frequency = 1000000;
  memory_x_offset = negsuc 8;
  memory_y_offset = negsuc 18;
  memory_width = pos 2;
  program_rom_rows = pos 1;
  data_rom_rows = pos 0;
  ram_rows = pos 1;
  icache_rows = pos 1;
}

memory-image_example :
    (image (memory small (1 ∷ 2 ∷ 3 ∷ [])).0
      ≡ take ((1 + 0) * (2 * rom_bytes)) (pad (1 ∷ 2 ∷ 3 ∷ [])))
    × (overflowed small (1 ∷ 2 ∷ 3 ∷ [])
        ≡ length (pad (1 ∷ 2 ∷ 3 ∷ [])) - (1 + 0) * (2 * rom_bytes))
memory-image_example = memory-image small (1 ∷ 2 ∷ 3 ∷ []) 2 1 0 1 1 refl refl refl refl refl

pad-aligned_example :
    (length (pad (7 ∷ [])) % 4 ≡ 0)
    ↔ ((length {A = ℕ} (7 ∷ []) % 4 ≡ 0) ⊎ (length {A = ℕ} (7 ∷ []) % 4 ≡ 2))
pad-aligned_example = pad-aligned (7 ∷ [])

build-tables_example :
    (procs : List Processor) × (ram_proc : Processor) × (build 4096 4096 4 mlogv32
      ≡ ok (procs, ram_proc))
    × (map (λ p. shifted (p.x, p.y)) procs ≡ map (λ l. (l.x, l.y)) lookup_links)
build-tables_example = build-tables 4096 (omega arith)

-- a register that can be written, and a pair of counters
abbrev two_csrs : List (Text × Csr)
two_csrs =
    (
      codes "mstatus",
      record { read = codes "LABEL"; write = some (codes "LABEL"); mask = 255; args = none },
    )
    ∷ (
      codes "{}",
      record {
        read = codes "LABEL";
        write = none;
        mask = 255;
        args = some (codes "cycle" ∷ codes "time" ∷ []);
      },
    )
    ∷ []

abbrev resolved_csrs : List (Text × Csr)
resolved_csrs =
    (
      codes "mstatus",
      record { read = codes "mstatus"; write = some (codes "mstatus"); mask = 255; args = none },
    )
    ∷ (codes "cycle", record { read = codes "cycle"; write = none; mask = 255; args = none })
    ∷ (codes "time", record { read = codes "time"; write = none; mask = 255; args = none })
    ∷ []

resolve_csrs-IsResolved_example :
    IsResolved
      (codes "time")
      (record { read = codes "time"; write = none; mask = 255; args = none })
unfolding resolve_csrs mlogv.BuildConfig.resolve_entries mlogv.BuildConfig.resolve_entry
    mlogv.BuildConfig.resolve_pair mlogv.BuildConfig.resolve_csr lookup
    mlogv.BuildConfig.Constants.csrs mlogv.Prelude.text_eq mlogv.BuildConfig.resolve_formatted
    mlogv.BuildConfig.format mlogv.BuildConfig.insert
resolve_csrs-IsResolved_example =
    resolve_csrs-IsResolved two_csrs resolved_csrs (codes "time")
      (record { read = codes "time"; write = none; mask = 255; args = none }) refl refl

memory-Stands_example :
    (length (memory small (1 ∷ 2 ∷ 3 ∷ [])).0 ≡ (1 + 0 + 1 + 1) * 2)
    × Stands
        (get_elem? (memory small (1 ∷ 2 ∷ 3 ∷ [])).0 (1 * 2 + 1))
        (pos config_x +ℤ small.memory_x_offset +ℤ pos 1)
        (pos config_y +ℤ small.memory_y_offset +ℤ pos 1)
        (ltb 1 (1 + 0))
memory-Stands_example =
    memory-Stands small (1 ∷ 2 ∷ 3 ∷ []) 2 1 0 1 1 1 1 refl refl refl refl refl (omega arith)
      (omega arith)

-- a row each for the program, the data in RAM and the instruction cache
abbrev three_rows : ConfigArgs
three_rows = record {
  uart_fifo_capacity = 253;
  mtime_frequency = 1000000;
  memory_x_offset = negsuc 8;
  memory_y_offset = negsuc 18;
  memory_width = pos 4;
  program_rom_rows = pos 1;
  data_rom_rows = pos 0;
  ram_rows = pos 1;
  icache_rows = pos 1;
}

memory-below_example :
    Stands
      (get_elem? (memory three_rows []).0 (2 * 4 + 3))
      (pos config_x +ℤ three_rows.memory_x_offset +ℤ pos 3)
      (negsuc (1 + 0 + 1 + 1 - 2 - 1))
      (ltb 2 (1 + 0))
unfolding parse_config_str mlogv.Config.split mlogv.Config.read_items mlogv.Config.default_keys
    mlogv.PyInt.parse_int_auto mlogv.Config.key_and_value mlogv.Config.split_once
    mlogv.Config.with_defaults lookup mlogv.BuildConfig.insert mlogv.Prelude.text_eq
    mlogv.Prelude.◌-ℤ◌ ◌+ℤ◌
memory-below_example =
    memory-below (codes "1,1,1,4") three_rows [] 4 1 0 1 1 2 3 refl refl refl refl refl refl
      (omega arith) (omega arith)

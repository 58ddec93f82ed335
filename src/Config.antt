-- ===== src/Config.antt =====
-- python/src/mlogv32/preprocessor/app.py: `parse_config_str`, which reads the memory configuration
-- given on the command line.
pub mod Positional
pub mod Rows
use mlogv.Prelude.{
  ℕ, zero, suc, Bool, true, false, ◌&&◌, Option, none, some, List, [], ◌∷◌, ◌++◌, Text, codes, leb,
  ◌==◌, if◌then◌else◌, length, ℤ, pos, negsuc, ◌+ℤ◌, ◌-ℤ◌,
}
use mlogv.PyInt.{parse_int_auto}
use mlogv.BuildConfig.{lookup, insert}

-- the constant entries of the class, UART_FIFO_CAPACITY and MTIME_FREQUENCY, come first
pub record ConfigArgs : Type 0 where
  pub uart_fifo_capacity : ℕ
  pub mtime_frequency : ℕ
  pub memory_x_offset : ℤ
  pub memory_y_offset : ℤ
  pub memory_width : ℤ
  pub program_rom_rows : ℤ
  pub data_rom_rows : ℤ
  pub ram_rows : ℤ
  pub icache_rows : ℤ

-- `text.split(",")`, with any separator of one character; the text before the first separator
-- comes with the parts behind it
unfoldable pub split_from : ℕ → Text → Text × List Text
split_from sep [] = ([], [])
split_from sep (c ∷ s) =
    let rest = split_from sep s in if c == sep then ([], rest.0 ∷ rest.1) else (c ∷ rest.0, rest.1)

unfoldable pub split : ℕ → Text → List Text
unfolding split_from
split sep s = (split_from sep s).0 ∷ (split_from sep s).1

-- `text.split(sep, 1)` where the separator occurs
unfoldable pub split_once : ℕ → Text → Option (Text × Text)
split_once sep [] = none
split_once sep (c ∷ s) =
    let rest = split_once sep s in
    if c == sep then some ([], s) else elim rest [ none ↦ none | some p ↦ some (c ∷ p.0, p.1) ]

unfoldable pub default_keys : List Text
default_keys =
    codes "rom"
    ∷ codes "ram"
    ∷ codes "icache"
    ∷ codes "width"
    ∷ codes "x_offset"
    ∷ codes "drom"
    ∷ []

unfoldable pub key_and_value : Text → Text → Text × Text
key_and_value item default_key = elim (split_once b'=' item) [
  | none ↦ (default_key, item)
  | some p ↦ p
]

unfoldable pub read_items : List Text → List Text → List (Text × ℤ) → Option (List (Text × ℤ))
read_items [] keys inputs = some inputs
read_items (item ∷ items) [] inputs = some inputs
read_items (item ∷ items) (default_key ∷ keys) inputs =
    let kv = key_and_value item default_key in
    elim (parse_int_auto kv.1) [
      | none ↦ none
      | some n ↦ read_items items keys (insert inputs kv.0 n)
    ]

-- `if key not in inputs: inputs[key] = value`
abbrev pub value_or : ℤ → Option ℤ → ℤ
value_or value none = value
value_or value (some n) = n

pub config_of : ℤ → ℤ → List (Text × ℤ) → ConfigArgs
config_of rom ram inputs =
    let icache = value_or (rom +ℤ ram) (lookup inputs (codes "icache")) in
    let width = value_or (pos 32) (lookup inputs (codes "width")) in
    let x_offset = value_or (negsuc 8) (lookup inputs (codes "x_offset")) in
    let drom = value_or (pos 0) (lookup inputs (codes "drom")) in
    let rows = rom +ℤ drom +ℤ ram +ℤ icache in
    record {
      uart_fifo_capacity = 253;
      mtime_frequency = 1000000;
      memory_x_offset = x_offset;
      memory_y_offset = negsuc 15 -ℤ rows;
      memory_width = width;
      program_rom_rows = rom;
      data_rom_rows = drom;
      ram_rows = ram;
      icache_rows = icache;
    }

unfoldable pub with_defaults : List (Text × ℤ) → Option ConfigArgs
unfolding config_of
with_defaults inputs = elim (lookup inputs (codes "rom")) [
  | none ↦ none
  | some rom ↦ elim (lookup inputs (codes "ram")) [
    | none ↦ none
    | some ram ↦ some (config_of rom ram inputs)
  ]
]

unfoldable pub parse_config_str : Text → Option ConfigArgs
parse_config_str config =
    let items = split b',' config in
    let inputs = read_items items default_keys [] in
    if leb 2 (length items) && leb (length items) 4
    then elim inputs [ none ↦ none | some ins ↦ with_defaults ins ]
    else none

-- ===== src/RamProc/Build.antt =====
-- python/src/mlogv32/scripts/ram_proc.py: the commands `variables` and `build`. A schematic is the list
-- of its processors; the files are not modelled.
pub mod Tables
use mlogv.Prelude.{
  ℕ, ◌+◌, ◌/◌, ◌%◌, Option, none, some, List, [], ◌∷◌, ◌++◌, Text, codes, Result, ok, err, ◌>>=◌,
  if◌then◌else◌, ltb, ltb_ℤ, ℤ, pos, negsuc, true, false,
}
use mlogv.PyInt.{parse_int_auto}
use mlogv.RamProc.{
  VariableFormat, RamError, get_variable, generate_code, assertion_error, out_of_fuel, mlogv32, min,
  dec, hex,
}

-- a micro processor without links
pub record Processor : Type 0 where
  pub x : ℕ
  pub y : ℕ
  pub code : Text

-- the lookup tables, in rows of `lookup_width` from number `i` on
unfoldable pub table_blocks : ℕ → ℕ → List Text → List Processor
table_blocks lookup_width i [] = []
table_blocks lookup_width i (code ∷ procs) =
    record { x = i % lookup_width; y = i / lookup_width; code = code }
    ∷ table_blocks lookup_width (i + 1) procs

-- `build`: the two schematics
unfoldable pub build : ℕ → ℕ → ℕ → VariableFormat → Result RamError (List Processor × Processor)
build fuel ram_size lookup_width format = do
  generated ← generate_code fuel ram_size format
  ok (table_blocks lookup_width 0 generated.0, record { x = 0; y = 0; code = generated.1 })

-- the search for a negative index: an endless generator never ends, which `out_of_fuel` stands for
negative_index : VariableFormat → RamError
negative_index mlogv32 = assertion_error
negative_index min = assertion_error
negative_index dec = out_of_fuel
negative_index hex = out_of_fuel

-- what `variables` prints of an index; a ValueError is an `err` of `none`
unfoldable pub variable_at : ℕ → VariableFormat → Text → Result (Option RamError) Text
unfolding negative_index
variable_at ram_size format index_str = elim (parse_int_auto index_str) [
  | none ↦ err none
  | some (negsuc n) ↦ err (some (negative_index format))
  | some (pos index) ↦
      if ltb index ram_size
      then (elim (get_variable format index) [ ok variable ↦ ok variable | err e ↦ err (some e) ])
      else ok (codes "(out of range)")
]

unfoldable pub variables : ℕ → VariableFormat → List Text → Result (Option RamError) (List Text)
variables ram_size format [] = ok []
variables ram_size format (index_str ∷ indices) = do
  variable ← variable_at ram_size format index_str
  rest ← variables ram_size format indices
  ok ((index_str ++ (codes " -> " ++ variable)) ∷ rest)

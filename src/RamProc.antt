-- ===== src/RamProc.antt =====
-- python/src/mlogv32/scripts/ram_proc.py: the names of the variables of a RAM processor, and the
-- code of the RAM and lookup processors.
pub mod BlockIds
pub mod Variables
pub mod Chunks
pub mod Build
pub mod Rounds
pub mod Generate
use mathlib.Core.List.{flat_map}
use mlogv.Prelude.{
  ℕ, zero, suc, ◌+◌, ◌-◌, ◌*◌, ◌/◌, ◌%◌, Bool, true, false, not, ◌&&◌, ◌||◌, Option, none, some,
  List, [], ◌∷◌, ◌++◌, map, Text, codes, text_eq, join, Result, ok, err, ◌>>=◌, if◌then◌else◌, ltb,
  leb, ◌==◌, length, get_elem?, take, drop, replicate, ℤ, ◌+ℤ◌, pos,
}
use mlogv.PyInt.{decimal, to_base}
use mlogv.RamProc.BlockIds.{block_ids}

-- `chr(i) not in "\"#'0123456789;@\\"`
is_name_char : ℕ → Bool
is_name_char c = not (
    c == b'"'
    || c == b'#'
    || c == b'\''
    || (leb b'0' c && leb c b'9')
    || c == b';'
    || c == b'@'
    || c == b'\\')

-- the characters among `count` code points from `first`
name_chars_from : ℕ → ℕ → List ℕ
name_chars_from first zero = []
name_chars_from first (suc count) =
    let rest = name_chars_from (first + 1) count in
    if is_name_char first then first ∷ rest else rest

unfoldable pub variable_name_chars : List ℕ
unfolding name_chars_from is_name_char
variable_name_chars = name_chars_from 33 94

unfoldable pub variable_name_chars_mlogv32 : List ℕ
unfolding variable_name_chars
variable_name_chars_mlogv32 = take 64 variable_name_chars

pub data VariableFormat : Type 0 where
  mlogv32 min dec hex : VariableFormat

-- the inner and the outer loop over `c2` and `c1`
unfoldable pub names_behind : ℕ → List ℕ → List Text
names_behind c1 [] = []
names_behind c1 (c2 ∷ cs) = (c1 ∷ c2 ∷ []) ∷ names_behind c1 cs

unfoldable pub two_char_names : List ℕ → List ℕ → List Text
two_char_names [] seconds = []
two_char_names (c1 ∷ cs) seconds = names_behind c1 seconds ++ two_char_names cs seconds

-- a hexadecimal name gets an underscore if it begins with a digit
hex_name : Text → Text
hex_name [] = []
hex_name (c ∷ s) = if leb b'0' c && leb c b'9' then b'_' ∷ c ∷ s else c ∷ s

-- The value that the generator `iter_variables` yields in round `i`, if it is not exhausted then.
unfoldable pub iter_variables : VariableFormat → ℕ → Option Text
unfolding hex_name
iter_variables mlogv32 i =
    get_elem? (two_char_names variable_name_chars_mlogv32 variable_name_chars_mlogv32) i
iter_variables min i = get_elem? (two_char_names variable_name_chars variable_name_chars) i
iter_variables dec i = some (b'v' ∷ decimal i)
iter_variables hex i = some (hex_name (to_base 16 i))

pub data RamError : Type 0 where
  assertion_error : RamError
  out_of_names : RamError
  out_of_fuel : RamError

unfoldable pub get_variable : VariableFormat → ℕ → Result RamError Text
get_variable format index = elim (iter_variables format index) [
  | none ↦ err assertion_error
  | some variable ↦ ok variable
]

-- what `lookup` prints about an address: the processor, its place and the variable
pub record Location : Type 0 where
  pub ram_index : ℕ
  pub ram_x : ℤ
  pub ram_y : ℤ
  pub variable : Text

unfoldable pub lookup : ℕ → ℕ → ℕ → VariableFormat → ℤ → ℤ → Result RamError Location
lookup address ram_size ram_width format base_x base_y = do
  let word_address = address / 4
  let ram_index = word_address / ram_size
  variable ← get_variable format (word_address % ram_size)
  ok (record {
    ram_index = ram_index;
    ram_x = pos (ram_index % ram_width) +ℤ base_x;
    ram_y = pos (ram_index / ram_width) +ℤ base_y;
    variable = variable;
  })

-- the locals of the loop in `generate_code`
pub record Generator : Type 0 where
  pub lookup_procs : List Text
  pub lookup_proc : List Text
  pub ram_proc : List Text
  pub ram_proc_line : List Text

unfoldable pub draw : List Text → Text
draw line = codes "draw triangle " ++ join (b' ' ∷ []) line

-- `line[-1:]`
last_of : List Text → List Text
last_of [] = []
last_of (x ∷ []) = x ∷ []
last_of (x ∷ y ∷ line) = last_of (y ∷ line)

repeat : ℕ → List Text → List Text
repeat zero xs = []
repeat (suc n) xs = xs ++ repeat n xs

-- `line + line[-1:] * (6 - len(line))`
unfoldable pub padded : List Text → List Text
unfolding last_of repeat
padded line = line ++ repeat (6 - length line) (last_of line)

-- `set {BLOCK_IDS[index]} "{variable}"`. The table is emptied when it holds as many entries as there
-- are block ids, so that the index is in range.
unfoldable pub set_line : ℕ → Text → Text
set_line index variable = elim (get_elem? block_ids index) [
  | none ↦ []
  | some block_id ↦ codes "set " ++ (block_id ++ (codes " \"" ++ (variable ++ codes "\"")))
]

unfoldable pub lookup_code : ℕ → List Text → Text
lookup_code index lines = join (b'\n' ∷ []) (
    codes "set _type \"lookup\""
    ∷ (codes "set _index " ++ decimal index)
    ∷ (lines ++ codes "stop" ∷ []))

-- `remaining_space == len(ram_proc_line)`, with the subtraction moved to the other side
unfoldable pub is_last : ℕ → Generator → Bool
is_last ram_size g = ram_size == length g.ram_proc * 6 + length g.ram_proc_line

-- the part of the round that writes RAM lines, after `append(variable)`
unfoldable pub ram_step : ℕ → Generator → Generator
ram_step ram_size g =
    if is_last ram_size g
    then (if ltb 0 (ram_size - length g.ram_proc * 6)
        then record g { ram_proc = g.ram_proc ++ draw (padded g.ram_proc_line) ∷ [] }
        else g)
    else if length g.ram_proc_line == 6
    then record g { ram_proc = g.ram_proc ++ draw g.ram_proc_line ∷ []; ram_proc_line = [] }
    else g

-- the part that writes lookup tables
unfoldable pub lookup_step : Bool → Text → Generator → Generator
lookup_step done variable g =
    let lines = g.lookup_proc ++ set_line (length g.lookup_proc) variable ∷ [] in
    if length lines == length block_ids || done
    then record g {
      lookup_procs = g.lookup_procs ++ lookup_code (length g.lookup_procs) lines ∷ [];
      lookup_proc = [];
    }
    else record g { lookup_proc = lines }

unfoldable pub append_variable : Text → Generator → Generator
append_variable variable g = record g { ram_proc_line = g.ram_proc_line ++ variable ∷ [] }

-- the code that `return` hands out
unfoldable pub finished : Generator → List Text × Text
finished g = (g.lookup_procs, join (b'\n' ∷ []) (codes "stop" ∷ g.ram_proc))

-- The loop over the names from round `i` on. A generator of names need not end, so the rounds are
-- counted by fuel.
unfoldable pub generate_from :
    ℕ → ℕ → VariableFormat → ℕ → Generator → Result RamError (List Text × Text)
generate_from zero ram_size format i g = err out_of_fuel
generate_from (suc fuel) ram_size format i g = elim (iter_variables format i) [
  | none ↦ err out_of_names
  | some variable ↦
      let g1 = append_variable variable g in
      let done = is_last ram_size g1 in
      let g2 = lookup_step done variable (ram_step ram_size g1) in
      elim done [ true ↦ ok (finished g2) | false ↦ generate_from fuel ram_size format (i + 1) g2 ]
]

abbrev pub empty_generator : Generator
empty_generator = record { lookup_procs = []; lookup_proc = []; ram_proc = []; ram_proc_line = [] }

unfoldable pub generate_code : ℕ → ℕ → VariableFormat → Result RamError (List Text × Text)
generate_code fuel ram_size format = generate_from fuel ram_size format 0 empty_generator

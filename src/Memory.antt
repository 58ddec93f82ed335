-- ===== src/Memory.antt =====
-- python/src/mlogv32/preprocessor/app.py: the memory part of `build`, with `lenrange`. The blocks
-- are listed in the order in which they are added to the schematic; compression and the blocks'
-- encoding belong to pymsch.
pub mod Writes
pub mod Image
pub mod Grid
pub mod Corner
pub mod Below
use mlogv.Prelude.{
  ℕ, zero, suc, ◌+◌, ◌-◌, ◌/◌, ◌%◌, true, false, List, [], ◌∷◌, ◌++◌, map, Text, codes, ltb, ◌==◌,
  if◌then◌else◌, length, take, drop, replicate, ℤ, pos, negsuc, ◌+ℤ◌, ltb_ℤ,
}
use mlogv.Config.{ConfigArgs}

-- `n` numbers from `start` on
unfoldable pub steps : ℕ → ℤ → ℤ → List ℤ
steps zero start step = []
steps (suc n) start step = start ∷ steps n (start +ℤ step) step

-- How many numbers `range(start, start + length, step)` has. A step of zero, which raises a
-- ValueError, is not used.
unfoldable pub range_count : ℤ → ℤ → ℕ
range_count (pos length) (pos step) = (length + step - 1) / step
range_count (negsuc length) (negsuc step) = (suc length + step) / suc step
range_count _ _ = 0

unfoldable pub lenrange : ℤ → ℤ → ℤ → List ℤ
unfolding steps range_count
lenrange start length step = steps (range_count length step) start step

-- the bytes that are appended when the file is not aligned
unfoldable pub pad : List ℕ → List ℕ
pad bytes =
    if length bytes % 4 == 0 then bytes else bytes ++ take (length bytes % 4) (0 ∷ 0 ∷ 0 ∷ 0 ∷ [])

pub data Cell : Type 0 where
  rom : ℤ → ℤ → Text → Cell
  ram : ℤ → ℤ → Cell

unfoldable pub rom_code : Text → Text
rom_code payload = codes "set v " ++ (b'"' ∷ (payload ++ (b'"' ∷ codes "; stop")))

abbrev pub rom_bytes : ℕ
rom_bytes = 16384

unfoldable pub payload_at : List ℕ → ℕ → Text
payload_at bytes i =
    if ltb i (length bytes) then map (λ c. 174 + c) (take rom_bytes (drop i bytes)) else []

unfoldable pub next_at : List ℕ → ℕ → ℕ
next_at bytes i = if ltb i (length bytes) then i + rom_bytes else i

-- one row of the loop; the second component is `i`
unfoldable pub memory_row : List ℕ → ℤ → ℤ → ℤ → List ℤ → ℕ → List Cell × ℕ
memory_row bytes rom_height base_y y [] i = ([], i)
memory_row bytes rom_height base_y y (x ∷ xs) i = elim (ltb_ℤ y rom_height) [
  | true ↦
      let rest = memory_row bytes rom_height base_y y xs (next_at bytes i) in
      (rom x (base_y +ℤ y) (rom_code (payload_at bytes i)) ∷ rest.0, rest.1)
  | false ↦
      let rest = memory_row bytes rom_height base_y y xs i in (ram x (base_y +ℤ y) ∷ rest.0, rest.1)
]

unfoldable pub memory_rows : List ℕ → ℤ → ℤ → List ℤ → List ℤ → ℕ → List Cell × ℕ
memory_rows bytes rom_height base_y xs [] i = ([], i)
memory_rows bytes rom_height base_y xs (y ∷ ys) i =
    let row = memory_row bytes rom_height base_y y xs i in
    let rest = memory_rows bytes rom_height base_y xs ys row.1 in (row.0 ++ rest.0, rest.1)

-- `config_link`, the processor the memory is placed relative to
abbrev pub config_x : ℕ
config_x = 9

abbrev pub config_y : ℕ
config_y = 16

unfoldable pub rom_height : ConfigArgs → ℤ
rom_height args = args.program_rom_rows +ℤ args.data_rom_rows

unfoldable pub memory_height : ConfigArgs → ℤ
memory_height args = rom_height args +ℤ args.ram_rows +ℤ args.icache_rows

-- the blocks of the memory, and the first byte of the file that did not fit
unfoldable pub memory : ConfigArgs → List ℕ → List Cell × ℕ
memory args file =
    let base_x = pos config_x +ℤ args.memory_x_offset in
    let base_y = pos config_y +ℤ args.memory_y_offset in
    memory_rows (pad file) (rom_height args) base_y (lenrange base_x args.memory_width (pos 1))
      (lenrange (pos 0) (memory_height args) (pos 1)) 0

-- the warning's count of bytes that do not fit
unfoldable pub overflowed : ConfigArgs → List ℕ → ℕ
overflowed args file = length (pad file) - (memory args file).1

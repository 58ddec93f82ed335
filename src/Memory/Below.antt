-- ===== src/Memory/Below.antt =====
-- python/src/mlogv32/preprocessor/app.py: the memory of a configuration that `parse_config_str` makes,
-- against the rows of the CPU and the peripherals.
use mlogv.Prelude.{
  ℕ, ◌+◌, ◌-◌, ◌*◌, ◌<◌, ◌≡◌, ap, ap₂, ◌∙◌, some, List, Text, arith, get_elem?, ltb, pos, negsuc,
  ◌+ℤ◌, ◌-ℤ◌, +ℤ_parts, -ℤ_parts, eq_of_parts,
}
use mlogv.Config.{ConfigArgs, parse_config_str}
use mlogv.Config.Rows.{parse_config_str-HasOffset}
use mlogv.Memory.{memory, config_x, config_y}
use mlogv.Memory.Image.{pos-sum}
use mlogv.Memory.Grid.{Stands, memory-Stands}

-- row `k` of as many rows
row_below :
    (rows k : ℕ)
    → k < rows
    → pos config_y +ℤ (negsuc 15 -ℤ pos rows) +ℤ pos k ≡ negsuc (rows - k - 1)
row_below rows k h =
    eq_of_parts (pos config_y +ℤ (negsuc 15 -ℤ pos rows) +ℤ pos k) (negsuc (rows - k - 1)) (
      omega (
        arith,
        h,
        -ℤ_parts (negsuc 15) (pos rows),
        +ℤ_parts (pos config_y) (negsuc 15 -ℤ pos rows),
        +ℤ_parts (pos config_y +ℤ (negsuc 15 -ℤ pos rows)) (pos k),
      ))

all_rows :
    (args : ConfigArgs) (program data_rom ram_count icache : ℕ)
    → args.program_rom_rows ≡ pos program
    → args.data_rom_rows ≡ pos data_rom
    → args.ram_rows ≡ pos ram_count
    → args.icache_rows ≡ pos icache
    → args.program_rom_rows +ℤ args.data_rom_rows +ℤ args.ram_rows +ℤ args.icache_rows
      ≡ pos (program + data_rom + ram_count + icache)
all_rows args program data_rom ram_count icache ep ed er ei =
    ap₂ (λ a b. a +ℤ b)
      (ap₂ (λ a b. a +ℤ b) (ap₂ (λ a b. a +ℤ b) ep ed ∙ pos-sum program data_rom) er
        ∙ pos-sum (program + data_rom) ram_count)
      ei
    ∙ pos-sum (program + data_rom + ram_count) icache

-- Let `parse_config_str` accept the configuration, and let its width and all numbers of its rows be natural
-- numbers. Then the processor of each column and each row of the memory stands below the row 0, the last
-- row of them in the row -1, and it is one of the ROM exactly in the first rows, as many as the program and
-- the data have.
pub memory-below :
    (config : Text) (args : ConfigArgs) (file : List ℕ)
    (width program data_rom ram_count icache k j : ℕ)
    → parse_config_str config ≡ some args
    → args.memory_width ≡ pos width
    → args.program_rom_rows ≡ pos program
    → args.data_rom_rows ≡ pos data_rom
    → args.ram_rows ≡ pos ram_count
    → args.icache_rows ≡ pos icache
    → k < program + data_rom + ram_count + icache
    → j < width
    → Stands
        (get_elem? (memory args file).0 (k * width + j))
        (pos config_x +ℤ args.memory_x_offset +ℤ pos j)
        (negsuc (program + data_rom + ram_count + icache - k - 1))
        (ltb k (program + data_rom))
memory-below config args file width program data_rom ram_count icache k j hc ew ep ed er ei hk hj =
    let rows = program + data_rom + ram_count + icache in
    let (cell, there, at, kind) =
      (memory-Stands args file width program data_rom ram_count icache k j ew ep ed er ei hk
        hj).1 in
    let offset : args.memory_y_offset ≡ negsuc 15 -ℤ pos rows =
      parse_config_str-HasOffset config args hc
      ∙ ap (λ h. negsuc 15 -ℤ h) (all_rows args program data_rom ram_count icache ep ed er ei) in
    let row : pos config_y +ℤ args.memory_y_offset +ℤ pos k ≡ negsuc (rows - k - 1) =
      ap (λ o. pos config_y +ℤ o +ℤ pos k) offset ∙ row_below rows k hk in
    (cell, there, at ∙ ap (λ y. (pos config_x +ℤ args.memory_x_offset +ℤ pos j, y)) row, kind)

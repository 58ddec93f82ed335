-- ===== src/Memory/Image.antt =====
-- python/src/mlogv32/preprocessor/app.py: what the memory blocks hold.
use mlogv.Prelude.{
  ℕ, zero, suc, ◌+◌, ◌-◌, ◌*◌, ◌/◌, ◌%◌, ◌<◌, ◌≡◌, refl, sym, ap, ap₂, ◌∙◌, subst, ◌⊎◌, ◌↔◌, List,
  [], ◌∷◌, arith, length, take, length-append, length-drop, ℤ, pos, ◌+ℤ◌,
}
use mlogv.Config.{ConfigArgs}
use mlogv.Memory.{
  steps, range_count, lenrange, pad, rom_bytes, memory_rows, rom_height, memory_height, memory,
  overflowed,
}
use mlogv.Memory.Writes.{image, Writes, Writes-resize, memory_rows-Writes}

length-take : (n : ℕ) → n < 4 → length {A = ℕ} (take n (0 ∷ 0 ∷ 0 ∷ 0 ∷ [])) ≡ n
length-take zero h = refl
length-take (suc zero) h = refl
length-take (suc (suc zero)) h = refl
length-take (suc (suc (suc zero))) h = refl
length-take (suc (suc (suc (suc n)))) h = omega arith

-- The padding leaves a file aligned only when it was aligned before, or lacks exactly two bytes.
pub pad-aligned :
    (file : List ℕ) → (length (pad file) % 4 ≡ 0) ↔ ((length file % 4 ≡ 0) ⊎ (length file % 4 ≡ 2))
unfolding pad
pad-aligned file = ground (
  arith,
  length-append file (take (length file % 4) (0 ∷ 0 ∷ 0 ∷ 0 ∷ [])),
  length-take (length file % 4) (omega arith),
)

pub pos-sum : (a b : ℕ) → pos a +ℤ pos b ≡ pos (a + b)
unfolding ◌+ℤ◌
pos-sum a b = ground arith

pub length-steps : (n : ℕ) (start step : ℤ) → length (steps n start step) ≡ n
unfolding steps
length-steps zero start step = refl
length-steps (suc n) start step = ap suc (length-steps n (start +ℤ step) step)

pub lenrange-pos : (start : ℤ) (n : ℕ) → lenrange start (pos n) (pos 1) ≡ steps n start (pos 1)
unfolding lenrange range_count
lenrange-pos start n =
    let count : (n + 1 - 1) / 1 ≡ n = omega arith in ap (λ k. steps k start (pos 1)) count

minus_zero : (n : ℕ) → n - 0 ≡ n
minus_zero n = omega arith

-- Let the width and all numbers of rows be natural numbers. Then the ROM processors, in the order
-- in which they are built, hold exactly the padded file as far as it fits into the ROM, whose size
-- is 16384 bytes for each processor, and the count of bytes that is warned about is what is left.
pub memory-image :
    (args : ConfigArgs) (file : List ℕ) (width program data_rom ram_count icache : ℕ)
    → args.memory_width ≡ pos width
    → args.program_rom_rows ≡ pos program
    → args.data_rom_rows ≡ pos data_rom
    → args.ram_rows ≡ pos ram_count
    → args.icache_rows ≡ pos icache
    → (image (memory args file).0 ≡ take ((program + data_rom) * (width * rom_bytes)) (pad file))
      × (overflowed args file ≡ length (pad file) - (program + data_rom) * (width * rom_bytes))
unfolding memory overflowed rom_height memory_height
memory-image args file width program data_rom ram_count icache ew ep ed er ei =
    let bytes = pad file in
    let base_x = pos 9 +ℤ args.memory_x_offset in
    let base_y = pos 16 +ℤ args.memory_y_offset in
    let roms : rom_height args ≡ pos (program + data_rom) =
      ap₂ ◌+ℤ◌ ep ed ∙ pos-sum program data_rom in
    let all_rows : memory_height args ≡ pos (program + data_rom + ram_count + icache) =
      ap₂ ◌+ℤ◌ (ap₂ ◌+ℤ◌ roms er ∙ pos-sum (program + data_rom) ram_count) ei
      ∙ pos-sum (program + data_rom + ram_count) icache in
    let xs = lenrange base_x args.memory_width (pos 1) in
    let columns : length xs ≡ width =
      ap (λ w. length (lenrange base_x w (pos 1))) ew
      ∙ ap length (lenrange-pos base_x width)
      ∙ length-steps width base_x (pos 1) in
    let ys : lenrange (pos 0) (memory_height args) (pos 1)
        ≡ steps (program + data_rom + ram_count + icache) (pos 0) (pos 1) =
      ap (λ h. lenrange (pos 0) h (pos 1)) all_rows
      ∙ lenrange-pos (pos 0) (program + data_rom + ram_count + icache) in
    let rows =
      memory_rows bytes (rom_height args) base_y xs
        (steps (program + data_rom + ram_count + icache) (pos 0) (pos 1)) 0 in
    let run =
      memory_rows-Writes bytes (rom_height args) base_y xs (program + data_rom + ram_count + icache)
        0 (program + data_rom) 0 roms (omega arith) in
    let size : (program + data_rom - 0) * (length xs * rom_bytes)
        ≡ (program + data_rom) * (width * rom_bytes) =
      ap₂ (λ a b. a * (b * rom_bytes)) (minus_zero (program + data_rom)) columns in
    let moved : Writes bytes 0 ((program + data_rom) * (width * rom_bytes)) (memory args file) =
      subst
        (λ r.
          Writes bytes 0 ((program + data_rom) * (width * rom_bytes))
            (memory_rows bytes (rom_height args) base_y xs r 0))
        (sym ys) (Writes-resize bytes 0 _ _ rows size run) in
    (
      moved.0,
      sym (length-drop (memory args file).1 bytes)
          ∙ ap length moved.1
          ∙ length-drop ((program + data_rom) * (width * rom_bytes)) bytes,
    )

-- ===== src/Memory/Grid.antt =====
-- python/src/mlogv32/preprocessor/app.py: where the processors of the memory stand.
use mlogv.Prelude.{
  ℕ, zero, suc, ◌+◌, ◌*◌, ◌<◌, ◌≡◌, refl, sym, ap, ap₂, ◌∙◌, Bool, true, false, Bool-cases, inl,
  inr, Option, some, List, [], ◌∷◌, ◌++◌, arith, length, get_elem?, get_elem?-append_left,
  get_elem?-append_right, length-append, ltb, ℤ, pos, ◌+ℤ◌, ltb_ℤ, +ℤ_parts, eq_of_parts,
}
use mlogv.Config.{ConfigArgs}
use mlogv.Memory.{
  steps, lenrange, pad, Cell, rom, ram, memory_row, memory_rows, next_at, rom_code, payload_at,
  rom_height, memory_height, memory, config_x, config_y,
}
use mlogv.Memory.Image.{pos-sum, length-steps, lenrange-pos}
use mlogv.Memory.Writes.{memory_row-nil, memory_row-cons_rom, memory_row-cons_ram, mul-suc}

abbrev pub place : Cell → ℤ × ℤ
place (rom x y code) = (x, y)
place (ram x y) = (x, y)

abbrev pub is_rom : Cell → Bool
is_rom (rom x y code) = true
is_rom (ram x y) = false

-- the processor stands at the place, and is one of the ROM or not
abbrev pub Stands : Option Cell → ℤ → ℤ → Bool → Type 0
Stands found x y in_rom =
    (cell : Cell) × (found ≡ some cell) × (place cell ≡ (x, y)) × (is_rom cell ≡ in_rom)

plus_assoc : (a b c : ℕ) → a + b + c ≡ a + (b + c)
plus_assoc a b c = omega arith

-- the first processor of a row, and those behind it
pub memory_row-first :
    (bytes : List ℕ) (height base y x : ℤ) (xs : List ℤ) (i : ℕ)
    → (cell : Cell) × (i' : ℕ) × ((memory_row bytes height base y (x ∷ xs) i).0
        ≡ cell ∷ (memory_row bytes height base y xs i').0)
      × (place cell ≡ (x, base +ℤ y))
      × (is_rom cell ≡ ltb_ℤ y height)
memory_row-first bytes height base y x xs i = elim (Bool-cases (ltb_ℤ y height)) [
  | inl e ↦ (
    rom x (base +ℤ y) (rom_code (payload_at bytes i)),
    next_at bytes i,
    ap (λ r. r.0) (memory_row-cons_rom bytes height base y x xs i e),
    refl,
    sym e,
  )
  | inr e ↦ (
    ram x (base +ℤ y),
    i,
    ap (λ r. r.0) (memory_row-cons_ram bytes height base y x xs i e),
    refl,
    sym e,
  )
]

length-memory_row :
    (bytes : List ℕ) (height base y : ℤ) (xs : List ℤ) (i : ℕ)
    → length (memory_row bytes height base y xs i).0 ≡ length xs
length-memory_row bytes height base y [] i =
    ap (λ r. length r.0) (memory_row-nil bytes height base y i)
length-memory_row bytes height base y (x ∷ xs) i =
    let (cell, i', e, at, kind) = memory_row-first bytes height base y x xs i in
    ap length e ∙ ap suc (length-memory_row bytes height base y xs i')

memory_row-Stands :
    (bytes : List ℕ) (height base y : ℤ) (xs : List ℤ) (i j : ℕ) (x : ℤ)
    → get_elem? xs j ≡ some x
    → Stands (get_elem? (memory_row bytes height base y xs i).0 j) x (base +ℤ y) (ltb_ℤ y height)
memory_row-Stands bytes height base y [] i j x h = cc
memory_row-Stands bytes height base y (x' ∷ xs) i zero x h =
    let (cell, i', e, at, kind) = memory_row-first bytes height base y x' xs i in
    let same : x' ≡ x = cc (h) in
    (cell, ap (λ r. get_elem? r 0) e, at ∙ ap (λ z. (z, base +ℤ y)) same, kind)
memory_row-Stands bytes height base y (x' ∷ xs) i (suc j) x h =
    let (cell, i', e, at, kind) = memory_row-first bytes height base y x' xs i in
    let (found, there, at', kind') = memory_row-Stands bytes height base y xs i' j x h in
    (found, ap (λ r. get_elem? r (suc j)) e ∙ there, at', kind')

memory_rows-cons :
    (bytes : List ℕ) (height base : ℤ) (xs : List ℤ) (y : ℤ) (ys : List ℤ) (i : ℕ)
    → (i' : ℕ) × ((memory_rows bytes height base xs (y ∷ ys) i).0
        ≡ (memory_row bytes height base y xs i).0 ++ (memory_rows bytes height base xs ys i').0)
unfolding memory_rows
memory_rows-cons bytes height base xs y ys i = ((memory_row bytes height base y xs i).1, refl)

length-memory_rows :
    (bytes : List ℕ) (height base : ℤ) (xs ys : List ℤ) (i : ℕ)
    → length (memory_rows bytes height base xs ys i).0 ≡ length ys * length xs
length-memory_rows bytes height base xs [] i = unfold memory_rows in omega arith
length-memory_rows bytes height base xs (y ∷ ys) i =
    let (i', e) = memory_rows-cons bytes height base xs y ys i in
    let row = length-memory_row bytes height base y xs i in
    let rest = length-memory_rows bytes height base xs ys i' in
    ap length e
    ∙ length-append (memory_row bytes height base y xs i).0
        (memory_rows bytes height base xs ys i').0
    ∙ ap₂ (λ a b. a + b) row rest
    ∙ sym (mul-suc (length ys) (length xs))

get_elem?-length-lt :
    {A : Type 0} (xs : List A) (j : ℕ) (x : A) → get_elem? xs j ≡ some x → j < length xs
get_elem?-length-lt [] j x h = cc
get_elem?-length-lt (x' ∷ xs) zero x h = omega arith
get_elem?-length-lt (x' ∷ xs) (suc j) x h = omega (arith, get_elem?-length-lt xs j x h)

memory_rows-Stands :
    (bytes : List ℕ) (height base : ℤ) (xs ys : List ℤ) (i k j : ℕ) (x y : ℤ)
    → get_elem? ys k ≡ some y
    → get_elem? xs j ≡ some x
    → Stands
        (get_elem? (memory_rows bytes height base xs ys i).0 (k * length xs + j))
        x
        (base +ℤ y)
        (ltb_ℤ y height)
memory_rows-Stands bytes height base xs [] i k j x y hy hx = cc
memory_rows-Stands bytes height base xs (y' ∷ ys) i zero j x y hy hx =
    let (i', e) = memory_rows-cons bytes height base xs y' ys i in
    let row = (memory_row bytes height base y' xs i).0 in
    let rest = (memory_rows bytes height base xs ys i').0 in
    let same : y' ≡ y = cc (hy) in
    let inside : j < length row =
      omega (arith, get_elem?-length-lt xs j x hx, length-memory_row bytes height base y' xs i) in
    let start : 0 * length xs + j ≡ j = omega arith in
    let (cell, there, at, kind) = memory_row-Stands bytes height base y' xs i j x hx in
    (
      cell,
      ap₂ (λ r n. get_elem? r n) e start ∙ get_elem?-append_left row rest j inside ∙ there,
      at ∙ ap (λ z. (x, base +ℤ z)) same,
      kind ∙ ap (λ z. ltb_ℤ z height) same,
    )
memory_rows-Stands bytes height base xs (y' ∷ ys) i (suc k) j x y hy hx =
    let (i', e) = memory_rows-cons bytes height base xs y' ys i in
    let row = (memory_row bytes height base y' xs i).0 in
    let rest = (memory_rows bytes height base xs ys i').0 in
    let size : length row ≡ length xs = length-memory_row bytes height base y' xs i in
    let behind : suc k * length xs + j ≡ length row + (k * length xs + j) =
      ap (λ n. n + j) (mul-suc k (length xs))
      ∙ plus_assoc (length xs) (k * length xs) j
      ∙ ap (λ n. n + (k * length xs + j)) (sym size) in
    let (cell, there, at, kind) = memory_rows-Stands bytes height base xs ys i' k j x y hy hx in
    (
      cell,
      ap₂ (λ r n. get_elem? r n) e behind
          ∙ get_elem?-append_right row rest (k * length xs + j)
          ∙ there,
      at,
      kind,
    )

add_one : (start : ℤ) (j : ℕ) → start +ℤ pos 1 +ℤ pos j ≡ start +ℤ pos (suc j)
add_one start j = eq_of_parts (start +ℤ pos 1 +ℤ pos j) (start +ℤ pos (suc j)) (
    omega (
      arith,
      +ℤ_parts start (pos 1),
      +ℤ_parts (start +ℤ pos 1) (pos j),
      +ℤ_parts start (pos (suc j)),
    ))

add_none : (start : ℤ) → start +ℤ pos 0 ≡ start
add_none start = eq_of_parts (start +ℤ pos 0) start (omega (arith, +ℤ_parts start (pos 0)))

get_elem?-steps :
    (n : ℕ) (start : ℤ) (j : ℕ)
    → j < n
    → get_elem? (steps n start (pos 1)) j ≡ some (start +ℤ pos j)
unfolding steps
get_elem?-steps zero start j h = ground (arith, h)
get_elem?-steps (suc n) start zero h = ap some (sym (add_none start))
get_elem?-steps (suc n) start (suc j) h =
    get_elem?-steps n (start +ℤ pos 1) j (omega (arith, h)) ∙ ap some (add_one start j)

from_zero : (k : ℕ) → pos 0 +ℤ pos k ≡ pos k
from_zero k = pos-sum 0 k ∙ ap pos (omega arith)

-- Let the width and all numbers of rows be natural numbers. Then the memory consists of as many processors
-- as the rows have places, and in the order in which they are built the processor of each column and each
-- row stands in this column and this row behind the place of the memory; it is one of the ROM exactly in
-- the first rows, as many as the program and the data have.
pub memory-Stands :
    (args : ConfigArgs) (file : List ℕ) (width program data_rom ram_count icache k j : ℕ)
    → args.memory_width ≡ pos width
    → args.program_rom_rows ≡ pos program
    → args.data_rom_rows ≡ pos data_rom
    → args.ram_rows ≡ pos ram_count
    → args.icache_rows ≡ pos icache
    → k < program + data_rom + ram_count + icache
    → j < width
    → (length (memory args file).0 ≡ (program + data_rom + ram_count + icache) * width)
      × Stands
          (get_elem? (memory args file).0 (k * width + j))
          (pos config_x +ℤ args.memory_x_offset +ℤ pos j)
          (pos config_y +ℤ args.memory_y_offset +ℤ pos k)
          (ltb k (program + data_rom))
unfolding memory rom_height memory_height
memory-Stands args file width program data_rom ram_count icache k j ew ep ed er ei hk hj =
    let base_x = pos config_x +ℤ args.memory_x_offset in
    let base_y = pos config_y +ℤ args.memory_y_offset in
    let rows = program + data_rom + ram_count + icache in
    let xs = steps width base_x (pos 1) in
    let ys = steps rows (pos 0) (pos 1) in
    let rom_is : args.program_rom_rows +ℤ args.data_rom_rows ≡ pos (program + data_rom) =
      ap₂ (λ a b. a +ℤ b) ep ed ∙ pos-sum program data_rom in
    let height_is : args.program_rom_rows +ℤ args.data_rom_rows +ℤ args.ram_rows +ℤ args.icache_rows
        ≡ pos rows =
      ap₂ (λ a b. a +ℤ b) (ap₂ (λ a b. a +ℤ b) rom_is er ∙ pos-sum (program + data_rom) ram_count)
        ei
      ∙ pos-sum (program + data_rom + ram_count) icache in
    let columns : lenrange base_x args.memory_width (pos 1) ≡ xs =
      ap (λ w. lenrange base_x w (pos 1)) ew ∙ lenrange-pos base_x width in
    let lines : lenrange (pos 0)
          (args.program_rom_rows +ℤ args.data_rom_rows +ℤ args.ram_rows +ℤ args.icache_rows) (pos 1)
        ≡ ys =
      ap (λ h. lenrange (pos 0) h (pos 1)) height_is ∙ lenrange-pos (pos 0) rows in
    let grid : memory args file ≡ memory_rows (pad file) (pos (program + data_rom)) base_y xs ys 0 =
      ap₂ (λ w h. memory_rows (pad file) (args.program_rom_rows +ℤ args.data_rom_rows) base_y w h 0)
        columns lines
      ∙ ap (λ r. memory_rows (pad file) r base_y xs ys 0) rom_is in
    let wide = length-steps width base_x (pos 1) in
    let (cell, there, at, kind) =
      memory_rows-Stands (pad file) (pos (program + data_rom)) base_y xs ys 0 k j (base_x +ℤ pos j)
        (pos 0 +ℤ pos k) (get_elem?-steps rows (pos 0) k hk) (get_elem?-steps width base_x j hj) in
    (
      ap (λ m. length m.0) grid
          ∙ length-memory_rows (pad file) (pos (program + data_rom)) base_y xs ys 0
          ∙ ap₂ (λ a b. a * b) (length-steps rows (pos 0) (pos 1)) wide,
      (
        cell,
        ap₂ (λ m w. get_elem? m.0 (k * w + j)) grid (sym wide) ∙ there,
        at ∙ ap (λ y. (base_x +ℤ pos j, base_y +ℤ y)) (from_zero k),
        kind
            ∙ ap (λ y. ltb_ℤ y (pos (program + data_rom))) (from_zero k)
            ∙ ap₂ ltb (omega arith) (omega arith),
      ),
    )

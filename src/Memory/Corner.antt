-- ===== src/Memory/Corner.antt =====
-- python/src/mlogv32/preprocessor/app.py: the corner of the memory, from which its rows are built.
use mlogv.Prelude.{
  ℕ, zero, suc, ◌≡◌, refl, sym, ap, subst, ◌∙◌, List, [], ◌∷◌, ◌++◌, ℤ, pos, ◌+ℤ◌, int_laws,
}
use mlogv.Config.{ConfigArgs}
use mlogv.Memory.{
  Cell, steps, range_count, lenrange, pad, memory_row, memory_rows, config_x, config_y, rom_height,
  memory_height, memory,
}
use mlogv.Memory.Grid.{place, memory_row-first}

-- The first of the processors stands at the place.
abbrev pub FirstAt : ℤ × ℤ → List Cell → Type 0
FirstAt p [] = Unit
FirstAt p (cell ∷ cells) = place cell ≡ p

no_columns :
    (bytes : List ℕ) (height base : ℤ) (ys : List ℤ) (i : ℕ)
    → (memory_rows bytes height base [] ys i).0 ≡ []
unfolding memory_rows memory_row
no_columns bytes height base [] i = refl
no_columns bytes height base (y ∷ ys) i = no_columns bytes height base ys i

plus_zero : (a : ℤ) → a +ℤ pos 0 ≡ a
plus_zero a = omega int_laws

memory_rows-FirstAt :
    (bytes : List ℕ) (height base x : ℤ) (n m : ℕ)
    → FirstAt
        (x, base)
        (memory_rows bytes height base (steps n x (pos 1)) (steps m (pos 0) (pos 1)) 0).0
unfolding memory_rows steps
memory_rows-FirstAt bytes height base x n zero = tt
memory_rows-FirstAt bytes height base x zero (suc m) =
    subst (FirstAt (x, base))
      (sym (no_columns bytes height base (pos 0 ∷ steps m (pos 0 +ℤ pos 1) (pos 1)) 0)) tt
memory_rows-FirstAt bytes height base x (suc n) (suc m) =
    let xs = steps n (x +ℤ pos 1) (pos 1) in
    let (cell, i', e, at, kind) = memory_row-first bytes height base (pos 0) x xs 0 in
    let behind =
      (memory_rows bytes height base (x ∷ xs) (steps m (pos 0 +ℤ pos 1) (pos 1))
        (memory_row bytes height base (pos 0) (x ∷ xs) 0).1).0 in
    subst (λ row. FirstAt (x, base) (row ++ behind)) (sym e)
      (at ∙ ap (λ y. (x, y)) (plus_zero base))

-- The first processor of the memory stands where the metadata says.
pub memory-FirstAt :
    (args : ConfigArgs) (file : List ℕ)
    → FirstAt
        (pos config_x +ℤ args.memory_x_offset, pos config_y +ℤ args.memory_y_offset)
        (memory args file).0
unfolding memory lenrange
memory-FirstAt args file =
    memory_rows-FirstAt (pad file) (rom_height args) (pos config_y +ℤ args.memory_y_offset)
      (pos config_x +ℤ args.memory_x_offset) (range_count args.memory_width (pos 1))
      (range_count (memory_height args) (pos 1))

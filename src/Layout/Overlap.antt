-- ===== src/Layout/Overlap.antt =====
-- python/src/mlogv32/preprocessor/app.py: the place of the CPU among the peripherals.
use mlogv.Prelude.{
  ℕ, zero, suc, ◌+◌, ◌-◌, ◌/◌, ◌≤◌, ◌≡◌, refl, sym, ap, subst, ◌∙◌, Bool, true, false, not, ◌&&◌,
  ◌||◌, Option, List, [], ◌∷◌, Text, ok, err, All, All-append, arith, if◌then◌else◌, if_keeps, ℤ,
  pos, negsuc, ◌+ℤ◌, ltb_ℤ, eqb_ℤ, int_laws, +ℤ_parts,
}
use mlogv.Memory.{lenrange, steps, range_count}
use mlogv.Layout.{Block, column, over, peripherals, devices}
use mlogv.Layout.Cpu.{worker_at, cpu, dimensions, sized, height_too_large}
use mlogv.Layout.Covers.{covers, size}

-- No block of the second list covers the origin of the block.
abbrev pub IsClear : List Block → Block → Type 0
IsClear others block = All (λ q. covers q block.x block.y ≡ false) others

-- left of the CPU, or above a height of 16 where there is a keyboard
abbrev beside : Bool → Block → Bool
beside keyboard q =
    not (ltb_ℤ (pos 16) (q.x +ℤ pos (size q.part).0)) || (keyboard && not (ltb_ℤ q.y (pos 16)))

abbrev every : (Block → Bool) → List Block → Bool
every test [] = true
every test (b ∷ blocks) = test b && every test blocks

peripherals-beside :
    (config_code display_code : Text) (keyboard : Bool)
    → every (beside keyboard) (peripherals config_code display_code keyboard) ≡ true
unfolding peripherals devices lenrange ◌+ℤ◌
peripherals-beside config_code display_code true = refl
peripherals-beside config_code display_code false = refl

covers-beside :
    (keyboard : Bool) (q : Block) (x y : ℤ)
    → beside keyboard q ≡ true
    → ltb_ℤ x (pos 16) ≡ false
    → (if keyboard then ltb_ℤ y (pos 16) else true) ≡ true
    → covers q x y ≡ false
covers-beside keyboard q x y b hx hy =
    ground (arith, +ℤ_parts q.x (pos (size q.part).0), +ℤ_parts q.y (pos (size q.part).1))

beside-IsClear :
    (keyboard : Bool) (others : List Block) (x y : ℤ)
    → every (beside keyboard) others ≡ true
    → ltb_ℤ x (pos 16) ≡ false
    → (if keyboard then ltb_ℤ y (pos 16) else true) ≡ true
    → All (λ q. covers q x y ≡ false) others
beside-IsClear keyboard [] x y b hx hy = tt
beside-IsClear keyboard (q ∷ others) x y b hx hy = (
  covers-beside keyboard q x y (ground arith) hx hy,
  beside-IsClear keyboard others x y (ground arith) hx hy,
)

steps_from : (n k : ℕ) → 16 ≤ k → All (λ x. ltb_ℤ x (pos 16) ≡ false) (steps n (pos k) (pos 1))
unfolding steps
steps_from zero k h = tt
steps_from (suc n) k h =
    let next : pos k +ℤ pos 1 ≡ pos (suc k) = omega int_laws in
    (
      ground arith,
      subst (λ z. All (λ x. ltb_ℤ x (pos 16) ≡ false) (steps n z (pos 1))) (sym next)
          (steps_from n (suc k) (omega arith)),
    )

steps_below :
    (n k bound : ℕ)
    → k + n ≤ bound
    → All (λ y. ltb_ℤ y (pos bound) ≡ true) (steps n (pos k) (pos 1))
unfolding steps
steps_below zero k bound h = tt
steps_below (suc n) k bound h =
    let next : pos k +ℤ pos 1 ≡ pos (suc k) = omega int_laws in
    (
      ground arith,
      subst (λ z. All (λ y. ltb_ℤ y (pos bound) ≡ true) (steps n z (pos 1))) (sym next)
          (steps_below n (suc k) bound (omega arith)),
    )

abbrev InRow : Bool → ℤ → Type 0
InRow keyboard y = (if keyboard then ltb_ℤ y (pos 16) else true) ≡ true

InRow-below :
    (keyboard : Bool) (bound : ℕ) (ys : List ℤ)
    → keyboard && ltb_ℤ (pos 16) (pos bound) ≡ false
    → All (λ y. ltb_ℤ y (pos bound) ≡ true) ys
    → All (InRow keyboard) ys
InRow-below keyboard bound [] h a = tt
InRow-below keyboard bound (y ∷ ys) h (hy, a) = (ground arith, InRow-below keyboard bound ys h a)

rows_in_reach :
    (keyboard : Bool) (height : ℤ)
    → keyboard && ltb_ℤ (pos 16) height ≡ false
    → All (InRow keyboard) (lenrange (pos 0) height (pos 1))
unfolding lenrange range_count
rows_in_reach keyboard (pos n) h =
    let count : (n + 1 - 1) / 1 ≡ n = omega arith in
    subst (λ k. All (InRow keyboard) (steps k (pos 0) (pos 1))) (sym count)
      (InRow-below keyboard n (steps n (pos 0) (pos 1)) h (steps_below n 0 n (omega arith)))
rows_in_reach keyboard (negsuc n) h = unfold steps in tt

columns_right : (width : ℤ) → All (λ x. ltb_ℤ x (pos 16) ≡ false) (lenrange (pos 16) width (pos 1))
unfolding lenrange
columns_right width = steps_from (range_count width (pos 1)) 16 (omega arith)

module _ (config_code display_code controller_code worker_code : Text) (keyboard : Bool) where
  abbrev Clear : Block → Type 0
  Clear = IsClear (peripherals config_code display_code keyboard)

  clear_at :
      (x y : ℤ)
      → ltb_ℤ x (pos 16) ≡ false
      → InRow keyboard y
      → All (λ q. covers q x y ≡ false) (peripherals config_code display_code keyboard)
  clear_at x y hx hy =
      beside-IsClear keyboard (peripherals config_code display_code keyboard) x y
        (peripherals-beside config_code display_code keyboard) hx hy

  worker_at-Clear :
      (x y : ℤ)
      → ltb_ℤ x (pos 16) ≡ false
      → InRow keyboard y
      → All Clear (worker_at worker_code x y)
  unfolding worker_at
  worker_at-Clear x y hx hy =
      if_keeps (All Clear) (eqb_ℤ x (pos 16) && eqb_ℤ y (pos 0)) tt (clear_at x y hx hy, tt)

  column-Clear :
      (x : ℤ) (ys : List ℤ)
      → ltb_ℤ x (pos 16) ≡ false
      → All (InRow keyboard) ys
      → All Clear (column x ys (worker_at worker_code))
  unfolding column
  column-Clear x [] hx h = tt
  column-Clear x (y ∷ ys) hx (hy, h) =
      All-append Clear (worker_at worker_code x y) (column x ys (worker_at worker_code))
        (worker_at-Clear x y hx hy) (column-Clear x ys hx h)

  over-Clear :
      (xs ys : List ℤ)
      → All (λ x. ltb_ℤ x (pos 16) ≡ false) xs
      → All (InRow keyboard) ys
      → All Clear (over xs ys (worker_at worker_code))
  unfolding over
  over-Clear [] ys hx hy = tt
  over-Clear (x ∷ xs) ys (h, hx) hy =
      All-append Clear (column x ys (worker_at worker_code)) (over xs ys (worker_at worker_code))
        (column-Clear x ys h hy) (over-Clear xs ys hx hy)

  checked :
      (p : ℤ × ℤ) (refused : Bool) (w h : ℤ)
      → refused ≡ keyboard && ltb_ℤ (pos 16) p.1
      → (if refused then err (height_too_large p.1) else ok p) ≡ ok (w, h)
      → keyboard && ltb_ℤ (pos 16) h ≡ false
  checked p true w h r e = cc
  checked p false w h r e =
      let same : p ≡ (w, h) = cc in ap (λ q. keyboard && ltb_ℤ (pos 16) q.1) (sym same) ∙ sym r

  guard_passed :
      (width height : ℤ) (wanted : Option ℤ) (w h : ℤ)
      → dimensions width height wanted keyboard ≡ ok (w, h)
      → keyboard && ltb_ℤ (pos 16) h ≡ false
  unfolding dimensions
  guard_passed width height wanted w h e = checked (sized wanted width height) _ w h refl e

  -- If the arguments pass the checks, no processor of the CPU stands on a peripheral or on one of the
  -- schematics that belong to them, whatever the CPU's width and height are.
  pub cpu-IsClear :
      (width height : ℤ) (wanted : Option ℤ) (w h : ℤ)
      → dimensions width height wanted keyboard ≡ ok (w, h)
      → All
          (IsClear (peripherals config_code display_code keyboard))
          (cpu controller_code worker_code w h)
  unfolding cpu
  cpu-IsClear width height wanted w h e = (
    clear_at (pos 16) (pos 0) (ground arith) (ground arith),
    over-Clear (lenrange (pos 16) w (pos 1)) (lenrange (pos 0) h (pos 1)) (columns_right w)
        (rows_in_reach keyboard h (guard_passed width height wanted w h e)),
  )

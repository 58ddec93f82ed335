-- ===== src/Memory/Writes.antt =====
-- python/src/mlogv32/preprocessor/app.py: what the loop over the rows writes into the memory.
use mlogv.Prelude.{
  ℕ, zero, suc, ◌+◌, ◌-◌, ◌*◌, ◌≤◌, ◌<◌, ◌≡◌, refl, sym, ap, ap₂, ◌∙◌, subst, true, false,
  Bool-cases, inl, inr, List, [], ◌∷◌, ◌++◌, append-nil, append_assoc, map, Text, codes, arith, ltb,
  ◌==◌, if◌then◌else◌, length, take, drop, ℤ, pos, ◌+ℤ◌, ltb_ℤ,
}
use mlogv.Memory.{
  steps, Cell, rom, ram, rom_code, rom_bytes, payload_at, next_at, memory_row, memory_rows,
}

-- the bytes that a ROM processor's string gives, up to the closing quote
abbrev until_quote : Text → List ℕ
until_quote [] = []
until_quote (c ∷ s) = let rest = until_quote s in if c == b'"' then [] else (c - 174) ∷ rest

abbrev stored : Cell → List ℕ
stored (rom x y code) = until_quote (drop 7 code)
stored (ram x y) = []

-- The bytes that the ROM processors hold, in order.
abbrev pub image : List Cell → List ℕ
image [] = []
image (cell ∷ cells) = stored cell ++ image cells

image-append : (a b : List Cell) → image (a ++ b) ≡ image a ++ image b
image-append [] b = refl
image-append (cell ∷ a) b =
    ap (◌++◌ (stored cell)) (image-append a b)
    ∙ sym (append_assoc (stored cell) (image a) (image b))

until_quote-payload :
    (bytes : List ℕ) (s : Text) → until_quote (map (λ c. 174 + c) bytes ++ (b'"' ∷ s)) ≡ bytes
until_quote-payload [] s = refl
until_quote-payload (c ∷ bytes) s = ground (arith, until_quote-payload bytes s)

stored-rom_code :
    (x y : ℤ) (bytes : List ℕ) → stored (rom x y (rom_code (map (λ c. 174 + c) bytes))) ≡ bytes
unfolding rom_code
stored-rom_code x y bytes = until_quote-payload bytes (codes "; stop")

take-nil : {A : Type 0} (n : ℕ) → take {A = A} n [] ≡ []
take-nil zero = refl
take-nil (suc n) = refl

drop-nil : {A : Type 0} (n : ℕ) → drop {A = A} n [] ≡ []
drop-nil zero = refl
drop-nil (suc n) = refl

take_of_drop :
    {A : Type 0} (n m : ℕ) (xs : List A) → take (n + m) xs ≡ take n xs ++ take m (drop n xs)
take_of_drop zero m xs = let none_left : 0 + m ≡ m = omega arith in ap (λ k. take k xs) none_left
take_of_drop (suc n) m [] = take-nil (suc n + m) ∙ sym (take-nil m)
take_of_drop (suc n) m (x ∷ xs) =
    let one_more : suc n + m ≡ suc (n + m) = omega arith in
    ap (λ k. take k (x ∷ xs)) one_more ∙ ap (◌∷◌ x) (take_of_drop n m xs)

drop-drop : {A : Type 0} (n m : ℕ) (xs : List A) → drop n (drop m xs) ≡ drop (m + n) xs
drop-drop n zero xs = let none_left : n ≡ 0 + n = omega arith in ap (λ k. drop k xs) none_left
drop-drop n (suc m) [] = drop-nil n ∙ sym (drop-nil (suc m + n))
drop-drop n (suc m) (x ∷ xs) =
    let one_more : suc (m + n) ≡ suc m + n = omega arith in
    drop-drop n m xs ∙ ap (λ k. drop k (x ∷ xs)) one_more

drop-all : {A : Type 0} (n : ℕ) (xs : List A) → length xs ≤ n → drop n xs ≡ []
drop-all zero [] h = refl
drop-all zero (x ∷ xs) h = ground arith
drop-all (suc n) [] h = refl
drop-all (suc n) (x ∷ xs) h = drop-all n xs (omega arith)

stored-payload :
    (bytes : List ℕ) (i : ℕ) (x y : ℤ)
    → stored (rom x y (rom_code (payload_at bytes i))) ≡ take rom_bytes (drop i bytes)
unfolding payload_at
stored-payload bytes i x y = elim (Bool-cases (ltb i (length bytes))) [
  | inl h ↦
      ap
        (λ b. stored (
          rom x y
            (rom_code (if b then map (λ c. 174 + c) (take rom_bytes (drop i bytes)) else []))))
        h
      ∙ stored-rom_code x y (take rom_bytes (drop i bytes))
  | inr h ↦
      let gone : drop i bytes ≡ [] = drop-all i bytes (ground arith) in
      ap
        (λ b. stored (
          rom x y
            (rom_code (if b then map (λ c. 174 + c) (take rom_bytes (drop i bytes)) else []))))
        h
      ∙ stored-rom_code x y []
      ∙ sym (ap (take rom_bytes) gone)
]

drop-next_at :
    (bytes : List ℕ) (i : ℕ) → drop (next_at bytes i) bytes ≡ drop rom_bytes (drop i bytes)
unfolding next_at
drop-next_at bytes i = elim (Bool-cases (ltb i (length bytes))) [
  | inl h ↦
      ap (λ b. drop (if b then i + rom_bytes else i) bytes) h ∙ sym (drop-drop rom_bytes i bytes)
  | inr h ↦
      let gone : drop i bytes ≡ [] = drop-all i bytes (ground arith) in
      ap (λ b. drop (if b then i + rom_bytes else i) bytes) h
      ∙ gone
      ∙ sym (ap (drop rom_bytes) gone)
]

-- what a part of the loop writes into the ROM, and what is left to write behind it
abbrev pub Writes : List ℕ → ℕ → ℕ → List Cell × ℕ → Type 0
Writes bytes i n done =
    (image done.0 ≡ take n (drop i bytes)) × (drop done.1 bytes ≡ drop n (drop i bytes))

Writes-append :
    (bytes : List ℕ) (i n m j k : ℕ) (a b : List Cell)
    → Writes bytes i n (a, j)
    → Writes bytes j m (b, k)
    → Writes bytes i (n + m) (a ++ b, k)
Writes-append bytes i n m j k a b (image_a, left_a) (image_b, left_b) = (
  image-append a b
      ∙ ap₂ ◌++◌ image_a (image_b ∙ ap (take m) left_a)
      ∙ sym (take_of_drop n m (drop i bytes)),
  left_b ∙ ap (drop m) left_a ∙ drop-drop m n (drop i bytes),
)

Writes-none : (bytes : List ℕ) (i n : ℕ) → n ≡ 0 → Writes bytes i n ([], i)
Writes-none bytes i zero h = (refl, refl)
Writes-none bytes i (suc n) h = ground arith

pub Writes-resize :
    (bytes : List ℕ) (i n m : ℕ) (done : List Cell × ℕ)
    → n ≡ m
    → Writes bytes i n done
    → Writes bytes i m done
Writes-resize bytes i n m done e h = subst (λ k. Writes bytes i k done) e h

next_row : (k : ℕ) → pos k +ℤ pos 1 ≡ pos (suc k)
unfolding ◌+ℤ◌
next_row k = ground arith

pub mul-suc : (a b : ℕ) → suc a * b ≡ b + a * b
mul-suc a b = ground arith

one_row : (size k r : ℕ) → k < r → size + (r - suc k) * size ≡ (r - k) * size
one_row size k r h =
    let cut : r - k ≡ suc (r - suc k) = omega arith in
    sym (ap (λ j. j * size) cut ∙ mul-suc (r - suc k) size)

no_row : (size k r : ℕ) → r ≤ k → 0 + (r - suc k) * size ≡ (r - k) * size
no_row size k r h =
    let a : r - suc k ≡ 0 = omega arith in
    let b : r - k ≡ 0 = omega arith in
    let c : 0 + 0 * size ≡ 0 * size = omega arith in
    ap (λ j. 0 + j * size) a ∙ c ∙ sym (ap (λ j. j * size) b)

module _ (bytes : List ℕ) (height base_y : ℤ) where
  pub memory_row-nil : (y : ℤ) (i : ℕ) → memory_row bytes height base_y y [] i ≡ ([], i)
  unfolding memory_row
  memory_row-nil y i = refl

  pub memory_row-cons_rom :
      (y x : ℤ) (xs : List ℤ) (i : ℕ)
      → ltb_ℤ y height ≡ true
      → memory_row bytes height base_y y (x ∷ xs) i ≡ (
        rom x (base_y +ℤ y) (rom_code (payload_at bytes i))
            ∷ (memory_row bytes height base_y y xs (next_at bytes i)).0,
        (memory_row bytes height base_y y xs (next_at bytes i)).1,
      )
  unfolding memory_row
  memory_row-cons_rom y x xs i h = ground (arith, h)

  pub memory_row-cons_ram :
      (y x : ℤ) (xs : List ℤ) (i : ℕ)
      → ltb_ℤ y height ≡ false
      → memory_row bytes height base_y y (x ∷ xs) i ≡ (
        ram x (base_y +ℤ y) ∷ (memory_row bytes height base_y y xs i).0,
        (memory_row bytes height base_y y xs i).1,
      )
  unfolding memory_row
  memory_row-cons_ram y x xs i h = ground (arith, h)

  memory_row-rom :
      (y : ℤ) (xs : List ℤ) (i : ℕ)
      → ltb_ℤ y height ≡ true
      → Writes bytes i (length xs * rom_bytes) (memory_row bytes height base_y y xs i)
  memory_row-rom y [] i h =
      subst (λ r. Writes bytes i (0 * rom_bytes) r) (sym (memory_row-nil y i))
        (Writes-none bytes i (0 * rom_bytes) (omega arith))
  memory_row-rom y (x ∷ xs) i h =
      let cell = rom x (base_y +ℤ y) (rom_code (payload_at bytes i)) in
      let first : Writes bytes i rom_bytes (cell ∷ [], next_at bytes i) =
        (append-nil (stored cell) ∙ stored-payload bytes i x (base_y +ℤ y), drop-next_at bytes i) in
      let rest = memory_row bytes height base_y y xs (next_at bytes i) in
      let both =
        Writes-append bytes i rom_bytes (length xs * rom_bytes) (next_at bytes i) rest.1 (cell ∷ [])
          rest.0 first (memory_row-rom y xs (next_at bytes i) h) in
      let sized : Writes bytes i (suc (length xs) * rom_bytes) (cell ∷ rest.0, rest.1) =
        Writes-resize bytes i (rom_bytes + length xs * rom_bytes) (suc (length xs) * rom_bytes)
          (cell ∷ rest.0, rest.1) (omega arith) both in
      subst (λ r. Writes bytes i (suc (length xs) * rom_bytes) r)
        (sym (memory_row-cons_rom y x xs i h)) sized

  memory_row-ram :
      (y : ℤ) (xs : List ℤ) (i : ℕ)
      → ltb_ℤ y height ≡ false
      → Writes bytes i 0 (memory_row bytes height base_y y xs i)
  memory_row-ram y [] i h = subst (λ r. Writes bytes i 0 r) (sym (memory_row-nil y i)) (refl, refl)
  memory_row-ram y (x ∷ xs) i h =
      subst (λ r. Writes bytes i 0 r) (sym (memory_row-cons_ram y x xs i h))
        (memory_row-ram y xs i h)

  is_below : (k r : ℕ) → height ≡ pos r → ltb_ℤ (pos k) height ≡ true → k < r
  is_below k r e h = below_pos (ap (ltb_ℤ (pos k)) (sym e) ∙ h)
    where
      below_pos : ltb_ℤ (pos k) (pos r) ≡ true → k < r
      below_pos t = ground arith

  is_above : (k r : ℕ) → height ≡ pos r → ltb_ℤ (pos k) height ≡ false → r ≤ k
  is_above k r e h = above_pos (ap (ltb_ℤ (pos k)) (sym e) ∙ h)
    where
      above_pos : ltb_ℤ (pos k) (pos r) ≡ false → r ≤ k
      above_pos t = ground arith

  pub memory_rows-Writes :
      (xs : List ℤ) (n k r i : ℕ)
      → height ≡ pos r
      → r ≤ k + n
      → Writes bytes i
          ((r - k) * (length xs * rom_bytes))
          (memory_rows bytes height base_y xs (steps n (pos k) (pos 1)) i)
  unfolding memory_rows steps
  memory_rows-Writes xs zero k r i e h =
      Writes-none bytes i ((r - k) * (length xs * rom_bytes)) (no_rows (omega arith))
    where
      no_rows : r - k ≡ 0 → (r - k) * (length xs * rom_bytes) ≡ 0
      no_rows z = rw (z) omega arith
  memory_rows-Writes xs (suc n) k r i e h =
      let size = length xs * rom_bytes in
      let row = memory_row bytes height base_y (pos k) xs i in
      let rest = memory_rows bytes height base_y xs (steps n (pos k +ℤ pos 1) (pos 1)) row.1 in
      let below : Writes bytes row.1 ((r - suc k) * size) rest =
        subst
          (λ y.
            Writes bytes row.1 ((r - suc k) * size)
              (memory_rows bytes height base_y xs (steps n y (pos 1)) row.1))
          (sym (next_row k)) (memory_rows-Writes xs n (suc k) r row.1 e (omega arith)) in
      elim (Bool-cases (ltb_ℤ (pos k) height)) [
        | inl t ↦
            Writes-resize bytes i (size + (r - suc k) * size) ((r - k) * size)
              (row.0 ++ rest.0, rest.1) (one_row size k r (is_below k r e t))
              (Writes-append bytes i size ((r - suc k) * size) row.1 rest.1 row.0 rest.0
                (memory_row-rom (pos k) xs i t) below)
        | inr t ↦
            Writes-resize bytes i (0 + (r - suc k) * size) ((r - k) * size)
              (row.0 ++ rest.0, rest.1) (no_row size k r (is_above k r e t))
              (Writes-append bytes i 0 ((r - suc k) * size) row.1 rest.1 row.0 rest.0
                (memory_row-ram (pos k) xs i t) below)
      ]

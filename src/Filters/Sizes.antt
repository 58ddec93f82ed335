-- ===== src/Filters/Sizes.antt =====
-- python/src/mlogv32/preprocessor/filters.py: `memory_size` against the way a linker script reads a size.
use mlogv.Prelude.{
  ℕ, ◌*◌, ◌/◌, ◌%◌, ◌<◌, suc, ◌≡◌, ◌≢◌, refl, ap, ◌∙◌, Option, none, some, [], ◌∷◌, ◌++◌, Text,
  arith, if◌then◌else◌, ◌==◌, ℤ, pos, All, Bool, true, false,
}
use mlogv.PyInt.{parse_int, parse_int_auto, decimal, to_base, digit_char}
use mlogv.PyInt.RoundTrip.{parse_int-decimal, parse_int_auto-hex, digits_onto-All}
use mlogv.Filters.{memory_size, hex}
use mlogv.BuildConfig.Constants.{memory_k, memory_m}

-- the last character, and the text before it
abbrev last_or : ℕ → Text → ℕ
last_or c [] = c
last_or c (d ∷ s) = last_or d s

abbrev all_but_last : Text → Text
all_but_last [] = []
all_but_last (c ∷ []) = []
all_but_last (c ∷ d ∷ s) = c ∷ all_but_last (d ∷ s)

abbrev times : ℕ → Option ℤ → Option ℤ
times unit none = none
times unit (some (ℤ.negsuc n)) = none
times unit (some (pos n)) = some (pos (n * unit))

-- How a linker script reads a size: a suffix K or M multiplies a decimal number, and anything else
-- is an integer literal.
pub read_size : Text → Option ℤ
read_size s =
    if last_or 0 s == b'M'
    then times memory_m (parse_int (all_but_last s))
    else if last_or 0 s == b'K'
    then times memory_k (parse_int (all_but_last s))
    else parse_int_auto s

last_or-concat : (c d : ℕ) (s : Text) → last_or c (s ++ d ∷ []) ≡ d
last_or-concat c d [] = refl
last_or-concat c d (e ∷ s) = last_or-concat e d s

all_but_last-concat : (s : Text) (d : ℕ) → all_but_last (s ++ d ∷ []) ≡ s
all_but_last-concat [] d = refl
all_but_last-concat (c ∷ []) d = refl
all_but_last-concat (c ∷ e ∷ s) d = ap (◌∷◌ c) (all_but_last-concat (e ∷ s) d)

-- no hexadecimal digit is a suffix
last_or-ne :
    (c : ℕ) (s : Text)
    → All (λ d. (d ≢ b'M') × (d ≢ b'K')) (c ∷ s)
    → (last_or c s ≢ b'M') × (last_or c s ≢ b'K')
last_or-ne c [] h = h.0
last_or-ne c (d ∷ s) h = last_or-ne d s h.1

read_size-unit :
    (n : ℕ)
    → (read_size (decimal n ++ b'M' ∷ []) ≡ some (pos (n * memory_m)))
      × (read_size (decimal n ++ b'K' ∷ []) ≡ some (pos (n * memory_k)))
unfolding read_size
read_size-unit n = (
  rw (last_or-concat 0 b'M' (decimal n), all_but_last-concat (decimal n) b'M', parse_int-decimal n)
      refl,
  rw (last_or-concat 0 b'K' (decimal n), all_but_last-concat (decimal n) b'K', parse_int-decimal n)
      refl,
)

hex_digit-ne : (d : ℕ) → d < 16 → (digit_char d ≢ b'M') × (digit_char d ≢ b'K')
unfolding digit_char
hex_digit-ne d h = (λ k. ground arith, λ k. ground arith)

hex-ne : (n : ℕ) → All (λ d. (d ≢ b'M') × (d ≢ b'K')) (b'0' ∷ b'x' ∷ to_base 16 n)
unfolding to_base
hex-ne n = (
  ((λ k. omega arith), (λ k. omega arith)),
  (
    ((λ k. omega arith), (λ k. omega arith)),
    digits_onto-All (λ d. (d ≢ b'M') × (d ≢ b'K')) 16 (suc n) n [] hex_digit-ne (omega arith)
        (omega arith) tt,
  ),
)

read_size-plain :
    (s : Text) → (last_or 0 s ≢ b'M') × (last_or 0 s ≢ b'K') → read_size s ≡ parse_int_auto s
unfolding read_size
read_size-plain s h = ground (arith, h.0, h.1)

read_size-zero : (n : ℕ) → (n == 0) ≡ true → read_size (b'0' ∷ []) ≡ some (pos n)
unfolding read_size parse_int_auto
read_size-zero n h = let is_zero : 0 ≡ n = ground arith in ap (λ m. some (pos m)) is_zero

memory_size-text :
    (n : ℕ) (a b c : Bool)
    → (n == 0) ≡ a
    → (n % memory_m == 0) ≡ b
    → (n % memory_k == 0) ≡ c
    → memory_size n ≡ (
        if a
        then b'0' ∷ []
        else if b
        then decimal (n / memory_m) ++ b'M' ∷ []
        else if c
        then decimal (n / memory_k) ++ b'K' ∷ []
        else b'0' ∷ b'x' ∷ to_base 16 n)
unfolding memory_size hex
memory_size-text n a b c ha hb hc = rw (ha, hb, hc) refl

-- A size that `memory_size` writes is read back by a linker script's rules as the same number of
-- bytes, for every size.
read_size-memory_size : (n : ℕ) → read_size (memory_size n) ≡ some (pos n)
read_size-memory_size n = by_suffix (n == 0) (n % memory_m == 0) (n % memory_k == 0) refl refl refl
  where
    by_suffix :
        (a b c : Bool)
        → (n == 0) ≡ a
        → (n % memory_m == 0) ≡ b
        → (n % memory_k == 0) ≡ c
        → read_size (memory_size n) ≡ some (pos n)
    by_suffix true b c ha hb hc =
        ap read_size (memory_size-text n true b c ha hb hc) ∙ read_size-zero n ha
    by_suffix false true c ha hb hc =
        let whole : n / memory_m * memory_m ≡ n = ground arith in
        ap read_size (memory_size-text n false true c ha hb hc)
        ∙ (read_size-unit (n / memory_m)).0
        ∙ ap (λ m. some (pos m)) whole
    by_suffix false false true ha hb hc =
        let whole : n / memory_k * memory_k ≡ n = ground arith in
        ap read_size (memory_size-text n false false true ha hb hc)
        ∙ (read_size-unit (n / memory_k)).1
        ∙ ap (λ m. some (pos m)) whole
    by_suffix false false false ha hb hc =
        ap read_size (memory_size-text n false false false ha hb hc)
        ∙ read_size-plain (b'0' ∷ b'x' ∷ to_base 16 n)
            (last_or-ne b'0' (b'x' ∷ to_base 16 n) (hex-ne n))
        ∙ parse_int_auto-hex n

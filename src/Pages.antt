-- ===== src/Pages.antt =====
-- python/src/mlogv32/preprocessor/app.py: the table `VARIABLE_0_TO_PAGE_OFFSET` of `build`, which the
-- processors index by the first character of a RAM variable.
pub mod Table
use mlogv.Prelude.{
  ℕ, zero, suc, ◌+◌, ◌/◌, Bool, true, false, ◌&&◌, ◌||◌, List, [], ◌∷◌, Text, Result, ok, err,
  ◌>>=◌, if◌then◌else◌, ltb, ◌==◌,
}
use mlogv.Filters.{FilterError, ram_var}

-- `s < t` on texts
unfoldable pub text_lt : Text → Text → Bool
text_lt s [] = false
text_lt [] (b ∷ t) = true
text_lt (a ∷ s) (b ∷ t) = ltb a b || (a == b && text_lt s t)

-- `text[1]`, where the text is long enough
unfoldable pub second_char : Text → ℕ
second_char (a ∷ b ∷ s) = b
second_char _ = 0

-- one round of the loop: the digit for the character `i`
unfoldable pub page_digit : Text → Text → Text → Text → ℕ → ℕ
page_digit page_0 page_1 page_2 page_3 i =
    let var = i ∷ second_char page_0 ∷ [] in
    if ltb i 32 || text_lt var page_1
    then b'0'
    else if text_lt var page_2
    then b'1'
    else if text_lt var page_3
    then b'2'
    else b'3'

-- the loop, from `i` on for `n` rounds
pub page_digits : (ℕ → ℕ) → ℕ → ℕ → Text
page_digits digit i zero = []
page_digits digit i (suc n) = digit i ∷ page_digits digit (i + 1) n

unfoldable pub variable_0_to_page_offset : Result FilterError Text
unfolding page_digits
variable_0_to_page_offset = do
  page_0 ← ram_var 0
  page_1 ← ram_var (0x1000 / 4)
  page_2 ← ram_var (0x2000 / 4)
  page_3 ← ram_var (0x3000 / 4)
  ok (page_digits (page_digit page_0 page_1 page_2 page_3) 0 128)

-- ===== src/Pages/Table.antt =====
-- python/src/mlogv32/preprocessor/app.py: the table of pages against the names of the variables.
use mlogv.Prelude.{
  ℕ, ◌+◌, ◌/◌, ◌%◌, ◌≡◌, ◌<◌, refl, ap, sym, ◌∙◌, true, Option, none, some, [], ◌∷◌, Text, Result,
  ok, get_elem?, ◌==◌, ==_iff, arith,
}
use mlogv.RamProc.{variable_name_chars_mlogv32}
use mlogv.RamProc.Variables.{digit_char, get_variable-digits, passes, passes_each}
use mlogv.Filters.{FilterError, ram_var}
use mlogv.Pages.{variable_0_to_page_offset, page_digit, page_digits, second_char, text_lt}

-- The table, as the code computes it.
abbrev pub table : Text
table =
    page_digits
      (page_digit (digit_char 0 ∷ digit_char 0 ∷ []) (digit_char 16 ∷ digit_char 0 ∷ [])
        (digit_char 32 ∷ digit_char 0 ∷ []) (digit_char 48 ∷ digit_char 0 ∷ []))
      0 128

pub ram_var-digits :
    (n : ℕ) → n < 4096 → ram_var n ≡ ok (digit_char (n / 64) ∷ digit_char (n % 64) ∷ [])
unfolding ram_var
ram_var-digits n h = ground (arith, get_variable-digits n)

computed : variable_0_to_page_offset ≡ ok table
unfolding variable_0_to_page_offset
computed =
    rw
      (
        ram_var-digits 0 (omega arith),
        ram_var-digits 1024 (omega arith),
        ram_var-digits 2048 (omega arith),
        ram_var-digits 3072 (omega arith),
      )
      refl

abbrev or_zero : Option ℕ → ℕ
or_zero none = 0
or_zero (some c) = c

checks : passes (λ d. or_zero (get_elem? table (digit_char d)) == b'0' + d / 16) 64 ≡ true
unfolding passes page_digits page_digit second_char text_lt digit_char variable_name_chars_mlogv32
checks = refl

some_of_or_zero : (o : Option ℕ) (c : ℕ) → or_zero o ≡ c → 0 < c → o ≡ some c
some_of_or_zero none c h k = absurd (omega arith)
some_of_or_zero (some d) c h k = ap some h

-- The loop succeeds, and the table that it makes gives, at the first character of the name of a
-- variable below 4096, the digit of the page of 1024 words in which the variable lies.
pub variable_0_to_page_offset-page :
    (n a b : ℕ)
    → n < 4096
    → ram_var n ≡ ok (a ∷ b ∷ [])
    → (pages : Text) × (variable_0_to_page_offset ≡ ok pages)
      × (get_elem? pages a ≡ some (b'0' + n / 1024))
variable_0_to_page_offset-page n a b h named =
    let first : digit_char (n / 64) ≡ a = same_head (sym (ram_var-digits n h) ∙ named) in
    let at = (==_iff _ (b'0' + n / 64 / 16)).0 (
      passes_each (λ d. or_zero (get_elem? table (digit_char d)) == b'0' + d / 16) (n / 64) 64
        (omega arith) checks) in
    let page : b'0' + n / 64 / 16 ≡ b'0' + n / 1024 = omega arith in
    (
      table,
      computed,
      ap (get_elem? table) (sym first)
          ∙ some_of_or_zero (get_elem? table (digit_char (n / 64))) (b'0' + n / 1024) (at ∙ page)
              (omega arith),
    )
  where
    same_head :
        {x y x' y' : ℕ}
        → ◌≡◌ {A = Result FilterError Text} (ok (x ∷ y ∷ [])) (ok (x' ∷ y' ∷ []))
        → x ≡ x'
    same_head e = cc

-- ===== src/PyInt/RoundTrip.antt =====
-- Printing a number and reading it.
use native.Mathlib.Nat.{zero-mul, zero-add, div-lt_self, div-add-mod'}
use mlogv.Prelude.{
  ℕ, zero, suc, ◌+◌, ◌*◌, ◌/◌, ◌%◌, ◌≤◌, ◌<◌, Bool, true, false, some, [], ◌∷◌, ◌≡◌, ◌≢◌, refl, ap,
  ◌∙◌, arith, Text, All, ◌⊎◌, inl, inr, ltb, ltb→lt, if◌then◌else◌, pos, Bool-cases,
}
use mlogv.PyInt.{
  is_space, strip_left, strip_right, digit_value, scan, after_prefix, unsigned, unsigned_auto,
  signed, positive, parse_int, parse_int_auto, parse_int_hex, signed_hex, unsigned_hex, digit_char,
  digits_onto, to_base, decimal,
}

-- no space, no sign and no underscore: a digit or a letter
abbrev pub IsPlain : Text → Type 0
IsPlain = All (λ c. (b'0' ≤ c) × (c ≢ b'_'))

strip_left-IsPlain : (s : Text) → IsPlain s → strip_left s ≡ s
unfolding strip_left is_space
strip_left-IsPlain [] h = refl
strip_left-IsPlain (c ∷ s) (hc, hs) = ground arith

strip_right-IsPlain : (s : Text) → IsPlain s → strip_right s ≡ s
unfolding strip_right is_space
strip_right-IsPlain [] h = refl
strip_right-IsPlain (c ∷ s) (hc, hs) = rw (strip_right-IsPlain s hs) (tail s hc)
  where
    tail :
        (t : Text)
        → (b'0' ≤ c) × (c ≢ b'_')
        → elim t [ [] ↦ if is_space c then [] else c ∷ [] | d ∷ u ↦ c ∷ d ∷ u ] ≡ c ∷ t
    tail [] p = ground arith
    tail (d ∷ u) p = refl

digit_value-digit_char :
    (base d : ℕ) → d < base → base ≤ 36 → digit_value base (digit_char d) ≡ some d
unfolding digit_value digit_char
digit_value-digit_char base d h k = ground arith

digit_char_range :
    (d : ℕ)
    → d < 36
    → (b'0' ≤ digit_char d) × (digit_char d ≤ 122) × ((digit_char d ≤ 57) ⊎ (97 ≤ digit_char d))
unfolding digit_char
digit_char_range d h = ground arith

pub digit_char_plain : (d : ℕ) → d < 36 → (b'0' ≤ digit_char d) × (digit_char d ≢ b'_')
unfolding digit_char
digit_char_plain d h = ground arith

-- one printed digit is read as that digit
pub scan-digit_char :
    (base acc d : ℕ) (need : Bool) (s : Text)
    → d < base
    → base ≤ 36
    → scan base acc need (digit_char d ∷ s) ≡ scan base (acc * base + d) false s
unfolding scan
scan-digit_char base acc d need s h k =
    ground (arith, digit_value-digit_char base d, digit_char_range d)

-- the quotient and the remainder that one round splits off
div_facts :
    (base n : ℕ)
    → 2 ≤ base
    → ltb n base ≡ false
    → (n / base < n) × (n % base < base) × ((n / base) * base + n % base ≡ n)
div_facts base n lo big = (div-lt_self (ground arith) lo, grind arith, div-add-mod' n base)

-- reading what is printed of `n` in front of `out` leaves `n` and `out`
pub scan-digits_onto :
    (base fuel n : ℕ) (out : Text)
    → n < fuel
    → 2 ≤ base
    → base ≤ 36
    → scan base 0 true (digits_onto base fuel n out) ≡ scan base n false out
unfolding digits_onto
scan-digits_onto base zero n out h lo hi = elim h [ ]
scan-digits_onto base (suc fuel) n out h lo hi = elim (Bool-cases (ltb n base)) [
  | inl small ↦
      rw (small, digits_onto)
        (rw (scan-digit_char base 0 n true out (ltb→lt n base small) hi) (rw (zero-mul, zero-add)))
  | inr big ↦
      let (falls, fits, whole) = div_facts base n lo big in
      rw (big, digits_onto)
        (scan-digits_onto base fuel (n / base) (digit_char (n % base) ∷ out) (omega arith) lo hi
          ∙ scan-digit_char base (n / base) (n % base) false out fits hi
          ∙ ap (λ m. scan base m false out) whole)
]

-- A property of every digit of the base holds of every printed character.
pub digits_onto-All :
    (P : ℕ → Type 0) (base fuel n : ℕ) (out : Text)
    → ((d : ℕ) → d < base → P (digit_char d))
    → n < fuel
    → 2 ≤ base
    → All P out
    → All P (digits_onto base fuel n out)
unfolding digits_onto
digits_onto-All P base zero n out each h lo rest = elim h [ ]
digits_onto-All P base (suc fuel) n out each h lo rest = elim (Bool-cases (ltb n base)) [
  | inl small ↦ rw (small, digits_onto) (each n (ltb→lt n base small), rest)
  | inr big ↦
      let (falls, fits, whole) = div_facts base n lo big in
      rw (big, digits_onto)
        (digits_onto-All P base fuel (n / base) _ each (omega arith) lo
          (each (n % base) fits, rest))
]

pub decimal-All :
    (P : ℕ → Type 0) (n : ℕ) → ((d : ℕ) → d < 10 → P (digit_char d)) → All P (decimal n)
unfolding decimal to_base
decimal-All P n each = digits_onto-All P 10 (suc n) n [] each (omega arith) (omega arith) tt

module _ (base n : ℕ) (lo : 2 ≤ base) (hi : base ≤ 36) where
  pub to_base-IsPlain : IsPlain (to_base base n)
  unfolding to_base
  to_base-IsPlain =
      digits_onto-All (λ c. (b'0' ≤ c) × (c ≢ b'_')) base (suc n) n []
        (λ d h. digit_char_plain d (omega arith)) (omega arith) lo tt

  pub scan-to_base : scan base 0 true (to_base base n) ≡ some n
  unfolding to_base scan
  scan-to_base = scan-digits_onto base (suc n) n [] (omega arith) lo hi

signed-IsPlain :
    (auto : Bool) (s : Text) (n : ℕ)
    → IsPlain s
    → unsigned auto s ≡ some n
    → s ≢ []
    → signed auto s ≡ some (pos n)
unfolding signed positive
signed-IsPlain auto [] n h e k = absurd (k refl)
signed-IsPlain auto (c ∷ s) n (hc, hs) e k = ground arith

ne-nil_of_scan : (base acc n : ℕ) (s : Text) → scan base acc true s ≡ some n → s ≢ []
unfolding scan
ne-nil_of_scan base acc n [] h e = cc
ne-nil_of_scan base acc n (c ∷ s) h e = cc

-- `int(str(n))` is `n`.
pub parse_int-decimal : (n : ℕ) → parse_int (decimal n) ≡ some (pos n)
unfolding parse_int decimal
parse_int-decimal n =
    let plain : IsPlain (to_base 10 n) = to_base-IsPlain 10 n (omega arith) (omega arith) in
    let read : scan 10 0 true (to_base 10 n) ≡ some n =
      scan-to_base 10 n (omega arith) (omega arith) in
    rw (strip_left-IsPlain _ plain, strip_right-IsPlain _ plain)
      (signed-IsPlain false _ n plain (unfold unsigned in read) (ne-nil_of_scan 10 0 n _ read))

after_prefix-IsPlain :
    (base n : ℕ) (s : Text) → IsPlain s → scan base 0 true s ≡ some n → after_prefix base s ≡ some n
unfolding after_prefix
after_prefix-IsPlain base n [] h e = unfold scan in cc
after_prefix-IsPlain base n (c ∷ s) (hc, hs) e = ground arith

-- `int(hex(n), base=0)` is `n`.
pub parse_int_auto-hex : (n : ℕ) → parse_int_auto (b'0' ∷ b'x' ∷ to_base 16 n) ≡ some (pos n)
unfolding parse_int_auto
parse_int_auto-hex n =
    let plain : IsPlain (to_base 16 n) = to_base-IsPlain 16 n (omega arith) (omega arith) in
    let read : scan 16 0 true (to_base 16 n) ≡ some n =
      scan-to_base 16 n (omega arith) (omega arith) in
    let text : Text = b'0' ∷ b'x' ∷ to_base 16 n in
    let plain' : IsPlain text = (omega arith, (omega arith, plain)) in
    rw (strip_left-IsPlain text plain', strip_right-IsPlain text plain')
      (unfold signed unsigned unsigned_auto positive in rw (after_prefix-IsPlain 16 n _ plain read))

-- the first printed digit of a positive number is not zero
abbrev BeginsPositive : Text → Type 0
BeginsPositive [] = ⊥
BeginsPositive (c ∷ s) = c ≢ b'0'

digit_char_pos : (d : ℕ) → 1 ≤ d → digit_char d ≢ b'0'
unfolding digit_char
digit_char_pos d h = ground arith

digits_onto-BeginsPositive :
    (fuel n : ℕ) (out : Text) → n < fuel → 1 ≤ n → BeginsPositive (digits_onto 10 fuel n out)
unfolding digits_onto
digits_onto-BeginsPositive zero n out h p = elim h [ ]
digits_onto-BeginsPositive (suc fuel) n out h p = elim (Bool-cases (ltb n 10)) [
  | inl small ↦ rw (small, digits_onto) (digit_char_pos n p)
  | inr big ↦
      rw (big, digits_onto)
        (digits_onto-BeginsPositive fuel (n / 10) _ (ground arith) (ground arith))
]

unsigned_auto-BeginsPositive :
    (s : Text) (n : ℕ) → BeginsPositive s → scan 10 0 true s ≡ some n → unsigned_auto s ≡ some n
unfolding unsigned_auto
unsigned_auto-BeginsPositive [] n h e = elim h [ ]
unsigned_auto-BeginsPositive (c ∷ []) n h e = e
unsigned_auto-BeginsPositive (c ∷ d ∷ s) n h e = ground arith

-- `int(str(n), base=0)` is `n`.
pub parse_int_auto-decimal : (n : ℕ) → parse_int_auto (decimal n) ≡ some (pos n)
unfolding parse_int_auto decimal
parse_int_auto-decimal zero = unfold to_base in refl
parse_int_auto-decimal (suc n) =
    let plain : IsPlain (to_base 10 (suc n)) =
      to_base-IsPlain 10 (suc n) (omega arith) (omega arith) in
    let read : scan 10 0 true (to_base 10 (suc n)) ≡ some (suc n) =
      scan-to_base 10 (suc n) (omega arith) (omega arith) in
    let begins : BeginsPositive (to_base 10 (suc n)) =
      unfold to_base in
      digits_onto-BeginsPositive (suc (suc n)) (suc n) [] (omega arith) (omega arith) in
    let auto : unsigned true (to_base 10 (suc n)) ≡ some (suc n) =
      unfold unsigned in unsigned_auto-BeginsPositive (to_base 10 (suc n)) (suc n) begins read in
    rw (strip_left-IsPlain _ plain, strip_right-IsPlain _ plain)
      (signed-IsPlain true _ (suc n) plain auto (ne-nil_of_scan 10 0 (suc n) _ read))

signed_hex-digits :
    (a b : ℕ) (s : Text)
    → a < 16
    → b < 16
    → signed_hex (digit_char a ∷ digit_char b ∷ s)
      ≡ positive (scan 16 0 true (digit_char a ∷ digit_char b ∷ s))
unfolding signed_hex unsigned_hex digit_char
signed_hex-digits a b s ha hb = ground arith

-- two or more hexadecimal digits are read as the number that `scan` gives
pub parse_int_hex-digits :
    (a b n : ℕ) (s : Text)
    → a < 16
    → b < 16
    → IsPlain s
    → scan 16 0 true (digit_char a ∷ digit_char b ∷ s) ≡ some n
    → parse_int_hex (digit_char a ∷ digit_char b ∷ s) ≡ some (pos n)
unfolding parse_int_hex positive
parse_int_hex-digits a b n s ha hb h e =
    let text = digit_char a ∷ digit_char b ∷ s in
    let plain : IsPlain text =
      (digit_char_plain a (omega arith), (digit_char_plain b (omega arith), h)) in
    ap (λ t. signed_hex (strip_right t)) (strip_left-IsPlain text plain)
    ∙ ap signed_hex (strip_right-IsPlain text plain)
    ∙ signed_hex-digits a b s ha hb
    ∙ ap positive e

-- ===== src/PyInt.antt =====
-- Python's `int(text)`, `int(text, base=0)`, `int(text, base=16)`, `str(n)` and the digits of `hex(n)` and `bin(n)`, as far
-- as the tools use them. Only ASCII spaces and digits are modelled.
pub mod RoundTrip
use mlogv.Prelude.{
  ℕ, zero, suc, ◌+◌, ◌-◌, ◌*◌, ◌/◌, ◌%◌, Bool, true, false, not, ◌&&◌, ◌||◌, Option, none, some,
  List, [], ◌∷◌, ◌++◌, Text, ltb, leb, ◌==◌, if◌then◌else◌, ℤ, pos, negsuc, sub_ℕ,
}

-- `str.isspace` of an ASCII character
unfoldable pub is_space : ℕ → Bool
is_space c = (leb 9 c && leb c 13) || (leb 28 c && leb c 32)

unfoldable pub strip_left : Text → Text
strip_left [] = []
strip_left (c ∷ s) = let rest = strip_left s in if is_space c then rest else c ∷ s

-- drops the spaces at the end
unfoldable pub strip_right : Text → Text
strip_right [] = []
strip_right (c ∷ s) = elim (strip_right s) [
  | [] ↦ if is_space c then [] else c ∷ []
  | d ∷ t ↦ c ∷ d ∷ t
]

pub digit_value : ℕ → ℕ → Option ℕ
digit_value base c =
    let d =
      if leb b'0' c && leb c b'9'
      then c - b'0'
      else if leb b'a' c && leb c b'z'
      then c - 87
      else if leb b'A' c && leb c b'Z'
      then c - 55
      else 36 in
    if ltb d base then some d else none

-- The digits behind `acc`; single underscores may stand between digits. The flag says that a
-- digit has to follow.
unfoldable pub scan : ℕ → ℕ → Bool → Text → Option ℕ
scan base acc need [] = if need then none else some acc
scan base acc need (c ∷ s) = elim (c == b'_') [
  | true ↦ elim need [ true ↦ none | false ↦ scan base acc true s ]
  | false ↦ elim (digit_value base c) [ none ↦ none | some d ↦ scan base (acc * base + d) false s ]
]

-- behind `0x`, `0o` or `0b` one underscore may stand
after_prefix : ℕ → Text → Option ℕ
after_prefix base [] = none
after_prefix base (c ∷ s) = if c == b'_' then scan base 0 true s else scan base 0 true (c ∷ s)

-- a decimal literal of `int(text, base=0)` that begins with a zero has to be zero
zero_only : Option ℕ → Option ℕ
zero_only none = none
zero_only (some n) = if n == 0 then some 0 else none

unsigned_auto : Text → Option ℕ
unsigned_auto [] = none
unsigned_auto (c ∷ []) = scan 10 0 true (c ∷ [])
unsigned_auto (c ∷ d ∷ s) =
    if not (c == b'0')
    then scan 10 0 true (c ∷ d ∷ s)
    else if d == b'x' || d == b'X'
    then after_prefix 16 s
    else if d == b'o' || d == b'O'
    then after_prefix 8 s
    else if d == b'b' || d == b'B'
    then after_prefix 2 s
    else zero_only (scan 10 0 true (c ∷ d ∷ s))

-- base 0 reads the base from the prefix, base 10 is decimal
unsigned : Bool → Text → Option ℕ
unsigned auto s = if auto then unsigned_auto s else scan 10 0 true s

negated : Option ℕ → Option ℤ
negated none = none
negated (some n) = some (sub_ℕ 0 n)

positive : Option ℕ → Option ℤ
positive none = none
positive (some n) = some (pos n)

signed : Bool → Text → Option ℤ
signed auto [] = none
signed auto (c ∷ s) =
    if c == b'-'
    then negated (unsigned auto s)
    else if c == b'+'
    then positive (unsigned auto s)
    else positive (unsigned auto (c ∷ s))

-- `int(text)`; `none` is a ValueError
unfoldable pub parse_int : Text → Option ℤ
unfolding is_space strip_left strip_right digit_value scan after_prefix zero_only unsigned_auto
    unsigned negated positive signed
parse_int s = signed false (strip_right (strip_left s))

-- `int(text, base=0)`
unfoldable pub parse_int_auto : Text → Option ℤ
unfolding is_space strip_left strip_right digit_value scan after_prefix zero_only unsigned_auto
    unsigned negated positive signed
parse_int_auto s = signed true (strip_right (strip_left s))

unsigned_hex : Text → Option ℕ
unsigned_hex [] = none
unsigned_hex (c ∷ []) = scan 16 0 true (c ∷ [])
unsigned_hex (c ∷ d ∷ s) =
    if c == b'0' && (d == b'x' || d == b'X') then after_prefix 16 s else scan 16 0 true (c ∷ d ∷ s)

signed_hex : Text → Option ℤ
signed_hex [] = none
signed_hex (c ∷ s) =
    if c == b'-'
    then negated (unsigned_hex s)
    else if c == b'+'
    then positive (unsigned_hex s)
    else positive (unsigned_hex (c ∷ s))

-- `int(text, base=16)`
unfoldable pub parse_int_hex : Text → Option ℤ
unfolding is_space strip_left strip_right digit_value scan after_prefix negated positive
    unsigned_hex signed_hex
parse_int_hex s = signed_hex (strip_right (strip_left s))

unfoldable pub digit_char : ℕ → ℕ
digit_char d = if ltb d 10 then b'0' + d else 87 + d

pub digits_onto : ℕ → ℕ → ℕ → Text → Text
digits_onto base zero n out = out
digits_onto base (suc fuel) n out = elim (ltb n base) [
  | true ↦ digit_char n ∷ out
  | false ↦ digits_onto base fuel (n / base) (digit_char (n % base) ∷ out)
]

-- the digits of `n`, the fuel is one more than `n`
unfoldable pub to_base : ℕ → ℕ → Text
unfolding digit_char digits_onto
to_base base n = digits_onto base (suc n) n []

-- `str(n)`
unfoldable pub decimal : ℕ → Text
unfolding to_base
decimal n = to_base 10 n

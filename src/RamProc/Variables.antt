-- ===== src/RamProc/Variables.antt =====
-- python/src/mlogv32/scripts/ram_proc.py: the names of the variables and their indices.
use mlogv.Prelude.{
  ℕ, zero, suc, ◌+◌, ◌*◌, ◌/◌, ◌%◌, ◌≤◌, ◌<◌, ◌≡◌, refl, ap, Bool, true, ◌&&◌, none, some, List, [],
  ◌∷◌, Text, arith, length, get_elem?, get_elem?-append_left, get_elem?-append_right, length-append,
  ◌==◌, ==_iff, Bool-cases, inl, inr, ltb→lt, ok, err, if◌then◌else◌, ltb,
}
use mlogv.RamProc.{
  variable_name_chars_mlogv32, mlogv32, names_behind, two_char_names, iter_variables, get_variable,
  assertion_error,
}

length-names_behind : (c : ℕ) (cs : List ℕ) → length (names_behind c cs) ≡ length cs
unfolding names_behind
length-names_behind c [] = refl
length-names_behind c (d ∷ cs) = ap suc (length-names_behind c cs)

get_elem?-names_behind :
    (c : ℕ) (cs : List ℕ) (j : ℕ) {d : ℕ}
    → get_elem? cs j ≡ some d
    → get_elem? (names_behind c cs) j ≡ some (c ∷ d ∷ [])
unfolding names_behind
get_elem?-names_behind c [] j h = cc
get_elem?-names_behind c (e ∷ cs) zero h = ground arith
get_elem?-names_behind c (e ∷ cs) (suc j) h = get_elem?-names_behind c cs j h

lt_length {ℓ} : {A : Type ℓ} (xs : List A) (i : ℕ) {a : A} → get_elem? xs i ≡ some a → i < length xs
lt_length [] i h = cc
lt_length (x ∷ xs) zero h = omega arith
lt_length (x ∷ xs) (suc i) h = omega (arith, lt_length xs i h)

-- The nested loops yield the name of `i` and `j` in round `i * len(seconds) + j`.
get_elem?-two_char_names :
    (firsts seconds : List ℕ) (i j : ℕ) {c d : ℕ}
    → get_elem? firsts i ≡ some c
    → get_elem? seconds j ≡ some d
    → get_elem? (two_char_names firsts seconds) (i * length seconds + j) ≡ some (c ∷ d ∷ [])
unfolding two_char_names
get_elem?-two_char_names [] seconds i j h k = cc
get_elem?-two_char_names (c ∷ cs) seconds zero j h k =
    let e : 0 * length seconds + j ≡ j = omega arith in
    let b : j < length (names_behind c seconds) =
      rw (length-names_behind c seconds) (lt_length seconds j k) in
    rw (e, get_elem?-append_left (names_behind c seconds) (two_char_names cs seconds) j b)
      (ground (arith, get_elem?-names_behind c seconds j k))
get_elem?-two_char_names (c ∷ cs) seconds (suc i) j h k =
    let e : suc i * length seconds + j
        ≡ length (names_behind c seconds) + (i * length seconds + j) =
      omega (arith, length-names_behind c seconds) in
    rw (e, get_elem?-append_right (names_behind c seconds) (two_char_names cs seconds))
      (get_elem?-two_char_names cs seconds i j h k)

length-two_char_names :
    (firsts seconds : List ℕ)
    → length (two_char_names firsts seconds) ≡ length firsts * length seconds
unfolding two_char_names
length-two_char_names [] seconds = omega arith
length-two_char_names (c ∷ cs) seconds = omega (
  arith,
  length-names_behind c seconds,
  length-two_char_names cs seconds,
  length-append (names_behind c seconds) (two_char_names cs seconds),
)

none_of_length-le {ℓ} : {A : Type ℓ} (xs : List A) (i : ℕ) → length xs ≤ i → get_elem? xs i ≡ none
none_of_length-le [] i h = refl
none_of_length-le (x ∷ xs) zero h = absurd (omega arith)
none_of_length-le (x ∷ xs) (suc i) h = none_of_length-le xs i (omega arith)

-- a property of all numbers below a bound, by evaluation
unfoldable pub passes : (ℕ → Bool) → ℕ → Bool
passes test zero = true
passes test (suc size) = passes test size && test size

pub passes_each :
    (test : ℕ → Bool) (d size : ℕ) → d < size → passes test size ≡ true → test d ≡ true
unfolding passes
passes_each test d zero below h = ground arith
passes_each test d (suc size) below h = ground (arith, passes_each test d size)

-- the character of a base-64 digit, and the digit of a character
abbrev char_of : List ℕ → ℕ → ℕ
char_of [] d = 0
char_of (c ∷ cs) zero = c
char_of (c ∷ cs) (suc d) = char_of cs d

abbrev position : List ℕ → ℕ → ℕ
position [] c = 0
position (x ∷ cs) c = let rest = position cs c in if c == x then 0 else suc rest

unfoldable pub digit_char : ℕ → ℕ
digit_char d = char_of variable_name_chars_mlogv32 d

pub char_digit : ℕ → ℕ
char_digit c = position variable_name_chars_mlogv32 c

-- the index that a two-character name stands for
pub name_index : Text → ℕ
name_index (c ∷ d ∷ []) = char_digit c * 64 + char_digit d
name_index _ = 0

length-chars : length variable_name_chars_mlogv32 ≡ 64
unfolding variable_name_chars_mlogv32
length-chars = refl

some-char_of : (xs : List ℕ) (d : ℕ) → d < length xs → get_elem? xs d ≡ some (char_of xs d)
some-char_of [] d h = elim h [ ]
some-char_of (x ∷ xs) zero h = refl
some-char_of (x ∷ xs) (suc d) h = some-char_of xs d (omega arith)

get_elem?-chars : (d : ℕ) → d < 64 → get_elem? variable_name_chars_mlogv32 d ≡ some (digit_char d)
unfolding digit_char
get_elem?-chars d h = some-char_of variable_name_chars_mlogv32 d (rw length-chars h)

digit_table : passes (λ d. char_digit (digit_char d) == d) 64 ≡ true
unfolding passes char_digit digit_char variable_name_chars_mlogv32
digit_table = refl

char_digit-digit_char : (d : ℕ) → d < 64 → char_digit (digit_char d) ≡ d
char_digit-digit_char d h =
    (==_iff _ d).0 (passes_each (λ k. char_digit (digit_char k) == k) d 64 h digit_table)

iter_variables-below :
    (n : ℕ)
    → n < 4096
    → iter_variables mlogv32 n ≡ some (digit_char (n / 64) ∷ digit_char (n % 64) ∷ [])
unfolding iter_variables
iter_variables-below n h =
    let e : n / 64 * 64 + n % 64 ≡ n = omega arith in
    let at =
      get_elem?-two_char_names variable_name_chars_mlogv32 variable_name_chars_mlogv32 (n / 64)
        (n % 64) (get_elem?-chars (n / 64) (omega arith))
        (get_elem?-chars (n % 64) (omega arith)) in
    rw e at (rw length-chars at at)

iter_variables-above : (n : ℕ) → 4096 ≤ n → iter_variables mlogv32 n ≡ none
unfolding iter_variables
iter_variables-above n h =
    none_of_length-le (two_char_names variable_name_chars_mlogv32 variable_name_chars_mlogv32) n
      (rw (length-two_char_names, length-chars) h)

-- Below 4096 the name of a variable is made of the two base-64 digits of its index, each written
-- as the character at its place in the list of characters; from 4096 on there is no name.
pub get_variable-digits :
    (n : ℕ)
    → get_variable mlogv32 n ≡ (
        if ltb n 4096
        then ok (digit_char (n / 64) ∷ digit_char (n % 64) ∷ [])
        else err assertion_error)
unfolding get_variable
get_variable-digits n = elim (Bool-cases (ltb n 4096)) [
  | inl b ↦ ground (arith, iter_variables-below n (ltb→lt n 4096 b))
  | inr b ↦ ground (arith, iter_variables-above n (ground arith))
]

-- In the format `mlogv32`, the index of a variable can be read back from its name, so different indices
-- have different names.
pub name_index-get_variable : (n : ℕ) (v : Text) → get_variable mlogv32 n ≡ ok v → name_index v ≡ n
unfolding name_index
name_index-get_variable n v h = elim (Bool-cases (ltb n 4096)) [
  | inl b ↦
      let below : n < 4096 = ltb→lt n 4096 b in
      let e : v ≡ digit_char (n / 64) ∷ digit_char (n % 64) ∷ [] =
        ground (arith, get_variable-digits n) in
      rw
        (
          e,
          char_digit-digit_char (n / 64) (omega arith),
          char_digit-digit_char (n % 64) (omega arith),
        )
        (omega arith)
  | inr b ↦ absurd (ground (arith, get_variable-digits n))
]

-- ===== src/BuildConfig.antt =====
-- python/src/mlogv32/preprocessor/models.py: the validators of the build configuration. What
-- pydantic checks of a field by itself (`ge=1`) is a hypothesis of the theorems that need it.
pub mod Constants
pub mod Layout
pub mod Csrs
use mlogv.Prelude.{
  ℕ, ◌+◌, ◌-◌, ◌*◌, ◌/◌, ◌%◌, ◌^◌, Bool, true, false, not, ◌&&◌, ◌||◌, Option, none, some, List, [],
  ◌∷◌, ◌++◌, Text, codes, text_eq, Result, ok, err, ◌>>=◌, if◌then◌else◌, ltb, ◌==◌, ℤ, pos, negsuc,
  ltb_ℤ, ◌-ℤ◌,
}
use mlogv.BuildConfig.Constants.{csrs}

pub data ConfigError : Type 0 where
  address_before : ℕ → ℤ → ℕ → ConfigError
  align_with_up_to : ConfigError
  up_to_before : ℕ → ℕ → ℤ → ConfigError
  invalid_csr_name read_only_csr write_missing invalid_csr_entry : Text → ConfigError

pub record Instruction : Type 0 where
  pub label : Text
  pub count : ℕ
  pub up_to : Option ℤ
  pub align : ℕ
  pub address : Option ℤ

-- `math.ceil(a / b)`, without the rounding of floats, which is exact in the range of addresses
unfoldable pub ceil_div : ℕ → ℕ → ℕ
ceil_div a b = (a + b - 1) / b

abbrev pub to_ℕ : ℤ → ℕ
to_ℕ (pos n) = n
to_ℕ (negsuc n) = 0

-- The address of instruction `i`; the previous one ends before `address`. An explicit address that
-- passes the test is not negative.
unfoldable pub place : ℕ → ℕ → Instruction → Result ConfigError ℕ
place i address v = elim v.address [
  | none ↦ ok (ceil_div address v.align * v.align)
  | some a ↦ if ltb_ℤ a (pos address) then err (address_before i a address) else ok (to_ℕ a)
]

-- its count; `align != 1` is the assertion, which comes first
unfoldable pub count_at : ℕ → ℕ → Instruction → Result ConfigError ℕ
count_at i address v = elim v.up_to [
  | none ↦ ok v.count
  | some u ↦
      if not (v.align == 1)
      then err align_with_up_to
      else if ltb_ℤ u (pos address)
      then err (up_to_before i address u)
      else ok (to_ℕ u - address + 1)
]

unfoldable pub resolve_from : ℕ → ℕ → List Instruction → Result ConfigError (List Instruction)
resolve_from i address [] = ok []
resolve_from i address (v ∷ instructions) = do
  a ← place i address v
  c ← count_at i a v
  rest ← resolve_from (i + 1) (a + c * v.align) instructions
  ok (record v { address = some (pos a); count = c } ∷ rest)

-- `_resolve_instructions`
unfoldable pub resolve_instructions : List Instruction → Result ConfigError (List Instruction)
unfolding resolve_from
resolve_instructions instructions = resolve_from 0 0 instructions

-- the arguments of `args` are given as their texts, `str(arg)`
pub record Csr : Type 0 where
  pub read : Text
  pub write : Option Text
  pub mask : ℕ
  pub args : Option (List Text)

-- `name.format(arg)`, for names whose only replacement field is `{}`: a brace may be doubled, a
-- second field has no argument, and a brace that stands alone is an error.
unfoldable pub format : Text → Option Text → Option Text
format [] arg = some []
format (c ∷ []) arg = if c == b'{' || c == b'}' then none else some (c ∷ [])
format (c ∷ d ∷ s) arg = elim (c == b'{' && d == b'}') [
  | true ↦ elim arg [
    | none ↦ none
    | some text ↦ elim (format s none) [ none ↦ none | some rest ↦ some (text ++ rest) ]
  ]
  | false ↦ elim ((c == b'{' && d == b'{') || (c == b'}' && d == b'}')) [
    | true ↦ elim (format s arg) [ none ↦ none | some rest ↦ some (c ∷ rest) ]
    | false ↦ elim (c == b'{' || c == b'}') [
      | true ↦ none
      | false ↦ elim (format (d ∷ s) arg) [ none ↦ none | some rest ↦ some (c ∷ rest) ]
    ]
  ]
]

unfoldable pub lookup {ℓ} : {A : Type ℓ} → List (Text × A) → Text → Option A
lookup [] name = none
lookup ((key, a) ∷ entries) name = if text_eq key name then some a else lookup entries name

unfoldable pub insert {ℓ} : {A : Type ℓ} → List (Text × A) → Text → A → List (Text × A)
insert [] name a = (name, a) ∷ []
insert ((key, b) ∷ entries) name a =
    if text_eq key name then (key, a) ∷ entries else (key, b) ∷ insert entries name a

-- `(address >> 10) & 0b11 == 0b11`
unfoldable pub is_readonly : ℕ → Bool
is_readonly address = address / 2 ^ 10 % 4 == 3

pub is_set : Option Text → Bool
is_set none = false
is_set (some write) = true

abbrev pub label_word : Text
label_word = codes "LABEL"

located : Text → Text → Text
located name location = if text_eq location label_word then name else location

located_write : Text → Option Text → Option Text
located_write name none = none
located_write name (some location) = some (located name location)

-- the body of the loop in `_resolve_csrs`
unfoldable pub resolve_csr : Text → Csr → Result ConfigError Csr
unfolding is_readonly is_set located located_write
resolve_csr name csr = elim (lookup csrs name) [
  | none ↦ err (invalid_csr_name name)
  | some address ↦
      if is_readonly address && is_set csr.write
      then err (read_only_csr name)
      else if not (is_readonly address) && not (is_set csr.write)
      then err (write_missing name)
      else ok (record csr { read = located name csr.read; write = located_write name csr.write })
]

unfoldable pub resolve_pair :
    List (Text × Csr) → Text → Csr → Result ConfigError (List (Text × Csr))
resolve_pair result name csr = do csr' ← resolve_csr name csr; ok (insert result name csr')

-- an entry with `args` stands for one register for each argument
unfoldable pub resolve_formatted :
    List (Text × Csr) → Text → Csr → List Text → Result ConfigError (List (Text × Csr))
resolve_formatted result name csr [] = ok result
resolve_formatted result name csr (arg ∷ args) = elim (format name (some arg)) [
  | none ↦ err (invalid_csr_entry name)
  | some text ↦ do result' ← resolve_pair result text csr; resolve_formatted result' name csr args
]

unfoldable pub resolve_entry :
    List (Text × Csr) → Text → Csr → Option (List Text) → Result ConfigError (List (Text × Csr))
resolve_entry result name csr none = resolve_pair result name csr
resolve_entry result name csr (some args) =
    resolve_formatted result name (record csr { args = none }) args

-- The loop of `_resolve_csrs` over the generator `_resolve_csr_args`, which yields a pair when the
-- one before it has been resolved.
unfoldable pub resolve_entries :
    List (Text × Csr) → List (Text × Csr) → Result ConfigError (List (Text × Csr))
resolve_entries result [] = ok result
resolve_entries result ((name, csr) ∷ entries) = do
  result' ← resolve_entry result name csr csr.args
  resolve_entries result' entries

-- `_resolve_csrs`
unfoldable pub resolve_csrs : List (Text × Csr) → Result ConfigError (List (Text × Csr))
resolve_csrs entries = resolve_entries [] entries

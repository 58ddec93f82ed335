-- ===== src/Debug.antt =====
-- python/src/mlogv32/scripts/debug.py: what the debugger writes about a status, and which lines of it
-- go to the log. The progress bar and the logger are not modelled.
pub mod Lines
pub mod Session
use mlogv.Prelude.{
  ℕ, zero, suc, ◌+◌, ◌-◌, Bool, true, false, not, ◌&&◌, ◌||◌, Option, none, some, List, [], ◌∷◌,
  ◌++◌, map, Text, text_eq, codes, join, Result, ok, err, ◌>>=◌, length, get_elem?, if◌then◌else◌,
  ◌==◌, ltb, leb, ℤ, pos, negsuc, eqb_ℤ,
}
use mlogv.PyInt.{to_base, decimal}
use mlogv.Access.{StatusResponse, AccessError}

pub data DebugError : Type 0 where
  access_error : AccessError → DebugError
  register_without_name : ℕ → DebugError

abbrev pub register_names : List Text
register_names =
    codes "zero"
    ∷ codes "ra"
    ∷ codes "sp"
    ∷ codes "gp"
    ∷ codes "tp"
    ∷ codes "t0"
    ∷ codes "t1"
    ∷ codes "t2"
    ∷ codes "s0/fp"
    ∷ codes "s1"
    ∷ codes "a0"
    ∷ codes "a1"
    ∷ codes "a2"
    ∷ codes "a3"
    ∷ codes "a4"
    ∷ codes "a5"
    ∷ codes "a6"
    ∷ codes "a7"
    ∷ codes "s2"
    ∷ codes "s3"
    ∷ codes "s4"
    ∷ codes "s5"
    ∷ codes "s6"
    ∷ codes "s7"
    ∷ codes "s8"
    ∷ codes "s9"
    ∷ codes "s10"
    ∷ codes "s11"
    ∷ codes "t3"
    ∷ codes "t4"
    ∷ codes "t5"
    ∷ codes "t6"
    ∷ []

repeated : ℕ → ℕ → Text
repeated c zero = []
repeated c (suc n) = c ∷ repeated c n

-- a number in the width, with zeros behind the sign and the prefix
zero_padded : (width : ℕ) (sign prefix digits : Text) → Text
unfolding repeated
zero_padded width sign prefix digits =
    sign ++ (prefix ++ (repeated b'0' (width - length (sign ++ (prefix ++ digits))) ++ digits))

sign_of : ℤ → Text
sign_of (pos n) = []
sign_of (negsuc n) = b'-' ∷ []

-- `str(z)`
pub str_ℤ : ℤ → Text
str_ℤ (pos n) = decimal n
str_ℤ (negsuc n) = b'-' ∷ decimal (suc n)

magnitude : ℤ → ℕ
magnitude (pos n) = n
magnitude (negsuc n) = suc n

upper : Text → Text
upper [] = []
upper (c ∷ s) = (if ltb 96 c && ltb c 123 then c - 32 else c) ∷ upper s

-- `f"{value:08X}"`
unfoldable pub hex_08 : ℤ → Text
unfolding zero_padded sign_of magnitude upper
hex_08 value = zero_padded 8 (sign_of value) [] (upper (to_base 16 (magnitude value)))

-- `f"{value:#034b}"`
unfoldable pub bin_034 : ℤ → Text
unfolding zero_padded sign_of magnitude
bin_034 value = zero_padded 34 (sign_of value) (codes "0b") (to_base 2 (magnitude value))

unfoldable pub state_name : StatusResponse → Text
state_name status =
    if not status.running
    then codes "reset"
    else if status.paused
    then codes "paused"
    else codes "running"

unfoldable pub privilege_name : Option ℤ → Text
unfolding str_ℤ
privilege_name none = codes "None"
privilege_name (some n) =
    if eqb_ℤ n (pos 0)
    then codes "user"
    else if eqb_ℤ n (pos 1)
    then codes "supervisor"
    else if eqb_ℤ n (pos 2)
    then codes "reserved"
    else if eqb_ℤ n (pos 3)
    then codes "machine"
    else str_ℤ n

-- `value or 0`
or_zero : Option ℤ → ℤ
or_zero none = pos 0
or_zero (some n) = n

or_empty : Text → Text
or_empty [] = codes "<empty>"
or_empty (c ∷ s) = c ∷ s

-- the name behind a register's number; `sail` needs none
register_suffix : Bool → ℕ → Result DebugError Text
register_suffix true i = ok []
register_suffix false i = elim (get_elem? register_names i) [
  | none ↦ err (register_without_name i)
  | some name ↦ ok (codes " (" ++ (name ++ codes ")"))
]

unfoldable pub register_lines : Bool → ℕ → List ℤ → Result DebugError (List Text)
unfolding register_suffix
register_lines sail i [] = ok []
register_lines sail i (value ∷ values) = do
  suffix ← register_suffix sail i
  rest ← register_lines sail (i + 1) values
  ok ((b'x' ∷ (decimal i ++ (suffix ++ (codes " <- 0x" ++ hex_08 value)))) ∷ rest)

-- the lines behind those of the registers
unfoldable pub status_lines : Bool → StatusResponse → List Text
unfolding or_zero or_empty
status_lines sail status =
    (codes "CSR mscratch <- 0x" ++ hex_08 status.mscratch)
    ∷ (codes "CSR mtvec <- 0x" ++ hex_08 status.mtvec)
    ∷ (codes "CSR mepc <- 0x" ++ hex_08 status.mepc)
    ∷ (codes "CSR mcause <- 0x" ++ hex_08 status.mcause)
    ∷ (codes "CSR mtval <- 0x" ++ hex_08 status.mtval)
    ∷ (codes "CSR mstatus <- " ++ bin_034 status.mstatus)
    ∷ (codes "CSR mip <- " ++ bin_034 status.mip)
    ∷ (codes "CSR mie <- " ++ bin_034 status.mie)
    ∷ (codes "privilege_mode <- " ++ privilege_name status.privilege_mode)
    ∷ (codes "state <- " ++ state_name status)
    ∷ (codes "error_output: " ++ or_empty status.error_output)
    ∷ []
    ∷ ((if sail then codes "[M]" else codes "pc")
        ++ (codes ": 0x"
            ++ (hex_08 (or_zero status.pc)
                ++ (if sail
                    then codes " (0x" ++ (hex_08 (or_zero status.instruction) ++ codes ")")
                    else []))))
    ∷ (if sail then [] else (codes "instruction: " ++ bin_034 (or_zero status.instruction)) ∷ [])

unfoldable pub format_status : Bool → StatusResponse → Result DebugError Text
format_status sail status = do
  registers ← register_lines sail 0 status.registers
  ok (join (b'\n' ∷ []) (registers ++ status_lines sail status))

pub is_line_break : ℕ → Bool
is_line_break c =
    (leb 10 c && leb c 13) || (leb 28 c && leb c 30) || c == 0x85 || c == 0x2028 || c == 0x2029

-- the first line begins with the character
onto_first : ℕ → List Text → List Text
onto_first c [] = (c ∷ []) ∷ []
onto_first c (line ∷ lines) = (c ∷ line) ∷ lines

-- `text.splitlines()`; the flag says that a carriage return stands in front
lines_from : Bool → Text → List Text
unfolding is_line_break onto_first
lines_from after [] = []
lines_from after (c ∷ s) =
    let skipped = lines_from false s in
    let rest = lines_from (c == 13) s in
    if after && c == 10 then skipped else if is_line_break c then [] ∷ rest else onto_first c rest

unfoldable pub split_lines : Text → List Text
unfolding lines_from
split_lines s = lines_from false s

-- the lines that go to the log; `left` lines are in the new text from here on
unfoldable pub changed_lines : (always left : ℕ) → List Text → List Text → List Text
changed_lines always left [] prev = []
changed_lines always left (line ∷ lines) [] = []
changed_lines always left (line ∷ lines) (prev_line ∷ prev) =
    let rest = changed_lines always (left - 1) lines prev in
    if leb left always || not (text_eq line prev_line) || text_eq line [] then line ∷ rest else rest

-- `2 if sail else 3`
abbrev pub always_shown : Bool → ℕ
always_shown sail = if sail then 2 else 3

unfoldable pub filtered : Bool → Text → Text → Text
filtered sail formatted prev_formatted =
    join (b'\n' ∷ []) (
      changed_lines (always_shown sail) (length (split_lines formatted)) (split_lines formatted)
        (split_lines prev_formatted))
    ++ (b'\n' ∷ [])

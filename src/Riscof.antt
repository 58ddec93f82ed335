-- ===== src/Riscof.antt =====
-- riscof/mlogv32/riscof_mlogv32.py: the commands that build a test, the addresses of the signature in
-- the linked file, the signature file and the run of a test; riscof/filter_test_list.py: the tests that
-- are skipped. A path is a text. The output of `nm`, the bytes of the file that the processor writes,
-- the client's JSON and the processor's answers are arguments; logging, the make utility and YAML are not
-- modelled. The paths in the commands are taken not to contain braces.
pub mod Signature
pub mod Symbols
pub mod Skipped
pub mod Run
pub mod Session
use mlogv.Prelude.{
  ℕ, zero, suc, ◌+◌, ◌-◌, ◌*◌, ◌/◌, ◌%◌, Bool, true, false, not, ◌&&◌, ◌||◌, Option, none, some,
  List, [], ◌∷◌, ◌++◌, Text, text_eq, codes, join, Result, ok, err, ◌>>=◌, if◌then◌else◌, ◌==◌, ltb,
  length, ℤ, pos, ◌-ℤ◌,
}
use mlogv.PyInt.{digit_char, parse_int_hex, strip_left, strip_right}
use mlogv.Config.{split}
use mlogv.Access.{AccessError}

-- the text behind a prefix
unfoldable pub behind : Text → Text → Option Text
behind [] s = some s
behind (c ∷ prefix) [] = none
behind (c ∷ prefix) (d ∷ s) = if c == d then behind prefix s else none

-- `part in text`
unfoldable pub is_in : Text → Text → Bool
is_in part [] = elim (behind part []) [ none ↦ false | some rest ↦ true ]
is_in part (c ∷ s) = elim (behind part (c ∷ s)) [ none ↦ is_in part s | some rest ↦ true ]

-- `text.partition(sep)[2]`
unfoldable pub partition_end : Text → Text → Text
partition_end sep [] = []
partition_end sep (c ∷ s) = elim (behind sep (c ∷ s)) [
  | none ↦ partition_end sep s
  | some rest ↦ rest
]

abbrev pub test_suite : Text
test_suite = codes "riscv-arch-test/riscv-test-suite/"

-- `any(part in name for part in parts)`
unfoldable pub any_in : List Text → Text → Bool
any_in [] name = false
any_in (part ∷ parts) name = is_in part name || any_in parts name

ends_in_slash : Text → Bool
ends_in_slash [] = false
ends_in_slash (c ∷ []) = c == b'/'
ends_in_slash (c ∷ d ∷ s) = ends_in_slash (d ∷ s)

begins_with_slash : Text → Bool
begins_with_slash [] = false
begins_with_slash (c ∷ s) = c == b'/'

-- `os.path.join` of two paths
unfoldable pub join_path : Text → Text → Text
unfolding ends_in_slash begins_with_slash
join_path [] b = b
join_path (c ∷ a) b =
    if begins_with_slash b
    then b
    else if ends_in_slash (c ∷ a)
    then (c ∷ a) ++ b
    else (c ∷ a) ++ (b'/' ∷ b)

-- `testentry`
pub record TestEntry : Type 0 where
  pub work_dir : Text
  pub test_path : Text
  pub isa : Text
  pub macros : List Text

-- the attributes of the plugin
pub record Plugin : Type 0 where
  pub name : Text
  pub plugin_path : Text
  pub env : Text
  pub host_repo_path : Text
  pub riscof_repo_path : Text
  pub reloc_tests : List Text

-- `build`: `xlen` and `isa` from the specification of the hart
unfoldable pub xlen_of : List ℕ → Text
xlen_of [] = codes "32"
xlen_of (x ∷ supported) = if x == 64 then codes "64" else xlen_of supported

unfoldable pub mabi_of : List ℕ → Text
mabi_of [] = codes "ilp32 "
mabi_of (x ∷ supported) = if x == 64 then codes "lp64 " else mabi_of supported

-- the letter in lower case, where the ISA has the capital
pub isa_letter : ℕ → Text → Text
isa_letter letter isa = if is_in (letter ∷ []) isa then (letter + 32) ∷ [] else []

unfoldable pub plugin_isa : List ℕ → Text → Text
unfolding isa_letter
plugin_isa supported isa =
    codes "rv"
    ++ (xlen_of supported
        ++ (isa_letter b'I' isa
            ++ (isa_letter b'M' isa
                ++ (isa_letter b'F' isa ++ (isa_letter b'D' isa ++ isa_letter b'C' isa)))))

-- `" -D" + " -D".join(macros)`
unfoldable pub compile_macros : List Text → Text
compile_macros macros = codes " -D" ++ join (codes " -D") macros

unfoldable pub linker_script : List Text → Text → Text
linker_script reloc_tests testname =
    if any_in reloc_tests testname then codes "reloc.ld" else codes "xip.ld"

-- `str.lower` of ASCII letters
unfoldable pub lower : Text → Text
lower [] = []
lower (c ∷ s) = (if ltb 64 c && ltb c 91 then c + 32 else c) ∷ lower s

-- `re.sub(r" +", " ", text)`: a space goes where the rest begins with one
squeeze_onto : ℕ → Text → Text
squeeze_onto c [] = c ∷ []
squeeze_onto c (d ∷ s) = if c == b' ' && d == b' ' then d ∷ s else c ∷ d ∷ s

unfoldable pub squeeze : Text → Text
unfolding squeeze_onto
squeeze [] = []
squeeze (c ∷ s) = squeeze_onto c (squeeze s)

unfoldable pub tidy : Text → Text
tidy s = squeeze (strip_right (strip_left s))

-- `initialise` and `build` put the command together, `get_compile_command` fills it in
unfoldable pub compile_command : Plugin → List ℕ → TestEntry → Text → Text
unfolding lower
compile_command plugin supported test testname =
    codes "riscv"
    ++ (xlen_of supported
        ++ (codes "-unknown-elf-gcc -march="
            ++ (lower test.isa
                ++ (codes
                      "  -static -mcmodel=medany -fvisibility=hidden -nostdlib -nostartfiles -D 'MLOGV32_TEST_NAME="
                    ++ ((b'"' ∷ [])
                        ++ (partition_end test_suite testname
                            ++ ((b'"' ∷ [])
                                ++ (codes "' -T "
                                    ++ (plugin.plugin_path
                                        ++ (codes "/env/"
                                            ++ (linker_script plugin.reloc_tests testname
                                                ++ (codes " -I "
                                                    ++ (plugin.plugin_path
                                                        ++ (codes "/env/ -I "
                                                            ++ (plugin.env
                                                            ++ (codes " "
                                                            ++ (test.test_path
                                                            ++ (codes " -o "
                                                            ++ (join_path test.work_dir
                                                            (codes "dut.elf")
                                                            ++ (codes " "
                                                            ++ (compile_macros test.macros
                                                            ++ (codes " -mabi="
                                                            ++ mabi_of
                                                            supported))))))))))))))))))))))

unfoldable pub objcopy_command : List ℕ → TestEntry → Text
objcopy_command supported test =
    codes "riscv"
    ++ (xlen_of supported
        ++ (codes "-unknown-elf-objcopy --output-target binary "
            ++ (join_path test.work_dir (codes "dut.elf")
                ++ (codes " " ++ join_path test.work_dir (codes "dut.bin")))))

unfoldable pub objdump_command : List ℕ → TestEntry → Text
objdump_command supported test =
    codes "riscv"
    ++ (xlen_of supported
        ++ (codes "-unknown-elf-objdump --disassemble-all "
            ++ (join_path test.work_dir (codes "dut.elf")
                ++ (codes " > " ++ join_path test.work_dir (codes "dut.dump")))))

unfoldable pub get_compile_command : Plugin → List ℕ → TestEntry → Text → Text
get_compile_command plugin supported test testname = join (b'\n' ∷ b'\n' ∷ []) (
    tidy (compile_command plugin supported test testname)
    ∷ tidy (objcopy_command supported test)
    ∷ tidy (b'#' ∷ objdump_command supported test)
    ∷ [])

-- SystemExit, with the message that was logged before it, and a KeyError of the configuration
pub data PluginError : Type 0 where
  system_exit : ℕ → Text → PluginError
  key_error : Text → PluginError

-- `config[key] if key in config else default`
unfoldable pub setting : List (Text × Text) → Text → Text → Text
setting [] key default = default
setting ((k, value) ∷ config) key default =
    if text_eq k key then value else setting config key default

-- `config[key]`
unfoldable pub required : List (Text × Text) → Text → Result PluginError Text
required [] key = err (key_error key)
required ((k, value) ∷ config) key = if text_eq k key then ok value else required config key

-- `name[:-1]`
unfoldable pub but_last : Text → Text
but_last [] = []
but_last (c ∷ []) = []
but_last (c ∷ d ∷ s) = c ∷ but_last (d ∷ s)

pub data TestError : Type 0 where
  symbol_not_found : Text → TestError
  invalid_line : Text → TestError
  invalid_address : Text → TestError
  access_error : AccessError → TestError
  execution_failed : Text → TestError

-- the loop over the lines of `nm`
unfoldable pub address_in : Text → List Text → Result TestError ℤ
address_in symbol [] = err (symbol_not_found symbol)
address_in symbol (line ∷ lines) = elim (split b' ' line) [
  | address ∷ kind ∷ name ∷ [] ↦ elim (text_eq name symbol) [
    | true ↦ elim (parse_int_hex address) [ none ↦ err (invalid_address address) | some n ↦ ok n ]
    | false ↦ address_in symbol lines
  ]
  | _ ↦ err (invalid_line line)
]

-- `bytes.hex` of the bytes
unfoldable pub hex_bytes : List ℕ → Text
hex_bytes [] = []
hex_bytes (b ∷ bytes) = digit_char (b / 16) ∷ digit_char (b % 16) ∷ hex_bytes bytes

unfoldable pub zeros : ℕ → List ℕ
zeros zero = []
zeros (suc n) = 0 ∷ zeros n

-- `data += b"\0" * (len(data) % 4)`
unfoldable pub padded : List ℕ → List ℕ
unfolding zeros
padded data_bytes = data_bytes ++ zeros (length data_bytes % 4)

-- the words of four bytes, each from its last byte on; what is left is a shorter word
unfoldable pub word_lines : List ℕ → List Text
word_lines [] = []
word_lines (a ∷ []) = hex_bytes (a ∷ []) ∷ []
word_lines (a ∷ b ∷ []) = hex_bytes (b ∷ a ∷ []) ∷ []
word_lines (a ∷ b ∷ c ∷ []) = hex_bytes (c ∷ b ∷ a ∷ []) ∷ []
word_lines (a ∷ b ∷ c ∷ d ∷ bytes) = hex_bytes (d ∷ c ∷ b ∷ a ∷ []) ∷ word_lines bytes

-- the lines of the signature file
unfoldable pub signature_lines : List ℕ → List Text
signature_lines data_bytes = word_lines (padded data_bytes)

-- `filter_test_list.py`: a test stays where no part of `skip_tests` is in its name
unfoldable pub kept_tests : {A : Type 0} → List Text → List (Text × A) → List (Text × A)
kept_tests skip [] = []
kept_tests skip ((testname, value) ∷ tests) =
    let rest = kept_tests skip tests in
    if any_in skip testname then rest else (testname, value) ∷ rest

unfoldable pub filtered_tests : {A : Type 0} → Text → List (Text × A) → List (Text × A)
filtered_tests [] tests = tests
filtered_tests (c ∷ s) tests = kept_tests (split b',' (c ∷ s)) tests

-- ===== src/Lib.antt =====
-- Verification of the Python tooling of mlogv32, a RISC-V processor written in mlog, the assembly
-- language of Mindustry's logic processors. The tooling renders the processor's code from templates,
-- checks and links the rendered code, and builds schematics out of it; it also talks to the running
-- processor.
--
-- The parts and the files that model them (all paths below are under
-- python/src/mlogv32, but for those that begin with riscof/):
--
-- Prelude, PyInt: shared types and lemmas; Python's `int(text)`, with base 0 and 16 as well, `str(n)`
--   and `hex(n)` on ASCII texts.
-- Mlog (preprocessor/parser/mlog.py): `AstNode` is the union of Label, Statement and Directive, and
--   `transform` is MlogTransformer on the lines of a parse tree.
--   Mlog.Labels: `iter_labels` and `expect_int`. The loop's locals `counter` and `length_assertion` are
--   the arguments of `labels_from`; the yielded pairs are a list, and an exception is an `err`.
--   Mlog.Unsaved: `check_unsaved_variables`. The record `Checker` holds the locals of the loop, and the
--   printed warnings.
--   Mlog.Replace: `replace_symbolic_labels` and `_iter_label_refs`. The parser, which the sanity checks
--   call again, is the parameter `parse_mlog`.
--   Mlog.Worker (preprocessor/app.py): how `build` makes the worker's code out of these, and the command
--   `labels`.
-- Templates (preprocessor/extensions.py): `preprocess` of CommentStatement, and `filter_stream` of
--   LocalVariables (Templates.Variables) and LineExpression (Templates.Expressions). `search_from` is
--   the search of a pattern; a generator's tokens are a list.
-- Locals (preprocessor/extensions.py): the environment of LocalVariables and its functions
--   `reset_locals`, `declare_locals`, `free_locals` and `local_variable`, in a monad `M` of state and
--   exceptions in which an exception keeps the changes made before it.
-- RamProc (scripts/ram_proc.py): the names of RAM variables, `get_variable`, `lookup`, and the generator
--   of lookup tables and RAM code. `ram_step` and `lookup_step` are the two halves of a round.
--   RamProc.Build: the commands `variables` and `build`.
-- BuildConfig (preprocessor/models.py, preprocessor/constants.py): the validators
--   `_resolve_instructions` and `_resolve_csrs`, and the table of registers.
-- Filters (preprocessor/filters.py): the filters of the templates. They call RamProc and the table of
--   BuildConfig. Filters.Registry: the registry that Jinja gets, and the wrapper for exceptions.
-- Config, Memory (preprocessor/app.py): `parse_config_str`, and the memory part of `build`, which places
--   a configuration's ROM and RAM processors. Memory.Image reads the file back from the processors,
--   Memory.Grid, Memory.Corner and Memory.Below are about their places.
-- Pages (preprocessor/app.py): the table VARIABLE_0_TO_PAGE_OFFSET that `build` hands to the templates.
-- Layout (preprocessor/app.py): the other blocks that `build` places, with the links of the
--   processors; a schematic is the list of its blocks. Layout.Cpu has the CPU and the debugger.
--   Layout.Build puts them together with the memory, the checks of the arguments and the metadata
--   (preprocessor/models.py).
-- Terminal (scripts/terminal_server.py): the handler, the processor's worker and the input worker. Each
--   is a state machine over the three queues; `run` takes any interleaving of their steps.
--   Terminal.Progress counts the steps of each thread. An exception is a step too: it ends the thread,
--   and a message that was being sent is lost.
-- Msch (utils/msch.py): `ProcessorConfigUTF8.compress`. Msch.Utf8 has a decoder of UTF-8, and
--   Msch.RoundTrip a reader of the compressed configuration.
-- Access (processor_access.py): the requests and the responses of the control protocol, and the methods
--   of ProcessorAccess over what was written to the socket and what arrives.
-- LogicIds (scripts/logicids.py): the reader of `logicids.dat`.
-- Debug (scripts/debug.py): the text of a status and the lines of it that are logged. Debug.Session: the
--   loop of `main`, a chain of functions over the record of its locals, one behind each call.
-- Riscof (riscof/mlogv32/riscof_mlogv32.py, riscof/filter_test_list.py): the commands that build a test,
--   the lookup of a symbol, the signature file and the filter of tests. Riscof.Run: `run_test` over the
--   calls of Access. Riscof.Session: `__init__` and `runTests`, where `run_jobs` is the loop over the
--   test list on one connection.
-- Sail (riscof/sail_cSim/riscof_sail_cSim.py): the plugin of the reference simulator. `init` and `build`
--   are the methods of these names, `run_tests` is `runTests`, and `execute` the text that is split
--   into commands.
-- Rendering (preprocessor/app.py): `create_jinja_env`, `render_template`, the command `configs`, and
--   `config_for`, how `build` finds the code of a configuration. A path is the list of its parts, and
--   the files are a list of paths and texts. Rendering.Codes: the codes of the worker, the controller,
--   the debugger and the display, from the templates to the files.
-- Tests: the theorems at concrete inputs.
--
-- The build renders the templates (Rendering; Templates, Locals and Filters serve Jinja), parses the
-- worker's code, checks it (Mlog.Unsaved), lists its labels (Mlog.Labels) and replaces the references to them
-- (Mlog.Replace); the configuration (Config) says how many processors Memory places, and Layout
-- places the rest and links it; RamProc makes the code of the processors that both the RAM and the
-- lookup tables consist of.
--
-- Bounds and fuel: integers are Python's, so none wrap around. The loop of `generate_code` runs over
-- a generator that need not end; fuel above the number of names minus one is enough. The loops over
-- a data token in Templates have as fuel one more than the number of its characters, and the loop of
-- the debugger's session has enough with the number of the statuses in which the processor runs
-- before it stops, one for each round. `digits_onto` counts by the number itself. `math.ceil(a / b)` is taken without the
-- rounding of floats, which is exact for addresses.
--
-- Not modelled: Jinja, Lark, YAML, pydantic, pymsch, zlib and the make utility of RISCOF, which the
-- tooling calls (where a part's result depends on one of them it is a parameter, as `parse_mlog`,
-- `model_dump_json`, the records `Jinja` and `ByteBuffer`, or the lines that `nm` prints); the
-- progress bar, logging and the command line; the schematics that are read and written as files; and
-- the programs in other languages.
pub mod Prelude
pub mod PyInt
pub mod Mlog
pub mod Msch
pub mod RamProc
pub mod Locals
pub mod BuildConfig
pub mod Filters
pub mod Pages
pub mod Layout
pub mod Config
pub mod Memory
pub mod Terminal
pub mod Access
pub mod LogicIds
pub mod Templates
pub mod Riscof
pub mod Debug
pub mod Sail
pub mod Rendering
pub mod Tests

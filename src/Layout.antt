-- ===== src/Layout.antt =====
-- python/src/mlogv32/preprocessor/app.py: the blocks that `build` places, except for the memory (see
-- Memory). A list of blocks stands for the schematic, in the order in which they are added; the
-- schematics that are read from files have the dimensions that `build` asserts, the code of the
-- processors is an argument, and compression belongs to pymsch.
pub mod Cpu
pub mod Covers
pub mod Reach
pub mod Overlap
pub mod Build
use mlogv.Prelude.{
  ℕ, zero, suc, ◌+◌, ◌/◌, ◌%◌, Bool, true, false, not, ◌&&◌, ◌||◌, Option, none, some, List, [],
  ◌∷◌, ◌++◌, map, Text, codes, join, Result, ok, err, if◌then◌else◌, ltb, ◌==◌, ℤ, pos, negsuc,
  ◌+ℤ◌, ◌-ℤ◌, eqb_ℤ, ltb_ℤ,
}
use mlogv.PyInt.{decimal}
use mlogv.Memory.{lenrange}

-- `ProcessorLink`
pub record Link : Type 0 where
  pub x : ℤ
  pub y : ℤ
  pub name : Text

-- the blocks, and the three schematics that are added as a whole
pub data Part : Type 0 where
  tile_logic_display world_cell memory_bank memory_cell micro_processor world_processor message
        switch :
      Part
  lookups_schem ram_schem sortkb_schem : Part

pub data Setup : Type 0 where
  plain : Setup
  is_on : Bool → Setup
  label : Text → Setup
  processor : (code : Text) (links : List Link) → Setup

pub record Block : Type 0 where
  pub part : Part
  pub x : ℤ
  pub y : ℤ
  pub config : Setup

unfoldable pub relative_links : List Link → ℤ → ℤ → List Link
relative_links [] x y = []
relative_links (link ∷ links) x y =
    record { x = link.x -ℤ x; y = link.y -ℤ y; name = link.name } ∷ relative_links links x y

abbrev pub link_at : ℕ → ℕ → Text → Link
link_at x y name = record { x = pos x; y = pos y; name = name }

abbrev pub simple_block : Part → ℕ → ℕ → Block
simple_block part x y = record { part = part; x = pos x; y = pos y; config = plain }

abbrev pub switch_block : ℕ → ℕ → Block
switch_block x y = record { part = switch; x = pos x; y = pos y; config = is_on false }

-- `**labels`: the texts for the four directions
pub record Labels : Type 0 where
  pub up : Text
  pub left : Text
  pub right : Text
  pub down : Text

-- one line of a label, where its text is not empty
pub label_line : Text → Text → Text → List Text
label_line [] front behind = []
label_line (c ∷ s) front behind = (front ++ ((c ∷ s) ++ behind)) ∷ []

unfoldable pub label_text : Labels → Text
unfolding label_line
label_text l = join (b'\n' ∷ []) (
    label_line l.up [] (b' ' ∷ 0x21E7 ∷ [])
    ++ (label_line l.left (0x21E6 ∷ b' ' ∷ []) []
        ++ (label_line l.right [] (b' ' ∷ 0x21E8 ∷ [])
            ++ label_line l.down [] (b' ' ∷ 0x21E9 ∷ []))))

abbrev pub add_label : ℕ → ℕ → Labels → Block
add_label x y labels = record {
  part = message;
  x = pos x;
  y = pos y;
  config = label (label_text labels);
}

-- `add_with_label`: the label stands left of the block
abbrev pub labelled : Block → ℕ → ℕ → Text → Text → List Block
labelled block x y left right =
    add_label x y (record { up = []; left = left; right = right; down = [] }) ∷ block ∷ []

-- the inner and the outer of two loops over ranges
pub column : ℤ → List ℤ → (ℤ → ℤ → List Block) → List Block
column x [] place = []
column x (y ∷ ys) place = place x y ++ column x ys place

pub over : List ℤ → List ℤ → (ℤ → ℤ → List Block) → List Block
over [] ys place = []
over (x ∷ xs) ys place = column x ys place ++ over xs ys place

abbrev pub block_at : Part → ℤ → ℤ → Block
block_at part x y = record { part = part; x = x; y = y; config = plain }

-- `lookup_links`, from processor `i` on
pub lookup_links_from : ℕ → ℕ → List Link
lookup_links_from i zero = []
lookup_links_from i (suc n) =
    link_at (i % 4) (16 + i / 4) (codes "processor" ++ decimal (i + 1))
    ∷ lookup_links_from (i + 1) n

unfoldable pub lookup_links : List Link
unfolding lookup_links_from
lookup_links = lookup_links_from 0 16

pub links_over : ℤ → List ℤ → List Link
links_over x [] = []
links_over x (y ∷ ys) = record { x = x; y = y; name = [] } ∷ links_over x ys

pub links_over_all : List ℤ → List ℤ → List Link
links_over_all [] ys = []
links_over_all (x ∷ xs) ys = links_over x ys ++ links_over_all xs ys

abbrev uart_xs : List ℤ
uart_xs = lenrange (pos 5) (pos 4) (pos 2)

abbrev uart_ys : List ℤ
uart_ys = lenrange (pos 18) (negsuc 3) (negsuc 1)

unfoldable pub uart_links : List Link
unfolding links_over links_over_all
uart_links = links_over_all uart_xs uart_ys

-- `uart_links[0]`
unfoldable pub first_uart : List Link
first_uart = elim uart_links [ [] ↦ [] | link ∷ links ↦ link ∷ [] ]

abbrev pub registers_link : Link
registers_link = link_at 9 19 (codes "cell1")

abbrev pub csrs_link : Link
csrs_link = link_at 9 18 []

abbrev pub incr_link : Link
incr_link = link_at 9 17 []

abbrev pub config_link : Link
config_link = link_at 9 16 []

abbrev pub labels_link : Link
labels_link = link_at 4 18 []

abbrev pub csr_labels_link : Link
csr_labels_link = link_at 4 17 (codes "processor20")

abbrev pub error_output_link : Link
error_output_link = link_at 11 19 []

abbrev pub power_switch_link : Link
power_switch_link = link_at 11 18 []

abbrev pub pause_switch_link : Link
pause_switch_link = link_at 11 17 []

abbrev pub single_step_switch_link : Link
single_step_switch_link = link_at 11 16 []

abbrev pub controller_link : Link
controller_link = link_at 16 0 []

unfoldable pub display_links : List Link
display_links =
    lookup_links
    ++ (link_at 13 16 (codes "processor17")
        ∷ link_at 12 17 (codes "processor18")
        ∷ link_at 13 17 (codes "processor19")
        ∷ config_link
        ∷ link_at 13 18 (codes "switch1")
        ∷ power_switch_link
        ∷ (first_uart ++ (link_at 0 0 [] ∷ [])))

unfoldable pub controller_links : List Link
controller_links =
    lookup_links
    ++ (uart_links
        ++ (registers_link ∷ labels_link ∷ csrs_link ∷ incr_link ∷ config_link ∷ csr_labels_link
            ∷ error_output_link ∷ power_switch_link ∷ pause_switch_link ∷ single_step_switch_link
            ∷ []))

unfoldable pub worker_links : List Link
worker_links =
    lookup_links
    ++ (uart_links
        ++ (registers_link ∷ labels_link ∷ csrs_link ∷ incr_link ∷ config_link ∷ csr_labels_link
            ∷ controller_link ∷ error_output_link ∷ []))

unfoldable pub debugger_links : List Link
debugger_links =
    lookup_links
    ++ (uart_links
        ++ (controller_link
            ∷ csrs_link
            ∷ registers_link
            ∷ record { x = negsuc 2; y = pos 0; name = [] }
            ∷ record { x = negsuc 1; y = pos 1; name = [] }
            ∷ []))

abbrev pub processor_block : Part → ℤ → ℤ → Text → List Link → Block
processor_block part x y code links = record {
  part = part;
  x = x;
  y = y;
  config = processor code (relative_links links x y);
}

-- what is placed behind the UARTs
unfoldable pub devices : Text → Text → List Block
devices config_code display_code =
    simple_block memory_cell 9 19
    ∷ simple_block ram_schem 9 18
    ∷ simple_block ram_schem 9 17
    ∷ record { part = micro_processor; x = pos 9; y = pos 16; config = processor config_code [] }
    ∷ (labelled (simple_block message 11 19) 10 19 (codes "REGISTERS") (codes "ERROR_OUTPUT")
        ++ (labelled (switch_block 11 18) 10 18 (codes "CSRS") (codes "POWER_SWITCH")
            ++ (labelled (switch_block 11 17) 10 17 (codes "INCR") (codes "PAUSE_SWITCH")
                ++ (labelled (switch_block 11 16) 10 16 (codes "CONFIG")
                      (codes "SINGLE_STEP_SWITCH")
                    ++ (simple_block ram_schem 13 16
                        ∷ simple_block ram_schem 12 17
                        ∷ simple_block ram_schem 13 17
                        ∷ (labelled (switch_block 13 18) 12 18 [] (codes "UART0 -> DISPLAY")
                            ++ (processor_block world_processor (pos 12) (pos 16) display_code
                                  display_links
                                ∷ [])))))))

-- `include_peripherals`; the last argument is `include_keyboard`
unfoldable pub peripherals : Text → Text → Bool → List Block
unfolding over column
peripherals config_code display_code keyboard =
    over (lenrange (pos 0) (pos 16) (pos 1)) (lenrange (pos 0) (pos 16) (pos 1))
      (λ x y. block_at tile_logic_display x y ∷ [])
    ++ (simple_block lookups_schem 0 16
        ∷ add_label 4 19
            (record { up = []; left = []; right = codes "UART0, UART2"; down = codes "LABELS" })
        ∷ simple_block world_cell 4 18
        ∷ simple_block ram_schem 4 17
        ∷ add_label 4 16
            (record { up = codes "CSR_LABELS"; left = []; right = codes "UART1, UART3"; down = [] })
        ∷ (over uart_xs uart_ys (λ x y. block_at memory_bank x y ∷ [])
            ++ (devices config_code display_code
                ++ (if keyboard then simple_block sortkb_schem 14 16 ∷ [] else []))))

-- ===== src/Layout/Covers.antt =====
-- python/src/mlogv32/preprocessor/app.py: the places that blocks cover.
use mlogv.Prelude.{
  ℕ, ◌≡◌, refl, ap₂, ◌∙◌, Bool, true, false, not, ◌&&◌, ◌||◌, List, [], ◌∷◌, ◌++◌, All, All-append,
  Text, codes, ◌==◌, arith, ℤ, pos, ◌+ℤ◌, ◌-ℤ◌, ltb_ℤ, int_laws,
}
use mlogv.Layout.{
  Link, Part, lookups_schem, sortkb_schem, memory_bank, ram_schem, micro_processor, world_processor,
  memory_cell, world_cell, switch, Block, processor, relative_links, column, over,
}

-- The columns and rows of a part from its place on: `build` asserts those of the schematics that are
-- larger than one tile, and it places the memory banks, blocks of two columns and rows, in steps of two.
abbrev pub size : Part → ℕ × ℕ
size lookups_schem = (4, 4)
size sortkb_schem = (5, 4)
size memory_bank = (2, 2)
size _ = (1, 1)

abbrev pub covers : Block → ℤ → ℤ → Bool
covers block x y =
    not (ltb_ℤ x block.x)
    && ltb_ℤ x (block.x +ℤ pos (size block.part).0)
    && (not (ltb_ℤ y block.y) && ltb_ℤ y (block.y +ℤ pos (size block.part).1))

abbrev starts : Text → Text → Bool
starts [] name = true
starts (c ∷ prefix) [] = false
starts (c ∷ prefix) (d ∷ name) = c == d && starts prefix name

abbrev is_processor : Part → Bool
is_processor micro_processor = true
is_processor world_processor = true
is_processor lookups_schem = true
is_processor ram_schem = true
is_processor _ = false

abbrev is_cell : Part → Bool
is_cell memory_cell = true
is_cell world_cell = true
is_cell _ = false

abbrev is_switch : Part → Bool
is_switch switch = true
is_switch _ = false

-- The kind of block that the name of a link tells: a name `processor`, `cell` or `switch` with a number,
-- or no name, which goes with each kind. The lookups and the RAM schematic consist of processors.
unfoldable pub is_named : Text → Part → Bool
is_named [] part = true
is_named (c ∷ name) part =
    (starts (codes "processor") (c ∷ name) && is_processor part)
    || (starts (codes "cell") (c ∷ name) && is_cell part)
    || (starts (codes "switch") (c ∷ name) && is_switch part)

-- Some block of the kind that the name tells covers the place.
unfoldable pub reaches : List Block → Text → ℤ → ℤ → Bool
unfolding is_named
reaches [] name x y = false
reaches (block ∷ blocks) name x y =
    (covers block x y && is_named name block.part) || reaches blocks name x y

abbrev pub links_of : Block → List Link
links_of block = elim block.config [ processor code links ↦ links | _ ↦ [] ]

-- Every link of the block, counted from its place, leads to a block of the kind that its name tells.
abbrev pub LeadTo : List Block → Block → Type 0
LeadTo blocks block =
    All (λ l. reaches blocks l.name (block.x +ℤ l.x) (block.y +ℤ l.y) ≡ true) (links_of block)

or_behind : (c p q r : Bool) → p ≡ q || r → c || p ≡ (c || q) || r
or_behind true p q r h = refl
or_behind false p q r h = h

pub reaches-append :
    (a b : List Block) (name : Text) (x y : ℤ)
    → reaches (a ++ b) name x y ≡ reaches a name x y || reaches b name x y
unfolding reaches
reaches-append [] b name x y = refl
reaches-append (block ∷ a) b name x y =
    or_behind (covers block x y && is_named name block.part) (reaches (a ++ b) name x y)
      (reaches a name x y) (reaches b name x y) (reaches-append a b name x y)

there_and_back : (a b : ℤ) → a +ℤ (b -ℤ a) ≡ b
there_and_back a b = omega int_laws

pub relative_links-LeadTo :
    (blocks : List Block) (links : List Link) (x y : ℤ)
    → All (λ l. reaches blocks l.name l.x l.y ≡ true) links
    → All (λ l. reaches blocks l.name (x +ℤ l.x) (y +ℤ l.y) ≡ true) (relative_links links x y)
unfolding relative_links
relative_links-LeadTo blocks [] x y h = tt
relative_links-LeadTo blocks (l ∷ links) x y (h, hs) = (
  ap₂ (reaches blocks l.name) (there_and_back x l.x) (there_and_back y l.y) ∙ h,
  relative_links-LeadTo blocks links x y hs,
)

abbrev pub every : (Link → Bool) → List Link → Bool
every test [] = true
every test (l ∷ links) = test l && every test links

pub every-All :
    (test : Link → Bool) (links : List Link)
    → every test links ≡ true
    → All (λ l. test l ≡ true) links
every-All test [] h = tt
every-All test (l ∷ links) h = (ground arith, every-All test links (ground arith))

pub All-map :
    (P Q : Link → Type 0) (links : List Link) → ((l : Link) → P l → Q l) → All P links → All Q links
All-map P Q [] f h = tt
All-map P Q (l ∷ links) f (h, hs) = (f l h, All-map P Q links f hs)

column-All :
    (P : Block → Type 0) (place : ℤ → ℤ → List Block)
    → ((x y : ℤ) → All P (place x y))
    → (x : ℤ) (ys : List ℤ) → All P (column x ys place)
unfolding column
column-All P place h x [] = tt
column-All P place h x (y ∷ ys) =
    All-append P (place x y) (column x ys place) (h x y) (column-All P place h x ys)

pub over-All :
    (P : Block → Type 0) (place : ℤ → ℤ → List Block)
    → ((x y : ℤ) → All P (place x y))
    → (xs ys : List ℤ) → All P (over xs ys place)
unfolding over
over-All P place h [] ys = tt
over-All P place h (x ∷ xs) ys =
    All-append P (column x ys place) (over xs ys place) (column-All P place h x ys)
      (over-All P place h xs ys)

-- ===== src/RamProc/Build/Tables.antt =====
-- python/src/mlogv32/scripts/ram_proc.py and python/src/mlogv32/preprocessor/app.py: the
-- tables of `build` against the links to them in the schematic of the CPU.
use mlogv.Prelude.{
  ℕ, zero, suc, ◌+◌, ◌*◌, ◌/◌, ◌%◌, ◌≤◌, ◌<◌, ◌≡◌, refl, sym, ap, ap₂, ◌∙◌, some, List, [], ◌∷◌,
  ◌++◌, append_assoc, map, Text, ok, ◌>>=◌, length, length-append, get_elem?, arith, ℤ, pos,
}
use mlogv.RamProc.{
  mlogv32, iter_variables, two_char_names, names_behind, variable_name_chars_mlogv32, generate_code,
}
use mlogv.RamProc.Chunks.{chunks, flatten, flatten-chunks, AreChunks, chunks-AreChunks}
use mlogv.RamProc.Rounds.{Yields, lookup_codes}
use mlogv.RamProc.Generate.{generate_code-chunks}
use mlogv.RamProc.Build.{Processor, table_blocks, build}
use mlogv.Layout.{lookup_links}

abbrev grid : ℕ → ℕ → ℕ → List (ℕ × ℕ)
grid width i zero = []
grid width i (suc n) = (i % width, i / width) ∷ grid width (i + 1) n

grid-table_blocks :
    (width i : ℕ) (procs : List Text)
    → map (λ p. (p.x, p.y)) (table_blocks width i procs) ≡ grid width i (length procs)
unfolding table_blocks
grid-table_blocks width i [] = refl
grid-table_blocks width i (code ∷ procs) =
    ap (λ l. (i % width, i / width) ∷ l) (grid-table_blocks width (i + 1) procs)

length-lookup_codes : (k : ℕ) (cs : List (List Text)) → length (lookup_codes k cs) ≡ length cs
length-lookup_codes k [] = refl
length-lookup_codes k (c ∷ cs) = ap suc (length-lookup_codes (k + 1) cs)

-- how many chunks of 260 there are
chunk_bounds :
    (c : List Text) (cs : List (List Text))
    → AreChunks 260 (c ∷ cs)
    → (length cs * 260 < length (flatten (c ∷ cs)))
      × (length (flatten (c ∷ cs)) ≤ (length cs + 1) * 260)
chunk_bounds c [] h = (omega (arith, h, length-append c []), omega (arith, h, length-append c []))
chunk_bounds c (d ∷ cs) (h, hs) =
    let rest = chunk_bounds d cs hs in
    let size = length-append c (flatten (d ∷ cs)) in
    (omega (arith, rest.0, size, h), omega (arith, rest.1, size, h))

count_chunks :
    (cs : List (List Text)) → AreChunks 260 cs → length (flatten cs) ≡ 4096 → length cs ≡ 16
count_chunks [] a h = ground (arith, h)
count_chunks (c ∷ cs) a h = let (lo, hi) = chunk_bounds c cs a in omega (arith, lo, hi, h)

length-names_behind : (c : ℕ) (cs : List ℕ) → length (names_behind c cs) ≡ length cs
unfolding names_behind
length-names_behind c [] = refl
length-names_behind c (d ∷ cs) = ap suc (length-names_behind c cs)

length-two_char_names :
    (cs seconds : List ℕ)
    → length seconds ≡ 64
    → length (two_char_names cs seconds) ≡ length cs * 64
unfolding two_char_names
length-two_char_names [] seconds h = omega arith
length-two_char_names (c ∷ cs) seconds h = omega (
  arith,
  length-append (names_behind c seconds) (two_char_names cs seconds),
  length-names_behind c seconds,
  length-two_char_names cs seconds h,
  h,
)

chars_count : length variable_name_chars_mlogv32 ≡ 64
unfolding variable_name_chars_mlogv32
chars_count = refl

abbrev names : List Text
names = two_char_names variable_name_chars_mlogv32 variable_name_chars_mlogv32

names_count : length names ≡ 4096
names_count =
    length-two_char_names variable_name_chars_mlogv32 variable_name_chars_mlogv32 chars_count
    ∙ ap (λ n. n * 64) chars_count

get_elem?-at :
    (pre : List Text) (x : Text) (xs : List Text) → get_elem? (pre ++ x ∷ xs) (length pre) ≡ some x
get_elem?-at [] x xs = refl
get_elem?-at (p ∷ pre) x xs = get_elem?-at pre x xs

names-Yields :
    (pre xs : List Text) (i : ℕ) → names ≡ pre ++ xs → i ≡ length pre → Yields mlogv32 i xs
names-Yields pre [] i h e = tt
names-Yields pre (x ∷ xs) i h e = (
  unfold iter_variables in ap₂ get_elem? h e ∙ get_elem?-at pre x xs,
  names-Yields (pre ++ x ∷ []) xs (i + 1) (h ∙ sym (append_assoc pre (x ∷ []) xs))
      (omega (arith, e, length-append pre (x ∷ []))),
)

-- the tables that `generate_code` gives for all names
generated :
    (fuel : ℕ) (all : List Text)
    → 4095 < fuel
    → length all ≡ 4096
    → Yields mlogv32 0 all
    → (procs : List Text) × (ram_proc : Text) × (generate_code fuel 4096 mlogv32
        ≡ ok (procs, ram_proc))
      × (length procs ≡ 16)
generated fuel [] h e y = ground (arith, e)
generated fuel (x ∷ xs) h e y =
    let cut = chunks 260 (x ∷ xs) in
    (
      lookup_codes 0 cut,
      _,
      sym (ap (λ n. generate_code fuel n mlogv32) e)
          ∙ generate_code-chunks fuel mlogv32 x xs (omega (arith, h, e)) y,
      length-lookup_codes 0 cut
          ∙ count_chunks cut (chunks-AreChunks 260 (x ∷ xs) (omega arith))
              (ap length (flatten-chunks 260 (x ∷ xs)) ∙ e),
    )

-- the place of a lookup table in the schematic of the CPU
abbrev pub shifted : ℕ × ℕ → ℤ × ℤ
shifted p = (pos p.0, pos (16 + p.1))

map-shifted :
    (l : List Processor) → map (λ p. shifted (p.x, p.y)) l ≡ map shifted (map (λ p. (p.x, p.y)) l)
map-shifted [] = refl
map-shifted (p ∷ l) = ap (λ r. shifted (p.x, p.y) ∷ r) (map-shifted l)

sixteen_links : map shifted (grid 4 0 16) ≡ map (λ l. (l.x, l.y)) lookup_links
unfolding lookup_links
sixteen_links = refl

-- With the defaults of `build`, 4096 variables of the processor's format in rows of four tables, and any
-- fuel above 4095, `build` succeeds, and its lookup tables, placed where the schematic of the CPU has
-- them, stand in order where the links `processor1` to `processor16` lead.
pub build-tables :
    (fuel : ℕ)
    → 4095 < fuel
    → (procs : List Processor) × (ram_proc : Processor) × (build fuel 4096 4 mlogv32
        ≡ ok (procs, ram_proc))
      × (map (λ p. shifted (p.x, p.y)) procs ≡ map (λ l. (l.x, l.y)) lookup_links)
build-tables fuel h =
    let (procs, ram_proc, made, count) =
      generated fuel names h names_count (names-Yields [] names 0 refl refl) in
    (
      table_blocks 4 0 procs,
      record { x = 0; y = 0; code = ram_proc },
      unfold build in
          ap (λ r. r >>= (λ g. ok (table_blocks 4 0 g.0, record { x = 0; y = 0; code = g.1 })))
            made,
      map-shifted (table_blocks 4 0 procs)
          ∙ ap (map shifted) (grid-table_blocks 4 0 procs ∙ ap (grid 4 0) count)
          ∙ sixteen_links,
    )

-- ===== src/RamProc/Generate.antt =====
-- python/src/mlogv32/scripts/ram_proc.py: the tables and lines that `generate_code` writes, as chunks of
-- the list of names.
use mlogv.Prelude.{
  ℕ, zero, suc, ◌+◌, ◌*◌, ◌<◌, ◌≡◌, ap, ap₂, ◌∙◌, sym, true, false, some, List, [], ◌∷◌, ◌++◌, map,
  append_assoc, Text, codes, join, ok, arith, if◌then◌else◌, ◌==◌, length, length-append,
  Bool-cases, inl, inr,
}
use mlogv.RamProc.{
  VariableFormat, iter_variables, Generator, lookup_code, is_last, ram_step, lookup_step,
  append_variable, finished, generate_from, generate_code,
}
use mlogv.RamProc.Chunks.{
  chunks_from, chunks, chunks_from_full, chunks_from_short, chunks_from_last,
}
use mlogv.RamProc.Rounds.{
  Yields, set_lines, lookup_codes, draw_padded, state, is_last-state, ram_step_more, ram_step_done,
  lookup_step-state, pull_ifs,
}

-- the last round, and any other
module _ (fuel ram_size : ℕ) (format : VariableFormat) (i : ℕ) (procs cur lines line : List Text)
    (x : Text) (yields : iter_variables format i ≡ some x) where
  one_round :
      (g : Generator)
      → (is_last ram_size (append_variable x g) ≡ true
          → generate_from (suc fuel) ram_size format i g
            ≡ ok (finished (lookup_step true x (ram_step ram_size (append_variable x g)))))
        × (is_last ram_size (append_variable x g) ≡ false
            → generate_from (suc fuel) ram_size format i g
              ≡ generate_from fuel ram_size format
                  (i + 1)
                  (lookup_step false x (ram_step ram_size (append_variable x g))))
  unfolding generate_from
  one_round g = (λ t. ground arith, λ t. ground arith)

  generate_from_last :
      ram_size ≡ length lines * 6 + length line + 1
      → generate_from (suc fuel) ram_size format i (state procs cur lines line)
        ≡ ok (
          procs ++ lookup_code (length procs) (set_lines 0 (cur ++ x ∷ [])) ∷ [],
          join (b'\n' ∷ []) (codes "stop" ∷ (lines ++ draw_padded (line ++ x ∷ []) ∷ [])),
        )
  generate_from_last e =
      let now = is_last-state ram_size procs cur lines line x in
      let t : is_last ram_size (append_variable x (state procs cur lines line)) ≡ true =
        ground arith in
      (one_round (state procs cur lines line)).0 t
      ∙ rw (ram_step_done ram_size procs cur lines line x t) (
          rw
            (lookup_step-state ram_size procs cur (lines ++ draw_padded (line ++ x ∷ []) ∷ [])
              (line ++ x ∷ []) x true)
            (unfold finished in ground arith))

  generate_from_more :
      length lines * 6 + length line + 1 < ram_size
      → generate_from (suc fuel) ram_size format i (state procs cur lines line)
        ≡ generate_from fuel ram_size format (i + 1) (
            state
              (if length cur + 1 == 260
                then procs ++ lookup_code (length procs) (set_lines 0 (cur ++ x ∷ [])) ∷ []
                else procs)
              (if length cur + 1 == 260 then [] else cur ++ x ∷ [])
              (if length line + 1 == 6 then lines ++ draw_padded (line ++ x ∷ []) ∷ [] else lines)
              (if length line + 1 == 6 then [] else line ++ x ∷ []))
  generate_from_more e =
      let now = is_last-state ram_size procs cur lines line x in
      let t : is_last ram_size (append_variable x (state procs cur lines line)) ≡ false =
        ground arith in
      (one_round (state procs cur lines line)).1 t
      ∙ ap (generate_from fuel ram_size format (i + 1)) (
          ap (lookup_step false x) (ram_step_more ram_size procs cur lines line x t)
          ∙ pull_ifs procs cur lines line x (length line + 1 == 6))

-- what the rounds to come add to the RAM lines and to the tables
lines_split :
    (lines line : List Text) (x : Text) (xs : List Text)
    → (if length line + 1 == 6 then lines ++ draw_padded (line ++ x ∷ []) ∷ [] else lines)
        ++ map draw_padded (chunks_from 6 (if length line + 1 == 6 then [] else line ++ x ∷ []) xs)
      ≡ lines ++ map draw_padded (chunks_from 6 line (x ∷ xs))
lines_split lines line x xs = elim (Bool-cases (length line + 1 == 6)) [
  | inl t ↦
      rw (t, chunks_from_full 6 line x xs t)
        (append_assoc lines (draw_padded (line ++ x ∷ []) ∷ [])
          (map draw_padded (chunks_from 6 [] xs)))
  | inr t ↦ rw (t, chunks_from_short 6 line x xs t)
]

procs_split :
    (procs cur : List Text) (x : Text) (xs : List Text)
    → (if length cur + 1 == 260
          then procs ++ lookup_code (length procs) (set_lines 0 (cur ++ x ∷ [])) ∷ []
          else procs)
        ++ lookup_codes
            (length (
              if length cur + 1 == 260
              then procs ++ lookup_code (length procs) (set_lines 0 (cur ++ x ∷ [])) ∷ []
              else procs))
            (chunks_from 260 (if length cur + 1 == 260 then [] else cur ++ x ∷ []) xs)
      ≡ procs ++ lookup_codes (length procs) (chunks_from 260 cur (x ∷ xs))
procs_split procs cur x xs = elim (Bool-cases (length cur + 1 == 260)) [
  | inl t ↦
      rw (t, chunks_from_full 260 cur x xs t, length-append)
        (append_assoc procs (lookup_code (length procs) (set_lines 0 (cur ++ x ∷ [])) ∷ [])
          (lookup_codes (length procs + 1) (chunks_from 260 [] xs)))
  | inr t ↦ rw (t, chunks_from_short 260 cur x xs t)
]

room_left :
    (lines line : List Text) (x : Text) (k ram_size : ℕ)
    → ram_size ≡ length lines * 6 + length line + k + 2
    → ram_size
      ≡ length (if length line + 1 == 6 then lines ++ draw_padded (line ++ x ∷ []) ∷ [] else lines)
          * 6
        + length (if length line + 1 == 6 then [] else line ++ x ∷ [])
        + k
        + 1
room_left lines line x k ram_size e = elim (Bool-cases (length line + 1 == 6)) [
  | inl t ↦ rw t (rw length-append (ground arith))
  | inr t ↦ rw t (rw length-append (omega arith))
]

-- the text of the tables and lines for `xs`, behind what the state holds
abbrev result_from : List Text → List Text → List Text → List Text → List Text → List Text × Text
result_from procs cur lines line xs = (
  procs ++ lookup_codes (length procs) (chunks_from 260 cur xs),
  join (b'\n' ∷ []) (codes "stop" ∷ (lines ++ map draw_padded (chunks_from 6 line xs))),
)

generate_from-chunks :
    (xs : List Text) (x : Text) (fuel ram_size : ℕ) (format : VariableFormat) (i : ℕ)
    (procs cur lines line : List Text)
    → length xs < fuel
    → Yields format i (x ∷ xs)
    → ram_size ≡ length lines * 6 + length line + length xs + 1
    → generate_from fuel ram_size format i (state procs cur lines line)
      ≡ ok (result_from procs cur lines line (x ∷ xs))
generate_from-chunks [] x zero ram_size format i procs cur lines line h y e = elim h [ ]
generate_from-chunks [] x (suc fuel) ram_size format i procs cur lines line h y e =
    generate_from_last fuel ram_size format i procs cur lines line x y.0 (omega arith)
    ∙ sym (rw (chunks_from_last 260 cur x, chunks_from_last 6 line x))
generate_from-chunks (x' ∷ xs) x zero ram_size format i procs cur lines line h y e = elim h [ ]
generate_from-chunks (x' ∷ xs) x (suc fuel) ram_size format i procs cur lines line h y e =
    generate_from_more fuel ram_size format i procs cur lines line x y.0 (omega arith)
    ∙ generate_from-chunks xs x' fuel ram_size format (i + 1) _ _ _ _ (omega arith) y.1
        (room_left lines line x (length xs) ram_size (omega arith))
    ∙ ap ok (
        ap₂ (λ a b. (a, join (b'\n' ∷ []) (codes "stop" ∷ b))) (procs_split procs cur x (x' ∷ xs))
          (lines_split lines line x (x' ∷ xs)))

-- If the generator yields the names `x ∷ xs` first, then any fuel above their number minus one
-- gives, for a RAM of their number, the code that holds the names in order: lookup tables of 260
-- names each, numbered from 0, and behind `stop` the drawing lines of six names each, the last of
-- which repeats its last name.
pub generate_code-chunks :
    (fuel : ℕ) (format : VariableFormat) (x : Text) (xs : List Text)
    → length xs < fuel
    → Yields format 0 (x ∷ xs)
    → generate_code fuel (length (x ∷ xs)) format
      ≡ ok (
        lookup_codes 0 (chunks 260 (x ∷ xs)),
        join (b'\n' ∷ []) (codes "stop" ∷ map draw_padded (chunks 6 (x ∷ xs))),
      )
unfolding generate_code chunks
generate_code-chunks fuel format x xs h y =
    generate_from-chunks xs x fuel (length (x ∷ xs)) format 0 [] [] [] [] h y (omega arith)

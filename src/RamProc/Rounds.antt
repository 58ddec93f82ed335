-- ===== src/RamProc/Rounds.antt =====
-- python/src/mlogv32/scripts/ram_proc.py: one round of `generate_code`.
use mlogv.Prelude.{
  ℕ, suc, ◌+◌, ◌*◌, ◌≡◌, refl, ap, ◌∙◌, Bool, true, false, ◌||◌, some, List, [], ◌∷◌, ◌++◌,
  append-nil, Text, arith, if◌then◌else◌, ◌==◌, length, length-append,
}
use mlogv.RamProc.BlockIds.{block_ids}
use mlogv.RamProc.{
  VariableFormat, iter_variables, Generator, draw, padded, set_line, lookup_code, is_last, ram_step,
  lookup_step, append_variable,
}

-- the generator yields these names from round `i` on
abbrev pub Yields : VariableFormat → ℕ → List Text → Type 0
Yields format i [] = Unit
Yields format i (x ∷ xs) = (iter_variables format i ≡ some x) × Yields format (i + 1) xs

abbrev pub set_lines : ℕ → List Text → List Text
set_lines k [] = []
set_lines k (x ∷ xs) = set_line k x ∷ set_lines (k + 1) xs

-- the codes of the lookup processors for the tables, numbered from `k`
abbrev pub lookup_codes : ℕ → List (List Text) → List Text
lookup_codes k [] = []
lookup_codes k (c ∷ cs) = lookup_code k (set_lines 0 c) ∷ lookup_codes (k + 1) cs

abbrev pub draw_padded : List Text → Text
draw_padded line = draw (padded line)

pub length-block_ids : length block_ids ≡ 260
unfolding block_ids
length-block_ids = refl

pub length-set_lines : (k : ℕ) (xs : List Text) → length (set_lines k xs) ≡ length xs
length-set_lines k [] = refl
length-set_lines k (x ∷ xs) = ap suc (length-set_lines (k + 1) xs)

pub set_lines-concat :
    (k n : ℕ) (xs : List Text) (x : Text)
    → k + length xs ≡ n
    → set_lines k xs ++ set_line n x ∷ [] ≡ set_lines k (xs ++ x ∷ [])
set_lines-concat k n [] x e = let e' : n ≡ k = omega arith in rw e'
set_lines-concat k n (y ∷ xs) x e =
    ap (◌∷◌ (set_line k y)) (set_lines-concat (k + 1) n xs x (omega arith))

pub padded_full : (line : List Text) → length line ≡ 6 → padded line ≡ line
unfolding padded
padded_full line e = rw (e, append-nil)

-- the state that the loop holds between two rounds
abbrev pub state : List Text → List Text → List Text → List Text → Generator
state procs cur lines line = record {
  lookup_procs = procs;
  lookup_proc = set_lines 0 cur;
  ram_proc = lines;
  ram_proc_line = line;
}

module _ (ram_size : ℕ) (procs cur lines line : List Text) (x : Text) where
  pub is_last-state :
      is_last ram_size (append_variable x (state procs cur lines line))
      ≡ (ram_size == length lines * 6 + length line + 1)
  unfolding is_last append_variable
  is_last-state = ground (arith, length-append line (x ∷ []))

  pub ram_step_more :
      is_last ram_size (append_variable x (state procs cur lines line)) ≡ false
      → ram_step ram_size (append_variable x (state procs cur lines line)) ≡ (
          if length line + 1 == 6
          then state procs cur (lines ++ draw_padded (line ++ x ∷ []) ∷ []) []
          else state procs cur lines (line ++ x ∷ []))
  unfolding ram_step is_last append_variable
  ram_step_more h = ground (arith, length-append line (x ∷ []), padded_full (line ++ x ∷ []))

  pub ram_step_done :
      is_last ram_size (append_variable x (state procs cur lines line)) ≡ true
      → ram_step ram_size (append_variable x (state procs cur lines line))
        ≡ state procs cur (lines ++ draw_padded (line ++ x ∷ []) ∷ []) (line ++ x ∷ [])
  unfolding ram_step is_last append_variable
  ram_step_done h = ground (arith, length-append line (x ∷ []))

  pub lookup_step-state :
      (done : Bool)
      → lookup_step done x (state procs cur lines line) ≡ (
          if (length cur + 1 == 260) || done
          then state
              (procs ++ lookup_code (length procs) (set_lines 0 (cur ++ x ∷ [])) ∷ [])
              []
              lines
              line
          else state procs (cur ++ x ∷ []) lines line)
  unfolding lookup_step
  lookup_step-state done =
      let appended = set_lines-concat 0 (length cur) cur x (omega arith) in
      rw (length-set_lines, appended, length-set_lines, length-append, length-block_ids) refl

pub push_if :
    (b : Bool) (procs procs' cur cur' lines line : List Text)
    → (if b || false then state procs cur lines line else state procs' cur' lines line)
      ≡ state (if b then procs else procs') (if b then cur else cur') lines line
push_if true procs procs' cur cur' lines line = refl
push_if false procs procs' cur cur' lines line = refl

-- the state behind a round that is not the last, with the tests in the fields
pub pull_ifs :
    (procs cur lines line : List Text) (x : Text) (b : Bool)
    → lookup_step false x (
        if b
        then state procs cur (lines ++ draw_padded (line ++ x ∷ []) ∷ []) []
        else state procs cur lines (line ++ x ∷ []))
      ≡ state
          (if length cur + 1 == 260
            then procs ++ lookup_code (length procs) (set_lines 0 (cur ++ x ∷ [])) ∷ []
            else procs)
          (if length cur + 1 == 260 then [] else cur ++ x ∷ [])
          (if b then lines ++ draw_padded (line ++ x ∷ []) ∷ [] else lines)
          (if b then [] else line ++ x ∷ [])
pull_ifs procs cur lines line x true =
    lookup_step-state 0 procs cur _ _ x false ∙ push_if (length cur + 1 == 260) _ _ _ _ _ _
pull_ifs procs cur lines line x false =
    lookup_step-state 0 procs cur _ _ x false ∙ push_if (length cur + 1 == 260) _ _ _ _ _ _

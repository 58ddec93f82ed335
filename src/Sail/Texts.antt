-- ===== src/Sail/Texts.antt =====
-- riscof/sail_cSim/riscof_sail_cSim.py: what cutting at a character, stripping and the last segment of a path do.
use mlogv.Prelude.{
  ℕ, ◌≡◌, ◌≢◌, ◌⊎◌, inl, inr, refl, ap, ◌∙◌, Bool, true, false, not, ◌&&◌, ◌||◌, none, some, List,
  [], ◌∷◌, ◌++◌, map, Text, codes, join, ◌==◌, All, arith,
}
use mlogv.PyInt.{is_space, strip_left, strip_right}
use mlogv.Riscof.{lower, squeeze, tidy, but_last}
use mlogv.Sail.{behind_slash, rule_onto, rules}

-- The character is not in the text.
unfoldable pub lacks : ℕ → Text → Bool
lacks sep [] = true
lacks sep (c ∷ s) = not (c == sep) && lacks sep s

-- Not every character is a space.
unfoldable pub ink : Text → Bool
ink [] = false
ink (c ∷ s) = not (is_space c) || ink s

pub lacks-append :
    (sep : ℕ) (s t : Text) → lacks sep s ≡ true → lacks sep t ≡ true → lacks sep (s ++ t) ≡ true
unfolding lacks
lacks-append sep [] t hs ht = ht
lacks-append sep (c ∷ s) t hs ht = ground (arith, hs, lacks-append sep s t)

pub lacks-All : (sep : ℕ) (s : Text) → lacks sep s ≡ true → All (λ c. c ≢ sep) s
unfolding lacks
lacks-All sep [] h = tt
lacks-All sep (c ∷ s) h = ground (arith, h, lacks-All sep s)

pub lacks-join :
    (sep : ℕ) (glue : Text) (parts : List Text)
    → lacks sep glue ≡ true
    → All (λ p. lacks sep p ≡ true) parts
    → lacks sep (join glue parts) ≡ true
unfolding lacks join
lacks-join sep glue [] g h = refl
lacks-join sep glue (p ∷ []) g h = h.0
lacks-join sep glue (p ∷ q ∷ ps) g h =
    lacks-append sep p (glue ++ join glue (q ∷ ps)) h.0
      (lacks-append sep glue (join glue (q ∷ ps)) g (lacks-join sep glue (q ∷ ps) g h.1))

pub lacks-lower : (s : Text) → lacks b';' s ≡ true → lacks b';' (lower s) ≡ true
unfolding lacks lower
lacks-lower [] h = refl
lacks-lower (c ∷ s) h = ground (arith, h, lacks-lower s)

pub lacks-but_last : (sep : ℕ) (s : Text) → lacks sep s ≡ true → lacks sep (but_last s) ≡ true
unfolding lacks but_last
lacks-but_last sep [] h = refl
lacks-but_last sep (c ∷ []) h = refl
lacks-but_last sep (c ∷ d ∷ s) h = ground (arith, h, lacks-but_last sep (d ∷ s))

pub ink-append : (s t : Text) → ink (s ++ t) ≡ (ink s || ink t)
unfolding ink
ink-append [] t = refl
ink-append (c ∷ s) t = ground (arith, ink-append s t)

ink-strip_left : (s : Text) → ink s ≡ true → ink (strip_left s) ≡ true
unfolding ink strip_left
ink-strip_left [] h = h
ink-strip_left (c ∷ s) h = ground (arith, h, ink-strip_left s)

List-cases : (s : Text) → (s ≡ []) ⊎ ((c : ℕ) × (t : Text) × (s ≡ c ∷ t))
List-cases [] = inl refl
List-cases (c ∷ s) = inr (c, s, refl)

ink-strip_right : (s : Text) → ink s ≡ true → (c : ℕ) × (t : Text) × (strip_right s ≡ c ∷ t)
unfolding ink strip_right
ink-strip_right [] h = cc
ink-strip_right (c ∷ s) h = elim (List-cases (strip_right s)) [
  | inr (d, t, e) ↦ (c, d ∷ t, rw e refl)
  | inl e ↦
      let blank : ink s ≢ true = λ k. cc (e, (ink-strip_right s k).2) in
      let mark : is_space c ≡ false = ground (arith, h, blank) in (c, [], rw (e, mark) refl)
]

-- a command of the makefile
abbrev pub in_directory : Text → Text → Text
in_directory work_dir cmd = codes "@cd " ++ (work_dir ++ (codes "; " ++ tidy cmd))

rule_onto-some :
    (work_dir stripped : Text) (rest : List Text) (c : ℕ) (t : Text)
    → stripped ≡ c ∷ t
    → rule_onto work_dir stripped rest
      ≡ (codes "@cd " ++ (work_dir ++ (codes "; " ++ squeeze stripped))) ∷ rest
unfolding rule_onto
rule_onto-some work_dir [] rest c t h = cc
rule_onto-some work_dir (d ∷ stripped) rest c t h = refl

rules-next :
    (work_dir cmd : Text) (cmds : List Text)
    → ink cmd ≡ true
    → rules work_dir (cmd ∷ cmds) ≡ in_directory work_dir cmd ∷ rules work_dir cmds
unfolding rules tidy
rules-next work_dir cmd cmds h =
    let (c, t, e) = ink-strip_right (strip_left cmd) (ink-strip_left cmd h) in
    rule_onto-some work_dir (strip_right (strip_left cmd)) (rules work_dir cmds) c t e

rules-blank : (work_dir : Text) → rules work_dir ([] ∷ []) ≡ []
unfolding rules rule_onto strip_left strip_right
rules-blank work_dir = refl

pub rules-map :
    (work_dir : Text) (cmds : List Text)
    → All (λ cmd. ink cmd ≡ true) cmds
    → rules work_dir (cmds ++ ([] ∷ [])) ≡ map (in_directory work_dir) cmds
rules-map work_dir [] h = rules-blank work_dir
rules-map work_dir (cmd ∷ cmds) h =
    rules-next work_dir cmd (cmds ++ ([] ∷ [])) h.0
    ∙ ap (λ r. in_directory work_dir cmd ∷ r) (rules-map work_dir cmds h.1)

-- the last segment of a path
lacks-behind_slash : (s : Text) → lacks b'/' s ≡ true → behind_slash s ≡ none
unfolding lacks behind_slash
lacks-behind_slash [] h = refl
lacks-behind_slash (c ∷ s) h =
    let rest : behind_slash s ≡ none = lacks-behind_slash s (ground (arith, h)) in
    let other : (c == b'/') ≡ false = ground (arith, h) in rw (rest, other) refl

pub behind_slash-file :
    (dir file : Text) → lacks b'/' file ≡ true → behind_slash (dir ++ (b'/' ∷ file)) ≡ some file
unfolding behind_slash
behind_slash-file [] file h = rw (lacks-behind_slash file h) refl
behind_slash-file (c ∷ dir) file h = rw (behind_slash-file dir file h) refl

pub but_last-append : (s : Text) (c : ℕ) → but_last (s ++ (c ∷ [])) ≡ s
unfolding but_last
but_last-append [] c = refl
but_last-append (d ∷ []) c = refl
but_last-append (d ∷ e ∷ s) c = ap (λ r. d ∷ r) (but_last-append (e ∷ s) c)

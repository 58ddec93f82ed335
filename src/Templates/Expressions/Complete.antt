-- ===== src/Templates/Expressions/Complete.antt =====
-- python/src/mlogv32/preprocessor/extensions.py: no line expression is passed over.
use mlogv.Prelude.{
  ℕ, suc, ◌≤◌, ◌≡◌, refl, sym, ap, subst, ◌∙◌, Bool, true, false, not, ◌&&◌, ◌||◌, Option, none,
  some, [], ◌∷◌, ◌++◌, append_assoc, Text, length, arith, ◌==◌, if◌then◌else◌,
}
use mlogv.Templates.Search.{Found, shifted, shift_all, here_or, search_from}
use mlogv.Templates.Expressions.{
  Groups, is_newline, span, is_blank, in_line, match_expression, match_space, match_minus,
  match_prefix, match_line,
}
use mlogv.Templates.Expressions.Matching.{print}

-- The text is at the begin of a line, where `at` says that it was before the text `a`.
abbrev pub begins : Bool → Text → Bool
begins at [] = at
begins at (c ∷ a) = begins (c == b'\n') a

abbrev pub AtEnd : Text → Type 0
AtEnd [] = Unit
AtEnd (c ∷ s) = c ≡ b'\n'

abbrev all_blank : Text → Bool
all_blank [] = true
all_blank (c ∷ s) = (c == b' ' || c == 9 || c == 11) && all_blank s

abbrev one_line : Text → Bool
one_line [] = true
one_line (c ∷ s) = not (c == 13 || c == b'\n') && one_line s

-- Blanks, a part that is not empty behind them, and neither carriage returns nor newlines in it.
abbrev pub IsExpression : Groups → Type 0
IsExpression g =
    (all_blank g.blank ≡ true) × (1 ≤ length g.expression) × (one_line g.expression ≡ true)

-- The line expressions of a text begin behind its first characters, as many as the number.
abbrev pub Passes : Bool → ℕ → Text → Type 0
Passes at n s =
    (a b : Text) (g : Groups)
    → IsExpression g
    → begins at a ≡ true
    → AtEnd b
    → s ≡ a ++ (print g ++ b)
    → n ≤ length a

span-blank :
    (s rest : Text) → all_blank s ≡ true → span is_blank (s ++ (b'#' ∷ rest)) ≡ (s, b'#' ∷ rest)
unfolding span is_blank
span-blank [] rest h = refl
span-blank (c ∷ s) rest h = ground (arith, h, span-blank s rest)

span-line : (s rest : Text) → one_line s ≡ true → AtEnd rest → span in_line (s ++ rest) ≡ (s, rest)
unfolding span in_line
span-line [] [] h e = refl
span-line [] (c ∷ rest) h e = ground (arith, e)
span-line (c ∷ s) rest h e = ground (arith, h, span-line s rest (ground (arith, h)) e)

match_expression_complete :
    (blank : Text) (minus : Bool) (s rest : Text)
    → 1 ≤ length s
    → AtEnd rest
    → (g : Groups) × (match_expression blank minus (s, rest) ≡ some (g, rest))
unfolding match_expression
match_expression_complete blank minus [] rest h e = absurd (omega arith)
match_expression_complete blank minus (c ∷ s) [] h e =
    (record { blank = blank; minus = minus; expression = c ∷ s }, refl)
match_expression_complete blank minus (c ∷ s) (d ∷ rest) h e =
    (record { blank = blank; minus = minus; expression = c ∷ s }, rw e refl)

match_space_complete :
    (blank : Text) (minus : Bool) (s rest : Text)
    → 1 ≤ length s
    → one_line s ≡ true
    → AtEnd rest
    → (g : Groups) × (match_space blank minus (b' ' ∷ (s ++ rest)) ≡ some (g, rest))
unfolding match_space
match_space_complete blank minus s rest h l e =
    let (g, found) = match_expression_complete blank minus s rest h e in
    (g, ap (match_expression blank minus) (span-line s rest l e) ∙ found)

abbrev sign : Bool → Text
sign true = b'-' ∷ b' ' ∷ []
sign false = b' ' ∷ []

match_minus_complete :
    (blank : Text) (minus : Bool) (s rest : Text)
    → 1 ≤ length s
    → one_line s ≡ true
    → AtEnd rest
    → (g : Groups) × (match_minus blank
          ((if minus then b'-' ∷ b' ' ∷ [] else b' ' ∷ []) ++ (s ++ rest))
        ≡ some (g, rest))
unfolding match_minus
match_minus_complete blank true s rest h l e = match_space_complete blank true s rest h l e
match_minus_complete blank false s rest h l e = match_space_complete blank false s rest h l e

match_line_complete :
    (g : Groups) (rest : Text)
    → IsExpression g
    → AtEnd rest
    → (g' : Groups) × (match_line (print g ++ rest) ≡ some (g', rest))
unfolding match_line match_prefix
match_line_complete g rest (blanks, some_text, line) e =
    let mark = if g.minus then b'-' ∷ b' ' ∷ [] else b' ' ∷ [] in
    let (g', found) = match_minus_complete g.blank g.minus g.expression rest some_text line e in
    let shape : print g ++ rest ≡ g.blank ++ (b'#' ∷ b'{' ∷ (mark ++ (g.expression ++ rest))) =
      append_assoc g.blank (b'#' ∷ b'{' ∷ (mark ++ g.expression)) rest
      ∙ ap (λ t. g.blank ++ (b'#' ∷ b'{' ∷ t)) (append_assoc mark g.expression rest) in
    (
      g',
      ap match_line shape
          ∙ ap (λ cut. match_prefix cut.0 cut.1)
              (span-blank g.blank (b'{' ∷ (mark ++ (g.expression ++ rest))) blanks)
          ∙ found,
    )

-- what a search finds begins no later than a match that begins at a boundary
search_from-first :
    (at : Bool) (a : Text) (c : ℕ) (t : Text) (g : Groups) (rest : Text)
    → begins at a ≡ true
    → match_line (c ∷ t) ≡ some (g, rest)
    → (r : Found Groups) × (search_from match_line is_newline at (a ++ (c ∷ t)) ≡ some r)
      × (length r.before ≤ length a)
unfolding search_from is_newline
search_from-first at [] c t g rest b m =
    (record { before = []; found = g; after = rest }, rw (b, m) refl, omega arith)
search_from-first at (d ∷ a) c t g rest b m =
    let (r, found, early) = search_from-first (d == b'\n') a c t g rest b m in
    let (r', found', early') = here_or-early at (match_line (d ∷ (a ++ (c ∷ t)))) d r in
    (
      r',
      ap
            (λ later.
              if at
              then here_or (match_line (d ∷ (a ++ (c ∷ t)))) (shift_all d later)
              else shift_all d later)
            found
          ∙ found',
      omega (arith, early, early'),
    )
  where
    here_or-early :
        (at : Bool) (m : Option (Groups × Text)) (d : ℕ) (r : Found Groups)
        → (r' : Found Groups) × ((if at
              then here_or m (shift_all d (some r))
              else shift_all d (some r))
            ≡ some r')
          × (length r'.before ≤ suc (length r.before))
    here_or-early true none d r = (shifted d r, refl, omega arith)
    here_or-early true (some (g, rest)) d r =
        (record { before = []; found = g; after = rest }, refl, omega arith)
    here_or-early false m d r = (shifted d r, refl, omega arith)

print-cons : (g : Groups) (b : Text) → (c : ℕ) × (t : Text) × (print g ++ b ≡ c ∷ t)
print-cons g b = by_blank g.blank
  where
    by_blank :
        (blank : Text)
        → (c : ℕ) × (t : Text) × ((blank
                ++ (b'#'
                    ∷ b'{'
                    ∷ ((if g.minus then b'-' ∷ b' ' ∷ [] else b' ' ∷ []) ++ g.expression)))
              ++ b
            ≡ c ∷ t)
    by_blank [] = (b'#', _, refl)
    by_blank (d ∷ blank) = (d, _, refl)

first_found :
    (at : Bool) (s a b : Text) (g : Groups)
    → IsExpression g
    → begins at a ≡ true
    → AtEnd b
    → s ≡ a ++ (print g ++ b)
    → (r : Found Groups) × (search_from match_line is_newline at s ≡ some r)
      × (length r.before ≤ length a)
first_found at s a b g line begin end whole =
    let (g', m) = match_line_complete g b line end in
    let (c, t, shape) = print-cons g b in
    let (r, found, early) = search_from-first at a c t g' b begin (ap match_line (sym shape) ∙ m) in
    (r, ap (search_from match_line is_newline at) (whole ∙ ap (λ u. a ++ u) shape) ∙ found, early)

pub missed-Passes :
    (at : Bool) (s : Text) → search_from match_line is_newline at s ≡ none → Passes at (length s) s
missed-Passes at s h a b g line begin end whole =
    let (r, found, early) = first_found at s a b g line begin end whole in cc (h, found)

pub hit-Passes :
    (at : Bool) (s : Text) (r : Found Groups)
    → search_from match_line is_newline at s ≡ some r
    → Passes at (length r.before) s
hit-Passes at s r h a b g line begin end whole =
    let (r', found, early) = first_found at s a b g line begin end whole in
    let same : r' ≡ r = cc (h, found) in subst (λ q. length q.before ≤ length a) same early

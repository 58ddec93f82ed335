-- ===== src/Templates/Expressions/Matching.antt =====
-- python/src/mlogv32/preprocessor/extensions.py: the text of a match of `line_expression_re`.
use mlogv.Prelude.{
  ℕ, ◌+◌, ◌≤◌, ◌≡◌, refl, sym, ap, ap₂, ◌∙◌, Bool, true, false, some, inl, inr, [], ◌∷◌, ◌++◌,
  append_assoc, Text, length, arith, if◌then◌else◌, ◌==◌, Bool-cases, length-append,
}
use mlogv.PyInt.{strip_right}
use mlogv.Templates.{count_newlines}
use mlogv.Templates.Search.{Prints}
use mlogv.Templates.Variables.Coverage.{count_newlines-append}
use mlogv.Templates.Expressions.{
  Groups, is_newline, span, is_blank, in_line, match_expression, match_space, match_minus,
  match_prefix, match_line,
}

abbrev pub print : Groups → Text
print groups =
    groups.blank
    ++ (b'#' ∷ b'{' ∷ ((if groups.minus then b'-' ∷ b' ' ∷ [] else b' ' ∷ []) ++ groups.expression))

span-append : (holds : ℕ → Bool) (s : Text) → s ≡ (span holds s).0 ++ (span holds s).1
unfolding span
span-append holds [] = refl
span-append holds (c ∷ s) = ground (arith, span-append holds s)

match_expression-print :
    (blank : Text) (minus : Bool) (cut : Text × Text) (g : Groups) (rest : Text)
    → match_expression blank minus cut ≡ some (g, rest)
    → (g ≡ record { blank = blank; minus = minus; expression = cut.0 }) × (rest ≡ cut.1)
unfolding match_expression
match_expression-print blank minus ([], r) g rest h = cc
match_expression-print blank minus (c ∷ e, []) g rest h = (cc, cc)
match_expression-print blank minus (c ∷ e, d ∷ r) g rest h = ground arith

match_space-print :
    (blank : Text) (minus : Bool) (s : Text) (g : Groups) (rest : Text)
    → match_space blank minus s ≡ some (g, rest)
    → (g.blank ≡ blank) × (g.minus ≡ minus) × (s ≡ b' ' ∷ (g.expression ++ rest))
unfolding match_space
match_space-print blank minus [] g rest h = cc
match_space-print blank minus (c ∷ s) g rest h =
    ground
      (arith, match_expression-print blank minus (span in_line s) g rest, span-append in_line s)

match_minus-print :
    (blank s : Text) (g : Groups) (rest : Text)
    → match_minus blank s ≡ some (g, rest)
    → (g.blank ≡ blank)
      × (s ≡ (if g.minus then b'-' ∷ b' ' ∷ [] else b' ' ∷ []) ++ (g.expression ++ rest))
unfolding match_minus
match_minus-print blank [] g rest h = cc
match_minus-print blank (c ∷ s) g rest h =
    ground
      (arith, match_space-print blank true s g rest, match_space-print blank false (c ∷ s) g rest)

match_prefix-print :
    (blank s : Text) (g : Groups) (rest : Text)
    → match_prefix blank s ≡ some (g, rest)
    → (g.blank ≡ blank)
      × (s
          ≡ b'#'
            ∷ b'{'
            ∷ ((if g.minus then b'-' ∷ b' ' ∷ [] else b' ' ∷ []) ++ (g.expression ++ rest)))
unfolding match_prefix
match_prefix-print blank [] g rest h = cc
match_prefix-print blank (c ∷ []) g rest h = cc
match_prefix-print blank (c ∷ d ∷ s) g rest h = ground (arith, match_minus-print blank s g rest)

regroup :
    (blank prefix expression rest : Text)
    → (blank ++ (b'#' ∷ b'{' ∷ (prefix ++ expression))) ++ rest
      ≡ blank ++ (b'#' ∷ b'{' ∷ (prefix ++ (expression ++ rest)))
regroup blank prefix expression rest = simp (append_assoc)

match_line-print :
    (s : Text) (g : Groups) (rest : Text) → match_line s ≡ some (g, rest) → s ≡ print g ++ rest
unfolding match_line
match_line-print s g rest h =
    let (same, shape) = match_prefix-print (span is_blank s).0 (span is_blank s).1 g rest h in
    span-append is_blank s
    ∙ ap₂ ◌++◌ (sym same) shape
    ∙ sym (regroup g.blank (if g.minus then b'-' ∷ b' ' ∷ [] else b' ' ∷ []) g.expression rest)

length-print : (g : Groups) → 1 ≤ length (print g)
length-print g = omega (
  arith,
  length-append g.blank
      (b'#' ∷ b'{' ∷ ((if g.minus then b'-' ∷ b' ' ∷ [] else b' ' ∷ []) ++ g.expression)),
)

pub match_line-Prints : Prints match_line is_newline print
match_line-Prints = record { prints = match_line-print; not_empty = length-print }

-- a match stands in one line
span-newlines :
    (holds : ℕ → Bool) (s : Text) → holds b'\n' ≡ false → count_newlines (span holds s).0 ≡ 0
unfolding span count_newlines
span-newlines holds [] h = refl
span-newlines holds (c ∷ s) h = elim (Bool-cases (c == b'\n')) [
  | inl new ↦
      let same : c ≡ b'\n' = ground arith in
      let outside : holds c ≡ false = ap holds same ∙ h in rw (outside) refl
  | inr other ↦ ground (arith, other, span-newlines holds s h)
]

is_blank_newline : is_blank b'\n' ≡ false
unfolding is_blank
is_blank_newline = refl

in_line_newline : in_line b'\n' ≡ false
unfolding in_line
in_line_newline = refl

match_space-newlines :
    (blank : Text) (minus : Bool) (s : Text) (g : Groups) (rest : Text)
    → match_space blank minus s ≡ some (g, rest)
    → count_newlines g.expression ≡ 0
unfolding match_space
match_space-newlines blank minus [] g rest h = cc
match_space-newlines blank minus (c ∷ s) g rest h = ground (
  arith,
  match_expression-print blank minus (span in_line s) g rest,
  span-newlines in_line s in_line_newline,
)

match_minus-newlines :
    (blank s : Text) (g : Groups) (rest : Text)
    → match_minus blank s ≡ some (g, rest)
    → count_newlines g.expression ≡ 0
unfolding match_minus
match_minus-newlines blank [] g rest h = cc
match_minus-newlines blank (c ∷ s) g rest h = ground (
  arith,
  match_space-newlines blank true s g rest,
  match_space-newlines blank false (c ∷ s) g rest,
)

match_prefix-newlines :
    (blank s : Text) (g : Groups) (rest : Text)
    → match_prefix blank s ≡ some (g, rest)
    → count_newlines g.expression ≡ 0
unfolding match_prefix
match_prefix-newlines blank [] g rest h = cc
match_prefix-newlines blank (c ∷ []) g rest h = cc
match_prefix-newlines blank (c ∷ d ∷ s) g rest h =
    ground (arith, match_minus-newlines blank s g rest)

newlines_behind :
    (n : ℕ) (minus : Bool) (e : Text)
    → n ≡ 0
    → count_newlines e ≡ 0
    → n + count_newlines (b'#' ∷ b'{' ∷ ((if minus then b'-' ∷ b' ' ∷ [] else b' ' ∷ []) ++ e)) ≡ 0
unfolding count_newlines
newlines_behind n true e h k = omega arith
newlines_behind n false e h k = omega arith

pub match_line-newlines :
    (s rest : Text) (g : Groups) → match_line s ≡ some (g, rest) → count_newlines (print g) ≡ 0
unfolding match_line
match_line-newlines s rest g h =
    let (same, shape) = match_prefix-print (span is_blank s).0 (span is_blank s).1 g rest h in
    let blank : count_newlines g.blank ≡ 0 =
      ap count_newlines same ∙ span-newlines is_blank s is_blank_newline in
    let expression = match_prefix-newlines (span is_blank s).0 (span is_blank s).1 g rest h in
    count_newlines-append g.blank
      (b'#' ∷ b'{' ∷ ((if g.minus then b'-' ∷ b' ' ∷ [] else b' ' ∷ []) ++ g.expression))
    ∙ newlines_behind (count_newlines g.blank) g.minus g.expression blank expression

pub strip_right-newlines : (s : Text) → count_newlines (strip_right s) ≤ count_newlines s
unfolding strip_right count_newlines
strip_right-newlines [] = omega arith
strip_right-newlines (c ∷ s) = ground (arith, strip_right-newlines s)

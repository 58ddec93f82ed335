-- ===== src/Templates/Expressions/Lines.antt =====
-- python/src/mlogv32/preprocessor/extensions.py: the lines that the tokens of a line expression carry.
use mlogv.Prelude.{ℕ, ◌+◌, ◌-◌, ◌≡◌, Bool, false, Option, some, List, [], ◌∷◌, ◌++◌, Text, length}
use mlogv.Templates.{Token, count_newlines, in_front, data_token}
use mlogv.Templates.Search.{Found}
use mlogv.Templates.Expressions.{Groups, kept, front_token, blank_token, expression_tokens}
use mlogv.Templates.Expressions.Complete.{Passes}
use mlogv.Templates.Expressions.Matching.{print}

-- the newlines that `rstrip` takes from the text in front of a match
abbrev pub lost : Groups → Text → ℕ
lost groups before = count_newlines before - count_newlines (kept groups before)

-- A cut of a text: for each match the line that its tokens carry, the text in front and the groups.
abbrev pub Cut : Type 0
Cut = List (ℕ × Text × Groups)

abbrev pub source : Cut → Text → Text
source [] tail = tail
source ((lineno, before, groups) ∷ cut) tail = before ++ (print groups ++ source cut tail)

-- The line of each match is the one in which it stands, less the newlines lost so far; `line` is the
-- true line at the begin, and `missing` what is lost before.
abbrev pub Lags : ℕ → ℕ → Cut → Type 0
Lags line missing [] = Unit
Lags line missing ((lineno, before, groups) ∷ cut) =
    (lineno + (missing + lost groups before) ≡ line + count_newlines before)
    × Lags (line + count_newlines (before ++ print groups)) (missing + lost groups before) cut

-- Each part in front of a match, and the tail, has no line expression that begins in it.
abbrev pub IsComplete : Bool → Cut → Text → Type 0
IsComplete at [] tail = Passes at (length tail) tail
IsComplete at ((lineno, before, groups) ∷ cut) tail =
    Passes at (length before) (before ++ (print groups ++ source cut tail))
    × IsComplete false cut tail

module _ (tokenize : Text → List (Text × Text)) where
  -- the tokens of a cut, `shown` being the line that the loop has counted
  abbrev pub emit : ℕ → Cut → Text → List Token
  emit shown [] tail = data_token shown tail
  emit shown ((lineno, before, groups) ∷ cut) tail =
      (front_token shown groups before
        ++ (blank_token lineno groups ++ expression_tokens tokenize lineno groups))
      ++ emit lineno cut tail

  abbrev Cuts : Bool → ℕ → ℕ → Text → Option (List Token) → Type 0
  Cuts at shown missing s filtered =
      (cut : Cut) × (tail : Text) × (filtered ≡ some (emit shown cut tail))
      × (s ≡ source cut tail)
      × Lags (shown + missing) missing cut
      × IsComplete at cut tail

  abbrev round : ℕ → Found Groups → Option (List Token) → Option (List Token)
  round lineno r later =
      let lineno' = lineno + count_newlines (kept r.found r.before) in
      in_front
        (front_token lineno r.found r.before
          ++ (blank_token lineno' r.found ++ expression_tokens tokenize lineno' r.found))
        later

-- ===== src/Templates/Variables/Coverage.antt =====
-- python/src/mlogv32/preprocessor/extensions.py: the tokens of `LocalVariables.filter_stream` against the
-- text.
use mlogv.Prelude.{
  ℕ, zero, suc, ◌+◌, ◌<◌, ◌≡◌, refl, sym, ap, ap₂, subst, ◌∙◌, Bool, true, false, Option, none,
  some, Option-cases, inl, inr, List, [], ◌∷◌, ◌++◌, append-nil, append_assoc, Text, text_eq, codes,
  length, arith, if◌then◌else◌,
}
use mlogv.Templates.{Token, count_newlines, in_front, data_token}
use mlogv.Templates.Search.{
  Found, search_from, Prints, search_from-matches, search_from-print, search_from-shorter,
}
use mlogv.Templates.Variables.{
  is_break, take_name, some_name, match_local, call_tokens, filter_data,
}

-- The text that a token stands for: its value, or `$` with the name of the variable.
abbrev pub source_of : Token → Text
source_of token =
    if text_eq token.kind (codes "data")
    then token.value
    else if text_eq token.kind (codes "string")
    then b'$' ∷ token.value
    else []

abbrev pub source : List Token → Text
source [] = []
source (token ∷ tokens) = source_of token ++ source tokens

-- Every token carries the line in which its text begins, if the first begins in line `lineno`.
abbrev pub Located : ℕ → List Token → Type 0
Located lineno [] = Unit
Located lineno (token ∷ tokens) =
    (token.lineno ≡ lineno) × Located (lineno + count_newlines (source_of token)) tokens

take_name-append : (s : Text) → s ≡ (take_name s).0 ++ (take_name s).1
unfolding take_name
take_name-append [] = refl
take_name-append (c ∷ s) = ground (arith, take_name-append s)

abbrev print : Text → Text
print name = b'$' ∷ name

some_name-eq_some :
    (p : Text × Text) (name rest : Text) → some_name p ≡ some (name, rest) → p ≡ (name, rest)
unfolding some_name
some_name-eq_some ([], r) name rest h = cc
some_name-eq_some (c ∷ n, r) name rest h = cc

match_local-cases :
    (c : ℕ) (s name rest : Text)
    → match_local (c ∷ s) ≡ some (name, rest)
    → (c ≡ b'$') × (some_name (take_name s) ≡ some (name, rest))
unfolding match_local
match_local-cases c s name rest h = ground arith

match_local-print :
    (s name rest : Text) → match_local s ≡ some (name, rest) → s ≡ print name ++ rest
match_local-print [] name rest h = unfold match_local in cc h
match_local-print (c ∷ s) name rest h =
    let (dollar, named) = match_local-cases c s name rest h in
    let cut = some_name-eq_some (take_name s) name rest named in
    ap₂ ◌∷◌ dollar (take_name-append s ∙ ap (λ p. p.0 ++ p.1) cut)

match_local-Prints : Prints match_local is_break print
match_local-Prints = record { prints = match_local-print; not_empty = λ a. omega arith }

pub count_newlines-append :
    (a b : Text) → count_newlines (a ++ b) ≡ count_newlines a + count_newlines b
unfolding count_newlines
count_newlines-append [] b = omega arith
count_newlines-append (c ∷ a) b = omega (arith, count_newlines-append a b)

-- a name stands in one line
take_name-newlines : (s : Text) → count_newlines (take_name s).0 ≡ 0
unfolding take_name count_newlines is_break
take_name-newlines [] = refl
take_name-newlines (c ∷ s) = ground (arith, take_name-newlines s)

match_local-newlines :
    (s name rest : Text) → match_local s ≡ some (name, rest) → count_newlines (print name) ≡ 0
match_local-newlines [] name rest h = unfold match_local in cc h
match_local-newlines (c ∷ s) name rest h =
    let (dollar, named) = match_local-cases c s name rest h in
    let cut = some_name-eq_some (take_name s) name rest named in
    unfold count_newlines in omega (arith, ap (λ p. count_newlines p.0) cut, take_name-newlines s)

source-append : (a b : List Token) → source (a ++ b) ≡ source a ++ source b
source-append [] b = refl
source-append (t ∷ a) b =
    ap (◌++◌ (source_of t)) (source-append a b)
    ∙ sym (append_assoc (source_of t) (source a) (source b))

Located-move : (k l : ℕ) (tokens : List Token) → k ≡ l → Located k tokens → Located l tokens
Located-move k l tokens e h = subst (λ n. Located n tokens) e h

Located-append :
    (lineno : ℕ) (a b : List Token)
    → Located lineno a
    → Located (lineno + count_newlines (source a)) b
    → Located lineno (a ++ b)
Located-append lineno [] b ha hb =
    Located-move (lineno + 0) lineno b (omega arith) (unfold count_newlines in hb)
Located-append lineno (t ∷ a) b (here, ha) hb = (
  here,
  Located-append (lineno + count_newlines (source_of t)) a b ha (
      Located-move (lineno + count_newlines (source_of t ++ source a))
        (lineno + count_newlines (source_of t) + count_newlines (source a)) b
        (omega (arith, count_newlines-append (source_of t) (source a))) hb),
)

data_token-source : (lineno : ℕ) (s : Text) → source (data_token lineno s) ≡ s
unfolding data_token text_eq
data_token-source lineno [] = refl
data_token-source lineno (c ∷ s) = append-nil (c ∷ s)

data_token-Located : (lineno : ℕ) (s : Text) → Located lineno (data_token lineno s)
unfolding data_token
data_token-Located lineno [] = tt
data_token-Located lineno (c ∷ s) = (refl, tt)

call_tokens-source : (lineno : ℕ) (name : Text) → source (call_tokens lineno name) ≡ print name
unfolding call_tokens text_eq
call_tokens-source lineno name = append-nil (print name)

call_tokens-Located :
    (lineno : ℕ) (name : Text)
    → count_newlines (print name) ≡ 0
    → Located lineno (call_tokens lineno name)
unfolding call_tokens text_eq count_newlines
call_tokens-Located lineno name h = ground arith

-- what the tokens of a text have to be
abbrev Covers : ℕ → Text → Option (List Token) → Type 0
Covers lineno s filtered =
    (tokens : List Token) × (filtered ≡ some tokens) × (source tokens ≡ s) × Located lineno tokens

Covers-round :
    (lineno : ℕ) (s : Text) (r : Found Text) (later : Option (List Token))
    → s ≡ r.before ++ (print r.found ++ r.after)
    → count_newlines (print r.found) ≡ 0
    → Covers (lineno + count_newlines r.before) r.after later
    → Covers lineno s (
        in_front
          (data_token lineno r.before ++ call_tokens (lineno + count_newlines r.before) r.found)
          later)
Covers-round lineno s r later whole one_line (tokens, e, same, located) =
    let line = lineno + count_newlines r.before in
    let calls = call_tokens line r.found in
    let front = data_token lineno r.before ++ calls in
    let front_source : source front ≡ r.before ++ print r.found =
      source-append (data_token lineno r.before) calls
      ∙ ap₂ ◌++◌ (data_token-source lineno r.before) (call_tokens-source line r.found) in
    let newlines : lineno + count_newlines r.before ≡ lineno + count_newlines (source front) =
      omega (
        arith,
        ap count_newlines front_source,
        count_newlines-append r.before (print r.found),
        one_line,
      ) in
    let front_located : Located lineno front =
      Located-append lineno (data_token lineno r.before) calls (data_token-Located lineno r.before)
        (Located-move line (lineno + count_newlines (source (data_token lineno r.before))) calls
          (ap (λ t. lineno + count_newlines t) (sym (data_token-source lineno r.before)))
          (call_tokens-Located line r.found one_line)) in
    (
      front ++ tokens,
      ap (in_front front) e,
      source-append front tokens
          ∙ ap₂ ◌++◌ front_source same
          ∙ append_assoc r.before (print r.found) r.after
          ∙ sym whole,
      Located-append lineno front tokens front_located
          (Located-move line (lineno + count_newlines (source front)) tokens newlines located),
    )

search_from-newlines :
    (at : Bool) (s : Text) (r : Found Text)
    → search_from match_local is_break at s ≡ some r
    → count_newlines (print r.found) ≡ 0
search_from-newlines at s r h =
    let (t, m) = search_from-matches match_local is_break at s r h in
    match_local-newlines t r.found r.after m

filter_data-missed :
    (fuel : ℕ) (at : Bool) (lineno : ℕ) (s : Text)
    → search_from match_local is_break at s ≡ none
    → filter_data (suc fuel) at lineno s ≡ some (data_token lineno s)
unfolding filter_data
filter_data-missed fuel at lineno s h = ground (arith, h)

filter_data-hit :
    (fuel : ℕ) (at : Bool) (lineno : ℕ) (s : Text) (r : Found Text)
    → search_from match_local is_break at s ≡ some r
    → filter_data (suc fuel) at lineno s
      ≡ in_front
          (data_token lineno r.before ++ call_tokens (lineno + count_newlines r.before) r.found)
          (filter_data fuel false (lineno + count_newlines r.before) r.after)
unfolding filter_data
filter_data-hit fuel at lineno s r h = ground (arith, h)

filter_data-Covers :
    (fuel : ℕ) (at : Bool) (lineno : ℕ) (s : Text)
    → length s < fuel
    → Covers lineno s (filter_data fuel at lineno s)
filter_data-Covers zero at lineno s enough = absurd (omega arith)
filter_data-Covers (suc fuel) at lineno s enough =
    elim (Option-cases (search_from match_local is_break at s)) [
      | inl missed ↦
          subst (Covers lineno s) (sym (filter_data-missed fuel at lineno s missed))
            (data_token lineno s, refl, data_token-source lineno s, data_token-Located lineno s)
      | inr (r, hit) ↦
          let shorter =
            search_from-shorter match_local is_break print match_local-Prints at s r hit in
          subst (Covers lineno s) (sym (filter_data-hit fuel at lineno s r hit)) (
            Covers-round lineno s r
              (filter_data fuel false (lineno + count_newlines r.before) r.after)
              (search_from-print match_local is_break print match_local-Prints at s r hit)
              (search_from-newlines at s r hit)
              (filter_data-Covers fuel false (lineno + count_newlines r.before) r.after
                (omega arith)))
    ]

-- A data token is cut into data and calls that, put together again, are its text, and every token
-- carries the number of the line in which its part of the text begins. The loop ends within as many
-- rounds as the text has characters, and one.
pub filter_data-source :
    (lineno : ℕ) (s : Text)
    → (tokens : List Token) × (filter_data (suc (length s)) true lineno s ≡ some tokens)
      × (source tokens ≡ s)
      × Located lineno tokens
filter_data-source lineno s = filter_data-Covers (suc (length s)) true lineno s (omega arith)

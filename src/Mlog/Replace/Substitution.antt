-- ===== src/Mlog/Replace/Substitution.antt =====
-- python/src/mlogv32/preprocessor/parser/mlog.py: `replace_symbolic_labels` against substitution in a text.
use mlogv.Prelude.{
  ℕ, ◌+◌, ◌-◌, ◌≡◌, refl, sym, ap, ◌∙◌, Bool, true, false, none, some, List, [], ◌∷◌, ◌++◌, Text,
  append_assoc, Result, ok, err, ◌>>=◌, bind-eq-ok, arith, length, length-append, take_of_append,
  drop_of_append, Option-cases, inl, inr, text_eq_iff,
}
use mlogv.PyInt.{decimal}
use mlogv.Mlog.{Token, Ast, MlogError, unknown_label, inner, count_statements}
use mlogv.Mlog.Labels.{iter_labels}
use mlogv.Mlog.Replace.{
  iter_label_refs, lookup, dict_of, dict_eq, all_in, same_value, slice, replace_from, sane_labels,
  check_sanity, replace_symbolic_labels,
}

-- A text cut at its label references: each piece is the text before a reference, and the reference.
abbrev pub Pieces : Type 0
Pieces = List (Text × Token)

abbrev pub tokens : Pieces → List Token
tokens [] = []
tokens ((gap, t) ∷ ps) = t ∷ tokens ps

abbrev pub render : Pieces → Text → Text
render [] tail = tail
render ((gap, t) ∷ ps) tail = gap ++ (t.text ++ render ps tail)

-- each token says where it stands in the text, which begins at `offset`
abbrev pub Placed : ℕ → Pieces → Type 0
Placed offset [] = Unit
Placed offset ((gap, t) ∷ ps) =
    (t.start_pos ≡ some (offset + length gap))
    × (t.end_pos ≡ some (offset + length gap + length t.text))
    × Placed (offset + length gap + length t.text) ps

abbrev pub behind : Text → Result MlogError Text → Result MlogError Text
behind s (ok t) = ok (s ++ t)
behind s (err e) = err e

-- every reference gives way to its address, or the first unknown one is an error
abbrev pub substitute : List (Text × ℕ) → Pieces → Text → Result MlogError Text
substitute labels [] tail = ok tail
substitute labels ((gap, t) ∷ ps) tail = elim (lookup labels (inner t.text)) [
  | none ↦ err (unknown_label t)
  | some address ↦ behind (gap ++ decimal address) (substitute labels ps tail)
]

slice-at :
    (done gap rest : Text) (offset : ℕ)
    → length done ≡ offset
    → slice (done ++ (gap ++ rest)) offset (offset + length gap) ≡ gap
unfolding slice
slice-at done gap rest offset e =
    let width : offset + length gap - offset ≡ length gap = omega arith in
    rw (width, ← e, drop_of_append done (gap ++ rest)) (take_of_append gap rest)

behind-behind : (s t : Text) (r : Result MlogError Text) → behind s (behind t r) ≡ behind (s ++ t) r
behind-behind s t (ok u) = rw append_assoc
behind-behind s t (err e) = refl

module _ (text : Text) (labels : List (Text × ℕ)) (start : ℕ) (parts : Text) (t : Token)
    (refs : List Token) where
  -- one round of the loop at a known label, and at an unknown one
  replace_from_known :
      {address first last : ℕ}
      → lookup labels (inner t.text) ≡ some address
      → t.start_pos ≡ some first
      → t.end_pos ≡ some last
      → replace_from text labels start parts (t ∷ refs)
        ≡ replace_from text labels last (parts ++ (slice text start first ++ decimal address)) refs
  unfolding replace_from
  replace_from_known k f l = ground arith

  replace_from_unknown :
      lookup labels (inner t.text) ≡ none
      → replace_from text labels start parts (t ∷ refs) ≡ err (unknown_label t)
  unfolding replace_from
  replace_from_unknown k = ground arith

module _ (labels : List (Text × ℕ)) (gap : Text) (t : Token) (ps : Pieces) (tail : Text) where
  substitute_known :
      (address : ℕ)
      → lookup labels (inner t.text) ≡ some address
      → substitute labels ((gap, t) ∷ ps) tail
        ≡ behind (gap ++ decimal address) (substitute labels ps tail)
  substitute_known address k = ground arith

  substitute_unknown :
      lookup labels (inner t.text) ≡ none
      → substitute labels ((gap, t) ∷ ps) tail ≡ err (unknown_label t)
  substitute_unknown k = ground arith

-- `rest` is the text behind the gap, `render` of the other pieces behind the reference
regroup :
    (done gap ref rest : Text) → done ++ (gap ++ (ref ++ rest)) ≡ (done ++ (gap ++ ref)) ++ rest
regroup done gap ref rest = simp append_assoc

replace_from-substitute :
    (labels : List (Text × ℕ)) (ps : Pieces) (done tail parts : Text) (offset : ℕ)
    → length done ≡ offset
    → Placed offset ps
    → replace_from (done ++ render ps tail) labels offset parts (tokens ps)
      ≡ behind parts (substitute labels ps tail)
replace_from-substitute labels [] done tail parts offset e h =
    unfold replace_from in rw (← e, drop_of_append done tail)
replace_from-substitute labels ((gap, t) ∷ ps) done tail parts offset e (first, last, later) =
    let rest = render ps tail in
    let text = done ++ (gap ++ (t.text ++ rest)) in
    elim (Option-cases (lookup labels (inner t.text))) [
      | inl unknown ↦
          replace_from_unknown text labels offset parts t (tokens ps) unknown
          ∙ sym (ap (behind parts) (substitute_unknown labels gap t ps tail unknown))
      | inr (address, known) ↦
          let width : length (done ++ (gap ++ t.text)) ≡ offset + length gap + length t.text =
            omega (arith, length-append done (gap ++ t.text), length-append gap t.text) in
          replace_from_known text labels offset parts t (tokens ps) known first last
          ∙ rw (slice-at done gap (t.text ++ rest) offset e, regroup done gap t.text rest)
              (replace_from-substitute labels ps (done ++ (gap ++ t.text)) tail
                (parts ++ (gap ++ decimal address)) _ width later)
          ∙ sym (behind-behind parts (gap ++ decimal address) (substitute labels ps tail))
          ∙ sym (ap (behind parts) (substitute_known labels gap t ps tail address known))
    ]

bind-ok : (m : Result MlogError Text) → (m >>= λ t. ok t) ≡ m
bind-ok (ok t) = refl
bind-ok (err e) = refl

behind_nil : (r : Result MlogError Text) → behind [] r ≡ r
behind_nil (ok t) = refl
behind_nil (err e) = refl

-- If the references of the program stand in the text where their tokens say, then replacing
-- without the sanity checks substitutes every reference by the address of its label, in decimal,
-- and leaves the text between as it is; the first reference to an unknown label is an error.
pub replace_symbolic_labels-substitute :
    (parse_mlog : Text → Result MlogError Ast) (ast : Ast) (labels : List (Text × ℕ)) (ps : Pieces)
    (tail : Text)
    → iter_label_refs ast ≡ tokens ps
    → Placed 0 ps
    → replace_symbolic_labels parse_mlog (render ps tail) ast labels false
      ≡ substitute labels ps tail
unfolding replace_symbolic_labels
replace_symbolic_labels-substitute parse_mlog ast labels ps tail e h =
    rw (bind-ok, e)
      (replace_from-substitute labels ps [] tail [] 0 refl h
        ∙ behind_nil (substitute labels ps tail))

lookup_of_all_in :
    (labels other : List (Text × ℕ)) (name : Text) (n : ℕ)
    → all_in labels other ≡ true
    → lookup labels name ≡ some n
    → lookup other name ≡ some n
unfolding all_in lookup same_value
lookup_of_all_in [] other name n h e = cc
lookup_of_all_in ((key, m) ∷ labels) other name n h e =
    ground (arith, text_eq_iff key name, lookup_of_all_in labels other name n)

sane_labels-ok :
    (same : Bool) (labels : List (Text × ℕ)) (new_ast : Ast) (new_text out : Text)
    → sane_labels same labels new_ast new_text ≡ ok out
    → (new_labels : List (Text × ℕ)) × (same ≡ true)
      × (new_text ≡ out)
      × (iter_labels new_ast ≡ ok new_labels)
      × (dict_eq labels (dict_of new_labels) ≡ true)
unfolding sane_labels
sane_labels-ok false labels new_ast new_text out h = cc
sane_labels-ok true labels new_ast new_text out h =
    let (new_labels, e, k) = bind-eq-ok (iter_labels new_ast) _ h in
    (new_labels, refl, ground arith, e, ground arith)

-- If replacing with the sanity checks returns, its text parses to code with as many statements,
-- whose labels can be listed, and every label of the program has the same address there.
pub replace_symbolic_labels-sane :
    (parse_mlog : Text → Result MlogError Ast) (text : Text) (ast : Ast) (labels : List (Text × ℕ))
    (out name : Text) (n : ℕ)
    → replace_symbolic_labels parse_mlog text ast labels true ≡ ok out
    → lookup labels name ≡ some n
    → (new_ast : Ast) × (new_labels : List (Text × ℕ)) × (parse_mlog out ≡ ok new_ast)
      × (iter_labels new_ast ≡ ok new_labels)
      × (count_statements new_ast ≡ count_statements ast)
      × (lookup (dict_of new_labels) name ≡ some n)
unfolding replace_symbolic_labels
replace_symbolic_labels-sane parse_mlog text ast labels out name n h known =
    let (new_text, e, h1) = bind-eq-ok (replace_from text labels 0 [] (iter_label_refs ast)) _ h in
    let (new_ast, parsed, h2) = bind-eq-ok (parse_mlog new_text) _ (unfold check_sanity in h1) in
    let (new_labels, counts, same, listed, dicts) =
      sane_labels-ok _ labels new_ast new_text out h2 in
    (
      new_ast,
      new_labels,
      rw same at parsed,
      listed,
      ground arith,
      lookup_of_all_in labels (dict_of new_labels) name n (unfold dict_eq in ground arith) known,
    )

-- ===== src/Mlog/Labels/Assertions.antt =====
-- The directives that assert an address or a length.
use mlogv.Prelude.{
  ℕ, ◌+◌, ◌-◌, ◌≡◌, ◌≢◌, inl, inr, ap, Option, none, some, List, [], ◌∷◌, ◌++◌, arith, Text, ◌∙◌,
  append-nil, Bool, not, ltb_ℤ, Option-cases, bind-eq-ok, if◌then◌else◌, ok, err, codes, ℤ, pos,
  text_eq, text_eq_iff,
}
use mlogv.PyInt.{parse_int}
use mlogv.Mlog.{
  Token, AstNode, statement, directive, Ast, invalid_value, count_statements, is_named,
}
use mlogv.Mlog.Labels.{
  LengthAssertion, expect_int, start_assert_length, end_assert_length, assert_counter,
  directive_step, at_end, labels_from, iter_labels,
}
use mlogv.Mlog.Labels.Positions.{labels_from-label, labels_from-directive}

-- Listing the labels gets past the code `pre`, and goes on with some open length assertion.
labels_from-suffix :
    (pre post : Ast) (counter : ℕ) (a : Option LengthAssertion) (ls : List (Text × ℕ))
    → labels_from counter a (pre ++ post) ≡ ok ls
    → (b : Option LengthAssertion) × (rest : List (Text × ℕ)) × (labels_from
          (counter + count_statements pre)
          b
          post
        ≡ ok rest)
unfolding labels_from count_statements
labels_from-suffix [] post counter a ls h = (a, ls, ground arith)
labels_from-suffix (AstNode.label n ∷ pre) post counter a ls h =
    let (rest, e, shape) = labels_from-label counter a n (pre ++ post) h in
    labels_from-suffix pre post counter a rest e
labels_from-suffix (statement n args ∷ pre) post counter a ls h =
    let (b, rest, e) = labels_from-suffix pre post (counter + 1) a ls h in (b, rest, ground arith)
labels_from-suffix (directive n args ∷ pre) post counter a ls h =
    let (a', e, later) = labels_from-directive counter a n args (pre ++ post) h in
    labels_from-suffix pre post counter a' ls later

-- A value that `expect_int` returns is the token's, whatever the predicate.
expect_int-ok :
    (n : Token) (p : Option (ℤ → Bool)) (v : ℤ) → expect_int n p ≡ ok v → parse_int n.text ≡ some v
unfolding expect_int
expect_int-ok n p v h = elim (Option-cases (parse_int n.text)) [
  | inl e ↦ cc (rw (e, expect_int) at h)
  | inr (w, e) ↦ step p w e (rw (e, expect_int) at h)
]
  where
    step :
        (q : Option (ℤ → Bool)) (w : ℤ)
        → parse_int n.text ≡ some w
        → elim q [ none ↦ ok w | some holds ↦ if holds w then ok w else err (invalid_value n w) ]
          ≡ ok v
        → parse_int n.text ≡ some v
    step none w e k = cc
    step (some f) w e k = ground arith

start-ok :
    (counter : ℕ) (a b : Option LengthAssertion) (name n : Token)
    → start_assert_length counter a name n ≡ ok b
    → (want : ℤ) × (parse_int n.text ≡ some want)
      × (b ≡ some (record { want_length = want; start_counter = counter; token = n }))
unfolding start_assert_length
start-ok counter none b name n h =
    let (want, e, shape) = bind-eq-ok (expect_int n (some (λ v. not (ltb_ℤ v (pos 0))))) _ h in
    (want, expect_int-ok n _ want e, cc)
start-ok counter (some x) b name n h = cc

-- The arms of `case Directive` with a known name.
module _ (counter : ℕ) (a b : Option LengthAssertion) (name : Token) where
  directive_step-counter :
      (n : Token)
      → name.text ≡ codes "assert_counter"
      → directive_step counter a name (n ∷ []) ≡ ok b
      → parse_int n.text ≡ some (pos counter)
  unfolding directive_step is_named text_eq assert_counter expect_int
  directive_step-counter n e h = ground (
    arith,
    ap (λ t. text_eq t (codes "start_assert_length")) e,
    ap (λ t. text_eq t (codes "end_assert_length")) e,
    ap (λ t. text_eq t (codes "assert_counter")) e,
  )

  -- what opens a length assertion
  directive_step-start :
      (n : Token)
      → name.text ≡ codes "start_assert_length"
      → directive_step counter a name (n ∷ []) ≡ ok b
      → (want : ℤ) × (parse_int n.text ≡ some want)
        × (b ≡ some (record { want_length = want; start_counter = counter; token = n }))
  unfolding directive_step is_named text_eq
  directive_step-start n e h =
      start-ok counter a b name n
        (ground (arith, ap (λ t. text_eq t (codes "start_assert_length")) e))

-- what closes it
directive_step-end :
    (counter : ℕ) (x : LengthAssertion) (b : Option LengthAssertion) (name : Token)
    (args : List Token)
    → name.text ≡ codes "end_assert_length"
    → directive_step counter (some x) name args ≡ ok b
    → x.want_length ≡ pos (counter - x.start_counter)
unfolding directive_step is_named text_eq end_assert_length
directive_step-end counter x b name (n ∷ []) e h = ground (
  arith,
  ap (λ t. text_eq t (codes "start_assert_length")) e,
  ap (λ t. text_eq t (codes "end_assert_length")) e,
)
directive_step-end counter x b name args e h =
    ground (arith, ap (λ t. text_eq t (codes "end_assert_length")) e)

-- a directive of another name keeps an open assertion
directive_step-open :
    (counter : ℕ) (x : LengthAssertion) (b : Option LengthAssertion) (name : Token)
    (args : List Token)
    → name.text ≢ codes "end_assert_length"
    → directive_step counter (some x) name args ≡ ok b
    → b ≡ some x
unfolding directive_step is_named start_assert_length assert_counter
directive_step-open counter x b name (n ∷ []) e h =
    ground (arith, text_eq_iff name.text (codes "end_assert_length"))
directive_step-open counter x b name args e h =
    ground (arith, text_eq_iff name.text (codes "end_assert_length"))

-- no directive in the code ends a length assertion
abbrev pub LacksEnd : Ast → Type 0
LacksEnd [] = Unit
LacksEnd (AstNode.label name ∷ ast) = LacksEnd ast
LacksEnd (statement name args ∷ ast) = LacksEnd ast
LacksEnd (directive name args ∷ ast) = (name.text ≢ codes "end_assert_length") × LacksEnd ast

-- an open assertion is still open behind code that ends none
labels_from-open :
    (body post : Ast) (counter : ℕ) (x : LengthAssertion) (ls : List (Text × ℕ))
    → LacksEnd body
    → labels_from counter (some x) (body ++ post) ≡ ok ls
    → (rest : List (Text × ℕ)) × (labels_from (counter + count_statements body) (some x) post
        ≡ ok rest)
unfolding labels_from count_statements
labels_from-open [] post counter x ls k h = (ls, ground arith)
labels_from-open (AstNode.label n ∷ body) post counter x ls k h =
    let (rest, e, shape) = labels_from-label counter (some x) n (body ++ post) h in
    labels_from-open body post counter x rest k e
labels_from-open (statement n args ∷ body) post counter x ls k h =
    let (rest, e) = labels_from-open body post (counter + 1) x ls k h in (rest, ground arith)
labels_from-open (directive n args ∷ body) post counter x ls (k, ks) h =
    let (a', e, later) = labels_from-directive counter (some x) n args (body ++ post) h in
    labels_from-open body post counter x ls ks
      (rw (directive_step-open counter x a' n args k e) at later)

-- If the labels of a program can be listed, the number that an `assert_counter` directive carries
-- is the number of statements before it.
iter_labels-assert_counter :
    (pre post : Ast) (name n : Token) (ls : List (Text × ℕ))
    → name.text ≡ codes "assert_counter"
    → iter_labels (pre ++ directive name (n ∷ []) ∷ post) ≡ ok ls
    → parse_int n.text ≡ some (pos (count_statements pre))
unfolding iter_labels
iter_labels-assert_counter pre post name n ls e h =
    let (b, rest, k) = labels_from-suffix pre (directive name (n ∷ []) ∷ post) 0 none ls h in
    let (a', step, later) =
      labels_from-directive (0 + count_statements pre) b name (n ∷ []) post k in
    ground (arith, directive_step-counter (0 + count_statements pre) b a' name n e step)

-- If the labels of a program can be listed, the number that a `start_assert_length` directive
-- carries is the number of statements up to the first `end_assert_length` directive behind it.
pub iter_labels-assert_length :
    (pre body post : Ast) (start n end : Token) (args : List Token) (ls : List (Text × ℕ))
    → start.text ≡ codes "start_assert_length"
    → end.text ≡ codes "end_assert_length"
    → LacksEnd body
    → iter_labels (pre ++ directive start (n ∷ []) ∷ (body ++ directive end args ∷ post)) ≡ ok ls
    → parse_int n.text ≡ some (pos (count_statements body))
unfolding iter_labels
iter_labels-assert_length pre body post start n end args ls es ee k h =
    let counter = 0 + count_statements pre in
    let tail = directive end args ∷ post in
    let (b, rest, h1) =
      labels_from-suffix pre (directive start (n ∷ []) ∷ (body ++ tail)) 0 none ls h in
    let (a', step, h2) = labels_from-directive counter b start (n ∷ []) (body ++ tail) h1 in
    let (want, read, shape) = directive_step-start counter b a' start n es step in
    let x : LengthAssertion = record { want_length = want; start_counter = counter; token = n } in
    let (rest', h3) = labels_from-open body tail counter x rest k (rw shape at h2) in
    let (a2, step2, h4) =
      labels_from-directive (counter + count_statements body) (some x) end args post h3 in
    let ends = directive_step-end (counter + count_statements body) x a2 end args ee step2 in
    let total : counter + count_statements body - counter ≡ count_statements body = omega arith in
    read ∙ ap some (ends ∙ ap pos total)

-- If the labels of a program can be listed, every length assertion that is opened is ended.
iter_labels-no_open :
    (pre body : Ast) (start n : Token) (ls : List (Text × ℕ))
    → start.text ≡ codes "start_assert_length"
    → LacksEnd body
    → iter_labels (pre ++ directive start (n ∷ []) ∷ body) ≢ ok ls
unfolding iter_labels
iter_labels-no_open pre body start n ls es k h =
    let counter = 0 + count_statements pre in
    let (b, rest, h1) = labels_from-suffix pre (directive start (n ∷ []) ∷ body) 0 none ls h in
    let (a', step, h2) = labels_from-directive counter b start (n ∷ []) body h1 in
    let (want, read, shape) = directive_step-start counter b a' start n es step in
    let x : LengthAssertion = record { want_length = want; start_counter = counter; token = n } in
    let h2' : labels_from counter (some x) (body ++ []) ≡ ok rest =
      rw append-nil (rw shape at h2) in
    let (rest', h3) = labels_from-open body [] counter x rest k h2' in
    unfold labels_from at_end in cc h3

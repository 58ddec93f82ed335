-- ===== src/Mlog/Unsaved/Prefix.antt =====
-- python/src/mlogv32/preprocessor/parser/mlog.py: `check_unsaved_variables` seen from a place of the
-- program: what the text in front of the place says of the fetch and of a variable, without the state
-- of the loop.
use mlogv.Prelude.{
  Bool, true, false, not, ◌&&◌, ◌||◌, ◌≡◌, refl, sym, ap, ap₂, ◌∙◌, Bool-cases, inl, inr, Option,
  none, some, List, [], ◌∷◌, Text, codes, ok, bind-eq-ok, arith, text_eq, text_eq_iff,
  if◌then◌else◌,
}
use mlogv.Mlog.{Token, AstNode, statement, directive, Ast, is_named}
use mlogv.Mlog.Unsaved.{
  Phase, fetch, check, Checker, warn, report, written, restore, written_by, statement_step,
  directive_step, node_step, check_nodes, target_of, writes_first, writes_second,
}
use mlogv.Mlog.Unsaved.Steps.{writes}

-- The last directive of the text that begins or ends a fetch.
abbrev fetch_word : AstNode → Option Text
fetch_word (directive name args) =
    if is_named name (codes "start_fetch")
    then some (codes "start_fetch")
    else if is_named name (codes "end_fetch")
    then some (codes "end_fetch")
    else none
fetch_word node = none

abbrev or_else : Option Text → Option Text → Option Text
or_else (some w) first = some w
or_else none first = first

abbrev pub last_fetch : Ast → Option Text
last_fetch [] = none
last_fetch (node ∷ ast) = or_else (last_fetch ast) (fetch_word node)

-- Some token of the list is the name.
abbrev pub holds : List Token → Text → Bool
holds [] v = false
holds (token ∷ args) v = text_eq token.text v || holds args v

-- whether a fetch is going on behind the node
abbrev pub fetching_after : Bool → AstNode → Bool
fetching_after fetching (directive name args) =
    if is_named name (codes "start_fetch")
    then true
    else if is_named name (codes "end_fetch")
    then false
    else fetching
fetching_after fetching node = fetching

-- whether the one variable is saved behind the node
abbrev pub saved_after : Bool → Bool → AstNode → Text → Bool
saved_after fetching saved (directive name args) v =
    if is_named name (codes "start_fetch")
    then saved
    else if is_named name (codes "end_fetch")
    then saved
    else if is_named name (codes "push_saved")
    then saved || holds args v
    else if is_named name (codes "pop_saved")
    then saved && not (holds args v)
    else saved
saved_after fetching saved (statement name (var ∷ target ∷ from ∷ [])) v =
    if is_named name (codes "read") && (fetching && is_named target (codes "prev_proc"))
    then saved || text_eq var.text v
    else saved
saved_after fetching saved node v = saved

-- Whether the variable is saved behind the text: `@counter` is from the begin on, a variable is from a
-- `push_saved` with it or its restoration inside a fetch on, and until a `pop_saved` with it.
abbrev pub is_saved_from : Bool → Bool → Ast → Text → Bool
is_saved_from fetching saved [] v = saved
is_saved_from fetching saved (node ∷ ast) v =
    is_saved_from (fetching_after fetching node) (saved_after fetching saved node v) ast v

abbrev pub is_saved : Ast → Text → Bool
is_saved ast v = is_saved_from false (text_eq (codes "@counter") v) ast v

abbrev among : Token → List Text → Bool
among name [] = false
among name (word ∷ words) = is_named name word || among name words

abbrev text_at_0 : List Token → Option Text
text_at_0 [] = none
text_at_0 (a ∷ args) = some a.text

abbrev text_at_1 : List Token → Option Text
text_at_1 [] = none
text_at_1 (a ∷ args) = text_at_0 args

abbrev read_variable : List Token → Option Text
read_variable (var ∷ from ∷ address ∷ []) = some var.text
read_variable _ = none

-- The variable that an instruction writes: the first argument or the second, by the instruction's name,
-- and the first of the three of `read`.
abbrev pub variable_written : Token → List Token → Option Text
variable_written name args =
    if is_named name (codes "read")
    then read_variable args
    else if among name
        (codes "getflag" ∷ codes "getlink" ∷ codes "sensor" ∷ codes "set" ∷ codes "select" ∷ [])
    then text_at_0 args
    else if among name (codes "getblock" ∷ codes "lookup" ∷ codes "op" ∷ [])
    then text_at_1 args
    else none

is_first : Text → Bool
is_first w =
    text_eq w (codes "getflag")
    || text_eq w (codes "getlink")
    || text_eq w (codes "sensor")
    || text_eq w (codes "set")
    || text_eq w (codes "select")

is_second : Text → Bool
is_second w = text_eq w (codes "getblock") || text_eq w (codes "lookup") || text_eq w (codes "op")

by_word :
    (test : Text → Bool) (w word : Text)
    → test word ≡ false
    → text_eq w word ≡ true
    → test w ≡ false
by_word test w word h e = ap test ((text_eq_iff w word).0 e) ∙ h

read_first : (w : Text) → text_eq w (codes "read") ≡ true → is_first w ≡ false
read_first w = by_word is_first w (codes "read") (unfold is_first text_eq in refl)

read_second : (w : Text) → text_eq w (codes "read") ≡ true → is_second w ≡ false
read_second w = by_word is_second w (codes "read") (unfold is_second text_eq in refl)

getblock_first : (w : Text) → text_eq w (codes "getblock") ≡ true → is_first w ≡ false
getblock_first w = by_word is_first w (codes "getblock") (unfold is_first text_eq in refl)

lookup_first : (w : Text) → text_eq w (codes "lookup") ≡ true → is_first w ≡ false
lookup_first w = by_word is_first w (codes "lookup") (unfold is_first text_eq in refl)

op_first : (w : Text) → text_eq w (codes "op") ≡ true → is_first w ≡ false
op_first w = by_word is_first w (codes "op") (unfold is_first text_eq in refl)

second_first : (w : Text) → is_second w ≡ true → is_first w ≡ false
unfolding is_second
second_first w h = ground (arith, h, getblock_first w, lookup_first w, op_first w)

abbrev target_by : Bool → Bool → List Token → Option Text
target_by second first [] = none
target_by second first (a ∷ []) = if first then some a.text else none
target_by second first (a ∷ b ∷ args) =
    if second then some b.text else if first then some a.text else none

abbrev table_by : Bool → Bool → List Token → Option Text
table_by second first args =
    if first then text_at_0 args else if second then text_at_1 args else none

target_by-table_by :
    (second first : Bool) (args : List Token)
    → (second ≡ true → first ≡ false)
    → target_by second first args ≡ table_by second first args
target_by-table_by true true args h = cc (h refl)
target_by-table_by true false [] h = refl
target_by-table_by true false (a ∷ []) h = refl
target_by-table_by true false (a ∷ b ∷ args) h = refl
target_by-table_by false true [] h = refl
target_by-table_by false true (a ∷ []) h = refl
target_by-table_by false true (a ∷ b ∷ args) h = refl
target_by-table_by false false [] h = refl
target_by-table_by false false (a ∷ []) h = refl
target_by-table_by false false (a ∷ b ∷ args) h = refl

first_words-same :
    (name : Token)
    → (writes_first name ≡ is_first name.text)
      × (among name
            (codes "getflag" ∷ codes "getlink" ∷ codes "sensor" ∷ codes "set" ∷ codes "select" ∷ [])
          ≡ is_first name.text)
unfolding writes_first is_first is_named
first_words-same name = (refl, ground arith)

second_words-same :
    (name : Token)
    → (writes_second name ≡ is_second name.text)
      × (among name (codes "getblock" ∷ codes "lookup" ∷ codes "op" ∷ []) ≡ is_second name.text)
unfolding writes_second is_second is_named
second_words-same name = (refl, ground arith)

target_of-by :
    (name : Token) (args : List Token)
    → target_of name args ≡ target_by (writes_second name) (writes_first name) args
unfolding target_of
target_of-by name [] = refl
target_of-by name (a ∷ []) = refl
target_of-by name (a ∷ b ∷ args) = refl

target_of-table :
    (name : Token) (args : List Token)
    → target_of name args ≡ table_by (is_second name.text) (is_first name.text) args
target_of-table name args =
    target_of-by name args
    ∙ ap₂ (λ s f. target_by s f args) (second_words-same name).0 (first_words-same name).0
    ∙ target_by-table_by (is_second name.text) (is_first name.text) args (second_first name.text)

abbrev chosen : Bool → Bool → Bool → List Token → Option Text
chosen read first second args = if read then read_variable args else table_by second first args

variable_written-chosen :
    (name : Token) (args : List Token)
    → variable_written name args
      ≡ chosen (is_named name (codes "read")) (is_first name.text) (is_second name.text) args
variable_written-chosen name args =
    ap₂ (λ f s. chosen (is_named name (codes "read")) f s args) (first_words-same name).1
      (second_words-same name).1

no_table : (args : List Token) → table_by false false args ≡ none
no_table args = refl

writes_other :
    (name : Token) (args : List Token)
    → (is_named name (codes "read") ≡ true → read_variable args ≡ none)
    → target_of name args ≡ variable_written name args
writes_other name args h = elim (Bool-cases (is_named name (codes "read"))) [
  | inl r ↦
      target_of-table name args
      ∙ ap₂ (λ s f. table_by s f args) (read_second name.text (unfold is_named in r))
          (read_first name.text (unfold is_named in r))
      ∙ sym (h r)
      ∙ ap (λ b. chosen b (is_first name.text) (is_second name.text) args) (sym r)
      ∙ sym (variable_written-chosen name args)
  | inr r ↦
      target_of-table name args
      ∙ ap (λ b. chosen b (is_first name.text) (is_second name.text) args) (sym r)
      ∙ sym (variable_written-chosen name args)
]

pub writes-variable_written :
    (name : Token) (args : List Token) → writes name args ≡ variable_written name args
writes-variable_written name [] = writes_other name [] (λ r. refl)
writes-variable_written name (a ∷ []) = writes_other name (a ∷ []) (λ r. refl)
writes-variable_written name (a ∷ b ∷ []) = writes_other name (a ∷ b ∷ []) (λ r. refl)
writes-variable_written name (a ∷ b ∷ d ∷ []) = elim (Bool-cases (is_named name (codes "read"))) [
  | inl r ↦
      ap (λ x. if x then some a.text else target_of name (a ∷ b ∷ d ∷ [])) r
      ∙ ap (λ x. chosen x (is_first name.text) (is_second name.text) (a ∷ b ∷ d ∷ [])) (sym r)
      ∙ sym (variable_written-chosen name (a ∷ b ∷ d ∷ []))
  | inr r ↦
      ap (λ x. if x then some a.text else target_of name (a ∷ b ∷ d ∷ [])) r
      ∙ target_of-table name (a ∷ b ∷ d ∷ [])
      ∙ ap (λ x. chosen x (is_first name.text) (is_second name.text) (a ∷ b ∷ d ∷ [])) (sym r)
      ∙ sym (variable_written-chosen name (a ∷ b ∷ d ∷ []))
]
writes-variable_written name (a ∷ b ∷ d ∷ e ∷ args) =
    writes_other name (a ∷ b ∷ d ∷ e ∷ args) (λ r. refl)

-- the phase behind a text, by its last directive of the fetch
abbrev pub phase_behind : Phase → Option Text → Phase
phase_behind p none = p
phase_behind p (some w) = if text_eq w (codes "end_fetch") then check else fetch

directive_step-phase :
    (c : Checker) (name : Token) (args : List Token) {c' : Checker}
    → directive_step c name args ≡ ok c'
    → c'.state ≡ phase_behind c.state (fetch_word (directive name args))
unfolding directive_step text_eq
directive_step-phase c name args h = ground arith

pub statement_step-phase :
    (c : Checker) (name : Token) (args : List Token) → (statement_step c name args).state ≡ c.state
unfolding statement_step written restore written_by report warn
statement_step-phase c name [] = ground arith
statement_step-phase c name (a ∷ []) = ground arith
statement_step-phase c name (a ∷ b ∷ []) = ground arith
statement_step-phase c name (a ∷ b ∷ d ∷ []) = ground arith
statement_step-phase c name (a ∷ b ∷ d ∷ e ∷ args) = ground arith

node_step-phase :
    (c : Checker) (node : AstNode) {c' : Checker}
    → node_step c node ≡ ok c'
    → c'.state ≡ phase_behind c.state (fetch_word node)
unfolding node_step
node_step-phase c (AstNode.label name) h = ground arith
node_step-phase c (statement name args) h = ground (arith, statement_step-phase c name args)
node_step-phase c (directive name args) h = directive_step-phase c name args h

phase_behind-or_else :
    (p : Phase) (later first : Option Text)
    → phase_behind (phase_behind p first) later ≡ phase_behind p (or_else later first)
phase_behind-or_else p none first = refl
phase_behind-or_else p (some w) first = refl

pub check_nodes-phase :
    (ast : Ast) (c : Checker) {c' : Checker}
    → check_nodes c ast ≡ ok c'
    → c'.state ≡ phase_behind c.state (last_fetch ast)
unfolding check_nodes
check_nodes-phase [] c h = ground arith
check_nodes-phase (node ∷ ast) c h =
    let (c1, step, later) = bind-eq-ok (node_step c node) (λ c1. check_nodes c1 ast) h in
    check_nodes-phase ast c1 later
    ∙ ap (λ p. phase_behind p (last_fetch ast)) (node_step-phase c node step)
    ∙ phase_behind-or_else c.state (last_fetch ast) (fetch_word node)

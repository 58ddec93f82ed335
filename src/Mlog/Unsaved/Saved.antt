-- ===== src/Mlog/Unsaved/Saved.antt =====
-- python/src/mlogv32/preprocessor/parser/mlog.py: the set of saved variables in `check_unsaved_variables`
-- against the text in front.
use mlogv.Prelude.{
  Bool, true, false, not, ◌&&◌, ◌||◌, ◌≡◌, refl, sym, ap, ap₂, subst, ◌∙◌, Bool-cases, inl, inr,
  List, [], ◌∷◌, Result, Text, codes, ok, ◌>>=◌, bind-eq-ok, arith, contains, text_eq, text_eq_iff,
  if◌then◌else◌,
}
use mlogv.Mlog.{MlogError, Token, AstNode, statement, directive, Ast, is_named}
use mlogv.Mlog.Unsaved.{
  fetch, check, Checker, add, remove, add_all, remove_all, is_fetch, warn, report, written, restore,
  written_by, statement_step, directive_step, node_step, check_nodes,
}
use mlogv.Mlog.Unsaved.Sets.{contains-add, IsDistinct, add-IsDistinct}
use mlogv.Mlog.Unsaved.Prefix.{
  holds, fetching_after, saved_after, is_saved_from, statement_step-phase,
}

add_all-holds :
    (xs : List Text) (args : List Token) (v : Text)
    → contains (add_all xs args) v ≡ contains xs v || holds args v
unfolding add_all
add_all-holds xs [] v = ground arith
add_all-holds xs (a ∷ args) v =
    ground (arith, add_all-holds (add xs a.text) args v, contains-add xs a.text v)

add_all-IsDistinct :
    (xs : List Text) (args : List Token) → IsDistinct xs → IsDistinct (add_all xs args)
unfolding add_all
add_all-IsDistinct xs [] d = d
add_all-IsDistinct xs (a ∷ args) d =
    add_all-IsDistinct (add xs a.text) args (add-IsDistinct xs a.text d)

-- `remove` takes out one name, and keeps the others
remove-contains :
    (xs : List Text) (x v : Text) {ys : List Text}
    → remove xs x ≡ ok ys
    → IsDistinct xs
    → contains ys v ≡ contains xs v && not (text_eq x v)
unfolding remove contains
remove-contains [] x v h d = cc
remove-contains (y ∷ xs) x v {ys} h (fresh, d) = elim (Bool-cases (text_eq y x)) [
  | inl e ↦
      let same : xs ≡ ys = ground (arith, h, e) in
      let word : y ≡ x = (text_eq_iff y x).0 e in
      rw (← same, ← word)
        (elim (Bool-cases (text_eq y v)) [
          | inl k ↦ rw k (ap (contains xs) (sym ((text_eq_iff y v).0 k)) ∙ fresh)
          | inr k ↦ rw k (ground arith)
        ])
  | inr e ↦
      let behind : remove xs x >>= (λ ys'. ok (y ∷ ys')) ≡ ok ys = ground (arith, h, e) in
      let (ys', left, shape) = bind-eq-ok (remove xs x) (λ ys'. ok (y ∷ ys')) behind in
      let same : y ∷ ys' ≡ ys = cc (shape) in
      rw (← same, remove-contains xs x v left d)
        (elim (Bool-cases (text_eq y v)) [
          | inl k ↦ let other : text_eq x v ≡ false = other_word x y v k e in rw (k, other) refl
          | inr k ↦ rw k refl
        ])
]
  where
    other_word : (x y v : Text) → text_eq y v ≡ true → text_eq y x ≡ false → text_eq x v ≡ false
    other_word x y v k e = ground (arith, text_eq_iff y v, text_eq_iff x v, text_eq_iff y x)

remove-IsDistinct :
    (xs : List Text) (x : Text) {ys : List Text}
    → remove xs x ≡ ok ys
    → IsDistinct xs
    → IsDistinct ys
unfolding remove
remove-IsDistinct [] x h d = cc
remove-IsDistinct (y ∷ xs) x {ys} h (fresh, d) = elim (Bool-cases (text_eq y x)) [
  | inl e ↦ let same : xs ≡ ys = ground (arith, h, e) in subst IsDistinct same d
  | inr e ↦
      let behind : remove xs x >>= (λ ys'. ok (y ∷ ys')) ≡ ok ys = ground (arith, h, e) in
      let (ys', left, shape) = bind-eq-ok (remove xs x) (λ ys'. ok (y ∷ ys')) behind in
      let same : y ∷ ys' ≡ ys = cc (shape) in
      subst IsDistinct same (
        remove-contains xs x y left d ∙ ap (λ b. b && not (text_eq x y)) fresh,
        remove-IsDistinct xs x left d,
      )
]

remove_all-holds :
    (xs : List Text) (args : List Token) (v : Text) {ys : List Text}
    → remove_all xs args ≡ ok ys
    → IsDistinct xs
    → (contains ys v ≡ contains xs v && not (holds args v)) × IsDistinct ys
unfolding remove_all
remove_all-holds xs [] v {ys} h d =
    let same : xs ≡ ys = cc (h) in (rw (← same) (ground arith), subst IsDistinct same d)
remove_all-holds xs (a ∷ args) v h d =
    let (xs', one, later) = bind-eq-ok (remove xs a.text) (λ xs'. remove_all xs' args) h in
    let (all, distinct) = remove_all-holds xs' args v later (remove-IsDistinct xs a.text one d) in
    (ground (arith, all, remove-contains xs a.text v one d), distinct)

statement_step-saved :
    (c : Checker) (name : Token) (args : List Token) (v : Text)
    → contains (statement_step c name args).saved_variables v
      ≡ saved_after (is_fetch c.state) (contains c.saved_variables v) (statement name args) v
unfolding statement_step written restore written_by report warn
statement_step-saved c name [] v = ground arith
statement_step-saved c name (a ∷ []) v = ground arith
statement_step-saved c name (a ∷ b ∷ []) v = ground arith
statement_step-saved c name (a ∷ b ∷ d ∷ []) v =
    ground (arith, contains-add c.saved_variables a.text v)
statement_step-saved c name (a ∷ b ∷ d ∷ e ∷ args) v = ground arith

statement_step-IsDistinct :
    (c : Checker) (name : Token) (args : List Token)
    → IsDistinct c.saved_variables
    → IsDistinct (statement_step c name args).saved_variables
unfolding statement_step written restore written_by report warn
statement_step-IsDistinct c name [] d = ground (arith, d)
statement_step-IsDistinct c name (a ∷ []) d = ground (arith, d)
statement_step-IsDistinct c name (a ∷ b ∷ []) d = ground (arith, d)
statement_step-IsDistinct c name (a ∷ b ∷ e ∷ []) d =
    ground (arith, d, add-IsDistinct c.saved_variables a.text d)
statement_step-IsDistinct c name (a ∷ b ∷ e ∷ f ∷ args) d = ground (arith, d)

-- what the loop holds agrees with the text in front, for the one variable
abbrev Agrees : Bool → Bool → Checker → Text → Type 0
Agrees fetching saved c v =
    (is_fetch c.state ≡ fetching)
    × (contains c.saved_variables v ≡ saved)
    × IsDistinct c.saved_variables

pop_saved-Agrees :
    (c : Checker) (args : List Token) (v : Text) {c' : Checker}
    → remove_all c.saved_variables args >>= (λ saved. ok (record c { saved_variables = saved }))
      ≡ ok c'
    → IsDistinct c.saved_variables
    → Agrees (is_fetch c.state) (contains c.saved_variables v && not (holds args v)) c' v
pop_saved-Agrees c args v {c'} h d =
    let (ys, removed, shape) =
      bind-eq-ok (remove_all c.saved_variables args)
        (λ saved. ok (record c { saved_variables = saved })) h in
    let same : record c { saved_variables = ys } ≡ c' = cc (shape) in
    let (all, distinct) = remove_all-holds c.saved_variables args v removed d in
    subst
      (λ c'. Agrees (is_fetch c.state) (contains c.saved_variables v && not (holds args v)) c' v)
      same (refl, all, distinct)

same-Agrees :
    (fetching saved : Bool) (v : Text) (c c' : Checker)
    → ◌≡◌ {A = Result MlogError Checker} (ok c) (ok c')
    → Agrees fetching saved c v
    → Agrees fetching saved c' v
same-Agrees fetching saved v c c' h a =
    let same : c ≡ c' = cc (h) in subst (λ x. Agrees fetching saved x v) same a

-- a directive, by the tests of its name
abbrev stepped : (starts ends pushes pops : Bool) → Checker → List Token → Result MlogError Checker
stepped starts ends pushes pops c args =
    if starts
    then ok (record c { state = fetch })
    else if ends
    then ok (record c { state = check })
    else if pushes
    then ok (record c { saved_variables = add_all c.saved_variables args })
    else if pops
    then (do saved ← remove_all c.saved_variables args; ok (record c { saved_variables = saved }))
    else ok c

stepped-Agrees :
    (starts ends pushes pops : Bool) (c : Checker) (args : List Token) (v : Text) {c' : Checker}
    → stepped starts ends pushes pops c args ≡ ok c'
    → IsDistinct c.saved_variables
    → Agrees
        (if starts then true else if ends then false else is_fetch c.state)
        (if starts
          then contains c.saved_variables v
          else if ends
          then contains c.saved_variables v
          else if pushes
          then contains c.saved_variables v || holds args v
          else if pops
          then contains c.saved_variables v && not (holds args v)
          else contains c.saved_variables v)
        c'
        v
stepped-Agrees true ends pushes pops c args v {c'} h d =
    same-Agrees true (contains c.saved_variables v) v (record c { state = fetch }) c' h
      (unfold is_fetch in refl, refl, d)
stepped-Agrees false true pushes pops c args v {c'} h d =
    same-Agrees false (contains c.saved_variables v) v (record c { state = check }) c' h
      (unfold is_fetch in refl, refl, d)
stepped-Agrees false false true pops c args v {c'} h d =
    same-Agrees (is_fetch c.state) (contains c.saved_variables v || holds args v) v
      (record c { saved_variables = add_all c.saved_variables args }) c' h
      (refl, add_all-holds c.saved_variables args v, add_all-IsDistinct c.saved_variables args d)
stepped-Agrees false false false true c args v h d = pop_saved-Agrees c args v h d
stepped-Agrees false false false false c args v {c'} h d =
    same-Agrees (is_fetch c.state) (contains c.saved_variables v) v c c' h (refl, refl, d)

node_step-Agrees :
    (c : Checker) (node : AstNode) (v : Text) {c' : Checker}
    → node_step c node ≡ ok c'
    → IsDistinct c.saved_variables
    → Agrees
        (fetching_after (is_fetch c.state) node)
        (saved_after (is_fetch c.state) (contains c.saved_variables v) node v)
        c'
        v
unfolding node_step directive_step
node_step-Agrees c (AstNode.label name) v {c'} h d =
    same-Agrees (is_fetch c.state) (contains c.saved_variables v) v c c' h (refl, refl, d)
node_step-Agrees c (statement name args) v {c'} h d =
    same-Agrees (is_fetch c.state)
      (saved_after (is_fetch c.state) (contains c.saved_variables v) (statement name args) v) v
      (statement_step c name args) c' h
      (
        ap is_fetch (statement_step-phase c name args),
        statement_step-saved c name args v,
        statement_step-IsDistinct c name args d,
      )
node_step-Agrees c (directive name args) v h d =
    stepped-Agrees (is_named name (codes "start_fetch")) (is_named name (codes "end_fetch"))
      (is_named name (codes "push_saved")) (is_named name (codes "pop_saved")) c args v h d

-- The set of saved variables behind a text is what the text says of each variable.
pub check_nodes-saved :
    (ast : Ast) (c : Checker) (v : Text) {c' : Checker}
    → check_nodes c ast ≡ ok c'
    → IsDistinct c.saved_variables
    → contains c'.saved_variables v
      ≡ is_saved_from (is_fetch c.state) (contains c.saved_variables v) ast v
unfolding check_nodes
check_nodes-saved [] c v {c'} h d =
    let same : c ≡ c' = cc (h) in ap (λ x. contains x.saved_variables v) (sym same)
check_nodes-saved (node ∷ ast) c v h d =
    let (c1, step, later) = bind-eq-ok (node_step c node) (λ c1. check_nodes c1 ast) h in
    let (fetching, saved, distinct) = node_step-Agrees c node v step d in
    check_nodes-saved ast c1 v later distinct ∙ ap₂ (λ f s. is_saved_from f s ast v) fetching saved

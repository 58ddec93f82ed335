-- ===== src/Mlog/Unsaved/Steps.antt =====
-- What one node of the tree does to the set of reported variables.
use mlogv.Prelude.{
  true, false, ◌≡◌, ◌↔◌, refl, ◌⊎◌, inl, inr, append-nil, Option, none, some, List, [], ◌∷◌, ◌++◌,
  Text, ok, arith, contains, text_eq_iff, codes, if_keeps, if◌then◌else◌, not, ◌&&◌,
}
use mlogv.Mlog.{Token, AstNode, statement, directive, is_named, inner}
use mlogv.Mlog.Unsaved.{
  check, Warning, unsaved_variable, Checker, add, report, statement_step, directive_step, node_step,
  target_of, is_check, is_fetch, warn, written, restore, written_by, invalid_restoration,
  duplicate_restoration,
}
use mlogv.Mlog.Unsaved.Sets.{contains-add, IsDistinct, add-IsDistinct}

-- the variable that a statement writes, when no restoration is going on
abbrev pub writes : Token → List Token → Option Text
writes name (var ∷ target ∷ from ∷ []) =
    if is_named name (codes "read")
    then some var.text
    else target_of name (var ∷ target ∷ from ∷ [])
writes name args = target_of name args

-- the set of reported variables behind a statement that writes `o`
unfoldable pub warned_after : Checker → Option Text → List Text
warned_after c none = c.warned_variables
warned_after c (some v) =
    if is_check c.state && not (contains c.saved_variables v)
    then add c.warned_variables v
    else c.warned_variables

pub warned-statement_step :
    (c : Checker) (name : Token) (args : List Token)
    → (statement_step c name args).warned_variables ≡ warned_after c (writes name args)
unfolding statement_step written restore written_by is_fetch is_check report warn warned_after add
warned-statement_step c name [] = ground arith
warned-statement_step c name (a ∷ []) = ground arith
warned-statement_step c name (a ∷ b ∷ []) = ground arith
warned-statement_step c name (a ∷ b ∷ d ∷ []) = ground arith
warned-statement_step c name (a ∷ b ∷ d ∷ e ∷ args) = ground arith

-- the variables of the lines `Unsaved variable`, in the order in which they are printed
abbrev pub unsaved_of : List Warning → List Text
unsaved_of [] = []
unsaved_of (unsaved_variable v ∷ ws) = v ∷ unsaved_of ws
unsaved_of (invalid_restoration _ _ ∷ ws) = unsaved_of ws
unsaved_of (duplicate_restoration _ ∷ ws) = unsaved_of ws

pub unsaved_of-append :
    (xs ys : List Warning) → unsaved_of (xs ++ ys) ≡ unsaved_of xs ++ unsaved_of ys
unsaved_of-append [] ys = refl
unsaved_of-append (unsaved_variable v ∷ xs) ys = rw (unsaved_of-append xs ys)
unsaved_of-append (invalid_restoration _ _ ∷ xs) ys = unsaved_of-append xs ys
unsaved_of-append (duplicate_restoration _ ∷ xs) ys = unsaved_of-append xs ys

-- what is printed is what the set of reported variables holds
abbrev pub IsLogged : Checker → Type 0
IsLogged c = unsaved_of c.warnings ≡ c.warned_variables

pub report-IsLogged : (c : Checker) (v : Text) → IsLogged c → IsLogged (report c v)
unfolding report warn add
report-IsLogged c v h = ground (arith, unsaved_of-append c.warnings (unsaved_variable v ∷ []))

pub written-IsLogged : (c : Checker) (v : Text) → IsLogged c → IsLogged (written c v)
unfolding written
written-IsLogged c v h = if_keeps IsLogged (is_check c.state) (report-IsLogged c v h) h

pub written_by-IsLogged : (c : Checker) (o : Option Text) → IsLogged c → IsLogged (written_by c o)
unfolding written_by
written_by-IsLogged c none h = h
written_by-IsLogged c (some v) h = written-IsLogged c v h

pub restore-IsLogged : (c : Checker) (v name : Text) → IsLogged c → IsLogged (restore c v name)
unfolding restore warn
restore-IsLogged c v name h = ground (
  arith,
  unsaved_of-append c.warnings (invalid_restoration v (inner name) ∷ []),
  unsaved_of-append c.warnings (duplicate_restoration v ∷ []),
  append-nil (unsaved_of c.warnings),
)

pub statement_step-IsLogged :
    (c : Checker) (name : Token) (args : List Token)
    → IsLogged c
    → IsLogged (statement_step c name args)
unfolding statement_step
statement_step-IsLogged c name (a ∷ b ∷ d ∷ []) h =
    if_keeps IsLogged (is_named name (codes "read"))
      (if_keeps IsLogged (is_fetch c.state && is_named b (codes "prev_proc"))
        (restore-IsLogged c a.text d.text h) (written-IsLogged c a.text h))
      (written_by-IsLogged c (target_of name (a ∷ b ∷ d ∷ [])) h)
statement_step-IsLogged c name args h = written_by-IsLogged c (target_of name args) h

-- A directive reports nothing.
pub directive_step-same :
    (c : Checker) (name : Token) (args : List Token) {c' : Checker}
    → directive_step c name args ≡ ok c'
    → (c'.warnings ≡ c.warnings) × (c'.warned_variables ≡ c.warned_variables)
unfolding directive_step
directive_step-same c name args h = ground arith

pub node_step-IsLogged :
    (c : Checker) (node : AstNode) {c' : Checker}
    → IsLogged c
    → node_step c node ≡ ok c'
    → IsLogged c'
unfolding node_step
node_step-IsLogged c (AstNode.label name) h e = ground arith
node_step-IsLogged c (statement name args) h e =
    ground (arith, statement_step-IsLogged c name args h)
node_step-IsLogged c (directive name args) h e =
    let (w, v) = directive_step-same c name args e in ground arith

-- this node writes `v` when it has to be saved and is not
abbrev pub WritesUnsaved : Checker → AstNode → Text → Type 0
WritesUnsaved c (statement name args) v =
    (c.state ≡ check) × (writes name args ≡ some v) × (contains c.saved_variables v ≡ false)
WritesUnsaved c (AstNode.label name) v = ⊥
WritesUnsaved c (directive name args) v = ⊥

pub warned_after_sound :
    (c : Checker) (o : Option Text) (v : Text)
    → contains (warned_after c o) v ≡ true
    → (contains c.warned_variables v ≡ true)
      ⊎ ((c.state ≡ check) × (o ≡ some v) × (contains c.saved_variables v ≡ false))
unfolding warned_after is_check
warned_after_sound c none v h = inl h
warned_after_sound c (some w) v h =
    ground (arith, contains-add c.warned_variables w v, text_eq_iff w v)

pub warned_after_complete :
    (c : Checker) (o : Option Text) (v : Text)
    → (contains c.warned_variables v ≡ true)
      ⊎ ((c.state ≡ check) × (o ≡ some v) × (contains c.saved_variables v ≡ false))
    → contains (warned_after c o) v ≡ true
unfolding warned_after is_check
warned_after_complete c none v (inl h) = h
warned_after_complete c none v (inr h) = cc (h.1)
warned_after_complete c (some w) v h =
    ground (arith, contains-add c.warned_variables w v, text_eq_iff w v)

pub warned_after-IsDistinct :
    (c : Checker) (o : Option Text) → IsDistinct c.warned_variables → IsDistinct (warned_after c o)
unfolding warned_after
warned_after-IsDistinct c none d = d
warned_after-IsDistinct c (some v) d =
    if_keeps IsDistinct (is_check c.state && not (contains c.saved_variables v))
      (add-IsDistinct c.warned_variables v d) d

-- the set of reported variables behind a node, whatever the node is
pub warned-node_step :
    (c : Checker) (node : AstNode) {c' : Checker}
    → node_step c node ≡ ok c'
    → (o : Option Text) × (c'.warned_variables ≡ warned_after c o)
      × ((v : Text)
          → WritesUnsaved c node v
            ↔ ((c.state ≡ check) × (o ≡ some v) × (contains c.saved_variables v ≡ false)))
unfolding node_step
warned-node_step c (AstNode.label name) step =
    (none, unfold warned_after in ground arith, λ v. (λ h. elim h [ ], λ h. cc (h.1)))
warned-node_step c (statement name args) step =
    (writes name args, ground (arith, warned-statement_step c name args), λ v. (λ h. h, λ h. h))
warned-node_step c (directive name args) step =
    let (w, same) = directive_step-same c name args step in
    (none, unfold warned_after in same, λ v. (λ h. elim h [ ], λ h. cc (h.1)))

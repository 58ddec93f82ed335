-- ===== src/Mlog/Unsaved/Reports.antt =====
-- Which variables are reported as unsaved.
use mlogv.Prelude.{
  ℕ, true, false, ◌≡◌, refl, ◌⊎◌, inl, inr, ap, sym, ◌∙◌, Bool-cases, Option, none, some, List, [],
  ◌∷◌, ◌++◌, Text, codes, ok, bind-eq-ok, arith, contains, text_eq, text_eq_iff,
}
use mlogv.Mlog.{Token, AstNode, statement, directive, Ast}
use mlogv.Mlog.Unsaved.{
  init, check, is_fetch, Warning, Checker, node_step, check_nodes, check_unsaved_variables,
  count_saved, start,
}
use mlogv.Mlog.Unsaved.Sets.{IsDistinct}
use mlogv.Mlog.Unsaved.Steps.{
  unsaved_of, IsLogged, node_step-IsLogged, WritesUnsaved, warned_after_sound,
  warned_after_complete, warned_after-IsDistinct, warned-node_step,
}
use mlogv.Mlog.Unsaved.Prefix.{
  last_fetch, is_saved, variable_written, writes-variable_written, phase_behind, check_nodes-phase,
}
use mlogv.Mlog.Unsaved.Saved.{check_nodes-saved}

check_nodes-IsLogged :
    (ast : Ast) (c : Checker) {c' : Checker} → IsLogged c → check_nodes c ast ≡ ok c' → IsLogged c'
unfolding check_nodes
check_nodes-IsLogged [] c h e = ground arith
check_nodes-IsLogged (node ∷ ast) c h e =
    let (c1, step, later) = bind-eq-ok (node_step c node) (λ c1. check_nodes c1 ast) e in
    check_nodes-IsLogged ast c1 (node_step-IsLogged c node h step) later

-- the state in which the loop is behind `pre`, and the node that reports `v` there
record UnsavedWrite (c : Checker) (ast : Ast) (v : Text) : Type 0 where
  pub pre : Ast
  pub node : AstNode
  pub post : Ast
  pub reached : Checker
  pub splits : ast ≡ pre ++ node ∷ post
  pub reaches : check_nodes c pre ≡ ok reached
  pub writes_unsaved : WritesUnsaved reached node v

check_nodes_sound :
    (ast : Ast) (c : Checker) {c' : Checker} (v : Text)
    → check_nodes c ast ≡ ok c'
    → contains c'.warned_variables v ≡ true
    → (contains c.warned_variables v ≡ true) ⊎ UnsavedWrite c ast v
unfolding check_nodes
check_nodes_sound [] c v e h = inl (ground arith)
check_nodes_sound (node ∷ ast) c v e h =
    let (c1, step, later) = bind-eq-ok (node_step c node) (λ c1. check_nodes c1 ast) e in
    let (o, shape, exact) = warned-node_step c node step in
    elim (check_nodes_sound ast c1 v later h) [
      | inr w ↦ inr (record {
        pre = node ∷ w.pre;
        node = w.node;
        post = w.post;
        reached = w.reached;
        splits = ap (◌∷◌ node) w.splits;
        reaches = rw step w.reaches;
        writes_unsaved = w.writes_unsaved;
      })
      | inl old ↦ elim (warned_after_sound c o v (rw shape at old)) [
        | inl older ↦ inl older
        | inr new ↦ inr (record {
          pre = [];
          node = node;
          post = ast;
          reached = c;
          splits = refl;
          reaches = refl;
          writes_unsaved = (exact v).1 new;
        })
      ]
    ]

check_nodes-keeps :
    (ast : Ast) (c : Checker) {c' : Checker} (v : Text)
    → check_nodes c ast ≡ ok c'
    → contains c.warned_variables v ≡ true
    → contains c'.warned_variables v ≡ true
unfolding check_nodes
check_nodes-keeps [] c v e h = ground arith
check_nodes-keeps (node ∷ ast) c v e h =
    let (c1, step, later) = bind-eq-ok (node_step c node) (λ c1. check_nodes c1 ast) e in
    let (o, shape, exact) = warned-node_step c node step in
    check_nodes-keeps ast c1 v later (rw shape (warned_after_complete c o v (inl h)))

check_nodes_complete :
    (pre : Ast) (c : Checker) {c' mid : Checker} (node : AstNode) (post : Ast) (v : Text)
    → check_nodes c (pre ++ node ∷ post) ≡ ok c'
    → check_nodes c pre ≡ ok mid
    → WritesUnsaved mid node v
    → contains c'.warned_variables v ≡ true
unfolding check_nodes
check_nodes_complete [] c {mid = mid} node post v e reach h =
    let (c1, step, later) = bind-eq-ok (node_step c node) (λ c1. check_nodes c1 post) e in
    let (o, shape, exact) = warned-node_step c node step in
    let same : c ≡ mid = cc in
    check_nodes-keeps post c1 v later
      (rw shape (warned_after_complete c o v (inr ((exact v).0 (rw (← same) at h)))))
check_nodes_complete (n ∷ pre) c node post v e reach h =
    let (c1, step, later) =
      bind-eq-ok (node_step c n) (λ c1. check_nodes c1 (pre ++ node ∷ post)) e in
    check_nodes_complete pre c1 node post v later (rw step at reach) h

check_nodes-IsDistinct :
    (ast : Ast) (c : Checker) {c' : Checker}
    → check_nodes c ast ≡ ok c'
    → IsDistinct c.warned_variables
    → IsDistinct c'.warned_variables
unfolding check_nodes
check_nodes-IsDistinct [] c {c'} e d = let same : c ≡ c' = cc in rw (← same) d
check_nodes-IsDistinct (node ∷ ast) c e d =
    let (c1, step, later) = bind-eq-ok (node_step c node) (λ c1. check_nodes c1 ast) e in
    let (o, shape, exact) = warned-node_step c node step in
    check_nodes-IsDistinct ast c1 later (rw shape (warned_after-IsDistinct c o d))

-- what the function returns is read off the final state of the loop
final_state :
    (ast : Ast) (ws : List Warning) (n : ℕ)
    → check_unsaved_variables ast ≡ ok (ws, n)
    → (c : Checker) × (check_nodes start ast ≡ ok c) × (unsaved_of ws ≡ c.warned_variables)
unfolding check_unsaved_variables
final_state ast ws n h =
    let (c, e, shape) =
      bind-eq-ok (check_nodes start ast) (λ c. ok (c.warnings, count_saved c.saved_variables)) h in
    let same : c.warnings ≡ ws = cc in (c, e, rw (← same) (check_nodes-IsLogged ast start refl e))

-- A statement of the program, behind a text whose last directive of the fetch is `end_fetch`, writes the
-- variable, which is not saved by that text.
pub record UnsavedStatement (ast : Ast) (v : Text) : Type 0 where
  pub pre : Ast
  pub name : Token
  pub args : List Token
  pub post : Ast
  pub splits : ast ≡ pre ++ statement name args ∷ post
  pub is_behind : last_fetch pre ≡ some (codes "end_fetch")
  pub writes : variable_written name args ≡ some v
  pub unsaved : is_saved pre v ≡ false

check_phase : (o : Option Text) → phase_behind init o ≡ check → o ≡ some (codes "end_fetch")
check_phase none h = cc (h)
check_phase (some w) h = elim (Bool-cases (text_eq w (codes "end_fetch"))) [
  | inl e ↦ ap some ((text_eq_iff w (codes "end_fetch")).0 e)
  | inr e ↦ ground (arith, h, e)
]

behind_phase : (o : Option Text) → o ≡ some (codes "end_fetch") → phase_behind init o ≡ check
behind_phase o h = rw h (unfold text_eq in refl)

start-saved :
    (pre : Ast) (v : Text) {reached : Checker}
    → check_nodes start pre ≡ ok reached
    → contains reached.saved_variables v ≡ is_saved pre v
start-saved pre v h =
    check_nodes-saved pre start v h (unfold contains in (refl, tt))
    ∙ (unfold contains is_fetch in ground arith)

from_write : (ast : Ast) (v : Text) → UnsavedWrite start ast v → UnsavedStatement ast v
from_write ast v w = by_node w.node w.splits w.writes_unsaved
  where
    by_node :
        (node : AstNode)
        → ast ≡ w.pre ++ node ∷ w.post
        → WritesUnsaved w.reached node v
        → UnsavedStatement ast v
    by_node (AstNode.label name) splits h = elim h [ ]
    by_node (directive name args) splits h = elim h [ ]
    by_node (statement name args) splits (behind, write, fresh) = record {
      pre = w.pre;
      name = name;
      args = args;
      post = w.post;
      splits = splits;
      is_behind =
          check_phase (last_fetch w.pre) (sym (check_nodes-phase w.pre start w.reaches) ∙ behind);
      writes = sym (writes-variable_written name args) ∙ write;
      unsaved = sym (start-saved w.pre v w.reaches) ∙ fresh;
    }

prefix_passes :
    (pre : Ast) (c : Checker) (post : Ast) {c' : Checker}
    → check_nodes c (pre ++ post) ≡ ok c'
    → (reached : Checker) × (check_nodes c pre ≡ ok reached)
unfolding check_nodes
prefix_passes [] c post h = (c, refl)
prefix_passes (node ∷ pre) c post h =
    let (c1, step, later) = bind-eq-ok (node_step c node) (λ c1. check_nodes c1 (pre ++ post)) h in
    let (reached, passes) = prefix_passes pre c1 post later in (reached, rw step passes)

to_write :
    (ast : Ast) (v : Text) {c : Checker}
    → check_nodes start ast ≡ ok c
    → UnsavedStatement ast v
    → UnsavedWrite start ast v
to_write ast v e w =
    let (reached, passes) =
      prefix_passes w.pre start (statement w.name w.args ∷ w.post) (rw w.splits at e) in
    record {
      pre = w.pre;
      node = statement w.name w.args;
      post = w.post;
      reached = reached;
      splits = w.splits;
      reaches = passes;
      writes_unsaved = (
        check_nodes-phase w.pre start passes ∙ behind_phase (last_fetch w.pre) w.is_behind,
        writes-variable_written w.name w.args ∙ w.writes,
        start-saved w.pre v passes ∙ w.unsaved,
      );
    }

-- If the check of a program ends, a variable is reported as unsaved exactly if some statement writes it,
-- by the table of the instructions, such that the last directive of the fetch in front is `end_fetch` and
-- the text in front does not save the variable.
pub check_unsaved_variables-exact :
    (ast : Ast) (ws : List Warning) (n : ℕ) (v : Text)
    → check_unsaved_variables ast ≡ ok (ws, n)
    → ((contains (unsaved_of ws) v ≡ true) → UnsavedStatement ast v)
      × (UnsavedStatement ast v → contains (unsaved_of ws) v ≡ true)
check_unsaved_variables-exact ast ws n v h =
    let (c, e, logged) = final_state ast ws n h in
    rw logged (
      λ r. elim (check_nodes_sound ast start v e r) [
        | inl old ↦ unfold contains in cc old
        | inr w ↦ from_write ast v w
      ],
      λ u.
          let w = to_write ast v e u in
          check_nodes_complete w.pre start w.node w.post v (rw w.splits at e) w.reaches
            w.writes_unsaved,
    )

-- No variable is reported as unsaved twice.
check_unsaved_variables-once :
    (ast : Ast) (ws : List Warning) (n : ℕ)
    → check_unsaved_variables ast ≡ ok (ws, n)
    → IsDistinct (unsaved_of ws)
check_unsaved_variables-once ast ws n h =
    let (c, e, logged) = final_state ast ws n h in rw logged (check_nodes-IsDistinct ast start e tt)

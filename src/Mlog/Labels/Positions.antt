-- ===== src/Mlog/Labels/Positions.antt =====
-- Where a label points.
use mlogv.Prelude.{
  ℕ, suc, ◌+◌, ◌≡◌, ap, Option, none, some, List, [], ◌∷◌, ◌++◌, arith, Text, ok, length, get_elem?,
}
use mlogv.Mlog.{Token, AstNode, statement, directive, Ast, count_statements}
use mlogv.Mlog.Labels.{LengthAssertion, directive_step, at_end, labels_from, iter_labels}

-- the number of labels in a piece of code
abbrev pub count_labels : Ast → ℕ
count_labels [] = 0
count_labels (AstNode.label name ∷ ast) = suc (count_labels ast)
count_labels (statement name args ∷ ast) = count_labels ast
count_labels (directive name args ∷ ast) = count_labels ast

module _ (counter : ℕ) (a : Option LengthAssertion) where
  -- a label that is yielded is followed by the labels of the rest
  pub labels_from-label :
      (name : Token) (ast : Ast) {ls : List (Text × ℕ)}
      → labels_from counter a (AstNode.label name ∷ ast) ≡ ok ls
      → (rest : List (Text × ℕ)) × (labels_from counter a ast ≡ ok rest)
        × (ls ≡ (name.text, counter) ∷ rest)
  unfolding labels_from
  labels_from-label name ast h = ground arith

  -- a directive that raises nothing hands its assertion on
  pub labels_from-directive :
      (name : Token) (args : List Token) (ast : Ast) {ls : List (Text × ℕ)}
      → labels_from counter a (directive name args ∷ ast) ≡ ok ls
      → (a' : Option LengthAssertion) × (directive_step counter a name args ≡ ok a')
        × (labels_from counter a' ast ≡ ok ls)
  unfolding labels_from
  labels_from-directive name args ast h = ground arith

labels_from-at :
    (pre : Ast) (name : Token) (post : Ast) (counter : ℕ) (a : Option LengthAssertion)
    (ls : List (Text × ℕ))
    → labels_from counter a (pre ++ AstNode.label name ∷ post) ≡ ok ls
    → get_elem? ls (count_labels pre) ≡ some (name.text, counter + count_statements pre)
unfolding labels_from count_statements
labels_from-at [] name post counter a ls h = ground arith
labels_from-at (AstNode.label n ∷ pre) name post counter a ls h =
    let (rest, e, shape) = labels_from-label counter a n (pre ++ AstNode.label name ∷ post) h in
    rw shape (labels_from-at pre name post counter a rest e)
labels_from-at (statement n args ∷ pre) name post counter a ls h =
    ground (arith, labels_from-at pre name post (counter + 1) a ls h)
labels_from-at (directive n args ∷ pre) name post counter a ls h =
    let (a', e, later) =
      labels_from-directive counter a n args (pre ++ AstNode.label name ∷ post) h in
    labels_from-at pre name post counter a' ls later

labels_from-length :
    (ast : Ast) (counter : ℕ) (a : Option LengthAssertion) (ls : List (Text × ℕ))
    → labels_from counter a ast ≡ ok ls
    → length ls ≡ count_labels ast
unfolding labels_from
labels_from-length [] counter a ls h = unfold at_end in ground arith
labels_from-length (AstNode.label n ∷ ast) counter a ls h =
    let (rest, e, shape) = labels_from-label counter a n ast h in
    rw shape (ap suc (labels_from-length ast counter a rest e))
labels_from-length (statement n args ∷ ast) counter a ls h =
    labels_from-length ast (counter + 1) a ls h
labels_from-length (directive n args ∷ ast) counter a ls h =
    let (a', e, later) = labels_from-directive counter a n args ast h in
    labels_from-length ast counter a' ls later

-- If the labels of a program can be listed, there is one entry for each label, in the order of the
-- program, and the entry of a label holds its name and the number of statements before it.
pub iter_labels-position :
    (pre : Ast) (name : Token) (post : Ast) (ls : List (Text × ℕ))
    → iter_labels (pre ++ AstNode.label name ∷ post) ≡ ok ls
    → (length ls ≡ count_labels (pre ++ AstNode.label name ∷ post))
      × (get_elem? ls (count_labels pre) ≡ some (name.text, count_statements pre))
unfolding iter_labels
iter_labels-position pre name post ls h = (
  labels_from-length (pre ++ AstNode.label name ∷ post) 0 none ls h,
  ground (arith, labels_from-at pre name post 0 none ls h),
)

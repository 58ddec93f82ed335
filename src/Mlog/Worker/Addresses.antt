-- ===== src/Mlog/Worker/Addresses.antt =====
-- python/src/mlogv32/preprocessor/app.py: the labels of `prepare_worker` against its final code.
use mlogv.Prelude.{
  ℕ, true, ◌+◌, ◌≡◌, inl, inr, refl, sym, ap, ◌∙◌, subst, Option, none, some, List, [], ◌∷◌, ◌++◌,
  Text, arith, Result, ok, bind-eq-ok,
}
use mlogv.Mlog.{Token, AstNode, statement, directive, Ast, MlogError, count_statements}
use mlogv.Mlog.Labels.{LengthAssertion, labels_from, iter_labels, at_end}
use mlogv.Mlog.Labels.Positions.{labels_from-label, labels_from-directive}
use mlogv.Mlog.Unsaved.{Warning, check_unsaved_variables}
use mlogv.Mlog.Replace.{lookup, dict_of, replace_symbolic_labels}
use mlogv.Mlog.Replace.Dict.{HasEntry, lookup-dict_of}
use mlogv.Mlog.Replace.Substitution.{replace_symbolic_labels-sane}
use mlogv.Mlog.Worker.{WorkerBuild, prepare_worker}

-- The code has a label of the name in front of its statement number `n`.
abbrev pub HasLabel : Ast → Text → ℕ → Type 0
HasLabel ast name n =
    (pre : Ast) × (token : Token) × (post : Ast) × (ast ≡ pre ++ (AstNode.label token ∷ post))
    × (token.text ≡ name)
    × (count_statements pre ≡ n)

labels_from-HasLabel :
    (ast : Ast) (counter : ℕ) (a : Option LengthAssertion) (ls : List (Text × ℕ)) (name : Text)
    (n : ℕ)
    → labels_from counter a ast ≡ ok ls
    → HasEntry ls name n
    → (pre : Ast) × (token : Token) × (post : Ast) × (ast ≡ pre ++ (AstNode.label token ∷ post))
      × (token.text ≡ name)
      × (counter + count_statements pre ≡ n)
unfolding labels_from at_end count_statements
labels_from-HasLabel [] counter none [] name n h e = elim e [ ]
labels_from-HasLabel [] counter none (p ∷ ls) name n h e = cc
labels_from-HasLabel [] counter (some a) ls name n h e = cc
labels_from-HasLabel (AstNode.label token ∷ ast) counter a ls name n h e =
    let (rest, later, shape) = labels_from-label counter a token ast h in
    elim (subst (λ l. HasEntry l name n) shape e) [
      | inl (same, at) ↦ ([], token, ast, refl, same, omega (arith, at))
      | inr entry ↦
          let (pre, found, post, shape', same, at) =
            labels_from-HasLabel ast counter a rest name n later entry in
          (
            AstNode.label token ∷ pre,
            found,
            post,
            ap (λ l. AstNode.label token ∷ l) shape',
            same,
            at,
          )
    ]
labels_from-HasLabel (statement f args ∷ ast) counter a ls name n h e =
    let (pre, token, post, shape, same, at) =
      labels_from-HasLabel ast (counter + 1) a ls name n h e in
    (
      statement f args ∷ pre,
      token,
      post,
      ap (λ l. statement f args ∷ l) shape,
      same,
      omega (arith, at),
    )
labels_from-HasLabel (directive f args ∷ ast) counter a ls name n h e =
    let (a', step, later) = labels_from-directive counter a f args ast h in
    let (pre, token, post, shape, same, at) =
      labels_from-HasLabel ast counter a' ls name n later e in
    (directive f args ∷ pre, token, post, ap (λ l. directive f args ∷ l) shape, same, at)

iter_labels-HasLabel :
    (ast : Ast) (pairs : List (Text × ℕ)) (name : Text) (n : ℕ)
    → iter_labels ast ≡ ok pairs
    → HasEntry pairs name n
    → HasLabel ast name n
unfolding iter_labels
iter_labels-HasLabel ast pairs name n h e =
    let (pre, token, post, shape, same, at) = labels_from-HasLabel ast 0 none pairs name n h e in
    (pre, token, post, shape, same, omega (arith, at))

relabelled :
    (parse_mlog : Text → Result MlogError Ast) (code : Text) (w : WorkerBuild) (name : Text) (n : ℕ)
    (old : Ast) (labels : List (Text × ℕ)) (new_code : Text)
    → replace_symbolic_labels parse_mlog code old labels true ≡ ok new_code
    → (new_code ≡ w.worker_code)
      × (labels ≡ w.worker_labels)
      × (count_statements old ≡ w.instructions)
    → lookup w.worker_labels name ≡ some n
    → (ast : Ast) × (parse_mlog w.worker_code ≡ ok ast)
      × (count_statements ast ≡ w.instructions)
      × HasLabel ast name n
relabelled parse_mlog code w name n old labels new_code replaced (code_is, labels_are, count)
      known =
    let (ast, new_pairs, reparsed, relisted, counts, there) =
      replace_symbolic_labels-sane parse_mlog code old labels new_code name n replaced
        (ap (λ l. lookup l name) labels_are ∙ known) in
    (
      ast,
      sym (ap parse_mlog code_is) ∙ reparsed,
      counts ∙ count,
      iter_labels-HasLabel ast new_pairs name n relisted (lookup-dict_of new_pairs name n there),
    )

built :
    (new_code : Text) (labels : List (Text × ℕ)) (warnings : List Warning) (saved count : ℕ)
    (w : WorkerBuild)
    → ◌≡◌ {A = Result MlogError WorkerBuild}
        (ok (record {
          worker_code = new_code;
          worker_labels = labels;
          warnings = warnings;
          saved = saved;
          instructions = count;
        }))
        (ok w)
    → (new_code ≡ w.worker_code) × (labels ≡ w.worker_labels) × (count ≡ w.instructions)
built new_code labels warnings saved count w h = (cc, cc, cc)

-- If the worker's code can be prepared, then every label that the controller gets is an address in the
-- final code of the worker: parsed again, that code has a label of this name, and the address is the
-- number of the statements in front of it. The number of instructions is that of the final code.
pub prepare_worker-addresses :
    (parse_mlog : Text → Result MlogError Ast) (code : Text) (w : WorkerBuild) (name : Text) (n : ℕ)
    → prepare_worker parse_mlog code ≡ ok w
    → lookup w.worker_labels name ≡ some n
    → (ast : Ast) × (parse_mlog w.worker_code ≡ ok ast)
      × (count_statements ast ≡ w.instructions)
      × HasLabel ast name n
unfolding prepare_worker
prepare_worker-addresses parse_mlog code w name n h known =
    let (old, parsed, h1) = bind-eq-ok (parse_mlog code) _ h in
    let (report, checked, h2) = bind-eq-ok (check_unsaved_variables old) _ h1 in
    let (pairs, listed, h3) = bind-eq-ok (iter_labels old) _ h2 in
    let (new_code, replaced, h4) =
      bind-eq-ok (replace_symbolic_labels parse_mlog code old (dict_of pairs) true) _ h3 in
    relabelled parse_mlog code w name n old (dict_of pairs) new_code replaced
      (built new_code (dict_of pairs) report.0 report.1 (count_statements old) w h4) known

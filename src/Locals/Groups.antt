-- ===== src/Locals/Groups.antt =====
-- python/src/mlogv32/preprocessor/extensions.py: nested lists in `declare_locals`.
use mlogv.Prelude.{
  ℕ, ◌≡◌, refl, sym, ◌∙◌, Bool, false, List, [], ◌∷◌, ◌++◌, Text, ok, err, arith, ℤ, pos, Result,
  if◌then◌else◌,
}
use mlogv.Locals.{
  LocalError, Env, M, go_on, ◌>>=◌, ◌>>◌, pure, reset_to, reset_locals, Names, single, group,
  declare_one, declare_each, declare_names, declare_locals, initial,
}

-- a bind that returns has returned from its first part
pub bind-eq-ok :
    {A B : Type 0} (m : M A) (f : A → M B) (env : Env) {b : B} {env' : Env}
    → (m >>= f) env ≡ (ok b, env')
    → (a : A) × (mid : Env) × (m env ≡ (ok a, mid)) × (f a mid ≡ (ok b, env'))
bind-eq-ok {A} {B} m f env {b} {env'} h = split (m env) refl h
  where
    split :
        (s : Result LocalError A × Env)
        → m env ≡ s
        → go_on f s ≡ (ok b, env')
        → (a : A) × (mid : Env) × (m env ≡ (ok a, mid)) × (f a mid ≡ (ok b, env'))
    split (ok a, mid) e k = (a, mid, e, k)
    split (err x, mid) e k = ground arith

-- an environment in which nothing has been declared
abbrev pub fresh : ℕ → Env
fresh largest = record initial { largest_local_variable = largest }

-- a group starts over, whatever the environment holds
group_forgets :
    (inner : List Text) (after : List Names) (env : Env)
    → declare_names (group inner ∷ after) env
      ≡ declare_names (group inner ∷ after) (fresh env.largest_local_variable)
unfolding declare_names reset_locals reset_to initial
group_forgets inner after env = refl

declare_names-group :
    (before : List Names) (inner : List Text) (after : List Names) (env env' : Env)
    → declare_names (before ++ group inner ∷ after) env ≡ (ok tt, env')
    → (largest : ℕ) × (declare_names (group inner ∷ after) (fresh largest) ≡ (ok tt, env'))
unfolding declare_names
declare_names-group [] inner after env env' h =
    (env.largest_local_variable, sym (group_forgets inner after env) ∙ h)
declare_names-group (single x ∷ before) inner after env env' h =
    let rest = declare_names (before ++ group inner ∷ after) in
    let (a, mid, e, k) = bind-eq-ok (declare_one x) (λ _. rest) env h in
    declare_names-group before inner after mid env' k
declare_names-group (group xs ∷ before) inner after env env' h =
    let rest = declare_names (before ++ group inner ∷ after) in
    let (a, mid, e, k) = bind-eq-ok (reset_locals (pos 1)) (λ _. declare_each xs >> rest) env h in
    let (a', mid', e', k') = bind-eq-ok (declare_each xs) (λ _. rest) mid k in
    declare_names-group before inner after mid' env' k'

-- If a call of `declare_locals` with a nested list returns, the environment is the one that the
-- nested list and what follows it leave in an environment in which nothing has been declared: the
-- names that stand before the nested list, and the index that the caller passed, are forgotten.
pub declare_locals-group :
    (before : List Names) (inner : List Text) (after : List Names) (i : ℤ) (reset : Bool)
    (env env' : Env)
    → declare_locals (before ++ group inner ∷ after) i reset env ≡ (ok tt, env')
    → (largest : ℕ) × (declare_locals (group inner ∷ after) (pos 1) false (fresh largest)
        ≡ (ok tt, env'))
unfolding declare_locals
declare_locals-group before inner after i reset env env' h =
    let (a, mid, e, k) =
      bind-eq-ok (if reset then reset_locals i else pure tt)
        (λ _. declare_names (before ++ group inner ∷ after)) env h in
    declare_names-group before inner after mid env' k

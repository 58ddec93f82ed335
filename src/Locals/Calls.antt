-- ===== src/Locals/Calls.antt =====
-- What holds of the indices after any calls that the templates make.
use mlogv.Prelude.{
  sym, ap, ◌∙◌, ℕ, ◌≤◌, ◌<◌, ◌≡◌, ◌≢◌, inl, inr, Bool, true, false, some, List, [], ◌∷◌, Text,
  text_eq_iff, arith, ℤ, Bool-cases,
}
use mlogv.Locals.{
  Env, initial, reset_locals, lookup, named, anonymous, variable_index, local_variable, Names,
  declare_names, declare_locals, contains, sort_freed, free_names, free_locals,
}
use mlogv.Locals.Counts.{count, indices}
use mlogv.Locals.Valid.{
  reset_locals-Keeps, sort_freed-Keeps, local_variable-Keeps, next_variable-Keeps,
  declare_names-Keeps, free_names-Keeps,
}
use mlogv.Locals.Keeps.{IsSound, Keeps-then}

-- a call from a template, of any function but `local_variable` with an integer
pub data Call : Type 0 where
  reset : ℤ → Call
  declare : List Names → ℤ → Bool → Call
  free : List Names → Call
  variable : Text → Call
  next : Call

unfoldable pub call : Call → Env → Env
call (reset i) env = (reset_locals i env).1
call (declare names i from) env = (declare_locals names i from env).1
call (free names) env = (free_locals names env).1
call (variable name) env = (local_variable (named name) false env).1
call next env = (local_variable anonymous false env).1

unfoldable pub calls : List Call → Env → Env
calls [] env = env
calls (c ∷ cs) env = calls cs (call c env)

call-IsSound : (c : Call) (env : Env) → IsSound env → IsSound (call c env)
unfolding call local_variable variable_index declare_locals free_locals
call-IsSound (reset i) env h = (reset_locals-Keeps i).at env h
call-IsSound (declare names i true) env h =
    (Keeps-then (reset_locals i) (declare_names names) (reset_locals-Keeps i)
        (declare_names-Keeps names)).at
      env h
call-IsSound (declare names i false) env h = (declare_names-Keeps names).at env h
call-IsSound (free names) env h =
    (Keeps-then (free_names names) sort_freed (free_names-Keeps names) sort_freed-Keeps).at env h
call-IsSound (variable name) env h = (local_variable-Keeps name false).at env h
call-IsSound next env h = (next_variable-Keeps).at env h

calls-IsSound : (cs : List Call) (env : Env) → IsSound env → IsSound (calls cs env)
unfolding calls
calls-IsSound [] env h = h
calls-IsSound (c ∷ cs) env h = calls-IsSound cs (call c env) (call-IsSound c env h)

initial-IsSound : IsSound initial
unfolding initial
initial-IsSound = (λ k. ground arith, omega arith)

count-pos :
    (cache : List (Text × ℕ)) (a : Text) (i : ℕ)
    → lookup cache a ≡ some i
    → 1 ≤ count i (indices cache)
unfolding lookup
count-pos [] a i h = cc
count-pos ((k, j) ∷ cache) a i h = ground (arith, count-pos cache a i)

count-pair :
    (cache : List (Text × ℕ)) (a b : Text) (i : ℕ)
    → lookup cache a ≡ some i
    → lookup cache b ≡ some i
    → a ≢ b
    → 2 ≤ count i (indices cache)
unfolding lookup
count-pair [] a b i h k d = cc
count-pair ((key, j) ∷ cache) a b i h k d = ground (
  arith,
  text_eq_iff key a,
  text_eq_iff key b,
  count-pos cache a i,
  count-pos cache b i,
  count-pair cache a b i,
)

count_of_contains : (xs : List ℕ) (i : ℕ) → contains xs i ≡ true → 1 ≤ count i xs
unfolding contains
count_of_contains [] i h = cc
count_of_contains (x ∷ xs) i h = ground (arith, count_of_contains xs i)

distinct :
    (env : Env) (a b : Text) (i : ℕ)
    → IsSound env
    → lookup env.local_variable_cache a ≡ some i
    → ((a ≢ b) → lookup env.local_variable_cache b ≢ some i)
      × (contains env.freed_local_variables i ≡ false)
      × (1 ≤ i)
      × (i < env.local_variable_index)
distinct env a b i (h, p) e = (
  λ d k. let two = count-pair env.local_variable_cache a b i e k d in ground (arith, h i),
  elim (Bool-cases (contains env.freed_local_variables i)) [
    | inl t ↦
        let one = count_of_contains env.freed_local_variables i t in
        absurd (ground (arith, h i, count-pos env.local_variable_cache a i e))
    | inr t ↦ t
  ],
  ground (arith, h i, count-pos env.local_variable_cache a i e),
  ground (arith, h i, count-pos env.local_variable_cache a i e),
)

-- After any calls from templates, raising or not, that give `local_variable` no integer, two names
-- never stand for one variable, the variable of a name is not among the freed ones, and its index
-- lies below the next index.
pub calls_distinct :
    (cs : List Call) (a b : Text) (i j : ℕ)
    → a ≢ b
    → lookup (calls cs initial).local_variable_cache a ≡ some i
    → lookup (calls cs initial).local_variable_cache b ≡ some j
    → (i ≢ j)
      × (contains (calls cs initial).freed_local_variables i ≡ false)
      × (1 ≤ i)
      × (i < (calls cs initial).local_variable_index)
calls_distinct cs a b i j differ h k =
    let (other, unfreed, lo, hi) =
      distinct (calls cs initial) a b i (calls-IsSound cs initial initial-IsSound) h in
    (λ same. other differ (k ∙ ap some (sym same)), unfreed, lo, hi)

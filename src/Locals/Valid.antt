-- ===== src/Locals/Valid.antt =====
-- python/src/mlogv32/preprocessor/extensions.py: the invariant of the indices of the names and of the
-- freed indices, for each function of `LocalVariables`.
use mlogv.Prelude.{
  ℕ, ◌+◌, ◌≤◌, ◌≡◌, refl, inl, inr, Bool, false, not, ◌&&◌, none, some, List, [], ◌∷◌, Text, arith,
  ok, err, if◌then◌else◌, ltb, ℤ, pos, negsuc, Option-cases, Bool-cases,
}
use mlogv.Locals.{
  invalid_index, undeclared, unknown_variable, Env, go_on, ◌>>◌, raise, reset_to, reset_locals,
  lookup, pop_last, take_from, take_index, starts_with, store, new_variable, named_variable, named,
  anonymous, variable_index, local_variable, Names, single, group, declare_one, declare_each,
  declare_names, release, free_key, free_one, sort_freed, free_each, free_names,
}
use mlogv.Locals.Counts.{
  indices, count-append, indices-append, count-pop_last, count-without, count-sort_desc,
}
use mlogv.Locals.Keeps.{IsSound, Keeps, Keeps-raise, Keeps-then, keeps_rules, IsFresh}

-- An index is always to be had; it is then in nobody's use.
take_from-IsFresh :
    (freed : List ℕ) (env : Env)
    → env.freed_local_variables ≡ freed
    → IsSound env
    → (i : ℕ) × (env' : Env) × (take_from freed env ≡ (ok i, env'))
      × IsFresh i env'
      × (env'.local_variable_cache ≡ env.local_variable_cache)
unfolding take_from
take_from-IsFresh [] env e (h, p) = (
  env.local_variable_index,
  record env { local_variable_index = env.local_variable_index + 1 },
  refl,
  (λ k. ground (arith, h k), ground arith),
  refl,
)
take_from-IsFresh (x ∷ xs) env e (h, p) = (
  (pop_last x xs).0,
  record env { freed_local_variables = (pop_last x xs).1 },
  refl,
  (λ k. ground (arith, h k, count-pop_last k x xs), p),
  refl,
)

IsFresh-IsSound : (i : ℕ) (env : Env) → IsFresh i env → IsSound env
IsFresh-IsSound i env (h, p) = (λ k. ground (arith, h k), p)

store-IsSound : (name : Text) (i : ℕ) (env : Env) → IsFresh i env → IsSound (store name i env).1
unfolding store
store-IsSound name i env (h, p) = (
  λ k. ground (
    arith,
    h k,
    indices-append env.local_variable_cache ((name, i) ∷ []),
    count-append k (indices env.local_variable_cache) (i ∷ []),
  ),
  p,
)

take_index-Keeps : Keeps IsSound take_index
unfolding take_index
take_index-Keeps = record {
  at = λ env h.
      let (i, env', e, fresh, same) = take_from-IsFresh env.freed_local_variables env refl h in
      rw e (IsFresh-IsSound i env' fresh);
}

new_variable-Keeps : (name : Text) (declare : Bool) → Keeps IsSound (new_variable name declare)
unfolding new_variable take_index
new_variable-Keeps name declare = record {
  at = λ env h.
      let (i, env', e, fresh, same) = take_from-IsFresh env.freed_local_variables env refl h in
      rw e (named_or_not i env' fresh);
}
  where
    named_or_not :
        (i : ℕ) (env' : Env)
        → IsFresh i env'
        → IsSound
            (go_on
              (λ j.
                if not declare && starts_with b'$' name
                then raise (undeclared name)
                else store name j)
              (ok i, env')).1
    named_or_not i env' fresh = elim (Bool-cases (not declare && starts_with b'$' name)) [
      | inl t ↦ rw t (IsFresh-IsSound i env' fresh)
      | inr t ↦ rw t (store-IsSound name i env' fresh)
    ]

-- a name that is there, and one that is not
pub named_variable_old :
    (name : Text) (declare : Bool) (env : Env) (i : ℕ)
    → lookup env.local_variable_cache name ≡ some i
    → named_variable name declare env ≡ (ok i, env)
unfolding named_variable
named_variable_old name declare env i e = rw (e, named_variable)

pub named_variable_new :
    (name : Text) (declare : Bool) (env : Env)
    → lookup env.local_variable_cache name ≡ none
    → named_variable name declare env ≡ new_variable name declare env
unfolding named_variable
named_variable_new name declare env e = rw (e, named_variable)

named_variable-Keeps : (name : Text) (declare : Bool) → Keeps IsSound (named_variable name declare)
named_variable-Keeps name declare = record {
  at = λ env h. elim (Option-cases (lookup env.local_variable_cache name)) [
    | inl e ↦
        rw (named_variable_new name declare env e) ((new_variable-Keeps name declare).at env h)
    | inr (i, e) ↦ rw (named_variable_old name declare env i e) h
  ];
}

reset_to-Keeps : (i : ℕ) → 1 ≤ i → Keeps IsSound (reset_to i)
unfolding reset_to
reset_to-Keeps i p = record { at = λ env h. (λ k. ground arith, p) }

pub reset_locals-Keeps : (i : ℤ) → Keeps IsSound (reset_locals i)
unfolding reset_locals
reset_locals-Keeps (pos i) = elim (Bool-cases (ltb i 1)) [
  | inl t ↦ rw t (Keeps-raise (invalid_index (pos i)))
  | inr t ↦ rw t (reset_to-Keeps i (ground arith))
]
reset_locals-Keeps (negsuc i) = Keeps-raise (invalid_index (negsuc i))

release-IsSound :
    (key : Text) (i : ℕ) (env : Env)
    → lookup env.local_variable_cache key ≡ some i
    → IsSound env
    → IsSound (release key i env).1
unfolding release
release-IsSound key i env e (h, p) = (
  λ k. ground (
    arith,
    h k,
    count-without k env.local_variable_cache key i e,
    count-append k env.freed_local_variables (i ∷ []),
  ),
  ground arith,
)

free_key_unknown :
    (name key : Text) (env : Env)
    → lookup env.local_variable_cache key ≡ none
    → free_key name key env ≡ (err (unknown_variable name), env)
unfolding free_key
free_key_unknown name key env e = rw (e, free_key)

free_key_known :
    (name key : Text) (env : Env) (i : ℕ)
    → lookup env.local_variable_cache key ≡ some i
    → free_key name key env ≡ release key i env
unfolding free_key
free_key_known name key env i e = rw (e, free_key)

free_key-Keeps : (name key : Text) → Keeps IsSound (free_key name key)
free_key-Keeps name key = record {
  at = λ env h. elim (Option-cases (lookup env.local_variable_cache key)) [
    | inl e ↦ rw (free_key_unknown name key env e) h
    | inr (i, e) ↦ rw (free_key_known name key env i e) (release-IsSound key i env e h)
  ];
}

pub sort_freed-Keeps : Keeps IsSound sort_freed
unfolding sort_freed
sort_freed-Keeps = record {
  at = λ env (h, p). (λ k. rw (count-sort_desc k env.freed_local_variables) (h k), p);
}

ruleset sound_rules = (
  keeps_rules, take_index-Keeps, named_variable-Keeps, reset_locals-Keeps, free_key-Keeps,
  sort_freed-Keeps,
)

pub local_variable-Keeps :
    (name : Text) (declare : Bool) → Keeps IsSound (local_variable (named name) declare)
unfolding local_variable variable_index
local_variable-Keeps name declare = search sound_rules

pub next_variable-Keeps : Keeps IsSound (local_variable anonymous false)
unfolding local_variable variable_index
next_variable-Keeps = search sound_rules

declare_one-Keeps : (name : Text) → Keeps IsSound (declare_one name)
unfolding declare_one
declare_one-Keeps name = search (sound_rules, local_variable-Keeps)

declare_each-Keeps : (names : List Text) → Keeps IsSound (declare_each names)
unfolding declare_each
declare_each-Keeps [] = search sound_rules
declare_each-Keeps (name ∷ names) =
    Keeps-then (declare_one name) (declare_each names) (declare_one-Keeps name)
      (declare_each-Keeps names)

pub declare_names-Keeps : (names : List Names) → Keeps IsSound (declare_names names)
unfolding declare_names
declare_names-Keeps [] = search sound_rules
declare_names-Keeps (single name ∷ names) =
    Keeps-then (declare_one name) (declare_names names) (declare_one-Keeps name)
      (declare_names-Keeps names)
declare_names-Keeps (group inner ∷ names) =
    Keeps-then (reset_locals (pos 1)) (declare_each inner >> declare_names names)
      (reset_locals-Keeps (pos 1))
      (Keeps-then (declare_each inner) (declare_names names) (declare_each-Keeps inner)
        (declare_names-Keeps names))

free_one-Keeps : (name : Text) → Keeps IsSound (free_one name)
unfolding free_one
free_one-Keeps name = search sound_rules

free_each-Keeps : (names : List Text) → Keeps IsSound (free_each names)
unfolding free_each
free_each-Keeps [] = search sound_rules
free_each-Keeps (name ∷ names) =
    Keeps-then (free_one name) (free_each names) (free_one-Keeps name) (free_each-Keeps names)

pub free_names-Keeps : (names : List Names) → Keeps IsSound (free_names names)
unfolding free_names
free_names-Keeps [] = search sound_rules
free_names-Keeps (single name ∷ names) =
    Keeps-then (free_one name) (free_names names) (free_one-Keeps name) (free_names-Keeps names)
free_names-Keeps (group inner ∷ names) =
    Keeps-then (free_each inner) (sort_freed >> free_names names) (free_each-Keeps inner)
      (Keeps-then sort_freed (free_names names) sort_freed-Keeps (free_names-Keeps names))

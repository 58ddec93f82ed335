-- ===== src/Locals.antt =====
-- python/src/mlogv32/preprocessor/extensions.py: `LocalVariables`, which gives numbered variables
-- to names. A method takes the environment's fields and returns them with its result or exception.
pub mod Counts
pub mod Keeps
pub mod Valid
pub mod Calls
pub mod Reuse
pub mod Groups
use mlogv.Prelude.{
  ℕ, ◌+◌, Bool, true, false, not, ◌&&◌, ◌||◌, Option, none, some, List, [], ◌∷◌, ◌++◌, Text, codes,
  text_eq, Result, ok, err, if◌then◌else◌, ltb, leb, ◌==◌, ℤ, pos, negsuc,
}
use mlogv.PyInt.{decimal}

-- the exceptions, with what their messages name
pub data LocalError : Type 0 where
  invalid_index : ℤ → LocalError
  invalid_declaration invalid_variable unknown_variable undeclared : Text → LocalError
  freed_twice : ℕ → LocalError

-- `LocalVariablesEnv`
pub record Env : Type 0 where
  pub local_variable_index : ℕ
  pub largest_local_variable : ℕ
  pub local_variable_cache : List (Text × ℕ)
  pub freed_local_variables : List ℕ

abbrev pub M : Type 0 → Type 0
M A = Env → Result LocalError A × Env

-- An exception leaves behind what was changed before it.
abbrev pub go_on :
    {A B : Type 0} → (A → M B) → Result LocalError A × Env → Result LocalError B × Env
go_on f (ok a, env) = f a env
go_on f (err e, env) = (err e, env)

infixl 5 ◌>>=◌ ◌>>◌
abbrev pub ◌>>=◌ : {A B : Type 0} → M A → (A → M B) → M B
◌>>=◌ m f env = go_on f (m env)

abbrev pub ◌>>◌ : {B : Type 0} → M (Unit {0}) → M B → M B
◌>>◌ m k = m >>= λ _. k

abbrev pub pure : {A : Type 0} → A → M A
pure a env = (ok a, env)

abbrev pub raise : {A : Type 0} → LocalError → M A
raise e env = (err e, env)

unfoldable pub initial : Env
initial = record {
  local_variable_index = 1;
  largest_local_variable = 0;
  local_variable_cache = [];
  freed_local_variables = [];
}

unfoldable pub reset_to : ℕ → M (Unit {0})
reset_to i env = (
  ok tt,
  record env { local_variable_index = i; local_variable_cache = []; freed_local_variables = [] },
)

unfoldable pub reset_locals : ℤ → M (Unit {0})
reset_locals (pos i) = if ltb i 1 then raise (invalid_index (pos i)) else reset_to i
reset_locals (negsuc i) = raise (invalid_index (negsuc i))

-- `cache.get(key)`
unfoldable pub lookup : List (Text × ℕ) → Text → Option ℕ
lookup [] key = none
lookup ((k, i) ∷ cache) key = if text_eq k key then some i else lookup cache key

-- `cache.pop(key)`, for a key that is there
unfoldable pub without : List (Text × ℕ) → Text → List (Text × ℕ)
without [] key = []
without ((k, i) ∷ cache) key = if text_eq k key then cache else (k, i) ∷ without cache key

-- `freed.pop()`: the last item, and the others
unfoldable pub pop_last : ℕ → List ℕ → ℕ × List ℕ
pop_last x [] = (x, [])
pop_last x (y ∷ ys) = let (z, rest) = pop_last y ys in (z, x ∷ rest)

-- The arms with a freed index and with the next one; this is where an index is taken.
unfoldable pub take_from : List ℕ → M ℕ
take_from [] env = (
  ok env.local_variable_index,
  record env { local_variable_index = env.local_variable_index + 1 },
)
take_from (x ∷ xs) env =
    let (i, rest) = pop_last x xs in (ok i, record env { freed_local_variables = rest })

unfoldable pub take_index : M ℕ
take_index env = take_from env.freed_local_variables env

unfoldable pub starts_with : ℕ → Text → Bool
starts_with c [] = false
starts_with c (d ∷ s) = c == d

-- `name.startswith("$$")`
unfoldable pub starts_with_two : Text → Bool
unfolding starts_with
starts_with_two [] = false
starts_with_two (c ∷ s) = c == b'$' && starts_with b'$' s

-- `name.removeprefix("$")`
unfoldable pub remove_prefix : Text → Text
remove_prefix [] = []
remove_prefix (c ∷ s) = if c == b'$' then s else c ∷ s

unfoldable pub max : ℕ → ℕ → ℕ
max a b = if ltb a b then b else a

-- `cache[name] = i` for a new name, and the largest index so far
unfoldable pub store : Text → ℕ → M ℕ
unfolding max
store name i env = (
  ok i,
  record env {
    local_variable_cache = env.local_variable_cache ++ (name, i) ∷ [];
    largest_local_variable = max i env.largest_local_variable;
  },
)

-- A name that is not in the cache. The index is taken before the name is refused.
unfoldable pub new_variable : Text → Bool → M ℕ
new_variable name declare = do
  i ← take_index
  (if not declare && starts_with b'$' name then raise (undeclared name) else store name i)

unfoldable pub named_variable : Text → Bool → M ℕ
named_variable name declare env = elim (lookup env.local_variable_cache name) [
  | some i ↦ (ok i, env)
  | none ↦ new_variable name declare env
]

unfoldable pub set_index : ℕ → M ℕ
set_index i env = (ok i, record env { local_variable_index = i + 1 })

unfoldable pub indexed_variable : ℤ → M ℕ
indexed_variable (pos i) = if ltb i 1 then raise (invalid_index (pos i)) else set_index i
indexed_variable (negsuc i) = raise (invalid_index (negsuc i))

-- the argument `name: str | int | None`
pub data NameArg : Type 0 where
  named : Text → NameArg
  indexed : ℤ → NameArg
  anonymous : NameArg

-- The index of the variable; neither an integer nor `None` is ever a key of the cache.
unfoldable pub variable_index : NameArg → Bool → M ℕ
variable_index (named name) declare = named_variable name declare
variable_index (indexed i) declare = indexed_variable i
variable_index anonymous declare = take_index

unfoldable pub local_variable : NameArg → Bool → M Text
local_variable name declare = do i ← variable_index name declare; pure (codes "local" ++ decimal i)

-- the arguments `*names: str | list[str]`
pub data Names : Type 0 where
  single : Text → Names
  group : List Text → Names

unfoldable pub declare_one : Text → M (Unit {0})
declare_one name =
    if not (starts_with_two name)
    then raise (invalid_declaration name)
    else (do shown ← local_variable (named (remove_prefix name)) true; pure tt)

unfoldable pub declare_each : List Text → M (Unit {0})
declare_each [] = pure tt
declare_each (name ∷ names) = do declare_one name; declare_each names

-- the loop; `declare_locals(*name)` starts with a reset, since `reset` and `i` are the defaults
unfoldable pub declare_names : List Names → M (Unit {0})
declare_names [] = pure tt
declare_names (single name ∷ names) = do declare_one name; declare_names names
declare_names (group inner ∷ names) = do
  reset_locals (pos 1)
  declare_each inner
  declare_names names

unfoldable pub declare_locals : List Names → ℤ → Bool → M (Unit {0})
declare_locals names i reset = do (if reset then reset_locals i else pure tt); declare_names names

unfoldable pub contains : List ℕ → ℕ → Bool
contains [] i = false
contains (x ∷ xs) i = x == i || contains xs i

unfoldable pub insert_desc : ℕ → List ℕ → List ℕ
insert_desc i [] = i ∷ []
insert_desc i (x ∷ xs) = let rest = insert_desc i xs in if leb x i then i ∷ x ∷ xs else x ∷ rest

-- `freed.sort(reverse=True)`
unfoldable pub sort_desc : List ℕ → List ℕ
unfolding insert_desc
sort_desc [] = []
sort_desc (x ∷ xs) = insert_desc x (sort_desc xs)

-- `cache.pop(key)`, the assertion and the append
unfoldable pub release : Text → ℕ → M (Unit {0})
release key i env =
    let popped = record env { local_variable_cache = without env.local_variable_cache key } in
    if contains env.freed_local_variables i
    then (err (freed_twice i), popped)
    else (ok tt, record popped { freed_local_variables = env.freed_local_variables ++ i ∷ [] })

unfoldable pub free_key : Text → Text → M (Unit {0})
free_key name key env = elim (lookup env.local_variable_cache key) [
  | none ↦ (err (unknown_variable name), env)
  | some i ↦ release key i env
]

unfoldable pub free_one : Text → M (Unit {0})
free_one name =
    if not (starts_with b'$' name)
    then raise (invalid_variable name)
    else free_key name (remove_prefix name)

unfoldable pub sort_freed : M (Unit {0})
sort_freed env = (ok tt, record env { freed_local_variables = sort_desc env.freed_local_variables })

unfoldable pub free_each : List Text → M (Unit {0})
free_each [] = pure tt
free_each (name ∷ names) = do free_one name; free_each names

unfoldable pub free_names : List Names → M (Unit {0})
free_names [] = pure tt
free_names (single name ∷ names) = do free_one name; free_names names
free_names (group inner ∷ names) = do free_each inner; sort_freed; free_names names

unfoldable pub free_locals : List Names → M (Unit {0})
free_locals names = do free_names names; sort_freed

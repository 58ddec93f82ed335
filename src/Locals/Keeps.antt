-- ===== src/Locals/Keeps.antt =====
-- python/src/mlogv32/preprocessor/extensions.py: the invariant of the environment of the local variables,
-- and the calls that keep a property of the state.
use mlogv.Prelude.{ℕ, ◌+◌, ◌≤◌, Bool, ◌&&◌, Result, ok, err, if◌then◌else◌, if_keeps, ltb, ◌==◌}
use mlogv.Locals.{LocalError, Env, M, go_on, ◌>>=◌, ◌>>◌, pure, raise}
use mlogv.Locals.Counts.{count, indices}

-- there is room for one use of an index from 1 up to the next one
abbrev pub room : ℕ → ℕ → ℕ
room next k = if ltb 0 k && ltb k next then 1 else 0

-- Every index is used at most once, by a name or as a freed one, and only if it lies in range.
abbrev pub IsValid : Env → Type 0
IsValid env =
    (k : ℕ)
    → count k (indices env.local_variable_cache) + count k env.freed_local_variables
      ≤ room env.local_variable_index k

-- the next index is at least 1
abbrev pub IsSound : Env → Type 0
IsSound env = IsValid env × (1 ≤ env.local_variable_index)

-- `m` keeps the property, whether it returns or raises
pub record Keeps {A : Type 0} (P : Env → Type 0) (m : M A) : Type 0 where
  pub at : (env : Env) → P env → P (m env).1

module _ {P : Env → Type 0} where
  pub Keeps-pure : {A : Type 0} (a : A) → Keeps P (pure a)
  Keeps-pure a = record { at = λ env h. h }

  pub Keeps-raise : {A : Type 0} (e : LocalError) → Keeps P (raise {A = A} e)
  Keeps-raise e = record { at = λ env h. h }

  pub Keeps-bind :
      {A B : Type 0} (m : M A) (f : A → M B)
      → Keeps P m
      → ((a : A) → Keeps P (f a))
      → Keeps P (m >>= f)
  Keeps-bind {A} m f km kf = record { at = λ env h. next (m env) (km.at env h) }
    where
      next : (s : Result LocalError A × Env) → P s.1 → P (go_on f s).1
      next (ok a, env) h = (kf a).at env h
      next (err e, env) h = h

  pub Keeps-then :
      {B : Type 0} (m : M (Unit {0})) (k : M B) → Keeps P m → Keeps P k → Keeps P (m >> k)
  Keeps-then m k km kk = Keeps-bind m (λ _. k) km (λ _. kk)

  pub Keeps-if :
      {A : Type 0} (b : Bool) (m n : M A) → Keeps P m → Keeps P n → Keeps P (if b then m else n)
  Keeps-if b m n km kn = if_keeps (Keeps P) b km kn

pub ruleset keeps_rules = (Keeps-pure, Keeps-raise, Keeps-bind, Keeps-if)

-- `i` may be used once more
abbrev pub IsFresh : ℕ → Env → Type 0
IsFresh i env =
    ((k : ℕ)
      → (if i == k then 1 else 0)
          + count k (indices env.local_variable_cache)
          + count k env.freed_local_variables
        ≤ room env.local_variable_index k)
    × (1 ≤ env.local_variable_index)

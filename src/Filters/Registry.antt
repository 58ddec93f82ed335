-- ===== src/Filters/Registry.antt =====
-- python/src/mlogv32/preprocessor/filters.py: the registry of the filters and the wrapper that adds notes
-- to exceptions. The values of the arguments and their texts are parameters.
use mlogv.Prelude.{
  Bool, true, false, ◌||◌, Option, none, some, List, [], ◌∷◌, ◌++◌, Text, text_eq, text_eq_refl,
  text_eq_iff, codes, Result, ok, err, ◌≡◌, arith, if◌then◌else◌,
}
use mlogv.BuildConfig.{lookup, insert}

-- an argument; Jinja passes its context to some functions
pub data Argument (A : Type 0) : Type 0 where
  context : Argument A
  value : A → Argument A

-- an exception with its notes
pub record Raised (E : Type 0) : Type 0 where
  pub error : E
  pub notes : List Text

-- a function with positional arguments and keywords
abbrev pub Callable : Type 0 → Type 0 → Type 0 → Type 0
Callable A E R = List (Argument A) → List (Text × A) → Result (Raised E) R

-- `next(iter(params.keys())) == "self"`
unfoldable pub is_method : List Text → Bool
is_method [] = false
is_method (param ∷ params) = text_eq param (codes "self")

is_context : {A : Type 0} → Argument A → Bool
is_context context = true
is_context (value a) = false

-- the arguments that are noted
unfoldable pub noted_args : {A : Type 0} → Bool → List (Argument A) → List (Argument A)
unfolding is_context
noted_args method [] = []
noted_args method (arg ∷ args) = if method || is_context arg then args else arg ∷ args

-- the texts of a list of arguments and of the keywords
pub record Shown (A : Type 0) : Type 0 where
  pub show_args : List (Argument A) → Text
  pub show_kwargs : List (Text × A) → Text

with_notes :
    {A E : Type 0} → Shown A → Bool → List (Argument A) → List (Text × A) → Raised E → Raised E
with_notes shown method args kwargs e = record e {
  notes =
      e.notes
      ++ ((codes "args:   " ++ shown.show_args (noted_args method args))
          ∷ (codes "kwargs: " ++ shown.show_kwargs kwargs)
          ∷ []);
}

noted :
    {A E R : Type 0}
    → Shown A
    → Bool
    → List (Argument A)
    → List (Text × A)
    → Result (Raised E) R
    → Result (Raised E) R
unfolding with_notes
noted shown method args kwargs (ok r) = ok r
noted shown method args kwargs (err e) = err (with_notes shown method args kwargs e)

-- `make_jinja_exceptions_suck_a_bit_less`, for a function with these parameters
unfoldable pub make_jinja_exceptions_suck_a_bit_less :
    {A E R : Type 0} → Shown A → List Text → Callable A E R → Callable A E R
unfolding noted
make_jinja_exceptions_suck_a_bit_less shown params f args kwargs =
    noted shown (is_method params) args kwargs (f args kwargs)

-- `register_filter(name)` on a function that is called `f_name`: the function and the registry
unfoldable pub register_filter :
    {A E R : Type 0}
    → Option Text
    → Text
    → Callable A E R
    → List (Text × Callable A E R)
    → Callable A E R × List (Text × Callable A E R)
register_filter none f_name f filters = (f, insert filters f_name f)
register_filter (some []) f_name f filters = (f, insert filters f_name f)
register_filter (some (c ∷ name)) f_name f filters = (f, insert filters (c ∷ name) f)

-- a filter as the file declares it: registered, and then wrapped
unfoldable pub declare_filter :
    {A E R : Type 0}
    → Shown A
    → List Text
    → Option Text
    → Text
    → Callable A E R
    → List (Text × Callable A E R)
    → Callable A E R × List (Text × Callable A E R)
declare_filter shown params name f_name f filters =
    let registered = register_filter name f_name f filters in
    (make_jinja_exceptions_suck_a_bit_less shown params registered.0, registered.1)

lookup-insert_same :
    {A : Type 0} (entries : List (Text × A)) (name : Text) (a : A)
    → lookup (insert entries name a) name ≡ some a
unfolding lookup insert
lookup-insert_same [] name a = ground (arith, text_eq_refl name)
lookup-insert_same ((key, b) ∷ entries) name a =
    ground (arith, text_eq_refl name, text_eq_iff key name, lookup-insert_same entries name a)

-- What the registry, which Jinja gets, has for the name of a filter is the function without the wrapper:
-- its exceptions carry no notes of the wrapper.
declare_filter-unwrapped :
    {A E R : Type 0} (shown : Shown A) (params : List Text) (f_name : Text) (f : Callable A E R)
    (filters : List (Text × Callable A E R))
    → lookup (declare_filter shown params none f_name f filters).1 f_name ≡ some f
unfolding declare_filter register_filter
declare_filter-unwrapped shown params f_name f filters = lookup-insert_same filters f_name f

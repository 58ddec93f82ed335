-- ===== src/Filters.antt =====
-- python/src/mlogv32/preprocessor/filters.py: the filters that the templates use, but for
-- `namespace_dict`, which reads a private attribute of Jinja's. Sizes are not negative.
pub mod Sizes
pub mod Registry
use mlogv.Prelude.{
  ℕ, suc, ◌+◌, ◌-◌, ◌*◌, ◌/◌, ◌%◌, Option, none, some, List, [], ◌∷◌, ◌++◌, Text, codes, Result, ok,
  err, ◌>>=◌, if◌then◌else◌, ◌==◌, length, replicate, ℤ, pos, negsuc,
}
use mlogv.PyInt.{decimal, to_base}
use mlogv.RamProc.{RamError, mlogv32, get_variable}
use mlogv.BuildConfig.{lookup}
use mlogv.BuildConfig.Constants.{csrs, memory_k, memory_m}

pub data FilterError : Type 0 where
  invalid_csr : Text → FilterError
  no_variable : RamError → FilterError

lift : Result RamError Text → Result FilterError Text
lift (ok v) = ok v
lift (err e) = err (no_variable e)

unfoldable pub ram_var : ℕ → Result FilterError Text
unfolding lift
ram_var index = lift (get_variable mlogv32 index)

-- the argument `name: str | int`
pub data CsrName : Type 0 where
  named : Text → CsrName
  numbered : ℕ → CsrName

unfoldable pub csr : CsrName → Result FilterError Text
csr (named name) = elim (lookup csrs name) [
  | none ↦ err (invalid_csr name)
  | some address ↦ ram_var address
]
csr (numbered address) = ram_var address

unfoldable pub quote : Text → Text
quote value = b'"' ∷ (value ++ b'"' ∷ [])

-- `hex(n)`
unfoldable pub hex : ℤ → Text
hex (pos n) = b'0' ∷ b'x' ∷ to_base 16 n
hex (negsuc n) = b'-' ∷ b'0' ∷ b'x' ∷ to_base 16 (suc n)

unfoldable pub memory_size : ℕ → Text
memory_size size =
    if size == 0
    then b'0' ∷ []
    else if size % memory_m == 0
    then decimal (size / memory_m) ++ b'M' ∷ []
    else if size % memory_k == 0
    then decimal (size / memory_k) ++ b'K' ∷ []
    else hex (pos size)

-- `f"{n:#0{bits + 2}b}"`: the digits are filled up with zeros behind `0b`
unfoldable pub bin : ℕ → Option ℕ → Text
bin n none = b'0' ∷ b'b' ∷ to_base 2 n
bin n (some bits) =
    let digits = to_base 2 n in
    if bits == 0
    then b'0' ∷ b'b' ∷ digits
    else b'0' ∷ b'b' ∷ (replicate (bits - length digits) b'0' ++ digits)

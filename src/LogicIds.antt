-- ===== src/LogicIds.antt =====
-- python/src/mlogv32/scripts/logicids.py: the reader of Mindustry's `logicids.dat`. Bytes are numbers;
-- the decoder of UTF-8 is a parameter. `pop_float`, `pop_double` and `pop_bool` are not used.
pub mod RoundTrip
use mlogv.Prelude.{
  ℕ, zero, suc, ◌+◌, ◌-◌, ◌*◌, ◌^◌, ◌/◌, Bool, true, false, ◌&&◌, Option, none, some, List, [], ◌∷◌,
  ◌++◌, Text, codes, Result, ok, err, ◌>>=◌, if◌then◌else◌, leb, ltb, length, ℤ, pos, sub_ℕ,
}

-- `data.pop(0)` of an empty array, and a name that is no UTF-8
pub data ReadError : Type 0 where
  index_error unicode_decode_error : ReadError

unfoldable pub pop_bytes : ℕ → List ℕ → Result ReadError (List ℕ × List ℕ)
pop_bytes zero bytes = ok ([], bytes)
pop_bytes (suc n) [] = err index_error
pop_bytes (suc n) (b ∷ bytes) = do rest ← pop_bytes n bytes; ok (b ∷ rest.0, rest.1)

-- the big-endian number behind `acc`
unfoldable pub big_endian : ℕ → List ℕ → ℕ
big_endian acc [] = acc
big_endian acc (b ∷ bytes) = big_endian (acc * 256 + b) bytes

-- `int.from_bytes(bytes, signed=signed)`: two's complement
unfoldable pub from_bytes : Bool → List ℕ → ℤ
from_bytes signed bytes =
    let n = big_endian 0 bytes in
    let modulus = 256 ^ length bytes in
    if signed && leb modulus (2 * n) then sub_ℕ n modulus else pos n

unfoldable pub pop_int : ℕ → Bool → List ℕ → Result ReadError (ℤ × List ℕ)
pop_int byte_count signed bytes = do
  popped ← pop_bytes byte_count bytes
  ok (from_bytes signed popped.0, popped.1)

-- how often `range(0, n)` runs
abbrev pub to_count : ℤ → ℕ
to_count (pos n) = n
to_count (ℤ.negsuc n) = 0

-- the entries of one content type
pub record Content : Type 0 where
  pub content_type : Text
  pub count : ℤ
  pub names : List Text

unfoldable pub content_types : List Text
content_types = codes "block" ∷ codes "unit" ∷ codes "item" ∷ codes "liquid" ∷ []

module _ (decode : List ℕ → Option Text) where
  unfoldable pub decoded : List ℕ → Result ReadError Text
  decoded bytes = elim (decode bytes) [ none ↦ err unicode_decode_error | some name ↦ ok name ]

  unfoldable pub pop_utf : List ℕ → Result ReadError (Text × List ℕ)
  pop_utf bytes = do
    char_count ← pop_int 2 false bytes
    popped ← pop_bytes (to_count char_count.0) char_count.1
    name ← decoded popped.0
    ok (name, popped.1)

  unfoldable pub pop_names : ℕ → List ℕ → Result ReadError (List Text × List ℕ)
  pop_names zero bytes = ok ([], bytes)
  pop_names (suc n) bytes = do
    first ← pop_utf bytes
    rest ← pop_names n first.1
    ok (first.0 ∷ rest.0, rest.1)

  unfoldable pub read_contents : List Text → List ℕ → Result ReadError (List Content × List ℕ)
  read_contents [] bytes = ok ([], bytes)
  read_contents (ctype ∷ ctypes) bytes = do
    amount ← pop_int 2 true bytes
    read ← pop_names (to_count amount.0) amount.1
    rest ← read_contents ctypes read.1
    ok (record { content_type = ctype; count = amount.0; names = read.0 } ∷ rest.0, rest.1)

  -- the dictionary that `main` writes, without the bytes that are left
  unfoldable pub read_file : List ℕ → Result ReadError (List Content)
  read_file bytes = do contents ← read_contents content_types bytes; ok contents.0

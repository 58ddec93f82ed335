-- ===== src/LogicIds/RoundTrip.antt =====
-- python/src/mlogv32/scripts/logicids.py: files in the format of `logicids.dat`, and what is read from them.
use mlogv.Prelude.{
  ℕ, ◌+◌, ◌*◌, ◌/◌, ◌%◌, ◌<◌, ◌≡◌, refl, ap, ◌∙◌, true, false, Option, some, List, [], ◌∷◌, ◌++◌,
  append_assoc, Text, Result, ok, ◌>>=◌, arith, length, All, ℤ, pos,
}
use mlogv.LogicIds.{
  ReadError, pop_bytes, big_endian, from_bytes, pop_int, to_count, Content, content_types, decoded,
  pop_utf, pop_names, read_contents, read_file,
}

-- A number of two bytes.
abbrev pub short : ℕ → List ℕ
short n = n / 256 ∷ n % 256 ∷ []

pop_bytes-append : (a rest : List ℕ) → pop_bytes (length a) (a ++ rest) ≡ ok (a, rest)
unfolding pop_bytes
pop_bytes-append [] rest = refl
pop_bytes-append (b ∷ a) rest = rw (pop_bytes-append a rest) refl

pop_int-unsigned : (n : ℕ) (rest : List ℕ) → pop_int 2 false (short n ++ rest) ≡ ok (pos n, rest)
unfolding pop_int pop_bytes from_bytes big_endian
pop_int-unsigned n rest =
    let whole : (0 * 256 + n / 256) * 256 + n % 256 ≡ n = omega arith in
    ap (λ m. ok (pos m, rest)) whole

from_short : (n : ℕ) → n < 32768 → from_bytes true (short n) ≡ pos n
unfolding from_bytes big_endian
from_short n h = ground arith

pop_int-signed :
    (n : ℕ) (rest : List ℕ) → n < 32768 → pop_int 2 true (short n ++ rest) ≡ ok (pos n, rest)
unfolding pop_int pop_bytes from_bytes big_endian
pop_int-signed n rest h = ap (λ z. ok (z, rest)) (from_short n h)

module _ (decode : List ℕ → Option Text) (encode : Text → List ℕ) where
  abbrev name_bytes : Text → List ℕ
  name_bytes name = short (length (encode name)) ++ encode name

  abbrev names_bytes : List Text → List ℕ
  names_bytes [] = []
  names_bytes (name ∷ names) = name_bytes name ++ names_bytes names

  -- Mindustry's format: for each type a count and the names, each behind its length.
  abbrev pub file_of : List (List Text) → List ℕ
  file_of [] = []
  file_of (names ∷ contents) = short (length names) ++ (names_bytes names ++ file_of contents)

  decoded-name :
      (name : Text) → decode (encode name) ≡ some name → decoded decode (encode name) ≡ ok name
  unfolding decoded
  decoded-name name h = ground (arith, h)

  abbrev rest_of_utf : Result ReadError (ℤ × List ℕ) → Result ReadError (Text × List ℕ)
  rest_of_utf counted = do
    char_count ← counted
    popped ← pop_bytes (to_count char_count.0) char_count.1
    name ← decoded decode popped.0
    ok (name, popped.1)

  abbrev rest_of_name : List ℕ → Result ReadError Text → Result ReadError (Text × List ℕ)
  rest_of_name rest named = do name ← named; ok (name, rest)

  abbrev rest_of_bytes : Result ReadError (List ℕ × List ℕ) → Result ReadError (Text × List ℕ)
  rest_of_bytes popping = do popped ← popping; name ← decoded decode popped.0; ok (name, popped.1)

  pop_utf-name :
      (name : Text) (rest : List ℕ)
      → decode (encode name) ≡ some name
      → pop_utf decode (name_bytes name ++ rest) ≡ ok (name, rest)
  unfolding pop_utf
  pop_utf-name name rest h =
      ap rest_of_utf (pop_int-unsigned (length (encode name)) (encode name ++ rest))
      ∙ ap rest_of_bytes (pop_bytes-append (encode name) rest)
      ∙ ap (rest_of_name rest) (decoded-name name h)

  -- every one of the names can be decoded again
  abbrev pub Names : List Text → Type 0
  Names = All (λ name. decode (encode name) ≡ some name)

  pop_names-names :
      (names : List Text) (rest : List ℕ)
      → Names names
      → pop_names decode (length names) (names_bytes names ++ rest) ≡ ok (names, rest)
  unfolding pop_names
  pop_names-names [] rest h = refl
  pop_names-names (name ∷ names) rest h =
      rw
        (
          append_assoc (name_bytes name) (names_bytes names) rest,
          pop_utf-name name (names_bytes names ++ rest) h.0,
          pop_names-names names rest h.1,
        )
        refl

  abbrev pub contents_of : List Text → List (List Text) → List Content
  contents_of (ctype ∷ ctypes) (names ∷ contents) =
      record { content_type = ctype; count = pos (length names); names = names }
      ∷ contents_of ctypes contents
  contents_of _ _ = []

  read_contents-file :
      (ctypes : List Text) (contents : List (List Text))
      → length ctypes ≡ length contents
      → All Names contents
      → All (λ names. length names < 32768) contents
      → read_contents decode ctypes (file_of contents) ≡ ok (contents_of ctypes contents, [])
  unfolding read_contents
  read_contents-file [] [] e h few = refl
  read_contents-file [] (names ∷ contents) e h few = ground arith
  read_contents-file (ctype ∷ ctypes) [] e h few = ground arith
  read_contents-file (ctype ∷ ctypes) (names ∷ contents) e h few =
      rw
        (
          pop_int-signed (length names) (names_bytes names ++ file_of contents) few.0,
          pop_names-names names (file_of contents) h.0,
          read_contents-file ctypes contents (omega arith) h.1 few.1,
        )
        refl

  -- Let `decode` undo `encode` on the names of the file, and let each of the four content types have
  -- fewer than 32768 names. Then the program reads a file of Mindustry's format as the counts and the
  -- names that were written, under the four types in order.
  pub read_file-file_of :
      (blocks units items liquids : List Text)
      → Names blocks × Names units × Names items × Names liquids
      → (length blocks < 32768)
        × (length units < 32768)
        × (length items < 32768)
        × (length liquids < 32768)
      → read_file decode (file_of (blocks ∷ units ∷ items ∷ liquids ∷ []))
        ≡ ok (contents_of content_types (blocks ∷ units ∷ items ∷ liquids ∷ []))
  unfolding read_file content_types
  read_file-file_of blocks units items liquids (hb, hu, hi, hl) (b, u, i, l) =
      let contents = blocks ∷ units ∷ items ∷ liquids ∷ [] in
      rw
        (read_contents-file content_types contents (omega arith) (hb, (hu, (hi, (hl, tt))))
          (b, (u, (i, (l, tt)))))
        refl

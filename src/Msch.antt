-- ===== src/Msch.antt =====
-- python/src/mlogv32/utils/msch.py: `ProcessorConfigUTF8.compress`, what a processor of the schematic
-- holds. The byte buffer of pymsch and zlib are parameters; the encoding of the text is the language's.
pub mod Utf8
pub mod RoundTrip
use mlogv.Prelude.{
  ℕ, ◌+◌, ◌/◌, ◌%◌, Bool, true, false, ◌&&◌, ◌||◌, not, List, [], ◌∷◌, ◌++◌, length, Text, Result,
  ok, err, ◌>>=◌, if◌then◌else◌, ltb, ℤ, pos,
}
use mlogv.Layout.{Link}

-- the error of `encode`, and that of a number that the buffer has no room for
pub data MschError : Type 0 where
  unicode_encode_error : ℕ → MschError
  out_of_range : ℤ → MschError

-- `_ByteBuffer`: what a call leaves in the buffer that held the bytes
pub record ByteBuffer : Type 0 where
  pub write_byte : List ℕ → ℤ → Result MschError (List ℕ)
  pub write_short : List ℕ → ℤ → Result MschError (List ℕ)
  pub write_int : List ℕ → ℤ → Result MschError (List ℕ)
  pub write_utf : List ℕ → Text → Result MschError (List ℕ)

-- a surrogate, or no code point at all
unfoldable pub is_refused : ℕ → Bool
is_refused c = (not (ltb c 55296) && ltb c 57344) || not (ltb c 1114112)

unfoldable pub utf8_bytes : ℕ → List ℕ
utf8_bytes c =
    if ltb c 128
    then c ∷ []
    else if ltb c 2048
    then (192 + c / 64) ∷ (128 + c % 64) ∷ []
    else if ltb c 65536
    then (224 + c / 4096) ∷ (128 + (c / 64) % 64) ∷ (128 + c % 64) ∷ []
    else (240 + c / 262144) ∷ (128 + (c / 4096) % 64) ∷ (128 + (c / 64) % 64) ∷ (128 + c % 64) ∷ []

encode_char : ℕ → Result MschError (List ℕ)
encode_char c = if is_refused c then err (unicode_encode_error c) else ok (utf8_bytes c)

-- `text.encode("utf-8")`
unfoldable pub encode : Text → Result MschError (List ℕ)
unfolding encode_char
encode [] = ok []
encode (c ∷ text) = do first ← encode_char c; rest ← encode text; ok (first ++ rest)

pub record ProcessorConfigUtf8 : Type 0 where
  pub code : Text
  pub links : List Link

module _ (buffer : ByteBuffer) where
  unfoldable pub write_link : List ℕ → Link → Result MschError (List ℕ)
  write_link content link = do
    content ← buffer.write_utf content link.name
    content ← buffer.write_short content link.x
    buffer.write_short content link.y

  unfoldable pub write_links : List ℕ → List Link → Result MschError (List ℕ)
  write_links content [] = ok content
  write_links content (link ∷ links) = do
    content ← write_link content link
    write_links content links

  -- the buffer that is compressed
  unfoldable pub write_config : ProcessorConfigUtf8 → Result MschError (List ℕ)
  write_config config = do
    content ← buffer.write_byte [] (pos 1)
    code ← encode config.code
    content ← buffer.write_int content (pos (length code))
    content ← buffer.write_int (content ++ code) (pos (length config.links))
    write_links content config.links

  unfoldable pub compress : (List ℕ → List ℕ) → ProcessorConfigUtf8 → Result MschError (List ℕ)
  compress zlib_compress config = do content ← write_config config; ok (zlib_compress content)

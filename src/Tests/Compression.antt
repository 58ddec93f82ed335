-- ===== src/Tests/Compression.antt =====
-- python/src/mlogv32/utils/msch.py: `compress` with a byte buffer in the order of Java's streams.
use mlogv.Prelude.{
  ℕ, ◌+◌, ◌*◌, ◌-◌, ◌/◌, ◌%◌, ◌≡◌, refl, ap, ◌∙◌, List, [], ◌∷◌, ◌++◌, append_assoc, length, take,
  drop, take_of_append, drop_of_append, Text, codes, Result, ok, err, ◌>>=◌, bind-eq-ok, Option,
  none, some, ℤ, pos, negsuc, if◌then◌else◌, ltb, arith,
}
use mlogv.Msch.{
  MschError, out_of_range, ByteBuffer, ProcessorConfigUtf8, is_refused, utf8_bytes, encode,
  write_link, write_links, write_config, compress,
}
use mlogv.Msch.Utf8.{decode, encode-decode}
use mlogv.Msch.RoundTrip.{IsReadBy, Reads, read_config, compress-read_config}

-- the bytes of a number, from the first on
short_bytes : ℕ → List ℕ
short_bytes n = n / 256 ∷ n % 256 ∷ []

int_bytes : ℕ → List ℕ
int_bytes n = n / 16777216 ∷ (n / 65536) % 256 ∷ (n / 256) % 256 ∷ n % 256 ∷ []

unsigned : ℕ → ℤ → Result MschError ℕ
unsigned half (pos n) = if ltb n half then ok n else err (out_of_range (pos n))
unsigned half (negsuc n) =
    if ltb n half then ok (half + half - (n + 1)) else err (out_of_range (negsuc n))

signed : ℕ → ℕ → ℤ
signed half n = if ltb n half then pos n else negsuc (half + half - (n + 1))

signed-unsigned : (half : ℕ) (z : ℤ) (n : ℕ) → unsigned half z ≡ ok n → signed half n ≡ z
unfolding unsigned signed
signed-unsigned half (pos a) n h = ground (arith, h)
signed-unsigned half (negsuc a) n h = ground (arith, h)

-- a write of the buffer, from the bytes of the number
put : ℕ → (ℕ → List ℕ) → List ℕ → ℤ → Result MschError (List ℕ)
put half layout before z = do n ← unsigned half z; ok (before ++ layout n)

get_short : List ℕ → Option (ℤ × List ℕ)
get_short (a ∷ b ∷ rest) = some (signed 32768 (a * 256 + b), rest)
get_short _ = none

get_int : List ℕ → Option (ℤ × List ℕ)
get_int (a ∷ b ∷ c ∷ d ∷ rest) =
    some (signed 2147483648 (((a * 256 + b) * 256 + c) * 256 + d), rest)
get_int _ = none

get_byte : List ℕ → Option (ℤ × List ℕ)
get_byte (a ∷ rest) = some (signed 128 a, rest)
get_byte [] = none

ok-append :
    (before layout after : List ℕ)
    → ◌≡◌ {A = Result MschError (List ℕ)} (ok (before ++ layout)) (ok after)
    → after ≡ before ++ layout
ok-append before layout after h = cc

put-IsReadBy :
    (half : ℕ) (layout : ℕ → List ℕ) (get : List ℕ → Option (ℤ × List ℕ))
    → ((n : ℕ) (rest : List ℕ) → get (layout n ++ rest) ≡ some (signed half n, rest))
    → IsReadBy (put half layout) get
unfolding put
put-IsReadBy half layout get reads before z after h =
    let (n, hn, h') = bind-eq-ok (unsigned half z) (λ n. ok (before ++ layout n)) h in
    (
      layout n,
      ok-append before (layout n) after h',
      λ rest. reads n rest ∙ ap (λ v. some (v, rest)) (signed-unsigned half z n hn),
    )

get_byte-put : (n : ℕ) (rest : List ℕ) → get_byte (n ∷ rest) ≡ some (signed 128 n, rest)
unfolding get_byte
get_byte-put n rest = refl

get_short-put :
    (n : ℕ) (rest : List ℕ) → get_short (short_bytes n ++ rest) ≡ some (signed 32768 n, rest)
unfolding get_short short_bytes
get_short-put n rest =
    let whole : n / 256 * 256 + n % 256 ≡ n = omega arith in
    ap (λ m. some (signed 32768 m, rest)) whole

get_int-put :
    (n : ℕ) (rest : List ℕ) → get_int (int_bytes n ++ rest) ≡ some (signed 2147483648 n, rest)
unfolding get_int int_bytes
get_int-put n rest =
    let whole : ((n / 16777216 * 256 + (n / 65536) % 256) * 256 + (n / 256) % 256) * 256 + n % 256
        ≡ n =
      omega arith in
    ap (λ m. some (signed 2147483648 m, rest)) whole

-- the length of the encoded text, and the text
put_utf : List ℕ → Text → Result MschError (List ℕ)
put_utf before text = do
  bytes ← encode text
  content ← put 32768 short_bytes before (pos (length bytes))
  ok (content ++ bytes)

named : ℕ → List ℕ → Option Text → Option (Text × List ℕ)
named n rest none = none
named n rest (some name) = some (name, drop n rest)

get_utf : List ℕ → Option (Text × List ℕ)
get_utf (a ∷ b ∷ rest) = named (a * 256 + b) rest (decode (take (a * 256 + b) rest))
get_utf _ = none

unsigned-pos : (half a n : ℕ) → unsigned half (pos a) ≡ ok n → n ≡ a
unfolding unsigned
unsigned-pos half a n h = ground (arith, h)

get_utf-put :
    (name : Text) (bytes rest : List ℕ)
    → encode name ≡ ok bytes
    → get_utf (short_bytes (length bytes) ++ (bytes ++ rest)) ≡ some (name, rest)
unfolding get_utf short_bytes named
get_utf-put name bytes rest h =
    let whole : length bytes / 256 * 256 + length bytes % 256 ≡ length bytes = omega arith in
    let found : named (length bytes) (bytes ++ rest) (decode (take (length bytes) (bytes ++ rest)))
        ≡ some (name, rest) =
      ap (λ t. named (length bytes) (bytes ++ rest) (decode t)) (take_of_append bytes rest)
      ∙ ap (named (length bytes) (bytes ++ rest)) (encode-decode name bytes h)
      ∙ ap (λ d. some (name, d)) (drop_of_append bytes rest) in
    ap (λ m. named m (bytes ++ rest) (decode (take m (bytes ++ rest)))) whole ∙ found

put_utf-IsReadBy : IsReadBy put_utf get_utf
unfolding put_utf put
put_utf-IsReadBy before name after h =
    let (bytes, hb, h1) =
      bind-eq-ok (encode name)
        (λ bytes.
          put 32768 short_bytes before (pos (length bytes)) >>= (λ content. ok (content ++ bytes)))
        h in
    let (content, hc, h2) =
      bind-eq-ok (put 32768 short_bytes before (pos (length bytes)))
        (λ content. ok (content ++ bytes)) h1 in
    let (n, hn, h3) =
      bind-eq-ok (unsigned 32768 (pos (length bytes))) (λ n. ok (before ++ short_bytes n)) hc in
    let start : content ≡ before ++ short_bytes (length bytes) =
      ok-append before (short_bytes n) content h3
      ∙ ap (λ m. before ++ short_bytes m) (unsigned-pos 32768 (length bytes) n hn) in
    (
      short_bytes (length bytes) ++ bytes,
      ok-append content bytes after h2
          ∙ ap (λ c. c ++ bytes) start
          ∙ append_assoc before (short_bytes (length bytes)) bytes,
      λ rest.
          ap get_utf (append_assoc (short_bytes (length bytes)) bytes rest)
          ∙ get_utf-put name bytes rest hb,
    )

abbrev java_buffer : ByteBuffer
java_buffer = record {
  write_byte = put 128 (λ n. n ∷ []);
  write_short = put 32768 short_bytes;
  write_int = put 2147483648 int_bytes;
  write_utf = put_utf;
}

abbrev java_reads : Reads
java_reads = record {
  read_byte = get_byte;
  read_short = get_short;
  read_int = get_int;
  read_utf = get_utf;
}

-- U+F6 takes two bytes, U+2713 three
abbrev config : ProcessorConfigUtf8
config = record {
  code = 246 ∷ 10003 ∷ codes "end";
  links = record { x = pos 3; y = negsuc 0; name = codes "bank1" } ∷ [];
}

abbrev content : List ℕ
content =
    1 ∷ 0 ∷ 0 ∷ 0 ∷ 8 ∷ 195 ∷ 182 ∷ 226 ∷ 156 ∷ 147 ∷ 101 ∷ 110 ∷ 100 ∷ 0 ∷ 0 ∷ 0 ∷ 1 ∷ 0 ∷ 5 ∷ 98
    ∷ 97 ∷ 110 ∷ 107 ∷ 49 ∷ 0 ∷ 3 ∷ 255 ∷ 255 ∷ []

compress-read_config_example : read_config java_reads content ≡ some (pos 1, config)
unfolding compress write_config put unsigned encode is_refused utf8_bytes write_links write_link
    put_utf int_bytes short_bytes
compress-read_config_example =
    compress-read_config java_buffer java_reads (λ b. b) (λ b. b)
      (put-IsReadBy 128 (λ n. n ∷ []) get_byte get_byte-put)
      (put-IsReadBy 32768 short_bytes get_short get_short-put)
      (put-IsReadBy 2147483648 int_bytes get_int get_int-put) put_utf-IsReadBy (λ bytes. refl)
      config content refl

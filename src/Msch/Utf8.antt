-- ===== src/Msch/Utf8.antt =====
-- python/src/mlogv32/utils/msch.py: a decoder for the bytes of the code.
use mlogv.Prelude.{
  ℕ, zero, suc, ◌+◌, ◌*◌, ◌-◌, ◌/◌, ◌%◌, ◌<◌, ◌≡◌, refl, ap, sym, ◌∙◌, Bool, true, false, not, ◌&&◌,
  List, [], ◌∷◌, ◌++◌, Text, Result, ok, ◌>>=◌, Option, none, some, bind-eq-ok, if◌then◌else◌, ltb,
  arith,
}
use mlogv.Msch.{MschError, is_refused, utf8_bytes, encode_char, encode}

-- what the first byte of a code point says
data Lead : Type 0 where
  ascii : Lead
  more : (bytes bits : ℕ) → Lead
  no_lead : Lead

lead : ℕ → Lead
lead b =
    if ltb b 128
    then ascii
    else if ltb b 192
    then no_lead
    else if ltb b 224
    then more 0 (b - 192)
    else if ltb b 240
    then more 1 (b - 224)
    else if ltb b 248
    then more 2 (b - 240)
    else no_lead

prefixed : ℕ → Option Text → Option Text
prefixed c none = none
prefixed c (some text) = some (c ∷ text)

is_tail : ℕ → Bool
is_tail b = not (ltb b 128) && ltb b 192

behind_lead : Lead → ℕ → (ℕ → ℕ → Option Text) → Option Text
behind_lead ascii b rest = prefixed b (rest 0 0)
behind_lead (more lacking bits) b rest = rest (suc lacking) bits
behind_lead no_lead b rest = none

behind_tail : Bool → Option Text → Option Text
behind_tail true rest = rest
behind_tail false rest = none

-- UTF-8, with the number of bytes that the code point still lacks and the bits of those before
decode_from : ℕ → ℕ → List ℕ → Option Text
decode_from zero bits [] = some []
decode_from (suc lacking) bits [] = none
decode_from zero bits (b ∷ bytes) =
    behind_lead (lead b) b (λ lacking bits'. decode_from lacking bits' bytes)
decode_from (suc zero) bits (b ∷ bytes) =
    behind_tail (is_tail b) (prefixed (bits * 64 + (b - 128)) (decode_from zero 0 bytes))
decode_from (suc (suc lacking)) bits (b ∷ bytes) =
    behind_tail (is_tail b) (decode_from (suc lacking) (bits * 64 + (b - 128)) bytes)

pub decode : List ℕ → Option Text
decode bytes = decode_from 0 0 bytes

lead-one : (c : ℕ) → c < 128 → lead c ≡ ascii
unfolding lead
lead-one c h = ground (arith, h)

lead-two : (n : ℕ) → n < 32 → lead (192 + n) ≡ more 0 n
unfolding lead
lead-two n h = ground (arith, h)

lead-three : (n : ℕ) → n < 16 → lead (224 + n) ≡ more 1 n
unfolding lead
lead-three n h = ground (arith, h)

lead-four : (n : ℕ) → n < 8 → lead (240 + n) ≡ more 2 n
unfolding lead
lead-four n h = ground (arith, h)

is_tail-bits : (n : ℕ) → is_tail (128 + n % 64) ≡ true
unfolding is_tail
is_tail-bits n = ground arith

decode_from-tail :
    (bits n : ℕ) (bytes : List ℕ)
    → decode_from 1 bits ((128 + n % 64) ∷ bytes)
      ≡ prefixed (bits * 64 + n % 64) (decode_from 0 0 bytes)
unfolding decode_from behind_tail behind_lead
decode_from-tail bits n bytes =
    let same : bits * 64 + ((128 + n % 64) - 128) ≡ bits * 64 + n % 64 = omega arith in
    rw (is_tail-bits n, same) refl

decode_from-tails :
    (k bits n : ℕ) (bytes : List ℕ)
    → decode_from (suc (suc k)) bits ((128 + n % 64) ∷ bytes)
      ≡ decode_from (suc k) (bits * 64 + n % 64) bytes
unfolding decode_from behind_tail behind_lead
decode_from-tails k bits n bytes =
    let same : bits * 64 + ((128 + n % 64) - 128) ≡ bits * 64 + n % 64 = omega arith in
    rw (is_tail-bits n, same) refl

decode_from-lead :
    (b lacking bits : ℕ) (bytes : List ℕ)
    → lead b ≡ more lacking bits
    → decode_from 0 0 (b ∷ bytes) ≡ decode_from (suc lacking) bits bytes
unfolding decode_from behind_tail behind_lead
decode_from-lead b lacking bits bytes h = rw h refl

decode-char_1 : (c : ℕ) (bytes : List ℕ) → c < 128 → decode (c ∷ bytes) ≡ prefixed c (decode bytes)
unfolding decode decode_from behind_lead
decode-char_1 c bytes h = rw (lead-one c h) refl

decode-char_2 :
    (c : ℕ) (bytes : List ℕ)
    → c < 2048
    → decode ((192 + c / 64) ∷ (128 + c % 64) ∷ bytes) ≡ prefixed c (decode bytes)
unfolding decode
decode-char_2 c bytes h =
    decode_from-lead (192 + c / 64) 0 (c / 64) ((128 + c % 64) ∷ bytes)
      (lead-two (c / 64) (omega (arith, h)))
    ∙ decode_from-tail (c / 64) c bytes
    ∙ ap (λ n. prefixed n (decode bytes)) (omega arith)

decode-char_3 :
    (c : ℕ) (bytes : List ℕ)
    → c < 65536
    → decode ((224 + c / 4096) ∷ (128 + (c / 64) % 64) ∷ (128 + c % 64) ∷ bytes)
      ≡ prefixed c (decode bytes)
unfolding decode
decode-char_3 c bytes h =
    decode_from-lead (224 + c / 4096) 1 (c / 4096) ((128 + (c / 64) % 64) ∷ (128 + c % 64) ∷ bytes)
      (lead-three (c / 4096) (omega (arith, h)))
    ∙ decode_from-tails 0 (c / 4096) (c / 64) ((128 + c % 64) ∷ bytes)
    ∙ decode_from-tail (c / 4096 * 64 + (c / 64) % 64) c bytes
    ∙ ap (λ n. prefixed n (decode bytes)) (omega arith)

decode-char_4 :
    (c : ℕ) (bytes : List ℕ)
    → c < 1114112
    → decode (
        (240 + c / 262144)
        ∷ (128 + (c / 4096) % 64)
        ∷ (128 + (c / 64) % 64)
        ∷ (128 + c % 64)
        ∷ bytes)
      ≡ prefixed c (decode bytes)
unfolding decode
decode-char_4 c bytes h =
    let rest = (128 + (c / 64) % 64) ∷ (128 + c % 64) ∷ bytes in
    decode_from-lead (240 + c / 262144) 2 (c / 262144) ((128 + (c / 4096) % 64) ∷ rest)
      (lead-four (c / 262144) (omega (arith, h)))
    ∙ decode_from-tails 1 (c / 262144) (c / 4096) rest
    ∙ decode_from-tails 0 (c / 262144 * 64 + (c / 4096) % 64) (c / 64) ((128 + c % 64) ∷ bytes)
    ∙ decode_from-tail ((c / 262144 * 64 + (c / 4096) % 64) * 64 + (c / 64) % 64) c bytes
    ∙ ap (λ n. prefixed n (decode bytes)) (omega arith)

decode-utf8_bytes :
    (c : ℕ) (bytes : List ℕ)
    → c < 1114112
    → decode (utf8_bytes c ++ bytes) ≡ prefixed c (decode bytes)
unfolding utf8_bytes
decode-utf8_bytes c bytes h = ground (
  arith,
  h,
  decode-char_1 c bytes,
  decode-char_2 c bytes,
  decode-char_3 c bytes,
  decode-char_4 c bytes,
)

encode_char-ok :
    (c : ℕ) (bytes : List ℕ) → encode_char c ≡ ok bytes → (c < 1114112) × (bytes ≡ utf8_bytes c)
unfolding encode_char is_refused
encode_char-ok c bytes h = ground (arith, h)

decode-nil : decode [] ≡ some []
unfolding decode decode_from
decode-nil = refl

pub ok-injective : (a b : List ℕ) → ◌≡◌ {A = Result MschError (List ℕ)} (ok a) (ok b) → a ≡ b
ok-injective a b h = cc

decode-first :
    (c : ℕ) (first rest bytes : List ℕ) (text : Text)
    → encode_char c ≡ ok first
    → decode rest ≡ some text
    → first ++ rest ≡ bytes
    → decode bytes ≡ some (c ∷ text)
unfolding prefixed
decode-first c first rest bytes text hf hr hb =
    let (bound, same) = encode_char-ok c first hf in
    ap decode (sym hb ∙ ap (λ f. f ++ rest) same)
    ∙ decode-utf8_bytes c rest bound
    ∙ ap (prefixed c) hr

-- What `encode` returns is decoded to the same text.
pub encode-decode :
    (text : Text) (bytes : List ℕ) → encode text ≡ ok bytes → decode bytes ≡ some text
unfolding encode
encode-decode [] bytes h = ap decode (sym (ok-injective [] bytes h)) ∙ decode-nil
encode-decode (c ∷ text) bytes h =
    let (first, hf, h') =
      bind-eq-ok (encode_char c) (λ first. encode text >>= (λ rest. ok (first ++ rest))) h in
    let (rest, hr, h'') = bind-eq-ok (encode text) (λ rest. ok (first ++ rest)) h' in
    decode-first c first rest bytes text hf (encode-decode text rest hr)
      (ok-injective (first ++ rest) bytes h'')

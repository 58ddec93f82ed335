-- ===== src/Riscof/Signature.antt =====
-- riscof/mlogv32/riscof_mlogv32.py: the signature file against the words of the memory.
use mlogv.Prelude.{
  ℕ, zero, suc, ◌+◌, ◌*◌, ◌/◌, ◌%◌, ◌^◌, ◌<◌, ◌≡◌, ◌↔◌, refl, ap, ap₂, ◌∙◌, Bool, true, false, some,
  List, [], ◌∷◌, ◌++◌, map, append-nil, Text, All, arith, length, length-append, pos,
}
use mlogv.PyInt.{digit_char, parse_int_hex, scan}
use mlogv.PyInt.RoundTrip.{scan-digit_char, digit_char_plain, IsPlain, parse_int_hex-digits}
use mlogv.Riscof.{hex_bytes, padded, zeros, word_lines, signature_lines}

-- the four bytes of a word in the order of the memory
abbrev pub bytes_of : List ℕ → List ℕ
bytes_of [] = []
bytes_of (w ∷ words) = w % 256 ∷ (w / 256) % 256 ∷ (w / 65536) % 256 ∷ w / 16777216 ∷ bytes_of words

scan-byte :
    (acc b : ℕ) (need : Bool) (s : Text)
    → b < 256
    → scan 16 acc need (digit_char (b / 16) ∷ digit_char (b % 16) ∷ s)
      ≡ scan 16 (acc * 256 + b) false s
scan-byte acc b need s h =
    let value : (acc * 16 + b / 16) * 16 + b % 16 ≡ acc * 256 + b = omega arith in
    scan-digit_char 16 acc (b / 16) need (digit_char (b % 16) ∷ s) (omega arith) (omega arith)
    ∙ scan-digit_char 16 (acc * 16 + b / 16) (b % 16) false s (omega arith) (omega arith)
    ∙ ap (λ n. scan 16 n false s) value

hex_bytes-IsPlain : (bytes : List ℕ) → All (λ b. b < 256) bytes → IsPlain (hex_bytes bytes)
unfolding hex_bytes
hex_bytes-IsPlain [] h = tt
hex_bytes-IsPlain (b ∷ bytes) (hb, h) = (
  digit_char_plain (b / 16) (omega arith),
  (digit_char_plain (b % 16) (omega arith), hex_bytes-IsPlain bytes h),
)

parse_int_hex-word :
    (a b c d : ℕ)
    → a < 256
    → b < 256
    → c < 256
    → d < 256
    → parse_int_hex (hex_bytes (d ∷ c ∷ b ∷ a ∷ []))
      ≡ some (pos (((d * 256 + c) * 256 + b) * 256 + a))
unfolding hex_bytes
parse_int_hex-word a b c d ha hb hc hd =
    let t = hex_bytes (a ∷ []) in
    let first : 0 * 256 + d ≡ d = omega arith in
    parse_int_hex-digits (d / 16) (d % 16) (((d * 256 + c) * 256 + b) * 256 + a)
      (hex_bytes (c ∷ b ∷ a ∷ [])) (omega arith) (omega arith)
      (hex_bytes-IsPlain (c ∷ b ∷ a ∷ []) (hc, (hb, (ha, tt))))
      (scan-byte 0 d true (hex_bytes (c ∷ b ∷ a ∷ [])) hd
        ∙ ap (λ n. scan 16 n false (hex_bytes (c ∷ b ∷ a ∷ []))) first
        ∙ scan-byte d c false (hex_bytes (b ∷ a ∷ [])) hc
        ∙ scan-byte (d * 256 + c) b false t hb
        ∙ scan-byte ((d * 256 + c) * 256 + b) a false [] ha
        ∙ unfold scan in refl)

word_lines-read :
    (words : List ℕ)
    → All (λ w. w < 2 ^ 32) words
    → map parse_int_hex (word_lines (bytes_of words)) ≡ map (λ w. some (pos w)) words
unfolding word_lines
word_lines-read [] h = refl
word_lines-read (w ∷ words) (hw, h) =
    let value : ((w / 16777216 * 256 + (w / 65536) % 256) * 256 + (w / 256) % 256) * 256 + w % 256
        ≡ w =
      omega arith in
    ap₂ ◌∷◌
      (parse_int_hex-word (w % 256) ((w / 256) % 256) ((w / 65536) % 256) (w / 16777216)
          (omega arith) (omega arith) (omega arith) (omega arith)
        ∙ ap (λ n. some (pos n)) value)
      (word_lines-read words h)

length-bytes_of : (words : List ℕ) → length (bytes_of words) % 4 ≡ 0
length-bytes_of [] = refl
length-bytes_of (w ∷ words) = ground (arith, length-bytes_of words)

padded-words : (words : List ℕ) → padded (bytes_of words) ≡ bytes_of words
unfolding padded zeros
padded-words words =
    ap (λ n. bytes_of words ++ zeros n) (length-bytes_of words) ∙ append-nil (bytes_of words)

-- If the dump holds 32-bit words in the order of their bytes, then the lines of the signature file,
-- read as hexadecimal numbers, are these words.
pub signature_lines-read :
    (words : List ℕ)
    → All (λ w. w < 2 ^ 32) words
    → map parse_int_hex (signature_lines (bytes_of words)) ≡ map (λ w. some (pos w)) words
unfolding signature_lines
signature_lines-read words h =
    ap (λ s. map parse_int_hex (word_lines s)) (padded-words words) ∙ word_lines-read words h

word_lines-whole :
    (bytes : List ℕ) → All (λ t. length t ≡ 8) (word_lines bytes) ↔ (length bytes % 4 ≡ 0)
unfolding word_lines hex_bytes
word_lines-whole [] = (λ h. refl, λ h. tt)
word_lines-whole (a ∷ []) = (λ h. ground arith, λ h. ground arith)
word_lines-whole (a ∷ b ∷ []) = (λ h. ground arith, λ h. ground arith)
word_lines-whole (a ∷ b ∷ c ∷ []) = (λ h. ground arith, λ h. ground arith)
word_lines-whole (a ∷ b ∷ c ∷ d ∷ bytes) =
    let rest = word_lines-whole bytes in
    (λ h. omega (arith, rest.0 h.1), λ h. (refl, rest.1 (omega arith)))

length-zeros : (n : ℕ) → length (zeros n) ≡ n
unfolding zeros
length-zeros zero = refl
length-zeros (suc n) = ap suc (length-zeros n)

-- All lines of the signature file have eight digits exactly where the number of the bytes is even: the
-- padding by the remainder of the division by four completes the last word for a remainder of 0 or 2
-- only.
pub signature_lines-whole :
    (bytes : List ℕ) → All (λ t. length t ≡ 8) (signature_lines bytes) ↔ (length bytes % 2 ≡ 0)
unfolding signature_lines padded
signature_lines-whole bytes =
    let n = length bytes in
    let size : length (bytes ++ zeros (n % 4)) ≡ n + n % 4 =
      length-append bytes (zeros (n % 4)) ∙ ap (λ k. n + k) (length-zeros (n % 4)) in
    let whole = word_lines-whole (bytes ++ zeros (n % 4)) in
    (λ h. omega (arith, whole.0 h, size), λ h. whole.1 (omega (arith, size)))

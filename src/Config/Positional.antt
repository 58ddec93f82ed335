-- ===== src/Config/Positional.antt =====
-- python/src/mlogv32/preprocessor/app.py: `parse_config_str` on numbers joined by commas.
use mlogv.Prelude.{
  ℕ, ◌+◌, ◌≤◌, ◌<◌, ◌⊎◌, ◌≡◌, ◌≢◌, ◌+ℤ◌, ◌-ℤ◌, ◌&&◌, refl, ap, ◌∙◌, true, Option, none, some, List,
  [], ◌∷◌, ◌++◌, map, append-nil, Text, text_eq, codes, arith, leb, length, All, ℤ, pos, negsuc,
  join,
}
use mlogv.PyInt.{parse_int_auto, decimal, digit_char}
use mlogv.PyInt.RoundTrip.{parse_int_auto-decimal, decimal-All}
use mlogv.BuildConfig.{insert, lookup}
use mlogv.Config.{
  ConfigArgs, split, split_from, split_once, key_and_value, read_items, default_keys, config_of,
  with_defaults, parse_config_str,
}

-- `split` undoes `join` where no part holds the separator.
pub split_from-part :
    (sep : ℕ) (p s : Text)
    → All (λ c. c ≢ sep) p
    → split_from sep (p ++ s) ≡ (p ++ (split_from sep s).0, (split_from sep s).1)
unfolding split_from
split_from-part sep [] s h = refl
split_from-part sep (c ∷ p) s h = ground (arith, split_from-part sep p s h.1)

split_from-none : (sep : ℕ) (p : Text) → All (λ c. c ≢ sep) p → split_from sep p ≡ (p, [])
unfolding split_from
split_from-none sep [] h = refl
split_from-none sep (c ∷ p) h = ground (arith, split_from-none sep p h.1)

pub split_from-sep :
    (sep : ℕ) (s : Text)
    → split_from sep (sep ∷ s) ≡ ([], (split_from sep s).0 ∷ (split_from sep s).1)
unfolding split_from
split_from-sep sep s = ground arith

pub split_from-join :
    (sep : ℕ) (p : Text) (ps : List Text)
    → All (All (λ c. c ≢ sep)) (p ∷ ps)
    → split_from sep (join (sep ∷ []) (p ∷ ps)) ≡ (p, ps)
unfolding join
split_from-join sep p [] h = split_from-none sep p h.0
split_from-join sep p (q ∷ qs) h =
    let rest : Text = join (sep ∷ []) (q ∷ qs) in
    rw
      (
        split_from-part sep p (sep ∷ rest) h.0,
        split_from-sep sep rest,
        split_from-join sep q qs h.1,
        append-nil p,
      )
      refl

digit_char-ne : (d c : ℕ) → d < 10 → (c < 48) ⊎ (57 < c) → digit_char d ≢ c
unfolding digit_char
digit_char-ne d c h k = ground arith

split_once-none : (sep : ℕ) (s : Text) → All (λ c. c ≢ sep) s → split_once sep s ≡ none
unfolding split_once
split_once-none sep [] h = refl
split_once-none sep (c ∷ s) h = ground (arith, split_once-none sep s h.1)

-- a decimal numeral holds neither a comma nor an equals sign
decimal-comma : (n : ℕ) → All (λ c. c ≢ b',') (decimal n)
decimal-comma n = decimal-All (λ c. c ≢ b',') n (λ d h. digit_char-ne d b',' h (ground arith))

decimal-comma_each : (ns : List ℕ) → All (All (λ c. c ≢ b',')) (map decimal ns)
decimal-comma_each [] = tt
decimal-comma_each (n ∷ ns) = (decimal-comma n, decimal-comma_each ns)

split-decimals :
    (n : ℕ) (ns : List ℕ)
    → split b',' (join (codes ",") (map decimal (n ∷ ns))) ≡ map decimal (n ∷ ns)
unfolding split
split-decimals n ns =
    let cut = split_from-join b',' (decimal n) (map decimal ns) (decimal-comma_each (n ∷ ns)) in
    ap (λ r. r.0 ∷ r.1) cut

keyed : Text → Text → Option (Text × Text) → Text × Text
keyed item key none = (key, item)
keyed item key (some p) = p

key_and_value-decimal : (n : ℕ) (key : Text) → key_and_value (decimal n) key ≡ (key, decimal n)
unfolding key_and_value keyed
key_and_value-decimal n key =
    let no_key =
      split_once-none b'=' (decimal n)
        (decimal-All (λ c. c ≢ b'=') n (λ d h. digit_char-ne d b'=' h (ground arith))) in
    ap (keyed (decimal n) key) no_key

read_value : List Text → List Text → List (Text × ℤ) → Text → Option ℤ → Option (List (Text × ℤ))
unfolding read_items
read_value items keys inputs key none = none
read_value items keys inputs key (some n) = read_items items keys (insert inputs key n)

read_items-step :
    (item : Text) (items : List Text) (key : Text) (keys : List Text) (inputs : List (Text × ℤ))
    → read_items (item ∷ items) (key ∷ keys) inputs
      ≡ read_value items keys inputs
          (key_and_value item key).0
          (parse_int_auto (key_and_value item key).1)
unfolding read_items read_value
read_items-step item items key keys inputs = ground arith

read_items-decimal :
    (n : ℕ) (ns : List ℕ) (key : Text) (keys : List Text) (inputs : List (Text × ℤ))
    → read_items (map decimal (n ∷ ns)) (key ∷ keys) inputs
      ≡ read_items (map decimal ns) keys (insert inputs key (pos n))
unfolding read_value
read_items-decimal n ns key keys inputs =
    read_items-step (decimal n) (map decimal ns) key keys inputs
    ∙ ap (λ p. read_value (map decimal ns) keys inputs p.0 (parse_int_auto p.1))
        (key_and_value-decimal n key)
    ∙ ap (read_value (map decimal ns) keys inputs key) (parse_int_auto-decimal n)

abbrev positional : ℕ → ℕ → ℕ → ℕ → ConfigArgs
positional rom ram icache width = record {
  uart_fifo_capacity = 253;
  mtime_frequency = 1000000;
  memory_x_offset = negsuc 8;
  memory_y_offset = negsuc (15 + (rom + ram + icache));
  memory_width = pos width;
  program_rom_rows = pos rom;
  data_rom_rows = pos 0;
  ram_rows = pos ram;
  icache_rows = pos icache;
}

-- The configuration that a list of numbers stands for: the rows of the program ROM and of the RAM,
-- then those of the instruction cache, then the width.
pub from_numbers : List ℕ → Option ConfigArgs
from_numbers (rom ∷ ram ∷ []) = some (positional rom ram (rom + ram) 32)
from_numbers (rom ∷ ram ∷ icache ∷ []) = some (positional rom ram icache 32)
from_numbers (rom ∷ ram ∷ icache ∷ width ∷ []) = some (positional rom ram icache width)
from_numbers _ = none

rows-sum :
    (rom ram icache : ℕ)
    → negsuc 15 -ℤ (pos rom +ℤ pos 0 +ℤ pos ram +ℤ pos icache) ≡ negsuc (15 + (rom + ram + icache))
unfolding ◌+ℤ◌ ◌-ℤ◌
rows-sum rom ram icache = ground arith

pos-sum : (a b : ℕ) → pos a +ℤ pos b ≡ pos (a + b)
unfolding ◌+ℤ◌
pos-sum a b = ground arith

read_numbers : List ℕ → List Text → List (Text × ℤ) → List (Text × ℤ)
read_numbers [] keys inputs = inputs
read_numbers (n ∷ ns) [] inputs = inputs
read_numbers (n ∷ ns) (key ∷ keys) inputs = read_numbers ns keys (insert inputs key (pos n))

read_items-numbers :
    (ns : List ℕ) (keys : List Text) (inputs : List (Text × ℤ))
    → read_items (map decimal ns) keys inputs ≡ some (read_numbers ns keys inputs)
unfolding read_items read_numbers
read_items-numbers [] keys inputs = refl
read_items-numbers (n ∷ ns) [] inputs = refl
read_items-numbers (n ∷ ns) (key ∷ keys) inputs =
    read_items-decimal n ns key keys inputs ∙ read_items-numbers ns keys (insert inputs key (pos n))

parse_config_str-items :
    (config : Text) (items : List Text) (inputs : List (Text × ℤ))
    → split b',' config ≡ items
    → leb 2 (length items) && leb (length items) 4 ≡ true
    → read_items items default_keys [] ≡ some inputs
    → parse_config_str config ≡ with_defaults inputs
unfolding parse_config_str
parse_config_str-items config items inputs cut few read = ground arith

with_defaults-numbers :
    (n a : ℕ) (ns : List ℕ)
    → length ns ≤ 2
    → with_defaults (read_numbers (n ∷ a ∷ ns) default_keys []) ≡ from_numbers (n ∷ a ∷ ns)
unfolding with_defaults config_of read_numbers default_keys insert lookup text_eq from_numbers
with_defaults-numbers n a [] h = rw (pos-sum n a, rows-sum n a (n + a)) refl
with_defaults-numbers n a (b ∷ []) h = rw (rows-sum n a b) refl
with_defaults-numbers n a (b ∷ c ∷ []) h = rw (rows-sum n a b) refl
with_defaults-numbers n a (b ∷ c ∷ d ∷ ns) h = ground arith

parse_config_str-numbers :
    (n a : ℕ) (ns : List ℕ)
    → length ns ≤ 2
    → parse_config_str (join (codes ",") (map decimal (n ∷ a ∷ ns))) ≡ from_numbers (n ∷ a ∷ ns)
parse_config_str-numbers n a ns h =
    parse_config_str-items (join (codes ",") (map decimal (n ∷ a ∷ ns))) (map decimal (n ∷ a ∷ ns))
      (read_numbers (n ∷ a ∷ ns) default_keys []) (split-decimals n (a ∷ ns)) (few ns h)
      (read_items-numbers (n ∷ a ∷ ns) default_keys [])
    ∙ with_defaults-numbers n a ns h
  where
    few :
        (ns : List ℕ)
        → length ns ≤ 2
        → leb 2 (length (map decimal (n ∷ a ∷ ns))) && leb (length (map decimal (n ∷ a ∷ ns))) 4
          ≡ true
    few [] h = refl
    few (b ∷ []) h = refl
    few (b ∷ c ∷ []) h = refl
    few (b ∷ c ∷ d ∷ ns) h = ground arith

-- Numbers joined by commas are read as the memory configuration they stand for when there are two,
-- three or four of them, and refused otherwise.
pub parse_config_str-positional :
    (n : ℕ) (ns : List ℕ)
    → parse_config_str (join (codes ",") (map decimal (n ∷ ns))) ≡ from_numbers (n ∷ ns)
unfolding parse_config_str from_numbers
parse_config_str-positional n [] = ground (arith, split-decimals n [])
parse_config_str-positional n (a ∷ []) = parse_config_str-numbers n a [] (omega arith)
parse_config_str-positional n (a ∷ b ∷ []) = parse_config_str-numbers n a (b ∷ []) (omega arith)
parse_config_str-positional n (a ∷ b ∷ c ∷ []) =
    parse_config_str-numbers n a (b ∷ c ∷ []) (omega arith)
parse_config_str-positional n (a ∷ b ∷ c ∷ d ∷ ns) =
    ground (arith, split-decimals n (a ∷ b ∷ c ∷ d ∷ ns))

-- ===== src/Config/Rows.antt =====
-- python/src/mlogv32/preprocessor/app.py: the row of the memory that `parse_config_str` chooses.
use mlogv.Prelude.{
  ◌≡◌, refl, subst, Option, none, some, List, [], Text, codes, Bool, true, false, ◌&&◌, leb, length,
  ℤ, negsuc, ◌+ℤ◌, ◌-ℤ◌, if◌then◌else◌,
}
use mlogv.BuildConfig.{lookup}
use mlogv.Config.{
  ConfigArgs, split, default_keys, read_items, config_of, with_defaults, parse_config_str,
}

-- The memory begins as many rows below the first row as it has rows, counted from the processor of the
-- configuration in row 16.
abbrev pub HasOffset : ConfigArgs → Type 0
HasOffset args =
    args.memory_y_offset
    ≡ negsuc 15
      -ℤ (args.program_rom_rows +ℤ args.data_rom_rows +ℤ args.ram_rows +ℤ args.icache_rows)

-- what is some behind a test
behind-some :
    {A B : Type 0} (o : Option A) (f : A → Option B) (b : B)
    → (elim o [ none ↦ none | some a ↦ f a ]) ≡ some b
    → (a : A) × (o ≡ some a) × (f a ≡ some b)
behind-some none f b h = cc
behind-some (some a) f b h = (a, refl, h)

if-some :
    {B : Type 0} (t : Bool) (o : Option B) (b : B) → (if t then o else none) ≡ some b → o ≡ some b
if-some true o b h = h
if-some false o b h = cc

config_of-HasOffset :
    (rom ram : ℤ) (inputs : List (Text × ℤ)) → HasOffset (config_of rom ram inputs)
unfolding config_of
config_of-HasOffset rom ram inputs = refl

same-HasOffset :
    (a b : ConfigArgs) → HasOffset a → ◌≡◌ {A = Option ConfigArgs} (some a) (some b) → HasOffset b
same-HasOffset a b ha h = let same : a ≡ b = cc (h) in subst HasOffset same ha

with_defaults-HasOffset :
    (inputs : List (Text × ℤ)) (args : ConfigArgs)
    → with_defaults inputs ≡ some args
    → HasOffset args
unfolding with_defaults
with_defaults-HasOffset inputs args h =
    let (rom, hr, h1) = behind-some (lookup inputs (codes "rom")) _ args h in
    let (ram, hm, h2) = behind-some (lookup inputs (codes "ram")) _ args h1 in
    same-HasOffset (config_of rom ram inputs) args (config_of-HasOffset rom ram inputs) h2

pub parse_config_str-HasOffset :
    (config : Text) (args : ConfigArgs) → parse_config_str config ≡ some args → HasOffset args
unfolding parse_config_str
parse_config_str-HasOffset config args h =
    let items = split b',' config in
    let (inputs, found, h1) =
      behind-some (read_items items default_keys []) with_defaults args
        (if-some (leb 2 (length items) && leb (length items) 4) _ args h) in
    with_defaults-HasOffset inputs args h1

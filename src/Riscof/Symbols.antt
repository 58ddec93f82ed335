-- ===== src/Riscof/Symbols.antt =====
-- riscof/mlogv32/riscof_mlogv32.py: `get_symbol_address` on the lines of a symbol table.
use mlogv.Prelude.{
  ◌≡◌, ◌≢◌, refl, ap, Option, none, some, List, [], ◌∷◌, map, join, Text, text_eq, All, arith, ℤ,
  Result, ok, err, if◌then◌else◌,
}
use mlogv.PyInt.{parse_int_hex}
use mlogv.Config.{split}
use mlogv.Config.Positional.{split_from-join}
use mlogv.Riscof.{address_in, TestError, symbol_not_found}

-- a line of the table: the digits of the address, the number that they stand for, the kind and the name
pub record Symbol : Type 0 where
  pub digits : Text
  pub address : ℤ
  pub kind : Text
  pub name : Text

abbrev pub symbol_line : Symbol → Text
symbol_line s = join (b' ' ∷ []) (s.digits ∷ s.kind ∷ s.name ∷ [])

abbrev HasNoSpace : Text → Type 0
HasNoSpace = All (λ c. c ≢ b' ')

-- A symbol that `nm` can print.
abbrev pub IsPrinted : Symbol → Type 0
IsPrinted s =
    HasNoSpace s.digits
    × HasNoSpace s.kind
    × HasNoSpace s.name
    × (parse_int_hex s.digits ≡ some s.address)

-- the first symbol of the name
abbrev pub address_of : List Symbol → Text → Option ℤ
address_of [] symbol = none
address_of (s ∷ symbols) symbol =
    if text_eq s.name symbol then some s.address else address_of symbols symbol

abbrev pub or_not_found : Text → Option ℤ → Result TestError ℤ
or_not_found symbol none = err (symbol_not_found symbol)
or_not_found symbol (some n) = ok n

split-symbol_line :
    (s : Symbol) → IsPrinted s → split b' ' (symbol_line s) ≡ s.digits ∷ s.kind ∷ s.name ∷ []
unfolding split
split-symbol_line s (hd, hk, hn, e) =
    ap (λ p. p.0 ∷ p.1) (split_from-join b' ' s.digits (s.kind ∷ s.name ∷ []) (hd, (hk, (hn, tt))))

address_in-line :
    (symbol digits kind name : Text) (address : ℤ) (line : Text) (lines : List Text)
    → split b' ' line ≡ digits ∷ kind ∷ name ∷ []
    → parse_int_hex digits ≡ some address
    → address_in symbol (line ∷ lines)
      ≡ (if text_eq name symbol then ok address else address_in symbol lines)
unfolding address_in
address_in-line symbol digits kind name address line lines cut value = ground (arith, cut, value)

-- If every line is a printed symbol, then the address is that of the first symbol of the wanted name; if
-- there is none, the error names the symbol.
address_in-printed :
    (symbol : Text) (symbols : List Symbol)
    → All IsPrinted symbols
    → address_in symbol (map symbol_line symbols) ≡ or_not_found symbol (address_of symbols symbol)
address_in-printed symbol [] h = unfold address_in in refl
address_in-printed symbol (s ∷ symbols) (hs, h) =
    let line =
      address_in-line symbol s.digits s.kind s.name s.address (symbol_line s)
        (map symbol_line symbols) (split-symbol_line s hs) hs.3 in
    let rest = address_in-printed symbol symbols h in ground (arith, line, rest)

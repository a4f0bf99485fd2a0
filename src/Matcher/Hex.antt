-- ===== src/Matcher/Hex.antt =====
-- Hexadecimal text: the parsers of crates/matcher/src/predicate.rs, and `Display` for `Address` and
-- `Word` of crates/fact-model/src/primitives.rs. A text is the list of its bytes.
pub mod RoundTrip
use rootcause.Prelude.{
  ℕ, ◌+◌, ◌-◌, ◌*◌, ◌/◌, ◌%◌, Bool, ◌&&◌, Option, none, some, List, [], ◌∷◌, leb, ltb, ◌==◌, nat_Eq,
  if◌then◌else◌, length,
}
use rootcause.Facts.Types.{Address, Word}

-- `s.strip_prefix("0x").unwrap_or(s)`
unfoldable pub strip_0x : List ℕ → List ℕ
strip_0x (a ∷ b ∷ rest) = if a == b'0' && b == b'x' then rest else a ∷ b ∷ rest
strip_0x s = s

-- `(byte as char).to_digit(16)`
unfoldable pub to_digit : ℕ → Option ℕ
to_digit c =
    if leb b'0' c && leb c b'9'
    then some (c - b'0')
    else if leb b'a' c && leb c b'f'
    then some (c - b'a' + 10)
    else if leb b'A' c && leb c b'F'
    then some (c - b'A' + 10)
    else none

-- The loop over the output bytes. Its text has two digits for each, so the case of one digit left
-- is not met.
parse_pairs : List ℕ → Option (List ℕ)
unfolding to_digit
parse_pairs [] = some []
parse_pairs (a ∷ []) = none
parse_pairs (a ∷ b ∷ rest) = elim (to_digit a) [
  | none ↦ none
  | some hi ↦ elim (to_digit b) [
    | none ↦ none
    | some lo ↦ elim (parse_pairs rest) [ none ↦ none | some bytes ↦ some ((hi * 16 + lo) ∷ bytes) ]
  ]
]

-- The body that the three parsers share, for `n` bytes.
unfoldable pub parse_hex : ℕ → List ℕ → Option (List ℕ)
unfolding strip_0x parse_pairs
parse_hex n s =
    let digits = strip_0x s in if length digits == 2 * n then parse_pairs digits else none

unfoldable pub parse_hex_word : List ℕ → Option Word
unfolding parse_hex
parse_hex_word s = parse_hex 32 s

unfoldable pub parse_hex_selector : List ℕ → Option (List ℕ)
unfolding parse_hex
parse_hex_selector s = parse_hex 4 s

unfoldable pub parse_address : List ℕ → Option Address
unfolding parse_hex
parse_address s = parse_hex 20 s

-- One digit of `{:02x}`.
hex_char : ℕ → ℕ
hex_char d = if ltb d 10 then d + b'0' else d - 10 + b'a'

show_pairs : List ℕ → List ℕ
unfolding hex_char
show_pairs [] = []
show_pairs (b ∷ bs) = hex_char (b / 16) ∷ hex_char (b % 16) ∷ show_pairs bs

-- `Display`: `0x` and two lower-case digits for each byte.
unfoldable pub show_hex : List ℕ → List ℕ
unfolding show_pairs
show_hex bytes = b'0' ∷ b'x' ∷ show_pairs bytes

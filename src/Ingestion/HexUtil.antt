-- ===== src/Ingestion/HexUtil.antt =====
-- crates/ingestion/src/hex_util.rs: the hexadecimal fields of a document.
--
-- Fixed-width fields go through the `Deserialize` of crates/fact-model/src/primitives.rs.
use rootcause.Prelude.{
  ℕ, ◌+◌, ◌*◌, ◌%◌, ◌^◌, not, Option, none, some, List, [], ◌∷◌, String, Result, ok, err, length,
  ltb, ◌==◌, nat_Eq, if◌then◌else◌,
}
use rootcause.Prelude.Text.{as_bytes}
use rootcause.Facts.Types.{Address, Word}
use rootcause.Matcher.Hex.{strip_0x, to_digit, parse_hex}
use rootcause.Ingestion.Error.{IngestionError, malformed_field}

-- The loop of `from_str_radix(.., 16)`: `none` on a character that is no digit and on overflow.
abbrev pub digits_below : ℕ → ℕ → List ℕ → Option ℕ
digits_below bound acc [] = some acc
digits_below bound acc (c ∷ cs) = elim (to_digit c) [
  | none ↦ none
  | some d ↦ if ltb (acc * 16 + d) bound then digits_below bound (acc * 16 + d) cs else none
]

-- `from_str_radix(.., 16)` of an unsigned type: one leading `+` is allowed, no digits are not.
unfoldable pub from_str_radix : ℕ → List ℕ → Option ℕ
unfolding to_digit
from_str_radix bound [] = none
from_str_radix bound (c ∷ []) = digits_below bound 0 (c ∷ [])
from_str_radix bound (c ∷ d ∷ cs) =
    if c == b'+' then digits_below bound 0 (d ∷ cs) else digits_below bound 0 (c ∷ d ∷ cs)

-- `.map_err(|_| MalformedField { .. })`
abbrev pub or_malformed {ℓ} :
    {A : Type ℓ} → String → String → String → Option A → Result IngestionError A
or_malformed field raw reason none = err (malformed_field field raw reason)
or_malformed field raw reason (some a) = ok a

unfoldable pub parse_hex_u64 : String → String → Result IngestionError ℕ
unfolding from_str_radix strip_0x
parse_hex_u64 field raw =
    or_malformed field raw "not a valid hex-encoded u64"
      (from_str_radix (2 ^ 64) (strip_0x (as_bytes raw)))

unfoldable pub parse_hex_u128 : String → String → Result IngestionError ℕ
unfolding from_str_radix strip_0x
parse_hex_u128 field raw =
    or_malformed field raw "not a valid hex-encoded u128"
      (from_str_radix (2 ^ 128) (strip_0x (as_bytes raw)))

unfoldable pub parse_address : String → String → Result IngestionError Address
unfolding parse_hex
parse_address field raw =
    or_malformed field raw "not a valid 20-byte hex address" (parse_hex 20 (as_bytes raw))

unfoldable pub parse_word : String → String → Result IngestionError Word
unfolding parse_hex
parse_word field raw =
    or_malformed field raw "not a valid 32-byte hex word" (parse_hex 32 (as_bytes raw))

-- The loop over pairs of digits; of an even number of digits none is left over.
abbrev pub byte_pairs : List ℕ → Option (List ℕ)
byte_pairs [] = some []
byte_pairs (a ∷ []) = some []
byte_pairs (a ∷ b ∷ rest) = elim (to_digit a) [
  | none ↦ none
  | some hi ↦ elim (to_digit b) [
    | none ↦ none
    | some lo ↦ elim (byte_pairs rest) [ none ↦ none | some bytes ↦ some ((hi * 16 + lo) ∷ bytes) ]
  ]
]

unfoldable pub parse_hex_bytes : String → String → Result IngestionError (List ℕ)
unfolding strip_0x to_digit
parse_hex_bytes field raw =
    let digits = strip_0x (as_bytes raw) in
    if not (length digits % 2 == 0)
    then err (malformed_field field raw "hex data must have an even number of digits")
    else or_malformed field raw "invalid hex digit" (byte_pairs digits)

-- ===== src/Matcher/Hex/RoundTrip.antt =====
-- Parsing what `Display` writes.
use rootcause.Prelude.{
  ℕ, ◌+◌, ◌*◌, ◌/◌, ◌%◌, ◌<◌, ◌≡◌, refl, ap, some, List, [], ◌∷◌, All, length, arith, nat_Eq, ◌==◌,
  nat_eq_iff, Bool-cases, Option-cases, inl, inr, map, leb, ◌&&◌, if◌then◌else◌,
}
use rootcause.Facts.Types.{Address, Word}
use rootcause.Matcher.Hex.{
  strip_0x, to_digit, parse_pairs, parse_hex, parse_hex_word, parse_address, hex_char, show_pairs,
  show_hex,
}

to_digit-hex_char : (d : ℕ) → d < 16 → to_digit (hex_char d) ≡ some d
unfolding to_digit hex_char
to_digit-hex_char d h = ground arith

parse_pairs-show_pairs :
    (bytes : List ℕ) → All (λ b. b < 256) bytes → parse_pairs (show_pairs bytes) ≡ some bytes
unfolding parse_pairs show_pairs
parse_pairs-show_pairs [] h = refl
parse_pairs-show_pairs (b ∷ bs) (here, h) =
    rw
      (
        parse_pairs,
        to_digit-hex_char (b / 16) (omega arith),
        to_digit-hex_char (b % 16) (omega arith),
        parse_pairs-show_pairs bs h,
      )
      (ap (λ (x : ℕ). some (x ∷ bs)) (omega arith))

length-show_pairs : (bytes : List ℕ) → length (show_pairs bytes) ≡ 2 * length bytes
unfolding show_pairs
length-show_pairs [] = omega arith
length-show_pairs (b ∷ bs) = omega (arith, length-show_pairs bs)

parse_hex-show_hex :
    (n : ℕ) (bytes : List ℕ)
    → length bytes ≡ n
    → All (λ b. b < 256) bytes
    → parse_hex n (show_hex bytes) ≡ some bytes
unfolding parse_hex show_hex
parse_hex-show_hex n bytes len h = ground (
  arith,
  nat_eq_iff (length (show_pairs bytes)) (2 * n),
  length-show_pairs bytes,
  parse_pairs-show_pairs bytes h,
)

-- Reading the text that `Display` writes for a word of 32 bytes gives the word back.
pub parse_hex_word-show_hex :
    (w : Word) → length w ≡ 32 → All (λ b. b < 256) w → parse_hex_word (show_hex w) ≡ some w
unfolding parse_hex_word
parse_hex_word-show_hex w len h = parse_hex-show_hex 32 w len h

-- Reading the text that `Display` writes for an address of 20 bytes gives the address back.
pub parse_address-show_hex :
    (a : Address) → length a ≡ 20 → All (λ b. b < 256) a → parse_address (show_hex a) ≡ some a
unfolding parse_address
parse_address-show_hex a len h = parse_hex-show_hex 20 a len h

to_digit-lt : (c d : ℕ) → to_digit c ≡ some d → d < 16
unfolding to_digit
to_digit-lt c d h = ground arith

-- Two digits make one byte.
parse_pairs-cons :
    (a b : ℕ) (rest : List ℕ) (bytes : List ℕ)
    → parse_pairs (a ∷ b ∷ rest) ≡ some bytes
    → (hi : ℕ) × (lo : ℕ) × (tail : List ℕ) × (to_digit a ≡ some hi)
      × (to_digit b ≡ some lo)
      × (parse_pairs rest ≡ some tail)
      × (bytes ≡ (hi * 16 + lo) ∷ tail)
unfolding parse_pairs
parse_pairs-cons a b rest bytes h = elim (Option-cases (to_digit a)) [
  | inl bad ↦ absurd (let stuck = rw (parse_pairs, bad) at h in cc)
  | inr (hi, high) ↦ elim (Option-cases (to_digit b)) [
    | inl bad ↦ absurd (let stuck = rw (parse_pairs, high, bad) at h in cc)
    | inr (lo, low) ↦ elim (Option-cases (parse_pairs rest)) [
      | inl bad ↦ absurd (let stuck = rw (parse_pairs, high, low, bad) at h in cc)
      | inr (tail, more) ↦
          let made = rw (parse_pairs, high, low, more) at h in (hi, lo, tail, high, low, more, cc)
    ]
  ]
]

-- The lower-case form of an ASCII letter; any other byte is itself.
abbrev pub lower : ℕ → ℕ
lower c = if leb b'A' c && leb c b'Z' then c + 32 else c

hex_char-to_digit : (c d : ℕ) → to_digit c ≡ some d → hex_char d ≡ lower c
unfolding to_digit hex_char
hex_char-to_digit c d h = ground arith

show_pairs-parse_pairs :
    (s : List ℕ) (bytes : List ℕ) → parse_pairs s ≡ some bytes → show_pairs bytes ≡ map lower s
unfolding parse_pairs show_pairs
show_pairs-parse_pairs [] bytes h = let same : [] ≡ bytes = cc in rw (← same) refl
show_pairs-parse_pairs (a ∷ []) bytes h = absurd (cc)
show_pairs-parse_pairs (a ∷ b ∷ rest) bytes h =
    let (hi, lo, tail, high, low, more, same) = parse_pairs-cons a b rest bytes h in
    let small : lo < 16 = to_digit-lt b lo low in
    let quotient : (hi * 16 + lo) / 16 ≡ hi = omega arith in
    let remainder : (hi * 16 + lo) % 16 ≡ lo = omega arith in
    rw (
      same,
      show_pairs,
      quotient,
      remainder,
      hex_char-to_digit a hi high,
      hex_char-to_digit b lo low,
      show_pairs-parse_pairs rest tail more,
    )

-- Printing what was parsed gives the text back, with `0x` in front and its letters in lower case.
pub show_hex-parse_hex :
    (n : ℕ) (s : List ℕ) (bytes : List ℕ)
    → parse_hex n s ≡ some bytes
    → show_hex bytes ≡ b'0' ∷ b'x' ∷ map lower (strip_0x s)
unfolding parse_hex show_hex
show_hex-parse_hex n s bytes h = elim (Bool-cases (length (strip_0x s) == 2 * n)) [
  | inl fits ↦
      ap (λ (x : List ℕ). b'0' ∷ b'x' ∷ x)
        (show_pairs-parse_pairs (strip_0x s) bytes (ground arith))
  | inr short ↦ absurd (ground arith)
]

-- ===== src/Prelude/Text.antt =====
-- The UTF-8 bytes of a text, as Rust's `as_bytes` gives them.
use Prim.Native.Char.{code}
use Prim.Native.Nat.{ℕ, ◌+◌, ◌/◌, ◌%◌}
use Prim.Native.String.{String}
use mathlib.Core.List.{List, [], ◌∷◌, ◌++◌}
use rootcause.Prelude.Tests.{ltb, if◌then◌else◌}

abbrev utf8_tail : ℕ → ℕ
utf8_tail c = 128 + c % 64

abbrev utf8 : ℕ → List ℕ
utf8 c =
    if ltb c 128
    then c ∷ []
    else if ltb c 2048
    then (192 + c / 64) ∷ utf8_tail c ∷ []
    else if ltb c 65536
    then (224 + c / 4096) ∷ utf8_tail (c / 64) ∷ utf8_tail c ∷ []
    else (240 + c / 262144) ∷ utf8_tail (c / 4096) ∷ utf8_tail (c / 64) ∷ utf8_tail c ∷ []

abbrev pub as_bytes : String → List ℕ
as_bytes String.[] = []
as_bytes (String.◌∷◌ c s) = utf8 (code c) ++ as_bytes s

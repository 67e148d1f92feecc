-- ===== src/Utf8.antt =====
-- The conversions of utils/Utilities.cc between UTF-8 and wide strings, as C++17 compiles them on
-- Linux. Characters are numbers, bytes are below 256; a mask is a remainder, a shift a quotient, and
-- `|` of bits that do not meet is a sum.
pub mod Laws
mod Tests
use trantor.Prelude.{
  ℕ, ◌+◌, ◌*◌, ◌/◌, ◌%◌, Bool, true, false, Option, some, none, List, [], ◌∷◌, ◌++◌, if◌then◌else◌,
  ltb, leb, ◌==◌, ◌>>=◌,
}

-- The tests of a first byte.
unfoldable pub is_single : ℕ → Bool
is_single a = ltb (a % 256) 128

unfoldable pub is_double : ℕ → Bool
is_double a = (a % 256) / 32 == 6

unfoldable pub is_triple : ℕ → Bool
is_triple a = (a % 256) / 16 == 14

unfoldable pub two_bytes : ℕ → ℕ → ℕ
two_bytes a b = (a % 32) * 64 + b % 64

unfoldable pub three_bytes : ℕ → ℕ → ℕ → ℕ
three_bytes a b c = (a % 16) * 4096 + (b % 64) * 64 + c % 64

-- The loop of `utf8Toutf16`; `none` is its `return L""`. The clauses are for what is left.
unfoldable pub utf8_to_utf16 : List ℕ → Option (List ℕ)
utf8_to_utf16 [] = some []
utf8_to_utf16 (a ∷ []) = if is_single a then some (a ∷ []) else none
utf8_to_utf16 (a ∷ b ∷ []) = elim (is_single a) [
  | true ↦ utf8_to_utf16 (b ∷ []) >>= λ ws. some (a ∷ ws)
  | false ↦ if is_double a then some (two_bytes a b ∷ []) else none
]
utf8_to_utf16 (a ∷ b ∷ c ∷ bs) = elim (is_single a) [
  | true ↦ utf8_to_utf16 (b ∷ c ∷ bs) >>= λ ws. some (a ∷ ws)
  | false ↦ elim (is_double a) [
    | true ↦ utf8_to_utf16 (c ∷ bs) >>= λ ws. some (two_bytes a b ∷ ws)
    | false ↦ elim (is_triple a) [
      | true ↦ utf8_to_utf16 bs >>= λ ws. some (three_bytes a b c ∷ ws)
      | false ↦ none
    ]
  ]
]

-- The body of the loop of `utf16Toutf8`.
unfoldable pub encode : ℕ → List ℕ
encode w =
    if leb w 127
    then w ∷ []
    else if leb w 2047
    then (192 + w / 64 % 32) ∷ (128 + w % 64) ∷ []
    else (224 + w / 4096 % 16) ∷ (128 + w / 64 % 64) ∷ (128 + w % 64) ∷ []

unfoldable pub utf16_to_utf8 : List ℕ → List ℕ
utf16_to_utf8 [] = []
utf16_to_utf8 (w ∷ ws) = encode w ++ utf16_to_utf8 ws

unfoldable pub to_utf8 : List ℕ → List ℕ
to_utf8 [] = []
to_utf8 (w ∷ ws) = utf16_to_utf8 (w ∷ ws)

unfoldable pub from_utf8 : List ℕ → List ℕ
from_utf8 [] = []
from_utf8 (a ∷ bs) = elim (utf8_to_utf16 (a ∷ bs)) [ none ↦ [] | some ws ↦ ws ]

-- The paths of Linux are in UTF-8.
unfoldable pub to_wide_path : List ℕ → List ℕ
to_wide_path path = from_utf8 path

unfoldable pub from_wide_path : List ℕ → List ℕ
from_wide_path path = to_utf8 path

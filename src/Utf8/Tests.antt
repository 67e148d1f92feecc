-- ===== src/Utf8/Tests.antt =====
-- Runs of the conversions, and the theorems at concrete strings.
use trantor.Prelude.{◌≡◌, refl, [], ◌∷◌, arith}
use trantor.Utf8.{
  is_single, is_double, is_triple, utf8_to_utf16, encode, utf16_to_utf8, to_utf8, from_utf8,
}
use trantor.Utf8.Laws.{from_utf8-to_utf8}

-- The euro sign.
euro_test : to_utf8 (8364 ∷ []) ≡ 226 ∷ 130 ∷ 172 ∷ []
unfolding to_utf8 utf16_to_utf8 encode
euro_test = refl

-- Four bytes of UTF-8 are taken for an error.
four_bytes_test : from_utf8 (240 ∷ 159 ∷ 152 ∷ 128 ∷ []) ≡ []
unfolding from_utf8 utf8_to_utf16 is_single is_double is_triple
four_bytes_test = refl

from_utf8-to_utf8_example : from_utf8 (to_utf8 (65 ∷ 252 ∷ 8364 ∷ [])) ≡ 65 ∷ 252 ∷ 8364 ∷ []
from_utf8-to_utf8_example =
    from_utf8-to_utf8 (65 ∷ 252 ∷ 8364 ∷ []) (omega arith, (omega arith, (omega arith, tt)))

-- ===== src/Utf8/Laws.antt =====
-- Wide strings come back from UTF-8 while their characters have 16 bits.
use trantor.Prelude.{
  ℕ, ◌+◌, ◌/◌, ◌%◌, ◌≤◌, ◌<◌, ◌^◌, ◌≡◌, refl, ap, ◌∙◌, true, false, some, List, [], ◌∷◌, ◌++◌, leb,
  ◌>>=◌, arith, inl, inr, Bool-cases,
}
use trantor.Utf8.{
  is_single, is_double, is_triple, two_bytes, three_bytes, utf8_to_utf16, encode, utf16_to_utf8,
  to_utf8, from_utf8,
}

utf8_to_utf16-single :
    (a : ℕ) (bs : List ℕ)
    → is_single a ≡ true
    → utf8_to_utf16 (a ∷ bs) ≡ (utf8_to_utf16 bs >>= λ ws. some (a ∷ ws))
unfolding utf8_to_utf16
utf8_to_utf16-single a [] e = rw (utf8_to_utf16, e)
utf8_to_utf16-single a (b ∷ []) e = rw (utf8_to_utf16, e)
utf8_to_utf16-single a (b ∷ c ∷ bs) e = rw (utf8_to_utf16, e)

utf8_to_utf16-double :
    (a b : ℕ) (bs : List ℕ)
    → is_single a ≡ false
    → is_double a ≡ true
    → utf8_to_utf16 (a ∷ b ∷ bs) ≡ (utf8_to_utf16 bs >>= λ ws. some (two_bytes a b ∷ ws))
unfolding utf8_to_utf16
utf8_to_utf16-double a b [] e f = rw (utf8_to_utf16, e, f)
utf8_to_utf16-double a b (c ∷ bs) e f = rw (utf8_to_utf16, e, f)

utf8_to_utf16-triple :
    (a b c : ℕ) (bs : List ℕ)
    → is_single a ≡ false
    → is_double a ≡ false
    → is_triple a ≡ true
    → utf8_to_utf16 (a ∷ b ∷ c ∷ bs) ≡ (utf8_to_utf16 bs >>= λ ws. some (three_bytes a b c ∷ ws))
unfolding utf8_to_utf16
utf8_to_utf16-triple a b c bs e f g = rw (utf8_to_utf16, e, f, g)

single : (w : ℕ) → w ≤ 127 → is_single w ≡ true
unfolding is_single
single w h = ground arith

double : (w : ℕ) → let a = 192 + w / 64 % 32 in (is_single a ≡ false) × (is_double a ≡ true)
unfolding is_single is_double
double w = (ground arith, ground arith)

triple :
    (w : ℕ)
    → let a = 224 + w / 4096 % 16 in
      (is_single a ≡ false) × (is_double a ≡ false) × (is_triple a ≡ true)
unfolding is_single is_double is_triple
triple w = (ground arith, ground arith, ground arith)

two_back : (w : ℕ) → w ≤ 2047 → two_bytes (192 + w / 64 % 32) (128 + w % 64) ≡ w
unfolding two_bytes
two_back w h = omega arith

three_back :
    (w : ℕ) → w < 2 ^ 16 → three_bytes (224 + w / 4096 % 16) (128 + w / 64 % 64) (128 + w % 64) ≡ w
unfolding three_bytes
three_back w h = omega arith

-- One character in front.
encode-back :
    (w : ℕ) (bs : List ℕ)
    → w < 2 ^ 16
    → utf8_to_utf16 (encode w ++ bs) ≡ (utf8_to_utf16 bs >>= λ ws. some (w ∷ ws))
unfolding encode
encode-back w bs h = elim (Bool-cases (leb w 127)) [
  | inl small ↦ rw small (utf8_to_utf16-single w bs (single w (ground arith)))
  | inr large ↦ rw large (elim (Bool-cases (leb w 2047)) [
    | inl middle ↦ rw middle (
        utf8_to_utf16-double _ _ bs (double w).0 (double w).1
        ∙ ap (λ v. utf8_to_utf16 bs >>= λ ws. some (v ∷ ws)) (two_back w (ground arith)))
    | inr wide ↦ rw wide (
        utf8_to_utf16-triple _ _ _ bs (triple w).0 (triple w).1 (triple w).2
        ∙ ap (λ v. utf8_to_utf16 bs >>= λ ws. some (v ∷ ws)) (three_back w h))
  ])
]

-- All characters have 16 bits.
abbrev pub Narrow : List ℕ → Type 0
Narrow [] = Unit
Narrow (w ∷ ws) = (w < 2 ^ 16) × Narrow ws

no_bytes : utf8_to_utf16 [] ≡ some []
unfolding utf8_to_utf16
no_bytes = refl

utf8_to_utf16-utf16_to_utf8 : (ws : List ℕ) → Narrow ws → utf8_to_utf16 (utf16_to_utf8 ws) ≡ some ws
unfolding utf16_to_utf8
utf8_to_utf16-utf16_to_utf8 [] n = no_bytes
utf8_to_utf16-utf16_to_utf8 (w ∷ ws) (h, n) =
    encode-back w (utf16_to_utf8 ws) h
    ∙ ap (λ o. o >>= λ vs. some (w ∷ vs)) (utf8_to_utf16-utf16_to_utf8 ws n)

from_utf8-decodes : (bs ws : List ℕ) → utf8_to_utf16 bs ≡ some ws → from_utf8 bs ≡ ws
unfolding from_utf8
from_utf8-decodes [] ws e = (let none_in = no_bytes in cc)
from_utf8-decodes (a ∷ bs) ws e = rw (from_utf8, e)

to_utf8-loop : (ws : List ℕ) → to_utf8 ws ≡ utf16_to_utf8 ws
unfolding to_utf8 utf16_to_utf8
to_utf8-loop [] = refl
to_utf8-loop (w ∷ ws) = refl

-- A wide string whose characters have 16 bits comes back from UTF-8.
pub from_utf8-to_utf8 : (ws : List ℕ) → Narrow ws → from_utf8 (to_utf8 ws) ≡ ws
from_utf8-to_utf8 ws n =
    from_utf8-decodes (to_utf8 ws) ws
      (ap utf8_to_utf16 (to_utf8-loop ws) ∙ utf8_to_utf16-utf16_to_utf8 ws n)

three_mod :
    (w : ℕ) → three_bytes (224 + w / 4096 % 16) (128 + w / 64 % 64) (128 + w % 64) ≡ w % 2 ^ 16
unfolding three_bytes
three_mod w = omega arith

above : (m w : ℕ) → m < w → leb w m ≡ false
above m w h = ground arith

encode-wide :
    (w : ℕ)
    → 2 ^ 16 ≤ w
    → encode w ≡ (224 + w / 4096 % 16) ∷ (128 + w / 64 % 64) ∷ (128 + w % 64) ∷ []
unfolding encode
encode-wide w h = rw (above 127 w (omega arith), above 2047 w (omega arith)) refl

-- A character beyond 16 bits, which a `wchar_t` of Linux can be, comes back as another one: its
-- upper bits are gone.
pub utf8_to_utf16-encode_wide :
    (w : ℕ) → 2 ^ 16 ≤ w → utf8_to_utf16 (encode w) ≡ some (w % 2 ^ 16 ∷ [])
utf8_to_utf16-encode_wide w h =
    ap utf8_to_utf16 (encode-wide w h)
    ∙ utf8_to_utf16-triple _ _ _ [] (triple w).0 (triple w).1 (triple w).2
    ∙ ap (λ v. utf8_to_utf16 [] >>= λ ws. some (v ∷ ws)) (three_mod w)
    ∙ ap (λ o. o >>= λ ws. some (w % 2 ^ 16 ∷ ws)) no_bytes

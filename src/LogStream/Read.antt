-- ===== src/LogStream/Read.antt =====
-- A reader of numbers, against which the conversions are stated.
use trantor.Prelude.{
  ℕ, zero, suc, ◌+◌, ◌-◌, ◌*◌, ◌≡◌, refl, sym, ◌∙◌, true, ◌&&◌, Option, some, none, List, [], ◌∷◌,
  ◌++◌, ◌>>=◌, inl, inr, if◌then◌else◌, leb, ltb, Bool-cases, Option-cases,
}
use trantor.LogStream.Convert.{ℤ, pos, negsuc}

-- The digit that a byte is: '0' to '9', 'A' to 'F'.
unfoldable pub digit_of : ℕ → Option ℕ
digit_of c =
    if leb b'0' c && leb c b'9'
    then some (c - b'0')
    else if leb b'A' c && leb c b'F'
    then some (c - b'A' + 10)
    else none

-- The number that digits are, highest first, behind the number `n`.
unfoldable pub read : ℕ → ℕ → List ℕ → Option ℕ
read base n [] = some n
read base n (c ∷ cs) =
    digit_of c >>= λ d. let r = read base (n * base + d) cs in if ltb d base then r else none

-- A decimal number, which may have a sign; there is at least one digit, and no - 0.
unfoldable pub read_integer : List ℕ → Option ℤ
read_integer [] = none
read_integer (c ∷ cs) =
    if leb c b'-' && leb b'-' c
    then (read 10 0 cs >>= λ n. elim n [ zero ↦ none | suc m ↦ some (negsuc m) ])
    else (read 10 0 (c ∷ cs) >>= λ n. some (pos n))

-- One more digit at the end.
pub read-last :
    (base n : ℕ) (cs : List ℕ) (c m d : ℕ)
    → read base n cs ≡ some m
    → digit_of c ≡ some d
    → ltb d base ≡ true
    → read base n (cs ++ (c ∷ [])) ≡ some (m * base + d)
unfolding read
read-last base n [] c m d e f g = let h : n ≡ m = cc in rw (f, g, h) refl
read-last base n (x ∷ xs) c m d e f g = elim (Option-cases (digit_of x)) [
  | inl nothing ↦ let bad : read base n (x ∷ xs) ≡ none = rw (read, nothing) refl in absurd cc
  | inr (y, h) ↦ elim (Bool-cases (ltb y base)) [
    | inl low ↦
        let more : read base n (x ∷ xs) ≡ read base (n * base + y) xs = rw (read, h, low) refl in
        rw (h, low) (read-last base (n * base + y) xs c m d (sym more ∙ e) f g)
    | inr high ↦ let bad : read base n (x ∷ xs) ≡ none = rw (read, h, high) refl in absurd cc
  ]
]

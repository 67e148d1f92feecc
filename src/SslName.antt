-- ===== src/SslName.antt =====
-- `verifySslName` of utils/Utilities.cc. Names are lists of character codes; a loop that walks two
-- strings by index, forward or backward, is a recursion on the lists or on their reverses.
pub mod Laws
pub mod Prefix
mod Tests
use trantor.Prelude.{
  ℕ, zero, suc, ◌-◌, Bool, true, false, not, ◌&&◌, Option, some, none, List, [], ◌∷◌, if◌then◌else◌,
  ◌==◌, length, take, drop, get_elem?,
}
use mathlib.Core.List.{reverse}

abbrev pub star : ℕ
star = 42

abbrev pub dot : ℕ
dot = 46

-- `find` of a character.
unfoldable pub find_char : ℕ → List ℕ → Option ℕ
find_char c [] = none
find_char c (x ∷ xs) = elim (x == c) [
  | true ↦ some 0
  | false ↦ elim (find_char c xs) [ none ↦ none | some i ↦ some (suc i) ]
]

-- Two strings are equal.
unfoldable pub equal : List ℕ → List ℕ → Bool
equal [] [] = true
equal [] (y ∷ ys) = false
equal (x ∷ xs) [] = false
equal (x ∷ xs) (y ∷ ys) = x == y && equal xs ys

-- `firstDot` and `hostFirstDot`
unfoldable pub first_dot : List ℕ → ℕ
first_dot xs = elim (find_char dot xs) [ none ↦ length xs | some i ↦ i ]

-- The string from `pos` or `hostPos` on.
unfoldable pub behind_dot : List ℕ → List ℕ
behind_dot xs = drop (elim (find_char dot xs) [ none ↦ length xs | some i ↦ suc i ]) xs

-- The loops of the last two branches, on what is left of the host's and of the certificate's label.
unfoldable pub agree : List ℕ → List ℕ → Bool
agree [] cs = true
agree (h ∷ hs) [] = true
agree (h ∷ hs) (c ∷ cs) = if c == star then true else (if h == c then agree hs cs else false)

-- The loop of the branch for a star at the left, on the reversed strings: it ends at the first
-- character of the certificate's name.
unfoldable pub ends_with : List ℕ → List ℕ → Bool
ends_with hs [] = true
ends_with hs (c ∷ []) = true
ends_with [] (c ∷ d ∷ cs) = false
ends_with (h ∷ hs) (c ∷ d ∷ cs) = if h == c then ends_with hs (d ∷ cs) else false

unfoldable pub starts_with_star : List ℕ → Bool
starts_with_star [] = false
starts_with_star (c ∷ cs) = c == star

-- `firstDot != 0 && certName[firstDot - 1] == '*'`
unfoldable pub star_before_dot : List ℕ → Bool
star_before_dot cert = elim (get_elem? cert (first_dot cert - 1)) [
  | none ↦ false
  | some c ↦ not (first_dot cert == 0) && c == star
]

unfoldable pub verify_ssl_name : List ℕ → List ℕ → Bool
verify_ssl_name cert host =
    let label = take (first_dot cert) cert in
    let host_label = take (first_dot host) host in
    let same_domain = equal (behind_dot cert) (behind_dot host) in
    elim (find_char star cert) [
      | none ↦ equal cert host
      | some i ↦
          if equal label (star ∷ [])
          then same_domain
          else if starts_with_star cert
          then ends_with (reverse host) (reverse cert)
          else if star_before_dot cert
          then same_domain && agree host_label label
          else same_domain && agree host_label label && agree (reverse host_label) (reverse label)
    ]

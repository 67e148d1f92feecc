-- ===== src/SslName/Tests.antt =====
-- Names of the unit tests, and the theorems at concrete names. The codes spell "*b.c", "a.bb.c",
-- "ww*.c", "www.c" and "w.c".
use trantor.Prelude.{ℕ, ◌≡◌, refl, true, false, List, [], ◌∷◌, ◌++◌, arith, take}
use trantor.SslName.{
  star, dot, find_char, equal, first_dot, behind_dot, agree, starts_with_star, star_before_dot,
  verify_ssl_name,
}
use trantor.SslName.Laws.{Free, verify_ssl_name-ends_with}
use trantor.SslName.Prefix.{name_of}

abbrev tail_name : List ℕ
tail_name = 98 ∷ 46 ∷ 99 ∷ []

abbrev two_labels : List ℕ
two_labels = 97 ∷ 46 ∷ 98 ∷ tail_name

not_alone : equal (take (first_dot (star ∷ tail_name)) (star ∷ tail_name)) (star ∷ []) ≡ false
unfolding equal first_dot find_char
not_alone = refl

-- "www.c" and "w.c" against "ww*.c", and "x.c", which is refused.
www_test :
    verify_ssl_name (name_of (119 ∷ 119 ∷ []) (99 ∷ [])) (119 ∷ 119 ∷ 119 ∷ 46 ∷ 99 ∷ []) ≡ true
unfolding verify_ssl_name find_char equal first_dot behind_dot agree starts_with_star
    star_before_dot
www_test = refl

x_test : verify_ssl_name (name_of (119 ∷ 119 ∷ []) (99 ∷ [])) (120 ∷ 46 ∷ 99 ∷ []) ≡ false
unfolding verify_ssl_name find_char equal first_dot behind_dot agree starts_with_star
    star_before_dot
x_test = refl

verify_ssl_name-ends_with_example :
    (verify_ssl_name (star ∷ tail_name) two_labels ≡ true
      → (p : List ℕ) × (two_labels ≡ p ++ tail_name))
    × ((p : List ℕ)
        → two_labels ≡ p ++ tail_name
        → verify_ssl_name (star ∷ tail_name) two_labels ≡ true)
verify_ssl_name-ends_with_example = verify_ssl_name-ends_with tail_name two_labels not_alone

no_star : Free star (119 ∷ 119 ∷ [])
no_star = (omega arith, (omega arith, tt))

no_dot : Free dot (119 ∷ 119 ∷ [])
no_dot = (omega arith, (omega arith, tt))

-- ===== src/SslName/Laws.antt =====
-- What `verifySslName` accepts for a star at the left of other characters, and for a star at the end
-- of the first label.
use trantor.Prelude.{
  ℕ, ◌≡◌, ◌≢◌, refl, sym, ap, ◌∙◌, Bool, true, false, some, List, [], ◌∷◌, ◌++◌, if◌then◌else◌,
  arith, ◌==◌, length, take, drop, get_elem?,
}
use mathlib.Core.List.{reverse, reverse-cons, reverse-append, reverse-reverse}
use trantor.SslName.{
  star, find_char, equal, first_dot, ends_with, starts_with_star, verify_ssl_name,
}

-- A list without the character.
abbrev pub Free : ℕ → List ℕ → Type 0
Free c [] = Unit
Free c (x ∷ xs) = (x ≢ c) × Free c xs

pub same_char : (x : ℕ) → (x == x) ≡ true
same_char x = ground arith

pub find_char-append :
    (c : ℕ) (p t : List ℕ) → Free c p → find_char c (p ++ (c ∷ t)) ≡ some (length p)
unfolding find_char
find_char-append c [] t free = rw (find_char, same_char c) refl
find_char-append c (x ∷ p) t (other, free) =
    let here : (x == c) ≡ false = ground arith in
    rw (find_char, here, find_char-append c p t free) refl

pub take-append : (p t : List ℕ) → take (length p) (p ++ t) ≡ p
take-append [] t = refl
take-append (x ∷ p) t = ap (λ q. x ∷ q) (take-append p t)

pub drop-append : (p t : List ℕ) → drop (length p) (p ++ t) ≡ t
drop-append [] t = refl
drop-append (x ∷ p) t = drop-append p t

pub at-append : (p : List ℕ) (x : ℕ) (t : List ℕ) → get_elem? (p ++ (x ∷ t)) (length p) ≡ some x
at-append [] x t = refl
at-append (y ∷ p) x t = at-append p x t

pub equal_refl : (xs : List ℕ) → equal xs xs ≡ true
unfolding equal
equal_refl [] = refl
equal_refl (x ∷ xs) = rw (same_char x, equal_refl xs) refl

-- The reversed loop of the star at the left.
ends_with-cons :
    (h r c : ℕ) (hs rs : List ℕ)
    → ends_with (h ∷ hs) (r ∷ (rs ++ (c ∷ [])))
      ≡ (if h == r then ends_with hs (rs ++ (c ∷ [])) else false)
unfolding ends_with
ends_with-cons h r c hs [] = refl
ends_with-cons h r c hs (s ∷ rs) = refl

ends_with-nil : (r c : ℕ) (rs : List ℕ) → ends_with [] (r ∷ (rs ++ (c ∷ []))) ≡ false
unfolding ends_with
ends_with-nil r c [] = refl
ends_with-nil r c (s ∷ rs) = refl

both : (h r : ℕ) (b : Bool) → (if h == r then b else false) ≡ true → (h ≡ r) × (b ≡ true)
both h r b e = ground arith

ends_with-true :
    (hs rs : List ℕ) (c : ℕ) → ends_with hs (rs ++ (c ∷ [])) ≡ true → (q : List ℕ) × (hs ≡ rs ++ q)
ends_with-true hs [] c e = (hs, refl)
ends_with-true [] (r ∷ rs) c e = absurd (let f = ends_with-nil r c rs in ground arith)
ends_with-true (h ∷ hs) (r ∷ rs) c e =
    let (same, rest) =
      both h r (ends_with hs (rs ++ (c ∷ []))) (sym (ends_with-cons h r c hs rs) ∙ e) in
    let (q, it) = ends_with-true hs rs c rest in (q, ap (λ x. x ∷ hs) same ∙ ap (λ xs. r ∷ xs) it)

ends_with-append : (rs q : List ℕ) (c : ℕ) → ends_with (rs ++ q) (rs ++ (c ∷ [])) ≡ true
unfolding ends_with
ends_with-append [] [] c = refl
ends_with-append [] (x ∷ q) c = refl
ends_with-append (r ∷ rs) q c =
    ends_with-cons r r c (rs ++ q) rs ∙ rw (same_char r) (ends_with-append rs q c)

-- The certificate's name is a star and `t`, and its first label is not the star alone.
left_star :
    (t host : List ℕ)
    → equal (take (first_dot (star ∷ t)) (star ∷ t)) (star ∷ []) ≡ false
    → verify_ssl_name (star ∷ t) host ≡ ends_with (reverse host) (reverse (star ∷ t))
unfolding verify_ssl_name starts_with_star find_char
left_star t host more = rw more refl

-- A name `*t` whose first label is not the star alone is accepted for exactly those hosts that end
-- with `t`, however many labels come before it.
pub verify_ssl_name-ends_with :
    (t host : List ℕ)
    → equal (take (first_dot (star ∷ t)) (star ∷ t)) (star ∷ []) ≡ false
    → (verify_ssl_name (star ∷ t) host ≡ true → (p : List ℕ) × (host ≡ p ++ t))
      × ((p : List ℕ) → host ≡ p ++ t → verify_ssl_name (star ∷ t) host ≡ true)
verify_ssl_name-ends_with t host more =
    let run =
      left_star t host more ∙ ap (λ cs. ends_with (reverse host) cs) (reverse-cons star t) in
    (
      λ e.
          let (q, it) = ends_with-true (reverse host) (reverse t) star (sym run ∙ e) in
          (
            reverse q,
            sym (reverse-reverse host)
                ∙ ap reverse it
                ∙ reverse-append (reverse t) q
                ∙ ap (λ xs. reverse q ++ xs) (reverse-reverse t),
          ),
      λ p it.
          run
          ∙ ap (λ hs. ends_with hs (reverse t ++ (star ∷ []))) (ap reverse it ∙ reverse-append p t)
          ∙ ends_with-append (reverse t) (reverse p) star,
    )

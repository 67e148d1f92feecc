-- ===== src/SslName/Prefix.antt =====
-- What `verifySslName` accepts for a star at the end of the first label.
use trantor.Prelude.{
  ℕ, suc, ◌-◌, ◌≡◌, refl, ap, subst, ◌∙◌, true, false, ◌&&◌, some, List, [], ◌∷◌, ◌++◌, arith, ◌==◌,
  length, length-append, take, drop, get_elem?, append_assoc, Bool-cases, inl, inr,
}
use trantor.SslName.{
  star, dot, find_char, equal, first_dot, behind_dot, agree, starts_with_star, star_before_dot,
  verify_ssl_name,
}
use trantor.SslName.Laws.{Free, same_char, find_char-append, take-append, at-append, equal_refl}

drop_one : (p : List ℕ) (x : ℕ) (t : List ℕ) → drop (suc (length p)) (p ++ (x ∷ t)) ≡ t
drop_one [] x t = refl
drop_one (y ∷ p) x t = drop_one p x t

first_dot_at : (xs : List ℕ) (i : ℕ) → find_char dot xs ≡ some i → first_dot xs ≡ i
unfolding first_dot
first_dot_at xs i e = rw (first_dot, e) refl

behind_dot_at : (xs : List ℕ) (i : ℕ) → find_char dot xs ≡ some i → behind_dot xs ≡ drop (suc i) xs
unfolding behind_dot
behind_dot_at xs i e = rw (behind_dot, e) refl

first_dot-append : (l t : List ℕ) → Free dot l → first_dot (l ++ (dot ∷ t)) ≡ length l
first_dot-append l t free = first_dot_at (l ++ (dot ∷ t)) (length l) (find_char-append dot l t free)

behind_dot-append : (l t : List ℕ) → Free dot l → behind_dot (l ++ (dot ∷ t)) ≡ t
behind_dot-append l t free =
    behind_dot_at (l ++ (dot ∷ t)) (length l) (find_char-append dot l t free) ∙ drop_one l dot t

label-append : (l t : List ℕ) → Free dot l → take (first_dot (l ++ (dot ∷ t))) (l ++ (dot ∷ t)) ≡ l
label-append l t free =
    ap (λ k. take k (l ++ (dot ∷ t))) (first_dot-append l t free) ∙ take-append l (dot ∷ t)

Free-star : (p : List ℕ) → Free dot p → Free dot (p ++ (star ∷ []))
Free-star [] free = (omega arith, tt)
Free-star (x ∷ p) (other, free) = (other, Free-star p free)

-- The certificate's name `p*.d`.
abbrev pub name_of : List ℕ → List ℕ → List ℕ
name_of p d = (p ++ (star ∷ [])) ++ (dot ∷ d)

before_dot :
    (xs : List ℕ) (i : ℕ)
    → first_dot xs ≡ suc i
    → get_elem? xs i ≡ some star
    → star_before_dot xs ≡ true
unfolding star_before_dot
before_dot xs i e at =
    let there : get_elem? xs (first_dot xs - 1) ≡ some star =
      ap (λ k. get_elem? xs (k - 1)) e ∙ ap (get_elem? xs) (omega arith) ∙ at in
    rw (star_before_dot, there, e) (ground arith)

-- The branch for a star before the first dot.
branch :
    (cert host label domain host_label host_domain : List ℕ) (i : ℕ)
    → find_char star cert ≡ some i
    → take (first_dot cert) cert ≡ label
    → behind_dot cert ≡ domain
    → take (first_dot host) host ≡ host_label
    → behind_dot host ≡ host_domain
    → equal label (star ∷ []) ≡ false
    → starts_with_star cert ≡ false
    → star_before_dot cert ≡ true
    → verify_ssl_name cert host ≡ (equal domain host_domain && agree host_label label)
unfolding verify_ssl_name
branch cert host label domain host_label host_domain i found l d hl hd alone first before =
    rw (verify_ssl_name, found, l, d, hl, hd, alone, first, before) refl

module _ (x : ℕ) (xs d : List ℕ) (starless : Free star (x ∷ xs)) (dotless : Free dot (x ∷ xs)) where
  abbrev label : List ℕ
  label = (x ∷ xs) ++ (star ∷ [])

  has_star : find_char star (name_of (x ∷ xs) d) ≡ some (length (x ∷ xs))
  has_star =
      ap (find_char star) (append_assoc (x ∷ xs) (star ∷ []) (dot ∷ d))
      ∙ find_char-append star (x ∷ xs) (dot ∷ d) starless

  not_alone : equal label (star ∷ []) ≡ false
  unfolding equal
  not_alone = let other = starless.0 in ground arith

  not_first : starts_with_star (name_of (x ∷ xs) d) ≡ false
  unfolding starts_with_star
  not_first = let other = starless.0 in ground arith

  before : star_before_dot (name_of (x ∷ xs) d) ≡ true
  before =
      before_dot (name_of (x ∷ xs) d) (length (x ∷ xs))
        (first_dot-append label d (Free-star (x ∷ xs) dotless)
          ∙ length-append (x ∷ xs) (star ∷ [])
          ∙ omega arith)
        (ap (λ l. get_elem? l (length (x ∷ xs))) (append_assoc (x ∷ xs) (star ∷ []) (dot ∷ d))
          ∙ at-append (x ∷ xs) star (dot ∷ d))

  -- The branch that is taken.
  runs :
      (q e : List ℕ)
      → Free dot q
      → verify_ssl_name (name_of (x ∷ xs) d) (q ++ (dot ∷ e)) ≡ (equal d e && agree q label)
  runs q e free =
      branch (name_of (x ∷ xs) d) (q ++ (dot ∷ e)) label d q e (length (x ∷ xs)) has_star
        (label-append label d (Free-star (x ∷ xs) dotless))
        (behind_dot-append label d (Free-star (x ∷ xs) dotless)) (label-append q e free)
        (behind_dot-append q e free) not_alone not_first before

agree_longer : (p w : List ℕ) → agree (p ++ w) (p ++ (star ∷ [])) ≡ true
unfolding agree
agree_longer [] [] = refl
agree_longer [] (y ∷ w) = refl
agree_longer (x ∷ p) w =
    let rest = agree_longer p w in
    elim (Bool-cases (x == star)) [ inl it ↦ rw it refl | inr other ↦ rw (other, same_char x) rest ]

agree_shorter : (q r : List ℕ) → agree q ((q ++ r) ++ (star ∷ [])) ≡ true
unfolding agree
agree_shorter [] r = refl
agree_shorter (x ∷ q) r =
    let rest = agree_shorter q r in
    elim (Bool-cases (x == star)) [ inl it ↦ rw it refl | inr other ↦ rw (other, same_char x) rest ]

Free-part : (c : ℕ) (q r : List ℕ) → Free c (q ++ r) → Free c q
Free-part c [] r free = tt
Free-part c (x ∷ q) r (other, free) = (other, Free-part c q r free)

Free-both : (c : ℕ) (q r : List ℕ) → Free c q → Free c r → Free c (q ++ r)
Free-both c [] r free more = more
Free-both c (x ∷ q) r (other, free) more = (other, Free-both c q r free more)

-- A name `p*.d`, with no star and no dot in `p`, and hosts of the same domain `d`: each host whose
-- first label begins with `p` is accepted; and so is each whose first label is only a part `q` of the
-- beginning of `p`, the empty label too, although it does not begin with `p`.
pub verify_ssl_name_part :
    (x : ℕ) (xs d : List ℕ)
    → Free star (x ∷ xs)
    → Free dot (x ∷ xs)
    → ((w : List ℕ)
        → Free dot w
        → verify_ssl_name (name_of (x ∷ xs) d) (((x ∷ xs) ++ w) ++ (dot ∷ d)) ≡ true)
      × ((q r : List ℕ)
          → x ∷ xs ≡ q ++ r
          → verify_ssl_name (name_of (x ∷ xs) d) (q ++ (dot ∷ d)) ≡ true)
verify_ssl_name_part x xs d starless dotless = (
  λ w free.
      runs x xs d starless dotless ((x ∷ xs) ++ w) d (Free-both dot (x ∷ xs) w dotless free)
      ∙ rw (equal_refl d) (agree_longer (x ∷ xs) w),
  λ q r e.
      runs x xs d starless dotless q d (Free-part dot q r (subst (Free dot) e dotless))
      ∙ ap (λ p. equal d d && agree q (p ++ (star ∷ []))) e
      ∙ rw (equal_refl d) (agree_shorter q r),
)

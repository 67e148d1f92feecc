-- ===== src/LogStream/Digits.antt =====
-- The conversions give the number, in no more digits than it needs.
use trantor.Prelude.{
  ℕ, zero, suc, ◌+◌, ◌-◌, ◌*◌, ◌/◌, ◌%◌, ◌^◌, ◌≤◌, ◌<◌, ◌≡◌, inl, inr, refl, sym, ap, subst, ◌∙◌,
  Bool, true, false, ◌&&◌, Option, some, none, List, [], ◌∷◌, ◌>>=◌, if◌then◌else◌, ltb, ◌==◌,
  arith, length, length-append, get_elem?, Bool-cases,
}
use native.Mathlib.Nat.{pow-zero, pow-succ'}
use trantor.LogStream.Convert.{pos, neg, zero_at, digits_hex, reverse}
use trantor.LogStream.Read.{digit_of, read, read-last}

-- A loop that gives the digits of a number, lowest first.
abbrev pub print : ℕ → (ℕ → ℕ) → ℕ → ℕ → Option (List ℕ)
print base digit zero m = none
print base digit (suc fuel) m =
    let rest = print base digit fuel (m / base) in
    if m / base == 0
    then some (digit (m % base) ∷ [])
    else (rest >>= λ cs. some (digit (m % base) ∷ cs))

pub length-reverse : (xs : List ℕ) → length (reverse xs) ≡ length xs
length-reverse [] = refl
length-reverse (x ∷ xs) =
    length-append (reverse xs) (x ∷ []) ∙ (let h = length-reverse xs in omega arith)

-- What division by a base does.
pub record Divides (base : ℕ) : Type 0 where
  rest_lt : (m : ℕ) → m % base < base
  back : (m : ℕ) → m / base * base + m % base ≡ m
  less : (m p : ℕ) → m < base * p → m / base < p

pub ten : Divides 10
ten = record { rest_lt = λ m. omega arith; back = λ m. omega arith; less = λ m p h. omega arith }

pub sixteen : Divides 16
sixteen = record {
  rest_lt = λ m. omega arith;
  back = λ m. omega arith;
  less = λ m p h. omega arith;
}

-- The digits of `m`, of which there are at most `k`.
pub record Printed (base m k : ℕ) (o : Option (List ℕ)) : Type 0 where
  pub text : List ℕ
  pub ok : o ≡ some text
  pub long : length text ≤ k
  pub short : 0 < length text
  pub back : read base 0 (reverse text) ≡ some m

module _ (base : ℕ) (d : Divides base) (digit : ℕ → ℕ)
    (reads : (k : ℕ) → k < base → digit_of (digit k) ≡ some k) where
  one_digit : (m : ℕ) → m / base ≡ 0 → read base 0 (digit (m % base) ∷ []) ≡ some m
  unfolding read
  one_digit m e =
      let low : ltb (m % base) base ≡ true = let h = d.rest_lt m in ground arith in
      rw (reads (m % base) (d.rest_lt m), low)
        (ap some (ap (λ q. q * base + m % base) (sym e) ∙ d.back m))

  more_digits :
      (fuel m k : ℕ)
      → Printed base (m / base) k (print base digit fuel (m / base))
      → (m / base == 0) ≡ false
      → Printed base m (suc k) (print base digit (suc fuel) m)
  more_digits fuel m k p goes = record {
    text = digit (m % base) ∷ p.text;
    ok = rw (goes, p.ok) refl;
    long = let h = p.long in omega arith;
    short = omega arith;
    back =
        read-last base 0 (reverse p.text) (digit (m % base)) (m / base) (m % base) p.back
          (reads (m % base) (d.rest_lt m)) (let h = d.rest_lt m in ground arith)
        ∙ ap some (d.back m);
  }

  pub prints :
      (k fuel m : ℕ)
      → m < base ^ suc k
      → k < fuel
      → Printed base m (suc k) (print base digit fuel m)
  prints k zero m h more = absurd (omega arith)
  prints k (suc fuel) m h more =
      let f = d.less m (base ^ k) (subst (λ p. m < p) (pow-succ' base k) h) in
      elim (Bool-cases (m / base == 0)) [
        | inl last ↦ rw last (record {
          text = digit (m % base) ∷ [];
          ok = refl;
          long = omega arith;
          short = omega arith;
          back = one_digit m (ground arith);
        })
        | inr goes ↦
            elim k
                as (λ k.
                  m / base < base ^ k
                  → k < suc fuel
                  → Printed base m (suc k) (print base digit (suc fuel) m)) [
                    | zero ↦ λ h more. absurd (
                        let one : base ^ 0 ≡ 1 = pow-zero base in
                        let z : m / base < 1 = subst (λ p. m / base < p) one h in ground arith)
                    | suc k ↦ λ h more.
                        more_digits fuel m (suc k) (prints k fuel (m / base) h (omega arith)) goes
                  ]
              f more
      ]

-- A test of every number below a bound.
abbrev all_below : ℕ → (ℕ → Bool) → Bool
all_below zero f = true
all_below (suc n) f = f n && all_below n f

all_below-each : (n k : ℕ) (f : ℕ → Bool) → all_below n f ≡ true → k < n → f k ≡ true
all_below-each zero k f e h = absurd (omega arith)
all_below-each (suc n) k f e h = elim (Bool-cases (f n)) [
  | inr fails ↦ let bad : all_below (suc n) f ≡ false = rw fails refl in absurd cc
  | inl holds ↦ elim (Bool-cases (k == n)) [
    | inl same ↦ let q : k ≡ n = ground arith in ap f q ∙ holds
    | inr other ↦
        let rest : all_below (suc n) f ≡ all_below n f = rw holds refl in
        all_below-each n k f (sym rest ∙ e) (ground arith)
  ]
]

abbrev gives : Option ℕ → ℕ → Bool
gives none n = false
gives (some m) n = m == n

gives-some : (o : Option ℕ) (n : ℕ) → gives o n ≡ true → o ≡ some n
gives-some none n e = absurd cc
gives-some (some m) n e = ap some (ground arith)

abbrev pub decimal : ℕ → ℕ
decimal d = b'0' + d

abbrev pub hex : ℕ → ℕ
hex d = if ltb d 10 then b'0' + d else b'A' + (d - 10)

pub digit_of-decimal : (k : ℕ) → k < 10 → digit_of (decimal k) ≡ some k
unfolding digit_of
digit_of-decimal k h =
    gives-some (digit_of (decimal k)) k
      (all_below-each 10 k (λ k. gives (digit_of (decimal k)) k) refl h)

pub digit_of-hex : (k : ℕ) → k < 16 → digit_of (hex k) ≡ some k
unfolding digit_of
digit_of-hex k h =
    gives-some (digit_of (hex k)) k (all_below-each 16 k (λ k. gives (digit_of (hex k)) k) refl h)

pub zero_at-pos : (k : ℕ) → k < 10 → zero_at (pos k) ≡ some (decimal k)
zero_at-pos k h =
    gives-some (zero_at (pos k)) (decimal k)
      (all_below-each 10 k (λ k. gives (zero_at (pos k)) (decimal k)) refl h)

pub zero_at-neg : (k : ℕ) → k < 10 → zero_at (neg k) ≡ some (decimal k)
zero_at-neg k h =
    gives-some (zero_at (neg k)) (decimal k)
      (all_below-each 10 k (λ k. gives (zero_at (neg k)) (decimal k)) refl h)

pub digits_hex-at : (k : ℕ) → k < 16 → get_elem? digits_hex k ≡ some (hex k)
digits_hex-at k h =
    gives-some (get_elem? digits_hex k) (hex k)
      (all_below-each 16 k (λ k. gives (get_elem? digits_hex k) (hex k)) refl h)

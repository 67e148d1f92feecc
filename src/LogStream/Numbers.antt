-- ===== src/LogStream/Numbers.antt =====
-- `convert` and `convertHex`, for every number of their types.
use trantor.Prelude.{
  ℕ, zero, suc, ◌/◌, ◌%◌, ◌^◌, ◌≤◌, ◌<◌, ◌≡◌, refl, sym, ap, subst, false, ◌&&◌, some, none, List,
  [], ◌∷◌, ◌++◌, leb, ◌==◌, arith, length, append-nil, inl, inr, Bool-cases,
}
use trantor.LogStream.Convert.{
  ℤ, pos, negsuc, IntegerType, int, unsigned_int, long, unsigned_long, max_of, min_size, digits10,
  max_numeric_size, neg, is_zero, reverse, convert_loop, convert, convert_hex_loop, convert_hex,
}
use trantor.LogStream.Read.{digit_of, read, read_integer}
use trantor.LogStream.Digits.{
  print, Printed, prints, ten, sixteen, decimal, hex, digit_of-decimal, digit_of-hex, zero_at-pos,
  zero_at-neg, digits_hex-at, length-reverse,
}

abbrev pub magnitude : ℤ → ℕ
magnitude (pos n) = n
magnitude (negsuc n) = suc n

magnitude-neg : (n : ℕ) → magnitude (neg n) ≡ n
magnitude-neg zero = refl
magnitude-neg (suc n) = refl

is_zero-neg : (n : ℕ) → is_zero (neg n) ≡ (n == 0)
is_zero-neg zero = refl
is_zero-neg (suc n) = ground arith

-- The loops are the one of `Digits`.
convert_loop-print : (fuel : ℕ) (i : ℤ) → convert_loop fuel i ≡ print 10 decimal fuel (magnitude i)
unfolding convert_loop
convert_loop-print zero i = refl
convert_loop-print (suc fuel) (pos n) =
    rw (zero_at-pos (n % 10) (omega arith), convert_loop-print fuel (pos (n / 10))) refl
convert_loop-print (suc fuel) (negsuc n) =
    rw
      (
        zero_at-neg (suc n % 10) (omega arith),
        is_zero-neg (suc n / 10),
        convert_loop-print fuel (neg (suc n / 10)),
        magnitude-neg (suc n / 10),
      )
      refl

convert_hex_loop-print : (fuel i : ℕ) → convert_hex_loop fuel i ≡ print 16 hex fuel i
unfolding convert_hex_loop
convert_hex_loop-print zero i = refl
convert_hex_loop-print (suc fuel) i =
    rw (digits_hex-at (i % 16) (omega arith), convert_hex_loop-print fuel (i / 16)) refl

-- The values of a type.
abbrev pub InRange : IntegerType → ℤ → Type 0
InRange t (pos n) = n ≤ max_of t
InRange t (negsuc n) = n < min_size t

magnitude_lt : (t : IntegerType) (v : ℤ) → InRange t v → magnitude v < 10 ^ suc (digits10 t)
magnitude_lt int (pos n) h = omega arith
magnitude_lt unsigned_int (pos n) h = omega arith
magnitude_lt long (pos n) h = omega arith
magnitude_lt unsigned_long (pos n) h = omega arith
magnitude_lt int (negsuc n) h = omega arith
magnitude_lt unsigned_int (negsuc n) h = omega arith
magnitude_lt long (negsuc n) h = omega arith
magnitude_lt unsigned_long (negsuc n) h = omega arith

digits10_lt : (t : IntegerType) → digits10 t < 64
digits10_lt int = omega arith
digits10_lt unsigned_int = omega arith
digits10_lt long = omega arith
digits10_lt unsigned_long = omega arith

reverse-last : (xs : List ℕ) (x : ℕ) → reverse (xs ++ (x ∷ [])) ≡ x ∷ reverse xs
reverse-last [] x = refl
reverse-last (y ∷ xs) x = ap (λ r. r ++ (y ∷ [])) (reverse-last xs x)

no_sign :
    (base x m : ℕ) (xs : List ℕ)
    → read base 0 (x ∷ xs) ≡ some m
    → (leb x b'-' && leb b'-' x) ≡ false
unfolding read digit_of
no_sign base x m xs e = elim (Bool-cases (leb x b'-' && leb b'-' x)) [
  | inr other ↦ other
  | inl sign ↦
      let q : x ≡ b'-' = ground arith in
      let bad : read base 0 (x ∷ xs) ≡ none = ap (λ y. read base 0 (y ∷ xs)) q in absurd cc
]

-- What `convert` makes of a number: it is read back, and fits with the zero behind it.
pub record Converted (t : IntegerType) (v : ℤ) : Type 0 where
  pub text : List ℕ
  pub ok : convert v ≡ some text
  pub room : suc (length text) ≤ max_numeric_size t
  pub back : read_integer text ≡ some v

read_pos :
    (m : ℕ) (cs : List ℕ) → 0 < length cs → read 10 0 cs ≡ some m → read_integer cs ≡ some (pos m)
unfolding read_integer
read_pos m [] h e = absurd (omega arith)
read_pos m (c ∷ cs) h e = rw (no_sign 10 c m cs e, e) refl

printed :
    (t : IntegerType) (v : ℤ)
    → InRange t v
    → Printed 10 (magnitude v) (suc (digits10 t)) (convert_loop 64 v)
printed t v h =
    subst (Printed 10 (magnitude v) (suc (digits10 t))) (sym (convert_loop-print 64 v)) (
      prints 10 ten decimal digit_of-decimal (digits10 t) 64 (magnitude v) (magnitude_lt t v h)
        (digits10_lt t))

pub converts : (t : IntegerType) (v : ℤ) → InRange t v → Converted t v
unfolding convert read_integer
converts t (pos n) h =
    let p = printed t (pos n) h in
    let l = length-reverse p.text in
    let k = p.long in
    let m = p.short in
    record {
      text = reverse p.text;
      ok = rw (p.ok, append-nil p.text) refl;
      room = omega arith;
      back = read_pos n (reverse p.text) (omega arith) p.back;
    }
converts t (negsuc n) h =
    let p = printed t (negsuc n) h in
    let l = length-reverse p.text in
    let k = p.long in
    record {
      text = b'-' ∷ reverse p.text;
      ok = rw (p.ok, reverse-last p.text b'-') refl;
      room = omega arith;
      back = rw (p.back) refl;
    }

-- What `convertHex` makes of a pointer: at most 16 digits, and it is read back.
pub record HexConverted (v : ℕ) : Type 0 where
  pub text : List ℕ
  pub ok : convert_hex v ≡ some text
  pub room : length text ≤ 16
  pub back : read 16 0 text ≡ some v

pub hex_converts : (v : ℕ) → v < 2 ^ 64 → HexConverted v
unfolding convert_hex
hex_converts v h =
    let p =
      subst (Printed 16 v 16) (sym (convert_hex_loop-print 64 v))
        (prints 16 sixteen hex digit_of-hex 15 64 v (omega arith) (omega arith)) in
    let l = length-reverse p.text in
    let k = p.long in
    record { text = reverse p.text; ok = rw (p.ok) refl; room = omega arith; back = p.back }

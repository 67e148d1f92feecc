-- ===== src/Bytes/Order.antt =====
-- Memory and value determine each other, so the byte order swaps are involutions.
use trantor.Prelude.{
  ℕ, zero, suc, ◌+◌, ◌*◌, ◌/◌, ◌%◌, ◌^◌, ◌<◌, ◌≡◌, refl, sym, ap, ap₂, ◌∙◌, List, [], ◌∷◌, ◌++◌,
  arith, length, length-append,
}
use mathlib.Core.List.{reverse, reverse-cons, reverse-reverse}
use native.Mathlib.Nat.{pow-suc}
use trantor.Bytes.{to_memory, of_memory, swap_bytes, big_endian}

abbrev pub AllBytes : List ℕ → Type 0
AllBytes [] = Unit {0}
AllBytes (x ∷ xs) = (x < 256) × AllBytes xs

AllBytes-append : (xs ys : List ℕ) → AllBytes xs → AllBytes ys → AllBytes (xs ++ ys)
AllBytes-append [] ys p q = q
AllBytes-append (x ∷ xs) ys p q = (p.0, AllBytes-append xs ys p.1 q)

pub AllBytes-reverse : (xs : List ℕ) → AllBytes xs → AllBytes (reverse xs)
AllBytes-reverse [] p = tt
AllBytes-reverse (x ∷ xs) p =
    rw (reverse-cons x xs)
      (AllBytes-append (reverse xs) (x ∷ []) (AllBytes-reverse xs p.1) (p.0, tt))

pub length-reverse : (xs : List ℕ) → length (reverse xs) ≡ length xs
length-reverse [] = refl
length-reverse (x ∷ xs) =
    rw (reverse-cons x xs) (omega (arith, length-append (reverse xs) (x ∷ []), length-reverse xs))

pub length-to_memory : (k n : ℕ) → length (to_memory k n) ≡ k
unfolding to_memory
length-to_memory zero n = refl
length-to_memory (suc k) n = ap suc (length-to_memory k (n / 256))

pub to_memory-AllBytes : (k n : ℕ) → AllBytes (to_memory k n)
unfolding to_memory
to_memory-AllBytes zero n = tt
to_memory-AllBytes (suc k) n = (omega arith, to_memory-AllBytes k (n / 256))

pub of_memory-to_memory : (k n : ℕ) → n < 256 ^ k → of_memory (to_memory k n) ≡ n
unfolding of_memory to_memory
of_memory-to_memory zero n h = omega arith
of_memory-to_memory (suc k) n h =
    omega (arith, of_memory-to_memory k (n / 256) (omega (arith, pow-suc 256 k)))

pub to_memory-of_memory : (xs : List ℕ) → AllBytes xs → to_memory (length xs) (of_memory xs) ≡ xs
unfolding of_memory to_memory
to_memory-of_memory [] p = refl
to_memory-of_memory (x ∷ xs) p =
    ap₂ ◌∷◌ low (ap (to_memory (length xs)) high ∙ to_memory-of_memory xs p.1)
  where
    low : (x + 256 * of_memory xs) % 256 ≡ x
    low = omega arith

    high : (x + 256 * of_memory xs) / 256 ≡ of_memory xs
    high = omega arith

-- What a swapped integer looks like in memory.
pub to_memory-swap_bytes : (k n : ℕ) → to_memory k (swap_bytes k n) ≡ big_endian k n
unfolding swap_bytes big_endian
to_memory-swap_bytes k n =
    let xs = reverse (to_memory k n) in
    let size : length xs ≡ k = length-reverse (to_memory k n) ∙ length-to_memory k n in
    ap (λ j. to_memory j (of_memory xs)) (sym size)
    ∙ to_memory-of_memory xs (AllBytes-reverse (to_memory k n) (to_memory-AllBytes k n))

pub length-big_endian : (k n : ℕ) → length (big_endian k n) ≡ k
unfolding big_endian
length-big_endian k n = length-reverse (to_memory k n) ∙ length-to_memory k n

-- Reading network-order bytes as a host integer, and swapping it.
pub swap_bytes-big_endian : (k n : ℕ) → n < 256 ^ k → swap_bytes k (of_memory (big_endian k n)) ≡ n
unfolding swap_bytes big_endian
swap_bytes-big_endian k n h =
    let xs = reverse (to_memory k n) in
    let size : length xs ≡ k = length-reverse (to_memory k n) ∙ length-to_memory k n in
    ap (λ j. of_memory (reverse (to_memory j (of_memory xs)))) (sym size)
    ∙ ap (λ l. of_memory (reverse l))
        (to_memory-of_memory xs (AllBytes-reverse (to_memory k n) (to_memory-AllBytes k n)))
    ∙ ap of_memory (reverse-reverse (to_memory k n))
    ∙ of_memory-to_memory k n h

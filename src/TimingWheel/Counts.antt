-- ===== src/TimingWheel/Counts.antt =====
-- How often the wheels have turned.
use trantor.Prelude.{ℕ, zero, suc, ◌+◌, ◌*◌, ◌/◌, ◌%◌, ◌^◌, ◌<◌, ◌≡◌, refl, sym, ap, ◌∙◌, arith}
use native.Mathlib.Nat.{
  div-eq_of_eq-mul_left, mod-lt, div-add-mod', div-eq_of_lt-le, div-div-eq-div-mul, pow-zero,
  pow-suc, div-one,
}

-- The turns of the wheel `i` in `t` ticks.
abbrev pub count : ℕ → ℕ → ℕ → ℕ
count n zero t = t
count n (suc i) t = count n i t / n

count_pow : (n i t : ℕ) → count n i t ≡ t / n ^ i
count_pow n zero t = sym (div-one t) ∙ ap (λ p. t / p) (sym (pow-zero n))
count_pow n (suc i) t =
    ap (λ c. c / n) (count_pow n i t)
    ∙ div-div-eq-div-mul t (n ^ i) n
    ∙ ap (λ p. t / p) (sym (pow-suc n i))

-- A tick with a carry, and one without.
suc_mul : (q p : ℕ) → suc q * p ≡ q * p + p
suc_mul q p = omega arith

div_suc : (p t : ℕ) → 0 < p → suc t % p ≡ 0 → suc t / p ≡ suc (t / p)
div_suc p t h e = go (suc t / p) refl
  where
    go : (q : ℕ) → suc t / p ≡ q → suc t / p ≡ suc (t / p)
    go zero f =
        let g : 0 * p + suc t % p ≡ suc t =
          ap (λ q. q * p + suc t % p) (sym f) ∙ div-add-mod' (suc t) p in
        absurd (omega arith)
    go (suc q) f =
        let g : suc q * p + suc t % p ≡ suc t =
          ap (λ q. q * p + suc t % p) (sym f) ∙ div-add-mod' (suc t) p in
        let m : suc q * p ≡ q * p + p = suc_mul q p in
        let m' : (q + 1) * p ≡ q * p + p = omega arith in
        f ∙ ap suc (sym (div-eq_of_lt-le p {m = t} (omega arith) (omega arith)))

div_same : (p t : ℕ) → 0 < p → 0 < suc t % p → suc t / p ≡ t / p
div_same p t h more =
    let g = div-add-mod' (suc t) p in
    let b = mod-lt (suc t) h in
    let m : (suc t / p + 1) * p ≡ suc t / p * p + p = omega arith in
    sym (div-eq_of_lt-le p {m = t} (omega arith) (omega arith))

-- The wheel `i` turns in the tick.
pub count-carry :
    (n i t : ℕ) → 0 < n ^ i → suc t % n ^ i ≡ 0 → count n i (suc t) ≡ suc (count n i t)
count-carry n i t h e =
    count_pow n i (suc t) ∙ div_suc (n ^ i) t h e ∙ ap suc (sym (count_pow n i t))

pub count-still : (n i t : ℕ) → 0 < n ^ i → 0 < suc t % n ^ i → count n i (suc t) ≡ count n i t
count-still n i t h more = count_pow n i (suc t) ∙ div_same (n ^ i) t h more ∙ sym (count_pow n i t)

-- When a wheel turns, the one below it has made whole rounds.
pub count-rounds :
    (n i t : ℕ) → 0 < n → 0 < n ^ i → t % n ^ suc i ≡ 0 → count n (suc i) t * n ≡ count n i t
count-rounds n i t h hi e =
    let q = t / n ^ suc i in
    let g : q * n ^ suc i ≡ t = (let z = div-add-mod' t (n ^ suc i) in omega arith) in
    let m : q * n ^ suc i ≡ q * n * n ^ i =
      ap (λ p. q * p) (pow-suc n i)
      ∙ (let z : q * (n ^ i * n) ≡ q * n * n ^ i = omega arith in z) in
    ap (λ c. c * n) (count_pow n (suc i) t)
    ∙ sym (div-eq_of_eq-mul_left hi (sym g ∙ m))
    ∙ sym (count_pow n i t)

-- ===== src/TimingWheel/Size.antt =====
-- How many wheels the constructor makes, and what they are.
use trantor.Prelude.{
  ℕ, zero, suc, ◌+◌, ◌-◌, ◌*◌, ◌^◌, ◌≤◌, ◌<◌, ◌≡◌, ◌⊎◌, inl, inr, refl, sym, ap, subst, ◌∙◌, Option,
  some, leb, ltb, arith, length, add_size, mul_size, Bool-cases,
}
use native.Mathlib.Nat.{pow-zero, pow-suc, mul-le-mul, mul-le-mul_right, pow-le-pow_right}
use trantor.TimingWheel.{Entry, grow_wheels, wheels_for, buckets_of, new_wheel}
use trantor.TimingWheel.Buckets.{In, bucket_at}
use trantor.TimingWheel.Agenda.{Shaped}

two_pow_le : (n k : ℕ) → 1 < n → 2 ^ k ≤ n ^ k
two_pow_le n zero h = let a = pow-zero n in let b = pow-zero 2 in omega arith
two_pow_le n (suc k) h =
    let a = pow-suc n k in
    let b = pow-suc 2 k in
    let p : 2 ^ k * 2 ≤ n ^ k * n = mul-le-mul (two_pow_le n k h) (omega arith) in omega arith

-- As many wheels as the longest time-out needs, and no more.
pub record Enough (n max_tick_num : ℕ) (o : Option ℕ) : Type 0 where
  pub wheels_num : ℕ
  pub ok : o ≡ some wheels_num
  pub some_wheels : 0 < wheels_num
  pub reach : max_tick_num ≤ n ^ wheels_num
  pub least : (wheels_num ≡ 1) ⊎ (n ^ (wheels_num - 1) < max_tick_num)

num_small : (n num : ℕ) → 1 < n → n ^ num < 2 ^ 64 → num < 64
num_small n num more h = elim (Bool-cases (leb 64 num)) [
  | inr low ↦ ground arith
  | inl high ↦
      let a : 2 ^ 64 ≤ 2 ^ num = pow-le-pow_right {n = 2} (omega arith) {i = 64} (ground arith) in
      let b = two_pow_le n num more in absurd (omega arith)
]

module _ (n max_tick_num : ℕ) (more : 1 < n) (small : max_tick_num * n < 2 ^ 64) where
  grow_wheels-Enough :
      (fuel num : ℕ)
      → 0 < num
      → 64 < num + fuel
      → n ^ num < 2 ^ 64
      → (num ≡ 1) ⊎ (n ^ (num - 1) < max_tick_num)
      → Enough n max_tick_num (grow_wheels fuel n max_tick_num num (n ^ num))
  unfolding grow_wheels
  grow_wheels-Enough zero num pos enough h l =
      absurd (let b = num_small n num more h in omega arith)
  grow_wheels-Enough (suc fuel) num pos enough h l =
      elim (Bool-cases (ltb (n ^ num) max_tick_num)) [
        | inr done ↦ rw done (record {
          wheels_num = num;
          ok = refl;
          some_wheels = pos;
          reach = ground arith;
          least = l;
        })
        | inl goes ↦
            let below : n ^ num < max_tick_num = ground arith in
            let b = num_small n num more h in
            let product : n ^ num * n ≤ max_tick_num * n = mul-le-mul_right n (omega arith) in
            let p = pow-suc n num in
            let num' : add_size num 1 ≡ suc num = omega arith in
            let ticks' : mul_size (n ^ num) n ≡ n ^ suc num = omega arith in
            let d : suc num - 1 ≡ num = omega arith in
            rw (goes, num', ticks')
              (grow_wheels-Enough fuel (suc num) (omega arith) (omega arith) (omega arith)
                (inr (subst (λ k. n ^ k < max_tick_num) (sym d) below)))
      ]

-- The loop of the constructor ends, when the longest time-out in ticks, times the number of buckets, is below
-- 2 ^ 64: with the least number of wheels that reach it.
pub wheels_for-Enough :
    (n max_tick_num : ℕ)
    → 1 < n
    → n < 2 ^ 64
    → max_tick_num * n < 2 ^ 64
    → Enough n max_tick_num (wheels_for n max_tick_num)
unfolding wheels_for
wheels_for-Enough n max_tick_num more word small =
    let e : n ^ 1 ≡ n =
      (let a = pow-suc n 0 in let b = pow-zero n in a ∙ ap (λ x. x * n) b ∙ omega arith) in
    subst (λ t. Enough n max_tick_num (grow_wheels 64 n max_tick_num 1 t)) e
      (grow_wheels-Enough n max_tick_num more small 64 1 (omega arith) (omega arith) (omega arith)
        (inl refl))

buckets_of-none : (n j : ℕ) (e : Entry) → In e (bucket_at j (buckets_of n)) → ⊥
buckets_of-none zero j e h = h
buckets_of-none (suc n) zero e h = h
buckets_of-none (suc n) (suc j) e h = buckets_of-none n j e h

length-buckets_of : (m : ℕ) → length (buckets_of m) ≡ m
length-buckets_of zero = refl
length-buckets_of (suc m) = ap suc (length-buckets_of m)

pub new_wheel-Shaped : (n : ℕ) → Shaped n (new_wheel n).wheels
unfolding new_wheel
new_wheel-Shaped n = record {
  sizes = λ i. length-buckets_of n;
  levels = λ i j e h. absurd (buckets_of-none n j e h);
}

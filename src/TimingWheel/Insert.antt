-- ===== src/TimingWheel/Insert.antt =====
-- What an insertion puts on the agenda.
use trantor.Prelude.{
  ℕ, zero, suc, ◌+◌, ◌-◌, ◌*◌, ◌/◌, ◌%◌, ◌^◌, ◌≤◌, ◌<◌, ◌≡◌, ◌↔◌, ◌⊎◌, inl, inr, refl, ap, subst,
  ◌∙◌, true, leb, ltb, arith, Bool-cases,
}
use native.Mathlib.Nat.{
  mod-lt, div-add-mod', div-lt_iff_lt-mul, le-div_iff_mul-le, pow-zero, pow-suc,
}
use trantor.TimingWheel.{Entry, held, callback, TimingWheel, put, insert_loop, insert_entry_inloop}
use trantor.TimingWheel.Counts.{count}
use trantor.TimingWheel.Agenda.{id_of, Level, due, On, Shaped, placed-Shaped, On-placed, placed-On}

-- `w'` has one entry more on its agenda than `w`.
pub record Adds (n wheels_num : ℕ) (cs : ℕ → ℕ) (k c : ℕ) (w w' : TimingWheel) : Type 0 where
  pub shaped : Shaped n w'.wheels
  pub same_ticks : w'.ticks_counter ≡ w.ticks_counter
  pub same_gone : w'.gone ≡ w.gone
  pub agenda :
      (m d : ℕ)
      → On n wheels_num cs w'.wheels m d ↔ (On n wheels_num cs w.wheels m d ⊎ (k ≡ m) × (c ≡ d))

module _ (n wheels_num : ℕ) where
  put-Adds :
      (i j : ℕ) (e : Entry) (w : TimingWheel) (cs : ℕ → ℕ)
      → Shaped n w.wheels
      → i < wheels_num
      → j < n
      → Level i e
      → Adds n wheels_num cs (id_of e) (due n (cs i + suc j) e) w (put i j e w)
  put-Adds i j e w cs s low h level = record {
    shaped = placed-Shaped n wheels_num i j e w.wheels s h level;
    same_ticks = refl;
    same_gone = refl;
    agenda = λ m d. (
      On-placed n wheels_num i j e w.wheels s h cs m d low,
      placed-On n wheels_num i j e w.wheels s h cs m d low,
    );
  }

  module _ (more : 0 < n) where
    -- The delay on the next wheel.
    later_le : (delay t x : ℕ) → delay ≤ x * n → (delay + t % n - 1) / n ≤ x
    later_le delay t x h =
        let r = mod-lt t more in
        let (_, small) = div-lt_iff_lt-mul {k = n} {x = delay + t % n - 1} {y = suc x} more in
        let b : delay + t % n - 1 < suc x * n = omega arith in let l = small b in omega arith

    later_pos : (delay t : ℕ) → n < delay → 0 < (delay + t % n - 1) / n
    later_pos delay t h =
        let (_, big) = le-div_iff_mul-le {k = n} {x = 1} {y = delay + t % n - 1} more in
        big (omega arith)

    -- A closure is called when there are as many ticks left as the delay had beyond whole turns.
    later_due :
        (delay t : ℕ)
        → 0 < delay
        → (t / n + (delay + t % n - 1) / n) * n + suc ((delay + t % n - 1) % n) ≡ t + delay
    later_due delay t h =
        let a = div-add-mod' t n in let b = div-add-mod' (delay + t % n - 1) n in omega arith

    here-Adds :
        (i delay c : ℕ) (e : Entry) (w : TimingWheel) (cs : ℕ → ℕ)
        → Shaped n w.wheels
        → i < wheels_num
        → 0 < delay
        → delay ≤ n
        → Level i e
        → due n (cs i + delay) e ≡ c
        → Adds n wheels_num cs (id_of e) c w (put i (delay - 1) e w)
    here-Adds i delay c e w cs s low pos h level time =
        let d : suc (delay - 1) ≡ delay = omega arith in
        subst (λ c. Adds n wheels_num cs (id_of e) c w (put i (delay - 1) e w))
          (ap (λ d. due n (cs i + d) e) d ∙ time)
          (put-Adds i (delay - 1) e w cs s low (omega arith) level)

    insert_loop-Adds :
        (left i delay ticks c : ℕ) (e : Entry) (w : TimingWheel)
        → Shaped n w.wheels
        → i + left ≡ wheels_num
        → 0 < delay
        → delay ≤ n ^ left
        → 0 < left
        → Level i e
        → due n (count n i ticks + delay) e ≡ c
        → Adds n wheels_num
            (λ p. count n p ticks)
            (id_of e)
            c
            w
            (insert_loop n wheels_num left i delay (count n i ticks) e w)
    unfolding insert_loop
    insert_loop-Adds zero i delay ticks c e w s sum pos small some_left level time =
        absurd (omega arith)
    insert_loop-Adds (suc zero) i delay ticks c e w s sum pos small some_left level time =
        let p : n ^ 1 ≡ n ^ 0 * n = pow-suc n 0 in
        let q : n ^ 0 ≡ 1 = pow-zero n in
        let r : n ^ 0 * n ≡ n = ap (λ x. x * n) q ∙ omega arith in
        let fits : leb delay n ≡ true = ground arith in
        rw fits (
          here-Adds i delay c e w (λ p. count n p ticks) s (omega arith) pos (ground arith) level
            time)
    insert_loop-Adds (suc (suc left)) i delay ticks c e w s sum pos small some_left level time =
        elim (Bool-cases (leb delay n)) [
          | inl fits ↦ rw fits (
              here-Adds i delay c e w (λ p. count n p ticks) s (omega arith) pos (ground arith)
                level time)
          | inr long ↦
              let t = count n i ticks in
              let go_on : ltb 0 (suc left) ≡ true = ground arith in
              rw (long, go_on)
                (insert_loop-Adds (suc left) (suc i) ((delay + t % n - 1) / n) ticks c
                  (callback delay i t e) w s (omega arith) (later_pos delay t (ground arith))
                  (later_le delay t (n ^ suc left)
                    (subst (λ x. delay ≤ x) (pow-suc n (suc left)) small))
                  (omega arith) (refl, pos, level)
                  (ap (λ a. due n a e) (later_due delay t pos) ∙ time))
        ]

    -- A new entry of a user is on the agenda for as many ticks later as its delay says, when the wheels
    -- have so many, and nothing else on the agenda is changed.
    pub insert_entry_inloop-Adds :
        (delay k : ℕ) (w : TimingWheel)
        → Shaped n w.wheels
        → 0 < wheels_num
        → 0 < delay
        → delay ≤ n ^ wheels_num
        → Adds n wheels_num
            (λ p. count n p w.ticks_counter)
            k
            (w.ticks_counter + delay)
            w
            (insert_entry_inloop n wheels_num delay k w)
    unfolding insert_entry_inloop
    insert_entry_inloop-Adds delay k w s some_wheels pos small =
        insert_loop-Adds wheels_num 0 delay w.ticks_counter (w.ticks_counter + delay) (held k) w s
          (omega arith) pos small some_wheels tt refl

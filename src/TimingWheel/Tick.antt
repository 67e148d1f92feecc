-- ===== src/TimingWheel/Tick.antt =====
-- What a tick does.
use trantor.Prelude.{
  ℕ, zero, suc, ◌+◌, ◌-◌, ◌*◌, ◌%◌, ◌^◌, ◌≤◌, ◌<◌, ◌≡◌, ◌≢◌, inl, inr, refl, sym, ap, subst, ◌∙◌,
  List, ◌==◌, arith, update_same, update_other, same_or_not, Bool-cases,
}
use native.Mathlib.Nat.{mul-pos, div-lt_iff_lt-mul, pow-zero, pow-suc}
use trantor.TimingWheel.{Entry, held, callback, front, TimingWheel, turn_wheel, tick_loop}
use trantor.TimingWheel.Counts.{count, count-carry, count-still, count-rounds}
use trantor.TimingWheel.Buckets.{In}
use trantor.TimingWheel.Agenda.{Level, due, On, Shaped, Due, On-same}
use trantor.TimingWheel.Turn.{turned, one_more, front_bucket, turned-Shaped, On-turned, turned-On}
use trantor.TimingWheel.Destroy.{closures_put}

-- The agenda is the same, though wheels have turned.
pub record Advances (n wheels_num : ℕ) (cs ds : ℕ → ℕ) (w w' : TimingWheel) : Type 0 where
  pub shaped : Shaped n w'.wheels
  pub same_ticks : w'.ticks_counter ≡ w.ticks_counter
  pub same_gone : w'.gone ≡ w.gone
  pub there : (k c : ℕ) → On n wheels_num cs w.wheels k c → On n wheels_num ds w'.wheels k c
  pub back : (k c : ℕ) → On n wheels_num ds w'.wheels k c → On n wheels_num cs w.wheels k c

pub pow_pos : (n i : ℕ) → 0 < n → 0 < n ^ i
pow_pos n zero h = let e = pow-zero n in omega arith
pow_pos n (suc i) h = let e = pow-suc n i in let p = mul-pos (pow_pos n i h) h in omega arith

module _ (n wheels_num : ℕ) (more : 0 < n) where
  Advances-then :
      (cs ds es : ℕ → ℕ) (u v w : TimingWheel)
      → Advances n wheels_num cs ds u v
      → Advances n wheels_num ds es v w
      → Advances n wheels_num cs es u w
  Advances-then cs ds es u v w a b = record {
    shaped = b.shaped;
    same_ticks = b.same_ticks ∙ a.same_ticks;
    same_gone = b.same_gone ∙ a.same_gone;
    there = λ k c o. b.there k c (a.there k c o);
    back = λ k c o. a.back k c (b.back k c o);
  }

  -- The front of a wheel, of entries of the wheel.
  pub front_levels :
      (i : ℕ) (ws : ℕ → List (List Entry))
      → Shaped n ws
      → (e : Entry) → In e (front (ws i))
      → Level i e
  front_levels i ws s e h = s.levels i 0 e (subst (In e) (sym (front_bucket (ws i))) h)

  -- A turn of a wheel that is not the lowest one.
  turn_wheel-Advances :
      (i : ℕ) (w : TimingWheel) (cs : ℕ → ℕ)
      → Shaped n w.wheels
      → suc i < wheels_num
      → cs i ≡ suc (cs (suc i)) * n
      → Advances n wheels_num cs (one_more (suc i) cs) w (turn_wheel n wheels_num (suc i) w)
  unfolding turn_wheel
  turn_wheel-Advances i w cs s low same =
      let r =
        closures_put n wheels_num more i (suc (cs (suc i))) (front (w.wheels (suc i)))
          (record w { wheels = turned (suc i) w.wheels }) (one_more (suc i) cs)
          (turned-Shaped n wheels_num (suc i) w.wheels s more) (omega arith)
          (front_levels (suc i) w.wheels s)
          (update_other cs (suc i) (suc (cs (suc i))) i (λ h. absurd (omega arith)) ∙ same) in
      record {
        shaped = r.shaped;
        same_ticks = r.same_ticks;
        same_gone = r.same_gone;
        there = λ k c o. r.back k c (On-turned n wheels_num (suc i) w.wheels s more cs k c o);
        back = λ k c o. turned-On n wheels_num (suc i) w.wheels s more cs k c low (r.there k c o);
      }

  up_to :
      (cs : ℕ → ℕ) (i t : ℕ)
      → ((p : ℕ) → p ≤ i → cs p ≡ count n p t)
      → cs (suc i) ≡ count n (suc i) t
      → (p : ℕ) → p ≤ suc i
      → cs p ≡ count n p t
  up_to cs i t below same p h = elim (same_or_not (suc i) p) [
    | inl e ↦ subst (λ p. cs p ≡ count n p t) e same
    | inr other ↦ below p (let z : p ≢ suc i = (λ f. other (sym f)) in omega arith)
  ]

  pub tick_loop-Advances :
      (left i t : ℕ) (cs : ℕ → ℕ) (w : TimingWheel)
      → Shaped n w.wheels
      → w.ticks_counter ≡ suc t
      → suc i + left ≡ wheels_num
      → ((p : ℕ) → p ≤ i → cs p ≡ count n p (suc t))
      → ((p : ℕ) → i < p → cs p ≡ count n p t)
      → Advances n wheels_num cs
          (λ p. count n p (suc t))
          w
          (tick_loop n wheels_num left (suc i) (n ^ suc i) w)
  unfolding tick_loop
  tick_loop-Advances zero i t cs w s at sum below above = record {
    shaped = s;
    same_ticks = refl;
    same_gone = refl;
    there = λ k c o.
        On-same n wheels_num cs (λ p. count n p (suc t)) w.wheels k c (λ p h. below p (omega arith))
          o;
    back = λ k c o.
        On-same n wheels_num (λ p. count n p (suc t)) cs w.wheels k c
          (λ p h. sym (below p (omega arith))) o;
  }
  tick_loop-Advances (suc left) i t cs w s at sum below above =
      elim (Bool-cases (w.ticks_counter % n ^ suc i == 0)) [
        | inr still ↦
            let rest : 0 < suc t % n ^ suc i = subst (λ a. 0 < a % n ^ suc i) at (ground arith) in
            let same =
              above (suc i) (omega arith)
              ∙ sym (count-still n (suc i) t (pow_pos n (suc i) more) rest) in
            rw (still, sym (pow-suc n (suc i)))
              (tick_loop-Advances left (suc i) t cs w s at (omega arith)
                (up_to cs i (suc t) below same) (λ p h. above p (omega arith)))
        | inl turns ↦
            let none_left : suc t % n ^ suc i ≡ 0 =
              subst (λ a. a % n ^ suc i ≡ 0) at (ground arith) in
            let now = above (suc i) (omega arith) in
            let next : count n (suc i) (suc t) ≡ suc (cs (suc i)) =
              count-carry n (suc i) t (pow_pos n (suc i) more) none_left ∙ ap suc (sym now) in
            let rounds : cs i ≡ suc (cs (suc i)) * n =
              below i (omega arith)
              ∙ sym (count-rounds n i (suc t) more (pow_pos n i more) none_left)
              ∙ ap (λ a. a * n) next in
            let a = turn_wheel-Advances i w cs s (omega arith) rounds in
            let ds = one_more (suc i) cs in
            let b =
              tick_loop-Advances left (suc i) t ds (turn_wheel n wheels_num (suc i) w) a.shaped
                (a.same_ticks ∙ at) (omega arith)
                (up_to ds i (suc t)
                  (λ p h.
                    update_other cs (suc i) (suc (cs (suc i))) p (λ e. absurd (omega arith))
                    ∙ below p h)
                  (update_same cs (suc i) (suc (cs (suc i))) ∙ sym next))
                (λ p h.
                  update_other cs (suc i) (suc (cs (suc i))) p (λ e. absurd (omega arith))
                  ∙ above p (omega arith)) in
            rw (turns, sym (pow-suc n (suc i)))
              (Advances-then cs ds (λ p. count n p (suc t)) w (turn_wheel n wheels_num (suc i) w) _
                a b)
      ]

  -- What is on the agenda is still to come.
  ahead : (i t turns : ℕ) (e : Entry) → Level i e → count n i t < turns → t < due n turns e
  ahead zero t turns (held k) level h = h
  ahead zero t turns (callback delay m u e) level h = absurd level
  ahead (suc i) t turns (held k) level h = absurd level
  ahead (suc i) t turns (callback delay m u e) (at, pos, level) h =
      let (more_ticks, _) = div-lt_iff_lt-mul {k = n} {x = count n i t} {y = turns} more in
      let b = more_ticks h in
      ahead i t (turns * n + suc ((delay + u % n - 1) % n)) e level (omega arith)

  pub agenda_ahead :
      (t k c : ℕ) (ws : ℕ → List (List Entry))
      → Shaped n ws
      → On n wheels_num (λ p. count n p t) ws k c
      → t < c
  agenda_ahead t k c ws s o =
      subst (λ c. t < c) o.time
        (ahead o.i t (count n o.i t + suc o.j) o.e (s.levels o.i o.j o.e o.there) (omega arith))

  pub Due-turns :
      (turns k c : ℕ) (bucket : List Entry)
      → ((e : Entry) → In e bucket → Level 0 e)
      → Due n turns bucket k c
      → turns ≡ c
  Due-turns turns k c bucket levels d = user d.e (levels d.e d.there) d.time
    where
      user : (e : Entry) → Level 0 e → due n turns e ≡ c → turns ≡ c
      user (held x) level time = time
      user (callback delay m t e) level time = absurd level

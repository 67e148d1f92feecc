-- ===== src/TimingWheel/Round.antt =====
-- The first wheel of a tick, and the others behind it.
use trantor.Prelude.{
  ℕ, suc, ◌*◌, ◌%◌, ◌^◌, ◌<◌, ◌≡◌, ◌≢◌, ◌↔◌, ◌⊎◌, inl, inr, refl, sym, ap, subst, ◌∙◌, true, ◌==◌,
  arith, update_same, update_other,
}
use native.Mathlib.Nat.{pow-zero, pow-suc}
use trantor.TimingWheel.{TimingWheel, front, turn_wheel, destroy_all, tick_loop, tick}
use trantor.TimingWheel.Counts.{count}
use trantor.TimingWheel.Buckets.{In}
use trantor.TimingWheel.Agenda.{On, Shaped, Due}
use trantor.TimingWheel.Turn.{turned, one_more, turned-Shaped, On-turned, turned-On}
use trantor.TimingWheel.Destroy.{LetsGo, users_gone}
use trantor.TimingWheel.Tick.{Advances, front_levels, tick_loop-Advances, agenda_ahead, Due-turns}

-- The wheel lets the entry `k` go at the tick `c`.
abbrev pub Agenda : ℕ → ℕ → TimingWheel → ℕ → ℕ → Type 0
Agenda n wheels_num w k c = On n wheels_num (λ p. count n p w.ticks_counter) w.wheels k c

-- `w'` is `w` one tick later: what was due is gone, with its tick, and all else is on the agenda as before.
pub record Ticks (n wheels_num : ℕ) (w w' : TimingWheel) : Type 0 where
  pub shaped : Shaped n w'.wheels
  pub counter : w'.ticks_counter ≡ suc w.ticks_counter
  pub kept :
      (k c : ℕ)
      → Agenda n wheels_num w' k c ↔ (Agenda n wheels_num w k c × (c ≢ suc w.ticks_counter))
  pub gone :
      (t k : ℕ)
      → In (t, k) w'.gone ↔ (
          In (t, k) w.gone
          ⊎ (t ≡ suc w.ticks_counter) × Agenda n wheels_num w k (suc w.ticks_counter))

module _ (n : ℕ) (more : 0 < n) where
  module _ (left : ℕ) (w : TimingWheel) (s : Shaped n w.wheels) where
    abbrev first : TimingWheel
    first =
        destroy_all n (suc left) (front (w.wheels 0))
          (record w { wheels = turned 0 w.wheels; ticks_counter = suc w.ticks_counter })

    let_go :
        LetsGo n
          (suc w.ticks_counter)
          (front (w.wheels 0))
          (record w { wheels = turned 0 w.wheels; ticks_counter = suc w.ticks_counter })
          first
    let_go =
        users_gone n (suc left) more (suc w.ticks_counter) (front (w.wheels 0)) _
          (front_levels n (suc left) more 0 w.wheels s)

    abbrev counts : ℕ → ℕ
    counts p = count n p w.ticks_counter

    first-Shaped : Shaped n first.wheels
    first-Shaped =
        subst (Shaped n) (sym let_go.same_wheels) (turned-Shaped n (suc left) 0 w.wheels s more)

    rest :
        Advances n
          (suc left)
          (one_more 0 counts)
          (λ p. count n p (suc w.ticks_counter))
          first
          (tick_loop n (suc left) left 1 (n ^ 1) first)
    rest =
        tick_loop-Advances n (suc left) more left 0 w.ticks_counter (one_more 0 counts) first
          first-Shaped let_go.same_ticks (omega arith)
          (λ p h.
            let z : 0 ≡ p = omega arith in
            subst (λ p. one_more 0 counts p ≡ count n p (suc w.ticks_counter)) z
              (update_same counts 0 (suc w.ticks_counter)))
          (λ p h. update_other counts 0 (suc (counts 0)) p (λ e. absurd (omega arith)))

    pub tick-first : tick n (suc left) w ≡ tick_loop n (suc left) left 1 (n ^ 1) first
    unfolding tick tick_loop turn_wheel
    tick-first =
        let always : (suc w.ticks_counter % 1 == 0) ≡ true = ground arith in
        let p : n ^ 1 ≡ 1 * n = pow-suc n 0 ∙ ap (λ a. a * n) (pow-zero n) in rw (always, p) refl

    -- What is on the agenda of the tick is what the lowest wheel has in its front, and that is all it has there.
    front_turn :
        (k c : ℕ) → Due n (suc w.ticks_counter) (front (w.wheels 0)) k c → suc w.ticks_counter ≡ c
    front_turn k c d =
        Due-turns n (suc left) more (suc w.ticks_counter) k c (front (w.wheels 0))
          (front_levels n (suc left) more 0 w.wheels s) d

    to_front :
        (k c : ℕ)
        → On n (suc left) (one_more 0 counts) (turned 0 w.wheels) k c
        → On n (suc left) (one_more 0 counts) first.wheels k c
    to_front k c o =
        subst (λ ws. On n (suc left) (one_more 0 counts) ws k c) (sym let_go.same_wheels) o

    from_front :
        (k c : ℕ)
        → On n (suc left) (one_more 0 counts) first.wheels k c
        → On n (suc left) (one_more 0 counts) (turned 0 w.wheels) k c
    from_front k c o = subst (λ ws. On n (suc left) (one_more 0 counts) ws k c) let_go.same_wheels o

    abbrev last : TimingWheel
    last = tick_loop n (suc left) left 1 (n ^ 1) first

    last_counter : last.ticks_counter ≡ suc w.ticks_counter
    last_counter = rest.same_ticks ∙ let_go.same_ticks

    at_last :
        (k c : ℕ)
        → On n (suc left) (λ p. count n p (suc w.ticks_counter)) last.wheels k c
        → Agenda n (suc left) last k c
    at_last k c = subst (λ t. On n (suc left) (λ p. count n p t) last.wheels k c) (sym last_counter)

    from_last :
        (k c : ℕ)
        → Agenda n (suc left) last k c
        → On n (suc left) (λ p. count n p (suc w.ticks_counter)) last.wheels k c
    from_last k c = subst (λ t. On n (suc left) (λ p. count n p t) last.wheels k c) last_counter

    agenda_of_front :
        (k : ℕ)
        → Due n (suc w.ticks_counter) (front (w.wheels 0)) k (suc w.ticks_counter)
        → Agenda n (suc left) w k (suc w.ticks_counter)
    agenda_of_front k d =
        turned-On n (suc left) 0 w.wheels s more counts k (suc w.ticks_counter) (omega arith)
          (inr d)

    -- Nothing behind the tick is due at it.
    not_now :
        (k c : ℕ)
        → On n (suc left) (one_more 0 counts) (turned 0 w.wheels) k c
        → c ≢ suc w.ticks_counter
    not_now k c o e =
        let b =
          agenda_ahead n (suc left) more (suc w.ticks_counter) k c last.wheels rest.shaped
            (rest.there k c (to_front k c o)) in
        omega arith

    front_of_agenda :
        (k : ℕ)
        → Agenda n (suc left) w k (suc w.ticks_counter)
        → Due n (suc w.ticks_counter) (front (w.wheels 0)) k (suc w.ticks_counter)
    front_of_agenda k o =
        elim (On-turned n (suc left) 0 w.wheels s more counts k (suc w.ticks_counter) o) [
          | inl p ↦ absurd (not_now k (suc w.ticks_counter) p refl)
          | inr d ↦ d
        ]

    pub last-Ticks : Ticks n (suc left) w last
    last-Ticks = record {
      shaped = rest.shaped;
      counter = last_counter;
      kept = λ k c. (
        (λ o.
            let p = from_front k c (rest.back k c (from_last k c o)) in
            (
              turned-On n (suc left) 0 w.wheels s more counts k c (omega arith) (inl p),
              not_now k c p,
            )),
        λ h. elim (On-turned n (suc left) 0 w.wheels s more counts k c (h.0)) [
          | inl p ↦ at_last k c (rest.there k c (to_front k c p))
          | inr d ↦ absurd ((h.1) (sym (front_turn k c d)))
        ],
      );
      gone = λ t k. (
        λ h. elim (let_go.there t k (subst (λ g. In (t, k) g) rest.same_gone h)) [
          | inl g ↦ inl g
          | inr (at, d) ↦ inr (at, agenda_of_front k d)
        ],
        λ h.
            subst (λ g. In (t, k) g) (sym rest.same_gone)
              (let_go.back t k
                (elim h [ inl g ↦ inl g | inr (at, o) ↦ inr (at, front_of_agenda k o) ])),
      );
    }

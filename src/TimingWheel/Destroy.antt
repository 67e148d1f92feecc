-- ===== src/TimingWheel/Destroy.antt =====
-- What the end of a bucket does.
use trantor.Prelude.{
  ℕ, suc, ◌+◌, ◌-◌, ◌*◌, ◌%◌, ◌<◌, ◌≡◌, ◌⊎◌, inl, inr, refl, sym, ap, subst, ◌∙◌, true, List, [],
  ◌∷◌, ltb, arith,
}
use native.Mathlib.Nat.{mod-lt}
use trantor.TimingWheel.{Entry, held, callback, TimingWheel, put, destroy, destroy_all}
use trantor.TimingWheel.Buckets.{In}
use trantor.TimingWheel.Agenda.{
  id_of, Level, due, On, Shaped, Due, placed-Shaped, On-placed, placed-On,
}

-- The closures of a bucket that is let go in the turn `turns` of its wheel put their entries on the
-- wheel below.
pub record Returns (n wheels_num : ℕ) (cs : ℕ → ℕ) (turns : ℕ) (bucket : List Entry)
    (w w' : TimingWheel) : Type 0 where
  pub shaped : Shaped n w'.wheels
  pub same_ticks : w'.ticks_counter ≡ w.ticks_counter
  pub same_gone : w'.gone ≡ w.gone
  pub there :
      (k c : ℕ)
      → On n wheels_num cs w'.wheels k c
      → On n wheels_num cs w.wheels k c ⊎ Due n turns bucket k c
  pub back :
      (k c : ℕ)
      → On n wheels_num cs w.wheels k c ⊎ Due n turns bucket k c
      → On n wheels_num cs w'.wheels k c

-- The entries of users in a bucket are gone.
pub record LetsGo (n turns : ℕ) (bucket : List Entry) (w w' : TimingWheel) : Type 0 where
  pub same_wheels : w'.wheels ≡ w.wheels
  pub same_ticks : w'.ticks_counter ≡ w.ticks_counter
  pub there :
      (t k : ℕ)
      → In (t, k) w'.gone
      → In (t, k) w.gone ⊎ (t ≡ w.ticks_counter) × Due n turns bucket k turns
  pub back :
      (t k : ℕ)
      → In (t, k) w.gone ⊎ (t ≡ w.ticks_counter) × Due n turns bucket k turns
      → In (t, k) w'.gone

module _ (n turns : ℕ) (e : Entry) (bucket : List Entry) (k c : ℕ) where
  Due-rest : Due n turns bucket k c → Due n turns (e ∷ bucket) k c
  Due-rest d = record { e = d.e; there = inr d.there; id = d.id; time = d.time }

  Due-first : id_of e ≡ k → due n turns e ≡ c → Due n turns (e ∷ bucket) k c
  Due-first id time = record { e = e; there = inl refl; id = id; time = time }

  Due-split :
      Due n turns (e ∷ bucket) k c → Due n turns bucket k c ⊎ (id_of e ≡ k) × (due n turns e ≡ c)
  Due-split d = elim (d.there) [
    | inl same ↦ inr (ap id_of (sym same) ∙ d.id, ap (due n turns) (sym same) ∙ d.time)
    | inr more ↦ inl (record { e = d.e; there = more; id = d.id; time = d.time })
  ]

Due-none : (n turns k c : ℕ) → Due n turns [] k c → ⊥
Due-none n turns k c d = d.there

module _ (n wheels_num : ℕ) (more : 0 < n) where
  pub closures_put :
      (i turns : ℕ) (bucket : List Entry) (w : TimingWheel) (cs : ℕ → ℕ)
      → Shaped n w.wheels
      → i < wheels_num
      → ((e : Entry) → In e bucket → Level (suc i) e)
      → cs i ≡ turns * n
      → Returns n wheels_num cs turns bucket w (destroy_all n wheels_num bucket w)
  unfolding destroy_all
  closures_put i turns [] w cs s low levels same = record {
    shaped = s;
    same_ticks = refl;
    same_gone = refl;
    there = λ k c o. inl o;
    back = λ k c h. elim h [ inl o ↦ o | inr d ↦ absurd (Due-none n turns k c d) ];
  }
  closures_put i turns (held k ∷ bucket) w cs s low levels same =
      absurd (levels (held k) (inl refl))
  closures_put i turns (callback delay m t e ∷ bucket) w cs s low levels same =
      let (at, pos, level) = levels (callback delay m t e) (inl refl) in
      let j = (delay + t % n - 1) % n in
      let in_range : j < n = mod-lt (delay + t % n - 1) more in
      let low' : m < wheels_num = omega arith in
      let set : ltb 0 delay ≡ true = ground arith in
      let level' : Level m e = subst (λ m. Level m e) (sym at) level in
      let when : cs m + suc j ≡ turns * n + suc j = ap (λ a. a + suc j) (ap cs at ∙ same) in
      let r =
        closures_put i turns bucket (put m j e w) cs
          (placed-Shaped n wheels_num m j e w.wheels s in_range level') low
          (λ f h. levels f (inr h)) same in
      rw set (record {
        shaped = r.shaped;
        same_ticks = r.same_ticks;
        same_gone = r.same_gone;
        there = λ k c o. elim (r.there k c o) [
          | inr d ↦ inr (Due-rest n turns (callback delay m t e) bucket k c d)
          | inl p ↦ elim (On-placed n wheels_num m j e w.wheels s in_range cs k c low' p) [
            | inl q ↦ inl q
            | inr (id, time) ↦ inr (
                Due-first n turns (callback delay m t e) bucket k c id
                  (ap (λ a. due n a e) (sym when) ∙ time))
          ]
        ];
        back = λ k c h. r.back k c (elim h [
          | inl o ↦ inl (placed-On n wheels_num m j e w.wheels s in_range cs k c low' (inl o))
          | inr d ↦ elim (Due-split n turns (callback delay m t e) bucket k c d) [
            | inl d' ↦ inr d'
            | inr (id, time) ↦ inl (
                placed-On n wheels_num m j e w.wheels s in_range cs k c low'
                  (inr (id, ap (λ a. due n a e) when ∙ time)))
          ]
        ]);
      })

  pub users_gone :
      (turns : ℕ) (bucket : List Entry) (w : TimingWheel)
      → ((e : Entry) → In e bucket → Level 0 e)
      → LetsGo n turns bucket w (destroy_all n wheels_num bucket w)
  unfolding destroy_all
  users_gone turns [] w levels = record {
    same_wheels = refl;
    same_ticks = refl;
    there = λ t k h. inl h;
    back = λ t k h. elim h [ inl g ↦ g | inr (_, d) ↦ absurd (Due-none n turns k turns d) ];
  }
  users_gone turns (callback delay m t e ∷ bucket) w levels =
      absurd (levels (callback delay m t e) (inl refl))
  users_gone turns (held x ∷ bucket) w levels =
      let r = users_gone turns bucket (destroy n wheels_num (held x) w) (λ f h. levels f (inr h)) in
      record {
        same_wheels = r.same_wheels;
        same_ticks = r.same_ticks;
        there = λ t k h. elim (r.there t k h) [
          | inr (at, d) ↦ inr (at, Due-rest n turns (held x) bucket k turns d)
          | inl (inl same) ↦ inr (
            ap (λ p. p.0) same,
            Due-first n turns (held x) bucket k turns (ap (λ p. p.1) (sym same)) refl,
          )
          | inl (inr g) ↦ inl g
        ];
        back = λ t k h. r.back t k (elim h [
          | inl g ↦ inl (inr g)
          | inr (at, d) ↦ elim (Due-split n turns (held x) bucket k turns d) [
            | inl d' ↦ inr (at, d')
            | inr (id, _) ↦
                inl (inl (ap (λ a. (a, k)) at ∙ ap (λ b. (w.ticks_counter, b)) (sym id)))
          ]
        ]);
      }

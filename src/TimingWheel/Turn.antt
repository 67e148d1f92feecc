-- ===== src/TimingWheel/Turn.antt =====
-- What one turn of a wheel does to the agenda.
use trantor.Prelude.{
  ℕ, zero, suc, ◌+◌, ◌<◌, ◌≡◌, ◌⊎◌, inl, inr, refl, sym, ap, subst, ◌∙◌, List, [], ◌∷◌, arith,
  length, update, update_same, update_other, same_or_not,
}
use trantor.TimingWheel.{Entry, front, turn}
use trantor.TimingWheel.Buckets.{In, bucket_at, length-turn, turn-In}
use trantor.TimingWheel.Agenda.{
  id_of, Level, due, On, Shaped, Due, at_same, back_same, at_other, back_other,
}

pub front_bucket : (bs : List (List Entry)) → bucket_at 0 bs ≡ front bs
front_bucket [] = refl
front_bucket (b ∷ bs) = refl

-- The wheels behind a turn.
abbrev pub turned : ℕ → (ℕ → List (List Entry)) → ℕ → List (List Entry)
turned i ws = update ws i (turn (ws i))

-- The turns of the wheels, one more of the wheel `i`.
abbrev pub one_more : ℕ → (ℕ → ℕ) → ℕ → ℕ
one_more i cs = update cs i (suc (cs i))

module _ (n wheels_num : ℕ) where
  module _ (i : ℕ) (ws : ℕ → List (List Entry)) (s : Shaped n ws) (more : 0 < n) where
    pub turned-Shaped : Shaped n (turned i ws)
    turned-Shaped = record {
      sizes = λ p. elim (same_or_not i p) [
        | inl same ↦
            subst (λ p. length (turned i ws p) ≡ n) same
              (ap length (update_same ws i (turn (ws i))) ∙ length-turn n (ws i) (s.sizes i) more)
        | inr other ↦ ap length (update_other ws i (turn (ws i)) p other) ∙ s.sizes p
      ];
      levels = λ p m f g. elim (same_or_not i p) [
        | inr other ↦ s.levels p m f (at_other ws i (turn (ws i)) p m f other g)
        | inl same ↦
            let g' =
              at_same ws i (turn (ws i)) m f
                (subst (λ p. In f (bucket_at m (turned i ws p))) (sym same) g) in
            let (there, _) = turn-In m f (ws i) in
            subst (λ p. Level p f) same (s.levels i (suc m) f (there g'))
      ];
    }

    pub On-turned :
        (cs : ℕ → ℕ) (k c : ℕ)
        → On n wheels_num cs ws k c
        → On n wheels_num (one_more i cs) (turned i ws) k c ⊎ Due n (suc (cs i)) (front (ws i)) k c
    On-turned cs k c o = elim (same_or_not i o.i) [
      | inr other ↦ inl (record {
        i = o.i;
        j = o.j;
        e = o.e;
        low = o.low;
        there = back_other ws i (turn (ws i)) o.i o.j o.e other o.there;
        id = o.id;
        time =
            ap (λ a. due n (a + suc o.j) o.e) (update_other cs i (suc (cs i)) o.i other) ∙ o.time;
      })
      | inl same ↦
          let there = subst (λ p. In o.e (bucket_at o.j (ws p))) (sym same) o.there in
          let time : due n (cs i + suc o.j) o.e ≡ c =
            ap (λ p. due n (cs p + suc o.j) o.e) same ∙ o.time in
          here o.j o.e (subst (λ p. p < wheels_num) (sym same) o.low) there o.id time
    ]
      where
        here :
            (j : ℕ) (e : Entry)
            → i < wheels_num
            → In e (bucket_at j (ws i))
            → id_of e ≡ k
            → due n (cs i + suc j) e ≡ c
            → On n wheels_num (one_more i cs) (turned i ws) k c
              ⊎ Due n (suc (cs i)) (front (ws i)) k c
        here zero e low there id time = inr (record {
          e = e;
          there = subst (In e) (front_bucket (ws i)) there;
          id = id;
          time = (let a : suc (cs i) ≡ cs i + 1 = omega arith in ap (λ a. due n a e) a ∙ time);
        })
        here (suc j) e low there id time = inl (record {
          i = i;
          j = j;
          e = e;
          low = low;
          there =
              back_same ws i (turn (ws i)) j e (let (_, back) = turn-In j e (ws i) in back there);
          id = id;
          time =
              (let a : one_more i cs i + suc j ≡ cs i + suc (suc j) =
                  (let b = update_same cs i (suc (cs i)) in omega arith) in
                ap (λ a. due n a e) a ∙ time);
        })

    pub turned-On :
        (cs : ℕ → ℕ) (k c : ℕ)
        → i < wheels_num
        → On n wheels_num (one_more i cs) (turned i ws) k c ⊎ Due n (suc (cs i)) (front (ws i)) k c
        → On n wheels_num cs ws k c
    turned-On cs k c low (inr d) = record {
      i = i;
      j = 0;
      e = d.e;
      low = low;
      there = subst (In d.e) (sym (front_bucket (ws i))) d.there;
      id = d.id;
      time = (let a : cs i + 1 ≡ suc (cs i) = omega arith in ap (λ a. due n a d.e) a ∙ d.time);
    }
    turned-On cs k c low (inl o) = elim (same_or_not i o.i) [
      | inr other ↦ record {
        i = o.i;
        j = o.j;
        e = o.e;
        low = o.low;
        there = at_other ws i (turn (ws i)) o.i o.j o.e other o.there;
        id = o.id;
        time =
            ap (λ a. due n (a + suc o.j) o.e) (sym (update_other cs i (suc (cs i)) o.i other))
            ∙ o.time;
      }
      | inl same ↦
          let g =
            at_same ws i (turn (ws i)) o.j o.e
              (subst (λ p. In o.e (bucket_at o.j (turned i ws p))) (sym same) o.there) in
          let (there, _) = turn-In o.j o.e (ws i) in
          let time : due n (one_more i cs i + suc o.j) o.e ≡ c =
            ap (λ p. due n (one_more i cs p + suc o.j) o.e) same ∙ o.time in
          let a : cs i + suc (suc o.j) ≡ one_more i cs i + suc o.j =
            (let b = update_same cs i (suc (cs i)) in omega arith) in
          record {
            i = i;
            j = suc o.j;
            e = o.e;
            low = low;
            there = there g;
            id = o.id;
            time = ap (λ a. due n a o.e) a ∙ time;
          }
    ]

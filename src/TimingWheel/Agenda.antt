-- ===== src/TimingWheel/Agenda.antt =====
-- Which entry a wheel lets go at which tick.
use trantor.Prelude.{
  ℕ, zero, suc, ◌+◌, ◌-◌, ◌*◌, ◌%◌, ◌<◌, ◌≡◌, ◌≢◌, ◌⊎◌, inl, inr, refl, sym, ap, subst, ◌∙◌, List,
  arith, length, update, update_same, update_other, same_or_not,
}
use trantor.TimingWheel.{Entry, held, callback, insert_at}
use trantor.TimingWheel.Buckets.{In, bucket_at, length-insert_at, insert_at-In}

-- The entry of a user, in the closures around it.
abbrev pub id_of : Entry → ℕ
id_of (held k) = k
id_of (callback delay i t e) = id_of e

-- An entry of the wheel `i`: a closure of it puts an entry of the wheel below there.
abbrev pub Level : ℕ → Entry → Type 0
Level zero (held k) = Unit
Level zero (callback delay i t e) = ⊥
Level (suc i) (held k) = ⊥
Level (suc i) (callback delay m t e) = (m ≡ i) × (0 < delay) × Level i e

-- The tick at which the last closure is done, for an entry that its wheel lets go in its turn `c`.
abbrev pub due : ℕ → ℕ → Entry → ℕ
due n c (held k) = c
due n c (callback delay i t e) = due n (c * n + suc ((delay + t % n - 1) % n)) e

-- The wheels hold an entry of the user's pointer `k` that is due at `c`, when the turns of the wheels are `cs`.
pub record On (n wheels_num : ℕ) (cs : ℕ → ℕ) (ws : ℕ → List (List Entry)) (k c : ℕ) : Type 0 where
  pub i : ℕ
  pub j : ℕ
  pub e : Entry
  pub low : i < wheels_num
  pub there : In e (bucket_at j (ws i))
  pub id : id_of e ≡ k
  pub time : due n (cs i + suc j) e ≡ c

-- Every wheel has its buckets, and every entry is of its wheel.
pub record Shaped (n : ℕ) (ws : ℕ → List (List Entry)) : Type 0 where
  pub sizes : (i : ℕ) → length (ws i) ≡ n
  pub levels : (i j : ℕ) (e : Entry) → In e (bucket_at j (ws i)) → Level i e

-- A bucket has an entry that is due at `c`, when it is let go in the turn `turns` of its wheel.
pub record Due (n turns : ℕ) (bucket : List Entry) (k c : ℕ) : Type 0 where
  pub e : Entry
  pub there : In e bucket
  pub id : id_of e ≡ k
  pub time : due n turns e ≡ c

module _ (ws : ℕ → List (List Entry)) (i : ℕ) (v : List (List Entry)) where
  pub at_same : (m : ℕ) (f : Entry) → In f (bucket_at m (update ws i v i)) → In f (bucket_at m v)
  at_same m f = subst (λ b. In f (bucket_at m b)) (update_same ws i v)

  pub back_same : (m : ℕ) (f : Entry) → In f (bucket_at m v) → In f (bucket_at m (update ws i v i))
  back_same m f = subst (λ b. In f (bucket_at m b)) (sym (update_same ws i v))

  pub at_other :
      (p m : ℕ) (f : Entry)
      → i ≢ p
      → In f (bucket_at m (update ws i v p))
      → In f (bucket_at m (ws p))
  at_other p m f ne = subst (λ b. In f (bucket_at m b)) (update_other ws i v p ne)

  pub back_other :
      (p m : ℕ) (f : Entry)
      → i ≢ p
      → In f (bucket_at m (ws p))
      → In f (bucket_at m (update ws i v p))
  back_other p m f ne = subst (λ b. In f (bucket_at m b)) (sym (update_other ws i v p ne))

-- The wheels behind `put`.
abbrev pub placed : ℕ → ℕ → Entry → (ℕ → List (List Entry)) → ℕ → List (List Entry)
placed i j e ws = update ws i (insert_at j e (ws i))

module _ (n wheels_num : ℕ) where
  pub On-same :
      (cs ds : ℕ → ℕ) (ws : ℕ → List (List Entry)) (k c : ℕ)
      → ((i : ℕ) → i < wheels_num → cs i ≡ ds i)
      → On n wheels_num cs ws k c
      → On n wheels_num ds ws k c
  On-same cs ds ws k c same o = record {
    i = o.i;
    j = o.j;
    e = o.e;
    low = o.low;
    there = o.there;
    id = o.id;
    time = ap (λ a. due n (a + suc o.j) o.e) (sym (same o.i o.low)) ∙ o.time;
  }

  module _ (i j : ℕ) (e : Entry) (ws : ℕ → List (List Entry)) (s : Shaped n ws) (h : j < n) where
    inside : j < length (ws i)
    inside = let l = s.sizes i in omega arith

    pub placed-Shaped : Level i e → Shaped n (placed i j e ws)
    placed-Shaped level = record {
      sizes = λ p. elim (same_or_not i p) [
        | inl same ↦
            subst (λ p. length (placed i j e ws p) ≡ n) same
              (ap length (update_same ws i (insert_at j e (ws i)))
                ∙ length-insert_at j e (ws i)
                ∙ s.sizes i)
        | inr other ↦ ap length (update_other ws i (insert_at j e (ws i)) p other) ∙ s.sizes p
      ];
      levels = λ p m f g. elim (same_or_not i p) [
        | inr other ↦ s.levels p m f (at_other ws i (insert_at j e (ws i)) p m f other g)
        | inl same ↦
            let g' =
              at_same ws i (insert_at j e (ws i)) m f
                (subst (λ p. In f (bucket_at m (placed i j e ws p))) (sym same) g) in
            let (there, _) = insert_at-In j m e f (ws i) inside in
            subst (λ p. Level p f) same
              (elim (there g') [
                | inl x ↦ s.levels i m f x
                | inr (_, x) ↦ subst (Level i) (sym x) level
              ])
      ];
    }

    -- One more entry, with its tick.
    pub On-placed :
        (cs : ℕ → ℕ) (k c : ℕ)
        → i < wheels_num
        → On n wheels_num cs (placed i j e ws) k c
        → On n wheels_num cs ws k c ⊎ (id_of e ≡ k) × (due n (cs i + suc j) e ≡ c)
    On-placed cs k c low o = elim (same_or_not i o.i) [
      | inr other ↦ inl (record {
        i = o.i;
        j = o.j;
        e = o.e;
        low = o.low;
        there = at_other ws i (insert_at j e (ws i)) o.i o.j o.e other o.there;
        id = o.id;
        time = o.time;
      })
      | inl same ↦
          let g =
            at_same ws i (insert_at j e (ws i)) o.j o.e
              (subst (λ p. In o.e (bucket_at o.j (placed i j e ws p))) (sym same) o.there) in
          let (there, _) = insert_at-In j o.j e o.e (ws i) inside in
          let time' : due n (cs i + suc o.j) o.e ≡ c =
            ap (λ p. due n (cs p + suc o.j) o.e) same ∙ o.time in
          elim (there g) [
            | inl x ↦
                inl (record {
                  i = i;
                  j = o.j;
                  e = o.e;
                  low = low;
                  there = x;
                  id = o.id;
                  time = time';
                })
            | inr (x, y) ↦ inr (
              ap id_of (sym y) ∙ o.id,
              ap (λ m. due n (cs i + suc m) e) (sym x)
                  ∙ ap (due n (cs i + suc o.j)) (sym y)
                  ∙ time',
            )
          ]
    ]

    pub placed-On :
        (cs : ℕ → ℕ) (k c : ℕ)
        → i < wheels_num
        → On n wheels_num cs ws k c ⊎ (id_of e ≡ k) × (due n (cs i + suc j) e ≡ c)
        → On n wheels_num cs (placed i j e ws) k c
    placed-On cs k c low (inr (x, y)) = record {
      i = i;
      j = j;
      e = e;
      low = low;
      there =
          back_same ws i (insert_at j e (ws i)) j e
            (let (_, back) = insert_at-In j j e e (ws i) inside in back (inr (refl, refl)));
      id = x;
      time = y;
    }
    placed-On cs k c low (inl o) = record {
      i = o.i;
      j = o.j;
      e = o.e;
      low = o.low;
      there = elim (same_or_not i o.i) [
        | inr other ↦ back_other ws i (insert_at j e (ws i)) o.i o.j o.e other o.there
        | inl same ↦
            let (_, back) = insert_at-In j o.j e o.e (ws i) inside in
            subst (λ p. In o.e (bucket_at o.j (placed i j e ws p))) same
              (back_same ws i (insert_at j e (ws i)) o.j o.e
                (back (inl (subst (λ p. In o.e (bucket_at o.j (ws p))) (sym same) o.there))))
      ];
      id = o.id;
      time = o.time;
    }

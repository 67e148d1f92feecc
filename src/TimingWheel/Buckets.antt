-- ===== src/TimingWheel/Buckets.antt =====
-- What is in a bucket behind the operations of sets and deques.
use trantor.Prelude.{
  ℕ, zero, suc, ◌<◌, ◌≡◌, ◌↔◌, ◌⊎◌, inl, inr, refl, sym, ap, subst, ◌∙◌, true, List, [], ◌∷◌, ◌++◌,
  arith, length, length-append, Bool-cases,
}
use trantor.TimingWheel.{
  Entry, held, callback, same_pointer, has_pointer, insert_pointer, insert_at, turn,
}

module _ {A : Type 0} where
  abbrev pub In : A → List A → Type 0
  In a [] = ⊥
  In a (x ∷ xs) = (a ≡ x) ⊎ In a xs

-- The bucket at an index.
abbrev pub bucket_at : ℕ → List (List Entry) → List Entry
bucket_at j [] = []
bucket_at zero (bucket ∷ buckets) = bucket
bucket_at (suc j) (bucket ∷ buckets) = bucket_at j buckets

same_pointer-eq : (e f : Entry) → same_pointer e f ≡ true → e ≡ f
same_pointer-eq (held k) (held m) h = ap held (ground arith)
same_pointer-eq (held k) (callback d i t f) h = absurd cc
same_pointer-eq (callback d i t e) f h = absurd cc

has_pointer-In : (e : Entry) (bucket : List Entry) → has_pointer e bucket ≡ true → In e bucket
has_pointer-In e [] h = absurd cc
has_pointer-In e (f ∷ bucket) h = elim (Bool-cases (same_pointer e f)) [
  | inl same ↦ inl (same_pointer-eq e f same)
  | inr other ↦
      let g : has_pointer e (f ∷ bucket) ≡ has_pointer e bucket = rw other refl in
      inr (has_pointer-In e bucket (sym g ∙ h))
]

insert_pointer-In :
    (e f : Entry) (bucket : List Entry) → In f (insert_pointer e bucket) ↔ (In f bucket ⊎ (f ≡ e))
insert_pointer-In e f bucket = elim (Bool-cases (has_pointer e bucket)) [
  | inl there ↦ rw there (
    λ h. inl h,
    λ h. elim h [
      | inl g ↦ g
      | inr g ↦ subst (λ x. In x bucket) (sym g) (has_pointer-In e bucket there)
    ],
  )
  | inr fresh ↦
      rw fresh (
        λ h. elim h [ inl g ↦ inr g | inr g ↦ inl g ],
        λ h. elim h [ inl g ↦ inr g | inr g ↦ inl g ],
      )
]

pub length-insert_at :
    (j : ℕ) (e : Entry) (buckets : List (List Entry))
    → length (insert_at j e buckets) ≡ length buckets
unfolding insert_at
length-insert_at j e [] = refl
length-insert_at zero e (b ∷ buckets) = refl
length-insert_at (suc j) e (b ∷ buckets) = ap suc (length-insert_at j e buckets)

pub length-turn :
    (n : ℕ) (buckets : List (List Entry)) → length buckets ≡ n → 0 < n → length (turn buckets) ≡ n
length-turn n [] h more = absurd (omega arith)
length-turn n (b ∷ buckets) h more = omega (arith, length-append buckets ([] ∷ []))

-- Behind an insertion there is one entry more at its index, and nothing else.
pub insert_at-In :
    (j m : ℕ) (e f : Entry) (buckets : List (List Entry))
    → j < length buckets
    → In f (bucket_at m (insert_at j e buckets))
      ↔ (In f (bucket_at m buckets) ⊎ ((m ≡ j) × (f ≡ e)))
unfolding insert_at
insert_at-In j m e f [] h = absurd (omega arith)
insert_at-In zero zero e f (b ∷ buckets) h =
    let (there, back) = insert_pointer-In e f b in
    (
      λ g. elim (there g) [ inl x ↦ inl x | inr x ↦ inr (refl, x) ],
      λ g. elim g [ inl x ↦ back (inl x) | inr (_, x) ↦ back (inr x) ],
    )
insert_at-In zero (suc m) e f (b ∷ buckets) h =
    (λ g. inl g, λ g. elim g [ inl x ↦ x | inr (x, _) ↦ absurd (omega arith) ])
insert_at-In (suc j) zero e f (b ∷ buckets) h =
    (λ g. inl g, λ g. elim g [ inl x ↦ x | inr (x, _) ↦ absurd (omega arith) ])
insert_at-In (suc j) (suc m) e f (b ∷ buckets) h =
    let (there, back) = insert_at-In j m e f buckets (omega arith) in
    (
      λ g. elim (there g) [ inl x ↦ inl x | inr (x, y) ↦ inr (ap suc x, y) ],
      λ g. elim g [ inl x ↦ back (inl x) | inr (x, y) ↦ back (inr (omega arith, y)) ],
    )

last_bucket :
    (m : ℕ) (f : Entry) (buckets : List (List Entry))
    → In f (bucket_at m (buckets ++ ([] ∷ []))) ↔ In f (bucket_at m buckets)
last_bucket zero f [] = (λ g. g, λ g. g)
last_bucket (suc m) f [] = (λ g. g, λ g. g)
last_bucket zero f (b ∷ buckets) = (λ g. g, λ g. g)
last_bucket (suc m) f (b ∷ buckets) = last_bucket m f buckets

-- Behind a turn every bucket is one index lower, and the front is gone.
pub turn-In :
    (m : ℕ) (f : Entry) (buckets : List (List Entry))
    → In f (bucket_at m (turn buckets)) ↔ In f (bucket_at (suc m) buckets)
turn-In zero f [] = (λ g. g, λ g. g)
turn-In (suc m) f [] = (λ g. g, λ g. g)
turn-In m f (b ∷ buckets) = last_bucket m f buckets

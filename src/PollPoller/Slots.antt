-- ===== src/PollPoller/Slots.antt =====
-- What stands where in an array behind its changes.
use trantor.Prelude.{
  ℕ, zero, suc, ◌<◌, ◌≡◌, ◌≢◌, ◌⊎◌, inl, inr, refl, ap, some, List, [], ◌∷◌, ◌++◌, arith, length,
  get_elem?,
}
use trantor.PollPoller.{set_at, pop_back}

module _ {A : Type 0} where
  pub get_elem_lt : (xs : List A) (i : ℕ) (a : A) → get_elem? xs i ≡ some a → i < length xs
  get_elem_lt [] i a e = absurd cc
  get_elem_lt (x ∷ xs) zero a e = omega arith
  get_elem_lt (x ∷ xs) (suc i) a e = let h = get_elem_lt xs i a e in omega arith

  pub get_elem_there : (xs : List A) (i : ℕ) → i < length xs → (a : A) × (get_elem? xs i ≡ some a)
  get_elem_there [] i h = absurd (omega arith)
  get_elem_there (x ∷ xs) zero h = (x, refl)
  get_elem_there (x ∷ xs) (suc i) h = get_elem_there xs i (omega arith)

  pub set_at_same :
      (xs : List A) (i : ℕ) (a : A) → i < length xs → get_elem? (set_at i a xs) i ≡ some a
  unfolding set_at
  set_at_same [] i a h = absurd (omega arith)
  set_at_same (x ∷ xs) zero a h = refl
  set_at_same (x ∷ xs) (suc i) a h = set_at_same xs i a (omega arith)

  pub set_at_other :
      (xs : List A) (i j : ℕ) (a : A) → i ≢ j → get_elem? (set_at i a xs) j ≡ get_elem? xs j
  unfolding set_at
  set_at_other [] i j a ne = refl
  set_at_other (x ∷ xs) zero zero a ne = absurd (ne refl)
  set_at_other (x ∷ xs) zero (suc j) a ne = refl
  set_at_other (x ∷ xs) (suc i) zero a ne = refl
  set_at_other (x ∷ xs) (suc i) (suc j) a ne = set_at_other xs i j a (λ e. ne (ap suc e))

  pub length-set_at : (xs : List A) (i : ℕ) (a : A) → length (set_at i a xs) ≡ length xs
  unfolding set_at
  length-set_at [] i a = refl
  length-set_at (x ∷ xs) zero a = refl
  length-set_at (x ∷ xs) (suc i) a = ap suc (length-set_at xs i a)

  pub pop_back_in :
      (xs : List A) (j : ℕ) → suc j < length xs → get_elem? (pop_back xs) j ≡ get_elem? xs j
  unfolding pop_back
  pop_back_in [] j h = absurd (omega arith)
  pop_back_in (x ∷ []) j h = absurd (omega arith)
  pop_back_in (x ∷ y ∷ xs) zero h = refl
  pop_back_in (x ∷ y ∷ xs) (suc j) h = pop_back_in (y ∷ xs) j (omega arith)

  pub pop_back_out :
      (xs : List A) (j : ℕ) (a : A) → get_elem? (pop_back xs) j ≡ some a → suc j < length xs
  unfolding pop_back
  pop_back_out [] j a e = absurd cc
  pop_back_out (x ∷ []) j a e = absurd cc
  pop_back_out (x ∷ y ∷ xs) zero a e = omega arith
  pop_back_out (x ∷ y ∷ xs) (suc j) a e = let h = pop_back_out (y ∷ xs) j a e in omega arith

  pub append_in :
      (xs : List A) (b : A) (j : ℕ) → j < length xs → get_elem? (xs ++ (b ∷ [])) j ≡ get_elem? xs j
  append_in [] b j h = absurd (omega arith)
  append_in (x ∷ xs) b zero h = refl
  append_in (x ∷ xs) b (suc j) h = append_in xs b j (omega arith)

  pub append_at : (xs : List A) (b : A) → get_elem? (xs ++ (b ∷ [])) (length xs) ≡ some b
  append_at [] b = refl
  append_at (x ∷ xs) b = append_at xs b

  pub append_out :
      (xs : List A) (b : A) (j : ℕ) (a : A)
      → get_elem? (xs ++ (b ∷ [])) j ≡ some a
      → (get_elem? xs j ≡ some a) ⊎ ((j ≡ length xs) × (a ≡ b))
  append_out [] b zero a e = inr (refl, cc)
  append_out [] b (suc j) a e = absurd cc
  append_out (x ∷ xs) b zero a e = inl e
  append_out (x ∷ xs) b (suc j) a e = elim (append_out xs b j a e) [
    | inl f ↦ inl f
    | inr (f, g) ↦ inr (ap suc f, g)
  ]

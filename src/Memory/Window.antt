-- ===== src/Memory/Window.antt =====
-- What a window shows after a write: the one fact on which the buffer proofs rest.
use trantor.Prelude.{
  ℕ, ◌+◌, ◌-◌, ◌≤◌, ◌≡◌, refl, sym, ap, ◌∙◌, append-nil, List, zero, suc, [], ◌∷◌, drop-drop, ◌++◌,
  arith, length, take, drop, length-append, length-take, length-drop, length-replicate,
  take-append_right, drop-append_left, take-drop,
}
use trantor.Memory.{window, splice, resize}

pub length-window : (p n : ℕ) (buf : List ℕ) → p + n ≤ length buf → length (window p n buf) ≡ n
length-window p n buf h = omega (arith, length-take n (drop p buf), length-drop p buf)

pub length-splice :
    (buf : List ℕ) (p : ℕ) (xs : List ℕ)
    → p + length xs ≤ length buf
    → length (splice buf p xs) ≡ length buf
length-splice buf p xs h = omega (
  arith,
  length-append (take p buf) (xs ++ drop (p + length xs) buf),
  length-append xs (drop (p + length xs) buf),
  length-take p buf,
  length-drop (p + length xs) buf,
)

pub length-resize : (n : ℕ) (buf : List ℕ) → length (resize n buf) ≡ n
length-resize n buf = omega (
  arith,
  length-take n (buf ++ _),
  length-append buf _,
  length-replicate {A = ℕ} (n - length buf) 0,
)

-- Exactly as many elements as the first part has.
take-append_add :
    (k m : ℕ) (xs ys : List ℕ) → length xs ≡ k → take (k + m) (xs ++ ys) ≡ xs ++ take m ys
take-append_add k m xs ys e =
    take-append_right (k + m) xs ys (omega arith) ∙ ap (λ j. xs ++ take j ys) rest
  where
    rest : k + m - length xs ≡ m
    rest = omega arith

-- A window that starts at or before a write of `xs` at `p`, and ends `m` bytes after it.
pub window-splice :
    (buf : List ℕ) (h p m : ℕ) (xs : List ℕ)
    → h ≤ p
    → p + length xs ≤ length buf
    → window h ((p - h) + (length xs + m)) (splice buf p xs)
      ≡ window h (p - h) buf ++ (xs ++ window (p + length xs) m buf)
window-splice buf h p m xs hp fits =
    ap (take ((p - h) + (length xs + m)))
      (drop-append_left h (take p buf) _ (omega (arith, length-take p buf)))
    ∙ take-append_add (p - h) (length xs + m) (drop h (take p buf)) _
        (omega (arith, length-drop h (take p buf), length-take p buf))
    ∙ ap (λ l. drop h (take p buf) ++ l) (take-append_add (length xs) m xs _ refl)
    ∙ ap (λ l. l ++ (xs ++ window (p + length xs) m buf)) front
  where
    end : h + (p - h) ≡ p
    end = omega arith

    front : drop h (take p buf) ≡ window h (p - h) buf
    front = sym (take-drop (p - h) h buf ∙ ap (λ k. drop h (take k buf)) end)

-- The window that starts with the write.
pub window-splice_start :
    (buf : List ℕ) (p m : ℕ) (xs : List ℕ)
    → p + length xs ≤ length buf
    → window p (length xs + m) (splice buf p xs) ≡ xs ++ window (p + length xs) m buf
window-splice_start buf p m xs fits =
    let none_before : p - p ≡ 0 = omega arith in
    let count : length xs + m ≡ (p - p) + (length xs + m) = omega arith in
    ap (λ n. window p n (splice buf p xs)) count
    ∙ window-splice buf p p m xs (omega arith) fits
    ∙ ap (λ n. window p n buf ++ (xs ++ window (p + length xs) m buf)) none_before

pub window-splice_self :
    (buf : List ℕ) (p : ℕ) (xs : List ℕ)
    → p + length xs ≤ length buf
    → window p (length xs) (splice buf p xs) ≡ xs
window-splice_self buf p xs fits =
    let count : length xs ≡ length xs + 0 = omega arith in
    ap (λ n. window p n (splice buf p xs)) count
    ∙ window-splice_start buf p 0 xs fits
    ∙ append-nil xs

take-nil : (n : ℕ) → take {A = ℕ} n [] ≡ []
take-nil zero = refl
take-nil (suc n) = refl

take-add : (m n : ℕ) (xs : List ℕ) → take (m + n) xs ≡ take m xs ++ take n (drop m xs)
take-add zero n xs = ap (λ k. take k xs) (omega arith)
take-add (suc m) n [] = let e : suc m + n ≡ suc (m + n) = omega arith in rw (e, take-nil n)
take-add (suc m) n (x ∷ xs) =
    let e : suc m + n ≡ suc (m + n) = omega arith in rw e (ap (◌∷◌ x) (take-add m n xs))

-- Two windows side by side.
pub window-append :
    (p m n : ℕ) (buf : List ℕ) → window p (m + n) buf ≡ window p m buf ++ window (p + m) n buf
window-append p m n buf =
    take-add m n (drop p buf) ∙ ap (λ l. window p m buf ++ take n l) (drop-drop m p buf)

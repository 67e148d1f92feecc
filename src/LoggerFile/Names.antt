-- ===== src/LoggerFile/Names.antt =====
-- The numbered files, and the loop of `deleteOldFiles` on them.
use trantor.Prelude.{
  ℕ, suc, ◌≤◌, ◌<◌, ◌≡◌, ◌⊎◌, inl, inr, refl, sym, subst, ap, ◌∙◌, true, false, List, [], ◌∷◌, ◌++◌,
  arith, ltb, ◌==◌, length, append-nil, append_assoc, Bool-cases,
}
use trantor.LoggerFile.{remove_file, delete_old_files}

-- The text of the renamed files, oldest first, and their numbers.
abbrev pub texts : List (ℕ × List ℕ) → List ℕ
texts [] = []
texts ((n, text) ∷ files) = text ++ texts files

abbrev pub numbers : List (ℕ × List ℕ) → List ℕ
numbers [] = []
numbers ((n, text) ∷ files) = n ∷ numbers files

-- The numbers of the files count up from `low`, to below `high`.
abbrev pub Counted : ℕ → List (ℕ × List ℕ) → ℕ → Type 0
Counted low [] high = low ≡ high
Counted low ((n, text) ∷ files) high = (n ≡ low) × Counted (suc low) files high

pub texts-append :
    (files : List (ℕ × List ℕ)) (n : ℕ) (text : List ℕ)
    → texts (files ++ ((n, text) ∷ [])) ≡ texts files ++ text
texts-append [] n text = append-nil text
texts-append ((m, t) ∷ files) n text =
    ap (λ r. t ++ r) (texts-append files n text) ∙ sym (append_assoc t (texts files) text)

pub numbers-append :
    (files : List (ℕ × List ℕ)) (n : ℕ) (text : List ℕ)
    → numbers (files ++ ((n, text) ∷ [])) ≡ numbers files ++ (n ∷ [])
numbers-append [] n text = refl
numbers-append ((m, t) ∷ files) n text = ap (λ r. m ∷ r) (numbers-append files n text)

length-numbers : (files : List (ℕ × List ℕ)) → length (numbers files) ≡ length files
length-numbers [] = refl
length-numbers ((m, t) ∷ files) = ap suc (length-numbers files)

pub Counted-append :
    (low : ℕ) (files : List (ℕ × List ℕ)) (high : ℕ) (text : List ℕ)
    → Counted low files high
    → Counted low (files ++ ((high, text) ∷ [])) (suc high)
Counted-append low [] high text e = (sym e, ap suc e)
Counted-append low ((n, t) ∷ files) high text (e, c) =
    (e, Counted-append (suc low) files high text c)

Counted-bounds :
    (low : ℕ) (files : List (ℕ × List ℕ)) (high : ℕ) → Counted low files high → low ≤ high
Counted-bounds low [] high e = omega arith
Counted-bounds low ((n, t) ∷ files) high (e, c) =
    let h = Counted-bounds (suc low) files high c in omega arith

-- A name that no file has.
pub remove_above :
    (low : ℕ) (files : List (ℕ × List ℕ)) (high name : ℕ)
    → Counted low files high
    → high ≤ name
    → remove_file name files ≡ files
unfolding remove_file
remove_above low [] high name c h = refl
remove_above low ((n, t) ∷ files) high name (e, c) h =
    let b = Counted-bounds (suc low) files high c in
    let other : (n == name) ≡ false = ground arith in
    rw (other, remove_above (suc low) files high name c h) refl

remove_below :
    (low : ℕ) (files : List (ℕ × List ℕ)) (high name : ℕ)
    → Counted low files high
    → name < low
    → remove_file name files ≡ files
unfolding remove_file
remove_below low [] high name c h = refl
remove_below low ((n, t) ∷ files) high name (e, c) h =
    let other : (n == name) ≡ false = ground arith in
    rw (other, remove_below (suc low) files high name c (omega arith)) refl

remove_oldest :
    (n : ℕ) (t : List ℕ) (files : List (ℕ × List ℕ)) (high : ℕ)
    → Counted (suc n) files high
    → remove_file n ((n, t) ∷ files) ≡ files
unfolding remove_file
remove_oldest n t files high c =
    let same : (n == n) ≡ true = ground arith in
    rw (same, remove_below (suc n) files high n c (omega arith)) refl

delete_stops :
    (max_files : ℕ) (queue : List ℕ) (files : List (ℕ × List ℕ))
    → length queue ≤ max_files
    → delete_old_files max_files queue files ≡ (queue, files)
unfolding delete_old_files
delete_stops max_files [] files h = refl
delete_stops max_files (name ∷ queue) files h =
    let enough : ltb max_files (length (name ∷ queue)) ≡ false = ground arith in rw enough refl

delete_one :
    (max_files name : ℕ) (queue : List ℕ) (files : List (ℕ × List ℕ))
    → length queue ≡ max_files
    → delete_old_files max_files (name ∷ queue) files ≡ (queue, remove_file name files)
unfolding delete_old_files
delete_one max_files name queue files h =
    let over : ltb max_files (length (name ∷ queue)) ≡ true = ground arith in
    rw (over, delete_stops max_files queue (remove_file name files) (omega arith)) refl

-- What is left of the files, at most one more than allowed.
pub record Trimmed (max_files high : ℕ) (files : List (ℕ × List ℕ)) : Type 0 where
  pub rest : List (ℕ × List ℕ)
  pub gone : List ℕ
  pub low : ℕ
  pub result : delete_old_files max_files (numbers files) files ≡ (numbers rest, rest)
  pub text : gone ++ texts rest ≡ texts files
  pub counted : Counted low rest high
  pub few : length rest ≤ max_files
  pub full : (gone ≡ []) ⊎ (length files ≡ suc max_files)

pub trims :
    (max_files low high : ℕ) (files : List (ℕ × List ℕ))
    → Counted low files high
    → length files ≤ suc max_files
    → Trimmed max_files high files
trims max_files low high [] c h = record {
  rest = [];
  gone = [];
  low = low;
  result = delete_stops max_files [] [] (omega arith);
  text = refl;
  counted = c;
  few = omega arith;
  full = inl refl;
}
trims max_files low high ((n, t) ∷ files) (e, c) h =
    elim (Bool-cases (ltb max_files (length ((n, t) ∷ files)))) [
      | inr enough ↦ record {
        rest = (n, t) ∷ files;
        gone = [];
        low = low;
        result =
            delete_stops max_files (numbers ((n, t) ∷ files)) ((n, t) ∷ files)
              (let l = length-numbers files in ground arith);
        text = refl;
        counted = (e, c);
        few = ground arith;
        full = inl refl;
      }
      | inl over ↦ record {
        rest = files;
        gone = t;
        low = suc low;
        result =
            delete_one max_files n (numbers files) ((n, t) ∷ files)
              (let l = length-numbers files in ground arith)
            ∙ ap (λ r. (numbers files, r))
                (remove_oldest n t files high (subst (λ m. Counted (suc m) files high) (sym e) c));
        text = refl;
        counted = c;
        few = ground arith;
        full = inr (ground arith);
      }
    ]

-- ===== src/LogStream/Text.antt =====
-- What a text that is put into a line does to it.
use trantor.Prelude.{
  ℕ, ◌+◌, ◌≤◌, ◌<◌, ◌≡◌, refl, sym, ap, ◌∙◌, true, Option, some, List, [], ◌∷◌, ◌++◌, leb, ltb,
  arith, length, length-append, inl, inr, Bool-cases,
}
use trantor.LogStream.{
  LogStream, small_buffer, avail, buffer_append, append, buffer_data, write_number,
}
use trantor.LogStream.Convert.{
  IntegerType, int, unsigned_int, long, unsigned_long, max_numeric_size,
}

-- The array is not full, and the string is not used without need.
pub record Fits (s : LogStream) : Type 0 where
  pub room : length s.buffer < small_buffer

-- `s'` has the text of `s` and then `xs`.
pub record Adds (xs : List ℕ) (s s' : LogStream) : Type 0 where
  pub fits : Fits s'
  pub text : buffer_data s' ≡ buffer_data s ++ xs

abbrev line : List ℕ → List ℕ → LogStream
line b ex = record { buffer = b; ex_buffer = ex }

-- A string that is used has the text.
string_data : (b ex : List ℕ) → 0 < length ex → buffer_data (line b ex) ≡ ex
unfolding buffer_data
string_data b [] h = absurd (omega arith)
string_data b (x ∷ ex) h = refl

buffer_data-unused : (b : List ℕ) → buffer_data (line b []) ≡ b
unfolding buffer_data
buffer_data-unused b = refl

buffer_data-used : (b ex : List ℕ) (x : ℕ) → buffer_data (line b (x ∷ ex)) ≡ x ∷ ex
unfolding buffer_data
buffer_data-used b ex x = refl

-- A text goes into the array, or the array and the text go into the string, or the text goes to the end of the string.
into_array : (b xs : List ℕ) → length xs < avail b → Adds xs (line b []) (line (b ++ xs) [])
into_array b xs h = record {
  fits = record { room = omega (arith, length-append b xs) };
  text = buffer_data-unused (b ++ xs) ∙ ap (λ t. t ++ xs) (sym (buffer_data-unused b));
}

into_string :
    (b xs : List ℕ)
    → length b < small_buffer
    → 0 < length b + length xs
    → Adds xs (line b []) (line b (b ++ xs))
into_string b xs f h = record {
  fits = record { room = f };
  text =
      string_data b (b ++ xs) (omega (arith, length-append b xs))
      ∙ ap (λ t. t ++ xs) (sym (buffer_data-unused b));
}

at_end :
    (b ex xs : List ℕ) (x : ℕ)
    → length b < small_buffer
    → Adds xs (line b (x ∷ ex)) (line b ((x ∷ ex) ++ xs))
at_end b ex xs x f = record {
  fits = record { room = f };
  text = buffer_data-used b (ex ++ xs) x ∙ ap (λ t. t ++ xs) (sym (buffer_data-used b ex x));
}

line-Adds :
    (xs b ex : List ℕ) → length b < small_buffer → Adds xs (line b ex) (append xs (line b ex))
unfolding append buffer_append
line-Adds xs b [] f = elim (Bool-cases (ltb (length xs) (avail b))) [
  | inl wide ↦ rw wide (into_array b xs (ground arith))
  | inr tight ↦ rw tight (into_string b xs f (ground arith))
]
line-Adds xs b (x ∷ ex) f = at_end b ex xs x f

pub append-Adds : (xs : List ℕ) (s : LogStream) → Fits s → Adds xs s (append xs s)
append-Adds xs s f = line-Adds xs s.buffer s.ex_buffer f.room

pub numeric_small : (t : IntegerType) → max_numeric_size t ≤ 48
numeric_small int = omega arith
numeric_small unsigned_int = omega arith
numeric_small long = omega arith
numeric_small unsigned_long = omega arith

pub record Done (xs : List ℕ) (s : LogStream) (o : Option LogStream) : Type 0 where
  pub after : LogStream
  pub ok : o ≡ some after
  pub adds : Adds xs s after

pub written_as :
    {xs : List ℕ} {s : LogStream} {o : Option LogStream} (s' : LogStream)
    → o ≡ some s'
    → Adds xs s s'
    → Done xs s o
written_as s' e a = record { after = s'; ok = e; adds = a }

pub write_line-Done :
    (room : ℕ) (xs b ex : List ℕ)
    → length b < small_buffer
    → length xs < room
    → room ≤ 48
    → Done xs (line b ex) (write_number room xs (line b ex))
unfolding write_number
write_line-Done room xs b [] f h small = elim (Bool-cases (leb room (avail b))) [
  | inl wide ↦
      let fits : ltb (length xs) (avail b) ≡ true = ground arith in
      rw (wide, fits) (written_as _ refl (into_array b xs (ground arith)))
  | inr tight ↦
      let fits : ltb (length xs) room ≡ true = ground arith in
      rw (tight, fits) (written_as _ refl (into_string b xs f (ground arith)))
]
write_line-Done room xs b (x ∷ ex) f h small =
    let fits : ltb (length xs) room ≡ true = ground arith in
    rw fits (written_as _ refl (at_end b ex xs x f))

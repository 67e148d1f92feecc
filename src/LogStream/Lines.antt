-- ===== src/LogStream/Lines.antt =====
-- The text of a line is what was put into it, one value behind the other.
use trantor.Prelude.{
  ℕ, ◌^◌, ◌≤◌, ◌<◌, ◌≡◌, refl, sym, ap, ◌∙◌, Option, some, none, List, [], ◌∷◌, ◌++◌, if◌then◌else◌,
  arith, length, append-nil, append_assoc, inl, inr, Bool-cases,
}
use trantor.LogStream.{
  LogStream, is_empty, append, buffer_data, buffer_length, write_number, format_integer,
  format_pointer, Value, bool, integer, pointer, double, long_double, char, c_string, string, fmt,
  insert, insert_all,
}
use trantor.LogStream.Convert.{max_numeric_size}
use trantor.LogStream.Read.{read, read_integer}
use trantor.LogStream.Numbers.{InRange, converts, hex_converts}
use trantor.LogStream.Text.{Fits, Done, written_as, append-Adds, write_line-Done, numeric_small}

-- A text that a value may have: that of a number is the one that is read back.
abbrev pub Shows : (ℕ → List ℕ) → (ℕ → List ℕ) → Value → List ℕ → Type 0
Shows double_text long_double_text (bool v) xs = xs ≡ (if v then b'1' ∷ [] else b'0' ∷ [])
Shows double_text long_double_text (integer t v) xs = read_integer xs ≡ some v
Shows double_text long_double_text (pointer v) xs =
    (ds : List ℕ) × (xs ≡ b'0' ∷ b'x' ∷ ds) × (read 16 0 ds ≡ some v)
Shows double_text long_double_text (double v) xs = xs ≡ double_text v
Shows double_text long_double_text (long_double v) xs = xs ≡ long_double_text v
Shows double_text long_double_text (char c) xs = xs ≡ c ∷ []
Shows double_text long_double_text (c_string none) xs =
    xs ≡ b'(' ∷ b'n' ∷ b'u' ∷ b'l' ∷ b'l' ∷ b')' ∷ []
Shows double_text long_double_text (c_string (some text)) xs = xs ≡ text
Shows double_text long_double_text (string text) xs = xs ≡ text
Shows double_text long_double_text (fmt text) xs = xs ≡ text

-- The values that the types of C++ have.
abbrev pub Possible : Value → Type 0
Possible (integer t v) = InRange t v
Possible (pointer v) = v < 2 ^ 64
Possible _ = Unit

abbrev pub AllPossible : List Value → Type 0
AllPossible [] = Unit
AllPossible (v ∷ vs) = Possible v × AllPossible vs

module _ (double_text long_double_text : ℕ → List ℕ)
    (doubles : (k : ℕ) → length (double_text k) < 32)
    (long_doubles : (k : ℕ) → length (long_double_text k) < 48) where
  -- The text of a chain of values.
  pub data Line : List Value → List ℕ → Type 0 where
    no_more : Line [] []
    and_then :
        (v : Value) (xs : List ℕ) (vs : List Value) (ys : List ℕ)
        → Shows double_text long_double_text v xs
        → Line vs ys
        → Line (v ∷ vs) (xs ++ ys)

  abbrev Inserted : Value → LogStream → Option LogStream → Type 0
  Inserted v s o = (xs : List ℕ) × Shows double_text long_double_text v xs × Done xs s o

  added : (xs : List ℕ) (s : LogStream) → Fits s → Done xs s (some (append xs s))
  added xs s f = written_as _ refl (append-Adds xs s f)

  written :
      (room : ℕ) (xs : List ℕ) (s : LogStream)
      → Fits s
      → length xs < room
      → room ≤ 48
      → Done xs s (write_number room xs s)
  written room xs s f h small = write_line-Done room xs s.buffer s.ex_buffer f.room h small

  insert-Inserted :
      (v : Value) (s : LogStream)
      → Fits s
      → Possible v
      → Inserted v s (insert double_text long_double_text v s)
  unfolding insert format_integer format_pointer
  insert-Inserted (bool v) s f p = (_, refl, added _ s f)
  insert-Inserted (integer t v) s f p =
      let c = converts t v p in
      rw (c.ok) (c.text, c.back, written (max_numeric_size t) c.text s f c.room (numeric_small t))
  insert-Inserted (pointer v) s f p =
      let c = hex_converts v p in
      let h = c.room in
      rw (c.ok) (
        _,
        (c.text, refl, c.back),
        written 20 (b'0' ∷ b'x' ∷ c.text) s f (omega arith) (omega arith),
      )
  insert-Inserted (double v) s f p =
      (_, refl, written 32 (double_text v) s f (doubles v) (omega arith))
  insert-Inserted (long_double v) s f p =
      (_, refl, written 48 (long_double_text v) s f (long_doubles v) (omega arith))
  insert-Inserted (char c) s f p = (_, refl, added _ s f)
  insert-Inserted (c_string none) s f p = (_, refl, added _ s f)
  insert-Inserted (c_string (some xs)) s f p = (_, refl, added xs s f)
  insert-Inserted (string xs) s f p = (_, refl, added xs s f)
  insert-Inserted (fmt xs) s f p = (_, refl, added xs s f)

  -- Every chain of values that the types of C++ have is put in without a write outside of the array
  -- or the string, and the text is that of before and those of the values, in order.
  pub insert_all-Line :
      (vs : List Value) (s : LogStream)
      → Fits s
      → AllPossible vs
      → (s' : LogStream) × (insert_all double_text long_double_text vs s ≡ some s')
        × (xs : List ℕ) × Line vs xs
        × (buffer_data s' ≡ buffer_data s ++ xs)
        × Fits s'
  unfolding insert_all
  insert_all-Line [] s f p = (s, refl, [], no_more, sym (append-nil (buffer_data s)), f)
  insert_all-Line (v ∷ vs) s f (p, ps) =
      let (xs, shows, d) = insert-Inserted v s f p in
      let (s', e', ys, l, t, f') = insert_all-Line vs d.after d.adds.fits ps in
      (
        s',
        rw (d.ok) e',
        xs ++ ys,
        and_then v xs vs ys shows l,
        t ∙ ap (λ r. r ++ ys) d.adds.text ∙ append_assoc (buffer_data s) xs ys,
        f',
      )

-- `bufferLength` is the number of the bytes of `bufferData`.
pub buffer_length-data : (s : LogStream) → buffer_length s ≡ length (buffer_data s)
unfolding buffer_length buffer_data
buffer_length-data s = elim (Bool-cases (is_empty s.ex_buffer)) [
  | inl unused ↦ rw unused refl
  | inr used ↦ rw used refl
]

-- ===== src/LogStream.antt =====
-- utils/LogStream.h and utils/LogStream.cc: the text of a log line, which stands in an array of 4000
-- bytes until it no longer fits, and then in a string. `none` stands for a write outside of either.
pub mod Convert
pub mod Read
pub mod Digits
pub mod Numbers
pub mod Text
pub mod Lines
mod Tests
use trantor.Prelude.{
  ℕ, zero, suc, ◌+◌, ◌-◌, Bool, true, false, Option, some, none, List, [], ◌∷◌, ◌++◌, ◌>>=◌, ◌>>◌,
  assert, if◌then◌else◌, leb, ltb, length,
}
use trantor.LogStream.Convert.{ℤ, IntegerType, max_numeric_size, convert, convert_hex}

-- `kSmallBuffer`
abbrev pub small_buffer : ℕ
small_buffer = 4000

-- The bytes of `buffer_` before `cur_`, and `exBuffer_`.
pub record LogStream : Type 0 where
  pub buffer : List ℕ
  pub ex_buffer : List ℕ

abbrev pub avail : List ℕ → ℕ
avail buffer = small_buffer - length buffer

-- `FixedBuffer::append`
unfoldable pub buffer_append : List ℕ → List ℕ → Bool × List ℕ
buffer_append xs buffer =
    if ltb (length xs) (avail buffer) then (true, buffer ++ xs) else (false, buffer)

abbrev pub is_empty : List ℕ → Bool
is_empty [] = true
is_empty (x ∷ xs) = false

unfoldable pub append : List ℕ → LogStream → LogStream
append xs s =
    if is_empty s.ex_buffer
    then (let r = buffer_append xs s.buffer in
        record s {
          buffer = r.1;
          ex_buffer = if r.0 then s.ex_buffer else s.ex_buffer ++ (s.buffer ++ xs);
        })
    else record s { ex_buffer = s.ex_buffer ++ xs }

unfoldable pub buffer_data : LogStream → List ℕ
buffer_data s = if is_empty s.ex_buffer then s.buffer else s.ex_buffer

unfoldable pub buffer_length : LogStream → ℕ
buffer_length s = if is_empty s.ex_buffer then length s.buffer else length s.ex_buffer

unfoldable pub reset_buffer : LogStream → LogStream
reset_buffer s = record { buffer = []; ex_buffer = [] }

-- The string, made longer by `room` bytes for a text with a zero behind it, and then cut behind the text.
abbrev pub write_string : ℕ → List ℕ → List ℕ → LogStream → Option LogStream
write_string room old xs s =
    assert (ltb (length xs) room) >> some (record s { ex_buffer = old ++ xs })

-- The body of `formatInteger` and of the operators for pointers and for floating point numbers, which
-- write a text, with a zero behind it, straight into the array or the string.
unfoldable pub write_number : ℕ → List ℕ → LogStream → Option LogStream
write_number room xs s =
    if is_empty s.ex_buffer
    then (if leb room (avail s.buffer)
        then assert (ltb (length xs) (avail s.buffer))
          >> some (record s { buffer = s.buffer ++ xs })
        else write_string room (s.ex_buffer ++ s.buffer) xs s)
    else write_string room s.ex_buffer xs s

unfoldable pub format_integer : IntegerType → ℤ → LogStream → Option LogStream
format_integer t v s = convert v >>= λ xs. write_number (max_numeric_size t) xs s

-- The room is `digits / 4 + 4` of 64 bits.
unfoldable pub format_pointer : ℕ → LogStream → Option LogStream
format_pointer v s = convert_hex v >>= λ xs. write_number 20 (b'0' ∷ b'x' ∷ xs) s

-- What a `<<` is given. A `short` is an `int` to `<<`; the text of a C string ends before its zero, and a null pointer
-- has none; a floating point number is known by its bits.
pub data Value : Type 0 where
  bool : Bool → Value
  integer : IntegerType → ℤ → Value
  pointer : ℕ → Value
  double : ℕ → Value
  long_double : ℕ → Value
  char : ℕ → Value
  c_string : Option (List ℕ) → Value
  string : List ℕ → Value
  fmt : List ℕ → Value

-- What `snprintf` makes of a floating point number, by "%.12g" and "%.12Lg".
module _ (double_text long_double_text : ℕ → List ℕ) where
  unfoldable pub insert : Value → LogStream → Option LogStream
  insert (bool v) s = some (append (if v then b'1' ∷ [] else b'0' ∷ []) s)
  insert (integer t v) s = format_integer t v s
  insert (pointer v) s = format_pointer v s
  insert (double v) s = write_number 32 (double_text v) s
  insert (long_double v) s = write_number 48 (long_double_text v) s
  insert (char c) s = some (append (c ∷ []) s)
  insert (c_string none) s = some (append (b'(' ∷ b'n' ∷ b'u' ∷ b'l' ∷ b'l' ∷ b')' ∷ []) s)
  insert (c_string (some xs)) s = some (append xs s)
  insert (string xs) s = some (append xs s)
  insert (fmt xs) s = some (append xs s)

  -- A chain of `<<`.
  unfoldable pub insert_all : List Value → LogStream → Option LogStream
  insert_all [] s = some s
  insert_all (v ∷ vs) s = insert v s >>= λ s'. insert_all vs s'

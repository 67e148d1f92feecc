-- ===== src/LogStream/Tests.antt =====
-- Lines with numbers.
use trantor.Prelude.{ℕ, ◌-◌, ◌^◌, ◌≡◌, refl, true, some, none, List, [], ◌∷◌, ◌++◌, arith}
use trantor.LogStream.{LogStream, buffer_data, bool, integer, pointer, c_string, insert_all}
use trantor.LogStream.Convert.{negsuc, int, convert_loop, convert, convert_hex_loop, convert_hex}
use trantor.LogStream.Numbers.{Converted, converts, HexConverted, hex_converts}
use trantor.LogStream.Text.{Fits}
use trantor.LogStream.Lines.{Line, insert_all-Line}

abbrev no_text : ℕ → List ℕ
no_text k = []

abbrev empty_line : LogStream
empty_line = record { buffer = []; ex_buffer = [] }

least_int :
    convert (negsuc (2 ^ 31 - 1))
    ≡ some (b'-' ∷ b'2' ∷ b'1' ∷ b'4' ∷ b'7' ∷ b'4' ∷ b'8' ∷ b'3' ∷ b'6' ∷ b'4' ∷ b'8' ∷ [])
unfolding convert convert_loop
least_int = refl

some_pointer : convert_hex 48879 ≡ some (b'B' ∷ b'E' ∷ b'E' ∷ b'F' ∷ [])
unfolding convert_hex convert_hex_loop
some_pointer = refl

converts_example : Converted int (negsuc 41)
converts_example = converts int (negsuc 41) (omega arith)

hex_converts_example : HexConverted 48879
hex_converts_example = hex_converts 48879 (omega arith)

insert_all-Line_example :
    (s' : LogStream) × (insert_all no_text no_text
        (integer int (negsuc 41) ∷ bool true ∷ pointer 255 ∷ c_string none ∷ [])
        empty_line
      ≡ some s')
    × (xs : List ℕ) × Line no_text no_text
        (λ k. omega arith)
        (λ k. omega arith)
        (integer int (negsuc 41) ∷ bool true ∷ pointer 255 ∷ c_string none ∷ [])
        xs
    × (buffer_data s' ≡ buffer_data empty_line ++ xs)
    × Fits s'
insert_all-Line_example =
    insert_all-Line no_text no_text (λ k. omega arith) (λ k. omega arith)
      (integer int (negsuc 41) ∷ bool true ∷ pointer 255 ∷ c_string none ∷ []) empty_line
      (record { room = omega arith }) (omega arith, (tt, (omega arith, (tt, tt))))

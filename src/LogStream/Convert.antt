-- ===== src/LogStream/Convert.antt =====
-- `convert` and `convertHex` of utils/LogStream.cc. The loops have fuel, for at most 64 digits; `none`
-- stands for a read outside of a table, or no more fuel.
use trantor.Prelude.{
  ℕ, zero, suc, ◌+◌, ◌-◌, ◌/◌, ◌%◌, ◌^◌, Bool, true, false, Option, some, none, List, [], ◌∷◌, ◌++◌,
  ◌>>=◌, if◌then◌else◌, ltb, ◌==◌, get_elem?,
}

-- The value of an integer: `negsuc n` is the number - (n + 1).
pub data ℤ : Type 0 where
  pos negsuc : ℕ → ℤ

-- The types that `formatInteger` is called with; `long` has 64 bits, as `long long` has.
pub data IntegerType : Type 0 where
  int unsigned_int long unsigned_long : IntegerType

-- The numbers up to `max`, and those from - `min_size`, that a type holds.
abbrev pub max_of : IntegerType → ℕ
max_of int = 2 ^ 31 - 1
max_of unsigned_int = 2 ^ 32 - 1
max_of long = 2 ^ 63 - 1
max_of unsigned_long = 2 ^ 64 - 1

abbrev pub min_size : IntegerType → ℕ
min_size int = 2 ^ 31
min_size unsigned_int = 0
min_size long = 2 ^ 63
min_size unsigned_long = 0

-- `std::numeric_limits<T>::digits10`, and `kMaxNumericSize` of `formatInteger`.
abbrev pub digits10 : IntegerType → ℕ
digits10 int = 9
digits10 unsigned_int = 9
digits10 long = 18
digits10 unsigned_long = 19

abbrev pub max_numeric_size : IntegerType → ℕ
max_numeric_size t = digits10 t + 4

abbrev pub neg : ℕ → ℤ
neg zero = pos 0
neg (suc n) = negsuc n

-- `/` and `%` of integers, which round towards zero, by a number above it.
abbrev pub div : ℤ → ℕ → ℤ
div (pos n) m = pos (n / m)
div (negsuc n) m = neg (suc n / m)

abbrev pub mod_of : ℤ → ℕ → ℤ
mod_of (pos n) m = pos (n % m)
mod_of (negsuc n) m = neg (suc n % m)

abbrev pub is_zero : ℤ → Bool
is_zero (pos n) = n == 0
is_zero (negsuc n) = false

abbrev pub is_negative : ℤ → Bool
is_negative (pos n) = false
is_negative (negsuc n) = true

abbrev pub digits : List ℕ
digits =
    b'9' ∷ b'8' ∷ b'7' ∷ b'6' ∷ b'5' ∷ b'4' ∷ b'3' ∷ b'2' ∷ b'1' ∷ b'0' ∷ b'1' ∷ b'2' ∷ b'3' ∷ b'4'
    ∷ b'5' ∷ b'6' ∷ b'7' ∷ b'8' ∷ b'9' ∷ []

-- `zero[i]`, where `zero` is `digits + 9`.
abbrev pub zero_at : ℤ → Option ℕ
zero_at (pos n) = get_elem? digits (9 + n)
zero_at (negsuc n) = if ltb 8 n then none else get_elem? digits (8 - n)

abbrev pub digits_hex : List ℕ
digits_hex =
    b'0' ∷ b'1' ∷ b'2' ∷ b'3' ∷ b'4' ∷ b'5' ∷ b'6' ∷ b'7' ∷ b'8' ∷ b'9' ∷ b'A' ∷ b'B' ∷ b'C' ∷ b'D'
    ∷ b'E' ∷ b'F' ∷ []

-- `std::reverse`
abbrev pub reverse : List ℕ → List ℕ
reverse [] = []
reverse (x ∷ xs) = reverse xs ++ (x ∷ [])

-- The loop of `convert`, which gives the bytes that it writes, in order.
unfoldable pub convert_loop : ℕ → ℤ → Option (List ℕ)
convert_loop zero i = none
convert_loop (suc fuel) i =
    let rest = convert_loop fuel (div i 10) in
    zero_at (mod_of i 10) >>= λ c.
    if is_zero (div i 10) then some (c ∷ []) else (rest >>= λ cs. some (c ∷ cs))

-- The bytes from `buf` to `p`; one more, a zero, is written behind them.
unfoldable pub convert : ℤ → Option (List ℕ)
convert value = convert_loop 64 value >>= λ cs.
    some (reverse (cs ++ (if is_negative value then b'-' ∷ [] else [])))

unfoldable pub convert_hex_loop : ℕ → ℕ → Option (List ℕ)
convert_hex_loop zero i = none
convert_hex_loop (suc fuel) i =
    let rest = convert_hex_loop fuel (i / 16) in
    get_elem? digits_hex (i % 16) >>= λ c.
    if i / 16 == 0 then some (c ∷ []) else (rest >>= λ cs. some (c ∷ cs))

unfoldable pub convert_hex : ℕ → Option (List ℕ)
convert_hex value = convert_hex_loop 64 value >>= λ cs. some (reverse cs)

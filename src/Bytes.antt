-- ===== src/Bytes.antt =====
-- Integers in memory on a little-endian host, and the byte order of the network: `hton64` and
-- `ntoh64` of utils/Funcs.h; `htons`, `htonl` and their inverses do the same on 2 and 4 bytes.
pub mod Order
use trantor.Prelude.{ℕ, zero, suc, ◌+◌, ◌*◌, ◌/◌, ◌%◌, List, [], ◌∷◌}
use mathlib.Core.List.{reverse}

-- The bytes of a `k`-byte integer, lowest address first.
unfoldable pub to_memory : ℕ → ℕ → List ℕ
to_memory zero n = []
to_memory (suc k) n = n % 256 ∷ to_memory k (n / 256)

unfoldable pub of_memory : List ℕ → ℕ
of_memory [] = 0
of_memory (x ∷ xs) = x + 256 * of_memory xs

-- A `k`-byte integer with its bytes reversed in place.
unfoldable pub swap_bytes : ℕ → ℕ → ℕ
swap_bytes k n = of_memory (reverse (to_memory k n))

unfoldable pub hton64 : ℕ → ℕ
hton64 n = swap_bytes 8 n

unfoldable pub ntoh64 : ℕ → ℕ
ntoh64 n = hton64 n

unfoldable pub htons : ℕ → ℕ
htons n = swap_bytes 2 n

unfoldable pub htonl : ℕ → ℕ
htonl n = swap_bytes 4 n

-- The `k` bytes of `n` in network order.
unfoldable pub big_endian : ℕ → ℕ → List ℕ
big_endian k n = reverse (to_memory k n)

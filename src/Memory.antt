-- ===== src/Memory.antt =====
-- The raw memory operations that the sources use on a `std::vector<char>`: `memcpy`, `std::copy`,
-- a read through a pointer, `resize`. An access outside the vector is `none`, and so is a
-- `std::copy` whose destination begins inside the source range, which the C++ standard leaves
-- undefined.
pub mod Window
use trantor.Prelude.{
  ℕ, ◌+◌, ◌-◌, ◌≤◌, Bool, not, ◌&&◌, Option, none, some, List, ◌++◌, if◌then◌else◌, leb, ltb,
  length, take, drop, replicate,
}

-- The `n` bytes from index `p` on.
abbrev pub window : ℕ → ℕ → List ℕ → List ℕ
window p n buf = take n (drop p buf)

-- The bytes `xs` written at index `p`.
abbrev pub splice : List ℕ → ℕ → List ℕ → List ℕ
splice buf p xs = take p buf ++ (xs ++ drop (p + length xs) buf)

unfoldable pub read_at : List ℕ → ℕ → ℕ → Option (List ℕ)
read_at buf p n = if leb (p + n) (length buf) then some (window p n buf) else none

unfoldable pub memcpy : List ℕ → ℕ → List ℕ → Option (List ℕ)
memcpy buf p xs = if leb (p + length xs) (length buf) then some (splice buf p xs) else none

-- `std::copy(begin + first, begin + last, begin + dest)`
unfoldable pub std_copy : List ℕ → ℕ → ℕ → ℕ → Option (List ℕ)
std_copy buf first last dest =
    if leb first last
      && (leb last (length buf)
          && (leb (dest + (last - first)) (length buf) && not (leb first dest && ltb dest last)))
    then some (splice buf dest (window first (last - first) buf))
    else none

abbrev pub resize : ℕ → List ℕ → List ℕ
resize n buf = take n (buf ++ replicate (n - length buf) 0)

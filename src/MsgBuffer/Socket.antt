-- ===== src/MsgBuffer/Socket.antt =====
-- `readFd` over a `readv` that scatters into the free storage and a stack buffer, `findCRLF`, and
-- access by index.
pub mod Laws
use trantor.Prelude.{
  ℕ, zero, suc, ◌+◌, ◌-◌, ◌%◌, ◌^◌, Option, some, none, List, [], ◌∷◌, ◌>>=◌, ◌>>◌, assert, true,
  false, ◌&&◌, if◌then◌else◌, leb, ltb, ◌==◌, length, take, drop, add_size, sub_size, get_elem?,
}
use trantor.Memory.{read_at, memcpy}
use trantor.MsgBuffer.{MsgBuffer, readable_bytes, writable_bytes, append}

-- `sizeof extBuffer`
abbrev pub ext_size : ℕ
ext_size = 8192

-- `static_cast<int>` of a `size_t`, widened again with its sign.
abbrev pub int_length : ℕ → ℕ
int_length n = let w = n % 2 ^ 32 in if ltb w (2 ^ 31) then w else 2 ^ 64 - 2 ^ 32 + w

-- What `readv` answers: an error with its `errno`, or the bytes that it took from the socket.
pub data Reply : Type 0 where
  failed : ℕ → Reply
  got : List ℕ → Reply

-- The sum of the lengths that `readFd` hands to `readv`; a correct `readv` stays within it.
unfoldable pub offered : MsgBuffer → ℕ
offered b =
    int_length (writable_bytes b) + (if ltb (writable_bytes b) ext_size then ext_size else 0)

-- The bytes that went to the storage, and those that went to `extBuffer`.
unfoldable pub read_fd : MsgBuffer → Reply → Option (MsgBuffer × Reply)
read_fd b (failed errno) = some (b, failed errno)
read_fd b (got xs) = do
  let writable = writable_bytes b
  let n = length xs
  buf ← memcpy b.buffer b.tail (take (int_length writable) xs)
  let filled = record b { buffer = buf; tail = length buf }
  let ext = drop (int_length writable) xs
  out ←
      if leb n writable
      then some (record b { buffer = buf; tail = add_size b.tail n })
      else append filled (take (sub_size n writable) ext)
  some (out, got xs)

-- `std::search` for "\r\n": the offset of the first match.
unfoldable pub search_crlf : List ℕ → Option ℕ
search_crlf [] = none
search_crlf (x ∷ []) = none
search_crlf (x ∷ y ∷ ys) = elim (x == 13 && y == 10) [
  | true ↦ some 0
  | false ↦ elim (search_crlf (y ∷ ys)) [ none ↦ none | some i ↦ some (suc i) ]
]

-- `findCRLF`, as an offset from `peek()`.
unfoldable pub find_crlf : MsgBuffer → Option (Option ℕ)
find_crlf b = do xs ← read_at b.buffer b.head (readable_bytes b); some (search_crlf xs)

-- `operator[]`
unfoldable pub byte_at : MsgBuffer → ℕ → Option ℕ
byte_at b offset = do
  assert (leb offset (readable_bytes b))
  get_elem? b.buffer (add_size b.head offset)

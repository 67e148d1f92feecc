-- ===== src/MsgBuffer/Wire.antt =====
-- The integer methods of utils/MsgBuffer.cc and MsgBuffer.h: the wire carries network byte order.
pub mod Laws
use trantor.Prelude.{ℕ, Option, some, none, List, [], ◌∷◌, ◌>>=◌, ◌>>◌, assert, leb}
use trantor.Memory.{read_at}
use trantor.Bytes.{to_memory, of_memory, hton64, ntoh64, htons, htonl}
use trantor.MsgBuffer.{MsgBuffer, readable_bytes, append, add_in_front, retrieve}

-- A `k`-byte integer read through `peek()`, behind the assertion that it is there.
unfoldable pub peek_word : ℕ → MsgBuffer → Option ℕ
peek_word k b = do
  assert (leb k (readable_bytes b))
  xs ← read_at b.buffer b.head k
  some (of_memory xs)

unfoldable pub append_int8 : MsgBuffer → ℕ → Option MsgBuffer
append_int8 buf b = append buf (to_memory 1 b)

unfoldable pub append_int16 : MsgBuffer → ℕ → Option MsgBuffer
append_int16 buf s = append buf (to_memory 2 (htons s))

unfoldable pub append_int32 : MsgBuffer → ℕ → Option MsgBuffer
append_int32 buf i = append buf (to_memory 4 (htonl i))

unfoldable pub append_int64 : MsgBuffer → ℕ → Option MsgBuffer
append_int64 buf l = append buf (to_memory 8 (hton64 l))

unfoldable pub add_in_front_int8 : MsgBuffer → ℕ → Option MsgBuffer
add_in_front_int8 buf b = add_in_front buf (to_memory 1 b)

unfoldable pub add_in_front_int16 : MsgBuffer → ℕ → Option MsgBuffer
add_in_front_int16 buf s = add_in_front buf (to_memory 2 (htons s))

unfoldable pub add_in_front_int32 : MsgBuffer → ℕ → Option MsgBuffer
add_in_front_int32 buf i = add_in_front buf (to_memory 4 (htonl i))

unfoldable pub add_in_front_int64 : MsgBuffer → ℕ → Option MsgBuffer
add_in_front_int64 buf l = add_in_front buf (to_memory 8 (hton64 l))

unfoldable pub peek_int8 : MsgBuffer → Option ℕ
peek_int8 buf = peek_word 1 buf

unfoldable pub peek_int16 : MsgBuffer → Option ℕ
peek_int16 buf = do rs ← peek_word 2 buf; some (htons rs)

unfoldable pub peek_int32 : MsgBuffer → Option ℕ
peek_int32 buf = do rs ← peek_word 4 buf; some (htonl rs)

unfoldable pub peek_int64 : MsgBuffer → Option ℕ
peek_int64 buf = do rs ← peek_word 8 buf; some (ntoh64 rs)

unfoldable pub read_int8 : MsgBuffer → Option (ℕ × MsgBuffer)
read_int8 buf = do ret ← peek_int8 buf; some (ret, retrieve buf 1)

unfoldable pub read_int16 : MsgBuffer → Option (ℕ × MsgBuffer)
read_int16 buf = do ret ← peek_int16 buf; some (ret, retrieve buf 2)

unfoldable pub read_int32 : MsgBuffer → Option (ℕ × MsgBuffer)
read_int32 buf = do ret ← peek_int32 buf; some (ret, retrieve buf 4)

unfoldable pub read_int64 : MsgBuffer → Option (ℕ × MsgBuffer)
read_int64 buf = do ret ← peek_int64 buf; some (ret, retrieve buf 8)

-- ===== src/MsgBuffer.antt =====
-- utils/MsgBuffer.h and utils/MsgBuffer.cc: the byte buffer between the sockets and the program.
-- A method returns the new buffer. `none` is a fault: an access outside the vector, a `std::copy`
-- onto an overlapping range to the right, or a failed assertion. Allocation never fails here.
pub mod Bounds
pub mod Append
pub mod Consume
pub mod Front
pub mod Small
pub mod Wire
pub mod Socket
mod Tests
use trantor.Prelude.{
  ℕ, suc, zero, ◌+◌, ◌-◌, ◌*◌, ◌/◌, ◌%◌, ◌^◌, Bool, Option, none, some, List, [], ◌∷◌, ◌++◌,
  if◌then◌else◌, leb, ltb, ◌==◌, ◌>>=◌, ◌>>◌, assert, length, take, drop, replicate, add_size,
  sub_size, mul_size, size_max, min,
}
use mathlib.Core.List.{reverse}
use trantor.Memory.{window, read_at, memcpy, std_copy, resize}

abbrev pub buffer_offset : ℕ
buffer_offset = 8

abbrev pub buffer_default_length : ℕ
buffer_default_length = 2048

pub record MsgBuffer : Type 0 where
  pub head : ℕ
  pub init_cap : ℕ
  pub buffer : List ℕ
  pub tail : ℕ

-- The constructor. The vector's bytes start as zeros.
unfoldable pub new : ℕ → MsgBuffer
new len = record {
  head = buffer_offset;
  init_cap = len;
  buffer = replicate (add_size len buffer_offset) 0;
  tail = buffer_offset;
}

abbrev pub readable_bytes : MsgBuffer → ℕ
readable_bytes b = sub_size b.tail b.head

abbrev pub writable_bytes : MsgBuffer → ℕ
writable_bytes b = sub_size (length b.buffer) b.tail

unfoldable pub swap : MsgBuffer → MsgBuffer → MsgBuffer × MsgBuffer
swap a b = (
  record { head = b.head; init_cap = b.init_cap; buffer = b.buffer; tail = b.tail },
  record { head = a.head; init_cap = a.init_cap; buffer = a.buffer; tail = a.tail },
)

-- The `memcpy` at `tail_` and the step of `tail_` with which both kinds of `append` end.
pub put : MsgBuffer → List ℕ → Option MsgBuffer
put b xs = do
  buf ← memcpy b.buffer b.tail xs
  some (record b { buffer = buf; tail = add_size b.tail (length xs) })

-- `append(const char *, size_t)`, over the `ensureWritableBytes` that it calls.
pub append_by : (MsgBuffer → ℕ → Option MsgBuffer) → MsgBuffer → List ℕ → Option MsgBuffer
append_by ensure b xs = do b' ← ensure b (length xs); put b' xs

-- `append(const MsgBuffer &)` of another buffer.
pub append_buffer_by : (MsgBuffer → ℕ → Option MsgBuffer) → MsgBuffer → MsgBuffer → Option MsgBuffer
append_buffer_by ensure b src = do
  b' ← ensure b (readable_bytes src)
  xs ← read_at src.buffer src.head (readable_bytes src)
  put b' xs

-- The second branch of `ensureWritableBytes`: the readable bytes move to the front.
pub compact : MsgBuffer → Option MsgBuffer
compact b = do
  buf ← std_copy b.buffer b.head b.tail buffer_offset
  some (record b {
    buffer = buf;
    tail = add_size buffer_offset (sub_size b.tail b.head);
    head = buffer_offset;
  })

pub grown_length : MsgBuffer → ℕ → ℕ
grown_length b len =
    let needed = add_size (add_size buffer_offset (readable_bytes b)) len in
    if ltb needed (mul_size (length b.buffer) 2) then mul_size (length b.buffer) 2 else needed

-- The third branch: a new buffer takes the readable bytes over.
pub grow : (MsgBuffer → ℕ → Option MsgBuffer) → MsgBuffer → ℕ → Option MsgBuffer
grow ensure b len = do
  newbuffer ← append_buffer_by ensure (new (grown_length b len)) b
  some (swap b newbuffer).0

-- `ensureWritableBytes` and `append` call each other; the fuel bounds the depth.
pub ensure_fuel : ℕ → MsgBuffer → ℕ → Option MsgBuffer
ensure_fuel zero b len = none
ensure_fuel (suc fuel) b len =
    if leb len (writable_bytes b)
    then some b
    else if leb (add_size len buffer_offset) (add_size b.head (writable_bytes b))
    then compact b
    else grow (ensure_fuel fuel) b len

-- Depth 2: the buffer that `grow` makes has the room already.
unfoldable pub ensure_writable_bytes : MsgBuffer → ℕ → Option MsgBuffer
ensure_writable_bytes b len = ensure_fuel 2 b len

unfoldable pub append : MsgBuffer → List ℕ → Option MsgBuffer
append b xs = append_by ensure_writable_bytes b xs

unfoldable pub append_buffer : MsgBuffer → MsgBuffer → Option MsgBuffer
append_buffer b src = append_buffer_by ensure_writable_bytes b src

unfoldable pub retrieve_all : MsgBuffer → MsgBuffer
retrieve_all b = record b {
  buffer =
      if ltb (mul_size b.init_cap 2) (length b.buffer)
      then resize b.init_cap b.buffer
      else b.buffer;
  tail = buffer_offset;
  head = buffer_offset;
}

unfoldable pub retrieve : MsgBuffer → ℕ → MsgBuffer
retrieve b len =
    if leb (readable_bytes b) len then retrieve_all b else record b { head = add_size b.head len }

-- `std::string ret(peek(), len)` reads the bytes.
unfoldable pub read : MsgBuffer → ℕ → Option (List ℕ × MsgBuffer)
read b len = do
  let n = if ltb (readable_bytes b) len then readable_bytes b else len
  xs ← read_at b.buffer b.head n
  some (xs, retrieve b n)

unfoldable pub has_written : MsgBuffer → ℕ → Option MsgBuffer
has_written b len = do
  assert (leb len (writable_bytes b))
  some (record b { tail = add_size b.tail len })

unfoldable pub unwrite : MsgBuffer → ℕ → Option MsgBuffer
unwrite b offset = do
  assert (leb offset (readable_bytes b))
  some (record b { tail = sub_size b.tail offset })

-- The position is an offset from the vector's begin.
unfoldable pub retrieve_until : MsgBuffer → ℕ → Option MsgBuffer
retrieve_until b end = do
  assert (leb b.head end)
  assert (leb end b.tail)
  some (retrieve b (sub_size end b.head))

pub front_length : MsgBuffer → ℕ → ℕ
front_length b len =
    let needed = add_size len (readable_bytes b) in
    if ltb needed b.init_cap then b.init_cap else needed

-- The first branch of `addInFront`: there is room before `head_`.
pub front_in_place : MsgBuffer → List ℕ → Option MsgBuffer
front_in_place b xs = do
  buf ← memcpy b.buffer (sub_size b.head (length xs)) xs
  some (record b { buffer = buf; head = sub_size b.head (length xs) })

-- The second: the readable bytes move to the right.
pub front_shift : MsgBuffer → List ℕ → Option MsgBuffer
front_shift b xs = do
  moved ← std_copy b.buffer b.head b.tail (add_size b.head (length xs))
  buf ← memcpy moved b.head xs
  some (record b { buffer = buf; tail = add_size b.tail (length xs) })

-- The third: a new buffer takes the new bytes and then the readable ones.
pub front_grow : MsgBuffer → List ℕ → Option MsgBuffer
front_grow b xs = do
  first ← append (new (front_length b (length xs))) xs
  new_buf ← append_buffer first b
  some (swap b new_buf).0

unfoldable pub add_in_front : MsgBuffer → List ℕ → Option MsgBuffer
add_in_front b xs =
    if leb (length xs) b.head
    then front_in_place b xs
    else if leb (length xs) (writable_bytes b)
    then front_shift b xs
    else front_grow b xs

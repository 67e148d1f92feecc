-- ===== src/BufferNode.antt =====
-- net/inner/BufferNode.h and its four classes: what a connection has still to send. A node is a
-- value of a data type with a constructor for each class, and the virtual methods are functions by
-- clauses. `none` is a fault of the buffer underneath.
pub mod Content
use trantor.Prelude.{
  ℕ, ◌-◌, Bool, true, false, not, Option, some, none, List, [], ◌∷◌, ◌++◌, ◌>>=◌, ◌>>◌, assert,
  if◌then◌else◌, leb, ltb, ◌==◌, length, take, drop, min,
}
use trantor.Memory.{read_at, memcpy}
use trantor.MsgBuffer.{
  MsgBuffer, new, buffer_default_length, readable_bytes, writable_bytes, append, retrieve,
  ensure_writable_bytes, has_written,
}

-- `kMaxSendFileBufferSize`
abbrev pub max_send_file_buffer_size : ℕ
max_send_file_buffer_size = 16384

pub record MemBufferNode : Type 0 where
  pub is_done : Bool
  pub buffer : MsgBuffer

-- `source` holds the bytes of the file from the position of the descriptor on.
pub record FileBufferNode : Type 0 where
  pub is_done : Bool
  pub is_open : Bool
  pub bytes_to_send : ℕ
  pub buffer : Option MsgBuffer
  pub source : List ℕ

-- `chunks` holds what the next calls of the user's callback will write; `[]` is the answer 0.
pub record StreamBufferNode : Type 0 where
  pub is_done : Bool
  pub buffer : MsgBuffer
  pub chunks : List (List ℕ)

-- `id` tells the shared objects apart, as their addresses do.
pub record AsyncBufferNode : Type 0 where
  pub id : ℕ
  pub is_done : Bool
  pub buffer : Option MsgBuffer

pub data BufferNode : Type 0 where
  mem : MemBufferNode → BufferNode
  file : FileBufferNode → BufferNode
  stream : StreamBufferNode → BufferNode
  async : AsyncBufferNode → BufferNode

unfoldable pub new_mem_node : BufferNode
new_mem_node = mem (record { is_done = false; buffer = new buffer_default_length })

unfoldable pub new_stream_node : List (List ℕ) → BufferNode
new_stream_node chunks =
    stream (record { is_done = false; buffer = new buffer_default_length; chunks = chunks })

unfoldable pub new_async_node : ℕ → BufferNode
new_async_node id = async (record { id = id; is_done = false; buffer = none })

unfoldable pub closed_file : BufferNode
closed_file =
    file (record { is_done = true; is_open = false; bytes_to_send = 0; buffer = none; source = [] })

unfoldable pub open_file : List ℕ → ℕ → ℕ → BufferNode
open_file bytes offset count = file (record {
  is_done = false;
  is_open = true;
  bytes_to_send = count;
  buffer = none;
  source = drop offset bytes;
})

-- The constructor of `FileBufferNode`. `found` is what `open` and `stat` answer: the file's bytes,
-- or `none` if either fails.
unfoldable pub new_file_node : Option (List ℕ) → ℕ → ℕ → BufferNode
new_file_node none offset count = closed_file
new_file_node (some bytes) offset count =
    if count == 0
    then (if leb (length bytes) offset
        then closed_file
        else open_file bytes offset (length bytes - offset))
    else if ltb (length bytes - offset) count
    then closed_file
    else open_file bytes offset count

abbrev pub is_file : BufferNode → Bool
is_file (file n) = true
is_file _ = false

abbrev pub is_stream : BufferNode → Bool
is_stream (stream n) = true
is_stream (async n) = true
is_stream _ = false

abbrev pub is_async : BufferNode → Bool
is_async (async n) = true
is_async _ = false

unfoldable pub available : BufferNode → Bool
available (mem n) = true
available (file n) = n.is_open
available (stream n) = true
available (async n) = not n.is_done

unfoldable pub remaining_bytes : BufferNode → ℕ
remaining_bytes (mem n) = if n.is_done then 0 else readable_bytes n.buffer
remaining_bytes (file n) = if n.is_done then 0 else n.bytes_to_send
remaining_bytes (stream n) = if n.is_done then 0 else 1
remaining_bytes (async n) = elim n.buffer [ none ↦ 0 | some b ↦ readable_bytes b ]

unfoldable pub done : BufferNode → BufferNode
done (mem n) = mem (record n { is_done = true })
done (file n) = file (record n { is_done = true })
done (stream n) = stream (record n { is_done = true })
done (async n) = async (record n { is_done = true })

-- The bytes that `peek()` and `readableBytes()` show.
unfoldable pub view : MsgBuffer → Option (List ℕ)
view b = read_at b.buffer b.head (readable_bytes b)

-- A call of the user's callback with the free storage of the buffer.
unfoldable pub stream_chunk : StreamBufferNode → List (List ℕ) → Option StreamBufferNode
stream_chunk n [] = some (record n { is_done = true })
stream_chunk n ([] ∷ rest) = some (record n { is_done = true; chunks = rest })
stream_chunk n ((x ∷ xs) ∷ rest) = do
  buf ← memcpy n.buffer.buffer n.buffer.tail (x ∷ xs)
  b ← has_written (record n.buffer { buffer = buf }) (length (x ∷ xs))
  some (record n { buffer = b; chunks = rest })

unfoldable pub fill_stream : StreamBufferNode → Option StreamBufferNode
fill_stream n =
    if readable_bytes n.buffer == 0
    then (ensure_writable_bytes n.buffer max_send_file_buffer_size >>= λ b.
        stream_chunk (record n { buffer = b }) n.chunks)
    else some n

-- The bytes that `FileBufferNode::getData` asks room for.
unfoldable pub file_chunk : FileBufferNode → ℕ
file_chunk n = min max_send_file_buffer_size n.bytes_to_send

-- `read` of a regular file: all that fits, or the rest of the file.
unfoldable pub read_file : FileBufferNode → MsgBuffer → Option FileBufferNode
read_file n b = do
  let xs = take (writable_bytes b) n.source
  buf ← memcpy b.buffer b.tail xs
  b' ← has_written (record b { buffer = buf }) (length xs)
  some (record n { buffer = some b'; source = drop (length xs) n.source })

unfoldable pub fill_file : FileBufferNode → MsgBuffer → Option FileBufferNode
fill_file n b =
    if readable_bytes b == 0
    then (if ltb 0 n.bytes_to_send
        then (if n.is_open
            then (ensure_writable_bytes b (file_chunk n) >>= λ b'. read_file n b')
            else some (record n { buffer = some b }))
        else some (record n { buffer = some b }))
    else some (record n { buffer = some b })

unfoldable pub file_view : FileBufferNode → Option (BufferNode × List ℕ)
file_view n = elim n.buffer [
  | none ↦ some (file n, [])
  | some b ↦ view b >>= λ xs. some (file n, xs)
]

-- `getData`: the node afterwards, and the bytes that it offers.
unfoldable pub get_data : BufferNode → Option (BufferNode × List ℕ)
get_data (mem n) = do xs ← view n.buffer; some (mem n, xs)
get_data (file n) = do
  n' ← elim n.buffer [ none ↦ fill_file n (new (file_chunk n)) | some b ↦ fill_file n b ]
  file_view n'
get_data (stream n) = do n' ← fill_stream n; xs ← view n'.buffer; some (stream n', xs)
get_data (async n) = elim n.buffer [
  | none ↦ some (async n, [])
  | some b ↦ view b >>= λ xs. some (async n, xs)
]

-- An `append` to a file or a stream reaches the base class, which only logs.
unfoldable pub append_node : BufferNode → List ℕ → Option BufferNode
append_node (mem n) xs = do b ← append n.buffer xs; some (mem (record n { buffer = b }))
append_node (file n) xs = some (file n)
append_node (stream n) xs = some (stream n)
append_node (async n) xs = do
  b ← elim n.buffer [ none ↦ append (new (length xs)) xs | some b ↦ append b xs ]
  some (async (record n { buffer = some b }))

-- `retrieve`; on an async node with no buffer its assertion fails.
unfoldable pub retrieve_node : BufferNode → ℕ → Option BufferNode
retrieve_node (mem n) len = some (mem (record n { buffer = retrieve n.buffer len }))
retrieve_node (file n) len = some (
    file (record n {
      buffer = elim n.buffer [ none ↦ none | some b ↦ some (retrieve b len) ];
      bytes_to_send = n.bytes_to_send - len;
    }))
retrieve_node (stream n) len = some (stream (record n { buffer = retrieve n.buffer len }))
retrieve_node (async n) len = elim n.buffer [
  | none ↦ none
  | some b ↦ some (async (record n { buffer = some (retrieve b len) }))
]

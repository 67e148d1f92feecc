-- ===== src/TcpConnection.antt =====
-- net/inner/TcpConnectionImpl.cc without a TLS provider: the writing half of a connection, and how
-- it closes. The calls that run in the loop thread are functions on the state; a call from another
-- thread is the same function, run when the loop reaches it. The kernel is a parameter: its answer
-- to the k-th `write` or `sendfile` on the socket, given the number of bytes offered.
pub mod Send
pub mod Raw
pub mod Stream
pub mod Order
pub mod Drain
pub mod Loop
pub mod Callback
pub mod Drains
pub mod FileNode
pub mod File
pub mod Lost
pub mod Life
mod Tests
use trantor.Prelude.{
  ℕ, zero, suc, ◌+◌, ◌-◌, ◌%◌, ◌^◌, Bool, true, false, not, ◌&&◌, ◌||◌, Option, some, none, List,
  [], ◌∷◌, ◌++◌, ◌>>=◌, if◌then◌else◌, leb, ltb, ◌==◌, length, take, drop, min, add_size, ◌≤◌, ◌≡◌,
}
use trantor.BufferNode.{
  BufferNode, new_mem_node, new_stream_node, is_file, is_stream, is_async, available,
  remaining_bytes, done, get_data, append_node, retrieve_node, FileBufferNode,
}

-- `ConnStatus`
pub data Status : Type 0 where
  disconnected connecting connected disconnecting : Status

abbrev pub is_connected : Status → Bool
is_connected connected = true
is_connected _ = false

abbrev pub is_disconnecting : Status → Bool
is_disconnecting disconnecting = true
is_disconnecting _ = false

-- What the connection does besides changing its own fields.
pub data Event : Type 0 where
  high_water : ℕ → Event
  extend_life shut_write connection_callback close_callback : Event

-- `wire` holds what the kernel has taken, in order; `calls` counts the calls of the kernel.
-- `high_water_mark` is the registered mark, if a callback is registered.
pub record Conn : Type 0 where
  pub status : Status
  pub reading : Bool
  pub writing : Bool
  pub write_buffer_list : List BufferNode
  pub close_on_empty : Bool
  pub bytes_sent : ℕ
  pub high_water_mark : Option ℕ
  pub wire : List ℕ
  pub calls : ℕ
  pub events : List Event

-- The answer of `write` or `sendfile`: a number of bytes with the `errno` that stands then, or -1.
pub data Answer : Type 0 where
  wrote : ℕ → ℕ → Answer
  failed : ℕ → Answer

-- What the code's own functions return: a number of bytes, or -1.
pub data Sent : Type 0 where
  sent : ℕ → Sent
  error : Sent

-- `EWOULDBLOCK` and `EAGAIN` are 11 on Linux.
abbrev pub eagain : ℕ
eagain = 11

unfoldable pub is_eagain : ℕ → Bool
is_eagain errno = errno == eagain || errno == 0

-- `n < static_cast<int>(length)` for an `int` that is not negative.
unfoldable pub below_int : ℕ → ℕ → Bool
below_int n len = let w = len % 2 ^ 32 in ltb w (2 ^ 31) && ltb n w

unfoldable pub enable_writing : Conn → Conn
enable_writing c = record c { writing = true }

unfoldable pub log : Event → Conn → Conn
log e c = record c { events = c.events ++ (e ∷ []) }

-- The end of `writeRaw`: `n` bytes went out, of `xs`.
unfoldable pub wrote_some : Conn → List ℕ → ℕ → Conn × Sent
wrote_some c xs n =
    (log extend_life (if below_int n (length xs) then enable_writing c else c), sent n)

unfoldable pub after_write : Conn → List ℕ → Answer → Conn × Sent
after_write c xs (wrote n errno) =
    if ltb 0 n
    then wrote_some (record c { bytes_sent = add_size c.bytes_sent n; wire = c.wire ++ take n xs })
        xs n
    else if is_eagain errno
    then wrote_some c xs 0
    else (c, sent 0)
after_write c xs (failed errno) = if is_eagain errno then wrote_some c xs 0 else (c, error)

abbrev pub next_call : Conn → Conn
next_call c = record c { calls = suc c.calls }

-- The node at the end of the list takes the bytes.
unfoldable pub append_back : List BufferNode → List ℕ → Option (List BufferNode)
append_back [] xs = none
append_back (n ∷ []) xs = append_node n xs >>= λ n'. some (n' ∷ [])
append_back (n ∷ m ∷ ns) xs = append_back (m ∷ ns) xs >>= λ ns'. some (n ∷ ns')

abbrev pub back? : List BufferNode → Option BufferNode
back? [] = none
back? (n ∷ []) = some n
back? (n ∷ m ∷ ns) = back? (m ∷ ns)

-- Whether `sendInLoop` starts a new memory node.
unfoldable pub needs_node : List BufferNode → Bool
needs_node ns = elim (back? ns) [ none ↦ true | some n ↦ is_file n || is_stream n ]

unfoldable pub check_high_water : Conn → Conn
check_high_water c = elim c.high_water_mark [
  | none ↦ c
  | some mark ↦ elim (back? c.write_buffer_list) [
    | none ↦ c
    | some n ↦ if ltb mark (remaining_bytes n) then log (high_water (remaining_bytes n)) c else c
  ]
]

-- The second half of `sendInLoop`: what was not written at once goes into the list.
unfoldable pub queue_rest : Conn → List ℕ → Option Conn
queue_rest c xs =
    if ltb 0 (length xs) && is_connected c.status
    then (append_back
          (if needs_node c.write_buffer_list
            then c.write_buffer_list ++ (new_mem_node ∷ [])
            else c.write_buffer_list)
          xs
        >>= λ ns. some (check_high_water (record c { write_buffer_list = ns })))
    else some c

abbrev pub is_empty {ℓ} : {A : Type ℓ} → List A → Bool
is_empty [] = true
is_empty (x ∷ xs) = false

unfoldable pub push_node : Conn → BufferNode → Conn
push_node c n = record c { write_buffer_list = c.write_buffer_list ++ (n ∷ []) }

-- The kernel.
abbrev pub Kernel : Type 0
Kernel = ℕ → ℕ → Answer

module _ (os : Kernel) where
  unfoldable pub write_raw : Conn → List ℕ → Conn × Sent
  write_raw c xs = after_write (next_call c) xs (os c.calls (length xs))

  unfoldable pub send_in_loop : Conn → List ℕ → Option Conn
  send_in_loop c xs =
      if not (is_connected c.status)
      then some c
      else if not c.writing && is_empty c.write_buffer_list
      then (let (c', r) = write_raw c xs in
          elim r [ error ↦ some c' | sent n ↦ queue_rest c' (drop n xs) ])
      else queue_rest c xs

-- `shutdown`, run in the loop.
unfoldable pub shutdown : Conn → Conn
shutdown c =
    if is_connected c.status
    then (if is_empty c.write_buffer_list
        then (let c' = record c { status = disconnecting } in
            if c.writing then c' else log shut_write c')
        else record c { close_on_empty = true })
    else c

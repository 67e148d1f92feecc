-- ===== src/TcpConnection/Send.antt =====
-- `sendNodeInLoop`, `writeCallback`, `sendFile` and `sendStream` of net/inner/TcpConnectionImpl.cc,
-- in the loop thread. The loops take fuel: `none` is a fault or fuel that ran out.
use trantor.Prelude.{
  ℕ, zero, suc, ◌+◌, Bool, true, false, not, ◌&&◌, ◌||◌, Option, some, none, List, [], ◌∷◌, ◌++◌,
  ◌>>=◌, ◌>>◌, assert, if◌then◌else◌, ltb, ◌==◌, length, take, drop, min, add_size,
}
use trantor.BufferNode.{
  BufferNode, FileBufferNode, file, new_file_node, new_stream_node, is_file, is_async, available,
  remaining_bytes, done, get_data, retrieve_node,
}
use trantor.TcpConnection.{
  Conn, Answer, wrote, failed, Sent, sent, error, extend_life, Kernel, write_raw, next_call,
  is_eagain, enable_writing, log, push_node, is_empty, shutdown,
}

-- `kMaxSendBytes`
abbrev pub max_send_bytes : ℕ
max_send_bytes = 0x7ffff000

-- `sendfile` sent `n` bytes from the descriptor's position.
unfoldable pub sent_file : Conn → FileBufferNode → ℕ → Option (Conn × BufferNode)
sent_file c n k = do
  n' ← retrieve_node (file (record n { source = drop k n.source })) k
  some (record c { bytes_sent = add_size c.bytes_sent k; wire = c.wire ++ take k n.source }, n')

-- The end of the `sendfile` branch, with the number of bytes sent (0 also for a -1 that is EAGAIN).
unfoldable pub sent_file_end : Conn → ℕ → ℕ → Conn
sent_file_end c k to_send =
    let c' = log extend_life c in if ltb k to_send then enable_writing c' else c'

-- `return bytesSent` gives the -1 of the kernel back, EAGAIN or not.
unfoldable pub after_sendfile :
    Conn → FileBufferNode → ℕ → Answer → Option (Conn × BufferNode × Sent)
after_sendfile c n to_send (wrote k errno) =
    if ltb 0 k
    then (do (c', n') ← sent_file c n k; some (sent_file_end c' k to_send, n', sent k))
    else if is_eagain errno
    then some (sent_file_end c 0 to_send, file n, sent 0)
    else some (c, file n, error)
after_sendfile c n to_send (failed errno) =
    if is_eagain errno
    then some (sent_file_end c 0 to_send, file n, error)
    else some (c, file n, error)

-- The loop's body behind `writeInLoop`, with the loop's next pass.
unfoldable pub after_chunk :
    (Conn → BufferNode → ℕ → Option (Conn × BufferNode × Sent))
    → BufferNode
    → ℕ
    → ℕ
    → Conn × Sent
    → Option (Conn × BufferNode × Sent)
after_chunk again n len has_sent (c, error) = some (c, n, error)
after_chunk again n len has_sent (c, sent k) = retrieve_node n k >>= λ n'. elim (ltb k len) [
  | true ↦ some (c, n', sent (has_sent + k))
  | false ↦ again c n' (has_sent + k)
]

abbrev pub is_error : Sent → Bool
is_error error = true
is_error (sent k) = false

-- The end of `writeCallback`, below its loop.
unfoldable pub after_drain : Conn × Bool → Conn
after_drain (c, false) = c
after_drain (c, true) =
    let c' = record c { writing = false } in if c.close_on_empty then shutdown c' else c'

module _ (os : Kernel) where
  unfoldable pub send_file_node : Conn → FileBufferNode → Option (Conn × BufferNode × Sent)
  send_file_node c n =
      let to_send = remaining_bytes (file n) in
      if to_send == 0
      then some (c, file n, error)
      else after_sendfile (next_call c) n to_send (os c.calls (min to_send max_send_bytes))

  -- The loop over the chunks of a node that is no file.
  unfoldable pub send_chunks : ℕ → Conn → BufferNode → ℕ → Option (Conn × BufferNode × Sent)
  send_chunks zero c n has_sent = none
  send_chunks (suc fuel) c n has_sent = elim (remaining_bytes n == 0) [
    | true ↦ some (c, n, sent has_sent)
    | false ↦ get_data n >>= λ (n', chunk). elim (is_empty chunk) [
      | true ↦ some (c, done n', sent has_sent)
      | false ↦ after_chunk (send_chunks fuel) n' (length chunk) has_sent (write_raw os c chunk)
    ]
  ]

  unfoldable pub send_node_in_loop : ℕ → Conn → BufferNode → Option (Conn × BufferNode × Sent)
  send_node_in_loop fuel c n = elim n [
    | file f ↦ send_file_node c f
    | other ↦ send_chunks fuel c other 0
  ]

  -- The loop of `writeCallback`. `true` says that the list ran empty and the code went on below
  -- the loop.
  unfoldable pub drain : ℕ → ℕ → Conn → List BufferNode → Option (Conn × Bool)
  drain fuel zero c ns = none
  drain fuel (suc rounds) c [] = some (record c { write_buffer_list = [] }, true)
  drain fuel (suc rounds) c (n ∷ ns) = elim (remaining_bytes n == 0) [
    | true ↦ elim (not (is_async n) || not (available n)) [
      | true ↦ drain fuel rounds c ns
      | false ↦ some (record c { write_buffer_list = n ∷ ns; writing = false }, false)
    ]
    | false ↦ send_node_in_loop fuel c n >>= λ (c', n', r).
        elim (ltb 0 (remaining_bytes n') || is_error r) [
          | true ↦ some (record c' { write_buffer_list = n' ∷ ns }, false)
          | false ↦ drain fuel rounds c' (n' ∷ ns)
        ]
  ]

  -- Called without interest in writing, it only logs.
  unfoldable pub write_callback : ℕ → ℕ → Conn → Option Conn
  write_callback fuel rounds c =
      if c.writing
      then (drain fuel rounds c c.write_buffer_list >>= λ r. some (after_drain r))
      else some c

  -- A node that finds the list empty is sent at once, and kept if some of it is left.
  unfoldable pub send_now : ℕ → Conn → BufferNode → Option Conn
  send_now fuel c n = do
    (c', n', r) ← send_node_in_loop fuel c n
    some (if ltb 0 (remaining_bytes n') && not (is_error r) then push_node c' n' else c')

  -- `sendFile(BufferNodePtr &&)`, behind its assertion.
  unfoldable pub send_file_buffer : ℕ → Conn → BufferNode → Option Conn
  send_file_buffer fuel c n = do
    assert (is_file n && ltb 0 (remaining_bytes n))
    if is_empty c.write_buffer_list then send_now fuel c n else some (push_node c n)

  -- `sendFile(fileName, offset, length)`: a file that does not open is given up.
  unfoldable pub send_file : ℕ → Conn → Option (List ℕ) → ℕ → ℕ → Option Conn
  send_file fuel c found offset count =
      let n = new_file_node found offset count in
      if available n then send_file_buffer fuel c n else some c

  -- `sendStream` called in the loop thread: there is no `else`.
  unfoldable pub send_stream : ℕ → Conn → List (List ℕ) → Option Conn
  send_stream fuel c chunks =
      if is_empty c.write_buffer_list then send_now fuel c (new_stream_node chunks) else some c

  -- `sendStream` called in another thread, when the loop runs what it queued.
  unfoldable pub send_stream_queued : ℕ → Conn → List (List ℕ) → Option Conn
  send_stream_queued fuel c chunks =
      if is_empty c.write_buffer_list
      then send_now fuel c (new_stream_node chunks)
      else some (push_node c (new_stream_node chunks))

-- ===== src/TcpConnection/Lost.antt =====
-- Two calls whose bytes do not go the way of the others.
use trantor.Prelude.{
  ℕ, ◌+◌, ◌%◌, ◌≤◌, ◌<◌, ◌^◌, ◌≡◌, refl, sym, ap, subst, ◌∙◌, true, false, some, List, [], ◌++◌,
  arith, length, take, drop, length-drop, add_size, lt→ltb,
}
use trantor.BufferNode.{new_stream_node}
use trantor.BufferNode.Content.{pending, backlog, until_empty}
use trantor.MsgBuffer.{buffer_default_length}
use trantor.MsgBuffer.Bounds.{new-Holds}
use trantor.MsgBuffer.Append.{size_limit}
use trantor.TcpConnection.{
  Conn, sent, Kernel, wrote, is_empty, push_node, log, next_call, is_connected, extend_life,
  write_raw, after_write, wrote_some, below_int, queue_rest, send_in_loop,
}
use trantor.TcpConnection.Raw.{outgoing}
use trantor.TcpConnection.Order.{direct_when, after_raw}
use trantor.TcpConnection.Stream.{BackFits, queue_rest-Queued}
use trantor.TcpConnection.Send.{send_stream, send_stream_queued}
use trantor.TcpConnection.FileNode.{push_node-outgoing}

new_stream_node-pending :
    (chunks : List (List ℕ)) → pending (new_stream_node chunks) ≡ until_empty chunks
unfolding new_stream_node
new_stream_node-pending chunks =
    ap (λ l. l ++ until_empty chunks)
      (new-Holds buffer_default_length (omega arith) (omega arith)).0.bytes

-- While something waits in the list, a stream sent from another thread comes behind it; the same
-- call in the loop thread drops the stream.
pub send_stream-Dropped :
    (os : Kernel) (fuel : ℕ) (c : Conn) (chunks : List (List ℕ))
    → is_empty c.write_buffer_list ≡ false
    → (send_stream os fuel c chunks ≡ some c)
      × (d : Conn) × (send_stream_queued os fuel c chunks ≡ some d)
      × (outgoing d ≡ outgoing c ++ until_empty chunks)
unfolding send_stream send_stream_queued
send_stream-Dropped os fuel c chunks waits = (
  rw waits,
  push_node c (new_stream_node chunks),
  rw waits,
  push_node-outgoing c (new_stream_node chunks) c.wire _ _ refl (new_stream_node-pending chunks)
      refl,
)

not_below : (n len : ℕ) → 2 ^ 31 ≤ len % 2 ^ 32 → below_int n len ≡ false
unfolding below_int
not_below n len wraps = ground arith

-- `writeRaw` of bytes whose number has bit 31 set: the rest is not seen as a rest.
wrote_some-wrapped :
    (d : Conn) (xs : List ℕ) (n : ℕ)
    → 2 ^ 31 ≤ length xs % 2 ^ 32
    → wrote_some d xs n ≡ (log extend_life d, sent n)
unfolding wrote_some
wrote_some-wrapped d xs n wraps = rw (not_below n (length xs) wraps)

-- The connection after it.
abbrev partly : Conn → List ℕ → ℕ → Conn
partly c xs n =
    log extend_life
      (record (next_call c) { bytes_sent = add_size c.bytes_sent n; wire = c.wire ++ take n xs })

write_raw-wrapped :
    (os : Kernel) (c : Conn) (xs : List ℕ) (n errno : ℕ)
    → os c.calls (length xs) ≡ wrote n errno
    → 0 < n
    → 2 ^ 31 ≤ length xs % 2 ^ 32
    → write_raw os c xs ≡ (partly c xs n, sent n)
unfolding write_raw after_write
write_raw-wrapped os c xs n errno e some_bytes wraps =
    rw (e, lt→ltb 0 n some_bytes) (wrote_some-wrapped _ xs n wraps)

partly-same :
    (c : Conn) (xs : List ℕ) (n : ℕ)
    → let d = partly c xs n in
      (d.write_buffer_list ≡ c.write_buffer_list) × (d.writing ≡ c.writing) × (d.status ≡ c.status)
unfolding log
partly-same c xs n = (refl, refl, refl)

direct_sent :
    (os : Kernel) (c d : Conn) (xs : List ℕ) (n : ℕ)
    → is_connected c.status ≡ true
    → c.write_buffer_list ≡ []
    → c.writing ≡ false
    → write_raw os c xs ≡ (d, sent n)
    → send_in_loop os c xs ≡ queue_rest d (drop n xs)
direct_sent os c d xs n up none_waits off e =
    direct_when os c xs up (rw (off, ap is_empty none_waits) refl) ∙ ap (after_raw xs) e

-- `sendInLoop` of bytes whose number has bit 31 set, on an idle connection, where the kernel takes
-- a part of them: the rest waits in the list, but writing is not enabled, so that nothing sends it.
pub send_in_loop-Stalls :
    (os : Kernel) (c : Conn) (xs : List ℕ) (n errno : ℕ)
    → is_connected c.status ≡ true
    → c.write_buffer_list ≡ []
    → c.writing ≡ false
    → os c.calls (length xs) ≡ wrote n errno
    → 0 < n
    → 2 ^ 31 ≤ length xs % 2 ^ 32
    → length xs + 2056 < size_limit
    → (d : Conn) × (send_in_loop os c xs ≡ some d)
      × (d.writing ≡ false)
      × (backlog d.write_buffer_list ≡ drop n xs)
send_in_loop-Stalls os c xs n errno up none_waits off answer some_bytes wraps room =
    let w = write_raw-wrapped os c xs n errno answer some_bytes wraps in
    let (list, writing, status) = partly-same c xs n in
    let fits : BackFits (partly c xs n).write_buffer_list (length (drop n xs)) =
      subst (λ l. BackFits l (length (drop n xs))) (sym (list ∙ none_waits)) tt in
    let q =
      queue_rest-Queued (partly c xs n) (drop n xs) (ap is_connected status ∙ up) fits
        (omega (arith, length-drop n xs)) in
    (
      q.out,
      direct_sent os c (partly c xs n) xs n up none_waits off w ∙ q.returns,
      q.same_writing ∙ writing ∙ off,
      q.bytes ∙ ap (λ l. backlog l ++ drop n xs) (list ∙ none_waits),
    )

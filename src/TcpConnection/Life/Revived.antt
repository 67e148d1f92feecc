-- ===== src/TcpConnection/Life/Revived.antt =====
-- `sendFile` on a connection that is down: the source does not look at the status.
use trantor.Prelude.{ℕ, ◌-◌, ◌<◌, ◌≡◌, refl, ap, ◌∙◌, true, some, none, [], min, arith, ltb, lt→ltb}
use trantor.BufferNode.{file, remaining_bytes, FileBufferNode}
use trantor.TcpConnection.{
  Conn, Kernel, wrote, sent, disconnected, next_call, push_node, log, enable_writing,
}
use trantor.TcpConnection.Send.{
  send_file_buffer, send_node_in_loop, after_sendfile, max_send_bytes, sent_file_end,
}
use trantor.TcpConnection.FileNode.{
  Ready, rest, progress, asks, after_sendfile-wrote, send_now-file,
}
use trantor.TcpConnection.Life.{Link, connect_destroyed, remove_channel}

more_waits :
    (n : FileBufferNode) (k : ℕ)
    → Ready n
    → k < n.bytes_to_send
    → ltb 0 (remaining_bytes (rest n k)) ≡ true
unfolding remaining_bytes
more_waits n k ready h = rw ready.undone (lt→ltb 0 (n.bytes_to_send - k) (omega arith))

writes_on :
    (c : Conn) (n : FileBufferNode) (k : ℕ)
    → k < n.bytes_to_send
    → let d = push_node (progress c n k) (rest n k) in (d.status ≡ c.status) × (d.writing ≡ true)
unfolding push_node sent_file_end log enable_writing
writes_on c n k h = ground arith

stays :
    (l : Link) (d : Conn)
    → d.status ≡ disconnected
    → d.writing ≡ true
    → connect_destroyed (record l { conn = d }) ≡ none
unfolding connect_destroyed remove_channel
stays l d gone on = ground arith

-- A connection that is down and has nothing to send, and a file of which the kernel takes only a
-- part: `sendFile` writes this part to the socket, queues the rest and enables writing again, so
-- `connectDestroyed` fails the assertion of `Channel::remove`.
pub send_file_buffer-connect_destroyed :
    (os : Kernel) (fuel : ℕ) (l : Link) (n : FileBufferNode) (k errno : ℕ)
    → l.conn.status ≡ disconnected
    → l.conn.write_buffer_list ≡ []
    → Ready n
    → os l.conn.calls (min n.bytes_to_send max_send_bytes) ≡ wrote k errno
    → 0 < k
    → k < n.bytes_to_send
    → (d : Conn) × (send_file_buffer os fuel l.conn (file n) ≡ some d)
      × (d.writing ≡ true)
      × (connect_destroyed (record l { conn = d }) ≡ none)
send_file_buffer-connect_destroyed os fuel l n k errno gone none_waits ready answer more less =
    let d = progress (next_call l.conn) n k in
    let e : send_node_in_loop os fuel l.conn (file n) ≡ some (d, rest n k, sent k) =
      asks os fuel l.conn n ready
      ∙ ap (λ a. after_sendfile (next_call l.conn) n n.bytes_to_send a) answer
      ∙ after_sendfile-wrote (next_call l.conn) n k errno more in
    let (state, on) = writes_on (next_call l.conn) n k less in
    (
      push_node d (rest n k),
      send_now-file os fuel l.conn d n (rest n k) (sent k) none_waits ready e
          ∙ ap some (rw (more_waits n k ready less) refl),
      on,
      stays l (push_node d (rest n k)) (state ∙ gone) on,
    )

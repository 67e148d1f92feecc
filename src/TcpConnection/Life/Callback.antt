-- ===== src/TcpConnection/Life/Callback.antt =====
-- `writeCallback` makes no callback, and changes the status only by `shutdown`.
use trantor.Prelude.{
  ℕ, zero, suc, ◌+◌, refl, Bool, true, false, not, ◌||◌, Option, List, [], ◌∷◌, ltb, ◌==◌, length,
  take, drop, add_size, ◌++◌,
}
use trantor.BufferNode.{
  BufferNode, mem, file, stream, async, remaining_bytes, done, get_data, retrieve_node, is_async,
  available, FileBufferNode,
}
use trantor.TcpConnection.{
  Conn, Answer, wrote, failed, Sent, sent, error, Kernel, is_eagain, is_empty, next_call, write_raw,
}
use trantor.TcpConnection.Send.{
  sent_file, after_sendfile, after_chunk, after_drain, is_error, send_file_node, send_chunks,
  send_node_in_loop, drain, write_callback,
}
use trantor.TcpConnection.Life.Loud.{
  Quiet, Quiet-keep, Quiet-refl, Quiet-trans, Quietly, Quietly-none, Quietly-some, Quietly-bind,
  Quietly-if, Quietly-case, Quietly-from,
}
use trantor.TcpConnection.Life.Quiet.{
  itself, first, write_raw-Quiet, shutdown-Quiet, sent_file_end-Quiet, if-Quiet,
}

abbrev pair : Conn × BufferNode → Conn
pair (c, n) = c

abbrev drained : Conn × Bool → Conn
drained (c, b) = c

after_drain-Quiet : (r : Conn × Bool) → Quiet (drained r) (after_drain r)
unfolding after_drain
after_drain-Quiet (c, false) = Quiet-refl c
after_drain-Quiet (c, true) =
    let off = Quiet-keep c (record c { writing = false }) refl refl refl in
    if-Quiet c.close_on_empty (Quiet-trans off (shutdown-Quiet _)) off

sent_file-Quietly : (c : Conn) (n : FileBufferNode) (k : ℕ) → Quietly pair c (sent_file c n k)
unfolding sent_file
sent_file-Quietly c n k =
    Quietly-bind pair c {o = retrieve_node (file (record n { source = drop k n.source })) k} (λ m e.
      Quietly-some pair c
        (record c { bytes_sent = add_size c.bytes_sent k; wire = c.wire ++ take k n.source }, m)
        (Quiet-keep c _ refl refl refl))

after_sendfile-Quietly :
    (c : Conn) (n : FileBufferNode) (to_send : ℕ) (a : Answer)
    → Quietly first c (after_sendfile c n to_send a)
unfolding after_sendfile
after_sendfile-Quietly c n to_send (wrote k errno) =
    Quietly-if first c (ltb 0 k)
      (Quietly-bind first c (λ (d, m) e.
        Quietly-some first c _ (
          Quiet-trans ((sent_file-Quietly c n k).each (d, m) e) (sent_file_end-Quiet d k to_send))))
      (Quietly-if first c (is_eagain errno)
        (Quietly-some first c _ (sent_file_end-Quiet c 0 to_send))
        (Quietly-some first c _ (Quiet-refl c)))
after_sendfile-Quietly c n to_send (failed errno) =
    Quietly-if first c (is_eagain errno) (Quietly-some first c _ (sent_file_end-Quiet c 0 to_send))
      (Quietly-some first c _ (Quiet-refl c))

after_chunk-Quietly :
    (again : Conn → BufferNode → ℕ → Option (Conn × BufferNode × Sent)) (c : Conn) (n : BufferNode)
    (len has_sent : ℕ) (r : Conn × Sent)
    → ((d : Conn) (m : BufferNode) (k : ℕ) → Quietly first d (again d m k))
    → Quiet c r.0
    → Quietly first c (after_chunk again n len has_sent r)
unfolding after_chunk
after_chunk-Quietly again c n len has_sent (d, error) rec q = Quietly-some first c _ q
after_chunk-Quietly again c n len has_sent (d, sent k) rec q =
    Quietly-bind first c {o = retrieve_node n k} (λ m e.
      Quietly-case first c (ltb k len) (Quietly-some first c (d, m, sent (has_sent + k)) q)
        (Quietly-from first q (rec d m (has_sent + k))))

module _ (os : Kernel) where
  send_file_node-Quietly : (c : Conn) (n : FileBufferNode) → Quietly first c (send_file_node os c n)
  unfolding send_file_node
  send_file_node-Quietly c n = Quietly-if first c _ (Quietly-some first c _ (Quiet-refl c)) (
      Quietly-from first (Quiet-keep c (next_call c) refl refl refl)
        (after_sendfile-Quietly (next_call c) n _ _))

  send_chunks-Quietly :
      (fuel : ℕ) (c : Conn) (n : BufferNode) (sum : ℕ)
      → Quietly first c (send_chunks os fuel c n sum)
  unfolding send_chunks
  send_chunks-Quietly zero c n sum = Quietly-none first c
  send_chunks-Quietly (suc fuel) c n sum =
      Quietly-case first c (remaining_bytes n == 0) (Quietly-some first c _ (Quiet-refl c)) (
        Quietly-bind first c {o = get_data n} (λ (m, chunk) e.
          Quietly-case first c (is_empty chunk)
            (Quietly-some first c (c, done m, sent sum) (Quiet-refl c))
            (after_chunk-Quietly (send_chunks os fuel) c m (length chunk) sum (write_raw os c chunk)
              (send_chunks-Quietly fuel) (write_raw-Quiet os c chunk))))

  send_node_in_loop-Quietly :
      (fuel : ℕ) (c : Conn) (n : BufferNode) → Quietly first c (send_node_in_loop os fuel c n)
  unfolding send_node_in_loop
  send_node_in_loop-Quietly fuel c (mem m) = send_chunks-Quietly fuel c (mem m) 0
  send_node_in_loop-Quietly fuel c (file f) = send_file_node-Quietly c f
  send_node_in_loop-Quietly fuel c (stream f) = send_chunks-Quietly fuel c (stream f) 0
  send_node_in_loop-Quietly fuel c (async f) = send_chunks-Quietly fuel c (async f) 0

  drain-Quietly :
      (fuel rounds : ℕ) (c : Conn) (ns : List BufferNode)
      → Quietly drained c (drain os fuel rounds c ns)
  unfolding drain
  drain-Quietly fuel zero c ns = Quietly-none drained c
  drain-Quietly fuel (suc rounds) c [] = Quietly-some drained c _ (Quiet-keep c _ refl refl refl)
  drain-Quietly fuel (suc rounds) c (n ∷ ns) =
      Quietly-case drained c (remaining_bytes n == 0)
        (Quietly-case drained c (not (is_async n) || not (available n))
          (drain-Quietly fuel rounds c ns)
          (Quietly-some drained c _ (Quiet-keep c _ refl refl refl)))
        (Quietly-bind drained c {o = send_node_in_loop os fuel c n} (λ (d, m, r) e.
          let q = (send_node_in_loop-Quietly fuel c n).each (d, m, r) e in
          Quietly-case drained c (ltb 0 (remaining_bytes m) || is_error r)
            (Quietly-some drained c (record d { write_buffer_list = m ∷ ns }, false)
              (Quiet-trans q (Quiet-keep d _ refl refl refl)))
            (Quietly-from drained q (drain-Quietly fuel rounds d (m ∷ ns)))))

  pub write_callback-Quietly :
      (fuel rounds : ℕ) (c : Conn) → Quietly itself c (write_callback os fuel rounds c)
  unfolding write_callback
  write_callback-Quietly fuel rounds c =
      Quietly-if itself c c.writing
        (Quietly-bind itself c {o = drain os fuel rounds c c.write_buffer_list} (λ r e.
          Quietly-some itself c (after_drain r) (
            Quiet-trans ((drain-Quietly fuel rounds c c.write_buffer_list).each r e)
              (after_drain-Quiet r))))
        (Quietly-some itself c c (Quiet-refl c))

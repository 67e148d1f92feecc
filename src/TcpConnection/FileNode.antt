-- ===== src/TcpConnection/FileNode.antt =====
-- One `sendfile` of a node, and the steps of `sendFile`.
use trantor.Prelude.{
  ℕ, zero, suc, ◌-◌, ◌≤◌, ◌<◌, ◌≡◌, inl, inr, refl, sym, ap, ◌∙◌, Bool, true, false, not, ◌&&◌,
  some, none, List, [], ◌∷◌, ◌++◌, arith, length, take, drop, append-nil, append_assoc,
  if◌then◌else◌, ltb, ◌==◌, Bool-cases, min, add_size, lt→ltb, ap₂,
}
use trantor.BufferNode.{BufferNode, FileBufferNode, file, remaining_bytes, retrieve_node}
use trantor.MsgBuffer.{retrieve}
use trantor.BufferNode.Content.{pending, backlog, backlog-append}
use trantor.TcpConnection.{
  Conn, Sent, sent, error, Kernel, wrote, failed, is_empty, push_node, is_eagain, enable_writing,
  log, next_call,
}
use trantor.TcpConnection.Raw.{outgoing}
use trantor.TcpConnection.Order.{Armed, Sends, busy_writing}
use trantor.TcpConnection.Send.{
  max_send_bytes, sent_file, sent_file_end, after_sendfile, send_file_node, send_node_in_loop,
  is_error, send_now, send_file_buffer,
}

-- An open file with bytes to send, of which the file has as many.
pub record Ready (n : FileBufferNode) : Type 0 where
  pub undone : n.is_done ≡ false
  pub some_bytes : 0 < n.bytes_to_send
  pub backed : n.bytes_to_send ≤ length n.source

-- The node once `k` bytes are gone.
abbrev pub rest_file : FileBufferNode → ℕ → FileBufferNode
rest_file n k = record n {
  source = drop k n.source;
  buffer = elim n.buffer [ none ↦ none | some b ↦ some (retrieve b k) ];
  bytes_to_send = n.bytes_to_send - k;
}

abbrev pub rest : FileBufferNode → ℕ → BufferNode
rest n k = file (rest_file n k)

pub sent_file-rest :
    (c : Conn) (n : FileBufferNode) (k : ℕ)
    → sent_file c n k
      ≡ some (
        record c { bytes_sent = add_size c.bytes_sent k; wire = c.wire ++ take k n.source },
        rest n k,
      )
unfolding sent_file retrieve_node
sent_file-rest c n k = refl

pub pos-not-zero : {m : ℕ} → 0 < m → (m == 0) ≡ false
pos-not-zero h = ground arith

-- The connection then.
abbrev pub progress : Conn → FileBufferNode → ℕ → Conn
progress c n k =
    sent_file_end
      (record c { bytes_sent = add_size c.bytes_sent k; wire = c.wire ++ take k n.source }) k
      n.bytes_to_send

pub after_sendfile-wrote :
    (c : Conn) (n : FileBufferNode) (k errno : ℕ)
    → 0 < k
    → after_sendfile c n n.bytes_to_send (wrote k errno) ≡ some (progress c n k, rest n k, sent k)
unfolding after_sendfile
after_sendfile-wrote c n k errno h = rw (lt→ltb 0 k h, sent_file-rest c n k)

pub sent_file_end-same :
    (d : Conn) (k to_send : ℕ)
    → let d' = sent_file_end d k to_send in
      (d'.wire ≡ d.wire)
      × (d'.write_buffer_list ≡ d.write_buffer_list)
      × (k < to_send → d'.writing ≡ true)
unfolding sent_file_end log enable_writing
sent_file_end-same d k to_send = ground arith

-- A -1 of the kernel.
pub after_sendfile-failed :
    (c : Conn) (n : FileBufferNode) (errno : ℕ)
    → after_sendfile c n n.bytes_to_send (failed errno)
      ≡ some (if is_eagain errno then sent_file_end c 0 n.bytes_to_send else c, file n, error)
unfolding after_sendfile
after_sendfile-failed c n errno = elim (Bool-cases (is_eagain errno)) [
  | inl again ↦ rw again
  | inr other ↦ rw other
]

pub file_remaining : {n : FileBufferNode} → Ready n → remaining_bytes (file n) ≡ n.bytes_to_send
unfolding remaining_bytes
file_remaining ready = rw ready.undone refl

pub asks :
    (os : Kernel) (fuel : ℕ) (c : Conn) (n : FileBufferNode)
    → Ready n
    → send_node_in_loop os fuel c (file n)
      ≡ after_sendfile
          (next_call c)
          n
          n.bytes_to_send
          (os c.calls (min n.bytes_to_send max_send_bytes))
unfolding send_node_in_loop send_file_node
asks os fuel c n ready = rw (file_remaining ready, pos-not-zero ready.some_bytes)

-- The list was empty: what `sendFile` keeps of the node.
pub send_now-file :
    (os : Kernel) (fuel : ℕ) (c c' : Conn) (n : FileBufferNode) (n' : BufferNode) (r : Sent)
    → c.write_buffer_list ≡ []
    → Ready n
    → send_node_in_loop os fuel c (file n) ≡ some (c', n', r)
    → send_file_buffer os fuel c (file n)
      ≡ some (if ltb 0 (remaining_bytes n') && not (is_error r) then push_node c' n' else c')
unfolding send_file_buffer send_now
send_now-file os fuel c c' n n' r none_waits ready e =
    rw (e, file_remaining ready, lt→ltb 0 n.bytes_to_send ready.some_bytes, ap is_empty none_waits)
      refl

pub take-nil : (k : ℕ) → take {A = ℕ} k [] ≡ []
take-nil zero = refl
take-nil (suc k) = refl

pub take-split : (k m : ℕ) (xs : List ℕ) → k ≤ m → take k xs ++ take (m - k) (drop k xs) ≡ take m xs
take-split zero m xs h = ap (λ j. take j xs) (omega arith)
take-split (suc k) zero xs h = absurd (omega arith)
take-split (suc k) (suc m) [] h = take-nil (suc m - suc k)
take-split (suc k) (suc m) (x ∷ xs) h =
    ap (λ j. x ∷ (take k xs ++ take j (drop k xs))) (omega arith)
    ∙ ap (◌∷◌ x) (take-split k m xs (omega arith))

pub pending-file :
    (n : FileBufferNode) → n.is_done ≡ false → pending (file n) ≡ take n.bytes_to_send n.source
pending-file n e = rw e refl

-- A node behind the list.
pub push_node-outgoing :
    (c : Conn) (n : BufferNode) (w xs ys : List ℕ)
    → c.wire ≡ w
    → pending n ≡ xs
    → backlog c.write_buffer_list ≡ ys
    → outgoing (push_node c n) ≡ (w ++ ys) ++ xs
unfolding push_node
push_node-outgoing c n w xs ys on_wire p b =
    ap (λ m. m ++ backlog (c.write_buffer_list ++ (n ∷ []))) on_wire
    ∙ ap (λ m. w ++ m)
        (backlog-append c.write_buffer_list (n ∷ [])
          ∙ ap (λ m. backlog c.write_buffer_list ++ m) (append-nil (pending n))
          ∙ ap₂ ◌++◌ b p)
    ∙ sym (append_assoc w ys xs)

pub and_false : (b : Bool) → (b && false) ≡ false
and_false b = ground arith

-- The list is not empty: the file waits behind it.
pub behind :
    (os : Kernel) (fuel : ℕ) (c : Conn) (n : FileBufferNode)
    → is_empty c.write_buffer_list ≡ false
    → Armed c
    → Ready n
    → Sends c (take n.bytes_to_send n.source) (send_file_buffer os fuel c (file n))
unfolding send_file_buffer push_node
behind os fuel c n waits armed ready = record {
  out = push_node c (file n);
  returns = rw (file_remaining ready, lt→ltb 0 n.bytes_to_send ready.some_bytes, waits) refl;
  order = push_node-outgoing c (file n) c.wire _ _ refl (pending-file n ready.undone) refl;
  armed = inr (busy_writing c armed (rw waits (and_false (not c.writing))));
}

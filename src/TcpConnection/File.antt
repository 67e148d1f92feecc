-- ===== src/TcpConnection/File.antt =====
-- `sendFile` on Linux, where the kernel sends the file: what each of its answers makes of the file.
use trantor.Prelude.{
  ℕ, zero, suc, ◌-◌, ◌≤◌, ◌<◌, ◌≡◌, ◌⊎◌, inl, inr, refl, sym, ap, ◌∙◌, Bool, true, false, Option,
  some, List, [], ◌++◌, arith, take, drop, append-nil, append_assoc, if◌then◌else◌, ltb, Bool-cases,
  min,
}
use trantor.BufferNode.{BufferNode, FileBufferNode, file, remaining_bytes}
use trantor.BufferNode.Content.{backlog}
use trantor.TcpConnection.{
  Conn, sent, error, Kernel, Answer, wrote, failed, is_empty, push_node, is_eagain, enable_writing,
  log, next_call,
}
use trantor.TcpConnection.Raw.{Obeys}
use trantor.TcpConnection.Order.{Armed, Sends, is_empty-nil}
use trantor.TcpConnection.Send.{
  max_send_bytes, sent_file_end, after_sendfile, send_node_in_loop, send_file_buffer,
}
use trantor.TcpConnection.FileNode.{
  Ready, rest_file, rest, progress, after_sendfile-wrote, sent_file_end-same, after_sendfile-failed,
  asks, send_now-file, take-split, pending-file, push_node-outgoing, and_false, behind,
}

-- Nothing waited before, nothing of the file goes out, and nothing of it waits.
pub record Dropped (c : Conn) (o : Option Conn) : Type 0 where
  pub was_idle : c.write_buffer_list ≡ []
  pub out : Conn
  pub returns : o ≡ some out
  pub nothing : out.write_buffer_list ≡ []
  pub same_wire : out.wire ≡ c.wire

progress-same :
    (c : Conn) (n : FileBufferNode) (k : ℕ)
    → ((progress c n k).wire ≡ c.wire ++ take k n.source)
      × ((progress c n k).write_buffer_list ≡ c.write_buffer_list)
      × (k < n.bytes_to_send → (progress c n k).writing ≡ true)
progress-same c n k = sent_file_end-same _ k n.bytes_to_send

rest-remaining :
    {n : FileBufferNode} (k : ℕ) → Ready n → remaining_bytes (rest n k) ≡ n.bytes_to_send - k
unfolding remaining_bytes
rest-remaining k ready = rw ready.undone refl

push_node-writing : (c : Conn) (n : BufferNode) → (push_node c n).writing ≡ c.writing
unfolding push_node
push_node-writing c n = refl

less : {m k r : ℕ} → m - k ≡ r → ltb 0 r ≡ true → k < m
less e h = ground arith

all_of : {m k r : ℕ} → k ≤ m → m - k ≡ r → ltb 0 r ≡ false → k ≡ m
all_of le e h = ground arith

file-order :
    (w xs : List ℕ) (k m : ℕ) {l : List ℕ}
    → k ≤ m
    → l ≡ []
    → ((w ++ take k xs) ++ []) ++ take (m - k) (drop k xs) ≡ (w ++ l) ++ take m xs
file-order w xs k m h e =
    ap (λ a. a ++ take (m - k) (drop k xs)) (append-nil (w ++ take k xs))
    ∙ append_assoc w (take k xs) (take (m - k) (drop k xs))
    ∙ ap (λ a. w ++ a) (take-split k m xs h)
    ∙ ap (λ a. a ++ take m xs) (sym (append-nil w) ∙ ap (λ a. w ++ a) (sym e))

-- The kernel took `k` bytes: the file has all gone out, or the rest of it waits.
took :
    (os : Kernel) (fuel : ℕ) (c : Conn) (n : FileBufferNode) (k errno : ℕ)
    → c.write_buffer_list ≡ []
    → Ready n
    → os c.calls (min n.bytes_to_send max_send_bytes) ≡ wrote k errno
    → 0 < k
    → k ≤ n.bytes_to_send
    → Sends c (take n.bytes_to_send n.source) (send_file_buffer os fuel c (file n))
took os fuel c n k errno none_waits ready answer some_bytes within =
    let (on_wire, same, on) = progress-same (next_call c) n k in
    let d = progress (next_call c) n k in
    let e : send_node_in_loop os fuel c (file n) ≡ some (d, rest n k, sent k) =
      asks os fuel c n ready
      ∙ ap (λ a. after_sendfile (next_call c) n n.bytes_to_send a) answer
      ∙ after_sendfile-wrote (next_call c) n k errno some_bytes in
    let r = send_now-file os fuel c d n (rest n k) (sent k) none_waits ready e in
    elim (Bool-cases (ltb 0 (remaining_bytes (rest n k)))) [
      | inl more ↦ record {
        out = push_node d (rest n k);
        returns = r ∙ ap some (rw more refl);
        order =
            push_node-outgoing d (rest n k) (c.wire ++ take k n.source)
              (take (n.bytes_to_send - k) (drop k n.source)) [] on_wire
              (pending-file (rest_file n k) ready.undone) (ap backlog (same ∙ none_waits))
            ∙ file-order c.wire n.source k n.bytes_to_send within (ap backlog none_waits);
        armed =
            inr (push_node-writing d (rest n k) ∙ on (less (sym (rest-remaining k ready)) more));
      }
      | inr whole ↦ record {
        out = d;
        returns = r ∙ ap some (rw whole refl);
        order =
            ap (λ m. m ++ backlog d.write_buffer_list) on_wire
            ∙ ap (λ l. (c.wire ++ take k n.source) ++ backlog l) (same ∙ none_waits)
            ∙ append-nil (c.wire ++ take k n.source)
            ∙ ap (λ j. c.wire ++ take j n.source)
                (all_of within (sym (rest-remaining k ready)) whole)
            ∙ ap (λ a. a ++ take n.bytes_to_send n.source)
                (sym (append-nil c.wire) ∙ ap (λ l. c.wire ++ backlog l) (sym none_waits));
        armed = inl (same ∙ none_waits);
      }
    ]

failed_end-same :
    (c : Conn) (again : Bool) (to_send : ℕ)
    → let d = if again then sent_file_end c 0 to_send else c in
      (d.wire ≡ c.wire) × (d.write_buffer_list ≡ c.write_buffer_list)
unfolding sent_file_end log enable_writing
failed_end-same c again to_send = ground arith

-- A -1 of the kernel: the node is given up, also when the kernel only says that the socket is full.
lost :
    (os : Kernel) (fuel : ℕ) (c : Conn) (n : FileBufferNode) (errno : ℕ)
    → c.write_buffer_list ≡ []
    → Ready n
    → os c.calls (min n.bytes_to_send max_send_bytes) ≡ failed errno
    → Dropped c (send_file_buffer os fuel c (file n))
lost os fuel c n errno none_waits ready answer =
    let d =
      if is_eagain errno then sent_file_end (next_call c) 0 n.bytes_to_send else next_call c in
    let e : send_node_in_loop os fuel c (file n) ≡ some (d, file n, error) =
      asks os fuel c n ready
      ∙ ap (λ a. after_sendfile (next_call c) n n.bytes_to_send a) answer
      ∙ after_sendfile-failed (next_call c) n errno in
    record {
      was_idle = none_waits;
      out = d;
      returns =
          send_now-file os fuel c d n (file n) error none_waits ready e
          ∙ ap some (rw (and_false (ltb 0 (remaining_bytes (file n)))) refl);
      nothing = (failed_end-same (next_call c) (is_eagain errno) n.bytes_to_send).1 ∙ none_waits;
      same_wire = (failed_end-same (next_call c) (is_eagain errno) n.bytes_to_send).0;
    }

answered :
    (os : Kernel) (fuel : ℕ) (c : Conn) (n : FileBufferNode) (a : Answer)
    → Obeys os
    → c.write_buffer_list ≡ []
    → Ready n
    → os c.calls (min n.bytes_to_send max_send_bytes) ≡ a
    → Sends c (take n.bytes_to_send n.source) (send_file_buffer os fuel c (file n))
      ⊎ ((errno : ℕ) × (a ≡ failed errno)) × Dropped c (send_file_buffer os fuel c (file n))
answered os fuel c n (wrote zero errno) obeys none_waits ready e =
    let asked = obeys.progress _ _ _ e in let some_bytes = ready.some_bytes in absurd (omega arith)
answered os fuel c n (wrote (suc k) errno) obeys none_waits ready e =
    let within = obeys.within _ _ _ _ e in
    inl (took os fuel c n (suc k) errno none_waits ready e (omega arith) (omega arith))
answered os fuel c n (failed errno) obeys none_waits ready e =
    inr ((errno, refl), lost os fuel c n errno none_waits ready e)

-- `sendFile` of an open file that has all its bytes to send, on a connection where the list is empty
-- or writing is enabled, with a kernel that keeps to the documented behaviour of `sendfile`: the bytes
-- of the file come behind all those that were sent or queued before, and what waits will be sent;
-- unless the list was empty and the kernel answers -1 to the first call, for whatever reason: then
-- nothing of the file goes out and nothing of it is kept.
pub send_file_buffer-Sends :
    (os : Kernel) (fuel : ℕ) (c : Conn) (n : FileBufferNode)
    → Obeys os
    → Armed c
    → Ready n
    → Sends c (take n.bytes_to_send n.source) (send_file_buffer os fuel c (file n))
      ⊎ ((errno : ℕ) × (os c.calls (min n.bytes_to_send max_send_bytes) ≡ failed errno))
        × Dropped c (send_file_buffer os fuel c (file n))
send_file_buffer-Sends os fuel c n obeys armed ready =
    elim (Bool-cases (is_empty c.write_buffer_list)) [
      | inl idle ↦ answered os fuel c n _ obeys (is_empty-nil c.write_buffer_list idle) ready refl
      | inr waits ↦ inl (behind os fuel c n waits armed ready)
    ]

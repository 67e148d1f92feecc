-- ===== src/TcpConnection/Loop.antt =====
-- The loop of `writeCallback` on a list of memory nodes: it ends, and it keeps the stream.
use trantor.Prelude.{
  ℕ, zero, suc, ◌*◌, ◌≤◌, ◌<◌, ◌^◌, ◌≡◌, inl, inr, refl, sym, ap, subst, ◌∙◌, Bool, true, false,
  ◌||◌, Option, some, List, [], ◌∷◌, ◌++◌, arith, length, take, drop, length-drop, length-append,
  length-take, take-append-drop, append_assoc, ltb, ◌==◌, Bool-cases,
}
use trantor.BufferNode.{BufferNode, remaining_bytes}
use trantor.BufferNode.Content.{
  backlog, MemHolds, holding, MemHolds-pending, MemHolds-remaining_bytes,
}
use trantor.TcpConnection.{Conn, Sent, Kernel}
use trantor.TcpConnection.Raw.{Obeys, Willing, SameQueue}
use trantor.TcpConnection.Drain.{send_node_in_loop-Pushed, MemList, Drained, some_bytes}
use trantor.TcpConnection.Send.{drain, is_error, send_node_in_loop}

length-nil : (xs : List ℕ) → length xs ≡ 0 → xs ≡ []
length-nil [] e = refl
length-nil (x ∷ xs) e = ground arith

none_left : (m : ℕ) (b : Bool) → (ltb 0 m || b) ≡ false → m ≡ 0
none_left m b e = ground arith

-- A node with nothing left.
finished :
    {n : BufferNode} {xs : List ℕ} (b : Bool)
    → MemHolds n xs
    → (ltb 0 (remaining_bytes n) || b) ≡ false
    → MemHolds n []
finished {n} {xs} b h e =
    subst (λ l. MemHolds n l)
      (length-nil xs (sym (MemHolds-remaining_bytes h) ∙ none_left (remaining_bytes n) b e)) h

drop-small : (k : ℕ) (xs : List ℕ) → length xs < 2 ^ 31 → length (drop k xs) < 2 ^ 31
drop-small k xs small = omega (arith, length-drop k xs)

wire-grows : (w w' xs : List ℕ) (k : ℕ) → w' ≡ w ++ take k xs → length w ≤ length w'
wire-grows w w' xs k e = omega (arith, ap length e, length-append w (take k xs))

wire-longer :
    (w w' xs : List ℕ) (k : ℕ) → w' ≡ w ++ take k xs → k ≤ length xs → 0 < k → length w < length w'
wire-longer w w' xs k e h gone =
    omega (arith, ap length e, length-append w (take k xs), length-take k xs)

module _ (os : Kernel) where
  pop_empty :
      (fuel rounds : ℕ) (c : Conn) {n : BufferNode} (ns : List BufferNode)
      → MemHolds n []
      → drain os fuel (suc rounds) c (n ∷ ns) ≡ drain os fuel rounds c ns
  unfolding drain
  pop_empty fuel rounds c ns (holding b h) = rw (drain, MemHolds-remaining_bytes (holding b h))

  drain_send :
      (fuel rounds : ℕ) (c c' : Conn) (n n' : BufferNode) (r : Sent) (ns : List BufferNode)
      → (remaining_bytes n == 0) ≡ false
      → send_node_in_loop os fuel c n ≡ some (c', n', r)
      → drain os fuel (suc rounds) c (n ∷ ns) ≡ elim (ltb 0 (remaining_bytes n') || is_error r) [
        | true ↦ some (record c' { write_buffer_list = n' ∷ ns }, false)
        | false ↦ drain os fuel rounds c' (n' ∷ ns)
      ]
  unfolding drain
  drain_send fuel rounds c c' n n' r ns some_left e = rw (drain, some_left, e)

  drain_stop :
      (fuel rounds : ℕ) (c c' : Conn) (n n' : BufferNode) (r : Sent) (ns : List BufferNode)
      → (remaining_bytes n == 0) ≡ false
      → send_node_in_loop os fuel c n ≡ some (c', n', r)
      → (ltb 0 (remaining_bytes n') || is_error r) ≡ true
      → drain os fuel (suc rounds) c (n ∷ ns)
        ≡ some (record c' { write_buffer_list = n' ∷ ns }, false)
  drain_stop fuel rounds c c' n n' r ns some_left e stop =
      drain_send fuel rounds c c' n n' r ns some_left e ∙ rw stop

  drain_on :
      (fuel rounds : ℕ) (c c' : Conn) (n n' : BufferNode) (r : Sent) (ns : List BufferNode)
      → (remaining_bytes n == 0) ≡ false
      → send_node_in_loop os fuel c n ≡ some (c', n', r)
      → (ltb 0 (remaining_bytes n') || is_error r) ≡ false
      → drain os fuel (suc rounds) c (n ∷ ns) ≡ drain os fuel rounds c' (n' ∷ ns)
  drain_on fuel rounds c c' n n' r ns some_left e go_on =
      drain_send fuel rounds c c' n n' r ns some_left e ∙ rw go_on

  drain_end :
      (fuel rounds : ℕ) (c : Conn)
      → drain os fuel (suc rounds) c [] ≡ some (record c { write_buffer_list = [] }, true)
  unfolding drain
  drain_end fuel rounds c = refl

  -- What holds of the loop's rest holds of the loop, with the node's bytes in front.
  resume :
      {c d : Conn} {ns ms : List BufferNode} {o o' : Option (Conn × Bool)}
      → o ≡ o'
      → Drained os d ms o'
      → d.wire ++ backlog ms ≡ c.wire ++ backlog ns
      → SameQueue c d
      → length ms ≤ length ns
      → length c.wire ≤ length d.wire
      → Drained os c ns o
  resume e r stream same fewer grown = record {
    out = r.out;
    ran_empty = r.ran_empty;
    returns = e ∙ r.returns;
    stream = r.stream ∙ stream;
    state = r.state ∙ same.state;
    closing = r.closing ∙ same.closing;
    list = r.list;
    how = r.how;
    shorter = (let h = r.shorter in omega arith);
    grows = (let h = r.grows in omega arith);
    moved = λ w stop. (let h = r.moved w stop in omega arith);
  }

  split-stream : (w xs b : List ℕ) (k : ℕ) → (w ++ take k xs) ++ (drop k xs ++ b) ≡ w ++ (xs ++ b)
  split-stream w xs b k =
      append_assoc w (take k xs) (drop k xs ++ b)
      ∙ ap (λ m. w ++ m)
          (sym (append_assoc (take k xs) (drop k xs) b) ∙ ap (λ m. m ++ b) (take-append-drop k xs))

  -- The stream after a push of the first node.
  pushed-stream :
      (w w' : List ℕ) {n n' : BufferNode} {xs : List ℕ} (k : ℕ) (ns : List BufferNode)
      → MemHolds n xs
      → MemHolds n' (drop k xs)
      → w' ≡ w ++ take k xs
      → w' ++ backlog (n' ∷ ns) ≡ w ++ backlog (n ∷ ns)
  pushed-stream w w' {n} {n'} {xs} k ns h h' e =
      ap (λ m. m ++ backlog (n' ∷ ns)) e
      ∙ ap (λ m. (w ++ take k xs) ++ (m ++ backlog ns)) (MemHolds-pending h')
      ∙ split-stream w xs (backlog ns) k
      ∙ ap (λ m. w ++ (m ++ backlog ns)) (sym (MemHolds-pending h))

  -- The end of the loop: the socket takes no more, or refused.
  stop-Drained :
      {c d : Conn} {n n' : BufferNode} (ns : List BufferNode) (o : Option (Conn × Bool))
      → o ≡ some (record d { write_buffer_list = n' ∷ ns }, false)
      → d.wire ++ backlog (n' ∷ ns) ≡ c.wire ++ backlog (n ∷ ns)
      → SameQueue c d
      → d.writing ≡ true
      → MemList (n' ∷ ns)
      → (Willing os → length c.wire < length d.wire)
      → length c.wire ≤ length d.wire
      → Drained os c (n ∷ ns) o
  stop-Drained {c} {d} {n} {n'} ns o e stream same on list moved grown = record {
    out = record d { write_buffer_list = n' ∷ ns };
    ran_empty = false;
    returns = e;
    stream = stream;
    state = same.state;
    closing = same.closing;
    list = list;
    how = inr (refl, on);
    shorter = omega arith;
    grows = grown;
    moved = λ w stop. moved w;
  }

  pub drain-Drained :
      (fuel rounds : ℕ) (c : Conn) (ns : List BufferNode)
      → Obeys os
      → MemList ns
      → 2 * length ns < rounds
      → c.writing ≡ true
      → Drained os c ns (drain os (suc (suc fuel)) rounds c ns)
  drain-Drained fuel zero c ns obeys list enough on = absurd (omega arith)
  drain-Drained fuel (suc rounds) c [] obeys list enough on = record {
    out = record c { write_buffer_list = [] };
    ran_empty = true;
    returns = drain_end (suc (suc fuel)) rounds c;
    stream = refl;
    state = refl;
    closing = refl;
    list = tt;
    how = inl (refl, refl);
    shorter = omega arith;
    grows = omega arith;
    moved = λ w stop. absurd (ground arith);
  }
  drain-Drained fuel (suc zero) c (n ∷ ns) obeys list enough on = absurd (omega arith)
  drain-Drained fuel (suc (suc rounds)) c (n ∷ ns) obeys ([], h, small, list) enough on =
      resume (pop_empty (suc (suc fuel)) (suc rounds) c ns h)
        (drain-Drained fuel (suc rounds) c ns obeys list (omega arith) on)
        (ap (λ m. c.wire ++ (m ++ backlog ns)) (sym (MemHolds-pending h)))
        (record { list = refl; state = refl; closing = refl }) (omega arith) (omega arith)
  drain-Drained fuel (suc (suc rounds)) c (n ∷ ns) obeys (x ∷ xs, h, small, list) enough on =
      let p = send_node_in_loop-Pushed os fuel c x xs obeys h small on in
      let stream = pushed-stream c.wire p.out.wire p.count ns h p.holds p.on_wire in
      let some_left = some_bytes (MemHolds-remaining_bytes h) in
      elim (Bool-cases (ltb 0 (remaining_bytes p.node) || is_error p.answer)) [
        | inl stop ↦
            stop-Drained {n' = p.node} ns _
              (drain_stop (suc (suc fuel)) (suc rounds) c p.out n p.node p.answer ns some_left
                p.returns stop)
              stream p.same p.on
              (drop p.count (x ∷ xs), p.holds, drop-small p.count (x ∷ xs) small, list)
              (λ w. wire-longer c.wire p.out.wire (x ∷ xs) p.count p.on_wire p.bound (p.moved w))
              (wire-grows c.wire p.out.wire (x ∷ xs) p.count p.on_wire)
        | inr go_on ↦
            let gone = finished (is_error p.answer) p.holds go_on in
            resume
              (drain_on (suc (suc fuel)) (suc rounds) c p.out n p.node p.answer ns some_left
                  p.returns go_on
                ∙ pop_empty (suc (suc fuel)) rounds p.out ns gone)
              (drain-Drained fuel rounds p.out ns obeys list (omega arith) p.on)
              (ap (λ m. p.out.wire ++ (m ++ backlog ns)) (sym (MemHolds-pending gone)) ∙ stream)
              p.same (omega arith) (wire-grows c.wire p.out.wire (x ∷ xs) p.count p.on_wire)
      ]

-- ===== src/TcpConnection/Order.antt =====
-- `sendInLoop` as a whole: the order of the bytes, and the interest in writing that gets the rest
-- of them sent.
use trantor.Prelude.{
  ℕ, ◌+◌, ◌<◌, ◌^◌, ◌≡◌, ◌⊎◌, inl, inr, refl, sym, ap, subst, ◌∙◌, Bool, true, false, not, ◌&&◌,
  Option, some, List, [], ◌∷◌, ◌++◌, arith, length, take, drop, length-drop, drop-all,
  take-append-drop, append-nil, append_assoc, Bool-cases,
}
use trantor.BufferNode.Content.{backlog}
use trantor.MsgBuffer.Append.{size_limit}
use trantor.TcpConnection.{
  Conn, is_connected, Sent, sent, error, Kernel, queue_rest, is_empty, write_raw, send_in_loop,
}
use trantor.TcpConnection.Raw.{outgoing, Obeys, Written, RawResult, write_raw-RawResult}
use trantor.TcpConnection.Stream.{BackFits, queue_rest-Queued, queue_rest-nil}

-- What waits in the list will be sent: the poller reports when the socket takes more.
abbrev pub Armed : Conn → Type 0
Armed c = (c.write_buffer_list ≡ []) ⊎ (c.writing ≡ true)

-- The bytes are behind all earlier ones in the stream.
pub record Sends (c : Conn) (xs : List ℕ) (o : Option Conn) : Type 0 where
  pub out : Conn
  pub returns : o ≡ some out
  pub order : outgoing out ≡ outgoing c ++ xs
  pub armed : Armed out

-- The kernel refused the direct write: none of the bytes went out, and none wait.
pub record Refused (c : Conn) (r : Conn × Sent) (o : Option Conn) : Type 0 where
  pub out : Conn
  pub returns : o ≡ some out
  pub refusal : r ≡ (out, error)
  pub idle : (c.write_buffer_list ≡ []) × (c.writing ≡ false)
  pub unchanged : outgoing out ≡ outgoing c
  pub armed : Armed out

-- Bytes of which `n` are on the wire while the list takes the rest.
split-order :
    (w xs : List ℕ) (n : ℕ) {l l' : List ℕ}
    → l ≡ []
    → l' ≡ l ++ drop n xs
    → (w ++ take n xs) ++ l' ≡ (w ++ l) ++ xs
split-order w xs n e e' =
    ap (λ m. (w ++ take n xs) ++ m) (e' ∙ ap (λ m. m ++ drop n xs) e)
    ∙ append_assoc w (take n xs) (drop n xs)
    ∙ ap (λ m. w ++ m) (take-append-drop n xs)
    ∙ ap (λ m. m ++ xs) (sym (append-nil w) ∙ ap (λ m. w ++ m) (sym e))

-- Nothing is left to wait.
all_out : (c' d : Conn) (ys : List ℕ) → ys ≡ [] → queue_rest c' ys ≡ some d → d ≡ c'
all_out c' d ys e r =
    let z = queue_rest-nil c' in
    let r' : queue_rest c' [] ≡ some d = subst (λ l. queue_rest c' l ≡ some d) e r in cc

after_raw-Sends :
    (c c' : Conn) (xs : List ℕ) (n : ℕ)
    → Written c xs n c'
    → is_connected c.status ≡ true
    → c.write_buffer_list ≡ []
    → length xs + 2056 < size_limit
    → Sends c xs (queue_rest c' (drop n xs))
after_raw-Sends c c' xs n w up none_waits room =
    let still : is_connected c'.status ≡ true = ap is_connected w.same.state ∙ up in
    let empty : c'.write_buffer_list ≡ [] = w.same.list ∙ none_waits in
    let fits : BackFits c'.write_buffer_list (length (drop n xs)) =
      subst (λ l. BackFits l (length (drop n xs))) (sym empty) tt in
    let q = queue_rest-Queued c' (drop n xs) still fits (omega (arith, length-drop n xs)) in
    record {
      out = q.out;
      returns = q.returns;
      order =
          ap (λ m. m ++ backlog q.out.write_buffer_list) (q.same_wire ∙ w.on_wire)
          ∙ split-order c.wire xs n (ap backlog none_waits)
              (q.bytes ∙ ap (λ l. backlog l ++ drop n xs) w.same.list);
      armed = elim w.armed [
        | inl whole ↦ inl (
            ap (λ d. d.write_buffer_list)
              (all_out c' q.out (drop n xs) (drop-all n xs (omega arith)) q.returns)
            ∙ empty)
        | inr on ↦ inr (q.same_writing ∙ on)
      ];
    }

-- The list is not empty, or writing is enabled: the bytes queue up behind the others.
queue-Sends :
    (c : Conn) (xs : List ℕ)
    → is_connected c.status ≡ true
    → c.writing ≡ true
    → BackFits c.write_buffer_list (length xs)
    → length xs + 2056 < size_limit
    → Sends c xs (queue_rest c xs)
queue-Sends c xs up on fits room =
    let q = queue_rest-Queued c xs up fits room in
    record {
      out = q.out;
      returns = q.returns;
      order =
          ap (λ m. m ++ backlog q.out.write_buffer_list) q.same_wire
          ∙ ap (λ m. c.wire ++ m) q.bytes
          ∙ sym (append_assoc c.wire (backlog c.write_buffer_list) xs);
      armed = inr (q.same_writing ∙ on);
    }

-- What `sendInLoop` does with the result of its own `writeRaw`.
abbrev pub after_raw : List ℕ → Conn × Sent → Option Conn
after_raw xs (c', r) = elim r [ error ↦ some c' | sent n ↦ queue_rest c' (drop n xs) ]

direct :
    (c : Conn) (xs : List ℕ) (r : Conn × Sent)
    → RawResult c xs r
    → is_connected c.status ≡ true
    → c.write_buffer_list ≡ []
    → c.writing ≡ false
    → length xs + 2056 < size_limit
    → Sends c xs (after_raw xs r) ⊎ Refused c r (after_raw xs r)
direct c xs (c', sent n) w up none_waits off room =
    inl (after_raw-Sends c c' xs n w up none_waits room)
direct c xs (c', error) (same, on_wire, w) up none_waits off room = inr (record {
  out = c';
  returns = refl;
  refusal = refl;
  idle = (none_waits, off);
  unchanged = cc;
  armed = inl (same.list ∙ none_waits);
})

pub is_empty-nil {ℓ} : {A : Type ℓ} (xs : List A) → is_empty xs ≡ true → xs ≡ []
is_empty-nil [] e = refl
is_empty-nil (x ∷ xs) e = cc

queue_when :
    (os : Kernel) (c : Conn) (xs : List ℕ)
    → is_connected c.status ≡ true
    → (not c.writing && is_empty c.write_buffer_list) ≡ false
    → send_in_loop os c xs ≡ queue_rest c xs
unfolding send_in_loop
queue_when os c xs up e = rw (up, e)

pub direct_when :
    (os : Kernel) (c : Conn) (xs : List ℕ)
    → is_connected c.status ≡ true
    → (not c.writing && is_empty c.write_buffer_list) ≡ true
    → send_in_loop os c xs ≡ after_raw xs (write_raw os c xs)
unfolding send_in_loop
direct_when os c xs up e = rw (up, e)

idle_both : (b d : Bool) → (not b && d) ≡ true → (b ≡ false) × (d ≡ true)
idle_both b d e = ground arith

pub busy_writing :
    (c : Conn)
    → Armed c
    → (not c.writing && is_empty c.write_buffer_list) ≡ false
    → c.writing ≡ true
busy_writing c (inl none_waits) e = elim (Bool-cases c.writing) [
  | inl on ↦ on
  | inr off ↦ ground arith
]
busy_writing c (inr on) e = on

-- `sendInLoop` of fewer than 2 ^ 31 bytes on a connection whose status is connected, where the list is
-- empty or writing is enabled, and the last node of the list has room for them below the size limit
-- of buffers, with a kernel that keeps to the documented behaviour of `write`: the bytes come behind
-- all those that were sent or queued before, each once, whatever part of them the kernel takes at
-- once; or the kernel refuses the direct write and the connection has what it had. In both cases
-- the list is empty or writing is enabled afterwards.
pub send_in_loop-Sends :
    (os : Kernel) (c : Conn) (xs : List ℕ)
    → Obeys os
    → is_connected c.status ≡ true
    → Armed c
    → BackFits c.write_buffer_list (length xs)
    → length xs < 2 ^ 31
    → Sends c xs (send_in_loop os c xs) ⊎ Refused c (write_raw os c xs) (send_in_loop os c xs)
send_in_loop-Sends os c xs obeys up armed fits small =
    elim (Bool-cases (not c.writing && is_empty c.write_buffer_list)) [
      | inl idle ↦
          let (off, e) = idle_both c.writing (is_empty c.write_buffer_list) idle in
          subst (λ o. Sends c xs o ⊎ Refused c (write_raw os c xs) o)
            (sym (direct_when os c xs up idle))
            (direct c xs (write_raw os c xs) (write_raw-RawResult os c xs obeys small) up
              (is_empty-nil c.write_buffer_list e) off (omega arith))
      | inr busy ↦
          subst (λ o. Sends c xs o ⊎ Refused c (write_raw os c xs) o)
            (sym (queue_when os c xs up busy))
            (inl (queue-Sends c xs up (busy_writing c armed busy) fits (omega arith)))
    ]

-- ===== src/TcpConnection/Life/Inside.antt =====
-- A connection that is established stays known to its poller until it is destroyed.
use trantor.Prelude.{
  ℕ, ◌≡◌, ◌⊎◌, inl, inr, refl, ap, subst, ◌∙◌, Bool, true, ◌||◌, Option, some, none, List, [], ◌∷◌,
  ◌>>=◌, arith, length, ◌==◌, Bool-cases,
}
use trantor.MsgBuffer.{MsgBuffer}
use trantor.MsgBuffer.Socket.{Reply, failed, got, read_fd}
use trantor.Channel.{
  Events, Callback, event_callback, close_callback, error_callback, read_callback, write_callback,
  handle_event,
}
use trantor.Channel.Run.{run_callback, run_callbacks}
use trantor.TcpConnection.{Conn, Kernel, connecting, eagain, send_in_loop, shutdown}
use trantor.TcpConnection.Send as Send
use trantor.TcpConnection.Life as Life
use trantor.TcpConnection.Life.{
  Link, epipe, econnreset, connect_established, handle_close, force_close, after_read, handlers,
  on_event, io_channel,
}
use trantor.TcpConnection.Life.Once.{Stage, fresh, up, down, not_up, send_idle, read_link}
use trantor.TcpConnection.Life.Dispatch.{on_event_silent}

-- Not established yet, or known to the poller.
abbrev pub Inside : Link → Type 0
Inside l = (l.conn.status ≡ connecting) ⊎ (l.in_loop ≡ true)

pub connect_established-Inside : (l l' : Link) → connect_established l ≡ some l' → Inside l'
unfolding connect_established
connect_established-Inside l l' e = inr (ground arith)

after_read-in_loop :
    (recv : MsgBuffer → MsgBuffer) (l : Link) (r : Reply)
    → (after_read recv l r).in_loop ≡ l.in_loop
unfolding after_read handle_close
after_read-in_loop recv l (failed errno) =
    elim (Bool-cases (errno == epipe || errno == econnreset)) [
      | inl gone ↦ rw gone refl
      | inr other ↦ rw other (elim (Bool-cases (errno == eagain)) [
        | inl again ↦ rw again refl
        | inr bad ↦ rw bad refl
      ])
    ]
after_read-in_loop recv l (got xs) = elim (Bool-cases (length xs == 0)) [
  | inl closed ↦ rw closed refl
  | inr more ↦ rw more refl
]

same_link : {l l' : Link} → some l ≡ some l' → l'.in_loop ≡ l.in_loop
same_link {l} {l'} e = let it : l' ≡ l = cc in ap (λ (k : Link). k.in_loop) it

module _ (os : Kernel) (fuel rounds : ℕ) (recv : MsgBuffer → MsgBuffer) (answer : Reply) where
  read-in_loop : (l l' : Link) → Life.read_callback recv answer l ≡ some l' → l'.in_loop ≡ l.in_loop
  unfolding Life.read_callback
  read-in_loop l l' e =
      let (b, r, made) = read_link recv answer l l' (read_fd l.read_buffer answer) e in
      ap (λ (k : Link). k.in_loop) made ∙ after_read-in_loop recv (record l { read_buffer = b }) r

  write-in_loop :
      (l l' : Link) (o : Option Conn)
      → (o >>= λ c. some (record l { conn = c })) ≡ some l'
      → l'.in_loop ≡ l.in_loop
  write-in_loop l l' none e = absurd (ground arith)
  write-in_loop l l' (some c) e = same_link e

  callback-in_loop :
      (k : Callback) (l l' : Link)
      → run_callback (handlers os fuel rounds recv answer) k l ≡ some l'
      → l'.in_loop ≡ l.in_loop
  unfolding handlers handle_close
  callback-in_loop event_callback l l' e = same_link e
  callback-in_loop close_callback l l' e = same_link e
  callback-in_loop error_callback l l' e = same_link e
  callback-in_loop read_callback l l' e = read-in_loop l l' e
  callback-in_loop write_callback l l' e =
      write-in_loop l l' (Send.write_callback os fuel rounds l.conn) e

  split_bind :
      (o : Option Link) (next : Link → Option Link) (l' : Link)
      → (o >>= next) ≡ some l'
      → (m : Link) × (o ≡ some m) × (next m ≡ some l')
  split_bind none next l' e = absurd (ground arith)
  split_bind (some m) next l' e = (m, refl, e)

  callbacks-in_loop :
      (ks : List Callback) (l l' : Link)
      → run_callbacks (handlers os fuel rounds recv answer) ks l ≡ some l'
      → l'.in_loop ≡ l.in_loop
  callbacks-in_loop [] l l' e = same_link e
  callbacks-in_loop (k ∷ ks) l l' e =
      let (m, first, rest) =
        split_bind (run_callback (handlers os fuel rounds recv answer) k l) _ l' e in
      callbacks-in_loop ks m l' rest ∙ callback-in_loop k l m first

  on_event-in_loop :
      (r : Events) (l l' : Link)
      → on_event os fuel rounds recv r answer l ≡ some l'
      → l'.in_loop ≡ l.in_loop
  unfolding on_event
  on_event-in_loop r l l' e = callbacks-in_loop (handle_event (io_channel r l)) l l' e

  pub on_event-Inside :
      {plain : Bool} (r : Events) (l l' : Link)
      → Stage plain l.conn
      → on_event os fuel rounds recv r answer l ≡ some l'
      → Inside l
      → Inside l'
  on_event-Inside r l l' s e (inr known) = inr (on_event-in_loop r l l' e ∙ known)
  on_event-Inside r l l' (up a b c) e (inl new) = absurd (ground arith)
  on_event-Inside r l l' (down a b c d) e (inl new) = absurd (ground arith)
  on_event-Inside r l l' (fresh a b c d) e (inl new) =
      let same = on_event_silent os fuel rounds recv r answer l c d in
      let it : l ≡ l' = cc in subst Inside it (inl new)

pub send_in_loop-Inside :
    (os : Kernel) (l : Link) (xs : List ℕ) (c : Conn)
    → send_in_loop os l.conn xs ≡ some c
    → Inside l
    → Inside (record l { conn = c })
send_in_loop-Inside os l xs c e (inr known) = inr known
send_in_loop-Inside os l xs c e (inl new) = inl (
    ap (λ (d : Conn). d.status) (send_idle os l.conn c xs (not_up l.conn.status (inl new)).0 e)
    ∙ new)

pub shutdown-Inside : (l : Link) → Inside l → Inside (record l { conn = shutdown l.conn })
unfolding shutdown
shutdown-Inside l (inr known) = inr known
shutdown-Inside l (inl new) = inl (rw (not_up l.conn.status (inl new)).0 new)

pub force_close-Inside : (l : Link) → Inside l → Inside (force_close l)
unfolding force_close handle_close
force_close-Inside l (inr known) = inr (ground arith)
force_close-Inside l (inl new) =
    rw (not_up l.conn.status (inl new)).0 (rw (not_up l.conn.status (inl new)).1 (inl new))

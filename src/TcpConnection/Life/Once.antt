-- ===== src/TcpConnection/Life/Once.antt =====
-- The stages of a connection, and that each call keeps them.
use trantor.Prelude.{
  ℕ, ◌≡◌, ◌⊎◌, inl, inr, refl, sym, ap, subst, ◌∙◌, Bool, true, false, ◌||◌, Option, some, none,
  List, [], ◌∷◌, ◌++◌, ◌>>=◌, arith, length, ◌==◌, Bool-cases,
}
use trantor.MsgBuffer.{MsgBuffer}
use trantor.MsgBuffer.Socket.{Reply, failed, got, read_fd}
use trantor.TcpConnection.{
  Conn, Kernel, Status, disconnected, connecting, connected, disconnecting, is_connected,
  is_disconnecting, extend_life, connection_callback, close_callback, eagain, log, shutdown,
  send_in_loop,
}
use trantor.TcpConnection.Life.{
  Link, epipe, econnreset, stop_events, connect_established, handle_close, force_close,
  remove_channel, connect_destroyed, after_read, read_callback,
}
use trantor.TcpConnection.Life.Loud.{loud, loud-append, Quiet, log-Quiet}
use trantor.TcpConnection.Life.Quiet.{send_in_loop-Quietly, shutdown-Quiet}

-- The stages of a connection, with the callbacks that it made so far. With hangups that are not plain
-- it may have been closed a second time in one dispatch.
pub data Stage (plain : Bool) (c : Conn) : Type 0 where
  fresh :
      c.status ≡ connecting
      → loud c.events ≡ []
      → c.reading ≡ false
      → c.writing ≡ false
      → Stage plain c
  up :
      (c.status ≡ connected) ⊎ (c.status ≡ disconnecting)
      → loud c.events ≡ connection_callback ∷ []
      → c.reading ≡ true
      → Stage plain c
  down :
      c.status ≡ disconnected
      → (loud c.events ≡ connection_callback ∷ connection_callback ∷ close_callback ∷ [])
        ⊎ (loud c.events ≡ connection_callback ∷ connection_callback ∷ [])
        ⊎ (plain ≡ false)
          × (loud c.events
              ≡ connection_callback ∷ connection_callback ∷ close_callback ∷ connection_callback
                ∷ close_callback ∷ [])
      → c.reading ≡ false
      → c.writing ≡ false
      → Stage plain c

-- A connection that is up.
pub record Up (c : Conn) : Type 0 where
  pub state : (c.status ≡ connected) ⊎ (c.status ≡ disconnecting)
  pub heard : loud c.events ≡ connection_callback ∷ []
  pub reads : c.reading ≡ true

pub not_up :
    (s : Status)
    → (s ≡ connecting) ⊎ (s ≡ disconnected)
    → (is_connected s ≡ false) × (is_disconnecting s ≡ false)
not_up s h = ground arith

pub send_idle :
    (os : Kernel) (c d : Conn) (xs : List ℕ)
    → is_connected c.status ≡ false
    → send_in_loop os c xs ≡ some d
    → d ≡ c
unfolding send_in_loop
send_idle os c d xs off e = ground arith

pub read_link :
    (recv : MsgBuffer → MsgBuffer) (answer : Reply) (l l' : Link) (o : Option (MsgBuffer × Reply))
    → (o >>= λ (b, r). some (after_read recv (record l { read_buffer = b }) r)) ≡ some l'
    → (b : MsgBuffer) × (r : Reply) × (l' ≡ after_read recv (record l { read_buffer = b }) r)
read_link recv answer l l' none e = absurd (ground arith)
read_link recv answer l l' (some (b, r)) e = (b, r, ground arith)

Quiet-Up : {c d : Conn} → Up c → Quiet c d → Up d
Quiet-Up {c} {d} u q = record {
  state = (let before = u.state in let after = q.state in ground arith);
  heard = q.heard ∙ u.heard;
  reads = q.reading ∙ u.reads;
}

module _ {plain : Bool} where
  pub Up-Stage : {c : Conn} → Up c → Stage plain c
  Up-Stage u = up u.state u.heard u.reads

  -- A quiet call that does nothing unless the connection is up.
  pub Quiet-Stage :
      {c d : Conn}
      → Stage plain c
      → Quiet c d
      → ((c.status ≡ connecting) ⊎ (c.status ≡ disconnected) → c.writing ≡ false → d ≡ c)
      → Stage plain d
  Quiet-Stage (fresh s e r w) q idle = subst (Stage plain) (sym (idle (inl s) w)) (fresh s e r w)
  Quiet-Stage (up s e r) q idle = Up-Stage (Quiet-Up (record { state = s; heard = e; reads = r }) q)
  Quiet-Stage (down s e r w) q idle = subst (Stage plain) (sym (idle (inr s) w)) (down s e r w)

  pub handle_close-Stage : (l : Link) → Up l.conn → Stage plain (handle_close l).conn
  unfolding handle_close stop_events log
  handle_close-Stage l u =
      down refl
        (inl (
          loud-append (l.conn.events ++ (connection_callback ∷ [])) (close_callback ∷ [])
          ∙ ap (λ es. es ++ (close_callback ∷ []))
              (loud-append l.conn.events (connection_callback ∷ []))
          ∙ ap (λ es. (es ++ (connection_callback ∷ [])) ++ (close_callback ∷ [])) u.heard))
        refl refl

  pub connect_established-Stage :
      (l l' : Link) → Stage plain l.conn → connect_established l ≡ some l' → Stage plain l'.conn
  unfolding connect_established log
  connect_established-Stage l l' (fresh s e r w) h =
      let made : l'.conn
          ≡ log connection_callback (record l.conn { reading = true; status = connected }) =
        ground arith in
      subst (Stage plain) (sym made) (
        up (inl refl)
          (loud-append l.conn.events (connection_callback ∷ [])
            ∙ ap (λ es. es ++ (connection_callback ∷ [])) e)
          refl)
  connect_established-Stage l l' (up s e r) h = absurd (ground arith)
  connect_established-Stage l l' (down s e r w) h = absurd (ground arith)

  pub force_close-Stage : (l : Link) → Stage plain l.conn → Stage plain (force_close l).conn
  unfolding force_close
  force_close-Stage l (fresh s e r w) =
      rw (not_up l.conn.status (inl s)).0 (rw (not_up l.conn.status (inl s)).1 (fresh s e r w))
  force_close-Stage l (down s e r w) =
      rw (not_up l.conn.status (inr s)).0 (rw (not_up l.conn.status (inr s)).1 (down s e r w))
  force_close-Stage l (up s e r) =
      let either : (is_connected l.conn.status || is_disconnecting l.conn.status) ≡ true =
        ground arith in
      rw either (
        handle_close-Stage (record l { conn = record l.conn { status = disconnecting } })
          (record { state = inr refl; heard = e; reads = r }))

  pub shutdown-Stage : (c : Conn) → Stage plain c → Stage plain (shutdown c)
  unfolding shutdown
  shutdown-Stage c s = Quiet-Stage s (shutdown-Quiet c) (λ h w. rw (not_up c.status h).0 refl)

  pub send_in_loop-Stage :
      (os : Kernel) (c d : Conn) (xs : List ℕ)
      → Stage plain c
      → send_in_loop os c xs ≡ some d
      → Stage plain d
  send_in_loop-Stage os c d xs s e =
      Quiet-Stage s ((send_in_loop-Quietly os c xs).each d e)
        (λ h w. send_idle os c d xs (not_up c.status h).0 e)

  pub connect_destroyed-Stage :
      (l l' : Link) → Stage plain l.conn → connect_destroyed l ≡ some l' → Stage plain l'.conn
  unfolding connect_destroyed remove_channel stop_events log
  connect_destroyed-Stage l l' (fresh s e r w) h =
      let same : l'.conn ≡ l.conn = ground arith in subst (Stage plain) (sym same) (fresh s e r w)
  connect_destroyed-Stage l l' (down s e r w) h =
      let same : l'.conn ≡ l.conn = ground arith in subst (Stage plain) (sym same) (down s e r w)
  connect_destroyed-Stage l l' (up (inr s) e r) h = absurd (ground arith)
  connect_destroyed-Stage l l' (up (inl s) e r) h =
      let made : l'.conn
          ≡ log connection_callback (stop_events (record l.conn { status = disconnected })) =
        ground arith in
      subst (Stage plain) (sym made) (
        down refl
          (inr (
            inl (
              loud-append l.conn.events (connection_callback ∷ [])
              ∙ ap (λ es. es ++ (connection_callback ∷ [])) e)))
          refl refl)

  pub extend_life-Stage : (c : Conn) → Stage plain c → Stage plain (log extend_life c)
  unfolding log
  extend_life-Stage c (fresh s e r w) = fresh s ((log-Quiet extend_life c refl).heard ∙ e) r w
  extend_life-Stage c (up s e r) = up s ((log-Quiet extend_life c refl).heard ∙ e) r
  extend_life-Stage c (down s (inl e) r w) =
      down s (inl ((log-Quiet extend_life c refl).heard ∙ e)) r w
  extend_life-Stage c (down s (inr (inl e)) r w) =
      down s (inr (inl ((log-Quiet extend_life c refl).heard ∙ e))) r w
  extend_life-Stage c (down s (inr (inr (odd, e))) r w) =
      down s (inr (inr (odd, (log-Quiet extend_life c refl).heard ∙ e))) r w

  -- `readCallback` of a connection that is up.
  after_read-Stage :
      (recv : MsgBuffer → MsgBuffer) (l : Link) (r : Reply)
      → Up l.conn
      → Stage plain (after_read recv l r).conn
  unfolding after_read
  after_read-Stage recv l (failed errno) u =
      elim (Bool-cases (errno == epipe || errno == econnreset)) [
        | inl gone ↦ rw gone (Up-Stage u)
        | inr other ↦ rw other (elim (Bool-cases (errno == eagain)) [
          | inl again ↦ rw again (Up-Stage u)
          | inr bad ↦ rw bad (handle_close-Stage l u)
        ])
      ]
  after_read-Stage recv l (got xs) u = elim (Bool-cases (length xs == 0)) [
    | inl closed ↦ rw closed (extend_life-Stage _ (handle_close-Stage l u))
    | inr more ↦ rw more (Up-Stage (Quiet-Up u (log-Quiet extend_life l.conn refl)))
  ]

  pub read_callback-Stage :
      (recv : MsgBuffer → MsgBuffer) (answer : Reply) (l l' : Link)
      → Up l.conn
      → read_callback recv answer l ≡ some l'
      → Stage plain l'.conn
  unfolding read_callback
  read_callback-Stage recv answer l l' u e =
      let (b, r, made) = read_link recv answer l l' (read_fd l.read_buffer answer) e in
      subst (λ k. Stage plain k.conn) (sym made)
        (after_read-Stage recv (record l { read_buffer = b }) r u)
